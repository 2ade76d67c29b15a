-- ===== src/Pmm/Bits.antt =====
-- The two-bit fields of a byte are independent: the laws of `page_bits` and `put_bits`, by a table
-- over all bytes, fields and states.
use himu_os.Prelude.{
  ℕ, ◌<◌, ◌≡◌, refl, Bool, true, ◌&&◌, ◌==◌, ltb, ==_iff, if◌then◌else◌, passes_below,
  passes_below_sound, arith,
}
use himu_os.Pmm.Bitmap.{page_bits, put_bits}

abbrev field_test : ℕ → ℕ → ℕ → ℕ → Bool
field_test b k s j = page_bits (put_bits b k s) j == (if k == j then s else page_bits b j)

abbrev field_table : ℕ → ℕ → ℕ → Bool
field_table b k s = passes_below (field_test b k s) 4 && ltb (put_bits b k s) 256

abbrev byte_table : ℕ → Bool
byte_table b = passes_below (λ k. passes_below (λ s. field_table b k s) 4) 4

byte_table_full : passes_below byte_table 256 ≡ true
unfolding passes_below page_bits put_bits
byte_table_full = refl

field_table_at : (b k s : ℕ) → b < 256 → k < 4 → s < 4 → field_table b k s ≡ true
field_table_at b k s hb hk hs =
    let byte = passes_below_sound byte_table 256 b hb byte_table_full in
    let row = passes_below_sound _ 4 k hk byte in passes_below_sound _ 4 s hs row

pub put_bits-lt : (b k s : ℕ) → b < 256 → k < 4 → s < 4 → put_bits b k s < 256
put_bits-lt b k s hb hk hs = ground (arith, field_table_at b k s hb hk hs)

pub page_bits-put_bits :
    (b k s j : ℕ)
    → b < 256
    → k < 4
    → s < 4
    → j < 4
    → page_bits (put_bits b k s) j ≡ (if k == j then s else page_bits b j)
page_bits-put_bits b k s j hb hk hs hj =
    (==_iff _ _).0
      (passes_below_sound (field_test b k s) 4 j hj (ground (arith, field_table_at b k s hb hk hs)))

abbrev read_table : ℕ → Bool
read_table b = passes_below (λ k. ltb (page_bits b k) 4) 4

read_table_full : passes_below read_table 256 ≡ true
unfolding passes_below page_bits
read_table_full = refl

pub page_bits-lt : (b k : ℕ) → b < 256 → k < 4 → page_bits b k < 4
page_bits-lt b k hb hk =
    let row = passes_below_sound read_table 256 b hb read_table_full in
    let cell : ltb (page_bits b k) 4 ≡ true = passes_below_sound _ 4 k hk row in ground arith
