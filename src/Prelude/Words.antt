-- ===== src/Prelude/Words.antt =====
-- Machine words as native numbers: the wrap-around of unsigned 32-bit and 64-bit arithmetic is
-- written out. Macros of include/_hobase.h on 64-bit values.
use Prim.Native.Nat.{ℕ, zero, suc, ◌+◌, ◌-◌, ◌*◌, ◌%◌, ◌^◌, ◌<◌, bit_and}
use mathlib.Core.Path.{◌≡◌}
use mathlib.Core.Bool.{Bool, true, ◌&&◌}
use native.Mathlib.Omega.{arith}

abbrev pub u64_mod : ℕ
u64_mod = 2 ^ 64

abbrev pub u32_mod : ℕ
u32_mod = 2 ^ 32

abbrev pub add64 : ℕ → ℕ → ℕ
add64 a b = (a + b) % u64_mod

-- `-` on ℕ stops at 0, so the modulus is added first; both operands are words.
abbrev pub sub64 : ℕ → ℕ → ℕ
sub64 a b = (a + u64_mod - b) % u64_mod

abbrev pub mul64 : ℕ → ℕ → ℕ
mul64 a b = (a * b) % u64_mod

abbrev pub add32 : ℕ → ℕ → ℕ
add32 a b = (a + b) % u32_mod

abbrev pub sub32 : ℕ → ℕ → ℕ
sub32 a b = (a + u32_mod - b) % u32_mod

-- HO_ALIGN_UP and its mask, for alignments of at least 1.
abbrev pub align_up : ℕ → ℕ → ℕ
align_up value alignment =
    bit_and (add64 value (sub64 alignment 1)) (u64_mod - 1 - sub64 alignment 1)

-- A test of every value below a bound, by evaluation, and what it shows.
module _ (test : ℕ → Bool) where
  unfoldable pub passes_below : ℕ → Bool
  passes_below zero = true
  passes_below (suc n) = passes_below n && test n

  pub passes_below_sound : (n k : ℕ) → k < n → passes_below n ≡ true → test k ≡ true
  unfolding passes_below
  passes_below_sound zero k h all = absurd (omega arith)
  passes_below_sound (suc n) k h all = ground (arith, passes_below_sound n k)
