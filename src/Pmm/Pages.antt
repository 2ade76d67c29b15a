-- ===== src/Pmm/Pages.antt =====
-- The page table as an array of states: what a read gives after a write of one page or of a range.
use himu_os.Prelude.{
  ℕ, zero, suc, ◌+◌, ◌*◌, ◌/◌, ◌%◌, ◌≤◌, ◌<◌, ◌≡◌, ◌≢◌, ◌∙◌, inl, inr, refl, true, ◌&&◌, ◌==◌, ltb,
  leb, if◌then◌else◌, Bool-cases, length, get_or, length-set, get_or-set_self, get_or-set_ne,
  get_or_set, arith,
}
use himu_os.Pmm.Bitmap.{Context, put_bits, get_state, set_state, set_range, check_range}
use himu_os.Pmm.Bits.{put_bits-lt, page_bits-put_bits, page_bits-lt}

-- The buffer holds bytes, and a field for every managed page.
pub record IsBuffer (ctx : Context) : Type 0 where
  pub bytes : (k : ℕ) → get_or ctx.bitmap k 0 < 256
  pub covers : ctx.total_managed_pages ≤ 4 * length ctx.bitmap

pub get_state-lt : (ctx : Context) (i : ℕ) → IsBuffer ctx → get_state ctx i < 4
unfolding get_state
get_state-lt ctx i b = page_bits-lt _ (i % 4) (b.bytes (i / 4)) (omega arith)

pub get_state-set_state :
    (ctx : Context) (i s j : ℕ)
    → IsBuffer ctx
    → i < ctx.total_managed_pages
    → s < 4
    → get_state (set_state ctx i s) j ≡ (if i == j then s else get_state ctx j)
unfolding get_state set_state
get_state-set_state ctx i s j b hi hs = elim (Bool-cases (i / 4 == j / 4)) [
  | inl same ↦
      let here : i / 4 ≡ j / 4 = ground arith in
      let in_buffer : i / 4 < length ctx.bitmap = omega (arith, b.covers) in
      rw (← here) (
        rw (get_or-set_self ctx.bitmap (i / 4) _ 0 in_buffer) (
          ground (
            arith,
            page_bits-put_bits (get_or ctx.bitmap (i / 4) 0) (i % 4) s (j % 4) (b.bytes (i / 4)),
          )))
  | inr other ↦
      let apart : i / 4 ≢ j / 4 = ground arith in
      rw (get_or-set_ne ctx.bitmap (i / 4) (j / 4) _ 0 apart) (ground arith)
]

-- Neither the buffer nor a field other than the buffer's contents is touched otherwise.
pub set_state-IsBuffer :
    (ctx : Context) (i s : ℕ) → IsBuffer ctx → s < 4 → IsBuffer (set_state ctx i s)
unfolding set_state
set_state-IsBuffer ctx i s b hs =
    let byte = get_or ctx.bitmap (i / 4) 0 in
    record {
      bytes = λ k.
          get_or_set (λ x. x < 256) ctx.bitmap (i / 4) k _ 0
            (put_bits-lt byte (i % 4) s (b.bytes (i / 4)) (omega arith) hs) (b.bytes k);
      covers = omega (arith, b.covers, length-set ctx.bitmap (i / 4) (put_bits byte (i % 4) s));
    }

pub total-set_state :
    (ctx : Context) (i s : ℕ) → (set_state ctx i s).total_managed_pages ≡ ctx.total_managed_pages
unfolding set_state
total-set_state ctx i s = refl

-- What `set_range` leaves alone.
pub record SameFields (c d : Context) : Type 0 where
  pub base : c.managed_base_phys ≡ d.managed_base_phys
  pub total : c.total_managed_pages ≡ d.total_managed_pages
  pub free : c.free_pages ≡ d.free_pages
  pub allocated : c.allocated_pages ≡ d.allocated_pages
  pub reserved : c.reserved_pages ≡ d.reserved_pages

set_state-SameFields : (ctx : Context) (i s : ℕ) → SameFields (set_state ctx i s) ctx
unfolding set_state
set_state-SameFields ctx i s = record {
  base = refl;
  total = refl;
  free = refl;
  allocated = refl;
  reserved = refl;
}

pub set_range-SameFields :
    (ctx : Context) (start n s : ℕ) → SameFields (set_range ctx start n s) ctx
unfolding set_range
set_range-SameFields ctx start zero s = record {
  base = refl;
  total = refl;
  free = refl;
  allocated = refl;
  reserved = refl;
}
set_range-SameFields ctx start (suc n) s =
    let rest = set_range-SameFields (set_state ctx start s) (start + 1) n s in
    let one = set_state-SameFields ctx start s in
    record {
      base = rest.base ∙ one.base;
      total = rest.total ∙ one.total;
      free = rest.free ∙ one.free;
      allocated = rest.allocated ∙ one.allocated;
      reserved = rest.reserved ∙ one.reserved;
    }

pub set_range-IsBuffer :
    (ctx : Context) (start n s : ℕ) → IsBuffer ctx → s < 4 → IsBuffer (set_range ctx start n s)
unfolding set_range
set_range-IsBuffer ctx start zero s b hs = b
set_range-IsBuffer ctx start (suc n) s b hs =
    set_range-IsBuffer (set_state ctx start s) (start + 1) n s (set_state-IsBuffer ctx start s b hs)
      hs

-- A range write is seen on the pages of the range and on no other.
pub get_state-set_range :
    (ctx : Context) (start n s j : ℕ)
    → IsBuffer ctx
    → start + n ≤ ctx.total_managed_pages
    → s < 4
    → get_state (set_range ctx start n s) j
      ≡ (if leb start j && ltb j (start + n) then s else get_state ctx j)
unfolding set_range
get_state-set_range ctx start zero s j b fits hs = ground arith
get_state-set_range ctx start (suc n) s j b fits hs = ground (
  arith,
  get_state-set_range (set_state ctx start s) (start + 1) n s j
      (set_state-IsBuffer ctx start s b hs),
  get_state-set_state ctx start s j b,
  total-set_state ctx start s,
)

-- The range check is exact.
pub check_range_sound :
    (ctx : Context) (start n s j : ℕ)
    → check_range ctx start n s ≡ true
    → start ≤ j
    → j < start + n
    → get_state ctx j ≡ s
unfolding check_range
check_range_sound ctx start zero s j h lo hi = absurd (omega arith)
check_range_sound ctx start (suc n) s j h lo hi =
    ground (arith, check_range_sound ctx (start + 1) n s j)

pub check_range_complete :
    (ctx : Context) (start n s : ℕ)
    → ((j : ℕ) → start ≤ j → j < start + n → get_state ctx j ≡ s)
    → check_range ctx start n s ≡ true
unfolding check_range
check_range_complete ctx start zero s all = refl
check_range_complete ctx start (suc n) s all = ground (
  arith,
  all start (omega arith) (omega arith),
  check_range_complete ctx (start + 1) n s (λ j lo hi. all j (omega arith) (omega arith)),
)
