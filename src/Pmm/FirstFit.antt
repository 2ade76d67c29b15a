-- ===== src/Pmm/FirstFit.antt =====
-- The scan of `alloc_pages` is a first-fit search: it ends with the lowest aligned run of free
-- pages below the limit, and with none exactly when there is none.
use himu_os.Prelude.{
  ℕ, zero, suc, ◌+◌, ◌-◌, ◌%◌, ◌^◌, ◌≤◌, ◌<◌, ◌≡◌, ◌≢◌, inl, inr, false, ◌&&◌, not, Option, none,
  some, ◌==◌, ltb, leb, Bool-cases, add64, arith,
}
use himu_os.Pmm.Bitmap.{Context, get_state}
use himu_os.Pmm.Sink.{first_used, scan}

-- `count` free pages from `i` on, aligned and below the limit.
pub record Fits (ctx : Context) (count align max i : ℕ) : Type 0 where
  pub below : i + count ≤ max
  pub aligned : i % align ≡ 0
  pub all_free : (j : ℕ) → i ≤ j → j < i + count → get_state ctx j ≡ 0

abbrev pub FirstFit : Context → ℕ → ℕ → ℕ → ℕ → Option ℕ → Type 0
FirstFit ctx count align max from none = (k : ℕ) → from ≤ k → ¬ Fits ctx count align max k
FirstFit ctx count align max from (some i) =
    (from ≤ i)
    × Fits ctx count align max i
    × ((k : ℕ) → from ≤ k → k < i → ¬ Fits ctx count align max k)

-- `first_used` finds the first page in use, and nothing when all are free.
abbrev FirstUsed : Context → ℕ → ℕ → ℕ → Option ℕ → Type 0
FirstUsed ctx i j n none = (k : ℕ) → i + j ≤ k → k < i + j + n → get_state ctx k ≡ 0
FirstUsed ctx i j n (some u) = (j ≤ u) × (u < j + n) × (get_state ctx (i + u) ≢ 0)

FirstUsed-next :
    (ctx : Context) (i j n : ℕ) (r : Option ℕ)
    → get_state ctx (i + j) ≡ 0
    → FirstUsed ctx i (j + 1) n r
    → FirstUsed ctx i j (suc n) r
FirstUsed-next ctx i j n none here rest = λ k lo hi. elim (Bool-cases (k == i + j)) [
  | inl e ↦ let at : k ≡ i + j = ground arith in rw at here
  | inr e ↦ rest k (ground arith) (omega arith)
]
FirstUsed-next ctx i j n (some u) here (lo, hi, used) = (omega arith, omega arith, used)

first_used-FirstUsed : (ctx : Context) (i j n : ℕ) → FirstUsed ctx i j n (first_used ctx i j n)
unfolding first_used
first_used-FirstUsed ctx i j zero = λ k lo hi. absurd (omega arith)
first_used-FirstUsed ctx i j (suc n) = elim (Bool-cases (get_state ctx (i + j) == 0)) [
  | inl e ↦ rw e (
      FirstUsed-next ctx i j n (first_used ctx i (j + 1) n) (ground arith)
        (first_used-FirstUsed ctx i (j + 1) n))
  | inr e ↦ rw e (omega arith, omega arith, ground arith)
]

-- A search may start later when nothing fits before.
skip :
    (ctx : Context) (count align max i i' : ℕ) (r : Option ℕ)
    → i ≤ i'
    → ((k : ℕ) → i ≤ k → k < i' → ¬ Fits ctx count align max k)
    → FirstFit ctx count align max i' r
    → FirstFit ctx count align max i r
skip ctx count align max i i' none later gap rest = λ k lo fits. elim (Bool-cases (ltb k i')) [
  | inl e ↦ gap k lo (ground arith) fits
  | inr e ↦ rest k (ground arith) fits
]
skip ctx count align max i i' (some b) later gap (lo, fits, least) = (
  omega arith,
  fits,
  λ k klo khi kfits. elim (Bool-cases (ltb k i')) [
    | inl e ↦ gap k klo (ground arith) kfits
    | inr e ↦ least k (ground arith) khi kfits
  ],
)

-- Between two multiples nothing is aligned.
mod_offset : (i a d : ℕ) → i % a + d < a → (i + d) % a ≡ i % a + d
mod_offset i a d h = grind arith

not_aligned : (i a k : ℕ) → i % a ≢ 0 → i ≤ k → k < i + (a - i % a) → k % a ≢ 0
not_aligned i a k off lo hi e =
    let gap : i + (k - i) ≡ k = omega arith in
    let aligned : (i + (k - i)) % a ≡ 0 = rw gap e in
    omega (arith, mod_offset i a (k - i) (omega arith))

-- What a used page rules out.
used_blocks :
    (ctx : Context) (count align max i u k : ℕ)
    → get_state ctx (i + u) ≢ 0
    → u < count
    → i ≤ k
    → k < i + u + 1
    → ¬ Fits ctx count align max k
used_blocks ctx count align max i u k used hu lo hi fits =
    used (fits.all_free (i + u) (omega arith) (omega arith))

-- The limit is at most 2 ^ 52 pages, all that 64-bit addresses reach, and so nothing wraps; every
-- round moves `i` up, so `max + 1` rounds from 0 are enough.
module _ (ctx : Context) (count align max : ℕ) (pos : 0 < align) (small_align : align ≤ 2 ^ 63)
    (small : max ≤ 2 ^ 52) (fits : count ≤ max) where
  -- A round at an aligned index, by what the inner loop found.
  examine :
      (fuel i : ℕ) (r : Option ℕ)
      → FirstUsed ctx i 0 count r
      → i + count ≤ max
      → (ltb 1 align && not (i % align == 0)) ≡ false
      → ((u : ℕ)
          → u < count
          → FirstFit ctx count align max (i + u + 1) (scan fuel ctx count align max (i + u + 1)))
      → FirstFit ctx count align max i
          (elim r [ some j ↦ scan fuel ctx count align max (add64 (add64 i j) 1) | none ↦ some i ])
  examine fuel i none free room on rest = (
    omega arith,
    record {
      below = room;
      aligned = aligned;
      all_free = λ j lo hi. free j (omega arith) (omega arith);
    },
    λ k lo hi. absurd (omega arith),
  )
    where
      aligned : i % align ≡ 0
      aligned = elim (Bool-cases (ltb 1 align)) [
        | inl e ↦ ground arith
        | inr e ↦ let one : align ≡ 1 = ground arith in rw one (omega arith)
      ]
  examine fuel i (some u) (lo, hi, used) room on rest =
      let next : add64 (add64 i u) 1 ≡ i + u + 1 = omega arith in
      rw (next, FirstFit)
        (skip ctx count align max i (i + u + 1) _ (omega arith)
          (λ k klo khi. used_blocks ctx count align max i u k used (omega arith) klo khi)
          (rest u (omega arith)))

  pub scan-FirstFit :
      (fuel i : ℕ)
      → max < fuel + i
      → i ≤ 2 ^ 63 + 2 ^ 52
      → FirstFit ctx count align max i (scan fuel ctx count align max i)
  unfolding scan
  scan-FirstFit zero i enough bound = λ k lo f. absurd (omega (arith, f.below))
  scan-FirstFit (suc fuel) i enough bound = elim (Bool-cases (leb (add64 i count) max)) [
    | inr over ↦ rw (over, FirstFit) (λ k lo f. absurd (ground (arith, f.below)))
    | inl within ↦
        let room : i + count ≤ max = ground arith in
        rw (within, FirstFit)
          (elim (Bool-cases (ltb 1 align && not (i % align == 0))) [
            | inl off ↦
                let next : add64 i (align - i % align) ≡ i + (align - i % align) = omega arith in
                rw (off, next, FirstFit)
                  (skip ctx count align max i (i + (align - i % align)) _ (omega arith)
                    (λ k lo hi f. not_aligned i align k (ground arith) lo hi f.aligned)
                    (scan-FirstFit fuel (i + (align - i % align)) (omega arith) (omega arith)))
            | inr on ↦
                rw (on, FirstFit)
                  (examine fuel i (first_used ctx i 0 count) (first_used-FirstUsed ctx i 0 count)
                    room on (λ u hu. scan-FirstFit fuel (i + u + 1) (omega arith) (omega arith)))
          ])
  ]
