-- ===== src/Pool/Slots.antt =====
-- Where the slots of a page lie: behind the page node, inside the page and apart from one another.
use himu_os.Prelude.{
  ℕ, zero, suc, ◌+◌, ◌-◌, ◌*◌, ◌/◌, ◌%◌, ◌^◌, ◌≤◌, ◌<◌, ◌≡◌, ◌⊎◌, inl, inr, refl, sym, ap, ◌∙◌,
  subst, List, [], ◌∷◌, ◌==◌, ltb, count, length, add64, sub64, u64_mod, Bool-cases,
  bit_and-negation, digit_at, arith,
}
use Prim.Native.Nat.{bit_and}
use native.Mathlib.Nat.{suc-mul, div-mul-le_self}
use himu_os.Pool.Layout.{header_size, slots_per_page_of, link_slots, lay_out}

-- A multiple of 8 bytes, at least the size of a node, whose header leaves room for a slot on a page.
abbrev pub IsSlotSize : ℕ → Type 0
IsSlotSize size =
    (size % 8 ≡ 0)
    × (8 ≤ size)
    × (size ≤ 4096)
    × (header_size size < 4096)
    × (0 < slots_per_page_of size)

-- The lowest bit of a multiple of 8.
header_lowest :
    (k : ℕ) → 0 < k → k < 2 ^ 60 → bit_and (8 * k + 7) (2 ^ 64 - 8 * k) ≡ 8 * bit_and k (2 ^ 61 - k)
header_lowest k pos small = omega (
  arith,
  digit_at (8 * k + 7) (2 ^ 64 - 8 * k) (4 * k + 3) (2 ^ 63 - 4 * k) (omega arith) (omega arith),
  digit_at (4 * k + 3) (2 ^ 63 - 4 * k) (2 * k + 1) (2 ^ 62 - 2 * k) (omega arith) (omega arith),
  digit_at (2 * k + 1) (2 ^ 62 - 2 * k) k (2 ^ 61 - k) (omega arith) (omega arith),
)

-- The header holds the page node, and keeps slots aligned to 8 bytes.
pub header_size_bounds :
    (size : ℕ) → IsSlotSize size → (8 ≤ header_size size) × (header_size size % 8 ≡ 0)
unfolding header_size
header_size_bounds size (aligned, least, most, room, some_slot) =
    let k = size / 8 in
    let whole : size ≡ 8 * k = omega (arith, aligned) in
    let value : add64 8 (sub64 size 1) ≡ 8 * k + 7 = omega (arith, whole) in
    let mask : u64_mod - 1 - sub64 size 1 ≡ 2 ^ 64 - 8 * k = omega (arith, whole) in
    rw (value, mask)
      (omega (
        arith,
        header_lowest k (omega arith) (omega arith),
        bit_and-negation 61 k (omega arith) (omega arith),
      ))

abbrev pub IsSlot : ℕ → ℕ → ℕ → Type 0
IsSlot size b a = (i : ℕ) × (i < slots_per_page_of size) × (a ≡ b + header_size size + i * size)

rows : (i n size : ℕ) → i < n → i * size + size ≤ n * size
rows i n size h = grind arith

fits : (size : ℕ) → IsSlotSize size → header_size size + slots_per_page_of size * size ≤ 4096
unfolding slots_per_page_of
fits size v =
    let q = (4096 - header_size size) / size in
    let whole : q * size ≤ 4096 - header_size size =
      div-mul-le_self (4096 - header_size size) size in
    let small : q ≤ q * size = grind arith in
    let same : q % 2 ^ 32 ≡ q = omega arith in rw same (omega (arith, whole, v.3))

eights : (i size : ℕ) → size % 8 ≡ 0 → (i * size) % 8 ≡ 0
eights zero size e = omega arith
eights (suc i) size e = omega (arith, eights i size e, suc-mul i size)

-- A slot lies behind the page node and inside the page, on 8 bytes.
pub IsSlot-inside :
    (size b a : ℕ)
    → IsSlotSize size
    → IsSlot size b a
    → (b + 8 ≤ a) × (a + size ≤ b + 4096) × ((b % 8 ≡ 0) → a % 8 ≡ 0)
IsSlot-inside size b a v (i, h, at) =
    let (least, eight) = header_size_bounds size v in
    let row = rows i (slots_per_page_of size) size h in
    (omega arith, omega (arith, fits size v), λ e. omega (arith, eights i size v.0, e))

-- Two slots of a page are one or lie apart.
pub IsSlot-apart :
    (size b a a' : ℕ)
    → IsSlot size b a
    → IsSlot size b a'
    → (a ≡ a') ⊎ ((a + size ≤ a') ⊎ (a' + size ≤ a))
IsSlot-apart size b a a' (i, hi, at) (j, hj, at') = elim (compare_cases i j) [
  | inl e ↦ inl (at ∙ ap (λ t. b + header_size size + t * size) e ∙ sym at')
  | inr (inl lt) ↦ inr (inl (omega (arith, rows i j size lt)))
  | inr (inr gt) ↦ inr (inr (omega (arith, rows j i size gt)))
]
  where
    compare_cases : (i j : ℕ) → (i ≡ j) ⊎ ((i < j) ⊎ (j < i))
    compare_cases i j = elim (Bool-cases (i == j)) [
      | inl e ↦ inl (ground arith)
      | inr e ↦ elim (Bool-cases (ltb i j)) [
        | inl f ↦ inr (inl (ground arith))
        | inr f ↦ inr (inr (ground arith))
      ]
    ]

-- The loop links each slot once.
module _ (base size : ℕ) (some_size : 0 < size) where
  abbrev IsLinked : ℕ → List ℕ → Type 0
  IsLinked i slots =
      (length slots ≡ i)
      × ((a : ℕ) → count a slots ≤ 1)
      × ((a : ℕ) → 0 < count a slots → (j : ℕ) × (j < i) × (a ≡ base + j * size))

  link_one :
      (i : ℕ) (slots : List ℕ) → IsLinked i slots → IsLinked (suc i) ((base + i * size) ∷ slots)
  link_one i slots (long, once, placed) = (
    ap suc long,
    λ a. elim (Bool-cases (base + i * size == a)) [
      | inr e ↦ rw e (once a)
      | inl e ↦ rw e (elim (Bool-cases (count a slots == 0)) [
        | inl none_yet ↦ ground arith
        | inr some_yet ↦
            let (j, h, at) = placed a (ground arith) in
            absurd (ground (arith, rows j i size h, at, e))
      ])
    ],
    λ a stands. elim (Bool-cases (base + i * size == a)) [
      | inl e ↦ (i, omega arith, ground arith)
      | inr e ↦ let (j, h, at) = placed a (ground (arith, stands, e)) in (j, omega arith, at)
    ],
  )

  link_slots-IsLinked :
      (left i : ℕ) (slots : List ℕ)
      → IsLinked i slots
      → IsLinked (i + left) (link_slots base size i left slots)
  unfolding link_slots
  link_slots-IsLinked zero i slots linked = let same : i + 0 ≡ i = omega arith in rw same linked
  link_slots-IsLinked (suc left) i slots linked =
      let same : i + suc left ≡ suc i + left = omega arith in
      rw same
        (link_slots-IsLinked left (suc i) ((base + i * size) ∷ slots) (link_one i slots linked))

-- A page laid out has as many slots as it counts, each once.
pub lay_out-slots :
    (base size : ℕ)
    → 0 < size
    → (length (lay_out base size).slots ≡ slots_per_page_of size)
      × ((a : ℕ) → count a (lay_out base size).slots ≤ 1)
      × ((a : ℕ) → 0 < count a (lay_out base size).slots → IsSlot size base a)
unfolding lay_out
lay_out-slots base size pos =
    let slots = (lay_out base size).slots in
    let all : 0 + slots_per_page_of size ≡ slots_per_page_of size = omega arith in
    subst (λ n. IsLinked (base + header_size size) size pos n slots) all
      (link_slots-IsLinked (base + header_size size) size pos (slots_per_page_of size) 0 []
        (refl, (λ a. omega arith), λ a stands. absurd (omega arith)))
