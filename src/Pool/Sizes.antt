-- ===== src/Pool/Sizes.antt =====
-- The sizes of KePoolInit in kernel/ke/mm/pool.c: a slot holds its object, and the pages hold the capacity.
use himu_os.Prelude.{
  ℕ, ◌+◌, ◌-◌, ◌*◌, ◌/◌, ◌%◌, ◌^◌, ◌≤◌, ◌<◌, ◌≡◌, inl, inr, refl, ap, ◌==◌, add32, sub32, add64,
  sub64, u64_mod, Bool-cases, bit_and-ones, digit_at, arith,
}
use Prim.Native.Nat.{bit_and}
use native.Mathlib.Nat.{div-mul-le_self, mod-add-div, mod-lt, mul_comm}
use himu_os.Pool.Layout.{slot_size_of, header_size, slots_per_page_of}
use himu_os.Pool.Start.{needed_pages_of}
use himu_os.Pool.Slots.{IsSlotSize}

-- A slot is an object rounded up to 8 bytes.
pub slot_size_bounds :
    (object : ℕ)
    → object < 2 ^ 63
    → (slot_size_of object % 8 ≡ 0) × (8 ≤ slot_size_of object) × (object ≤ slot_size_of object)
unfolding slot_size_of
slot_size_bounds object small =
    let value : add64 object (sub64 8 1) ≡ object + 7 = omega arith in
    let mask : u64_mod - 1 - sub64 8 1 ≡ 2 ^ 64 - 8 = omega arith in
    let a = object + 7 in
    let eights : bit_and a (2 ^ 64 - 8) ≡ a / 8 * 8 = omega (
      arith,
      digit_at a (2 ^ 64 - 8) (a / 2) (2 ^ 63 - 4) refl (omega arith),
      digit_at (a / 2) (2 ^ 63 - 4) (a / 4) (2 ^ 62 - 2) (omega arith) (omega arith),
      digit_at (a / 4) (2 ^ 62 - 2) (a / 8) (2 ^ 61 - 1) (omega arith) (omega arith),
      bit_and-ones 61 (a / 8) (omega arith),
    ) in
    rw (value, mask, eights) (ground arith)

pub needed_pages_of-covers :
    (capacity slots : ℕ)
    → 0 < slots
    → slots ≤ 4096
    → capacity < 2 ^ 31
    → (capacity ≤ needed_pages_of capacity slots * slots)
      × (needed_pages_of capacity slots * slots < 2 ^ 32)
unfolding needed_pages_of
needed_pages_of-covers capacity slots pos small room =
    let value : sub32 (add32 capacity slots) 1 ≡ capacity + slots - 1 = omega arith in
    let q = (capacity + slots - 1) / slots in
    let whole : (capacity + slots - 1) % slots + slots * q ≡ capacity + slots - 1 =
      mod-add-div (capacity + slots - 1) slots in
    let rest : (capacity + slots - 1) % slots < slots = mod-lt (capacity + slots - 1) pos in
    rw value (elim (Bool-cases (q == 0)) [
      | inl e ↦
          let none : q ≡ 0 = ground arith in
          rw e (omega (arith, whole, rest, ap (λ (t : ℕ). slots * t) none))
      | inr e ↦ rw e (omega (arith, whole, rest, mul_comm slots q))
    ])

-- A size whose slots fit a page.
pub fitting-IsSlotSize :
    (object : ℕ)
    → object < 2 ^ 63
    → header_size (slot_size_of object) < 4096
    → 0 < slots_per_page_of (slot_size_of object)
    → IsSlotSize (slot_size_of object)
unfolding slots_per_page_of
fitting-IsSlotSize object small header some_slot =
    let size = slot_size_of object in
    let (eights, least, holds) = slot_size_bounds object small in
    let q = (4096 - header_size size) / size in
    let whole : q * size ≤ 4096 - header_size size =
      div-mul-le_self (4096 - header_size size) size in
    let some_q : 0 < q = omega arith in
    let row : size ≤ q * size = grind arith in
    (eights, least, omega (arith, whole, row), header, some_slot)

pub slots_per_page_of-le : (size : ℕ) → 8 ≤ size → slots_per_page_of size ≤ 4096
unfolding slots_per_page_of
slots_per_page_of-le size least =
    let q = (4096 - header_size size) / size in
    let whole : q * size ≤ 4096 - header_size size =
      div-mul-le_self (4096 - header_size size) size in
    let row : q ≤ q * size = grind arith in omega (arith, whole, row)
