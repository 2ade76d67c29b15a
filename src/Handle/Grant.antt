-- ===== src/Handle/Grant.antt =====
-- What an insert leaves behind, in the table and for the handle that it returns.
use himu_os.Prelude.{
  refl, ◌+◌, ◌*◌, ◌⊎◌, none, sym, true, false, get_or-set_ne, ℕ, ◌<◌, ◌≡◌, ◌≢◌, ap, ◌∙◌, inl, inr,
  some, ◌==◌, ec_success, Bool-cases, Option-cases, subst, length, get_or, set, get_or-set_self,
  arith,
}
use himu_os.Handle.Objects.{Slot, Ref, Process, Store, succeeds}
use himu_os.Handle.Codes.{
  invalid_handle, generation_mod, advance_generation, encode_handle, encode_sum,
  decode_handle-encode_handle,
}
use himu_os.Handle.Table.{
  empty_slot, is_free, slot_at, find_free, filled, lookup_slot, retain_handle_object, fill_slot,
  insert,
}
use himu_os.Handle.Slots.{FirstFree, find_free-FirstFree, IsTable, filled-IsTable}
use himu_os.Handle.Frame.{retain_handle_object-KeepsSlots, run-SameSlots}

-- The first free slot of the process's table was filled, and `handle` is that slot's.
abbrev pub Inserted : Process → Process → Ref → ℕ → ℕ → ℕ → Type 0
Inserted x x' r rights i handle =
    (find_free x.slots 0 ≡ some i)
    × (x'.slots ≡ set x.slots i (filled (slot_at x i) r rights))
    × (handle ≡ encode_handle i (filled (slot_at x i) r rights).generation)

pub insert-Inserted :
    (s : Store) (p : ℕ) (r : Ref) (rights : ℕ) (s' : Store) (handle : ℕ)
    → insert s p r rights ≡ some (s', ec_success, handle)
    → (x : Process) × (x' : Process) × (i : ℕ) × (s.processes p ≡ some x)
      × (s'.processes p ≡ some x')
      × Inserted x x' r rights i handle
unfolding insert fill_slot
insert-Inserted s p r rights s' handle e = elim (Option-cases (s.processes p)) [
  | inl n ↦ absurd (ground arith)
  | inr (x, at) ↦ elim (Bool-cases (rights == 0)) [
    | inl z ↦ absurd (ground arith)
    | inr z ↦ elim (Option-cases (find_free x.slots 0)) [
      | inl n ↦ absurd (ground arith)
      | inr (i, free) ↦ elim (Option-cases (retain_handle_object s r)) [
        | inl n ↦ absurd (ground arith)
        | inr ((s1, retained), run) ↦ elim (Bool-cases (succeeds retained)) [
          | inr bad ↦ absurd (ground arith)
          | inl ok ↦ elim (Option-cases (s1.processes p)) [
            | inl n ↦ absurd (ground arith)
            | inr (y, at1) ↦
                let (x', at', slots) =
                  run-SameSlots p s _ s1 retained (retain_handle_object-KeepsSlots p s r) run y
                    at1 in
                let one : x' ≡ x = ground arith in
                let slot = filled (slot_at y i) r rights in
                let same = slots ∙ ap (λ z. z.slots) one in
                let word : handle ≡ encode_handle i slot.generation = ground arith in
                (
                  x,
                  record y { slots = set y.slots i slot },
                  i,
                  at,
                  ground arith,
                  (
                    free,
                    ap (λ t. set t i (filled (get_or t i empty_slot) r rights)) same,
                    word
                        ∙ ap
                            (λ t.
                              encode_handle i (filled (get_or t i empty_slot) r rights).generation)
                            same,
                  ),
                )
          ]
        ]
      ]
    ]
  ]
]

-- The handle returned decodes to the slot and to the generation that the slot now has.
pub Inserted-lookup :
    (x x' : Process) (r : Ref) (rights i handle : ℕ)
    → IsTable x.slots
    → Inserted x x' r rights i handle
    → (lookup_slot handle ≡ some (i, (slot_at x' i).generation))
      × (slot_at x' i ≡ filled (slot_at x i) r rights)
      × (handle ≢ invalid_handle)
unfolding advance_generation
Inserted-lookup x x' r rights i handle t (free, table, word) =
    let found = subst (FirstFree x.slots 0) free (find_free-FirstFree x.slots 0) in
    let (k, is, low, empty, before) = found in
    let inside : i < length x.slots = omega (arith, is, low) in
    let slot = filled (slot_at x i) r rights in
    let at : slot_at x' i ≡ slot = rw (table) (get_or-set_self x.slots i slot empty_slot inside) in
    let small : slot.generation < generation_mod = ground (arith, t.small i) in
    let used : slot.generation ≢ 0 = ground arith in
    let (back, valid) =
      decode_handle-encode_handle i slot.generation (omega (arith, t.size, inside)) used small in
    (rw (at, word) back, at, rw (word) valid)

-- ExHandleInsert keeps the invariant of the table.
insert-IsTable :
    (s : Store) (p : ℕ) (x : Process) (r : Ref) (rights : ℕ) (s' : Store) (handle : ℕ)
    → s.processes p ≡ some x
    → IsTable x.slots
    → insert s p r rights ≡ some (s', ec_success, handle)
    → (x' : Process) × (s'.processes p ≡ some x') × IsTable x'.slots
insert-IsTable s p x r rights s' handle at t inserted =
    let (y, x', i, aty, at', placed) = insert-Inserted s p r rights s' handle inserted in
    let one : x ≡ y = ground arith in
    let (free, table, word) = placed in
    (x', at', rw (table) (filled-IsTable y.slots i r rights (subst (λ z. IsTable z.slots) one t)))

-- What an insert leaves, without the code's scan: slot `i` was the first without an object, it holds
-- the object under its generation, or 1 where it had none, the other slots are as they were, and the
-- handle is the generation over the index plus one.
abbrev pub IsPlaced : Process → Process → Ref → ℕ → ℕ → ℕ → Type 0
IsPlaced x x' r rights i handle =
    (i < 32)
    × ((slot_at x i).object ≡ none)
    × ((j : ℕ) → j < i → (slot_at x j).object ≢ none)
    × (generation : ℕ) × (((generation ≡ 1) × ((slot_at x i).generation ≡ 0))
        ⊎ ((generation ≡ (slot_at x i).generation) × (generation ≢ 0)))
    × (slot_at x' i ≡ record { object = some r; rights = rights; generation = generation })
    × ((j : ℕ) → j ≢ i → slot_at x' j ≡ slot_at x j)
    × (handle ≡ generation * 256 + (i + 1))

is_free_sound : (slot : Slot) → is_free slot ≡ true → slot.object ≡ none
is_free_sound slot e = elim (Option-cases slot.object) [
  | inl n ↦ n
  | inr (r, holds) ↦ absurd (ground arith)
]

pub in_use_sound : (slot : Slot) → is_free slot ≡ false → slot.object ≢ none
in_use_sound slot e empty = absurd (ground (arith, e, empty))

pub Inserted-IsPlaced :
    (x x' : Process) (r : Ref) (rights i handle : ℕ)
    → IsTable x.slots
    → Inserted x x' r rights i handle
    → IsPlaced x x' r rights i handle
unfolding advance_generation
Inserted-IsPlaced x x' r rights i handle t (free, table, word) =
    let (k, is, low, empty, before) =
      subst (FirstFree x.slots 0) free (find_free-FirstFree x.slots 0) in
    let one : k ≡ i = omega (arith, is) in
    let inside : i < length x.slots = omega (arith, is, low) in
    let slot = filled (slot_at x i) r rights in
    let small : slot.generation < generation_mod = ground (arith, t.small i) in
    let used : slot.generation ≢ 0 = ground arith in
    (
      omega (arith, t.size, inside),
      is_free_sound (slot_at x i) (subst (λ z. is_free (slot_at x z) ≡ true) one empty),
      λ j h. in_use_sound (slot_at x j) (before j (omega (arith, one))),
      slot.generation,
      choice,
      rw (table) (get_or-set_self x.slots i slot empty_slot inside),
      λ j ne. rw (table) (get_or-set_ne x.slots i j slot empty_slot (λ q. ne (sym q))),
      word ∙ encode_sum i slot.generation (omega (arith, t.size, inside)) used small,
    )
  where
    choice :
        (((filled (slot_at x i) r rights).generation ≡ 1) × ((slot_at x i).generation ≡ 0))
        ⊎ (((filled (slot_at x i) r rights).generation ≡ (slot_at x i).generation)
            × ((filled (slot_at x i) r rights).generation ≢ 0))
    choice = elim (Bool-cases ((slot_at x i).generation == 0)) [
      | inl e ↦ rw e (inl (refl, ground arith))
      | inr e ↦ rw e (inr (refl, λ q. absurd (ground (arith, e, q))))
    ]
