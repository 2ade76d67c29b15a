-- ===== src/Handle/Resolve.antt =====
-- What a resolve grants, and that the handle of an insert resolves to the object inserted.
use himu_os.Prelude.{
  ℕ, ◌+◌, ◌<◌, ◌≡◌, ◌≢◌, ◌↔◌, false, refl, sym, ap, ◌∙◌, inl, inr, true, Option, some, ◌==◌,
  u32_mod, ec_success, Bool-cases, Option-cases, subst, arith,
}
use himu_os.Handle.Objects.{
  ObjectType, invalid_type, Header, Ref, Process, Store, succeeds, get_header, put_header, is_live,
  object_retain, is_valid_type,
}
use himu_os.Handle.Table.{
  is_free, slot_at, put_slot, has_rights, find_free, filled, current_slot, lookup_slot,
  retain_handle_object, fill_slot, insert, resolve, with_object,
}
use himu_os.Handle.Slots.{IsTable, current_slot-inversion, current_slot-names}
use himu_os.Handle.Grant.{insert-Inserted, Inserted-lookup}
use himu_os.Handle.Rights.{HasBits, has_rights_iff, IsLive, is_live_iff, is_valid_type_iff}
use himu_os.Handle.Headers.{
  counted, object_retain-live, is_live-counted, get_header-put_header, get_header-put_slot,
  retain_handle_object-get_header,
}

-- What ExHandleResolve grants: the handle's slot holds the object under the generation of the handle,
-- with every right desired; the header has the type expected and a reference, and one more after.
abbrev pub Granted : Store → ℕ → ℕ → ObjectType → ℕ → Ref → Store → Type 0
Granted s p handle expected desired r s' =
    (x : Process) × (i : ℕ) × (h : Header) × (s.processes p ≡ some x)
    × (expected ≢ invalid_type)
    × (lookup_slot handle ≡ some (i, (slot_at x i).generation))
    × ((slot_at x i).object ≡ some r)
    × HasBits (slot_at x i).rights desired
    × (get_header s r ≡ some h)
    × IsLive h expected
    × (s' ≡ put_header s r (counted h))

object_retain-Granted :
    (s : Store) (r : Ref) (expected : ObjectType) (s' : Store) (result : Option Ref)
    → with_object s r (object_retain s r expected) ≡ some (s', ec_success, result)
    → (h : Header) × (get_header s r ≡ some h)
      × (is_live h expected ≡ true)
      × (s' ≡ put_header s r (counted h))
      × (result ≡ some r)
unfolding object_retain
object_retain-Granted s r expected s' result e = elim (Option-cases (get_header s r)) [
  | inl n ↦ absurd (ground arith)
  | inr (h, at) ↦ elim (Bool-cases (is_live h expected)) [
    | inr dead ↦ absurd (ground arith)
    | inl live ↦
        let whole : some (put_header s r (counted h), ec_success, some r)
            ≡ some (s', ec_success, result) =
          sym (rw (at, live, object_retain, with_object) refl) ∙ e in
        (h, at, live, ground arith, ground arith)
  ]
]

resolve_grants :
    (s : Store) (p handle : ℕ) (expected : ObjectType) (desired : ℕ) (s' : Store) (r : Ref)
    → resolve s p handle expected desired ≡ some (s', ec_success, some r)
    → Granted s p handle expected desired r s'
unfolding resolve
resolve_grants s p handle expected desired s' r e = elim (Option-cases (s.processes p)) [
  | inl n ↦ absurd (ground arith)
  | inr (x, at) ↦ elim (Bool-cases (is_valid_type expected)) [
    | inr bad ↦ absurd (ground arith)
    | inl ok ↦ elim (Option-cases (current_slot x handle)) [
      | inl n ↦ absurd (ground arith)
      | inr (i, named) ↦ elim (Bool-cases (has_rights (slot_at x i).rights desired)) [
        | inr missing ↦ absurd (ground arith)
        | inl has ↦ elim (Option-cases (slot_at x i).object) [
          | inl n ↦ absurd (ground arith)
          | inr (r', holds) ↦
              let run : with_object s r' (object_retain s r' expected)
                  ≡ some (s', ec_success, some r) =
                sym (rw (at, ok, named, has, holds, resolve) refl) ∙ e in
              let (h, header, live, store, result) =
                object_retain-Granted s r' expected s' (some r) run in
              let is : r' ≡ r = ground arith in
              let (names, used) = current_slot-inversion x handle i named in
              (
                x,
                i,
                h,
                at,
                (is_valid_type_iff expected).0 ok,
                names,
                holds ∙ ap (λ z. some z) is,
                (has_rights_iff (slot_at x i).rights desired).0 has,
                ap (λ z. get_header s z) (sym is) ∙ header,
                (is_live_iff h expected ok).0 live,
                store ∙ ap (λ z. put_header s z (counted h)) is,
              )
        ]
      ]
    ]
  ]
]

-- A resolve for a type other than the invalid one succeeds with an object exactly where the slot that the handle names
-- holds it under the generation of the handle, every right desired is among those of the slot, and the
-- header has the type and a reference; it then counts one reference more and changes nothing else.
pub resolve-Granted :
    (s : Store) (p handle : ℕ) (expected : ObjectType) (desired : ℕ) (s' : Store) (r : Ref)
    → (resolve s p handle expected desired ≡ some (s', ec_success, some r))
      ↔ Granted s p handle expected desired r s'
unfolding resolve
resolve-Granted s p handle expected desired s' r = (
  resolve_grants s p handle expected desired s' r,
  λ (x, i, h, at, typed, names, holds, bits, header, live, store).
      let valid = (is_valid_type_iff expected).1 typed in
      let used : is_free (slot_at x i) ≡ false = ground (arith, holds) in
      let named : current_slot x handle ≡ some i = current_slot-names x handle i names used in
      let has = (has_rights_iff (slot_at x i).rights desired).1 bits in
      let retained =
        object_retain-live s r expected h header ((is_live_iff h expected valid).1 live) in
      rw (at, valid, named, has, holds, retained, resolve)
        (ap (λ z. some (z, ec_success, some r)) (sym store)),
)

-- An insert counts one reference to the object and leaves its type.
insert-get_header :
    (s : Store) (p : ℕ) (r : Ref) (rights : ℕ) (s' : Store) (handle : ℕ)
    → insert s p r rights ≡ some (s', ec_success, handle)
    → (h : Header) × (get_header s r ≡ some h)
      × (is_live h h.type ≡ true)
      × (get_header s' r ≡ some (counted h))
unfolding insert fill_slot
insert-get_header s p r rights s' handle e = elim (Option-cases (s.processes p)) [
  | inl n ↦ absurd (ground arith)
  | inr (x, at) ↦ elim (Bool-cases (rights == 0)) [
    | inl z ↦ absurd (ground arith)
    | inr z ↦ elim (Option-cases (find_free x.slots 0)) [
      | inl n ↦ absurd (ground arith)
      | inr (i, free) ↦ elim (Option-cases (retain_handle_object s r)) [
        | inl n ↦ absurd (ground arith)
        | inr ((s1, retained), run) ↦ elim (Bool-cases (succeeds retained)) [
          | inr bad ↦ absurd (ground arith)
          | inl ok ↦ elim (Option-cases (s1.processes p)) [
            | inl n ↦ absurd (ground arith)
            | inr (y, at1) ↦
                let (h, header, live, step) =
                  retain_handle_object-get_header s r s1 retained run ok in
                let slot = filled (slot_at y i) r rights in
                let store : put_slot s1 p y i slot ≡ s' = ground arith in
                (
                  h,
                  header,
                  live,
                  ap (λ t. get_header t r) (sym store)
                      ∙ get_header-put_slot s1 p y i slot r at1
                      ∙ ap (λ t. get_header t r) step
                      ∙ get_header-put_header s r h (counted h) header,
                )
          ]
        ]
      ]
    ]
  ]
]

-- The handle of an insert resolves to the object, for the rights that were given and the type in
-- its header, unless the reference count wraps.
pub insert-resolve :
    (s : Store) (p : ℕ) (x : Process) (r : Ref) (rights : ℕ) (s' : Store) (handle : ℕ) (h : Header)
    (desired : ℕ)
    → s.processes p ≡ some x
    → IsTable x.slots
    → get_header s r ≡ some h
    → h.reference_count + 1 < u32_mod
    → insert s p r rights ≡ some (s', ec_success, handle)
    → has_rights rights desired ≡ true
    → resolve s' p handle h.type desired
      ≡ some (put_header s' r (counted (counted h)), ec_success, some r)
unfolding resolve object_retain
insert-resolve s p x r rights s' handle h desired at t header room inserted has =
    let (y, x', i, aty, at', placed) = insert-Inserted s p r rights s' handle inserted in
    let one : x ≡ y = ground arith in
    let (names, slot, valid) =
      Inserted-lookup y x' r rights i handle (subst (λ z. IsTable z.slots) one t) placed in
    let (g, header', live, counted') = insert-get_header s p r rights s' handle inserted in
    let same : g ≡ h = ground arith in
    let whole : get_header s' r ≡ some (counted h) = counted' ∙ ap (λ z. some (counted z)) same in
    let named : current_slot x' handle ≡ some i =
      current_slot-names x' handle i names (rw (slot) refl) in
    let fits : has_rights (slot_at x' i).rights desired ≡ true = rw (slot) has in
    let holds : (slot_at x' i).object ≡ some r = rw (slot) refl in
    let (typed, still) =
      is_live-counted h h.type (subst (λ z. is_live z z.type ≡ true) same live) room in
    let retained = object_retain-live s' r h.type (counted h) whole still in
    rw (at', typed, named, fits, holds, retained, resolve) refl
