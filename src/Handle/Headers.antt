-- ===== src/Handle/Headers.antt =====
-- Headers in the store: what a retain does to one, and which writes leave one alone.
use himu_os.Prelude.{
  ℕ, ◌+◌, ◌%◌, ◌<◌, ◌≡◌, refl, sym, ◌∙◌, inl, inr, true, false, some, ◌==◌, u32_mod, Status,
  ec_success, ec_invalid_state, Bool-cases, Option-cases, arith,
}
use himu_os.Handle.Objects.{
  ObjectType, Header, Ref, process_ref, thread_ref, console_ref, Slot, Process, Store, succeeds,
  get_header, put_header, is_live, object_retain, is_valid_type, type_code,
}
use himu_os.Handle.Table.{put_slot, retain_handle_object}

abbrev pub counted : Header → Header
counted h = record h { reference_count = (h.reference_count + 1) % u32_mod }

pub object_retain-live :
    (s : Store) (r : Ref) (expected : ObjectType) (h : Header)
    → get_header s r ≡ some h
    → is_live h expected ≡ true
    → object_retain s r expected ≡ some (put_header s r (counted h), ec_success)
unfolding object_retain
object_retain-live s r expected h at live = rw (at, live, object_retain) refl

pub object_retain-dead :
    (s : Store) (r : Ref) (expected : ObjectType) (h : Header)
    → get_header s r ≡ some h
    → is_live h expected ≡ false
    → object_retain s r expected ≡ some (s, ec_invalid_state)
unfolding object_retain
object_retain-dead s r expected h at dead = rw (at, dead, object_retain) refl

-- A live object of a type stays live when one more reference is counted.
pub is_live-counted :
    (h : Header) (expected : ObjectType)
    → is_live h expected ≡ true
    → h.reference_count + 1 < u32_mod
    → (is_valid_type expected ≡ true) × (is_live (counted h) expected ≡ true)
is_live-counted h expected live room = elim (Bool-cases (is_valid_type expected)) [
  | inr bad ↦ absurd (ground arith)
  | inl typed ↦ elim (Bool-cases (type_code h.type == type_code expected)) [
    | inr other ↦ absurd (ground arith)
    | inl same ↦
        let small : (h.reference_count + 1) % u32_mod ≡ h.reference_count + 1 = omega arith in
        (typed, rw (typed, same, small, is_live) (ground arith))
  ]
]

pub get_header-put_header :
    (s : Store) (r : Ref) (h h' : Header)
    → get_header s r ≡ some h
    → get_header (put_header s r h') r ≡ some h'
get_header-put_header s (process_ref q) h h' e = elim (Option-cases (s.processes q)) [
  | inl n ↦ absurd (ground arith)
  | inr (y, at) ↦
      let same : (q == q) ≡ true = ground arith in rw (at, same, put_header, get_header) refl
]
get_header-put_header s (thread_ref q) h h' e = elim (Option-cases (s.threads q)) [
  | inl n ↦ absurd (ground arith)
  | inr (y, at) ↦
      let same : (q == q) ≡ true = ground arith in rw (at, same, put_header, get_header) refl
]
get_header-put_header s (console_ref q) h h' e = elim (Option-cases (s.processes q)) [
  | inl n ↦ absurd (ground arith)
  | inr (y, at) ↦
      let same : (q == q) ≡ true = ground arith in rw (at, same, put_header, get_header) refl
]

pub get_header-put_slot :
    (s : Store) (p : ℕ) (x : Process) (i : ℕ) (slot : Slot) (r : Ref)
    → s.processes p ≡ some x
    → get_header (put_slot s p x i slot) r ≡ get_header s r
get_header-put_slot s p x i slot (process_ref q) at = elim (Bool-cases (q == p)) [
  | inl t ↦ let here : q ≡ p = ground arith in rw (t, here, at, get_header) refl
  | inr f ↦ rw (f, get_header) refl
]
get_header-put_slot s p x i slot (console_ref q) at = elim (Bool-cases (q == p)) [
  | inl t ↦ let here : q ≡ p = ground arith in rw (t, here, at, get_header) refl
  | inr f ↦ rw (f, get_header) refl
]
get_header-put_slot s p x i slot (thread_ref q) at = refl

-- A retain that succeeds counts one reference to a live object.
pub retain_handle_object-get_header :
    (s : Store) (r : Ref) (s1 : Store) (status : Status)
    → retain_handle_object s r ≡ some (s1, status)
    → succeeds status ≡ true
    → (h : Header) × (get_header s r ≡ some h)
      × (is_live h h.type ≡ true)
      × (s1 ≡ put_header s r (counted h))
unfolding retain_handle_object object_retain
retain_handle_object-get_header s r s1 status e ok = elim (Option-cases (get_header s r)) [
  | inl n ↦ absurd (ground arith)
  | inr (h, header) ↦ elim (Bool-cases (is_valid_type h.type)) [
    | inr bad ↦
        let run : some (s, ec_invalid_state) ≡ some (s1, status) =
          sym (rw (header, bad, retain_handle_object) refl) ∙ e in
        absurd (ground arith)
    | inl typed ↦ elim (Bool-cases (is_live h h.type)) [
      | inr dead ↦
          let run : some (s, ec_invalid_state) ≡ some (s1, status) =
            sym (object_retain-dead s r h.type h header dead)
            ∙ sym (rw (header, typed, retain_handle_object) refl)
            ∙ e in
          absurd (ground arith)
      | inl live ↦
          let run : some (put_header s r (counted h), ec_success) ≡ some (s1, status) =
            sym (object_retain-live s r h.type h header live)
            ∙ sym (rw (header, typed, retain_handle_object) refl)
            ∙ e in
          (h, header, live, ground arith)
    ]
  ]
]
