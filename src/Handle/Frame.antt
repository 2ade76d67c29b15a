-- ===== src/Handle/Frame.antt =====
-- What the releases of kernel/ex/object.c, process.c and thread.c leave alone: the handle table of
-- every process that is still allocated.
use himu_os.Prelude.{
  ℕ, ◌≡◌, refl, sym, ap, ◌∙◌, inl, inr, ◌&&◌, Option, none, some, ◌==◌, Status, Bool-cases,
  Option-cases, subst, arith,
}
use himu_os.Handle.Objects.{
  ObjectType, process_type, thread_type, console_type, Header, Ref, process_ref, thread_ref,
  console_ref, Process, Store, Run, succeeds, put_process, put_thread, get_header, put_header,
  is_valid_type, is_live, object_retain, object_drop, release_console, release_stdout_owner,
  destroy_process, release_process, destroy_thread, release_thread, retain_process,
}
use himu_os.Handle.Table.{retain_handle_object, release_handle_object}
use himu_os.Handle.Close.{invalidate_self}

-- If process `p` is allocated in the second store, it is in the first, with the same table.
abbrev pub SameSlots : ℕ → Store → Store → Type 0
SameSlots p s s' =
    (x' : Process)
    → s'.processes p ≡ some x'
    → (x : Process) × (s.processes p ≡ some x) × (x'.slots ≡ x.slots)

-- A run whose store, if any, has the tables of `s`.
abbrev pub KeepsSlots : ℕ → Store → Run → Type 0
KeepsSlots p s none = Unit
KeepsSlots p s (some (s', status)) = SameSlots p s s'

pub SameSlots-trans :
    (p : ℕ) (s s' s'' : Store) → SameSlots p s s' → SameSlots p s' s'' → SameSlots p s s''
SameSlots-trans p s s' s'' first second x'' e =
    let (x', e', h') = second x'' e in let (x, ex, h) = first x' e' in (x, ex, h' ∙ h)

pub SameSlots-refl : (p : ℕ) (s : Store) → SameSlots p s s
SameSlots-refl p s x e = (x, e, refl)

some_injective : {A : Type 0} → {x y : A} → some x ≡ some y → x ≡ y
some_injective e = ground arith

put_process-SameSlots :
    (p q : ℕ) (s : Store) (y y' : Process)
    → s.processes q ≡ some y
    → y'.slots ≡ y.slots
    → SameSlots p s (put_process s q (some y'))
put_process-SameSlots p q s y y' at same x' e = elim (Bool-cases (p == q)) [
  | inl t ↦
      let here : p ≡ q = ground arith in
      let is : y' ≡ x' = ground arith in
      (y, ap (s.processes) here ∙ at, sym (ap (λ z. z.slots) is) ∙ same)
  | inr f ↦ (x', ground arith, refl)
]

free_process-SameSlots : (p q : ℕ) (s : Store) → SameSlots p s (put_process s q none)
free_process-SameSlots p q s x' e = elim (Bool-cases (p == q)) [
  | inl t ↦ absurd (ground arith)
  | inr f ↦ (x', ground arith, refl)
]

put_header-SameSlots : (p : ℕ) (s : Store) (r : Ref) (h : Header) → SameSlots p s (put_header s r h)
put_header-SameSlots p s (process_ref q) h = elim (Option-cases (s.processes q)) [
  | inl e ↦ rw (e, SameSlots, put_header) (SameSlots-refl p s)
  | inr (y, e) ↦ rw (e, SameSlots, put_header) (put_process-SameSlots p q s y _ e refl)
]
put_header-SameSlots p s (console_ref q) h = elim (Option-cases (s.processes q)) [
  | inl e ↦ rw (e, SameSlots, put_header) (SameSlots-refl p s)
  | inr (y, e) ↦ rw (e, SameSlots, put_header) (put_process-SameSlots p q s y _ e refl)
]
put_header-SameSlots p s (thread_ref t) h = elim (Option-cases (s.threads t)) [
  | inl e ↦ rw (e, SameSlots, put_header) (SameSlots-refl p s)
  | inr (y, e) ↦ rw (e, SameSlots, put_header) (SameSlots-refl p s)
]

-- The same of the runs that also count the remaining references.
abbrev KeepsSlots3 : ℕ → Store → Option (Store × Status × ℕ) → Type 0
KeepsSlots3 p s none = Unit
KeepsSlots3 p s (some (s', status, remaining)) = SameSlots p s s'

object_drop-KeepsSlots :
    (p : ℕ) (s : Store) (r : Ref) (type : ObjectType) → KeepsSlots3 p s (object_drop s r type)
unfolding object_drop
object_drop-KeepsSlots p s r type = elim (Option-cases (get_header s r)) [
  | inl e ↦ rw (e, KeepsSlots3) tt
  | inr (h, e) ↦ elim (Bool-cases (is_live h type)) [
    | inl live ↦ rw (e, live, KeepsSlots3) (put_header-SameSlots p s r _)
    | inr dead ↦ rw (e, dead, KeepsSlots3) (SameSlots-refl p s)
  ]
]

object_retain-KeepsSlots :
    (p : ℕ) (s : Store) (r : Ref) (type : ObjectType) → KeepsSlots p s (object_retain s r type)
unfolding object_retain
object_retain-KeepsSlots p s r type = elim (Option-cases (get_header s r)) [
  | inl e ↦ rw (e, KeepsSlots) tt
  | inr (h, e) ↦ elim (Bool-cases (is_live h type)) [
    | inl live ↦ rw (e, live, KeepsSlots) (put_header-SameSlots p s r _)
    | inr dead ↦ rw (e, dead, KeepsSlots) (SameSlots-refl p s)
  ]
]

object_drop-SameSlots :
    (p : ℕ) (s : Store) (r : Ref) (type : ObjectType) (s' : Store) (status : Status) (n : ℕ)
    → object_drop s r type ≡ some (s', status, n)
    → SameSlots p s s'
object_drop-SameSlots p s r type s' status n e =
    subst (KeepsSlots3 p s) e (object_drop-KeepsSlots p s r type)

-- A run of a kind that keeps the tables, read at its result.
pub run-SameSlots :
    (p : ℕ) (s : Store) (run : Run) (s' : Store) (status : Status)
    → KeepsSlots p s run
    → run ≡ some (s', status)
    → SameSlots p s s'
run-SameSlots p s run s' status keeps e = subst (KeepsSlots p s) e keeps

-- A run from a store with the tables of `s`.
KeepsSlots-trans :
    (p : ℕ) (s s' : Store) (run : Run) → SameSlots p s s' → KeepsSlots p s' run → KeepsSlots p s run
KeepsSlots-trans p s s' none same keeps = tt
KeepsSlots-trans p s s' (some (s'', status)) same keeps = SameSlots-trans p s s' s'' same keeps

release_stdout_owner-KeepsSlots :
    (p : ℕ) (s : Store) (q : ℕ) → KeepsSlots p s (release_stdout_owner s q)
unfolding release_stdout_owner release_console
release_stdout_owner-KeepsSlots p s q =
    elim (Option-cases (object_drop s (console_ref q) console_type)) [
      | inl e ↦ rw (e, KeepsSlots) tt
      | inr ((s', status, n), e) ↦
          let same = object_drop-SameSlots p s (console_ref q) console_type s' status n e in
          elim (Bool-cases (succeeds status)) [
            | inl ok ↦ rw (e, ok, KeepsSlots) same
            | inr bad ↦ rw (e, bad, KeepsSlots) same
          ]
    ]

destroy_process-KeepsSlots : (p : ℕ) (s : Store) (q : ℕ) → KeepsSlots p s (destroy_process s q)
unfolding destroy_process
destroy_process-KeepsSlots p s q = elim (Option-cases (release_stdout_owner s q)) [
  | inl e ↦ rw (e, KeepsSlots) tt
  | inr ((s', status), e) ↦
      let same = run-SameSlots p s _ s' status (release_stdout_owner-KeepsSlots p s q) e in
      elim (Bool-cases (succeeds status)) [
        | inl ok ↦
            rw (e, ok, KeepsSlots)
              (SameSlots-trans p s s' (put_process s' q none) same (free_process-SameSlots p q s'))
        | inr bad ↦ rw (e, bad, KeepsSlots) same
      ]
]

pub release_process-KeepsSlots : (p : ℕ) (s : Store) (q : ℕ) → KeepsSlots p s (release_process s q)
unfolding release_process
release_process-KeepsSlots p s q =
    elim (Option-cases (object_drop s (process_ref q) process_type)) [
      | inl e ↦ rw (e, KeepsSlots) tt
      | inr ((s', status, n), e) ↦
          let same = object_drop-SameSlots p s (process_ref q) process_type s' status n e in
          elim (Bool-cases (succeeds status && n == 0)) [
            | inl ok ↦
                rw (e, ok, KeepsSlots)
                  (KeepsSlots-trans p s s' (destroy_process s' q) same
                    (destroy_process-KeepsSlots p s' q))
            | inr bad ↦ rw (e, bad, KeepsSlots) same
          ]
    ]

destroy_thread-KeepsSlots : (p : ℕ) (s : Store) (t : ℕ) → KeepsSlots p s (destroy_thread s t)
unfolding destroy_thread
destroy_thread-KeepsSlots p s t = elim (Option-cases (s.threads t)) [
  | inl e ↦ rw (e, KeepsSlots) tt
  | inr (x, e) ↦ elim (Option-cases x.process) [
    | inl n ↦ rw (e, n, KeepsSlots) (SameSlots-refl p s)
    | inr (q, m) ↦
        rw (e, m, KeepsSlots)
          (KeepsSlots-trans p s (put_thread s t none) _ (SameSlots-refl p s)
            (release_process-KeepsSlots p (put_thread s t none) q))
  ]
]

release_thread-KeepsSlots : (p : ℕ) (s : Store) (t : ℕ) → KeepsSlots p s (release_thread s t)
unfolding release_thread
release_thread-KeepsSlots p s t = elim (Option-cases (object_drop s (thread_ref t) thread_type)) [
  | inl e ↦ rw (e, KeepsSlots) tt
  | inr ((s', status, n), e) ↦
      let same = object_drop-SameSlots p s (thread_ref t) thread_type s' status n e in
      elim (Bool-cases (succeeds status && n == 0)) [
        | inl ok ↦
            rw (e, ok, KeepsSlots)
              (KeepsSlots-trans p s s' (destroy_thread s' t) same
                (destroy_thread-KeepsSlots p s' t))
        | inr bad ↦ rw (e, bad, KeepsSlots) same
      ]
]

pub release_handle_object-KeepsSlots :
    (p : ℕ) (s : Store) (r : Ref) → KeepsSlots p s (release_handle_object s r)
unfolding release_handle_object release_console
release_handle_object-KeepsSlots p s (process_ref q) = release_process-KeepsSlots p s q
release_handle_object-KeepsSlots p s (thread_ref t) = release_thread-KeepsSlots p s t
release_handle_object-KeepsSlots p s (console_ref q) =
    elim (Option-cases (object_drop s (console_ref q) console_type)) [
      | inl e ↦ rw (e, KeepsSlots) tt
      | inr ((s', status, n), e) ↦
          rw (e, KeepsSlots) (object_drop-SameSlots p s (console_ref q) console_type s' status n e)
    ]

pub retain_handle_object-KeepsSlots :
    (p : ℕ) (s : Store) (r : Ref) → KeepsSlots p s (retain_handle_object s r)
unfolding retain_handle_object
retain_handle_object-KeepsSlots p s r = elim (Option-cases (get_header s r)) [
  | inl e ↦ rw (e, KeepsSlots) tt
  | inr (h, e) ↦ elim (Bool-cases (is_valid_type h.type)) [
    | inl ok ↦ rw (e, ok, KeepsSlots) (object_retain-KeepsSlots p s r h.type)
    | inr bad ↦ rw (e, bad, KeepsSlots) (SameSlots-refl p s)
  ]
]

pub retain_process-KeepsSlots : (p : ℕ) (s : Store) (q : ℕ) → KeepsSlots p s (retain_process s q)
unfolding retain_process
retain_process-KeepsSlots p s q = object_retain-KeepsSlots p s (process_ref q) process_type

pub invalidate_self-SameSlots :
    (p : ℕ) (s : Store) (r : Ref) (handle : ℕ) → SameSlots p s (invalidate_self s r handle)
unfolding invalidate_self
invalidate_self-SameSlots p s (process_ref q) handle = elim (Option-cases (s.processes q)) [
  | inl e ↦ rw (e, SameSlots, invalidate_self) (SameSlots-refl p s)
  | inr (y, e) ↦ rw (e, SameSlots, invalidate_self) (put_process-SameSlots p q s y _ e refl)
]
invalidate_self-SameSlots p s (thread_ref t) handle = elim (Option-cases (s.threads t)) [
  | inl e ↦ rw (e, SameSlots, invalidate_self) (SameSlots-refl p s)
  | inr (y, e) ↦ rw (e, SameSlots, invalidate_self) (SameSlots-refl p s)
]
invalidate_self-SameSlots p s (console_ref q) handle = elim (Option-cases (s.processes q)) [
  | inl e ↦ rw (e, SameSlots, invalidate_self) (SameSlots-refl p s)
  | inr (y, e) ↦ elim (Option-cases y.stdout_owner) [
    | inl n ↦ rw (e, n, SameSlots, invalidate_self) (SameSlots-refl p s)
    | inr (o, m) ↦ elim (Option-cases (s.processes o)) [
      | inl f ↦ rw (e, m, f, SameSlots, invalidate_self) (SameSlots-refl p s)
      | inr (z, f) ↦
          rw (e, m, f, SameSlots, invalidate_self) (put_process-SameSlots p o s z _ f refl)
    ]
  ]
]
