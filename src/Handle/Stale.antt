-- ===== src/Handle/Stale.antt =====
-- What a close leaves behind: the table of the process with the slot cleared, so that the handle
-- is stale, and stays stale when the slot is used again.
use himu_os.Prelude.{
  ℕ, ◌≡◌, ◌≢◌, refl, sym, ap, ◌∙◌, inl, inr, false, some, Status, Bool-cases, Option-cases, subst,
  get_or, set, arith,
}
use himu_os.Handle.Objects.{Ref, Process, Store, succeeds, release_process, retain_process}
use himu_os.Handle.Codes.{invalid_handle}
use himu_os.Handle.Table.{empty_slot, slot_at, put_slot, current_slot, release_handle_object}
use himu_os.Handle.Close.{
  cleared, invalidate_self, drop_slot, release_owner, close_retained, close, validate_close,
}
use himu_os.Handle.Slots.{current_slot-same}
use himu_os.Handle.Frame.{
  SameSlots, release_handle_object-KeepsSlots, invalidate_self-SameSlots, retain_process-KeepsSlots,
  release_process-KeepsSlots, run-SameSlots,
}

-- If process `p` is allocated in the second store, it is in the first, and slot `i` was cleared.
abbrev pub Cleared : ℕ → ℕ → Store → Store → Type 0
Cleared p i s s' =
    (x' : Process)
    → s'.processes p ≡ some x'
    → (x : Process) × (s.processes p ≡ some x) × (x'.slots ≡ set x.slots i (cleared (slot_at x i)))

Cleared-before :
    (p i : ℕ) (s s' s'' : Store) → SameSlots p s s' → Cleared p i s' s'' → Cleared p i s s''
Cleared-before p i s s' s'' same step x'' e =
    let (x', e', h') = step x'' e in
    let (x, ex, h) = same x' e' in
    (x, ex, h' ∙ ap (λ slots. set slots i (cleared (get_or slots i empty_slot))) h)

Cleared-after :
    (p i : ℕ) (s s' s'' : Store) → Cleared p i s s' → SameSlots p s' s'' → Cleared p i s s''
Cleared-after p i s s' s'' step same x'' e =
    let (x', e', h') = same x'' e in let (x, ex, h) = step x' e' in (x, ex, h' ∙ h)

put_slot-Cleared :
    (p i : ℕ) (s : Store) (x : Process)
    → s.processes p ≡ some x
    → Cleared p i s (put_slot s p x i (cleared (slot_at x i)))
put_slot-Cleared p i s x at x' e =
    let is : record x { slots = set x.slots i (cleared (slot_at x i)) } ≡ x' = ground arith in
    (x, at, sym (ap (λ z. z.slots) is))

pub drop_slot-Cleared :
    (s : Store) (p i : ℕ) (r : Ref) (handle : ℕ) (s' : Store) (status : Status)
    → drop_slot s p i r handle ≡ some (s', status)
    → Cleared p i s s'
unfolding drop_slot
drop_slot-Cleared s p i r handle s' status e =
    let first = invalidate_self s r handle in
    elim (Option-cases (first.processes p)) [
      | inl n ↦ absurd (ground arith)
      | inr (x, at) ↦
          let second = put_slot first p x i (cleared (slot_at x i)) in
          let run : release_handle_object second r ≡ some (s', status) =
            sym (rw (at, drop_slot) refl) ∙ e in
          Cleared-before p i s first s' (invalidate_self-SameSlots p s r handle) (
            Cleared-after p i first second s' (put_slot-Cleared p i first x at) (
              run-SameSlots p second _ s' status (release_handle_object-KeepsSlots p second r) run))
    ]

-- A close that takes the caller's handle away has cleared the slot that the handle named.
close_retained-Cleared :
    (s : Store) (p handle : ℕ) (s' : Store) (status : Status)
    → handle ≢ invalid_handle
    → close_retained s p handle ≡ some (s', status, invalid_handle)
    → (x : Process) × (i : ℕ) × (s.processes p ≡ some x)
      × (current_slot x handle ≡ some i)
      × Cleared p i s s'
unfolding close_retained
close_retained-Cleared s p handle s' status valid e = elim (Option-cases (s.processes p)) [
  | inl n ↦ absurd (ground arith)
  | inr (x, at) ↦ elim (Option-cases (current_slot x handle)) [
    | inl n ↦ absurd (ground arith)
    | inr (i, named) ↦ elim (Bool-cases (succeeds (validate_close s (slot_at x i) false))) [
      | inr bad ↦ absurd (ground arith)
      | inl ok ↦ elim (Option-cases (slot_at x i).object) [
        | inl n ↦ absurd (ground arith)
        | inr (r, holds) ↦ elim (Option-cases (drop_slot s p i r handle)) [
          | inl n ↦ absurd (ground arith)
          | inr ((s'', dropped), run) ↦
              let is : s'' ≡ s' = ground arith in
              (
                x,
                i,
                at,
                named,
                subst (Cleared p i s) is (drop_slot-Cleared s p i r handle s'' dropped run),
              )
        ]
      ]
    ]
  ]
]

-- The same of ExHandleClose, around which the process is retained and released.
pub close-Cleared :
    (s : Store) (p handle : ℕ) (s' : Store) (status : Status)
    → handle ≢ invalid_handle
    → close s p handle ≡ some (s', status, invalid_handle)
    → (x' : Process) → s'.processes p ≡ some x'
    → (x : Process) × (i : ℕ) × (s.processes p ≡ some x)
      × (current_slot x handle ≡ some i)
      × (x'.slots ≡ set x.slots i (cleared (slot_at x i)))
unfolding close release_owner current_slot
close-Cleared s p handle s' status valid e x' at' = elim (Option-cases (retain_process s p)) [
  | inl n ↦ absurd (ground arith)
  | inr ((s1, retained), run) ↦ elim (Bool-cases (succeeds retained)) [
    | inr bad ↦ absurd (ground arith)
    | inl ok ↦ elim (Option-cases (close_retained s1 p handle)) [
      | inl n ↦ absurd (ground arith)
      | inr ((s2, closed, left), inner) ↦ elim (Option-cases (release_process s2 p)) [
        | inl n ↦ absurd (ground arith)
        | inr ((s3, released), last) ↦
            let gone : left ≡ invalid_handle = ground arith in
            let is : s3 ≡ s' = ground arith in
            let (x, i, at1, named, cleared2) =
              close_retained-Cleared s1 p handle s2 closed valid
                (inner ∙ ap (λ l. some (s2, closed, l)) gone) in
            let before = run-SameSlots p s _ s1 retained (retain_process-KeepsSlots p s p) run in
            let after = run-SameSlots p s2 _ s3 released (release_process-KeepsSlots p s2 p) last in
            let whole =
              Cleared-before p i s s1 s' before
                (subst (Cleared p i s1) is (Cleared-after p i s1 s2 s3 cleared2 after)) in
            let (y, at, slots) = whole x' at' in
            let (y', at'', slots') = before x at1 in
            let one : y' ≡ y = ground arith in
            (
              y,
              i,
              at,
              subst (λ t. current_slot t handle ≡ some i) one
                  (sym (current_slot-same x y' handle slots') ∙ named),
              slots,
            )
      ]
    ]
  ]
]
