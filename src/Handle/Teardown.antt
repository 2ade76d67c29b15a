-- ===== src/Handle/Teardown.antt =====
-- ExHandleCloseAll leaves no slot in use.
use himu_os.Prelude.{
  ℕ, zero, suc, ◌+◌, ◌<◌, ◌≤◌, ◌≡◌, refl, sym, ap, ◌∙◌, inl, inr, Bool, true, none, some, List, [],
  ◌∷◌, ◌==◌, Status, ec_success, Bool-cases, Option-cases, get_or, set, get_or-set_ne, arith,
}
use himu_os.Handle.Objects.{Slot, Process, Store, Run, succeeds, release_process, retain_process}
use himu_os.Handle.Codes.{max_handles, invalid_handle, encode_handle}
use himu_os.Handle.Table.{empty_slot, slot_at, is_free}
use himu_os.Handle.Close.{
  cleared, drop_slot, release_owner, with_handle, without_handle, first_error, validate_all,
  drop_all, close_all_retained, close_all,
}
use himu_os.Handle.Frame.{run-SameSlots, release_process-KeepsSlots}
use himu_os.Handle.Stale.{drop_slot-Cleared}

-- If process `p` is allocated in the second store, it is in the first, its slots from `i` on, `n`
-- of them, are free, and those before are as they were.
abbrev pub Emptied : ℕ → ℕ → ℕ → Store → Store → Type 0
Emptied n i p s s' =
    (x' : Process)
    → s'.processes p ≡ some x'
    → (x : Process) × (s.processes p ≡ some x)
      × ((k : ℕ) → i ≤ k → k < i + n → is_free (slot_at x' k) ≡ true)
      × ((k : ℕ) → k < i → slot_at x' k ≡ slot_at x k)

free_slot :
    (slots : List Slot) (i : ℕ) (v : Slot)
    → is_free v ≡ true
    → is_free (get_or (set slots i v) i empty_slot) ≡ true
free_slot [] i v free = refl
free_slot (x ∷ xs) zero v free = free
free_slot (x ∷ xs) (suc i) v free = free_slot xs i v free

from_first :
    (x : Process) (n i : ℕ)
    → is_free (slot_at x i) ≡ true
    → ((k : ℕ) → i + 1 ≤ k → k < i + 1 + n → is_free (slot_at x k) ≡ true)
    → (k : ℕ) → i ≤ k
    → k < i + suc n
    → is_free (slot_at x k) ≡ true
from_first x n i first rest k low high = elim (Bool-cases (k == i)) [
  | inl t ↦ let here : k ≡ i = ground arith in rw (here) first
  | inr f ↦ rest k (ground arith) (omega arith)
]

drop_all-Emptied :
    (n i p : ℕ) (s : Store) (error : Status) (s' : Store) (status : Status)
    → drop_all n i p s error ≡ some (s', status)
    → Emptied n i p s s'
unfolding drop_all
drop_all-Emptied zero i p s error s' status e x' at' =
    let same : s ≡ s' = ground arith in
    (x', ap (λ t. t.processes p) same ∙ at', λ k low high. absurd (omega arith), λ k low. refl)
drop_all-Emptied (suc n) i p s error s' status e x' at' = elim (Option-cases (s.processes p)) [
  | inl none_at ↦ absurd (ground arith)
  | inr (x, at) ↦ elim (Option-cases (slot_at x i).object) [
    | inl free ↦
        let rest : drop_all n (i + 1) p s error ≡ some (s', status) = ground arith in
        let (y, aty, empty, before) = drop_all-Emptied n (i + 1) p s error s' status rest x' at' in
        let one : y ≡ x = ground arith in
        let first : is_free (slot_at x' i) ≡ true =
          ap (λ v. is_free v) (before i (omega arith) ∙ ap (λ t. slot_at t i) one)
          ∙ rw (free, is_free) refl in
        (y, aty, from_first x' n i first empty, λ k low. before k (omega arith))
    | inr (r, holds) ↦
        elim (Option-cases (drop_slot s p i r (encode_handle i (slot_at x i).generation))) [
          | inl n ↦ absurd (ground arith)
          | inr ((s1, dropped), run) ↦
              let rest : drop_all n (i + 1) p s1 (first_error error dropped) ≡ some (s', status) =
                ground arith in
              let (y, aty, empty, before) =
                drop_all-Emptied n (i + 1) p s1 (first_error error dropped) s' status rest x' at' in
              let (z, atz, table) = drop_slot-Cleared s p i r _ s1 dropped run y aty in
              let first : is_free (slot_at x' i) ≡ true =
                ap (λ v. is_free v) (before i (omega arith) ∙ ap (λ t. get_or t i empty_slot) table)
                ∙ free_slot z.slots i (cleared (slot_at z i)) refl in
              (
                z,
                atz,
                from_first x' n i first empty,
                λ k low.
                    before k (omega arith)
                    ∙ ap (λ t. get_or t k empty_slot) table
                    ∙ get_or-set_ne z.slots i k (cleared (slot_at z i)) empty_slot (omega arith),
              )
        ]
  ]
]

close_all_retained-Emptied :
    (s : Store) (p : ℕ) (allow_published : Bool) (s' : Store)
    → close_all_retained s p allow_published ≡ some (s', ec_success)
    → Emptied max_handles 0 p s s'
unfolding close_all_retained
close_all_retained-Emptied s p allow_published s' e = elim (Option-cases (s.processes p)) [
  | inl n ↦ absurd (ground arith)
  | inr (x, at) ↦ elim (Bool-cases (succeeds (validate_all s allow_published x.slots))) [
    | inr bad ↦ absurd (ground arith)
    | inl ok ↦
        let run : drop_all max_handles 0 p s ec_success ≡ some (s', ec_success) =
          sym (rw (at, ok, close_all_retained) refl) ∙ e in
        drop_all-Emptied max_handles 0 p s ec_success s' ec_success run
  ]
]

-- A success is one of the run inside and of the release of the process after it.
owner-success :
    (p : ℕ) (run : Run) (s' : Store)
    → without_handle (release_owner p (with_handle invalid_handle run)) ≡ some (s', ec_success)
    → (s2 : Store) × (released : Status) × (run ≡ some (s2, ec_success))
      × (release_process s2 p ≡ some (s', released))
unfolding release_owner
owner-success p none s' e = absurd (ground arith)
owner-success p (some (s2, closed)) s' e = elim (Option-cases (release_process s2 p)) [
  | inl n ↦ absurd (ground arith)
  | inr ((s3, released), last) ↦
      let same : s3 ≡ s' = ground arith in
      let good : closed ≡ ec_success = ground arith in
      (s2, released, ap (λ c. some (s2, c)) good, last ∙ ap (λ t. some (t, released)) same)
]

-- After ExHandleCloseAll succeeds, a process that is still allocated has no handle left.
pub close_all-empty :
    (s : Store) (p : ℕ) (allow_published : Bool) (s' : Store) (x' : Process)
    → close_all s p allow_published ≡ some (s', ec_success)
    → s'.processes p ≡ some x'
    → (k : ℕ) → k < max_handles
    → is_free (slot_at x' k) ≡ true
unfolding close_all
close_all-empty s p allow_published s' x' e at' k inside =
    elim (Option-cases (retain_process s p)) [
      | inl n ↦ absurd (ground arith)
      | inr ((s1, retained), run) ↦ elim (Bool-cases (succeeds retained)) [
        | inr bad ↦ absurd (ground arith)
        | inl ok ↦
            let (s2, released, inner, last) =
              owner-success p (close_all_retained s1 p allow_published) s'
                (sym (rw (run, ok, close_all) refl) ∙ e) in
            let (y, aty, table) =
              run-SameSlots p s2 _ s' released (release_process-KeepsSlots p s2 p) last x' at' in
            let (z, atz, empty, before) =
              close_all_retained-Emptied s1 p allow_published s2 inner y aty in
            ap (λ t. is_free (get_or t k empty_slot)) table
            ∙ empty k (omega arith) (omega (arith, inside))
      ]
    ]
