-- ===== src/Handle/Reuse.antt =====
-- A handle after its close and after the next insert.
use himu_os.Prelude.{
  ℕ, ◌≡◌, ◌≢◌, refl, true, none, some, Status, ec_success, ec_invalid_state, subst, arith,
}
use himu_os.Handle.Objects.{ObjectType, Ref, Process, Store, is_valid_type}
use himu_os.Handle.Codes.{invalid_handle}
use himu_os.Handle.Table.{refusal, insert, resolve}
use himu_os.Handle.Close.{close}
use himu_os.Handle.Slots.{
  IsTable, cleared-IsTable, Retired, Retired-current_slot, cleared-Retired, filled-Retired,
  Retired-other,
}
use himu_os.Handle.Stale.{close-Cleared}
use himu_os.Handle.Grant.{insert-Inserted, Inserted-lookup}

Retired-resolve :
    (s : Store) (p : ℕ) (x : Process) (handle : ℕ) (type : ObjectType) (desired : ℕ)
    → s.processes p ≡ some x
    → is_valid_type type ≡ true
    → Retired x handle
    → resolve s p handle type desired ≡ some (s, ec_invalid_state, none)
unfolding resolve
Retired-resolve s p x handle type desired at valid (i, g, names, differs, nonzero) =
    let stale = Retired-current_slot x handle (i, g, names, differs, nonzero) in
    let why : refusal handle ≡ ec_invalid_state = rw (names, refusal) refl in
    rw (at, valid, stale, why, resolve) refl

-- A handle that ExHandleClose took back is refused by ExHandleResolve, also once its slot is used
-- again, and the handle that the next insert returns is another one.
pub close-insert-resolve :
    (s : Store) (p handle : ℕ) (x : Process) (s1 : Store) (status : Status) (r : Ref) (rights : ℕ)
    (s2 : Store) (new : ℕ) (type : ObjectType) (desired : ℕ)
    → s.processes p ≡ some x
    → IsTable x.slots
    → handle ≢ invalid_handle
    → close s p handle ≡ some (s1, status, invalid_handle)
    → insert s1 p r rights ≡ some (s2, ec_success, new)
    → is_valid_type type ≡ true
    → (resolve s2 p handle type desired ≡ some (s2, ec_invalid_state, none)) × (new ≢ handle)
close-insert-resolve s p handle x s1 status r rights s2 new type desired at t valid closed inserted
      typed =
    let (x1, x2, j, at1, at2, filled2) = insert-Inserted s1 p r rights s2 new inserted in
    let (y, i, aty, named, table1) = close-Cleared s p handle s1 status valid closed x1 at1 in
    let one : x ≡ y = ground arith in
    let ty : IsTable y.slots = subst (λ z. IsTable z.slots) one t in
    let t1 : IsTable x1.slots = rw (table1) (cleared-IsTable y.slots i ty) in
    let retired1 = cleared-Retired y x1 handle i ty named table1 in
    let (free, table2, word) = filled2 in
    let retired2 = filled-Retired x1 x2 handle j r rights retired1 table2 in
    let (names2, slot2, nonzero2) = Inserted-lookup x1 x2 r rights j new t1 filled2 in
    (
      Retired-resolve s2 p x2 handle type desired at2 typed retired2,
      Retired-other x2 handle new j retired2 names2,
    )
