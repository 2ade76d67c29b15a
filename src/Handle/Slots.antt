-- ===== src/Handle/Slots.antt =====
-- Handle tables as lists of slots: the scan for a free slot, and the invariant on generations.
use himu_os.Prelude.{
  ℕ, zero, suc, ◌+◌, ◌<◌, ◌≡◌, ◌≢◌, refl, inl, inr, true, false, ◌||◌, not, Option, none, some,
  List, [], ◌∷◌, ◌==◌, Bool-cases, Option-cases, length, get_or, set, length-set, get_or-set_self,
  get_or-set_ne, get_or_set, get_or-replicate, ◌∙◌, ap, sym, subst, arith,
}
use himu_os.Handle.Objects.{Ref, Slot, Process}
use himu_os.Handle.Codes.{
  max_handles, generation_mod, advance_generation, encode_handle, decode_handle,
  advance_generation_lem, decode_handle-encode_handle,
}
use himu_os.Handle.Table.{
  empty_slot, initialize_table, slot_at, is_free, find_free, filled, current_slot, lookup_slot,
}
use himu_os.Handle.Close.{cleared}

-- The scan finds the first free slot.
abbrev pub FirstFree : List Slot → ℕ → Option ℕ → Type 0
FirstFree slots i none = (k : ℕ) → k < length slots → is_free (get_or slots k empty_slot) ≡ false
FirstFree slots i (some j) =
    (k : ℕ) × (j ≡ i + k)
    × (k < length slots)
    × (is_free (get_or slots k empty_slot) ≡ true)
    × ((m : ℕ) → m < k → is_free (get_or slots m empty_slot) ≡ false)

FirstFree-cons :
    (slot : Slot) (rest : List Slot) (i : ℕ) (r : Option ℕ)
    → is_free slot ≡ false
    → FirstFree rest (i + 1) r
    → FirstFree (slot ∷ rest) i r
FirstFree-cons slot rest i none used all = step
  where
    step : (k : ℕ) → k < suc (length rest) → is_free (get_or (slot ∷ rest) k empty_slot) ≡ false
    step zero h = used
    step (suc k) h = all k (omega arith)
FirstFree-cons slot rest i (some j) used (k, at, inside, free, before) =
    (suc k, omega arith, omega arith, free, earlier)
  where
    earlier : (m : ℕ) → m < suc k → is_free (get_or (slot ∷ rest) m empty_slot) ≡ false
    earlier zero h = used
    earlier (suc m) h = before m (omega arith)

pub find_free-FirstFree : (slots : List Slot) (i : ℕ) → FirstFree slots i (find_free slots i)
unfolding find_free
find_free-FirstFree [] i = λ k h. absurd (omega arith)
find_free-FirstFree (slot ∷ rest) i = elim (Bool-cases (is_free slot)) [
  | inl e ↦ rw (e, FirstFree) (0, omega arith, omega arith, e, λ m h. absurd (omega arith))
  | inr e ↦
      rw (e, FirstFree)
        (FirstFree-cons slot rest i (find_free rest (i + 1)) e (find_free-FirstFree rest (i + 1)))
]

-- A slot in use has a generation from 1 to 2 ^ 24 - 1, and no slot one above.
pub record IsTable (slots : List Slot) : Type 0 where
  pub size : length slots ≡ max_handles
  pub small : (k : ℕ) → (get_or slots k empty_slot).generation < generation_mod
  pub used :
      (k : ℕ)
      → is_free (get_or slots k empty_slot) ≡ false
      → (get_or slots k empty_slot).generation ≢ 0

-- Writing a slot of that kind keeps the table.
pub set-IsTable :
    (slots : List Slot) (i : ℕ) (slot : Slot)
    → IsTable slots
    → slot.generation < generation_mod
    → (is_free slot ≡ false → slot.generation ≢ 0)
    → IsTable (set slots i slot)
set-IsTable slots i slot t small used = record {
  size = length-set slots i slot ∙ t.size;
  small = λ k.
      get_or_set (λ x. x.generation < generation_mod) slots i k slot empty_slot small (t.small k);
  used = λ k.
      get_or_set (λ x. is_free x ≡ false → x.generation ≢ 0) slots i k slot empty_slot used
        (t.used k);
}

pub filled-IsTable :
    (slots : List Slot) (i : ℕ) (r : Ref) (rights : ℕ)
    → IsTable slots
    → IsTable (set slots i (filled (get_or slots i empty_slot) r rights))
unfolding advance_generation
filled-IsTable slots i r rights t =
    set-IsTable slots i _ t (ground (arith, t.small i)) (λ e. ground arith)

pub initialize_table-IsTable : IsTable initialize_table
unfolding initialize_table
initialize_table-IsTable = record {
  size = refl;
  small = λ k. rw (get_or-replicate max_handles k empty_slot) (omega arith);
  used = λ k. rw (get_or-replicate max_handles k empty_slot) (λ e. absurd (ground arith));
}

-- The handle of a free slot that is filled is a valid one.
pub filled-valid :
    (slots : List Slot) (i : ℕ) (r : Ref) (rights : ℕ)
    → IsTable slots
    → find_free slots 0 ≡ some i
    → encode_handle i (filled (get_or slots i empty_slot) r rights).generation ≢ 0
unfolding advance_generation
filled-valid slots i r rights t free =
    let (k, is, low, empty, before) =
      subst (FirstFree slots 0) free (find_free-FirstFree slots 0) in
    let slot = filled (get_or slots i empty_slot) r rights in
    let small : slot.generation < generation_mod = ground (arith, t.small i) in
    let used : slot.generation ≢ 0 = ground arith in
    let (back, valid) =
      decode_handle-encode_handle i slot.generation (omega (arith, t.size, is, low)) used small in
    valid

pub cleared-IsTable :
    (slots : List Slot) (i : ℕ)
    → IsTable slots
    → IsTable (set slots i (cleared (get_or slots i empty_slot)))
cleared-IsTable slots i t =
    let (new, nonzero, small) =
      advance_generation_lem (get_or slots i empty_slot).generation (t.small i) in
    set-IsTable slots i _ t small (λ e. nonzero)

-- A handle whose slot was cleared names no current slot.
pub current_slot-cleared :
    (x : Process) (i generation : ℕ) (slots : List Slot) (handle : ℕ)
    → lookup_slot handle ≡ some (i, generation)
    → i < length slots
    → x.slots ≡ set slots i (cleared (get_or slots i empty_slot))
    → current_slot x handle ≡ none
unfolding current_slot
current_slot-cleared x i generation slots handle names inside table =
    rw (names, current_slot)
      (rw (table)
        (rw (get_or-set_self slots i (cleared (get_or slots i empty_slot)) empty_slot inside) refl))

-- A handle that names a current slot decodes to it and to its generation.
pub current_slot-inversion :
    (x : Process) (handle i : ℕ)
    → current_slot x handle ≡ some i
    → (lookup_slot handle ≡ some (i, (slot_at x i).generation)) × (is_free (slot_at x i) ≡ false)
unfolding current_slot
current_slot-inversion x handle i e = elim (Option-cases (lookup_slot handle)) [
  | inl n ↦ absurd (ground arith)
  | inr ((j, g), p) ↦ ground arith
]

-- Conversely, a slot in use is named by the handle of its generation.
pub current_slot-names :
    (x : Process) (handle i : ℕ)
    → lookup_slot handle ≡ some (i, (slot_at x i).generation)
    → is_free (slot_at x i) ≡ false
    → current_slot x handle ≡ some i
unfolding current_slot
current_slot-names x handle i names used =
    let test : (is_free (slot_at x i) || not ((slot_at x i).generation == (slot_at x i).generation))
        ≡ false =
      ground arith in
    rw (names, test, current_slot) refl

-- Only the table of the process decides.
pub current_slot-same :
    (x y : Process) (handle : ℕ) → x.slots ≡ y.slots → current_slot x handle ≡ current_slot y handle
unfolding current_slot
current_slot-same x y handle e = elim (Option-cases (lookup_slot handle)) [
  | inl n ↦ rw (n, current_slot) refl
  | inr ((i, g), n) ↦ rw (n, current_slot, e) refl
]

-- The slot that a handle names has been given another generation since.
abbrev pub Retired : Process → ℕ → Type 0
Retired x handle =
    (i : ℕ) × (g : ℕ) × (lookup_slot handle ≡ some (i, g))
    × ((slot_at x i).generation ≢ g)
    × ((slot_at x i).generation ≢ 0)

pub Retired-current_slot :
    (x : Process) (handle : ℕ) → Retired x handle → current_slot x handle ≡ none
unfolding current_slot
Retired-current_slot x handle (i, g, names, differs, nonzero) =
    let test : (is_free (slot_at x i) || not ((slot_at x i).generation == g)) ≡ true =
      ground arith in
    rw (names, test, current_slot) refl

-- The clearing of the slot retires its handle.
pub cleared-Retired :
    (x x' : Process) (handle i : ℕ)
    → IsTable x.slots
    → current_slot x handle ≡ some i
    → x'.slots ≡ set x.slots i (cleared (slot_at x i))
    → Retired x' handle
unfolding decode_handle
cleared-Retired x x' handle i t named table =
    let (names, used) = current_slot-inversion x handle i named in
    let inside : i < max_handles = ground arith in
    let (new, nonzero, small) = advance_generation_lem (slot_at x i).generation (t.small i) in
    let at : slot_at x' i ≡ cleared (slot_at x i) =
      rw (table)
        (get_or-set_self x.slots i (cleared (slot_at x i)) empty_slot (ground (arith, t.size))) in
    (i, (slot_at x i).generation, names, rw (at) new, rw (at) nonzero)

-- A slot that is filled keeps its generation, so what was retired stays so.
pub filled-Retired :
    (x x' : Process) (handle j : ℕ) (r : Ref) (rights : ℕ)
    → Retired x handle
    → x'.slots ≡ set x.slots j (filled (slot_at x j) r rights)
    → Retired x' handle
filled-Retired x x' handle j r rights (i, g, names, differs, nonzero) table =
    (i, g, names, rw (kept) differs, rw (kept) nonzero)
  where
    kept : (slot_at x' i).generation ≡ (slot_at x i).generation
    kept = elim (Bool-cases (i == j)) [
      | inl t ↦
          let here : i ≡ j = ground arith in
          rw (table, here)
            (get_or_set (λ slot. slot.generation ≡ (slot_at x j).generation) x.slots j j
              (filled (slot_at x j) r rights) empty_slot (ground arith) refl)
      | inr f ↦ rw (table) (
          ap (λ slot. slot.generation)
            (get_or-set_ne x.slots j i (filled (slot_at x j) r rights) empty_slot (ground arith)))
    ]

-- A handle of a slot as it is now is not a retired one.
pub Retired-other :
    (x : Process) (handle new j : ℕ)
    → Retired x handle
    → lookup_slot new ≡ some (j, (slot_at x j).generation)
    → new ≢ handle
Retired-other x handle new j (i, g, names, differs, nonzero) names' same =
    let both : some (i, g) ≡ some (j, (slot_at x j).generation) =
      sym names ∙ ap (λ h. lookup_slot h) (sym same) ∙ names' in
    ground arith
