-- ===== src/LinkedList/Ring.antt =====
-- The ring of a list: what its nodes are, and that the operations keep it.
use himu_os.Prelude.{
  ℕ, ◌≡◌, ◌↔◌, refl, sym, ap, ◌∙◌, inl, inr, Bool, true, false, ◌||◌, List, [], ◌∷◌, ◌++◌, ◌==◌,
  Bool-cases, arith,
}
use himu_os.LinkedList.{Heap, linked_list_init, linked_list_insert_tail, linked_list_is_empty}

abbrev pub has_node : ℕ → List ℕ → Bool
has_node n [] = false
has_node n (x ∷ xs) = (x == n) || has_node n xs

-- From node `a` through the nodes of the list to `b`, linked both ways.
abbrev pub Chain : Heap → ℕ → List ℕ → ℕ → Type 0
Chain h a [] b = (h.flink a ≡ b) × (h.blink b ≡ a)
Chain h a (x ∷ xs) b = (h.flink a ≡ x) × (h.blink x ≡ a) × Chain h x xs b

abbrev pub IsDistinct : List ℕ → Type 0
IsDistinct [] = Unit {0}
IsDistinct (x ∷ xs) = (has_node x xs ≡ false) × IsDistinct xs

-- The entries of the list at `head`, none of them twice.
pub record IsRing (h : Heap) (head : ℕ) (entries : List ℕ) : Type 0 where
  pub chain : Chain h head entries head
  pub distinct : IsDistinct (head ∷ entries)

pub linked_list_init-IsRing : (h : Heap) (head : ℕ) → IsRing (linked_list_init h head) head []
unfolding linked_list_init
linked_list_init-IsRing h head =
    let self : (head == head) ≡ true = ground arith in
    record { chain = (rw (self) refl, rw (self) refl); distinct = (refl, tt) }

-- The last node of a chain is the one that its end points back to.
last-has_node :
    (h : Heap) (a : ℕ) (xs : List ℕ) (b : ℕ) → Chain h a xs b → has_node (h.blink b) (a ∷ xs) ≡ true
last-has_node h a [] b (forth, back) = ground arith
last-has_node h a (x ∷ xs) b (forth, back, rest) = ground (arith, last-has_node h x xs b rest)

pub apart :
    (a l : ℕ) (xs : List ℕ) → has_node a xs ≡ false → has_node l xs ≡ true → (a == l) ≡ false
apart a l xs absent present = elim (Bool-cases (a == l)) [
  | inl t ↦
      let same : a ≡ l = ground arith in
      let both : true ≡ false = sym present ∙ ap (λ n. has_node n xs) (sym same) ∙ absent in
      absurd (ground arith)
  | inr f ↦ f
]

-- The links of the heap after an insertion behind the last node.
abbrev Appended : Heap → ℕ → ℕ → Heap → Type 0
Appended h b e h' =
    (h'.flink e ≡ b)
    × (h'.blink e ≡ h.blink b)
    × (h'.flink (h.blink b) ≡ e)
    × (h'.blink b ≡ e)
    × ((n : ℕ) → (n == e) ≡ false → (n == h.blink b) ≡ false → h'.flink n ≡ h.flink n)
    × ((n : ℕ) → (n == e) ≡ false → (n == b) ≡ false → h'.blink n ≡ h.blink n)

append-Chain :
    (h h' : Heap) (a : ℕ) (xs : List ℕ) (b e : ℕ)
    → Chain h a xs b
    → IsDistinct (a ∷ xs)
    → has_node b xs ≡ false
    → has_node e (a ∷ xs) ≡ false
    → Appended h b e h'
    → Chain h' a (xs ++ (e ∷ [])) b
append-Chain h h' a [] b e (forth, back) distinct unseen fresh (fe, be, fl, bb, flinks, blinks) =
    (ap (λ n. h'.flink n) (sym back) ∙ fl, be ∙ back, (fe, bb))
append-Chain h h' a (x ∷ xs) b e (forth, back, rest) (once, distinct) unseen fresh appended =
    let (fe, be, fl, bb, flinks, blinks) = appended in
    let last = last-has_node h x xs b rest in
    let other : (a == h.blink b) ≡ false = apart a (h.blink b) (x ∷ xs) once last in
    (
      flinks a (ground arith) other ∙ forth,
      blinks x (ground arith) (ground arith) ∙ back,
      append-Chain h h' x xs b e rest distinct (ground arith) (ground arith) appended,
    )

linked_list_insert_tail-Appended :
    (h : Heap) (head e : ℕ)
    → (head == e) ≡ false
    → (h.blink head == e) ≡ false
    → Appended h head e (linked_list_insert_tail h head e)
unfolding linked_list_insert_tail
linked_list_insert_tail-Appended h head e not_head not_last =
    let self_e : (e == e) ≡ true = ground arith in
    let self_h : (head == head) ≡ true = ground arith in
    let self_l : (h.blink head == h.blink head) ≡ true = ground arith in
    let not_head' : (e == head) ≡ false = ground arith in
    let not_last' : (e == h.blink head) ≡ false = ground arith in
    (
      rw (not_head, not_last', self_e) refl,
      rw (not_head', self_e) refl,
      rw (not_head, self_l) refl,
      rw (self_h) refl,
      λ n other last. rw (not_head, other, last) refl,
      λ n other last. rw (other, last) refl,
    )

IsDistinct-append :
    (xs : List ℕ) (e : ℕ) → IsDistinct xs → has_node e xs ≡ false → IsDistinct (xs ++ (e ∷ []))
IsDistinct-append [] e distinct fresh = (refl, tt)
IsDistinct-append (x ∷ xs) e (once, distinct) fresh =
    (has_node-append x xs e once (ground arith), IsDistinct-append xs e distinct (ground arith))
  where
    has_node-append :
        (n : ℕ) (ys : List ℕ) (m : ℕ)
        → has_node n ys ≡ false
        → (m == n) ≡ false
        → has_node n (ys ++ (m ∷ [])) ≡ false
    has_node-append n [] m absent other = rw (other) refl
    has_node-append n (y ∷ ys) m absent other = ground (arith, has_node-append n ys m)

-- LinkedListInsertTail of a node that is not in the list adds it at the end.
linked_list_insert_tail-IsRing :
    (h : Heap) (head e : ℕ) (xs : List ℕ)
    → IsRing h head xs
    → has_node e (head ∷ xs) ≡ false
    → IsRing (linked_list_insert_tail h head e) head (xs ++ (e ∷ []))
linked_list_insert_tail-IsRing h head e xs ring fresh =
    let (once, distinct) = ring.distinct in
    let last = last-has_node h head xs head ring.chain in
    let not_head : (head == e) ≡ false = ground arith in
    let not_last' = apart e (h.blink head) (head ∷ xs) fresh last in
    let not_last : (h.blink head == e) ≡ false = ground arith in
    record {
      chain =
          append-Chain h (linked_list_insert_tail h head e) head xs head e ring.chain ring.distinct
            once fresh (linked_list_insert_tail-Appended h head e not_head not_last);
      distinct = IsDistinct-append (head ∷ xs) e ring.distinct fresh;
    }

-- LinkedListIsEmpty of a ring tells whether it has an entry.
linked_list_is_empty_iff :
    (h : Heap) (head : ℕ) (xs : List ℕ)
    → IsRing h head xs
    → (linked_list_is_empty h head ≡ true) ↔ (xs ≡ [])
unfolding linked_list_is_empty
linked_list_is_empty_iff h head [] ring =
    let (forth, back) = ring.chain in (λ e. refl, λ e. ground arith)
linked_list_is_empty_iff h head (x ∷ xs) ring =
    let (forth, back, rest) = ring.chain in
    let (once, distinct) = ring.distinct in
    let other : (h.flink head == head) ≡ false = rw (forth) (ground arith) in
    (λ e. absurd (ground arith), λ e. absurd (ground arith))
