-- ===== src/LinkedList/Remove.antt =====
-- Insertion at the head, and removal.
use himu_os.Prelude.{
  ℕ, ◌≡◌, ◌⊎◌, refl, sym, ap, ◌∙◌, inl, inr, true, false, List, [], ◌∷◌, ◌++◌, ◌==◌, arith,
}
use himu_os.LinkedList.{Heap, linked_list_insert_head, linked_list_remove}
use himu_os.LinkedList.Ring.{has_node, Chain, IsDistinct, IsRing, apart}

-- A chain is one in any heap with the same links of its nodes.
Chain-frame :
    (h h' : Heap) (a : ℕ) (xs : List ℕ) (b : ℕ)
    → ((n : ℕ) → has_node n (a ∷ xs) ≡ true → h'.flink n ≡ h.flink n)
    → ((n : ℕ) → has_node n xs ≡ true → h'.blink n ≡ h.blink n)
    → h'.blink b ≡ h.blink b
    → Chain h a xs b
    → Chain h' a xs b
Chain-frame h h' a [] b flinks blinks end (forth, back) =
    (flinks a (ground arith) ∙ forth, end ∙ back)
Chain-frame h h' a (x ∷ xs) b flinks blinks end (forth, back, rest) = (
  flinks a (ground arith) ∙ forth,
  blinks x (ground arith) ∙ back,
  Chain-frame h h' x xs b (λ n i. flinks n (ground arith)) (λ n i. blinks n (ground arith)) end
      rest,
)

-- The links of the heap after a removal.
abbrev Removed : Heap → ℕ → Heap → Type 0
Removed h e h' =
    (h'.flink (h.blink e) ≡ h.flink e)
    × (h'.blink (h.flink e) ≡ h.blink e)
    × ((n : ℕ) → (n == e) ≡ false → (n == h.blink e) ≡ false → h'.flink n ≡ h.flink n)
    × ((n : ℕ) → (n == e) ≡ false → (n == h.flink e) ≡ false → h'.blink n ≡ h.blink n)

-- The neighbours of a node of a chain.
before-has_node :
    (h : Heap) (a : ℕ) (xs : List ℕ) (e : ℕ) (ys : List ℕ) (b : ℕ)
    → Chain h a (xs ++ (e ∷ ys)) b
    → has_node (h.blink e) (a ∷ xs) ≡ true
before-has_node h a [] e ys b (forth, back, rest) = ground arith
before-has_node h a (x ∷ xs) e ys b (forth, back, rest) =
    ground (arith, before-has_node h x xs e ys b rest)

behind_node :
    (h : Heap) (a : ℕ) (xs : List ℕ) (e : ℕ) (ys : List ℕ) (b : ℕ)
    → Chain h a (xs ++ (e ∷ ys)) b
    → (h.flink e ≡ b) ⊎ (has_node (h.flink e) ys ≡ true)
behind_node h a [] e [] b (forth, back, (next, end)) = inl next
behind_node h a [] e (y ∷ ys) b (forth, back, (next, prev, end)) = inr (ground arith)
behind_node h a (x ∷ xs) e ys b (forth, back, rest) = behind_node h x xs e ys b rest

absent-append :
    (n : ℕ) (xs ys : List ℕ)
    → has_node n (xs ++ ys) ≡ false
    → (has_node n xs ≡ false) × (has_node n ys ≡ false)
absent-append n [] ys absent = (refl, absent)
absent-append n (x ∷ xs) ys absent =
    let (left, right) = absent-append n xs ys (ground arith) in (ground arith, right)

present-not :
    (n m : ℕ) (xs : List ℕ) → has_node n xs ≡ true → has_node m xs ≡ false → (n == m) ≡ false
present-not n m xs present absent = let other = apart m n xs absent present in ground arith

remove-Chain :
    (h h' : Heap) (a : ℕ) (xs : List ℕ) (e : ℕ) (ys : List ℕ) (b : ℕ)
    → Chain h a (xs ++ (e ∷ ys)) b
    → IsDistinct (a ∷ (xs ++ (e ∷ ys)))
    → has_node b (xs ++ (e ∷ ys)) ≡ false
    → Removed h e h'
    → Chain h' a (xs ++ ys) b
remove-Chain h h' a [] e [] b (forth, back, (next, end)) distinct unseen (fl, bl, flinks, blinks) =
    (ap (λ n. h'.flink n) (sym back) ∙ fl ∙ next, ap (λ n. h'.blink n) (sym next) ∙ bl ∙ back)
remove-Chain h h' a [] e (y ∷ ys) b (forth, back, (next, prev, rest))
      (once, (once_e, (once_y, distinct))) unseen (fl, bl, flinks, blinks) =
    (
      ap (λ n. h'.flink n) (sym back) ∙ fl ∙ next,
      ap (λ n. h'.blink n) (sym next) ∙ bl ∙ back,
      Chain-frame h h' y ys b
          (λ n i.
            flinks n (present-not n e (y ∷ ys) i once_e)
              (rw (back) (present-not n a (y ∷ ys) i (ground arith))))
          (λ n i.
            blinks n (present-not n e ys i (ground arith))
              (rw (next) (present-not n y ys i once_y)))
          (blinks b (ground arith) (rw (next) (ground arith))) rest,
    )
remove-Chain h h' a (x ∷ xs) e ys b (forth, back, rest) (once, distinct) unseen removed =
    let (fl, bl, flinks, blinks) = removed in
    let before = before-has_node h x xs e ys b rest in
    let (out_left, out_right) = absent-append a (x ∷ xs) (e ∷ ys) once in
    let (once_x, distinct_xs) = distinct in
    let (x_left, x_right) = absent-append x xs (e ∷ ys) once_x in
    let behind : (x == h.flink e) ≡ false = elim (behind_node h x xs e ys b rest) [
      | inl is_b ↦ rw (is_b) (ground arith)
      | inr in_ys ↦ apart x (h.flink e) ys (ground arith) in_ys
    ] in
    (
      flinks a (ground arith) (apart a (h.blink e) (x ∷ xs) out_left before) ∙ forth,
      blinks x (ground arith) behind ∙ back,
      remove-Chain h h' x xs e ys b rest distinct (ground arith) removed,
    )

linked_list_remove-Removed :
    (h : Heap) (e : ℕ)
    → (h.blink e == e) ≡ false
    → (h.flink e == e) ≡ false
    → Removed h e (linked_list_remove h e)
unfolding linked_list_remove
linked_list_remove-Removed h e not_before not_behind =
    let self_b : (h.blink e == h.blink e) ≡ true = ground arith in
    let self_f : (h.flink e == h.flink e) ≡ true = ground arith in
    let not_before' : (e == h.blink e) ≡ false = ground arith in
    (
      rw (not_before, self_b) refl,
      rw (not_before', not_behind, self_f) refl,
      λ n other last. rw (other, last) refl,
      λ n other last. rw (not_before', other, last) refl,
    )

IsDistinct-remove :
    (xs : List ℕ) (e : ℕ) (ys : List ℕ) → IsDistinct (xs ++ (e ∷ ys)) → IsDistinct (xs ++ ys)
IsDistinct-remove [] e ys (once, distinct) = distinct
IsDistinct-remove (x ∷ xs) e ys (once, distinct) =
    (shorter x xs e ys once, IsDistinct-remove xs e ys distinct)
  where
    shorter :
        (n : ℕ) (as' : List ℕ) (m : ℕ) (bs : List ℕ)
        → has_node n (as' ++ (m ∷ bs)) ≡ false
        → has_node n (as' ++ bs) ≡ false
    shorter n [] m bs absent = ground arith
    shorter n (a ∷ as') m bs absent = ground (arith, shorter n as' m bs)

-- No other node is the entry itself.
distinct-node :
    (xs : List ℕ) (e : ℕ) (ys : List ℕ)
    → IsDistinct (xs ++ (e ∷ ys))
    → (has_node e xs ≡ false) × (has_node e ys ≡ false)
distinct-node [] e ys (once, distinct) = (refl, once)
distinct-node (x ∷ xs) e ys (once, distinct) =
    let (left, right) = distinct-node xs e ys distinct in
    let (out_left, out_right) = absent-append x xs (e ∷ ys) once in (ground arith, right)

-- LinkedListInsertHead of a node that is not in the list adds it in front.
linked_list_insert_head-IsRing :
    (h : Heap) (head e : ℕ) (xs : List ℕ)
    → IsRing h head xs
    → has_node e (head ∷ xs) ≡ false
    → IsRing (linked_list_insert_head h head e) head (e ∷ xs)
unfolding linked_list_insert_head
linked_list_insert_head-IsRing h head e xs ring fresh = record {
  chain = chain xs ring.chain ring.distinct fresh;
  distinct = (ground (arith, ring.distinct), (ground arith, ring.distinct.1));
}
  where
    h' : Heap
    h' = linked_list_insert_head h head e

    chain :
        (ys : List ℕ)
        → Chain h head ys head
        → IsDistinct (head ∷ ys)
        → has_node e (head ∷ ys) ≡ false
        → Chain h' head (e ∷ ys) head
    chain [] (forth, back) distinct new =
        let eh : (head == e) ≡ false = ground arith in
        let he : (e == head) ≡ false = ground arith in
        let self_h : (head == head) ≡ true = ground arith in
        let self_e : (e == e) ≡ true = ground arith in
        (
          rw (self_h) refl,
          rw (eh, forth, he, self_e) refl,
          (rw (he, self_e) forth, rw (eh, forth, self_h) refl),
        )
    chain (y ∷ ys) (forth, back, rest) (once, (once_y, distinct)) new =
        let eh : (head == e) ≡ false = ground arith in
        let he : (e == head) ≡ false = ground arith in
        let ey : (e == y) ≡ false = ground arith in
        let hy : (head == y) ≡ false = ground arith in
        let self_h : (head == head) ≡ true = ground arith in
        let self_e : (e == e) ≡ true = ground arith in
        let self_y : (y == y) ≡ true = ground arith in
        let flinks : (n : ℕ) → has_node n (y ∷ ys) ≡ true → h'.flink n ≡ h.flink n = λ n i.
          let nh = present-not n head (y ∷ ys) i once in
          let ne = present-not n e (y ∷ ys) i (ground arith) in rw (nh, ne) refl in
        let blinks : (n : ℕ) → has_node n ys ≡ true → h'.blink n ≡ h.blink n = λ n i.
          let ny = present-not n y ys i once_y in
          let ne = present-not n e ys i (ground arith) in rw (eh, forth, ny, ne) refl in
        (
          rw (self_h) refl,
          rw (eh, forth, ey, self_e) refl,
          (
            rw (he, self_e) forth,
            rw (eh, forth, self_y) refl,
            Chain-frame h h' y ys head flinks blinks (rw (eh, forth, hy) refl) rest,
          ),
        )

-- LinkedListRemove of an entry takes it out, and the others keep their order.
pub linked_list_remove-IsRing :
    (h : Heap) (head : ℕ) (xs : List ℕ) (e : ℕ) (ys : List ℕ)
    → IsRing h head (xs ++ (e ∷ ys))
    → IsRing (linked_list_remove h e) head (xs ++ ys)
linked_list_remove-IsRing h head xs e ys ring =
    let (once, distinct) = ring.distinct in
    let before = before-has_node h head xs e ys head ring.chain in
    let (left, right) = distinct-node (head ∷ xs) e ys ring.distinct in
    let behind : (h.flink e == e) ≡ false = elim (behind_node h head xs e ys head ring.chain) [
      | inl is_head ↦ rw (is_head) (ground arith)
      | inr in_ys ↦ present-not (h.flink e) e ys in_ys right
    ] in
    record {
      chain =
          remove-Chain h (linked_list_remove h e) head xs e ys head ring.chain ring.distinct once (
            linked_list_remove-Removed h e (present-not (h.blink e) e (head ∷ xs) before left)
              behind);
      distinct = IsDistinct-remove (head ∷ xs) e ys ring.distinct;
    }
