-- ===== src/Pin/Insert.antt =====
-- `append`, `prepend` and `insert_after` of pin_node.h on the list of a node.
use mathlib.Core.List.{append-nil, append_assoc, map-append}
use babo_matching_engine.Prelude.{
  ℕ, ◌≡◌, refl, sym, subst, ◌∙◌, ap, false, List, [], ◌∷◌, ◌++◌, map, arith, upd, upd-same, has,
  has-append,
}
use babo_matching_engine.Order.{SimpleOrder}
use babo_matching_engine.Pin.{
  PinNode, alloc, link_front, link_back, splice_after, append, prepend, insert_after,
}
use babo_matching_engine.Pin.Linked.{link_front-IsPin, link_back-IsPin, splice_after-IsPin}
use babo_matching_engine.Pin.Holds.{IsPin, orders, map-upd, alloc-IsLoose}

-- Linking moves no order: each stays in its slot.
slots-link_front : (p : PinNode) (s : ℕ) → (link_front p s).slots ≡ p.slots
unfolding link_front
slots-link_front p s = refl

slots-link_back : (p : PinNode) (s : ℕ) → (link_back p s).slots ≡ p.slots
unfolding link_back
slots-link_back p s = refl

slots-splice_after : (p : PinNode) (r s : ℕ) → (splice_after p r s).slots ≡ p.slots
unfolding splice_after
slots-splice_after p r s = refl

-- What an insertion of `order` into the slot `s` makes of the node.
pub record Inserts (N : ℕ) (p : PinNode) (order : SimpleOrder) (s : ℕ) (xs ys fs : List ℕ)
    (r : ℕ × PinNode) : Type 0 where
  pub slot : r.0 ≡ s
  pub is_pin : IsPin N r.1 (xs ++ s ∷ ys) fs
  pub view : orders r.1 (xs ++ s ∷ ys) ≡ orders p xs ++ order ∷ orders p ys

view_insert :
    (slots : ℕ → SimpleOrder) (s : ℕ) (o : SimpleOrder) (xs ys : List ℕ)
    → has s xs ≡ false
    → has s ys ≡ false
    → map (upd slots s o) (xs ++ s ∷ ys) ≡ map slots xs ++ o ∷ map slots ys
view_insert slots s o xs ys hx hy = rw (
  map-append (upd slots s o) xs (s ∷ ys),
  map-upd slots s o xs hx,
  map-upd slots s o ys hy,
  upd-same slots s o,
)

-- What `alloc` writes, when the free list begins with `s`.
slots-alloc :
    (p : PinNode) (order : SimpleOrder) (s : ℕ)
    → p.free ≡ s
    → (alloc p order).1.slots ≡ upd p.slots s order
unfolding alloc
slots-alloc p order s e = rw e

module _ {N : ℕ} (p : PinNode) (order : SimpleOrder) where
  -- From the facts about the link that follows `alloc`.
  insertion :
      (s : ℕ) (xs ys fs : List ℕ) (q : PinNode)
      → IsPin N p (xs ++ ys) (s ∷ fs)
      → IsPin N q (xs ++ s ∷ ys) fs
      → q.slots ≡ (alloc p order).1.slots
      → Inserts N p order s xs ys fs (s, q)
  insertion s xs ys fs q i j same =
      let out : has s (xs ++ ys) ≡ false = i.apart s (ground arith) in
      record {
        slot = refl;
        is_pin = j;
        view =
            ap (λ f. map f (xs ++ s ∷ ys)) (same ∙ slots-alloc p order s i.frees.0)
            ∙ view_insert p.slots s order xs ys (ground (arith, has-append s xs ys))
                (ground (arith, has-append s xs ys));
      }

  -- On a well-formed pin node with a free slot, `append` puts the order last, in the first free
  -- slot; the other orders keep their order and the node stays well formed.
  pub append-Inserts :
      (s : ℕ) (xs fs : List ℕ)
      → IsPin N p xs (s ∷ fs)
      → Inserts N p order s xs [] fs (append p order)
  unfolding append
  append-Inserts s xs fs i =
      let (e, l, _, _) = alloc-IsLoose order xs s fs i in
      rw e (
        insertion s xs [] fs (link_back (alloc p order).1 s)
          (subst (λ zs. IsPin N p zs (s ∷ fs)) (sym (append-nil xs)) i)
          (link_back-IsPin (alloc p order).1 s xs fs l) (slots-link_back (alloc p order).1 s))

  -- On a well-formed pin node with a free slot, `prepend` puts the order first, in the first free
  -- slot; the other orders keep their order and the node stays well formed.
  pub prepend-Inserts :
      (s : ℕ) (xs fs : List ℕ)
      → IsPin N p xs (s ∷ fs)
      → Inserts N p order s [] xs fs (prepend p order)
  unfolding prepend
  prepend-Inserts s xs fs i =
      let (e, l, _, _) = alloc-IsLoose order xs s fs i in
      rw e (
        insertion s [] xs fs (link_front (alloc p order).1 s) i
          (link_front-IsPin (alloc p order).1 s xs fs l) (slots-link_front (alloc p order).1 s))

  -- On a well-formed pin node with a free slot, `insert_after` puts the order right behind the
  -- slot it is given, in the first free slot; the other orders keep their order and the node
  -- stays well formed.
  pub insert_after-Inserts :
      (ref s : ℕ) (xs ys fs : List ℕ)
      → IsPin N p (xs ++ ref ∷ ys) (s ∷ fs)
      → Inserts N p order s (xs ++ ref ∷ []) ys fs (insert_after p ref order)
  unfolding insert_after
  insert_after-Inserts ref s xs ys fs i =
      let (e, l, _, _) = alloc-IsLoose order (xs ++ ref ∷ ys) s fs i in
      rw e (
        insertion s (xs ++ ref ∷ []) ys fs (splice_after (alloc p order).1 ref s)
          (subst (λ zs. IsPin N p zs (s ∷ fs)) (sym (append_assoc xs (ref ∷ []) ys)) i)
          (subst (λ zs. IsPin N (splice_after (alloc p order).1 ref s) zs fs)
            (sym (append_assoc xs (ref ∷ []) (s ∷ ys)))
            (splice_after-IsPin (alloc p order).1 s ref xs ys fs l))
          (slots-splice_after (alloc p order).1 ref s))
