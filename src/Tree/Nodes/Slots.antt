-- ===== src/Tree/Nodes/Slots.antt =====
-- Writes to an order in its slot, and to a level, seen from the chain.
use babo_matching_engine.Prelude.{
  ℕ, ◌≡◌, sym, ◌∙◌, ap, subst, true, List, [], ◌∷◌, ◌++◌, upd, upd-same, upd-other, ◌==◌, arith,
  Bool-cases, inl, inr,
}
use babo_matching_engine.Order.{SimpleOrder}
use babo_matching_engine.Pin.{PinNode}
use babo_matching_engine.Pin.Holds.{IsPin}
use babo_matching_engine.Tree.{Side, OrderLoc, no_loc, same_loc, write_order}
use babo_matching_engine.Tree.Search.{orders_begin, global_next}
use babo_matching_engine.Tree.Walk.{Walk}
use babo_matching_engine.Tree.Nodes.{Block, IsChain, orders_begin-Walk}
use babo_matching_engine.Tree.Nodes.Orders.{HasOrders}

set_slots-IsPin :
    (N : ℕ) (n : PinNode) (f : ℕ → SimpleOrder) (xs fs : List ℕ)
    → IsPin N n xs fs
    → IsPin N (record n { slots = f }) xs fs
set_slots-IsPin N n f xs fs i = record {
  chain = i.chain;
  frees = i.frees;
  distinct = i.distinct;
  free_distinct = i.free_distinct;
  apart = i.apart;
  count = i.count;
  capacity = i.capacity;
}

-- What the chain reads of a node, when the slots of one node are written.
same_node :
    (N : ℕ) (pins : ℕ → PinNode) (a : ℕ) (f : ℕ → SimpleOrder) (p : ℕ)
    → let pins' = upd pins a (record (pins a) { slots = f }) in
      ((pins' p).prev_node ≡ (pins p).prev_node)
      × ((pins' p).next_node ≡ (pins p).next_node)
      × ((xs fs : List ℕ) → IsPin N (pins p) xs fs → IsPin N (pins' p) xs fs)
same_node N pins a f p =
    let n : PinNode = record (pins a) { slots = f } in
    elim (Bool-cases (p == a)) [
      | inl e ↦
          let same : p ≡ a = ground (arith, e) in
          subst
            (λ q.
              ((upd pins a n q).prev_node ≡ (pins q).prev_node)
              × ((upd pins a n q).next_node ≡ (pins q).next_node)
              × ((xs fs : List ℕ) → IsPin N (pins q) xs fs → IsPin N (upd pins a n q) xs fs))
            (sym same)
            (
              ap (λ (m : PinNode). m.prev_node) (upd-same pins a n),
              ap (λ (m : PinNode). m.next_node) (upd-same pins a n),
              λ xs fs i.
                  subst (λ m. IsPin N m xs fs) (sym (upd-same pins a n))
                    (set_slots-IsPin N (pins a) f xs fs i),
            )
      | inr e ↦
          let same : upd pins a n p ≡ pins p = upd-other pins a n p (ground (arith, e)) in
          (
            ap (λ (m : PinNode). m.prev_node) same,
            ap (λ (m : PinNode). m.next_node) same,
            λ xs fs i. subst (λ m. IsPin N m xs fs) (sym same) i,
          )
    ]

IsChain-slots :
    (N : ℕ) (pins : ℕ → PinNode) (a : ℕ) (f : ℕ → SimpleOrder) (b c : ℕ) (ks : List Block) (z e : ℕ)
    → IsChain N pins b c ks z e
    → IsChain N (upd pins a (record (pins a) { slots = f })) b c ks z e
IsChain-slots N pins a f b c [] z e i = i
IsChain-slots N pins a f b c (k ∷ ks) z e i =
    let pins' = upd pins a (record (pins a) { slots = f }) in
    let same = same_node N pins a f k.addr in
    (
      i.0,
      i.1,
      same.0 ∙ i.2,
      same.2 k.slots k.free i.3,
      subst (λ n. IsChain N pins' k.addr n ks z e) (sym same.1)
          (IsChain-slots N pins a f k.addr (pins k.addr).next_node ks z e i.4),
    )

pub write_order-HasOrders :
    (N : ℕ) (s : Side) (x : OrderLoc) (o : SimpleOrder) (xs : List OrderLoc)
    → HasOrders N s xs
    → HasOrders N (write_order s x o) xs
unfolding write_order
write_order-HasOrders N s x o xs (ks, i, e) = (
  ks,
  record {
    chain =
        IsChain-slots N s.pins x.pin_loc (upd (s.pins x.pin_loc).slots x.index o) 0 s.chain_head ks
          s.chain_tail 0 i.chain;
    distinct = i.distinct;
    filled = i.filled;
  },
  e,
)

-- The iterator walks the locations of the chain in full.
pub HasOrders-Walk :
    (N : ℕ) (s : Side) (xs : List OrderLoc) → HasOrders N s xs → Walk s (orders_begin s) xs
HasOrders-Walk N s xs (ks, i, e) = subst (Walk s (orders_begin s)) e (orders_begin-Walk N s ks i)

-- Where the iterator stands before the locations `xs`.
abbrev pub At : OrderLoc → List OrderLoc → Type 0
At it [] = same_loc it no_loc ≡ true
At it (x ∷ xs) = it ≡ x

pub Walk-At : (s : Side) (it : OrderLoc) (xs : List OrderLoc) → Walk s it xs → At it xs
Walk-At s it [] w = w
Walk-At s it (x ∷ xs) w = w.0

-- An iterator that stands in the middle of a walk walks the rest.
pub Walk-drop :
    (s : Side) (b it : OrderLoc) (us xs : List OrderLoc)
    → Walk s b (us ++ xs)
    → At it xs
    → Walk s it xs
Walk-drop s b it [] [] w h = h
Walk-drop s b it [] (x ∷ xs) w h = (h, w.1, w.2)
Walk-drop s b it (u ∷ us) xs w h = Walk-drop s (global_next s u) it us xs w.2 h

-- Past a location of a walk stands the next one.
pub next-At :
    (s : Side) (it x : OrderLoc) (xs : List OrderLoc) → Walk s it (x ∷ xs) → At (global_next s x) xs
next-At s it x xs w = Walk-At s (global_next s x) xs w.2
