-- ===== src/Tree/Nodes/Front.antt =====
-- `chain_first` and `chain_insert_head` on the chain of pin nodes.
use babo_matching_engine.Prelude.{
  ℕ, ◌≤◌, ◌≡◌, ◌≢◌, refl, sym, ◌∙◌, ap, subst, not, List, [], ◌∷◌, if◌then◌else◌, arith, Bool-cases,
  inl, inr, upd, upd-same, upd-other,
}
use babo_matching_engine.Order.{SimpleOrder}
use babo_matching_engine.Pin.{PinNode, npos, full, pin_node}
use babo_matching_engine.Pin.Free.{range}
use babo_matching_engine.Pin.Holds.{IsPin, pin_node-IsPin}
use babo_matching_engine.Tree.{Side, new_pin}
use babo_matching_engine.Tree.Chain.{
  set_next_node, set_prev_node, append_at, prepend_at, chain_first, chain_insert_head,
}
use babo_matching_engine.Tree.Nodes.{Block, IsChain, HasChain}
use babo_matching_engine.Tree.Nodes.Links.{set_prev, IsChain-set_start}
use babo_matching_engine.Tree.Nodes.Replace.{view}
use babo_matching_engine.Tree.Nodes.Relocate.{Open, node_at}
use babo_matching_engine.Tree.Nodes.Fresh.{
  empty_block, IsFresh, new_pin_lem, view-SameSlots, upd-SameSlots, in_part, join_new,
}
use babo_matching_engine.Tree.Nodes.Written.{fresh_pins, fresh-IsPin, fresh-IsChain, fresh_view}
use babo_matching_engine.Tree.Nodes.Passing.{free_of_not_full}
use babo_matching_engine.Tree.Nodes.Room.{range_cons}
use babo_matching_engine.Tree.Nodes.After.{PlacedAt, prepend_at-Placed, append_at-Placed, upd-id}

set_prev_node-id : (s : Side) (p v : ℕ) → (s.pins p).prev_node ≡ v → set_prev_node s p v ≡ s
unfolding set_prev_node
set_prev_node-id s p v e =
    subst (λ w. set_prev_node s p w ≡ s) e
      (ap (λ (f : ℕ → PinNode). record s { pins = f }) (upd-id s.pins p))

new_node : (N : ℕ) (s : Side) → (new_pin N s).1.pins (new_pin N s).0 ≡ pin_node N
new_node N s =
    let m = (new_pin N s).0 in
    ap (λ (f : ℕ → PinNode). f m) (new_pin_lem N s).1 ∙ upd-same s.pins m (pin_node N)

module _ (N : ℕ) (ord : SimpleOrder) (lvl : ℕ) (low : 1 ≤ N) (high : N ≤ npos) where
  -- The first order of all.
  pub chain_first-Placed : (s : Side) → PlacedAt N ord lvl [] 0 (chain_first N s ord lvl)
  unfolding chain_first pin_node
  chain_first-Placed s =
      let m = (new_pin N s).0 in
      let u = record (new_pin N s).1 { chain_head = m; chain_tail = m } in
      let same = new_node N s in
      append_at-Placed N ord lvl u [] (empty_block N m) []
        (record {
          chain = (
            refl,
            (new_pin_lem N s).0,
            ap (λ (p : PinNode). p.prev_node) same,
            subst (λ p. IsPin N p [] (range 0 N)) (sym same) (pin_node-IsPin N high low),
            (ap (λ (p : PinNode). p.next_node) same, refl),
          );
          distinct = (refl, tt);
          filled_before = tt;
          filled_behind = tt;
        })
        refl (range_cons N low)

  -- The new node before the first one, with all its links written.
  abbrev fronted : Side → ℕ → Side
  fronted s h =
      let m = (new_pin N s).0 in
      let t = set_prev_node (set_next_node (set_prev_node (new_pin N s).1 m 0) m h) h m in
      record t { chain_head = m }

  fronted-Open :
      (s : Side) (k : Block) (ks : List Block)
      → HasChain N s (k ∷ ks)
      → IsFresh N s (k ∷ ks)
      → let u = fronted s k.addr in
        Open N u [] (empty_block N (new_pin N s).0) (k ∷ ks)
        × (view u.pins (k ∷ ks) ≡ view s.pins (k ∷ ks))
  unfolding new_pin set_next_node set_prev_node
  fronted-Open s k ks i out =
      let m = (new_pin N s).0 in
      let h = k.addr in
      let p = fresh_pins N s 0 low high h in
      let q = upd p h (set_prev (p h) m) in
      let (pin, back, on) = fresh-IsPin N s 0 low high h in
      let old = fresh-IsChain N s 0 low high h 0 s.chain_head (k ∷ ks) s.chain_tail 0 i.chain out in
      let ne : m ≢ h = λ e. absurd (ground (arith, in_part m [] k ks e, out)) in
      (
        record {
          chain =
              join_new N p m 0 (new_pin_lem N s).0 pin back q m [] (k ∷ ks) s.chain_tail
                (upd-other p h (set_prev (p h) m) m ne) (refl, refl)
                (subst (λ a. IsChain N q m a (k ∷ ks) s.chain_tail 0) (sym on)
                  (IsChain-set_start N p 0 m h k ks s.chain_tail 0
                    (subst (λ a. IsChain N p 0 a (k ∷ ks) s.chain_tail 0) i.chain.0 old)
                    i.distinct));
          distinct = (out, i.distinct);
          filled_before = tt;
          filled_behind = i.filled;
        },
        view-SameSlots p q (k ∷ ks) (upd-SameSlots p h (set_prev (p h) m) refl)
            ∙ fresh_view N s 0 low high h (k ∷ ks) out,
      )

  -- Before all orders of the chain.
  pub chain_insert_head-Placed :
      (s : Side) (k : Block) (ks : List Block)
      → HasChain N s (k ∷ ks)
      → IsFresh N s (k ∷ ks)
      → PlacedAt N ord lvl (view s.pins (k ∷ ks)) 0 (chain_insert_head N s ord lvl)
  unfolding chain_insert_head pin_node
  chain_insert_head-Placed s k ks i out =
      let (_, pin, _) = node_at N s.pins 0 s.chain_head [] k ks s.chain_tail 0 i.chain in
      let o : Open N s [] k ks = record {
        chain = i.chain;
        distinct = i.distinct;
        filled_before = tt;
        filled_behind = i.filled.1;
      } in
      let m = (new_pin N s).0 in
      let goal = PlacedAt N ord lvl (view s.pins (k ∷ ks)) 0 in
      subst
        (λ h. goal (
          if not (full N (s.pins h))
          then prepend_at s h ord lvl
          else append_at
              (record (set_prev_node (set_next_node (new_pin N s).1 m h) h m) { chain_head = m }) m
              ord lvl))
        (sym i.chain.0)
        (elim (Bool-cases (full N (s.pins k.addr))) [
          | inr e ↦ rw e (
              prepend_at-Placed N ord lvl s [] k ks o
                (free_of_not_full N (s.pins k.addr) k.slots k.free pin e))
          | inl e ↦
              let (c, v) = fronted-Open s k ks i out in
              rw e (
                subst
                  (λ t. goal (
                    append_at
                      (record (set_prev_node (set_next_node t m k.addr) k.addr m) {
                        chain_head = m;
                      })
                      m ord lvl))
                  (set_prev_node-id (new_pin N s).1 m 0
                    (ap (λ (p : PinNode). p.prev_node) (new_node N s)))
                  (subst (λ l. PlacedAt N ord lvl l 0 (append_at (fronted s k.addr) m ord lvl)) v
                    (append_at-Placed N ord lvl (fronted s k.addr) [] (empty_block N m) (k ∷ ks) c
                      refl (range_cons N low))))
        ])
