-- ===== src/Tree/Nodes/Behind.antt =====
-- `insert_at_boundary` and `chain_insert_after` on the chain of pin nodes.
use mathlib.Core.List.{append_assoc}
use babo_matching_engine.Prelude.{
  ℕ, ◌+◌, ◌≤◌, ◌≡◌, ◌≢◌, refl, sym, ◌∙◌, ap, subst, true, false, List, [], ◌∷◌, ◌++◌, length,
  length-append, Distinct, ◌==◌, if◌then◌else◌, arith, Bool-cases, inl, inr,
}
use babo_matching_engine.Order.{SimpleOrder}
use babo_matching_engine.Pin.{PinNode, npos, full}
use babo_matching_engine.Pin.Holds.{IsPin}
use babo_matching_engine.Tree.{Side, loc, new_pin}
use babo_matching_engine.Tree.Chain.{
  append_at, prepend_at, insert_after_at, extend_after, make_room, insert_at_boundary,
  chain_insert_after,
}
use babo_matching_engine.Tree.Nodes.{Block, IsChain, addrs, HasChain}
use babo_matching_engine.Tree.Nodes.Replace.{reslot, view}
use babo_matching_engine.Tree.Nodes.Erase.{AllFilled-append, AllFilled-cut}
use babo_matching_engine.Tree.Nodes.Relocate.{Open, node_at}
use babo_matching_engine.Tree.Nodes.Fresh.{empty_block, IsFresh, IsChain-split}
use babo_matching_engine.Tree.Nodes.Extend.{extend_after-Open, same_next}
use babo_matching_engine.Tree.Nodes.Passing.{free_of_full, free_of_not_full}
use babo_matching_engine.Tree.Nodes.Room.{range_cons, make_room-Roomy}
use babo_matching_engine.Tree.Nodes.Insert.{count, count-append}
use babo_matching_engine.Tree.Nodes.After.{
  PlacedAt, prepend_at-Placed, append_at-Placed, insert_after_at-Placed, entered_last, at_tail,
}

last-injective : (xs ys : List ℕ) (x y : ℕ) → xs ++ x ∷ [] ≡ ys ++ y ∷ [] → xs ≡ ys
last-injective [] [] x y e = refl
last-injective [] (b ∷ []) x y e = absurd cc
last-injective [] (b ∷ c ∷ ys) x y e = absurd cc
last-injective (a ∷ []) [] x y e = absurd cc
last-injective (a ∷ b ∷ xs) [] x y e = absurd cc
last-injective (a ∷ xs) (b ∷ ys) x y e = let rest = last-injective xs ys x y cc in cc

-- The place behind the last order of a node.
boundary_place :
    (ks : List Block) (k : Block) (us : List ℕ) (t : ℕ)
    → k.slots ≡ us ++ t ∷ []
    → count (ks ++ k ∷ []) ≡ count ks + length us + 1
boundary_place ks k us t e =
    omega (arith, count-append ks (k ∷ []), ap length e, length-append us (t ∷ []))

module _ (N : ℕ) (ord : SimpleOrder) (lvl : ℕ) (low : 1 ≤ N) (high : N ≤ npos) where
  -- Behind the last order of a full last node: into a fresh node.
  append_last-Placed :
      (s : Side) (ks : List Block) (k : Block)
      → Open N s ks k []
      → k.slots ≢ []
      → IsFresh N s (ks ++ k ∷ [])
      → PlacedAt N ord lvl
          (view s.pins (ks ++ k ∷ []))
          (count (ks ++ k ∷ []))
          (append_at (extend_after N s k.addr).1 (new_pin N s).0 ord lvl)
  append_last-Placed s ks k o f out =
      let (c, v) = extend_after-Open N s low high ks k [] o f out in
      let new = empty_block N (new_pin N s).0 in
      subst
        (λ l.
          PlacedAt N ord lvl l (count (ks ++ k ∷ []))
            (append_at (extend_after N s k.addr).1 (new_pin N s).0 ord lvl))
        v
        (append_at-Placed N ord lvl (extend_after N s k.addr).1 (ks ++ k ∷ []) new [] c refl
          (range_cons N low))

  -- Before the first order of the node behind, which makes room when it is full.
  prepend_next-Placed :
      (s : Side) (ks : List Block) (k l : Block) (ls : List Block)
      → Open N s (ks ++ k ∷ []) l ls
      → IsFresh N s ((ks ++ k ∷ []) ++ l ∷ ls)
      → PlacedAt N ord lvl
          (view s.pins ((ks ++ k ∷ []) ++ l ∷ ls))
          (count (ks ++ k ∷ []))
          (prepend_at (if full N (s.pins l.addr) then make_room N s l.addr else s) l.addr ord lvl)
  prepend_next-Placed s ks k l ls o out =
      let (_, pin, _) =
        node_at N s.pins 0 s.chain_head (ks ++ k ∷ []) l ls s.chain_tail 0 o.chain in
      elim (Bool-cases (full N (s.pins l.addr))) [
        | inl e ↦
            let r =
              make_room-Roomy N s (ks ++ k ∷ []) l ls low high o
                (free_of_full N (s.pins l.addr) l.slots l.free pin e) out in
            rw e (
              subst
                (λ v.
                  PlacedAt N ord lvl v (count (ks ++ k ∷ []))
                    (prepend_at (make_room N s l.addr) l.addr ord lvl))
                r.view_eq
                (prepend_at-Placed N ord lvl (make_room N s l.addr) (ks ++ k ∷ [])
                  (reslot l r.slots (r.slot ∷ [])) r.behind r.chain (r.slot, [], refl)))
        | inr e ↦ rw e (
            prepend_at-Placed N ord lvl s (ks ++ k ∷ []) l ls o
              (free_of_not_full N (s.pins l.addr) l.slots l.free pin e))
      ]

  -- Behind the last order of a full node.
  insert_at_boundary-Placed :
      (s : Side) (ks : List Block) (k : Block) (ls : List Block)
      → Open N s ks k ls
      → k.slots ≢ []
      → IsFresh N s (ks ++ k ∷ ls)
      → PlacedAt N ord lvl
          (view s.pins (ks ++ k ∷ ls))
          (count (ks ++ k ∷ []))
          (insert_at_boundary N s k.addr ord lvl)
  unfolding insert_at_boundary
  insert_at_boundary-Placed s ks k [] o f out =
      let (_, r) = IsChain-split N s.pins 0 s.chain_head ks k [] s.chain_tail 0 o.chain in
      let test : ((s.pins k.addr).next_node == 0) ≡ true = ground (arith, r.0) in
      let none_after : ((new_pin N s).1.pins k.addr).next_node ≡ 0 =
        ap (λ (p : PinNode). p.next_node) (same_next N s low high ks k [] out) ∙ r.0 in
      rw test (
        subst
          (λ t.
            PlacedAt N ord lvl (view s.pins (ks ++ k ∷ [])) (count (ks ++ k ∷ []))
              (append_at t (new_pin N s).0 ord lvl))
          (sym (entered_last N s k.addr none_after)) (append_last-Placed s ks k o f out))
  insert_at_boundary-Placed s ks k (l ∷ ls) o f out =
      let (_, r) = IsChain-split N s.pins 0 s.chain_head ks k (l ∷ ls) s.chain_tail 0 o.chain in
      let next = (s.pins k.addr).next_node in
      let test : (next == 0) ≡ false = ground (arith, r.0, r.1) in
      let split : (ks ++ k ∷ []) ++ l ∷ ls ≡ ks ++ (k ∷ l ∷ ls) =
        append_assoc ks (k ∷ []) (l ∷ ls) in
      let moved : Open N s (ks ++ k ∷ []) l ls = record {
        chain = subst (λ bs. IsChain N s.pins 0 s.chain_head bs s.chain_tail 0) (sym split) o.chain;
        distinct = subst (λ bs. Distinct (addrs bs)) (sym split) o.distinct;
        filled_before = AllFilled-append ks (k ∷ []) o.filled_before (f, tt);
        filled_behind = o.filled_behind.1;
      } in
      rw test (
        subst
          (λ v.
            PlacedAt N ord lvl v (count (ks ++ k ∷ []))
              (prepend_at (if full N (s.pins next) then make_room N s next else s) next ord lvl))
          (ap (view s.pins) split)
          (subst
            (λ a.
              PlacedAt N ord lvl (view s.pins ((ks ++ k ∷ []) ++ l ∷ ls)) (count (ks ++ k ∷ []))
                (prepend_at (if full N (s.pins a) then make_room N s a else s) a ord lvl))
            (sym r.0)
            (prepend_next-Placed s ks k l ls moved (subst (IsFresh N s) (sym split) out))))

  -- Behind an order in the middle of a full node, which makes room.
  insert_middle-Placed :
      (s : Side) (ks : List Block) (k : Block) (ls : List Block) (us : List ℕ) (t : ℕ) (ws : List ℕ)
      (z : ℕ)
      → Open N s ks k ls
      → k.slots ≡ us ++ t ∷ (ws ++ z ∷ [])
      → k.free ≡ []
      → IsFresh N s (ks ++ k ∷ ls)
      → PlacedAt N ord lvl
          (view s.pins (ks ++ k ∷ ls))
          (count ks + length us + 1)
          (insert_after_at (make_room N s k.addr) k.addr t ord lvl)
  insert_middle-Placed s ks k ls us t ws z o e g out =
      let r = make_room-Roomy N s ks k ls low high o g out in
      let same : r.slots ≡ us ++ t ∷ ws =
        last-injective r.slots (us ++ t ∷ ws) r.slot z
          (sym r.slots_eq ∙ e ∙ sym (append_assoc us (t ∷ ws) (z ∷ []))) in
      subst
        (λ v.
          PlacedAt N ord lvl v (count ks + length us + 1)
            (insert_after_at (make_room N s k.addr) k.addr t ord lvl))
        r.view_eq
        (insert_after_at-Placed N ord lvl (make_room N s k.addr) ks (reslot k r.slots (r.slot ∷ []))
          r.behind us t ws r.chain same (r.slot, [], refl))

  -- The order goes right behind the anchor: in its node when this has a free slot, else at the
  -- boundary to the node behind, else in the room that the cascade makes.
  pub chain_insert_after-Placed :
      (s : Side) (ks : List Block) (k : Block) (ls : List Block) (us : List ℕ) (t : ℕ) (vs : List ℕ)
      → HasChain N s (ks ++ k ∷ ls)
      → k.slots ≡ us ++ t ∷ vs
      → IsFresh N s (ks ++ k ∷ ls)
      → PlacedAt N ord lvl
          (view s.pins (ks ++ k ∷ ls))
          (count ks + length us + 1)
          (chain_insert_after N s (loc k.addr t) ord lvl)
  unfolding chain_insert_after
  chain_insert_after-Placed s ks k ls us t vs i e out =
      let (before, behind) = AllFilled-cut ks (k ∷ ls) i.filled in
      let o : Open N s ks k ls = record {
        chain = i.chain;
        distinct = i.distinct;
        filled_before = before;
        filled_behind = behind.1;
      } in
      let (_, pin, _) = node_at N s.pins 0 s.chain_head ks k ls s.chain_tail 0 i.chain in
      let parts =
        at_tail N (s.pins k.addr) us t vs k.free
          (subst (λ zs. IsPin N (s.pins k.addr) zs k.free) e pin) in
      elim (Bool-cases (full N (s.pins k.addr))) [
        | inr h ↦ rw h (
            insert_after_at-Placed N ord lvl s ks k ls us t vs o e
              (free_of_not_full N (s.pins k.addr) k.slots k.free pin h))
        | inl h ↦
            let free = free_of_full N (s.pins k.addr) k.slots k.free pin h in
            elim (Bool-cases (t == (s.pins k.addr).tail)) [
              | inl q ↦
                  rw (h, q)
                    (subst
                      (λ n.
                        PlacedAt N ord lvl (view s.pins (ks ++ k ∷ ls)) n
                          (insert_at_boundary N s k.addr ord lvl))
                      (boundary_place ks k us t (e ∙ ap (λ l. us ++ t ∷ l) (parts.0 q)))
                      (insert_at_boundary-Placed s ks k ls o behind.0 out))
              | inr q ↦
                  let (ws, z, g) = parts.1 q in
                  rw (h, q)
                    (insert_middle-Placed s ks k ls us t ws z o (e ∙ ap (λ l. us ++ t ∷ l) g) free
                      out)
            ]
      ]
