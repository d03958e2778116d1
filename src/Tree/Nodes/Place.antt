-- ===== src/Tree/Nodes/Place.antt =====
-- `chain_place` and `place_order` on the chain of pin nodes.
use babo_matching_engine.Prelude.{
  ℕ, ◌+◌, ◌≤◌, ◌≡◌, sym, ap, subst, true, false, not, Option, none, some, List, [], ◌∷◌, ◌++◌,
  length, length-append, ◌==◌, if◌then◌else◌, arith, Bool-cases, inl, inr, upd-same,
}
use babo_matching_engine.Order.{SimpleOrder, open_qty}
use babo_matching_engine.Prelude.Words.{add32}
use babo_matching_engine.Pin.{npos}
use babo_matching_engine.Tree.{Side, PriceLevel, OrderLoc, OrderType, loc, level_empty, by_type}
use babo_matching_engine.Tree.Chain.{at_level, chain_first, chain_insert_head, chain_insert_after}
use babo_matching_engine.Tree.Insert.{chain_place, place_order}
use babo_matching_engine.Tree.Nodes.{Block, HasChain, locs_in, length-locs_in, locs}
use babo_matching_engine.Tree.Nodes.Replace.{view}
use babo_matching_engine.Tree.Nodes.Orders.{place}
use babo_matching_engine.Tree.Nodes.Fresh.{IsFresh}
use babo_matching_engine.Tree.Nodes.Owned.{Owns, Owns-IsFresh}
use babo_matching_engine.Tree.Nodes.Insert.{Placed, length-locs_count}
use babo_matching_engine.Tree.Nodes.After.{PlacedAt}
use babo_matching_engine.Tree.Nodes.Behind.{chain_insert_after-Placed}
use babo_matching_engine.Tree.Nodes.Front.{chain_first-Placed, chain_insert_head-Placed}

-- The order behind which a new order of the level goes: the last one of the level, or else of the
-- next better level; none when there is no better level.
abbrev pub anchor_of : OrderType → Side → ℕ → Option OrderLoc
anchor_of type s level =
    let better = by_type type (s.levels level).succ (s.levels level).pred in
    if not (level_empty (s.levels level))
    then some (s.levels level).tail
    else if not (better == 0)
    then some (s.levels better).tail
    else none

-- The place right behind the anchor.
abbrev pub IsBehind : Option OrderLoc → List OrderLoc → ℕ → Type 0
IsBehind none xs p = p ≡ 0
IsBehind (some x) xs p =
    (us : List OrderLoc) × (vs : List OrderLoc) × (xs ≡ us ++ x ∷ vs) × (length us + 1 ≡ p)

nonempty-head :
    (N : ℕ) (s : Side) (ks : List Block) (k : Block) (ls : List Block)
    → HasChain N s (ks ++ k ∷ ls)
    → (s.chain_head == 0) ≡ false
nonempty-head N s [] k ls i = ground (arith, i.chain.0, i.chain.1)
nonempty-head N s (j ∷ ks) k ls i = ground (arith, i.chain.0, i.chain.1)

front-Placed :
    (N : ℕ) (ord : SimpleOrder) (lvl : ℕ)
    → 1 ≤ N
    → N ≤ npos
    → (s : Side) (ks : List Block) → HasChain N s ks
    → IsFresh N s ks
    → PlacedAt N ord lvl
        (view s.pins ks)
        0
        (if s.chain_head == 0 then chain_first N s ord lvl else chain_insert_head N s ord lvl)
front-Placed N ord lvl low high s [] i out =
    let e : (s.chain_head == 0) ≡ true = ground (arith, i.chain.0) in
    rw e (chain_first-Placed N ord lvl low high s)
front-Placed N ord lvl low high s (k ∷ ks) i out =
    let e : (s.chain_head == 0) ≡ false = nonempty-head N s [] k ks i in
    rw e (chain_insert_head-Placed N ord lvl low high s k ks i out)

module _ (N : ℕ) (ord : SimpleOrder) (lvl : ℕ) (low : 1 ≤ N) (high : N ≤ npos) (s : Side)
    (ks : List Block) (i : HasChain N s ks) (out : IsFresh N s ks) where
  -- Behind an order of the chain, wherever it stands.
  behind-Placed :
      (x : OrderLoc) (p : ℕ)
      → IsBehind (some x) (locs ks) p
      → PlacedAt N ord lvl (view s.pins ks) p (chain_insert_after N s x ord lvl)
  behind-Placed x p (us, vs, e, n) =
      let r = place ks us x vs e in
      subst (λ l. PlacedAt N ord lvl (view s.pins ks) p (chain_insert_after N s l ord lvl))
        (sym r.loc_eq)
        (subst
          (λ bs.
            PlacedAt N ord lvl (view s.pins bs) p
              (chain_insert_after N s (loc r.block.addr r.slot) ord lvl))
          (sym r.blocks_eq)
          (subst
            (λ q.
              PlacedAt N ord lvl (view s.pins (r.before ++ r.block ∷ r.behind)) q
                (chain_insert_after N s (loc r.block.addr r.slot) ord lvl))
            (omega (
              arith,
              n,
              ap length r.us_eq,
              length-append (locs r.before) (locs_in r.block.addr r.slots_before),
              length-locs_count r.before,
              length-locs_in r.block.addr r.slots_before,
            ))
            (chain_insert_after-Placed N ord lvl low high s r.before r.block r.behind r.slots_before
              r.slot r.slots_behind (subst (HasChain N s) r.blocks_eq i) r.slots_eq
              (subst (IsFresh N s) r.blocks_eq out))))

  -- An anchor stands in a chain that is not empty.
  anchored : (x : OrderLoc) (p : ℕ) → IsBehind (some x) (locs ks) p → (s.chain_head == 0) ≡ false
  anchored x p (us, vs, e, n) =
      let r = place ks us x vs e in
      nonempty-head N s r.before r.block r.behind (subst (HasChain N s) r.blocks_eq i)

  chain_place-Placed :
      (type : OrderType) (p : ℕ)
      → IsBehind (anchor_of type s lvl) (locs ks) p
      → PlacedAt N ord lvl (view s.pins ks) p (chain_place N type s lvl ord)
  unfolding chain_place
  chain_place-Placed type p = elim (Bool-cases (level_empty (s.levels lvl))) [
    | inr e ↦
        rw e (λ h. rw (anchored (s.levels lvl).tail p h) (behind-Placed (s.levels lvl).tail p h))
    | inl e ↦
        let better = by_type type (s.levels lvl).succ (s.levels lvl).pred in
        elim (Bool-cases (better == 0)) [
          | inr g ↦
              rw (e, g)
                (λ h.
                  rw (anchored (s.levels better).tail p h)
                    (behind-Placed (s.levels better).tail p h))
          | inl g ↦
              rw (e, g)
                (λ h.
                  subst
                    (λ q. PlacedAt N ord lvl (view s.pins ks) q (
                      if s.chain_head == 0
                      then chain_first N s ord lvl
                      else chain_insert_head N s ord lvl))
                    (sym h) (front-Placed N ord lvl low high s ks i out))
        ]
  ]

  -- The order is in place, and its id and the level lead to it.
  place_fresh-Placed :
      (type : OrderType) (p : ℕ)
      → IsBehind (anchor_of type s lvl) (locs ks) p
      → let t = place_order N type s lvl ord in
        (x : OrderLoc) × Placed N (view s.pins ks) p (at_level ord lvl) x t
        × (t.order_index ord.order_id ≡ some x)
        × ((t.levels lvl).tail ≡ x)
  unfolding place_order
  place_fresh-Placed type p h =
      let r = chain_place-Placed type p h in
      let (x, s1) = chain_place N type s lvl ord in
      (
        x,
        record {
          blocks = r.blocks;
          chain = record {
            chain = r.chain.chain;
            distinct = r.chain.distinct;
            filled = r.chain.filled;
          };
          view_eq = r.view_eq;
          before = r.before;
          behind = r.behind;
          locs_eq = r.locs_eq;
          place_eq = r.place_eq;
        },
        upd-same s1.order_index ord.order_id (some x),
        ap (λ (l : PriceLevel). l.tail)
            (upd-same s1.levels lvl (record (s1.levels lvl) {
              head = if level_empty (s.levels lvl) then x else (s1.levels lvl).head;
              tail = x;
              quantity = add32 (s1.levels lvl).quantity (open_qty ord);
              count = add32 (s1.levels lvl).count 1;
            })),
      )

-- When the pin nodes of a tree, of 1 to 2^16 - 1 slots, form a well-formed chain and are lent by
-- a well-formed pool, and the order behind which the new one goes stands in it, placing an order
-- on a level leaves a well-formed chain whose orders are the ones before, in the same order, with
-- the new one right behind the last order of its level, or of the next better level when its own
-- is empty, or in front of all when there is no better level; the location in the chain at this
-- place is the one that the index has for its id and the tail of the level.
pub place_order-Placed :
    (N : ℕ) (ord : SimpleOrder) (lvl : ℕ)
    → 1 ≤ N
    → N ≤ npos
    → (s : Side) (ks : List Block) (free : List ℕ) (used : ℕ) → HasChain N s ks
    → Owns s ks free used
    → (type : OrderType) (p : ℕ) → IsBehind (anchor_of type s lvl) (locs ks) p
    → let t = place_order N type s lvl ord in
      (x : OrderLoc) × Placed N (view s.pins ks) p (at_level ord lvl) x t
      × (t.order_index ord.order_id ≡ some x)
      × ((t.levels lvl).tail ≡ x)
place_order-Placed N ord lvl low high s ks free used i o =
    place_fresh-Placed N ord lvl low high s ks i (Owns-IsFresh N s ks free used o)
