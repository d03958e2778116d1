-- ===== src/Tests/Placing.antt =====
-- The theorems on the insertion into the chain at the resting book: both of its nodes are full.
use babo_matching_engine.Prelude.{◌≡◌, refl, some, [], ◌∷◌, false, arith}
use babo_matching_engine.Order.{SimpleOrder, oc_no_conditions}
use babo_matching_engine.Tree.{OrderLoc, loc, ask}
use babo_matching_engine.Tree.Chain.{at_level, make_room}
use babo_matching_engine.Tree.Insert.{place_order}
use babo_matching_engine.Tree.Nodes.{locs}
use babo_matching_engine.Tree.Nodes.Replace.{view}
use babo_matching_engine.Tree.Nodes.Relocate.{Open}
use babo_matching_engine.Tree.Nodes.Ripple.{Roomy}
use babo_matching_engine.Tree.Nodes.Fresh.{IsFresh}
use babo_matching_engine.Tree.Nodes.Room.{make_room-Roomy}
use babo_matching_engine.Tree.Nodes.Insert.{Placed}
use babo_matching_engine.Tree.Nodes.Owned.{Owns}
use babo_matching_engine.Tree.Nodes.Place.{anchor_of, IsBehind, place_order-Placed}
use babo_matching_engine.Tests.Scenario.{order, adds}
use babo_matching_engine.Tests.Chains.{s, block, blocks, blocks-HasChain}

third_node-IsFresh : IsFresh 2 s blocks
unfolding adds
third_node-IsFresh = refl

nodes-Owns : Owns s blocks [] 2
unfolding adds
nodes-Owns = record {
  pool = record {
    chain = refl;
    distinct = tt;
    below = tt;
    counted = refl;
    fits = omega arith;
    high_water = refl;
  };
  live = ((omega arith, refl), ((omega arith, refl), tt));
}

-- The level at 10 ends with the last order of the first node.
at_ten : IsBehind (anchor_of ask s 1) (locs blocks) 2
unfolding adds
at_ten = (loc 1 0 ∷ [], loc 2 0 ∷ loc 2 1 ∷ [], refl, refl)

abbrev five : SimpleOrder
five = order 5 false 10 7 oc_no_conditions

place_order-Placed_example :
    (x : OrderLoc) × Placed 2
      (view s.pins blocks)
      2
      (at_level five 1)
      x
      (place_order 2 ask s 1 five)
    × ((place_order 2 ask s 1 five).order_index 5 ≡ some x)
    × (((place_order 2 ask s 1 five).levels 1).tail ≡ x)
place_order-Placed_example =
    place_order-Placed 2 five 1 (omega arith) (omega arith) s blocks [] 2 blocks-HasChain nodes-Owns
      ask 2 at_ten

first-Open : Open 2 s [] (block 1) (block 2 ∷ [])
first-Open = record {
  chain = blocks-HasChain.chain;
  distinct = blocks-HasChain.distinct;
  filled_before = tt;
  filled_behind = blocks-HasChain.filled.1;
}

make_room-Roomy_example : Roomy 2 (make_room 2 s 1) (view s.pins blocks) [] (block 1)
make_room-Roomy_example =
    make_room-Roomy 2 s [] (block 1) (block 2 ∷ []) (omega arith) (omega arith) first-Open refl
      third_node-IsFresh
