-- ===== src/Tests/Chains.antt =====
-- The theorems on the chain of pin nodes and on regular matching at the resting book.
use babo_matching_engine.Prelude.{ℕ, ◌≡◌, ◌≢◌, ◌<◌, refl, true, some, List, [], ◌∷◌, arith}
use babo_matching_engine.Order.{SimpleOrder, oc_no_conditions}
use babo_matching_engine.Pin.{npos}
use babo_matching_engine.Pin.Holds.{IsPin}
use babo_matching_engine.Tree.{loc, ask, Side}
use babo_matching_engine.Tree.Search.{orders_begin}
use babo_matching_engine.Tree.Erase.{erase}
use babo_matching_engine.Tree.Walk.{Walk}
use babo_matching_engine.Tree.Nodes.{Block, HasChain, locs, orders_begin-Walk}
use babo_matching_engine.Tree.Nodes.Orders.{HasOrders, erase-HasOrders}
use babo_matching_engine.Book.{Which, side}
use babo_matching_engine.Book.Match.{match_regular_incoming}
use babo_matching_engine.Book.Match.Plan.Reference.{makers_at}
use babo_matching_engine.Book.Match.Priority.Sweeping.{
  IsOrdered, Matches, match_regular_incoming-Matches,
}
use babo_matching_engine.Tests.Ready.{locations, distinct, indexed, nodes, told}
use babo_matching_engine.Tests.Scenario.{order, log, adds, resting}

abbrev pub s : Side
s = side Which.asks resting

abbrev pub block : ℕ → Block
block a = record { addr = a; slots = 0 ∷ 1 ∷ []; free = [] }

abbrev pub blocks : List Block
blocks = block 1 ∷ block 2 ∷ []

ne : (a : ℕ) → a < 4 → a ≢ npos
ne a h k = absurd (omega arith)

first-IsPin : IsPin 2 (s.pins 1) (0 ∷ 1 ∷ []) []
unfolding adds
first-IsPin = record {
  chain = (refl, ne 0 (omega arith), refl, (refl, ne 1 (omega arith), refl, (refl, refl)));
  frees = refl;
  distinct = (refl, (refl, tt));
  free_distinct = tt;
  apart = λ a m. absurd (ground (arith, m));
  count = refl;
  capacity = refl;
}

second-IsPin : IsPin 2 (s.pins 2) (0 ∷ 1 ∷ []) []
unfolding adds
second-IsPin = record {
  chain = (refl, ne 0 (omega arith), refl, (refl, ne 1 (omega arith), refl, (refl, refl)));
  frees = refl;
  distinct = (refl, (refl, tt));
  free_distinct = tt;
  apart = λ a m. absurd (ground (arith, m));
  count = refl;
  capacity = refl;
}

positive : (a : ℕ) → 0 < a → a ≢ 0
positive a h k = absurd (omega arith)

pub blocks-HasChain : HasChain 2 s blocks
unfolding adds
blocks-HasChain = record {
  chain = (
    refl,
    positive 1 (omega arith),
    refl,
    first-IsPin,
    (refl, positive 2 (omega arith), refl, second-IsPin, (refl, refl)),
  );
  distinct = (refl, (refl, tt));
  filled = ((λ e. absurd cc), ((λ e. absurd cc), tt));
}

orders_begin-Walk_example : Walk s (orders_begin s) (locs blocks)
orders_begin-Walk_example = orders_begin-Walk 2 s blocks blocks-HasChain

pub resting-HasOrders : HasOrders 2 s locations
resting-HasOrders = (blocks, blocks-HasChain, refl)

pub third : s.order_index 3 ≡ some (loc 1 1)
unfolding adds
third = refl

erase-HasOrders_example : HasOrders 2 (erase ask s 3) (loc 1 0 ∷ loc 2 0 ∷ loc 2 1 ∷ [])
erase-HasOrders_example =
    erase-HasOrders 2 ask s 3 (loc 1 0 ∷ []) (loc 1 1) (loc 2 0 ∷ loc 2 1 ∷ []) resting-HasOrders
      third

resting-IsOrdered : IsOrdered 2 Which.asks resting locations
resting-IsOrdered = record {
  orders = resting-HasOrders;
  ids = distinct;
  indexed = indexed;
  bounded = omega (arith, nodes);
}

abbrev buy : SimpleOrder
buy = order 7 true 11 11 oc_no_conditions

match_regular_incoming-Matches_example :
    Matches 2 Which.asks buy
      (log resting)
      (makers_at s locations)
      (match_regular_incoming 2 Which.asks resting buy)
match_regular_incoming-Matches_example =
    match_regular_incoming-Matches 2 Which.asks resting buy (log resting) locations
      resting-IsOrdered told
