-- ===== src/Tests/Stops.antt =====
-- The theorems on stops and on `replace` at concrete books.
use babo_matching_engine.Prelude.{ℕ, ◌≡◌, ◌≢◌, ◌<◌, refl, true, List, [], ◌∷◌, if◌then◌else◌, arith}
use babo_matching_engine.Prelude.Int.{negsuc}
use babo_matching_engine.Order.{SimpleOrder, oc_no_conditions}
use babo_matching_engine.Pin.{npos}
use babo_matching_engine.Pin.Holds.{IsPin}
use babo_matching_engine.Tree.{OrderLoc, loc, Side, order_at}
use babo_matching_engine.Tree.Search.{orders_begin}
use babo_matching_engine.Tree.Walk.{DistinctIds}
use babo_matching_engine.Tree.Nodes.{HasChain}
use babo_matching_engine.Tree.Nodes.Orders.{HasOrders}
use babo_matching_engine.Tree.Nodes.Slots.{At}
use babo_matching_engine.Book.{MatchingBook, Which, side}
use babo_matching_engine.Book.Match.Access.{Unmoved}
use babo_matching_engine.Book.Orders.{fire, is_stopped, not_reached, replace_in_place}
use babo_matching_engine.Book.Orders.Fire.{Fires, reached, fire-Fires, not_reached-is_stopped}
use babo_matching_engine.Book.Orders.Replace.{Replaces, replace_in_place-Replaces}
use babo_matching_engine.Tests.Ready.{told}
use babo_matching_engine.Tests.Chains.{resting-HasOrders, third}
use babo_matching_engine.Tests.Scenario.{order, log, adds, start, resting}

-- Two buy stops, at 15 and at 25, and then a market at 20.
abbrev stops : MatchingBook
stops =
    record (adds 2 start (
      record (order 1 true 30 5 oc_no_conditions) { stop_price = 15 }
      ∷ record (order 2 true 30 5 oc_no_conditions) { stop_price = 25 }
      ∷ [])) { market_price = 20 }

abbrev s : Side
s = side Which.stop_bids stops

abbrev both : List OrderLoc
both = loc 1 0 ∷ loc 1 1 ∷ []

ne : (a : ℕ) → a < 4 → a ≢ npos
ne a h k = absurd (omega arith)

differ : {a b : ℕ} → a ≡ 2 → b ≡ 1 → a ≢ b
differ e f h = absurd (omega (arith, e, f, h))

positive : (a : ℕ) → 0 < a → a ≢ 0
positive a h k = absurd (omega arith)

stops-IsPin : IsPin 2 (s.pins 1) (0 ∷ 1 ∷ []) []
unfolding adds
stops-IsPin = record {
  chain = (refl, ne 0 (omega arith), refl, (refl, ne 1 (omega arith), refl, (refl, refl)));
  frees = refl;
  distinct = (refl, (refl, tt));
  free_distinct = tt;
  apart = λ a m. absurd (ground (arith, m));
  count = refl;
  capacity = refl;
}

stops-HasChain : HasChain 2 s (record { addr = 1; slots = 0 ∷ 1 ∷ []; free = [] } ∷ [])
unfolding adds
stops-HasChain = record {
  chain = (refl, positive 1 (omega arith), refl, stops-IsPin, (refl, refl));
  distinct = (refl, tt);
  filled = ((λ e. absurd cc), tt);
}

stops-HasOrders : HasOrders 2 s both
stops-HasOrders = (record { addr = 1; slots = 0 ∷ 1 ∷ []; free = [] } ∷ [], stops-HasChain, refl)

begins : At (orders_begin s) both
unfolding adds
begins = refl

first_id : (order_at s (loc 1 0)).order_id ≡ 1
unfolding adds
first_id = refl

second_id : (order_at s (loc 1 1)).order_id ≡ 2
unfolding adds
second_id = refl

ids : DistinctIds s both
ids = ((differ second_id first_id, tt), (tt, tt))

unmoved : Unmoved Which.stop_bids s stops both
unfolding adds
unmoved = (refl, refl, (refl, refl, tt))

fire-Fires_example :
    Fires 2 Which.stop_bids stops []
      (reached (not_reached Which.stop_bids stops.market_price) s both)
      (fire 3 Which.stop_bids stops (orders_begin s))
fire-Fires_example =
    fire-Fires 3 2 Which.stop_bids s stops (orders_begin s) [] both stops-HasOrders begins ids
      unmoved (omega arith)

abbrev stop_order : SimpleOrder
stop_order = record (order 1 true 30 5 oc_no_conditions) { stop_price = 15 }

not_reached-is_stopped_example :
    not_reached
      (if stop_order.is_buy then Which.stop_bids else Which.stop_asks)
      stops.market_price
      stop_order
    ≡ is_stopped stops stop_order
not_reached-is_stopped_example = not_reached-is_stopped stops stop_order

replace_in_place-Replaces_example :
    Replaces 2 Which.asks resting
      (loc 1 0 ∷ [])
      (loc 1 1)
      (loc 2 0 ∷ loc 2 1 ∷ [])
      3
      (negsuc 1)
      (log resting)
      (replace_in_place Which.asks resting (loc 1 1) 3 (negsuc 1))
replace_in_place-Replaces_example =
    replace_in_place-Replaces 2 Which.asks resting (loc 1 0 ∷ []) (loc 1 1) (loc 2 0 ∷ loc 2 1 ∷ [])
      3 (negsuc 1) (log resting) resting-HasOrders third told
