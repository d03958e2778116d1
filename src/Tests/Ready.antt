-- ===== src/Tests/Ready.antt =====
-- The theorems on matching, on cancel and on erase at the resting book of the scenario.
use babo_matching_engine.Prelude.{
  ℕ, ◌≡◌, ◌≢◌, refl, true, none, List, [], ◌∷◌, sym, ◌∙◌, ◌==◌, if◌then◌else◌, arith, some,
}
use babo_matching_engine.Order.{SimpleOrder, OrderConditions, oc_no_conditions, oc_all_or_none}
use babo_matching_engine.Order.Quantity.{IsSound}
use babo_matching_engine.Tree.{OrderLoc, loc, Side, order_at}
use babo_matching_engine.Tree.Search.{orders_begin}
use babo_matching_engine.Tree.Walk.{Walk, DistinctIds, Indexed}
use babo_matching_engine.Tree.{ask}
use babo_matching_engine.Tree.Erase.{erase}
use babo_matching_engine.Tree.Stable.{erase-order_at}
use babo_matching_engine.Book.Orders.{cancel}
use babo_matching_engine.Book.Orders.Cancel.{Cancels, cancel-Cancels}
use babo_matching_engine.Book.{Which, side}
use babo_matching_engine.Book.Match.{plan_loop, match_aon_incoming, match_regular_incoming}
use babo_matching_engine.Book.Match.Report.{Outcome, match_regular_incoming-Outcome}
use babo_matching_engine.Book.Match.Plan.Reference.{makers_at}
use babo_matching_engine.Book.Match.Plan.{Plans, plan_loop-Plans}
use babo_matching_engine.Book.Match.Plan.Commit.{IsReady, AllOrNone, match_aon_incoming-AllOrNone}
use babo_matching_engine.Tests.Scenario.{order, log, adds, resting}

abbrev s : Side
s = side Which.asks resting

-- By price, and at price 10 by time.
abbrev pub locations : List OrderLoc
locations = loc 1 0 ∷ loc 1 1 ∷ loc 2 0 ∷ loc 2 1 ∷ []

ids : (order_at s (loc 1 0)).order_id ≡ 1
unfolding adds
ids = refl

ids2 : (order_at s (loc 1 1)).order_id ≡ 3
unfolding adds
ids2 = refl

ids3 : (order_at s (loc 2 0)).order_id ≡ 2
unfolding adds
ids3 = refl

ids4 : (order_at s (loc 2 1)).order_id ≡ 4
unfolding adds
ids4 = refl

differ : {a b m n : ℕ} → a ≡ m → b ≡ n → m ≢ n → a ≢ b
differ e f h k = h (sym e ∙ k ∙ f)

pub distinct : DistinctIds s locations
distinct = (
  (
    differ ids2 ids (λ h. absurd (omega arith)),
    (
      differ ids3 ids (λ h. absurd (omega arith)),
      (differ ids4 ids (λ h. absurd (omega arith)), tt),
    ),
  ),
  (
    (
      differ ids3 ids2 (λ h. absurd (omega arith)),
      (differ ids4 ids2 (λ h. absurd (omega arith)), tt),
    ),
    ((differ ids4 ids3 (λ h. absurd (omega arith)), tt), (tt, tt)),
  ),
)

walk : Walk s (orders_begin s) locations
unfolding adds
walk = (refl, refl, (refl, refl, (refl, refl, (refl, refl, refl))))

pub indexed : Indexed s locations
unfolding adds
indexed = (refl, (refl, (refl, (refl, tt))))

pub nodes : resting.pin_pool.nb_elements ≡ 2
unfolding adds
nodes = refl

pub resting-IsReady : IsReady 2 Which.asks resting locations
resting-IsReady = record {
  walk = walk;
  ids = distinct;
  indexed = indexed;
  bounded = omega (arith, nodes);
}

pub told : resting.order_listener ≡ some (log resting)
unfolding adds
told = refl

abbrev buy : OrderConditions → SimpleOrder
buy conditions = order 7 true 11 11 conditions

buy-IsSound : (conditions : OrderConditions) → IsSound (buy conditions)
buy-IsSound conditions = record { within = omega arith; fits = omega arith; unreserved = refl }

match_aon_incoming-AllOrNone_example :
    AllOrNone
      (buy oc_all_or_none)
      resting
      (log resting)
      (makers_at s locations)
      (match_aon_incoming 2 Which.asks resting (buy oc_all_or_none))
match_aon_incoming-AllOrNone_example =
    match_aon_incoming-AllOrNone 2 Which.asks resting (buy oc_all_or_none) (log resting) locations
      resting-IsReady told (buy-IsSound oc_all_or_none)

match_regular_incoming-Outcome_example :
    Outcome
      (buy oc_no_conditions)
      resting
      (log resting)
      (match_regular_incoming 2 Which.asks resting (buy oc_no_conditions)).0
      (match_regular_incoming 2 Which.asks resting (buy oc_no_conditions)).1
match_regular_incoming-Outcome_example =
    match_regular_incoming-Outcome 2 Which.asks resting (buy oc_no_conditions) (log resting) told
      (buy-IsSound oc_no_conditions)

plan_loop-Plans_example :
    Plans s
      (buy oc_all_or_none)
      11
      0
      locations
      (plan_loop 5 s (buy oc_all_or_none) 11 (orders_begin s) 0)
plan_loop-Plans_example =
    plan_loop-Plans 5 s (buy oc_all_or_none) 11 (orders_begin s) 0 locations walk (omega arith)
      (omega arith)

cancel-Cancels_example : Cancels resting 3 (log resting) (cancel resting 3)
cancel-Cancels_example = cancel-Cancels resting 3 (log resting) told

erase-order_at_example :
    ((j : ℕ) → (erase ask s 3).order_index j ≡ (if j == 3 then none else s.order_index j))
    × ((at : OrderLoc) → order_at (erase ask s 3) at ≡ order_at s at)
erase-order_at_example = erase-order_at ask s 3
