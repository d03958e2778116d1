-- ===== src/Book/Match/Plan/Reference.antt =====
-- The planning of `match_aon_incoming` against a plan over the list of the resting orders.
use babo_matching_engine.Prelude.{
  ℕ, zero, suc, ◌-◌, ◌<◌, ◌≡◌, not, List, [], ◌∷◌, length, ltb, if◌then◌else◌, arith,
}
use babo_matching_engine.Prelude.Words.{add32}
use babo_matching_engine.Order.{SimpleOrder}
use babo_matching_engine.Tree.{Side, OrderLoc, order_at}
use babo_matching_engine.Tree.Search.{global_next}
use babo_matching_engine.Tree.Walk.{Walk}
use babo_matching_engine.Book.Match.{crosses, Cand, plan_take, plan_uses, plan_loop}

-- The makers in priority order are asked in turn, until enough is planned or one does not cross;
-- an AON maker that is too large is passed over.
pub plan_from : SimpleOrder → ℕ → ℕ → List SimpleOrder → List Cand × ℕ
plan_from incoming needed planned [] = ([], planned)
plan_from incoming needed planned (maker ∷ makers) =
    let left = needed - planned in
    let part = plan_take maker left in
    let rest = plan_from incoming needed (add32 planned part) makers in
    if not (ltb planned needed)
    then ([], planned)
    else if not (crosses maker incoming)
    then ([], planned)
    else if plan_uses maker left
    then (record { id = maker.order_id; qty = part } ∷ rest.0, rest.1)
    else rest

abbrev pub makers_at : Side → List OrderLoc → List SimpleOrder
makers_at s [] = []
makers_at s (x ∷ xs) = order_at s x ∷ makers_at s xs

-- When the iterator walks the given locations and the fuel exceeds their number, the planning
-- loop of an all-or-none order returns the plan of a recursion over the list of the orders there:
-- it never runs out of fuel.
pub plan_loop-plan_from :
    (fuel : ℕ) (s : Side) (incoming : SimpleOrder) (needed : ℕ) (it : OrderLoc) (planned : ℕ)
    (xs : List OrderLoc)
    → Walk s it xs
    → length xs < fuel
    → plan_loop fuel s incoming needed it planned
      ≡ plan_from incoming needed planned (makers_at s xs)
unfolding plan_loop plan_from
plan_loop-plan_from zero s incoming needed it planned xs w h = absurd (omega arith)
plan_loop-plan_from (suc fuel) s incoming needed it planned [] w h = rw (w, plan_loop)
plan_loop-plan_from (suc fuel) s incoming needed it planned (x ∷ xs) w h =
    let maker = order_at s x in
    let left = needed - planned in
    let rest =
      plan_loop-plan_from fuel s incoming needed (global_next s x)
        (add32 planned (plan_take maker left)) xs w.2 (omega arith) in
    rw (w.0, w.1, rest, plan_loop, plan_from)
