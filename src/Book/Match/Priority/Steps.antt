-- ===== src/Book/Match/Priority/Steps.antt =====
-- One round of the regular matching loop, by what it meets.
use babo_matching_engine.Prelude.{ℕ, suc, ◌≡◌, true, false, ◌&&◌, ◌||◌, none, some, min, ltb, ◌==◌}
use babo_matching_engine.Order.{SimpleOrder, open_qty, all_or_none}
use babo_matching_engine.Tree.{OrderLoc, no_loc, same_loc, order_at}
use babo_matching_engine.Tree.Search.{global_next}
use babo_matching_engine.Book.{MatchingBook, Which, side}
use babo_matching_engine.Book.Match.{
  crosses, trade_and_erase, Sweep, sweep, regular_step, regular_loop,
}

pub loop-none :
    (fuel : ℕ) (w : Which) (v : Sweep) → regular_step w v ≡ none → regular_loop (suc fuel) w v ≡ v
unfolding regular_loop
loop-none fuel w v e = rw (e, regular_loop)

pub loop-some :
    (fuel : ℕ) (w : Which) (v v' : Sweep)
    → regular_step w v ≡ some v'
    → regular_loop (suc fuel) w v ≡ regular_loop fuel w v'
unfolding regular_loop
loop-some fuel w v v' e = rw (e, regular_loop)

pub step-end :
    (w : Which) (o : SimpleOrder) (b : MatchingBook) (it : OrderLoc)
    → same_loc it no_loc || open_qty o == 0 ≡ true
    → regular_step w (sweep o b it) ≡ none
unfolding regular_step
step-end w o b it h = rw (h, regular_step)

module _ (w : Which) (o : SimpleOrder) (b : MatchingBook) (it : OrderLoc)
    (go : same_loc it no_loc || open_qty o == 0 ≡ false) where
  pub step-far : crosses (order_at (side w b) it) o ≡ false → regular_step w (sweep o b it) ≡ none
  unfolding regular_step
  step-far far = rw (go, far, regular_step)

  pub step-skip :
      crosses (order_at (side w b) it) o ≡ true
      → all_or_none (order_at (side w b) it) && ltb (open_qty o) (open_qty (order_at (side w b) it))
        ≡ true
      → regular_step w (sweep o b it) ≡ some (sweep o b (global_next (side w b) it))
  unfolding regular_step
  step-skip hit skip = rw (go, hit, skip, regular_step)

  pub step-trade :
      crosses (order_at (side w b) it) o ≡ true
      → all_or_none (order_at (side w b) it) && ltb (open_qty o) (open_qty (order_at (side w b) it))
        ≡ false
      → let maker = order_at (side w b) it in
        let r = trade_and_erase w b o it (min (open_qty o) (open_qty maker)) maker.order_id in
        regular_step w (sweep o b it) ≡ some (sweep r.0 r.1 (global_next (side w b) it))
  unfolding regular_step
  step-trade hit take = rw (go, hit, take, regular_step)
