-- ===== src/Book/Match/Report.antt =====
-- The regular matching loop and what the listener is told of it.
use babo_matching_engine.Prelude.{
  ℕ, zero, suc, ◌≡◌, ◌&&◌, ◌||◌, Option, none, some, List, [], ◌∷◌, ◌++◌, map, arith, min, subst,
  ltb, ◌==◌, Bool-cases, Option-cases, inl, inr,
}
use babo_matching_engine.Order.{SimpleOrder, open_qty, all_or_none}
use babo_matching_engine.Order.Quantity.{IsSound}
use babo_matching_engine.Tree.{no_loc, same_loc, order_at}
use babo_matching_engine.Tree.Search.{orders_begin}
use babo_matching_engine.Book.{MatchingBook, Event, Which, side}
use babo_matching_engine.Book.Match.{
  crosses, Sweep, sweep, regular_step, regular_loop, order_fuel, match_regular_incoming,
}
use babo_matching_engine.Book.Match.Fills.{
  Fill, report, Reported, Reported-none, Reported-trans, trade_and_erase-Reported,
}

-- The trades of an outcome, with the proof that they are what was reported.
abbrev pub Outcome : SimpleOrder → MatchingBook → List Event → SimpleOrder → MatchingBook → Type 0
Outcome o b log o' b' = (fs : List Fill) × Reported o b log fs o' b'

abbrev After : Sweep → List Event → Option Sweep → Type 0
After v log none = Unit {0}
After v log (some v') = Outcome v.incoming v.book log v'.incoming v'.book

regular_step-After :
    (w : Which) (v : Sweep) (log : List Event)
    → v.book.order_listener ≡ some log
    → IsSound v.incoming
    → After v log (regular_step w v)
unfolding regular_step
regular_step-After w v log e s =
    let maker = order_at (side w v.book) v.it in
    let left = open_qty v.incoming in
    elim (Bool-cases (same_loc v.it no_loc || left == 0)) [
      | inl stop ↦ rw (stop, regular_step) tt
      | inr go ↦ elim (Bool-cases (crosses maker v.incoming)) [
        | inr far ↦ rw (go, far, regular_step) tt
        | inl hit ↦ elim (Bool-cases (all_or_none maker && ltb left (open_qty maker))) [
          | inl skip ↦
              rw (go, hit, skip, regular_step) ([], Reported-none v.incoming v.book log e s)
          | inr take ↦
              rw (go, hit, take, regular_step)
                (
                  record {
                    maker = maker.order_id;
                    qty = min left (open_qty maker);
                    price = maker.price;
                  }
                      ∷ [],
                  trade_and_erase-Reported w v.book v.incoming v.it (min left (open_qty maker))
                      maker.order_id log e s (omega arith) hit,
                )
        ]
      ]
    ]

regular_loop-Outcome :
    (fuel : ℕ) (w : Which) (v : Sweep) (log : List Event)
    → v.book.order_listener ≡ some log
    → IsSound v.incoming
    → Outcome v.incoming v.book log (regular_loop fuel w v).incoming (regular_loop fuel w v).book
unfolding regular_loop
regular_loop-Outcome zero w v log e s = ([], Reported-none v.incoming v.book log e s)
regular_loop-Outcome (suc fuel) w v log e s = elim (Option-cases (regular_step w v)) [
  | inl n ↦ rw (n, regular_loop) ([], Reported-none v.incoming v.book log e s)
  | inr (v', n) ↦
      let (fs, r) = subst (After v log) n (regular_step-After w v log e s) in
      let (gs, q) =
        regular_loop-Outcome fuel w v' (log ++ map (report v.incoming.order_id) fs) r.told
          r.sound in
      rw (n, regular_loop)
        (
          fs ++ gs,
          Reported-trans v.incoming v.book log fs v'.incoming v'.book gs
              (regular_loop fuel w v').incoming (regular_loop fuel w v').book r q,
        )
]

-- With a listener set and a sound incoming order, regular matching makes a sequence of trades
-- such that the listener is told of exactly these in order, the filled quantity of the order
-- grows by their sum, each price is within the limit of the order, the market price is the last
-- of them, and the order keeps its terms and stays sound.
pub match_regular_incoming-Outcome :
    (N : ℕ) (w : Which) (b : MatchingBook) (o : SimpleOrder) (log : List Event)
    → b.order_listener ≡ some log
    → IsSound o
    → let r = match_regular_incoming N w b o in Outcome o b log r.0 r.1
unfolding match_regular_incoming
match_regular_incoming-Outcome N w b o log e s =
    regular_loop-Outcome (order_fuel N b) w (sweep o b (orders_begin (side w b))) log e s
