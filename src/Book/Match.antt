-- ===== src/Book/Match.antt =====
-- The matching of matching_book.h: trades, the two ways to match an incoming order, and `submit`.
-- `N` is the capacity of a pin node.
pub mod Access
pub mod Fills
pub mod Kept
pub mod Report
pub mod Plan
pub mod Priority
use babo_matching_engine.Prelude.{
  ℕ, zero, suc, ◌+◌, ◌-◌, ◌*◌, min, Bool, true, false, ◌&&◌, ◌||◌, not, Option, none, some, List,
  [], ◌∷◌, ltb, leb, ◌==◌, if◌then◌else◌,
}
use babo_matching_engine.Prelude.Words.{add32, sub32, mul32}
use babo_matching_engine.Order.{
  SimpleOrder, open_qty, fill, all_or_none, immediate_or_cancel, market_order_price,
}
use babo_matching_engine.Tree.{
  Side, OrderLoc, no_loc, same_loc, PriceLevel, order_at, write_order, write_level,
}
use babo_matching_engine.Tree.Search.{find_order, global_next, orders_begin}
use babo_matching_engine.Tree.Erase.{erase}
use babo_matching_engine.Tree.Insert.{insert}
use babo_matching_engine.Book.{MatchingBook, Event, on_fill, Which, type_of, side, put_side, emit}

-- `tree.erase(id)` and `tree.insert(order, key)` on one tree of the book.
unfoldable pub erase_in : Which → MatchingBook → ℕ → MatchingBook
erase_in w b id = put_side w (erase (type_of w) (side w b) id) b

unfoldable pub insert_in : ℕ → Which → MatchingBook → SimpleOrder → ℕ → MatchingBook
insert_in N w b order key = put_side w (insert N (type_of w) (side w b) order key) b

unfoldable pub crosses : SimpleOrder → SimpleOrder → Bool
crosses maker incoming =
    if incoming.price == market_order_price
    then true
    else if incoming.is_buy
    then leb maker.price incoming.price
    else leb incoming.price maker.price

-- `maker._level->_quantity -= qty`.
unfoldable pub reduce_level : Side → ℕ → ℕ → Side
reduce_level s level qty =
    write_level s level (record (s.levels level) { quantity = sub32 (s.levels level).quantity qty })

-- The incoming order and the book after a trade, and whether the maker is filled.
pub record Trade : Type 0 where
  pub incoming : SimpleOrder
  pub book : MatchingBook
  pub maker_filled : Bool

unfoldable pub execute_trade : Which → MatchingBook → SimpleOrder → OrderLoc → ℕ → Trade
execute_trade w b incoming at qty =
    let s = side w b in
    let maker = order_at s at in
    let px = maker.price in
    let cost = mul32 qty px in
    let maker' = fill maker qty cost in
    let b1 = put_side w (reduce_level (write_order s at maker') maker'.level qty) b in
    record {
      incoming = fill incoming qty cost;
      book =
          emit (record b1 { market_price = px })
            (on_fill incoming.order_id maker.order_id qty cost);
      maker_filled = open_qty maker' == 0;
    }

-- `if (execute_trade(in, maker, qty)) opp.erase(id);`
unfoldable pub trade_and_erase :
    Which → MatchingBook → SimpleOrder → OrderLoc → ℕ → ℕ → SimpleOrder × MatchingBook
trade_and_erase w b incoming at qty id =
    let t = execute_trade w b incoming at qty in
    (t.incoming, if t.maker_filled then erase_in w t.book id else t.book)

-- The loop's variables: the incoming order, the book and the iterator.
pub record Sweep : Type 0 where
  pub incoming : SimpleOrder
  pub book : MatchingBook
  pub it : OrderLoc

abbrev pub sweep : SimpleOrder → MatchingBook → OrderLoc → Sweep
sweep incoming b it = record { incoming = incoming; book = b; it = it }

-- One round of the loop of `match_regular_incoming`; `none` when the loop ends.
unfoldable pub regular_step : Which → Sweep → Option Sweep
regular_step w v =
    let s = side w v.book in
    let maker = order_at s v.it in
    let left = open_qty v.incoming in
    let next = global_next s v.it in
    let qty = min left (open_qty maker) in
    let (incoming', b') = trade_and_erase w v.book v.incoming v.it qty maker.order_id in
    if same_loc v.it no_loc || left == 0
    then none
    else if not (crosses maker v.incoming)
    then none
    else if all_or_none maker && ltb left (open_qty maker)
    then some (sweep v.incoming v.book next)
    else some (sweep incoming' b' next)

unfoldable pub regular_loop : ℕ → Which → Sweep → Sweep
regular_loop zero w v = v
regular_loop (suc fuel) w v = elim (regular_step w v) [
  | none ↦ v
  | some v' ↦ regular_loop fuel w v'
]

-- Each live pin node holds at most `N` orders, and each round passes one.
abbrev pub order_fuel : ℕ → MatchingBook → ℕ
order_fuel N b = suc (b.pin_pool.nb_elements * N)

-- A planned trade: the id of the maker and the quantity.
pub record Cand : Type 0 where
  pub id : ℕ
  pub qty : ℕ

-- What the planning of `match_aon_incoming` takes from one maker that crosses.
unfoldable pub plan_take : SimpleOrder → ℕ → ℕ
plan_take maker left =
    if all_or_none maker
    then (if leb (open_qty maker) left then open_qty maker else 0)
    else min (open_qty maker) left

-- Whether it makes an entry in the plan.
unfoldable pub plan_uses : SimpleOrder → ℕ → Bool
plan_uses maker left = not (all_or_none maker) || leb (open_qty maker) left

-- The plan from the iterator on, and the planned total.
unfoldable pub plan_loop : ℕ → Side → SimpleOrder → ℕ → OrderLoc → ℕ → List Cand × ℕ
plan_loop zero s incoming needed it planned = ([], planned)
plan_loop (suc fuel) s incoming needed it planned =
    let maker = order_at s it in
    let left = needed - planned in
    let take = plan_take maker left in
    let rest = plan_loop fuel s incoming needed (global_next s it) (add32 planned take) in
    if same_loc it no_loc || not (ltb planned needed)
    then ([], planned)
    else if not (crosses maker incoming)
    then ([], planned)
    else if plan_uses maker left
    then (record { id = maker.order_id; qty = take } ∷ rest.0, rest.1)
    else rest

unfoldable pub commit_one : Which → SimpleOrder × MatchingBook → Cand → SimpleOrder × MatchingBook
commit_one w (incoming, b) c = elim (find_order (side w b) c.id) [
  | none ↦ (incoming, b)
  | some at ↦ trade_and_erase w b incoming at c.qty c.id
]

unfoldable pub commit : Which → SimpleOrder × MatchingBook → List Cand → SimpleOrder × MatchingBook
commit w v [] = v
commit w v (c ∷ plan) = commit w (commit_one w v c) plan

module _ (N : ℕ) where
  unfoldable pub match_regular_incoming :
      Which → MatchingBook → SimpleOrder → SimpleOrder × MatchingBook
  match_regular_incoming w b incoming =
      let v = regular_loop (order_fuel N b) w (sweep incoming b (orders_begin (side w b))) in
      (v.incoming, v.book)

  unfoldable pub match_aon_incoming :
      Which → MatchingBook → SimpleOrder → SimpleOrder × MatchingBook
  match_aon_incoming w b incoming =
      let needed = open_qty incoming in
      let s = side w b in
      let (plan, planned) = plan_loop (order_fuel N b) s incoming needed (orders_begin s) 0 in
      if ltb planned needed then (incoming, b) else commit w (incoming, b) plan

  unfoldable pub match_against : Which → MatchingBook → SimpleOrder → SimpleOrder × MatchingBook
  match_against w b incoming =
      if all_or_none incoming
      then match_aon_incoming w b incoming
      else match_regular_incoming w b incoming

  -- Whether what is left of the order rests in the book.
  abbrev pub rests : SimpleOrder → Bool
  rests o = not (o.price == market_order_price) && not (immediate_or_cancel o) && ltb 0 (open_qty o)

  unfoldable pub submit : MatchingBook → SimpleOrder → SimpleOrder × MatchingBook
  submit b order =
      let own = if order.is_buy then Which.bids else Which.asks in
      let opposite = if order.is_buy then Which.asks else Which.bids in
      let (order', b') = match_against opposite b order in
      (order', if rests order' then insert_in N own b' order' order'.price else b')
