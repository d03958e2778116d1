-- ===== src/Book/Orders.antt =====
-- The calls of matching_book.h: `add`, `cancel`, `replace`, `set_market_price`, and the stops.
pub mod Cancel
pub mod Replace
pub mod Fire
use babo_matching_engine.Prelude.{
  ℕ, zero, suc, ◌+◌, ◌*◌, Bool, true, false, ◌&&◌, ◌||◌, not, Option, none, some, List, [], ◌∷◌,
  ◌++◌, ltb, leb, ◌==◌, if◌then◌else◌,
}
use babo_matching_engine.Prelude.Int.{ℤ, is_neg, abs}
use babo_matching_engine.Prelude.Words.{add32, to_u32}
use babo_matching_engine.Order.{SimpleOrder, open_qty, modify, price_unchanged}
use babo_matching_engine.Tree.{
  Side, OrderLoc, no_loc, same_loc, PriceLevel, order_at, write_order, write_level,
}
use babo_matching_engine.Tree.Search.{find_order, global_next, orders_begin}
use babo_matching_engine.Book.{
  MatchingBook, Event, on_accept, on_reject, on_cancel, on_cancel_reject, on_replace,
  on_replace_reject, Which, side, put_side, emit,
}
use babo_matching_engine.Book.Match.{erase_in, insert_in, order_fuel, submit}

unfoldable pub is_stopped : MatchingBook → SimpleOrder → Bool
is_stopped b o =
    if o.is_buy then ltb b.market_price o.stop_price else ltb o.stop_price b.market_price

-- The exit of the two loops of `process_triggered`: a stop that the market has not reached.
unfoldable pub not_reached : Which → ℕ → SimpleOrder → Bool
not_reached Which.stop_bids market o = ltb market o.stop_price
not_reached w market o = ltb o.stop_price market

-- One of the two loops: the stops that fire leave the tree, in the order of the tree.
unfoldable pub fire : ℕ → Which → MatchingBook → OrderLoc → List SimpleOrder × MatchingBook
fire zero w b it = ([], b)
fire (suc fuel) w b it =
    let s = side w b in
    let copy = order_at s it in
    let rest = fire fuel w (erase_in w b copy.order_id) (global_next s it) in
    if same_loc it no_loc
    then ([], b)
    else if not_reached w b.market_price copy
    then ([], b)
    else (copy ∷ rest.0, rest.1)

unfoldable pub cancel_side : ℕ → Which → MatchingBook → Option MatchingBook
cancel_side order_id w b = elim (find_order (side w b) order_id) [
  | none ↦ none
  | some at ↦ some (erase_in w b order_id)
]

-- The first of the trees that has the order gives it up.
abbrev or_else : Option MatchingBook → Option MatchingBook → Option MatchingBook
or_else none o = o
or_else (some b) o = some b

unfoldable pub cancel : MatchingBook → ℕ → MatchingBook
cancel b order_id =
    let found = or_else (cancel_side order_id Which.bids b) (
      or_else (cancel_side order_id Which.asks b) (
        or_else (cancel_side order_id Which.stop_bids b)
          (cancel_side order_id Which.stop_asks b))) in
    elim found [
      | none ↦ emit b (on_cancel_reject order_id)
      | some b' ↦ emit b' (on_cancel order_id)
    ]

-- `o->_level->_quantity + size_delta`, cut to 32 bits.
unfoldable pub resize_level : Side → ℕ → ℤ → Side
resize_level s level size_delta =
    write_level s level
      (record (s.levels level) { quantity = add32 (s.levels level).quantity (to_u32 size_delta) })

-- `replace` at the price of the order: in place, with its priority.
unfoldable pub replace_in_place : Which → MatchingBook → OrderLoc → ℕ → ℤ → MatchingBook
replace_in_place w b at order_id size_delta =
    let s = side w b in
    let o = order_at s at in
    let b1 =
      if is_neg size_delta && leb (open_qty o) (abs size_delta)
      then erase_in w b order_id
      else put_side w
          (resize_level (write_order s at (modify o size_delta price_unchanged)) o.level size_delta)
          b in
    emit b1 (on_replace order_id size_delta o.price)

module _ (N : ℕ) where
  unfoldable pub fire_all : MatchingBook → List SimpleOrder × MatchingBook
  fire_all b =
      let (buys, b1) =
        fire (order_fuel N b) Which.stop_bids b (orders_begin (side Which.stop_bids b)) in
      let (sells, b2) =
        fire (order_fuel N b1) Which.stop_asks b1 (orders_begin (side Which.stop_asks b1)) in
      (buys ++ sells, b2)

  unfoldable pub submit_all : MatchingBook → List SimpleOrder → MatchingBook
  submit_all b [] = b
  submit_all b (o ∷ os) = submit_all (submit N b o).1 os

  -- `for (;;)`: a round with no stop fired is the last.
  unfoldable pub process_rounds : ℕ → MatchingBook → MatchingBook
  process_rounds zero b = b
  process_rounds (suc fuel) b =
      let (fired, b1) = fire_all b in
      elim fired [ [] ↦ b1 | o ∷ os ↦ process_rounds fuel (submit_all b1 (o ∷ os)) ]

  -- Each round but the last takes at least one order out of the stop trees, and none enters them.
  unfoldable pub process_triggered : MatchingBook → MatchingBook
  unfolding process_rounds
  process_triggered b = process_rounds (suc (order_fuel N b)) b

  unfoldable pub park_stop : MatchingBook → SimpleOrder → MatchingBook
  park_stop b o =
      insert_in N (if o.is_buy then Which.stop_bids else Which.stop_asks) b o o.stop_price

  unfoldable pub add : MatchingBook → SimpleOrder → MatchingBook
  add b order =
      if order.order_qty == 0
      then emit b (on_reject order.order_id)
      else (let b1 = emit b (on_accept order.order_id) in
          if not (order.stop_price == 0) && is_stopped b1 order
          then park_stop b1 order
          else process_triggered (submit N b1 order).1)

  unfoldable pub set_market_price : MatchingBook → ℕ → MatchingBook
  set_market_price b px = process_triggered (record b { market_price = px })

  -- `replace` at another price: out, and in again as a new order.
  unfoldable pub replace_reprice : Which → MatchingBook → OrderLoc → ℕ → ℤ → ℕ → MatchingBook
  replace_reprice w b at order_id size_delta new_price =
      let copy = modify (order_at (side w b) at) size_delta new_price in
      let b1 = emit (erase_in w b order_id) (on_replace order_id size_delta copy.price) in
      if open_qty copy == 0 then b1 else process_triggered (submit N b1 copy).1

  unfoldable pub replace_at : Which → MatchingBook → OrderLoc → ℕ → ℤ → ℕ → MatchingBook
  replace_at w b at order_id size_delta new_price =
      let cur_price = (order_at (side w b) at).price in
      if not (new_price == price_unchanged) && not (new_price == cur_price)
      then replace_reprice w b at order_id size_delta new_price
      else replace_in_place w b at order_id size_delta

  unfoldable pub replace : MatchingBook → ℕ → ℤ → ℕ → MatchingBook
  replace b order_id size_delta new_price = elim (find_order (side Which.bids b) order_id) [
    | some at ↦ replace_at Which.bids b at order_id size_delta new_price
    | none ↦ elim (find_order (side Which.asks b) order_id) [
      | some at ↦ replace_at Which.asks b at order_id size_delta new_price
      | none ↦ emit b (on_replace_reject order_id)
    ]
  ]
