-- ===== src/Level.antt =====
-- libs/babobook/include/book/depth_constants.h and depth_level.h: one aggregated price level of a
-- depth snapshot. The exceptions of `close_order` are results of their own.
pub mod Counting
use babo_matching_engine.Prelude.{ℕ, ◌^◌, ◌-◌, Bool, true, false, leb, ◌==◌, if◌then◌else◌}
use babo_matching_engine.Prelude.Words.{add32, sub32}

abbrev pub invalid_level_price : ℕ
invalid_level_price = 0

abbrev pub market_order_bid_sort_price : ℕ
market_order_bid_sort_price = 2 ^ 32 - 1

abbrev pub market_order_ask_sort_price : ℕ
market_order_ask_sort_price = 0

pub record DepthLevel : Type 0 where
  pub price : ℕ
  pub order_count : ℕ
  pub aggregate_qty : ℕ
  pub is_excess : Bool

-- `DepthLevel()`.
abbrev pub blank_level : DepthLevel
blank_level = record {
  price = invalid_level_price;
  order_count = 0;
  aggregate_qty = 0;
  is_excess = false;
}

-- `operator=`: the flag `is_excess` of the target stays.
unfoldable pub assign : DepthLevel → DepthLevel → DepthLevel
assign l rhs = record l {
  price = rhs.price;
  order_count = rhs.order_count;
  aggregate_qty = rhs.aggregate_qty;
}

unfoldable pub init : DepthLevel → ℕ → Bool → DepthLevel
init l price is_excess = record {
  price = price;
  order_count = 0;
  aggregate_qty = 0;
  is_excess = is_excess;
}

unfoldable pub add_order : DepthLevel → ℕ → DepthLevel
add_order l qty = record l {
  order_count = add32 l.order_count 1;
  aggregate_qty = add32 l.aggregate_qty qty;
}

unfoldable pub increase_qty : DepthLevel → ℕ → DepthLevel
increase_qty l qty = record l { aggregate_qty = add32 l.aggregate_qty qty }

unfoldable pub decrease_qty : DepthLevel → ℕ → DepthLevel
decrease_qty l qty = record l { aggregate_qty = sub32 l.aggregate_qty qty }

unfoldable pub set : DepthLevel → ℕ → ℕ → ℕ → DepthLevel
set l price qty order_count = record {
  price = price;
  order_count = order_count;
  aggregate_qty = qty;
  is_excess = false;
}

-- The level after the call with the answer, or after the exception.
pub data CloseResult : Type 0 where
  closed : DepthLevel → Bool → CloseResult
  count_too_low quantity_too_low : DepthLevel → CloseResult

take_qty : DepthLevel → ℕ → CloseResult
take_qty l qty =
    if leb qty l.aggregate_qty
    then closed (record l { aggregate_qty = sub32 l.aggregate_qty qty }) false
    else quantity_too_low l

unfoldable pub close_order : DepthLevel → ℕ → CloseResult
unfolding take_qty
close_order l qty =
    if l.order_count == 0
    then count_too_low l
    else if l.order_count == 1
    then closed (record l { order_count = 0; aggregate_qty = 0 }) true
    else take_qty (record l { order_count = sub32 l.order_count 1 }) qty
