-- ===== src/Order.antt =====
-- libs/babobook/include/book/types.h and simple_order.h: the order value, its quantities and its
-- state. Quantities, prices and ids are `uint32_t`, kept as numbers below 2^32; `reserved` and the
-- deltas are `int32_t`, kept as integers. A price level is named by its address, 0 for `nullptr`.
pub mod Quantity
pub mod Modify
use Prim.Native.Nat.{bit_and}
use babo_matching_engine.Prelude.{
  ℕ, suc, ◌+◌, ◌-◌, ◌^◌, Bool, true, false, ◌&&◌, ◌||◌, not, Option, none, some, ltb, leb, ◌==◌,
  if◌then◌else◌,
}
use babo_matching_engine.Prelude.Int.{ℤ, pos, negsuc, is_neg, abs}
use babo_matching_engine.Prelude.Words.{add32, to_u32}

-- `enum OrderCondition`: bit flags in a `uint32_t`.
abbrev pub OrderConditions : Type 0
OrderConditions = ℕ

abbrev pub oc_no_conditions : OrderConditions
oc_no_conditions = 0

abbrev pub oc_all_or_none : OrderConditions
oc_all_or_none = 1

abbrev pub oc_immediate_or_cancel : OrderConditions
oc_immediate_or_cancel = 2

abbrev pub oc_fill_or_kill : OrderConditions
oc_fill_or_kill = 3

abbrev pub oc_stop : OrderConditions
oc_stop = 4

abbrev pub market_order_price : ℕ
market_order_price = 0

abbrev pub price_unchanged : ℕ
price_unchanged = 0

abbrev pub size_unchanged : ℤ
size_unchanged = pos 0

pub data OrderState : Type 0 where
  os_new os_accepted os_complete os_cancelled os_rejected : OrderState

pub record SimpleOrder : Type 0 where
  pub state : OrderState
  pub is_buy : Bool
  pub order_qty : ℕ
  pub price : ℕ
  pub stop_price : ℕ
  pub conditions : OrderConditions
  pub filled_qty : ℕ
  pub filled_cost : ℕ
  pub reserved : ℤ
  pub order_id : ℕ
  pub level : ℕ

-- `SimpleOrder()`.
abbrev pub blank_order : SimpleOrder
blank_order = record {
  state = OrderState.os_new;
  is_buy = false;
  order_qty = 0;
  price = 0;
  stop_price = 0;
  conditions = oc_no_conditions;
  filled_qty = 0;
  filled_cost = 0;
  reserved = pos 0;
  order_id = 0;
  level = 0;
}

-- The other constructor. The static counter `last_order_id_` is an argument, and the new value is
-- returned: it is the id of the order.
unfoldable pub new_order : ℕ → Bool → ℕ → ℕ → ℕ → OrderConditions → SimpleOrder × ℕ
new_order last_order_id is_buy price qty stop_price conditions = (
  record {
    state = OrderState.os_new;
    is_buy = is_buy;
    order_qty = qty;
    price = price;
    stop_price = stop_price;
    conditions = conditions;
    filled_qty = 0;
    filled_cost = 0;
    reserved = pos 0;
    order_id = add32 last_order_id 1;
    level = 0;
  },
  add32 last_order_id 1,
)

-- `reset_id_generator`: the new value of the counter.
abbrev pub reset_id_generator : ℕ
reset_id_generator = 0

unfoldable pub is_limit : SimpleOrder → Bool
is_limit o = ltb 0 o.price

-- `reserved > 0` and `reserved <= 0` of the source.
abbrev positive : ℤ → Bool
positive r = not (is_neg r) && ltb 0 (abs r)

unfoldable pub open_qty : SimpleOrder → ℕ
open_qty o =
    if leb o.order_qty o.filled_qty
    then 0
    else (let remaining = o.order_qty - o.filled_qty in
        if positive o.reserved && ltb (to_u32 o.reserved) remaining
        then remaining - to_u32 o.reserved
        else if positive o.reserved
        then 0
        else remaining)

-- The sum of two integers; the source's `int32_t` sum while it does not overflow.
unfoldable pub add_int : ℤ → ℤ → ℤ
add_int (pos a) (pos b) = pos (a + b)
add_int (pos a) (negsuc b) = if ltb b a then pos (a - suc b) else negsuc (b - a)
add_int (negsuc a) (pos b) = if ltb a b then pos (b - suc a) else negsuc (a - b)
add_int (negsuc a) (negsuc b) = negsuc (suc (a + b))

-- The order after the call, and the open quantity that the call returns.
unfoldable pub reserve : SimpleOrder → ℤ → SimpleOrder × ℕ
reserve o r = let o' = record o { reserved = add_int o.reserved r } in (o', open_qty o')

unfoldable pub filled : SimpleOrder → Bool
filled o = leb o.order_qty o.filled_qty

-- `order_qty_ += delta` on a `uint32_t`.
abbrev pub change_order_qty : SimpleOrder → ℤ → SimpleOrder
change_order_qty o delta = record o { order_qty = add32 o.order_qty (to_u32 delta) }

-- `static_cast<int32_t>(q) < n` for a positive `n`: a pattern from 2^31 on stands for a negative.
abbrev int32_lt : ℕ → ℕ → Bool
int32_lt q n = leb (2 ^ 31) q || ltb q n

-- `none` is the exception "Replace size reduction larger than open quantity". At -2^31 the source's
-- `-delta` overflows, which C++ leaves undefined; the model takes it as the wrap-around to -2^31,
-- which no open quantity is below. No other `int32_t` has an absolute value of 2^31 or more.
unfoldable pub change_qty : SimpleOrder → ℤ → Option SimpleOrder
change_qty o delta =
    if is_neg delta && ltb (abs delta) (2 ^ 31) && int32_lt (open_qty o) (abs delta)
    then none
    else some (change_order_qty o delta)

abbrev complete_if : Bool → SimpleOrder → SimpleOrder
complete_if done o = if done then record o { state = OrderState.os_complete } else o

unfoldable pub fill : SimpleOrder → ℕ → ℕ → SimpleOrder
fill o fill_qty fill_cost =
    let o' = record o {
      filled_qty = add32 o.filled_qty fill_qty;
      filled_cost = add32 o.filled_cost fill_cost;
    } in
    complete_if (open_qty o' == 0) o'

unfoldable pub all_or_none : SimpleOrder → Bool
all_or_none o = not (bit_and o.conditions oc_all_or_none == 0)

unfoldable pub immediate_or_cancel : SimpleOrder → Bool
immediate_or_cancel o = not (bit_and o.conditions oc_immediate_or_cancel == 0)

accept_state : OrderState → OrderState
accept_state OrderState.os_new = OrderState.os_accepted
accept_state s = s

unfoldable pub accept : SimpleOrder → SimpleOrder
unfolding accept_state
accept o = record o { state = accept_state o.state }

cancel_state : OrderState → OrderState
cancel_state OrderState.os_complete = OrderState.os_complete
cancel_state s = OrderState.os_cancelled

unfoldable pub cancel : SimpleOrder → SimpleOrder
unfolding cancel_state
cancel o = record o { state = cancel_state o.state }

abbrev is_accepted : OrderState → Bool
is_accepted OrderState.os_accepted = true
is_accepted s = false

-- The delta of `replace` is a `uint32_t`.
unfoldable pub replace : SimpleOrder → ℕ → ℕ → SimpleOrder
replace o size_delta new_price =
    if is_accepted o.state
    then record o { order_qty = add32 o.order_qty size_delta; price = new_price }
    else o

-- The new price is a `uint64_t`, cut to 32 bits.
unfoldable pub modify : SimpleOrder → ℤ → ℕ → SimpleOrder
modify o size_delta new_price =
    let o' = change_order_qty o size_delta in
    if new_price == 0 then o' else record o' { price = to_u32 (pos new_price) }
