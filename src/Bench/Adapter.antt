-- ===== src/Bench/Adapter.antt =====
-- benchmark/adapters/babobook_adapter.cpp: an engine of the benchmark on a `matching_book`. The
-- transport is the list of the reports that it accepted: `push_report` pushes each until it is
-- accepted. `N` is the capacity of a pin node, `size` the depth of the snapshot.
pub mod Acks
pub mod Unstopped
pub mod Orders
pub mod Limits
pub mod Answers
pub mod Replacing
pub mod Modifies
pub mod Immediate
pub mod Queries
pub mod Session
use babo_matching_engine.Prelude.{
  ℕ, zero, suc, ◌+◌, ◌-◌, ◌*◌, ◌/◌, ◌%◌, Bool, true, false, ◌&&◌, not, Option, none, some, List, [],
  ◌∷◌, ◌++◌, ltb, ◌==◌, if◌then◌else◌,
}
use babo_matching_engine.Prelude.Int.{ℤ, pos}
use babo_matching_engine.Prelude.Words.{u32_mod, to_u32}
use babo_matching_engine.Order.{
  SimpleOrder, new_order, open_qty, oc_no_conditions, oc_immediate_or_cancel,
}
use babo_matching_engine.Tree.{Side, OrderLoc, no_loc, same_loc, order_at, bid, ask}
use babo_matching_engine.Tree.Search.{find_order, get_best, global_next, orders_begin}
use babo_matching_engine.Book.{
  MatchingBook, Event, on_fill, Which, side, new_book, set_order_listener,
}
use babo_matching_engine.Book.Match.{order_fuel}
use babo_matching_engine.Book.Orders.{add, cancel}
use babo_matching_engine.Bench.{
  NewOrder, Cancel, Modify, Msg, new_msg, cancel_msg, modify_msg, Report, me_order_ack, me_trade,
  me_cancel_ack, me_modify_ack, me_cancel_reject, me_modify_reject, EngineLib, u64_mod, int64_max,
  int64_min,
}

-- The globals of the adapter, the counter of `SimpleOrder`, and what the transport accepted.
pub record Adapter : Type 0 where
  pub book : MatchingBook
  pub g_seq : ℕ
  pub g_filled : ℕ
  pub last_order_id : ℕ
  pub reports : List Report

unfoldable pub push_report : Adapter → Report → Adapter
push_report a r = record a { reports = a.reports ++ r ∷ [] }

abbrev pub ack : (type seq order_id side : ℕ) → ℤ → ℕ → Report
ack type seq order_id side price qty = record {
  type = type;
  side = side;
  sequence_number = seq;
  order_id = order_id;
  price_ticks = price;
  quantity = qty;
  maker_order_id = 0;
  taker_order_id = 0;
}

unfoldable pub emit_ack : Adapter → (type seq order_id side : ℕ) → ℤ → ℕ → Adapter
emit_ack a type seq order_id side price qty = push_report a (ack type seq order_id side price qty)

-- `Listener::on_fill`. The price is the cost by the quantity.
abbrev pub trade_report : (seq taker maker qty cost : ℕ) → Report
trade_report seq taker maker qty cost = record {
  type = me_trade;
  side = 0;
  sequence_number = seq;
  order_id = 0;
  price_ticks = pos (cost / qty);
  quantity = qty;
  maker_order_id = maker;
  taker_order_id = taker;
}

-- The other functions of the listener do nothing.
unfoldable pub hear : Adapter → Event → Adapter
hear a (on_fill taker maker qty cost) =
    let a' = push_report a (trade_report a.g_seq taker maker qty cost) in
    record a' { g_filled = (a'.g_filled + qty) % u64_mod }
hear a e = a

unfoldable pub hear_all : Adapter → List Event → Adapter
hear_all a [] = a
hear_all a (e ∷ es) = hear_all (hear a e) es

-- What the listener was told.
abbrev pub heard : MatchingBook → List Event
heard b = elim b.order_listener [ none ↦ [] | some log ↦ log ]

module _ (N : ℕ) where
  -- `g_book->add(ord)`: the book calls the listener during the call, and nothing else changes
  -- the adapter meanwhile, so the calls are heard in order after it.
  unfoldable pub book_add : Adapter → SimpleOrder → Adapter
  book_add a o =
      let b = add N (set_order_listener a.book (some [])) o in
      hear_all (record a { book = b }) (heard b)

-- `find_resting`: the order and whether it is a buy.
unfoldable pub find_resting : MatchingBook → ℕ → Option (SimpleOrder × Bool)
find_resting b id = elim (find_order (side Which.bids b) id) [
  | some at ↦ some (order_at (side Which.bids b) at, true)
  | none ↦ elim (find_order (side Which.asks b) id) [
    | some at ↦ some (order_at (side Which.asks b) at, false)
    | none ↦ none
  ]
]

unfoldable pub engine_init : ℕ → Adapter
engine_init size = record {
  book = new_book size (some []);
  g_seq = 0;
  g_filled = 0;
  last_order_id = 0;
  reports = [];
}

-- The order that the adapter builds, stamped with the id of the message.
unfoldable pub build_order : (last id side : ℕ) → ℤ → (qty conditions : ℕ) → SimpleOrder × ℕ
build_order last id side price qty conditions =
    let (o, last') = new_order last (side == 0) (to_u32 price) qty 0 conditions in
    (record o { order_id = id % u32_mod }, last')

unfoldable pub engine_on_new_order : ℕ → Adapter → NewOrder → Adapter
engine_on_new_order N a m =
    let a1 = record a { g_seq = m.sequence_number; g_filled = 0 } in
    let a2 =
      emit_ack a1 me_order_ack m.sequence_number m.order_id m.side m.price_ticks m.quantity in
    let conditions = if m.ioc == 0 then oc_no_conditions else oc_immediate_or_cancel in
    let (o, last) =
      build_order a2.last_order_id m.order_id m.side m.price_ticks m.quantity conditions in
    let a3 = book_add N (record a2 { last_order_id = last }) o in
    if not (m.ioc == 0) && ltb a3.g_filled m.quantity
    then emit_ack a3 me_cancel_ack m.sequence_number m.order_id m.side m.price_ticks
        ((m.quantity - a3.g_filled) % u32_mod)
    else a3

unfoldable pub engine_on_cancel : Adapter → Cancel → Adapter
engine_on_cancel a m = elim (find_resting a.book (m.order_id % u32_mod)) [
  | none ↦ emit_ack a me_cancel_reject m.sequence_number m.order_id 0 (pos 0) 0
  | some found ↦
      emit_ack (record a { book = cancel a.book (m.order_id % u32_mod) }) me_cancel_ack
        m.sequence_number m.order_id (if found.1 then 0 else 1) (pos found.0.price) 0
]

unfoldable pub engine_on_modify : ℕ → Adapter → Modify → Adapter
engine_on_modify N a m =
    let a1 = record a { g_seq = m.sequence_number; g_filled = 0 } in
    elim (find_resting a.book (m.order_id % u32_mod)) [
      | none ↦ emit_ack a1 me_modify_reject m.sequence_number m.order_id 0 (pos 0) 0
      | some found ↦
          let a2 = record a1 { book = cancel a1.book (m.order_id % u32_mod) } in
          let (o, last) =
            build_order a2.last_order_id m.order_id m.side m.new_price_ticks m.new_quantity
              oc_no_conditions in
          let a3 = book_add N (record a2 { last_order_id = last }) o in
          emit_ack a3 me_modify_ack m.sequence_number m.order_id m.side m.new_price_ticks
            m.new_quantity
    ]

-- `get_best` answers 0 when the side is empty.
unfoldable pub engine_query_best_bid : Adapter → ℤ
engine_query_best_bid a =
    let s = side Which.bids a.book in
    if get_best s == 0 then int64_min else pos (s.levels (get_best s)).price

unfoldable pub engine_query_best_ask : Adapter → ℤ
engine_query_best_ask a =
    let s = side Which.asks a.book in
    if get_best s == 0 then int64_max else pos (s.levels (get_best s)).price

-- The loop over the orders of one side; the total is a `uint64_t`.
unfoldable pub depth_loop : ℕ → Side → ℕ → OrderLoc → ℕ → ℕ
depth_loop zero s p it total = total
depth_loop (suc fuel) s p it total =
    let o = order_at s it in
    let total' = if o.price == p then (total + open_qty o) % u64_mod else total in
    let rest = depth_loop fuel s p (global_next s it) total' in
    if same_loc it no_loc then total else rest

unfoldable pub engine_query_depth_at : ℕ → Adapter → ℤ → ℕ → ℕ
engine_query_depth_at N a price_ticks side_of =
    let s = side (if side_of == 0 then Which.bids else Which.asks) a.book in
    depth_loop (order_fuel N a.book) s (to_u32 price_ticks) (orders_begin s) 0

unfoldable pub engine_on_msg : ℕ → Adapter → Msg → Adapter
engine_on_msg N a (new_msg m) = engine_on_new_order N a m
engine_on_msg N a (cancel_msg m) = engine_on_cancel a m
engine_on_msg N a (modify_msg m) = engine_on_modify N a m

unfoldable pub engine_on_batch : ℕ → Adapter → List Msg → Adapter
engine_on_batch N a [] = a
engine_on_batch N a (m ∷ ms) = engine_on_batch N (engine_on_msg N a m) ms

-- The functions that the adapter exports. `engine_flush` does nothing.
unfoldable pub babobook : ℕ → ℕ → EngineLib Adapter
babobook N size = record {
  init = λ seed. engine_init size;
  on_new_order = engine_on_new_order N;
  on_cancel = engine_on_cancel;
  on_modify = engine_on_modify N;
  flush = λ a. a;
  query_best_bid = λ a. (engine_query_best_bid a, a);
  query_best_ask = λ a. (engine_query_best_ask a, a);
  query_depth_at = λ a price side_of. (engine_query_depth_at N a price side_of, a);
  prebuild = none;
  on_batch = some (engine_on_batch N);
}
