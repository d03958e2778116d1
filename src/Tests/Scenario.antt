-- ===== src/Tests/Scenario.antt =====
-- A small book with resting sell orders, built by the calls of matching_book.h.
use babo_matching_engine.Prelude.{ℕ, Bool, false, none, some, List, [], ◌∷◌, upd}
use babo_matching_engine.Prelude.Int.{pos}
use babo_matching_engine.Prelude.Words.{add32, sub32, mul32, to_u32}
use babo_matching_engine.Order
use babo_matching_engine.Order.{
  SimpleOrder, OrderConditions, new_order, open_qty, oc_no_conditions, oc_all_or_none,
}
use babo_matching_engine.Pool
use babo_matching_engine.Pin
use babo_matching_engine.Tree
use babo_matching_engine.Tree.{OrderLoc, loc}
use babo_matching_engine.Tree.Rotate
use babo_matching_engine.Tree.Rebalance
use babo_matching_engine.Tree.Search
use babo_matching_engine.Tree.Chain
use babo_matching_engine.Tree.Insert
use babo_matching_engine.Tree.Delete
use babo_matching_engine.Tree.Erase
use babo_matching_engine.Book
use babo_matching_engine.Book.{MatchingBook, Event, new_book, emit}
use babo_matching_engine.Book.Match
use babo_matching_engine.Book.Orders
use babo_matching_engine.Book.Orders.{add}

-- An order with the id, as the generator gives it after `id - 1` others.
abbrev pub order : ℕ → Bool → ℕ → ℕ → OrderConditions → SimpleOrder
order id is_buy price qty conditions = record {
  state = Order.OrderState.os_new;
  is_buy = is_buy;
  order_qty = qty;
  price = price;
  stop_price = 0;
  conditions = conditions;
  filled_qty = 0;
  filled_cost = 0;
  reserved = pos 0;
  order_id = id;
  level = 0;
}

abbrev pub log : MatchingBook → List Event
log b = elim b.order_listener [ none ↦ [] | some es ↦ es ]

unfoldable pub adds : ℕ → MatchingBook → List SimpleOrder → MatchingBook
unfolding upd add32 sub32 mul32 to_u32 Order.open_qty Order.fill Order.all_or_none
    Order.immediate_or_cancel Order.modify Pool.reserve Pool.bump Pool.allocate Pool.release
    Pin.pin_node Pin.empty Pin.full Pin.alloc Pin.free_slot Pin.link_back Pin.splice_after
    Pin.append Pin.prepend Pin.insert_after Pin.unlink Pin.erase Pin.link_front Tree.level_empty
    Tree.new_level Tree.release_level Tree.new_pin Tree.release_pin Tree.set_left Tree.set_right
    Tree.set_parent Tree.set_pred Tree.set_succ Tree.set_color Tree.color_of Tree.write_order
    Tree.Rotate.adopt Tree.Rotate.hang_left_first Tree.Rotate.hang_right_first
    Tree.Rotate.left_rotate Tree.Rotate.right_rotate Tree.Rebalance.rebalance_step
    Tree.Rebalance.insert_rebalance Tree.Rebalance.neighbor_aware_insert
    Tree.Search.find_neighbors_from Tree.Search.find_neighbors Tree.Search.find_order
    Tree.Search.global_next Tree.Search.orders_begin Tree.Chain.set_next_node
    Tree.Chain.set_prev_node Tree.Chain.append_at Tree.Chain.prepend_at Tree.Chain.insert_after_at
    Tree.Chain.relocate_tail_to_head Tree.Chain.extend_after Tree.Chain.make_room
    Tree.Chain.chain_first Tree.Chain.chain_insert_head Tree.Chain.chain_insert_after
    Tree.Insert.make_level Tree.Insert.chain_place Tree.Insert.place_order Tree.Insert.insert_level
    Tree.Insert.insert Tree.Delete.tree_minimum Tree.Delete.transplant Tree.Delete.fix_left_sibling
    Tree.Delete.fix_right_sibling Tree.Delete.fixup_step Tree.Delete.fixup_loop
    Tree.Delete.rb_delete_fixup Tree.Delete.splice_successor Tree.Delete.take_out
    Tree.Delete.rb_delete_node Tree.Erase.erase_level Tree.Erase.drop_pin Tree.Erase.leave_level
    Tree.Erase.erase_at Tree.Erase.erase Book.side Book.put_side Book.new_book Book.emit
    Book.Match.erase_in Book.Match.insert_in Book.Match.crosses Book.Match.reduce_level
    Book.Match.execute_trade Book.Match.trade_and_erase Book.Match.regular_step
    Book.Match.regular_loop Book.Match.plan_take Book.Match.plan_uses Book.Match.plan_loop
    Book.Match.commit_one Book.Match.commit Book.Match.match_regular_incoming
    Book.Match.match_aon_incoming Book.Match.match_against Book.Match.submit Book.Orders.is_stopped
    Book.Orders.not_reached Book.Orders.fire Book.Orders.fire_all Book.Orders.submit_all
    Book.Orders.process_triggered Book.Orders.park_stop Book.Orders.add
adds N b [] = b
adds N b (o ∷ os) = adds N (add N b o) os

abbrev pub start : MatchingBook
start = new_book 2 (some [])

-- Sell 5 at 10, 5 at 11, 4 at 10 and 3 at 12, in this order of time; a pin node holds 2.
abbrev pub resting : MatchingBook
resting = adds 2 start (
    order 1 false 10 5 oc_no_conditions
    ∷ order 2 false 11 5 oc_no_conditions
    ∷ order 3 false 10 4 oc_no_conditions
    ∷ order 4 false 12 3 oc_no_conditions
    ∷ [])
