-- ===== src/Tree/Erase.antt =====
-- `erase`, `erase_level` and `clear` of narb_tree.h.
use babo_matching_engine.Prelude.{ℕ, zero, suc, ◌&&◌, none, some, ◌==◌, if◌then◌else◌, upd}
use babo_matching_engine.Prelude.Words.{sub32}
use babo_matching_engine.Order.{open_qty}
use babo_matching_engine.Pin
use babo_matching_engine.Tree.{
  Side, OrderLoc, no_loc, same_loc, PriceLevel, OrderType, by_type, order_at, release_level,
  release_pin, set_pred, set_succ, write_level, write_pin,
}
use babo_matching_engine.Tree.Search.{global_next, global_prev, next_level}
use babo_matching_engine.Tree.Chain.{set_next_node, set_prev_node}
use babo_matching_engine.Tree.Delete.{rb_delete_node}

unfoldable pub erase_level : OrderType → Side → ℕ → Side
erase_level type s z =
    let p = (s.levels z).pred in
    let n = (s.levels z).succ in
    let s1 = if z == s.best then record s { best = by_type type p n } else s in
    let s2 = if p == 0 then s1 else set_succ s1 p n in
    let s3 = if n == 0 then s2 else set_pred s2 n p in release_level (rb_delete_node s3 z) z

-- An emptied node leaves the chain and goes back to its pool.
unfoldable pub drop_pin : Side → ℕ → Side
drop_pin s node =
    let prev = (s.pins node).prev_node in
    let next = (s.pins node).next_node in
    let s1 = if prev == 0 then record s { chain_head = next } else set_next_node s prev next in
    let s2 = if next == 0 then record s1 { chain_tail = prev } else set_prev_node s1 next prev in
    release_pin s2 node

-- The level without the order at `at`: its totals, and its ends, read before the slot is unlinked.
unfoldable pub leave_level : Side → PriceLevel → OrderLoc → PriceLevel
leave_level s level at =
    let was_head = same_loc level.head at in
    let was_tail = same_loc level.tail at in
    let alone = was_head && was_tail in
    record level {
      quantity = sub32 level.quantity (open_qty (order_at s at));
      count = sub32 level.count 1;
      head = if alone then no_loc else if was_head then global_next s at else level.head;
      tail = if alone then no_loc else if was_tail then global_prev s at else level.tail;
    }

unfoldable pub erase_at : OrderType → Side → ℕ → OrderLoc → Side
unfolding leave_level
erase_at type s order_id at =
    let node = at.pin_loc in
    let level = (order_at s at).level in
    let old = s.levels level in
    let level_empty = same_loc old.head at && same_loc old.tail at in
    let s1 = record s { order_index = upd s.order_index order_id none } in
    let s2 = write_level s1 level (leave_level s1 old at) in
    let s3 = write_pin s2 node (Pin.erase (s2.pins node) at.index) in
    let s4 = if Pin.empty (s3.pins node) then drop_pin s3 node else s3 in
    if level_empty then erase_level type s4 level else s4

unfoldable pub erase : OrderType → Side → ℕ → Side
unfolding erase_at
erase type s order_id = elim (s.order_index order_id) [
  | none ↦ s
  | some at ↦ erase_at type s order_id at
]

-- The loops of `clear`, over the pin chain and over the levels from the best on. A released cell
-- is read no more: its successor is taken before.
release_pins : ℕ → Side → ℕ → Side
release_pins zero s node = s
release_pins (suc fuel) s node =
    let rest = release_pins fuel (release_pin s node) (s.pins node).next_node in
    if node == 0 then s else rest

release_levels : ℕ → OrderType → Side → ℕ → Side
release_levels zero type s level = s
release_levels (suc fuel) type s level =
    let rest = release_levels fuel type (release_level s level) (next_level type s level) in
    if level == 0 then s else rest

-- Every live cell is released at most once.
unfoldable pub clear : OrderType → Side → Side
unfolding release_pins release_levels
clear type s =
    let s1 = release_pins (suc s.pin_pool.nb_elements) s s.chain_head in
    let s2 = release_levels (suc s1.level_pool.nb_elements) type s1 s1.best in
    record s2 { order_index = λ _. none; best = 0; root = 0; chain_head = 0; chain_tail = 0 }
