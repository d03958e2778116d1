-- ===== src/Tree/Insert.antt =====
-- `insert`, `make_level` and `place_order` of narb_tree.h.
use babo_matching_engine.Prelude.{ℕ, ◌&&◌, not, some, ltb, ◌==◌, if◌then◌else◌, upd}
use babo_matching_engine.Prelude.Words.{add32}
use babo_matching_engine.Order.{SimpleOrder, open_qty}
use babo_matching_engine.Tree.{
  Side, OrderLoc, no_loc, red, level_empty, OrderType, by_type, new_level, write_level,
}
use babo_matching_engine.Tree.Rebalance.{neighbor_aware_insert}
use babo_matching_engine.Tree.Search.{find_neighbors}
use babo_matching_engine.Tree.Chain.{chain_first, chain_insert_head, chain_insert_after}

unfoldable pub make_level : Side → ℕ → ℕ × Side
make_level s price =
    let (level, s1) = new_level s in
    (
      level,
      write_level s1 level (record {
        left = 0;
        right = 0;
        parent = 0;
        pred = 0;
        succ = 0;
        color = red;
        price = price;
        quantity = 0;
        count = 0;
        head = no_loc;
        tail = no_loc;
      }),
    )

module _ (N : ℕ) (type : OrderType) where
  -- Where the order goes in the global chain.
  unfoldable pub chain_place : Side → ℕ → SimpleOrder → OrderLoc × Side
  chain_place s level order =
      let better = by_type type (s.levels level).succ (s.levels level).pred in
      if s.chain_head == 0
      then chain_first N s order level
      else if not (level_empty (s.levels level))
      then chain_insert_after N s (s.levels level).tail order level
      else if not (better == 0)
      then chain_insert_after N s (s.levels better).tail order level
      else chain_insert_head N s order level

  unfoldable pub place_order : Side → ℕ → SimpleOrder → Side
  unfolding chain_place
  place_order s level order =
      let was_empty = level_empty (s.levels level) in
      let (at, s1) = chain_place s level order in
      let l = s1.levels level in
      let s2 = write_level s1 level (record l {
        head = if was_empty then at else l.head;
        tail = at;
        quantity = add32 l.quantity (open_qty order);
        count = add32 l.count 1;
      }) in
      record s2 { order_index = upd s2.order_index order.order_id (some at) }

  -- A new level between two neighbours, with the order in it.
  unfoldable pub insert_level : Side → SimpleOrder → ℕ → ℕ → ℕ → Side
  unfolding place_order
  insert_level s order price pred succ =
      let (level, s1) = make_level s price in
      place_order (neighbor_aware_insert type s1 level pred succ) level order

  -- Branch 2 of `insert`.
  insert_general : Side → SimpleOrder → ℕ → Side
  unfolding place_order insert_level
  insert_general s order price =
      let sr = find_neighbors s price in
      if sr.existing == 0
      then insert_level s order price sr.pred sr.succ
      else place_order s sr.existing order

  -- The gap between the best level and the next one, else the general path.
  insert_behind_best : Side → SimpleOrder → ℕ → ℕ → Side
  unfolding insert_general insert_level
  insert_behind_best s order price next =
      let b = s.levels s.best in
      let n = s.levels next in
      let lo = if ltb b.price n.price then s.best else next in
      let hi = if ltb b.price n.price then next else s.best in
      if ltb (s.levels lo).price price && ltb price (s.levels hi).price
      then insert_level s order price lo hi
      else insert_general s order price

  -- Branch 1 of `insert`: the fast paths at the top of the book.
  insert_near_best : Side → SimpleOrder → ℕ → Side
  unfolding insert_behind_best
  insert_near_best s order price =
      let best = s.best in
      let b = s.levels best in
      let next = by_type type b.pred b.succ in
      if price == b.price
      then place_order s best order
      else if by_type type (ltb b.price price) (ltb price b.price)
      then insert_level s order price (by_type type best 0) (by_type type 0 best)
      else if next == 0
      then insert_level s order price (by_type type 0 best) (by_type type best 0)
      else if price == (s.levels next).price
      then place_order s next order
      else insert_behind_best s order price next

  -- `insert(order, price)`: `price` is the ordering key.
  unfoldable pub insert : Side → SimpleOrder → ℕ → Side
  unfolding insert_near_best insert_general
  insert s order price =
      if s.best == 0 then insert_general s order price else insert_near_best s order price
