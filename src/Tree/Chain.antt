-- ===== src/Tree/Chain.antt =====
-- The global pin chain of narb_tree.h: where a placed order goes, and the cascade that makes room
-- for it. `N` is the capacity of a pin node, `BABO_PIN_CAPACITY`.
use babo_matching_engine.Prelude.{
  ℕ, zero, suc, ◌&&◌, not, some, List, [], ◌∷◌, ◌==◌, if◌then◌else◌, upd,
}
use babo_matching_engine.Order.{SimpleOrder}
use babo_matching_engine.Pin.{full, append, prepend, insert_after, erase}
use babo_matching_engine.Tree.{
  Side, OrderLoc, loc, same_loc, new_pin, write_pin, write_level, order_at,
}

-- The order that goes into the slot knows its level: `node->at(s)._level = lvl`. An order is moved
-- into the slot and the pointer is written there at once.
abbrev pub at_level : SimpleOrder → ℕ → SimpleOrder
at_level order lvl = record order { level = lvl }

unfoldable pub set_next_node : Side → ℕ → ℕ → Side
set_next_node s p v = write_pin s p (record (s.pins p) { next_node = v })

unfoldable pub set_prev_node : Side → ℕ → ℕ → Side
set_prev_node s p v = write_pin s p (record (s.pins p) { prev_node = v })

-- The three insertions into the node at `p`.
unfoldable pub append_at : Side → ℕ → SimpleOrder → ℕ → OrderLoc × Side
append_at s p order lvl =
    let (slot, node) = append (s.pins p) (at_level order lvl) in (loc p slot, write_pin s p node)

unfoldable pub prepend_at : Side → ℕ → SimpleOrder → ℕ → OrderLoc × Side
prepend_at s p order lvl =
    let (slot, node) = prepend (s.pins p) (at_level order lvl) in (loc p slot, write_pin s p node)

unfoldable pub insert_after_at : Side → ℕ → ℕ → SimpleOrder → ℕ → OrderLoc × Side
insert_after_at s p reference order lvl =
    let (slot, node) = insert_after (s.pins p) reference (at_level order lvl) in
    (loc p slot, write_pin s p node)

-- One hop of the cascade: the tail of `src` becomes the head of `dst`.
unfoldable pub relocate_tail_to_head : Side → ℕ → ℕ → Side
relocate_tail_to_head s src dst =
    let s_old = (s.pins src).tail in
    let old_loc = loc src s_old in
    let moved = order_at s old_loc in
    let level = moved.level in
    let s1 = write_pin s src (erase (s.pins src) s_old) in
    let (s_new, node) = prepend (s1.pins dst) moved in
    let new_loc = loc dst s_new in
    let s2 = write_pin s1 dst node in
    let s3 = record s2 {
      order_index = upd s2.order_index (order_at s2 new_loc).order_id (some new_loc);
    } in
    let s4 =
      if same_loc (s3.levels level).tail old_loc
      then write_level s3 level (record (s3.levels level) { tail = new_loc })
      else s3 in
    if same_loc (s4.levels level).head old_loc
    then write_level s4 level (record (s4.levels level) { head = new_loc })
    else s4

abbrev pub max_cascade_hops : ℕ
max_cascade_hops = 16

module _ (N : ℕ) where
  -- The nodes from `n` on that the walk visits, the last one first; `path` holds those before.
  unfoldable pub walk_full : ℕ → Side → ℕ → List ℕ → List ℕ
  walk_full zero s n path = n ∷ path
  walk_full (suc hops) s n path =
      let next = (s.pins n).next_node in
      let rest = walk_full hops s next (n ∷ path) in
      if full N (s.pins n) && not (next == 0) then rest else n ∷ path

  -- A fresh node behind `n`.
  unfoldable pub extend_after : Side → ℕ → ℕ × Side
  extend_after s n =
      let (m, s1) = new_pin N s in
      let after = (s1.pins n).next_node in
      let s2 = set_next_node (set_next_node (set_prev_node s1 m n) m after) n m in
      (m, if after == 0 then record s2 { chain_tail = m } else set_prev_node s2 after m)

  -- The moves from the far end inward, over the visited nodes with the last one first.
  unfoldable pub ripple : Side → List ℕ → Side
  ripple s [] = s
  ripple s (dst ∷ []) = s
  ripple s (dst ∷ src ∷ path) = ripple (relocate_tail_to_head s src dst) (src ∷ path)

  unfoldable pub room_from : Side → List ℕ → Side
  unfolding ripple
  room_from s [] = s
  room_from s (n ∷ path) =
      if full N (s.pins n)
      then (let (m, s1) = extend_after s n in ripple s1 (m ∷ n ∷ path))
      else ripple s (n ∷ path)

  unfoldable pub make_room : Side → ℕ → Side
  unfolding walk_full room_from
  make_room s x = room_from s (walk_full max_cascade_hops s x [])

  unfoldable pub chain_first : Side → SimpleOrder → ℕ → OrderLoc × Side
  chain_first s ord lvl =
      let (node, s1) = new_pin N s in
      append_at (record s1 { chain_head = node; chain_tail = node }) node ord lvl

  unfoldable pub chain_insert_head : Side → SimpleOrder → ℕ → OrderLoc × Side
  chain_insert_head s ord lvl =
      let h = s.chain_head in
      if not (full N (s.pins h))
      then prepend_at s h ord lvl
      else (let (node, s1) = new_pin N s in
          let s2 = set_prev_node (set_next_node s1 node h) h node in
          append_at (record s2 { chain_head = node }) node ord lvl)

  -- The anchor is the tail of a full node `x`.
  unfoldable pub insert_at_boundary : Side → ℕ → SimpleOrder → ℕ → OrderLoc × Side
  insert_at_boundary s x ord lvl =
      let next = (s.pins x).next_node in
      if next == 0
      then (let (node, s1) = new_pin N s in
          let s2 = set_next_node (set_prev_node s1 node x) x node in
          append_at (record s2 { chain_tail = node }) node ord lvl)
      else prepend_at (if full N (s.pins next) then make_room s next else s) next ord lvl

  unfoldable pub chain_insert_after : Side → OrderLoc → SimpleOrder → ℕ → OrderLoc × Side
  unfolding insert_at_boundary
  chain_insert_after s anchor ord lvl =
      let x = anchor.pin_loc in
      if not (full N (s.pins x))
      then insert_after_at s x anchor.index ord lvl
      else if anchor.index == (s.pins x).tail
      then insert_at_boundary s x ord lvl
      else insert_after_at (make_room s x) x anchor.index ord lvl
