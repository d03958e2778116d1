-- ===== src/Tree/Rebalance.antt =====
-- `insert_rebalance` and `neighbor_aware_insert` of narb_tree.h.
pub mod Grow
use babo_matching_engine.Prelude.{ℕ, zero, suc, Bool, ◌&&◌, not, ◌==◌, if◌then◌else◌}
use babo_matching_engine.Tree.{
  Side, red, black, is_red, OrderType, by_type, set_left, set_right, set_parent, set_pred, set_succ,
  set_color, level_fuel,
}
use babo_matching_engine.Tree.Rotate.{left_rotate, right_rotate}

-- The uncle is red: push the colour up and go on at the grandparent.
recolor : Side → ℕ → ℕ → Side × ℕ
recolor s x y =
    let s1 = set_color s (s.levels x).parent black in
    let s2 = set_color s1 y black in
    let g = (s2.levels (s2.levels x).parent).parent in (set_color s2 g red, g)

-- The uncle is black: `parent` is a left child.
rotate_left_case : Side → ℕ → Side × ℕ
rotate_left_case s x =
    let parent = (s.levels x).parent in
    let inner = x == (s.levels parent).right in
    let s1 = if inner then left_rotate s parent else s in
    let x1 = if inner then parent else x in
    let s2 = set_color s1 (s1.levels x1).parent black in
    let g = (s2.levels (s2.levels x1).parent).parent in
    let s3 = set_color s2 g red in (right_rotate s3 (s3.levels (s3.levels x1).parent).parent, x1)

rotate_right_case : Side → ℕ → Side × ℕ
rotate_right_case s x =
    let parent = (s.levels x).parent in
    let inner = x == (s.levels parent).left in
    let s1 = if inner then right_rotate s parent else s in
    let x1 = if inner then parent else x in
    let s2 = set_color s1 (s1.levels x1).parent black in
    let g = (s2.levels (s2.levels x1).parent).parent in
    let s3 = set_color s2 g red in (left_rotate s3 (s3.levels (s3.levels x1).parent).parent, x1)

red_uncle : Side → ℕ → Bool
red_uncle s y = not (y == 0) && is_red (s.levels y).color

-- One round of the loop: the new state and the new `x`.
unfoldable pub rebalance_step : Side → ℕ → Side × ℕ
unfolding recolor rotate_left_case rotate_right_case red_uncle
rebalance_step s x =
    let parent = (s.levels x).parent in
    let g = (s.levels parent).parent in
    if parent == (s.levels g).left
    then (let y = (s.levels g).right in
        if red_uncle s y then recolor s x y else rotate_left_case s x)
    else (let y = (s.levels g).left in
        if red_uncle s y then recolor s x y else rotate_right_case s x)

rebalance_loop : ℕ → Side → ℕ → Side
rebalance_loop zero s x = s
rebalance_loop (suc fuel) s x =
    let rest = rebalance_loop fuel (rebalance_step s x).0 (rebalance_step s x).1 in
    if not (x == s.root) && is_red (s.levels (s.levels x).parent).color then rest else s

-- Each round that goes on climbs two levels.
unfoldable pub insert_rebalance : Side → ℕ → Side
unfolding rebalance_step rebalance_loop
insert_rebalance s x =
    let s1 = set_color s x red in
    let s2 = rebalance_loop (level_fuel s) s1 x in set_color s2 s2.root black

-- The new leaf below `pred` if its right link is free, else below `succ`.
attach : Side → ℕ → ℕ → ℕ → Side
attach s new_node pred succ =
    if s.root == 0
    then record s { root = new_node; best = new_node }
    else if not (pred == 0) && (s.levels pred).right == 0
    then set_parent (set_right s pred new_node) new_node pred
    else set_parent (set_left s succ new_node) new_node succ

-- The pred/succ threads through the new level.
thread : Side → ℕ → ℕ → ℕ → Side
thread s new_node pred succ =
    let s1 = set_pred s new_node pred in
    let s2 = set_succ s1 new_node succ in
    let s3 = if pred == 0 then s2 else set_succ s2 pred new_node in
    if succ == 0 then s3 else set_pred s3 succ new_node

unfoldable pub neighbor_aware_insert : OrderType → Side → ℕ → ℕ → ℕ → Side
unfolding attach thread
neighbor_aware_insert type s new_node pred succ =
    let s1 = thread (attach s new_node pred succ) new_node pred succ in
    let s2 = if by_type type succ pred == 0 then record s1 { best = new_node } else s1 in
    insert_rebalance s2 new_node
