-- ===== src/Tree/Delete.antt =====
-- The red-black deletion of narb_tree.h.
use babo_matching_engine.Prelude.{ℕ, zero, suc, ◌&&◌, not, ◌==◌, if◌then◌else◌}
use babo_matching_engine.Tree.{
  Side, red, black, is_red, is_black, color_of, set_left, set_right, set_parent, set_color,
  level_fuel,
}
use babo_matching_engine.Tree.Rotate.{left_rotate, right_rotate}

tree_minimum_from : ℕ → Side → ℕ → ℕ
tree_minimum_from zero s n = n
tree_minimum_from (suc fuel) s n =
    let rest = tree_minimum_from fuel s (s.levels n).left in
    if (s.levels n).left == 0 then n else rest

unfoldable pub tree_minimum : Side → ℕ → ℕ
unfolding tree_minimum_from
tree_minimum s n = tree_minimum_from (level_fuel s) s n

unfoldable pub transplant : Side → ℕ → ℕ → Side
transplant s u v =
    let parent = (s.levels u).parent in
    let s1 =
      if parent == 0
      then record s { root = v }
      else if u == (s.levels parent).left
      then set_left s parent v
      else set_right s parent v in
    if v == 0 then s1 else set_parent s1 v (s1.levels u).parent

-- The loop's variables `x` and `x_parent`, with the state.
pub record Fixup : Type 0 where
  pub state : Side
  pub x : ℕ
  pub x_parent : ℕ

abbrev pub fixup : Side → ℕ → ℕ → Fixup
fixup s x x_parent = record { state = s; x = x; x_parent = x_parent }

-- `if (child) child->_color = color::BLACK;`
abbrev pub blacken : Side → ℕ → Side
blacken s child = if child == 0 then s else set_color s child black

-- `x` is the left child; `w` is its sibling after the red case.
unfoldable pub fix_left_sibling : Side → ℕ → ℕ → Fixup
fix_left_sibling s x_parent w =
    let l = s.levels w in
    if is_black (color_of s l.left) && is_black (color_of s l.right)
    then (let s1 = set_color s w red in fixup s1 x_parent (s1.levels x_parent).parent)
    else (let outer_black = is_black (color_of s l.right) in
        let s1 = if outer_black then right_rotate (set_color (blacken s l.left) w red) w else s in
        let w1 = if outer_black then (s1.levels x_parent).right else w in
        let s2 = set_color s1 w1 (s1.levels x_parent).color in
        let s3 = set_color s2 x_parent black in
        let s4 = blacken s3 (s3.levels w1).right in
        let s5 = left_rotate s4 x_parent in fixup s5 s5.root 0)

unfoldable pub fix_right_sibling : Side → ℕ → ℕ → Fixup
fix_right_sibling s x_parent w =
    let l = s.levels w in
    if is_black (color_of s l.right) && is_black (color_of s l.left)
    then (let s1 = set_color s w red in fixup s1 x_parent (s1.levels x_parent).parent)
    else (let outer_black = is_black (color_of s l.left) in
        let s1 = if outer_black then left_rotate (set_color (blacken s l.right) w red) w else s in
        let w1 = if outer_black then (s1.levels x_parent).left else w in
        let s2 = set_color s1 w1 (s1.levels x_parent).color in
        let s3 = set_color s2 x_parent black in
        let s4 = blacken s3 (s3.levels w1).left in
        let s5 = right_rotate s4 x_parent in fixup s5 s5.root 0)

-- One round of the loop.
unfoldable pub fixup_step : Fixup → Fixup
fixup_step f =
    let s = f.state in
    let p = f.x_parent in
    if f.x == (s.levels p).left
    then (let w = (s.levels p).right in
        let sibling_red = is_red (color_of s w) in
        let s1 = if sibling_red then left_rotate (set_color (set_color s w black) p red) p else s in
        fix_left_sibling s1 p (if sibling_red then (s1.levels p).right else w))
    else (let w = (s.levels p).left in
        let sibling_red = is_red (color_of s w) in
        let s1 =
          if sibling_red then right_rotate (set_color (set_color s w black) p red) p else s in
        fix_right_sibling s1 p (if sibling_red then (s1.levels p).left else w))

unfoldable pub fixup_loop : ℕ → Fixup → Fixup
fixup_loop zero f = f
fixup_loop (suc fuel) f =
    let rest = fixup_loop fuel (fixup_step f) in
    if not (f.x == f.state.root) && is_black (color_of f.state f.x) then rest else f

-- Every round climbs one level or ends at the root.
unfoldable pub rb_delete_fixup : Side → ℕ → ℕ → Side
rb_delete_fixup s x x_parent =
    let f = fixup_loop (suc (level_fuel s)) (fixup s x x_parent) in blacken f.state f.x

-- The case of two children: `y`, the successor of `z`, takes its place. The state with `x` and
-- its parent.
unfoldable pub splice_successor : Side → ℕ → ℕ → Fixup
splice_successor s z y =
    let x = (s.levels y).right in
    let near = (s.levels y).parent == z in
    let x_parent = if near then y else (s.levels y).parent in
    let s1 =
      if near
      then s
      else (let t1 = transplant s y (s.levels y).right in
          let t2 = set_right t1 y (t1.levels z).right in set_parent t2 (t2.levels y).right y) in
    let s2 = transplant s1 z y in
    let s3 = set_left s2 y (s2.levels z).left in
    let s4 = set_parent s3 (s3.levels y).left y in
    fixup (set_color s4 y (s4.levels z).color) x x_parent

-- The structural part: `z` is replaced by a child or by `y`, the minimum of its right subtree.
unfoldable pub take_out : Side → ℕ → ℕ → Fixup
take_out s z y =
    let l = s.levels z in
    if l.left == 0
    then fixup (transplant s z l.right) l.right l.parent
    else if l.right == 0
    then fixup (transplant s z l.left) l.left l.parent
    else splice_successor s z y

unfoldable pub rb_delete_node : Side → ℕ → Side
rb_delete_node s z =
    let l = s.levels z in
    let y = tree_minimum s l.right in
    let y_original =
      if l.left == 0 then l.color else if l.right == 0 then l.color else (s.levels y).color in
    let f = take_out s z y in
    if is_black y_original then rb_delete_fixup f.state f.x f.x_parent else f.state
