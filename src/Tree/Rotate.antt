-- ===== src/Tree/Rotate.antt =====
-- The rotations of narb_tree.h.
use babo_matching_engine.Prelude.{ℕ, ◌==◌, if◌then◌else◌}
use babo_matching_engine.Tree.{Side, set_left, set_right, set_parent}

-- `if (child) child->parent = node;`
unfoldable pub adopt : Side → ℕ → ℕ → Side
adopt s child node = if child == 0 then s else set_parent s child node

-- `pivot` takes the place of `node` below its parent: `left_rotate` asks first for the left link,
-- `right_rotate` for the right one.
unfoldable pub hang_left_first : Side → ℕ → ℕ → Side
hang_left_first s node pivot =
    let parent = (s.levels node).parent in
    if parent == 0
    then record s { root = pivot }
    else if node == (s.levels parent).left
    then set_left s parent pivot
    else set_right s parent pivot

unfoldable pub hang_right_first : Side → ℕ → ℕ → Side
hang_right_first s node pivot =
    let parent = (s.levels node).parent in
    if parent == 0
    then record s { root = pivot }
    else if node == (s.levels parent).right
    then set_right s parent pivot
    else set_left s parent pivot

unfoldable pub left_rotate : Side → ℕ → Side
left_rotate s node =
    let pivot = (s.levels node).right in
    let s1 = set_right s node (s.levels pivot).left in
    let s2 = adopt s1 (s1.levels pivot).left node in
    let s3 = set_parent s2 pivot (s2.levels node).parent in
    let s4 = hang_left_first s3 node pivot in
    let s5 = set_left s4 pivot node in set_parent s5 node pivot

unfoldable pub right_rotate : Side → ℕ → Side
right_rotate s node =
    let pivot = (s.levels node).left in
    let s1 = set_left s node (s.levels pivot).right in
    let s2 = adopt s1 (s1.levels pivot).right node in
    let s3 = set_parent s2 pivot (s2.levels node).parent in
    let s4 = hang_right_first s3 node pivot in
    let s5 = set_right s4 pivot node in set_parent s5 node pivot
