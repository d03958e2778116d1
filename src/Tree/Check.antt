-- ===== src/Tree/Check.antt =====
-- `rb_check` and `validate_rb` of narb_tree.h.
use babo_matching_engine.Prelude.{
  ℕ, zero, suc, ◌+◌, ◌-◌, ◌^◌, Bool, true, false, ◌&&◌, ◌||◌, Option, none, some, leb, ◌==◌,
  if◌then◌else◌,
}
use babo_matching_engine.Tree.{Side, is_red, is_black, color_of, level_fuel}

-- The black height from those of the two subtrees; `none` is the answer -1.
combine : Bool → Option ℕ → Option ℕ → Option ℕ
combine node_black none r = none
combine node_black (some l) none = none
combine node_black (some l) (some r) =
    if l == r then some (l + (if node_black then 1 else 0)) else none

-- The depth is bounded by the fuel; a tree deeper than it is no tree, and is refused.
unfoldable pub rb_check : ℕ → Side → ℕ → ℕ → ℕ → Option ℕ
unfolding combine
rb_check zero s n lo hi = none
rb_check (suc fuel) s n lo hi =
    let l = s.levels n in
    let left = rb_check fuel s l.left lo l.price in
    let right = rb_check fuel s l.right l.price hi in
    if n == 0
    then some 1
    else if leb l.price lo || leb hi l.price
    then none
    else if is_red l.color && (is_red (color_of s l.left) || is_red (color_of s l.right))
    then none
    else combine (is_black l.color) left right

abbrev is_some : Option ℕ → Bool
is_some none = false
is_some (some n) = true

-- The bounds 0 and 2^64 - 1 are the least and the greatest `uint64_t`.
unfoldable pub validate_rb : Side → Bool
validate_rb s =
    if s.root == 0
    then true
    else is_black (s.levels s.root).color
      && is_some (rb_check (suc (level_fuel s)) s s.root 0 (2 ^ 64 - 1))
