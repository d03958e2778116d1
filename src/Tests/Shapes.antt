-- ===== src/Tests/Shapes.antt =====
-- The theorems on the red-black tree and on the depth snapshot at the resting book of the scenario.
use babo_matching_engine.Prelude.{
  ℕ, suc, ◌*◌, ◌^◌, ◌-◌, ◌≤◌, ◌<◌, ◌≡◌, ◌≢◌, ◌⊎◌, refl, true, false, some, [], ◌∷◌, length, arith,
}
use babo_matching_engine.Tree.{Side, black, is_red, color_of}
use babo_matching_engine.Tree.Search.{begin, next_level, find_node, find_node_from, find_node_run}
use babo_matching_engine.Tree.Check.{validate_rb, rb_check}
use babo_matching_engine.Tree.Shape.{
  Shape, leaf, node, in_order, IsRb, validate_rb-IsRb, IsRb-validate_rb,
}
use babo_matching_engine.Tree.Shape.Find.{Finds, find_node-Finds, find_node_from-log}
use babo_matching_engine.Book.{Which, type_of, side}
use babo_matching_engine.Book.Snapshot.{depth}
use babo_matching_engine.Book.Snapshot.Shows.{LevelWalk, Shows, depth-Shows}
use babo_matching_engine.Tests.Scenario.{adds, resting}

abbrev s : Side
s = side Which.asks resting

-- The levels of 10, 11 and 12.
abbrev three_levels : Shape
three_levels = node (node leaf 1 leaf) 2 (node leaf 3 leaf)

apart : {a n : ℕ} → a ≡ suc n → a ≢ 0
apart e h = absurd (omega (arith, e, h))

below : {a b m n : ℕ} → a ≡ m → b ≡ n → m < n → a < b
below e f h = omega (arith, e, f, h)

three_levels-IsRb : IsRb s s.root 0 (2 ^ 64 - 1) 2 three_levels
unfolding adds
three_levels-IsRb = (
  refl,
  apart refl,
  below {m = 0} {n = 11} refl refl (omega arith),
  below {m = 11} {n = 2 ^ 64 - 1} refl refl (omega arith),
  refl,
  (
    1,
    refl,
    (
      refl,
      apart refl,
      below {m = 0} {n = 10} refl refl (omega arith),
      below {m = 10} {n = 11} refl refl (omega arith),
      refl,
      (1, refl, (refl, refl), (refl, refl)),
    ),
    (
      refl,
      apart refl,
      below {m = 11} {n = 12} refl refl (omega arith),
      below {m = 12} {n = 2 ^ 64 - 1} refl refl (omega arith),
      refl,
      (1, refl, (refl, refl), (refl, refl)),
    ),
  ),
)

valid : validate_rb s ≡ true
unfolding adds validate_rb rb_check
valid = refl

root_black : (s.levels s.root).color ≡ black
unfolding adds
root_black = refl

root_color : is_red (color_of s s.root) ≡ false
unfolding adds color_of
root_color = refl

live_levels : s.level_pool.nb_elements ≡ 3
unfolding adds
live_levels = refl

few : length (in_order three_levels) ≤ s.level_pool.nb_elements
few = omega (arith, live_levels)

validate_rb-IsRb_example :
    (s.root ≡ 0)
    ⊎ (((s.levels s.root).color ≡ black)
        × ((h : ℕ) × (t : Shape) × IsRb s s.root 0 (2 ^ 64 - 1) h t))
validate_rb-IsRb_example = validate_rb-IsRb s valid

IsRb-validate_rb_example : validate_rb s ≡ true
IsRb-validate_rb_example = IsRb-validate_rb s 2 three_levels three_levels-IsRb root_black few

find_node-Finds_example : Finds s 12 three_levels (find_node s 12)
find_node-Finds_example = find_node-Finds s 12 0 (2 ^ 64 - 1) 2 three_levels three_levels-IsRb few

find_node_from-log_example :
    (k : ℕ) × (2 ^ k ≤ suc (length (in_order three_levels)))
    × (find_node_run (suc (2 * k)) s 12 s.root ≡ some (find_node_from (suc (2 * k)) s 12 s.root))
    × Finds s 12 three_levels (find_node_from (suc (2 * k)) s 12 s.root)
find_node_from-log_example =
    find_node_from-log s 12 s.root 0 (2 ^ 64 - 1) 2 three_levels three_levels-IsRb root_color

no_bids :
    LevelWalk (type_of Which.bids) (side Which.bids resting) (begin (side Which.bids resting)) []
unfolding adds begin
no_bids = refl

three_asks : LevelWalk (type_of Which.asks) s (begin s) (1 ∷ 2 ∷ 3 ∷ [])
unfolding adds begin next_level
three_asks = (refl, apart refl, (refl, apart refl, (refl, apart refl, refl)))

depth-Shows_example : Shows 2 resting [] (1 ∷ 2 ∷ 3 ∷ []) (depth 2 resting).depth
depth-Shows_example = depth-Shows 2 resting [] (1 ∷ 2 ∷ 3 ∷ []) no_bids three_asks
