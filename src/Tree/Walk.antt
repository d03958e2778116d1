-- ===== src/Tree/Walk.antt =====
-- The walk of the order iterator over a tree, and reads after a write to a slot.
use babo_matching_engine.Prelude.{
  ℕ, ◌≡◌, ◌≢◌, true, false, some, List, [], ◌∷◌, if◌then◌else◌, arith, upd, upd_lem,
}
use babo_matching_engine.Order.{SimpleOrder}
use babo_matching_engine.Tree.{Side, OrderLoc, no_loc, same_loc, order_at, write_order}
use babo_matching_engine.Tree.Search.{global_next, find_order}

-- From `it` the iterator visits exactly the locations `xs`, and ends.
abbrev pub Walk : Side → OrderLoc → List OrderLoc → Type 0
Walk s it [] = same_loc it no_loc ≡ true
Walk s it (x ∷ xs) = (it ≡ x) × (same_loc x no_loc ≡ false) × Walk s (global_next s x) xs

-- No order of the list has the id.
abbrev pub AllOther : Side → ℕ → List OrderLoc → Type 0
AllOther s id [] = Unit {0}
AllOther s id (x ∷ xs) = ((order_at s x).order_id ≢ id) × AllOther s id xs

-- The ids of the orders at the locations are distinct.
abbrev pub DistinctIds : Side → List OrderLoc → Type 0
DistinctIds s [] = Unit {0}
DistinctIds s (x ∷ xs) = AllOther s (order_at s x).order_id xs × DistinctIds s xs

-- The index leads to each of the locations by the id of its order.
abbrev pub Indexed : Side → List OrderLoc → Type 0
Indexed s [] = Unit {0}
Indexed s (x ∷ xs) = (find_order s (order_at s x).order_id ≡ some x) × Indexed s xs

-- A write to one slot is read there, and nowhere else.
pub order_at-write_order :
    (s : Side) (x : OrderLoc) (o : SimpleOrder) (y : OrderLoc)
    → order_at (write_order s x o) y ≡ (if same_loc y x then o else order_at s y)
unfolding write_order
order_at-write_order s x o y =
    let n = s.pins x.pin_loc in
    ground (
      arith,
      upd_lem s.pins x.pin_loc (record n { slots = upd n.slots x.index o }) y.pin_loc,
      upd_lem n.slots x.index o y.index,
    )

-- Orders with different ids rest at different locations.
pub apart_of_ids :
    (s : Side) (x y : OrderLoc)
    → (order_at s y).order_id ≢ (order_at s x).order_id
    → same_loc y x ≡ false
apart_of_ids s x y h = ground arith
