-- ===== src/Tree/Rebalance/Grow.antt =====
-- What linking a new level into the red-black tree leaves alone.
use babo_matching_engine.Prelude.{not, ◌&&◌, ◌==◌, ℕ, zero, suc, Bool, true, false, if◌then◌else◌}
use babo_matching_engine.Tree.{Side, OrderType, by_type, red, black, level_fuel}
use babo_matching_engine.Tree.Rebalance.{
  recolor, rotate_left_case, rotate_right_case, rebalance_step, rebalance_loop, insert_rebalance,
  neighbor_aware_insert,
}
use babo_matching_engine.Tree.Frame.{
  Keeps, Keeps-refl, Keeps-if, best-Keeps, set_left-Keeps, set_right-Keeps, set_parent-Keeps,
  set_pred-Keeps, set_succ-Keeps, set_color-Keeps, left_rotate-Keeps, right_rotate-Keeps,
}

best-root-Keeps : {s t : Side} → Keeps s t → (r b : ℕ) → Keeps s (record t { root = r; best = b })
best-root-Keeps k r b = record {
  pins = k.pins;
  pin_pool = k.pin_pool;
  order_index = k.order_index;
  chain_head = k.chain_head;
  chain_tail = k.chain_tail;
}

Keeps-if_pair :
    {s : Side} (b : Bool) (f g : Side × ℕ)
    → Keeps s f.0
    → Keeps s g.0
    → Keeps s (if b then f else g).0
Keeps-if_pair true f g k l = k
Keeps-if_pair false f g k l = l

module _ {s t : Side} (k : Keeps s t) where
  recolor-Keeps : (x y : ℕ) → Keeps s (recolor t x y).0
  unfolding recolor
  recolor-Keeps x y = set_color-Keeps (set_color-Keeps (set_color-Keeps k _ _) _ _) _ _

  rotate_left_case-Keeps : (x : ℕ) → Keeps s (rotate_left_case t x).0
  unfolding rotate_left_case
  rotate_left_case-Keeps x =
      right_rotate-Keeps
        (set_color-Keeps (set_color-Keeps (Keeps-if _ (left_rotate-Keeps k _) k) _ _) _ _) _

  rotate_right_case-Keeps : (x : ℕ) → Keeps s (rotate_right_case t x).0
  unfolding rotate_right_case
  rotate_right_case-Keeps x =
      left_rotate-Keeps
        (set_color-Keeps (set_color-Keeps (Keeps-if _ (right_rotate-Keeps k _) k) _ _) _ _) _

rebalance_step-Keeps : {s t : Side} → Keeps s t → (x : ℕ) → Keeps s (rebalance_step t x).0
unfolding rebalance_step
rebalance_step-Keeps k x =
    Keeps-if_pair _ _ _ (Keeps-if_pair _ _ _ (recolor-Keeps k x _) (rotate_left_case-Keeps k x))
      (Keeps-if_pair _ _ _ (recolor-Keeps k x _) (rotate_right_case-Keeps k x))

rebalance_loop-Keeps :
    (s : Side) (fuel : ℕ) (t : Side) (x : ℕ) → Keeps s t → Keeps s (rebalance_loop fuel t x)
unfolding rebalance_loop
rebalance_loop-Keeps s zero t x k = k
rebalance_loop-Keeps s (suc fuel) t x k =
    Keeps-if _
      (rebalance_loop-Keeps s fuel (rebalance_step t x).0 (rebalance_step t x).1
        (rebalance_step-Keeps k x))
      k

insert_rebalance-Keeps : {s t : Side} → Keeps s t → (x : ℕ) → Keeps s (insert_rebalance t x)
unfolding insert_rebalance
insert_rebalance-Keeps {s} {t} k x =
    set_color-Keeps (rebalance_loop-Keeps s (level_fuel t) _ x (set_color-Keeps k x red)) _ black

-- Linking a level into the red-black tree, with all rotations and recolourings, leaves the pin
-- nodes, their pool, the ends of the chain and the order index as they are.
pub neighbor_aware_insert-Keeps :
    (type : OrderType) (s : Side) (new_node pred succ : ℕ)
    → Keeps s (neighbor_aware_insert type s new_node pred succ)
unfolding neighbor_aware_insert
neighbor_aware_insert-Keeps type s new_node pred succ =
    let k = Keeps-refl s in
    let below =
      Keeps-if (not (pred == 0) && (s.levels pred).right == 0)
        (set_parent-Keeps (set_right-Keeps k pred new_node) new_node pred)
        (set_parent-Keeps (set_left-Keeps k succ new_node) new_node succ) in
    let s0 = Keeps-if (s.root == 0) (best-root-Keeps k new_node new_node) below in
    let s1 = set_succ-Keeps (set_pred-Keeps s0 new_node pred) new_node succ in
    let s2 = Keeps-if (pred == 0) s1 (set_succ-Keeps s1 pred new_node) in
    let s3 = Keeps-if (succ == 0) s2 (set_pred-Keeps s2 succ new_node) in
    insert_rebalance-Keeps (Keeps-if (by_type type succ pred == 0) (best-Keeps new_node s3) s3)
      new_node
