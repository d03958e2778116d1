-- ===== src/Tree/Frame.antt =====
-- What the red-black code of narb_tree.h leaves alone: the orders, where they are, and the chain.
use babo_matching_engine.Prelude.{
  ℕ, zero, suc, ◌≡◌, refl, ◌∙◌, Bool, true, false, ◌==◌, if◌then◌else◌, Bool-cases, inl, inr,
}
use babo_matching_engine.Tree.{
  Side, PriceLevel, Color, write_level, set_left, set_right, set_parent, set_pred, set_succ,
  set_color,
}
use babo_matching_engine.Tree.Rotate.{
  adopt, hang_left_first, hang_right_first, left_rotate, right_rotate,
}
use babo_matching_engine.Tree.Delete.{
  Fixup, fixup, blacken, transplant, fix_left_sibling, fix_right_sibling, fixup_step, fixup_loop,
  rb_delete_fixup, splice_successor, rb_delete_node, take_out, tree_minimum,
}

-- Two states with the same orders in the same slots, and the same index and chain.
pub record Keeps (s s' : Side) : Type 0 where
  pub pins : s'.pins ≡ s.pins
  pub pin_pool : s'.pin_pool ≡ s.pin_pool
  pub order_index : s'.order_index ≡ s.order_index
  pub chain_head : s'.chain_head ≡ s.chain_head
  pub chain_tail : s'.chain_tail ≡ s.chain_tail

pub Keeps-refl : (s : Side) → Keeps s s
Keeps-refl s = record {
  pins = refl;
  pin_pool = refl;
  order_index = refl;
  chain_head = refl;
  chain_tail = refl;
}

pub Keeps-trans : {s t u : Side} → Keeps s t → Keeps t u → Keeps s u
Keeps-trans k l = record {
  pins = l.pins ∙ k.pins;
  pin_pool = l.pin_pool ∙ k.pin_pool;
  order_index = l.order_index ∙ k.order_index;
  chain_head = l.chain_head ∙ k.chain_head;
  chain_tail = l.chain_tail ∙ k.chain_tail;
}

pub best-Keeps : {s t : Side} (v : ℕ) → Keeps s t → Keeps s (record t { best = v })
best-Keeps v k = record {
  pins = k.pins;
  pin_pool = k.pin_pool;
  order_index = k.order_index;
  chain_head = k.chain_head;
  chain_tail = k.chain_tail;
}

-- A conditional step keeps what both of its branches keep.
pub Keeps-if :
    {s : Side} (b : Bool) {t u : Side} → Keeps s t → Keeps s u → Keeps s (if b then t else u)
Keeps-if true k l = k
Keeps-if false k l = l

module _ {s t : Side} (k : Keeps s t) where
  levels-Keeps : (f : ℕ → PriceLevel) → Keeps s (record t { levels = f })
  levels-Keeps f = record {
    pins = k.pins;
    pin_pool = k.pin_pool;
    order_index = k.order_index;
    chain_head = k.chain_head;
    chain_tail = k.chain_tail;
  }

  pub root-Keeps : (v : ℕ) → Keeps s (record t { root = v })
  root-Keeps v = record {
    pins = k.pins;
    pin_pool = k.pin_pool;
    order_index = k.order_index;
    chain_head = k.chain_head;
    chain_tail = k.chain_tail;
  }

  pub set_left-Keeps : (p v : ℕ) → Keeps s (set_left t p v)
  unfolding set_left
  set_left-Keeps p v = levels-Keeps _

  pub set_right-Keeps : (p v : ℕ) → Keeps s (set_right t p v)
  unfolding set_right
  set_right-Keeps p v = levels-Keeps _

  pub set_parent-Keeps : (p v : ℕ) → Keeps s (set_parent t p v)
  unfolding set_parent
  set_parent-Keeps p v = levels-Keeps _

  pub set_pred-Keeps : (p v : ℕ) → Keeps s (set_pred t p v)
  unfolding set_pred
  set_pred-Keeps p v = levels-Keeps _

  pub set_succ-Keeps : (p v : ℕ) → Keeps s (set_succ t p v)
  unfolding set_succ
  set_succ-Keeps p v = levels-Keeps _

  pub set_color-Keeps : (p : ℕ) (v : Color) → Keeps s (set_color t p v)
  unfolding set_color
  set_color-Keeps p v = levels-Keeps _

  pub write_level-Keeps : (p : ℕ) (l : PriceLevel) → Keeps s (write_level t p l)
  write_level-Keeps p l = levels-Keeps _

  adopt-Keeps : (child node : ℕ) → Keeps s (adopt t child node)
  unfolding adopt
  adopt-Keeps child node = Keeps-if _ k (set_parent-Keeps child node)

  hang_left_first-Keeps : (node pivot : ℕ) → Keeps s (hang_left_first t node pivot)
  unfolding hang_left_first
  hang_left_first-Keeps node pivot =
      Keeps-if _ (root-Keeps pivot) (Keeps-if _ (set_left-Keeps _ _) (set_right-Keeps _ _))

  hang_right_first-Keeps : (node pivot : ℕ) → Keeps s (hang_right_first t node pivot)
  unfolding hang_right_first
  hang_right_first-Keeps node pivot =
      Keeps-if _ (root-Keeps pivot) (Keeps-if _ (set_right-Keeps _ _) (set_left-Keeps _ _))

module _ {s t : Side} (k : Keeps s t) where
  pub left_rotate-Keeps : (node : ℕ) → Keeps s (left_rotate t node)
  unfolding left_rotate
  left_rotate-Keeps node =
      set_parent-Keeps
        (set_left-Keeps
          (hang_left_first-Keeps (set_parent-Keeps (adopt-Keeps (set_right-Keeps k _ _) _ _) _ _) _
            _)
          _ _)
        _ _

  pub right_rotate-Keeps : (node : ℕ) → Keeps s (right_rotate t node)
  unfolding right_rotate
  right_rotate-Keeps node =
      set_parent-Keeps
        (set_right-Keeps
          (hang_right_first-Keeps (set_parent-Keeps (adopt-Keeps (set_left-Keeps k _ _) _ _) _ _) _
            _)
          _ _)
        _ _

  blacken-Keeps : (child : ℕ) → Keeps s (blacken t child)
  blacken-Keeps child = Keeps-if _ k (set_color-Keeps k _ _)

  transplant-Keeps : (u v : ℕ) → Keeps s (transplant t u v)
  unfolding transplant
  transplant-Keeps u v =
      let hung =
        Keeps-if _ (root-Keeps k v) (Keeps-if _ (set_left-Keeps k _ _) (set_right-Keeps k _ _)) in
      Keeps-if _ hung (set_parent-Keeps hung _ _)

Keeps-if_state :
    {s : Side} (b : Bool) (f g : Fixup)
    → Keeps s f.state
    → Keeps s g.state
    → Keeps s (if b then f else g).state
Keeps-if_state true f g k l = k
Keeps-if_state false f g k l = l

module _ {s t : Side} (k : Keeps s t) where
  fix_left_sibling-Keeps : (p w : ℕ) → Keeps s (fix_left_sibling t p w).state
  unfolding fix_left_sibling
  fix_left_sibling-Keeps p w = Keeps-if_state _ _ _ (set_color-Keeps k _ _) (
      left_rotate-Keeps
        (blacken-Keeps
          (set_color-Keeps
            (set_color-Keeps
              (Keeps-if _ (right_rotate-Keeps (set_color-Keeps (blacken-Keeps k _) _ _) _) k) _ _)
            _ _)
          _)
        _)

  fix_right_sibling-Keeps : (p w : ℕ) → Keeps s (fix_right_sibling t p w).state
  unfolding fix_right_sibling
  fix_right_sibling-Keeps p w = Keeps-if_state _ _ _ (set_color-Keeps k _ _) (
      right_rotate-Keeps
        (blacken-Keeps
          (set_color-Keeps
            (set_color-Keeps
              (Keeps-if _ (left_rotate-Keeps (set_color-Keeps (blacken-Keeps k _) _ _) _) k) _ _)
            _ _)
          _)
        _)

  splice_successor-Keeps : (z y : ℕ) → Keeps s (splice_successor t z y).state
  unfolding splice_successor
  splice_successor-Keeps z y =
      set_color-Keeps
        (set_parent-Keeps
          (set_left-Keeps
            (transplant-Keeps
              (Keeps-if _ k (set_parent-Keeps (set_right-Keeps (transplant-Keeps k _ _) _ _) _ _)) _
              _)
            _ _)
          _ _)
        _ _

fixup_step-Keeps : {s : Side} (f : Fixup) → Keeps s f.state → Keeps s (fixup_step f).state
unfolding fixup_step
fixup_step-Keeps f k =
    Keeps-if_state _ _ _
      (fix_left_sibling-Keeps
        (Keeps-if _ (left_rotate-Keeps (set_color-Keeps (set_color-Keeps k _ _) _ _) _) k) _ _)
      (fix_right_sibling-Keeps
        (Keeps-if _ (right_rotate-Keeps (set_color-Keeps (set_color-Keeps k _ _) _ _) _) k) _ _)

fixup_loop-Keeps :
    {s : Side} (fuel : ℕ) (f : Fixup) → Keeps s f.state → Keeps s (fixup_loop fuel f).state
unfolding fixup_loop
fixup_loop-Keeps zero f k = k
fixup_loop-Keeps (suc fuel) f k =
    Keeps-if_state _ _ _ (fixup_loop-Keeps fuel (fixup_step f) (fixup_step-Keeps f k)) k

rb_delete_fixup-Keeps :
    {s t : Side} → Keeps s t → (x x_parent : ℕ) → Keeps s (rb_delete_fixup t x x_parent)
unfolding rb_delete_fixup
rb_delete_fixup-Keeps k x x_parent = blacken-Keeps (fixup_loop-Keeps _ (fixup _ x x_parent) k) _

take_out-Keeps : {s t : Side} → Keeps s t → (z y : ℕ) → Keeps s (take_out t z y).state
unfolding take_out
take_out-Keeps {t} k z y = elim (Bool-cases ((t.levels z).left == 0)) [
  | inl e ↦ rw (e, take_out) (transplant-Keeps k z _)
  | inr e ↦ elim (Bool-cases ((t.levels z).right == 0)) [
    | inl d ↦ rw (e, d, take_out) (transplant-Keeps k z _)
    | inr d ↦ rw (e, d, take_out) (splice_successor-Keeps k z y)
  ]
]

-- A tree that has kept the pin nodes, their pool, the ends of the chain and the order index keeps
-- them when a level is deleted from the red-black tree, with the whole fixup.
pub rb_delete_node-Keeps : {s t : Side} → Keeps s t → (z : ℕ) → Keeps s (rb_delete_node t z)
unfolding rb_delete_node
rb_delete_node-Keeps {t} k z =
    let f = take_out-Keeps k z (tree_minimum t (t.levels z).right) in
    Keeps-if _ (rb_delete_fixup-Keeps f _ _) f
