-- ===== src/Tree/Nodes/After.antt =====
-- `append_at`, `prepend_at` and `insert_after_at` on the chain of pin nodes.
use mathlib.Core.List.{append_assoc}
use std.Path.{fun_ext}
use babo_matching_engine.Prelude.{
  ℕ, ◌+◌, ◌≡◌, refl, sym, ◌∙◌, ap, subst, true, false, List, [], ◌∷◌, ◌++◌, length, length-append,
  has, has-append, Distinct-append-right, ◌==◌, if◌then◌else◌, arith, Bool-cases, inl, inr, upd,
  upd-same, upd-other,
}
use babo_matching_engine.Order.{SimpleOrder}
use babo_matching_engine.Pin
use babo_matching_engine.Pin.{PinNode, npos, full, pin_node}
use babo_matching_engine.Pin.Holds.{IsPin}
use babo_matching_engine.Pin.Insert.{append-Inserts, prepend-Inserts, insert_after-Inserts}
use babo_matching_engine.Tree.{Side, OrderLoc, new_pin}
use babo_matching_engine.Tree.Chain.{
  at_level, set_next_node, set_prev_node, append_at, prepend_at, insert_after_at, extend_after,
}
use babo_matching_engine.Tree.Nodes.{Block}
use babo_matching_engine.Tree.Nodes.Replace.{view}
use babo_matching_engine.Tree.Nodes.Relocate.{Open, node_at, tail_at, prepend-links}
use babo_matching_engine.Tree.Nodes.Ripple.{last_slot}
use babo_matching_engine.Tree.Nodes.Fresh.{new_pin_lem}
use babo_matching_engine.Tree.Nodes.Insert.{Placed, count, into_block}

append-links :
    (n : PinNode) (o : SimpleOrder)
    → ((Pin.append n o).1.prev_node ≡ n.prev_node) × ((Pin.append n o).1.next_node ≡ n.next_node)
unfolding Pin.append Pin.alloc Pin.link_back
append-links n o = (refl, refl)

insert_after-links :
    (n : PinNode) (t : ℕ) (o : SimpleOrder)
    → ((Pin.insert_after n t o).1.prev_node ≡ n.prev_node)
      × ((Pin.insert_after n t o).1.next_node ≡ n.next_node)
unfolding Pin.insert_after Pin.alloc Pin.splice_after
insert_after-links n t o = (refl, refl)

module _ (N : ℕ) (ord : SimpleOrder) (lvl : ℕ) where
  -- The order stands at place `p` of the list `v` of the orders before.
  abbrev pub PlacedAt : List SimpleOrder → ℕ → OrderLoc × Side → Type 0
  PlacedAt v p r = Placed N v p (at_level ord lvl) r.0 r.1

  pub prepend_at-Placed :
      (s : Side) (ks : List Block) (k : Block) (ls : List Block)
      → Open N s ks k ls
      → (f : ℕ) × (fs : List ℕ) × (k.free ≡ f ∷ fs)
      → PlacedAt (view s.pins (ks ++ k ∷ ls)) (count ks) (prepend_at s k.addr ord lvl)
  unfolding prepend_at
  prepend_at-Placed s ks k ls o (f, fs, e) =
      let p = s.pins k.addr in
      let (_, pin, _) = node_at N s.pins 0 s.chain_head ks k ls s.chain_tail 0 o.chain in
      let links = prepend-links p (at_level ord lvl) in
      subst (λ n. PlacedAt (view s.pins (ks ++ k ∷ ls)) n (prepend_at s k.addr ord lvl))
        (omega arith)
        (into_block N s ks k ls (at_level ord lvl) f [] k.slots fs
          (Pin.prepend p (at_level ord lvl)) o refl
          (prepend-Inserts p (at_level ord lvl) f k.slots fs (subst (IsPin N p k.slots) e pin))
          links.0 links.1)

  -- Into an empty node.
  pub append_at-Placed :
      (s : Side) (ks : List Block) (k : Block) (ls : List Block)
      → Open N s ks k ls
      → k.slots ≡ []
      → (f : ℕ) × (fs : List ℕ) × (k.free ≡ f ∷ fs)
      → PlacedAt (view s.pins (ks ++ k ∷ ls)) (count ks) (append_at s k.addr ord lvl)
  unfolding append_at
  append_at-Placed s ks k ls o g (f, fs, e) =
      let p = s.pins k.addr in
      let (_, pin, _) = node_at N s.pins 0 s.chain_head ks k ls s.chain_tail 0 o.chain in
      let links = append-links p (at_level ord lvl) in
      subst (λ n. PlacedAt (view s.pins (ks ++ k ∷ ls)) n (append_at s k.addr ord lvl))
        (omega arith)
        (into_block N s ks k ls (at_level ord lvl) f [] [] fs (Pin.append p (at_level ord lvl)) o g
          (append-Inserts p (at_level ord lvl) f [] fs
            (subst (IsPin N p []) e (subst (λ zs. IsPin N p zs k.free) g pin)))
          links.0 links.1)

  pub insert_after_at-Placed :
      (s : Side) (ks : List Block) (k : Block) (ls : List Block) (us : List ℕ) (t : ℕ) (vs : List ℕ)
      → Open N s ks k ls
      → k.slots ≡ us ++ t ∷ vs
      → (f : ℕ) × (fs : List ℕ) × (k.free ≡ f ∷ fs)
      → PlacedAt
          (view s.pins (ks ++ k ∷ ls))
          (count ks + length us + 1)
          (insert_after_at s k.addr t ord lvl)
  unfolding insert_after_at
  insert_after_at-Placed s ks k ls us t vs o g (f, fs, e) =
      let p = s.pins k.addr in
      let (_, pin, _) = node_at N s.pins 0 s.chain_head ks k ls s.chain_tail 0 o.chain in
      let links = insert_after-links p t (at_level ord lvl) in
      subst (λ n. PlacedAt (view s.pins (ks ++ k ∷ ls)) n (insert_after_at s k.addr t ord lvl))
        (omega (arith, length-append us (t ∷ [])))
        (into_block N s ks k ls (at_level ord lvl) f (us ++ t ∷ []) vs fs
          (Pin.insert_after p t (at_level ord lvl)) o (g ∙ sym (append_assoc us (t ∷ []) vs))
          (insert_after-Inserts p (at_level ord lvl) t f us vs fs
            (subst (IsPin N p (us ++ t ∷ vs)) e (subst (λ zs. IsPin N p zs k.free) g pin)))
          links.0 links.1)

pub upd-id {ℓ} : {A : Type ℓ} (f : ℕ → A) (a : ℕ) → upd f a (f a) ≡ f
upd-id f a = fun_ext (λ x. elim (Bool-cases (x == a)) [
  | inl e ↦
      let same : x ≡ a = ground (arith, e) in
      subst (λ y. upd f a (f a) y ≡ f y) (sym same) (upd-same f a (f a))
  | inr e ↦ upd-other f a (f a) x (ground (arith, e))
])

set_next_node-id : (s : Side) (p v : ℕ) → (s.pins p).next_node ≡ v → set_next_node s p v ≡ s
unfolding set_next_node
set_next_node-id s p v e =
    subst (λ w. set_next_node s p w ≡ s) e
      (ap (λ (f : ℕ → PinNode). record s { pins = f }) (upd-id s.pins p))

-- A new node leads nowhere.
new_pin-next :
    (N : ℕ) (s : Side) (x : ℕ)
    → ((set_prev_node (new_pin N s).1 (new_pin N s).0 x).pins (new_pin N s).0).next_node ≡ 0
unfolding set_prev_node pin_node
new_pin-next N s x =
    let m = (new_pin N s).0 in
    let p1 = (new_pin N s).1.pins in
    ap (λ (n : PinNode). n.next_node) (upd-same p1 m (record (p1 m) { prev_node = x }))
    ∙ ap (λ (f : ℕ → PinNode). (f m).next_node) (new_pin_lem N s).1
    ∙ ap (λ (n : PinNode). n.next_node) (upd-same s.pins m (pin_node N))

-- Behind the last node, the source enters the new node as `extend_after` does.
pub entered_last :
    (N : ℕ) (s : Side) (x : ℕ)
    → ((new_pin N s).1.pins x).next_node ≡ 0
    → let s1 = (new_pin N s).1 in
      let m = (new_pin N s).0 in
      record (set_next_node (set_prev_node s1 m x) x m) { chain_tail = m } ≡ (extend_after N s x).1
unfolding extend_after
entered_last N s x e =
    let s1 = (new_pin N s).1 in
    let m = (new_pin N s).0 in
    let after = (s1.pins x).next_node in
    let t = set_prev_node s1 m x in
    let test : (after == 0) ≡ true = ground (arith, e) in
    let s2 = set_next_node (set_next_node t m after) x m in
    subst
      (λ b.
        record (set_next_node t x m) { chain_tail = m }
        ≡ (if b then record s2 { chain_tail = m } else set_prev_node s2 after m))
      (sym test)
      (ap (λ w. record (set_next_node w x m) { chain_tail = m })
        (sym (set_next_node-id t m after (new_pin-next N s x ∙ sym e))))

-- The last slot of the node is the only one that is the tail.
pub at_tail :
    (N : ℕ) (p : PinNode) (us : List ℕ) (t : ℕ) (vs fs : List ℕ)
    → IsPin N p (us ++ t ∷ vs) fs
    → ((t == p.tail) ≡ true → vs ≡ [])
      × ((t == p.tail) ≡ false → (ws : List ℕ) × (z : ℕ) × (vs ≡ ws ++ z ∷ []))
at_tail N p us t [] fs i = ((λ e. refl), (λ e. absurd (ground (arith, tail_at N p us t fs i, e))))
at_tail N p us t (v ∷ vs) fs i =
    let (ws, z, e) = last_slot (v ∷ vs) (omega arith) in
    let j = subst (λ l. IsPin N p (us ++ t ∷ l) fs) e i in
    let at =
      tail_at N p (us ++ t ∷ ws) z fs
        (subst (λ l. IsPin N p l fs) (sym (append_assoc us (t ∷ ws) (z ∷ []))) j) in
    let out : has t (ws ++ z ∷ []) ≡ false =
      (Distinct-append-right us (t ∷ (ws ++ z ∷ [])) j.distinct).0 in
    ((λ g. absurd (ground (arith, has-append t ws (z ∷ []), at, out, g))), (λ g. (ws, z, e)))
