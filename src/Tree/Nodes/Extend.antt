-- ===== src/Tree/Nodes/Extend.antt =====
-- `extend_after` on the chain of pin nodes.
use mathlib.Core.List.{append_assoc}
use babo_matching_engine.Prelude.{
  ℕ, ◌≤◌, ◌≡◌, ◌≢◌, refl, sym, ◌∙◌, ap, subst, true, false, List, [], ◌∷◌, ◌++◌, upd, upd-other,
  has, has-append, Distinct, ◌==◌, if◌then◌else◌, arith,
}
use babo_matching_engine.Pin.{PinNode, npos, pin_node}
use babo_matching_engine.Tree.{Side, new_pin}
use babo_matching_engine.Tree.Chain.{set_next_node, set_prev_node, extend_after}
use babo_matching_engine.Tree.Nodes.{Block, IsChain, addrs}
use babo_matching_engine.Tree.Nodes.Links.{set_next, set_prev}
use babo_matching_engine.Tree.Nodes.Replace.{view, view-append}
use babo_matching_engine.Tree.Nodes.Erase.{addrs-append, AllFilled-append}
use babo_matching_engine.Tree.Nodes.Relocate.{Open}
use babo_matching_engine.Tree.Nodes.Fresh.{
  empty_block, IsFresh, new_pin_lem, SameSlots, view-SameSlots, upd-SameSlots, IsChain-split,
  in_part, enter_last, enter_between,
}
use babo_matching_engine.Tree.Nodes.Written.{fresh_pins, fresh-IsPin, fresh-IsChain, fresh_view}

-- The addresses stay distinct.
pub enter-Distinct :
    (ks : List Block) (k : Block) (ls : List Block)
    → Distinct (addrs (ks ++ ls))
    → has k.addr (addrs (ks ++ ls)) ≡ false
    → Distinct (addrs (ks ++ k ∷ ls))
enter-Distinct [] k ls d out = (out, d)
enter-Distinct (j ∷ ks) k ls d out =
    let spread : (a : ℕ) (us : List Block)
        → has a (addrs (ks ++ us)) ≡ has a (addrs ks ++ addrs us) =
      λ a us. ap (has a) (addrs-append ks us) in
    (
      ground (
        arith,
        d.0,
        out,
        spread j.addr ls,
        spread j.addr (k ∷ ls),
        has-append j.addr (addrs ks) (addrs ls),
        has-append j.addr (addrs ks) (k.addr ∷ addrs ls),
      ),
      enter-Distinct ks k ls d.1 (ground (arith, out)),
    )

-- An empty node adds no order.
pub enter-view :
    (pins : ℕ → PinNode) (ks : List Block) (N m : ℕ) (ls : List Block)
    → view pins (ks ++ empty_block N m ∷ ls) ≡ view pins (ks ++ ls)
enter-view pins ks N m ls =
    view-append pins ks (empty_block N m ∷ ls) ∙ sym (view-append pins ks ls)

test_true : (a : ℕ) → a ≡ 0 → (a == 0) ≡ true
test_true a e = ground (arith, e)

test_false : (a : ℕ) → a ≢ 0 → (a == 0) ≡ false
test_false a e = ground (arith, e)

SameSlots-trans : (p q r : ℕ → PinNode) → SameSlots p q → SameSlots q r → SameSlots p r
SameSlots-trans p q r h k a = k a ∙ h a

module _ (N : ℕ) (s : Side) (low : 1 ≤ N) (high : N ≤ npos) where
  -- The state of the chain around the new node, from its memory and its links.
  entered :
      (u : Side) (after : ℕ) (ks : List Block) (k : Block) (ls : List Block)
      → Open N s ks k ls
      → k.slots ≢ []
      → IsFresh N s (ks ++ k ∷ ls)
      → let new = empty_block N (new_pin N s).0 in
        IsChain N u.pins 0 u.chain_head ((ks ++ k ∷ []) ++ new ∷ ls) u.chain_tail 0
        → SameSlots (fresh_pins N s k.addr low high after) u.pins
        → Open N u (ks ++ k ∷ []) new ls
          × (view u.pins ((ks ++ k ∷ []) ++ new ∷ ls) ≡ view s.pins (ks ++ k ∷ ls))
  entered u after ks k ls o f out i h =
      let new = empty_block N (new_pin N s).0 in
      let split = append_assoc ks (k ∷ []) ls in
      (
        record {
          chain = i;
          distinct =
              enter-Distinct (ks ++ k ∷ []) new ls
                (subst (λ bs. Distinct (addrs bs)) (sym split) o.distinct)
                (subst (IsFresh N s) (sym split) out);
          filled_before = AllFilled-append ks (k ∷ []) o.filled_before (f, tt);
          filled_behind = o.filled_behind;
        },
        enter-view u.pins (ks ++ k ∷ []) N (new_pin N s).0 ls
            ∙ ap (view u.pins) split
            ∙ view-SameSlots (fresh_pins N s k.addr low high after) u.pins (ks ++ k ∷ ls) h
            ∙ fresh_view N s k.addr low high after (ks ++ k ∷ ls) out,
      )

  -- What the writes leave in the node itself.
  pub same_next :
      (ks : List Block) (k : Block) (ls : List Block)
      → IsFresh N s (ks ++ k ∷ ls)
      → (new_pin N s).1.pins k.addr ≡ s.pins k.addr
  same_next ks k ls out =
      let m = (new_pin N s).0 in
      let ne : k.addr ≢ m = λ h. absurd (ground (arith, in_part m ks k ls (sym h), out)) in
      ap (λ (f : ℕ → PinNode). f k.addr) (new_pin_lem N s).1
      ∙ upd-other s.pins m (pin_node N) k.addr ne

  -- `extend_after` puts an empty node right behind a node of the chain and keeps the orders.
  pub extend_after-Open :
      (ks : List Block) (k : Block) (ls : List Block)
      → Open N s ks k ls
      → k.slots ≢ []
      → IsFresh N s (ks ++ k ∷ ls)
      → let u = (extend_after N s k.addr).1 in
        let new = empty_block N (new_pin N s).0 in
        Open N u (ks ++ k ∷ []) new ls
        × (view u.pins ((ks ++ k ∷ []) ++ new ∷ ls) ≡ view s.pins (ks ++ k ∷ ls))
  unfolding extend_after set_next_node set_prev_node new_pin
  extend_after-Open ks k [] o f out =
      let m = (new_pin N s).0 in
      let n = k.addr in
      let after = ((new_pin N s).1.pins n).next_node in
      let p = fresh_pins N s n low high after in
      let (pin, back, on) = fresh-IsPin N s n low high after in
      let i =
        fresh-IsChain N s n low high after 0 s.chain_head (ks ++ k ∷ []) s.chain_tail 0 o.chain
          out in
      let (_, r) = IsChain-split N s.pins 0 s.chain_head ks k [] s.chain_tail 0 o.chain in
      let none_after : after ≡ 0 =
        ap (λ (x : PinNode). x.next_node) (same_next ks k [] out) ∙ r.0 in
      let chain =
        enter_last N p m n (new_pin_lem N s).0 pin back s.chain_head ks k s.chain_tail refl i
          o.distinct out (on ∙ none_after) in
      let s2 = set_next_node (set_next_node (set_prev_node (new_pin N s).1 m n) m after) n m in
      subst
        (λ b.
          let u = if b then record s2 { chain_tail = m } else set_prev_node s2 after m in
          Open N u (ks ++ k ∷ []) (empty_block N m) []
          × (view u.pins ((ks ++ k ∷ []) ++ empty_block N m ∷ []) ≡ view s.pins (ks ++ k ∷ [])))
        (sym (test_true after none_after))
        (entered (record s2 { chain_tail = m }) after ks k [] o f out chain
          (upd-SameSlots p n (set_next (p n) m) refl))
  extend_after-Open ks k (l ∷ ls) o f out =
      let m = (new_pin N s).0 in
      let n = k.addr in
      let after = ((new_pin N s).1.pins n).next_node in
      let p = fresh_pins N s n low high after in
      let q = upd p n (set_next (p n) m) in
      let (pin, back, on) = fresh-IsPin N s n low high after in
      let i =
        fresh-IsChain N s n low high after 0 s.chain_head (ks ++ k ∷ l ∷ ls) s.chain_tail 0 o.chain
          out in
      let (_, r) = IsChain-split N s.pins 0 s.chain_head ks k (l ∷ ls) s.chain_tail 0 o.chain in
      let (_, r2) = IsChain-split N p 0 s.chain_head ks k (l ∷ ls) s.chain_tail 0 i in
      let next_eq : after ≡ l.addr =
        ap (λ (x : PinNode). x.next_node) (same_next ks k (l ∷ ls) out) ∙ r.0 in
      let chain =
        enter_between N p m n (new_pin_lem N s).0 pin back s.chain_head ks k l ls s.chain_tail refl
          i o.distinct out (on ∙ next_eq ∙ sym r2.0) in
      let s2 = set_next_node (set_next_node (set_prev_node (new_pin N s).1 m n) m after) n m in
      subst
        (λ b.
          let u = if b then record s2 { chain_tail = m } else set_prev_node s2 after m in
          Open N u (ks ++ k ∷ []) (empty_block N m) (l ∷ ls)
          × (view u.pins ((ks ++ k ∷ []) ++ empty_block N m ∷ l ∷ ls)
              ≡ view s.pins (ks ++ k ∷ l ∷ ls)))
        (sym (test_false after (λ h. r.1 (sym next_eq ∙ h))))
        (entered (set_prev_node s2 after m) after ks k (l ∷ ls) o f out
          (subst
            (λ y.
              IsChain N (upd q y (set_prev (q y) m)) 0 s.chain_head
                ((ks ++ k ∷ []) ++ empty_block N m ∷ l ∷ ls) s.chain_tail 0)
            on chain)
          (SameSlots-trans p q (upd q after (set_prev (q after) m))
            (upd-SameSlots p n (set_next (p n) m) refl)
            (upd-SameSlots q after (set_prev (q after) m) refl)))
