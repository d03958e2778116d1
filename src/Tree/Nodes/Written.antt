-- ===== src/Tree/Nodes/Written.antt =====
-- The memory of the pin nodes once the links of a new node are set.
use babo_matching_engine.Prelude.{ℕ, ◌≤◌, ◌≡◌, refl, sym, ◌∙◌, ap, subst, List, [], upd, upd-same}
use babo_matching_engine.Pin.{PinNode, npos, pin_node}
use babo_matching_engine.Pin.Free.{range}
use babo_matching_engine.Pin.Holds.{IsPin, pin_node-IsPin}
use babo_matching_engine.Tree.{Side, new_pin}
use babo_matching_engine.Tree.Nodes.{Block, IsChain}
use babo_matching_engine.Tree.Nodes.Links.{
  set_next, set_prev, set_next-IsPin, set_prev-IsPin, IsChain-upd,
}
use babo_matching_engine.Tree.Nodes.Replace.{view, view-upd}
use babo_matching_engine.Tree.Nodes.Fresh.{IsFresh, new_pin_lem, view-SameSlots, upd-SameSlots}

module _ (N : ℕ) (s : Side) (n : ℕ) (low : 1 ≤ N) (high : N ≤ npos) where
  -- The memory once the links of the new node are set.
  abbrev pub fresh_pins : ℕ → ℕ → PinNode
  fresh_pins after =
      let m = (new_pin N s).0 in
      let p1 = (new_pin N s).1.pins in
      let p2 = upd p1 m (set_prev (p1 m) n) in upd p2 m (set_next (p2 m) after)

  fresh_pins_lem :
      (after : ℕ) → fresh_pins after (new_pin N s).0 ≡ set_next (set_prev (pin_node N) n) after
  fresh_pins_lem after =
      let m = (new_pin N s).0 in
      let p1 = (new_pin N s).1.pins in
      let p2 = upd p1 m (set_prev (p1 m) n) in
      upd-same p2 m (set_next (p2 m) after)
      ∙ ap (λ p. set_next p after)
          (upd-same p1 m (set_prev (p1 m) n)
            ∙ ap (λ p. set_prev p n)
                (ap (λ (f : ℕ → PinNode). f m) (new_pin_lem N s).1
                  ∙ upd-same s.pins m (pin_node N)))

  pub fresh-IsPin :
      (after : ℕ)
      → IsPin N (fresh_pins after (new_pin N s).0) [] (range 0 N)
        × ((fresh_pins after (new_pin N s).0).prev_node ≡ n)
        × ((fresh_pins after (new_pin N s).0).next_node ≡ after)
  fresh-IsPin after =
      let e = fresh_pins_lem after in
      (
        subst (λ p. IsPin N p [] (range 0 N)) (sym e)
            (set_next-IsPin N (set_prev (pin_node N) n) after [] (range 0 N)
              (set_prev-IsPin N (pin_node N) n [] (range 0 N) (pin_node-IsPin N high low))),
        ap (λ (p : PinNode). p.prev_node) e,
        ap (λ (p : PinNode). p.next_node) e,
      )

  -- The chain stays as it is.
  pub fresh-IsChain :
      (after b c : ℕ) (ks : List Block) (z e : ℕ)
      → IsChain N s.pins b c ks z e
      → IsFresh N s ks
      → IsChain N (fresh_pins after) b c ks z e
  fresh-IsChain after b c ks z e i out =
      let m = (new_pin N s).0 in
      let p1 = (new_pin N s).1.pins in
      let p2 = upd p1 m (set_prev (p1 m) n) in
      IsChain-upd N p2 m (set_next (p2 m) after) b c ks z e
        (IsChain-upd N p1 m (set_prev (p1 m) n) b c ks z e
          (subst (λ p. IsChain N p b c ks z e) (sym (new_pin_lem N s).1)
            (IsChain-upd N s.pins m (pin_node N) b c ks z e i out))
          out)
        out

  pub fresh_view :
      (after : ℕ) (ks : List Block) → IsFresh N s ks → view (fresh_pins after) ks ≡ view s.pins ks
  fresh_view after ks out =
      let m = (new_pin N s).0 in
      let p1 = (new_pin N s).1.pins in
      let p2 = upd p1 m (set_prev (p1 m) n) in
      view-SameSlots p2 (fresh_pins after) ks (upd-SameSlots p2 m (set_next (p2 m) after) refl)
      ∙ view-SameSlots p1 p2 ks (upd-SameSlots p1 m (set_prev (p1 m) n) refl)
      ∙ ap (λ p. view p ks) (new_pin_lem N s).1
      ∙ view-upd s.pins m (pin_node N) ks out
