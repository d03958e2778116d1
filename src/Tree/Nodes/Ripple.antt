-- ===== src/Tree/Nodes/Ripple.antt =====
-- `ripple` on the chain of pin nodes.
use mathlib.Core.List.{append_assoc}
use babo_matching_engine.Prelude.{
  ℕ, ◌≤◌, ◌≡◌, refl, sym, ◌∙◌, ap, subst, List, [], ◌∷◌, ◌++◌, length, arith,
}
use babo_matching_engine.Order.{SimpleOrder}
use babo_matching_engine.Tree.{Side}
use babo_matching_engine.Tree.Chain.{relocate_tail_to_head, ripple}
use babo_matching_engine.Tree.Nodes.{Block, IsChain, addrs}
use babo_matching_engine.Tree.Nodes.Replace.{reslot, view}
use babo_matching_engine.Tree.Nodes.Relocate.{Open, node_at, relocate_tail_to_head-Open}

-- The nodes of a path, the last one first, put before a list of nodes.
abbrev pub onto : List Block → List Block → List Block
onto [] ls = ls
onto (r ∷ rs) ls = onto rs (r ∷ ls)

-- The first node of a path, which its list names last.
abbrev pub first : Block → List Block → Block
first r [] = r
first r (q ∷ rs) = first q rs

abbrev pub AllFull : List Block → Type 0
AllFull [] = Unit {0}
AllFull (r ∷ rs) = (r.free ≡ []) × AllFull rs

pub onto-append : (rs ls : List Block) → onto rs ls ≡ onto rs [] ++ ls
onto-append [] ls = refl
onto-append (r ∷ rs) ls =
    onto-append rs (r ∷ ls)
    ∙ sym (append_assoc (onto rs []) (r ∷ []) ls)
    ∙ ap (λ ks. ks ++ ls) (sym (onto-append rs (r ∷ [])))

pub last_slot : (xs : List ℕ) → 1 ≤ length xs → (ys : List ℕ) × (t : ℕ) × (xs ≡ ys ++ t ∷ [])
last_slot [] h = absurd (omega (arith, h))
last_slot (x ∷ []) h = ([], x, refl)
last_slot (x ∷ y ∷ xs) h =
    let (ys, t, e) = last_slot (y ∷ xs) (omega arith) in (x ∷ ys, t, ap (◌∷◌ x) e)

-- The node `k` has given up its last slot, and the list of orders is `v`.
pub record Roomy (N : ℕ) (u : Side) (v : List SimpleOrder) (ks : List Block) (k : Block)
    : Type 0 where
  pub slots : List ℕ
  pub slot : ℕ
  pub behind : List Block
  pub slots_eq : k.slots ≡ slots ++ slot ∷ []
  pub chain : Open N u ks (reslot k slots (slot ∷ [])) behind
  pub view_eq : view u.pins (ks ++ reslot k slots (slot ∷ []) ∷ behind) ≡ v

-- One hop from a full node.
hop :
    (N : ℕ) (s : Side) (ks : List Block) (r n : Block) (ls : List Block) (f : ℕ) (fs : List ℕ)
    → 1 ≤ N
    → Open N s (ks ++ r ∷ []) n ls
    → r.free ≡ []
    → n.free ≡ f ∷ fs
    → Roomy N (relocate_tail_to_head s r.addr n.addr) (view s.pins ((ks ++ r ∷ []) ++ n ∷ ls)) ks r
hop N s ks r n ls f fs h o e g =
    let (_, pin, _) = node_at N s.pins 0 s.chain_head ks r (n ∷ ls) s.chain_tail 0 (
      subst (λ bs. IsChain N s.pins 0 s.chain_head bs s.chain_tail 0)
        (append_assoc ks (r ∷ []) (n ∷ ls)) o.chain) in
    let (xs, t, split) = last_slot r.slots (omega (arith, h, pin.capacity, ap length e)) in
    let (chain, same) = relocate_tail_to_head-Open N s ks r n ls xs t f fs o split g in
    record {
      slots = xs;
      slot = t;
      behind = reslot n (f ∷ n.slots) fs ∷ ls;
      slots_eq = split;
      chain =
          subst
            (λ fs2.
              Open N (relocate_tail_to_head s r.addr n.addr) ks (reslot r xs (t ∷ fs2))
                (reslot n (f ∷ n.slots) fs ∷ ls))
            e chain;
      view_eq =
          ap
            (λ fs2.
              view (relocate_tail_to_head s r.addr n.addr).pins
                (ks ++ reslot r xs (t ∷ fs2) ∷ reslot n (f ∷ n.slots) fs ∷ ls))
            (sym e)
          ∙ same;
    }

-- The moves over a path of full nodes, into a node `n` with a free slot behind them, leave the
-- list of orders as it is, and the first node with one free slot.
pub ripple-Roomy :
    (N : ℕ) (s : Side) (ks : List Block) (r : Block) (rs : List Block) (n : Block) (ls : List Block)
    (f : ℕ) (fs : List ℕ)
    → 1 ≤ N
    → Open N s (ks ++ onto (r ∷ rs) []) n ls
    → AllFull (r ∷ rs)
    → n.free ≡ f ∷ fs
    → Roomy N
        (ripple N s (n.addr ∷ addrs (r ∷ rs)))
        (view s.pins ((ks ++ onto (r ∷ rs) []) ++ n ∷ ls))
        ks
        (first r rs)
unfolding ripple
ripple-Roomy N s ks r [] n ls f fs h o d g = hop N s ks r n ls f fs h o d.0 g
ripple-Roomy N s ks r (q ∷ rs) n ls f fs h o d g =
    let split : ks ++ onto (r ∷ q ∷ rs) [] ≡ (ks ++ onto (q ∷ rs) []) ++ r ∷ [] =
      ap (◌++◌ ks) (onto-append (q ∷ rs) (r ∷ []))
      ∙ sym (append_assoc ks (onto (q ∷ rs) []) (r ∷ [])) in
    let first_hop =
      hop N s (ks ++ onto (q ∷ rs) []) r n ls f fs h (subst (λ bs. Open N s bs n ls) split o) d.0
        g in
    subst (λ v. Roomy N (ripple N s (n.addr ∷ addrs (r ∷ q ∷ rs))) v ks (first r (q ∷ rs)))
      (first_hop.view_eq ∙ ap (λ bs. view s.pins (bs ++ n ∷ ls)) (sym split))
      (ripple-Roomy N (relocate_tail_to_head s r.addr n.addr) ks q rs
        (reslot r first_hop.slots (first_hop.slot ∷ [])) first_hop.behind first_hop.slot [] h
        first_hop.chain d.1 refl)
