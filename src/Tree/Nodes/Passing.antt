-- ===== src/Tree/Nodes/Passing.antt =====
-- `walk_full` on the chain, and when a node of the chain is full.
use babo_matching_engine.Prelude.{
  ℕ, zero, suc, ◌≡◌, refl, sym, subst, true, false, ◌&&◌, not, List, [], ◌∷◌, ◌==◌, if◌then◌else◌,
  arith, Bool-cases, inl, inr,
}
use babo_matching_engine.Pin.{PinNode, full}
use babo_matching_engine.Pin.Holds.{IsPin, full_iff}
use babo_matching_engine.Tree.{Side}
use babo_matching_engine.Tree.Chain.{walk_full}
use babo_matching_engine.Tree.Nodes.{Block, IsChain, addrs}
use babo_matching_engine.Tree.Nodes.Ripple.{onto, first, AllFull}

pub free_of_full :
    (N : ℕ) (p : PinNode) (xs fs : List ℕ) → IsPin N p xs fs → full N p ≡ true → fs ≡ []
free_of_full N p xs [] i e = refl
free_of_full N p xs (f ∷ fs) i e = absurd (omega (arith, (full_iff xs (f ∷ fs) i).0 e))

pub free_of_not_full :
    (N : ℕ) (p : PinNode) (xs fs : List ℕ)
    → IsPin N p xs fs
    → full N p ≡ false
    → (f : ℕ) × (gs : List ℕ) × (fs ≡ f ∷ gs)
free_of_not_full N p xs [] i e = absurd (ground (arith, (full_iff xs [] i).1 refl, e))
free_of_not_full N p xs (f ∷ fs) i e = (f, fs, refl)

-- The walk passes full nodes and stands on one of the nodes behind.
pub record Walked (N : ℕ) (s : Side) (path : List ℕ) (ks : List Block) (k : Block) : Type 0 where
  pub passed : List Block
  pub last : Block
  pub behind : List Block
  pub blocks_eq : ks ≡ onto passed (last ∷ behind)
  pub path_eq : path ≡ last.addr ∷ addrs passed
  pub all_full : AllFull passed
  pub first_eq : first last passed ≡ k

-- The walk ends at the node it stands on.
stop-Walked :
    (N : ℕ) (s : Side) (rs : List Block) (k : Block) (ls : List Block)
    → AllFull rs
    → Walked N s (k.addr ∷ addrs rs) (onto rs (k ∷ ls)) (first k rs)
stop-Walked N s rs k ls d = record {
  passed = rs;
  last = k;
  behind = ls;
  blocks_eq = refl;
  path_eq = refl;
  all_full = d;
  first_eq = refl;
}

pub walk_full-Walked :
    (N hops : ℕ) (s : Side) (rs : List Block) (b : ℕ) (k : Block) (ls : List Block) (z : ℕ)
    → IsChain N s.pins b k.addr (k ∷ ls) z 0
    → AllFull rs
    → Walked N s (walk_full N hops s k.addr (addrs rs)) (onto rs (k ∷ ls)) (first k rs)
unfolding walk_full
walk_full-Walked N zero s rs b k ls z i d = stop-Walked N s rs k ls d
walk_full-Walked N (suc hops) s rs b k [] z i d =
    let stop : (full N (s.pins k.addr) && not ((s.pins k.addr).next_node == 0)) ≡ false =
      ground (arith, i.4.0) in
    subst
      (λ c.
        Walked N s
          (if c
            then walk_full N hops s (s.pins k.addr).next_node (k.addr ∷ addrs rs)
            else k.addr ∷ addrs rs)
          (onto rs (k ∷ [])) (first k rs))
      (sym stop) (stop-Walked N s rs k [] d)
walk_full-Walked N (suc hops) s rs b k (l ∷ ls) z i d =
    elim (Bool-cases (full N (s.pins k.addr) && not ((s.pins k.addr).next_node == 0))) [
      | inl e ↦
          let next = (s.pins k.addr).next_node in
          let free = free_of_full N (s.pins k.addr) k.slots k.free i.3 (ground (arith, e)) in
          subst
            (λ c.
              Walked N s
                (if c then walk_full N hops s next (k.addr ∷ addrs rs) else k.addr ∷ addrs rs)
                (onto rs (k ∷ l ∷ ls)) (first k rs))
            (sym e)
            (subst
              (λ a.
                Walked N s (walk_full N hops s a (k.addr ∷ addrs rs)) (onto rs (k ∷ l ∷ ls))
                  (first k rs))
              (sym i.4.0)
              (walk_full-Walked N hops s (k ∷ rs) k.addr l ls z
                (subst (λ a. IsChain N s.pins k.addr a (l ∷ ls) z 0) i.4.0 i.4) (free, d)))
      | inr e ↦
          subst
            (λ c.
              Walked N s
                (if c
                  then walk_full N hops s (s.pins k.addr).next_node (k.addr ∷ addrs rs)
                  else k.addr ∷ addrs rs)
                (onto rs (k ∷ l ∷ ls)) (first k rs))
            (sym e) (stop-Walked N s rs k (l ∷ ls) d)
    ]
