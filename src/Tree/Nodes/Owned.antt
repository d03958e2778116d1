-- ===== src/Tree/Nodes/Owned.antt =====
-- The pin pool and the nodes of the chain.
use babo_matching_engine.Prelude.{
  ℕ, ◌-◌, ◌≡◌, refl, subst, false, List, [], ◌∷◌, has, ◌==◌, arith, Bool-cases, inl, inr,
}
use babo_matching_engine.Pool.{allocate}
use babo_matching_engine.Pool.Ownership.{IsPool, Live, allocate-Allocates}
use babo_matching_engine.Tree.{Side, new_pin}
use babo_matching_engine.Tree.Nodes.{Block, addrs}
use babo_matching_engine.Tree.Nodes.Fresh.{IsFresh}

-- The nodes of the chain are held: the chunk of index `i` is at address `i + 1`.
abbrev pub AllLive : List ℕ → ℕ → List Block → Type 0
AllLive free used [] = Unit {0}
AllLive free used (k ∷ ks) = Live free used (k.addr - 1) × AllLive free used ks

-- The pool is well formed and lends the nodes of the chain.
pub record Owns (s : Side) (ks : List Block) (free : List ℕ) (used : ℕ) : Type 0 where
  pub pool : IsPool s.pin_pool free used
  pub live : AllLive free used ks

apart_from :
    (free : List ℕ) (used m : ℕ) (ks : List Block)
    → (Live free used (m - 1) → ⊥)
    → AllLive free used ks
    → has m (addrs ks) ≡ false
apart_from free used m [] h l = refl
apart_from free used m (k ∷ ks) h l = elim (Bool-cases (k.addr == m)) [
  | inl e ↦ absurd (h (subst (λ a. Live free used (a - 1)) (ground (arith, e)) l.0))
  | inr e ↦ ground (arith, e, apart_from free used m ks h l.1)
]

pub Owns-IsFresh :
    (N : ℕ) (s : Side) (ks : List Block) (free : List ℕ) (used : ℕ)
    → Owns s ks free used
    → IsFresh N s ks
unfolding new_pin
Owns-IsFresh N s ks free used o =
    let (free', used', l) = allocate-Allocates 128 s.pin_pool free used (omega arith) o.pool in
    apart_from free used (new_pin N s).0 ks
      (λ h.
        let back : (new_pin N s).0 - 1 ≡ (allocate 128 s.pin_pool).0 = omega arith in
        let live = subst (Live free used) back h in ground (arith, live, l.fresh live.0))
      o.live
