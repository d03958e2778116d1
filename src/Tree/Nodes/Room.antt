-- ===== src/Tree/Nodes/Room.antt =====
-- `make_room` on the chain of pin nodes.
use mathlib.Core.List.{append_assoc}
use babo_matching_engine.Prelude.{
  ℕ, zero, suc, ◌≤◌, ◌≡◌, ◌≢◌, refl, sym, ◌∙◌, ap, subst, List, [], ◌∷◌, ◌++◌, length, Distinct,
  arith, Bool-cases, inl, inr,
}
use babo_matching_engine.Pin.{PinNode, npos, full}
use babo_matching_engine.Pin.Free.{range}
use babo_matching_engine.Pin.Holds.{IsPin}
use babo_matching_engine.Tree.{Side, new_pin}
use babo_matching_engine.Tree.Chain.{
  max_cascade_hops, walk_full, extend_after, ripple, room_from, make_room,
}
use babo_matching_engine.Tree.Nodes.{Block, IsChain, addrs, AllFilled}
use babo_matching_engine.Tree.Nodes.Links.{IsChain-cut}
use babo_matching_engine.Tree.Nodes.Replace.{view}
use babo_matching_engine.Tree.Nodes.Erase.{AllFilled-append, AllFilled-cut}
use babo_matching_engine.Tree.Nodes.Relocate.{Open, node_at}
use babo_matching_engine.Tree.Nodes.Ripple.{onto, first, AllFull, onto-append, Roomy, ripple-Roomy}
use babo_matching_engine.Tree.Nodes.Fresh.{empty_block, IsFresh}
use babo_matching_engine.Tree.Nodes.Extend.{extend_after-Open}
use babo_matching_engine.Tree.Nodes.Passing.{free_of_full, free_of_not_full, walk_full-Walked}

-- The part of the chain in front of another node.
Open-move :
    (N : ℕ) (s : Side) (ks : List Block) (k : Block) (ls us : List Block) (n : Block)
    (vs : List Block)
    → Open N s ks k ls
    → k.slots ≢ []
    → k ∷ ls ≡ us ++ n ∷ vs
    → Open N s (ks ++ us) n vs × (n.slots ≢ [])
Open-move N s ks k ls us n vs o f e =
    let split : ks ++ k ∷ ls ≡ (ks ++ us) ++ n ∷ vs =
      ap (◌++◌ ks) e ∙ sym (append_assoc ks us (n ∷ vs)) in
    let all : AllFilled ((ks ++ us) ++ n ∷ vs) =
      subst AllFilled split (AllFilled-append ks (k ∷ ls) o.filled_before (f, o.filled_behind)) in
    let (l, r) = AllFilled-cut (ks ++ us) (n ∷ vs) all in
    (
      record {
        chain = subst (λ bs. IsChain N s.pins 0 s.chain_head bs s.chain_tail 0) split o.chain;
        distinct = subst (λ bs. Distinct (addrs bs)) split o.distinct;
        filled_before = l;
        filled_behind = r.1;
      },
      r.0,
    )

pub full_slots :
    (N : ℕ) (p : PinNode) (xs fs : List ℕ) → 1 ≤ N → IsPin N p xs fs → fs ≡ [] → xs ≢ []
full_slots N p [] fs h i e g = absurd (omega (arith, h, i.capacity, ap length e))
full_slots N p (x ∷ xs) fs h i e g = absurd cc

pub range_cons : (N : ℕ) → 1 ≤ N → (f : ℕ) × (fs : List ℕ) × (range 0 N ≡ f ∷ fs)
range_cons zero h = absurd (omega (arith, h))
range_cons (suc n) h = (0, range 1 n, refl)

pub extend_after-addr : (N : ℕ) (s : Side) (n : ℕ) → (extend_after N s n).0 ≡ (new_pin N s).0
unfolding extend_after
extend_after-addr N s n = refl

-- The last node of the walk has a free slot.
room_behind :
    (N : ℕ) (s : Side) (ks rs : List Block) (n : Block) (vs : List Block)
    → 1 ≤ N
    → Open N s (ks ++ onto rs []) n vs
    → AllFull rs
    → (first n rs).free ≡ []
    → (f : ℕ) × (fs : List ℕ) × (n.free ≡ f ∷ fs)
    → Roomy N
        (ripple N s (n.addr ∷ addrs rs))
        (view s.pins ((ks ++ onto rs []) ++ n ∷ vs))
        ks
        (first n rs)
room_behind N s ks [] n vs low o d e (f, fs, g) = absurd cc
room_behind N s ks (r ∷ rs) n vs low o d e (f, fs, g) = ripple-Roomy N s ks r rs n vs f fs low o d g

-- The rest, once the walk is known: where its last node is full, a fresh node stands behind it.
room_from-Roomy :
    (N : ℕ) (s : Side) (ks rs : List Block) (n : Block) (vs : List Block)
    → 1 ≤ N
    → N ≤ npos
    → Open N s (ks ++ onto rs []) n vs
    → n.slots ≢ []
    → AllFull rs
    → (first n rs).free ≡ []
    → IsFresh N s ((ks ++ onto rs []) ++ n ∷ vs)
    → Roomy N
        (room_from N s (n.addr ∷ addrs rs))
        (view s.pins ((ks ++ onto rs []) ++ n ∷ vs))
        ks
        (first n rs)
unfolding room_from
room_from-Roomy N s ks rs n vs low high o f d full_first out =
    let (_, pin, _) =
      node_at N s.pins 0 s.chain_head (ks ++ onto rs []) n vs s.chain_tail 0 o.chain in
    elim (Bool-cases (full N (s.pins n.addr))) [
      | inl e ↦
          let (c, v) = extend_after-Open N s low high (ks ++ onto rs []) n vs o f out in
          let new = empty_block N (new_pin N s).0 in
          let (g, gs, free) = range_cons N low in
          let split : (ks ++ onto rs []) ++ n ∷ [] ≡ ks ++ onto (n ∷ rs) [] =
            append_assoc ks (onto rs []) (n ∷ []) ∙ ap (◌++◌ ks) (sym (onto-append rs (n ∷ []))) in
          let u = (extend_after N s n.addr).1 in
          rw e (
            subst
              (λ a.
                Roomy N (ripple N u (a ∷ n.addr ∷ addrs rs))
                  (view s.pins ((ks ++ onto rs []) ++ n ∷ vs)) ks (first n rs))
              (sym (extend_after-addr N s n.addr))
              (subst (λ l. Roomy N (ripple N u (new.addr ∷ n.addr ∷ addrs rs)) l ks (first n rs))
                (ap (λ bs. view u.pins (bs ++ new ∷ vs)) (sym split) ∙ v)
                (ripple-Roomy N u ks n rs new vs g gs low (subst (λ bs. Open N u bs new vs) split c)
                  (free_of_full N (s.pins n.addr) n.slots n.free pin e, d) free)))
      | inr e ↦ rw e (
          room_behind N s ks rs n vs low o d full_first
            (free_of_not_full N (s.pins n.addr) n.slots n.free pin e))
    ]

-- The walk and the moves, for any bound on the walk.
room_of-Roomy :
    (N hops : ℕ) (s : Side) (ks : List Block) (k : Block) (ls : List Block)
    → 1 ≤ N
    → N ≤ npos
    → Open N s ks k ls
    → k.free ≡ []
    → IsFresh N s (ks ++ k ∷ ls)
    → Roomy N (room_from N s (walk_full N hops s k.addr [])) (view s.pins (ks ++ k ∷ ls)) ks k
room_of-Roomy N hops s ks k ls low high o e out =
    let (m, d, _, r) = IsChain-cut N s.pins 0 s.chain_head ks (k ∷ ls) s.chain_tail 0 o.chain in
    let w =
      walk_full-Walked N hops s [] m k ls s.chain_tail
        (subst (λ a. IsChain N s.pins m a (k ∷ ls) s.chain_tail 0) r.0 r) tt in
    let parts = w.blocks_eq ∙ onto-append w.passed (w.last ∷ w.behind) in
    let (o2, f2) =
      Open-move N s ks k ls (onto w.passed []) w.last w.behind o
        (full_slots N (s.pins k.addr) k.slots k.free low r.3 e) parts in
    let split : ks ++ k ∷ ls ≡ (ks ++ onto w.passed []) ++ w.last ∷ w.behind =
      ap (◌++◌ ks) parts ∙ sym (append_assoc ks (onto w.passed []) (w.last ∷ w.behind)) in
    let done =
      room_from-Roomy N s ks w.passed w.last w.behind low high o2 f2 w.all_full
        (ap (λ (b : Block). b.free) w.first_eq ∙ e) (subst (IsFresh N s) split out) in
    subst (λ p. Roomy N (room_from N s p) (view s.pins (ks ++ k ∷ ls)) ks k) (sym w.path_eq)
      (subst
        (λ b.
          Roomy N (room_from N s (w.last.addr ∷ addrs w.passed)) (view s.pins (ks ++ k ∷ ls)) ks b)
        w.first_eq
        (subst
          (λ bs.
            Roomy N (room_from N s (w.last.addr ∷ addrs w.passed)) (view s.pins bs) ks
              (first w.last w.passed))
          (sym split) done))

-- On a well-formed chain of nodes of 1 to 2^16 - 1 slots in which one node is full, no other is
-- empty and the node that the pool hands out next does not stand, making room at the full node,
-- by the walk, a fresh node where the walk ends at a full one, and the moves from the far end
-- inward, takes the last slot of this node off its list and leaves the list of all orders of the
-- chain, and the nodes before, as they are.
pub make_room-Roomy :
    (N : ℕ) (s : Side) (ks : List Block) (k : Block) (ls : List Block)
    → 1 ≤ N
    → N ≤ npos
    → Open N s ks k ls
    → k.free ≡ []
    → IsFresh N s (ks ++ k ∷ ls)
    → Roomy N (make_room N s k.addr) (view s.pins (ks ++ k ∷ ls)) ks k
unfolding make_room
make_room-Roomy N s ks k ls low high o e out =
    room_of-Roomy N max_cascade_hops s ks k ls low high o e out
