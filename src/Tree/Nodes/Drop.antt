-- ===== src/Tree/Nodes/Drop.antt =====
-- `drop_pin` on the chain of pin nodes.
use babo_matching_engine.Prelude.{
  ℕ, ◌≡◌, sym, subst, Bool, true, false, List, [], ◌∷◌, ◌++◌, upd, has, Distinct, ◌==◌,
  if◌then◌else◌, arith, Bool-cases, inl, inr,
}
use mathlib.Core.List.{append-nil}
use babo_matching_engine.Tree.{Side, release_pin}
use babo_matching_engine.Tree.Chain.{set_next_node, set_prev_node}
use babo_matching_engine.Tree.Erase.{drop_pin}
use babo_matching_engine.Tree.Nodes.{Block, IsChain, addrs}
use babo_matching_engine.Tree.Nodes.Links.{
  set_next, set_prev, IsChain-upd, IsChain-append, IsChain-last, IsChain-set_end, IsChain-set_start,
}

abbrev pub ChainOf : ℕ → Side → List Block → Type 0
ChainOf N s ks = IsChain N s.pins 0 s.chain_head ks s.chain_tail 0

-- The two writes that close the gap, by whether the node is the first and whether it is the last.
abbrev linked : Bool → Bool → Side → ℕ → ℕ → Side
linked is_first is_last s prev next =
    let s1 = if is_first then record s { chain_head = next } else set_next_node s prev next in
    if is_last then record s1 { chain_tail = prev } else set_prev_node s1 next prev

abbrev link_over : Side → ℕ → ℕ → Side
link_over s prev next = linked (prev == 0) (next == 0) s prev next

-- The writes of the case that applies.
link_over-linked :
    (N : ℕ) (s : Side) (prev next : ℕ) (ks : List Block) (c d : Bool)
    → (prev == 0) ≡ c
    → (next == 0) ≡ d
    → ChainOf N (linked c d s prev next) ks
    → ChainOf N (link_over s prev next) ks
link_over-linked N s prev next ks c d e g i =
    subst (λ x. ChainOf N (linked x (next == 0) s prev next) ks) (sym e)
      (subst (λ y. ChainOf N (linked c y s prev next) ks) (sym g) i)

release_pin-ChainOf :
    (N : ℕ) (s : Side) (p : ℕ) (ks : List Block) → ChainOf N s ks → ChainOf N (release_pin s p) ks
unfolding release_pin
release_pin-ChainOf N s p ks i = elim (Bool-cases (p == 0)) [
  | inl e ↦ rw (e, release_pin) i
  | inr e ↦ rw (e, release_pin) i
]

link_over-ChainOf :
    (N : ℕ) (s : Side) (a prev next : ℕ) (ks ls : List Block)
    → IsChain N s.pins 0 s.chain_head ks prev a
    → IsChain N s.pins a next ls s.chain_tail 0
    → Distinct (addrs ks)
    → Distinct (addrs ls)
    → ((x : ℕ) → has x (addrs ks) ≡ true → has x (addrs ls) ≡ false)
    → ChainOf N (link_over s prev next) (ks ++ ls)
unfolding set_next_node set_prev_node
link_over-ChainOf N s a prev next [] [] i j d f apart =
    let e : (prev == 0) ≡ true = ground (arith, i.1) in
    let g : (next == 0) ≡ true = ground (arith, j.0) in
    link_over-linked N s prev next [] true true e g (j.0, i.1)
link_over-ChainOf N s a prev next [] (l ∷ ls) i j d f apart =
    let e : (prev == 0) ≡ true = ground (arith, i.1) in
    let g : (next == 0) ≡ false = ground (arith, j.0, j.1) in
    link_over-linked N s prev next (l ∷ ls) true false e g (
      subst
        (λ b.
          IsChain N (upd s.pins next (set_prev (s.pins next) prev)) b next (l ∷ ls) s.chain_tail 0)
        (sym i.1) (IsChain-set_start N s.pins a prev next l ls s.chain_tail 0 j f))
link_over-ChainOf N s a prev next (k ∷ ks) [] i j d f apart =
    let last = IsChain-last N s.pins 0 s.chain_head k ks prev a i in
    let e : (prev == 0) ≡ false = ground (arith, last.1) in
    let g : (next == 0) ≡ true = ground (arith, j.0) in
    subst (ChainOf N (link_over s prev next)) (sym (append-nil (k ∷ ks))) (
      link_over-linked N s prev next (k ∷ ks) false true e g (
        subst
          (λ v.
            IsChain N (upd s.pins prev (set_next (s.pins prev) next)) 0 s.chain_head (k ∷ ks) prev
              v)
          j.0 (IsChain-set_end N s.pins 0 s.chain_head k ks prev a next i d)))
link_over-ChainOf N s a prev next (k ∷ ks) (l ∷ ls) i j d f apart =
    let last = IsChain-last N s.pins 0 s.chain_head k ks prev a i in
    let e : (prev == 0) ≡ false = ground (arith, last.1) in
    let g : (next == 0) ≡ false = ground (arith, j.0, j.1) in
    let pins1 = upd s.pins prev (set_next (s.pins prev) next) in
    let pins2 = upd pins1 next (set_prev (pins1 next) prev) in
    let left = IsChain-set_end N s.pins 0 s.chain_head k ks prev a next i d in
    let right =
      IsChain-upd N s.pins prev (set_next (s.pins prev) next) a next (l ∷ ls) s.chain_tail 0 j
        (apart prev last.0) in
    let out : has next (addrs (k ∷ ks)) ≡ false = elim (Bool-cases (has next (addrs (k ∷ ks)))) [
      | inl h ↦ absurd (ground (arith, apart next h, j.0))
      | inr h ↦ h
    ] in
    link_over-linked N s prev next ((k ∷ ks) ++ l ∷ ls) false false e g (
      IsChain-append N pins2 0 s.chain_head (k ∷ ks) prev next (l ∷ ls) s.chain_tail 0
        (IsChain-upd N pins1 next (set_prev (pins1 next) prev) 0 s.chain_head (k ∷ ks) prev next
          left out)
        (IsChain-set_start N pins1 a prev next l ls s.chain_tail 0 right f))

-- An emptied node between two parts of the chain is taken out, and the parts are linked.
pub drop_pin-ChainOf :
    (N : ℕ) (s : Side) (a : ℕ) (ks ls : List Block)
    → IsChain N s.pins 0 s.chain_head ks (s.pins a).prev_node a
    → IsChain N s.pins a (s.pins a).next_node ls s.chain_tail 0
    → Distinct (addrs ks)
    → Distinct (addrs ls)
    → ((x : ℕ) → has x (addrs ks) ≡ true → has x (addrs ls) ≡ false)
    → ChainOf N (drop_pin s a) (ks ++ ls)
unfolding drop_pin
drop_pin-ChainOf N s a ks ls i j d f apart =
    release_pin-ChainOf N _ a (ks ++ ls)
      (link_over-ChainOf N s a (s.pins a).prev_node (s.pins a).next_node ks ls i j d f apart)
