-- ===== src/Tree/Nodes/Fresh.antt =====
-- A fresh pin node and the writes that enter it into the chain.
use mathlib.Core.List.{append_assoc}
use babo_matching_engine.Prelude.{
  ℕ, ◌≡◌, ◌≢◌, refl, sym, ◌∙◌, ap, subst, true, false, List, [], ◌∷◌, ◌++◌, map, upd, upd-same,
  upd-other, has, Distinct, Distinct-append-left, Distinct-append-right, ◌==◌, arith, Bool-cases,
  inl, inr,
}
use babo_matching_engine.Pin.{PinNode, pin_node}
use babo_matching_engine.Pin.Free.{range}
use babo_matching_engine.Pin.Holds.{IsPin, orders}
use babo_matching_engine.Tree.{Side, new_pin}
use babo_matching_engine.Tree.Nodes.{Block, IsChain, addrs}
use babo_matching_engine.Tree.Nodes.Links.{
  set_next, set_prev, IsChain-upd, IsChain-append, IsChain-cut, IsChain-set_end, IsChain-set_start,
}
use babo_matching_engine.Tree.Nodes.Replace.{view, apart}
use babo_matching_engine.Tree.Nodes.Erase.{addrs-append}

-- The empty node at the address.
abbrev pub empty_block : ℕ → ℕ → Block
empty_block N m = record { addr = m; slots = []; free = range 0 N }

-- The next node of the pool does not stand in the chain.
abbrev pub IsFresh : ℕ → Side → List Block → Type 0
IsFresh N s ks = has (new_pin N s).0 (addrs ks) ≡ false

pub new_pin_lem :
    (N : ℕ) (s : Side)
    → ((new_pin N s).0 ≢ 0) × ((new_pin N s).1.pins ≡ upd s.pins (new_pin N s).0 (pin_node N))
unfolding new_pin
new_pin_lem N s = ((λ e. absurd (ground (arith, e))), refl)

-- The orders of a chain are those in the slots of its nodes.
abbrev pub SameSlots : (ℕ → PinNode) → (ℕ → PinNode) → Type 0
SameSlots p q = (a : ℕ) → (q a).slots ≡ (p a).slots

pub view-SameSlots : (p q : ℕ → PinNode) (ks : List Block) → SameSlots p q → view q ks ≡ view p ks
view-SameSlots p q [] h = refl
view-SameSlots p q (k ∷ ks) h =
    ap (λ f. map f k.slots ++ view q ks) (h k.addr)
    ∙ ap (◌++◌ (orders (p k.addr) k.slots)) (view-SameSlots p q ks h)

pub upd-SameSlots :
    (p : ℕ → PinNode) (a : ℕ) (n : PinNode) → n.slots ≡ (p a).slots → SameSlots p (upd p a n)
upd-SameSlots p a n h x = elim (Bool-cases (x == a)) [
  | inl e ↦
      let same : x ≡ a = ground (arith, e) in
      subst (λ y. (upd p a n y).slots ≡ (p y).slots) (sym same)
        (ap (λ (m : PinNode). m.slots) (upd-same p a n) ∙ h)
  | inr e ↦ ap (λ (m : PinNode). m.slots) (upd-other p a n x (ground (arith, e)))
]

module _ (N : ℕ) (pins : ℕ → PinNode) where
  -- The last node of a part is led to another one.
  pub IsChain-lead :
      (b c : ℕ) (ks : List Block) (n : Block) (z e v : ℕ)
      → IsChain N pins b c (ks ++ n ∷ []) z e
      → Distinct (addrs (ks ++ n ∷ []))
      → IsChain N (upd pins z (set_next (pins z) v)) b c (ks ++ n ∷ []) z v
  IsChain-lead b c [] n z e v i d = IsChain-set_end N pins b c n [] z e v i d
  IsChain-lead b c (k ∷ ks) n z e v i d = IsChain-set_end N pins b c k (ks ++ n ∷ []) z e v i d

  -- The part up to a node, with what leads on from it.
  pub IsChain-split :
      (b c : ℕ) (ks : List Block) (n : Block) (ls : List Block) (z e : ℕ)
      → IsChain N pins b c (ks ++ n ∷ ls) z e
      → IsChain N pins b c (ks ++ n ∷ []) n.addr (pins n.addr).next_node
        × IsChain N pins n.addr (pins n.addr).next_node ls z e
  IsChain-split b c ks n ls z e i =
      let (m, d, l, r) = IsChain-cut N pins b c ks (n ∷ ls) z e i in
      (
        IsChain-append N pins b c ks m d (n ∷ []) n.addr (pins n.addr).next_node l
            (r.0, r.1, r.2, r.3, (refl, refl)),
        r.4,
      )

-- The address of a node stands in the list of addresses.
pub in_part :
    (a : ℕ) (ks : List Block) (k : Block) (ls : List Block)
    → a ≡ k.addr
    → has a (addrs (ks ++ k ∷ ls)) ≡ true
in_part a [] k ls e = ground (arith, e)
in_part a (j ∷ ks) k ls e = ground (arith, in_part a ks k ls e)

-- The new node `m`, whose links are set in `pins`, is entered behind the part `ks`, which ends
-- with the node `n`.
module _ (N : ℕ) (pins : ℕ → PinNode) (m n : ℕ) (m_ne : m ≢ 0)
    (pin : IsPin N (pins m) [] (range 0 N)) (prev_eq : (pins m).prev_node ≡ n) where
  pub join_new :
      (q : ℕ → PinNode) (c : ℕ) (ks ls : List Block) (z : ℕ)
      → q m ≡ pins m
      → IsChain N q 0 c ks n m
      → IsChain N q m (pins m).next_node ls z 0
      → IsChain N q 0 c (ks ++ empty_block N m ∷ ls) z 0
  join_new q c ks ls z same l r = IsChain-append N q 0 c ks n m (empty_block N m ∷ ls) z 0 l (
    refl,
    m_ne,
    ap (λ (p : PinNode). p.prev_node) same ∙ prev_eq,
    subst (λ p. IsPin N p [] (range 0 N)) (sym same) pin,
    subst (λ (p : PinNode). IsChain N q m p.next_node ls z 0) (sym same) r,
  )

  -- Behind the last node.
  pub enter_last :
      (c : ℕ) (ks : List Block) (k : Block) (z : ℕ)
      → k.addr ≡ n
      → IsChain N pins 0 c (ks ++ k ∷ []) z 0
      → Distinct (addrs (ks ++ k ∷ []))
      → has m (addrs (ks ++ k ∷ [])) ≡ false
      → (pins m).next_node ≡ 0
      → IsChain N
          (upd pins n (set_next (pins n) m))
          0
          c
          ((ks ++ k ∷ []) ++ empty_block N m ∷ [])
          m
          0
  enter_last c ks k z a i d out e =
      let (l, r) = IsChain-split N pins 0 c ks k [] z 0 i in
      let left = subst (λ x. IsChain N pins 0 c (ks ++ k ∷ []) x (pins x).next_node) a l in
      let ne : m ≢ n = λ h. absurd (ground (arith, in_part m ks k [] (h ∙ sym a), out)) in
      join_new (upd pins n (set_next (pins n) m)) c (ks ++ k ∷ []) [] m
        (upd-other pins n (set_next (pins n) m) m ne)
        (IsChain-lead N pins 0 c ks k n (pins n).next_node m left d) (e, refl)

  -- Between two nodes.
  pub enter_between :
      (c : ℕ) (ks : List Block) (k l : Block) (ls : List Block) (z : ℕ)
      → k.addr ≡ n
      → IsChain N pins 0 c (ks ++ k ∷ l ∷ ls) z 0
      → Distinct (addrs (ks ++ k ∷ l ∷ ls))
      → has m (addrs (ks ++ k ∷ l ∷ ls)) ≡ false
      → (pins m).next_node ≡ (pins n).next_node
      → let q = upd pins n (set_next (pins n) m) in
        let y = (pins m).next_node in
        IsChain N (upd q y (set_prev (q y) m)) 0 c ((ks ++ k ∷ []) ++ empty_block N m ∷ l ∷ ls) z 0
  enter_between c ks k l ls z a i d out e =
      let (lpart, rpart) = IsChain-split N pins 0 c ks k (l ∷ ls) z 0 i in
      let left = subst (λ x. IsChain N pins 0 c (ks ++ k ∷ []) x (pins x).next_node) a lpart in
      let right = subst (λ x. IsChain N pins x (pins x).next_node (l ∷ ls) z 0) a rpart in
      let q = upd pins n (set_next (pins n) m) in
      let y = (pins m).next_node in
      let r = upd q y (set_prev (q y) m) in
      let at : y ≡ l.addr = e ∙ right.0 in
      let whole = subst (λ bs. Distinct (addrs bs)) (sym (append_assoc ks (k ∷ []) (l ∷ ls))) d in
      let spread = subst Distinct (addrs-append (ks ++ k ∷ []) (l ∷ ls)) whole in
      let (x1, x2) = apart ks k (l ∷ ls) d in
      let (x3, x4) = apart (ks ++ k ∷ []) l ls whole in
      let ne : m ≢ n = λ h. absurd (ground (arith, in_part m ks k (l ∷ ls) (h ∙ sym a), out)) in
      let there = in_part m (ks ++ k ∷ []) l ls in
      let ne2 : m ≢ y = λ h. absurd (
        ground (
          arith,
          subst (λ bs. has m (addrs bs) ≡ true) (append_assoc ks (k ∷ []) (l ∷ ls))
              (there (h ∙ at)),
          out,
        )) in
      let left_q =
        IsChain-lead N pins 0 c ks k n (pins n).next_node m left
          (Distinct-append-left (addrs (ks ++ k ∷ [])) (addrs (l ∷ ls)) spread) in
      let right_q =
        IsChain-upd N pins n (set_next (pins n) m) n (pins n).next_node (l ∷ ls) z 0 right
          (subst (λ x. has x (addrs (l ∷ ls)) ≡ false) a x2) in
      join_new r c (ks ++ k ∷ []) (l ∷ ls) z
        (upd-other q y (set_prev (q y) m) m ne2 ∙ upd-other pins n (set_next (pins n) m) m ne)
        (IsChain-upd N q y (set_prev (q y) m) 0 c (ks ++ k ∷ []) n m left_q
          (subst (λ x. has x (addrs (ks ++ k ∷ [])) ≡ false) (sym at) x3))
        (IsChain-set_start N q n m y l ls z 0
          (subst (λ x. IsChain N q n x (l ∷ ls) z 0) (sym e) right_q)
          (Distinct-append-right (addrs (ks ++ k ∷ [])) (addrs (l ∷ ls)) spread))
