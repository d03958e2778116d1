-- ===== src/Tree/Nodes.antt =====
-- The chain of pin nodes as one list of orders, and the order iterator over it.
pub mod Links
pub mod Drop
pub mod Erase
pub mod Orders
pub mod Slots
pub mod Replace
pub mod Relocate
pub mod Ripple
pub mod Fresh
pub mod Extend
pub mod Written
pub mod Passing
pub mod Room
pub mod Insert
pub mod After
pub mod Behind
pub mod Front
pub mod Owned
pub mod Place
use mathlib.Core.List.{append-nil}
use babo_matching_engine.Prelude.{
  ℕ, zero, suc, ◌+◌, ◌*◌, ◌≤◌, ◌≡◌, ◌≢◌, refl, sym, ◌∙◌, ap, subst, true, false, ◌&&◌, List, [],
  ◌∷◌, ◌++◌, map, length, length-append, Distinct, ◌==◌, if◌then◌else◌, arith,
}
use babo_matching_engine.Pin.{npos, PinNode}
use babo_matching_engine.Pin.Segment.{Seg}
use babo_matching_engine.Pin.Holds.{IsPin}
use babo_matching_engine.Tree.{Side, OrderLoc, loc, no_loc, same_loc}
use babo_matching_engine.Tree.Search.{global_next, orders_begin}
use babo_matching_engine.Tree.Walk.{Walk}

-- One node of the chain: its address, its occupied slots and its free slots.
pub record Block : Type 0 where
  pub addr : ℕ
  pub slots : List ℕ
  pub free : List ℕ

-- From node `c`, entered from `b`, the chain leads through these nodes, each well formed, to `e`;
-- `z` is the last node passed, or `b`.
abbrev pub IsChain : ℕ → (ℕ → PinNode) → ℕ → ℕ → List Block → ℕ → ℕ → Type 0
IsChain N pins b c [] z e = (c ≡ e) × (b ≡ z)
IsChain N pins b c (k ∷ ks) z e =
    (c ≡ k.addr)
    × (k.addr ≢ 0)
    × ((pins k.addr).prev_node ≡ b)
    × IsPin N (pins k.addr) (k.slots) k.free
    × IsChain N pins k.addr (pins k.addr).next_node ks z e

abbrev pub addrs : List Block → List ℕ
addrs [] = []
addrs (k ∷ ks) = k.addr ∷ addrs ks

-- No node is empty.
abbrev pub AllFilled : List Block → Type 0
AllFilled [] = Unit {0}
AllFilled (k ∷ ks) = (k.slots ≢ []) × AllFilled ks

-- The chain of a tree is well formed.
pub record HasChain (N : ℕ) (s : Side) (ks : List Block) : Type 0 where
  pub chain : IsChain N s.pins 0 s.chain_head ks s.chain_tail 0
  pub distinct : Distinct (addrs ks)
  pub filled : AllFilled ks

abbrev pub locs_in : ℕ → List ℕ → List OrderLoc
locs_in a [] = []
locs_in a (x ∷ xs) = loc a x ∷ locs_in a xs

-- The locations of the chain in priority order.
abbrev pub locs : List Block → List OrderLoc
locs [] = []
locs (k ∷ ks) = locs_in k.addr (k.slots) ++ locs ks

-- Where the iterator stands when it enters a node.
abbrev entry : Side → ℕ → OrderLoc
entry s a = if a == 0 then no_loc else loc a (s.pins a).head

next-inside :
    (s : Side) (a x y : ℕ)
    → (s.pins a).links_next x ≡ y
    → y ≢ npos
    → global_next s (loc a x) ≡ loc a y
unfolding global_next
next-inside s a x y e h = ground (arith, e)

next-outside :
    (s : Side) (a x : ℕ)
    → (s.pins a).links_next x ≡ npos
    → global_next s (loc a x) ≡ entry s (s.pins a).next_node
unfolding global_next
next-outside s a x e = ground (arith, e)

-- Through the slots of one node, and on with what follows it.
through_node-Walk :
    (s : Side) (a : ℕ) (b c x : ℕ) (xs : List ℕ) (z : ℕ) (rest : List OrderLoc)
    → a ≢ 0
    → Seg (s.pins a).links_next (s.pins a).links_prev b c (x ∷ xs) z npos
    → Walk s (entry s (s.pins a).next_node) rest
    → Walk s (loc a c) (locs_in a (x ∷ xs) ++ rest)
through_node-Walk s a b c x [] z rest h g w = (
  ap (loc a) g.0,
  ground (arith, h),
  subst (λ l. Walk s l rest) (sym (next-outside s a x g.3.0)) w,
)
through_node-Walk s a b c x (y ∷ xs) z rest h g w = (
  ap (loc a) g.0,
  ground (arith, h),
  subst (λ l. Walk s l (locs_in a (y ∷ xs) ++ rest))
      (sym (next-inside s a x ((s.pins a).links_next x) refl (ground (arith, g.3.0, g.3.1))))
      (through_node-Walk s a x ((s.pins a).links_next x) y xs z rest h g.3 w),
)

node-Walk :
    (s : Side) (a : ℕ) (xs : List ℕ) (rest : List OrderLoc)
    → a ≢ 0
    → xs ≢ []
    → Seg (s.pins a).links_next (s.pins a).links_prev npos (s.pins a).head xs (s.pins a).tail npos
    → Walk s (entry s (s.pins a).next_node) rest
    → Walk s (loc a (s.pins a).head) (locs_in a xs ++ rest)
node-Walk s a [] rest h f g w = absurd (f refl)
node-Walk s a (x ∷ xs) rest h f g w =
    through_node-Walk s a npos (s.pins a).head x xs (s.pins a).tail rest h g w

IsChain-Walk :
    (N : ℕ) (s : Side) (b c : ℕ) (ks : List Block) (z : ℕ)
    → IsChain N s.pins b c ks z 0
    → AllFilled ks
    → Walk s (entry s c) (locs ks)
IsChain-Walk N s b c [] z i f = ground (arith, i.0)
IsChain-Walk N s b c (k ∷ ks) z i f =
    let a = k.addr in
    let here : entry s c ≡ loc a (s.pins a).head = ground (arith, i.0, i.1) in
    subst (λ l. Walk s l (locs (k ∷ ks))) (sym here)
      (node-Walk s a k.slots (locs ks) i.1 f.0 i.3.chain
        (IsChain-Walk N s a (s.pins a).next_node ks z i.4 f.1))

-- On a well-formed chain the order iterator visits the orders node by node, in the order of each
-- node's list, and ends.
pub orders_begin-Walk :
    (N : ℕ) (s : Side) (ks : List Block) → HasChain N s ks → Walk s (orders_begin s) (locs ks)
unfolding orders_begin
orders_begin-Walk N s ks i = IsChain-Walk N s 0 s.chain_head ks s.chain_tail i.chain i.filled

pub length-locs_in : (a : ℕ) (xs : List ℕ) → length (locs_in a xs) ≡ length xs
length-locs_in a [] = refl
length-locs_in a (x ∷ xs) = omega (arith, length-locs_in a xs)

-- A chain of nodes with `N` slots holds at most `N` orders in each.
pub length-locs :
    (N : ℕ) (s : Side) (b c : ℕ) (ks : List Block) (z : ℕ)
    → IsChain N s.pins b c ks z 0
    → length (locs ks) ≤ length ks * N
length-locs N s b c [] z i = omega arith
length-locs N s b c (k ∷ ks) z i = omega (
  arith,
  length-append (locs_in k.addr (k.slots)) (locs ks),
  length-locs_in k.addr (k.slots),
  i.3.capacity,
  length-locs N s k.addr (s.pins k.addr).next_node ks z i.4,
)
