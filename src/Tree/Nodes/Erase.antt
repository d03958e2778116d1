-- ===== src/Tree/Nodes/Erase.antt =====
-- `erase_at` on the chain of pin nodes.
use mathlib.Core.List.{append_assoc}
use babo_matching_engine.Prelude.{
  ℕ, ◌≡◌, ◌≢◌, refl, sym, ◌∙◌, ap, subst, Bool, true, false, none, List, [], ◌∷◌, ◌++◌, upd,
  upd-same, has, Distinct, Distinct-append, Distinct-append-left, Distinct-append-right,
  Distinct-append-apart, ◌==◌, if◌then◌else◌, arith, Bool-cases, inl, inr,
}
use babo_matching_engine.Pin
use babo_matching_engine.Pin.{PinNode}
use babo_matching_engine.Pin.Holds.{IsPin}
use babo_matching_engine.Pin.Erase.{erase-IsPin}
use babo_matching_engine.Tree.{Side, loc, OrderType, order_at, write_pin, write_level}
use babo_matching_engine.Tree.Erase.{erase_level, drop_pin, leave_level, erase_at}
use babo_matching_engine.Tree.Frame.{Keeps}
use babo_matching_engine.Tree.Stable.{erase_level-Keeps}
use babo_matching_engine.Tree.Nodes.{Block, IsChain, addrs, AllFilled, HasChain, locs_in, locs}
use babo_matching_engine.Tree.Nodes.Links.{IsChain-upd, IsChain-append, IsChain-cut}
use babo_matching_engine.Tree.Nodes.Drop.{drop_pin-ChainOf}

pub addrs-append : (ks ls : List Block) → addrs (ks ++ ls) ≡ addrs ks ++ addrs ls
addrs-append [] ls = refl
addrs-append (k ∷ ks) ls = ap (◌∷◌ k.addr) (addrs-append ks ls)

pub locs-append : (ks ls : List Block) → locs (ks ++ ls) ≡ locs ks ++ locs ls
locs-append [] ls = refl
locs-append (k ∷ ks) ls =
    ap (◌++◌ (locs_in k.addr k.slots)) (locs-append ks ls)
    ∙ sym (append_assoc (locs_in k.addr k.slots) (locs ks) (locs ls))

pub AllFilled-append : (ks ls : List Block) → AllFilled ks → AllFilled ls → AllFilled (ks ++ ls)
AllFilled-append [] ls f g = g
AllFilled-append (k ∷ ks) ls f g = (f.0, AllFilled-append ks ls f.1 g)

pub AllFilled-cut : (ks ls : List Block) → AllFilled (ks ++ ls) → AllFilled ks × AllFilled ls
AllFilled-cut [] ls f = (tt, f)
AllFilled-cut (k ∷ ks) ls f = let (l, r) = AllFilled-cut ks ls f.1 in ((f.0, l), r)

-- A chain whose orders are those of `ks`, then these slots of the node `a`, then those of `ls`.
abbrev pub Leaves : ℕ → Side → List Block → ℕ → List ℕ → List Block → Type 0
Leaves N s ks a slots ls =
    (bs : List Block) × HasChain N s bs × (locs bs ≡ locs ks ++ (locs_in a slots ++ locs ls))

pub HasChain-Keeps :
    (N : ℕ) (s t : Side) (ks : List Block) → HasChain N s ks → Keeps s t → HasChain N t ks
HasChain-Keeps N s t ks i k = record {
  chain = rw (k.pins, k.chain_head, k.chain_tail) i.chain;
  distinct = i.distinct;
  filled = i.filled;
}

-- The node that lost a slot stays in the chain, or leaves it when it is empty.
settle :
    (N : ℕ) (u : Side) (a : ℕ) (slots free : List ℕ) (ks ls : List Block)
    → IsChain N u.pins 0 u.chain_head ks (u.pins a).prev_node a
    → a ≢ 0
    → IsPin N (u.pins a) slots free
    → IsChain N u.pins a (u.pins a).next_node ls u.chain_tail 0
    → Distinct (addrs ks ++ a ∷ addrs ls)
    → AllFilled ks
    → AllFilled ls
    → Leaves N (if Pin.empty (u.pins a) then drop_pin u a else u) ks a slots ls
unfolding Pin.empty
settle N u a [] free ks ls i h p j d f g =
    let e : ((u.pins a).size == 0) ≡ true = ground (arith, p.count) in
    let right = Distinct-append-right (addrs ks) (a ∷ addrs ls) d in
    subst (λ c. Leaves N (if c then drop_pin u a else u) ks a [] ls) (sym e)
      (
        ks ++ ls,
        record {
          chain =
              drop_pin-ChainOf N u a ks ls i j (Distinct-append-left (addrs ks) (a ∷ addrs ls) d)
                right.1
                (λ x m. ground (arith, Distinct-append-apart x (addrs ks) (a ∷ addrs ls) d m));
          distinct = subst Distinct (sym (addrs-append ks ls)) (
              Distinct-append (addrs ks) (addrs ls)
                (Distinct-append-left (addrs ks) (a ∷ addrs ls) d) right.1
                (λ x m. ground (arith, Distinct-append-apart x (addrs ks) (a ∷ addrs ls) d m)));
          filled = AllFilled-append ks ls f g;
        },
        locs-append ks ls,
      )
settle N u a (x ∷ xs) free ks ls i h p j d f g =
    let e : ((u.pins a).size == 0) ≡ false = ground (arith, p.count) in
    let k : Block = record { addr = a; slots = x ∷ xs; free = free } in
    subst (λ c. Leaves N (if c then drop_pin u a else u) ks a (x ∷ xs) ls) (sym e)
      (
        ks ++ k ∷ ls,
        record {
          chain =
              IsChain-append N u.pins 0 u.chain_head ks (u.pins a).prev_node a (k ∷ ls) u.chain_tail
                0 i (refl, h, refl, p, j);
          distinct = subst Distinct (sym (addrs-append ks (k ∷ ls))) d;
          filled = AllFilled-append ks (k ∷ ls) f ((λ e. absurd cc), g);
        },
        locs-append ks (k ∷ ls),
      )

-- The chain after the slot has been given back, while its node may be empty.
opened :
    (N : ℕ) (s : Side) (n : PinNode) (ks : List Block) (k : Block) (ls : List Block)
    → HasChain N s (ks ++ k ∷ ls)
    → n.prev_node ≡ (s.pins k.addr).prev_node
    → n.next_node ≡ (s.pins k.addr).next_node
    → let pins = upd s.pins k.addr n in
      IsChain N pins 0 s.chain_head ks (pins k.addr).prev_node k.addr
      × IsChain N pins k.addr (pins k.addr).next_node ls s.chain_tail 0
      × (k.addr ≢ 0)
      × IsPin N (s.pins k.addr) k.slots k.free
opened N s n ks k ls i p q =
    let a = k.addr in
    let d = subst Distinct (addrs-append ks (k ∷ ls)) i.distinct in
    let (m, c, l, r) = IsChain-cut N s.pins 0 s.chain_head ks (k ∷ ls) s.chain_tail 0 i.chain in
    let out : has a (addrs ks) ≡ false = elim (Bool-cases (has a (addrs ks))) [
      | inl h ↦ absurd (ground (arith, Distinct-append-apart a (addrs ks) (a ∷ addrs ls) d h))
      | inr h ↦ h
    ] in
    let left = subst (IsChain N s.pins 0 s.chain_head ks m) r.0 l in
    let pins = upd s.pins a n in
    let back : (pins a).prev_node ≡ m =
      ap (λ (x : PinNode). x.prev_node) (upd-same s.pins a n) ∙ p ∙ r.2 in
    let on : (pins a).next_node ≡ (s.pins a).next_node =
      ap (λ (x : PinNode). x.next_node) (upd-same s.pins a n) ∙ q in
    (
      subst (λ b. IsChain N pins 0 s.chain_head ks b a) (sym back)
          (IsChain-upd N s.pins a n 0 s.chain_head ks m a left out),
      subst (λ c. IsChain N pins a c ls s.chain_tail 0) (sym on)
          (IsChain-upd N s.pins a n a (s.pins a).next_node ls s.chain_tail 0 r.4
            (Distinct-append-right (addrs ks) (a ∷ addrs ls) d).0),
      r.1,
      r.3,
    )

Leaves-level :
    (N : ℕ) (type : OrderType) (s : Side) (level : ℕ) (b : Bool) (ks : List Block) (a : ℕ)
    (slots : List ℕ) (ls : List Block)
    → Leaves N s ks a slots ls
    → Leaves N (if b then erase_level type s level else s) ks a slots ls
Leaves-level N type s level true ks a slots ls (bs, i, e) =
    (bs, HasChain-Keeps N s (erase_level type s level) bs i (erase_level-Keeps type s level), e)
Leaves-level N type s level false ks a slots ls l = l

pub erase-links :
    (n : PinNode) (t : ℕ)
    → ((Pin.erase n t).prev_node ≡ n.prev_node) × ((Pin.erase n t).next_node ≡ n.next_node)
unfolding Pin.erase Pin.unlink Pin.free_slot
erase-links n t = (refl, refl)

-- The order in slot `t` of the node `k`, between the slots `us` and `vs`, is erased: its location
-- leaves the list, and every other location stays in its place.
pub erase_at-Leaves :
    (N : ℕ) (type : OrderType) (s : Side) (id t : ℕ) (ks : List Block) (k : Block) (ls : List Block)
    (us vs : List ℕ)
    → HasChain N s (ks ++ k ∷ ls)
    → k.slots ≡ us ++ t ∷ vs
    → Leaves N (erase_at type s id (loc k.addr t)) ks k.addr (us ++ vs) ls
unfolding erase_at
erase_at-Leaves N type s id t ks k ls us vs i e =
    let a = k.addr in
    let at = loc a t in
    let level = (order_at s at).level in
    let s2 =
      write_level (record s { order_index = upd s.order_index id none }) level
        (leave_level (record s { order_index = upd s.order_index id none }) (s.levels level) at) in
    let n = Pin.erase (s.pins a) t in
    let u = write_pin s2 a n in
    let links = erase-links (s.pins a) t in
    let (left, right, there, pin) = opened N s n ks k ls i links.0 links.1 in
    let shrunk =
      (erase-IsPin (s.pins a) t us vs k.free (subst (λ l. IsPin N (s.pins a) l k.free) e pin)).0 in
    Leaves-level N type (if Pin.empty (u.pins a) then drop_pin u a else u) level _ ks a (us ++ vs)
      ls
      (settle N u a (us ++ vs) (t ∷ k.free) ks ls left there
        (subst (λ m. IsPin N m (us ++ vs) (t ∷ k.free)) (sym (upd-same s.pins a n)) shrunk) right
        (subst Distinct (addrs-append ks (k ∷ ls)) i.distinct)
        (AllFilled-cut ks (k ∷ ls) i.filled).0 (AllFilled-cut ks (k ∷ ls) i.filled).1.1)
