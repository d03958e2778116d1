-- ===== src/Tree/Nodes/Replace.antt =====
-- A chain whose nodes change their slots, and the list of its orders.
use mathlib.Core.List.{append_assoc}
use babo_matching_engine.Prelude.{
  ℕ, ◌≡◌, refl, sym, ◌∙◌, ap, subst, false, List, [], ◌∷◌, ◌++◌, upd, upd-same, upd-other, has,
  has-append, Distinct, arith,
}
use babo_matching_engine.Order.{SimpleOrder}
use babo_matching_engine.Pin.{PinNode}
use babo_matching_engine.Pin.Holds.{IsPin, orders}
use babo_matching_engine.Tree.Nodes.{Block, IsChain, addrs}
use babo_matching_engine.Tree.Nodes.Links.{IsChain-upd}
use babo_matching_engine.Tree.Nodes.Erase.{addrs-append}

-- The node with other slots.
abbrev pub reslot : Block → List ℕ → List ℕ → Block
reslot k xs fs = record { addr = k.addr; slots = xs; free = fs }

-- The orders of the chain, in priority order.
abbrev pub view : (ℕ → PinNode) → List Block → List SimpleOrder
view pins [] = []
view pins (k ∷ ks) = orders (pins k.addr) k.slots ++ view pins ks

pub view-append :
    (pins : ℕ → PinNode) (ks ls : List Block) → view pins (ks ++ ls) ≡ view pins ks ++ view pins ls
view-append pins [] ls = refl
view-append pins (k ∷ ks) ls =
    ap (◌++◌ (orders (pins k.addr) k.slots)) (view-append pins ks ls)
    ∙ sym (append_assoc (orders (pins k.addr) k.slots) (view pins ks) (view pins ls))

pub view-upd :
    (pins : ℕ → PinNode) (a : ℕ) (n : PinNode) (ks : List Block)
    → has a (addrs ks) ≡ false
    → view (upd pins a n) ks ≡ view pins ks
view-upd pins a n [] out = refl
view-upd pins a n (k ∷ ks) out =
    let same : upd pins a n k.addr ≡ pins k.addr =
      upd-other pins a n k.addr (ground (arith, out)) in
    rw (same, view-upd pins a n ks (ground (arith, out))) refl

-- What stands before a node of a chain of distinct nodes, and behind it, does not have its address.
pub apart :
    (ks : List Block) (k : Block) (ls : List Block)
    → Distinct (addrs (ks ++ k ∷ ls))
    → (has k.addr (addrs ks) ≡ false) × (has k.addr (addrs ls) ≡ false)
apart [] k ls d = (refl, d.0)
apart (j ∷ ks) k ls d =
    let (x, y) = apart ks k ls d.1 in
    let there : has j.addr (addrs ks ++ k.addr ∷ addrs ls) ≡ false =
      subst (λ xs. has j.addr xs ≡ false) (addrs-append ks (k ∷ ls)) d.0 in
    (ground (arith, has-append j.addr (addrs ks) (k.addr ∷ addrs ls), there, x), y)

pub addrs-reslot :
    (ks : List Block) (k : Block) (ls : List Block) (xs fs : List ℕ)
    → addrs (ks ++ reslot k xs fs ∷ ls) ≡ addrs (ks ++ k ∷ ls)
addrs-reslot [] k ls xs fs = refl
addrs-reslot (j ∷ ks) k ls xs fs = ap (◌∷◌ j.addr) (addrs-reslot ks k ls xs fs)

-- The node gets other slots and keeps its links.
pub IsChain-reslot :
    (N : ℕ) (pins : ℕ → PinNode) (n : PinNode) (b c : ℕ) (ks : List Block) (k : Block)
    (ls : List Block) (z e : ℕ) (xs fs : List ℕ)
    → IsChain N pins b c (ks ++ k ∷ ls) z e
    → Distinct (addrs (ks ++ k ∷ ls))
    → n.prev_node ≡ (pins k.addr).prev_node
    → n.next_node ≡ (pins k.addr).next_node
    → IsPin N n xs fs
    → IsChain N (upd pins k.addr n) b c (ks ++ reslot k xs fs ∷ ls) z e
IsChain-reslot N pins n b c [] k ls z e xs fs i d p q h =
    let here = upd-same pins k.addr n in
    (
      i.0,
      i.1,
      ap (λ (m : PinNode). m.prev_node) here ∙ p ∙ i.2,
      subst (λ m. IsPin N m xs fs) (sym here) h,
      subst (λ t. IsChain N (upd pins k.addr n) k.addr t ls z e)
          (sym (ap (λ (m : PinNode). m.next_node) here ∙ q))
          (IsChain-upd N pins k.addr n k.addr (pins k.addr).next_node ls z e i.4 d.0),
    )
IsChain-reslot N pins n b c (j ∷ ks) k ls z e xs fs i d p q h =
    let there : has j.addr (addrs ks ++ k.addr ∷ addrs ls) ≡ false =
      subst (λ ys. has j.addr ys ≡ false) (addrs-append ks (k ∷ ls)) d.0 in
    let same : upd pins k.addr n j.addr ≡ pins j.addr =
      upd-other pins k.addr n j.addr
        (ground (arith, has-append j.addr (addrs ks) (k.addr ∷ addrs ls), there)) in
    (
      i.0,
      i.1,
      rw same i.2,
      rw same i.3,
      rw same
          (IsChain-reslot N pins n j.addr (pins j.addr).next_node ks k ls z e xs fs i.4 d.1 p q h),
    )

pub view-reslot :
    (pins : ℕ → PinNode) (n : PinNode) (ks : List Block) (k : Block) (ls : List Block)
    (xs fs : List ℕ)
    → Distinct (addrs (ks ++ k ∷ ls))
    → view (upd pins k.addr n) (ks ++ reslot k xs fs ∷ ls)
      ≡ view pins ks ++ (orders n xs ++ view pins ls)
view-reslot pins n ks k ls xs fs d =
    let (x, y) = apart ks k ls d in
    view-append (upd pins k.addr n) ks (reslot k xs fs ∷ ls)
    ∙ rw (view-upd pins k.addr n ks x, view-upd pins k.addr n ls y, upd-same pins k.addr n) refl
