-- ===== src/Tree/Nodes/Insert.antt =====
-- A write of an order into a slot of a node of the chain.
use mathlib.Core.List.{append_assoc, map-append}
use babo_matching_engine.Prelude.{
  ℕ, ◌+◌, ◌≡◌, ◌≢◌, refl, sym, ◌∙◌, ap, subst, List, [], ◌∷◌, ◌++◌, length, length-append, take,
  drop, Distinct, arith,
}
use babo_matching_engine.Order.{SimpleOrder}
use babo_matching_engine.Pin.{PinNode}
use babo_matching_engine.Pin.Holds.{orders}
use babo_matching_engine.Pin.Insert.{Inserts}
use babo_matching_engine.Tree.{Side, OrderLoc, loc, write_pin}
use babo_matching_engine.Tree.Nodes.{Block, HasChain, locs_in, locs, length-locs_in}
use babo_matching_engine.Tree.Nodes.Replace.{
  reslot, view, view-append, addrs-reslot, IsChain-reslot, view-reslot,
}
use babo_matching_engine.Tree.Nodes.Erase.{locs-append, AllFilled-append}
use babo_matching_engine.Tree.Nodes.Orders.{locs_in-append}
use babo_matching_engine.Tree.Nodes.Relocate.{Open}

-- The state `t` holds the orders `v` and, at place `p` of them, the new order `o`; the location `x`
-- is the one that the chain has at this place.
pub record Placed (N : ℕ) (v : List SimpleOrder) (p : ℕ) (o : SimpleOrder) (x : OrderLoc) (t : Side)
    : Type 0 where
  pub blocks : List Block
  pub chain : HasChain N t blocks
  pub view_eq : view t.pins blocks ≡ take p v ++ o ∷ drop p v
  pub before : List OrderLoc
  pub behind : List OrderLoc
  pub locs_eq : locs blocks ≡ before ++ x ∷ behind
  pub place_eq : length before ≡ p

-- The number of orders.
abbrev pub count : List Block → ℕ
count [] = 0
count (k ∷ ks) = length k.slots + count ks

pub count-append : (ks ls : List Block) → count (ks ++ ls) ≡ count ks + count ls
count-append [] ls = omega arith
count-append (k ∷ ks) ls = omega (arith, count-append ks ls)

length-orders : (p : PinNode) (xs : List ℕ) → length (orders p xs) ≡ length xs
length-orders p [] = refl
length-orders p (x ∷ xs) = omega (arith, length-orders p xs)

length-view : (pins : ℕ → PinNode) (ks : List Block) → length (view pins ks) ≡ count ks
length-view pins [] = refl
length-view pins (k ∷ ks) = omega (
  arith,
  length-append (orders (pins k.addr) k.slots) (view pins ks),
  length-orders (pins k.addr) k.slots,
  length-view pins ks,
)

pub length-locs_count : (ks : List Block) → length (locs ks) ≡ count ks
length-locs_count [] = refl
length-locs_count (k ∷ ks) = omega (
  arith,
  length-append (locs_in k.addr k.slots) (locs ks),
  length-locs_in k.addr k.slots,
  length-locs_count ks,
)

take-length {ℓ} : {A : Type ℓ} (xs ys : List A) → take (length xs) (xs ++ ys) ≡ xs
take-length [] ys = refl
take-length (x ∷ xs) ys = ap (◌∷◌ x) (take-length xs ys)

drop-length {ℓ} : {A : Type ℓ} (xs ys : List A) → drop (length xs) (xs ++ ys) ≡ ys
drop-length [] ys = refl
drop-length (x ∷ xs) ys = drop-length xs ys

insert_at {ℓ} :
    {A : Type ℓ} (xs : List A) (o : A) (ys : List A) (n : ℕ)
    → length xs ≡ n
    → xs ++ o ∷ ys ≡ take n (xs ++ ys) ++ o ∷ drop n (xs ++ ys)
insert_at xs o ys n e =
    subst (λ m. xs ++ o ∷ ys ≡ take m (xs ++ ys) ++ o ∷ drop m (xs ++ ys)) e
      (sym (rw (take-length xs ys, drop-length xs ys) refl))

regroup {ℓ} :
    {A : Type ℓ} (us xs ys vs : List A) → us ++ ((xs ++ ys) ++ vs) ≡ (us ++ xs) ++ (ys ++ vs)
regroup us xs ys vs = ap (◌++◌ us) (append_assoc xs ys vs) ∙ sym (append_assoc us xs (ys ++ vs))

has_middle : (xs : List ℕ) (s : ℕ) (ys : List ℕ) → xs ++ s ∷ ys ≢ []
has_middle [] s ys e = absurd cc
has_middle (x ∷ xs) s ys e = absurd cc

module _ (N : ℕ) (s : Side) (ks : List Block) (k : Block) (ls : List Block) (o : SimpleOrder)
    (f : ℕ) (xs ys fs : List ℕ) where
  -- The list of orders before the insertion and after it.
  insert_view :
      (n : PinNode)
      → k.slots ≡ xs ++ ys
      → orders n (xs ++ f ∷ ys) ≡ orders (s.pins k.addr) xs ++ o ∷ orders (s.pins k.addr) ys
      → view s.pins ks ++ (orders n (xs ++ f ∷ ys) ++ view s.pins ls)
        ≡ take (count ks + length xs) (view s.pins (ks ++ k ∷ ls))
          ++ o ∷ drop (count ks + length xs) (view s.pins (ks ++ k ∷ ls))
  insert_view n e h =
      let p = s.pins k.addr in
      let v = view s.pins ks in
      let w = view s.pins ls in
      let m = count ks + length xs in
      let old : (v ++ orders p xs) ++ (orders p ys ++ w) ≡ view s.pins (ks ++ k ∷ ls) =
        sym (regroup v (orders p xs) (orders p ys) w)
        ∙ ap (λ l. v ++ (l ++ w)) (sym (ap (orders p) e ∙ map-append p.slots xs ys))
        ∙ sym (view-append s.pins ks (k ∷ ls)) in
      ap (λ l. v ++ (l ++ w)) h
      ∙ regroup v (orders p xs) (o ∷ orders p ys) w
      ∙ insert_at (v ++ orders p xs) o (orders p ys ++ w) m
          (omega (arith, length-append v (orders p xs), length-orders p xs, length-view s.pins ks))
      ∙ ap (λ l. take m l ++ o ∷ drop m l) old

  -- An insertion into the node `k`, between its slots `xs` and `ys`.
  pub into_block :
      (r : ℕ × PinNode)
      → Open N s ks k ls
      → k.slots ≡ xs ++ ys
      → Inserts N (s.pins k.addr) o f xs ys fs r
      → r.1.prev_node ≡ (s.pins k.addr).prev_node
      → r.1.next_node ≡ (s.pins k.addr).next_node
      → Placed N
          (view s.pins (ks ++ k ∷ ls))
          (count ks + length xs)
          o
          (loc k.addr r.0)
          (write_pin s k.addr r.1)
  into_block r c e i p q =
      let a = k.addr in
      let zs = xs ++ f ∷ ys in
      record {
        blocks = ks ++ reslot k zs fs ∷ ls;
        chain = record {
          chain =
              IsChain-reslot N s.pins r.1 0 s.chain_head ks k ls s.chain_tail 0 zs fs c.chain
                c.distinct p q i.is_pin;
          distinct = subst Distinct (sym (addrs-reslot ks k ls zs fs)) c.distinct;
          filled =
              AllFilled-append ks (reslot k zs fs ∷ ls) c.filled_before
                (has_middle xs f ys, c.filled_behind);
        };
        view_eq = view-reslot s.pins r.1 ks k ls zs fs c.distinct ∙ insert_view r.1 e i.view;
        before = locs ks ++ locs_in a xs;
        behind = locs_in a ys ++ locs ls;
        locs_eq =
            locs-append ks (reslot k zs fs ∷ ls)
            ∙ ap (λ l. locs ks ++ (l ++ locs ls)) (locs_in-append a xs (f ∷ ys))
            ∙ regroup (locs ks) (locs_in a xs) (loc a f ∷ locs_in a ys) (locs ls)
            ∙ ap (λ t. (locs ks ++ locs_in a xs) ++ loc a t ∷ (locs_in a ys ++ locs ls))
                (sym i.slot);
        place_eq = omega (
          arith,
          length-append (locs ks) (locs_in a xs),
          length-locs_count ks,
          length-locs_in a xs,
        );
      }
