-- ===== src/Tree/Nodes/Orders.antt =====
-- The chain as a list of locations in priority order, whatever nodes they stand in.
use mathlib.Core.List.{append_assoc}
use babo_matching_engine.Prelude.{
  ℕ, ◌≡◌, refl, sym, ◌∙◌, ap, subst, some, List, [], ◌∷◌, ◌++◌, ◌⊎◌, inl, inr,
}
use babo_matching_engine.Tree.{Side, OrderLoc, loc, OrderType}
use babo_matching_engine.Tree.Erase.{erase_at, erase}
use babo_matching_engine.Tree.Nodes.{Block, HasChain, locs_in, locs}
use babo_matching_engine.Tree.Nodes.Erase.{erase_at-Leaves}

-- The pin nodes of the tree are a well-formed chain that holds the orders at these locations.
abbrev pub HasOrders : ℕ → Side → List OrderLoc → Type 0
HasOrders N s xs = (ks : List Block) × HasChain N s ks × (locs ks ≡ xs)

-- An element of a joined list stands in one of the parts.
append-split {ℓ} :
    {A : Type ℓ} (ms bs us : List A) (x : A) (vs : List A)
    → ms ++ bs ≡ us ++ x ∷ vs
    → ((ws : List A) × (ms ≡ us ++ x ∷ ws) × (vs ≡ ws ++ bs))
      ⊎ ((ws : List A) × (us ≡ ms ++ ws) × (bs ≡ ws ++ x ∷ vs))
append-split [] bs us x vs e = inr (us, refl, e)
append-split (a ∷ ms) bs [] x vs e = inl (ms, cc, cc)
append-split (a ∷ ms) bs (u ∷ us) x vs e = elim (append-split ms bs us x vs cc) [
  | inl (ws, p, q) ↦ inl (ws, cc, q)
  | inr (ws, p, q) ↦ inr (ws, cc, q)
]

locs_in-split :
    (a : ℕ) (xs : List ℕ) (us : List OrderLoc) (x : OrderLoc) (vs : List OrderLoc)
    → locs_in a xs ≡ us ++ x ∷ vs
    → (ps : List ℕ) × (t : ℕ) × (qs : List ℕ) × (xs ≡ ps ++ t ∷ qs)
      × (x ≡ loc a t)
      × (us ≡ locs_in a ps)
      × (vs ≡ locs_in a qs)
locs_in-split a [] [] x vs e = absurd cc
locs_in-split a [] (u ∷ us) x vs e = absurd cc
locs_in-split a (y ∷ xs) [] x vs e = ([], y, xs, refl, cc, refl, cc)
locs_in-split a (y ∷ xs) (u ∷ us) x vs e =
    let (ps, t, qs, p, q, r, o) = locs_in-split a xs us x vs cc in (y ∷ ps, t, qs, cc, q, cc, o)

-- Where a location of the list stands: the nodes and slots before it and behind it.
pub record Place (ks : List Block) (us : List OrderLoc) (x : OrderLoc) (vs : List OrderLoc)
    : Type 0 where
  pub before : List Block
  pub block : Block
  pub behind : List Block
  pub slots_before : List ℕ
  pub slot : ℕ
  pub slots_behind : List ℕ
  pub blocks_eq : ks ≡ before ++ block ∷ behind
  pub slots_eq : block.slots ≡ slots_before ++ slot ∷ slots_behind
  pub loc_eq : x ≡ loc block.addr slot
  pub us_eq : us ≡ locs before ++ locs_in block.addr slots_before
  pub vs_eq : vs ≡ locs_in block.addr slots_behind ++ locs behind

pub place :
    (ks : List Block) (us : List OrderLoc) (x : OrderLoc) (vs : List OrderLoc)
    → locs ks ≡ us ++ x ∷ vs
    → Place ks us x vs
place [] [] x vs e = absurd cc
place [] (u ∷ us) x vs e = absurd cc
place (k ∷ ks) us x vs e = elim (append-split (locs_in k.addr k.slots) (locs ks) us x vs e) [
  | inl (ws, p, q) ↦
      let (ps, t, qs, a, b, c, d) = locs_in-split k.addr k.slots us x ws p in
      record {
        before = [];
        block = k;
        behind = ks;
        slots_before = ps;
        slot = t;
        slots_behind = qs;
        blocks_eq = refl;
        slots_eq = a;
        loc_eq = b;
        us_eq = c;
        vs_eq = q ∙ ap (λ l. l ++ locs ks) d;
      }
  | inr (ws, p, q) ↦
      let r = place ks ws x vs q in
      record {
        before = k ∷ r.before;
        block = r.block;
        behind = r.behind;
        slots_before = r.slots_before;
        slot = r.slot;
        slots_behind = r.slots_behind;
        blocks_eq = ap (◌∷◌ k) r.blocks_eq;
        slots_eq = r.slots_eq;
        loc_eq = r.loc_eq;
        us_eq =
            p
            ∙ ap (◌++◌ (locs_in k.addr k.slots)) r.us_eq
            ∙ sym (
                append_assoc (locs_in k.addr k.slots) (locs r.before)
                  (locs_in r.block.addr r.slots_before));
        vs_eq = r.vs_eq;
      }
]

pub locs_in-append : (a : ℕ) (xs ys : List ℕ) → locs_in a (xs ++ ys) ≡ locs_in a xs ++ locs_in a ys
locs_in-append a [] ys = refl
locs_in-append a (x ∷ xs) ys = ap (◌∷◌ (loc a x)) (locs_in-append a xs ys)

join :
    (ks ls : List Block) (a : ℕ) (ps qs : List ℕ)
    → locs ks ++ (locs_in a (ps ++ qs) ++ locs ls)
      ≡ (locs ks ++ locs_in a ps) ++ (locs_in a qs ++ locs ls)
join ks ls a ps qs =
    ap (λ l. locs ks ++ (l ++ locs ls)) (locs_in-append a ps qs)
    ∙ ap (◌++◌ (locs ks)) (append_assoc (locs_in a ps) (locs_in a qs) (locs ls))
    ∙ sym (append_assoc (locs ks) (locs_in a ps) (locs_in a qs ++ locs ls))

-- Erasing the order at a location takes that location out of the list and keeps the order of the
-- others.
pub erase_at-HasOrders :
    (N : ℕ) (type : OrderType) (s : Side) (id : ℕ) (us : List OrderLoc) (x : OrderLoc)
    (vs : List OrderLoc)
    → HasOrders N s (us ++ x ∷ vs)
    → HasOrders N (erase_at type s id x) (us ++ vs)
erase_at-HasOrders N type s id us x vs (ks, i, e) =
    let r = place ks us x vs e in
    let (bs, j, eq) =
      erase_at-Leaves N type s id r.slot r.before r.block r.behind r.slots_before r.slots_behind
        (subst (HasChain N s) r.blocks_eq i) r.slots_eq in
    (
      bs,
      subst (λ l. HasChain N (erase_at type s id l) bs) (sym r.loc_eq) j,
      eq
          ∙ join r.before r.behind r.block.addr r.slots_before r.slots_behind
          ∙ ap (λ l. l ++ (locs_in r.block.addr r.slots_behind ++ locs r.behind)) (sym r.us_eq)
          ∙ ap (◌++◌ us) (sym r.vs_eq),
    )

-- When the pin nodes of a tree form a well-formed chain with the orders at a list of locations
-- and the index leads an id to one of them, erasing the id leaves a well-formed chain with the
-- same list without that location: an emptied node leaves the chain.
pub erase-HasOrders :
    (N : ℕ) (type : OrderType) (s : Side) (id : ℕ) (us : List OrderLoc) (x : OrderLoc)
    (vs : List OrderLoc)
    → HasOrders N s (us ++ x ∷ vs)
    → s.order_index id ≡ some x
    → HasOrders N (erase type s id) (us ++ vs)
unfolding erase
erase-HasOrders N type s id us x vs h e = rw (e, erase) (erase_at-HasOrders N type s id us x vs h)
