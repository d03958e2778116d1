-- ===== src/Tree/Nodes/Links.antt =====
-- Writes to the nodes of a chain: what they keep, and how they redirect its ends.
use babo_matching_engine.Prelude.{
  ℕ, ◌≡◌, ◌≢◌, refl, sym, ◌∙◌, subst, true, false, List, [], ◌∷◌, ◌++◌, upd, upd-same, upd-other,
  has, Distinct, arith,
}
use babo_matching_engine.Pin.{PinNode}
use babo_matching_engine.Pin.Holds.{IsPin}
use babo_matching_engine.Tree.Nodes.{Block, IsChain, addrs}

abbrev pub set_next : PinNode → ℕ → PinNode
set_next n v = record n { next_node = v }

abbrev pub set_prev : PinNode → ℕ → PinNode
set_prev n v = record n { prev_node = v }

pub set_next-IsPin :
    (N : ℕ) (n : PinNode) (v : ℕ) (xs fs : List ℕ) → IsPin N n xs fs → IsPin N (set_next n v) xs fs
set_next-IsPin N n v xs fs i = record {
  chain = i.chain;
  frees = i.frees;
  distinct = i.distinct;
  free_distinct = i.free_distinct;
  apart = i.apart;
  count = i.count;
  capacity = i.capacity;
}

pub set_prev-IsPin :
    (N : ℕ) (n : PinNode) (v : ℕ) (xs fs : List ℕ) → IsPin N n xs fs → IsPin N (set_prev n v) xs fs
set_prev-IsPin N n v xs fs i = record {
  chain = i.chain;
  frees = i.frees;
  distinct = i.distinct;
  free_distinct = i.free_distinct;
  apart = i.apart;
  count = i.count;
  capacity = i.capacity;
}

module _ (N : ℕ) (pins : ℕ → PinNode) where
  -- A write to a node outside the chain.
  pub IsChain-upd :
      (a : ℕ) (n : PinNode) (b c : ℕ) (ks : List Block) (z e : ℕ)
      → IsChain N pins b c ks z e
      → has a (addrs ks) ≡ false
      → IsChain N (upd pins a n) b c ks z e
  IsChain-upd a n b c [] z e i out = i
  IsChain-upd a n b c (k ∷ ks) z e i out =
      let same : upd pins a n k.addr ≡ pins k.addr = upd-other pins a n k.addr (ground arith) in
      (
        i.0,
        i.1,
        rw same i.2,
        rw same i.3,
        rw same (IsChain-upd a n k.addr (pins k.addr).next_node ks z e i.4 (ground arith)),
      )

  pub IsChain-append :
      (b c : ℕ) (ks : List Block) (m d : ℕ) (ls : List Block) (z e : ℕ)
      → IsChain N pins b c ks m d
      → IsChain N pins m d ls z e
      → IsChain N pins b c (ks ++ ls) z e
  IsChain-append b c [] m d ls z e i j = rw (i.0, i.1) j
  IsChain-append b c (k ∷ ks) m d ls z e i j =
      (i.0, i.1, i.2, i.3, IsChain-append k.addr (pins k.addr).next_node ks m d ls z e i.4 j)

  pub IsChain-cut :
      (b c : ℕ) (ks ls : List Block) (z e : ℕ)
      → IsChain N pins b c (ks ++ ls) z e
      → (m : ℕ) × (d : ℕ) × IsChain N pins b c ks m d × IsChain N pins m d ls z e
  IsChain-cut b c [] ls z e i = (b, c, (refl, refl), i)
  IsChain-cut b c (k ∷ ks) ls z e i =
      let (m, d, l, r) = IsChain-cut k.addr (pins k.addr).next_node ks ls z e i.4 in
      (m, d, (i.0, i.1, i.2, i.3, l), r)

  -- The last node of a nonempty chain is one of its nodes.
  pub IsChain-last :
      (b c : ℕ) (k : Block) (ks : List Block) (z e : ℕ)
      → IsChain N pins b c (k ∷ ks) z e
      → (has z (addrs (k ∷ ks)) ≡ true) × (z ≢ 0)
  IsChain-last b c k [] z e i = (ground (arith, i.4.1), λ h. i.1 (i.4.1 ∙ h))
  IsChain-last b c k (l ∷ ks) z e i =
      let r = IsChain-last k.addr (pins k.addr).next_node l ks z e i.4 in (ground (arith, r.0), r.1)

  -- The end of a nonempty chain is redirected by a write to its last node.
  pub IsChain-set_end :
      (b c : ℕ) (k : Block) (ks : List Block) (z e v : ℕ)
      → IsChain N pins b c (k ∷ ks) z e
      → Distinct (addrs (k ∷ ks))
      → IsChain N (upd pins z (set_next (pins z) v)) b c (k ∷ ks) z v
  IsChain-set_end b c k [] z e v i d =
      subst (λ a. IsChain N (upd pins a (set_next (pins a) v)) b c (k ∷ []) a v) i.4.1
        (
          i.0,
          i.1,
          rw (upd-same pins k.addr (set_next (pins k.addr) v)) i.2,
          rw (upd-same pins k.addr (set_next (pins k.addr) v))
              (set_next-IsPin N (pins k.addr) v k.slots k.free i.3),
          (rw (upd-same pins k.addr (set_next (pins k.addr) v)) refl, refl),
        )
  IsChain-set_end b c k (l ∷ ks) z e v i d =
      let there = IsChain-last k.addr (pins k.addr).next_node l ks z e i.4 in
      let same : upd pins z (set_next (pins z) v) k.addr ≡ pins k.addr =
        upd-other pins z (set_next (pins z) v) k.addr (ground (arith, there.0, d.0)) in
      (
        i.0,
        i.1,
        rw same i.2,
        rw same i.3,
        rw same (IsChain-set_end k.addr (pins k.addr).next_node l ks z e v i.4 d.1),
      )

  -- The entry of a nonempty chain is redirected by a write to its first node.
  pub IsChain-set_start :
      (b v c : ℕ) (k : Block) (ks : List Block) (z e : ℕ)
      → IsChain N pins b c (k ∷ ks) z e
      → Distinct (addrs (k ∷ ks))
      → IsChain N (upd pins c (set_prev (pins c) v)) v c (k ∷ ks) z e
  IsChain-set_start b v c k ks z e i d =
      subst (λ a. IsChain N (upd pins a (set_prev (pins a) v)) v a (k ∷ ks) z e) (sym i.0)
        (
          refl,
          i.1,
          rw (upd-same pins k.addr (set_prev (pins k.addr) v)) refl,
          rw (upd-same pins k.addr (set_prev (pins k.addr) v))
              (set_prev-IsPin N (pins k.addr) v k.slots k.free i.3),
          rw (upd-same pins k.addr (set_prev (pins k.addr) v)) (
              (IsChain-upd k.addr (set_prev (pins k.addr) v) k.addr (pins k.addr).next_node ks z e
                i.4 d.0)),
        )
