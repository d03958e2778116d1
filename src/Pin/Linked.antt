-- ===== src/Pin/Linked.antt =====
-- The three links of pin_node.h on a node with a loose slot.
use mathlib.Core.List.{append-nil, append_assoc}
use babo_matching_engine.Prelude.{
  ℕ, ◌≡◌, refl, sym, subst, ◌∙◌, ap, true, false, List, [], ◌∷◌, ◌++◌, arith, ◌==◌, upd, upd-same,
  has, has-append, length-append, Distinct-append, Distinct-append-left, Distinct-append-right,
  Distinct-append-apart,
}
use babo_matching_engine.Pin.{npos, PinNode, link_front, link_back, splice_after}
use babo_matching_engine.Pin.Segment.{Seg, Seg-last, Seg-cut_at, Seg-ne_npos}
use babo_matching_engine.Pin.Free.{FreeChain, FreeChain-upd}
use babo_matching_engine.Pin.Links.{Seg-front, Seg-splice_end, Seg-splice}
use babo_matching_engine.Pin.Holds.{IsPin, IsLoose}

-- A loose slot that has been linked between two parts of the list, by whatever writes.
inserted-IsPin :
    {N : ℕ} (p q : PinNode) (s : ℕ) (xs ys fs : List ℕ)
    → IsLoose N p s (xs ++ ys) fs
    → {next prev : ℕ → ℕ} {h t : ℕ} → Seg next prev npos h (xs ++ s ∷ ys) t npos
    → (q.links_next ≡ next) × (q.links_prev ≡ prev) × (q.head ≡ h) × (q.tail ≡ t)
    → FreeChain next q.free fs
    → q.size ≡ p.size
    → IsPin N q (xs ++ s ∷ ys) fs
inserted-IsPin p q s xs ys fs i chain same frees size = record {
  chain = rw (same.0, same.1, same.2, same.3) chain;
  frees = rw same.0 frees;
  distinct =
      Distinct-append xs (s ∷ ys) (Distinct-append-left xs ys i.distinct)
        (ground (arith, i.unlinked, has-append s xs ys), Distinct-append-right xs ys i.distinct)
        (λ a m.
          ground (arith, i.unlinked, has-append s xs ys, Distinct-append-apart a xs ys i.distinct));
  free_distinct = i.free_distinct;
  apart = λ a m. ground (arith, i.taken, i.apart a, has-append a xs ys, has-append a xs (s ∷ ys));
  count = omega (arith, size, i.count, length-append xs ys, length-append xs (s ∷ ys));
  capacity = omega (arith, i.capacity, length-append xs ys, length-append xs (s ∷ ys));
}

module _ {N : ℕ} (p : PinNode) (s : ℕ) where
  pub link_front-IsPin :
      (xs fs : List ℕ) → IsLoose N p s xs fs → IsPin N (link_front p s) (s ∷ xs) fs
  unfolding link_front
  link_front-IsPin [] fs i =
      let e : (p.head == npos) ≡ true = ground (arith, i.chain.0) in
      inserted-IsPin p (link_front p s) s [] [] fs i {next = upd p.links_next s p.head}
        {prev = upd p.links_prev s npos} {h = s} {t = s}
        (
          refl,
          i.valid,
          upd-same p.links_prev s npos,
          (upd-same p.links_next s p.head ∙ i.chain.0, refl),
        )
        (refl, rw e, refl, rw e) (FreeChain-upd p.links_next s p.head p.free fs i.frees i.taken)
        refl
  link_front-IsPin (x ∷ xs) fs i =
      let e : (p.head == npos) ≡ false = ground (arith, i.chain.0, i.chain.1) in
      inserted-IsPin p (link_front p s) s [] (x ∷ xs) fs i
        (Seg-front p.links_next p.links_prev s i.valid p.head x xs p.tail i.chain i.unlinked
          i.distinct)
        (refl, rw e, refl, rw e) (FreeChain-upd p.links_next s p.head p.free fs i.frees i.taken)
        refl

  -- The free list is not touched by writes at the loose slot and at a slot of the list.
  FreeChain-link :
      (xs fs : List ℕ) (n m : ℕ)
      → IsLoose N p s xs fs
      → has m xs ≡ true
      → FreeChain (upd (upd p.links_next s n) m s) p.free fs
  FreeChain-link xs fs n m i there =
      FreeChain-upd (upd p.links_next s n) m s p.free fs
        (FreeChain-upd p.links_next s n p.free fs i.frees i.taken) (ground (arith, i.apart m))

  pub link_back-IsPin :
      (xs fs : List ℕ) → IsLoose N p s xs fs → IsPin N (link_back p s) (xs ++ s ∷ []) fs
  unfolding link_back
  link_back-IsPin [] fs i =
      let e : (p.tail == npos) ≡ true = ground (arith, i.chain.1) in
      inserted-IsPin p (link_back p s) s [] [] fs i {next = upd p.links_next s npos}
        {prev = upd p.links_prev s p.tail} {h = s} {t = s}
        (
          refl,
          i.valid,
          upd-same p.links_prev s p.tail ∙ sym i.chain.1,
          (upd-same p.links_next s npos, refl),
        )
        (rw e, refl, rw e, refl) (FreeChain-upd p.links_next s npos p.free fs i.frees i.taken) refl
  link_back-IsPin (x ∷ xs) fs i =
      let there : has p.tail (x ∷ xs) ≡ true =
        Seg-last p.links_next p.links_prev npos p.head x xs p.tail npos i.chain in
      let e : (p.tail == npos) ≡ false = ground (
        arith,
        Seg-ne_npos p.links_next p.links_prev npos p.head (x ∷ xs) p.tail npos p.tail i.chain there,
      ) in
      inserted-IsPin p (link_back p s) s (x ∷ xs) [] fs
        (subst (λ l. IsLoose N p s l fs) (sym (append-nil (x ∷ xs))) i)
        (Seg-splice_end p.links_next p.links_prev s i.valid p.head x xs p.tail i.chain i.unlinked
          i.distinct)
        (rw e, refl, rw e, refl) (FreeChain-link (x ∷ xs) fs npos p.tail i there) refl

  splice-IsPin :
      (ref x : ℕ) (xs ys fs : List ℕ)
      → IsLoose N p s ((x ∷ xs) ++ ys) fs
      → Seg p.links_next p.links_prev npos p.head (x ∷ xs) ref (p.links_next ref)
      → Seg p.links_next p.links_prev ref (p.links_next ref) ys p.tail npos
      → has ref (x ∷ xs) ≡ true
      → IsPin N (splice_after p ref s) ((x ∷ xs) ++ s ∷ ys) fs
  unfolding splice_after
  splice-IsPin ref x xs [] fs i l r there =
      let e : (p.links_next ref == npos) ≡ true = ground (arith, r.0) in
      inserted-IsPin p (splice_after p ref s) s (x ∷ xs) [] fs i
        {next = upd (upd p.links_next s npos) ref s} {prev = upd p.links_prev s ref} {h = p.head}
        {t = s}
        (Seg-splice_end p.links_next p.links_prev s i.valid p.head x xs ref
          (subst (Seg p.links_next p.links_prev npos p.head (x ∷ xs) ref) r.0 l)
          (ground (arith, i.unlinked, has-append s (x ∷ xs) []))
          (Distinct-append-left (x ∷ xs) [] i.distinct))
        (ap (λ n. upd (upd p.links_next s n) ref s) r.0, rw e, refl, rw e)
        (FreeChain-link ((x ∷ xs) ++ []) fs npos ref i (ground (arith, has-append ref (x ∷ xs) [])))
        refl
  splice-IsPin ref x xs (y ∷ ys) fs i l r there =
      let n : ℕ = p.links_next ref in
      let e : (p.links_next ref == npos) ≡ false = ground (arith, r.0, r.1) in
      let apart : (a : ℕ) → has a (x ∷ xs) ≡ true → has a (y ∷ ys) ≡ false =
        λ a m. Distinct-append-apart a (x ∷ xs) (y ∷ ys) i.distinct m in
      inserted-IsPin p (splice_after p ref s) s (x ∷ xs) (y ∷ ys) fs i
        {next = upd (upd p.links_next s n) ref s} {prev = upd (upd p.links_prev s ref) n s}
        {h = p.head} {t = p.tail}
        (Seg-splice p.links_next p.links_prev s i.valid p.head x xs ref n y ys p.tail l r
          (ground (arith, i.unlinked, has-append s (x ∷ xs) (y ∷ ys)))
          (ground (arith, i.unlinked, has-append s (x ∷ xs) (y ∷ ys))) (apart ref there)
          (ground (arith, r.0, apart n)) (Distinct-append-left (x ∷ xs) (y ∷ ys) i.distinct)
          (Distinct-append-right (x ∷ xs) (y ∷ ys) i.distinct))
        (refl, rw e, refl, rw e)
        (FreeChain-link ((x ∷ xs) ++ y ∷ ys) fs n ref i
          (ground (arith, has-append ref (x ∷ xs) (y ∷ ys))))
        refl

  pub splice_after-IsPin :
      (ref : ℕ) (xs ys fs : List ℕ)
      → IsLoose N p s (xs ++ ref ∷ ys) fs
      → IsPin N (splice_after p ref s) (xs ++ ref ∷ s ∷ ys) fs
  splice_after-IsPin ref [] ys fs i =
      let (l, r) = Seg-cut_at p.links_next p.links_prev npos p.head [] ref ys p.tail npos i.chain in
      splice-IsPin ref ref [] ys fs i l r (ground arith)
  splice_after-IsPin ref (x ∷ xs) ys fs i =
      let (l, r) =
        Seg-cut_at p.links_next p.links_prev npos p.head (x ∷ xs) ref ys p.tail npos i.chain in
      subst (λ zs. IsPin N (splice_after p ref s) (x ∷ zs) fs) (append_assoc xs (ref ∷ []) (s ∷ ys))
        (splice-IsPin ref x (xs ++ ref ∷ []) ys fs
          (subst (λ zs. IsLoose N p s (x ∷ zs) fs) (sym (append_assoc xs (ref ∷ []) ys)) i) l r
          (ground (arith, has-append ref xs (ref ∷ []))))
