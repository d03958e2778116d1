-- ===== src/Pin/Erase.antt =====
-- `erase` of pin_node.h on the list of a node.
use mathlib.Core.List.{append-nil, map-append}
use babo_matching_engine.Prelude.{
  ℕ, ◌≡◌, ◌≢◌, refl, sym, subst, true, false, List, [], ◌∷◌, ◌++◌, arith, ◌==◌, upd, has,
  has-append, Distinct, length-append, Distinct-append-left, Distinct-append-right,
  Distinct-append-apart,
}
use babo_matching_engine.Pin.{npos, PinNode, unlink, erase, free_slot}
use babo_matching_engine.Pin.Segment.{
  Seg, Seg-append, Seg-cut, Seg-upd_next, Seg-upd_prev, Seg-last, Seg-set_end, Seg-set_start,
  Seg-ne_npos,
}
use babo_matching_engine.Pin.Free.{FreeChain, FreeChain-upd}
use babo_matching_engine.Pin.Holds.{IsPin, IsLoose, orders, free_slot-IsPin}

Distinct-split :
    (xs : List ℕ) (s : ℕ) (ys : List ℕ)
    → Distinct (xs ++ s ∷ ys)
    → Distinct (xs ++ ys) × (has s (xs ++ ys) ≡ false)
Distinct-split [] s ys d = (d.1, d.0)
Distinct-split (x ∷ xs) s ys d =
    let (rest, out) = Distinct-split xs s ys d.1 in
    (
      (ground (arith, has-append x xs (s ∷ ys), has-append x xs ys), rest),
      ground (arith, has-append x xs (s ∷ ys)),
    )

-- A slot that has been unlinked from between two parts of the list, by whatever writes.
unlinked-IsLoose :
    {N : ℕ} (p q : PinNode) (s : ℕ) (xs ys fs : List ℕ)
    → IsPin N p (xs ++ s ∷ ys) fs
    → {next prev : ℕ → ℕ} {h t : ℕ} → Seg next prev npos h (xs ++ ys) t npos
    → (q.links_next ≡ next) × (q.links_prev ≡ prev) × (q.head ≡ h) × (q.tail ≡ t)
    → FreeChain next q.free fs
    → q.size ≡ p.size
    → s ≢ npos
    → IsLoose N q s (xs ++ ys) fs
unlinked-IsLoose p q s xs ys fs i chain same frees size valid = record {
  chain = rw (same.0, same.1, same.2, same.3) chain;
  frees = rw same.0 frees;
  distinct = (Distinct-split xs s ys i.distinct).0;
  free_distinct = i.free_distinct;
  apart = λ a m. ground (arith, i.apart a, has-append a xs ys, has-append a xs (s ∷ ys));
  count = omega (arith, size, i.count, length-append xs ys, length-append xs (s ∷ ys));
  capacity = omega (arith, i.capacity, length-append xs ys, length-append xs (s ∷ ys));
  valid = valid;
  unlinked = (Distinct-split xs s ys i.distinct).1;
  taken = ground (arith, i.apart s, has-append s xs (s ∷ ys));
}

module _ {N : ℕ} (q : PinNode) (s : ℕ) where
  -- The free list is not touched by a write at a slot of the list.
  FreeChain-occupied :
      (xs fs : List ℕ) (m v : ℕ)
      → IsPin N q xs fs
      → has m xs ≡ true
      → FreeChain (upd q.links_next m v) q.free fs
  FreeChain-occupied xs fs m v i there =
      FreeChain-upd q.links_next m v q.free fs i.frees (ground (arith, i.apart m))

  -- Unlinking the slot behind the part `xs`, whose last slot is `p`, and before the part `ys`,
  -- whose first is `n`. `p` and `n` are the links of the slot.
  unlink-parts :
      (xs ys fs : List ℕ)
      → IsPin N q (xs ++ s ∷ ys) fs
      → Seg q.links_next q.links_prev npos q.head xs (q.links_prev s) s
      → Seg q.links_next q.links_prev s (q.links_next s) ys q.tail npos
      → s ≢ npos
      → IsLoose N (unlink q s) s (xs ++ ys) fs
  unfolding unlink
  unlink-parts [] [] fs i l r valid =
      let e : (q.links_prev s == npos) ≡ true = ground (arith, l.1) in
      let k : (q.links_next s == npos) ≡ true = ground (arith, r.0) in
      unlinked-IsLoose q (unlink q s) s [] [] fs i {next = q.links_next} {prev = q.links_prev}
        {h = q.links_next s} {t = q.links_prev s} (r.0, l.1) (rw e, rw k, rw e, rw k) i.frees refl
        valid
  unlink-parts [] (y ∷ ys) fs i l r valid =
      let n : ℕ = q.links_next s in
      let p : ℕ = q.links_prev s in
      let e : (q.links_prev s == npos) ≡ true = ground (arith, l.1) in
      let k : (q.links_next s == npos) ≡ false = ground (arith, r.0, r.1) in
      let chain : Seg q.links_next (upd q.links_prev y p) p n (y ∷ ys) q.tail npos =
        Seg-set_start q.links_next q.links_prev s p n y ys q.tail npos r i.distinct.1 in
      unlinked-IsLoose q (unlink q s) s [] (y ∷ ys) fs i {next = q.links_next}
        {prev = upd q.links_prev n p} {h = n} {t = q.tail}
        (subst (λ b. Seg q.links_next (upd q.links_prev n p) b n (y ∷ ys) q.tail npos) (sym l.1)
          (subst (λ b. Seg q.links_next (upd q.links_prev b p) p n (y ∷ ys) q.tail npos) (sym r.0)
            chain))
        (rw e, rw k, rw e, rw k) i.frees refl valid
  unlink-parts (x ∷ xs) [] fs i l r valid =
      let n : ℕ = q.links_next s in
      let p : ℕ = q.links_prev s in
      let there : has p (x ∷ xs) ≡ true =
        Seg-last q.links_next q.links_prev npos q.head x xs p s l in
      let e : (q.links_prev s == npos) ≡ false =
        ground (arith, Seg-ne_npos q.links_next q.links_prev npos q.head (x ∷ xs) p s p l there) in
      let k : (q.links_next s == npos) ≡ true = ground (arith, r.0) in
      unlinked-IsLoose q (unlink q s) s (x ∷ xs) [] fs i {next = upd q.links_next p n}
        {prev = q.links_prev} {h = q.head} {t = p}
        (subst (λ zs. Seg (upd q.links_next p n) q.links_prev npos q.head zs p npos)
          (sym (append-nil (x ∷ xs)))
          (subst (Seg (upd q.links_next p n) q.links_prev npos q.head (x ∷ xs) p) r.0 (
            Seg-set_end q.links_next q.links_prev npos q.head x xs p s n l
              (Distinct-append-left (x ∷ xs) (s ∷ []) i.distinct))))
        (rw e, rw k, rw e, rw k)
        (FreeChain-occupied ((x ∷ xs) ++ s ∷ []) fs p n i
          (ground (arith, has-append p (x ∷ xs) (s ∷ []))))
        refl valid
  unlink-parts (x ∷ xs) (y ∷ ys) fs i l r valid =
      let n : ℕ = q.links_next s in
      let p : ℕ = q.links_prev s in
      let there : has p (x ∷ xs) ≡ true =
        Seg-last q.links_next q.links_prev npos q.head x xs p s l in
      let e : (q.links_prev s == npos) ≡ false =
        ground (arith, Seg-ne_npos q.links_next q.links_prev npos q.head (x ∷ xs) p s p l there) in
      let next' : ℕ → ℕ = upd q.links_next p n in
      let apart : (a : ℕ) → has a (x ∷ xs) ≡ true → has a (s ∷ y ∷ ys) ≡ false =
        λ a m. Distinct-append-apart a (x ∷ xs) (s ∷ y ∷ ys) i.distinct m in
      let k : (q.links_next s == npos) ≡ false = ground (arith, r.0, r.1) in
      unlinked-IsLoose q (unlink q s) s (x ∷ xs) (y ∷ ys) fs i {next = upd q.links_next p n}
        {prev = upd q.links_prev n p} {h = q.head} {t = q.tail}
        (Seg-append next' (upd q.links_prev n p) npos q.head (x ∷ xs) p n (y ∷ ys) q.tail npos
          (Seg-upd_prev next' q.links_prev n p npos q.head (x ∷ xs) p n
            (Seg-set_end q.links_next q.links_prev npos q.head x xs p s n l
              (Distinct-append-left (x ∷ xs) (s ∷ y ∷ ys) i.distinct))
            (ground (arith, r.0, apart n)))
          (subst (λ b. Seg next' (upd q.links_prev b p) p n (y ∷ ys) q.tail npos) (sym r.0)
            (Seg-set_start next' q.links_prev s p n y ys q.tail npos
              (Seg-upd_next q.links_next q.links_prev p n s n (y ∷ ys) q.tail npos r
                (ground (arith, apart p there)))
              (Distinct-append-right (x ∷ xs) (s ∷ y ∷ ys) i.distinct).1)))
        (rw e, rw k, rw e, rw k)
        (FreeChain-occupied ((x ∷ xs) ++ s ∷ y ∷ ys) fs p n i
          (ground (arith, has-append p (x ∷ xs) (s ∷ y ∷ ys))))
        refl valid

  -- The parts of the list on the two sides of a slot.
  unlink-IsLoose :
      (xs ys fs : List ℕ) → IsPin N q (xs ++ s ∷ ys) fs → IsLoose N (unlink q s) s (xs ++ ys) fs
  unlink-IsLoose xs ys fs i =
      let (m, d, l, r) =
        Seg-cut q.links_next q.links_prev npos q.head xs (s ∷ ys) q.tail npos i.chain in
      unlink-parts xs ys fs i
        (subst (λ e. Seg q.links_next q.links_prev npos q.head xs (q.links_prev s) e) r.0
          (subst (λ z. Seg q.links_next q.links_prev npos q.head xs z d) (sym r.2) l))
        r.3 r.1

  -- Erasing a slot of a well-formed pin node, wherever it stands in the list, leaves a
  -- well-formed node whose list is the old one without the slot and whose free list begins with
  -- it; the other orders keep their order.
  pub erase-IsPin :
      (xs ys fs : List ℕ)
      → IsPin N q (xs ++ s ∷ ys) fs
      → IsPin N (erase q s) (xs ++ ys) (s ∷ fs)
        × (orders (erase q s) (xs ++ ys) ≡ orders q xs ++ orders q ys)
  unfolding erase free_slot unlink
  erase-IsPin xs ys fs i =
      (free_slot-IsPin s (xs ++ ys) fs (unlink-IsLoose xs ys fs i), map-append q.slots xs ys)
