-- ===== src/Tree/Shape/Find.antt =====
-- `find_node` of narb_tree.h on a red-black tree.
use babo_matching_engine.Prelude.{
  ℕ, zero, suc, ◌*◌, ◌^◌, length, length-append, ◌<◌, ◌≤◌, ◌≡◌, ◌≢◌, ◌⊎◌, true, false, some, ◌∷◌,
  ◌==◌, ltb, has, has-append, arith, Bool-cases, inl, inr,
}
use babo_matching_engine.Tree.{Side, is_red, color_of, level_fuel}
use babo_matching_engine.Tree.Search.{find_node_from, find_node, find_node_run}
use babo_matching_engine.Tree.Shape.{Shape, leaf, node, in_order, IsRb}
use babo_matching_engine.Tree.Shape.Height.{height, height-log}

-- No level of the tree has the price.
abbrev pub Absent : Side → ℕ → Shape → Type 0
Absent s price leaf = Unit {0}
Absent s price (node l x r) = ((s.levels x).price ≢ price) × Absent s price l × Absent s price r

Absent-outside :
    (s : Side) (n lo hi h : ℕ) (t : Shape) (price : ℕ)
    → IsRb s n lo hi h t
    → (price ≤ lo) ⊎ (hi ≤ price)
    → Absent s price t
Absent-outside s n lo hi h leaf price i o = tt
Absent-outside s n lo hi h (node l x r) price i o =
    let (k, eq, il, ir) = i.5 in
    (
      ground (arith, i.2, i.3, o),
      Absent-outside s (s.levels x).left lo (s.levels x).price k l price il
          (ground (arith, o, i.2, i.3)),
      Absent-outside s (s.levels x).right (s.levels x).price hi k r price ir
          (ground (arith, o, i.2, i.3)),
    )

-- The answer is a level of the tree with the price, or 0 when there is none.
abbrev pub Finds : Side → ℕ → Shape → ℕ → Type 0
Finds s price t r =
    ((r ≡ 0) × Absent s price t) ⊎ ((has r (in_order t) ≡ true) × ((s.levels r).price ≡ price))

-- With as much fuel as the tree is high and one more, the search by price gives this answer.
pub find_node_from-Finds :
    (fuel : ℕ) (s : Side) (price n lo hi h : ℕ) (t : Shape)
    → IsRb s n lo hi h t
    → height t < fuel
    → Finds s price t (find_node_from fuel s price n)
unfolding find_node_from
find_node_from-Finds zero s price n lo hi h t i f = absurd (omega arith)
find_node_from-Finds (suc fuel) s price n lo hi h leaf i f = inl (ground (arith, i.0), tt)
find_node_from-Finds (suc fuel) s price n lo hi h (node l x r) i f =
    let p = (s.levels x).price in
    let (k, eq, il, ir) = i.5 in
    let found : (x == 0) ≡ false = ground (arith, i.1) in
    rw i.0 (elim (Bool-cases (ltb price p)) [
      | inl lt ↦
          rw (found, lt, find_node_from)
            (elim (find_node_from-Finds fuel s price (s.levels x).left lo p k l il
              (ground (arith, f))) [
                | inl (z, missing) ↦ inl (
                  z,
                  (
                    ground (arith, lt),
                    missing,
                    Absent-outside s (s.levels x).right p hi k r price ir
                        (inl (ground (arith, lt))),
                  ),
                )
                | inr (there, same) ↦ inr (
                  ground (
                    arith,
                    there,
                    has-append (find_node_from fuel s price (s.levels x).left) (in_order l)
                        (x ∷ in_order r),
                  ),
                  same,
                )
              ])
      | inr ge ↦ elim (Bool-cases (ltb p price)) [
        | inl gt ↦
            rw (found, ge, gt, find_node_from)
              (elim (find_node_from-Finds fuel s price (s.levels x).right p hi k r ir
                (ground (arith, f))) [
                  | inl (z, missing) ↦ inl (
                    z,
                    (
                      ground (arith, gt),
                      Absent-outside s (s.levels x).left lo p k l price il
                          (inr (ground (arith, gt))),
                      missing,
                    ),
                  )
                  | inr (there, same) ↦ inr (
                    ground (
                      arith,
                      there,
                      has-append (find_node_from fuel s price (s.levels x).right) (in_order l)
                          (x ∷ in_order r),
                    ),
                    same,
                  )
                ])
        | inr le ↦
            rw (found, ge, le, find_node_from)
              (inr (
                ground (arith, has-append x (in_order l) (x ∷ in_order r)),
                ground (arith, ge, le),
              ))
      ]
    ])

height-length : (t : Shape) → height t ≤ length (in_order t)
height-length leaf = omega arith
height-length (node l x r) =
    ground (arith, height-length l, height-length r, length-append (in_order l) (x ∷ in_order r))

-- On a red-black tree of no more levels than the live ones, `find_node` returns a level of the
-- tree with the price, or 0 when the tree has none.
pub find_node-Finds :
    (s : Side) (price lo hi h : ℕ) (t : Shape)
    → IsRb s s.root lo hi h t
    → length (in_order t) ≤ s.level_pool.nb_elements
    → Finds s price t (find_node s price)
unfolding find_node
find_node-Finds s price lo hi h t i f =
    find_node_from-Finds (level_fuel s) s price s.root lo hi h t i (omega (arith, height-length t))

-- It has ended when the rounds exceed the height of the tree, with the answer of `find_node_from`.
find_node_run-from :
    (rounds : ℕ) (s : Side) (price n lo hi h : ℕ) (t : Shape)
    → IsRb s n lo hi h t
    → height t < rounds
    → find_node_run rounds s price n ≡ some (find_node_from rounds s price n)
unfolding find_node_run find_node_from
find_node_run-from zero s price n lo hi h t i f = absurd (omega arith)
find_node_run-from (suc rounds) s price n lo hi h leaf i f = ground (arith, i.0)
find_node_run-from (suc rounds) s price n lo hi h (node l x r) i f =
    let p = (s.levels x).price in
    let (k, eq, il, ir) = i.5 in
    let left =
      find_node_run-from rounds s price (s.levels x).left lo p k l il (ground (arith, f)) in
    let right =
      find_node_run-from rounds s price (s.levels x).right p hi k r ir (ground (arith, f)) in
    ground (arith, i.0, i.1, left, right)

-- From a black root of a red-black tree, the loop of the search by price has ended, at a level
-- with the price or at a null link, after at most twice as many levels as the logarithm of the
-- number of levels and one; the search gives this answer, a level of the tree with the price, or
-- 0 when the tree has none.
pub find_node_from-log :
    (s : Side) (price n lo hi h : ℕ) (t : Shape)
    → IsRb s n lo hi h t
    → is_red (color_of s n) ≡ false
    → (k : ℕ) × (2 ^ k ≤ suc (length (in_order t)))
      × (find_node_run (suc (2 * k)) s price n ≡ some (find_node_from (suc (2 * k)) s price n))
      × Finds s price t (find_node_from (suc (2 * k)) s price n)
find_node_from-log s price n lo hi h t i c =
    let (k, high, few) = height-log s n lo hi h t i c in
    (
      k,
      few,
      find_node_run-from (suc (2 * k)) s price n lo hi h t i (omega arith),
      find_node_from-Finds (suc (2 * k)) s price n lo hi h t i (omega arith),
    )
