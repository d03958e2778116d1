-- ===== src/Tree/Shape.antt =====
-- The red-black tree that the links of the levels form, and what `rb_check` says of it.
pub mod Find
pub mod Height
use babo_matching_engine.Prelude.{
  ℕ, zero, suc, ◌+◌, ◌-◌, ◌⊎◌, ◌<◌, ◌≤◌, ◌^◌, ◌≡◌, ◌≢◌, ◌↔◌, refl, Bool, true, false, ◌&&◌, ◌||◌,
  Option, none, some, List, [], ◌∷◌, ◌++◌, ◌==◌, leb, if◌then◌else◌, length, length-append, arith,
  Bool-cases, Option-cases, inl, inr,
}
use babo_matching_engine.Tree.{Side, red, black, is_red, is_black, color_of, level_fuel}
use babo_matching_engine.Tree.Check.{rb_check, validate_rb}

pub data Shape : Type 0 where
  leaf : Shape
  node : Shape → ℕ → Shape → Shape

-- The addresses of the levels, by ascending price.
abbrev pub in_order : Shape → List ℕ
in_order leaf = []
in_order (node l x r) = in_order l ++ x ∷ in_order r

-- Neither of the children of a red level is red.
abbrev pub NoRedRed : Side → ℕ → Type 0
NoRedRed s x =
    (is_red (s.levels x).color
      && (is_red (color_of s (s.levels x).left) || is_red (color_of s (s.levels x).right)))
    ≡ false

-- From `n` the links form this tree: its prices lie between `lo` and `hi` and ascend, no red level
-- has a red child, and every path passes `h` black levels, the missing one at its end counted.
abbrev pub IsRb : Side → ℕ → ℕ → ℕ → ℕ → Shape → Type 0
IsRb s n lo hi h leaf = (n ≡ 0) × (h ≡ 1)
IsRb s n lo hi h (node l x r) =
    (n ≡ x)
    × (x ≢ 0)
    × (lo < (s.levels x).price)
    × ((s.levels x).price < hi)
    × NoRedRed s x
    × ((k : ℕ) × (h ≡ k + (if is_black (s.levels x).color then 1 else 0))
        × IsRb s (s.levels x).left lo (s.levels x).price k l
        × IsRb s (s.levels x).right (s.levels x).price hi k r)

-- An answer other than -1 is given only for such a tree.
pub rb_check-IsRb :
    (fuel : ℕ) (s : Side) (n lo hi h : ℕ)
    → rb_check fuel s n lo hi ≡ some h
    → (t : Shape) × IsRb s n lo hi h t
unfolding rb_check
rb_check-IsRb zero s n lo hi h e = absurd (ground (arith, e))
rb_check-IsRb (suc fuel) s n lo hi h e =
    let l = s.levels n in
    elim (Bool-cases (n == 0)) [
      | inl z ↦ (leaf, ground (arith, z, e))
      | inr z ↦ elim (Option-cases (rb_check fuel s l.left lo l.price)) [
        | inl missing ↦ absurd (ground (arith, z, e, missing))
        | inr (k, given) ↦ elim (Option-cases (rb_check fuel s l.right l.price hi)) [
          | inl missing ↦ absurd (ground (arith, z, e, missing, given))
          | inr (m, also) ↦
              let same : k ≡ m = ground (arith, z, e, given, also) in
              let (tl, il) = rb_check-IsRb fuel s l.left lo l.price k given in
              let (tr, ir) = rb_check-IsRb fuel s l.right l.price hi k (rw same also) in
              (
                node tl n tr,
                (
                  refl,
                  ground (arith, z),
                  ground (arith, z, e),
                  ground (arith, z, e),
                  ground (arith, z, e),
                  (k, ground (arith, z, e, given, also), il, ir),
                ),
              )
        ]
      ]
    ]

-- Every such tree is accepted, when the fuel exceeds the number of its levels.
pub IsRb-rb_check :
    (fuel : ℕ) (s : Side) (n lo hi h : ℕ) (t : Shape)
    → IsRb s n lo hi h t
    → length (in_order t) < fuel
    → rb_check fuel s n lo hi ≡ some h
unfolding rb_check
IsRb-rb_check zero s n lo hi h t i f = absurd (omega arith)
IsRb-rb_check (suc fuel) s n lo hi h leaf i f = ground (arith, i.0, i.1)
IsRb-rb_check (suc fuel) s n lo hi h (node l x r) i f =
    let (k, height, il, ir) = i.5 in
    let size = length-append (in_order l) (x ∷ in_order r) in
    let left =
      IsRb-rb_check fuel s (s.levels x).left lo (s.levels x).price k l il
        (omega (arith, size, f)) in
    let right =
      IsRb-rb_check fuel s (s.levels x).right (s.levels x).price hi k r ir
        (omega (arith, size, f)) in
    ground (arith, i.0, i.1, i.2, i.3, i.4, height, left, right)

-- A tree that `validate_rb` accepts is empty, or has a black root from which the links form a
-- finite tree with ascending prices, without a red level that has a red child, and with equally
-- many black levels on every path.
pub validate_rb-IsRb :
    (s : Side)
    → validate_rb s ≡ true
    → (s.root ≡ 0)
      ⊎ (((s.levels s.root).color ≡ black)
          × ((h : ℕ) × (t : Shape) × IsRb s s.root 0 (2 ^ 64 - 1) h t))
unfolding validate_rb
validate_rb-IsRb s e = elim (Bool-cases (s.root == 0)) [
  | inl z ↦ inl (ground (arith, z))
  | inr z ↦
      let check = rb_check (suc (level_fuel s)) s s.root 0 (2 ^ 64 - 1) in
      elim (Option-cases check) [
        | inl missing ↦ absurd (ground (arith, z, e, missing))
        | inr (h, given) ↦
            let (t, i) = rb_check-IsRb (suc (level_fuel s)) s s.root 0 (2 ^ 64 - 1) h given in
            inr (ground (arith, z, e), (h, t, i))
      ]
]

-- `validate_rb` accepts every red-black tree with a black root whose prices lie strictly between
-- 0 and 2^64 - 1 and whose levels are no more than the live ones.
pub IsRb-validate_rb :
    (s : Side) (h : ℕ) (t : Shape)
    → IsRb s s.root 0 (2 ^ 64 - 1) h t
    → (s.levels s.root).color ≡ black
    → length (in_order t) ≤ s.level_pool.nb_elements
    → validate_rb s ≡ true
unfolding validate_rb
IsRb-validate_rb s h t i c f =
    ground
      (arith, c, IsRb-rb_check (suc (level_fuel s)) s s.root 0 (2 ^ 64 - 1) h t i (omega arith))
