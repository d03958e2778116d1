-- ===== src/Tree/Shape/Height.antt =====
-- The depth of a red-black tree and the number of its levels.
use babo_matching_engine.Prelude.{
  ℕ, zero, suc, ◌+◌, ◌*◌, ◌^◌, ◌≤◌, ◌≡◌, false, ◌∷◌, length, length-append, ltb, if◌then◌else◌,
  arith, Bool-cases, inl, inr,
}
use babo_matching_engine.Tree.{Side, is_red, is_black, color_of}
use babo_matching_engine.Tree.Shape.{Shape, leaf, node, in_order, IsRb}

-- The number of levels on the longest path.
abbrev pub height : Shape → ℕ
height leaf = 0
height (node l x r) = suc (if ltb (height l) (height r) then height r else height l)

-- A path has at most as many red levels as black ones.
pub height-le :
    (s : Side) (n lo hi h : ℕ) (t : Shape)
    → IsRb s n lo hi h t
    → height t + 2 ≤ 2 * h + (if is_red (color_of s n) then 1 else 0)
unfolding color_of
height-le s n lo hi h leaf i = ground (arith, i.0, i.1)
height-le s n lo hi h (node l x r) i =
    let (k, eq, il, ir) = i.5 in
    ground (
      arith,
      i.0,
      i.1,
      i.4,
      eq,
      height-le s (s.levels x).left lo (s.levels x).price k l il,
      height-le s (s.levels x).right (s.levels x).price hi k r ir,
    )

pow_suc : (k : ℕ) → 2 ^ suc k ≡ 2 * 2 ^ k
pow_suc k = omega arith

-- The black levels of one path bound the number of levels from below.
pub size-ge :
    (s : Side) (n lo hi h : ℕ) (t : Shape)
    → IsRb s n lo hi h t
    → 2 ^ h ≤ 2 * suc (length (in_order t))
size-ge s n lo hi h leaf i = rw i.1 (omega arith)
size-ge s n lo hi h (node l x r) i =
    let (k, eq, il, ir) = i.5 in
    let left = size-ge s (s.levels x).left lo (s.levels x).price k l il in
    let right = size-ge s (s.levels x).right (s.levels x).price hi k r ir in
    let size = length-append (in_order l) (x ∷ in_order r) in
    elim (Bool-cases (is_black (s.levels x).color)) [
      | inl b ↦
          let up : h ≡ suc k = ground (arith, eq, b) in
          let double : 2 ^ suc k ≡ 2 * 2 ^ k = pow_suc k in
          rw up (omega (arith, left, right, size, double))
      | inr b ↦ let flat : h ≡ k = ground (arith, eq, b) in rw flat (omega (arith, left, size))
    ]

-- In a red-black tree with a black root every path is at most twice as long as the logarithm of
-- the number of levels.
pub height-log :
    (s : Side) (n lo hi h : ℕ) (t : Shape)
    → IsRb s n lo hi h t
    → is_red (color_of s n) ≡ false
    → (k : ℕ) × (height t ≤ 2 * k) × (2 ^ k ≤ suc (length (in_order t)))
height-log s n lo hi zero t i c = absurd (ground (arith, height-le s n lo hi 0 t i, c))
height-log s n lo hi (suc k) t i c = (
  k,
  ground (arith, height-le s n lo hi (suc k) t i, c),
  omega (arith, size-ge s n lo hi (suc k) t i),
)
