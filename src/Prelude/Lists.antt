-- ===== src/Prelude/Lists.antt =====
-- Lists measured by native numbers, and membership of numbers as a Boolean test.
use Prim.Native.Nat.{ℕ, zero, suc, ◌+◌, ◌≤◌, ◌<◌}
use mathlib.Core.Path.{◌≡◌, refl}
use mathlib.Core.Bool.{Bool, true, false, ◌||◌}
use mathlib.Core.List.{List, [], ◌∷◌, ◌++◌}
use mathlib.Core.Option.{Option, none, some}
use native.Mathlib.Omega.{arith}
use babo_matching_engine.Prelude.Tests.{◌==◌, if◌then◌else◌}

module _ {ℓ} {A : Type ℓ} where
  abbrev pub length : List A → ℕ
  length [] = 0
  length (x ∷ xs) = suc (length xs)

  pub length-append : (xs ys : List A) → length (xs ++ ys) ≡ length xs + length ys
  length-append [] ys = omega arith
  length-append (x ∷ xs) ys = omega (arith, length-append xs ys)

abbrev pub has : ℕ → List ℕ → Bool
has a [] = false
has a (x ∷ xs) = (a == x) || has a xs

-- No number stands twice in the list.
abbrev pub Distinct : List ℕ → Type 0
Distinct [] = Unit {0}
Distinct (x ∷ xs) = (has x xs ≡ false) × Distinct xs

pub has-append : (a : ℕ) (xs ys : List ℕ) → has a (xs ++ ys) ≡ (has a xs || has a ys)
has-append a [] ys = refl
has-append a (x ∷ xs) ys = ground (arith, has-append a xs ys)

pub Distinct-append-left : (xs ys : List ℕ) → Distinct (xs ++ ys) → Distinct xs
Distinct-append-left [] ys h = tt
Distinct-append-left (x ∷ xs) ys h =
    (ground (arith, has-append x xs ys), Distinct-append-left xs ys h.1)

pub Distinct-append-right : (xs ys : List ℕ) → Distinct (xs ++ ys) → Distinct ys
Distinct-append-right [] ys h = h
Distinct-append-right (x ∷ xs) ys h = Distinct-append-right xs ys h.1

pub Distinct-append-apart :
    (a : ℕ) (xs ys : List ℕ) → Distinct (xs ++ ys) → has a xs ≡ true → has a ys ≡ false
Distinct-append-apart a [] ys h m = ground arith
Distinct-append-apart a (x ∷ xs) ys h m =
    ground (arith, has-append x xs ys, Distinct-append-apart a xs ys h.1)

pub Distinct-append :
    (xs ys : List ℕ)
    → Distinct xs
    → Distinct ys
    → ((a : ℕ) → has a xs ≡ true → has a ys ≡ false)
    → Distinct (xs ++ ys)
Distinct-append [] ys h k apart = k
Distinct-append (x ∷ xs) ys h k apart = (
  ground (arith, has-append x xs ys, apart x),
  Distinct-append xs ys h.1 k (λ a m. ground (arith, apart a)),
)

abbrev pub AllBelow : ℕ → List ℕ → Type 0
AllBelow n [] = Unit {0}
AllBelow n (x ∷ xs) = (x < n) × AllBelow n xs

-- The list without every occurrence of a number.
without : ℕ → List ℕ → List ℕ
without n [] = []
without n (x ∷ xs) = if x == n then without n xs else x ∷ without n xs

has-without : (a n : ℕ) (xs : List ℕ) → has a xs ≡ false → has a (without n xs) ≡ false
unfolding without
has-without a n [] h = refl
has-without a n (x ∷ xs) h = ground (arith, has-without a n xs)

Distinct-without : (n : ℕ) (xs : List ℕ) → Distinct xs → Distinct (without n xs)
unfolding without
Distinct-without n [] h = tt
Distinct-without n (x ∷ xs) h = ground (arith, has-without x n xs h.0, Distinct-without n xs h.1)

AllBelow-without : (n : ℕ) (xs : List ℕ) → AllBelow (suc n) xs → AllBelow n (without n xs)
unfolding without
AllBelow-without n [] h = tt
AllBelow-without n (x ∷ xs) h = ground (arith, AllBelow-without n xs h.1)

without-absent : (n : ℕ) (xs : List ℕ) → has n xs ≡ false → without n xs ≡ xs
unfolding without
without-absent n [] h = refl
without-absent n (x ∷ xs) h = ground (arith, without-absent n xs)

length-without : (n : ℕ) (xs : List ℕ) → Distinct xs → length xs ≤ suc (length (without n xs))
unfolding without
length-without n [] h = omega arith
length-without n (x ∷ xs) h = ground (arith, without-absent n xs, length-without n xs h.1)

-- Distinct numbers below a bound are at most that many.
pub length-le_of_below : (n : ℕ) (xs : List ℕ) → Distinct xs → AllBelow n xs → length xs ≤ n
length-le_of_below n [] h b = omega arith
length-le_of_below zero (x ∷ xs) h b = absurd (omega (arith, b.0))
length-le_of_below (suc n) (x ∷ xs) h b = omega (
  arith,
  length-without n (x ∷ xs) h,
  length-le_of_below n (without n (x ∷ xs)) (Distinct-without n (x ∷ xs) h)
      (AllBelow-without n (x ∷ xs) b),
)

module _ {ℓ} {A : Type ℓ} where
  abbrev pub take : ℕ → List A → List A
  take zero l = []
  take (suc n) [] = []
  take (suc n) (x ∷ xs) = x ∷ take n xs

  abbrev pub drop : ℕ → List A → List A
  drop zero l = l
  drop (suc n) [] = []
  drop (suc n) (x ∷ xs) = drop n xs

  -- The element at an index.
  abbrev pub get_elem? : List A → ℕ → Option A
  get_elem? [] i = none
  get_elem? (x ∷ xs) zero = some x
  get_elem? (x ∷ xs) (suc i) = get_elem? xs i
