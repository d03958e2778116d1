-- ===== src/Prelude/Tests.antt =====
-- Boolean tests on the native numbers, the conditional, and case splits that keep an equation.
use Prim.Native.Nat.{ℕ, compare, Ordering}
use mathlib.Core.Path.{◌≡◌, refl, ap, ◌∙◌}
use mathlib.Core.Logic.{◌⊎◌, inl, inr, ◌≢◌}
use mathlib.Core.Bool.{Bool, true, false}
use mathlib.Core.Option.{Option, none, some}
use native.Mathlib.Omega.{arith}

abbrev pub ltb : ℕ → ℕ → Bool
ltb a b = elim (compare a b) [ Ordering.lt ↦ true | _ ↦ false ]

abbrev pub leb : ℕ → ℕ → Bool
leb a b = elim (compare a b) [ Ordering.gt ↦ false | _ ↦ true ]

infix 50 ◌==◌
abbrev pub ◌==◌ : ℕ → ℕ → Bool
a == b = elim (compare a b) [ Ordering.eq ↦ true | _ ↦ false ]

infix 1 if◌then◌else◌
abbrev pub if◌then◌else◌ {ℓ} : {A : Type ℓ} → Bool → A → A → A
if true then x else y = x
if false then x else y = y

pub Bool-cases : (b : Bool) → (b ≡ true) ⊎ (b ≡ false)
Bool-cases true = inl refl
Bool-cases false = inr refl

pub Option-cases {ℓ} : {A : Type ℓ} (o : Option A) → (o ≡ none) ⊎ ((a : A) × (o ≡ some a))
Option-cases none = inl refl
Option-cases (some a) = inr (a, refl)

-- An update of a function at one address.
unfoldable pub upd {ℓ} : {A : Type ℓ} → (ℕ → A) → ℕ → A → ℕ → A
upd f p v q = if q == p then v else f q

pub upd-same {ℓ} : {A : Type ℓ} (f : ℕ → A) (p : ℕ) (v : A) → upd f p v p ≡ v
unfolding upd
upd-same f p v = ground arith

pub upd-other {ℓ} : {A : Type ℓ} (f : ℕ → A) (p : ℕ) (v : A) (q : ℕ) → q ≢ p → upd f p v q ≡ f q
unfolding upd
upd-other f p v q h = ground arith

-- A write that keeps one aspect of the value keeps it at every address.
pub upd-keeps {ℓ κ} :
    {A : Type ℓ} {B : Type κ} (aspect : A → B) (f : ℕ → A) (p : ℕ) (v : A)
    → aspect v ≡ aspect (f p)
    → (q : ℕ) → aspect (upd f p v q) ≡ aspect (f q)
unfolding upd
upd-keeps aspect f p v e q = elim (Bool-cases (q == p)) [
  | inl hit ↦ let same : p ≡ q = ground arith in rw (hit, upd) (e ∙ ap (λ x. aspect (f x)) same)
  | inr miss ↦ rw (miss, upd)
]

pub upd_lem {ℓ} :
    {A : Type ℓ} (f : ℕ → A) (p : ℕ) (v : A) (q : ℕ) → upd f p v q ≡ (if q == p then v else f q)
unfolding upd
upd_lem f p v q = refl
