-- ===== src/Bench/Canonical/Sorting.antt =====
-- The sort is sorted and stable: for each sequence number and type it keeps the order.
use babo_matching_engine.Prelude.{
  ℕ, ◌≡◌, refl, ap, ◌∙◌, Bool, true, false, ◌&&◌, List, [], ◌∷◌, arith, ◌==◌, if◌then◌else◌,
  Bool-cases, inl, inr,
}
use babo_matching_engine.Bench.Canonical.{CollectedReport, before, insert_sorted, stable_sort}

-- No report of the list is before `x`.
abbrev pub NoneBefore : CollectedReport → List CollectedReport → Type 0
NoneBefore x [] = Unit {0}
NoneBefore x (r ∷ rs) = (before r x ≡ false) × NoneBefore x rs

abbrev pub IsSorted : List CollectedReport → Type 0
IsSorted [] = Unit {0}
IsSorted (x ∷ xs) = NoneBefore x xs × IsSorted xs

-- The reports of one message and of one type, in order.
abbrev pub keyed : ℕ → ℕ → CollectedReport → Bool
keyed seq type r = r.seq == seq && r.type == type

abbrev pub select : ℕ → ℕ → List CollectedReport → List CollectedReport
select seq type [] = []
select seq type (r ∷ rs) = if keyed seq type r then r ∷ select seq type rs else select seq type rs

before_trans :
    (a b c : CollectedReport) → before b a ≡ false → before c b ≡ false → before c a ≡ false
unfolding before
before_trans a b c h k = ground (arith, h, k)

before-asym : (a b : CollectedReport) → before a b ≡ true → before b a ≡ false
unfolding before
before-asym a b h = ground (arith, h)

NoneBefore-trans :
    (x y : CollectedReport) (rs : List CollectedReport)
    → before y x ≡ false
    → NoneBefore y rs
    → NoneBefore x rs
NoneBefore-trans x y [] h k = tt
NoneBefore-trans x y (r ∷ rs) h k = (before_trans x y r h k.0, NoneBefore-trans x y rs h k.1)

NoneBefore-insert_sorted :
    (x r : CollectedReport) (rs : List CollectedReport)
    → before r x ≡ false
    → NoneBefore x rs
    → NoneBefore x (insert_sorted r rs)
unfolding insert_sorted
NoneBefore-insert_sorted x r [] h k = (h, tt)
NoneBefore-insert_sorted x r (y ∷ ys) h k = elim (Bool-cases (before y r)) [
  | inl e ↦ rw (e, insert_sorted) (k.0, NoneBefore-insert_sorted x r ys h k.1)
  | inr e ↦ rw (e, insert_sorted) (h, k)
]

insert_sorted-IsSorted :
    (r : CollectedReport) (rs : List CollectedReport) → IsSorted rs → IsSorted (insert_sorted r rs)
unfolding insert_sorted
insert_sorted-IsSorted r [] s = (tt, tt)
insert_sorted-IsSorted r (x ∷ xs) s = elim (Bool-cases (before x r)) [
  | inl e ↦
      rw (e, insert_sorted)
        (NoneBefore-insert_sorted x r xs (before-asym x r e) s.0, insert_sorted-IsSorted r xs s.1)
  | inr e ↦ rw (e, insert_sorted) ((e, NoneBefore-trans r x xs e s.0), s)
]

pub stable_sort-IsSorted : (rs : List CollectedReport) → IsSorted (stable_sort rs)
unfolding stable_sort
stable_sort-IsSorted [] = tt
stable_sort-IsSorted (r ∷ rs) = insert_sorted-IsSorted r (stable_sort rs) (stable_sort-IsSorted rs)

-- A report that is before another has not its key.
before-keyed :
    (seq type : ℕ) (a b : CollectedReport)
    → before a b ≡ true
    → (keyed seq type a && keyed seq type b) ≡ false
unfolding before
before-keyed seq type a b h = ground (arith, h)

select-insert_sorted :
    (seq type : ℕ) (r : CollectedReport) (rs : List CollectedReport)
    → select seq type (insert_sorted r rs) ≡ select seq type (r ∷ rs)
unfolding insert_sorted
select-insert_sorted seq type r [] = refl
select-insert_sorted seq type r (x ∷ xs) = elim (Bool-cases (before x r)) [
  | inr e ↦ rw (e, insert_sorted) refl
  | inl e ↦
      let apart = before-keyed seq type x r e in
      let rest = select-insert_sorted seq type r xs in
      rw (e, insert_sorted)
        (elim (Bool-cases (keyed seq type r)) [
          | inl k ↦
              let other : keyed seq type x ≡ false = ground (arith, apart, k) in
              rw (k, other) (rest ∙ rw k refl)
          | inr k ↦ rw k (ap (λ t. if keyed seq type x then x ∷ t else t) (rest ∙ rw k refl))
        ])
]

pub select-stable_sort :
    (seq type : ℕ) (rs : List CollectedReport)
    → select seq type (stable_sort rs) ≡ select seq type rs
unfolding stable_sort
select-stable_sort seq type [] = refl
select-stable_sort seq type (r ∷ rs) =
    select-insert_sorted seq type r (stable_sort rs)
    ∙ ap (λ t. if keyed seq type r then r ∷ t else t) (select-stable_sort seq type rs)
