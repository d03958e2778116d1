-- ===== src/Bench/Canonical/Interleaving.antt =====
-- The canonical text does not depend on how an engine interleaves reports of different messages or
-- types.
use babo_matching_engine.Prelude.{
  ℕ, ◌≡◌, refl, sym, ap, ◌∙◌, true, false, List, [], ◌∷◌, arith, Bool-cases, inl, inr, subst,
}
use babo_matching_engine.Bench.Canonical.{
  CollectedReport, before, stable_sort, lines, build_canonical_text,
}
use babo_matching_engine.Bench.Canonical.Sorting.{
  NoneBefore, IsSorted, keyed, select, stable_sort-IsSorted, select-stable_sort,
}

select-hit :
    (seq type : ℕ) (r : CollectedReport) (rs : List CollectedReport)
    → keyed seq type r ≡ true
    → select seq type (r ∷ rs) ≡ r ∷ select seq type rs
select-hit seq type r rs k = rw k refl

select-skip :
    (seq type : ℕ) (r : CollectedReport) (rs : List CollectedReport)
    → keyed seq type r ≡ false
    → select seq type (r ∷ rs) ≡ select seq type rs
select-skip seq type r rs k = rw k refl

-- A report that is selected from a list is not before what none of the list is before.
select-NoneBefore :
    (seq type : ℕ) (x r : CollectedReport) (rs found : List CollectedReport)
    → NoneBefore x rs
    → select seq type rs ≡ r ∷ found
    → before r x ≡ false
select-NoneBefore seq type x r [] found n e = cc
select-NoneBefore seq type x r (y ∷ ys) found n e = elim (Bool-cases (keyed seq type y)) [
  | inl k ↦
      let met = sym (select-hit seq type y ys k) ∙ e in
      let same : y ≡ r = cc in subst (λ z. before z x ≡ false) same n.0
  | inr k ↦ select-NoneBefore seq type x r ys found n.1 (sym (select-skip seq type y ys k) ∙ e)
]

keyed_self : (x : CollectedReport) → keyed x.seq x.type x ≡ true
keyed_self x = ground arith

keyed_sym : (x y : CollectedReport) → keyed x.seq x.type y ≡ false → keyed y.seq y.type x ≡ false
keyed_sym x y h = ground (arith, h)

-- Reports that are not before each other have one key.
not_apart :
    (x y : CollectedReport)
    → keyed x.seq x.type y ≡ false
    → before x y ≡ false
    → before y x ≡ false
    → ⊥
unfolding before
not_apart x y k a b = ground (arith, k, a, b)

-- The first of a list is not before another, when the other list has it further on.
first-before :
    (x y : CollectedReport) (xs ys : List CollectedReport)
    → NoneBefore y ys
    → keyed x.seq x.type y ≡ false
    → select x.seq x.type (x ∷ xs) ≡ select x.seq x.type (y ∷ ys)
    → before x y ≡ false
first-before x y xs ys n k e =
    select-NoneBefore x.seq x.type y x ys (select x.seq x.type xs) n
      (sym (select-skip x.seq x.type y ys k) ∙ sym e ∙ select-hit x.seq x.type x xs (keyed_self x))

select-tail :
    (seq type : ℕ) (x y : CollectedReport) (xs ys : List CollectedReport)
    → x ≡ y
    → select seq type (x ∷ xs) ≡ select seq type (y ∷ ys)
    → select seq type xs ≡ select seq type ys
select-tail seq type x y xs ys same e = elim (Bool-cases (keyed seq type x)) [
  | inl k ↦
      let k' = subst (λ r. keyed seq type r ≡ true) same k in
      let both = sym (select-hit seq type x xs k) ∙ e ∙ select-hit seq type y ys k' in cc
  | inr k ↦
      let k' = subst (λ r. keyed seq type r ≡ false) same k in
      sym (select-skip seq type x xs k) ∙ e ∙ select-skip seq type y ys k'
]

-- Two sorted lists with the same reports of each key, in the same order, are the same.
sorted_unique :
    (xs ys : List CollectedReport)
    → IsSorted xs
    → IsSorted ys
    → ((seq type : ℕ) → select seq type xs ≡ select seq type ys)
    → xs ≡ ys
sorted_unique [] [] s t h = refl
sorted_unique [] (y ∷ ys) s t h =
    let met = h y.seq y.type ∙ select-hit y.seq y.type y ys (keyed_self y) in cc
sorted_unique (x ∷ xs) [] s t h =
    let met = sym (h x.seq x.type) ∙ select-hit x.seq x.type x xs (keyed_self x) in cc
sorted_unique (x ∷ xs) (y ∷ ys) s t h = elim (Bool-cases (keyed x.seq x.type y)) [
  | inl k ↦
      let met =
        sym (select-hit x.seq x.type x xs (keyed_self x))
        ∙ h x.seq x.type
        ∙ select-hit x.seq x.type y ys k in
      let same : x ≡ y = cc in
      let rest =
        sorted_unique xs ys s.1 t.1
          (λ seq type. select-tail seq type x y xs ys same (h seq type)) in
      cc
  | inr k ↦ absurd (
      not_apart x y k (first-before x y xs ys t.0 k (h x.seq x.type))
        (first-before y x ys xs s.0 (keyed_sym x y k) (sym (h y.seq y.type))))
]

-- Two sequences of reports that have, for each sequence number and type, the same reports in the
-- same order, have the same canonical text.
pub build_canonical_text-select :
    (rs qs : List CollectedReport)
    → ((seq type : ℕ) → select seq type rs ≡ select seq type qs)
    → build_canonical_text rs ≡ build_canonical_text qs
unfolding build_canonical_text
build_canonical_text-select rs qs h = ap lines (
    sorted_unique (stable_sort rs) (stable_sort qs) (stable_sort-IsSorted rs)
      (stable_sort-IsSorted qs)
      (λ seq type.
        select-stable_sort seq type rs ∙ h seq type ∙ sym (select-stable_sort seq type qs)))
