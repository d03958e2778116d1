-- ===== src/Bench/Audit/Pick.antt =====
-- `audit_pick_indices`: the probes are at distinct indices of the workload, in ascending order. The
-- generator of random numbers is a parameter, the sequence of its draws.
use native.Mathlib.Nat.{mod-lt}
use babo_matching_engine.Prelude.{
  ℕ, zero, suc, ◌+◌, ◌%◌, ◌≤◌, ◌<◌, min, ◌≡◌, ◌≢◌, ◌⊎◌, refl, sym, ap, ◌∙◌, true, false, ◌||◌,
  Option, none, some, List, [], ◌∷◌, length, arith, has, ltb, ◌==◌, if◌then◌else◌, Bool-cases, inl,
  inr, subst,
}
use babo_matching_engine.Bench.Harness.Batch.{Ascending}

-- `std::set::insert`: the set as its ascending list.
unfoldable pub set_insert : ℕ → List ℕ → List ℕ
set_insert k [] = k ∷ []
set_insert k (x ∷ xs) =
    let rest = set_insert k xs in
    if ltb k x then k ∷ x ∷ xs else if k == x then x ∷ xs else x ∷ rest

-- `while (picked.size() < want) picked.insert(rng() % count)`, from draw `i` on; `none` when the
-- fuel runs out.
unfoldable pub pick_loop : ℕ → (ℕ → ℕ) → (i count want : ℕ) → List ℕ → Option (List ℕ)
pick_loop zero rng i count want picked = none
pick_loop (suc fuel) rng i count want picked =
    let rest = pick_loop fuel rng (suc i) count want (set_insert (rng i % count) picked) in
    if ltb (length picked) want then rest else some picked

-- A negative `n` asks for nothing, as 0 does.
unfoldable pub audit_pick_indices : ℕ → (ℕ → ℕ) → (count n : ℕ) → Option (List ℕ)
audit_pick_indices fuel rng count n =
    if count == 0 || n == 0 then some [] else pick_loop fuel rng 0 count (min n count) []

Ascending-set_insert :
    (k lo end : ℕ) (xs : List ℕ)
    → lo ≤ k
    → k < end
    → Ascending lo end xs
    → Ascending lo end (set_insert k xs)
unfolding set_insert
Ascending-set_insert k lo end [] b h a = (b, h, tt)
Ascending-set_insert k lo end (x ∷ xs) b h a = elim (Bool-cases (ltb k x)) [
  | inl e ↦ rw (e, set_insert) (b, h, (ground (arith, e), a.1, a.2))
  | inr e ↦ elim (Bool-cases (k == x)) [
    | inl f ↦ rw (e, f, set_insert) a
    | inr f ↦
        rw (e, f, set_insert)
          (a.0, a.1, Ascending-set_insert k (suc x) end xs (ground (arith, e, f)) h a.2)
  ]
]

length-set_insert :
    (k : ℕ) (xs : List ℕ)
    → (length (set_insert k xs) ≤ suc (length xs)) × (length xs ≤ length (set_insert k xs))
unfolding set_insert
length-set_insert k [] = (omega arith, omega arith)
length-set_insert k (x ∷ xs) = ground (arith, length-set_insert k xs)

has-set_insert : (k j : ℕ) (xs : List ℕ) → has j (set_insert k xs) ≡ ((j == k) || has j xs)
unfolding set_insert
has-set_insert k j [] = refl
has-set_insert k j (x ∷ xs) = ground (arith, has-set_insert k j xs)

has-below : (j lo end : ℕ) (xs : List ℕ) → j < lo → Ascending lo end xs → has j xs ≡ false
has-below j lo end [] h a = refl
has-below j lo end (x ∷ xs) h a =
    let rest = has-below j (suc x) end xs (omega (arith, h, a.0)) a.2 in
    ground (arith, rest, h, a.0)

-- An ascending list that has every number below a bound has that many.
length-all :
    (n lo end : ℕ) (xs : List ℕ)
    → Ascending lo end xs
    → ((j : ℕ) → lo ≤ j → j < lo + n → has j xs ≡ true)
    → n ≤ length xs
length-all zero lo end xs a h = omega arith
length-all (suc n) lo end [] a h =
    let gone : false ≡ true = h lo (omega arith) (omega arith) in absurd (ground (arith, gone))
length-all (suc n) lo end (x ∷ xs) a h =
    let first = h lo (omega arith) (omega arith) in
    let absent : lo < x → has lo xs ≡ false =
      λ k. has-below lo (suc x) end xs (omega (arith, k)) a.2 in
    let at : x ≡ lo = ground (arith, first, absent, a.0) in
    let rest = length-all n (suc lo) end xs (subst (λ y. Ascending (suc y) end xs) at a.2) (λ j b k.
      let here = h j (omega (arith, b)) (omega (arith, k)) in ground (arith, here, at, b)) in
    omega (arith, rest)

-- Every number below `count` is picked, or drawn by one of the next `fuel` draws.
abbrev pub Covers : ℕ → (ℕ → ℕ) → (i count : ℕ) → List ℕ → Type 0
Covers fuel rng i count picked =
    (j : ℕ)
    → j < count
    → (has j picked ≡ true) ⊎ ((d : ℕ) × (i ≤ d) × (d < i + fuel) × (rng d % count ≡ j))

-- The indices that a pick returns.
abbrev pub Picks : (count want : ℕ) → Option (List ℕ) → Type 0
Picks count want none = ⊥
Picks count want (some idx) = Ascending 0 count idx × (length idx ≡ want)

covered-now :
    (rng : ℕ → ℕ) (i j count : ℕ) (picked : List ℕ)
    → (has j picked ≡ true) ⊎ ((d : ℕ) × (i ≤ d) × (d < i + 0) × (rng d % count ≡ j))
    → has j picked ≡ true
covered-now rng i j count picked (inl e) = e
covered-now rng i j count picked (inr (d, a, b, e)) = absurd (omega (arith, a, b))

covered-next :
    (fuel : ℕ) (rng : ℕ → ℕ) (i j count : ℕ) (picked : List ℕ)
    → (has j picked ≡ true) ⊎ ((d : ℕ) × (i ≤ d) × (d < i + suc fuel) × (rng d % count ≡ j))
    → (has j (set_insert (rng i % count) picked) ≡ true)
      ⊎ ((d : ℕ) × (suc i ≤ d) × (d < suc i + fuel) × (rng d % count ≡ j))
covered-next fuel rng i j count picked (inl e) =
    inl (ground (arith, has-set_insert (rng i % count) j picked, e))
covered-next fuel rng i j count picked (inr (d, a, b, e)) = elim (Bool-cases (d == i)) [
  | inl t ↦
      let same : d ≡ i = ground (arith, t) in
      let k : rng i % count ≡ j = ap (λ x. rng x % count) (sym same) ∙ e in
      inl (ground (arith, has-set_insert (rng i % count) j picked, k))
  | inr t ↦ inr (d, ground (arith, t, a), omega (arith, b), e)
]

pick_loop-Picks :
    (fuel : ℕ) (rng : ℕ → ℕ) (i count want : ℕ) (picked : List ℕ)
    → count ≢ 0
    → want ≤ count
    → length picked ≤ want
    → Ascending 0 count picked
    → Covers fuel rng i count picked
    → Picks count want (pick_loop (suc fuel) rng i count want picked)
unfolding pick_loop
pick_loop-Picks zero rng i count want picked c w l a h =
    let all =
      length-all count 0 count picked a
        (λ j b k. covered-now rng i j count picked (h j (omega (arith, k)))) in
    let full : ltb (length picked) want ≡ false = ground (arith, all, w) in
    rw (full, pick_loop) (a, omega (arith, l, all, w))
pick_loop-Picks (suc fuel) rng i count want picked c w l a h =
    elim (Bool-cases (ltb (length picked) want)) [
      | inr e ↦ rw (e, pick_loop) (a, ground (arith, e, l))
      | inl e ↦
          let k = rng i % count in
          let longer = (length-set_insert k picked).0 in
          let below : k < count = mod-lt (rng i) (omega (arith, c)) in
          rw (e, pick_loop)
            (pick_loop-Picks fuel rng (suc i) count want (set_insert k picked) c w
              (ground (arith, e, longer))
              (Ascending-set_insert k 0 count picked (omega arith) below a)
              (λ j b. covered-next fuel rng i j count picked (h j b)))
    ]

-- When the draws of the generator, up to a number of them, leave every remainder of the size of
-- the workload, the choice of the probes ends within one round more than these draws and returns
-- the smaller of the wanted number and the size, as distinct indices of the workload in ascending
-- order.
pub audit_pick_indices-Picks :
    (fuel : ℕ) (rng : ℕ → ℕ) (count n : ℕ)
    → Covers fuel rng 0 count []
    → Picks count (min n count) (audit_pick_indices (suc fuel) rng count n)
unfolding audit_pick_indices
audit_pick_indices-Picks fuel rng count n h = elim (Bool-cases (count == 0 || n == 0)) [
  | inl e ↦ rw (e, audit_pick_indices) (tt, ground (arith, e))
  | inr e ↦
      rw (e, audit_pick_indices)
        (pick_loop-Picks fuel rng 0 count (min n count) [] (ground (arith, e)) (omega arith)
          (omega arith) tt h)
]
