-- ===== src/Perf/Shuffle.antt =====
-- The shuffle cancels every order once, and the prices are within the levels.
use native.Mathlib.Nat.{mod-lt}
use babo_matching_engine.Prelude.{
  ℕ, zero, suc, ◌+◌, ◌-◌, ◌%◌, ◌≤◌, ◌<◌, ◌≡◌, refl, sym, ap, ◌∙◌, false, arith, upd, upd_lem, ltb,
  ◌==◌, if◌then◌else◌, Bool-cases, inl, inr, subst,
}
use babo_matching_engine.Prelude.Int.{pos}
use babo_matching_engine.Prelude.Words.{u32_mod}
use babo_matching_engine.Perf.{base_price, price_for, first_ids, swap, shuffle_from, shuffled_ids}

-- The first `n` entries are the ids from 1 to `n`, each once.
pub record IsOrder (n : ℕ) (ids : ℕ → ℕ) : Type 0 where
  pub within : (i : ℕ) → i < n → (1 ≤ ids i) × (ids i ≤ n)
  pub distinct : (i j : ℕ) → i < n → j < n → ids i ≡ ids j → i ≡ j
  pub complete : (id : ℕ) → 1 ≤ id → id ≤ n → (i : ℕ) × (i < n) × (ids i ≡ id)

-- The index where an entry goes when two are swapped.
swapped : ℕ → ℕ → ℕ → ℕ
swapped a b i = if i == b then a else if i == a then b else i

swap-swapped : (ids : ℕ → ℕ) (a b i : ℕ) → swap ids a b i ≡ ids (swapped a b i)
unfolding swap swapped
swap-swapped ids a b i = elim (Bool-cases (i == b)) [
  | inl e ↦ rw (upd_lem (upd ids a (ids b)) b (ids a) i, e) refl
  | inr e ↦ elim (Bool-cases (i == a)) [
    | inl f ↦ rw (upd_lem (upd ids a (ids b)) b (ids a) i, e, upd_lem ids a (ids b) i, f) refl
    | inr f ↦ rw (upd_lem (upd ids a (ids b)) b (ids a) i, e, upd_lem ids a (ids b) i, f) refl
  ]
]

swapped-lt : (n a b i : ℕ) → a < n → b < n → i < n → swapped a b i < n
unfolding swapped
swapped-lt n a b i x y z = ground (arith, x, y, z)

swapped-swapped : (a b i : ℕ) → swapped a b (swapped a b i) ≡ i
unfolding swapped
swapped-swapped a b i = ground arith

swap-IsOrder :
    (n : ℕ) (ids : ℕ → ℕ) (a b : ℕ) → a < n → b < n → IsOrder n ids → IsOrder n (swap ids a b)
swap-IsOrder n ids a b x y o =
    let to = swapped a b in
    let e = swap-swapped ids a b in
    record {
      within = λ i h.
          subst (λ v. (1 ≤ v) × (v ≤ n)) (sym (e i)) (o.within (to i) (swapped-lt n a b i x y h));
      distinct = λ i j h k same.
          let met =
            o.distinct (to i) (to j) (swapped-lt n a b i x y h) (swapped-lt n a b j x y k)
              (sym (e i) ∙ same ∙ e j) in
          sym (swapped-swapped a b i) ∙ ap to met ∙ swapped-swapped a b j;
      complete = λ id h k.
          let (i, below, at) = o.complete id h k in
          (to i, swapped-lt n a b i x y below, e (to i) ∙ ap ids (swapped-swapped a b i) ∙ at);
    }

shuffle_from-IsOrder :
    (k n : ℕ) (rng : ℕ → ℕ) (draw : ℕ) (ids : ℕ → ℕ)
    → k ≤ n
    → IsOrder n ids
    → IsOrder n (shuffle_from k rng draw ids)
unfolding shuffle_from
shuffle_from-IsOrder zero n rng draw ids h o = o
shuffle_from-IsOrder (suc zero) n rng draw ids h o = o
shuffle_from-IsOrder (suc (suc k)) n rng draw ids h o =
    let j = rng draw % suc (suc k) in
    let below : j < suc (suc k) = mod-lt (rng draw) (omega arith) in
    shuffle_from-IsOrder (suc k) n rng (suc draw) (swap ids (suc k) j) (omega (arith, h))
      (swap-IsOrder n ids (suc k) j (omega (arith, h)) (omega (arith, h, below)) o)

first_ids-IsOrder : (n : ℕ) → n < u32_mod → IsOrder n first_ids
unfolding first_ids
first_ids-IsOrder n h = record {
  within = λ i k. (omega (arith, h, k), omega (arith, h, k));
  distinct = λ i j k l same. omega (arith, h, k, l, same);
  complete = λ id a b. (id - 1, omega (arith, a, b), omega (arith, a, b, h));
}

-- For fewer than 2^32 orders and any draws, the shuffle has every id from 1 to the number of
-- orders exactly once.
pub shuffled_ids-IsOrder : (n : ℕ) (rng : ℕ → ℕ) → n < u32_mod → IsOrder n (shuffled_ids n rng)
unfolding shuffled_ids
shuffled_ids-IsOrder n rng h =
    shuffle_from-IsOrder n n rng 0 first_ids (omega arith) (first_ids-IsOrder n h)

-- With at most `base_price` levels the price is positive and within `levels` of the base.
pub price_for-lt :
    (id levels : ℕ)
    → 1 ≤ levels
    → levels ≤ base_price
    → (p : ℕ) × (price_for id levels ≡ pos p) × (1 ≤ p) × (base_price < p + levels)
unfolding price_for
price_for-lt id levels a b =
    let off = (id - 1) % levels in
    let below : off < levels = mod-lt (id - 1) (omega (arith, a)) in
    let plain : ltb base_price off ≡ false = ground (arith, below, b) in
    (base_price - off, rw (plain, price_for) refl, omega (arith, below, b), omega (arith, below, b))
