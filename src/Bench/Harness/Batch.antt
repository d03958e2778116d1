-- ===== src/Bench/Harness/Batch.antt =====
-- The two ways of a run give the same answers.
use babo_matching_engine.Prelude.{
  ℕ, suc, ◌+◌, ◌-◌, ◌%◌, ◌≤◌, ◌<◌, ◌≡◌, refl, sym, ap, ◌∙◌, true, false, none, some, List, [], ◌∷◌,
  map, take, drop, get_elem?, length, arith, ◌==◌, Bool-cases, inl, inr, subst,
}
use babo_matching_engine.Prelude.Words.{u32_mod}
use babo_matching_engine.Bench.{Msg, EngineLib}
use babo_matching_engine.Bench.Workload.{WorkloadMsg}
use babo_matching_engine.Bench.Harness.{
  prepare, QuerySnapshot, dispatch, probe, run_each, run_batches,
}

-- Indices in ascending order, from `i` on and below `end`.
abbrev pub Ascending : ℕ → ℕ → List ℕ → Type 0
Ascending i end [] = Unit {0}
Ascending i end (k ∷ ks) = (i ≤ k) × (k < end) × Ascending (suc k) end ks

pub ascend :
    {end end' : ℕ} → end ≡ end' → (i : ℕ) (ks : List ℕ) → Ascending i end ks → Ascending i end' ks
ascend e i ks a = subst (λ t. Ascending i t ks) e a

module _ {ℓ} {E : Type ℓ} (eng : EngineLib E) where
  -- The messages one after another, as the contract of `engine_on_batch` says.
  abbrev pub dispatch_all : E → List Msg → E
  dispatch_all e [] = e
  dispatch_all e (m ∷ ms) = dispatch_all (dispatch eng e m) ms

  abbrev pub with_snapshot : QuerySnapshot → List QuerySnapshot × E → List QuerySnapshot × E
  with_snapshot s rest = (s ∷ rest.0, rest.1)

  -- A round of the loop at an index, and one at no index.
  pub run_each-hit :
      (m : WorkloadMsg) (ms : List WorkloadMsg) (k : ℕ) (ks : List ℕ) (e : E)
      → let p = probe eng k m (dispatch eng e (prepare m)) in
        run_each eng (m ∷ ms) k (k ∷ ks) e ≡ with_snapshot p.0 (run_each eng ms (suc k) ks p.1)
  unfolding run_each
  run_each-hit m ms k ks e = let here : (k == k) ≡ true = ground arith in rw (here, run_each) refl

  pub run_each-miss :
      (m : WorkloadMsg) (ms : List WorkloadMsg) (i k : ℕ) (ks : List ℕ) (e : E)
      → (i == k) ≡ false
      → run_each eng (m ∷ ms) i (k ∷ ks) e
        ≡ run_each eng ms (suc i) (k ∷ ks) (dispatch eng e (prepare m))
  unfolding run_each
  run_each-miss m ms i k ks e later = rw (later, run_each) refl

  module _ (on_batch : E → List Msg → E)
      (in_order : (e : E) (ms : List Msg) → on_batch e ms ≡ dispatch_all e ms) where
    on_batch-cons :
        (e : E) (m : Msg) (ms : List Msg) → on_batch e (m ∷ ms) ≡ on_batch (dispatch eng e m) ms
    on_batch-cons e m ms = in_order e (m ∷ ms) ∙ sym (in_order (dispatch eng e m) ms)

    -- What follows a batch of `n` messages that ends with the one at `at`.
    abbrev after_batch : (k n at : ℕ) → List ℕ → List WorkloadMsg → E → List QuerySnapshot × E
    after_batch k n at ks ms e1 = elim (get_elem? ms at) [
      | none ↦ ([], e1)
      | some m ↦
          let (s, e2) = probe eng k m e1 in
          let rest = run_batches eng on_batch ks (suc k) (drop n ms) e2 in (s ∷ rest.0, rest.1)
    ]

    run_batches-after_batch :
        (k i : ℕ) (ks : List ℕ) (ms : List WorkloadMsg) (e : E) (n at : ℕ)
        → (suc k - i) % u32_mod ≡ n
        → k - i ≡ at
        → run_batches eng on_batch (k ∷ ks) i ms e
          ≡ after_batch k n at ks ms (on_batch e (map prepare (take n ms)))
    unfolding run_batches
    run_batches-after_batch k i ks ms e n at x y =
        ap (λ v. after_batch k v (k - i) ks ms (on_batch e (map prepare (take v ms)))) x
        ∙ ap (λ v. after_batch k n v ks ms (on_batch e (map prepare (take n ms)))) y

    run_batches-tail :
        (ms : List WorkloadMsg) (i : ℕ) (e : E)
        → run_batches eng on_batch [] i ms e ≡ ([], dispatch_all e (map prepare ms))
    unfolding run_batches
    run_batches-tail [] i e = refl
    run_batches-tail (m ∷ ms) i e = ap (λ (t : E). ([], t)) (in_order e (map prepare (m ∷ ms)))

    pub run_batches-run_each :
        (ms : List WorkloadMsg) (i : ℕ) (idx : List ℕ) (e : E)
        → Ascending i (i + length ms) idx
        → i + length ms < u32_mod
        → run_batches eng on_batch idx i ms e ≡ run_each eng ms i idx e
    unfolding run_each
    run_batches-run_each [] i [] e a h = run_batches-tail [] i e
    run_batches-run_each [] i (k ∷ ks) e a h = absurd (omega (arith, a.0, a.1))
    run_batches-run_each (m ∷ ms) i [] e a h =
        let e1 = dispatch eng e (prepare m) in
        run_batches-tail (m ∷ ms) i e
        ∙ sym (run_batches-tail ms (suc i) e1)
        ∙ run_batches-run_each ms (suc i) [] e1 tt (omega (arith, h))
    run_batches-run_each (m ∷ ms) i (k ∷ ks) e a h =
        let e1 = dispatch eng e (prepare m) in
        let (s, e2) = probe eng k m e1 in
        elim (Bool-cases (i == k)) [
          | inl here ↦
              let same : i ≡ k = ground (arith, here) in
              let rest =
                run_batches-run_each ms (suc k) ks e2 (ascend (omega (arith, same)) (suc k) ks a.2)
                  (omega (arith, same, h)) in
              run_batches-after_batch k i ks (m ∷ ms) e 1 0 (omega (arith, same))
                (omega (arith, same))
              ∙ ap (λ (c : E). after_batch k 1 0 ks (m ∷ ms) c) (in_order e (prepare m ∷ []))
              ∙ ap (with_snapshot s) rest
              ∙ sym (run_each-hit m ms k ks e)
              ∙ ap (λ j. run_each eng (m ∷ ms) j (k ∷ ks) e) (sym same)
          | inr later ↦
              let below : i < k = ground (arith, later, a.0) in
              let n = (suc k - suc i) % u32_mod in
              run_batches-after_batch k i ks (m ∷ ms) e (suc n) (suc (k - suc i))
                (omega (arith, below, a.1, h)) (omega (arith, below))
              ∙ ap (after_batch k n (k - suc i) ks ms)
                  (on_batch-cons e (prepare m) (map prepare (take n ms)))
              ∙ sym (run_batches-after_batch k (suc i) ks ms e1 n (k - suc i) refl refl)
              ∙ run_batches-run_each ms (suc i) (k ∷ ks) e1
                  (ascend (omega arith) (suc i) (k ∷ ks) ((omega (arith, below), a.1, a.2)))
                  (omega (arith, h))
              ∙ sym (run_each-miss m ms i k ks e later)
        ]
