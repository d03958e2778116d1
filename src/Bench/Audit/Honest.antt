-- ===== src/Bench/Audit/Honest.antt =====
-- An engine that is audited against itself passes.
use babo_matching_engine.Prelude.{
  ℕ, suc, ◌+◌, ◌*◌, ◌≤◌, ◌<◌, ◌≡◌, ◌≢◌, refl, sym, ap, ◌∙◌, true, false, List, [], ◌∷◌, length,
  arith, ◌==◌, Bool-cases, inl, inr, subst,
}
use babo_matching_engine.Prelude.Words.{u32_mod}
use babo_matching_engine.Bench.{EngineLib}
use babo_matching_engine.Bench.Workload.{WorkloadMsg}
use babo_matching_engine.Bench.Harness.{
  QuerySnapshot, prepare, dispatch, probe, run_each, run, prebuilt, prestart_book_empty,
}
use babo_matching_engine.Bench.Harness.Batch.{Ascending, ascend, run_each-hit, run_each-miss}
use babo_matching_engine.Bench.Adapter.{Adapter, babobook}
use babo_matching_engine.Bench.Adapter.Session.{run-run_each}
use babo_matching_engine.Bench.Audit.{started, run_state_audit}
use babo_matching_engine.Bench.Audit.Verdict.{Probed, ProbedIf, indices, run_state_audit-passed}

Probed-later :
    (i k : ℕ) (ks : List ℕ) (m : WorkloadMsg) (ms : List WorkloadMsg) (got : List QuerySnapshot)
    → (i == k) ≡ false
    → indices got ≡ k ∷ ks
    → Probed (suc i) ms got
    → Probed i (m ∷ ms) got
Probed-later i k ks m ms [] t e h = tt
Probed-later i k ks m ms (ut ∷ uts) t e h =
    let at : ut.index ≡ k = cc in
    let skip : (ut.index == i) ≡ false = ground (arith, t, at) in
    subst (ProbedIf i m ms ut uts) (sym skip) h

-- The snapshots are at the given indices, and ask for the price and the side of their messages.
abbrev Records : List WorkloadMsg → ℕ → List ℕ → List QuerySnapshot → Type 0
Records ms i idx got = Probed i ms got × (indices got ≡ idx)

module _ {ℓ} {E : Type ℓ} (eng : EngineLib E) where
  run_each-none : (ms : List WorkloadMsg) (i : ℕ) (e : E) → (run_each eng ms i [] e).0 ≡ []
  unfolding run_each
  run_each-none [] i e = refl
  run_each-none (m ∷ ms) i e = run_each-none ms (suc i) (dispatch eng e (prepare m))

  Records-hit :
      (m : WorkloadMsg) (ms : List WorkloadMsg) (k : ℕ) (ks : List ℕ) (e : E)
      (got : List QuerySnapshot)
      → Records ms (suc k) ks got
      → Records (m ∷ ms) k (k ∷ ks) ((probe eng k m e).0 ∷ got)
  unfolding probe
  Records-hit m ms k ks e got (h, same) =
      let here : (k == k) ≡ true = ground arith in
      (subst (ProbedIf k m ms (probe eng k m e).0 got) (sym here) (refl, refl, h), ap (◌∷◌ k) same)

  run_each-Records :
      (ms : List WorkloadMsg) (i : ℕ) (idx : List ℕ) (e : E)
      → Ascending i (i + length ms) idx
      → Records ms i idx (run_each eng ms i idx e).0
  run_each-Records ms i [] e a = subst (Records ms i []) (sym (run_each-none ms i e)) (tt, refl)
  run_each-Records [] i (k ∷ ks) e a = absurd (omega (arith, a.0, a.1))
  run_each-Records (m ∷ ms) i (k ∷ ks) e a =
      let e1 = dispatch eng e (prepare m) in
      elim (Bool-cases (i == k)) [
        | inl t ↦
            let at : k ≡ i = ground (arith, t) in
            let p = probe eng k m e1 in
            let more = ascend (omega (arith, at)) (suc k) ks a.2 in
            subst (λ j. Records (m ∷ ms) j (k ∷ ks) (run_each eng (m ∷ ms) j (k ∷ ks) e).0) at
              (subst (Records (m ∷ ms) k (k ∷ ks))
                (sym (ap (λ (r : List QuerySnapshot × E). r.0) (run_each-hit eng m ms k ks e)))
                (Records-hit m ms k ks e1 _ (run_each-Records ms (suc k) ks p.1 more)))
        | inr t ↦
            let below : suc i ≤ k = ground (arith, t, a.0) in
            let more = ascend (omega arith) (suc i) (k ∷ ks) (below, a.1, a.2) in
            let rest = run_each-Records ms (suc i) (k ∷ ks) e1 more in
            subst (Records (m ∷ ms) i (k ∷ ks))
              (sym (ap (λ (r : List QuerySnapshot × E). r.0) (run_each-miss eng m ms i k ks e t)))
              (Probed-later i k ks m ms _ t rest.1 rest.0, rest.1)
      ]

-- The adapter as the harness starts it, and as the audit does.
abbrev pub start_of_run : (N size seed : ℕ) → List WorkloadMsg → Adapter
start_of_run N size seed workload =
    let eng = babobook N size in (prestart_book_empty eng (prebuilt eng (eng.init seed) workload)).1

started-start_of_run :
    (N size seed : ℕ) (workload : List WorkloadMsg)
    → started (babobook N size) workload ≡ start_of_run N size seed workload
unfolding started prebuilt prestart_book_empty babobook
started-start_of_run N size seed workload = refl

length-indices : (uts : List QuerySnapshot) → length (indices uts) ≡ length uts
length-indices [] = refl
length-indices (ut ∷ uts) = ap suc (length-indices uts)

indices-nonempty :
    (uts : List QuerySnapshot) (idx : List ℕ) → indices uts ≡ idx → idx ≢ [] → uts ≢ []
indices-nonempty uts idx e n h = n (sym e ∙ ap indices h)

-- The babobook adapter, run by the harness over a workload of fewer than 2^32 messages with at
-- least one probe at ascending indices, passes the audit against itself, with three comparisons
-- for each probe.
pub run_state_audit-babobook :
    (N size seed : ℕ) (workload : List WorkloadMsg) (idx : List ℕ)
    → idx ≢ []
    → Ascending 0 (length workload) idx
    → length workload < u32_mod
    → let uts = (run (babobook N size) workload idx (start_of_run N size seed workload)).0 in
      ((run_state_audit (babobook N size) workload uts).passed ≡ true)
      × ((run_state_audit (babobook N size) workload uts).checks ≡ 3 * length idx)
run_state_audit-babobook N size seed workload idx n a h =
    let eng = babobook N size in
    let e0 = start_of_run N size seed workload in
    let own = (run_each eng workload 0 idx e0).0 in
    let recorded =
      run_each-Records eng workload 0 idx e0 (subst (λ end. Ascending 0 end idx) (omega arith) a) in
    let verdict =
      run_state_audit-passed eng workload own (indices-nonempty own idx recorded.1 n) recorded.0 in
    let passes = verdict.1.1 (
      ap (λ (v : List ℕ). (run_each eng workload 0 v e0).0) (sym recorded.1)
      ∙ ap (λ (e : Adapter). (run_each eng workload 0 (indices own) e).0)
          (sym (started-start_of_run N size seed workload))) in
    let counted =
      verdict.0
      ∙ ap (λ k. 3 * k) (sym (length-indices own) ∙ ap (λ (v : List ℕ). length v) recorded.1) in
    subst
      (λ (uts : List QuerySnapshot).
        ((run_state_audit eng workload uts).passed ≡ true)
        × ((run_state_audit eng workload uts).checks ≡ 3 * length idx))
      (sym
        (ap (λ (r : List QuerySnapshot × Adapter). r.0) (run-run_each N size workload idx e0 a h)))
      (passes, counted)
