-- ===== src/Bench/Audit/Verdict.antt =====
-- The verdict of the audit: it passes exactly when the engine under test gave the answers that the
-- baseline gives in a run of its own.
use babo_matching_engine.Prelude.{
  ℕ, suc, ◌+◌, ◌*◌, ◌≡◌, ◌≢◌, ◌↔◌, refl, sym, ap, ◌∙◌, Bool, true, false, List, [], ◌∷◌, length,
  arith, ◌==◌, Bool-cases, inl, inr, subst,
}
use babo_matching_engine.Prelude.Int.{ℤ, ◌==ℤ◌, ==ℤ→eq, ==ℤ-refl}
use babo_matching_engine.Bench.{EngineLib}
use babo_matching_engine.Bench.Workload.{WorkloadMsg}
use babo_matching_engine.Bench.Harness.{QuerySnapshot, prepare, dispatch, probe, run_each}
use babo_matching_engine.Bench.Harness.Batch.{run_each-hit, run_each-miss}
use babo_matching_engine.Bench.Audit.{
  miss, feed, compare_at, replay, Tally, started, run_state_audit,
}

-- The snapshots are at ascending indices of the workload, from the message at `i` on, and each
-- asked for the price and the side of its message.
abbrev pub Probed : ℕ → List WorkloadMsg → List QuerySnapshot → Type 0
Probed i ms [] = Unit {0}
Probed i [] (ut ∷ uts) = ⊥
Probed i (m ∷ ms) (ut ∷ uts) = elim (ut.index == i) [
  | true ↦ (ut.probe_price ≡ m.price_ticks) × (ut.probe_side ≡ m.side) × Probed (suc i) ms uts
  | false ↦ Probed (suc i) ms (ut ∷ uts)
]

abbrev pub indices : List QuerySnapshot → List ℕ
indices [] = []
indices (ut ∷ uts) = ut.index ∷ indices uts

miss-zero : (t : Bool) → miss t ≡ 0 → t ≡ true
miss-zero true h = refl
miss-zero false h = absurd (omega (arith, h))

snapshot-eq :
    (ut : QuerySnapshot) {bid ask price : ℤ} {side_of dep : ℕ}
    → ut.best_bid ≡ bid
    → ut.best_ask ≡ ask
    → ut.probe_price ≡ price
    → ut.probe_side ≡ side_of
    → ut.depth ≡ dep
    → ut ≡ record {
      index = ut.index;
      best_bid = bid;
      best_ask = ask;
      probe_price = price;
      probe_side = side_of;
      depth = dep;
    }
snapshot-eq ut b a x y d = cc

abbrev pub ProbedIf :
    ℕ → WorkloadMsg → List WorkloadMsg → QuerySnapshot → List QuerySnapshot → Bool → Type 0
ProbedIf i m ms ut uts true =
    (ut.probe_price ≡ m.price_ticks) × (ut.probe_side ≡ m.side) × Probed (suc i) ms uts
ProbedIf i m ms ut uts false = Probed (suc i) ms (ut ∷ uts)

Probed-hit :
    (i : ℕ) (m : WorkloadMsg) (ms : List WorkloadMsg) (ut : QuerySnapshot)
    (uts : List QuerySnapshot)
    → (ut.index == i) ≡ true
    → Probed i (m ∷ ms) (ut ∷ uts)
    → (ut.probe_price ≡ m.price_ticks) × (ut.probe_side ≡ m.side) × Probed (suc i) ms uts
Probed-hit i m ms ut uts t h = subst (ProbedIf i m ms ut uts) t h

Probed-miss :
    (i : ℕ) (m : WorkloadMsg) (ms : List WorkloadMsg) (ut : QuerySnapshot)
    (uts : List QuerySnapshot)
    → (ut.index == i) ≡ false
    → Probed i (m ∷ ms) (ut ∷ uts)
    → Probed (suc i) ms (ut ∷ uts)
Probed-miss i m ms ut uts t h = subst (ProbedIf i m ms ut uts) t h

module _ {ℓ} {E : Type ℓ} (baseline : EngineLib E) where
  -- The audit and the harness make the same calls for a message.
  feed-dispatch : (e : E) (m : WorkloadMsg) → feed baseline e m ≡ dispatch baseline e (prepare m)
  unfolding feed dispatch prepare
  feed-dispatch e m = elim (Bool-cases (m.type == 0)) [
    | inl t ↦ rw (t, feed, dispatch, prepare) refl
    | inr t ↦ elim (Bool-cases (m.type == 1)) [
      | inl u ↦ rw (t, u, feed, dispatch, prepare) refl
      | inr u ↦ rw (t, u, feed, dispatch, prepare) refl
    ]
  ]

  -- The comparison with a snapshot against the snapshot that the baseline gives.
  compare_at-probe :
      (ut : QuerySnapshot) (m : WorkloadMsg) (e : E)
      → ut.probe_price ≡ m.price_ticks
      → ut.probe_side ≡ m.side
      → let p = probe baseline ut.index m e in
        ((compare_at baseline ut e).1 ≡ p.1)
        × ((compare_at baseline ut e).0 ≡ 0 → ut ≡ p.0)
        × (ut ≡ p.0 → (compare_at baseline ut e).0 ≡ 0)
  unfolding compare_at probe
  compare_at-probe ut m e x y =
      let (bid, e1) = baseline.query_best_bid e in
      let (ask, e2) = baseline.query_best_ask e1 in
      let d = baseline.query_depth_at e2 in
      let asked : d ut.probe_price ut.probe_side ≡ d m.price_ticks m.side = cc in
      (
        ap (λ (r : ℕ × E). r.1) asked,
        λ none_wrong.
            let b : bid ≡ ut.best_bid = ==ℤ→eq _ _ (miss-zero _ (omega (arith, none_wrong))) in
            let a : ask ≡ ut.best_ask = ==ℤ→eq _ _ (miss-zero _ (omega (arith, none_wrong))) in
            let t =
              miss-zero ((d ut.probe_price ut.probe_side).0 == ut.depth)
                (omega (arith, none_wrong)) in
            let same : (d ut.probe_price ut.probe_side).0 ≡ ut.depth = ground (arith, t) in
            snapshot-eq ut (sym b) (sym a) x y (sym same ∙ ap (λ (r : ℕ × E). r.0) asked),
        λ same.
            let b : (bid ==ℤ ut.best_bid) ≡ true =
              subst (λ z. (bid ==ℤ z) ≡ true) (sym (ap (λ (u : QuerySnapshot). u.best_bid) same))
                (==ℤ-refl bid) in
            let a : (ask ==ℤ ut.best_ask) ≡ true =
              subst (λ z. (ask ==ℤ z) ≡ true) (sym (ap (λ (u : QuerySnapshot). u.best_ask) same))
                (==ℤ-refl ask) in
            let same_depth : (d ut.probe_price ut.probe_side).0 ≡ ut.depth =
              ap (λ (r : ℕ × E). r.0) asked ∙ sym (ap (λ (u : QuerySnapshot). u.depth) same) in
            let t : ((d ut.probe_price ut.probe_side).0 == ut.depth) ≡ true =
              ground (arith, same_depth) in
            rw (b, a, t) refl,
      )

  -- What a replay finds of the snapshots, against the snapshots of a run of the baseline.
  record Agrees (uts : List QuerySnapshot) (r : Tally E) (own : List QuerySnapshot) : Type ℓ where
    checks : r.checks ≡ 3 * length uts
    sound : r.mismatches ≡ 0 → uts ≡ own
    complete : uts ≡ own → r.mismatches ≡ 0

  replay-none :
      (ms : List WorkloadMsg) (i : ℕ) (e : E)
      → (replay baseline ms i [] e ≡ record { checks = 0; mismatches = 0; engine = e })
        × ((run_each baseline ms i [] e).0 ≡ [])
  unfolding replay run_each
  replay-none [] i e = (refl, refl)
  replay-none (m ∷ ms) i e = (refl, (replay-none ms (suc i) (dispatch baseline e (prepare m))).1)

  replay-hit :
      (m : WorkloadMsg) (ms : List WorkloadMsg) (ut : QuerySnapshot) (uts : List QuerySnapshot)
      (e : E)
      → let c = compare_at baseline ut (feed baseline e m) in
        let rest = replay baseline ms (suc ut.index) uts c.1 in
        replay baseline (m ∷ ms) ut.index (ut ∷ uts) e ≡ record {
          checks = 3 + rest.checks;
          mismatches = c.0 + rest.mismatches;
          engine = rest.engine;
        }
  unfolding replay
  replay-hit m ms ut uts e =
      let here : (ut.index == ut.index) ≡ true = ground arith in rw (here, replay) refl

  replay-miss :
      (m : WorkloadMsg) (ms : List WorkloadMsg) (i : ℕ) (ut : QuerySnapshot)
      (uts : List QuerySnapshot) (e : E)
      → (ut.index == i) ≡ false
      → replay baseline (m ∷ ms) i (ut ∷ uts) e
        ≡ replay baseline ms (suc i) (ut ∷ uts) (feed baseline e m)
  unfolding replay
  replay-miss m ms i ut uts e later = rw (later, replay) refl

  -- The tally after a comparison, over the tally of what follows.
  abbrev counted : ℕ → Tally E → Tally E
  counted wrong rest = record {
    checks = 3 + rest.checks;
    mismatches = wrong + rest.mismatches;
    engine = rest.engine;
  }

  Agrees-hit :
      (ut s : QuerySnapshot) (uts own : List QuerySnapshot) (wrong : ℕ) (rest : Tally E)
      → (wrong ≡ 0 → ut ≡ s)
      → (ut ≡ s → wrong ≡ 0)
      → Agrees uts rest own
      → Agrees (ut ∷ uts) (counted wrong rest) (s ∷ own)
  Agrees-hit ut s uts own wrong rest f g a = record {
    checks = omega (arith, a.checks);
    sound = λ z.
        let x : ut ≡ s = f (omega (arith, z)) in
        let y : uts ≡ own = a.sound (omega (arith, z)) in cc;
    complete =
        λ z. let x : ut ≡ s = cc in let y : uts ≡ own = cc in omega (arith, g x, a.complete y);
  }

  both :
      (uts : List QuerySnapshot) {r q : Tally E} {own other : List QuerySnapshot}
      → r ≡ q
      → own ≡ other
      → Agrees uts q other
      → Agrees uts r own
  both uts {own = own} x y a =
      subst (λ z. Agrees uts z own) (sym x) (subst (Agrees uts _) (sym y) a)

  abbrev AgreesFrom : List WorkloadMsg → ℕ → List QuerySnapshot → E → Type ℓ
  AgreesFrom ms i uts e =
      Agrees uts (replay baseline ms i uts e) (run_each baseline ms i (indices uts) e).0

  replay-Agrees :
      (ms : List WorkloadMsg) (i : ℕ) (uts : List QuerySnapshot) (e : E)
      → Probed i ms uts
      → AgreesFrom ms i uts e
  replay-Agrees ms i [] e h =
      let (x, y) = replay-none ms i e in
      record {
        checks = ap (λ (r : Tally E). r.checks) x ∙ omega arith;
        sound = λ z. sym y;
        complete = λ z. ap (λ (r : Tally E). r.mismatches) x;
      }
  replay-Agrees [] i (ut ∷ uts) e h = absurd h
  replay-Agrees (m ∷ ms) i (ut ∷ uts) e h = elim (Bool-cases (ut.index == i)) [
    | inl t ↦
        let at : ut.index ≡ i = ground (arith, t) in
        let (x, y, more) = Probed-hit i m ms ut uts t h in
        let e1 = dispatch baseline e (prepare m) in
        let own = probe baseline ut.index m e1 in
        let c = compare_at-probe ut m e1 x y in
        let rest =
          replay-Agrees ms (suc ut.index) uts own.1
            (subst (λ j. Probed (suc j) ms uts) (sym at) more) in
        subst (λ j. AgreesFrom (m ∷ ms) j (ut ∷ uts) e) at
          (both (ut ∷ uts)
            (replay-hit m ms ut uts e
              ∙ ap
                  (λ f.
                    let d = compare_at baseline ut f in
                    counted d.0 (replay baseline ms (suc ut.index) uts d.1))
                  (feed-dispatch e m)
              ∙ ap
                  (λ f.
                    counted (compare_at baseline ut e1).0 (replay baseline ms (suc ut.index) uts f))
                  c.0)
            (ap (λ (r : List QuerySnapshot × E). r.0)
              (run_each-hit baseline m ms ut.index (indices uts) e))
            (Agrees-hit ut own.0 uts _ _ _ c.1 c.2 rest))
    | inr t ↦
        let e1 = dispatch baseline e (prepare m) in
        let later = replay-Agrees ms (suc i) (ut ∷ uts) e1 (Probed-miss i m ms ut uts t h) in
        let skip : (i == ut.index) ≡ false = ground (arith, t) in
        both (ut ∷ uts)
          (replay-miss m ms i ut uts e t
            ∙ ap (replay baseline ms (suc i) (ut ∷ uts)) (feed-dispatch e m))
          (ap (λ (r : List QuerySnapshot × E). r.0)
            (run_each-miss baseline m ms i ut.index (indices uts) e skip))
          later
  ]

  -- For snapshots, at least one, at ascending indices of the workload, that asked for the price
  -- and the side of their messages, the audit makes three comparisons for each, and passes
  -- exactly when the snapshots are those that the harness would record of a run of the baseline.
  pub run_state_audit-passed :
      (workload : List WorkloadMsg) (uts : List QuerySnapshot)
      → uts ≢ []
      → Probed 0 workload uts
      → ((run_state_audit baseline workload uts).checks ≡ 3 * length uts)
        × (((run_state_audit baseline workload uts).passed ≡ true)
            ↔ (uts ≡ (run_each baseline workload 0 (indices uts) (started baseline workload)).0))
  unfolding run_state_audit
  run_state_audit-passed workload [] n h = absurd (n refl)
  run_state_audit-passed workload (ut ∷ uts) n h =
      let a = replay-Agrees workload 0 (ut ∷ uts) (started baseline workload) h in
      (
        a.checks,
        (λ p. a.sound (ground (arith, p)), λ same. ground (arith, a.checks, a.complete same)),
      )
