-- ===== src/Bench/Audit.antt =====
-- benchmark/src/audit.cpp: the audit replays the workload through a baseline engine and compares its
-- answers with those that the engine under test gave. The baseline starts with the discard
-- transport, which the state of an engine stands for here.
pub mod Verdict
pub mod Honest
pub mod Pick
use babo_matching_engine.Prelude.{
  ℕ, zero, suc, ◌+◌, ◌*◌, Bool, true, false, ◌&&◌, not, Option, none, some, List, [], ◌∷◌, ltb,
  ◌==◌, if◌then◌else◌,
}
use babo_matching_engine.Prelude.Int.{ℤ, ◌==ℤ◌}
use babo_matching_engine.Bench.{
  NewOrder, Cancel, Modify, Msg, new_msg, cancel_msg, modify_msg, EngineLib,
}
use babo_matching_engine.Bench.Workload.{WorkloadMsg}
use babo_matching_engine.Bench.Harness.{QuerySnapshot}

-- The three texts of `note`.
pub data Note : Type 0 where
  no_snapshots matched diverged : Note

-- `AuditReport` of harness.h, without the seed and the name of the baseline.
pub record AuditReport : Type 0 where
  pub ran : Bool
  pub passed : Bool
  pub checks : ℕ
  pub mismatches : ℕ
  pub note : Note

-- The comparisons so far, and the engine.
pub record Tally {ℓ} (E : Type ℓ) : Type ℓ where
  pub checks : ℕ
  pub mismatches : ℕ
  pub engine : E

-- The structs that `prebuild_msg` builds.
unfoldable pub prebuild_msg : WorkloadMsg → Msg
prebuild_msg m =
    if m.type == 0
    then new_msg (record {
      order_id = m.order_id;
      sequence_number = m.seq;
      price_ticks = m.price_ticks;
      quantity = m.qty;
      side = m.side;
      ioc = m.ioc;
    })
    else if m.type == 1
    then cancel_msg (record { order_id = m.order_id; sequence_number = m.seq })
    else modify_msg (record {
      order_id = m.order_id;
      sequence_number = m.seq;
      new_price_ticks = m.price_ticks;
      new_quantity = m.qty;
      side = m.side;
    })

-- `if (a != b) ++r.mismatches`.
abbrev pub miss : Bool → ℕ
miss true = 0
miss false = 1

module _ {ℓ} {E : Type ℓ} (baseline : EngineLib E) where
  unfoldable pub feed : E → WorkloadMsg → E
  feed e m =
      if m.type == 0
      then baseline.on_new_order e (record {
        order_id = m.order_id;
        sequence_number = m.seq;
        price_ticks = m.price_ticks;
        quantity = m.qty;
        side = m.side;
        ioc = m.ioc;
      })
      else if m.type == 1
      then baseline.on_cancel e (record { order_id = m.order_id; sequence_number = m.seq })
      else baseline.on_modify e (record {
        order_id = m.order_id;
        sequence_number = m.seq;
        new_price_ticks = m.price_ticks;
        new_quantity = m.qty;
        side = m.side;
      })

  -- The comparison with one snapshot: how many answers differ.
  unfoldable pub compare_at : QuerySnapshot → E → ℕ × E
  compare_at ut e =
      let (bb, e1) = baseline.query_best_bid e in
      let (ba, e2) = baseline.query_best_ask e1 in
      let (dp, e3) = baseline.query_depth_at e2 ut.probe_price ut.probe_side in
      (miss (bb ==ℤ ut.best_bid) + miss (ba ==ℤ ut.best_ask) + miss (dp == ut.depth), e3)

  -- The replay from the message at `i` on. It ends when no snapshot is left.
  unfoldable pub replay : List WorkloadMsg → ℕ → List QuerySnapshot → E → Tally E
  replay [] i uts e = record { checks = 0; mismatches = 0; engine = e }
  replay (m ∷ ms) i [] e = record { checks = 0; mismatches = 0; engine = e }
  replay (m ∷ ms) i (ut ∷ uts) e =
      let e1 = feed e m in
      elim (ut.index == i) [
        | false ↦ replay ms (suc i) (ut ∷ uts) e1
        | true ↦
            let (wrong, e2) = compare_at ut e1 in
            let rest = replay ms (suc i) uts e2 in
            record {
              checks = 3 + rest.checks;
              mismatches = wrong + rest.mismatches;
              engine = rest.engine;
            }
      ]

  unfoldable pub prebuild_all : (E → Msg → E) → E → List WorkloadMsg → E
  prebuild_all f e [] = e
  prebuild_all f e (m ∷ ms) = prebuild_all f (f e (prebuild_msg m)) ms

  -- The baseline when the replay begins; its seed is 0.
  unfoldable pub started : List WorkloadMsg → E
  started workload = elim baseline.prebuild [
    | none ↦ baseline.init 0
    | some f ↦ prebuild_all f (baseline.init 0) workload
  ]

  unfoldable pub run_state_audit : List WorkloadMsg → List QuerySnapshot → AuditReport
  run_state_audit workload [] = record {
    ran = true;
    passed = false;
    checks = 0;
    mismatches = 0;
    note = no_snapshots;
  }
  run_state_audit workload (ut ∷ uts) =
      let r = replay workload 0 (ut ∷ uts) (started workload) in
      let passed = ltb 0 r.checks && (r.mismatches == 0) in
      record {
        ran = true;
        passed = passed;
        checks = r.checks;
        mismatches = r.mismatches;
        note = if passed then matched else diverged;
      }
