-- ===== src/Tests/Engine.antt =====
-- The theorems on the adapter, the harness and the audit at concrete inputs.
use babo_matching_engine.Prelude.{ℕ, ◌≡◌, ◌⊎◌, ◌*◌, ◌↔◌, refl, true, false, List, [], ◌∷◌, arith}
use babo_matching_engine.Prelude.Int.{pos}
use babo_matching_engine.Book.{Which, side}
use babo_matching_engine.Bench.{NewOrder, Cancel, Modify, new_msg, cancel_msg, modify_msg}
use babo_matching_engine.Bench.Workload.{WorkloadMsg}
use babo_matching_engine.Bench.Harness.{QuerySnapshot, run, run_each}
use babo_matching_engine.Bench.Harness.Batch.{Ascending}
use babo_matching_engine.Bench.Adapter.{
  Adapter, engine_init, engine_on_new_order, engine_on_cancel, engine_on_modify, engine_on_batch,
  engine_query_depth_at, babobook,
}
use babo_matching_engine.Bench.Adapter.Acks.{is_resting, AnswersCancel, engine_on_cancel-answers}
use babo_matching_engine.Bench.Adapter.Answers.{AnswersNew, engine_on_new_order-AnswersNew}
use babo_matching_engine.Bench.Adapter.Replacing.{modify_rejected}
use babo_matching_engine.Bench.Adapter.Modifies.{ModifyHit, engine_on_modify-answers}
use babo_matching_engine.Bench.Adapter.Immediate.{Absent, engine_on_new_order-Absent}
use babo_matching_engine.Bench.Adapter.Queries.{open_at, engine_query_depth_at-open_at}
use babo_matching_engine.Bench.Adapter.Session.{
  engine_on_batch-NoStops, engine_init-NoStops, run-run_each,
}
use babo_matching_engine.Bench.Adapter.Unstopped.{NoStops}
use babo_matching_engine.Bench.Audit.{started, run_state_audit}
use babo_matching_engine.Bench.Audit.Verdict.{indices, run_state_audit-passed}
use babo_matching_engine.Bench.Audit.Honest.{start_of_run, run_state_audit-babobook}
use babo_matching_engine.Tests.Scenario.{adds, resting}
use babo_matching_engine.Tests.Ready.{locations, resting-IsReady}

-- The adapter with the resting sell orders of the scenario.
abbrev engine : Adapter
engine = record { book = resting; g_seq = 0; g_filled = 0; last_order_id = 4; reports = [] }

no_stops : NoStops resting
unfolding adds
no_stops = (refl, refl)

abbrev buy : ℕ → NewOrder
buy ioc = record {
  order_id = 7;
  sequence_number = 5;
  price_ticks = pos 11;
  quantity = 12;
  side = 0;
  ioc = ioc;
}

engine_on_new_order-AnswersNew_example :
    AnswersNew engine (buy 1) 11 (engine_on_new_order 2 engine (buy 1))
engine_on_new_order-AnswersNew_example =
    engine_on_new_order-AnswersNew 2 engine (buy 1) 11 (omega arith) refl (omega arith)
      (omega arith) (omega arith) (omega arith) no_stops

absent : Absent 7 resting
unfolding adds
absent Which.bids = refl
absent Which.asks = refl
absent Which.stop_bids = refl
absent Which.stop_asks = refl

engine_on_new_order-Absent_example : Absent 7 (engine_on_new_order 2 engine (buy 1)).book
engine_on_new_order-Absent_example =
    engine_on_new_order-Absent 2 engine (buy 1) 7 (λ e. absurd (omega (arith, e))) (omega arith)
      no_stops absent

abbrev cancel_three : Cancel
cancel_three = record { order_id = 3; sequence_number = 6 }

engine_on_cancel-answers_example :
    AnswersCancel engine cancel_three 3 (engine_on_cancel engine cancel_three)
engine_on_cancel-answers_example = engine_on_cancel-answers engine cancel_three (omega arith)

abbrev modify_two : Modify
modify_two = record {
  order_id = 2;
  sequence_number = 7;
  new_price_ticks = pos 9;
  new_quantity = 6;
  side = 1;
}

engine_on_modify-answers_example :
    ((is_resting resting 2 ≡ true)
      × ModifyHit 2 engine modify_two 9 (engine_on_modify 2 engine modify_two))
    ⊎ ((is_resting resting 2 ≡ false)
        × (engine_on_modify 2 engine modify_two ≡ modify_rejected engine modify_two))
engine_on_modify-answers_example =
    engine_on_modify-answers 2 engine modify_two 9 (omega arith) refl (omega arith) (omega arith)
      (omega arith) (omega arith) no_stops

open_nine : open_at (side Which.asks resting) 10 locations ≡ 9
unfolding adds
open_nine = refl

engine_query_depth_at-open_at_example :
    engine_query_depth_at 2 engine (pos 10) 1 ≡ open_at (side Which.asks resting) 10 locations
engine_query_depth_at-open_at_example =
    engine_query_depth_at-open_at 2 engine 10 1 locations (omega arith) resting-IsReady.walk
      resting-IsReady.bounded (omega (arith, open_nine))

engine_on_batch-NoStops_example :
    NoStops
      (engine_on_batch 2
        (engine_init 5)
        (new_msg (buy 0) ∷ modify_msg modify_two ∷ cancel_msg cancel_three ∷ [])).book
engine_on_batch-NoStops_example =
    engine_on_batch-NoStops 2
      (new_msg (buy 0) ∷ modify_msg modify_two ∷ cancel_msg cancel_three ∷ []) (engine_init 5)
      (omega arith, (omega arith, (tt, tt))) (engine_init-NoStops 5)

-- A buy, a sell that meets it, and a cancel.
abbrev message : (type side qty seq id : ℕ) → WorkloadMsg
message type side_of qty seq id = record {
  type = type;
  side = side_of;
  ioc = 0;
  qty = qty;
  seq = seq;
  order_id = id;
  price_ticks = pos 10;
}

abbrev workload : List WorkloadMsg
workload = message 0 0 8 0 1 ∷ message 0 1 5 1 2 ∷ message 1 0 8 2 1 ∷ []

abbrev probes : List ℕ
probes = 0 ∷ 2 ∷ []

probes-Ascending : Ascending 0 3 probes
probes-Ascending = (omega arith, omega arith, (omega arith, omega arith, tt))

run-run_each_example :
    run (babobook 2 5) workload probes (engine_init 5)
    ≡ run_each (babobook 2 5) workload 0 probes (engine_init 5)
run-run_each_example =
    run-run_each 2 5 workload probes (engine_init 5) probes-Ascending (omega arith)

-- An answer to the probe after the first message.
abbrev answer : QuerySnapshot
answer = record {
  index = 0;
  best_bid = pos 10;
  best_ask = pos 10;
  probe_price = pos 10;
  probe_side = 0;
  depth = 8;
}

run_state_audit-passed_example :
    ((run_state_audit (babobook 2 5) workload (answer ∷ [])).checks ≡ 3 * 1)
    × (((run_state_audit (babobook 2 5) workload (answer ∷ [])).passed ≡ true) ↔ (
        (answer ∷ [])
        ≡ (run_each
            (babobook 2 5)
            workload
            0
            (indices (answer ∷ []))
            (started (babobook 2 5) workload)).0))
run_state_audit-passed_example =
    run_state_audit-passed (babobook 2 5) workload (answer ∷ []) (λ e. absurd cc) (refl, refl, tt)

run_state_audit-babobook_example :
    let uts = (run (babobook 2 5) workload probes (start_of_run 2 5 23 workload)).0 in
    ((run_state_audit (babobook 2 5) workload uts).passed ≡ true)
    × ((run_state_audit (babobook 2 5) workload uts).checks ≡ 3 * 2)
run_state_audit-babobook_example =
    run_state_audit-babobook 2 5 23 workload probes (λ e. absurd cc) probes-Ascending (omega arith)
