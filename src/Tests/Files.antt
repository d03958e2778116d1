-- ===== src/Tests/Files.antt =====
-- The theorems on the workload files, the canonical text, the choice of the probes and the shuffle
-- at concrete inputs.
use babo_matching_engine.Prelude.{ℕ, ◌≤◌, ◌≡◌, true, List, [], ◌∷◌, arith, length, min, inr}
use babo_matching_engine.Prelude.Int.{pos, negsuc}
use babo_matching_engine.Bench.Workload.{
  TimedMsg, write_binary, load_workload, loaded, read_workload, workload_max,
}
use babo_matching_engine.Bench.Workload.RoundTrip.{IsMsg, all_numbered, load_workload-write_binary}
use babo_matching_engine.Bench.Workload.Readers.{AllTyped, load_workload-read_workload}
use babo_matching_engine.Bench.Canonical.{CollectedReport, build_canonical_text}
use babo_matching_engine.Bench.Canonical.Sorting.{select}
use babo_matching_engine.Bench.Canonical.Interleaving.{build_canonical_text-select}
use babo_matching_engine.Bench.Audit.Pick.{
  Picks, Covers, audit_pick_indices, audit_pick_indices-Picks,
}
use babo_matching_engine.Perf.{shuffled_ids}
use babo_matching_engine.Perf.Shuffle.{IsOrder, shuffled_ids-IsOrder}

abbrev timed : ℕ → ℕ → TimedMsg
timed type id = record {
  ts = pos 3;
  type = type;
  side = 1;
  ioc = 0;
  qty = 70000;
  order_id = id;
  price_ticks = negsuc 4;
}

abbrev timeline : List TimedMsg
timeline = timed 0 1 ∷ timed 2 1 ∷ []

timed-IsMsg : (type id : ℕ) → type ≤ 2 → id ≤ 9 → IsMsg (timed type id)
timed-IsMsg type id h k = record {
  type = h;
  side = omega arith;
  ioc = omega arith;
  qty = omega arith;
  order_id = omega (arith, k);
  price_ticks = omega arith;
}

load_workload-write_binary_example :
    load_workload (write_binary timeline) ≡ loaded (all_numbered 0 timeline)
load_workload-write_binary_example =
    load_workload-write_binary timeline
      (
        timed-IsMsg 0 1 (omega arith) (omega arith),
        (timed-IsMsg 2 1 (omega arith) (omega arith), tt),
      )
      (λ e. absurd cc) (omega arith)

written : load_workload (write_binary timeline) ≡ loaded (all_numbered 0 timeline)
written =
    load_workload-write_binary timeline
      (
        timed-IsMsg 0 1 (omega arith) (omega arith),
        (timed-IsMsg 2 1 (omega arith) (omega arith), tt),
      )
      (λ e. absurd cc) (omega arith)

load_workload-read_workload_example :
    (read_workload [] (write_binary timeline) ≡ (true, all_numbered 0 timeline))
    × (1 ≤ length (all_numbered 0 timeline))
    × (length (all_numbered 0 timeline) ≤ workload_max)
    × AllTyped (all_numbered 0 timeline)
load_workload-read_workload_example =
    load_workload-read_workload [] (write_binary timeline) (all_numbered 0 timeline) written

abbrev collected : ℕ → CollectedReport
collected type = record {
  type = type;
  seq = 4;
  side = 0;
  order_id = 9;
  price_ticks = pos 10;
  quantity = 2;
  maker_order_id = 0;
  taker_order_id = 0;
}

-- A trade and an acknowledgement, in both orders.
apart :
    (seq type : ℕ)
    → select seq type (collected 0 ∷ collected 1 ∷ [])
      ≡ select seq type (collected 1 ∷ collected 0 ∷ [])
apart seq type = ground arith

build_canonical_text-select_example :
    build_canonical_text (collected 0 ∷ collected 1 ∷ [])
    ≡ build_canonical_text (collected 1 ∷ collected 0 ∷ [])
build_canonical_text-select_example =
    build_canonical_text-select (collected 0 ∷ collected 1 ∷ []) (collected 1 ∷ collected 0 ∷ [])
      apart

draws : Covers 3 (λ d. d) 0 3 []
draws j h = inr (j, omega arith, omega (arith, h), omega (arith, h))

audit_pick_indices-Picks_example : Picks 3 (min 2 3) (audit_pick_indices 4 (λ d. d) 3 2)
audit_pick_indices-Picks_example = audit_pick_indices-Picks 3 (λ d. d) 3 2 draws

shuffled_ids-IsOrder_example : IsOrder 5 (shuffled_ids 5 (λ d. d))
shuffled_ids-IsOrder_example = shuffled_ids-IsOrder 5 (λ d. d) (omega arith)
