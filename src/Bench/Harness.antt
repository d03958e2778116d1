-- ===== src/Bench/Harness.antt =====
-- benchmark/src/harness.cpp: how the harness marshals a workload, feeds it to an engine, one message
-- at a time or in batches, and probes the engine at given indices. Threads, clocks and the files of
-- reference hashes are not modelled.
pub mod Batch
pub mod Drain
use babo_matching_engine.Prelude.{
  ℕ, zero, suc, ◌-◌, ◌%◌, Bool, true, false, ◌&&◌, Option, none, some, List, [], ◌∷◌, map, take,
  drop, get_elem?, ◌==◌, if◌then◌else◌,
}
use babo_matching_engine.Prelude.Int.{ℤ, ◌==ℤ◌}
use babo_matching_engine.Prelude.Words.{u32_mod}
use babo_matching_engine.Bench.{
  NewOrder, Cancel, Modify, Msg, new_msg, cancel_msg, modify_msg, EngineLib, int64_max, int64_min,
}
use babo_matching_engine.Bench.Workload.{WorkloadMsg}

abbrev pub new_order_of : WorkloadMsg → NewOrder
new_order_of m = record {
  order_id = m.order_id;
  sequence_number = m.seq;
  price_ticks = m.price_ticks;
  quantity = m.qty;
  side = m.side;
  ioc = m.ioc;
}

abbrev pub cancel_of : WorkloadMsg → Cancel
cancel_of m = record { order_id = m.order_id; sequence_number = m.seq }

abbrev pub modify_of : WorkloadMsg → Modify
modify_of m = record {
  order_id = m.order_id;
  sequence_number = m.seq;
  new_price_ticks = m.price_ticks;
  new_quantity = m.qty;
  side = m.side;
}

-- A `PreparedMsg`: the message that the harness builds before the run.
unfoldable pub prepare : WorkloadMsg → Msg
prepare m =
    if m.type == 0
    then new_msg (new_order_of m)
    else if m.type == 1
    then cancel_msg (cancel_of m)
    else modify_msg (modify_of m)

-- `QuerySnapshot` of harness.h.
pub record QuerySnapshot : Type 0 where
  pub index : ℕ
  pub best_bid : ℤ
  pub best_ask : ℤ
  pub probe_price : ℤ
  pub probe_side : ℕ
  pub depth : ℕ

module _ {ℓ} {E : Type ℓ} (eng : EngineLib E) where
  unfoldable pub dispatch : E → Msg → E
  dispatch e (new_msg m) = eng.on_new_order e m
  dispatch e (cancel_msg m) = eng.on_cancel e m
  dispatch e (modify_msg m) = eng.on_modify e m

  -- The calls of `prebuild`, if the engine exports it.
  unfoldable pub prebuild_all : (E → Msg → E) → E → List WorkloadMsg → E
  prebuild_all f e [] = e
  prebuild_all f e (m ∷ ms) = prebuild_all f (f e (prepare m)) ms

  unfoldable pub prebuilt : E → List WorkloadMsg → E
  prebuilt e ms = elim eng.prebuild [ none ↦ e | some f ↦ prebuild_all f e ms ]

  -- Whether the book is empty before the first message.
  unfoldable pub prestart_book_empty : E → Bool × E
  prestart_book_empty e =
      let (pre_bid, e1) = eng.query_best_bid e in
      let (pre_ask, e2) = eng.query_best_ask e1 in
      ((pre_bid ==ℤ int64_min) && (pre_ask ==ℤ int64_max), e2)

  -- The three questions after the message at an index.
  unfoldable pub probe : ℕ → WorkloadMsg → E → QuerySnapshot × E
  probe i m e =
      let (bid, e1) = eng.query_best_bid e in
      let (ask, e2) = eng.query_best_ask e1 in
      let (dep, e3) = eng.query_depth_at e2 m.price_ticks m.side in
      (
        record {
          index = i;
          best_bid = bid;
          best_ask = ask;
          probe_price = m.price_ticks;
          probe_side = m.side;
          depth = dep;
        },
        e3,
      )

  -- One message at a time, from the message at `i` on, with the indices that are left to probe.
  unfoldable pub run_each : List WorkloadMsg → ℕ → List ℕ → E → List QuerySnapshot × E
  run_each [] i idx e = ([], e)
  run_each (m ∷ ms) i [] e = run_each ms (suc i) [] (dispatch e (prepare m))
  run_each (m ∷ ms) i (k ∷ ks) e =
      let e1 = dispatch e (prepare m) in
      elim (i == k) [
        | false ↦ run_each ms (suc i) (k ∷ ks) e1
        | true ↦
            let (s, e2) = probe i m e1 in
            let rest = run_each ms (suc i) ks e2 in (s ∷ rest.0, rest.1)
      ]

  -- In batches that end at the indices. The list is the workload from `start` on. An index past
  -- the workload, which the source leaves undefined, ends the run.
  unfoldable pub run_batches :
      (E → List Msg → E) → List ℕ → ℕ → List WorkloadMsg → E → List QuerySnapshot × E
  run_batches on_batch [] start [] e = ([], e)
  run_batches on_batch [] start (m ∷ ms) e = ([], on_batch e (map prepare (m ∷ ms)))
  run_batches on_batch (b ∷ bs) start ms e =
      let n = (suc b - start) % u32_mod in
      let e1 = on_batch e (map prepare (take n ms)) in
      elim (get_elem? ms (b - start)) [
        | none ↦ ([], e1)
        | some m ↦
            let (s, e2) = probe b m e1 in
            let rest = run_batches on_batch bs (suc b) (drop n ms) e2 in (s ∷ rest.0, rest.1)
      ]

  -- The run, by the path that the engine allows.
  unfoldable pub run : List WorkloadMsg → List ℕ → E → List QuerySnapshot × E
  run workload idx e = elim eng.on_batch [
    | some on_batch ↦ run_batches on_batch idx 0 workload e
    | none ↦ run_each workload 0 idx e
  ]
