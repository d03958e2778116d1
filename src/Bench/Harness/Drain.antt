-- ===== src/Bench/Harness/Drain.antt =====
-- The drainer of benchmark/src/harness.cpp: what it collects and counts of the batches that the
-- transport hands it, and the discard transport of benchmark/src/transport.cpp.
pub mod Tallies
use babo_matching_engine.Prelude.{
  ℕ, zero, suc, ◌+◌, ◌≡◌, refl, sym, ap, ◌∙◌, Bool, true, false, List, [], ◌∷◌, ◌++◌, map, arith,
  length, ◌==◌, if◌then◌else◌, Bool-cases, inl, inr, subst,
}
use babo_matching_engine.Bench.{
  Report, me_order_ack, me_trade, me_cancel_ack, me_modify_ack, me_cancel_reject, me_modify_reject,
}
use babo_matching_engine.Bench.Canonical.{CollectedReport}

-- `DrainState`: the tallies by type, and every report.
pub record DrainState : Type 0 where
  pub order_acks : ℕ
  pub trades : ℕ
  pub cancel_acks : ℕ
  pub modify_acks : ℕ
  pub cancel_rejects : ℕ
  pub modify_rejects : ℕ
  pub collected : List CollectedReport

abbrev pub new_drain : DrainState
new_drain = record {
  order_acks = 0;
  trades = 0;
  cancel_acks = 0;
  modify_acks = 0;
  cancel_rejects = 0;
  modify_rejects = 0;
  collected = [];
}

abbrev pub collect : Report → CollectedReport
collect r = record {
  type = r.type;
  seq = r.sequence_number;
  side = r.side;
  order_id = r.order_id;
  price_ticks = r.price_ticks;
  quantity = r.quantity;
  maker_order_id = r.maker_order_id;
  taker_order_id = r.taker_order_id;
}

-- The `switch` on the type.
unfoldable pub count_type : ℕ → DrainState → DrainState
count_type type s =
    if type == me_order_ack
    then record s { order_acks = suc s.order_acks }
    else if type == me_trade
    then record s { trades = suc s.trades }
    else if type == me_cancel_ack
    then record s { cancel_acks = suc s.cancel_acks }
    else if type == me_modify_ack
    then record s { modify_acks = suc s.modify_acks }
    else if type == me_cancel_reject
    then record s { cancel_rejects = suc s.cancel_rejects }
    else if type == me_modify_reject
    then record s { modify_rejects = suc s.modify_rejects }
    else s

-- `consume`.
unfoldable pub consume : DrainState → List Report → DrainState
consume s [] = s
consume s (r ∷ rs) =
    consume (count_type r.type (record s { collected = s.collected ++ collect r ∷ [] })) rs

-- The loops of `drainer_main`, over the batches that `drain` gives until it is empty at the end.
unfoldable pub drainer_main : DrainState → List (List Report) → DrainState
drainer_main s [] = s
drainer_main s (batch ∷ batches) = drainer_main (consume s batch) batches

abbrev pub concat : List (List Report) → List Report
concat [] = []
concat (b ∷ bs) = b ++ concat bs
