-- ===== src/Bench/Harness/Drain/Tallies.antt =====
-- What the drainer counts and collects.
use mathlib.Core.List.{append-nil, append_assoc}
use babo_matching_engine.Prelude.{
  ℕ, ◌+◌, ◌≡◌, refl, sym, ap, ◌∙◌, List, [], ◌∷◌, ◌++◌, map, arith, ◌==◌, if◌then◌else◌, subst,
}
use babo_matching_engine.Bench.{
  Report, me_order_ack, me_trade, me_cancel_ack, me_modify_ack, me_cancel_reject, me_modify_reject,
}
use babo_matching_engine.Bench.Harness.Drain.{
  DrainState, collect, count_type, consume, drainer_main, concat,
}

abbrev pub of_type : ℕ → List Report → ℕ
of_type type [] = 0
of_type type (r ∷ rs) = (if r.type == type then 1 else 0) + of_type type rs

consume-append :
    (rs qs : List Report) (s : DrainState) → consume s (rs ++ qs) ≡ consume (consume s rs) qs
unfolding consume
consume-append [] qs s = refl
consume-append (r ∷ rs) qs s = consume-append rs qs _

-- However the transport cuts the reports into batches, the drainer does as with one batch.
drainer_main-consume :
    (batches : List (List Report)) (s : DrainState)
    → drainer_main s batches ≡ consume s (concat batches)
unfolding drainer_main consume
drainer_main-consume [] s = refl
drainer_main-consume (b ∷ bs) s =
    drainer_main-consume bs (consume s b) ∙ sym (consume-append b (concat bs) s)

-- What the drainer ends with, from a state and the reports.
pub record Drains (s : DrainState) (rs : List Report) (s' : DrainState) : Type 0 where
  pub collected : s'.collected ≡ s.collected ++ map collect rs
  pub order_acks : s'.order_acks ≡ s.order_acks + of_type me_order_ack rs
  pub trades : s'.trades ≡ s.trades + of_type me_trade rs
  pub cancel_acks : s'.cancel_acks ≡ s.cancel_acks + of_type me_cancel_ack rs
  pub modify_acks : s'.modify_acks ≡ s.modify_acks + of_type me_modify_ack rs
  pub cancel_rejects : s'.cancel_rejects ≡ s.cancel_rejects + of_type me_cancel_reject rs
  pub modify_rejects : s'.modify_rejects ≡ s.modify_rejects + of_type me_modify_reject rs

count_type-tallies :
    (type : ℕ) (s : DrainState)
    → let s' = count_type type s in
      (s'.collected ≡ s.collected)
      × (s'.order_acks ≡ s.order_acks + (if type == me_order_ack then 1 else 0))
      × (s'.trades ≡ s.trades + (if type == me_trade then 1 else 0))
      × (s'.cancel_acks ≡ s.cancel_acks + (if type == me_cancel_ack then 1 else 0))
      × (s'.modify_acks ≡ s.modify_acks + (if type == me_modify_ack then 1 else 0))
      × (s'.cancel_rejects ≡ s.cancel_rejects + (if type == me_cancel_reject then 1 else 0))
      × (s'.modify_rejects ≡ s.modify_rejects + (if type == me_modify_reject then 1 else 0))
unfolding count_type
count_type-tallies type s = ground arith

consume-Drains : (rs : List Report) (s : DrainState) → Drains s rs (consume s rs)
unfolding consume
consume-Drains [] s = record {
  collected = sym (append-nil s.collected);
  order_acks = omega arith;
  trades = omega arith;
  cancel_acks = omega arith;
  modify_acks = omega arith;
  cancel_rejects = omega arith;
  modify_rejects = omega arith;
}
consume-Drains (r ∷ rs) s =
    let s1 = record s { collected = s.collected ++ collect r ∷ [] } in
    let t = count_type-tallies r.type s1 in
    let rest = consume-Drains rs (count_type r.type s1) in
    record {
      collected =
          rest.collected
          ∙ ap (λ c. c ++ map collect rs) t.0
          ∙ append_assoc s.collected (collect r ∷ []) (map collect rs);
      order_acks = omega (arith, rest.order_acks, t.1);
      trades = omega (arith, rest.trades, t.2);
      cancel_acks = omega (arith, rest.cancel_acks, t.3);
      modify_acks = omega (arith, rest.modify_acks, t.4);
      cancel_rejects = omega (arith, rest.cancel_rejects, t.5);
      modify_rejects = omega (arith, rest.modify_rejects, t.6);
    }

pub drainer_main-Drains :
    (batches : List (List Report)) (s : DrainState)
    → Drains s (concat batches) (drainer_main s batches)
drainer_main-Drains batches s =
    subst (Drains s (concat batches)) (sym (drainer_main-consume batches s))
      (consume-Drains (concat batches) s)
