-- ===== src/Bench/Adapter/Orders.antt =====
-- What the adapter hears of an order that it adds to the book.
use mathlib.Core.List.{append_assoc, append-nil}
use babo_matching_engine.Prelude.{
  ℕ, ◌+◌, ◌%◌, ◌≤◌, ◌<◌, ◌≡◌, refl, sym, ap, ◌∙◌, Bool, true, false, ◌&&◌, not, some, List, [], ◌∷◌,
  ◌++◌, map, arith, ◌==◌, if◌then◌else◌, Bool-cases, inl, inr, ◌⊎◌, subst,
}
use babo_matching_engine.Prelude.Int.{ℤ}
use babo_matching_engine.Prelude.Words.{u32_mod, mul32}
use babo_matching_engine.Order.{
  SimpleOrder, new_order, all_or_none, oc_no_conditions, oc_immediate_or_cancel,
}
use babo_matching_engine.Order.Quantity.{IsSound}
use babo_matching_engine.Book.{
  MatchingBook, Event, on_accept, on_reject, Which, emit, set_order_listener,
}
use babo_matching_engine.Book.Match.{insert_in, match_regular_incoming, submit, rests}
use babo_matching_engine.Book.Match.Fills.{
  Fill, report, sum_qty, AllWithin, listener-emit, listener-put_side,
}
use babo_matching_engine.Book.Match.Report.{match_regular_incoming-Outcome}
use babo_matching_engine.Book.Orders.{is_stopped, add}
use babo_matching_engine.Bench.{Report, u64_mod}
use babo_matching_engine.Bench.Adapter.{
  Adapter, push_report, trade_report, hear, hear_all, heard, book_add, build_order,
}
use babo_matching_engine.Bench.Adapter.Unstopped.{
  NoStops, own_tree, opposite_tree, submit-regular, submit-NoStops, process_triggered-NoStops,
  NoStops-emit,
}

-- The report of one trade of the order `taker` of the message `seq`.
abbrev pub trade_of : (seq taker : ℕ) → Fill → Report
trade_of seq taker f = trade_report seq taker f.maker f.qty (mul32 f.qty f.price)

with_reports :
    (a : Adapter) {n m : ℕ} {rs qs : List Report}
    → n ≡ m
    → rs ≡ qs
    → record a { g_filled = n; reports = rs } ≡ record a { g_filled = m; reports = qs }
with_reports a e f = cc

-- The trades as the adapter hears them.
hear_all-report :
    (a : Adapter) (taker : ℕ) (fs : List Fill)
    → a.g_filled + sum_qty fs < u64_mod
    → hear_all a (map (report taker) fs) ≡ record a {
      reports = a.reports ++ map (trade_of a.g_seq taker) fs;
      g_filled = a.g_filled + sum_qty fs;
    }
unfolding hear_all hear push_report
hear_all-report a taker [] h = with_reports a (omega arith) (sym (append-nil a.reports))
hear_all-report a taker (f ∷ fs) h =
    let r = trade_of a.g_seq taker f in
    let a' = record a {
      g_filled = (a.g_filled + f.qty) % u64_mod;
      reports = a.reports ++ r ∷ [];
    } in
    hear_all-report a' taker fs (omega (arith, h))
    ∙ with_reports a (omega (arith, h))
        (append_assoc a.reports (r ∷ []) (map (trade_of a.g_seq taker) fs))

-- A terms of the orders that the adapter builds.
pub record IsPlain (o : SimpleOrder) : Type 0 where
  pub unconditional : all_or_none o ≡ false
  pub unstopped : o.stop_price ≡ 0
  pub sound : IsSound o
  pub unfilled : o.filled_qty ≡ 0

pub build_order-IsPlain :
    (last id side_of : ℕ) (price : ℤ) (qty conditions : ℕ)
    → qty < u32_mod
    → (conditions ≡ oc_no_conditions ⊎ conditions ≡ oc_immediate_or_cancel)
    → IsPlain (build_order last id side_of price qty conditions).0
unfolding build_order new_order all_or_none
build_order-IsPlain last id side_of price qty conditions h c = record {
  unconditional = elim c [ inl e ↦ rw e refl | inr e ↦ rw e refl ];
  unstopped = refl;
  sound = record { within = omega arith; fits = h; unreserved = refl };
  unfilled = refl;
}

heard-some : (b : MatchingBook) {log : List Event} → b.order_listener ≡ some log → heard b ≡ log
heard-some b e = rw e refl

module _ (N : ℕ) where
  -- What the listener is told of such an order: first the answer, which the adapter passes over,
  -- then the trades.
  pub record Told (o : SimpleOrder) (b' : MatchingBook) : Type 0 where
    pub fills : List Fill
    pub first : Event
    pub told : b'.order_listener ≡ some (first ∷ map (report o.order_id) fills)
    pub quiet : (a : Adapter) → hear a first ≡ a
    pub accepted : (o.order_qty == 0) ≡ false → first ≡ on_accept o.order_id
    pub total : sum_qty fills ≤ o.order_qty
    pub within : AllWithin o fills
    pub no_stops : NoStops b'

  listener-rest :
      (w : Which) (b : MatchingBook) (o : SimpleOrder) (t : Bool)
      → (if t then insert_in N w b o o.price else b).order_listener ≡ b.order_listener
  unfolding insert_in
  listener-rest w b o true = listener-put_side w _ b
  listener-rest w b o false = refl

  submit-Told :
      (b : MatchingBook) (o : SimpleOrder)
      → NoStops b
      → IsPlain o
      → b.order_listener ≡ some (on_accept o.order_id ∷ [])
      → Told o (submit N b o).1
  unfolding hear
  submit-Told b o k p l =
      let m = match_regular_incoming N (opposite_tree o) b o in
      let out =
        match_regular_incoming-Outcome N (opposite_tree o) b o (on_accept o.order_id ∷ []) l
          p.sound in
      record {
        fills = out.0;
        first = on_accept o.order_id;
        told =
            ap (λ (r : SimpleOrder × MatchingBook). r.1.order_listener)
              (submit-regular N b o p.unconditional)
            ∙ listener-rest (own_tree o) m.1 m.0 (rests N m.0)
            ∙ out.1.told;
        quiet = λ a. refl;
        accepted = λ e. refl;
        total = omega (arith, out.1.total, out.1.sound.within, out.1.terms.order_qty, p.unfilled);
        within = out.1.within;
        no_stops = submit-NoStops N b o p.unconditional k;
      }

  add-Told :
      (b : MatchingBook) (o : SimpleOrder)
      → NoStops b
      → IsPlain o
      → b.order_listener ≡ some []
      → Told o (add N b o)
  unfolding add hear
  add-Told b o k p l = elim (Bool-cases (o.order_qty == 0)) [
    | inl e ↦
        rw (e, add)
          (record {
            fills = [];
            first = on_reject o.order_id;
            told = listener-emit b [] (on_reject o.order_id) l;
            quiet = λ a. refl;
            accepted = λ n. absurd (ground (arith, e, n));
            total = omega arith;
            within = tt;
            no_stops = NoStops-emit b _ k;
          })
    | inr e ↦
        let b1 = emit b (on_accept o.order_id) in
        let t =
          submit-Told b1 o (NoStops-emit b _ k) p (listener-emit b [] (on_accept o.order_id) l) in
        let runs : (not (o.stop_price == 0) && is_stopped b1 o) ≡ false =
          ground (arith, p.unstopped) in
        rw (e, runs, add)
          (subst (Told o) (sym (process_triggered-NoStops N (submit N b1 o).1 t.no_stops)) t)
  ]

  -- The adapter after an order is added: the trades are reported in order and summed up.
  pub record Adds (a : Adapter) (o : SimpleOrder) : Type 0 where
    pub fills : List Fill
    pub result : book_add N a o ≡ record a {
      book = add N (set_order_listener a.book (some [])) o;
      g_filled = sum_qty fills;
      reports = a.reports ++ map (trade_of a.g_seq o.order_id) fills;
    }
    pub told :
        (o.order_qty == 0) ≡ false
        → (add N (set_order_listener a.book (some [])) o).order_listener
          ≡ some (on_accept o.order_id ∷ map (report o.order_id) fills)
    pub total : sum_qty fills ≤ o.order_qty
    pub within : AllWithin o fills
    pub no_stops : NoStops (add N (set_order_listener a.book (some [])) o)

  pub book_add-Adds :
      (a : Adapter) (o : SimpleOrder) → NoStops a.book → IsPlain o → a.g_filled ≡ 0 → Adds a o
  unfolding book_add hear_all set_order_listener
  book_add-Adds a o k p z =
      let b = set_order_listener a.book (some []) in
      let t = add-Told b o k p refl in
      let a1 = record a { book = add N b o } in
      record {
        fills = t.fills;
        result =
            ap (hear_all a1) (heard-some (add N b o) t.told)
            ∙ ap (λ (c : Adapter). hear_all c (map (report o.order_id) t.fills)) (t.quiet a1)
            ∙ hear_all-report a1 o.order_id t.fills (omega (arith, z, t.total, p.sound.fits))
            ∙ with_reports a1 (omega (arith, z)) refl;
        told = λ n. t.told ∙ ap (λ e. some (e ∷ map (report o.order_id) t.fills)) (t.accepted n);
        total = t.total;
        within = t.within;
        no_stops = t.no_stops;
      }
