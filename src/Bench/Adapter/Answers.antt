-- ===== src/Bench/Adapter/Answers.antt =====
-- What the adapter reports for each message.
use mathlib.Core.List.{append_assoc, append-nil}
use babo_matching_engine.Prelude.{
  ℕ, ◌-◌, ◌%◌, ◌≤◌, ◌<◌, ◌≡◌, refl, sym, ap, ◌∙◌, false, ◌&&◌, not, some, List, [], ◌∷◌, ◌++◌, map,
  arith, ltb, ◌==◌, if◌then◌else◌, Bool-cases, inl, inr, subst,
}
use babo_matching_engine.Prelude.Int.{pos}
use babo_matching_engine.Prelude.Words.{u32_mod, to_u32, to_u32-pos}
use babo_matching_engine.Order.{SimpleOrder, new_order, oc_no_conditions, oc_immediate_or_cancel}
use babo_matching_engine.Book.{MatchingBook, on_accept, set_order_listener}
use babo_matching_engine.Book.Orders.{add}
use babo_matching_engine.Book.Match.Fills.{Fill, report, sum_qty, AllWithin}
use babo_matching_engine.Bench.{NewOrder, Report, me_order_ack, me_cancel_ack}
use babo_matching_engine.Bench.Adapter.{
  Adapter, push_report, ack, emit_ack, build_order, book_add, engine_on_new_order,
}
use babo_matching_engine.Bench.Adapter.Limits.{
  AllInTicks, AllWithin-AllInTicks, AllPriced, trade_of-AllPriced,
}
use babo_matching_engine.Bench.Adapter.Unstopped.{NoStops}
use babo_matching_engine.Bench.Adapter.Orders.{
  trade_of, IsPlain, build_order-IsPlain, book_add-Adds,
}

-- The order that stands for a message.
abbrev pub order_of : Adapter → NewOrder → SimpleOrder × ℕ
order_of a m =
    build_order a.last_order_id m.order_id m.side m.price_ticks m.quantity
      (if m.ioc == 0 then oc_no_conditions else oc_immediate_or_cancel)

-- The cancel of what an immediate-or-cancel order leaves.
abbrev pub residual : NewOrder → ℕ → List Report
residual m filled =
    if not (m.ioc == 0) && ltb filled m.quantity
    then ack me_cancel_ack m.sequence_number m.order_id m.side m.price_ticks (m.quantity - filled)
      ∷ []
    else []

-- What the adapter does with a new order as it reads its fields: the acknowledgement, the trades in
-- order, the cancel of the rest.
pub record HandlesNew (N : ℕ) (a : Adapter) (m : NewOrder) (a' : Adapter) : Type 0 where
  pub fills : List Fill
  pub reports :
      a'.reports
      ≡ a.reports
        ++ ack me_order_ack m.sequence_number m.order_id m.side m.price_ticks m.quantity
          ∷ (map (trade_of m.sequence_number (m.order_id % u32_mod)) fills
              ++ residual m (sum_qty fills))
  pub total : sum_qty fills ≤ m.quantity
  pub within : AllWithin (order_of a m).0 fills
  pub told :
      ((order_of a m).0.order_qty == 0) ≡ false
      → a'.book.order_listener
        ≡ some (on_accept (order_of a m).0.order_id ∷ map (report (order_of a m).0.order_id) fills)
  pub book : a'.book ≡ add N (set_order_listener a.book (some [])) (order_of a m).0
  pub no_stops : NoStops a'.book

pub order_of-IsPlain :
    (a : Adapter) (m : NewOrder) → m.quantity < u32_mod → IsPlain (order_of a m).0
order_of-IsPlain a m h = elim (Bool-cases (m.ioc == 0)) [
  | inl e ↦ build_order-IsPlain _ _ _ _ _ _ h (inl (rw e refl))
  | inr e ↦ build_order-IsPlain _ _ _ _ _ _ h (inr (rw e refl))
]

-- The last step of `engine_on_new_order`.
abbrev settle_rest : NewOrder → Adapter → Adapter
settle_rest m a =
    if not (m.ioc == 0) && ltb a.g_filled m.quantity
    then emit_ack a me_cancel_ack m.sequence_number m.order_id m.side m.price_ticks
        ((m.quantity - a.g_filled) % u32_mod)
    else a

settle_rest-residual :
    (m : NewOrder) (a : Adapter)
    → m.quantity < u32_mod
    → ((settle_rest m a).reports ≡ a.reports ++ residual m a.g_filled)
      × ((settle_rest m a).book ≡ a.book)
unfolding emit_ack push_report
settle_rest-residual m a h = elim (Bool-cases (not (m.ioc == 0) && ltb a.g_filled m.quantity)) [
  | inl e ↦
      let fits : (m.quantity - a.g_filled) % u32_mod ≡ m.quantity - a.g_filled = omega (arith, h) in
      rw (e, fits) (refl, refl)
  | inr e ↦ rw e (sym (append-nil a.reports), refl)
]

-- The adapter when it adds the order of a message.
abbrev acknowledged : Adapter → NewOrder → Adapter
acknowledged a m = record a {
  g_seq = m.sequence_number;
  g_filled = 0;
  last_order_id = (order_of a m).1;
  reports =
      a.reports
      ++ ack me_order_ack m.sequence_number m.order_id m.side m.price_ticks m.quantity ∷ [];
}

engine_on_new_order-settle_rest :
    (N : ℕ) (a : Adapter) (m : NewOrder)
    → engine_on_new_order N a m ≡ settle_rest m (book_add N (acknowledged a m) (order_of a m).0)
unfolding engine_on_new_order emit_ack push_report
engine_on_new_order-settle_rest N a m = refl

order_of-terms :
    (a : Adapter) (m : NewOrder)
    → ((order_of a m).0.order_qty ≡ m.quantity) × ((order_of a m).0.order_id ≡ m.order_id % u32_mod)
unfolding build_order new_order
order_of-terms a m = (refl, refl)

pub engine_on_new_order-HandlesNew :
    (N : ℕ) (a : Adapter) (m : NewOrder)
    → m.quantity < u32_mod
    → NoStops a.book
    → HandlesNew N a m (engine_on_new_order N a m)
engine_on_new_order-HandlesNew N a m h k =
    let o = (order_of a m).0 in
    let a2 = acknowledged a m in
    let first = ack me_order_ack m.sequence_number m.order_id m.side m.price_ticks m.quantity in
    let added = book_add-Adds N a2 o k (order_of-IsPlain a m h) refl in
    let done = settle_rest-residual m (book_add N a2 o) h in
    let e = engine_on_new_order-settle_rest N a m in
    let terms = order_of-terms a m in
    let book =
      ap (λ (c : Adapter). c.book) e ∙ done.1 ∙ ap (λ (c : Adapter). c.book) added.result in
    record {
      fills = added.fills;
      reports =
          ap (λ (c : Adapter). c.reports) e
          ∙ done.0
          ∙ ap (λ (c : Adapter). c.reports ++ residual m c.g_filled) added.result
          ∙ append_assoc a2.reports _ _
          ∙ append_assoc a.reports _ _
          ∙ ap
              (λ id.
                a.reports
                ++ first
                  ∷ (map (trade_of m.sequence_number id) added.fills
                      ++ residual m (sum_qty added.fills)))
              terms.1;
      total = omega (arith, added.total, terms.0);
      within = added.within;
      told = λ n. ap (λ (c : MatchingBook). c.order_listener) book ∙ added.told n;
      book = book;
      no_stops = subst NoStops (sym book) added.no_stops;
    }

-- The answer to a new order whose fields fit: the book accepts it and makes these trades, and the
-- adapter acknowledges it, reports the trades in order, and cancels the rest of an
-- immediate-or-cancel order.
pub record AnswersNew (a : Adapter) (m : NewOrder) (price : ℕ) (a' : Adapter) : Type 0 where
  pub fills : List Fill
  pub accepted :
      a'.book.order_listener ≡ some (on_accept m.order_id ∷ map (report m.order_id) fills)
  pub reports :
      a'.reports
      ≡ a.reports
        ++ ack me_order_ack m.sequence_number m.order_id m.side (pos price) m.quantity
          ∷ (map (trade_of m.sequence_number m.order_id) fills ++ residual m (sum_qty fills))
  pub total : sum_qty fills ≤ m.quantity
  pub limits : AllInTicks m.side price fills
  pub priced : AllPriced m.sequence_number m.order_id fills
  pub no_stops : NoStops a'.book

-- The terms of the order that stands for such a message.
order_of-limits :
    (a : Adapter) (m : NewOrder) (price : ℕ)
    → m.price_ticks ≡ pos price
    → price < u32_mod
    → ((order_of a m).0.is_buy ≡ (m.side == 0)) × ((order_of a m).0.price ≡ price)
unfolding build_order new_order
order_of-limits a m price e h = (refl, ap to_u32 e ∙ to_u32-pos price h)

-- For a new order with an id and a price that fit 32 bits and a quantity that does, the price and
-- the quantity not 0, on a book without stop orders, the book accepts the order and tells the
-- adapter of some trades; the adapter reports exactly the acknowledgement, these trades in order,
-- and for an immediate-or-cancel order that is not filled the cancel of what is left; the trades
-- are within the quantity, a buy trades at no more and a sell at no less than the price of the
-- message, a trade whose value fits 32 bits is reported at its price, and the book has no stop
-- orders after it.
pub engine_on_new_order-AnswersNew :
    (N : ℕ) (a : Adapter) (m : NewOrder) (price : ℕ)
    → m.order_id < u32_mod
    → m.price_ticks ≡ pos price
    → 0 < price
    → price < u32_mod
    → 0 < m.quantity
    → m.quantity < u32_mod
    → NoStops a.book
    → AnswersNew a m price (engine_on_new_order N a m)
engine_on_new_order-AnswersNew N a m price id_fits e some_price price_fits some_qty qty_fits k =
    let r = engine_on_new_order-HandlesNew N a m qty_fits k in
    let terms = order_of-terms a m in
    let same : m.order_id % u32_mod ≡ m.order_id = omega (arith, id_fits) in
    let (buy, px) = order_of-limits a m price e price_fits in
    record {
      fills = r.fills;
      accepted =
          r.told (ground (arith, terms.0, some_qty))
          ∙ ap (λ id. some (on_accept id ∷ map (report id) r.fills)) (terms.1 ∙ same);
      reports =
          r.reports
          ∙ ap
              (λ id.
                a.reports
                ++ ack me_order_ack m.sequence_number m.order_id m.side m.price_ticks m.quantity
                  ∷ (map (trade_of m.sequence_number id) r.fills ++ residual m (sum_qty r.fills)))
              same
          ∙ ap
              (λ q.
                a.reports
                ++ ack me_order_ack m.sequence_number m.order_id m.side q m.quantity
                  ∷ (map (trade_of m.sequence_number m.order_id) r.fills
                      ++ residual m (sum_qty r.fills)))
              e;
      total = r.total;
      limits =
          AllWithin-AllInTicks (order_of a m).0 m.side price r.fills buy px
            (λ z. absurd (omega (arith, some_price, z))) r.within;
      priced = trade_of-AllPriced m.sequence_number m.order_id r.fills;
      no_stops = r.no_stops;
    }
