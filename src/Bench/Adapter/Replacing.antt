-- ===== src/Bench/Adapter/Replacing.antt =====
-- `engine_on_modify` by the fields as the adapter reads them: a cancel and a new order, or a reject.
use mathlib.Core.List.{append_assoc}
use babo_matching_engine.Prelude.{
  ℕ, ◌%◌, ◌≤◌, ◌<◌, ◌≡◌, ◌⊎◌, refl, sym, ap, ◌∙◌, true, false, some, ◌==◌, List, [], ◌∷◌, ◌++◌, map,
  arith, Bool-cases, inl, inr, subst,
}
use babo_matching_engine.Prelude.Int.{pos}
use babo_matching_engine.Prelude.Words.{u32_mod}
use babo_matching_engine.Order.{SimpleOrder, new_order, oc_no_conditions}
use babo_matching_engine.Book.{MatchingBook, on_accept, set_order_listener}
use babo_matching_engine.Book.Orders.{add, cancel}
use babo_matching_engine.Book.Match.Fills.{Fill, report, sum_qty, AllWithin}
use babo_matching_engine.Bench.{Modify, me_modify_ack, me_modify_reject}
use babo_matching_engine.Bench.Adapter.{
  Adapter, push_report, ack, emit_ack, build_order, book_add, engine_on_modify,
}
use babo_matching_engine.Bench.Adapter.Acks.{
  is_resting, find_resting-none, find_resting-some, cancel-resting,
}
use babo_matching_engine.Bench.Adapter.Unstopped.{NoStops}
use babo_matching_engine.Bench.Adapter.Orders.{trade_of, build_order-IsPlain, book_add-Adds}

-- The order that replaces the resting one.
abbrev pub replacement : Adapter → Modify → SimpleOrder × ℕ
replacement a m =
    build_order a.last_order_id m.order_id m.side m.new_price_ticks m.new_quantity oc_no_conditions

-- What the adapter does with a modify of a resting order, whose id it reads as `id`: the order is
-- cancelled, the replacement is added, and its trades are reported before the acknowledgement.
pub record Modifies (N : ℕ) (a : Adapter) (m : Modify) (id : ℕ) (a' : Adapter) : Type 0 where
  pub fills : List Fill
  pub book : a'.book ≡ add N (set_order_listener (cancel a.book id) (some [])) (replacement a m).0
  pub told :
      ((replacement a m).0.order_qty == 0) ≡ false
      → a'.book.order_listener
        ≡ some (
            on_accept (replacement a m).0.order_id
            ∷ map (report (replacement a m).0.order_id) fills)
  pub reports :
      a'.reports
      ≡ a.reports
        ++ (map (trade_of m.sequence_number id) fills
            ++ ack me_modify_ack m.sequence_number m.order_id m.side m.new_price_ticks
                m.new_quantity
              ∷ [])
  pub total : sum_qty fills ≤ m.new_quantity
  pub within : AllWithin (replacement a m).0 fills
  pub no_stops : NoStops a'.book

-- The adapter when it adds the replacement.
abbrev withdrawn : Adapter → Modify → Adapter
withdrawn a m = record a {
  book = cancel a.book (m.order_id % u32_mod);
  g_seq = m.sequence_number;
  g_filled = 0;
  last_order_id = (replacement a m).1;
}

engine_on_modify-resting :
    (N : ℕ) (a : Adapter) (m : Modify)
    → is_resting a.book (m.order_id % u32_mod) ≡ true
    → engine_on_modify N a m
      ≡ emit_ack
          (book_add N (withdrawn a m) (replacement a m).0)
          me_modify_ack
          m.sequence_number
          m.order_id
          m.side
          m.new_price_ticks
          m.new_quantity
unfolding engine_on_modify
engine_on_modify-resting N a m e =
    let (at, stands, found) = find_resting-some a.book (m.order_id % u32_mod) e in
    rw (found, engine_on_modify) refl

pub replacement-terms :
    (a : Adapter) (m : Modify)
    → ((replacement a m).0.order_qty ≡ m.new_quantity)
      × ((replacement a m).0.order_id ≡ m.order_id % u32_mod)
unfolding build_order new_order
replacement-terms a m = (refl, refl)

engine_on_modify-Modifies :
    (N : ℕ) (a : Adapter) (m : Modify)
    → m.new_quantity < u32_mod
    → NoStops a.book
    → is_resting a.book (m.order_id % u32_mod) ≡ true
    → Modifies N a m (m.order_id % u32_mod) (engine_on_modify N a m)
unfolding emit_ack push_report
engine_on_modify-Modifies N a m h k r =
    let o = (replacement a m).0 in
    let plain = build_order-IsPlain _ _ _ _ _ oc_no_conditions h (inl refl) in
    let gone = (cancel-resting a.book (m.order_id % u32_mod) r).0 k in
    let added = book_add-Adds N (withdrawn a m) o gone plain refl in
    let last =
      ack me_modify_ack m.sequence_number m.order_id m.side m.new_price_ticks m.new_quantity in
    let terms = replacement-terms a m in
    let book = ap (λ (c : Adapter). c.book) added.result in
    rw (engine_on_modify-resting N a m r) (record {
      fills = added.fills;
      book = book;
      told = λ n. ap (λ (c : MatchingBook). c.order_listener) book ∙ added.told n;
      reports =
          ap (λ (c : Adapter). c.reports ++ last ∷ []) added.result
          ∙ ap (λ id. (a.reports ++ map (trade_of m.sequence_number id) added.fills) ++ last ∷ [])
              terms.1
          ∙ append_assoc a.reports _ _;
      total = omega (arith, added.total, terms.0);
      within = added.within;
      no_stops = subst NoStops (sym book) added.no_stops;
    })

-- The answer to a modify of an order that does not rest: the reject, and nothing else but the
-- counters of the adapter.
abbrev pub modify_rejected : Adapter → Modify → Adapter
modify_rejected a m = record a {
  g_seq = m.sequence_number;
  g_filled = 0;
  reports = a.reports ++ ack me_modify_reject m.sequence_number m.order_id 0 (pos 0) 0 ∷ [];
}

engine_on_modify-rejected :
    (N : ℕ) (a : Adapter) (m : Modify)
    → is_resting a.book (m.order_id % u32_mod) ≡ false
    → engine_on_modify N a m ≡ modify_rejected a m
unfolding engine_on_modify emit_ack push_report
engine_on_modify-rejected N a m e =
    rw (find_resting-none a.book (m.order_id % u32_mod) e, engine_on_modify) refl

-- The two ways, by the id that the adapter reads.
abbrev pub HandlesModify : ℕ → Adapter → Modify → ℕ → Adapter → Type 0
HandlesModify N a m id a' =
    ((is_resting a.book id ≡ true) × Modifies N a m id a')
    ⊎ ((is_resting a.book id ≡ false) × (a' ≡ modify_rejected a m))

pub engine_on_modify-reads :
    (N : ℕ) (a : Adapter) (m : Modify)
    → m.new_quantity < u32_mod
    → NoStops a.book
    → HandlesModify N a m (m.order_id % u32_mod) (engine_on_modify N a m)
engine_on_modify-reads N a m h k = elim (Bool-cases (is_resting a.book (m.order_id % u32_mod))) [
  | inl e ↦ inl (e, engine_on_modify-Modifies N a m h k e)
  | inr e ↦ inr (e, engine_on_modify-rejected N a m e)
]
