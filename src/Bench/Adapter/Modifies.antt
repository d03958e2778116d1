-- ===== src/Bench/Adapter/Modifies.antt =====
-- The answer of `engine_on_modify` to a message whose fields fit.
use babo_matching_engine.Prelude.{
  ℕ, ◌%◌, ◌≤◌, ◌<◌, ◌≡◌, ◌⊎◌, refl, ap, ◌∙◌, true, false, ◌&&◌, none, some, ◌==◌, if◌then◌else◌,
  List, [], ◌∷◌, ◌++◌, map, arith, inl, inr, subst,
}
use babo_matching_engine.Prelude.Int.{pos}
use babo_matching_engine.Prelude.Words.{u32_mod, to_u32, to_u32-pos}
use babo_matching_engine.Order.{new_order}
use babo_matching_engine.Tree.Search.{find_order}
use babo_matching_engine.Book.{MatchingBook, on_accept, Which, side, set_order_listener}
use babo_matching_engine.Book.Orders.{add, cancel}
use babo_matching_engine.Book.Orders.Cancel.{same_tree}
use babo_matching_engine.Book.Match.Fills.{Fill, report, sum_qty}
use babo_matching_engine.Bench.{Modify, me_modify_ack}
use babo_matching_engine.Bench.Adapter.{Adapter, ack, build_order, engine_on_modify}
use babo_matching_engine.Bench.Adapter.Acks.{is_resting, resting_tree, cancel-resting}
use babo_matching_engine.Bench.Adapter.Limits.{
  AllInTicks, AllWithin-AllInTicks, AllPriced, trade_of-AllPriced,
}
use babo_matching_engine.Bench.Adapter.Unstopped.{NoStops}
use babo_matching_engine.Bench.Adapter.Orders.{trade_of}
use babo_matching_engine.Bench.Adapter.Replacing.{
  replacement, Modifies, replacement-terms, modify_rejected, HandlesModify, engine_on_modify-reads,
}

-- The answer to a modify, whose fields fit, of a resting order. In the book `gone` the old order is
-- out of the index of its tree and every other entry is as it was; the replacement is added to this
-- book, which accepts it; its trades are reported in order, then the acknowledgement.
pub record ModifyHit (N : ℕ) (a : Adapter) (m : Modify) (price : ℕ) (a' : Adapter) : Type 0 where
  pub gone : MatchingBook
  pub index :
      (w : Which) (j : ℕ)
      → find_order (side w gone) j ≡ (
          if same_tree w (resting_tree a.book m.order_id) && j == m.order_id
          then none
          else find_order (side w a.book) j)
  pub fills : List Fill
  pub added : a'.book ≡ add N (set_order_listener gone (some [])) (replacement a m).0
  pub accepted :
      a'.book.order_listener ≡ some (on_accept m.order_id ∷ map (report m.order_id) fills)
  pub reports :
      a'.reports
      ≡ a.reports
        ++ (map (trade_of m.sequence_number m.order_id) fills
            ++ ack me_modify_ack m.sequence_number m.order_id m.side (pos price) m.new_quantity
              ∷ [])
  pub total : sum_qty fills ≤ m.new_quantity
  pub limits : AllInTicks m.side price fills
  pub priced : AllPriced m.sequence_number m.order_id fills
  pub no_stops : NoStops a'.book

replacement-limits :
    (a : Adapter) (m : Modify) (price : ℕ)
    → m.new_price_ticks ≡ pos price
    → price < u32_mod
    → ((replacement a m).0.is_buy ≡ (m.side == 0)) × ((replacement a m).0.price ≡ price)
unfolding build_order new_order
replacement-limits a m price e h = (refl, ap to_u32 e ∙ to_u32-pos price h)

Modifies-ModifyHit :
    (N : ℕ) (a : Adapter) (m : Modify) (price : ℕ) (a' : Adapter)
    → m.order_id < u32_mod
    → m.new_price_ticks ≡ pos price
    → 0 < price
    → price < u32_mod
    → 0 < m.new_quantity
    → is_resting a.book m.order_id ≡ true
    → Modifies N a m m.order_id a'
    → ModifyHit N a m price a'
Modifies-ModifyHit N a m price a' id_fits e some_price price_fits some_qty rests r =
    let terms = replacement-terms a m in
    let same : m.order_id % u32_mod ≡ m.order_id = omega (arith, id_fits) in
    let (buy, px) = replacement-limits a m price e price_fits in
    record {
      gone = cancel a.book m.order_id;
      index = (cancel-resting a.book m.order_id rests).1;
      fills = r.fills;
      added = r.book;
      accepted =
          r.told (ground (arith, terms.0, some_qty))
          ∙ ap (λ id. some (on_accept id ∷ map (report id) r.fills)) (terms.1 ∙ same);
      reports =
          r.reports
          ∙ ap
              (λ q.
                a.reports
                ++ (map (trade_of m.sequence_number m.order_id) r.fills
                    ++ ack me_modify_ack m.sequence_number m.order_id m.side q m.new_quantity ∷ []))
              e;
      total = r.total;
      limits =
          AllWithin-AllInTicks (replacement a m).0 m.side price r.fills buy px
            (λ z. absurd (omega (arith, some_price, z))) r.within;
      priced = trade_of-AllPriced m.sequence_number m.order_id r.fills;
      no_stops = r.no_stops;
    }

-- For a modify with an id and a price that fit 32 bits and a quantity that does, the price and
-- the quantity not 0, on a book without stop orders: an order that rests is taken out of the
-- index of its tree, every other entry staying, then the replacement is added to that book, which
-- accepts it, and the adapter reports its trades in order and then one acknowledgement, the
-- trades within the new quantity and the price of the message, those whose value fits 32 bits at
-- their price; for any other order it reports one reject and leaves the book.
pub engine_on_modify-answers :
    (N : ℕ) (a : Adapter) (m : Modify) (price : ℕ)
    → m.order_id < u32_mod
    → m.new_price_ticks ≡ pos price
    → 0 < price
    → price < u32_mod
    → 0 < m.new_quantity
    → m.new_quantity < u32_mod
    → NoStops a.book
    → ((is_resting a.book m.order_id ≡ true) × ModifyHit N a m price (engine_on_modify N a m))
      ⊎ ((is_resting a.book m.order_id ≡ false) × (engine_on_modify N a m ≡ modify_rejected a m))
engine_on_modify-answers N a m price id_fits e some_price price_fits some_qty qty_fits k =
    let same : m.order_id % u32_mod ≡ m.order_id = omega (arith, id_fits) in
    let reads =
      subst (λ id. HandlesModify N a m id (engine_on_modify N a m)) same
        (engine_on_modify-reads N a m qty_fits k) in
    elim reads [
      | inl (rests, r) ↦ inl (
        rests,
        Modifies-ModifyHit N a m price (engine_on_modify N a m) id_fits e some_price price_fits
            some_qty rests r,
      )
      | inr rejected ↦ inr rejected
    ]
