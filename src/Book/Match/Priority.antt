-- ===== src/Book/Match/Priority.antt =====
-- The sweep of an incoming order over the makers in the order of the chain, and one trade.
pub mod Steps
pub mod Sweeping
use mathlib.Core.List.{append-nil, append_assoc}
use babo_matching_engine.Prelude.{
  ℕ, zero, suc, ◌<◌, ◌≡◌, refl, sym, ◌∙◌, ap, subst, Bool, true, false, ◌&&◌, ◌||◌, not, Option,
  none, some, List, [], ◌∷◌, ◌++◌, map, length, min, ltb, ◌==◌, if◌then◌else◌, arith, Bool-cases,
  inl, inr,
}
use babo_matching_engine.Prelude.Words.{mul32}
use babo_matching_engine.Order.{SimpleOrder, open_qty, fill, all_or_none}
use babo_matching_engine.Tree.{Side, OrderLoc, no_loc, same_loc, order_at, write_order}
use babo_matching_engine.Tree.Search.{find_order, global_next, orders_begin}
use babo_matching_engine.Tree.Walk.{Walk, DistinctIds, Indexed}
use babo_matching_engine.Tree.Nodes.Orders.{HasOrders, erase-HasOrders}
use babo_matching_engine.Tree.Nodes.Slots.{
  write_order-HasOrders, HasOrders-Walk, At, Walk-drop, next-At,
}
use babo_matching_engine.Book.{MatchingBook, Event, on_fill, Which, type_of, side}
use babo_matching_engine.Book.Match.{
  erase_in, crosses, reduce_level, execute_trade, trade_and_erase, Sweep, sweep, regular_step,
  regular_loop, match_regular_incoming, order_fuel,
}
use babo_matching_engine.Book.Match.Access.{
  side-execute_trade, side-erase_in, find_order-execute_trade, Unmoved, Unmoved-trade,
}
use babo_matching_engine.Book.Match.Fills.{
  Fill, report, execute_trade-told, execute_trade-incoming, listener-erase_in, fill-SameTerms,
}
use babo_matching_engine.Book.Match.Plan.Reference.{makers_at}

-- The trades with the makers in turn, and the incoming order after them: it stops when it is filled
-- or at the first maker that it does not cross, and passes over an AON maker that is too large.
unfoldable pub sweep_from : SimpleOrder → List SimpleOrder → List Fill × SimpleOrder
sweep_from o [] = ([], o)
sweep_from o (maker ∷ makers) =
    let qty = min (open_qty o) (open_qty maker) in
    let rest = sweep_from (fill o qty (mul32 qty maker.price)) makers in
    let pass = sweep_from o makers in
    if open_qty o == 0
    then ([], o)
    else if not (crosses maker o)
    then ([], o)
    else if all_or_none maker && ltb (open_qty o) (open_qty maker)
    then pass
    else (record { maker = maker.order_id; qty = qty; price = maker.price } ∷ rest.0, rest.1)

reduce_level-HasOrders :
    (N : ℕ) (s : Side) (level qty : ℕ) (xs : List OrderLoc)
    → HasOrders N s xs
    → HasOrders N (reduce_level s level qty) xs
unfolding reduce_level
reduce_level-HasOrders N s level qty xs (ks, i, e) =
    (ks, record { chain = i.chain; distinct = i.distinct; filled = i.filled }, e)

execute_trade-HasOrders :
    (N : ℕ) (w : Which) (b : MatchingBook) (o : SimpleOrder) (at : OrderLoc) (qty : ℕ)
    (xs : List OrderLoc)
    → HasOrders N (side w b) xs
    → HasOrders N (side w (execute_trade w b o at qty).book) xs
execute_trade-HasOrders N w b o at qty xs h =
    let s = side w b in
    let maker = fill (order_at s at) qty (mul32 qty (order_at s at).price) in
    subst (λ t. HasOrders N t xs) (sym (side-execute_trade w b o at qty))
      (reduce_level-HasOrders N (write_order s at maker) maker.level qty xs
        (write_order-HasOrders N s at maker xs h))

-- After a trade with the order at `x`, the orders behind it stand where they stood.
pub trade-HasOrders :
    (N : ℕ) (w : Which) (b : MatchingBook) (o : SimpleOrder) (x : OrderLoc) (qty id : ℕ)
    (us xs : List OrderLoc)
    → HasOrders N (side w b) (us ++ x ∷ xs)
    → find_order (side w b) id ≡ some x
    → (vs : List OrderLoc) × HasOrders N (side w (trade_and_erase w b o x qty id).1) (vs ++ xs)
unfolding trade_and_erase find_order
trade-HasOrders N w b o x qty id us xs h e =
    let t = execute_trade w b o x qty in
    let traded = execute_trade-HasOrders N w b o x qty (us ++ x ∷ xs) h in
    elim (Bool-cases t.maker_filled) [
      | inl f ↦
          let gone =
            erase-HasOrders N (type_of w) (side w t.book) id us x xs traded
              (find_order-execute_trade w b o x qty id ∙ e) in
          rw (f, trade_and_erase)
            (us, subst (λ s. HasOrders N s (us ++ xs)) (sym (side-erase_in w t.book id)) gone)
      | inr f ↦
          rw (f, trade_and_erase)
            (
              us ++ x ∷ [],
              subst (HasOrders N (side w t.book)) (sym (append_assoc us (x ∷ []) xs)) traded,
            )
    ]

pub trade_and_erase-told :
    (w : Which) (b : MatchingBook) (o : SimpleOrder) (at : OrderLoc) (qty id : ℕ) (log : List Event)
    → b.order_listener ≡ some log
    → let maker = order_at (side w b) at in
      ((trade_and_erase w b o at qty id).1.order_listener
        ≡ some (log ++ on_fill o.order_id maker.order_id qty (mul32 qty maker.price) ∷ []))
      × ((trade_and_erase w b o at qty id).0 ≡ fill o qty (mul32 qty maker.price))
unfolding trade_and_erase
trade_and_erase-told w b o at qty id log e = (
  ground (
    arith,
    listener-erase_in w (execute_trade w b o at qty).book id,
    execute_trade-told w b o at qty log e,
  ),
  execute_trade-incoming w b o at qty,
)
