-- ===== src/Order/Quantity.antt =====
-- The quantities of simple_order.h: what is open, filled and reserved, and how `fill` moves it.
use babo_matching_engine.Prelude.{
  ℕ, ◌+◌, ◌-◌, ◌≤◌, ◌<◌, ◌≡◌, true, ◌↔◌, none, arith, ◌==◌, if◌then◌else◌, ◌^◌,
}
use babo_matching_engine.Prelude.Int.{ℤ, pos, is_neg, abs}
use babo_matching_engine.Prelude.Words.{u32_mod, add32, to_u32}
use babo_matching_engine.Order.{
  SimpleOrder, OrderState, open_qty, fill, filled, reserve, change_qty, add_int,
}

-- What the book keeps true of every order: it fills at most its size, fits a word, and reserves
-- nothing (the book never calls `reserve`).
pub record IsSound (o : SimpleOrder) : Type 0 where
  pub within : o.filled_qty ≤ o.order_qty
  pub fits : o.order_qty < u32_mod
  pub unreserved : o.reserved ≡ pos 0

-- With nothing reserved, the open quantity is what is left of the size.
pub open_qty-eq : (o : SimpleOrder) → o.reserved ≡ pos 0 → open_qty o ≡ o.order_qty - o.filled_qty
unfolding open_qty
open_qty-eq o h = ground arith

-- When the reservation is below 2^31 in amount, the open quantity is the unfilled part less the
-- reservation, and never below 0; a negative reservation counts as none.
pub open_qty-reserved :
    (o : SimpleOrder)
    → abs o.reserved < 2 ^ 31
    → open_qty o ≡ o.order_qty - o.filled_qty - (if is_neg o.reserved then 0 else abs o.reserved)
unfolding open_qty to_u32
open_qty-reserved o h = ground arith

-- With nothing reserved, an order has nothing open exactly when `filled` says so.
pub open_qty-filled : (o : SimpleOrder) → o.reserved ≡ pos 0 → (open_qty o ≡ 0) ↔ (filled o ≡ true)
unfolding filled
open_qty-filled o h = ground (arith, open_qty-eq o h)

-- A fill of a sound order within its open quantity moves exactly that much from open to filled,
-- keeps the order sound, and completes the order exactly when nothing is left open.
pub fill_lem :
    (o : SimpleOrder) (qty cost : ℕ)
    → IsSound o
    → qty ≤ open_qty o
    → IsSound (fill o qty cost)
      × (open_qty (fill o qty cost) + qty ≡ open_qty o)
      × ((fill o qty cost).filled_qty ≡ o.filled_qty + qty)
      × ((fill o qty cost).state ≡ (if open_qty o == qty then OrderState.os_complete else o.state))
unfolding fill add32 open_qty
fill_lem o qty cost s h =
    (ground (arith, s.within, s.fits), ground arith, ground arith, ground arith)

-- When the new reservation is below 2^31 in amount, `reserve` returns the unfilled part less the
-- new reservation, and never less than 0; a negative reservation counts as none.
pub reserve-open_qty :
    (o : SimpleOrder) (r : ℤ)
    → abs (add_int o.reserved r) < 2 ^ 31
    → (reserve o r).1
      ≡ o.order_qty
        - o.filled_qty
        - (if is_neg (add_int o.reserved r) then 0 else abs (add_int o.reserved r))
unfolding reserve
reserve-open_qty o r h = open_qty-reserved (reserve o r).0 h

-- When less than 2^31 is open and the absolute value of the delta is below 2^31, `change_qty`
-- throws exactly on the reductions that exceed the open quantity.
pub change_qty-none :
    (o : SimpleOrder) (delta : ℤ)
    → open_qty o < 2 ^ 31
    → abs delta < 2 ^ 31
    → (change_qty o delta ≡ none) ↔ ((is_neg delta ≡ true) × (open_qty o < abs delta))
unfolding change_qty
change_qty-none o delta h k = ground arith
