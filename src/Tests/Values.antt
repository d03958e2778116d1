-- ===== src/Tests/Values.antt =====
-- The theorems on orders and depth levels at concrete inputs.
use babo_matching_engine.Prelude.{
  suc, ◌+◌, ◌-◌, ◌≡◌, ◌<◌, ◌↔◌, ◌^◌, refl, true, false, none, [], ◌∷◌, ◌==◌, if◌then◌else◌, arith,
}
use babo_matching_engine.Prelude.Int.{pos, negsuc, is_neg, abs}
use babo_matching_engine.Prelude.Words.{u32_mod}
use babo_matching_engine.Order.{
  SimpleOrder, OrderState, oc_no_conditions, open_qty, fill, change_qty, add_int, modify,
}
use babo_matching_engine.Order.Quantity.{IsSound, fill_lem, change_qty-none}
use babo_matching_engine.Order.Modify.{modify_wraps}
use babo_matching_engine.Level.{DepthLevel, close_order}
use babo_matching_engine.Level.Counting.{Counts, Closes, close_order-Closes}
use babo_matching_engine.Tests.Scenario.{order}

-- 9 of 12 open.
abbrev part_filled : SimpleOrder
part_filled = record (order 1 true 20 12 oc_no_conditions) { filled_qty = 3 }

abbrev part_reserved : SimpleOrder
part_reserved = record part_filled { reserved = pos 4 }

part_filled-IsSound : IsSound part_filled
part_filled-IsSound = record { within = omega arith; fits = omega arith; unreserved = refl }

nine : open_qty part_filled ≡ 9
unfolding open_qty
nine = refl

fill_lem_example :
    IsSound (fill part_filled 4 80)
    × (open_qty (fill part_filled 4 80) + 4 ≡ open_qty part_filled)
    × ((fill part_filled 4 80).filled_qty ≡ part_filled.filled_qty + 4)
    × ((fill part_filled 4 80).state
        ≡ (if open_qty part_filled == 4 then OrderState.os_complete else part_filled.state))
fill_lem_example = fill_lem part_filled 4 80 part_filled-IsSound (omega (arith, nine))

add_int-run : add_int part_reserved.reserved (negsuc 1) ≡ pos 2
unfolding add_int
add_int-run = refl

small : abs (add_int part_reserved.reserved (negsuc 1)) < 2 ^ 31
small = rw add_int-run (omega arith)

change_qty-none_example :
    (change_qty part_filled (negsuc 9) ≡ none)
    ↔ ((is_neg (negsuc 9) ≡ true) × (open_qty part_filled < abs (negsuc 9)))
change_qty-none_example = change_qty-none part_filled (negsuc 9) (omega (arith, nine)) (omega arith)

modify_wraps_example :
    open_qty (modify part_filled (negsuc 14) 21)
    ≡ part_filled.order_qty + u32_mod - suc 14 - part_filled.filled_qty
modify_wraps_example =
    modify_wraps part_filled 14 21 part_filled-IsSound (omega arith) (omega arith)

-- A level of orders of 5, 7 and 9.
abbrev three_orders : DepthLevel
three_orders = record { price = 10; order_count = 3; aggregate_qty = 21; is_excess = false }

three_orders-Counts : Counts three_orders (5 ∷ 7 ∷ 9 ∷ [])
three_orders-Counts = record { count = refl; total = refl }

close_order-Closes_example : Closes (close_order three_orders 7) (5 ∷ 9 ∷ [])
close_order-Closes_example =
    close_order-Closes three_orders (5 ∷ []) 7 (9 ∷ []) three_orders-Counts (omega arith)
      (omega arith)
