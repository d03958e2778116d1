-- ===== src/Order/Modify.antt =====
-- What `SimpleOrder::modify`, `replace` and the state changes do to an order's quantities.
use babo_matching_engine.Prelude.{ℕ, suc, ◌+◌, ◌-◌, ◌≤◌, ◌<◌, ◌≡◌, arith, ◌^◌}
use babo_matching_engine.Prelude.Int.{pos, negsuc}
use babo_matching_engine.Prelude.Words.{u32_mod, add32, to_u32}
use babo_matching_engine.Order.{SimpleOrder, open_qty, modify, accept, cancel}
use babo_matching_engine.Order.Quantity.{IsSound}

-- For a sound order, `modify` with a growth that fits 32 bits adds exactly that amount to the
-- open quantity and keeps the order sound.
pub modify-grow :
    (o : SimpleOrder) (d new_price : ℕ)
    → IsSound o
    → o.order_qty + d < u32_mod
    → IsSound (modify o (pos d) new_price)
      × (open_qty (modify o (pos d) new_price) ≡ open_qty o + d)
unfolding modify open_qty to_u32 add32
modify-grow o d new_price s h = (ground (arith, s.within, s.fits, s.unreserved), ground arith)

-- For a sound order, `modify` with a reduction by at most the open quantity takes exactly that
-- amount from it and keeps the order sound.
pub modify-shrink :
    (o : SimpleOrder) (d new_price : ℕ)
    → IsSound o
    → suc d ≤ open_qty o
    → IsSound (modify o (negsuc d) new_price)
      × (open_qty (modify o (negsuc d) new_price) + suc d ≡ open_qty o)
unfolding modify open_qty to_u32 add32
modify-shrink o d new_price s h = (ground (arith, s.within, s.fits, s.unreserved), ground arith)

-- For a sound order, `modify` with a reduction by more than the whole size, up to 2^31, wraps:
-- the open quantity becomes the size plus 2^32 less the reduction and less the filled quantity.
pub modify_wraps :
    (o : SimpleOrder) (d new_price : ℕ)
    → IsSound o
    → o.order_qty < suc d
    → suc d ≤ 2 ^ 31
    → open_qty (modify o (negsuc d) new_price) ≡ o.order_qty + u32_mod - suc d - o.filled_qty
unfolding modify open_qty to_u32 add32
modify_wraps o d new_price s h k = ground (arith, s.within, s.fits, s.unreserved)

-- Accepting an order does not change what a later cancel makes of its state.
pub cancel_final : (o : SimpleOrder) → (cancel (accept o)).state ≡ (cancel o).state
unfolding cancel accept
cancel_final o = ground arith
