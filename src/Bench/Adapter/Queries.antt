-- ===== src/Bench/Adapter/Queries.antt =====
-- The answer of `engine_query_depth_at`.
use babo_matching_engine.Prelude.{
  ℕ, zero, suc, ◌+◌, ◌*◌, ◌%◌, ◌≤◌, ◌<◌, ◌≡◌, ap, ◌∙◌, List, [], ◌∷◌, arith, length, ◌==◌,
  if◌then◌else◌,
}
use babo_matching_engine.Prelude.Int.{pos}
use babo_matching_engine.Prelude.Words.{u32_mod, to_u32-pos}
use babo_matching_engine.Order.{open_qty}
use babo_matching_engine.Tree.{Side, OrderLoc, order_at}
use babo_matching_engine.Tree.Search.{global_next, orders_begin}
use babo_matching_engine.Tree.Walk.{Walk}
use babo_matching_engine.Book.{Which, side}
use babo_matching_engine.Book.Match.{order_fuel}
use babo_matching_engine.Bench.{u64_mod}
use babo_matching_engine.Bench.Adapter.{Adapter, depth_loop, engine_query_depth_at}

-- The open quantity at a price over a list of locations.
abbrev pub open_at : Side → ℕ → List OrderLoc → ℕ
open_at s p [] = 0
open_at s p (x ∷ xs) =
    (if (order_at s x).price == p then open_qty (order_at s x) else 0) + open_at s p xs

depth_loop-open_at :
    (xs : List OrderLoc) (fuel : ℕ) (s : Side) (p : ℕ) (it : OrderLoc) (total : ℕ)
    → Walk s it xs
    → length xs < fuel
    → total + open_at s p xs < u64_mod
    → depth_loop fuel s p it total ≡ total + open_at s p xs
unfolding depth_loop
depth_loop-open_at [] zero s p it total w f h = absurd (omega (arith, f))
depth_loop-open_at [] (suc fuel) s p it total w f h = rw (w, depth_loop) (omega arith)
depth_loop-open_at (x ∷ xs) zero s p it total w f h = absurd (omega (arith, f))
depth_loop-open_at (x ∷ xs) (suc fuel) s p it total (here, more, w) f h =
    let o = order_at s x in
    let here_price = o.price == p in
    let here_total = if here_price then (total + open_qty o) % u64_mod else total in
    let so_far : here_total ≡ total + (if here_price then open_qty o else 0) = ground (arith, h) in
    let rest =
      depth_loop-open_at xs fuel s p (global_next s x) here_total w (omega (arith, f))
        (omega (arith, so_far, h)) in
    rw (here, more, depth_loop) (rest ∙ omega (arith, so_far))

-- The side that the query reads.
abbrev pub queried : ℕ → Which
queried side_of = if side_of == 0 then Which.bids else Which.asks

-- For a price that is not negative and fits 32 bits, when the order iterator of the queried side
-- walks the given locations, no more than the live pin nodes hold, and their sum fits 64 bits,
-- the depth query answers the sum of the open quantities of the orders at the price.
pub engine_query_depth_at-open_at :
    (N : ℕ) (a : Adapter) (p side_of : ℕ) (xs : List OrderLoc)
    → p < u32_mod
    → Walk (side (queried side_of) a.book) (orders_begin (side (queried side_of) a.book)) xs
    → length xs ≤ a.book.pin_pool.nb_elements * N
    → open_at (side (queried side_of) a.book) p xs < u64_mod
    → engine_query_depth_at N a (pos p) side_of ≡ open_at (side (queried side_of) a.book) p xs
unfolding engine_query_depth_at
engine_query_depth_at-open_at N a p side_of xs fits w b h =
    let s = side (queried side_of) a.book in
    ap (λ q. depth_loop (order_fuel N a.book) s q (orders_begin s) 0) (to_u32-pos p fits)
    ∙ depth_loop-open_at xs (order_fuel N a.book) s p (orders_begin s) 0 w (omega (arith, b))
        (omega (arith, h))
    ∙ omega arith
