-- ===== src/Book/Orders/Fire.antt =====
-- The stops that `process_triggered` fires, against the list of the stops in its tree.
use babo_matching_engine.Prelude.{
  ℕ, zero, suc, ◌<◌, ◌≡◌, refl, sym, ◌∙◌, ap, subst, Bool, List, [], ◌∷◌, ◌++◌, length,
  if◌then◌else◌, arith, Bool-cases, inl, inr,
}
use babo_matching_engine.Order.{SimpleOrder}
use babo_matching_engine.Tree.{Side, OrderLoc, order_at}
use babo_matching_engine.Tree.Search.{find_order, global_next, orders_begin}
use babo_matching_engine.Tree.Stable.{erase-order_at}
use babo_matching_engine.Tree.Walk.{Walk, AllOther, DistinctIds}
use babo_matching_engine.Tree.Nodes.Orders.{HasOrders, erase-HasOrders}
use babo_matching_engine.Tree.Nodes.Slots.{HasOrders-Walk, At, Walk-drop, next-At}
use babo_matching_engine.Book.{MatchingBook, Which, type_of, side}
use babo_matching_engine.Book.Match.{erase_in}
use babo_matching_engine.Book.Match.Access.{side-erase_in, find_order-erase, Unmoved}
use babo_matching_engine.Book.Match.Fills.{market-erase_in, listener-erase_in}
use babo_matching_engine.Book.Orders.{not_reached, is_stopped, fire}

-- The stops in front that the market has reached, and the locations of the others.
unfoldable pub reached :
    (SimpleOrder → Bool) → Side → List OrderLoc → List SimpleOrder × List OrderLoc
reached waits s [] = ([], [])
reached waits s (x ∷ xs) =
    let rest = reached waits s xs in
    if waits (order_at s x) then ([], x ∷ xs) else (order_at s x ∷ rest.0, rest.1)

-- A stop in the tree where it is parked waits exactly as long as `add` would park it.
pub not_reached-is_stopped :
    (b : MatchingBook) (o : SimpleOrder)
    → not_reached (if o.is_buy then Which.stop_bids else Which.stop_asks) b.market_price o
      ≡ is_stopped b o
unfolding not_reached is_stopped
not_reached-is_stopped b o = elim (Bool-cases o.is_buy) [ inl e ↦ rw e refl | inr e ↦ rw e refl ]

index-find_order : (s : Side) (id : ℕ) → s.order_index id ≡ find_order s id
unfolding find_order
index-find_order s id = refl

-- After an erasure of another id the orders rest as they did.
Unmoved-erase_in :
    (w : Which) (s : Side) (b : MatchingBook) (id : ℕ) (xs : List OrderLoc)
    → AllOther s id xs
    → Unmoved w s b xs
    → Unmoved w s (erase_in w b id) xs
Unmoved-erase_in w s b id [] a u = tt
Unmoved-erase_in w s b id (x ∷ xs) a u = (
  ap (λ t. order_at t x) (side-erase_in w b id)
      ∙ (erase-order_at (type_of w) (side w b) id).1 x
      ∙ u.0,
  ap (λ t. find_order t (order_at s x).order_id) (side-erase_in w b id)
      ∙ find_order-erase (type_of w) (side w b) id (order_at s x).order_id a.0
      ∙ u.1,
  Unmoved-erase_in w s b id xs a.1 u.2,
)

-- The fired stops are those in front that the market has reached, in order; the others stay in the
-- tree, in order; and the listener is told nothing.
pub record Fires (N : ℕ) (w : Which) (b : MatchingBook) (us : List OrderLoc)
    (r : List SimpleOrder × List OrderLoc) (v : List SimpleOrder × MatchingBook) : Type 0 where
  pub fired : v.0 ≡ r.0
  pub parked : HasOrders N (side w v.1) (us ++ r.1)
  pub silent : v.1.order_listener ≡ b.order_listener
  pub market : v.1.market_price ≡ b.market_price

-- With the iterator in front of locations of the chain of a stop tree, whose orders rest there as
-- in a given memory with distinct ids and indexed, and fuel above their number, the stops that
-- fire are those in front that the market has reached, in order; the other stops stay in the
-- chain in order, the listener is told nothing and the market price stays.
pub fire-Fires :
    (fuel N : ℕ) (w : Which) (s : Side) (b : MatchingBook) (it : OrderLoc) (us xs : List OrderLoc)
    → HasOrders N (side w b) (us ++ xs)
    → At it xs
    → DistinctIds s xs
    → Unmoved w s b xs
    → length xs < fuel
    → Fires N w b us (reached (not_reached w b.market_price) s xs) (fire fuel w b it)
unfolding fire reached
fire-Fires zero N w s b it us xs h a d u f = absurd (omega arith)
fire-Fires (suc fuel) N w s b it us [] h a d u f =
    rw (a, fire) (record { fired = refl; parked = h; silent = refl; market = refl })
fire-Fires (suc fuel) N w s b it us (x ∷ xs) h a d u f =
    let walk : Walk (side w b) x (x ∷ xs) =
      Walk-drop (side w b) (orders_begin (side w b)) x us (x ∷ xs)
        (HasOrders-Walk N (side w b) (us ++ x ∷ xs) h) refl in
    let id = (order_at s x).order_id in
    let b' = erase_in w b id in
    let left : HasOrders N (side w b') (us ++ xs) =
      subst (λ t. HasOrders N t (us ++ xs)) (sym (side-erase_in w b id))
        (erase-HasOrders N (type_of w) (side w b) id us x xs h
          (index-find_order (side w b) id ∙ u.1)) in
    let price : b'.market_price ≡ b.market_price = market-erase_in w b id in
    let later =
      fire-Fires fuel N w s b' (global_next (side w b) x) us xs left
        (next-At (side w b) x x xs walk) d.1 (Unmoved-erase_in w s b id xs d.0 u.2) (omega arith) in
    let rest =
      subst
        (λ px.
          Fires N w b' us (reached (not_reached w px) s xs)
            (fire fuel w b' (global_next (side w b) x)))
        price later in
    rw a (elim (Bool-cases (not_reached w b.market_price (order_at s x))) [
      | inl waits ↦
          rw (walk.1, u.0, waits, fire)
            (record { fired = refl; parked = h; silent = refl; market = refl })
      | inr fires ↦
          rw (walk.1, u.0, fires, fire)
            (record {
              fired = ap (◌∷◌ (order_at s x)) rest.fired;
              parked = rest.parked;
              silent = rest.silent ∙ listener-erase_in w b id;
              market = rest.market ∙ price;
            })
    ])
