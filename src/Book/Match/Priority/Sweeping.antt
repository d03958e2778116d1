-- ===== src/Book/Match/Priority/Sweeping.antt =====
-- The regular matching loop against the sweep over the list of the makers.
use mathlib.Core.List.{append-nil, append_assoc}
use babo_matching_engine.Prelude.{
  ℕ, zero, suc, ◌*◌, ◌≤◌, ◌<◌, ◌≡◌, refl, sym, ◌∙◌, ap, subst, true, false, ◌&&◌, ◌||◌, some, List,
  [], ◌∷◌, ◌++◌, map, length, min, ltb, ◌==◌, arith, Bool-cases, inl, inr,
}
use babo_matching_engine.Prelude.Words.{mul32}
use babo_matching_engine.Order.{SimpleOrder, open_qty, fill, all_or_none}
use babo_matching_engine.Tree.{Side, OrderLoc, no_loc, same_loc, order_at}
use babo_matching_engine.Tree.Search.{global_next, orders_begin}
use babo_matching_engine.Tree.Walk.{Walk, DistinctIds, Indexed}
use babo_matching_engine.Tree.Nodes.Orders.{HasOrders}
use babo_matching_engine.Tree.Nodes.Slots.{HasOrders-Walk, At, Walk-At, Walk-drop, next-At}
use babo_matching_engine.Book.{MatchingBook, Event, on_fill, Which, side}
use babo_matching_engine.Book.Match.{
  crosses, trade_and_erase, Sweep, sweep, regular_step, regular_loop, match_regular_incoming,
  order_fuel,
}
use babo_matching_engine.Book.Match.Access.{Unmoved, Unmoved-trade, Indexed-Unmoved}
use babo_matching_engine.Book.Match.Fills.{Fill, report, fill-SameTerms}
use babo_matching_engine.Book.Match.Plan.Reference.{makers_at}
use babo_matching_engine.Book.Match.Priority.{sweep_from, trade-HasOrders, trade_and_erase-told}
use babo_matching_engine.Book.Match.Priority.Steps.{
  loop-none, loop-some, step-end, step-far, step-skip, step-trade,
}

-- The loop told the listener of the trades of the sweep, in order, left its incoming order, and left
-- the nodes a well-formed chain.
pub record Sweeps (N : ℕ) (w : Which) (o : SimpleOrder) (log : List Event)
    (r : List Fill × SimpleOrder) (v : Sweep) : Type 0 where
  pub told : v.book.order_listener ≡ some (log ++ map (report o.order_id) r.0)
  pub incoming : v.incoming ≡ r.1
  pub kept : (vs : List OrderLoc) × HasOrders N (side w v.book) vs

-- One trade in front of a sweep of what is left.
Sweeps-trade :
    (N : ℕ) (w : Which) (o o' : SimpleOrder) (log : List Event) (f : Fill)
    (r : List Fill × SimpleOrder) (v : Sweep)
    → o'.order_id ≡ o.order_id
    → Sweeps N w o' (log ++ report o.order_id f ∷ []) r v
    → Sweeps N w o log (f ∷ r.0, r.1) v
Sweeps-trade N w o o' log f r v same q = record {
  told =
      q.told
      ∙ ap some (
          ap (λ i. (log ++ report o.order_id f ∷ []) ++ map (report i) r.0) same
          ∙ append_assoc log (report o.order_id f ∷ []) (map (report o.order_id) r.0));
  incoming = q.incoming;
  kept = q.kept;
}

Sweeps-stop :
    (N : ℕ) (w : Which) (o : SimpleOrder) (b : MatchingBook) (it : OrderLoc) (log : List Event)
    (xs : List OrderLoc)
    → HasOrders N (side w b) xs
    → b.order_listener ≡ some log
    → Sweeps N w o log ([], o) (sweep o b it)
Sweeps-stop N w o b it log xs h e = record {
  told = e ∙ ap some (sym (append-nil log));
  incoming = refl;
  kept = (xs, h);
}

-- The trade with the order at `x`, which is as it was in `s`.
traded_told :
    (w : Which) (s : Side) (b : MatchingBook) (o : SimpleOrder) (x : OrderLoc) (qty : ℕ)
    (log : List Event)
    → b.order_listener ≡ some log
    → order_at (side w b) x ≡ order_at s x
    → let maker = order_at s x in
      let r = trade_and_erase w b o x qty maker.order_id in
      let made : Fill = record { maker = maker.order_id; qty = qty; price = maker.price } in
      (r.1.order_listener ≡ some (log ++ report o.order_id made ∷ []))
      × (r.0 ≡ fill o qty (mul32 qty maker.price))
traded_told w s b o x qty log e u =
    subst
      (λ (m : SimpleOrder).
        ((trade_and_erase w b o x qty (order_at s x).order_id).1.order_listener
          ≡ some (log ++ on_fill o.order_id m.order_id qty (mul32 qty m.price) ∷ []))
        × ((trade_and_erase w b o x qty (order_at s x).order_id).0
            ≡ fill o qty (mul32 qty m.price)))
      u (trade_and_erase-told w b o x qty (order_at s x).order_id log e)

traded_step :
    (w : Which) (s : Side) (b : MatchingBook) (o : SimpleOrder) (x : OrderLoc)
    → same_loc x no_loc || open_qty o == 0 ≡ false
    → order_at (side w b) x ≡ order_at s x
    → crosses (order_at (side w b) x) o ≡ true
    → all_or_none (order_at (side w b) x) && ltb (open_qty o) (open_qty (order_at (side w b) x))
      ≡ false
    → let maker = order_at s x in
      let r = trade_and_erase w b o x (min (open_qty o) (open_qty maker)) maker.order_id in
      regular_step w (sweep o b x) ≡ some (sweep r.0 r.1 (global_next (side w b) x))
traded_step w s b o x go u near whole =
    subst
      (λ (m : SimpleOrder).
        regular_step w (sweep o b x)
        ≡ some (
            sweep (trade_and_erase w b o x (min (open_qty o) (open_qty m)) m.order_id).0
              (trade_and_erase w b o x (min (open_qty o) (open_qty m)) m.order_id).1
              (global_next (side w b) x)))
      u (step-trade w o b x go near whole)

-- With the iterator in front of the locations `xs` of the chain, whose orders are those of `s`, and
-- as much fuel as there are of them and one more, the loop sweeps their orders.
pub regular_loop-Sweeps :
    (fuel N : ℕ) (w : Which) (s : Side) (b : MatchingBook) (o : SimpleOrder) (it : OrderLoc)
    (log : List Event) (us xs : List OrderLoc)
    → HasOrders N (side w b) (us ++ xs)
    → At it xs
    → DistinctIds s xs
    → Unmoved w s b xs
    → b.order_listener ≡ some log
    → length xs < fuel
    → Sweeps N w o log (sweep_from o (makers_at s xs)) (regular_loop fuel w (sweep o b it))
unfolding sweep_from
regular_loop-Sweeps zero N w s b o it log us xs h a d u e f = absurd (omega arith)
regular_loop-Sweeps (suc fuel) N w s b o it log us [] h a d u e f =
    rw (loop-none fuel w (sweep o b it) (step-end w o b it (ground (arith, a))))
      (Sweeps-stop N w o b it log us (subst (HasOrders N (side w b)) (append-nil us) h) e)
regular_loop-Sweeps (suc fuel) N w s b o it log us (x ∷ xs) h a d u e f =
    let maker = order_at s x in
    let qty = min (open_qty o) (open_qty maker) in
    let walk : Walk (side w b) x (x ∷ xs) =
      Walk-drop (side w b) (orders_begin (side w b)) x us (x ∷ xs)
        (HasOrders-Walk N (side w b) (us ++ x ∷ xs) h) refl in
    let next = global_next (side w b) x in
    let ahead : At next xs = next-At (side w b) x x xs walk in
    let here : same_loc x no_loc ≡ false = walk.1 in
    rw a (elim (Bool-cases (open_qty o == 0)) [
      | inl z ↦
          rw (loop-none fuel w (sweep o b x) (step-end w o b x (ground (arith, z))), z)
            (Sweeps-stop N w o b x log (us ++ x ∷ xs) h e)
      | inr p ↦
          let go : same_loc x no_loc || open_qty o == 0 ≡ false = ground (arith, here, p) in
          elim (Bool-cases (crosses maker o)) [
            | inr far ↦
                rw
                  (
                    loop-none fuel w (sweep o b x)
                        (step-far w o b x go (subst (λ m. crosses m o ≡ false) (sym u.0) far)),
                    p,
                    far,
                  )
                  (Sweeps-stop N w o b x log (us ++ x ∷ xs) h e)
            | inl hit ↦
                let near = subst (λ m. crosses m o ≡ true) (sym u.0) hit in
                elim (Bool-cases (all_or_none maker && ltb (open_qty o) (open_qty maker))) [
                  | inl skip ↦
                      rw
                        (
                          loop-some fuel w (sweep o b x) (sweep o b next) (
                              step-skip w o b x go near (
                                subst (λ m. all_or_none m && ltb (open_qty o) (open_qty m) ≡ true)
                                  (sym u.0) skip)),
                          p,
                          hit,
                          skip,
                        )
                        (regular_loop-Sweeps fuel N w s b o next log (us ++ x ∷ []) xs
                          (subst (HasOrders N (side w b)) (sym (append_assoc us (x ∷ []) xs)) h)
                          ahead d.1 u.2 e (omega arith))
                  | inr take ↦
                      let whole =
                        subst (λ m. all_or_none m && ltb (open_qty o) (open_qty m) ≡ false)
                          (sym u.0) take in
                      let r = trade_and_erase w b o x qty maker.order_id in
                      let o' = fill o qty (mul32 qty maker.price) in
                      let made : Fill = record {
                        maker = maker.order_id;
                        qty = qty;
                        price = maker.price;
                      } in
                      let told = traded_told w s b o x qty log e u.0 in
                      let (vs, left) = trade-HasOrders N w b o x qty maker.order_id us xs h u.1 in
                      let rest =
                        regular_loop-Sweeps fuel N w s r.1 r.0 next
                          (log ++ report o.order_id made ∷ []) vs xs left ahead d.1
                          (Unmoved-trade w s b o x qty xs d.0 u.2) told.0 (omega arith) in
                      rw
                        (
                          loop-some fuel w (sweep o b x) (sweep r.0 r.1 next)
                              (traded_step w s b o x go u.0 near whole),
                          p,
                          hit,
                          take,
                        )
                        (Sweeps-trade N w o o' log made (sweep_from o' (makers_at s xs))
                          (regular_loop fuel w (sweep r.0 r.1 next))
                          (fill-SameTerms o qty (mul32 qty maker.price)).order_id
                          (subst
                            (λ i.
                              Sweeps N w i (log ++ report o.order_id made ∷ [])
                                (sweep_from i (makers_at s xs))
                                (regular_loop fuel w (sweep r.0 r.1 next)))
                            told.1 rest))
                ]
          ]
    ])

-- The tree as regular matching needs it: its nodes form a chain, which holds the orders at these
-- locations, no more than the live nodes have room for, with distinct ids, each of which leads the
-- index to its order.
pub record IsOrdered (N : ℕ) (w : Which) (b : MatchingBook) (xs : List OrderLoc) : Type 0 where
  pub orders : HasOrders N (side w b) xs
  pub ids : DistinctIds (side w b) xs
  pub indexed : Indexed (side w b) xs
  pub bounded : length xs ≤ b.pin_pool.nb_elements * N

-- The result of matching told the listener exactly the trades of the sweep, in order, and the nodes
-- of the tree are a chain again.
pub record Matches (N : ℕ) (w : Which) (o : SimpleOrder) (log : List Event)
    (makers : List SimpleOrder) (r : SimpleOrder × MatchingBook) : Type 0 where
  pub told : r.1.order_listener ≡ some (log ++ map (report o.order_id) (sweep_from o makers).0)
  pub incoming : r.0 ≡ (sweep_from o makers).1
  pub kept : (vs : List OrderLoc) × HasOrders N (side w r.1) vs

-- On a well-formed tree (its pin nodes form a chain that holds the orders at the given locations,
-- no more than the live nodes have room for, with distinct ids, each leading the index to its
-- order) and with a listener set, regular matching tells the listener exactly the trades of a
-- sweep over the list of these orders in the order of the chain, leaves the incoming order as the
-- sweep does, never runs out of rounds, and leaves the pin nodes a well-formed chain.
pub match_regular_incoming-Matches :
    (N : ℕ) (w : Which) (b : MatchingBook) (o : SimpleOrder) (log : List Event) (xs : List OrderLoc)
    → IsOrdered N w b xs
    → b.order_listener ≡ some log
    → Matches N w o log (makers_at (side w b) xs) (match_regular_incoming N w b o)
unfolding match_regular_incoming
match_regular_incoming-Matches N w b o log xs i e =
    let start =
      Walk-At (side w b) (orders_begin (side w b)) xs (HasOrders-Walk N (side w b) xs i.orders) in
    let r =
      regular_loop-Sweeps (order_fuel N b) N w (side w b) b o (orders_begin (side w b)) log [] xs
        i.orders start i.ids (Indexed-Unmoved w b xs i.indexed) e (omega (arith, i.bounded)) in
    record { told = r.told; incoming = r.incoming; kept = r.kept }
