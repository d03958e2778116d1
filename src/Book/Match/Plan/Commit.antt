-- ===== src/Book/Match/Plan/Commit.antt =====
-- The commit of the plan of an incoming all-or-none order.
use babo_matching_engine.Prelude.{
  ℕ, ◌*◌, length, ◌≤◌, ◌<◌, ◌≡◌, ◌⊎◌, refl, sym, ◌∙◌, ap, subst, true, some, List, [], ◌∷◌, ltb,
  arith, Bool-cases, inl, inr,
}
use babo_matching_engine.Order.{SimpleOrder, open_qty}
use babo_matching_engine.Order.Quantity.{IsSound, open_qty-eq}
use babo_matching_engine.Tree.{Side, OrderLoc, order_at}
use babo_matching_engine.Tree.Search.{find_order, orders_begin}
use babo_matching_engine.Tree.Walk.{Walk, DistinctIds, Indexed}
use babo_matching_engine.Book.{MatchingBook, Event, Which, side}
use babo_matching_engine.Book.Match.{
  crosses, trade_and_erase, Cand, commit_one, commit, plan_loop, order_fuel, match_aon_incoming,
}
use babo_matching_engine.Book.Match.Access.{Unmoved, Unmoved-trade, Indexed-Unmoved}
use babo_matching_engine.Book.Match.Fills.{
  Fill, sum_qty, Reported, Reported-none, Reported-trans, trade_and_erase-Reported,
}
use babo_matching_engine.Book.Match.Report.{Outcome}
use babo_matching_engine.Book.Match.Plan.{Picks, stop, skip, take, sum_plan, plan_loop-Plans}
use babo_matching_engine.Book.Match.Plan.Reference.{plan_from, makers_at, plan_loop-plan_from}

commit_one-found :
    (w : Which) (o : SimpleOrder) (b : MatchingBook) (c : Cand) (x : OrderLoc)
    → find_order (side w b) c.id ≡ some x
    → commit_one w (o, b) c ≡ trade_and_erase w b o x c.qty c.id
unfolding commit_one
commit_one-found w o b c x e = rw (e, commit_one)

-- Only the price and the side of an incoming order decide what crosses it.
crosses-same :
    (maker o o' : SimpleOrder)
    → o.price ≡ o'.price
    → o.is_buy ≡ o'.is_buy
    → crosses maker o' ≡ true
    → crosses maker o ≡ true
unfolding crosses
crosses-same maker o o' p q c = ground arith

-- The trades of a commit, which fill exactly the planned quantity.
abbrev Commits : SimpleOrder → MatchingBook → List Event → ℕ → SimpleOrder × MatchingBook → Type 0
Commits o b log total r = (fs : List Fill) × Reported o b log fs r.0 r.1 × (sum_qty fs ≡ total)

module _ (w : Which) (s : Side) (incoming : SimpleOrder) where
  commit-Commits :
      {plan : List Cand} {xs : List OrderLoc} (b : MatchingBook) (o : SimpleOrder)
      (log : List Event)
      → Picks s incoming xs plan
      → DistinctIds s xs
      → Unmoved w s b xs
      → b.order_listener ≡ some log
      → IsSound o
      → o.price ≡ incoming.price
      → o.is_buy ≡ incoming.is_buy
      → sum_plan plan ≤ open_qty o
      → Commits o b log (sum_plan plan) (commit w (o, b) plan)
  unfolding commit
  commit-Commits b o log stop d u e v p q h = ([], Reported-none o b log e v, refl)
  commit-Commits b o log (skip k) d u e v p q h = commit-Commits b o log k d.1 u.2 e v p q h
  commit-Commits b o log (take {x} {xs} {c} {plan} f k) d u e v p q h =
      let maker = order_at s x in
      let r = trade_and_erase w b o x c.qty c.id in
      let found : find_order (side w b) c.id ≡ some x = ap (find_order (side w b)) f.id ∙ u.1 in
      let hit : crosses (order_at (side w b) x) o ≡ true =
        subst (λ m. crosses m o ≡ true) (sym u.0) (crosses-same maker o incoming p q f.crossing) in
      let first = trade_and_erase-Reported w b o x c.qty c.id log e v (omega arith) hit in
      let moved : Unmoved w s r.1 xs =
        subst (λ i. Unmoved w s (trade_and_erase w b o x c.qty i).1 xs) (sym f.id)
          (Unmoved-trade w s b o x c.qty xs d.0 u.2) in
      let left : sum_plan plan ≤ open_qty r.0 = omega (
        arith,
        h,
        first.total,
        first.terms.order_qty,
        v.within,
        first.sound.within,
        open_qty-eq o v.unreserved,
        open_qty-eq r.0 first.sound.unreserved,
      ) in
      let (fs, rest, total) =
        commit-Commits r.1 r.0 _ k d.1 moved first.told first.sound (first.terms.price ∙ p)
          (first.terms.is_buy ∙ q) left in
      rw (commit_one-found w o b c x found, commit)
        (
          record {
            maker = (order_at (side w b) x).order_id;
            qty = c.qty;
            price = (order_at (side w b) x).price;
          }
              ∷ fs,
          Reported-trans o b log _ r.0 r.1 fs _ _ first rest,
          omega (arith, total),
        )

-- The tree as the matching functions need it: the iterator walks it in full, the ids of its orders
-- are distinct, the index leads to every order by its id, and the live pin nodes have room for all.
pub record IsReady (N : ℕ) (w : Which) (b : MatchingBook) (xs : List OrderLoc) : Type 0 where
  pub walk : Walk (side w b) (orders_begin (side w b)) xs
  pub ids : DistinctIds (side w b) xs
  pub indexed : Indexed (side w b) xs
  pub bounded : length xs ≤ b.pin_pool.nb_elements * N

-- What the makers in priority order can give the order.
abbrev pub available : SimpleOrder → List SimpleOrder → ℕ
available o makers = (plan_from o (open_qty o) 0 makers).1

-- Nothing happens, because the makers give too little, or the whole open quantity is traded.
abbrev pub AllOrNone :
    SimpleOrder → MatchingBook → List Event → List SimpleOrder → SimpleOrder × MatchingBook → Type 0
AllOrNone o b log makers r =
    ((r ≡ (o, b)) × (available o makers < open_qty o))
    ⊎ (Outcome o b log r.0 r.1 × (open_qty r.0 ≡ 0) × (available o makers ≡ open_qty o))

-- When a tree is ready (walked in full by the iterator, distinct ids, every order indexed, no
-- more orders than the live pin nodes hold), a listener is set and the incoming order is sound,
-- an incoming all-or-none order either leaves itself and the book exactly as they were, and then
-- the makers in priority order can give less than its open quantity, or it trades its whole open
-- quantity, as reported, and then they can give all of it.
pub match_aon_incoming-AllOrNone :
    (N : ℕ) (w : Which) (b : MatchingBook) (o : SimpleOrder) (log : List Event) (xs : List OrderLoc)
    → IsReady N w b xs
    → b.order_listener ≡ some log
    → IsSound o
    → AllOrNone o b log (makers_at (side w b) xs) (match_aon_incoming N w b o)
unfolding match_aon_incoming
match_aon_incoming-AllOrNone N w b o log xs i e v =
    let s = side w b in
    let needed = open_qty o in
    let p = plan_loop (order_fuel N b) s o needed (orders_begin s) 0 in
    let plans =
      plan_loop-Plans (order_fuel N b) s o needed (orders_begin s) 0 xs i.walk (omega arith)
        (omega (arith, open_qty-eq o v.unreserved, v.fits)) in
    let same : p ≡ plan_from o needed 0 (makers_at s xs) =
      plan_loop-plan_from (order_fuel N b) s o needed (orders_begin s) 0 xs i.walk
        (omega (arith, i.bounded)) in
    elim (Bool-cases (ltb p.1 needed)) [
      | inl short ↦
          rw (short, match_aon_incoming)
            (inl (refl, subst (λ (q : List Cand × ℕ). q.1 < needed) same (ground (arith, short))))
      | inr full ↦
          let total : sum_plan p.0 ≡ needed = ground (arith, plans.within, plans.counted) in
          let (fs, r, t) =
            commit-Commits w s o b o log plans.picks i.ids (Indexed-Unmoved w b xs i.indexed) e v
              refl refl (omega (arith, total)) in
          let o' = (commit w (o, b) p.0).0 in
          rw (full, match_aon_incoming)
            (inr (
              (fs, r),
              omega (
                arith,
                r.total,
                r.terms.order_qty,
                t,
                total,
                open_qty-eq o v.unreserved,
                open_qty-eq o' r.sound.unreserved,
                v.within,
                r.sound.within,
              ),
              sym (ap (λ (q : List Cand × ℕ). q.1) same) ∙ (ground (arith, plans.within, full)),
            ))
    ]
