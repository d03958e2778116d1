-- ===== src/Book/Match/Access.antt =====
-- What the trees of the book show after a trade: the other orders and their places.
use babo_matching_engine.Prelude.{
  ℕ, ◌≡◌, ◌≢◌, refl, ◌∙◌, ap, false, some, List, [], ◌∷◌, if◌then◌else◌, arith, Bool-cases,
  Option-cases, inl, inr,
}
use babo_matching_engine.Order.{SimpleOrder, fill}
use babo_matching_engine.Prelude.Words.{mul32}
use babo_matching_engine.Tree.{Side, OrderLoc, same_loc, order_at, write_order, OrderType}
use babo_matching_engine.Tree.Search.{find_order}
use babo_matching_engine.Tree.Erase.{erase}
use babo_matching_engine.Tree.Stable.{erase-order_at}
use babo_matching_engine.Tree.Walk.{Indexed, order_at-write_order, AllOther, apart_of_ids}
use babo_matching_engine.Book.{MatchingBook, Event, Which, type_of, side, put_side, emit}
use babo_matching_engine.Book.Match.{erase_in, reduce_level, execute_trade, trade_and_erase}

-- What was put is what is read.
pub side-put_side : (w : Which) (s : Side) (b : MatchingBook) → side w (put_side w s b) ≡ s
unfolding side put_side
side-put_side Which.bids s b = refl
side-put_side Which.asks s b = refl
side-put_side Which.stop_bids s b = refl
side-put_side Which.stop_asks s b = refl

pub side-emit : (w : Which) (b : MatchingBook) (e : Event) → side w (emit b e) ≡ side w b
unfolding side emit
side-emit Which.bids b e = elim (Option-cases b.order_listener) [
  | inl n ↦ rw (n, emit)
  | inr (l, n) ↦ rw (n, emit)
]
side-emit _ b e = elim (Option-cases b.order_listener) [
  | inl n ↦ rw (n, emit)
  | inr (l, n) ↦ rw (n, emit)
]

side-market :
    (w : Which) (b : MatchingBook) (px : ℕ) → side w (record b { market_price = px }) ≡ side w b
unfolding side
side-market Which.bids b px = refl
side-market _ b px = refl

-- The tree after a trade: the maker is filled in place, and its level has that much less.
pub side-execute_trade :
    (w : Which) (b : MatchingBook) (o : SimpleOrder) (at : OrderLoc) (qty : ℕ)
    → let s = side w b in
      let maker' = fill (order_at s at) qty (mul32 qty (order_at s at).price) in
      side w (execute_trade w b o at qty).book
      ≡ reduce_level (write_order s at maker') maker'.level qty
unfolding execute_trade
side-execute_trade w b o at qty = side-emit w _ _ ∙ side-market w _ _ ∙ side-put_side w _ b

pub side-erase_in :
    (w : Which) (b : MatchingBook) (id : ℕ)
    → side w (erase_in w b id) ≡ erase (type_of w) (side w b) id
unfolding erase_in
side-erase_in w b id = side-put_side w _ b

index-reduce_level :
    (s : Side) (at : OrderLoc) (o : SimpleOrder) (level qty j : ℕ)
    → find_order (reduce_level (write_order s at o) level qty) j ≡ find_order s j
unfolding find_order reduce_level write_order
index-reduce_level s at o level qty j = refl

order_at-reduce_level :
    (s : Side) (level qty : ℕ) (y : OrderLoc) → order_at (reduce_level s level qty) y ≡ order_at s y
unfolding reduce_level
order_at-reduce_level s level qty y = refl

order_at-execute_trade :
    (w : Which) (b : MatchingBook) (o : SimpleOrder) (at : OrderLoc) (qty : ℕ) (y : OrderLoc)
    → same_loc y at ≡ false
    → order_at (side w (execute_trade w b o at qty).book) y ≡ order_at (side w b) y
order_at-execute_trade w b o at qty y far =
    let s = side w b in
    let maker' = fill (order_at s at) qty (mul32 qty (order_at s at).price) in
    ap (λ t. order_at t y) (side-execute_trade w b o at qty)
    ∙ order_at-reduce_level (write_order s at maker') maker'.level qty y
    ∙ order_at-write_order s at maker' y
    ∙ ap (λ c. if c then maker' else order_at s y) far

pub find_order-execute_trade :
    (w : Which) (b : MatchingBook) (o : SimpleOrder) (at : OrderLoc) (qty j : ℕ)
    → find_order (side w (execute_trade w b o at qty).book) j ≡ find_order (side w b) j
find_order-execute_trade w b o at qty j =
    let s = side w b in
    let maker' = fill (order_at s at) qty (mul32 qty (order_at s at).price) in
    ap (λ t. find_order t j) (side-execute_trade w b o at qty)
    ∙ index-reduce_level s at maker' maker'.level qty j

-- After a trade with the order at `at`, and its erasure if it is filled, the other orders are the
-- same at the same places.
pub order_at-trade :
    (w : Which) (b : MatchingBook) (o : SimpleOrder) (at : OrderLoc) (qty id : ℕ) (y : OrderLoc)
    → same_loc y at ≡ false
    → order_at (side w (trade_and_erase w b o at qty id).1) y ≡ order_at (side w b) y
unfolding trade_and_erase
order_at-trade w b o at qty id y far =
    let t = execute_trade w b o at qty in
    elim (Bool-cases t.maker_filled) [
      | inl e ↦
          rw (e, trade_and_erase)
            (ap (λ u. order_at u y) (side-erase_in w t.book id)
              ∙ (erase-order_at (type_of w) (side w t.book) id).1 y
              ∙ order_at-execute_trade w b o at qty y far)
      | inr e ↦ rw (e, trade_and_erase) (order_at-execute_trade w b o at qty y far)
    ]

pub find_order-erase :
    (type : OrderType) (s : Side) (id j : ℕ)
    → j ≢ id
    → find_order (erase type s id) j ≡ find_order s j
unfolding find_order
find_order-erase type s id j far = ground (arith, (erase-order_at type s id).0 j)

-- Nor does another id's place in the index change.
pub find_order-trade :
    (w : Which) (b : MatchingBook) (o : SimpleOrder) (at : OrderLoc) (qty id j : ℕ)
    → j ≢ id
    → find_order (side w (trade_and_erase w b o at qty id).1) j ≡ find_order (side w b) j
unfolding trade_and_erase
find_order-trade w b o at qty id j far =
    let t = execute_trade w b o at qty in
    elim (Bool-cases t.maker_filled) [
      | inl e ↦
          rw (e, trade_and_erase)
            (ap (λ u. find_order u j) (side-erase_in w t.book id)
              ∙ find_order-erase (type_of w) (side w t.book) id j far
              ∙ find_order-execute_trade w b o at qty j)
      | inr e ↦ rw (e, trade_and_erase) (find_order-execute_trade w b o at qty j)
    ]

-- Orders of the book `b₀` that rest in `b` as they did: same place, same content.
abbrev pub Unmoved : Which → Side → MatchingBook → List OrderLoc → Type 0
Unmoved w s b [] = Unit {0}
Unmoved w s b (x ∷ xs) =
    (order_at (side w b) x ≡ order_at s x)
    × (find_order (side w b) (order_at s x).order_id ≡ some x)
    × Unmoved w s b xs

-- A trade with another order leaves them so.
pub Unmoved-trade :
    (w : Which) (s : Side) (b : MatchingBook) (o : SimpleOrder) (at : OrderLoc) (qty : ℕ)
    (xs : List OrderLoc)
    → AllOther s (order_at s at).order_id xs
    → Unmoved w s b xs
    → Unmoved w s (trade_and_erase w b o at qty (order_at s at).order_id).1 xs
Unmoved-trade w s b o at qty [] a u = tt
Unmoved-trade w s b o at qty (x ∷ xs) a u =
    let id = (order_at s at).order_id in
    (
      order_at-trade w b o at qty id x (apart_of_ids s at x a.0) ∙ u.0,
      find_order-trade w b o at qty id (order_at s x).order_id a.0 ∙ u.1,
      Unmoved-trade w s b o at qty xs a.1 u.2,
    )

-- Before any trade.
pub Indexed-Unmoved :
    (w : Which) (b : MatchingBook) (xs : List OrderLoc)
    → Indexed (side w b) xs
    → Unmoved w (side w b) b xs
Indexed-Unmoved w b [] i = tt
Indexed-Unmoved w b (x ∷ xs) i = (refl, i.0, Indexed-Unmoved w b xs i.1)
