-- ===== src/Book/Match/Fills.antt =====
-- The trades that the listener is told of, and what one trade does.
use mathlib.Core.List.{append-nil, append_assoc, map-append}
use babo_matching_engine.Prelude.{
  ℕ, ◌+◌, ◌≤◌, ◌≡◌, refl, sym, ap, ◌∙◌, Bool, true, some, List, [], ◌∷◌, ◌++◌, map, arith, leb,
  ◌==◌, if◌then◌else◌,
}
use babo_matching_engine.Prelude.Words.{mul32}
use babo_matching_engine.Order.{SimpleOrder, open_qty, fill, market_order_price}
use babo_matching_engine.Order.Quantity.{IsSound, fill_lem}
use babo_matching_engine.Tree.{Side, OrderLoc, order_at}
use babo_matching_engine.Book.{MatchingBook, Event, on_fill, Which, side, put_side, emit}
use babo_matching_engine.Book.Match.{crosses, execute_trade, trade_and_erase, erase_in}

-- One trade of an incoming order: its maker, its quantity and its price.
pub record Fill : Type 0 where
  pub maker : ℕ
  pub qty : ℕ
  pub price : ℕ

-- The call of the listener for it.
abbrev pub report : ℕ → Fill → Event
report taker f = on_fill taker f.maker f.qty (mul32 f.qty f.price)

abbrev pub sum_qty : List Fill → ℕ
sum_qty [] = 0
sum_qty (f ∷ fs) = f.qty + sum_qty fs

-- The reference price after the trades.
abbrev pub last_price : ℕ → List Fill → ℕ
last_price px [] = px
last_price px (f ∷ fs) = last_price f.price fs

-- The price is no worse than the order's limit; a market order has none.
abbrev pub within_limit : SimpleOrder → ℕ → Bool
within_limit o px =
    if o.price == market_order_price
    then true
    else if o.is_buy
    then leb px o.price
    else leb o.price px

abbrev pub AllWithin : SimpleOrder → List Fill → Type 0
AllWithin o [] = Unit {0}
AllWithin o (f ∷ fs) = (within_limit o f.price ≡ true) × AllWithin o fs

pub sum_qty-append : (fs gs : List Fill) → sum_qty (fs ++ gs) ≡ sum_qty fs + sum_qty gs
sum_qty-append [] gs = omega arith
sum_qty-append (f ∷ fs) gs = omega (arith, sum_qty-append fs gs)

pub last_price-append :
    (px : ℕ) (fs gs : List Fill) → last_price px (fs ++ gs) ≡ last_price (last_price px fs) gs
last_price-append px [] gs = refl
last_price-append px (f ∷ fs) gs = last_price-append f.price fs gs

-- The terms of an order, which a fill does not touch.
pub record SameTerms (o o' : SimpleOrder) : Type 0 where
  pub price : o'.price ≡ o.price
  pub is_buy : o'.is_buy ≡ o.is_buy
  pub order_id : o'.order_id ≡ o.order_id
  pub order_qty : o'.order_qty ≡ o.order_qty
  pub conditions : o'.conditions ≡ o.conditions

pub AllWithin-same :
    (o o' : SimpleOrder) (fs : List Fill) → SameTerms o o' → AllWithin o' fs → AllWithin o fs
AllWithin-same o o' [] t h = tt
AllWithin-same o o' (f ∷ fs) t h =
    (ground (arith, t.price, t.is_buy, h.0), AllWithin-same o o' fs t h.1)

pub AllWithin-append :
    (o : SimpleOrder) (fs gs : List Fill) → AllWithin o fs → AllWithin o gs → AllWithin o (fs ++ gs)
AllWithin-append o [] gs h k = k
AllWithin-append o (f ∷ fs) gs h k = (h.0, AllWithin-append o fs gs h.1 k)

-- What the incoming order and the book show after some trades of it.
pub record Reported (o : SimpleOrder) (b : MatchingBook) (log : List Event) (fs : List Fill)
    (o' : SimpleOrder) (b' : MatchingBook) : Type 0 where
  pub told : b'.order_listener ≡ some (log ++ map (report o.order_id) fs)
  pub total : o'.filled_qty ≡ o.filled_qty + sum_qty fs
  pub within : AllWithin o fs
  pub market : b'.market_price ≡ last_price b.market_price fs
  pub terms : SameTerms o o'
  pub sound : IsSound o'

pub Reported-none :
    (o : SimpleOrder) (b : MatchingBook) (log : List Event)
    → b.order_listener ≡ some log
    → IsSound o
    → Reported o b log [] o b
Reported-none o b log e s = record {
  told = e ∙ ap some (sym (append-nil log));
  total = omega arith;
  within = tt;
  market = refl;
  terms = record {
    price = refl;
    is_buy = refl;
    order_id = refl;
    order_qty = refl;
    conditions = refl;
  };
  sound = s;
}

pub Reported-trans :
    (o : SimpleOrder) (b : MatchingBook) (log : List Event) (fs : List Fill) (o' : SimpleOrder)
    (b' : MatchingBook) (gs : List Fill) (o'' : SimpleOrder) (b'' : MatchingBook)
    → Reported o b log fs o' b'
    → Reported o' b' (log ++ map (report o.order_id) fs) gs o'' b''
    → Reported o b log (fs ++ gs) o'' b''
Reported-trans o b log fs o' b' gs o'' b'' r q = record {
  told =
      q.told
      ∙ ap some (
          ap (λ n. (log ++ map (report o.order_id) fs) ++ map (report n) gs) r.terms.order_id
          ∙ append_assoc log (map (report o.order_id) fs) (map (report o.order_id) gs)
          ∙ ap (◌++◌ log) (sym (map-append (report o.order_id) fs gs)));
  total = omega (arith, r.total, q.total, sum_qty-append fs gs);
  within = AllWithin-append o fs gs r.within (AllWithin-same o o' gs r.terms q.within);
  market =
      q.market
      ∙ ap (λ px. last_price px gs) r.market
      ∙ sym (last_price-append b.market_price fs gs);
  terms = record {
    price = q.terms.price ∙ r.terms.price;
    is_buy = q.terms.is_buy ∙ r.terms.is_buy;
    order_id = q.terms.order_id ∙ r.terms.order_id;
    order_qty = q.terms.order_qty ∙ r.terms.order_qty;
    conditions = q.terms.conditions ∙ r.terms.conditions;
  };
  sound = q.sound;
}

-- A write to one tree of the book leaves the listener and the reference price alone.
pub listener-put_side :
    (w : Which) (s : Side) (b : MatchingBook) → (put_side w s b).order_listener ≡ b.order_listener
unfolding put_side
listener-put_side Which.bids s b = refl
listener-put_side Which.asks s b = refl
listener-put_side Which.stop_bids s b = refl
listener-put_side Which.stop_asks s b = refl

pub market-put_side :
    (w : Which) (s : Side) (b : MatchingBook) → (put_side w s b).market_price ≡ b.market_price
unfolding put_side
market-put_side Which.bids s b = refl
market-put_side Which.asks s b = refl
market-put_side Which.stop_bids s b = refl
market-put_side Which.stop_asks s b = refl

pub listener-emit :
    (b : MatchingBook) (log : List Event) (e : Event)
    → b.order_listener ≡ some log
    → (emit b e).order_listener ≡ some (log ++ e ∷ [])
unfolding emit
listener-emit b log e h = rw (h, emit)

pub market-emit : (b : MatchingBook) (e : Event) → (emit b e).market_price ≡ b.market_price
unfolding emit
market-emit b e = ground arith

pub fill-SameTerms : (o : SimpleOrder) (qty cost : ℕ) → SameTerms o (fill o qty cost)
unfolding fill
fill-SameTerms o qty cost = ground arith

pub crosses-within :
    (maker o : SimpleOrder) → crosses maker o ≡ true → within_limit o maker.price ≡ true
unfolding crosses
crosses-within maker o h = h

-- What a trade tells the listener, and the reference price after it.
pub execute_trade-told :
    (w : Which) (b : MatchingBook) (o : SimpleOrder) (at : OrderLoc) (qty : ℕ) (log : List Event)
    → b.order_listener ≡ some log
    → let maker = order_at (side w b) at in
      (execute_trade w b o at qty).book.order_listener
      ≡ some (log ++ on_fill o.order_id maker.order_id qty (mul32 qty maker.price) ∷ [])
unfolding execute_trade
execute_trade-told w b o at qty log e = listener-emit _ log _ (listener-put_side w _ b ∙ e)

execute_trade-market :
    (w : Which) (b : MatchingBook) (o : SimpleOrder) (at : OrderLoc) (qty : ℕ)
    → (execute_trade w b o at qty).book.market_price ≡ (order_at (side w b) at).price
unfolding execute_trade
execute_trade-market w b o at qty = market-emit _ _

pub execute_trade-incoming :
    (w : Which) (b : MatchingBook) (o : SimpleOrder) (at : OrderLoc) (qty : ℕ)
    → (execute_trade w b o at qty).incoming ≡ fill o qty (mul32 qty (order_at (side w b) at).price)
unfolding execute_trade
execute_trade-incoming w b o at qty = refl

pub listener-erase_in :
    (w : Which) (b : MatchingBook) (id : ℕ) → (erase_in w b id).order_listener ≡ b.order_listener
unfolding erase_in
listener-erase_in w b id = listener-put_side w _ b

pub market-erase_in :
    (w : Which) (b : MatchingBook) (id : ℕ) → (erase_in w b id).market_price ≡ b.market_price
unfolding erase_in
market-erase_in w b id = market-put_side w _ b

-- One trade, erased or not, is reported as it happened.
pub trade_and_erase-Reported :
    (w : Which) (b : MatchingBook) (o : SimpleOrder) (at : OrderLoc) (qty id : ℕ) (log : List Event)
    → b.order_listener ≡ some log
    → IsSound o
    → qty ≤ open_qty o
    → crosses (order_at (side w b) at) o ≡ true
    → let maker = order_at (side w b) at in
      let r = trade_and_erase w b o at qty id in
      Reported o b log
        (record { maker = maker.order_id; qty = qty; price = maker.price } ∷ [])
        r.0
        r.1
unfolding trade_and_erase
trade_and_erase-Reported w b o at qty id log e s h c =
    let maker = order_at (side w b) at in
    let t = execute_trade w b o at qty in
    let same : t.incoming ≡ fill o qty (mul32 qty maker.price) =
      execute_trade-incoming w b o at qty in
    let f = fill_lem o qty (mul32 qty maker.price) s h in
    rw same (record {
      told = ground (arith, listener-erase_in w t.book id, execute_trade-told w b o at qty log e);
      total = ground (arith, f);
      within = (crosses-within maker o c, tt);
      market = ground (arith, market-erase_in w t.book id, execute_trade-market w b o at qty);
      terms = fill-SameTerms o qty (mul32 qty maker.price);
      sound = f.0;
    })
