-- ===== src/Bench/Adapter/Unstopped.antt =====
-- The adapter gives the book no stop orders, so the stop trees stay empty and nothing is triggered.
use babo_matching_engine.Prelude.{
  ℕ, ◌≡◌, refl, ap, Bool, true, false, List, [], ◌∷◌, if◌then◌else◌, Option-cases, inl, inr,
}
use babo_matching_engine.Order.{SimpleOrder, all_or_none}
use babo_matching_engine.Tree.{Side, OrderLoc}
use babo_matching_engine.Tree.Search.{orders_begin}
use babo_matching_engine.Book.{MatchingBook, Event, Which, side, put_side, emit}
use babo_matching_engine.Book.Match.{
  erase_in, insert_in, execute_trade, order_fuel, match_regular_incoming, match_against, submit,
  rests,
}
use babo_matching_engine.Book.Match.Kept.{if-Kept, match_regular_incoming-Kept}
use babo_matching_engine.Book.Orders.{fire, fire_all, submit_all, process_rounds, process_triggered}

abbrev pub NoStops : MatchingBook → Type 0
NoStops b = (b.stop_bids.chain_head ≡ 0) × (b.stop_asks.chain_head ≡ 0)

abbrev pub is_stop_tree : Which → Bool
is_stop_tree Which.bids = false
is_stop_tree Which.asks = false
is_stop_tree _ = true

pub NoStops-put_side :
    (w : Which) (s : Side) (b : MatchingBook)
    → is_stop_tree w ≡ false
    → NoStops b
    → NoStops (put_side w s b)
unfolding put_side
NoStops-put_side Which.bids s b h k = k
NoStops-put_side Which.asks s b h k = k
NoStops-put_side _ s b h k = cc

pub NoStops-emit : (b : MatchingBook) (e : Event) → NoStops b → NoStops (emit b e)
unfolding emit
NoStops-emit b e k = elim (Option-cases b.order_listener) [
  | inl n ↦ rw (n, emit) k
  | inr (log, n) ↦ rw (n, emit) k
]

pub NoStops-erase_in :
    (w : Which) (b : MatchingBook) (id : ℕ)
    → is_stop_tree w ≡ false
    → NoStops b
    → NoStops (erase_in w b id)
unfolding erase_in
NoStops-erase_in w b id h k = NoStops-put_side w _ b h k

NoStops-execute_trade :
    (w : Which) (b : MatchingBook) (o : SimpleOrder) (at : OrderLoc) (qty : ℕ)
    → is_stop_tree w ≡ false
    → NoStops b
    → NoStops (execute_trade w b o at qty).book
unfolding execute_trade
NoStops-execute_trade w b o at qty h k = NoStops-emit _ _ (NoStops-put_side w _ b h k)

abbrev pub own_tree : SimpleOrder → Which
own_tree o = if o.is_buy then Which.bids else Which.asks

abbrev pub opposite_tree : SimpleOrder → Which
opposite_tree o = if o.is_buy then Which.asks else Which.bids

pub not_stop_tree :
    (t : Bool)
    → (is_stop_tree (if t then Which.bids else Which.asks) ≡ false)
      × (is_stop_tree (if t then Which.asks else Which.bids) ≡ false)
not_stop_tree true = (refl, refl)
not_stop_tree false = (refl, refl)

module _ (N : ℕ) where
  pub submit-regular :
      (b : MatchingBook) (o : SimpleOrder)
      → all_or_none o ≡ false
      → let r = match_regular_incoming N (opposite_tree o) b o in
        submit N b o
        ≡ (r.0, if rests N r.0 then insert_in N (own_tree o) r.1 r.0 r.0.price else r.1)
  unfolding submit match_against
  submit-regular b o h = rw h

  pub submit-NoStops :
      (b : MatchingBook) (o : SimpleOrder)
      → all_or_none o ≡ false
      → NoStops b
      → NoStops (submit N b o).1
  unfolding insert_in
  submit-NoStops b o h k = rw (submit-regular b o h) (
      let plain = not_stop_tree o.is_buy in
      let m =
        match_regular_incoming-Kept NoStops (opposite_tree o)
          (λ c u at qty. NoStops-execute_trade (opposite_tree o) c u at qty plain.1)
          (λ c id. NoStops-erase_in (opposite_tree o) c id plain.1) N b o k in
      if-Kept NoStops _ _ _ (NoStops-put_side (own_tree o) _ _ plain.0 m) m)

  fire_all-NoStops : (b : MatchingBook) → NoStops b → fire_all N b ≡ ([], b)
  unfolding fire_all fire orders_begin side
  fire_all-NoStops b k = rw (k.0, k.1)

  -- Without stop orders `process_triggered` does nothing.
  pub process_triggered-NoStops : (b : MatchingBook) → NoStops b → process_triggered N b ≡ b
  unfolding process_triggered process_rounds
  process_triggered-NoStops b k =
      ap
        (λ (r : List SimpleOrder × MatchingBook). elim r.0 [
          | [] ↦ r.1
          | o ∷ os ↦ process_rounds N (order_fuel N b) (submit_all N r.1 (o ∷ os))
        ])
        (fire_all-NoStops b k)
