-- ===== src/Bench/Adapter/Acks.antt =====
-- What the adapter answers to a cancel, and which orders it takes for resting.
use babo_matching_engine.Prelude.{
  ℕ, ◌%◌, ◌<◌, ◌≡◌, refl, sym, ◌∙◌, Bool, true, false, ◌&&◌, ◌||◌, none, some, [], ◌∷◌, ◌++◌, arith,
  ◌==◌, if◌then◌else◌, Bool-cases, Option-cases, inl, inr, subst, ◌⊎◌,
}
use babo_matching_engine.Prelude.Int.{pos}
use babo_matching_engine.Prelude.Words.{u32_mod}
use babo_matching_engine.Tree.{OrderLoc, order_at}
use babo_matching_engine.Tree.Search.{find_order}
use babo_matching_engine.Book.{MatchingBook, on_cancel, Which, side}
use babo_matching_engine.Book.Match.{erase_in}
use babo_matching_engine.Book.Orders.{cancel}
use babo_matching_engine.Book.Orders.Cancel.{
  holds, takes_from, same_tree, cancel-hit, find_order-emit, find_order-erase_in,
}
use babo_matching_engine.Bench.{Cancel, me_cancel_ack, me_cancel_reject}
use babo_matching_engine.Bench.Adapter.{
  Adapter, push_report, ack, emit_ack, find_resting, engine_on_cancel,
}
use babo_matching_engine.Bench.Adapter.Unstopped.{
  NoStops, not_stop_tree, NoStops-emit, NoStops-erase_in,
}

-- Whether an order with the id is among the bids or the asks.
abbrev pub is_resting : MatchingBook → ℕ → Bool
is_resting b id = holds Which.bids b id || holds Which.asks b id

abbrev pub main_tree : Bool → Which
main_tree t = if t then Which.bids else Which.asks

-- The tree where a resting order is found.
abbrev pub resting_tree : MatchingBook → ℕ → Which
resting_tree b id = main_tree (holds Which.bids b id)

pub find_resting-none :
    (b : MatchingBook) (id : ℕ) → is_resting b id ≡ false → find_resting b id ≡ none
unfolding find_resting
find_resting-none b id h = ground arith

-- The order that is found stands where the index of the tree with it says.
abbrev pub FoundIn : MatchingBook → ℕ → Bool → Type 0
FoundIn b id t =
    (at : OrderLoc) × (find_order (side (main_tree t) b) id ≡ some at)
    × (find_resting b id ≡ some (order_at (side (main_tree t) b) at, t))

pub find_resting-some :
    (b : MatchingBook) (id : ℕ) → is_resting b id ≡ true → FoundIn b id (holds Which.bids b id)
unfolding find_resting
find_resting-some b id h = elim (Option-cases (find_order (side Which.bids b) id)) [
  | inr (at, e) ↦
      let here : holds Which.bids b id ≡ true = ground (arith, e) in
      subst (FoundIn b id) (sym here) (at, e, rw (e, find_resting) refl)
  | inl n ↦
      let there : holds Which.bids b id ≡ false = ground (arith, n) in
      elim (Option-cases (find_order (side Which.asks b) id)) [
        | inr (at, e) ↦ subst (FoundIn b id) (sym there) (at, e, rw (n, e, find_resting) refl)
        | inl m ↦
            let nowhere : holds Which.asks b id ≡ false = ground (arith, m) in
            absurd (ground (arith, h, there, nowhere))
      ]
]

resting_tree-takes_from :
    (b : MatchingBook) (id : ℕ)
    → is_resting b id ≡ true
    → takes_from b id (resting_tree b id) ≡ true
resting_tree-takes_from b id h = elim (Bool-cases (holds Which.bids b id)) [
  | inl e ↦ subst (λ t. takes_from b id (main_tree t) ≡ true) (sym e) e
  | inr e ↦ subst (λ t. takes_from b id (main_tree t) ≡ true) (sym e) (ground (arith, h, e))
]

-- A cancel of a resting order takes it out of the tree where it is found.
pub cancel-resting :
    (b : MatchingBook) (id : ℕ)
    → is_resting b id ≡ true
    → (NoStops b → NoStops (cancel b id))
      × ((w : Which) (j : ℕ)
          → find_order (side w (cancel b id)) j ≡ (
              if same_tree w (resting_tree b id) && j == id then none else find_order (side w b) j))
cancel-resting b id h =
    let w = resting_tree b id in
    rw (cancel-hit b id w (resting_tree-takes_from b id h)) (
      λ k. NoStops-emit _ _ (NoStops-erase_in w b id (not_stop_tree (holds Which.bids b id)).0 k),
      λ v j. find_order-emit v (erase_in w b id) (on_cancel id) j ∙ find_order-erase_in v w b id j,
    )

-- The answer to the cancel of a resting order: one acknowledgement with its side and its price,
-- and the order is gone from the tree where it stood, while every other entry stays.
pub record CancelHit (a : Adapter) (m : Cancel) (id : ℕ) (a' : Adapter) : Type 0 where
  pub at : OrderLoc
  pub stands : find_order (side (resting_tree a.book id) a.book) id ≡ some at
  pub reports :
      a'.reports
      ≡ a.reports
        ++ ack me_cancel_ack m.sequence_number m.order_id
            (if holds Which.bids a.book id then 0 else 1)
            (pos (order_at (side (resting_tree a.book id) a.book) at).price)
            0
          ∷ []
  pub index :
      (w : Which) (j : ℕ)
      → find_order (side w a'.book) j ≡ (
          if same_tree w (resting_tree a.book id) && j == id
          then none
          else find_order (side w a.book) j)
  pub no_stops : NoStops a.book → NoStops a'.book

abbrev pub rejected : Adapter → Cancel → Adapter
rejected a m = record a {
  reports = a.reports ++ ack me_cancel_reject m.sequence_number m.order_id 0 (pos 0) 0 ∷ [];
}

-- The two answers, for an order whose id the adapter reads as `id`.
abbrev pub AnswersCancel : Adapter → Cancel → ℕ → Adapter → Type 0
AnswersCancel a m id a' =
    ((is_resting a.book id ≡ true) × CancelHit a m id a')
    ⊎ ((is_resting a.book id ≡ false) × (a' ≡ rejected a m))

pub engine_on_cancel-reads :
    (a : Adapter) (m : Cancel) → AnswersCancel a m (m.order_id % u32_mod) (engine_on_cancel a m)
unfolding engine_on_cancel emit_ack push_report
engine_on_cancel-reads a m =
    let id = m.order_id % u32_mod in
    elim (Bool-cases (is_resting a.book id)) [
      | inr e ↦ inr (e, rw (find_resting-none a.book id e, engine_on_cancel) refl)
      | inl e ↦
          let (at, stands, found) = find_resting-some a.book id e in
          let done = cancel-resting a.book id e in
          inl (
            e,
            record {
              at = at;
              stands = stands;
              reports = rw (found, engine_on_cancel) refl;
              index = rw (found, engine_on_cancel) done.1;
              no_stops = rw (found, engine_on_cancel) done.0;
            },
          )
    ]

-- For an id that fits 32 bits, the adapter answers the cancel of an order that rests with one
-- acknowledgement with its side and its price, and takes the order out of the index of the tree
-- where it stood and nothing else; for any other order it reports one reject and changes nothing.
pub engine_on_cancel-answers :
    (a : Adapter) (m : Cancel)
    → m.order_id < u32_mod
    → AnswersCancel a m m.order_id (engine_on_cancel a m)
engine_on_cancel-answers a m h =
    subst (λ id. AnswersCancel a m id (engine_on_cancel a m)) (omega (arith, h))
      (engine_on_cancel-reads a m)
