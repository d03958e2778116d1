-- ===== src/Book/Match/Kept.antt =====
-- A property of the book that each trade of a matching keeps, and each erasure, is kept by a whole
-- regular matching.
use babo_matching_engine.Prelude.{
  ℕ, zero, suc, Bool, true, false, ◌&&◌, ◌||◌, Option, none, some, ltb, ◌==◌, if◌then◌else◌,
  Bool-cases, Option-cases, inl, inr, subst,
}
use babo_matching_engine.Order.{SimpleOrder, open_qty, all_or_none}
use babo_matching_engine.Tree.{OrderLoc, no_loc, same_loc, order_at}
use babo_matching_engine.Tree.Search.{orders_begin}
use babo_matching_engine.Book.{MatchingBook, Which, side}
use babo_matching_engine.Book.Match.{
  crosses, erase_in, execute_trade, trade_and_erase, Sweep, sweep, regular_step, regular_loop,
  order_fuel, match_regular_incoming,
}

pub if-Kept {ℓ κ} :
    {A : Type ℓ} (P : A → Type κ) (b : Bool) (x y : A) → P x → P y → P (if b then x else y)
if-Kept P true x y k l = k
if-Kept P false x y k l = l

module _ (P : MatchingBook → Type 0) (w : Which)
    (on_trade : (b : MatchingBook) (o : SimpleOrder) (at : OrderLoc) (qty : ℕ)
      → P b
      → P (execute_trade w b o at qty).book)
    (on_erase : (b : MatchingBook) (id : ℕ) → P b → P (erase_in w b id)) where
  trade_and_erase-Kept :
      (b : MatchingBook) (o : SimpleOrder) (at : OrderLoc) (qty id : ℕ)
      → P b
      → P (trade_and_erase w b o at qty id).1
  unfolding trade_and_erase
  trade_and_erase-Kept b o at qty id k =
      let t = on_trade b o at qty k in if-Kept P _ _ _ (on_erase _ id t) t

  abbrev StepKept : Option Sweep → Type 0
  StepKept none = Unit {0}
  StepKept (some v) = P v.book

  regular_step-Kept : (v : Sweep) → P v.book → StepKept (regular_step w v)
  unfolding regular_step
  regular_step-Kept v k =
      let maker = order_at (side w v.book) v.it in
      let left = open_qty v.incoming in
      elim (Bool-cases (same_loc v.it no_loc || left == 0)) [
        | inl e ↦ rw (e, regular_step) tt
        | inr e ↦ elim (Bool-cases (crosses maker v.incoming)) [
          | inr f ↦ rw (e, f, regular_step) tt
          | inl f ↦ elim (Bool-cases (all_or_none maker && ltb left (open_qty maker))) [
            | inl g ↦ rw (e, f, g, regular_step) k
            | inr g ↦
                rw (e, f, g, regular_step)
                  (trade_and_erase-Kept v.book v.incoming v.it _ maker.order_id k)
          ]
        ]
      ]

  regular_loop-Kept : (fuel : ℕ) (v : Sweep) → P v.book → P (regular_loop fuel w v).book
  unfolding regular_loop
  regular_loop-Kept zero v k = k
  regular_loop-Kept (suc fuel) v k = elim (Option-cases (regular_step w v)) [
    | inl n ↦ rw (n, regular_loop) k
    | inr (v', n) ↦
        rw (n, regular_loop) (regular_loop-Kept fuel v' (subst StepKept n (regular_step-Kept v k)))
  ]

  pub match_regular_incoming-Kept :
      (N : ℕ) (b : MatchingBook) (o : SimpleOrder) → P b → P (match_regular_incoming N w b o).1
  unfolding match_regular_incoming
  match_regular_incoming-Kept N b o k =
      regular_loop-Kept (order_fuel N b) (sweep o b (orders_begin (side w b))) k
