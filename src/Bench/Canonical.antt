-- ===== src/Bench/Canonical.antt =====
-- benchmark/src/correctness.cpp: the canonical text of the reports of a run. A line is the list of
-- its numbers; their decimal digits, the commas between them and the hash of the text are left to
-- the C library and to sha256.c. `CollectedReport` is a struct of harness.h.
pub mod Sorting
pub mod Interleaving
use babo_matching_engine.Prelude.{
  ℕ, Bool, true, false, Option, none, some, List, [], ◌∷◌, ltb, ◌==◌, if◌then◌else◌,
}
use babo_matching_engine.Prelude.Int.{ℤ, pos}
use babo_matching_engine.Bench.{
  me_order_ack, me_trade, me_cancel_ack, me_modify_ack, me_cancel_reject, me_modify_reject,
}

-- `CollectedReport`.
pub record CollectedReport : Type 0 where
  pub type : ℕ
  pub seq : ℕ
  pub side : ℕ
  pub order_id : ℕ
  pub price_ticks : ℤ
  pub quantity : ℕ
  pub maker_order_id : ℕ
  pub taker_order_id : ℕ

-- The comparison that the sort gets.
unfoldable pub before : CollectedReport → CollectedReport → Bool
before a b = if a.seq == b.seq then ltb a.type b.type else ltb a.seq b.seq

-- `std::stable_sort`: a report goes in front of those that are not before it.
unfoldable pub insert_sorted : CollectedReport → List CollectedReport → List CollectedReport
insert_sorted r [] = r ∷ []
insert_sorted r (x ∷ xs) = if before x r then x ∷ insert_sorted r xs else r ∷ x ∷ xs

unfoldable pub stable_sort : List CollectedReport → List CollectedReport
stable_sort [] = []
stable_sort (r ∷ rs) = insert_sorted r (stable_sort rs)

-- The numbers of the line of a report; an unknown type has no line.
unfoldable pub line : CollectedReport → Option (List ℤ)
line r =
    let seq = pos r.seq in
    let side = pos r.side in
    let id = pos r.order_id in
    let qty = pos r.quantity in
    if r.type == me_order_ack
    then some (pos 0 ∷ seq ∷ side ∷ id ∷ r.price_ticks ∷ qty ∷ [])
    else if r.type == me_trade
    then some (pos 1 ∷ seq ∷ r.price_ticks ∷ qty ∷ pos r.maker_order_id ∷ pos r.taker_order_id ∷ [])
    else if r.type == me_cancel_ack
    then some (pos 2 ∷ seq ∷ side ∷ id ∷ r.price_ticks ∷ [])
    else if r.type == me_modify_ack
    then some (pos 3 ∷ seq ∷ side ∷ id ∷ r.price_ticks ∷ qty ∷ [])
    else if r.type == me_cancel_reject
    then some (pos 4 ∷ seq ∷ id ∷ [])
    else if r.type == me_modify_reject
    then some (pos 5 ∷ seq ∷ id ∷ [])
    else none

unfoldable pub lines : List CollectedReport → List (List ℤ)
lines [] = []
lines (r ∷ rs) = elim (line r) [ none ↦ lines rs | some l ↦ l ∷ lines rs ]

-- The text, as the list of its lines.
unfoldable pub build_canonical_text : List CollectedReport → List (List ℤ)
build_canonical_text reports = lines (stable_sort reports)
