-- ===== src/Bench/Adapter/Immediate.antt =====
-- An immediate-or-cancel order never rests: it adds no id to the index of either side.
use babo_matching_engine.Prelude.{
  ℕ, ◌<◌, ◌≡◌, ◌≢◌, refl, sym, ap, ◌∙◌, Bool, true, false, ◌&&◌, not, Option, none, some, List, [],
  arith, ◌==◌, if◌then◌else◌, Bool-cases, inl, inr, subst,
}
use babo_matching_engine.Prelude.Words.{u32_mod}
use babo_matching_engine.Order.{SimpleOrder, new_order, immediate_or_cancel}
use babo_matching_engine.Tree.{OrderLoc, write_order}
use babo_matching_engine.Tree.Search.{find_order}
use babo_matching_engine.Book.{
  MatchingBook, Event, on_accept, Which, side, emit, set_order_listener,
}
use babo_matching_engine.Book.Match.{
  execute_trade, reduce_level, insert_in, match_regular_incoming, submit, rests,
}
use babo_matching_engine.Book.Match.Kept.{match_regular_incoming-Kept}
use babo_matching_engine.Book.Match.Report.{match_regular_incoming-Outcome}
use babo_matching_engine.Book.Orders.{add, is_stopped}
use babo_matching_engine.Book.Orders.Cancel.{
  same_tree, same_tree-index, find_order-put_side, find_order-emit, find_order-erase_in,
}
use babo_matching_engine.Bench.Adapter.Unstopped.{
  NoStops, opposite_tree, submit-regular, submit-NoStops, process_triggered-NoStops, NoStops-emit,
  own_tree,
}
use babo_matching_engine.Book.Match.Fills.{listener-emit}
use babo_matching_engine.Bench.{NewOrder}
use babo_matching_engine.Bench.Adapter.{Adapter, build_order, engine_on_new_order}
use babo_matching_engine.Bench.Adapter.Orders.{IsPlain}
use babo_matching_engine.Bench.Adapter.Answers.{
  order_of, order_of-IsPlain, engine_on_new_order-HandlesNew,
}

-- No tree has an order with the id.
abbrev pub Absent : ℕ → MatchingBook → Type 0
Absent j b = (w : Which) → find_order (side w b) j ≡ none

find_order-market :
    (v : Which) (b : MatchingBook) (p j : ℕ)
    → find_order (side v (record b { market_price = p })) j ≡ find_order (side v b) j
unfolding find_order side
find_order-market Which.bids b p j = refl
find_order-market _ b p j = refl

find_order-set_order_listener :
    (v : Which) (b : MatchingBook) (l : Option (List Event)) (j : ℕ)
    → find_order (side v (set_order_listener b l)) j ≡ find_order (side v b) j
unfolding find_order side set_order_listener
find_order-set_order_listener Which.bids b l j = refl
find_order-set_order_listener _ b l j = refl

NoStops-set_order_listener :
    (b : MatchingBook) (l : Option (List Event)) → NoStops b → NoStops (set_order_listener b l)
unfolding set_order_listener
NoStops-set_order_listener b l k = k

told-set_order_listener :
    (b : MatchingBook) (l : Option (List Event)) → (set_order_listener b l).order_listener ≡ l
unfolding set_order_listener
told-set_order_listener b l = refl

-- A write to a tree that leaves its index.
find_order-same :
    (v w : Which) (b : MatchingBook) (j : ℕ)
    → (if same_tree v w then (side w b).order_index j else find_order (side v b) j)
      ≡ find_order (side v b) j
find_order-same v w b j = elim (Bool-cases (same_tree v w)) [
  | inl e ↦ rw e (same_tree-index v w b j e)
  | inr e ↦ rw e refl
]

execute_trade-index :
    (w v : Which) (b : MatchingBook) (o : SimpleOrder) (at : OrderLoc) (qty j : ℕ)
    → find_order (side v (execute_trade w b o at qty).book) j ≡ find_order (side v b) j
unfolding execute_trade reduce_level write_order
execute_trade-index w v b o at qty j =
    find_order-emit v _ _ j
    ∙ find_order-market v _ _ j
    ∙ find_order-put_side v w _ b j
    ∙ find_order-same v w b j

if-none : (t : Bool) {x : Option OrderLoc} → x ≡ none → (if t then none else x) ≡ none
if-none true e = refl
if-none false e = e

Absent-match :
    (N : ℕ) (w : Which) (b : MatchingBook) (o : SimpleOrder) (j : ℕ)
    → Absent j b
    → Absent j (match_regular_incoming N w b o).1
Absent-match N w b o j k =
    match_regular_incoming-Kept (Absent j) w
      (λ c u at qty h v. execute_trade-index w v c u at qty j ∙ h v)
      (λ c id h v. find_order-erase_in v w c id j ∙ if-none (same_tree v w && j == id) (h v)) N b o
      k

-- What is left of such an order after the matching is dropped.
submit-Immediate :
    (N : ℕ) (b : MatchingBook) (o : SimpleOrder) (log : List Event)
    → IsPlain o
    → immediate_or_cancel o ≡ true
    → b.order_listener ≡ some log
    → (submit N b o).1 ≡ (match_regular_incoming N (opposite_tree o) b o).1
unfolding immediate_or_cancel
submit-Immediate N b o log p i e =
    let (fs, r) = match_regular_incoming-Outcome N (opposite_tree o) b o log e p.sound in
    let dropped : rests N (match_regular_incoming N (opposite_tree o) b o).0 ≡ false =
      ground (arith, r.terms.conditions, i) in
    let m = match_regular_incoming N (opposite_tree o) b o in
    ap (λ (r : SimpleOrder × MatchingBook). r.1) (submit-regular N b o p.unconditional)
    ∙ ap (λ t. if t then insert_in N (own_tree o) m.1 m.0 m.0.price else m.1) dropped

add-Absent :
    (N : ℕ) (b : MatchingBook) (o : SimpleOrder) (j : ℕ)
    → IsPlain o
    → immediate_or_cancel o ≡ true
    → NoStops b
    → b.order_listener ≡ some []
    → Absent j b
    → Absent j (add N b o)
unfolding add
add-Absent N b o j p i k l h = elim (Bool-cases (o.order_qty == 0)) [
  | inl e ↦ rw (e, add) (λ v. find_order-emit v b _ j ∙ h v)
  | inr e ↦
      let b1 = emit b (on_accept o.order_id) in
      let runs : (not (o.stop_price == 0) && is_stopped b1 o) ≡ false =
        ground (arith, p.unstopped) in
      let told = listener-emit b [] (on_accept o.order_id) l in
      let still = submit-NoStops N b1 o p.unconditional (NoStops-emit b _ k) in
      rw (e, runs, add)
        (subst (Absent j)
          (sym (
            process_triggered-NoStops N (submit N b1 o).1 still
            ∙ submit-Immediate N b1 o _ p i told))
          (Absent-match N (opposite_tree o) b1 o j (λ v. find_order-emit v b _ j ∙ h v)))
]

immediate-order_of :
    (a : Adapter) (m : NewOrder) → m.ioc ≢ 0 → immediate_or_cancel (order_of a m).0 ≡ true
unfolding build_order new_order immediate_or_cancel
immediate-order_of a m h = let e : (m.ioc == 0) ≡ false = ground (arith, h) in rw e refl

-- An immediate-or-cancel order, whose quantity fits 32 bits, puts no id into the index of any
-- tree of a book without stop orders: an id that no tree has is in none after it.
pub engine_on_new_order-Absent :
    (N : ℕ) (a : Adapter) (m : NewOrder) (j : ℕ)
    → m.ioc ≢ 0
    → m.quantity < u32_mod
    → NoStops a.book
    → Absent j a.book
    → Absent j (engine_on_new_order N a m).book
engine_on_new_order-Absent N a m j i h k away =
    let answers = engine_on_new_order-HandlesNew N a m h k in
    subst (Absent j) (sym answers.book) (
      add-Absent N (set_order_listener a.book (some [])) (order_of a m).0 j (order_of-IsPlain a m h)
        (immediate-order_of a m i) (NoStops-set_order_listener a.book _ k)
        (told-set_order_listener a.book _)
        (λ v. find_order-set_order_listener v a.book _ j ∙ away v))
