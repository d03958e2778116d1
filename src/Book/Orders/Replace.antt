-- ===== src/Book/Orders/Replace.antt =====
-- `replace` of matching_book.h at an unchanged price.
use babo_matching_engine.Prelude.{
  ℕ, ◌≡◌, refl, sym, ◌∙◌, ap, subst, Bool, ◌&&◌, some, List, [], ◌∷◌, ◌++◌, leb, if◌then◌else◌,
  upd-same, Bool-cases, inl, inr,
}
use babo_matching_engine.Prelude.Int.{ℤ, is_neg, abs}
use babo_matching_engine.Prelude.Words.{add32, to_u32}
use babo_matching_engine.Order.{SimpleOrder, open_qty, modify, price_unchanged}
use babo_matching_engine.Tree.{Side, OrderLoc, PriceLevel, same_loc, order_at, write_order}
use babo_matching_engine.Tree.Walk.{order_at-write_order}
use babo_matching_engine.Tree.Nodes.Orders.{HasOrders, erase-HasOrders}
use babo_matching_engine.Tree.Nodes.Slots.{write_order-HasOrders}
use babo_matching_engine.Book.{MatchingBook, Event, on_replace, Which, type_of, side, put_side}
use babo_matching_engine.Book.Match.{erase_in}
use babo_matching_engine.Book.Match.Access.{side-put_side, side-emit, side-erase_in}
use babo_matching_engine.Book.Match.Fills.{listener-emit, listener-put_side, listener-erase_in}
use babo_matching_engine.Book.Orders.{resize_level, replace_in_place}

-- Whether the reduction takes all that is open.
abbrev pub takes_all : SimpleOrder → ℤ → Bool
takes_all o delta = is_neg delta && leb (open_qty o) (abs delta)

-- The order at `at` has the new size, and everything else of the tree is as before, but for the
-- total of its level.
pub record Resized (N : ℕ) (s s' : Side) (at : OrderLoc) (delta : ℤ) (xs : List OrderLoc)
    : Type 0 where
  pub orders :
      (y : OrderLoc)
      → order_at s' y
        ≡ (if same_loc y at then modify (order_at s at) delta price_unchanged else order_at s y)
  pub index : s'.order_index ≡ s.order_index
  pub priority : HasOrders N s' xs
  pub total :
      (s'.levels (order_at s at).level).quantity
      ≡ add32 (s.levels (order_at s at).level).quantity (to_u32 delta)

index-write_order :
    (s : Side) (at : OrderLoc) (o : SimpleOrder) → (write_order s at o).order_index ≡ s.order_index
unfolding write_order
index-write_order s at o = refl

levels-write_order :
    (s : Side) (at : OrderLoc) (o : SimpleOrder) (l d : ℕ)
    → add32 ((write_order s at o).levels l).quantity d ≡ add32 (s.levels l).quantity d
unfolding write_order
levels-write_order s at o l d = refl

resize_level-Resized :
    (N : ℕ) (s : Side) (at : OrderLoc) (delta : ℤ) (xs : List OrderLoc)
    → HasOrders N s xs
    → Resized N s
        (resize_level
          (write_order s at (modify (order_at s at) delta price_unchanged))
          (order_at s at).level
          delta)
        at
        delta
        xs
unfolding resize_level
resize_level-Resized N s at delta xs h =
    let o = modify (order_at s at) delta price_unchanged in
    let t = write_order s at o in
    let (ks, i, e) = write_order-HasOrders N s at o xs h in
    record {
      orders = λ y. order_at-write_order s at o y;
      index = index-write_order s at o;
      priority = (ks, record { chain = i.chain; distinct = i.distinct; filled = i.filled }, e);
      total =
          ap (λ (l : PriceLevel). l.quantity)
            (upd-same t.levels (order_at s at).level (record (t.levels (order_at s at).level) {
              quantity = add32 (t.levels (order_at s at).level).quantity (to_u32 delta);
            }))
          ∙ levels-write_order s at o (order_at s at).level (to_u32 delta);
    }

-- What an in-place replace does: the whole order goes, or it is resized where it stands; the
-- listener is told of the delta and of the price.
pub record Replaces (N : ℕ) (w : Which) (b : MatchingBook) (us : List OrderLoc) (at : OrderLoc)
    (vs : List OrderLoc) (id : ℕ) (delta : ℤ) (log : List Event) (b' : MatchingBook) : Type 0 where
  pub tree :
      if takes_all (order_at (side w b) at) delta
      then HasOrders N (side w b') (us ++ vs)
      else Resized N (side w b) (side w b') at delta (us ++ at ∷ vs)
  pub told :
      b'.order_listener ≡ some (log ++ on_replace id delta (order_at (side w b) at).price ∷ [])

-- On a tree whose nodes form a chain with the order among its locations, the index leading to it
-- and a listener set, a replace at an unchanged price either takes the order out of the list,
-- when the reduction takes all that is open, or leaves every order at its place in the list,
-- changes only the size of this order, keeps the index and adds the delta to the total of its
-- level in 32 bits; the listener is told of the delta and the price.
pub replace_in_place-Replaces :
    (N : ℕ) (w : Which) (b : MatchingBook) (us : List OrderLoc) (at : OrderLoc) (vs : List OrderLoc)
    (id : ℕ) (delta : ℤ) (log : List Event)
    → HasOrders N (side w b) (us ++ at ∷ vs)
    → (side w b).order_index id ≡ some at
    → b.order_listener ≡ some log
    → Replaces N w b us at vs id delta log (replace_in_place w b at id delta)
unfolding replace_in_place
replace_in_place-Replaces N w b us at vs id delta log h e n =
    let s = side w b in
    let o = order_at s at in
    let s' = resize_level (write_order s at (modify o delta price_unchanged)) o.level delta in
    let event = on_replace id delta o.price in
    elim (Bool-cases (takes_all o delta)) [
      | inl all ↦
          rw (all, replace_in_place)
            (record {
              tree = rw all (
                  subst (λ t. HasOrders N t (us ++ vs))
                    (sym (side-emit w (erase_in w b id) event ∙ side-erase_in w b id))
                    (erase-HasOrders N (type_of w) s id us at vs h e));
              told = listener-emit (erase_in w b id) log event (listener-erase_in w b id ∙ n);
            })
      | inr part ↦
          rw (part, replace_in_place)
            (record {
              tree = rw part (
                  subst (λ t. Resized N s t at delta (us ++ at ∷ vs))
                    (sym (side-emit w (put_side w s' b) event ∙ side-put_side w s' b))
                    (resize_level-Resized N s at delta (us ++ at ∷ vs) h));
              told = listener-emit (put_side w s' b) log event (listener-put_side w s' b ∙ n);
            })
    ]
