-- ===== src/Book/Orders/Cancel.antt =====
-- What `cancel` does to the four trees, and what it reports.
use babo_matching_engine.Prelude.{
  ℕ, ◌≡◌, refl, ◌∙◌, ap, Bool, true, false, ◌&&◌, ◌||◌, not, none, some, List, [], ◌∷◌, ◌++◌, ◌==◌,
  if◌then◌else◌, sym, arith, Bool-cases, inl, inr,
}
use babo_matching_engine.Tree.{Side}
use babo_matching_engine.Tree.Search.{find_order}
use babo_matching_engine.Tree.Erase.{erase}
use babo_matching_engine.Tree.Stable.{erase-order_at}
use babo_matching_engine.Book.{
  MatchingBook, Event, on_cancel, on_cancel_reject, Which, type_of, side, put_side, emit,
}
use babo_matching_engine.Book.Match.{erase_in}
use babo_matching_engine.Book.Match.Fills.{listener-emit, listener-erase_in}
use babo_matching_engine.Book.Orders.{cancel_side, cancel}

abbrev pub holds : Which → MatchingBook → ℕ → Bool
holds w b id = elim (find_order (side w b) id) [ none ↦ false | some at ↦ true ]

-- The tree that a cancel takes the order from: the first that has it.
abbrev pub takes_from : MatchingBook → ℕ → Which → Bool
takes_from b id Which.bids = holds Which.bids b id
takes_from b id Which.asks = not (holds Which.bids b id) && holds Which.asks b id
takes_from b id Which.stop_bids =
    not (holds Which.bids b id || holds Which.asks b id) && holds Which.stop_bids b id
takes_from b id Which.stop_asks =
    not (holds Which.bids b id || holds Which.asks b id || holds Which.stop_bids b id)
    && holds Which.stop_asks b id

abbrev pub held : MatchingBook → ℕ → Bool
held b id =
    holds Which.bids b id
    || holds Which.asks b id
    || holds Which.stop_bids b id
    || holds Which.stop_asks b id

abbrev pub same_tree : Which → Which → Bool
same_tree Which.bids Which.bids = true
same_tree Which.asks Which.asks = true
same_tree Which.stop_bids Which.stop_bids = true
same_tree Which.stop_asks Which.stop_asks = true
same_tree _ _ = false

-- The index of one tree after a write to another, or to the same.
pub find_order-put_side :
    (w v : Which) (s : Side) (b : MatchingBook) (j : ℕ)
    → find_order (side w (put_side v s b)) j
      ≡ (if same_tree w v then s.order_index j else find_order (side w b) j)
unfolding find_order side put_side
find_order-put_side Which.bids Which.bids s b j = refl
find_order-put_side Which.asks Which.asks s b j = refl
find_order-put_side Which.stop_bids Which.stop_bids s b j = refl
find_order-put_side Which.stop_asks Which.stop_asks s b j = refl
find_order-put_side _ _ s b j = refl

pub same_tree-index :
    (w v : Which) (b : MatchingBook) (j : ℕ)
    → same_tree w v ≡ true
    → (side v b).order_index j ≡ find_order (side w b) j
unfolding find_order side
same_tree-index Which.bids Which.bids b j h = refl
same_tree-index Which.asks Which.asks b j h = refl
same_tree-index Which.stop_bids Which.stop_bids b j h = refl
same_tree-index Which.stop_asks Which.stop_asks b j h = refl
same_tree-index _ _ b j h = cc

pub find_order-erase_in :
    (w v : Which) (b : MatchingBook) (id j : ℕ)
    → find_order (side w (erase_in v b id)) j
      ≡ (if same_tree w v && j == id then none else find_order (side w b) j)
unfolding erase_in
find_order-erase_in w v b id j = ground (
  arith,
  find_order-put_side w v (erase (type_of v) (side v b) id) b j,
  (erase-order_at (type_of v) (side v b) id).0 j,
  same_tree-index w v b j,
)

pub find_order-emit :
    (w : Which) (b : MatchingBook) (e : Event) (j : ℕ)
    → find_order (side w (emit b e)) j ≡ find_order (side w b) j
unfolding find_order side emit
find_order-emit Which.bids b e j = ground arith
find_order-emit _ b e j = ground arith

cancel_side-none :
    (id : ℕ) (w : Which) (b : MatchingBook) → holds w b id ≡ false → cancel_side id w b ≡ none
unfolding cancel_side
cancel_side-none id w b h = ground arith

cancel_side-some :
    (id : ℕ) (w : Which) (b : MatchingBook)
    → holds w b id ≡ true
    → cancel_side id w b ≡ some (erase_in w b id)
unfolding cancel_side
cancel_side-some id w b h = ground arith

-- The book after a cancel, by the tree that has the order.
pub cancel-hit :
    (b : MatchingBook) (id : ℕ) (w : Which)
    → takes_from b id w ≡ true
    → cancel b id ≡ emit (erase_in w b id) (on_cancel id)
unfolding cancel
cancel-hit b id Which.bids h = ground (arith, cancel_side-some id Which.bids b)
cancel-hit b id Which.asks h =
    ground (arith, cancel_side-none id Which.bids b, cancel_side-some id Which.asks b)
cancel-hit b id Which.stop_bids h = ground (
  arith,
  cancel_side-none id Which.bids b,
  cancel_side-none id Which.asks b,
  cancel_side-some id Which.stop_bids b,
)
cancel-hit b id Which.stop_asks h = ground (
  arith,
  cancel_side-none id Which.bids b,
  cancel_side-none id Which.asks b,
  cancel_side-none id Which.stop_bids b,
  cancel_side-some id Which.stop_asks b,
)

cancel-miss :
    (b : MatchingBook) (id : ℕ) → held b id ≡ false → cancel b id ≡ emit b (on_cancel_reject id)
unfolding cancel
cancel-miss b id h = ground (
  arith,
  cancel_side-none id Which.bids b,
  cancel_side-none id Which.asks b,
  cancel_side-none id Which.stop_bids b,
  cancel_side-none id Which.stop_asks b,
)

-- What a cancel leaves of the index of each tree, and what it tells the listener.
pub record Cancels (b : MatchingBook) (id : ℕ) (log : List Event) (b' : MatchingBook) : Type 0 where
  pub index :
      (w : Which) (j : ℕ)
      → find_order (side w b') j
        ≡ (if takes_from b id w && j == id then none else find_order (side w b) j)
  pub told :
      b'.order_listener
      ≡ some (log ++ (if held b id then on_cancel id else on_cancel_reject id) ∷ [])

takes_from-same_tree :
    (b : MatchingBook) (id : ℕ) (v w : Which)
    → takes_from b id w ≡ true
    → takes_from b id v ≡ same_tree v w
takes_from-same_tree b id Which.bids Which.bids h = ground arith
takes_from-same_tree b id _ _ h = ground arith

held-takes_from :
    (b : MatchingBook) (id : ℕ) (w : Which) → takes_from b id w ≡ true → held b id ≡ true
held-takes_from b id Which.bids h = ground arith
held-takes_from b id _ h = ground arith

Cancels-hit :
    (b : MatchingBook) (id : ℕ) (log : List Event) (w : Which)
    → b.order_listener ≡ some log
    → takes_from b id w ≡ true
    → Cancels b id log (cancel b id)
Cancels-hit b id log w e h = rw (cancel-hit b id w h) (record {
  index = λ v j.
      find_order-emit v (erase_in w b id) (on_cancel id) j
      ∙ find_order-erase_in v w b id j
      ∙ ap (λ t. if t && j == id then none else find_order (side v b) j)
          (sym (takes_from-same_tree b id v w h));
  told =
      rw (held-takes_from b id w h)
        (listener-emit (erase_in w b id) log (on_cancel id) (listener-erase_in w b id ∙ e));
})

takes_from-none :
    (b : MatchingBook) (id : ℕ) (v : Which) → held b id ≡ false → takes_from b id v ≡ false
takes_from-none b id Which.bids h = ground arith
takes_from-none b id _ h = ground arith

-- With a listener set, a cancel takes the id out of the index of the first of the four trees that
-- has it and leaves every other entry of the four indexes; the listener is told of the cancel, or
-- of the reject when no tree has the id.
pub cancel-Cancels :
    (b : MatchingBook) (id : ℕ) (log : List Event)
    → b.order_listener ≡ some log
    → Cancels b id log (cancel b id)
cancel-Cancels b id log e = elim (Bool-cases (held b id)) [
  | inr miss ↦ rw (cancel-miss b id miss) (record {
    index = λ v j.
        find_order-emit v b (on_cancel_reject id) j
        ∙ ap (λ t. if t && j == id then none else find_order (side v b) j)
            (sym (takes_from-none b id v miss));
    told = rw miss (listener-emit b log (on_cancel_reject id) e);
  })
  | inl hit ↦ elim (Bool-cases (holds Which.bids b id)) [
    | inl h1 ↦ Cancels-hit b id log Which.bids e h1
    | inr m1 ↦ elim (Bool-cases (holds Which.asks b id)) [
      | inl h2 ↦ Cancels-hit b id log Which.asks e (ground arith)
      | inr m2 ↦ elim (Bool-cases (holds Which.stop_bids b id)) [
        | inl h3 ↦ Cancels-hit b id log Which.stop_bids e (ground arith)
        | inr m3 ↦ Cancels-hit b id log Which.stop_asks e (ground arith)
      ]
    ]
  ]
]
