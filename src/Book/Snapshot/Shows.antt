-- ===== src/Book/Snapshot/Shows.antt =====
-- The depth snapshot against the levels that the level iterator visits.
use babo_matching_engine.Prelude.{
  ℕ, zero, suc, ◌+◌, ◌-◌, ◌*◌, ◌≡◌, ◌≢◌, ◌∙◌, true, false, Option, none, some, List, [], ◌∷◌, ◌&&◌,
  ltb, leb, ◌==◌, if◌then◌else◌, upd, upd_lem, arith,
}
use babo_matching_engine.Prelude.Words.{to_u32}
use babo_matching_engine.Prelude.Int.{pos}
use babo_matching_engine.Level.{DepthLevel, set, invalid_level_price}
use babo_matching_engine.Depth.{Depth, clear_first, clear}
use babo_matching_engine.Tree.{Side, OrderType}
use babo_matching_engine.Tree.Search.{begin, next_level}
use babo_matching_engine.Book.{MatchingBook, Which, type_of, side}
use babo_matching_engine.Book.Snapshot.{fill_depth_from, fill_depth_side, depth}

-- From `it` the level iterator visits exactly the levels `xs`, and ends.
abbrev pub LevelWalk : OrderType → Side → ℕ → List ℕ → Type 0
LevelWalk type s it [] = it ≡ 0
LevelWalk type s it (x ∷ xs) = (it ≡ x) × (x ≢ 0) × LevelWalk type s (next_level type s x) xs

abbrev pub nth : List ℕ → ℕ → Option ℕ
nth [] i = none
nth (x ∷ xs) i = if i == 0 then some x else nth xs (i - 1)

-- The cell for a level, or the cell as it was.
abbrev pub shown : Side → Option ℕ → DepthLevel → DepthLevel
shown s none old = old
shown s (some x) old = record {
  price = to_u32 (pos (s.levels x).price);
  order_count = (s.levels x).count;
  aggregate_qty = (s.levels x).quantity;
  is_excess = false;
}

-- The cells from `out` on, `room` of them, show the levels in order; the others stay.
pub fill_depth_from_lem :
    (room : ℕ) (type : OrderType) (s : Side) (it out : ℕ) (levels : ℕ → DepthLevel) (xs : List ℕ)
    → LevelWalk type s it xs
    → (i : ℕ)
    → fill_depth_from room type s it out levels i ≡ (
        if leb out i && ltb i (out + room) then shown s (nth xs (i - out)) (levels i) else levels i)
unfolding fill_depth_from set
fill_depth_from_lem zero type s it out levels xs w i = ground arith
fill_depth_from_lem (suc room) type s it out levels [] w i = ground (arith, w)
fill_depth_from_lem (suc room) type s it out levels (x ∷ xs) w i =
    let cell = shown s (some x) (levels out) in
    let rest =
      fill_depth_from_lem room type s (next_level type s x) (suc out) (upd levels out cell) xs w.2
        i in
    let found : (x == 0) ≡ false = ground (arith, w.1) in
    let shift : i - suc out ≡ i - out - 1 = omega arith in
    rw (w.0, found, fill_depth_from) (rest ∙ rw shift (ground (arith, upd_lem levels out cell i)))

abbrev pub cleared : DepthLevel
cleared = record {
  price = invalid_level_price;
  order_count = 0;
  aggregate_qty = 0;
  is_excess = false;
}

clear_first_lem :
    (n : ℕ) (levels : ℕ → DepthLevel) (i : ℕ)
    → clear_first n levels i ≡ (if ltb i n then cleared else levels i)
unfolding clear_first set
clear_first_lem zero levels i = ground arith
clear_first_lem (suc n) levels i =
    ground (arith, clear_first_lem n levels i, upd_lem (clear_first n levels) n cleared i)

-- The cells of a snapshot of `size` levels on each side: the bids best first, then the asks best
-- first, each cell past the last level of its side cleared.
abbrev pub Shows : ℕ → MatchingBook → List ℕ → List ℕ → Depth → Type 0
Shows size b xs ys d =
    (i : ℕ)
    → (ltb i size ≡ true → d.levels i ≡ shown (side Which.bids b) (nth xs i) cleared)
      × (leb size i && ltb i (size * 2) ≡ true
          → d.levels i ≡ shown (side Which.asks b) (nth ys (i - size)) cleared)

-- When the level iterators of the bids and of the asks walk the given levels in full, the depth
-- snapshot shows in its first half the bid levels and in its second half the ask levels, each in
-- the order of its iterator, and clears the cells that are left.
pub depth-Shows :
    (size : ℕ) (b : MatchingBook) (xs ys : List ℕ)
    → LevelWalk (type_of Which.bids) (side Which.bids b) (begin (side Which.bids b)) xs
    → LevelWalk (type_of Which.asks) (side Which.asks b) (begin (side Which.asks b)) ys
    → Shows size b xs ys (depth size b).depth
unfolding depth fill_depth_side clear
depth-Shows size b xs ys w v i =
    let d1 = clear_first (size * 2) b.depth.levels in
    let d2 =
      fill_depth_from size (type_of Which.bids) (side Which.bids b) (begin (side Which.bids b)) 0
        d1 in
    let bids =
      fill_depth_from_lem size (type_of Which.bids) (side Which.bids b) (begin (side Which.bids b))
        0 d1 xs w i in
    let asks =
      fill_depth_from_lem size (type_of Which.asks) (side Which.asks b) (begin (side Which.asks b))
        size d2 ys v i in
    let clean = clear_first_lem (size * 2) b.depth.levels i in
    let start : i - 0 ≡ i = omega arith in
    (
      λ h. asks ∙ (ground (arith, h, bids, clean, start)),
      λ h. asks ∙ (ground (arith, h, bids, clean, start)),
    )
