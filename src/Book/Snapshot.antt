-- ===== src/Book/Snapshot.antt =====
-- `depth` of matching_book.h: the snapshot of the best levels of both sides.
pub mod Shows
use babo_matching_engine.Prelude.{ℕ, zero, suc, ◌==◌, if◌then◌else◌, upd}
use babo_matching_engine.Prelude.Words.{to_u32}
use babo_matching_engine.Prelude.Int.{pos}
use babo_matching_engine.Level.{DepthLevel, set}
use babo_matching_engine.Depth.{Depth, clear}
use babo_matching_engine.Depth
use babo_matching_engine.Tree.{Side, OrderType}
use babo_matching_engine.Tree.Search.{begin, next_level}
use babo_matching_engine.Book.{MatchingBook, Which, type_of, side}

-- The levels from `it` on into the cells from `out` on, at most `room` of them.
unfoldable pub fill_depth_from : ℕ → OrderType → Side → ℕ → ℕ → (ℕ → DepthLevel) → ℕ → DepthLevel
fill_depth_from zero type s it out levels = levels
fill_depth_from (suc room) type s it out levels =
    let l = s.levels it in
    let filled = upd levels out (set (levels out) (to_u32 (pos l.price)) l.quantity l.count) in
    let rest = fill_depth_from room type s (next_level type s it) (suc out) filled in
    if it == 0 then levels else rest

unfoldable pub fill_depth_side : ℕ → OrderType → Side → ℕ → Depth → Depth
fill_depth_side size type s out d = record {
  levels = fill_depth_from size type s (begin s) out d.levels;
}

-- The snapshot, which the book keeps.
unfoldable pub depth : ℕ → MatchingBook → MatchingBook
depth size b =
    let d1 = clear size b.depth in
    let d2 = fill_depth_side size (type_of Which.bids) (side Which.bids b) (Depth.bids size) d1 in
    let d3 = fill_depth_side size (type_of Which.asks) (side Which.asks b) (Depth.asks size) d2 in
    record b { depth = d3 }
