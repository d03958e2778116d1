-- ===== src/Depth.antt =====
-- libs/babobook/include/book/depth.h: the snapshot of `SIZE` levels on each side, bids then asks.
-- A pointer into the array is the index that it points to.
use babo_matching_engine.Prelude.{ℕ, zero, suc, ◌-◌, ◌*◌, upd}
use babo_matching_engine.Level.{DepthLevel, blank_level, invalid_level_price, set}

pub record Depth : Type 0 where
  pub levels : ℕ → DepthLevel

unfoldable pub clear_first : ℕ → (ℕ → DepthLevel) → ℕ → DepthLevel
clear_first zero levels = levels
clear_first (suc n) levels =
    let rest = clear_first n levels in upd rest n (set (rest n) invalid_level_price 0 0)

-- `clear` of a depth with `2 * size` levels.
unfoldable pub clear : ℕ → Depth → Depth
unfolding clear_first
clear size d = record { levels = clear_first (size * 2) d.levels }

-- `Depth()`.
unfoldable pub new_depth : ℕ → Depth
unfolding clear
new_depth size = clear size (record { levels = λ i. blank_level })

abbrev pub bids : ℕ → ℕ
bids size = 0

abbrev pub asks : ℕ → ℕ
asks size = size

abbrev pub last_bid_level : ℕ → ℕ
last_bid_level size = size - 1

abbrev pub last_ask_level : ℕ → ℕ
last_ask_level size = size * 2 - 1

abbrev pub depth_end : ℕ → ℕ
depth_end size = size * 2
