-- ===== src/Tree.antt =====
-- libs/babobook/include/data_structures/price_level_descriptor.h and the state of `narb_tree` in
-- narb_tree.h. Pointers are addresses, 0 for `nullptr`; the memory of price levels and of pin nodes
-- is a function of the address, filled by the two process-wide pools. A dereference of `nullptr`,
-- which the source leaves undefined, meets the blank cell at 0.
pub mod Rotate
pub mod Rebalance
pub mod Search
pub mod Chain
pub mod Insert
pub mod Delete
pub mod Erase
pub mod Check
pub mod Frame
pub mod Stable
pub mod Nodes
pub mod Shape
pub mod Walk
use babo_matching_engine.Prelude.{
  ℕ, zero, suc, ◌+◌, ◌-◌, Bool, true, false, ◌&&◌, Option, none, some, ltb, ◌==◌, if◌then◌else◌,
  upd,
}
use babo_matching_engine.Order.{SimpleOrder}
use babo_matching_engine.Pin.{PinNode, pin_node}
use babo_matching_engine.Pool.{Pool, allocate, release}

-- The concrete pin node and the slot in it; `{nullptr, 0}` is no location.
pub record OrderLoc : Type 0 where
  pub pin_loc : ℕ
  pub index : ℕ

abbrev pub loc : ℕ → ℕ → OrderLoc
loc pin index = record { pin_loc = pin; index = index }

abbrev pub no_loc : OrderLoc
no_loc = loc 0 0

unfoldable pub valid : OrderLoc → Bool
valid l = ltb 0 l.pin_loc

-- `operator==`.
abbrev pub same_loc : OrderLoc → OrderLoc → Bool
same_loc a b = a.pin_loc == b.pin_loc && a.index == b.index

pub data Color : Type 0 where
  red black : Color

abbrev pub is_red : Color → Bool
is_red red = true
is_red black = false

abbrev pub is_black : Color → Bool
is_black red = false
is_black black = true

-- `price_level_descriptor`.
pub record PriceLevel : Type 0 where
  pub left : ℕ
  pub right : ℕ
  pub parent : ℕ
  pub pred : ℕ
  pub succ : ℕ
  pub color : Color
  pub price : ℕ
  pub quantity : ℕ
  pub count : ℕ
  pub head : OrderLoc
  pub tail : OrderLoc

-- A value-initialised descriptor.
abbrev pub blank_price_level : PriceLevel
blank_price_level = record {
  left = 0;
  right = 0;
  parent = 0;
  pred = 0;
  succ = 0;
  color = red;
  price = 0;
  quantity = 0;
  count = 0;
  head = no_loc;
  tail = no_loc;
}

unfoldable pub level_empty : PriceLevel → Bool
level_empty l = l.head.pin_loc == 0

-- `enum class order_type`, the template argument of the tree.
pub data OrderType : Type 0 where
  bid ask : OrderType

-- What one side chooses of two, as `if constexpr (type == order_type::BID)`.
abbrev pub by_type {ℓ} : {A : Type ℓ} → OrderType → A → A → A
by_type bid x y = x
by_type ask x y = y

-- One tree, with the pools and the memory that all trees share.
pub record Side : Type 0 where
  pub levels : ℕ → PriceLevel
  pub pins : ℕ → PinNode
  pub level_pool : Pool
  pub pin_pool : Pool
  pub order_index : ℕ → Option OrderLoc
  pub best : ℕ
  pub root : ℕ
  pub chain_head : ℕ
  pub chain_tail : ℕ

-- `AllocatorPool<pin_node_t, 128>` and the default block size 1024 of the other pool.
abbrev pin_block : ℕ
pin_block = 128

abbrev level_block : ℕ
level_block = 1024

-- The chunk of index `i` is at address `i + 1`.
unfoldable pub new_level : Side → ℕ × Side
new_level s =
    let (i, pool) = allocate level_block s.level_pool in
    (suc i, record s { level_pool = pool; levels = upd s.levels (suc i) blank_price_level })

unfoldable pub release_level : Side → ℕ → Side
release_level s p = if p == 0 then s else record s { level_pool = release s.level_pool (p - 1) }

unfoldable pub new_pin : ℕ → Side → ℕ × Side
new_pin N s =
    let (i, pool) = allocate pin_block s.pin_pool in
    (suc i, record s { pin_pool = pool; pins = upd s.pins (suc i) (pin_node N) })

unfoldable pub release_pin : Side → ℕ → Side
release_pin s p = if p == 0 then s else record s { pin_pool = release s.pin_pool (p - 1) }

-- Writes through a pointer.
abbrev pub write_level : Side → ℕ → PriceLevel → Side
write_level s p l = record s { levels = upd s.levels p l }

abbrev pub write_pin : Side → ℕ → PinNode → Side
write_pin s p n = record s { pins = upd s.pins p n }

unfoldable pub set_left : Side → ℕ → ℕ → Side
set_left s p v = write_level s p (record (s.levels p) { left = v })

unfoldable pub set_right : Side → ℕ → ℕ → Side
set_right s p v = write_level s p (record (s.levels p) { right = v })

unfoldable pub set_parent : Side → ℕ → ℕ → Side
set_parent s p v = write_level s p (record (s.levels p) { parent = v })

unfoldable pub set_pred : Side → ℕ → ℕ → Side
set_pred s p v = write_level s p (record (s.levels p) { pred = v })

unfoldable pub set_succ : Side → ℕ → ℕ → Side
set_succ s p v = write_level s p (record (s.levels p) { succ = v })

unfoldable pub set_color : Side → ℕ → Color → Side
set_color s p v = write_level s p (record (s.levels p) { color = v })

-- `color_of`: a missing node is black.
unfoldable pub color_of : Side → ℕ → Color
color_of s p = if p == 0 then black else (s.levels p).color

-- The rounds that a walk down or up the tree can take: one for each live level, and one to stop.
abbrev pub level_fuel : Side → ℕ
level_fuel s = suc s.level_pool.nb_elements

-- The order in a slot, and a write to it.
abbrev pub order_at : Side → OrderLoc → SimpleOrder
order_at s l = (s.pins l.pin_loc).slots l.index

unfoldable pub write_order : Side → OrderLoc → SimpleOrder → Side
write_order s l o =
    let n = s.pins l.pin_loc in write_pin s l.pin_loc (record n { slots = upd n.slots l.index o })
