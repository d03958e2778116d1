-- ===== src/Book.antt =====
-- libs/babobook/include/book/order_listener.h and the state of `matching_book` in matching_book.h:
-- four trees over shared memory, the depth snapshot, the listener and the reference price.
pub mod Match
pub mod Orders
pub mod Snapshot
use babo_matching_engine.Prelude.{ℕ, zero, Option, none, some, List, [], ◌∷◌, ◌++◌}
use babo_matching_engine.Prelude.Int.{ℤ}
use babo_matching_engine.Order.{SimpleOrder}
use babo_matching_engine.Pin.{PinNode, pin_node}
use babo_matching_engine.Pool.{Pool, empty_pool}
use babo_matching_engine.Tree.{Side, OrderLoc, PriceLevel, blank_price_level, OrderType, bid, ask}
use babo_matching_engine.Depth.{Depth, new_depth}

-- A call of the listener. The reason of a reject is one text for each kind of call.
pub data Event : Type 0 where
  on_accept : ℕ → Event
  on_reject : ℕ → Event
  on_fill : (order matched_order fill_qty fill_cost : ℕ) → Event
  on_cancel : ℕ → Event
  on_cancel_reject : ℕ → Event
  on_replace : (order : ℕ) (size_delta : ℤ) (new_price : ℕ) → Event
  on_replace_reject : ℕ → Event

-- The fields of a `narb_tree`.
pub record NarbTree : Type 0 where
  pub order_index : ℕ → Option OrderLoc
  pub best : ℕ
  pub root : ℕ
  pub chain_head : ℕ
  pub chain_tail : ℕ

abbrev pub empty_tree : NarbTree
empty_tree = record { order_index = λ _. none; best = 0; root = 0; chain_head = 0; chain_tail = 0 }

pub record MatchingBook : Type 0 where
  pub levels : ℕ → PriceLevel
  pub pins : ℕ → PinNode
  pub level_pool : Pool
  pub pin_pool : Pool
  pub bids : NarbTree
  pub asks : NarbTree
  pub stop_bids : NarbTree
  pub stop_asks : NarbTree
  pub depth : Depth
  pub order_listener : Option (List Event)
  pub market_price : ℕ

-- Which of the four trees.
pub data Which : Type 0 where
  bids asks stop_bids stop_asks : Which

abbrev pub type_of : Which → OrderType
type_of Which.bids = bid
type_of Which.asks = ask
type_of Which.stop_bids = ask
type_of Which.stop_asks = bid

tree : Which → MatchingBook → NarbTree
tree Which.bids b = b.bids
tree Which.asks b = b.asks
tree Which.stop_bids b = b.stop_bids
tree Which.stop_asks b = b.stop_asks

-- The tree with the memory of the pools, as the functions of narb_tree.h see it.
unfoldable pub side : Which → MatchingBook → Side
unfolding tree
side w b =
    let t = tree w b in
    record {
      levels = b.levels;
      pins = b.pins;
      level_pool = b.level_pool;
      pin_pool = b.pin_pool;
      order_index = t.order_index;
      best = t.best;
      root = t.root;
      chain_head = t.chain_head;
      chain_tail = t.chain_tail;
    }

put_memory : Side → MatchingBook → MatchingBook
put_memory s b = record b {
  levels = s.levels;
  pins = s.pins;
  level_pool = s.level_pool;
  pin_pool = s.pin_pool;
}

tree_of_side : Side → NarbTree
tree_of_side s = record {
  order_index = s.order_index;
  best = s.best;
  root = s.root;
  chain_head = s.chain_head;
  chain_tail = s.chain_tail;
}

put_tree : Which → NarbTree → MatchingBook → MatchingBook
put_tree Which.bids t b = record b { bids = t }
put_tree Which.asks t b = record b { asks = t }
put_tree Which.stop_bids t b = record b { stop_bids = t }
put_tree Which.stop_asks t b = record b { stop_asks = t }

-- The book after an operation on one of its trees.
unfoldable pub put_side : Which → Side → MatchingBook → MatchingBook
unfolding put_memory tree_of_side put_tree
put_side w s b = put_tree w (tree_of_side s) (put_memory s b)

-- A book before its first call, with the pools as the program starts. `size` is the template
-- argument `SIZE`.
unfoldable pub new_book : ℕ → Option (List Event) → MatchingBook
unfolding new_depth
new_book size listener = record {
  levels = λ p. blank_price_level;
  pins = λ p. pin_node 0;
  level_pool = empty_pool;
  pin_pool = empty_pool;
  bids = empty_tree;
  asks = empty_tree;
  stop_bids = empty_tree;
  stop_asks = empty_tree;
  depth = new_depth size;
  order_listener = listener;
  market_price = 0;
}

-- `if (order_listener_) order_listener_->…`: the listener keeps what it was told, in order.
unfoldable pub emit : MatchingBook → Event → MatchingBook
emit b e = elim b.order_listener [
  | none ↦ b
  | some log ↦ record b { order_listener = some (log ++ e ∷ []) }
]

unfoldable pub set_order_listener : MatchingBook → Option (List Event) → MatchingBook
set_order_listener b l = record b { order_listener = l }
