-- ===== src/Tree/Search.antt =====
-- The lookups of narb_tree.h, and its two iterators.
use babo_matching_engine.Prelude.{ℕ, zero, suc, Option, ltb, ◌==◌, if◌then◌else◌, none, some}
use babo_matching_engine.Tree.{Side, OrderLoc, loc, no_loc, OrderType, by_type, level_fuel}
use babo_matching_engine.Pin.{npos}

unfoldable pub get_best : Side → ℕ
get_best s = s.best

unfoldable pub find_node_from : ℕ → Side → ℕ → ℕ → ℕ
find_node_from zero s price curr = 0
find_node_from (suc fuel) s price curr =
    let l = s.levels curr in
    let next = if ltb price l.price then l.left else l.right in
    let rest = find_node_from fuel s price next in
    if curr == 0
    then 0
    else if ltb price l.price
    then rest
    else if ltb l.price price
    then rest
    else curr

unfoldable pub find_node : Side → ℕ → ℕ
unfolding find_node_from
find_node s price = find_node_from (level_fuel s) s price s.root

-- The loop of `find_node` with its end in sight: `none` when it has not ended after `rounds` rounds.
unfoldable pub find_node_run : ℕ → Side → ℕ → ℕ → Option ℕ
find_node_run zero s price curr = none
find_node_run (suc rounds) s price curr =
    let l = s.levels curr in
    let next = if ltb price l.price then l.left else l.right in
    let rest = find_node_run rounds s price next in
    if curr == 0
    then some 0
    else if ltb price l.price
    then rest
    else if ltb l.price price
    then rest
    else some curr

pub record SearchResult : Type 0 where
  pub existing : ℕ
  pub pred : ℕ
  pub succ : ℕ

abbrev pub result : ℕ → ℕ → ℕ → SearchResult
result existing pred succ = record { existing = existing; pred = pred; succ = succ }

unfoldable pub find_neighbors_from : ℕ → Side → ℕ → ℕ → SearchResult
find_neighbors_from zero s price curr = result 0 0 0
find_neighbors_from (suc fuel) s price curr =
    let l = s.levels curr in
    let next = if ltb price l.price then l.left else l.right in
    let rest = find_neighbors_from fuel s price next in
    if curr == 0
    then result 0 0 0
    else if ltb price l.price
    then (if l.left == 0 then result 0 l.pred curr else rest)
    else if ltb l.price price
    then (if l.right == 0 then result 0 curr l.succ else rest)
    else result curr l.pred l.succ

unfoldable pub find_neighbors : Side → ℕ → SearchResult
unfolding find_neighbors_from
find_neighbors s price =
    if s.root == 0 then result 0 0 0 else find_neighbors_from (level_fuel s) s price s.root

-- `find_order`: where the order rests.
unfoldable pub find_order : Side → ℕ → Option OrderLoc
find_order s order_id = s.order_index order_id

-- The level iterator: `begin`, `++` toward worse prices, `--` toward better ones; 0 is `end`.
unfoldable pub begin : Side → ℕ
begin s = s.best

unfoldable pub next_level : OrderType → Side → ℕ → ℕ
next_level type s node = by_type type (s.levels node).pred (s.levels node).succ

unfoldable pub prev_level : OrderType → Side → ℕ → ℕ
prev_level type s node = by_type type (s.levels node).succ (s.levels node).pred

-- The neighbours of an order in the global priority order.
unfoldable pub global_next : Side → OrderLoc → OrderLoc
global_next s l =
    let pin = s.pins l.pin_loc in
    let n = pin.links_next l.index in
    if n == npos
    then (let nn = pin.next_node in if nn == 0 then no_loc else loc nn (s.pins nn).head)
    else loc l.pin_loc n

unfoldable pub global_prev : Side → OrderLoc → OrderLoc
global_prev s l =
    let pin = s.pins l.pin_loc in
    let p = pin.links_prev l.index in
    if p == npos
    then (let pn = pin.prev_node in if pn == 0 then no_loc else loc pn (s.pins pn).tail)
    else loc l.pin_loc p

-- The order iterator: its start; `++` is `global_next`, and `no_loc` is the end.
unfoldable pub orders_begin : Side → OrderLoc
orders_begin s = if s.chain_head == 0 then no_loc else loc s.chain_head (s.pins s.chain_head).head
