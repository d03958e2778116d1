-- ===== src/Pin.antt =====
-- libs/babobook/include/data_structures/pin_node.h: `pin_node<N>`, a block of `N` order slots whose
-- occupied slots form a doubly linked list and whose other slots form a free list. Pointers to nodes
-- are addresses, 0 for `nullptr`; slot numbers are `uint16_t`. The arrays are functions of the slot.
pub mod Segment
pub mod Free
pub mod Holds
pub mod Links
pub mod Linked
pub mod Insert
pub mod Erase
use babo_matching_engine.Prelude.{ℕ, suc, ◌+◌, ◌-◌, ◌^◌, Bool, ◌==◌, if◌then◌else◌, upd}
use babo_matching_engine.Order.{SimpleOrder, blank_order}

-- `npos`, a `uint16_t` of -1.
abbrev pub npos : ℕ
npos = 2 ^ 16 - 1

pub record PinNode : Type 0 where
  pub next_node : ℕ
  pub prev_node : ℕ
  pub slots : ℕ → SimpleOrder
  pub links_prev : ℕ → ℕ
  pub links_next : ℕ → ℕ
  pub head : ℕ
  pub tail : ℕ
  pub free : ℕ
  pub size : ℕ

-- The constructor threads the free list through the `next` links.
unfoldable pub pin_node : ℕ → PinNode
pin_node N = record {
  next_node = 0;
  prev_node = 0;
  slots = λ s. blank_order;
  links_prev = λ s. npos;
  links_next = λ s. if s == N - 1 then npos else s + 1;
  head = npos;
  tail = npos;
  free = 0;
  size = 0;
}

unfoldable pub empty : PinNode → Bool
empty p = p.size == 0

unfoldable pub full : ℕ → PinNode → Bool
full N p = p.size == N

-- The slot that is taken and the node after. The caller has checked that the node is not full.
unfoldable pub alloc : PinNode → SimpleOrder → ℕ × PinNode
alloc p order = (
  p.free,
  record p { free = p.links_next p.free; slots = upd p.slots p.free order; size = suc p.size },
)

unfoldable pub free_slot : PinNode → ℕ → PinNode
free_slot p s = record p { links_next = upd p.links_next s p.free; free = s; size = p.size - 1 }

unfoldable pub link_front : PinNode → ℕ → PinNode
link_front p s = record p {
  links_prev =
      if p.head == npos then upd p.links_prev s npos else upd (upd p.links_prev s npos) p.head s;
  links_next = upd p.links_next s p.head;
  tail = if p.head == npos then s else p.tail;
  head = s;
}

unfoldable pub link_back : PinNode → ℕ → PinNode
link_back p s = record p {
  links_next =
      if p.tail == npos then upd p.links_next s npos else upd (upd p.links_next s npos) p.tail s;
  links_prev = upd p.links_prev s p.tail;
  head = if p.tail == npos then s else p.head;
  tail = s;
}

unfoldable pub splice_after : PinNode → ℕ → ℕ → PinNode
splice_after p ref s =
    let n = p.links_next ref in
    record p {
      links_prev = if n == npos then upd p.links_prev s ref else upd (upd p.links_prev s ref) n s;
      links_next = upd (upd p.links_next s n) ref s;
      tail = if n == npos then s else p.tail;
    }

unfoldable pub append : PinNode → SimpleOrder → ℕ × PinNode
append p order = let (slot, q) = alloc p order in (slot, link_back q slot)

unfoldable pub prepend : PinNode → SimpleOrder → ℕ × PinNode
prepend p order = let (slot, q) = alloc p order in (slot, link_front q slot)

unfoldable pub insert_after : PinNode → ℕ → SimpleOrder → ℕ × PinNode
insert_after p reference order =
    let (slot, q) = alloc p order in (slot, splice_after q reference slot)

-- `erase` before it gives the slot back.
unfoldable pub unlink : PinNode → ℕ → PinNode
unlink q s =
    let p = q.links_prev s in
    let n = q.links_next s in
    record q {
      head = if p == npos then n else q.head;
      links_next = if p == npos then q.links_next else upd q.links_next p n;
      tail = if n == npos then p else q.tail;
      links_prev = if n == npos then q.links_prev else upd q.links_prev n p;
    }

unfoldable pub erase : PinNode → ℕ → PinNode
erase q s = free_slot (unlink q s) s
