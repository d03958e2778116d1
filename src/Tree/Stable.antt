-- ===== src/Tree/Stable.antt =====
-- The slots and the index of a tree when an order is erased (narb_tree.h).
use babo_matching_engine.Prelude.{
  ℕ, ◌≡◌, refl, ◌∙◌, ap, Bool, true, false, ◌&&◌, Option, none, ◌==◌, if◌then◌else◌, arith, upd,
  upd-keeps, upd_lem, Bool-cases, Option-cases, inl, inr,
}
use babo_matching_engine.Order.{SimpleOrder}
use babo_matching_engine.Pin.{PinNode}
use babo_matching_engine.Pin
use babo_matching_engine.Tree.{
  Side, OrderLoc, OrderType, order_at, write_pin, write_level, release_pin, release_level, by_type,
  same_loc,
}
use babo_matching_engine.Tree.Chain.{set_next_node, set_prev_node}
use babo_matching_engine.Tree.Erase.{erase_level, drop_pin, leave_level, erase_at, erase}
use babo_matching_engine.Tree.Frame.{
  Keeps, Keeps-refl, Keeps-if, best-Keeps, set_pred-Keeps, set_succ-Keeps, rb_delete_node-Keeps,
}

-- Every slot of every node holds the same order, and the index is the given one.
pub record Stays (s s' : Side) (index : ℕ → Option OrderLoc) : Type 0 where
  pub slots : (p : ℕ) → (s'.pins p).slots ≡ (s.pins p).slots
  pub order_index : s'.order_index ≡ index

Stays-if :
    {s : Side} {index : ℕ → Option OrderLoc} (b : Bool) {t u : Side}
    → Stays s t index
    → Stays s u index
    → Stays s (if b then t else u) index
Stays-if true k l = k
Stays-if false k l = l

Stays-Keeps :
    {s t u : Side} {index : ℕ → Option OrderLoc} → Stays s t index → Keeps t u → Stays s u index
Stays-Keeps a k = record {
  slots = λ p. ap (λ (f : ℕ → PinNode). (f p).slots) k.pins ∙ a.slots p;
  order_index = k.order_index ∙ a.order_index;
}

-- A write of a node that keeps its slots.
Stays-write_pin :
    {s t : Side} {index : ℕ → Option OrderLoc} (p : ℕ) (n : PinNode)
    → Stays s t index
    → n.slots ≡ (t.pins p).slots
    → Stays s (write_pin t p n) index
Stays-write_pin {t} p n a e = record {
  slots = λ q. upd-keeps (λ (m : PinNode). m.slots) t.pins p n e q ∙ a.slots q;
  order_index = a.order_index;
}

release_level-Keeps : {s t : Side} (p : ℕ) → Keeps s t → Keeps s (release_level t p)
unfolding release_level
release_level-Keeps p k = elim (Bool-cases (p == 0)) [
  | inl e ↦ rw (e, release_level) k
  | inr e ↦
      rw (e, release_level)
        (record {
          pins = k.pins;
          pin_pool = k.pin_pool;
          order_index = k.order_index;
          chain_head = k.chain_head;
          chain_tail = k.chain_tail;
        })
]

pub erase_level-Keeps : (type : OrderType) (s : Side) (z : ℕ) → Keeps s (erase_level type s z)
unfolding erase_level
erase_level-Keeps type s z =
    let p = (s.levels z).pred in
    let n = (s.levels z).succ in
    let s1 = Keeps-if (z == s.best) (best-Keeps (by_type type p n) (Keeps-refl s)) (Keeps-refl s) in
    let s2 = Keeps-if (p == 0) s1 (set_succ-Keeps s1 p n) in
    let s3 = Keeps-if (n == 0) s2 (set_pred-Keeps s2 n p) in
    release_level-Keeps z (rb_delete_node-Keeps s3 z)

-- The writes to the chain links keep the slots.
set_next_node-Stays :
    {s t : Side} {index : ℕ → Option OrderLoc}
    → Stays s t index
    → (p v : ℕ) → Stays s (set_next_node t p v) index
unfolding set_next_node
set_next_node-Stays a p v = Stays-write_pin p _ a refl

set_prev_node-Stays :
    {s t : Side} {index : ℕ → Option OrderLoc}
    → Stays s t index
    → (p v : ℕ) → Stays s (set_prev_node t p v) index
unfolding set_prev_node
set_prev_node-Stays a p v = Stays-write_pin p _ a refl

chain_head-Stays :
    {s t : Side} {index : ℕ → Option OrderLoc}
    → Stays s t index
    → (v : ℕ) → Stays s (record t { chain_head = v }) index
chain_head-Stays a v = record { slots = a.slots; order_index = a.order_index }

chain_tail-Stays :
    {s t : Side} {index : ℕ → Option OrderLoc}
    → Stays s t index
    → (v : ℕ) → Stays s (record t { chain_tail = v }) index
chain_tail-Stays a v = record { slots = a.slots; order_index = a.order_index }

release_pin-Stays :
    {s t : Side} {index : ℕ → Option OrderLoc}
    → Stays s t index
    → (p : ℕ) → Stays s (release_pin t p) index
unfolding release_pin
release_pin-Stays a p = elim (Bool-cases (p == 0)) [
  | inl e ↦ rw (e, release_pin) a
  | inr e ↦ rw (e, release_pin) (record { slots = a.slots; order_index = a.order_index })
]

drop_pin-Stays :
    {s t : Side} {index : ℕ → Option OrderLoc}
    → Stays s t index
    → (node : ℕ) → Stays s (drop_pin t node) index
unfolding drop_pin
drop_pin-Stays {t} a node =
    let prev = (t.pins node).prev_node in
    let next = (t.pins node).next_node in
    let s1 = Stays-if (prev == 0) (chain_head-Stays a next) (set_next_node-Stays a prev next) in
    let s2 = Stays-if (next == 0) (chain_tail-Stays s1 prev) (set_prev_node-Stays s1 next prev) in
    release_pin-Stays s2 node

slots-erase : (n : PinNode) (i : ℕ) → (Pin.erase n i).slots ≡ n.slots
unfolding Pin.erase Pin.unlink Pin.free_slot
slots-erase n i = refl

-- Erasing an order takes its id out of the index and nothing else, and leaves every order in its
-- slot.
pub erase_at-Stays :
    (type : OrderType) (s : Side) (id : ℕ) (at : OrderLoc)
    → Stays s (erase_at type s id at) (upd s.order_index id none)
unfolding erase_at
erase_at-Stays type s id at =
    let node = at.pin_loc in
    let level = (order_at s at).level in
    let old = s.levels level in
    let t1 = record s { order_index = upd s.order_index id none } in
    let t2 = write_level t1 level (leave_level t1 old at) in
    let s2 : Stays s t2 (upd s.order_index id none) = record {
      slots = λ p. refl;
      order_index = refl;
    } in
    let s3 =
      Stays-write_pin node (Pin.erase (t2.pins node) at.index) s2
        (slots-erase (t2.pins node) at.index) in
    let s4 =
      Stays-if (Pin.empty (upd t2.pins node (Pin.erase (t2.pins node) at.index) node))
        (drop_pin-Stays s3 node) s3 in
    Stays-if (same_loc old.head at && same_loc old.tail at)
      (Stays-Keeps s4 (erase_level-Keeps type _ level)) s4

-- Erasing an id from a tree takes exactly that id out of the index, and leaves the order in every
-- slot of every pin node as it was.
pub erase-order_at :
    (type : OrderType) (s : Side) (id : ℕ)
    → ((j : ℕ) → (erase type s id).order_index j ≡ (if j == id then none else s.order_index j))
      × ((at : OrderLoc) → order_at (erase type s id) at ≡ order_at s at)
unfolding erase
erase-order_at type s id = elim (Option-cases (s.order_index id)) [
  | inl e ↦ rw (e, erase) (λ j. ground (arith, e), λ at. refl)
  | inr (at, e) ↦
      let a = erase_at-Stays type s id at in
      rw (e, erase)
        (
          λ j.
              ap (λ (f : ℕ → Option OrderLoc). f j) a.order_index ∙ upd_lem s.order_index id none j,
          λ l. ap (λ (f : ℕ → SimpleOrder). f l.index) (a.slots l.pin_loc),
        )
]
