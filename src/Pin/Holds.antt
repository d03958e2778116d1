-- ===== src/Pin/Holds.antt =====
-- What a node stands for: the occupied slots in priority order and the free slots.
use babo_matching_engine.Prelude.{
  ℕ, zero, suc, ◌+◌, ◌≤◌, ◌≡◌, ◌≢◌, refl, true, false, List, [], ◌∷◌, map, ap, arith, upd, upd-same,
  upd-other, has, Distinct, length, ◌↔◌,
}
use babo_matching_engine.Order.{SimpleOrder}
use babo_matching_engine.Pin.{npos, PinNode, pin_node, full, alloc, free_slot}
use babo_matching_engine.Pin.Segment.{Seg, Seg-upd_next}
use babo_matching_engine.Pin.Free.{
  FreeChain, FreeChain-upd, range, length-range, range-Distinct, FreeChain-range,
}

-- The node's list leads from head to tail through the slots `xs`, forwards and backwards; its free
-- list holds the other slots, `fs`; the sizes are right.
pub record IsPin (N : ℕ) (p : PinNode) (xs fs : List ℕ) : Type 0 where
  pub chain : Seg p.links_next p.links_prev npos p.head xs p.tail npos
  pub frees : FreeChain p.links_next p.free fs
  pub distinct : Distinct xs
  pub free_distinct : Distinct fs
  pub apart : (a : ℕ) → has a fs ≡ true → has a xs ≡ false
  pub count : p.size ≡ length xs
  pub capacity : length xs + length fs ≡ N

-- The same with one slot `s` in neither list: between `alloc` and a link, or between an unlink and
-- `free_slot`.
pub record IsLoose (N : ℕ) (p : PinNode) (s : ℕ) (xs fs : List ℕ) : Type 0 where
  pub chain : Seg p.links_next p.links_prev npos p.head xs p.tail npos
  pub frees : FreeChain p.links_next p.free fs
  pub distinct : Distinct xs
  pub free_distinct : Distinct fs
  pub apart : (a : ℕ) → has a fs ≡ true → has a xs ≡ false
  pub count : p.size ≡ suc (length xs)
  pub capacity : suc (length xs) + length fs ≡ N
  pub valid : s ≢ npos
  pub unlinked : has s xs ≡ false
  pub taken : has s fs ≡ false

-- The orders of a node in priority order.
abbrev pub orders : PinNode → List ℕ → List SimpleOrder
orders p xs = map p.slots xs

-- A new pin node with at least one slot and at most 2^16 - 1 is well formed and empty, and its
-- free list holds all its slots in order.
pub pin_node-IsPin : (N : ℕ) → N ≤ npos → 1 ≤ N → IsPin N (pin_node N) [] (range 0 N)
unfolding pin_node
pin_node-IsPin zero h k = absurd (omega arith)
pin_node-IsPin (suc n) h k = record {
  chain = (refl, refl);
  frees = FreeChain-range (suc n) 0 n h (omega arith);
  distinct = tt;
  free_distinct = range-Distinct 0 (suc n);
  apart = λ a m. refl;
  count = refl;
  capacity = omega (arith, length-range 0 (suc n));
}

-- A write at a slot outside the list changes no order of it.
pub map-upd :
    (slots : ℕ → SimpleOrder) (s : ℕ) (o : SimpleOrder) (xs : List ℕ)
    → has s xs ≡ false
    → map (upd slots s o) xs ≡ map slots xs
map-upd slots s o [] out = refl
map-upd slots s o (x ∷ xs) out = ground (arith, upd-other slots s o x, map-upd slots s o xs)

module _ {N : ℕ} {p : PinNode} where
  -- A well-formed pin node is full exactly when its free list is empty.
  pub full_iff : (xs fs : List ℕ) → IsPin N p xs fs → (full N p ≡ true) ↔ (length fs ≡ 0)
  unfolding full
  full_iff xs fs i = ground (arith, i.count, i.capacity)

  pub alloc-IsLoose :
      (order : SimpleOrder) (xs : List ℕ) (s : ℕ) (fs : List ℕ)
      → IsPin N p xs (s ∷ fs)
      → ((alloc p order).0 ≡ s)
        × IsLoose N (alloc p order).1 s xs fs
        × (orders (alloc p order).1 xs ≡ orders p xs)
        × ((alloc p order).1.slots s ≡ order)
  unfolding alloc
  alloc-IsLoose order xs s fs i =
      let out : has s xs ≡ false = i.apart s (ground arith) in
      (
        i.frees.0,
        record {
          chain = i.chain;
          frees = rw i.frees.0 i.frees.2;
          distinct = i.distinct;
          free_distinct = i.free_distinct.1;
          apart = λ a m. i.apart a (ground arith);
          count = ap suc i.count;
          capacity = omega (arith, i.capacity);
          valid = i.frees.1;
          unlinked = out;
          taken = i.free_distinct.0;
        },
        rw i.frees.0 (map-upd p.slots s order xs out),
        rw i.frees.0 (upd-same p.slots s order),
      )

  pub free_slot-IsPin :
      (s : ℕ) (xs fs : List ℕ) → IsLoose N p s xs fs → IsPin N (free_slot p s) xs (s ∷ fs)
  unfolding free_slot
  free_slot-IsPin s xs fs i = record {
    chain =
        Seg-upd_next p.links_next p.links_prev s p.free npos p.head xs p.tail npos i.chain
          i.unlinked;
    frees = (
      refl,
      i.valid,
      rw (upd-same p.links_next s p.free)
          (FreeChain-upd p.links_next s p.free p.free fs i.frees i.taken),
    );
    distinct = i.distinct;
    free_distinct = (i.taken, i.free_distinct);
    apart = λ a m. ground (arith, i.apart a, i.unlinked);
    count = omega (arith, i.count);
    capacity = omega (arith, i.capacity);
  }
