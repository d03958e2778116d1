-- ===== src/Tests/Memory.antt =====
-- The theorems on the memory pool and the pin node at concrete inputs.
use babo_matching_engine.Prelude.{
  has, ℕ, ◌≡◌, ◌≢◌, ◌<◌, ◌↔◌, refl, true, none, some, [], ◌∷◌, ◌++◌, upd, arith,
}
use babo_matching_engine.Order.{oc_no_conditions}
use babo_matching_engine.Pool.{Pool, allocate, release, destroy_all}
use babo_matching_engine.Pool.Ownership.{IsPool, Live, Allocates, allocate-Allocates, release_lem}
use babo_matching_engine.Pool.Destroy.{destroy_all-Live}
use babo_matching_engine.Pin.{PinNode, pin_node, erase, npos}
use babo_matching_engine.Pin.Holds.{IsPin, orders}
use babo_matching_engine.Pin.Erase.{erase-IsPin}
use babo_matching_engine.Tests.Scenario.{order}

-- Three chunks handed out, chunk 1 back.
abbrev one_back : Pool
one_back = record {
  size = 4;
  nb_elements = 2;
  max_allocated_index = 2;
  free_list = some 1;
  next = λ c. none;
}

one_back-IsPool : IsPool one_back (1 ∷ []) 3
one_back-IsPool = record {
  chain = (refl, refl);
  distinct = (refl, tt);
  below = (omega arith, tt);
  counted = refl;
  fits = omega arith;
  high_water = refl;
}

allocate-Allocates_example : Allocates (1 ∷ []) 3 (allocate 4 one_back)
allocate-Allocates_example = allocate-Allocates 4 one_back (1 ∷ []) 3 (omega arith) one_back-IsPool

release_lem_example :
    IsPool (release one_back 2) (2 ∷ 1 ∷ []) 3
    × ((x : ℕ) → Live (2 ∷ 1 ∷ []) 3 x ↔ (Live (1 ∷ []) 3 x × ((x ≡ 2) → ⊥)))
release_lem_example = release_lem one_back 2 (1 ∷ []) 3 one_back-IsPool (omega arith, refl)

used_above : one_back.max_allocated_index ≢ 0
used_above h = absurd (omega (arith, h))

destroy_all-Live_example :
    ((x : ℕ) → (has x (destroy_all one_back).0 ≡ true) ↔ Live (1 ∷ []) 3 x)
    × ((destroy_all one_back).1.nb_elements ≡ 0)
    × ((destroy_all one_back).1.free_list ≡ none)
destroy_all-Live_example = destroy_all-Live one_back (1 ∷ []) 3 one_back-IsPool used_above

-- A node of four slots with orders in the slots 2 and 0, in this order.
abbrev pair : PinNode
pair = record (pin_node 4) {
  slots = λ i. order 1 true 10 5 oc_no_conditions;
  links_next = upd (upd (upd (upd (λ i. npos) 2 0) 0 npos) 1 3) 3 npos;
  links_prev = upd (upd (λ i. npos) 2 npos) 0 2;
  head = 2;
  tail = 0;
  free = 1;
  size = 2;
}

ne : (a : ℕ) → a < 4 → a ≢ npos
ne a h k = absurd (omega arith)

pair-IsPin : IsPin 4 pair (2 ∷ 0 ∷ []) (1 ∷ 3 ∷ [])
unfolding upd
pair-IsPin = record {
  chain = (refl, ne 2 (omega arith), refl, (refl, ne 0 (omega arith), refl, (refl, refl)));
  frees = (refl, ne 1 (omega arith), (refl, ne 3 (omega arith), refl));
  distinct = (refl, (refl, tt));
  free_distinct = (refl, (refl, tt));
  apart = λ a m. ground arith;
  count = refl;
  capacity = refl;
}

erase-IsPin_example :
    IsPin 4 (erase pair 0) (2 ∷ []) (0 ∷ 1 ∷ 3 ∷ [])
    × (orders (erase pair 0) (2 ∷ []) ≡ orders pair (2 ∷ []) ++ orders pair [])
erase-IsPin_example = erase-IsPin pair 0 (2 ∷ []) [] (1 ∷ 3 ∷ []) pair-IsPin
