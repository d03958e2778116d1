-- ===== src/Pool/Ownership.antt =====
-- Which chunks of the pool are lent out, and what `allocate` and `release` do to that.
use babo_matching_engine.Prelude.{
  ℕ, suc, ◌+◌, ◌-◌, ◌≤◌, ◌<◌, ◌≡◌, ◌⊎◌, ◌↔◌, refl, false, true, List, [], ◌∷◌, arith, length,
  upd-same, has, Distinct, AllBelow, length-le_of_below,
}
use babo_matching_engine.Pool.{Pool, bump, allocate, release}
use babo_matching_engine.Pool.Free.{Chain, Chain-upd, reserve-size}

-- The chunks below `used` were handed out at some time; those of them in `free` are back.
pub record IsPool (p : Pool) (free : List ℕ) (used : ℕ) : Type 0 where
  pub chain : Chain p.next p.free_list free
  pub distinct : Distinct free
  pub below : AllBelow used free
  pub counted : p.nb_elements + length free ≡ used
  pub fits : used ≤ p.size
  pub high_water : p.max_allocated_index ≡ used - 1

-- A chunk that a client holds.
abbrev pub Live : List ℕ → ℕ → ℕ → Type 0
Live free used x = (x < used) × (has x free ≡ false)

-- The chunk was free, is held now, lies within the pool, and is the only change of what is held.
pub record Lends (free : List ℕ) (used : ℕ) (r : ℕ × Pool) (free' : List ℕ) (used' : ℕ)
    : Type 0 where
  pub is_pool : IsPool r.1 free' used'
  pub fresh : (r.0 < used) → has r.0 free ≡ true
  pub held : Live free' used' r.0
  pub inside : r.0 < r.1.size
  pub others : (x : ℕ) → (x ≡ r.0) ⊎ (Live free used x ↔ Live free' used' x)

bump-Lends :
    (N : ℕ) (p : Pool) (used : ℕ)
    → 1 ≤ N
    → IsPool p [] used
    → Lends [] used (bump N p) [] (suc used)
unfolding bump
bump-Lends N p used h i = record {
  is_pool = record {
    chain = i.chain;
    distinct = tt;
    below = tt;
    counted = omega (arith, i.counted);
    fits = ground (arith, i.counted, i.fits, reserve-size N p p.nb_elements h);
    high_water = ground (arith, i.counted, i.high_water);
  };
  fresh = λ k. absurd (omega (arith, i.counted));
  held = (omega (arith, i.counted), refl);
  inside = ground (arith, i.counted, i.fits, reserve-size N p p.nb_elements h);
  others = λ x. ground (arith, i.counted);
}

allocate-chain :
    (N : ℕ) (p : Pool) (c : ℕ) (free : List ℕ) (used : ℕ)
    → IsPool p (c ∷ free) used
    → Lends (c ∷ free) used (allocate N p) free used
unfolding allocate
allocate-chain N p c free used i =
    rw (i.chain.0, allocate)
      (record {
        is_pool = record {
          chain = i.chain.1;
          distinct = i.distinct.1;
          below = i.below.1;
          counted = omega (arith, i.counted);
          fits = i.fits;
          high_water = i.high_water;
        };
        fresh = λ k. ground arith;
        held = (i.below.0, i.distinct.0);
        inside = omega (arith, i.below.0, i.fits);
        others = λ x. ground arith;
      })

-- The result of `allocate`, whichever way it goes.
abbrev pub Allocates : List ℕ → ℕ → ℕ × Pool → Type 0
Allocates free used r = (free' : List ℕ) × (used' : ℕ) × Lends free used r free' used'

-- On a well-formed pool with blocks of at least one chunk, `allocate` hands out a chunk that
-- nobody holds and that lies within the pool; it is held from then on, every other chunk is held
-- as before, and the pool stays well formed.
pub allocate-Allocates :
    (N : ℕ) (p : Pool) (free : List ℕ) (used : ℕ)
    → 1 ≤ N
    → IsPool p free used
    → Allocates free used (allocate N p)
unfolding allocate
allocate-Allocates N p [] used h i =
    ([], suc used, rw (i.chain, allocate) (bump-Lends N p used h i))
allocate-Allocates N p (c ∷ free) used h i = (free, used, allocate-chain N p c free used i)

-- On a well-formed pool, `release` of a held chunk takes back that chunk and no other, and the
-- pool stays well formed.
pub release_lem :
    (p : Pool) (c : ℕ) (free : List ℕ) (used : ℕ)
    → IsPool p free used
    → Live free used c
    → IsPool (release p c) (c ∷ free) used
      × ((x : ℕ) → Live (c ∷ free) used x ↔ (Live free used x × ((x ≡ c) → ⊥)))
unfolding release
release_lem p c free used i live = (
  record {
    chain = (
      refl,
      rw (upd-same p.next c p.free_list)
          (Chain-upd p.next c p.free_list p.free_list free i.chain live.1),
    );
    distinct = (live.1, i.distinct);
    below = (live.0, i.below);
    counted = omega (
      arith,
      i.counted,
      length-le_of_below used (c ∷ free) (live.1, i.distinct) (live.0, i.below),
    );
    fits = i.fits;
    high_water = i.high_water;
  },
  λ x. (λ h. ground (arith, h), λ h. ground (arith, h)),
)
