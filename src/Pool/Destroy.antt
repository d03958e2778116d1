-- ===== src/Pool/Destroy.antt =====
-- `destroyAll` of memory_pool.h against the chunks that are lent out.
use babo_matching_engine.Prelude.{
  ℕ, zero, suc, ◌+◌, ◌≤◌, ◌≡◌, ◌≢◌, ◌↔◌, refl, sym, subst, ap, Bool-cases, inl, inr, false, true,
  not, ◌&&◌, Option, none, List, [], ◌∷◌, arith, ltb, leb, ◌==◌, length, has, length-le_of_below,
}
use babo_matching_engine.Pool.{Pool, free_chunks, destroyed_from, destroy_all}
use babo_matching_engine.Pool.Free.{Chain}
use babo_matching_engine.Pool.Ownership.{IsPool, Live}

free_chunks_lem :
    (fuel : ℕ) (next : ℕ → Option ℕ) (head : Option ℕ) (free : List ℕ)
    → Chain next head free
    → length free ≤ fuel
    → free_chunks fuel next head ≡ free
unfolding free_chunks
free_chunks_lem zero next head [] c h = refl
free_chunks_lem zero next head (x ∷ free) c h = absurd (omega arith)
free_chunks_lem (suc fuel) next head [] c h = rw c refl
free_chunks_lem (suc fuel) next head (x ∷ free) c h =
    rw c.0 (ap (◌∷◌ x) (free_chunks_lem fuel next (next x) free c.1 (omega arith)))

-- The first index of the loop.
first :
    (rounds i max_index size : ℕ) (free : List ℕ)
    → leb i max_index && ltb i size ≡ true
    → has i (destroyed_from rounds (suc i) max_index size free) ≡ (
        leb (suc i) i
        && ltb i (suc i + rounds)
        && (leb i max_index && ltb i size)
        && not (has i free))
    → has i (destroyed_from (suc rounds) i max_index size free)
      ≡ (leb i i && ltb i (i + suc rounds) && (leb i max_index && ltb i size) && not (has i free))
unfolding destroyed_from
first rounds i max_index size free within rest = elim (Bool-cases (has i free)) [
  | inl gone ↦ rw (within, gone, destroyed_from) (ground (arith, rest))
  | inr live ↦ rw (within, live, destroyed_from) (ground arith)
]

-- The visited indices that are no free chunk.
destroyed_from_lem :
    (rounds i max_index size : ℕ) (free : List ℕ) (x : ℕ)
    → has x (destroyed_from rounds i max_index size free)
      ≡ (leb i x && ltb x (i + rounds) && (leb x max_index && ltb x size) && not (has x free))
unfolding destroyed_from
destroyed_from_lem zero i max_index size free x = ground arith
destroyed_from_lem (suc rounds) i max_index size free x =
    let rest = destroyed_from_lem rounds (suc i) max_index size free x in
    elim (Bool-cases (leb i max_index && ltb i size)) [
      | inr out ↦ rw (out, destroyed_from) (ground (arith, out))
      | inl within ↦ elim (Bool-cases (x == i)) [
        | inl e ↦
            let same : x ≡ i = ground (arith, e) in
            subst
              (λ (y : ℕ). has y (destroyed_from (suc rounds) i max_index size free) ≡ (
                leb i y
                && ltb y (i + suc rounds)
                && (leb y max_index && ltb y size)
                && not (has y free)))
              (sym same)
              (first rounds i max_index size free within
                (destroyed_from_lem rounds (suc i) max_index size free i))
        | inr far ↦ elim (Bool-cases (has i free)) [
          | inl gone ↦ rw (within, gone, destroyed_from) (ground (arith, rest, far))
          | inr live ↦ rw (within, live, destroyed_from) (ground (arith, rest, far))
        ]
      ]
    ]

-- On a well-formed pool whose highest allocated index is not 0, `destroyAll` destroys exactly the
-- chunks that are lent out, and leaves no live chunk and no free list.
pub destroy_all-Live :
    (p : Pool) (free : List ℕ) (used : ℕ)
    → IsPool p free used
    → p.max_allocated_index ≢ 0
    → ((x : ℕ) → (has x (destroy_all p).0 ≡ true) ↔ Live free used x)
      × ((destroy_all p).1.nb_elements ≡ 0)
      × ((destroy_all p).1.free_list ≡ none)
unfolding destroy_all
destroy_all-Live p free used i h =
    let some_max : (p.max_allocated_index == 0) ≡ false = ground (arith, h) in
    let room : length free ≤ suc p.max_allocated_index =
      omega (arith, length-le_of_below used free i.distinct i.below, i.high_water) in
    let chunks = free_chunks_lem (suc p.max_allocated_index) p.next p.free_list free i.chain room in
    rw (some_max, chunks, destroy_all)
      (
        λ x. ground (
          arith,
          destroyed_from_lem (suc p.max_allocated_index) 0 p.max_allocated_index p.size free x,
          i.high_water,
          i.fits,
          h,
        ),
        refl,
        refl,
      )
