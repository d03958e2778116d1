-- ===== src/Pool.antt =====
-- libs/babobook/include/memory/memory_pool.h: `AllocatorPool<T, N>`. A chunk is named by its
-- index, chunkList[index / N][index % N] in the source; `next` is the link that the union of a
-- released chunk holds. What an object stores belongs to the client of the pool.
pub mod Free
pub mod Ownership
pub mod Destroy
use babo_matching_engine.Prelude.{
  ℕ, zero, suc, ◌+◌, ◌-◌, Bool, true, false, ◌&&◌, ◌||◌, not, Option, none, some, List, [], ◌∷◌,
  ltb, leb, ◌==◌, if◌then◌else◌, upd, has,
}

pub record Pool : Type 0 where
  pub size : ℕ
  pub nb_elements : ℕ
  pub max_allocated_index : ℕ
  pub free_list : Option ℕ
  pub next : ℕ → Option ℕ

-- A pool as the program starts.
abbrev pub empty_pool : Pool
empty_pool = record {
  size = 0;
  nb_elements = 0;
  max_allocated_index = 0;
  free_list = none;
  next = λ _. none;
}

-- The loop of `reserve`: blocks of `N` chunks until the size passes `reserve_size`. Every round
-- adds `N`, so `reserve_size + 1` rounds are enough for `1 ≤ N`.
pub reserve_loop : ℕ → ℕ → ℕ → ℕ → ℕ
reserve_loop zero N reserve_size size = size
reserve_loop (suc fuel) N reserve_size size =
    let rest = reserve_loop fuel N reserve_size (size + N) in
    if ltb reserve_size size then size else rest

unfoldable pub reserve : ℕ → Pool → ℕ → Pool
unfolding reserve_loop
reserve N p reserve_size = record p {
  size =
      if ltb reserve_size p.size
      then p.size
      else reserve_loop (suc reserve_size) N reserve_size p.size;
}

-- The path without a free chunk: the next index past the live ones.
unfoldable pub bump : ℕ → Pool → ℕ × Pool
bump N p =
    let index = p.nb_elements in
    (
      index,
      record p {
        size = if leb p.size index then (reserve N p index).size else p.size;
        nb_elements = suc index;
        max_allocated_index =
            if ltb p.max_allocated_index index then index else p.max_allocated_index;
      },
    )

unfoldable pub allocate : ℕ → Pool → ℕ × Pool
unfolding bump
allocate N p = elim p.free_list [
  | some chunk ↦ (chunk, record p { free_list = p.next chunk; nb_elements = suc p.nb_elements })
  | none ↦ bump N p
]

-- `for (i = 0; i < size; i++) if (getElement(i) == ptr) …`: the first index that names the chunk,
-- or 0.
index_of : ℕ → ℕ → ℕ → ℕ
index_of zero i ptr = 0
index_of (suc rounds) i ptr = let rest = index_of rounds (suc i) ptr in if i == ptr then i else rest

-- The chunk with the index that the call computes for it.
unfoldable pub allocate_with_index : ℕ → Pool → (ℕ × ℕ) × Pool
unfolding bump index_of
allocate_with_index N p = elim p.free_list [
  | some chunk ↦ (
    (chunk, index_of p.size 0 chunk),
    record p { free_list = p.next chunk; nb_elements = suc p.nb_elements },
  )
  | none ↦ (((bump N p).0, (bump N p).0), (bump N p).1)
]

-- `release` of a chunk that is not `nullptr`.
unfoldable pub release : Pool → ℕ → Pool
release p chunk = record p {
  next = upd p.next chunk p.free_list;
  free_list = some chunk;
  nb_elements = p.nb_elements - 1;
}

-- The chunks of the free list, read link by link.
unfoldable pub free_chunks : ℕ → (ℕ → Option ℕ) → Option ℕ → List ℕ
free_chunks zero next head = []
free_chunks (suc fuel) next none = []
free_chunks (suc fuel) next (some chunk) = chunk ∷ free_chunks fuel next (next chunk)

-- `for (i = 0; i <= maxAllocatedIndex && i < size; ++i)`: the objects that it destroys.
unfoldable pub destroyed_from : ℕ → ℕ → ℕ → ℕ → List ℕ → List ℕ
destroyed_from zero i max_index size free = []
destroyed_from (suc rounds) i max_index size free =
    let rest = destroyed_from rounds (suc i) max_index size free in
    if leb i max_index && ltb i size then (if has i free then rest else i ∷ rest) else []

-- The destroyed objects and the pool after. The free list has at most one entry for each of the
-- indices up to the high-water mark.
unfoldable pub destroy_all : Pool → List ℕ × Pool
unfolding free_chunks destroyed_from
destroy_all p = if p.max_allocated_index == 0 then ([], p) else (
  destroyed_from (suc p.max_allocated_index) 0 p.max_allocated_index p.size
      (free_chunks (suc p.max_allocated_index) p.next p.free_list),
  record p { nb_elements = 0; free_list = none },
)

unfoldable pub advance_count : Pool → ℕ → Pool
advance_count p n =
    if n == 0
    then p
    else (let new_max = p.nb_elements + n - 1 in
        record p {
          max_allocated_index =
              if ltb p.max_allocated_index new_max then new_max else p.max_allocated_index;
          nb_elements = p.nb_elements + n;
        })

-- `getElement`: `none` is `nullptr`.
unfoldable pub get_element : Pool → ℕ → Option ℕ
get_element p index = if leb p.size index then none else some index
