-- ===== src/Pool/Free.antt =====
-- The free list of the pool, and `reserve`.
use babo_matching_engine.Prelude.{
  ℕ, zero, suc, ◌+◌, ◌≤◌, ◌<◌, ◌≡◌, refl, false, Option, none, some, List, [], ◌∷◌, arith, upd,
  upd-other, has, AllBelow,
}
use babo_matching_engine.Pool.{Pool, reserve_loop, reserve}

-- From `head` the links lead through these chunks and end.
abbrev pub Chain : (ℕ → Option ℕ) → Option ℕ → List ℕ → Type 0
Chain next head [] = head ≡ none
Chain next head (x ∷ xs) = (head ≡ some x) × Chain next (next x) xs

pub Chain-upd :
    (next : ℕ → Option ℕ) (c : ℕ) (v head : Option ℕ) (xs : List ℕ)
    → Chain next head xs
    → has c xs ≡ false
    → Chain (upd next c v) head xs
Chain-upd next c v head [] h out = h
Chain-upd next c v head (x ∷ xs) h out =
    (h.0, ground (arith, upd-other next c v x, Chain-upd next c v (next x) xs h.1))

pub AllBelow-mono : (m n : ℕ) (xs : List ℕ) → m ≤ n → AllBelow m xs → AllBelow n xs
AllBelow-mono m n [] h b = tt
AllBelow-mono m n (x ∷ xs) h b = (omega arith, AllBelow-mono m n xs h b.1)

pub AllBelow-has : (n x : ℕ) (xs : List ℕ) → AllBelow n xs → n ≤ x → has x xs ≡ false
AllBelow-has n x [] b h = refl
AllBelow-has n x (y ∷ xs) b h = ground (arith, AllBelow-has n x xs b.1)

pub reserve_loop-lt :
    (fuel N target size : ℕ)
    → 1 ≤ N
    → target < size + fuel
    → (target < reserve_loop fuel N target size) × (size ≤ reserve_loop fuel N target size)
unfolding reserve_loop
reserve_loop-lt zero N target size h k = (omega arith, omega arith)
reserve_loop-lt (suc fuel) N target size h k =
    ground (arith, reserve_loop-lt fuel N target (size + N))

-- For blocks of at least one chunk, `reserve` of an index leaves a pool that contains the index
-- and did not shrink: its loop is not cut off by the fuel.
pub reserve-size :
    (N : ℕ) (p : Pool) (target : ℕ)
    → 1 ≤ N
    → (target < (reserve N p target).size) × (p.size ≤ (reserve N p target).size)
unfolding reserve
reserve-size N p target h = ground (arith, reserve_loop-lt (suc target) N target p.size)
