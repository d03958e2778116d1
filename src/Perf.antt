-- ===== src/Perf.antt =====
-- perf/scaling_common.h: the prices of the resting orders and the shuffled order of their cancels. A
-- vector is a function of the index, and the generator of random numbers is the sequence of its
-- draws.
pub mod Shuffle
use babo_matching_engine.Prelude.{ℕ, zero, suc, ◌+◌, ◌-◌, ◌%◌, upd, ltb, if◌then◌else◌}
use babo_matching_engine.Prelude.Int.{ℤ, pos, negsuc}
use babo_matching_engine.Prelude.Words.{u32_mod}

-- `kBasePrice`.
abbrev pub base_price : ℕ
base_price = 4000000

-- `a - b` of two numbers that an `int64_t` holds.
abbrev pub difference : ℕ → ℕ → ℤ
difference a b = if ltb a b then negsuc (b - suc a) else pos (a - b)

-- `id_1based` is at least 1.
unfoldable pub price_for : (id_1based levels : ℕ) → ℤ
price_for id_1based levels = difference base_price ((id_1based - 1) % levels)

-- `ids[i] = i + 1`.
unfoldable pub first_ids : ℕ → ℕ
first_ids i = suc i % u32_mod

-- `std::swap(ids[i], ids[j])`.
unfoldable pub swap : (ℕ → ℕ) → ℕ → ℕ → ℕ → ℕ
swap ids i j = upd (upd ids i (ids j)) j (ids i)

-- The loop from `i` down to 2; `draw` counts the draws.
unfoldable pub shuffle_from : ℕ → (ℕ → ℕ) → ℕ → (ℕ → ℕ) → ℕ → ℕ
shuffle_from zero rng draw ids = ids
shuffle_from (suc zero) rng draw ids = ids
shuffle_from (suc (suc k)) rng draw ids =
    shuffle_from (suc k) rng (suc draw) (swap ids (suc k) (rng draw % suc (suc k)))

unfoldable pub shuffled_ids : ℕ → (ℕ → ℕ) → ℕ → ℕ
shuffled_ids n rng = shuffle_from n rng 0 first_ids
