-- ===== src/Level/Counting.antt =====
-- A depth level as the count and the total of a list of open quantities.
use babo_matching_engine.Prelude.{
  ℕ, suc, ◌+◌, ◌<◌, ◌≡◌, refl, Bool, true, false, List, [], ◌∷◌, ◌++◌, arith, ◌==◌, length,
  length-append,
}
use babo_matching_engine.Prelude.Words.{u32_mod, add32, sub32}
use babo_matching_engine.Level.{DepthLevel, add_order, close_order, CloseResult, closed}

abbrev pub sum : List ℕ → ℕ
sum [] = 0
sum (q ∷ qs) = q + sum qs

pub sum-append : (xs ys : List ℕ) → sum (xs ++ ys) ≡ sum xs + sum ys
sum-append [] ys = omega arith
sum-append (x ∷ xs) ys = omega (arith, sum-append xs ys)

-- The level stands for orders of these open quantities.
pub record Counts (l : DepthLevel) (qs : List ℕ) : Type 0 where
  pub count : l.order_count ≡ length qs
  pub total : l.aggregate_qty ≡ sum qs

-- Adding an order to a depth level counts it, while the new count and the new total fit 32 bits.
pub add_order-Counts :
    (l : DepthLevel) (q : ℕ) (qs : List ℕ)
    → Counts l qs
    → length qs + 1 < u32_mod
    → q + sum qs < u32_mod
    → Counts (add_order l q) (q ∷ qs)
unfolding add_order add32
add_order-Counts l q qs c h k = ground (arith, c.count, c.total)

-- The outcome of closing one of the orders: no exception, the other orders stay counted, and the
-- answer says whether there are none.
abbrev pub Closes : CloseResult → List ℕ → Type 0
Closes r qs =
    (l : DepthLevel) × (empty : Bool) × (r ≡ closed l empty)
    × Counts l qs
    × (empty ≡ (length qs == 0))

close_order-rest :
    (l : DepthLevel) (q : ℕ) (zs : List ℕ)
    → l.order_count ≡ suc (length zs)
    → l.aggregate_qty ≡ q + sum zs
    → suc (length zs) < u32_mod
    → q + sum zs < u32_mod
    → Closes (close_order l q) zs
unfolding close_order sub32
close_order-rest l q [] n t h k = (
  record l { order_count = 0; aggregate_qty = 0 },
  true,
  ground arith,
  record { count = refl; total = refl },
  refl,
)
close_order-rest l q (z ∷ zs) n t h k = (
  record l { order_count = sub32 l.order_count 1; aggregate_qty = sub32 l.aggregate_qty q },
  false,
  ground arith,
  record { count = omega arith; total = omega arith },
  ground arith,
)

-- Closing one of the orders that a depth level counts, while the count and the total fit 32 bits,
-- never throws; the other orders stay counted, and the answer says whether there are none.
pub close_order-Closes :
    (l : DepthLevel) (xs : List ℕ) (q : ℕ) (ys : List ℕ)
    → Counts l (xs ++ q ∷ ys)
    → length (xs ++ q ∷ ys) < u32_mod
    → sum (xs ++ q ∷ ys) < u32_mod
    → Closes (close_order l q) (xs ++ ys)
close_order-Closes l xs q ys c h k =
    close_order-rest l q (xs ++ ys)
      (omega (arith, c.count, length-append xs (q ∷ ys), length-append xs ys))
      (omega (arith, c.total, sum-append xs (q ∷ ys), sum-append xs ys))
      (omega (arith, length-append xs (q ∷ ys), length-append xs ys))
      (omega (arith, sum-append xs (q ∷ ys), sum-append xs ys))
