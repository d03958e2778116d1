-- ===== src/Pin/Free.antt =====
-- The free list of a node, threaded through the `next` links.
use babo_matching_engine.Prelude.{
  ℕ, zero, suc, ◌+◌, ◌-◌, ◌≤◌, ◌<◌, ◌≡◌, ◌≢◌, refl, false, List, [], ◌∷◌, arith, ◌==◌,
  if◌then◌else◌, upd, upd-other, has, Distinct, length,
}
use babo_matching_engine.Pin.{npos}

-- From slot `f` the links lead through the free slots `fs` and end.
abbrev pub FreeChain : (ℕ → ℕ) → ℕ → List ℕ → Type 0
FreeChain next f [] = f ≡ npos
FreeChain next f (x ∷ fs) = (f ≡ x) × (x ≢ npos) × FreeChain next (next x) fs

pub FreeChain-upd :
    (next : ℕ → ℕ) (k v f : ℕ) (fs : List ℕ)
    → FreeChain next f fs
    → has k fs ≡ false
    → FreeChain (upd next k v) f fs
FreeChain-upd next k v f [] c out = c
FreeChain-upd next k v f (x ∷ fs) c out =
    let same : upd next k v x ≡ next x = upd-other next k v x (ground arith) in
    (c.0, c.1, rw same (FreeChain-upd next k v (next x) fs c.2 (ground arith)))

-- The slots from `i`, `k` of them.
abbrev pub range : ℕ → ℕ → List ℕ
range i zero = []
range i (suc k) = i ∷ range (suc i) k

pub length-range : (i k : ℕ) → length (range i k) ≡ k
length-range i zero = refl
length-range i (suc k) = omega (arith, length-range (suc i) k)

pub has-range : (a i k : ℕ) → a < i → has a (range i k) ≡ false
has-range a i zero h = refl
has-range a i (suc k) h = ground (arith, has-range a (suc i) k)

pub range-Distinct : (i k : ℕ) → Distinct (range i k)
range-Distinct i zero = tt
range-Distinct i (suc k) = (has-range i (suc i) k (omega arith), range-Distinct (suc i) k)

-- The links that the constructor writes thread all slots.
pub FreeChain-range :
    (N i k : ℕ)
    → N ≤ npos
    → i + suc k ≡ N
    → FreeChain (λ s. if s == N - 1 then npos else s + 1) i (range i (suc k))
FreeChain-range N i zero h e = (refl, omega arith, ground arith)
FreeChain-range N i (suc k) h e =
    let step : (if i == N - 1 then npos else i + 1) ≡ suc i = ground arith in
    (refl, omega arith, rw step (FreeChain-range N (suc i) k h (omega arith)))
