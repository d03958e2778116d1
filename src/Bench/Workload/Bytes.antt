-- ===== src/Bench/Workload/Bytes.antt =====
-- Numbers and integers written as bytes are read back, and a read takes what it says.
use native.Mathlib.Nat.{div-add-mod}
use babo_matching_engine.Prelude.{
  ℕ, zero, suc, ◌-◌, ◌*◌, ◌/◌, ◌%◌, ◌^◌, ◌<◌, ◌≡◌, refl, ap, true, false, some, List, ◌++◌, arith,
  ltb, subst,
}
use babo_matching_engine.Prelude.Int.{ℤ, pos, negsuc}
use babo_matching_engine.Bench.{u64_mod}
use babo_matching_engine.Bench.Workload.{put, get, to_u64, of_u64}

power : (width : ℕ) → 256 ^ suc width ≡ 256 * 256 ^ width
power width = omega arith

pub get-put :
    (width x : ℕ) (rest : List ℕ)
    → x < 256 ^ width
    → get width (put width x ++ rest) ≡ some (x, rest)
unfolding get put
get-put zero x rest h = let zero_x : 0 ≡ x = omega (arith, h) in ap (λ y. some (y, rest)) zero_x
get-put (suc width) x rest h =
    let below : x < 256 * 256 ^ width = subst (λ n. x < n) (power width) h in
    let high : x / 256 < 256 ^ width = omega (arith, below) in
    rw (get-put width (x / 256) rest high, get)
      (ap (λ y. some (y, rest)) (omega (arith, div-add-mod x 256)))

-- The integers that an `int64_t` holds.
abbrev pub IsInt64 : ℤ → Type 0
IsInt64 (pos n) = n < 9223372036854775808
IsInt64 (negsuc n) = n < 9223372036854775808

pub of_u64-to_u64 : (z : ℤ) → IsInt64 z → of_u64 (to_u64 z) ≡ z
unfolding of_u64 to_u64
of_u64-to_u64 (pos n) h =
    let e : n % u64_mod ≡ n = omega (arith, h) in
    let small : ltb n 9223372036854775808 ≡ true = ground (arith, h) in rw (e, small) refl
of_u64-to_u64 (negsuc n) h =
    let e : n % u64_mod ≡ n = omega (arith, h) in
    let big : ltb (u64_mod - 1 - n) 9223372036854775808 ≡ false = ground (arith, h) in
    rw (e, big) (ap negsuc (omega (arith, h)))

pub to_u64-lt : (z : ℤ) → to_u64 z < u64_mod
unfolding to_u64
to_u64-lt (pos n) = omega arith
to_u64-lt (negsuc n) = omega arith
