-- ===== src/Book/Match/Plan.antt =====
-- The plan of an incoming all-or-none order.
pub mod Reference
pub mod Commit
use babo_matching_engine.Prelude.{
  ℕ, zero, suc, ◌+◌, ◌-◌, ◌≤◌, ◌<◌, ◌≡◌, ◌≢◌, refl, sym, ◌∙◌, ap, subst, Bool, true, false, ◌&&◌,
  ◌||◌, not, Option, none, some, List, [], ◌∷◌, ◌++◌, map, min, ltb, leb, ◌==◌, if◌then◌else◌,
  arith, Bool-cases, inl, inr,
}
use babo_matching_engine.Prelude.Words.{add32, add32-eq-add, u32_mod}
use babo_matching_engine.Order.{SimpleOrder, open_qty, all_or_none}
use babo_matching_engine.Tree.{Side, OrderLoc, no_loc, same_loc, order_at}
use babo_matching_engine.Tree.Search.{global_next}
use babo_matching_engine.Tree.Walk.{Walk}
use babo_matching_engine.Book.Match.{crosses, Cand, plan_take, plan_uses, plan_loop}

-- A planned trade is with this maker: it is within its open quantity, the whole of it for an AON
-- maker, and the maker crosses.
pub record Fits (incoming maker : SimpleOrder) (c : Cand) : Type 0 where
  pub id : c.id ≡ maker.order_id
  pub qty : c.qty ≤ open_qty maker
  pub whole : all_or_none maker ≡ true → c.qty ≡ open_qty maker
  pub crossing : crosses maker incoming ≡ true

-- The plan takes its makers from the locations in their order, each at most once.
pub data Picks (s : Side) (incoming : SimpleOrder) : List OrderLoc → List Cand → Type 0 where
  stop : {xs : List OrderLoc} → Picks s incoming xs []
  skip :
      {x : OrderLoc} {xs : List OrderLoc} {plan : List Cand}
      → Picks s incoming xs plan
      → Picks s incoming (x ∷ xs) plan
  take :
      {x : OrderLoc} {xs : List OrderLoc} {c : Cand} {plan : List Cand}
      → Fits incoming (order_at s x) c
      → Picks s incoming xs plan
      → Picks s incoming (x ∷ xs) (c ∷ plan)

abbrev pub sum_plan : List Cand → ℕ
sum_plan [] = 0
sum_plan (c ∷ cs) = c.qty + sum_plan cs

-- A plan made from `planned` on: it never exceeds what is needed, and counts what it takes.
pub record Plans (s : Side) (incoming : SimpleOrder) (needed planned : ℕ) (xs : List OrderLoc)
    (r : List Cand × ℕ) : Type 0 where
  pub within : r.1 ≤ needed
  pub counted : r.1 ≡ planned + sum_plan r.0
  pub picks : Picks s incoming xs r.0

plan_take-Fits :
    (incoming maker : SimpleOrder) (left : ℕ)
    → crosses maker incoming ≡ true
    → plan_uses maker left ≡ true
    → Fits incoming maker (record { id = maker.order_id; qty = plan_take maker left })
unfolding plan_take plan_uses
plan_take-Fits incoming maker left c u = ground arith

plan_take-le : (maker : SimpleOrder) (left : ℕ) → plan_take maker left ≤ left
unfolding plan_take
plan_take-le maker left = ground arith

plan_take-unused :
    (maker : SimpleOrder) (left : ℕ) → plan_uses maker left ≡ false → plan_take maker left ≡ 0
unfolding plan_take plan_uses
plan_take-unused maker left u = ground arith

-- From a planned quantity within what is needed, which fits 32 bits, on a tree that the iterator
-- walks in full, the planning loop never plans more than is needed, counts what it takes, and
-- takes each maker at most once, in priority order, within its open quantity, the whole of it for
-- an all-or-none maker, and only makers that cross.
pub plan_loop-Plans :
    (fuel : ℕ) (s : Side) (incoming : SimpleOrder) (needed : ℕ) (it : OrderLoc) (planned : ℕ)
    (xs : List OrderLoc)
    → Walk s it xs
    → planned ≤ needed
    → needed < u32_mod
    → Plans s incoming needed planned xs (plan_loop fuel s incoming needed it planned)
unfolding plan_loop
plan_loop-Plans zero s incoming needed it planned xs w h k = record {
  within = h;
  counted = omega arith;
  picks = stop;
}
plan_loop-Plans (suc fuel) s incoming needed it planned [] w h k =
    rw (w, plan_loop) (record { within = h; counted = omega arith; picks = stop })
plan_loop-Plans (suc fuel) s incoming needed it planned (x ∷ xs) w h k =
    let maker = order_at s x in
    let left = needed - planned in
    let part = plan_take maker left in
    let sum : add32 planned part ≡ planned + part =
      add32-eq-add planned part (omega (arith, plan_take-le maker left)) in
    let bound : add32 planned part ≤ needed = omega (arith, sum, plan_take-le maker left) in
    let rest =
      plan_loop-Plans fuel s incoming needed (global_next s x) (add32 planned part) xs w.2 bound
        k in
    rw w.0 (elim (Bool-cases (same_loc x no_loc || not (ltb planned needed))) [
      | inl done ↦ rw (done, plan_loop) (record { within = h; counted = omega arith; picks = stop })
      | inr more ↦ elim (Bool-cases (crosses maker incoming)) [
        | inr far ↦
            rw (more, far, plan_loop) (record { within = h; counted = omega arith; picks = stop })
        | inl hit ↦ elim (Bool-cases (plan_uses maker left)) [
          | inl use_it ↦
              rw (more, hit, use_it, plan_loop)
                (record {
                  within = rest.within;
                  counted = omega (arith, rest.counted, sum);
                  picks = take (plan_take-Fits incoming maker left hit use_it) rest.picks;
                })
          | inr pass ↦
              rw (more, hit, pass, plan_loop)
                (record {
                  within = rest.within;
                  counted = omega (arith, rest.counted, sum, plan_take-unused maker left pass);
                  picks = skip rest.picks;
                })
        ]
      ]
    ])
