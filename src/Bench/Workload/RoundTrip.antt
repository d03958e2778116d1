-- ===== src/Bench/Workload/RoundTrip.antt =====
-- A workload that the generator writes is loaded as it was written.
use mathlib.Core.List.{append_assoc}
use babo_matching_engine.Prelude.{
  ℕ, suc, ◌+◌, ◌%◌, ◌^◌, ◌≤◌, ◌<◌, ◌≡◌, ◌≢◌, refl, ap, ◌∙◌, false, ◌||◌, Option, none, some, List,
  [], ◌∷◌, ◌++◌, arith, length, ltb, ◌==◌,
}
use babo_matching_engine.Prelude.Words.{u32_mod}
use babo_matching_engine.Bench.{u64_mod}
use babo_matching_engine.Bench.Workload.{
  TimedMsg, WorkloadMsg, to_u64, put, get, put_record, put_records, write_binary, get_record,
  get_records, get_header, loaded, failed, short_read, invalid_type, first_invalid, check_types,
  load_body, load_workload, workload_magic, workload_version, workload_max,
}
use babo_matching_engine.Bench.Workload.Bytes.{get-put, IsInt64, of_u64-to_u64, to_u64-lt}

-- The fields of a message fit the widths of its record, and its type is one of the three.
pub record IsMsg (m : TimedMsg) : Type 0 where
  pub type : m.type ≤ 2
  pub side : m.side < 256
  pub ioc : m.ioc < 256
  pub qty : m.qty < u32_mod
  pub order_id : m.order_id < u64_mod
  pub price_ticks : IsInt64 m.price_ticks

abbrev pub AllMsgs : List TimedMsg → Type 0
AllMsgs [] = Unit {0}
AllMsgs (m ∷ tl) = IsMsg m × AllMsgs tl

-- The message that a reader makes of one that was written at an index.
abbrev pub numbered : ℕ → TimedMsg → WorkloadMsg
numbered seq m = record {
  type = m.type;
  side = m.side;
  ioc = m.ioc;
  qty = m.qty;
  seq = seq;
  order_id = m.order_id;
  price_ticks = m.price_ticks;
}

abbrev pub all_numbered : ℕ → List TimedMsg → List WorkloadMsg
all_numbered seq [] = []
all_numbered seq (m ∷ tl) = numbered seq m ∷ all_numbered (suc seq) tl

get-put-then :
    (width x : ℕ) (more rest : List ℕ)
    → x < 256 ^ width
    → get width ((put width x ++ more) ++ rest) ≡ some (x, more ++ rest)
get-put-then width x more rest h =
    ap (get width) (append_assoc (put width x) more rest) ∙ get-put width x (more ++ rest) h

get_record-put_record :
    (seq : ℕ) (m : TimedMsg) (rest : List ℕ)
    → IsMsg m
    → seq < u64_mod
    → get_record (put_record seq m ++ rest) ≡ some (numbered seq m, rest)
unfolding get_record put_record
get_record-put_record seq m rest i h =
    rw
      (
        get-put-then 1 m.type _ rest (omega (arith, i.type)),
        get-put-then 1 m.side _ rest (omega (arith, i.side)),
        get-put-then 1 m.ioc _ rest (omega (arith, i.ioc)),
        get-put-then 1 0 _ rest (omega arith),
        get-put-then 4 m.qty _ rest (omega (arith, i.qty)),
        get-put-then 8 seq _ rest (omega (arith, h)),
        get-put-then 8 m.order_id _ rest (omega (arith, i.order_id)),
        get-put-then 8 (to_u64 m.price_ticks) _ rest (omega (arith, to_u64-lt m.price_ticks)),
        get-put 8 0 rest (omega arith),
        of_u64-to_u64 m.price_ticks i.price_ticks,
      )
      refl

get_records-put_records :
    (tl : List TimedMsg) (seq : ℕ)
    → AllMsgs tl
    → seq + length tl ≤ u64_mod
    → get_records (length tl) (put_records seq tl) ≡ some (all_numbered seq tl)
unfolding get_records put_records
get_records-put_records [] seq i h = refl
get_records-put_records (m ∷ tl) seq i h =
    rw
      (
        get_record-put_record seq m (put_records (suc seq) tl) i.0 (omega (arith, h)),
        get_records-put_records tl (suc seq) i.1 (omega (arith, h)),
      )
      refl

first_invalid-none :
    (tl : List TimedMsg) (seq i : ℕ) → AllMsgs tl → first_invalid i (all_numbered seq tl) ≡ none
unfolding first_invalid
first_invalid-none [] seq i k = refl
first_invalid-none (m ∷ tl) seq i k =
    ground (arith, k.0.type, first_invalid-none tl (suc seq) (suc i) k.1)

pub get_header-write_binary :
    (tl : List TimedMsg)
    → length tl < u32_mod
    → get_header (write_binary tl)
      ≡ some (workload_magic, workload_version, length tl, put_records 0 tl)
unfolding get_header write_binary
get_header-write_binary tl h =
    let small : length tl % u32_mod ≡ length tl = omega (arith, h) in
    rw
      (
        get-put 8 workload_magic _ (omega arith),
        get-put 4 workload_version _ (omega arith),
        small,
        get-put 4 (length tl) (put_records 0 tl) (omega (arith, h)),
      )
      refl

load_workload-load_body :
    (bytes : List ℕ) (count : ℕ) (rest : List ℕ)
    → get_header bytes ≡ some (workload_magic, workload_version, count, rest)
    → count ≢ 0
    → count ≤ workload_max
    → load_workload bytes ≡ load_body count rest
unfolding load_workload
load_workload-load_body bytes count rest e n h =
    let count_ok : (count == 0 || ltb workload_max count) ≡ false = ground (arith, n, h) in
    rw (e, count_ok, load_workload) refl

-- A timeline of 1 to 100,000,000 messages, each with a type up to 2 and fields that fit their
-- widths, is loaded from the file that it was written to, numbered from 0.
pub load_workload-write_binary :
    (tl : List TimedMsg)
    → AllMsgs tl
    → tl ≢ []
    → length tl ≤ workload_max
    → load_workload (write_binary tl) ≡ loaded (all_numbered 0 tl)
unfolding load_body check_types
load_workload-write_binary [] i n h = absurd (n refl)
load_workload-write_binary (m ∷ ms) i n h =
    let tl = m ∷ ms in
    load_workload-load_body (write_binary tl) (length tl) (put_records 0 tl)
      (get_header-write_binary tl (omega (arith, h))) (omega arith) h
    ∙ ap
        (λ (r : Option (List WorkloadMsg)). elim r [
          | none ↦ failed short_read
          | some ms ↦ check_types ms
        ])
        (get_records-put_records tl 0 i (omega (arith, h)))
    ∙ ap
        (λ (r : Option ℕ). elim r [
          | none ↦ loaded (all_numbered 0 tl)
          | some j ↦ failed (invalid_type j)
        ])
        (first_invalid-none tl 0 0 i)
