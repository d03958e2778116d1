-- ===== src/Bench/Workload.antt =====
-- The workload files: benchmark/workload/generator.cpp (`write_binary`), `load_workload` of
-- benchmark/src/harness.cpp, and the reader of perf/workload_reader.h. A file is the list of its
-- bytes, numbers below 256, with the byte order of a little-endian machine. Opening and closing a
-- file, and a write that fails, are not modelled.
pub mod Bytes
pub mod RoundTrip
pub mod Readers
use babo_matching_engine.Prelude.{
  ℕ, zero, suc, ◌+◌, ◌-◌, ◌*◌, ◌/◌, ◌%◌, Bool, true, false, ◌||◌, not, Option, none, some, List, [],
  ◌∷◌, ◌++◌, length, ltb, ◌==◌, if◌then◌else◌,
}
use babo_matching_engine.Prelude.Int.{ℤ, pos, negsuc}
use babo_matching_engine.Prelude.Words.{u32_mod}
use babo_matching_engine.Bench.{u64_mod}

-- `WORKLOAD_MAGIC`, "MEBW_001".
abbrev pub workload_magic : ℕ
workload_magic = 0x4D4542575F303031

abbrev pub workload_version : ℕ
workload_version = 1

-- `WORKLOAD_MAX`.
abbrev pub workload_max : ℕ
workload_max = 100000000

-- `Msg` of the generator: a message of the timeline at time `ts`.
pub record TimedMsg : Type 0 where
  pub ts : ℤ
  pub type : ℕ
  pub side : ℕ
  pub ioc : ℕ
  pub qty : ℕ
  pub order_id : ℕ
  pub price_ticks : ℤ

-- `WorkloadMsg` of the harness, and `WMsg` of the other reader, which has the same fields.
pub record WorkloadMsg : Type 0 where
  pub type : ℕ
  pub side : ℕ
  pub ioc : ℕ
  pub qty : ℕ
  pub seq : ℕ
  pub order_id : ℕ
  pub price_ticks : ℤ

-- An `int64_t` as the bits of a `uint64_t`, and back.
unfoldable pub to_u64 : ℤ → ℕ
to_u64 (pos n) = n % u64_mod
to_u64 (negsuc n) = u64_mod - 1 - n % u64_mod

unfoldable pub of_u64 : ℕ → ℤ
of_u64 n = if ltb n 9223372036854775808 then pos n else negsuc (u64_mod - 1 - n)

-- `fwrite(&x, width, 1, f)` and `fread(&x, width, 1, f)`, which answers less than 1 when fewer
-- bytes are left.
unfoldable pub put : ℕ → ℕ → List ℕ
put zero x = []
put (suc width) x = x % 256 ∷ put width (x / 256)

unfoldable pub get : ℕ → List ℕ → Option (ℕ × List ℕ)
get zero bytes = some (0, bytes)
get (suc width) [] = none
get (suc width) (b ∷ bytes) = elim (get width bytes) [
  | none ↦ none
  | some (x, rest) ↦ some (b + 256 * x, rest)
]

infixl 5 ◌>>=◌
abbrev pub ◌>>=◌ {ℓ κ} : {A : Type ℓ} {B : Type κ} → Option A → (A → Option B) → Option B
none >>= f = none
some a >>= f = f a

-- One record of `write_binary`.
unfoldable pub put_record : ℕ → TimedMsg → List ℕ
put_record seq m =
    put 1 m.type
    ++ (put 1 m.side
        ++ (put 1 m.ioc
            ++ (put 1 0
                ++ (put 4 m.qty
                    ++ (put 8 seq
                        ++ (put 8 m.order_id ++ (put 8 (to_u64 m.price_ticks) ++ put 8 0)))))))

unfoldable pub put_records : ℕ → List TimedMsg → List ℕ
put_records seq [] = []
put_records seq (m ∷ tl) = put_record seq m ++ put_records (suc seq) tl

-- `write_binary`, when no write fails.
unfoldable pub write_binary : List TimedMsg → List ℕ
write_binary tl =
    put 8 workload_magic
    ++ (put 4 workload_version ++ (put 4 (length tl % u32_mod) ++ put_records 0 tl))

-- One record, as both readers decode it.
unfoldable pub get_record : List ℕ → Option (WorkloadMsg × List ℕ)
get_record bytes = do
  (type, r1) ← get 1 bytes
  (side, r2) ← get 1 r1
  (ioc, r3) ← get 1 r2
  (pad, r4) ← get 1 r3
  (qty, r5) ← get 4 r4
  (seq, r6) ← get 8 r5
  (order_id, r7) ← get 8 r6
  (price, r8) ← get 8 r7
  (reserved, r9) ← get 8 r8
  some (
    record {
      type = type;
      side = side;
      ioc = ioc;
      qty = qty;
      seq = seq;
      order_id = order_id;
      price_ticks = of_u64 price;
    },
    r9,
  )

-- `fread(raw.data(), sizeof(RawRecord), count, f) == count`: all of the records, or none.
unfoldable pub get_records : ℕ → List ℕ → Option (List WorkloadMsg)
get_records zero bytes = some []
get_records (suc count) bytes = do
  (m, rest) ← get_record bytes
  ms ← get_records count rest
  some (m ∷ ms)

unfoldable pub get_header : List ℕ → Option (ℕ × ℕ × ℕ × List ℕ)
get_header bytes = do
  (magic, r1) ← get 8 bytes
  (version, r2) ← get 4 r1
  (count, r3) ← get 4 r2
  some (magic, version, count, r3)

-- The errors of `load_workload` of the harness; the last has the index of the record.
pub data LoadError : Type 0 where
  not_a_workload bad_version bad_count short_read : LoadError
  invalid_type : ℕ → LoadError

pub data Loaded : Type 0 where
  loaded : List WorkloadMsg → Loaded
  failed : LoadError → Loaded

-- The index of the first record, counted from `i`, whose type is above 2.
unfoldable pub first_invalid : ℕ → List WorkloadMsg → Option ℕ
first_invalid i [] = none
first_invalid i (m ∷ ms) = if ltb 2 m.type then some i else first_invalid (suc i) ms

unfoldable pub check_types : List WorkloadMsg → Loaded
check_types ms = elim (first_invalid 0 ms) [ none ↦ loaded ms | some i ↦ failed (invalid_type i) ]

unfoldable pub load_body : ℕ → List ℕ → Loaded
load_body count bytes = elim (get_records count bytes) [
  | none ↦ failed short_read
  | some ms ↦ check_types ms
]

-- `load_workload` of the harness.
unfoldable pub load_workload : List ℕ → Loaded
load_workload bytes = elim (get_header bytes) [
  | none ↦ failed not_a_workload
  | some (magic, version, count, rest) ↦
      if not (magic == workload_magic)
      then failed not_a_workload
      else if not (version == workload_version)
      then failed bad_version
      else if count == 0 || ltb workload_max count
      then failed bad_count
      else load_body count rest
]

-- The loop of the other reader: whether it read `count` records, and those that it read.
unfoldable pub read_loop : ℕ → List ℕ → Bool × List WorkloadMsg
read_loop zero bytes = (true, [])
read_loop (suc count) bytes = elim (get_record bytes) [
  | none ↦ (false, [])
  | some (m, rest) ↦ ((read_loop count rest).0, m ∷ (read_loop count rest).1)
]

-- `bench::load_workload`: with the header it checks the magic number only. `out` is the vector
-- before the call.
unfoldable pub read_workload : List WorkloadMsg → List ℕ → Bool × List WorkloadMsg
read_workload out bytes = elim (get_header bytes) [
  | none ↦ (false, out)
  | some (magic, version, count, rest) ↦
      if not (magic == workload_magic) then (false, out) else read_loop count rest
]
