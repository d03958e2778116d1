-- ===== src/Bench/Workload/Readers.antt =====
-- The two readers of a workload file: what the first accepts, the second reads alike.
use babo_matching_engine.Prelude.{
  ℕ, zero, suc, ◌≤◌, ◌≡◌, ap, ◌∙◌, true, ◌||◌, none, some, List, [], ◌∷◌, arith, length, ltb, ◌==◌,
  Bool-cases, Option-cases, inl, inr, subst,
}
use babo_matching_engine.Bench.Workload.{
  WorkloadMsg, get_record, get_records, get_header, loaded, first_invalid, check_types, load_body,
  load_workload, workload_magic, workload_version, workload_max, read_loop, read_workload,
}

-- Every type is one of the three.
abbrev pub AllTyped : List WorkloadMsg → Type 0
AllTyped [] = Unit {0}
AllTyped (m ∷ ms) = (m.type ≤ 2) × AllTyped ms

first_invalid-AllTyped : (ms : List WorkloadMsg) (i : ℕ) → first_invalid i ms ≡ none → AllTyped ms
unfolding first_invalid
first_invalid-AllTyped [] i h = tt
first_invalid-AllTyped (m ∷ ms) i h =
    (ground (arith, h), first_invalid-AllTyped ms (suc i) (ground (arith, h)))

-- With all the records there, the loop reads the same and ends well.
get_records-read_loop :
    (count : ℕ) (bytes : List ℕ) (ms : List WorkloadMsg)
    → get_records count bytes ≡ some ms
    → (read_loop count bytes ≡ (true, ms)) × (length ms ≡ count)
unfolding get_records read_loop
get_records-read_loop zero bytes ms h = (cc, ground (arith, h))
get_records-read_loop (suc count) bytes ms h = elim (Option-cases (get_record bytes)) [
  | inl e ↦ ground (arith, e, h)
  | inr ((m, rest), e) ↦ elim (Option-cases (get_records count rest)) [
    | inl f ↦ ground (arith, e, f, h)
    | inr (more, f) ↦
        let r = get_records-read_loop count rest more f in ground (arith, e, f, h, r.0, r.1)
  ]
]

-- What a load that is accepted says of the file.
record Accepts (bytes : List ℕ) (ms : List WorkloadMsg) : Type 0 where
  count : ℕ
  rest : List ℕ
  header : get_header bytes ≡ some (workload_magic, workload_version, count, rest)
  bounded : (1 ≤ count) × (count ≤ workload_max)
  records : get_records count rest ≡ some ms
  typed : AllTyped ms

load_body-loaded :
    (count : ℕ) (bytes : List ℕ) (ms : List WorkloadMsg)
    → load_body count bytes ≡ loaded ms
    → (get_records count bytes ≡ some ms) × AllTyped ms
unfolding load_body check_types
load_body-loaded count bytes ms h = elim (Option-cases (get_records count bytes)) [
  | inl e ↦ ground (arith, h)
  | inr (qs, e) ↦ elim (Option-cases (first_invalid 0 qs)) [
    | inr (i, f) ↦ ground (arith, h)
    | inl f ↦
        let same : qs ≡ ms = ground (arith, e, f, h) in
        subst (λ (x : List WorkloadMsg). (get_records count bytes ≡ some x) × AllTyped x) same
          (e, first_invalid-AllTyped qs 0 f)
  ]
]

load_workload-Accepts :
    (bytes : List ℕ) (ms : List WorkloadMsg) → load_workload bytes ≡ loaded ms → Accepts bytes ms
unfolding load_workload
load_workload-Accepts bytes ms h = elim (Option-cases (get_header bytes)) [
  | inl e ↦ ground (arith, h)
  | inr ((magic, version, count, rest), e) ↦ elim (Bool-cases (magic == workload_magic)) [
    | inr f ↦ ground (arith, h)
    | inl f ↦ elim (Bool-cases (version == workload_version)) [
      | inr g ↦ ground (arith, h)
      | inl g ↦ elim (Bool-cases (count == 0 || ltb workload_max count)) [
        | inl k ↦ ground (arith, h)
        | inr k ↦
            let body : load_body count rest ≡ loaded ms = ground (arith, e, f, g, k, h) in
            let m : magic ≡ workload_magic = ground (arith, f) in
            let v : version ≡ workload_version = ground (arith, g) in
            let (records, typed) = load_body-loaded count rest ms body in
            record {
              count = count;
              rest = rest;
              header =
                  e
                  ∙ ap (λ (x : ℕ). some (x, version, count, rest)) m
                  ∙ ap (λ (x : ℕ). some (workload_magic, x, count, rest)) v;
              bounded = (ground (arith, k), ground (arith, k));
              records = records;
              typed = typed;
            }
      ]
    ]
  ]
]

-- A file that the harness loads is read by the other reader with the same messages, whatever the
-- vector held before; they are 1 to 100,000,000, with types up to 2.
pub load_workload-read_workload :
    (out : List WorkloadMsg) (bytes : List ℕ) (ms : List WorkloadMsg)
    → load_workload bytes ≡ loaded ms
    → (read_workload out bytes ≡ (true, ms))
      × (1 ≤ length ms)
      × (length ms ≤ workload_max)
      × AllTyped ms
unfolding read_workload
load_workload-read_workload out bytes ms h =
    let a = load_workload-Accepts bytes ms h in
    let (same, long) = get_records-read_loop a.count a.rest ms a.records in
    (
      rw (a.header, read_workload) same,
      omega (arith, long, a.bounded),
      omega (arith, long, a.bounded),
      a.typed,
    )
