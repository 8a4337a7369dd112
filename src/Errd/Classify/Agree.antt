-- ===== src/Errd/Classify/Agree.antt =====
-- What the two classifications say of the same log.
use ppc64_diag.Elog.Header.{is_esel_header}
use ppc64_diag.Errd.Classify.{
  Report, get_elog_type_from_file_data, opal_error_log_max, parse_log, report_of, type_at,
  type_of_action,
}
use ppc64_diag.Base.{
  ℕ, ◌+◌, ◌≤◌, ◌<◌, ◌≡◌, refl, arith, true, false, some, length, ◌⊎◌, inl, inr, lt-cases, drop,
  take, ltb,
}
use ppc64_diag.Elog.Memory.{Bytes, ok, error, failed, fault, field, read, uninitialised, big_endian}

report_of-elog_type :
    (logid : ℕ) (refcode : Bytes) (subsysid severity action : ℕ)
    → (report_of logid refcode subsysid severity action).elog_type ≡ type_of_action action
unfolding report_of
report_of-elog_type logid refcode subsysid severity action = refl

number : Bytes → ℕ → ℕ → ℕ
number mem p n = big_endian 0 (take n (drop p mem))

field_inside : (mem : Bytes) (p n : ℕ) → p + n ≤ length mem → field mem p n ≡ ok (number mem p n)
unfolding field number
field_inside mem p n h = ground arith

read_inside : (mem : Bytes) (p n : ℕ) → p + n ≤ length mem → read mem p n ≡ ok (take n (drop p mem))
unfolding read
read_inside mem p n h = ground arith

parsed : Bytes → Report
parsed buffer =
    report_of (number buffer 0x2c 4) (take 8 (drop 0x78 buffer)) (number buffer 0x38 1)
      (number buffer 0x3a 1) (number buffer 0x42 2)

parse_log-parsed : (buffer : Bytes) → 128 ≤ length buffer → parse_log buffer ≡ ok (parsed buffer)
unfolding parse_log parsed
parse_log-parsed buffer h =
    let long : ltb (length buffer) 128 ≡ false = ground arith in
    rw
      (
        long,
        field_inside buffer 0x2c 4 (omega arith),
        read_inside buffer 0x78 8 (omega arith),
        field_inside buffer 0x38 1 (omega arith),
        field_inside buffer 0x3a 1 (omega arith),
        field_inside buffer 0x42 2 (omega arith),
      )
      refl

parse_log_refused : (buffer : Bytes) → length buffer < 128 → parse_log buffer ≡ error failed
unfolding parse_log
parse_log_refused buffer h =
    let short : ltb (length buffer) 128 ≡ true = ground arith in rw short refl

-- A log that is long enough to be parsed is parsed without an access outside its buffer, and any
-- other is refused.
parse_log-cases :
    (buffer : Bytes)
    → (length buffer < 128) × (parse_log buffer ≡ error failed)
      ⊎ (128 ≤ length buffer) × (report : Report) × (parse_log buffer ≡ ok report)
parse_log-cases buffer = elim (lt-cases (length buffer) 128) [
  | inl short ↦ inl (short, parse_log_refused buffer short)
  | inr long ↦ inr (long, parsed buffer, parse_log-parsed buffer long)
]

parsed-elog_type :
    (buffer : Bytes) {report : Report}
    → parse_log buffer ≡ ok report
    → (128 ≤ length buffer) × (report.elog_type ≡ type_of_action (number buffer 0x42 2))
unfolding parsed
parsed-elog_type buffer e = elim (lt-cases (length buffer) 128) [
  | inl short ↦ absurd (ground (arith, parse_log_refused buffer short))
  | inr long ↦ (
    long,
    ground (
      arith,
      parse_log-parsed buffer long,
      report_of-elog_type (number buffer 0x2c 4) (take 8 (drop 0x78 buffer)) (number buffer 0x38 1)
          (number buffer 0x3a 1) (number buffer 0x42 2),
    ),
  )
]

-- Let a log be parsed as it is stored, be no longer than the longest that is looked into, and not
-- begin like an eSEL. The type that is later read from its file is the type that it was stored
-- with.
pub get_elog_type_from_file_data-parse_log :
    (buffer : Bytes) {report : Report}
    → parse_log buffer ≡ ok report
    → length buffer ≤ opal_error_log_max
    → is_esel_header buffer 0 ≡ ok false
    → get_elog_type_from_file_data buffer ≡ ok (some report.elog_type)
unfolding get_elog_type_from_file_data type_at
get_elog_type_from_file_data-parse_log buffer p h e =
    let k = parsed-elog_type buffer p in ground (arith, k, field_inside buffer 0x42 2 (omega arith))

-- A file that is long enough to be looked into, is no eSEL and ends before its action flags gets
-- its type from a variable that was never set.
get_elog_type_from_file_data_short :
    (contents : Bytes)
    → 16 ≤ length contents
    → length contents < 0x44
    → is_esel_header contents 0 ≡ ok false
    → get_elog_type_from_file_data contents ≡ fault uninitialised
unfolding get_elog_type_from_file_data
get_elog_type_from_file_data_short contents h k e = ground arith
