-- ===== src/Elog/Command/Shown.antt =====
-- The logs that the command shows, against those that it is asked for.
use ppc64_diag.Elog.Section.Faults.{field_inside}
use ppc64_diag.Elog.Section.Safety.{parse_opal_datetime-IsSafe}
use ppc64_diag.Elog.Command.{
  display_loop, elog_summary, elogdisplayentry, parse_returns, print_elog_summary,
}
use ppc64_diag.Elog.Parse.{Heap}
use ppc64_diag.Base.{
  ℕ, ◌+◌, ◌≤◌, ◌<◌, ◌≡◌, ◌≢◌, ◌⊎◌, refl, arith, ltb, ◌==◌, true, false, if◌then◌else◌, List, [],
  ◌∷◌, Option, some, none, length, take, drop, inl, inr, lt-cases, Bool-cases,
}
use ppc64_diag.Elog.Header.{is_esel_header}
use ppc64_diag.Elog.Memory.{Bytes, ok, fault, over_read, read, field, u32, big_endian, IsSafe}

-- No file is an eSEL.
abbrev pub NoEsel : List (Option Bytes) → Type 0
NoEsel [] = Unit
NoEsel (none ∷ files) = NoEsel files
NoEsel (some buffer ∷ files) = (is_esel_header buffer 0 ≡ ok false) × NoEsel files

-- The id that a log has.
abbrev pub log_id : Bytes → ℕ
log_id buffer = big_endian 0 (take 4 (drop 0x2c buffer))

-- The logs that could be read as far as their id.
abbrev pub readable : List (Option Bytes) → List Bytes
readable [] = []
readable (none ∷ files) = readable files
readable (some buffer ∷ files) =
    let rest = readable files in if ltb (length buffer) 48 then rest else buffer ∷ rest

-- The first log with an id, in a list of its own.
abbrev pub first_with_id : ℕ → List Bytes → List Bytes
first_with_id eid [] = []
first_with_id eid (b ∷ bs) =
    let rest = first_with_id eid bs in if log_id b == eid then b ∷ [] else rest

-- The logs up to the first for which the reader does not return, and that one.
abbrev pub up_to_stop : Heap → List Bytes → List Bytes
up_to_stop heap [] = []
up_to_stop heap (b ∷ bs) =
    let rest = up_to_stop heap bs in b ∷ (if parse_returns heap b then rest else [])

-- Let no file be an eSEL. Asked for an id, the command gives the first log that has it to
-- parse_opal_event, and no other. Asked for all, it gives it every log that could be read as far as
-- its id, in order, up to the first for which the reader of the log does not return: for the others
-- the call is never made.
pub elogdisplayentry_lem :
    (heap : Heap) (eid : ℕ) (files : List (Option Bytes))
    → NoEsel files
    → (elogdisplayentry heap eid false files ≡ ok (first_with_id eid (readable files)))
      × (elogdisplayentry heap eid true files ≡ ok (up_to_stop heap (readable files)))
unfolding elogdisplayentry display_loop field
elogdisplayentry_lem heap eid [] n = (refl, refl)
elogdisplayentry_lem heap eid (none ∷ files) n = elogdisplayentry_lem heap eid files n
elogdisplayentry_lem heap eid (some buffer ∷ files) n =
    let rest = elogdisplayentry_lem heap eid files n.1 in
    elim (Bool-cases (parse_returns heap buffer)) [
      | inl back ↦ (ground (arith, n.0, rest), ground (arith, n.0, rest, back))
      | inr lost ↦ (ground (arith, n.0, rest), ground (arith, n.0, rest, lost))
    ]

-- Two eSELs, of which the first does not have the id. Whether the second is shown depends on the
-- word at 0x4c, and not on its id, which stands at 0x3c.
elogdisplayentry_second_esel :
    (heap : Heap) (eid x y : ℕ) (a b : Bytes)
    → is_esel_header a 0 ≡ ok true
    → is_esel_header b 0 ≡ ok true
    → 48 ≤ length a
    → 48 ≤ length b
    → u32 a 0x3c ≡ ok x
    → x ≢ eid
    → u32 b 0x4c ≡ ok y
    → elogdisplayentry heap eid false (some a ∷ some b ∷ []) ≡ ok (if y == eid then b ∷ [] else [])
unfolding elogdisplayentry display_loop
elogdisplayentry_second_esel heap eid x y a b ea eb la lb ix n iy = ground arith

read_inside : (mem : Bytes) (p n : ℕ) → p + n ≤ length mem → (v : Bytes) × (read mem p n ≡ ok v)
unfolding read
read_inside mem p n h = (take n (drop p mem), ground arith)

print_elog_summary-IsSafe :
    (mem : Bytes) (service_flag : ℕ)
    → 129 ≤ length mem
    → IsSafe (print_elog_summary mem 0 service_flag)
unfolding print_elog_summary
print_elog_summary-IsSafe mem service_flag h = ground (
  arith,
  field_inside mem 0x2c 4 (omega arith),
  read_inside mem 0x78 9 (omega arith),
  field_inside mem 0x3a 1 (omega arith),
  field_inside mem 0x42 2 (omega arith),
  parse_opal_datetime-IsSafe mem 0x10 (omega arith),
  field_inside mem 0x18 1 (omega arith),
)

print_elog_summary_exact :
    (mem : Bytes) (service_flag : ℕ)
    → length mem ≡ 128
    → print_elog_summary mem 0 service_flag ≡ fault over_read
unfolding print_elog_summary read
print_elog_summary_exact mem service_flag h = ground (arith, field_inside mem 0x2c 4 (omega arith))

-- The summary of a log that is no eSEL and has the 128 bytes that are asked of it: the log of
-- exactly this size is read one byte past its end, and a longer one is not.
elog_summary_bounds :
    (buffer : Bytes) (service_flag : ℕ)
    → is_esel_header buffer 0 ≡ ok false
    → 128 ≤ length buffer
    → (length buffer ≡ 128) × (elog_summary buffer service_flag ≡ fault over_read)
      ⊎ (128 < length buffer) × IsSafe (elog_summary buffer service_flag)
unfolding elog_summary
elog_summary_bounds buffer service_flag e h = elim (lt-cases 128 (length buffer)) [
  | inl long ↦
      inr (long, ground (arith, print_elog_summary-IsSafe buffer service_flag (omega arith)))
  | inr exact ↦
      inl (omega arith, ground (arith, print_elog_summary_exact buffer service_flag (omega arith)))
]
