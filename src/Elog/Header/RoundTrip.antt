-- ===== src/Elog/Header/RoundTrip.antt =====
-- Section headers and dates, written out as the bytes that firmware sends, are read back.
use native.Mathlib.Nat.{suc-add, zero-add}
use ppc64_diag.Base.{
  ℕ, ◌+◌, ◌*◌, ◌/◌, ◌%◌, ◌≤◌, ◌<◌, ◌≡◌, arith, ap, ◌∙◌, get_or, length-append, [], ◌∷◌, ◌++◌,
  length, drop, length-append,
}
use ppc64_diag.Elog.Header.{
  Datetime, V6Hdr, from_bcd8, from_bcd16, parse_opal_datetime, parse_section_header,
}
use ppc64_diag.Elog.Memory.{Bytes, ok, field, read}

drop-append : (front xs : Bytes) (i : ℕ) → drop (length front + i) (front ++ xs) ≡ drop i xs
drop-append [] xs i = rw zero-add
drop-append (x ∷ front) xs i = rw suc-add (drop-append front xs i)

-- A pointer behind `front` reads what stands behind it.
pub field-append :
    (front xs : Bytes) (i n : ℕ) → field (front ++ xs) (length front + i) n ≡ field xs i n
unfolding field
field-append front xs i n = ground (arith, drop-append front xs i, length-append front xs)

pub read-append :
    (front xs : Bytes) (i n : ℕ) → read (front ++ xs) (length front + i) n ≡ read xs i n
unfolding read
read-append front xs i n = ground (arith, drop-append front xs i, length-append front xs)

field-append_zero : (front xs : Bytes) (n : ℕ) → field (front ++ xs) (length front) n ≡ field xs 0 n
field-append_zero front xs n =
    ap (λ p. field (front ++ xs) p n) (omega arith) ∙ field-append front xs 0 n

read-append_zero : (front xs : Bytes) (n : ℕ) → read (front ++ xs) (length front) n ≡ read xs 0 n
read-append_zero front xs n =
    ap (λ p. read (front ++ xs) p n) (omega arith) ∙ read-append front xs 0 n

-- Two decimal digits, and four, in binary-coded decimal.
abbrev pub to_bcd8 : ℕ → ℕ
to_bcd8 n = n / 10 * 16 + n % 10

abbrev pub to_bcd16 : ℕ → ℕ
to_bcd16 n = n / 1000 * 4096 + n / 100 % 10 * 256 + n / 10 % 10 * 16 + n % 10

pub from_bcd8-to_bcd8 : (n : ℕ) → n < 100 → from_bcd8 (to_bcd8 n) ≡ n
unfolding from_bcd8
from_bcd8-to_bcd8 n h = omega arith

pub from_bcd16-to_bcd16 : (n : ℕ) → n < 10000 → from_bcd16 (to_bcd16 n) ≡ n
unfolding from_bcd16
from_bcd16-to_bcd16 n h = omega arith

abbrev pub encode_datetime : Datetime → Bytes
encode_datetime d =
    to_bcd16 d.year / 256
    ∷ to_bcd16 d.year % 256
    ∷ to_bcd8 d.month
    ∷ to_bcd8 d.day
    ∷ to_bcd8 d.hour
    ∷ to_bcd8 d.minutes
    ∷ to_bcd8 d.seconds
    ∷ to_bcd8 d.hundredths
    ∷ []

-- Every number has its decimal digits.
pub record HasDigits (d : Datetime) : Type 0 where
  pub year : d.year < 10000
  pub month : d.month < 100
  pub day : d.day < 100
  pub hour : d.hour < 100
  pub minutes : d.minutes < 100
  pub seconds : d.seconds < 100
  pub hundredths : d.hundredths < 100

-- A date in binary-coded decimal is read back, wherever it stands.
parse_opal_datetime-encode :
    (d : Datetime) (front rest : Bytes)
    → HasDigits d
    → parse_opal_datetime (front ++ (encode_datetime d ++ rest)) (length front) ≡ ok d
unfolding parse_opal_datetime
parse_opal_datetime-encode d front rest h =
    simp (field-append, field-append_zero)
      (unfold field in
        ground (
          arith,
          from_bcd16-to_bcd16 d.year h.year,
          from_bcd8-to_bcd8 d.month h.month,
          from_bcd8-to_bcd8 d.day h.day,
          from_bcd8-to_bcd8 d.hour h.hour,
          from_bcd8-to_bcd8 d.minutes h.minutes,
          from_bcd8-to_bcd8 d.seconds h.seconds,
          from_bcd8-to_bcd8 d.hundredths h.hundredths,
        ))

abbrev pub encode_header : V6Hdr → Bytes
encode_header h =
    get_or h.id 0 0
    ∷ get_or h.id 1 0
    ∷ h.length / 256
    ∷ h.length % 256
    ∷ h.version
    ∷ h.subtype
    ∷ h.component_id / 256
    ∷ h.component_id % 256
    ∷ []

-- The fields fit their bytes, and the length counts the header.
pub record IsHeader (h : V6Hdr) : Type 0 where
  pub two_letters : h.id ≡ get_or h.id 0 0 ∷ get_or h.id 1 0 ∷ []
  pub length_least : 8 ≤ h.length
  pub length_most : h.length < 65536
  pub component_most : h.component_id < 65536

-- A section header is read back, wherever it stands, by a caller that has at least its eight bytes.
pub parse_section_header-encode :
    (h : V6Hdr) (front rest : Bytes) (buflen : ℕ)
    → IsHeader h
    → 8 ≤ buflen
    → parse_section_header (front ++ (encode_header h ++ rest)) (length front) buflen ≡ ok h
unfolding parse_section_header
parse_section_header-encode h front rest buflen i k =
    simp (field-append, read-append_zero) (unfold field read in ground (arith, i.two_letters))
