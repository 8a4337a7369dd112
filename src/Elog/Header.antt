-- ===== src/Elog/Header.antt =====
-- parse_helpers.c, opal-datetime.c, opal-v6-hdr.c, opal-mtms-struct.h and opal-esel-parse.c under
-- opal_errd/opal-elog-parse: the pieces that every section parser uses. A buffer is the pair of a
-- pointer `p` and a length `buflen`, as in the source; fields stand at their offsets in the packed
-- struct.
pub mod RoundTrip
use ppc64_diag.Base.{ℕ, ◌+◌, ◌*◌, ◌/◌, ◌%◌, Bool, false, if◌then◌else◌, not, ltb, ◌==◌}
use ppc64_diag.Elog.Memory.{Bytes, Outcome, einval, ok, ◌>>=◌, ◌>>◌, guard, read, u8, u16}

-- `(bcd & 0x00f0) >> 4` is the second hexadecimal digit, and so on.
unfoldable pub from_bcd16 : ℕ → ℕ
from_bcd16 bcd = bcd % 16 + bcd / 16 % 16 * 10 + bcd / 256 % 16 * 100 + bcd / 4096 % 16 * 1000

unfoldable pub from_bcd8 : ℕ → ℕ
from_bcd8 bcd = bcd % 16 + bcd / 16 % 16 * 10

unfoldable pub check_buflen : ℕ → ℕ → Outcome (Unit {0})
check_buflen buflen min_length = guard (not (ltb buflen min_length)) einval

pub record Datetime : Type 0 where
  pub year : ℕ
  pub month : ℕ
  pub day : ℕ
  pub hour : ℕ
  pub minutes : ℕ
  pub seconds : ℕ
  pub hundredths : ℕ

-- The argument is passed by value, so its eight bytes are read first.
unfoldable pub parse_opal_datetime : Bytes → ℕ → Outcome Datetime
parse_opal_datetime mem p = do
  year ← u16 mem p
  month ← u8 mem (p + 2)
  day ← u8 mem (p + 3)
  hour ← u8 mem (p + 4)
  minutes ← u8 mem (p + 5)
  seconds ← u8 mem (p + 6)
  hundredths ← u8 mem (p + 7)
  ok (record {
    year = from_bcd16 year;
    month = from_bcd8 month;
    day = from_bcd8 day;
    hour = from_bcd8 hour;
    minutes = from_bcd8 minutes;
    seconds = from_bcd8 seconds;
    hundredths = from_bcd8 hundredths;
  })

pub record V6Hdr : Type 0 where
  pub id : Bytes
  pub length : ℕ
  pub version : ℕ
  pub subtype : ℕ
  pub component_id : ℕ

abbrev pub sizeof_v6_hdr : ℕ
sizeof_v6_hdr = 8

unfoldable pub parse_section_header : Bytes → ℕ → ℕ → Outcome V6Hdr
parse_section_header mem p buflen = do
  guard (not (ltb buflen sizeof_v6_hdr)) einval
  id ← read mem p 2
  len ← u16 mem (p + 2)
  version ← u8 mem (p + 4)
  subtype ← u8 mem (p + 5)
  component_id ← u16 mem (p + 6)
  guard (not (ltb len 8)) einval
  ok (record {
    id = id;
    length = len;
    version = version;
    subtype = subtype;
    component_id = component_id;
  })

pub record Mtms : Type 0 where
  pub model : Bytes
  pub serial_no : Bytes

unfoldable pub copy_mtms_struct : Bytes → ℕ → Outcome Mtms
copy_mtms_struct mem p = do
  model ← read mem p 8
  serial_no ← read mem (p + 8) 12
  ok (record { model = model; serial_no = serial_no })

abbrev pub sizeof_esel_header : ℕ
sizeof_esel_header = 16

-- The signature is read only where the record type fits.
unfoldable pub is_esel_header : Bytes → ℕ → Outcome Bool
is_esel_header mem p = do
  record_type ← u8 mem (p + 2)
  if record_type == 0xdf then (do signature ← u8 mem (p + 13); ok (signature == 0xaa)) else ok false
