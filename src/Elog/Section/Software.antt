-- ===== src/Elog/Section/Software.antt =====
-- opal-sw-scn.c: the firmware error section, in two versions. `allocated` says whether the parser's
-- call of malloc succeeds.
use ppc64_diag.Base.{ℕ, ◌+◌, ◌-◌, Bool, not, ltb, ◌==◌, if◌then◌else◌}
use ppc64_diag.Elog.Header.{V6Hdr, sizeof_v6_hdr}
use ppc64_diag.Elog.Memory.{
  Bytes, Outcome, einval, enomem, ok, error, ◌>>=◌, ◌>>◌, guard, read, fits, u8, u16, u32,
}
use ppc64_diag.Elog.Section.Text.{terminate}

pub record SwV1 : Type 0 where
  pub rc : ℕ
  pub line_num : ℕ
  pub object_id : ℕ
  pub id_length : ℕ
  pub file_id : Bytes

abbrev pub sizeof_sw_v1 : ℕ
sizeof_sw_v1 = 13

-- `room` is what malloc gave for the struct and its `file_id`; memset and memcpy write the same
-- bytes.
unfoldable pub parse_sw_v1_scn : ℕ → Bytes → ℕ → ℕ → Outcome SwV1
parse_sw_v1_scn room mem p buflen = do
  guard (not (ltb buflen sizeof_sw_v1)) einval
  rc ← u32 mem p
  line_num ← u32 mem (p + 4)
  object_id ← u32 mem (p + 8)
  id_length ← u8 mem (p + 12)
  guard (not (ltb buflen (sizeof_sw_v1 + id_length))) einval
  fits sizeof_sw_v1 id_length room
  text ← read mem (p + 13) id_length
  file_id ← terminate text id_length
  ok (record {
    rc = rc;
    line_num = line_num;
    object_id = object_id;
    id_length = id_length;
    file_id = file_id;
  })

pub record SwV2 : Type 0 where
  pub rc : ℕ
  pub file_id : ℕ
  pub location_id : ℕ
  pub object_id : ℕ

abbrev pub sizeof_sw_v2 : ℕ
sizeof_sw_v2 = 12

unfoldable pub parse_sw_v2_scn : Bytes → ℕ → ℕ → Outcome SwV2
parse_sw_v2_scn mem p buflen = do
  guard (not (ltb buflen sizeof_sw_v2)) einval
  rc ← u32 mem p
  file_id ← u16 mem (p + 4)
  location_id ← u16 mem (p + 6)
  object_id ← u32 mem (p + 8)
  ok (record { rc = rc; file_id = file_id; location_id = location_id; object_id = object_id })

pub data SwVersion : Type 0 where
  v1 : SwV1 → SwVersion
  v2 : SwV2 → SwVersion

pub record SwScn : Type 0 where
  pub v6hdr : V6Hdr
  pub version : SwVersion

-- Both versions are given the start of the section, and not what follows its header.
unfoldable pub parse_sw_version : V6Hdr → Bytes → ℕ → ℕ → Outcome SwVersion
unfolding parse_sw_v1_scn parse_sw_v2_scn
parse_sw_version hdr mem p buflen =
    if hdr.version == 1
    then (do
      guard (ltb (sizeof_sw_v1 + sizeof_v6_hdr) hdr.length) einval
      sw ← parse_sw_v1_scn (hdr.length - sizeof_v6_hdr) mem p (buflen - sizeof_v6_hdr)
      ok (v1 sw))
    else if hdr.version == 2
    then (do
      guard (hdr.length == sizeof_sw_v2 + sizeof_v6_hdr) einval
      sw ← parse_sw_v2_scn mem p (buflen - sizeof_v6_hdr)
      ok (v2 sw))
    else error einval

unfoldable pub parse_sw_scn : Bool → V6Hdr → Bytes → ℕ → ℕ → Outcome SwScn
unfolding parse_sw_version
parse_sw_scn allocated hdr mem p buflen = do
  guard allocated enomem
  guard (not (ltb buflen sizeof_v6_hdr)) einval
  version ← parse_sw_version hdr mem p buflen
  ok (record { v6hdr = hdr; version = version })
