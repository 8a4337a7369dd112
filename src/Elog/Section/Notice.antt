-- ===== src/Elog/Section/Notice.antt =====
-- opal-dh-scn.c and opal-ie-scn.c: the dump and the impacted-entity sections, whose structs end in
-- a union of a fixed size. `allocated` says whether the parser's call of malloc succeeds.
use ppc64_diag.Base.{ℕ, ◌+◌, Bool, not, ltb, ◌==◌, if◌then◌else◌, has_flag, Option, none, some}
use ppc64_diag.Elog.Header.{V6Hdr}
use ppc64_diag.Elog.Memory.{
  Bytes, Outcome, einval, enomem, ok, ◌>>=◌, ◌>>◌, guard, read, fits, u8, u32, u64,
}

pub data DumpName : Type 0 where
  dump_str : Bytes → DumpName
  dump_hex : ℕ → DumpName

pub record DhScn : Type 0 where
  pub v6hdr : V6Hdr
  pub dump_id : ℕ
  pub flags : ℕ
  pub length_dump_os : ℕ
  pub dump_size : ℕ
  pub shared : DumpName

abbrev pub dh_dump_str_max : ℕ
dh_dump_str_max = 40

abbrev pub sizeof_dh_scn : ℕ
sizeof_dh_scn = 64

-- The branch of a name in hexadecimal reads the union of the new struct and not of the buffer:
-- `heap_word` is the word that malloc left there, after `be32toh`.
parse_dump_name : ℕ → ℕ → ℕ → Bytes → ℕ → ℕ → Outcome DumpName
parse_dump_name heap_word flags length_dump_os mem p buflen =
    if has_flag flags 0x40
    then (do guard (not (ltb buflen (sizeof_dh_scn + 4))) einval; ok (dump_hex heap_word))
    else (do
      guard (not (ltb buflen (sizeof_dh_scn + length_dump_os))) einval
      name ← read mem (p + 24) length_dump_os
      fits 0 length_dump_os dh_dump_str_max
      ok (dump_str name))

unfoldable pub parse_dh_scn : Bool → ℕ → V6Hdr → Bytes → ℕ → ℕ → Outcome DhScn
unfolding parse_dump_name
parse_dh_scn allocated heap_word hdr mem p buflen = do
  guard (not (ltb buflen 24)) einval
  guard allocated enomem
  dump_id ← u32 mem (p + 8)
  flags ← u8 mem (p + 12)
  length_dump_os ← u8 mem (p + 15)
  dump_size ← u64 mem (p + 16)
  shared ← parse_dump_name heap_word flags length_dump_os mem p buflen
  ok (record {
    v6hdr = hdr;
    dump_id = dump_id;
    flags = flags;
    length_dump_os = length_dump_os;
    dump_size = dump_size;
    shared = shared;
  })

pub record IeScn : Type 0 where
  pub v6hdr : V6Hdr
  pub type : ℕ
  pub rpc_len : ℕ
  pub scope : ℕ
  pub subtype : ℕ
  pub drc : ℕ
  pub rpc : Option Bytes  -- the two members of the union that were written
  pub max : Option ℕ

abbrev pub ie_data_max : ℕ
ie_data_max = 216

parse_ie_rpc : ℕ → ℕ → Bytes → ℕ → ℕ → Outcome (Option Bytes)
parse_ie_rpc type rpc_len mem p buflen =
    if type == 0x04
    then (do
      guard (not (ltb buflen (16 + rpc_len))) einval
      rpc ← read mem (p + 16) rpc_len
      fits 0 rpc_len ie_data_max
      ok (some rpc))
    else ok none

parse_ie_max : ℕ → Bytes → ℕ → ℕ → Outcome (Option ℕ)
parse_ie_max subtype mem p buflen =
    if subtype == 0x05
    then (do guard (not (ltb buflen (16 + 8))) einval; max ← u64 mem (p + 16); ok (some max))
    else ok none

unfoldable pub parse_ie_scn : Bool → V6Hdr → Bytes → ℕ → ℕ → Outcome IeScn
unfolding parse_ie_rpc parse_ie_max
parse_ie_scn allocated hdr mem p buflen = do
  guard (not (ltb buflen 16)) einval
  guard allocated enomem
  type ← u8 mem (p + 8)
  rpc_len ← u8 mem (p + 9)
  scope ← u8 mem (p + 10)
  subtype ← u8 mem (p + 11)
  drc ← u32 mem (p + 12)
  rpc ← parse_ie_rpc type rpc_len mem p buflen
  max ← parse_ie_max subtype mem p buflen
  ok (record {
    v6hdr = hdr;
    type = type;
    rpc_len = rpc_len;
    scope = scope;
    subtype = subtype;
    drc = drc;
    rpc = rpc;
    max = max;
  })
