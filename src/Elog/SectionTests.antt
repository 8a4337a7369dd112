-- ===== src/Elog/SectionTests.antt =====
-- Sections on which the section parsers of opal_errd/opal-elog-parse run.
use ppc64_diag.Elog.Section.Software.{SwV2, parse_sw_scn, parse_sw_version, v2}
use ppc64_diag.Elog.Src.Bounds.{parse_src_scn-Ensures}
use ppc64_diag.Elog.Fru.Overflow.{parse_src_fru_mr_scn-over_write}
use ppc64_diag.Elog.Src.{parse_src_scn, src_fru_max}
use ppc64_diag.Elog.Fru.Bounds.{Within, parse_fru_scn-Within}
use ppc64_diag.Elog.Header.RoundTrip.{
  HasDigits, IsHeader, encode_header, parse_section_header-encode,
}
use ppc64_diag.Elog.Fru.{
  FruHdr, FruScn, parse_fru_head, parse_fru_scn, parse_opal_fru_hdr, parse_src_fru_mr_scn,
  parse_sub,
}
use ppc64_diag.Elog.Header.{Datetime, V6Hdr, check_buflen, parse_section_header}
use ppc64_diag.Elog.Memory.{
  Bytes, Ensures, IsSafe, OverWriteOnly, fault, field, ok, over_write, read, u8,
}
use ppc64_diag.Base.{
  ℕ, ◌≤◌, ◌<◌, ◌≡◌, refl, arith, none, ◌⊎◌, [], ◌∷◌, ◌++◌, true, length, replicate,
}

abbrev scn : ℕ → ℕ → ℕ → V6Hdr
scn a b len = record { id = a ∷ b ∷ []; length = len; version = 1; subtype = 0; component_id = 0 }

abbrev uh_hdr : V6Hdr
uh_hdr = scn b'U' b'H' 24

uh_hdr-IsHeader : IsHeader uh_hdr
uh_hdr-IsHeader = record {
  two_letters = refl;
  length_least = omega arith;
  length_most = omega arith;
  component_most = omega arith;
}

parse_section_header-encode_example :
    parse_section_header ((1 ∷ 2 ∷ []) ++ (encode_header uh_hdr ++ [])) 2 8 ≡ ok uh_hdr
parse_section_header-encode_example =
    parse_section_header-encode uh_hdr (1 ∷ 2 ∷ []) [] 8 uh_hdr-IsHeader (omega arith)

abbrev some_day : Datetime
some_day = record {
  year = 2016;
  month = 5;
  day = 17;
  hour = 23;
  minutes = 59;
  seconds = 8;
  hundredths = 40;
}

some_day-HasDigits : HasDigits some_day
some_day-HasDigits = record {
  year = omega arith;
  month = omega arith;
  day = omega arith;
  hour = omega arith;
  minutes = omega arith;
  seconds = omega arith;
  hundredths = omega arith;
}

-- A callout with a location code of four letters and nothing else.
abbrev callout : Bytes
callout = 8 ∷ 0 ∷ 72 ∷ 4 ∷ 85 ∷ 55 ∷ 56 ∷ 65 ∷ []

abbrev callout_scn : FruScn
callout_scn = record {
  length = 8;
  type = 0;
  priority = 72;
  loc_code_len = 4;
  location_code = 85 ∷ 55 ∷ 56 ∷ 65 ∷ [];
  id = none;
  pe = none;
  mr = none;
}

callout_parsed : parse_fru_scn callout 0 8 ≡ ok (callout_scn, 8)
unfolding parse_fru_scn parse_fru_head parse_sub check_buflen read field
callout_parsed = refl

parse_fru_scn-Within_example : Within 8 (parse_fru_scn callout 0 8)
parse_fru_scn-Within_example = parse_fru_scn-Within callout 0 8 (omega arith)

-- A sub-section of sixteen MRUs, in 136 bytes.
abbrev sixteen_mrus : Bytes
sixteen_mrus = 0x4d ∷ 0x52 ∷ 136 ∷ 0 ∷ replicate 132 0

abbrev mrus_hdr : FruHdr
mrus_hdr = record { type = 0x4d52; length = 136; flags = 0 }

mrus_begin : parse_opal_fru_hdr sixteen_mrus 0 ≡ ok mrus_hdr
unfolding parse_opal_fru_hdr field
mrus_begin = refl

parse_src_fru_mr_scn-over_write_example :
    (136 ≤ 136) × (136 ≤ 136) × (parse_src_fru_mr_scn sixteen_mrus 0 136 ≡ fault over_write)
    ⊎ ((136 < 136) ⊎ (136 < 136)) × IsSafe (parse_src_fru_mr_scn sixteen_mrus 0 136)
parse_src_fru_mr_scn-over_write_example =
    parse_src_fru_mr_scn-over_write sixteen_mrus 0 136 mrus_hdr (omega arith) mrus_begin refl

-- A section of eighty bytes without callouts.
abbrev src_bytes : Bytes
src_bytes = 80 ∷ 83 ∷ 0 ∷ 80 ∷ 1 ∷ 0 ∷ 0 ∷ 0 ∷ 2 ∷ 0 ∷ 0 ∷ 9 ∷ 0 ∷ 0 ∷ 0 ∷ 72 ∷ replicate 64 0

parse_src_scn-Ensures_example :
    Ensures OverWriteOnly
      (λ src. (length src.fru ≤ src_fru_max) × (length src.ext_refcode ≡ 8))
      (parse_src_scn true (scn b'P' b'S' 80) src_bytes 0 80)
parse_src_scn-Ensures_example =
    parse_src_scn-Ensures true (scn b'P' b'S' 80) src_bytes 0 80 (omega arith)

-- A dump whose name has 41 bytes, in a buffer of 105 bytes.
abbrev long_name : Bytes
long_name = 68 ∷ 72 ∷ 0 ∷ 105 ∷ 1 ∷ 0 ∷ 0 ∷ 0 ∷ 0 ∷ 0 ∷ 0 ∷ 0 ∷ 0 ∷ 0 ∷ 0 ∷ 41 ∷ replicate 89 65

long_name_flags : u8 long_name 12 ≡ ok 0
unfolding field
long_name_flags = refl

long_name_length : u8 long_name 15 ≡ ok 41
unfolding field
long_name_length = refl

-- An RPC of 217 bytes.
abbrev long_rpc : Bytes
long_rpc = 73 ∷ 69 ∷ 0 ∷ 233 ∷ 1 ∷ 0 ∷ 0 ∷ 0 ∷ 4 ∷ 217 ∷ 0 ∷ 0 ∷ replicate 221 0

long_rpc_type : u8 long_rpc 8 ≡ ok 4
unfolding field
long_rpc_type = refl

long_rpc_length : u8 long_rpc 9 ≡ ok 217
unfolding field
long_rpc_length = refl

-- A section that says that it has twenty bytes, where there are nine.
abbrev nine_bytes : Bytes
nine_bytes = 85 ∷ 68 ∷ 0 ∷ 20 ∷ 1 ∷ 0 ∷ 0 ∷ 0 ∷ 5 ∷ []

-- A firmware section of the second version, whose fields come from its header.
abbrev sw_bytes : Bytes
sw_bytes = 83 ∷ 87 ∷ 0 ∷ 20 ∷ 2 ∷ 0 ∷ 0 ∷ 0 ∷ replicate 12 9

abbrev sw_hdr : V6Hdr
sw_hdr = record (scn b'S' b'W' 20) { version = 2 }

abbrev sw_fields : SwV2
sw_fields = record { rc = 1398210580; file_id = 512; location_id = 0; object_id = 151587081 }

sw_parsed :
    parse_sw_scn true sw_hdr sw_bytes 0 20 ≡ ok (record { v6hdr = sw_hdr; version = v2 sw_fields })
unfolding parse_sw_scn parse_sw_version field
sw_parsed = refl
