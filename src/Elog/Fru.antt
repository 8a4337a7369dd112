-- ===== src/Elog/Fru.antt =====
-- opal-src-fru-scn.c: one callout (FRU) of an SRC section, with its three optional sub-sections.
-- The sub-parsers return what they filled in and the number of bytes consumed. A member that a
-- parser leaves unwritten is `none`.
pub mod Bounds
pub mod Overflow
use ppc64_diag.Base.{
  ℕ, zero, suc, ◌+◌, ◌-◌, ◌%◌, Bool, true, false, ◌&&◌, ◌||◌, not, ltb, leb, ◌==◌, if◌then◌else◌,
  has_flag, Option, none, some, List, [], ◌∷◌,
}
use ppc64_diag.Elog.Header.{Mtms, copy_mtms_struct, check_buflen}
use ppc64_diag.Elog.Memory.{
  Bytes, Outcome, einval, ok, error, fault, over_write, ◌>>=◌, ◌>>◌, guard, read, field, fits, u8,
  u16, u32,
}

pub record FruHdr : Type 0 where
  pub type : ℕ
  pub length : ℕ
  pub flags : ℕ

abbrev pub sizeof_fru_hdr : ℕ
sizeof_fru_hdr = 4

unfoldable pub parse_opal_fru_hdr : Bytes → ℕ → Outcome FruHdr
parse_opal_fru_hdr mem p = do
  length ← u8 mem (p + 2)
  flags ← u8 mem (p + 3)
  type ← u16 mem p
  ok (record { type = type; length = length; flags = flags })

pub record Mru : Type 0 where
  pub reserved : Bytes  -- reserved0 to reserved2
  pub priority : ℕ
  pub id : ℕ

abbrev pub sizeof_mru : ℕ
sizeof_mru = 8

abbrev pub fru_mr_mru_max : ℕ
fru_mr_mru_max = 15

pub record FruMr : Type 0 where
  pub hdr : FruHdr
  pub reserved : Bytes
  pub mru : List Mru

-- The structs read so far end `min_length` bytes behind `p`; `slots` are left in `mr->mru`.
unfoldable pub parse_mrus : ℕ → ℕ → Bytes → ℕ → ℕ → ℕ → Outcome (List Mru × ℕ)
unfolding check_buflen
parse_mrus zero hdr_length mem p buflen min_length =
    if ltb min_length hdr_length
    then (do
      guard (not (ltb (hdr_length - min_length) sizeof_mru)) einval
      check_buflen buflen (min_length + sizeof_mru)
      fault over_write)
    else ok ([], min_length)
parse_mrus (suc slots) hdr_length mem p buflen min_length =
    let rest = parse_mrus slots hdr_length mem p buflen (min_length + sizeof_mru) in
    if ltb min_length hdr_length
    then (do
      guard (not (ltb (hdr_length - min_length) sizeof_mru)) einval
      check_buflen buflen (min_length + sizeof_mru)
      reserved ← read mem (p + min_length) 3
      priority ← u8 mem (p + min_length + 3)
      id ← u32 mem (p + min_length + 4)
      r ← rest
      ok (record { reserved = reserved; priority = priority; id = id } ∷ r.0, r.1))
    else ok ([], min_length)

unfoldable pub parse_src_fru_mr_scn : Bytes → ℕ → ℕ → Outcome (FruMr × ℕ)
unfolding check_buflen parse_opal_fru_hdr
parse_src_fru_mr_scn mem p buflen = do
  let min_length = sizeof_fru_hdr + 4
  check_buflen buflen min_length
  hdr ← parse_opal_fru_hdr mem p
  guard (hdr.type == 0x4d52) einval
  reserved ← read mem (p + 4) 4
  r ← parse_mrus fru_mr_mru_max hdr.length mem p buflen min_length
  ok (record { hdr = hdr; reserved = reserved; mru = r.0 }, r.1)

abbrev pub fru_pe_pce_max : ℕ
fru_pe_pce_max = 32

pub record FruPe : Type 0 where
  pub hdr : FruHdr
  pub mtms : Mtms
  pub pce : Bytes

-- The string behind the fixed part, if the sub-section is longer than that.
parse_pce : ℕ → Bytes → ℕ → ℕ → ℕ → Outcome (Bytes × ℕ)
unfolding check_buflen
parse_pce hdr_length mem p buflen min_length =
    if ltb min_length hdr_length
    then (do
      guard (not (ltb fru_pe_pce_max (hdr_length - min_length))) einval
      check_buflen buflen (min_length + (hdr_length - min_length))
      pce ← read mem (p + min_length) (hdr_length - min_length)
      fits 0 (hdr_length - min_length) fru_pe_pce_max
      ok (pce, hdr_length))
    else ok (0 ∷ [], min_length)

unfoldable pub parse_src_fru_pe_scn : Bytes → ℕ → ℕ → Outcome (FruPe × ℕ)
unfolding check_buflen parse_opal_fru_hdr copy_mtms_struct parse_pce
parse_src_fru_pe_scn mem p buflen = do
  let min_length = sizeof_fru_hdr + 20
  check_buflen buflen min_length
  hdr ← parse_opal_fru_hdr mem p
  mtms ← copy_mtms_struct mem (p + 4)
  guard (hdr.type == 0x5045) einval
  r ← parse_pce hdr.length mem p buflen min_length
  ok (record { hdr = hdr; mtms = mtms; pce = r.0 }, r.1)

pub record FruId : Type 0 where
  pub hdr : FruHdr
  pub part : Option Bytes
  pub ccin : Option Bytes
  pub serial : Option Bytes

abbrev pub fru_id_part : ℕ
fru_id_part = 0x08

abbrev pub fru_id_proc : ℕ
fru_id_proc = 0x02

abbrev pub fru_id_ccin : ℕ
fru_id_ccin = 0x04

abbrev pub fru_id_serial : ℕ
fru_id_serial = 0x01

-- One member of `size` bytes: nothing unless `wanted`, an error where its flag asks for it and
-- the part number's flag, `allowed`, is off.
parse_member : Bool → Bool → ℕ → Bytes → ℕ → ℕ → ℕ → Outcome (Option Bytes × ℕ)
unfolding check_buflen
parse_member wanted allowed size mem p buflen min_length =
    if wanted
    then (do
      guard allowed einval
      check_buflen buflen (min_length + size)
      member ← read mem (p + min_length) size
      ok (some member, min_length + size))
    else ok (none, min_length)

unfoldable pub parse_src_fru_id_scn : Bytes → ℕ → ℕ → Outcome (FruId × ℕ)
unfolding check_buflen parse_opal_fru_hdr parse_member
parse_src_fru_id_scn mem p buflen = do
  check_buflen buflen sizeof_fru_hdr
  hdr ← parse_opal_fru_hdr mem p
  guard (hdr.type == 0x4944) einval
  let has_part = has_flag hdr.flags fru_id_part
  let has_proc = has_flag hdr.flags fru_id_proc
  guard (not (has_part && has_proc)) einval
  part ← parse_member (has_part || has_proc) true 8 mem p buflen sizeof_fru_hdr
  ccin ← parse_member (has_flag hdr.flags fru_id_ccin) has_part 4 mem p buflen part.1
  serial ← parse_member (has_flag hdr.flags fru_id_serial) has_part 12 mem p buflen ccin.1
  ok (record { hdr = hdr; part = part.0; ccin = ccin.0; serial = serial.0 }, serial.1)

pub record FruScn : Type 0 where
  pub length : ℕ
  pub type : ℕ
  pub priority : ℕ
  pub loc_code_len : ℕ
  pub location_code : Bytes
  pub id : Option FruId
  pub pe : Option FruPe
  pub mr : Option FruMr

abbrev pub fru_scn_static_size : ℕ
fru_scn_static_size = 4

abbrev pub fru_loc_code_max : ℕ
fru_loc_code_max = 80

-- An optional sub-section at `offset`, and the offset behind it.
unfoldable pub parse_sub :
    {A : Type 0}
    → Bool
    → (Bytes → ℕ → ℕ → Outcome (A × ℕ))
    → Bytes
    → ℕ
    → ℕ
    → ℕ
    → Outcome (Option A × ℕ)
parse_sub present parse mem p buflen offset =
    if present
    then (do r ← parse mem (p + offset) (buflen - offset); ok (some r.0, offset + r.1))
    else ok (none, offset)

-- The callout's own bytes and its location code.
pub record FruHead : Type 0 where
  pub length : ℕ
  pub type : ℕ
  pub priority : ℕ
  pub loc_code_len : ℕ
  pub location_code : Bytes

unfoldable pub parse_fru_head : Bytes → ℕ → ℕ → Outcome FruHead
unfolding check_buflen
parse_fru_head mem p buflen = do
  check_buflen buflen fru_scn_static_size
  length ← u8 mem p
  type ← u8 mem (p + 1)
  priority ← u8 mem (p + 2)
  loc_code_len ← u8 mem (p + 3)
  guard (loc_code_len % 4 == 0) einval
  guard (not (ltb fru_loc_code_max loc_code_len)) einval
  check_buflen buflen (fru_scn_static_size + loc_code_len)
  location_code ← read mem (p + 4) loc_code_len
  fits 0 loc_code_len fru_loc_code_max
  ok (record {
    length = length;
    type = type;
    priority = priority;
    loc_code_len = loc_code_len;
    location_code = location_code;
  })

unfoldable pub parse_fru_scn : Bytes → ℕ → ℕ → Outcome (FruScn × ℕ)
parse_fru_scn mem p buflen = do
  head ← parse_fru_head mem p buflen
  let offset = fru_scn_static_size + head.loc_code_len
  id ← parse_sub (has_flag head.type 0x08) parse_src_fru_id_scn mem p buflen offset
  pe ← parse_sub (has_flag head.type 0x03) parse_src_fru_pe_scn mem p buflen id.1
  mr ← parse_sub (has_flag head.type 0x04) parse_src_fru_mr_scn mem p buflen pe.1
  guard (mr.1 == head.length) einval
  ok (
    record {
      length = head.length;
      type = head.type;
      priority = head.priority;
      loc_code_len = head.loc_code_len;
      location_code = head.location_code;
      id = id.0;
      pe = pe.0;
      mr = mr.0;
    },
    mr.1,
  )
