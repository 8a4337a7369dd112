-- ===== src/Elog/Src.antt =====
-- opal-src-scn.c: the primary and secondary SRC sections.
pub mod Bounds
use ppc64_diag.Base.{
  ℕ, zero, suc, ◌+◌, ◌-◌, Bool, not, ltb, ◌==◌, if◌then◌else◌, has_flag, List, [], ◌∷◌, Option,
  none, some,
}
use ppc64_diag.Elog.Fru.{FruScn, parse_fru_scn}
use ppc64_diag.Elog.Header.{V6Hdr, check_buflen}
use ppc64_diag.Elog.Memory.{
  Bytes, Outcome, einval, enomem, ok, ◌>>=◌, ◌>>◌, guard, read, field, u8, u16, u32,
}

abbrev pub src_scn_static_size : ℕ
src_scn_static_size = 80

abbrev pub src_fru_max : ℕ
src_fru_max = 10

pub record AddScnHdr : Type 0 where
  pub id : ℕ
  pub flags : ℕ
  pub length : ℕ

pub record SrcScn : Type 0 where
  pub v6hdr : V6Hdr
  pub version : ℕ
  pub flags : ℕ
  pub wordcount : ℕ
  pub srclength : ℕ
  pub ext_refcode : List ℕ  -- ext_refcode2 to ext_refcode9
  pub primary_refcode : Bytes
  pub addhdr : Option AddScnHdr
  pub fru : List FruScn

-- `be32toh` of `n` words, one behind the other.
unfoldable pub read_words : ℕ → Bytes → ℕ → Outcome (List ℕ)
read_words zero mem p = ok []
read_words (suc n) mem p = do word ← u32 mem p; words ← read_words n mem (p + 4); ok (word ∷ words)

-- `while(offset < src->srclength && src->fru_count < OPAL_SRC_FRU_MAX)`; `slots` is the maximum
-- less `fru_count`.
unfoldable pub parse_frus : ℕ → ℕ → Bytes → ℕ → ℕ → ℕ → Outcome (List FruScn)
parse_frus zero srclength mem p buflen offset = ok []
parse_frus (suc slots) srclength mem p buflen offset =
    let rest = λ (n : ℕ). parse_frus slots srclength mem p buflen (offset + n) in
    if ltb offset srclength
    then (do r ← parse_fru_scn mem (p + offset) (buflen - offset); frus ← rest r.1; ok (r.0 ∷ frus))
    else ok []

pub record Callouts : Type 0 where
  pub addhdr : Option AddScnHdr
  pub fru : List FruScn

-- The optional sub-section.
unfoldable pub parse_callouts : ℕ → ℕ → Bytes → ℕ → ℕ → Outcome Callouts
unfolding check_buflen
parse_callouts flags srclength mem p buflen =
    if has_flag flags 0x01
    then (do
      check_buflen buflen (src_scn_static_size + 4)
      add_flags ← u8 mem (p + 81)
      id ← u8 mem (p + 80)
      guard (id == 0xc0) einval
      length ← u16 mem (p + 82)
      fru ← parse_frus src_fru_max srclength mem p buflen (src_scn_static_size + 4)
      ok (record {
        addhdr = some (record { id = id; flags = add_flags; length = length });
        fru = fru;
      }))
    else ok (record { addhdr = none; fru = [] })

unfoldable pub parse_src_scn : Bool → V6Hdr → Bytes → ℕ → ℕ → Outcome SrcScn
unfolding check_buflen
parse_src_scn allocated hdr mem p buflen = do
  check_buflen buflen src_scn_static_size
  guard (not (ltb hdr.length src_scn_static_size)) einval
  guard allocated enomem
  version ← u8 mem (p + 8)
  flags ← u8 mem (p + 9)
  wordcount ← u8 mem (p + 11)
  srclength ← u16 mem (p + 14)
  ext_refcode ← read_words 8 mem (p + 16)
  primary_refcode ← read mem (p + 48) 32
  callouts ← parse_callouts flags srclength mem p buflen
  ok (record {
    v6hdr = hdr;
    version = version;
    flags = flags;
    wordcount = wordcount;
    srclength = srclength;
    ext_refcode = ext_refcode;
    primary_refcode = primary_refcode;
    addhdr = callouts.addhdr;
    fru = callouts.fru;
  })
