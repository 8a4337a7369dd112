-- ===== src/Elog/Section/Text.antt =====
-- opal-eh-scn.c, opal-ch-scn.c, opal-ud-scn.c and opal-ed-scn.c: the sections that end in text or
-- data of a variable length. Their structs are allocated with the length that the section header
-- gives. `allocated` says whether the parser's call of malloc succeeds.
use ppc64_diag.Base.{ℕ, ◌+◌, ◌-◌, Bool, not, ltb, ◌==◌, if◌then◌else◌, set}
use ppc64_diag.Elog.Header.{
  V6Hdr, Mtms, copy_mtms_struct, Datetime, parse_opal_datetime, check_buflen, sizeof_v6_hdr,
}
use ppc64_diag.Elog.Memory.{
  Bytes, Outcome, einval, enomem, ok, fault, over_write, ◌>>=◌, ◌>>◌, guard, read, fits, u8, strlen,
  strncpy,
}

pub record EhScn : Type 0 where
  pub v6hdr : V6Hdr
  pub mtms : Mtms
  pub opal_release_version : Bytes
  pub opal_subsys_version : Bytes
  pub event_ref_datetime : Datetime
  pub opal_symid_len : ℕ
  pub opalsymid : Bytes

abbrev pub sizeof_eh_scn : ℕ
sizeof_eh_scn = 76

-- `opal_symid_len && hdr->length < sizeof(struct opal_eh_scn) + strlen(bufeh->opalsymid)`.
symid_fits : ℕ → ℕ → Bytes → ℕ → Outcome (Unit {0})
unfolding strlen
symid_fits symid_len hdr_length mem p = if symid_len == 0 then ok tt else (do
  n ← strlen mem (p + sizeof_eh_scn)
  guard (not (ltb hdr_length (sizeof_eh_scn + n))) einval)

unfoldable pub parse_eh_scn : Bool → V6Hdr → Bytes → ℕ → ℕ → Outcome EhScn
unfolding copy_mtms_struct parse_opal_datetime symid_fits
parse_eh_scn allocated hdr mem p buflen = do
  guard (not (ltb hdr.length sizeof_eh_scn)) einval
  guard allocated enomem
  guard (not (ltb buflen sizeof_eh_scn)) einval
  mtms ← copy_mtms_struct mem (p + 8)
  opal_release_version ← strncpy mem (p + 28) 16
  opal_subsys_version ← strncpy mem (p + 44) 16
  event_ref_datetime ← parse_opal_datetime mem (p + 64)
  opal_symid_len ← u8 mem (p + 75)
  symid_fits opal_symid_len hdr.length mem p
  opalsymid ← strncpy mem (p + sizeof_eh_scn) opal_symid_len
  fits sizeof_eh_scn opal_symid_len hdr.length
  ok (record {
    v6hdr = hdr;
    mtms = mtms;
    opal_release_version = opal_release_version;
    opal_subsys_version = opal_subsys_version;
    event_ref_datetime = event_ref_datetime;
    opal_symid_len = opal_symid_len;
    opalsymid = opalsymid;
  })

-- `array[n - 1] = '\0'`; with `n` at 0 the write falls before the array.
abbrev pub terminate : Bytes → ℕ → Outcome Bytes
terminate text n = if n == 0 then fault over_write else ok (set text (n - 1) 0)

pub record ChScn : Type 0 where
  pub v6hdr : V6Hdr
  pub comment : Bytes

abbrev pub ch_comment_max_len : ℕ
ch_comment_max_len = 144

unfoldable pub parse_ch_scn : Bool → V6Hdr → Bytes → ℕ → ℕ → Outcome ChScn
parse_ch_scn allocated hdr mem p buflen = do
  guard allocated enomem
  guard (not (ltb buflen sizeof_v6_hdr)) einval
  guard (not (ltb ch_comment_max_len (hdr.length - sizeof_v6_hdr))) einval
  text ← strncpy mem (p + 8) (hdr.length - sizeof_v6_hdr)
  comment ← terminate text (hdr.length - sizeof_v6_hdr)
  ok (record { v6hdr = hdr; comment = comment })

pub record UdScn : Type 0 where
  pub v6hdr : V6Hdr
  pub contents : Bytes

unfoldable pub parse_ud_scn : Bool → V6Hdr → Bytes → ℕ → ℕ → Outcome UdScn
parse_ud_scn allocated hdr mem p buflen = do
  guard (not (ltb buflen sizeof_v6_hdr)) einval
  guard allocated enomem
  contents ← read mem (p + 8) (hdr.length - sizeof_v6_hdr)
  ok (record { v6hdr = hdr; contents = contents })

pub record EdScn : Type 0 where
  pub v6hdr : V6Hdr
  pub creator_id : ℕ
  pub user_data : Bytes

abbrev pub sizeof_ed_scn : ℕ
sizeof_ed_scn = 12

unfoldable pub parse_ed_scn : Bool → V6Hdr → Bytes → ℕ → ℕ → Outcome EdScn
unfolding check_buflen
parse_ed_scn allocated hdr mem p buflen = do
  check_buflen buflen sizeof_ed_scn
  check_buflen buflen hdr.length
  check_buflen hdr.length sizeof_ed_scn
  guard allocated enomem
  creator_id ← u8 mem (p + 8)
  user_data ← read mem (p + 12) (hdr.length - 12)
  ok (record { v6hdr = hdr; creator_id = creator_id; user_data = user_data })
