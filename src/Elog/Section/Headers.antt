-- ===== src/Elog/Section/Headers.antt =====
-- opal-priv-hdr-scn.c and opal-usr-scn.c: the two sections that every log begins with. `allocated`
-- says whether the parser's call of malloc succeeds.
use ppc64_diag.Base.{ℕ, ◌+◌, Bool, not, ltb, ◌==◌, if◌then◌else◌}
use ppc64_diag.Elog.Header.{V6Hdr, Datetime, parse_opal_datetime}
use ppc64_diag.Elog.Memory.{
  Bytes, Outcome, einval, enomem, ok, ◌>>=◌, ◌>>◌, guard, read, u8, u16, u32,
}

pub record PrivHdr : Type 0 where
  pub v6hdr : V6Hdr
  pub create_datetime : Datetime
  pub commit_datetime : Datetime
  pub creator_id : ℕ
  pub scn_count : ℕ
  pub creator_subid_hi : Bytes  -- copied in the byte order of the buffer
  pub creator_subid_lo : Bytes
  pub plid : ℕ
  pub log_entry_id : ℕ

abbrev pub sizeof_priv_hdr : ℕ
sizeof_priv_hdr = 48

unfoldable pub parse_priv_hdr_scn : Bool → V6Hdr → Bytes → ℕ → ℕ → Outcome PrivHdr
parse_priv_hdr_scn allocated hdr mem p buflen = do
  guard (not (ltb buflen sizeof_priv_hdr)) einval
  guard (hdr.length == sizeof_priv_hdr) einval
  guard allocated enomem
  create_datetime ← parse_opal_datetime mem (p + 8)
  commit_datetime ← parse_opal_datetime mem (p + 16)
  creator_id ← u8 mem (p + 24)
  scn_count ← u8 mem (p + 27)
  creator_subid_hi ← read mem (p + 32) 4
  creator_subid_lo ← read mem (p + 36) 4
  plid ← u32 mem (p + 40)
  log_entry_id ← u32 mem (p + 44)
  ok (record {
    v6hdr = hdr;
    create_datetime = create_datetime;
    commit_datetime = commit_datetime;
    creator_id = creator_id;
    scn_count = if ltb scn_count 1 then 1 else scn_count;
    creator_subid_hi = creator_subid_hi;
    creator_subid_lo = creator_subid_lo;
    plid = plid;
    log_entry_id = log_entry_id;
  })

pub record UsrHdr : Type 0 where
  pub v6hdr : V6Hdr
  pub subsystem_id : ℕ
  pub event_data : ℕ
  pub event_severity : ℕ
  pub event_type : ℕ
  pub problem_domain : ℕ
  pub problem_vector : ℕ
  pub action : ℕ

abbrev pub sizeof_usr_hdr : ℕ
sizeof_usr_hdr = 24

-- `*is_error = !usrhdr->event_severity`.
unfoldable pub is_error_of : UsrHdr → Bool
is_error_of usr = usr.event_severity == 0

unfoldable pub parse_usr_hdr_scn : Bool → V6Hdr → Bytes → ℕ → ℕ → Outcome UsrHdr
parse_usr_hdr_scn allocated hdr mem p buflen = do
  guard (not (ltb buflen sizeof_usr_hdr)) einval
  guard (hdr.length == sizeof_usr_hdr) einval
  guard allocated enomem
  subsystem_id ← u8 mem (p + 8)
  event_data ← u8 mem (p + 9)
  event_severity ← u8 mem (p + 10)
  event_type ← u8 mem (p + 11)
  problem_domain ← u8 mem (p + 16)
  problem_vector ← u8 mem (p + 17)
  action ← u16 mem (p + 18)
  ok (record {
    v6hdr = hdr;
    subsystem_id = subsystem_id;
    event_data = event_data;
    event_severity = event_severity;
    event_type = event_type;
    problem_domain = problem_domain;
    problem_vector = problem_vector;
    action = action;
  })
