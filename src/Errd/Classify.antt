-- ===== src/Errd/Classify.antt =====
-- parse_log and get_elog_type_from_file_data of opal_errd.c: the two places that decide whether a
-- log is serviceable.
pub mod Agree
use ppc64_diag.Elog.Header.{is_esel_header, sizeof_esel_header}
use ppc64_diag.Errd.Files.{ElogType, informational, serviceable}
use ppc64_diag.Base.{
  ℕ, ◌+◌, ◌*◌, ◌/◌, ltb, Bool, true, false, not, ◌&&◌, ◌||◌, if◌then◌else◌, has_flag, Option, some,
  none, length,
}
use ppc64_diag.Elog.Memory.{
  Bytes, ok, ◌>>=◌, ◌>>◌, Outcome, failed, fault, guard, read, u16, u32, u8, uninitialised,
}

-- opal-elog.h: offsets of fields in a log, flags and limits.
abbrev pub elog_src_size : ℕ
elog_src_size = 8

abbrev pub elog_id_offset : ℕ
elog_id_offset = 0x2c

abbrev pub elog_severity_offset : ℕ
elog_severity_offset = 0x3a

abbrev pub elog_subsystem_offset : ℕ
elog_subsystem_offset = 0x38

abbrev pub elog_action_offset : ℕ
elog_action_offset = 0x42

abbrev pub elog_src_offset : ℕ
elog_src_offset = 0x78

abbrev pub elog_min_read_offset : ℕ
elog_min_read_offset = elog_src_offset + elog_src_size

abbrev pub opal_error_log_max : ℕ
opal_error_log_max = 16384

abbrev pub action_service : ℕ
action_service = 0x8000

abbrev pub action_call_home : ℕ
action_call_home = 0x0800

pub data Action : Type 0 where
  service_and_call_home service_required no_service : Action

-- What parse_log prints, and what it returns through `elog_type`.
pub record Report : Type 0 where
  pub logid : ℕ
  pub src : Bytes
  pub subsystem : ℕ
  pub severity : ℕ
  pub parse_action : Action
  pub prints_hint : Bool
  pub elog_type : ElogType

-- A log is serviceable if it asks for a service action or for a call home.
unfoldable pub type_of_action : ℕ → ElogType
type_of_action action =
    if has_flag action action_service || has_flag action action_call_home
    then serviceable
    else informational

-- `subsysid & 0xF0` and `severity & 0xF0` are the generic entries of their category.
unfoldable pub report_of : ℕ → Bytes → ℕ → ℕ → ℕ → Report
report_of logid src subsysid severity action =
    let service = has_flag action action_service in
    let call_home = has_flag action action_call_home in
    record {
      logid = logid;
      src = src;
      subsystem = subsysid / 16 * 16;
      severity = severity / 16 * 16;
      parse_action =
          if service && call_home
          then service_and_call_home
          else if service
          then service_required
          else no_service;
      prints_hint = service && not call_home;
      elog_type = type_of_action action;
    }

unfoldable pub parse_log : Bytes → Outcome Report
parse_log buffer = do
  guard (not (ltb (length buffer) elog_min_read_offset)) failed
  logid ← u32 buffer elog_id_offset
  src ← read buffer elog_src_offset elog_src_size
  subsysid ← u8 buffer elog_subsystem_offset
  severity ← u8 buffer elog_severity_offset
  action ← u16 buffer elog_action_offset
  ok (report_of logid src subsysid severity action)

-- The second read is not tested, so that a file that ends before the action flags leaves `action`
-- as it was, which is unset.
pub type_at : Bytes → ℕ → Outcome (Option ElogType)
type_at contents seek_loc =
    if ltb (length contents) (seek_loc + 2)
    then fault uninitialised
    else (do action ← u16 contents seek_loc; ok (some (type_of_action action)))

-- The type of a file that can be opened and read, from what it holds; where stat, open, lseek or
-- the first read fails it is OPAL_ELOG_INVALID, which is not modelled.
unfoldable pub get_elog_type_from_file_data : Bytes → Outcome (Option ElogType)
unfolding type_at
get_elog_type_from_file_data contents =
    if ltb opal_error_log_max (length contents)
    then ok none
    else if ltb (length contents) sizeof_esel_header
    then ok none
    else (do
      esel ← is_esel_header contents 0
      let seek_loc = (if esel then elog_action_offset + sizeof_esel_header else elog_action_offset)
      type_at contents seek_loc)
