-- ===== src/Errd/Tests.antt =====
-- Logs and files on which opal_errd runs.
use ppc64_diag.Errd.Dump.{remove_dump_files}
use ppc64_diag.Errd.Dump.Retention.{of_type, remove_dump_files_lem, with_path}
use ppc64_diag.Errd.Process.Round.{IsNoOutput, KeptOrGone, main_round-KeptOrGone}
use ppc64_diag.Errd.Rotate.{rotate_logs}
use ppc64_diag.Errd.Rename.{new_name}
use ppc64_diag.Errd.Rotate.Trim.{is_named, rotate_logs_lem, unless}
use ppc64_diag.Elog.Header.{is_esel_header}
use ppc64_diag.Errd.Classify.Agree.{get_elog_type_from_file_data-parse_log}
use ppc64_diag.Errd.Process.Stored.{contents_of, process_elog_stored}
use ppc64_diag.Errd.Classify.{
  Report, get_elog_type_from_file_data, parse_log, report_of, service_required, type_of_action,
}
use ppc64_diag.Errd.Process.{
  Elog, World, all_stored, limits, output_name, process_elog, set_flag, main_round,
}
use ppc64_diag.Errd.Files.{
  Directory, ElogType, File, dt_reg, elog_type_str, get_elog_filetype, is_elog_file, lookup, select,
  serviceable, starts_with, informational,
}
use ppc64_diag.Base.{
  ℕ, ◌+◌, ◌-◌, ◌<◌, ◌≡◌, ◌≢◌, refl, arith, ◌&&◌, true, false, [], ◌∷◌, ◌++◌, some, none, length,
  drop, take, replicate,
}
use ppc64_diag.Elog.Memory.{Bytes, ok, field, read}

-- A log of 128 bytes that asks for a service action.
abbrev serviceable_log : Bytes
serviceable_log = replicate 0x42 0 ++ 0x80 ∷ 0 ∷ replicate 60 65

abbrev report : Report
report = record {
  logid = 0;
  src = replicate 8 65;
  subsystem = 0;
  severity = 0;
  parse_action = service_required;
  prints_hint = true;
  elog_type = serviceable;
}

log_parsed : parse_log serviceable_log ≡ ok report
unfolding parse_log report_of type_of_action read field
log_parsed = refl

no_esel : is_esel_header serviceable_log 0 ≡ ok false
unfolding is_esel_header field
no_esel = refl

get_elog_type_from_file_data-parse_log_example :
    get_elog_type_from_file_data serviceable_log ≡ ok (some serviceable)
get_elog_type_from_file_data-parse_log_example =
    get_elog_type_from_file_data-parse_log serviceable_log {report = report} log_parsed
      (omega arith) no_esel

abbrev elog : Elog
elog = record {
  name = b'0' ∷ b'x' ∷ b'1' ∷ [];
  is_dir = true;
  raw = some serviceable_log;
  stamp = b'9' ∷ [];
  storage = all_stored;
  acks = true;
}

abbrev empty_world : World
empty_world = record { flags = record { srvc = false; info = false }; dir = []; acknowledged = [] }

output_fits : 3 + 1 + length (output_name elog serviceable) < 4096
unfolding output_name elog_type_str
output_fits = omega arith

process_elog_stored_example :
    let r = process_elog (b'/' ∷ []) (b'/' ∷ b'o' ∷ b'/' ∷ []) elog empty_world in
    let name = output_name elog serviceable in
    (r.0 ≡ true)
    × (contents_of (lookup name r.1.dir)
        ≡ serviceable_log ++ drop (length serviceable_log) (contents_of (lookup name [])))
    × (get_elog_filetype name ≡ some serviceable)
    × (r.1.flags ≡ set_flag serviceable empty_world.flags)
process_elog_stored_example =
    process_elog_stored (b'/' ∷ []) (b'/' ∷ b'o' ∷ b'/' ∷ []) serviceable_log elog empty_world
      {report = report} (omega arith) output_fits refl log_parsed refl

other_name : (t : ElogType) → (b'z' ∷ []) ≢ output_name elog t
unfolding output_name
other_name t = cc

abbrev stored : ℕ → File
stored c = record {
  name = c ∷ elog_type_str serviceable;
  data_of = serviceable_log;
  d_type = dt_reg;
  stat_is_dir = none;
}

abbrev two_files : Directory
two_files = stored 1 ∷ stored 2 ∷ []

rotate_logs_lem_example :
    let filelist = select (is_elog_file serviceable) two_files in
    lookup [] (rotate_logs (λ fs. fs) (λ name. true) two_files 1 serviceable)
    ≡ unless (is_named [] (take (length filelist - 1) filelist) && true) (lookup [] two_files)
rotate_logs_lem_example = rotate_logs_lem (λ fs. fs) (λ name. true) two_files 1 serviceable []

abbrev old_file : File
old_file = record {
  name = b'5' ∷ b'-' ∷ b'0' ∷ b'x' ∷ b'7' ∷ [];
  data_of = serviceable_log;
  d_type = dt_reg;
  stat_is_dir = none;
}

old_file_renamed :
    new_name (λ name. true) 10 old_file
    ≡ ok (some (old_file.name ++ b'-' ∷ elog_type_str serviceable))
unfolding new_name starts_with get_elog_type_from_file_data type_of_action is_esel_header field
    elog_type_str
old_file_renamed = refl

no_output : IsNoOutput (b'z' ∷ []) (elog ∷ [])
unfolding output_name
no_output = (other_name serviceable, other_name informational, tt)

main_round-KeptOrGone_example : KeptOrGone (lookup (b'z' ∷ []) []) (
    lookup
      (b'z' ∷ [])
      (main_round
        (λ fs. fs)
        (λ name. true)
        (limits 1000 0)
        (b'/' ∷ [])
        []
        (elog ∷ [])
        empty_world).dir)
main_round-KeptOrGone_example =
    main_round-KeptOrGone (λ fs. fs) (λ name. true) (limits 1000 0) (b'/' ∷ []) [] (b'z' ∷ [])
      (elog ∷ []) empty_world no_output

abbrev dump_name : ℕ → Bytes
dump_name n = b'S' ∷ b'Y' ∷ b'S' ∷ b'D' ∷ b'U' ∷ b'M' ∷ b'P' ∷ n ∷ []

remove_dump_files_lem_example :
    remove_dump_files 2 20 (dump_name 9) (dump_name 1 ∷ dump_name 2 ∷ dump_name 3 ∷ [])
    ≡ with_path 20
        (drop (2 - 1) (of_type (dump_name 9) (dump_name 1 ∷ dump_name 2 ∷ dump_name 3 ∷ [])))
remove_dump_files_lem_example =
    remove_dump_files_lem 2 20 (dump_name 9) (dump_name 1 ∷ dump_name 2 ∷ dump_name 3 ∷ [])
