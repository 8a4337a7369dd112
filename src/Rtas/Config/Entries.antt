-- ===== src/Rtas/Config/Entries.antt =====
-- parse_config_entries and diag_cfg of rtas_errd/config.c, where the file can be mapped.
use ppc64_diag.Rtas.Config.{
  Cursor, Entry, Next, at, behind_equals, entry, eof, get_config_num, get_config_string, got,
  is_newline, is_null, next, no_entry, overflow, path_length, strtol, tok_overflow, tok_no_fuel,
  unfinished, unset,
}
use ppc64_diag.Base.{
  ℕ, zero, suc, ◌+◌, ◌-◌, ltb, ◌==◌, Bool, true, false, ◌&&◌, if◌then◌else◌, [], ◌∷◌, ◌++◌, Option,
  some, none, length, get_or,
}
use ppc64_diag.Errd.Files.{same_name}
use ppc64_diag.Elog.Memory.{Bytes}

-- `d_cfg`; the policy is none for -1.
pub record Config : Type 0 where
  pub min_processors : ℕ
  pub min_entitled_capacity : ℕ
  pub scanlog_dump_path : Bytes
  pub platform_dump_path : Bytes
  pub restart_policy : Option ℕ

abbrev pub var_log : Bytes
var_log = b'/' ∷ b'v' ∷ b'a' ∷ b'r' ∷ b'/' ∷ b'l' ∷ b'o' ∷ b'g' ∷ b'/' ∷ []

unfoldable pub init_d_cfg : Config
init_d_cfg = record {
  min_processors = 1;
  min_entitled_capacity = 5;
  scanlog_dump_path = var_log;
  platform_dump_path = var_log ++ b'd' ∷ b'u' ∷ b'm' ∷ b'p' ∷ b'/' ∷ [];
  restart_policy = none;
}

-- The policy of a token: 0 or 1 with nothing behind it, and else -1.
unfoldable pub policy_of : Bytes → Option ℕ
policy_of tok =
    let parsed = strtol tok in
    if length parsed.1 == 0 && ltb parsed.0 2 then some parsed.0 else none

unfoldable pub policy_value : Next → Entry (Option ℕ)
unfolding policy_of
policy_value (got cur none line_no) = unset
policy_value (got cur (some tok) line_no) = entry (policy_of tok) cur line_no
policy_value is_null = no_entry
policy_value tok_overflow = overflow
policy_value tok_no_fuel = unfinished

unfoldable pub get_restart_policy_value : Cursor → ℕ → Entry (Option ℕ)
unfolding policy_value behind_equals
get_restart_policy_value cur line_no = behind_equals policy_value (next cur none line_no)

-- What config_restart_policy leaves of a valid policy: `configured` says whether the calls of
-- librtas and of the nvram command leave it, or set it to -1.
unfoldable pub configure_policy : (ℕ → Bool) → Bool → Option ℕ → Option ℕ
configure_policy configured update none = none
configure_policy configured false (some policy) = some policy
configure_policy configured true (some policy) = if configured policy then some policy else none

-- The path with a '/' at its end; none where there is no room for it.
unfoldable pub with_slash : Bytes → Option Bytes
with_slash path =
    if get_or path (length path - 1) 0 == b'/'
    then some path
    else if ltb (length path + 1) path_length
    then some (path ++ b'/' ∷ [])
    else none

pub data Name : Type 0 where
  min_processors_name min_entitled_capacity_name scanlog_dump_path_name : Name
  platform_dump_path_name auto_restart_policy_name no_name : Name

abbrev pub min_processors_text : Bytes
min_processors_text =
    b'M' ∷ b'i' ∷ b'n' ∷ b'P' ∷ b'r' ∷ b'o' ∷ b'c' ∷ b'e' ∷ b's' ∷ b's' ∷ b'o' ∷ b'r' ∷ b's' ∷ []

abbrev min_entitled_capacity_text : Bytes
min_entitled_capacity_text =
    b'M' ∷ b'i' ∷ b'n' ∷ b'E' ∷ b'n' ∷ b't' ∷ b'i' ∷ b't' ∷ b'l' ∷ b'e' ∷ b'd' ∷ b'C' ∷ b'a' ∷ b'p'
    ∷ b'a' ∷ b'c' ∷ b'i' ∷ b't' ∷ b'y' ∷ []

abbrev dump_path_text : Bytes
dump_path_text = b'D' ∷ b'u' ∷ b'm' ∷ b'p' ∷ b'P' ∷ b'a' ∷ b't' ∷ b'h' ∷ []

abbrev pub scanlog_dump_path_text : Bytes
scanlog_dump_path_text = b'S' ∷ b'c' ∷ b'a' ∷ b'n' ∷ b'l' ∷ b'o' ∷ b'g' ∷ dump_path_text

abbrev platform_dump_path_text : Bytes
platform_dump_path_text = b'P' ∷ b'l' ∷ b'a' ∷ b't' ∷ b'f' ∷ b'o' ∷ b'r' ∷ b'm' ∷ dump_path_text

abbrev auto_restart_policy_text : Bytes
auto_restart_policy_text =
    b'A' ∷ b'u' ∷ b't' ∷ b'o' ∷ b'R' ∷ b'e' ∷ b's' ∷ b't' ∷ b'a' ∷ b'r' ∷ b't' ∷ b'P' ∷ b'o' ∷ b'l'
    ∷ b'i' ∷ b'c' ∷ b'y' ∷ []

unfoldable pub name_of : Bytes → Name
name_of tok =
    if same_name tok min_processors_text
    then min_processors_name
    else if same_name tok min_entitled_capacity_text
    then min_entitled_capacity_name
    else if same_name tok scanlog_dump_path_text
    then scanlog_dump_path_name
    else if same_name tok platform_dump_path_text
    then platform_dump_path_name
    else if same_name tok auto_restart_policy_text
    then auto_restart_policy_name
    else no_name

-- The configuration and the pointer behind an entry; what the calls of the entries end in is passed
-- on.
unfoldable pub then_set : {A : Type 0} → (A → Config) → Entry A → Entry Config
then_set set (entry a cur line_no) = entry (set a) cur line_no
then_set set no_entry = no_entry
then_set set unset = unset
then_set set overflow = overflow
then_set set unfinished = unfinished

unfoldable pub slashed : Entry Bytes → Entry Bytes
slashed (entry path cur line_no) = elim (with_slash path) [
  | some longer ↦ entry longer cur line_no
  | none ↦ overflow
]
slashed no_entry = no_entry
slashed unset = unset
slashed overflow = overflow
slashed unfinished = unfinished

-- The entry behind a name.
unfoldable pub read_named : (ℕ → Bool) → Bool → Name → Cursor → ℕ → Config → Entry Config
unfolding then_set slashed
read_named configured update min_processors_name cur line_no cfg =
    then_set (λ n. record cfg { min_processors = n }) (get_config_num cur line_no)
read_named configured update min_entitled_capacity_name cur line_no cfg =
    then_set (λ n. record cfg { min_entitled_capacity = n }) (get_config_num cur line_no)
read_named configured update scanlog_dump_path_name cur line_no cfg =
    then_set (λ path. record cfg { scanlog_dump_path = path })
      (slashed (get_config_string cur line_no))
read_named configured update platform_dump_path_name cur line_no cfg =
    then_set (λ path. record cfg { platform_dump_path = path })
      (slashed (get_config_string cur line_no))
read_named configured update auto_restart_policy_name cur line_no cfg =
    then_set (λ policy. record cfg { restart_policy = configure_policy configured update policy })
      (get_restart_policy_value cur line_no)
read_named configured update no_name cur line_no cfg = no_entry

-- How parse_config_entries ends: with 0, with -1, or in a fault.
pub data Ending : Type 0 where
  parsed : Config → Ending
  parse_error : Ending
  faulty : Ending
  no_fuel : Ending

-- The loop, from its test on; the fuel is more than the length of the rest of the file.
unfoldable pub entries_loop : ℕ → (ℕ → Bool) → Bool → Entry Config → Ending
unfolding read_named
entries_loop zero configured update e = no_fuel
entries_loop (suc fuel) configured update no_entry = parse_error
entries_loop (suc fuel) configured update unset = faulty
entries_loop (suc fuel) configured update overflow = faulty
entries_loop (suc fuel) configured update unfinished = no_fuel
entries_loop (suc fuel) configured update (entry cfg eof line_no) = parsed cfg
entries_loop (suc fuel) configured update (entry cfg (at []) line_no) = parsed cfg
entries_loop (suc fuel) configured update (entry cfg (at (c ∷ cs)) line_no) =
    elim (next (at (c ∷ cs)) none line_no) [
      | got eof tok line_no' ↦ parsed cfg
      | got (at rest) none line_no' ↦ faulty
      | got (at rest) (some tok) line_no' ↦ entries_loop fuel configured update (
          if is_newline tok
          then entry cfg (at rest) line_no'
          else read_named configured update (name_of tok) (at rest) line_no' cfg)
      | is_null ↦ parse_error
      | tok_overflow ↦ faulty
      | tok_no_fuel ↦ no_fuel
    ]

unfoldable pub parse_config_entries : (ℕ → Bool) → Bool → Bytes → Ending
unfolding entries_loop
parse_config_entries configured update file =
    entries_loop (suc (length file)) configured update (entry init_d_cfg (at file) 1)

-- After a parsing error the default settings are used.
unfoldable pub diag_cfg : (ℕ → Bool) → Bool → Bytes → Option Config
diag_cfg configured update file = elim (parse_config_entries configured update file) [
  | parsed cfg ↦ some cfg
  | parse_error ↦ some init_d_cfg
  | faulty ↦ none
  | no_fuel ↦ none
]
