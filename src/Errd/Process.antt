-- ===== src/Errd/Process.antt =====
-- process_elog, find_and_read_elog_events, rename_old_logs and the loop of main of opal_errd.c.
-- What the kernel answers is given with each log: its bytes in sysfs, and how far storing it got.
pub mod Stored
pub mod Round
use ppc64_diag.Errd.Rotate.{rotate_logs}
use ppc64_diag.Errd.Classify.{Report, parse_log}
use ppc64_diag.Errd.Files.{
  Directory, ElogType, File, dt_reg, elog_type_str, informational, same_name, serviceable,
}
use ppc64_diag.Base.{
  ℕ, zero, suc, ◌+◌, ◌*◌, ◌/◌, ltb, leb, ◌==◌, Bool, true, false, not, ◌&&◌, if◌then◌else◌, List,
  [], ◌∷◌, ◌++◌, Option, some, none, length, take, drop,
}
use ppc64_diag.Elog.Memory.{Bytes, ok, Outcome, error, fault, read}

abbrev pub path_max : ℕ
path_max = 4096

-- How far storing gets: the file is not created, `write` stops after `n` bytes, an error comes
-- after all bytes are written, or there is none.
pub data Storage : Type 0 where
  not_created : Storage
  short_write : ℕ → Storage
  not_synced : Storage
  all_stored : Storage

-- An entry of the sysfs directory. `raw` is none where its file cannot be read, and else what the
-- file holds, as many bytes as stat says; a shorter file, on which the loop of reads does not end,
-- is not modelled. `stamp` is the time at which it is stored, printed. `acks` is true where the
-- file acknowledge can be opened and takes all four bytes.
pub record Elog : Type 0 where
  pub name : Bytes
  pub is_dir : Bool
  pub raw : Option Bytes
  pub stamp : Bytes
  pub storage : Storage
  pub acks : Bool

-- The flags that make the main loop rotate the files of a type.
pub record RotateFlags : Type 0 where
  pub srvc : Bool
  pub info : Bool

unfoldable pub set_flag : ElogType → RotateFlags → RotateFlags
set_flag serviceable flags = record flags { srvc = true }
set_flag informational flags = record flags { info = true }

-- `open` without O_TRUNC and one `write`: what stood behind the bytes that are written stays.
unfoldable pub put : Bytes → Bytes → Directory → Directory
put name contents [] =
    record { name = name; data_of = contents; d_type = dt_reg; stat_is_dir = some false } ∷ []
put name contents (f ∷ fs) =
    let rest = put name contents fs in
    if same_name name f.name
    then record f { data_of = contents ++ drop (length contents) f.data_of } ∷ fs
    else f ∷ rest

-- `"%d-%s-%s"`: the time, the name of the log's directory and the suffix of its type.
unfoldable pub output_name : Elog → ElogType → Bytes
output_name elog t = elog.stamp ++ b'-' ∷ (elog.name ++ b'-' ∷ elog_type_str t)

unfoldable pub store : Storage → Bytes → Bytes → Directory → Directory
store not_created name contents dir = dir
store (short_write n) name contents dir = put name (take n contents) dir
store not_synced name contents dir = put name contents dir
store all_stored name contents dir = put name contents dir

abbrev is_stored : Storage → Bool
is_stored all_stored = true
is_stored _ = false

-- What the daemon changes: the flags, the files in the output directory, and the logs for which
-- it asked the kernel to forget them.
pub record World : Type 0 where
  pub flags : RotateFlags
  pub dir : Directory
  pub acknowledged : List Bytes

-- The part of process_elog behind parse_log; true for a return of 0.
pub store_log : Bytes → Elog → Bytes → ElogType → World → Bool × World
store_log output elog contents t w =
    let name = output_name elog t in
    let flagged = record w { flags = set_flag t w.flags } in
    if leb path_max (length output + 1 + length name)
    then (false, flagged)
    else (is_stored elog.storage, record flagged { dir = store elog.storage name contents w.dir })

pub process_parsed : Bytes → Elog → Bytes → World → Outcome Report → Bool × World
unfolding store_log
process_parsed output elog contents w (ok report) =
    store_log output elog contents report.elog_type w
process_parsed output elog contents w (error e) = (false, w)
process_parsed output elog contents w (fault x) = (false, w)

pub process_raw : Bytes → Elog → World → Option Bytes → Bool × World
unfolding process_parsed
process_raw output elog w none = (false, w)
process_raw output elog w (some contents) =
    process_parsed output elog contents w (parse_log contents)

unfoldable pub process_elog : Bytes → Bytes → Elog → World → Bool × World
unfolding process_raw
process_elog elog_dir output elog w =
    if leb path_max (length elog_dir + 1 + length elog.name + 4)
    then (false, w)
    else process_raw output elog w elog.raw

-- `retval`: -1, or the number of logs that were stored.
pub data Retval : Type 0 where
  minus_one : Retval
  count : ℕ → Retval

unfoldable pub next_retval : Bool → Retval → Retval
next_retval success minus_one = minus_one
next_retval false (count zero) = minus_one
next_retval false (count (suc n)) = count (suc n)
next_retval true (count n) = count (n + 1)

abbrev hidden : Bytes → Bool
hidden [] = false
hidden (c ∷ cs) = c == b'.'

-- The entries that are processed: directories whose name does not begin with a dot and whose path
-- fits.
unfoldable pub is_log : Bytes → Elog → Bool
is_log elog_dir elog =
    not (hidden elog.name) && ltb (length elog_dir + 1 + length elog.name) path_max && elog.is_dir

-- The kernel forgets the log only where the path of its file acknowledge fits and the write
-- succeeds.
unfoldable pub ack_elog : Bytes → Elog → World → World
ack_elog elog_dir elog w =
    if ltb (length elog_dir + 1 + length elog.name + 12) path_max && elog.acks
    then record w { acknowledged = elog.name ∷ w.acknowledged }
    else w

-- One entry of the sysfs directory, a log or not; a log is to be acknowledged, whatever
-- process_elog returned.
pub read_entry : Bool → Bytes → Bytes → Elog → Retval × World → Retval × World
read_entry false elog_dir output elog s = s
read_entry true elog_dir output elog s =
    let r = process_elog elog_dir output elog s.1 in
    (next_retval r.0 s.0, ack_elog elog_dir elog r.1)

-- The loop over the entries.
unfoldable pub find_and_read_elog_events :
    Bytes → Bytes → List Elog → Retval × World → Retval × World
unfolding read_entry
find_and_read_elog_events elog_dir output [] s = s
find_and_read_elog_events elog_dir output (elog ∷ elogs) s =
    find_and_read_elog_events elog_dir output elogs
      (read_entry (is_log elog_dir elog) elog_dir output elog s)

-- How many serviceable and how many informational logs main keeps. The products with 0.2 and 0.8
-- are cut to integers.
pub record Limits : Type 0 where
  pub max_serviceable_logs : ℕ
  pub max_info_logs : ℕ

unfoldable pub limits : ℕ → ℕ → Limits
limits opt_max_logs opt_serviceable =
    if opt_serviceable == 0
    then record { max_serviceable_logs = opt_max_logs / 5; max_info_logs = opt_max_logs * 4 / 5 }
    else record { max_serviceable_logs = opt_serviceable; max_info_logs = opt_max_logs }

abbrev pub rotate_if :
    (List File → List File) → (Bytes → Bool) → Bool → ℕ → ElogType → Directory → Directory
rotate_if alphasort may_remove flag max_logs t dir =
    if flag then rotate_logs alphasort may_remove dir max_logs t else dir

-- One round of the loop in main, up to the extraction of dumps.
unfoldable pub main_round :
    (List File → List File) → (Bytes → Bool) → Limits → Bytes → Bytes → List Elog → World → World
main_round alphasort may_remove max elog_dir output elogs w =
    let start = record w { flags = record { srvc = false; info = false } } in
    let read = (find_and_read_elog_events elog_dir output elogs (count 0, start)).1 in
    let srvc =
      rotate_if alphasort may_remove read.flags.srvc max.max_serviceable_logs serviceable
        read.dir in
    record read {
      dir = rotate_if alphasort may_remove read.flags.info max.max_info_logs informational srvc;
    }
