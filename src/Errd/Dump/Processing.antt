-- ===== src/Errd/Dump/Processing.antt =====
-- process_dump of extract_opal_dump.c. The output directory is the list of its files, newest first,
-- with their contents. A dump is modelled whose name has no '/' and whose paths fit in PATH_MAX:
-- the source tests neither, so that the name of another dump may lead out of the directory, or be
-- cut.
pub mod Left
pub mod Stuck
use ppc64_diag.Errd.Dump.{remove_dump_files}
use ppc64_diag.Errd.Files.{same_name}
use ppc64_diag.Base.{
  ℕ, zero, suc, ◌+◌, ltb, ◌==◌, Bool, true, false, not, ◌&&◌, if◌then◌else◌, List, [], ◌∷◌, ◌++◌,
  Option, some, none, length, drop, take, map,
}
use ppc64_diag.Elog.Memory.{Bytes}

abbrev pub partial_name : Bytes
partial_name =
    b'p' ∷ b'l' ∷ b'a' ∷ b't' ∷ b'f' ∷ b'o' ∷ b'r' ∷ b'm' ∷ b'.' ∷ b'd' ∷ b'u' ∷ b'm' ∷ b'p' ∷ b'i'
    ∷ b'd' ∷ b'.' ∷ b'P' ∷ b'A' ∷ b'R' ∷ b'T' ∷ b'I' ∷ b'A' ∷ b'L' ∷ []

-- strncpy of at most this many bytes, up to a NUL.
unfoldable pub string_of : ℕ → Bytes → Bytes
string_of zero s = []
string_of (suc n) [] = []
string_of (suc n) (c ∷ s) = let rest = string_of n s in if c == 0 then [] else c ∷ rest

-- The name, of at most 47 characters, stands behind 24 bytes of the header.
unfoldable pub dump_get_file_name : Bytes → Bytes
unfolding string_of
dump_get_file_name buf = if ltb (length buf) 72 then partial_name else string_of 47 (drop 24 buf)

pub data Reading : Type 0 where
  read_failed read_all still_reading : Reading

-- The loop over read, with `sz` and the results of the calls to come, none for -1.
unfoldable pub read_loop : ℕ → ℕ → List (Option ℕ) → Reading
read_loop bufsz sz [] = still_reading
read_loop bufsz sz (none ∷ results) = read_failed
read_loop bufsz sz (some readsz ∷ results) =
    let rest = read_loop bufsz (sz + readsz) results in
    if sz + readsz == bufsz then read_all else rest

-- How far the calls behind the open of the new file get.
pub data DumpStorage : Type 0 where
  not_written : ℕ → DumpStorage
  not_synced not_renamed no_directory dump_stored : DumpStorage

abbrev pub Dumps : Type 0
Dumps = List (Bytes × Bytes)

-- A dump with the answers of the kernel: `is_ready` where its path fits, stat, malloc and open
-- succeed, the results of read, the files that unlink removes, and whether a new file can be made.
pub record Dump : Type 0 where
  pub buf : Bytes
  pub is_ready : Bool
  pub reads : List (Option ℕ)
  pub removable : Bytes → Bool
  pub can_create : Bool
  pub storage : DumpStorage

unfoldable pub listed : Bytes → List Bytes → Bool
listed name [] = false
listed name (x ∷ xs) = let rest = listed name xs in if same_name x name then true else rest

unfoldable pub retain : (Bytes → Bool) → Dumps → Dumps
retain keep [] = []
retain keep (f ∷ fs) = let rest = retain keep fs in if keep f.0 then f ∷ rest else rest

-- unlink of the files of a list.
unfoldable pub unlink_all : (Bytes → Bool) → List Bytes → Dumps → Dumps
unfolding retain listed
unlink_all removable names dir = retain (λ n. not (removable n && listed n names)) dir

-- The directory behind remove_dump_files.
unfoldable pub make_room : ℕ → ℕ → (Bytes → Bool) → Bytes → Dumps → Dumps
unfolding unlink_all remove_dump_files
make_room opt_max_dump output_len removable outfname dir =
    let rest = unlink_all removable (outfname ∷ []) dir in
    unlink_all removable (remove_dump_files opt_max_dump output_len outfname (map (λ f. f.0) rest))
      rest

abbrev pub tmp_name : Bytes → Bytes
tmp_name outfname = outfname ++ b'.' ∷ b't' ∷ b'm' ∷ b'p' ∷ []

unfoldable pub rename_new : Bytes → Bytes → Dumps → Dumps
unfolding retain same_name
rename_new outfname contents dir =
    (outfname, contents) ∷ retain (λ n. not (same_name n outfname)) dir

-- From write to rename; the open of the directory decides only the return value.
unfoldable pub store_dump : DumpStorage → (Bytes → Bool) → Bytes → Bytes → Dumps → Bool × Dumps
unfolding rename_new
store_dump (not_written n) removable outfname buf dir =
    if removable (tmp_name outfname)
    then (false, dir)
    else (false, (tmp_name outfname, take n buf) ∷ dir)
store_dump not_synced removable outfname buf dir = (false, (tmp_name outfname, buf) ∷ dir)
store_dump not_renamed removable outfname buf dir = (false, (tmp_name outfname, buf) ∷ dir)
store_dump no_directory removable outfname buf dir = (false, rename_new outfname buf dir)
store_dump dump_stored removable outfname buf dir = (true, rename_new outfname buf dir)

-- Behind the loop over read. O_EXCL refuses a file that is there.
unfoldable pub save_dump : ℕ → ℕ → Dump → Dumps → Bool × Dumps
unfolding dump_get_file_name make_room listed store_dump
save_dump opt_max_dump output_len d dir =
    let outfname = dump_get_file_name d.buf in
    let rest = make_room opt_max_dump output_len d.removable outfname dir in
    if listed (tmp_name outfname) (map (λ f. f.0) rest)
    then (false, rest)
    else if not d.can_create
    then (false, rest)
    else store_dump d.storage d.removable outfname d.buf rest

-- What follows the loop over read; none while it reads.
unfoldable pub behind_read : ℕ → ℕ → Dump → Dumps → Reading → Option (Bool × Dumps)
unfolding save_dump
behind_read opt_max_dump output_len d dir read_failed = some (false, dir)
behind_read opt_max_dump output_len d dir read_all = some (save_dump opt_max_dump output_len d dir)
behind_read opt_max_dump output_len d dir still_reading = none

-- True for a return of 0.
unfoldable pub process_dump : ℕ → ℕ → Dump → Dumps → Option (Bool × Dumps)
unfolding read_loop behind_read
process_dump opt_max_dump output_len d dir =
    if d.is_ready
    then behind_read opt_max_dump output_len d dir (read_loop (length d.buf) 0 d.reads)
    else some (false, dir)
