-- ===== src/Errd/Dump/Retention.antt =====
-- Which old dumps are removed.
use ppc64_diag.Errd.Dump.{is_same_type, path_fits, remove_dump_files, remove_loop}
use ppc64_diag.Base.{ℕ, zero, suc, ◌+◌, ◌-◌, ◌≡◌, refl, arith, if◌then◌else◌, List, [], ◌∷◌, drop}
use ppc64_diag.Elog.Memory.{Bytes}

abbrev pub of_type : Bytes → List Bytes → List Bytes
of_type dumpname [] = []
of_type dumpname (name ∷ names) =
    let rest = of_type dumpname names in if is_same_type dumpname name then name ∷ rest else rest

abbrev pub with_path : ℕ → List Bytes → List Bytes
with_path output_len [] = []
with_path output_len (name ∷ names) =
    let rest = with_path output_len names in if path_fits output_len name then name ∷ rest else rest

remove_loop-drop :
    (k opt_max_dump output_len count : ℕ) (dumpname : Bytes) (names : List Bytes)
    → k ≡ opt_max_dump - 1 - count
    → remove_loop opt_max_dump output_len dumpname count names
      ≡ with_path output_len (drop k (of_type dumpname names))
unfolding remove_loop
remove_loop-drop zero opt_max_dump output_len count dumpname [] e = refl
remove_loop-drop (suc k) opt_max_dump output_len count dumpname [] e = refl
remove_loop-drop zero opt_max_dump output_len count dumpname (name ∷ names) e = ground (
  arith,
  remove_loop-drop zero opt_max_dump output_len count dumpname names e,
  remove_loop-drop zero opt_max_dump output_len (count + 1) dumpname names (omega arith),
)
remove_loop-drop (suc k) opt_max_dump output_len count dumpname (name ∷ names) e = ground (
  arith,
  remove_loop-drop (suc k) opt_max_dump output_len count dumpname names e,
  remove_loop-drop k opt_max_dump output_len (count + 1) dumpname names (omega arith),
)

-- Of the dumps of the new one's type, newest first, all but the first `opt_max_dump - 1` are
-- removed, where their path fits, and nothing else is.
pub remove_dump_files_lem :
    (opt_max_dump output_len : ℕ) (dumpname : Bytes) (namelist : List Bytes)
    → remove_dump_files opt_max_dump output_len dumpname namelist
      ≡ with_path output_len (drop (opt_max_dump - 1) (of_type dumpname namelist))
unfolding remove_dump_files
remove_dump_files_lem opt_max_dump output_len dumpname namelist =
    remove_loop-drop (opt_max_dump - 1) opt_max_dump output_len 0 dumpname namelist (omega arith)
