-- ===== src/Errd/Dump.antt =====
-- extract_opal_dump.c: the name of a new dump, and the old dumps that make room for it.
pub mod Retention
pub mod Processing
use ppc64_diag.Errd.Files.{starts_with}
use ppc64_diag.Errd.Process.{path_max}
use ppc64_diag.Base.{
  ℕ, zero, suc, ◌+◌, ltb, leb, ◌==◌, Bool, true, false, not, ◌&&◌, if◌then◌else◌, List, [], ◌∷◌,
  length,
}
use ppc64_diag.Elog.Memory.{Bytes}

abbrev pub dump_type_len : ℕ
dump_type_len = 7

-- `strncmp(a, b, n) == 0`, on strings without their NUL.
unfoldable pub same_prefix : ℕ → Bytes → Bytes → Bool
same_prefix zero a b = true
same_prefix (suc n) [] [] = true
same_prefix (suc n) (x ∷ a) (y ∷ b) = x == y && same_prefix n a b
same_prefix (suc n) _ _ = false

-- A dump of the same type as the new one.
unfoldable pub is_same_type : Bytes → Bytes → Bool
is_same_type dumpname name =
    not (starts_with (b'.' ∷ []) name) && same_prefix dump_type_len dumpname name

unfoldable pub path_fits : ℕ → Bytes → Bool
path_fits output_len name = ltb (output_len + 1 + length name) path_max

-- The loop over `namelist`, newest first, with the value of `count`: the names that are unlinked.
unfoldable pub remove_loop : ℕ → ℕ → Bytes → ℕ → List Bytes → List Bytes
remove_loop opt_max_dump output_len dumpname count [] = []
remove_loop opt_max_dump output_len dumpname count (name ∷ names) =
    let other = remove_loop opt_max_dump output_len dumpname count names in
    let rest = remove_loop opt_max_dump output_len dumpname (count + 1) names in
    if not (is_same_type dumpname name)
    then other
    else if not (path_fits output_len name)
    then rest
    else if ltb (count + 1) opt_max_dump
    then rest
    else name ∷ rest

-- `namelist` is what scandir lists after check_dup_dump_file has removed a file of the new name.
unfoldable pub remove_dump_files : ℕ → ℕ → Bytes → List Bytes → List Bytes
remove_dump_files opt_max_dump output_len dumpname namelist =
    remove_loop opt_max_dump output_len dumpname 0 namelist
