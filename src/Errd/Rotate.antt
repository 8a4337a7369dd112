-- ===== src/Errd/Rotate.antt =====
-- rotate_logs of opal_errd.c. `alphasort` gives the files that scandir selected in the order in
-- which it returns them, oldest first, or none of them where scandir or chdir fails; `may_remove`
-- says which files the kernel lets go.
pub mod Trim
use ppc64_diag.Errd.Files.{Directory, ElogType, File, is_elog_file, remove, select}
use ppc64_diag.Base.{
  ℕ, zero, suc, ◌+◌, ◌-◌, leb, ltb, ◌==◌, not, Bool, true, false, if◌then◌else◌, List, [], ◌∷◌,
  ◌++◌, Option, some, none, length, map,
}
use ppc64_diag.Elog.Memory.{Bytes}

-- The loop over `filelist`, from `filelist[i]` on: the files that it asks to remove.
unfoldable pub trim_loop : ℕ → ℕ → ℕ → Bool → List File → List File
trim_loop i nfiles max_logs trim [] = []
trim_loop i nfiles max_logs trim (f ∷ fs) =
    let t = if leb (nfiles - max_logs) i then false else trim in
    let rest = trim_loop (i + 1) nfiles max_logs t fs in
    if trim then (if t then f ∷ rest else rest) else rest

unfoldable pub remove_all : (Bytes → Bool) → List File → Directory → Directory
remove_all may_remove [] dir = dir
remove_all may_remove (f ∷ fs) dir =
    remove_all may_remove fs (if may_remove f.name then remove f.name dir else dir)

unfoldable pub rotate_logs :
    (List File → List File) → (Bytes → Bool) → Directory → ℕ → ElogType → Directory
rotate_logs alphasort may_remove dir max_logs t =
    let filelist = alphasort (select (is_elog_file t) dir) in
    remove_all may_remove (trim_loop 0 (length filelist) max_logs true filelist) dir
