-- ===== src/Errd/Rotate/Trim.antt =====
-- Which files a rotation removes.
use Prim.Native.Nat.{min}
use ppc64_diag.Errd.Files.Names.{same_name_eq, same_name_refl}
use ppc64_diag.Errd.Rotate.{trim_loop, remove_all, rotate_logs}
use ppc64_diag.Errd.Files.{
  File, Directory, ElogType, is_elog_file, lookup, remove, same_name, select,
}
use ppc64_diag.Base.{
  ℕ, zero, suc, ◌+◌, ◌-◌, ◌≡◌, refl, arith, Bool, true, false, ◌&&◌, ◌||◌, if◌then◌else◌, List, [],
  ◌∷◌, Option, none, length, take, drop, length-drop,
}
use ppc64_diag.Elog.Memory.{Bytes}

trim_loop_off : (i nfiles max_logs : ℕ) (fs : List File) → trim_loop i nfiles max_logs false fs ≡ []
unfolding trim_loop
trim_loop_off i nfiles max_logs [] = refl
trim_loop_off i nfiles max_logs (f ∷ fs) = ground (arith, trim_loop_off (i + 1) nfiles max_logs fs)

trim_loop-take :
    (k i nfiles max_logs : ℕ) (fs : List File)
    → k ≡ nfiles - max_logs - i
    → trim_loop i nfiles max_logs true fs ≡ take k fs
unfolding trim_loop
trim_loop-take zero i nfiles max_logs [] e = refl
trim_loop-take (suc k) i nfiles max_logs [] e = refl
trim_loop-take zero i nfiles max_logs (f ∷ fs) e =
    ground (arith, trim_loop_off (i + 1) nfiles max_logs fs)
trim_loop-take (suc k) i nfiles max_logs (f ∷ fs) e =
    ground (arith, trim_loop-take k (i + 1) nfiles max_logs fs (omega arith))

-- The loop asks to remove the oldest files, as many as there are too many.
pub trim_loop_lem :
    (max_logs : ℕ) (filelist : List File)
    → trim_loop 0 (length filelist) max_logs true filelist
      ≡ take (length filelist - max_logs) filelist
trim_loop_lem max_logs filelist =
    trim_loop-take (length filelist - max_logs) 0 (length filelist) max_logs filelist (omega arith)

-- A file, unless it is gone.
abbrev pub unless : Bool → Option File → Option File
unless true file = none
unless false file = file

abbrev pub is_named : Bytes → List File → Bool
is_named name [] = false
is_named name (f ∷ fs) = same_name name f.name || is_named name fs

lookup-remove :
    (name other : Bytes) (dir : Directory)
    → lookup name (remove other dir) ≡ unless (same_name name other) (lookup name dir)
unfolding lookup remove
lookup-remove name other [] = ground arith
lookup-remove name other (f ∷ fs) = ground (
  arith,
  lookup-remove name other fs,
  same_name_eq name f.name,
  same_name_eq other f.name,
  same_name_eq name other,
  same_name_refl name,
)

lookup-remove_all :
    (may_remove : Bytes → Bool) (name : Bytes) (fs : List File) (dir : Directory)
    → lookup name (remove_all may_remove fs dir)
      ≡ unless (is_named name fs && may_remove name) (lookup name dir)
unfolding remove_all
lookup-remove_all may_remove name [] dir = refl
lookup-remove_all may_remove name (f ∷ fs) dir = ground (
  arith,
  lookup-remove_all may_remove name fs (if may_remove f.name then remove f.name dir else dir),
  lookup-remove name f.name dir,
  same_name_eq name f.name,
)

-- After a rotation a name is gone from the directory where it is one of the oldest files of the
-- type, as many as there are over the limit, and the kernel lets it go. Under every other name
-- stands what stood there before.
pub rotate_logs_lem :
    (alphasort : List File → List File) (may_remove : Bytes → Bool) (dir : Directory) (max_logs : ℕ)
    (t : ElogType) (name : Bytes)
    → let filelist = alphasort (select (is_elog_file t) dir) in
      lookup name (rotate_logs alphasort may_remove dir max_logs t)
      ≡ unless
          (is_named name (take (length filelist - max_logs) filelist) && may_remove name)
          (lookup name dir)
unfolding rotate_logs
rotate_logs_lem alphasort may_remove dir max_logs t name =
    let filelist = alphasort (select (is_elog_file t) dir) in
    rw (trim_loop_lem max_logs filelist)
      (lookup-remove_all may_remove name (take (length filelist - max_logs) filelist) dir)

-- The files of the type that are not removed are the newest, `max_logs` of them or all.
pub kept_files :
    (max_logs : ℕ) (filelist : List File)
    → length (drop (length filelist - max_logs) filelist) ≡ min (length filelist) max_logs
kept_files max_logs filelist = omega (arith, length-drop (length filelist - max_logs) filelist)
