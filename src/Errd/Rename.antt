-- ===== src/Errd/Rename.antt =====
-- rename_old_logs of opal_errd.c: files of an older release get the suffix of their type.
use ppc64_diag.Errd.Process.{path_max}
use ppc64_diag.Errd.Classify.{get_elog_type_from_file_data}
use ppc64_diag.Errd.Files.Names.{get_elog_filetype-suffix}
use ppc64_diag.Errd.Files.{
  Directory, ElogType, File, elog_type_str, get_elog_filetype, is_suffixless_elog_filename, remove,
  same_name, select, starts_with,
}
use ppc64_diag.Base.{
  ℕ, ◌+◌, ◌≡◌, arith, sym, ◌∙◌, ap, leb, Bool, not, if◌then◌else◌, List, [], ◌∷◌, ◌++◌, Option,
  some, none, length, inl, inr,
}
use mathlib.Core.List.{append_assoc}
use ppc64_diag.Elog.Memory.{Bytes, ok, Outcome, Outcome-cases, ◌>>=◌}

-- `rename`, which replaces a file of the new name.
unfoldable pub rename : Bytes → Bytes → Directory → Directory
rename old new [] = []
rename old new (f ∷ fs) =
    let rest = rename old new fs in
    if same_name old f.name
    then record f { name = new } ∷ remove new fs
    else if same_name new f.name
    then rest
    else f ∷ rest

-- The new name, where the paths fit and the file has a type.
typed_name : ℕ → Bytes → Option ElogType → Option Bytes
typed_name output_len name none = none
typed_name output_len name (some t) =
    let new = name ++ b'-' ∷ elog_type_str t in
    if leb path_max (output_len + 1 + length new) then none else some new

-- The new name of one file of the list, or none where the loop goes on without renaming it.
unfoldable pub new_name : (Bytes → Bool) → ℕ → File → Outcome (Option Bytes)
unfolding typed_name
new_name may_read output_len f =
    if starts_with (b'.' ∷ []) f.name
    then ok none
    else if leb path_max (output_len + 1 + length f.name)
    then ok none
    else if not (may_read f.name)
    then ok none
    else (do t ← get_elog_type_from_file_data f.data_of; ok (typed_name output_len f.name t))

abbrev renamed : (Bytes → Bool) → Directory → Bytes → Option Bytes → Directory
renamed may_rename dir old none = dir
renamed may_rename dir old (some new) = if may_rename old then rename old new dir else dir

unfoldable pub rename_loop :
    (Bytes → Bool) → (Bytes → Bool) → ℕ → List File → Directory → Outcome Directory
rename_loop may_read may_rename output_len [] dir = ok dir
rename_loop may_read may_rename output_len (f ∷ fs) dir = do
  new ← new_name may_read output_len f
  rename_loop may_read may_rename output_len fs (renamed may_rename dir f.name new)

unfoldable pub rename_old_logs :
    (List File → List File) → (Bytes → Bool) → (Bytes → Bool) → ℕ → Directory → Outcome Directory
rename_old_logs alphasort may_read may_rename output_len dir =
    rename_loop may_read may_rename output_len (alphasort (select is_suffixless_elog_filename dir))
      dir

typed_name-filetype :
    (output_len : ℕ) (name : Bytes) (t : Option ElogType) {new : Bytes}
    → typed_name output_len name t ≡ some new
    → get_elog_filetype new ≡ t
unfolding typed_name
typed_name-filetype output_len name none e = cc
typed_name-filetype output_len name (some t) {new} e =
    let suffixed = name ++ b'-' ∷ elog_type_str t in
    let same : suffixed ≡ new = ground arith in
    ap get_elog_filetype (sym same)
    ∙ ap get_elog_filetype (sym (append_assoc name (b'-' ∷ []) (elog_type_str t)))
    ∙ get_elog_filetype-suffix (name ++ b'-' ∷ []) t

-- The name that an old file is given is one that rotation takes for the type that the file's
-- contents have.
new_name-filetype :
    (may_read : Bytes → Bool) (output_len : ℕ) (f : File) {new : Bytes}
    → new_name may_read output_len f ≡ ok (some new)
    → get_elog_type_from_file_data f.data_of ≡ ok (get_elog_filetype new)
unfolding new_name
new_name-filetype may_read output_len f {new} e =
    elim (Outcome-cases (get_elog_type_from_file_data f.data_of)) [
      | inl (t, k) ↦
          let named : typed_name output_len f.name t ≡ some new = ground arith in
          k ∙ ap ok (sym (typed_name-filetype output_len f.name t named))
      | inr (inl (x, k)) ↦ absurd (ground arith)
      | inr (inr (x, k)) ↦ absurd (ground arith)
    ]
