-- ===== src/Errd/Files.antt =====
-- The files of opal_errd.c and what their names say. A name is the list of its characters, without
-- the NUL.
pub mod Names
use ppc64_diag.Base.{
  ℕ, ◌-◌, ◌==◌, ltb, Bool, true, false, not, ◌&&◌, if◌then◌else◌, List, [], ◌∷◌, ◌++◌, Option, some,
  none, length, drop,
}
use ppc64_diag.Elog.Memory.{Bytes}

-- The type of a log; there is none for OPAL_ELOG_INVALID.
pub data ElogType : Type 0 where
  informational serviceable : ElogType

-- ELOG_TYPE_STR: the two suffixes.
unfoldable pub elog_type_str : ElogType → Bytes
elog_type_str serviceable = b's' ∷ b'r' ∷ b'v' ∷ b'c' ∷ []
elog_type_str informational = b'i' ∷ b'n' ∷ b'f' ∷ b'o' ∷ []

-- `strcmp(a, b) == 0`.
unfoldable pub same_name : Bytes → Bytes → Bool
same_name [] [] = true
same_name (x ∷ xs) (y ∷ ys) = x == y && same_name xs ys
same_name _ _ = false

unfoldable pub starts_with : Bytes → Bytes → Bool
starts_with [] s = true
starts_with (c ∷ cs) [] = false
starts_with (c ∷ cs) (d ∷ s) = c == d && starts_with cs s

-- `strstr(s, part) != NULL`.
unfoldable pub contains : Bytes → Bytes → Bool
unfolding starts_with
contains part [] = starts_with part []
contains part (c ∷ s) =
    let rest = contains part s in if starts_with part (c ∷ s) then true else rest

-- What readdir and stat say of an entry.
pub data DType : Type 0 where
  dt_dir dt_reg dt_unknown dt_other : DType

pub record File : Type 0 where
  pub name : Bytes
  pub data_of : Bytes
  pub d_type : DType
  pub stat_is_dir : Option Bool  -- none where stat fails

abbrev stat_regular : DType → Option Bool → Bool
stat_regular d none = false
stat_regular d (some true) = false
stat_regular dt_unknown (some false) = true
stat_regular d (some false) = false

unfoldable pub is_regular_file : File → Bool
is_regular_file f = elim (f.d_type) [
  | dt_dir ↦ false
  | dt_reg ↦ true
  | d ↦ stat_regular d f.stat_is_dir
]

unfoldable pub get_elog_filetype : Bytes → Option ElogType
unfolding same_name elog_type_str
get_elog_filetype name =
    let suffix = drop (length name - 4) name in
    if ltb (length name) 4
    then none
    else if same_name suffix (elog_type_str serviceable)
    then some serviceable
    else if same_name suffix (elog_type_str informational)
    then some informational
    else none

is_type : ElogType → Option ElogType → Bool
is_type t none = false
is_type serviceable (some serviceable) = true
is_type informational (some informational) = true
is_type t (some u) = false

-- is_serviceable_elog_file and is_informational_elog_file.
unfoldable pub is_elog_file : ElogType → File → Bool
unfolding is_type
is_elog_file t f = is_regular_file f && is_type t (get_elog_filetype f.name)

abbrev is_invalid : Option ElogType → Bool
is_invalid none = true
is_invalid (some t) = false

unfoldable pub is_suffixless_elog_filename : File → Bool
is_suffixless_elog_filename f =
    contains (b'-' ∷ b'0' ∷ b'x' ∷ []) f.name
    && is_regular_file f
    && is_invalid (get_elog_filetype f.name)

-- A directory, whose entries have different names.
abbrev pub Directory : Type 0
Directory = List File

unfoldable pub lookup : Bytes → Directory → Option File
lookup name [] = none
lookup name (f ∷ fs) = let rest = lookup name fs in if same_name name f.name then some f else rest

-- `remove`, where it succeeds.
unfoldable pub remove : Bytes → Directory → Directory
remove name [] = []
remove name (f ∷ fs) = let rest = remove name fs in if same_name name f.name then rest else f ∷ rest

-- `scandir` before it sorts.
unfoldable pub select : (File → Bool) → Directory → List File
select keep [] = []
select keep (f ∷ fs) = let rest = select keep fs in if keep f then f ∷ rest else rest
