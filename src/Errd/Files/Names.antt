-- ===== src/Errd/Files/Names.antt =====
-- The suffix of a name, and looking names up.
use ppc64_diag.Errd.Files.{
  ElogType, elog_type_str, get_elog_filetype, informational, same_name, serviceable,
}
use ppc64_diag.Base.{
  ◌-◌, ◌≡◌, refl, arith, ◌∙◌, ap, true, [], ◌∷◌, ◌++◌, some, length, drop, length-append,
}
use ppc64_diag.Elog.Memory.{Bytes}

pub same_name_refl : (s : Bytes) → same_name s s ≡ true
unfolding same_name
same_name_refl [] = refl
same_name_refl (x ∷ s) = ground (arith, same_name_refl s)

pub same_name_eq : (s t : Bytes) → same_name s t ≡ true → s ≡ t
unfolding same_name
same_name_eq [] [] h = refl
same_name_eq [] (y ∷ t) h = cc
same_name_eq (x ∷ s) [] h = cc
same_name_eq (x ∷ s) (y ∷ t) h = ground (arith, same_name_eq s t)

drop-append_all : (front back : Bytes) → drop (length front) (front ++ back) ≡ back
drop-append_all [] back = refl
drop-append_all (x ∷ front) back = drop-append_all front back

length-elog_type_str : (t : ElogType) → length (elog_type_str t) ≡ 4
unfolding elog_type_str
length-elog_type_str serviceable = refl
length-elog_type_str informational = refl

suffix_of :
    (front : Bytes) (t : ElogType)
    → drop (length (front ++ elog_type_str t) - 4) (front ++ elog_type_str t) ≡ elog_type_str t
suffix_of front t =
    ap (λ n. drop n (front ++ elog_type_str t))
      (omega (arith, length-append front (elog_type_str t), length-elog_type_str t))
    ∙ drop-append_all front (elog_type_str t)

-- A name that ends in the suffix of a type is a name of that type, whatever stands before it.
pub get_elog_filetype-suffix :
    (front : Bytes) (t : ElogType) → get_elog_filetype (front ++ elog_type_str t) ≡ some t
unfolding get_elog_filetype
get_elog_filetype-suffix front serviceable = ground (
  arith,
  suffix_of front serviceable,
  length-append front (elog_type_str serviceable),
  length-elog_type_str serviceable,
)
get_elog_filetype-suffix front informational = ground (
  arith,
  suffix_of front informational,
  length-append front (elog_type_str informational),
  length-elog_type_str informational,
)
