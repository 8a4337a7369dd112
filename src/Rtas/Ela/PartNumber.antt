-- ===== src/Rtas/Ela/PartNumber.antt =====
-- diag_get_fru_pn of rtas_errd/diag_support.c. `vpd` is the part number that lsvpd lists for a
-- location, where it lists one.
use mathlib.Core.List.{reverse}
use ppc64_diag.Base.{◌==◌, leb, Bool, true, false, ◌&&◌, ◌||◌, if◌then◌else◌, [], ◌∷◌, Option}
use ppc64_diag.Elog.Memory.{Bytes}

-- From behind a slash back to a 'P', over digits and dots.
unfoldable pub behind_planar : Bytes → Bool
behind_planar [] = false
behind_planar (c ∷ s) =
    let rest = behind_planar s in
    if c == b'P' then true else if c == b'.' || leb b'0' c && leb c b'9' then rest else false

-- From the end; the first character is not looked at.
unfoldable pub integrated_from : Bytes → Bool
unfolding behind_planar
integrated_from [] = false
integrated_from (c ∷ []) = false
integrated_from (c ∷ d ∷ s) =
    let rest = integrated_from (d ∷ s) in
    if c == b'/' then behind_planar (d ∷ s) else (if c == b'-' then false else rest)

unfoldable pub is_integrated : Bytes → Bool
unfolding integrated_from
is_integrated phy_loc = integrated_from (reverse phy_loc)

unfoldable pub get_base_loc : Bytes → Bytes
get_base_loc [] = []
get_base_loc (c ∷ s) = let rest = get_base_loc s in if c == b'/' then [] else c ∷ rest

unfoldable pub diag_get_fru_pn : (Bytes → Option Bytes) → Bytes → Option Bytes
unfolding is_integrated get_base_loc
diag_get_fru_pn vpd phyloc = if is_integrated phyloc then vpd (get_base_loc phyloc) else vpd phyloc
