-- ===== src/Lpd/Location.antt =====
-- The location codes of lpd/indicator.c and lpd/lp_diag.c, without their NUL: the way from a
-- location to the nearest one that has an indicator.
pub mod Nearest
use ppc64_diag.Base.{
  ℕ, zero, suc, ◌==◌, leb, Bool, true, false, not, ◌&&◌, ◌||◌, if◌then◌else◌, List, [], ◌∷◌, Option,
  some, none, length, take, get_or,
}
use ppc64_diag.Errd.Files.{same_name}
use ppc64_diag.Elog.Memory.{Bytes}

abbrev pub location_length : ℕ
location_length = 80

-- An entry of the list of indicators, with the fields that lp_diag and the hooks of RTAS read. The
-- index is none for DYNAMIC_INDICATOR, and the state is none for -1.
pub record LocCode : Type 0 where
  pub code : Bytes
  pub index : Option ℕ
  pub loc_type : ℕ
  pub state : Option ℕ

-- `strchr(code, '-') == NULL`.
unfoldable pub is_enclosure_loc_code : Bytes → Bool
is_enclosure_loc_code [] = true
is_enclosure_loc_code (c ∷ cs) =
    let rest = is_enclosure_loc_code cs in if c == b'-' then false else rest

-- The loop of truncate_loc_code, with `i` one more than the source's index.
unfoldable pub truncate_from : ℕ → Bytes → Option Bytes
truncate_from zero code = none
truncate_from (suc i) code =
    let rest = truncate_from i code in if get_or code i 0 == b'-' then some (take i code) else rest

-- none for a return of 0.
unfoldable pub truncate_loc_code : Bytes → Option Bytes
truncate_loc_code code = truncate_from (length code) code

unfoldable pub get_indicator_for_loc_code : List LocCode → Bytes → Option LocCode
get_indicator_for_loc_code [] location = none
get_indicator_for_loc_code (l ∷ list) location =
    let rest = get_indicator_for_loc_code list location in
    if same_name l.code location then some l else rest

-- What is found: the indicator, the location as it was cut, and whether it was.
pub record Found : Type 0 where
  pub led : LocCode
  pub location : Bytes
  pub truncated : Bool

-- The jumps back to `retry`; the fuel is more than the length of the location.
unfoldable pub retry : ℕ → List LocCode → Bytes → Bool → Option (Option Found)
retry zero list location truncated = none
retry (suc fuel) list location truncated = elim (get_indicator_for_loc_code list location) [
  | some led ↦ some (some record { led = led; location = location; truncated = truncated })
  | none ↦ elim (truncate_loc_code location) [
    | some shorter ↦ retry fuel list shorter true
    | none ↦ some none
  ]
]

-- none where no indicator is found. By `retry_returns` the outer none of `retry` does not come.
unfoldable pub get_fru_indicator : List LocCode → Bytes → Bool → Option Found
get_fru_indicator list location truncated =
    elim (retry (suc (length location)) list location truncated) [
      | some found ↦ found
      | none ↦ none
    ]

unfoldable pub isspace : ℕ → Bool
isspace c = c == b' ' || leb 9 c && leb c 13

unfoldable pub all_space : Bytes → Bool
all_space [] = true
all_space (c ∷ cs) = let rest = all_space cs in if isspace c then rest else false

-- common/utils.c: the trailing white space is cut off.
unfoldable pub trim_trail_space : Bytes → Bytes
unfolding all_space isspace
trim_trail_space [] = []
trim_trail_space (c ∷ cs) =
    let rest = trim_trail_space cs in if all_space (c ∷ cs) then [] else c ∷ rest

-- `strncpy` into an array of LOCATION_LENGTH with its last byte set to NUL.
unfoldable pub copy_location : Bytes → Bytes
copy_location location = take 79 location
