-- ===== src/Lpd/Location/Nearest.antt =====
-- Which indicator is found for a location.
use mathlib.Core.List.{append_assoc, head-eq_of_cons-eq, tail-eq_of_cons-eq}
use ppc64_diag.Base.{
  ℕ, zero, suc, ◌≤◌, ◌<◌, ◌≡◌, ◌⊎◌, inl, inr, refl, sym, ap, subst, ◌∙◌, arith, ◌==◌, Bool, true,
  false, if◌then◌else◌, List, [], ◌∷◌, ◌++◌, Option, some, none, length, Option-cases, Bool-cases,
  length-append,
}
use ppc64_diag.Lpd.Location.{
  Found, LocCode, get_fru_indicator, get_indicator_for_loc_code, is_enclosure_loc_code, retry,
  truncate_from, truncate_loc_code,
}
use ppc64_diag.Elog.Memory.{Bytes}

-- A part of the location from its begin up to a dash, or all of it.
abbrev pub IsAncestor : Bytes → Bytes → Type 0
IsAncestor p code = (p ≡ code) ⊎ (rest : Bytes) × (code ≡ p ++ b'-' ∷ rest)

step : ℕ → Option Bytes → Option Bytes
step c (some p) = some (c ∷ p)
step c none = if c == b'-' then some [] else none

truncate_from_cons :
    (i c : ℕ) (cs : Bytes) → truncate_from (suc i) (c ∷ cs) ≡ step c (truncate_from i cs)
unfolding truncate_from step
truncate_from_cons zero c cs = refl
truncate_from_cons (suc i) c cs = ground (arith, truncate_from_cons i c cs)

truncate_loc_code_cons :
    (c : ℕ) (cs : Bytes) → truncate_loc_code (c ∷ cs) ≡ step c (truncate_loc_code cs)
unfolding truncate_loc_code
truncate_loc_code_cons c cs = truncate_from_cons (length cs) c cs

pub truncate_loc_code_nil : truncate_loc_code [] ≡ none
unfolding truncate_loc_code truncate_from
truncate_loc_code_nil = refl

-- What is cut off begins with the last dash.
truncate_loc_code-cases :
    (code : Bytes)
    → (truncate_loc_code code ≡ none) × (is_enclosure_loc_code code ≡ true)
      ⊎ (p rest : Bytes) × (truncate_loc_code code ≡ some p)
        × (code ≡ p ++ b'-' ∷ rest)
        × (is_enclosure_loc_code rest ≡ true)
unfolding is_enclosure_loc_code step
truncate_loc_code-cases [] = inl (truncate_loc_code_nil, refl)
truncate_loc_code-cases (c ∷ cs) = elim (truncate_loc_code-cases cs) [
  | inl (e, no_dash) ↦ elim (Bool-cases (c == b'-')) [
    | inl dash ↦
        inr
          ([], cs, ground (arith, truncate_loc_code_cons c cs), ap (◌∷ cs) (ground arith), no_dash)
    | inr other ↦ inl (ground (arith, truncate_loc_code_cons c cs), ground arith)
  ]
  | inr (p, rest, e, whole, no_dash) ↦
      inr (c ∷ p, rest, ground (arith, truncate_loc_code_cons c cs), ap (c ∷◌) whole, no_dash)
]

is_enclosure_loc_code_dash : (p rest : Bytes) → is_enclosure_loc_code (p ++ b'-' ∷ rest) ≡ false
unfolding is_enclosure_loc_code
is_enclosure_loc_code_dash [] rest = refl
is_enclosure_loc_code_dash (c ∷ p) rest = ground (arith, is_enclosure_loc_code_dash p rest)

IsAncestor-cons : (p q : Bytes) {x y : ℕ} → x ≡ y → IsAncestor p q → IsAncestor (x ∷ p) (y ∷ q)
IsAncestor-cons p q e (inl h) = inl (ground arith)
IsAncestor-cons p q e (inr (rest, h)) = inr (rest, ground arith)

-- A location has one last dash.
last_dash :
    (p t q rest : Bytes)
    → p ++ b'-' ∷ t ≡ q ++ b'-' ∷ rest
    → is_enclosure_loc_code rest ≡ true
    → IsAncestor p q
last_dash [] t [] rest e h = inl refl
last_dash [] t (y ∷ q) rest e h = inr (q, ap (◌∷ q) (sym (head-eq_of_cons-eq e)))
last_dash (x ∷ p) t [] rest e h =
    absurd (ground (arith, is_enclosure_loc_code_dash p t, tail-eq_of_cons-eq e))
last_dash (x ∷ p) t (y ∷ q) rest e h =
    IsAncestor-cons p q (head-eq_of_cons-eq e) (last_dash p t q rest (tail-eq_of_cons-eq e) h)

IsAncestor-trans : (p q code : Bytes) → IsAncestor p q → IsAncestor q code → IsAncestor p code
IsAncestor-trans p q code (inl e) k = subst (λ x. IsAncestor x code) (sym e) k
IsAncestor-trans p q code (inr (rest, e)) (inl k) = inr (rest, sym k ∙ e)
IsAncestor-trans p q code (inr (rest, e)) (inr (more, k)) = inr (
  rest ++ b'-' ∷ more,
  k ∙ (ap (◌++ (b'-' ∷ more)) e ∙ append_assoc p (b'-' ∷ rest) (b'-' ∷ more)),
)

pub IsAncestor-length : (p code : Bytes) → IsAncestor p code → length p ≤ length code
IsAncestor-length p code (inl e) = ground (arith)
IsAncestor-length p code (inr (rest, e)) = ground (arith, length-append p (b'-' ∷ rest))

truncate_loc_code-shorter :
    (code : Bytes) {p : Bytes} → truncate_loc_code code ≡ some p → length p < length code
truncate_loc_code-shorter code e = elim (truncate_loc_code-cases code) [
  | inl (e', no_dash) ↦ absurd (ground (arith))
  | inr (q, rest, e', whole, no_dash) ↦ ground (arith, length-append q (b'-' ∷ rest))
]

-- An ancestor that is not the location itself is one of what truncate_loc_code leaves.
truncate_loc_code-IsAncestor :
    (p code rest : Bytes)
    → code ≡ p ++ b'-' ∷ rest
    → (q : Bytes) × (truncate_loc_code code ≡ some q) × IsAncestor p q × IsAncestor q code
truncate_loc_code-IsAncestor p code rest e = elim (truncate_loc_code-cases code) [
  | inl (e', no_dash) ↦ absurd (ground (arith, is_enclosure_loc_code_dash p rest))
  | inr (q, more, e', whole, no_dash) ↦
      (q, e', last_dash p rest q more (sym e ∙ whole) no_dash, inr (more, whole))
]

-- The answer is the nearest one: an ancestor with an indicator, and none with one is longer.
IsNearest : List LocCode → Bytes → Bytes → Found → Type 0
IsNearest list location p found =
    IsAncestor found.location location
    × (get_indicator_for_loc_code list found.location ≡ some found.led)
    × (length p ≤ length found.location)

retry-IsNearest :
    (fuel : ℕ) (list : List LocCode) (location p : Bytes) (truncated : Bool) {led : LocCode}
    → length location < fuel
    → IsAncestor p location
    → get_indicator_for_loc_code list p ≡ some led
    → (found : Found) × (retry fuel list location truncated ≡ some (some found))
      × IsNearest list location p found
unfolding retry IsNearest
retry-IsNearest zero list location p truncated h a e = absurd (omega arith)
retry-IsNearest (suc fuel) list location p truncated h a e =
    elim (Option-cases (get_indicator_for_loc_code list location)) [
      | inr (led, here) ↦ (
        record { led = led; location = location; truncated = truncated },
        ground arith,
        (inl refl, here, IsAncestor-length p location a),
      )
      | inl nothing ↦ elim a [
        | inl same ↦ absurd (ground arith)
        | inr (rest, whole) ↦
            let (q, cut, above, below) = truncate_loc_code-IsAncestor p location rest whole in
            let shorter = truncate_loc_code-shorter location cut in
            let (found, e', (above', at, longest)) =
              retry-IsNearest fuel list q p true (omega arith) above e in
            (
              found,
              ground arith,
              (IsAncestor-trans found.location q location above' below, at, longest),
            )
      ]
    ]

-- The jumps end: a fuel above the length of the location is enough.
retry_returns :
    (fuel : ℕ) (list : List LocCode) (location : Bytes) (truncated : Bool)
    → length location < fuel
    → (found : Option Found) × (retry fuel list location truncated ≡ some found)
unfolding retry
retry_returns zero list location truncated h = absurd (omega arith)
retry_returns (suc fuel) list location truncated h =
    elim (Option-cases (get_indicator_for_loc_code list location)) [
      | inr (led, here) ↦
          (some record { led = led; location = location; truncated = truncated }, ground arith)
      | inl nothing ↦ elim (Option-cases (truncate_loc_code location)) [
        | inl e ↦ (none, ground arith)
        | inr (q, e) ↦
            let shorter = truncate_loc_code-shorter location e in
            let (found, e') = retry_returns fuel list q true (omega arith) in (found, ground arith)
      ]
    ]

-- Let some part of the location up to a dash, or all of it, have an indicator. Then
-- get_fru_indicator finds one, with its place in the list, for such a part, and no longer part has
-- one.
pub get_fru_indicator-nearest :
    (list : List LocCode) (location p : Bytes) (truncated : Bool) {led : LocCode}
    → IsAncestor p location
    → get_indicator_for_loc_code list p ≡ some led
    → (found : Found) × (get_fru_indicator list location truncated ≡ some found)
      × IsAncestor found.location location
      × (get_indicator_for_loc_code list found.location ≡ some found.led)
      × (length p ≤ length found.location)
unfolding get_fru_indicator IsNearest
get_fru_indicator-nearest list location p truncated a e =
    let (found, e', (above, at, longest)) =
      retry-IsNearest (suc (length location)) list location p truncated (omega arith) a e in
    (found, ground arith, above, at, longest)

retry_sound :
    (fuel : ℕ) (list : List LocCode) (location : Bytes) (truncated : Bool) {found : Found}
    → retry fuel list location truncated ≡ some (some found)
    → IsAncestor found.location location
      × (get_indicator_for_loc_code list found.location ≡ some found.led)
unfolding retry
retry_sound zero list location truncated e = absurd cc
retry_sound (suc fuel) list location truncated {found} e =
    elim (Option-cases (get_indicator_for_loc_code list location)) [
      | inr (led, here) ↦
          let same : record { led = led; location = location; truncated = truncated } ≡ found =
            ground arith in
          subst
            (λ (f : Found).
              IsAncestor f.location location
              × (get_indicator_for_loc_code list f.location ≡ some f.led))
            same (inl refl, here)
      | inl nothing ↦ elim (truncate_loc_code-cases location) [
        | inl (cut, no_dash) ↦ absurd (ground arith)
        | inr (q, rest, cut, whole, no_dash) ↦
            let (above, at) = retry_sound fuel list q true {found = found} (ground arith) in
            (IsAncestor-trans found.location q location above (inr (rest, whole)), at)
      ]
    ]

pub get_fru_indicator_sound :
    (list : List LocCode) (location : Bytes) (truncated : Bool) {found : Found}
    → get_fru_indicator list location truncated ≡ some found
    → IsAncestor found.location location
      × (get_indicator_for_loc_code list found.location ≡ some found.led)
unfolding get_fru_indicator
get_fru_indicator_sound list location truncated {found} e =
    elim (Option-cases (retry (suc (length location)) list location truncated)) [
      | inl nothing ↦ absurd (ground arith)
      | inr (answer, e') ↦
          retry_sound (suc (length location)) list location truncated {found = found} (ground arith)
    ]
