-- ===== src/Diags/Status/Composite.antt =====
-- The composite status against a description by the list of the elements' codes.
use ppc64_diag.Diags.Status.{
  Page, composite_loop, composite_status, es_noncritical, es_not_installed, es_ok, status_at,
  worse_element_status,
}
use ppc64_diag.Base.{
  ℕ, zero, suc, ◌+◌, ◌≡◌, ◌≢◌, refl, arith, ◌==◌, Bool, false, ◌||◌, if◌then◌else◌, List, [], ◌∷◌,
}

-- The codes of `nel` elements.
abbrev pub statuses : ℕ → Page → ℕ → List ℕ
statuses zero page el = []
statuses (suc nel) page el = status_at page el ∷ statuses nel page (el + 4)

-- The first code that is neither unsupported, good, empty nor non-critical, or `default`.
abbrev pub first_serious : ℕ → List ℕ → ℕ
first_serious default [] = default
first_serious default (c ∷ cs) =
    let rest = first_serious default cs in
    if c == 0 || c == es_ok || c == es_not_installed || c == es_noncritical then rest else c

abbrev pub has_code : ℕ → List ℕ → Bool
has_code code [] = false
has_code code (c ∷ cs) = c == code || has_code code cs

-- What the code computes.
abbrev pub composite_of : List ℕ → ℕ
composite_of cs = first_serious (if has_code es_noncritical cs then es_noncritical else es_ok) cs

composite_loop_stays :
    (nel : ℕ) (page : Page) (el s : ℕ)
    → s ≢ es_ok
    → s ≢ es_noncritical
    → composite_loop nel page el s ≡ s
unfolding composite_loop worse_element_status
composite_loop_stays zero page el s h k = refl
composite_loop_stays (suc nel) page el s h k =
    ground (arith, composite_loop_stays nel page (el + 4) s h k)

composite_loop_noncritical :
    (nel : ℕ) (page : Page) (el : ℕ)
    → composite_loop nel page el es_noncritical
      ≡ first_serious es_noncritical (statuses nel page el)
unfolding composite_loop worse_element_status
composite_loop_noncritical zero page el = refl
composite_loop_noncritical (suc nel) page el = ground (
  arith,
  composite_loop_noncritical nel page (el + 4),
  composite_loop_stays nel page (el + 4) (status_at page el),
)

composite_loop_ok :
    (nel : ℕ) (page : Page) (el : ℕ)
    → composite_loop nel page el es_ok ≡ composite_of (statuses nel page el)
unfolding composite_loop worse_element_status
composite_loop_ok zero page el = refl
composite_loop_ok (suc nel) page el = ground (
  arith,
  composite_loop_ok nel page (el + 4),
  composite_loop_noncritical nel page (el + 4),
  composite_loop_stays nel page (el + 4) (status_at page el),
)

-- The composite of some elements is the first of their codes that is neither unsupported, good,
-- empty nor non-critical; if there is none, it is non-critical where one of them is, and good
-- where none is.
pub composite_status_lem :
    (page : Page) (first_element nel : ℕ)
    → composite_status page first_element nel ≡ composite_of (statuses nel page first_element)
unfolding composite_status
composite_status_lem page first_element nel = composite_loop_ok nel page first_element
