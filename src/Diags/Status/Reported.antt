-- ===== src/Diags/Status/Reported.antt =====
-- What is reported of a group of elements.
use ppc64_diag.Diags.Status.Composite.{composite_status_lem, first_serious, has_code, statuses}
use ppc64_diag.Diags.Status.{
  Page, Severity, any_reportable, composite_status_reportable, element_status_reportable,
  es_critical, es_noncritical, es_not_installed, es_ok, es_unknown, sl_sev_error, sl_sev_warning,
  status_at, status_worsened, svclog_composite_status, svclog_element_status, svclog_status,
  worse_element_status,
}
use mathlib.Core.List.{head-eq_of_cons-eq, tail-eq_of_cons-eq}
use ppc64_diag.Base.{
  ℕ, zero, suc, ◌+◌, ◌≡◌, ◌⊎◌, refl, arith, false, if◌then◌else◌, List, [], ◌∷◌, Option, some, none,
}

-- The codes that the enclosures' documents call valid for most elements: good, critical,
-- non-critical and empty.
abbrev pub AreUsual : List ℕ → Type 0
AreUsual [] = Unit
AreUsual (c ∷ cs) =
    ((c ≡ es_ok) ⊎ (c ≡ es_critical) ⊎ (c ≡ es_noncritical) ⊎ (c ≡ es_not_installed)) × AreUsual cs

-- The severity that such codes have together.
abbrev pub severity_of : List ℕ → Option Severity
severity_of cs =
    if has_code es_critical cs
    then some sl_sev_error
    else if has_code es_noncritical cs
    then some sl_sev_warning
    else none

first_serious-usual :
    (default : ℕ) (cs : List ℕ)
    → AreUsual cs
    → first_serious default cs ≡ (if has_code es_critical cs then es_critical else default)
first_serious-usual default [] u = refl
first_serious-usual default (c ∷ cs) u = ground (arith, first_serious-usual default cs u.1)

-- Let the elements have usual codes, and let there be no earlier page. The group is reported as an
-- error where one of them is critical, else as a warning where one is non-critical, and else not.
svclog_composite_status-usual :
    (page : Page) (first_element nel : ℕ)
    → AreUsual (statuses nel page first_element)
    → svclog_composite_status first_element page none nel
      ≡ severity_of (statuses nel page first_element)
unfolding svclog_composite_status composite_status_reportable svclog_status
svclog_composite_status-usual page first_element nel u = ground (
  arith,
  composite_status_lem page first_element nel,
  first_serious-usual es_ok (statuses nel page first_element) u,
  first_serious-usual es_noncritical (statuses nel page first_element) u,
)

-- Let the first element of a group be unknown. Whatever the others are, critical ones among them,
-- nothing of the group is reported.
pub svclog_composite_status-unknown :
    (page : Page) (prev_dp : Option Page) (first_element nel : ℕ)
    → status_at page first_element ≡ es_unknown
    → svclog_composite_status first_element page prev_dp (suc nel) ≡ none
unfolding svclog_composite_status svclog_status
svclog_composite_status-unknown page prev_dp first_element nel e =
    ground (arith, composite_status_lem page first_element (suc nel))

-- An element whose status has not changed since the earlier page is not reported again.
pub svclog_element_status-unchanged :
    (el : ℕ) (dp prev_dp : Page)
    → status_at prev_dp el ≡ status_at dp el
    → svclog_element_status el dp (some prev_dp) ≡ none
unfolding svclog_element_status element_status_reportable status_worsened worse_element_status
svclog_element_status-unchanged el dp prev_dp e = ground arith

any_reportable-unchanged :
    (n el : ℕ) (dp prev_dp : Page)
    → statuses n prev_dp el ≡ statuses n dp el
    → any_reportable n el dp (some prev_dp) ≡ false
unfolding any_reportable element_status_reportable status_worsened worse_element_status
any_reportable-unchanged zero el dp prev_dp e = refl
any_reportable-unchanged (suc n) el dp prev_dp e = ground (
  arith,
  any_reportable-unchanged n (el + 4) dp prev_dp (tail-eq_of_cons-eq e),
  head-eq_of_cons-eq e,
)

-- A group of which no element has changed since the earlier page is not reported again.
svclog_composite_status-unchanged :
    (first_element : ℕ) (dp prev_dp : Page) (nel : ℕ)
    → statuses nel prev_dp first_element ≡ statuses nel dp first_element
    → svclog_composite_status first_element dp (some prev_dp) nel ≡ none
unfolding svclog_composite_status composite_status_reportable
svclog_composite_status-unchanged first_element dp prev_dp nel e =
    rw (any_reportable-unchanged nel first_element dp prev_dp e) refl
