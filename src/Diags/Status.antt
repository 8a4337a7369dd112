-- ===== src/Diags/Status.antt =====
-- The status codes of enclosure elements, their composite and what is reported of them. A page is
-- the status page that an enclosure returned; an element is the offset of its status byte in it.
pub mod Composite
pub mod Reported
use ppc64_diag.Base.{
  ℕ, zero, suc, ◌+◌, ◌%◌, ltb, ◌==◌, Bool, true, false, not, ◌&&◌, ◌||◌, if◌then◌else◌, List, [],
  ◌∷◌, Option, some, none, get_or,
}

abbrev pub es_unsupported : ℕ
es_unsupported = 0

abbrev pub es_ok : ℕ
es_ok = 1

abbrev pub es_critical : ℕ
es_critical = 2

abbrev pub es_noncritical : ℕ
es_noncritical = 3

abbrev pub es_unrecoverable : ℕ
es_unrecoverable = 4

abbrev pub es_not_installed : ℕ
es_not_installed = 5

abbrev pub es_unknown : ℕ
es_unknown = 6

abbrev pub es_eol : ℕ
es_eol = 9

-- The walk over `valid_codes`; the list ends at its first code from ES_EOL on.
unfoldable pub status_is_valid : ℕ → List ℕ → Bool
status_is_valid sc [] = false
status_is_valid sc (v ∷ vs) =
    let rest = status_is_valid sc vs in
    if ltb v es_eol then (if sc == v then true else rest) else false

unfoldable pub worse_element_status : ℕ → ℕ → ℕ
worse_element_status cur new =
    if new == es_ok || new == es_not_installed
    then cur
    else if (cur == es_ok || cur == es_noncritical) && ltb es_ok new
    then new
    else cur

abbrev pub Page : Type 0
Page = List ℕ

-- The four low bits of the first byte of an element, in either order of bit fields.
unfoldable pub status_at : Page → ℕ → ℕ
status_at page el = get_or page el 0 % 16

-- The loop of composite_status, from the status `s` on.
unfoldable pub composite_loop : ℕ → Page → ℕ → ℕ → ℕ
composite_loop zero page el s = s
composite_loop (suc nel) page el s =
    composite_loop nel page (el + 4) (worse_element_status s (status_at page el))

unfoldable pub composite_status : Page → ℕ → ℕ → ℕ
composite_status page first_element nel = composite_loop nel page first_element es_ok

unfoldable pub status_worsened : ℕ → ℕ → Bool
status_worsened old new = not (worse_element_status old new == old)

-- `prev_dp` is none for a null pointer.
unfoldable pub element_status_reportable : ℕ → Page → Option Page → Bool
element_status_reportable el dp none = true
element_status_reportable el dp (some prev_dp) =
    status_worsened (status_at prev_dp el) (status_at dp el)

-- SL_SEV_ERROR with the text "Critical", and SL_SEV_WARNING with "Non-critical".
pub data Severity : Type 0 where
  sl_sev_error sl_sev_warning : Severity

-- none for a return of 0.
unfoldable pub svclog_status : ℕ → Option Severity
svclog_status sc =
    if sc == es_critical
    then some sl_sev_error
    else if sc == es_noncritical
    then some sl_sev_warning
    else none

unfoldable pub svclog_element_status : ℕ → Page → Option Page → Option Severity
svclog_element_status el dp prev_dp =
    if element_status_reportable el dp prev_dp then svclog_status (status_at dp el) else none

-- The loop of composite_status_reportable.
unfoldable pub any_reportable : ℕ → ℕ → Page → Option Page → Bool
any_reportable zero el dp prev_dp = false
any_reportable (suc nel) el dp prev_dp =
    let rest = any_reportable nel (el + 4) dp prev_dp in
    if element_status_reportable el dp prev_dp then true else rest

unfoldable pub composite_status_reportable : ℕ → Page → Option Page → ℕ → Bool
composite_status_reportable first_element dp none nel = true
composite_status_reportable first_element dp (some prev_dp) nel =
    any_reportable nel first_element dp (some prev_dp)

unfoldable pub svclog_composite_status : ℕ → Page → Option Page → ℕ → Option Severity
svclog_composite_status first_element dp prev_dp nel =
    if composite_status_reportable first_element dp prev_dp nel
    then svclog_status (composite_status dp first_element nel)
    else none
