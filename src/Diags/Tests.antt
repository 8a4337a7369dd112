-- ===== src/Diags/Tests.antt =====
-- Status pages on which the enclosure diagnostics run.
use ppc64_diag.Diags.Status.Composite.{composite_of, composite_status_lem, statuses}
use ppc64_diag.Diags.Status.{Page, composite_status, status_at, svclog_composite_status}
use ppc64_diag.Diags.Status.Reported.{AreUsual, svclog_composite_status-unknown}
use ppc64_diag.Base.{◌≡◌, refl, [], ◌∷◌, none, inl, inr}

-- Five elements of four bytes: good, empty, non-critical, critical, good.
abbrev fans : Page
fans = 1 ∷ 0 ∷ 0 ∷ 0 ∷ 5 ∷ 0 ∷ 0 ∷ 0 ∷ 3 ∷ 0 ∷ 0 ∷ 0 ∷ 2 ∷ 0 ∷ 0 ∷ 0 ∷ 1 ∷ 0 ∷ 0 ∷ 0 ∷ []

-- Unknown, and critical.
abbrev sensors : Page
sensors = 6 ∷ 0 ∷ 0 ∷ 0 ∷ 2 ∷ 0 ∷ 0 ∷ 0 ∷ []

composite_status_lem_example : composite_status fans 0 5 ≡ composite_of (statuses 5 fans 0)
composite_status_lem_example = composite_status_lem fans 0 5

fans-AreUsual : AreUsual (statuses 5 fans 0)
unfolding status_at
fans-AreUsual =
    (inl refl, (inr (inr (inr refl)), (inr (inr (inl refl)), (inr (inl refl), (inl refl, tt)))))

sensors_unknown : status_at sensors 0 ≡ 6
unfolding status_at
sensors_unknown = refl

svclog_composite_status-unknown_example : svclog_composite_status 0 sensors none 2 ≡ none
svclog_composite_status-unknown_example =
    svclog_composite_status-unknown sensors none 0 1 sensors_unknown
