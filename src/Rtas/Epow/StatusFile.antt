-- ===== src/Rtas/Epow/StatusFile.antt =====
-- What the status file holds when rc.powerfail reads it.
use mathlib.Core.List.{append-nil}
use ppc64_diag.Rtas.Epow.{
  Codes, State, check_resolved, decimal, epow_timer_handler, resolved_status,
  update_epow_status_file,
}
use ppc64_diag.Base.{
  ℕ, ◌+◌, ◌≤◌, ◌<◌, ◌≡◌, ◌≢◌, ◌⊎◌, inl, inr, refl, arith, true, some, [], ◌∷◌, length, drop, ◌++◌,
  ap, lt-cases, length-drop, drop_all, ◌∙◌,
}
use ppc64_diag.Elog.Memory.{Bytes}

-- A status that is written with no fewer digits than the file has replaces it; otherwise digits of
-- the old one stay behind it.
update_epow_status_file-status_file :
    (status : ℕ) (s : State)
    → let file = (update_epow_status_file true status s).status_file in
      (length s.status_file ≤ length (decimal status)) × (file ≡ decimal status)
      ⊎ (length (decimal status) < length s.status_file)
        × (rest : Bytes) × (length (decimal status) + length rest ≡ length s.status_file)
        × (file ≡ decimal status ++ rest)
unfolding update_epow_status_file
update_epow_status_file-status_file status s =
    let n = length (decimal status) in
    elim (lt-cases n (length s.status_file)) [
      | inl less ↦
          inr (less, drop n s.status_file, omega (arith, length-drop n s.status_file), refl)
      | inr least ↦ inl (
        least,
        ap (decimal status ++◌) (drop_all n s.status_file least) ∙ append-nil (decimal status),
      )
    ]

-- Let the file hold the two digits of a status such as 10. A signal that finds the problem gone, to
-- a warning of the power, leaves a file of two digits that begins with 9.
epow_timer_handler-stale :
    (codes : Codes) (x y : ℕ) (s : State)
    → s.status_file ≡ x ∷ y ∷ []
    → 0 < s.time_remaining
    → codes.warn_power ≢ codes.reset
    → codes.warn_power ≢ codes.warn_cooling
    → codes.warn_power < codes.system_shutdown
    → (epow_timer_handler codes true (some codes.warn_power) s).status_file ≡ b'9' ∷ y ∷ []
unfolding epow_timer_handler check_resolved resolved_status update_epow_status_file decimal
epow_timer_handler-stale codes x y s e h k l m = ground arith
