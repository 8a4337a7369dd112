-- ===== src/Elog/EventLog/Complete.antt =====
-- An array of parsed sections that nobody will read past its end.
use ppc64_diag.Base.{◌≡◌, Option, none, some, [], ◌∷◌}
use ppc64_diag.Elog.EventLog.{EventLog, LogScn, nul_scn}

abbrev pub IsWritten : Option LogScn → Type 0
IsWritten none = ⊥
IsWritten (some entry) = Unit

-- Every entry has been written and the terminator is the last one.
abbrev pub Complete : EventLog → Type 0
Complete [] = ⊥
Complete (x ∷ []) = x ≡ some nul_scn
Complete (x ∷ y ∷ log) = IsWritten x × Complete (y ∷ log)
