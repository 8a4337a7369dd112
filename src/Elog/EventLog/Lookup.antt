-- ===== src/Elog/EventLog/Lookup.antt =====
-- The two walks over the array of parsed sections, against the list of the sections that it holds.
use ppc64_diag.Base.{
  ℕ, zero, suc, ◌≡◌, refl, arith, Option, some, none, List, [], ◌∷◌, false, get_elem?,
  if◌then◌else◌,
}
use ppc64_diag.Elog.EventLog.{
  EventLog, LogScn, Section, nul_scn, has_more_elements, same_id, get_opal_event_log_scn,
  get_nth_opal_event_log_scn,
}
use ppc64_diag.Elog.Memory.{Bytes, ok}
use ppc64_diag.Elog.EventLog.Complete.{Complete}

-- The entries before the first terminator.
abbrev pub entries : EventLog → List LogScn
entries [] = []
entries (none ∷ log) = []
entries (some entry ∷ log) =
    let rest = entries log in if has_more_elements entry then entry ∷ rest else []

-- Those with an id.
abbrev pub with_id : Bytes → List LogScn → List LogScn
with_id id [] = []
with_id id (e ∷ es) = let rest = with_id id es in if same_id e.id id then e ∷ rest else rest

abbrev pub scn_of : Option LogScn → Option Section
scn_of none = none
scn_of (some entry) = entry.scn

nul_ends : has_more_elements nul_scn ≡ false
unfolding has_more_elements
nul_ends = refl

-- In a complete array the walk for the n-th entry ends inside the array, and returns the n-th
-- entry before the terminator, or nothing.
get_nth_opal_event_log_scn_lem :
    (log : EventLog) (n : ℕ)
    → Complete log
    → get_nth_opal_event_log_scn log n ≡ ok (get_elem? (entries log) n)
unfolding get_nth_opal_event_log_scn
get_nth_opal_event_log_scn_lem [] n c = absurd c
get_nth_opal_event_log_scn_lem (none ∷ []) n c = cc
get_nth_opal_event_log_scn_lem (some x ∷ []) n c = ground (arith, nul_ends)
get_nth_opal_event_log_scn_lem (none ∷ y ∷ log) n c = absurd c.0
get_nth_opal_event_log_scn_lem (some x ∷ y ∷ log) zero c = ground arith
get_nth_opal_event_log_scn_lem (some x ∷ y ∷ log) (suc n) c =
    ground (arith, get_nth_opal_event_log_scn_lem (y ∷ log) n c.1)

-- In a complete array the walk for the n-th section with an id ends inside the array, and returns
-- the n-th section of that id before the terminator, or nothing.
pub get_opal_event_log_scn_lem :
    (log : EventLog) (id : Bytes) (n : ℕ)
    → Complete log
    → get_opal_event_log_scn log id n ≡ ok (scn_of (get_elem? (with_id id (entries log)) n))
unfolding get_opal_event_log_scn
get_opal_event_log_scn_lem [] id n c = absurd c
get_opal_event_log_scn_lem (none ∷ []) id n c = cc
get_opal_event_log_scn_lem (some x ∷ []) id n c = ground (arith, nul_ends)
get_opal_event_log_scn_lem (none ∷ y ∷ log) id n c = absurd c.0
get_opal_event_log_scn_lem (some x ∷ y ∷ log) id zero c =
    ground (arith, get_opal_event_log_scn_lem (y ∷ log) id zero c.1)
get_opal_event_log_scn_lem (some x ∷ y ∷ log) id (suc n) c = ground (
  arith,
  get_opal_event_log_scn_lem (y ∷ log) id n c.1,
  get_opal_event_log_scn_lem (y ∷ log) id (suc n) c.1,
)
