-- ===== src/Elog/EventLog.antt =====
-- opal-event-log.c: the array of parsed sections, ended by an entry with no id and no section.
-- An entry that malloc returned and nobody wrote is `none`.
pub mod Complete
pub mod Lookup
use ppc64_diag.Base.{
  ℕ, ◌-◌, ltb, ◌==◌, ◌&&◌, not, if◌then◌else◌, Bool, true, false, List, [], ◌∷◌, ◌++◌, Option, none,
  some, length, set, replicate,
}
use ppc64_diag.Elog.Memory.{Bytes, Outcome, ok, fault, over_read, uninitialised}
use ppc64_diag.Elog.Section.Fixed.{MtmsScn, EpScn, MiScn, LrScn}
use ppc64_diag.Elog.Section.Headers.{PrivHdr, UsrHdr}
use ppc64_diag.Elog.Section.Notice.{DhScn, IeScn}
use ppc64_diag.Elog.Section.Partition.{LpScn, EiScn}
use ppc64_diag.Elog.Section.Software.{SwScn}
use ppc64_diag.Elog.Section.Text.{EhScn, ChScn, UdScn, EdScn}
use ppc64_diag.Elog.Src.{SrcScn}

-- What the `void *` of an entry points to.
pub data Section : Type 0 where
  ph : PrivHdr → Section
  uh : UsrHdr → Section
  src : SrcScn → Section
  eh : EhScn → Section
  mt : MtmsScn → Section
  dh : DhScn → Section
  sw : SwScn → Section
  lp : LpScn → Section
  lr : LrScn → Section
  hm : MtmsScn → Section
  ep : EpScn → Section
  ie : IeScn → Section
  mi : MiScn → Section
  ch : ChScn → Section
  ud : UdScn → Section
  ei : EiScn → Section
  ed : EdScn → Section

pub record LogScn : Type 0 where
  pub id : Bytes
  pub scn : Option Section

abbrev pub EventLog : Type 0
EventLog = List (Option LogScn)

abbrev pub nul_id : Bytes
nul_id = 0 ∷ 0 ∷ []

abbrev pub nul_scn : LogScn
nul_scn = record { id = nul_id; scn = none }

-- `malloc` of `n + 1` entries, with the last one set.
unfoldable pub create_opal_event_log : Bool → ℕ → Option EventLog
create_opal_event_log allocated n =
    if allocated then some (replicate n none ++ some nul_scn ∷ []) else none

-- What an entry's write comes to: the new array, -EINVAL, or a write outside the array.
pub data Addition : Type 0 where
  added : EventLog → Addition
  refused : Addition
  overflow : Addition

-- `log` is `none` for a null pointer.
unfoldable pub add_opal_event_log_scn : Option EventLog → Bytes → Option Section → ℕ → Addition
add_opal_event_log_scn none id scn n = refused
add_opal_event_log_scn (some log) id scn n =
    if ltb n (length log)
    then added (set log n (some (record { id = id; scn = scn })))
    else overflow

-- `strncmp(a, b, 2) == 0` for ids of two bytes.
unfoldable pub same_id : Bytes → Bytes → Bool
same_id [] [] = true
same_id (x ∷ xs) (y ∷ ys) = x == y && same_id xs ys
same_id _ _ = false

is_null : Option Section → Bool
is_null none = true
is_null (some s) = false

unfoldable pub has_more_elements : LogScn → Bool
unfolding same_id is_null
has_more_elements entry = not (same_id entry.id nul_id && is_null entry.scn)

-- The walk over the entries from `log[i]` on.
unfoldable pub get_opal_event_log_scn : EventLog → Bytes → ℕ → Outcome (Option Section)
get_opal_event_log_scn [] id n = fault over_read
get_opal_event_log_scn (none ∷ log) id n = fault uninitialised
get_opal_event_log_scn (some entry ∷ log) id n =
    let found = same_id entry.id id in
    let rest = get_opal_event_log_scn log id (if found then n - 1 else n) in
    if has_more_elements entry then (if found && n == 0 then ok entry.scn else rest) else ok none

unfoldable pub get_nth_opal_event_log_scn : EventLog → ℕ → Outcome (Option LogScn)
get_nth_opal_event_log_scn [] n = fault over_read
get_nth_opal_event_log_scn (none ∷ log) n = fault uninitialised
get_nth_opal_event_log_scn (some entry ∷ log) n =
    let rest = get_nth_opal_event_log_scn log (n - 1) in
    if has_more_elements entry then (if n == 0 then ok (some entry) else rest) else ok none
