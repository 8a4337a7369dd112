-- ===== src/Elog/Parse/Total.antt =====
-- What parse_opal_event_log returns.
use ppc64_diag.Base.{ℕ, ◌<◌, ◌≡◌, refl, arith, Option, some, none, ◌==◌, false}
use ppc64_diag.Elog.EventLog.Complete.{Complete}
use ppc64_diag.Elog.EventLog.{EventLog}
use ppc64_diag.Elog.Memory.{Bytes, ok}
use ppc64_diag.Elog.Parse.{
  Heap, Parsed, parse_from, parse_opal_event_log, initial, skip_esel_header,
}
use ppc64_diag.Elog.Parse.Room.{Inv}
use ppc64_diag.Elog.Parse.Termination.{Stuck, parse_loop-Stuck}
use ppc64_diag.Elog.Table.{header_order}

abbrev pub LogComplete : Option EventLog → Type 0
LogComplete none = Unit
LogComplete (some log) = Complete log

-- What is returned through `r_log`.
abbrev pub ParsedComplete : Parsed → Type 0
ParsedComplete p = LogComplete p.r_log

pub initial-Inv : (buf : ℕ) → Inv (initial buf)
unfolding header_order
initial-Inv buf = record { ph_first = ground arith; sections = (refl, refl) }

-- Let the log not be empty, and let the loop come to a section at which it never ends. Then the
-- function does not return, whatever the fuel.
pub parse_opal_event_log-Stuck :
    (fuel : ℕ) (heap : Heap) (mem : Bytes) (buflen : ℕ) {buf : ℕ}
    → 0 < buflen
    → skip_esel_header mem ≡ ok buf
    → Stuck heap mem buflen (initial buf)
    → parse_opal_event_log fuel heap mem buflen ≡ none
unfolding parse_opal_event_log parse_from
parse_opal_event_log-Stuck fuel heap mem buflen h e k =
    let some_left : (buflen == 0) ≡ false = ground arith in
    rw (e, parse_opal_event_log)
      (rw (some_left, parse_from) (rw (parse_loop-Stuck fuel heap mem buflen k)))
