-- ===== src/Elog/Parse/Unknown.antt =====
-- Sections that the loop cannot pass: one with an id that is not in the table, and one that the
-- file cuts off.
use ppc64_diag.Base.{ℕ, ◌+◌, ◌-◌, ◌≤◌, ◌≡◌, arith, none, length}
use ppc64_diag.Elog.Header.{V6Hdr, parse_section_header}
use ppc64_diag.Elog.Memory.{Bytes, ok, read}
use ppc64_diag.Elog.Parse.{
  Heap, ParseState, again, parse_turn, done, initial, skip_esel_header, parse_opal_event_log,
}
use ppc64_diag.Elog.Parse.Termination.{here}
use ppc64_diag.Elog.Parse.Total.{parse_opal_event_log-Stuck}
use ppc64_diag.Elog.Table.{header_id_lookup, header_order}

-- A round changes nothing exactly where the section's id is not in the table and its bytes are
-- there to be printed.
pub parse_turn_again :
    (heap : Heap) (mem : Bytes) (buflen : ℕ) (s : ParseState) (hdr : V6Hdr)
    → parse_section_header mem s.buf buflen ≡ ok hdr
    → header_id_lookup s.table hdr.id ≡ none
    → s.buf + 8 + (hdr.length - 8) ≤ length mem
    → parse_turn heap mem buflen s ≡ done again
unfolding parse_turn read
parse_turn_again heap mem buflen s hdr e unknown h = ground arith

-- A log whose first section has an unknown id, and is all there, is never parsed to an end: the
-- function does not return, whatever the fuel.
pub parse_opal_event_log_unknown :
    (fuel : ℕ) (heap : Heap) (mem : Bytes) (buflen : ℕ) {buf : ℕ} {hdr : V6Hdr}
    → skip_esel_header mem ≡ ok buf
    → parse_section_header mem buf buflen ≡ ok hdr
    → header_id_lookup header_order hdr.id ≡ none
    → buf + 8 + (hdr.length - 8) ≤ length mem
    → parse_opal_event_log fuel heap mem buflen ≡ none
unfolding parse_section_header
parse_opal_event_log_unknown fuel heap mem buflen {buf} {hdr} e p unknown h =
    parse_opal_event_log-Stuck fuel heap mem buflen (ground arith) e
      (here (parse_turn_again heap mem buflen (initial buf) hdr p unknown h))
