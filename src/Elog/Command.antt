-- ===== src/Elog/Command.antt =====
-- opal-elog-parse.c: which stored logs the command shows. A file is none where read_elog fails,
-- and else the bytes that it read.
pub mod Shown
use ppc64_diag.Base.{
  ℕ, ◌+◌, ◌*◌, ◌/◌, ltb, ◌==◌, Bool, true, false, not, ◌&&◌, ◌||◌, if◌then◌else◌, has_flag, List,
  [], ◌∷◌, Option, some, none, length,
}
use ppc64_diag.Elog.Parse.{Heap, Parsed, Run, done, parse_opal_event_log}
use ppc64_diag.Elog.Header.{Datetime, parse_opal_datetime, is_esel_header, sizeof_esel_header}
use ppc64_diag.Elog.Memory.{Bytes, Outcome, ok, failed, ◌>>=◌, ◌>>◌, guard, read, u8, u16, u32}

abbrev pub id_offset : ℕ
id_offset = 0x2c

-- What stands in one line of the summary.
pub record Summary : Type 0 where
  pub logid : ℕ
  pub refcode : Bytes
  pub severity : ℕ
  pub commit : Datetime
  pub creator_id : ℕ
  pub plus : Bool

abbrev summary_line : Bool → Summary → Option Summary
summary_line true line = some line
summary_line false line = none

-- The line, unless only serviceable logs are wanted and this is none. Nine bytes of the reference
-- code are copied, although it has eight.
unfoldable pub print_elog_summary : Bytes → ℕ → ℕ → Outcome (Option Summary)
print_elog_summary mem p service_flag = do
  logid ← u32 mem (p + 0x2c)
  refcode ← read mem (p + 0x78) 9
  severity ← u8 mem (p + 0x3a)
  action ← u16 mem (p + 0x42)
  commit ← parse_opal_datetime mem (p + 0x10)
  creator_id ← u8 mem (p + 0x18)
  let plus = has_flag action 0x8000
  ok (
      summary_line (not (service_flag == 1) || plus) (record {
        logid = logid;
        refcode = refcode;
        severity = severity / 16 * 16;
        commit = commit;
        creator_id = creator_id;
        plus = plus;
      }))

unfoldable pub elog_summary : Bytes → ℕ → Outcome (Option Summary)
elog_summary buffer service_flag = do
  guard (not (ltb (length buffer) 128)) failed
  esel ← is_esel_header buffer 0
  print_elog_summary buffer (if esel then sizeof_esel_header else 0) service_flag

-- parse_opal_event reads the log to its end, and returns. Where its reader does not, since it comes
-- to a section at which it never ends or reads what is not there, the command shows nothing more.
unfoldable pub is_returned : Option (Run Parsed) → Bool
is_returned (some (done parsed)) = true
is_returned _ = false

unfoldable pub parse_returns : Heap → Bytes → Bool
parse_returns heap buffer = is_returned (parse_opal_event_log 257 heap buffer (length buffer))

-- A log that is shown or not, and what the loop does with the rest: with `display_all` it goes on
-- where parse_opal_event returns, else `done` ends it at the first log that is shown.
pub show_log : Bool → Bool → Bool → Bytes → Outcome (List Bytes) → Outcome (List Bytes)
show_log returns display_all false buffer rest = rest
show_log true true true buffer rest = do bs ← rest; ok (buffer ∷ bs)
show_log false true true buffer rest = ok (buffer ∷ [])
show_log returns false true buffer rest = ok (buffer ∷ [])

-- The loop of elogdisplayentry, from the value `offset` on: the logs that it gives to
-- parse_opal_event, of which the last may be one for which that does not return. The offset of the
-- id is never set back.
unfoldable pub display_loop : Heap → ℕ → Bool → ℕ → List (Option Bytes) → Outcome (List Bytes)
unfolding show_log
display_loop heap eid display_all offset [] = ok []
display_loop heap eid display_all offset (none ∷ files) =
    display_loop heap eid display_all offset files
display_loop heap eid display_all offset (some buffer ∷ files) =
    let rest = display_loop heap eid display_all offset files in
    let moved = display_loop heap eid display_all (offset + sizeof_esel_header) files in
    if ltb (length buffer) (id_offset + 4) then rest else (do
      esel ← is_esel_header buffer 0
      logid ← u32 buffer (if esel then offset + sizeof_esel_header else offset)
      show_log (parse_returns heap buffer) display_all (display_all || logid == eid) buffer
          (if esel then moved else rest))

unfoldable pub elogdisplayentry : Heap → ℕ → Bool → List (Option Bytes) → Outcome (List Bytes)
elogdisplayentry heap eid display_all files = display_loop heap eid display_all id_offset files
