-- ===== src/Elog/Parse.antt =====
-- opal_errd/opal-elog-parse: parse_opal_event_log of parse-opal-event.c. The pointer `buf` moves
-- from section to section; `buflen` stays what the caller gave.
pub mod Termination
pub mod Invariant
pub mod Room
pub mod Total
pub mod Unknown
use ppc64_diag.Base.{
  zero, ℕ, ◌+◌, ◌-◌, Bool, ◌==◌, if◌then◌else◌, List, [], ◌∷◌, Option, none, some, suc, false,
}
use ppc64_diag.Elog.EventLog.{
  added, refused, overflow, Section, create_opal_event_log, add_opal_event_log_scn, same_id,
  EventLog, nul_id,
}
use mathlib.Core.Option
use ppc64_diag.Elog.Header.{V6Hdr, parse_section_header, is_esel_header, sizeof_esel_header}
use ppc64_diag.Elog.Memory.{
  Fault, Bytes, Errno, einval, enomem, failed, uninitialised, Outcome, ok, error, fault, ◌>>=◌,
  ◌>>◌, read,
}
use ppc64_diag.Elog.Section.Fixed.{
  parse_mtms_scn, parse_hm_scn, parse_ep_scn, parse_mi_scn, parse_lr_scn,
}
use ppc64_diag.Elog.Section.Headers.{PrivHdr, parse_priv_hdr_scn, parse_usr_hdr_scn, is_error_of}
use ppc64_diag.Elog.Section.Notice.{parse_dh_scn, parse_ie_scn}
use ppc64_diag.Elog.Section.Partition.{parse_lp_scn, parse_ei_scn}
use ppc64_diag.Elog.Section.Software.{parse_sw_scn}
use ppc64_diag.Elog.Section.Text.{parse_eh_scn, parse_ch_scn, parse_ud_scn, parse_ed_scn}
use ppc64_diag.Elog.Src.{parse_src_scn}
use ppc64_diag.Elog.Table.{
  HeaderId, header_id_lookup, note_section, out_of_order, some_missing, header_order,
}

-- A part of the function ends with a value, with a fault of a section parser or of the loop itself,
-- or with a write outside the array of parsed sections.
pub data Run (A : Type 0) : Type 0 where
  done : A → Run A
  crash : Fault → Run A
  log_overflow : Run A

abbrev pub then_run : {A B : Type 0} → Run A → (A → Run B) → Run B
then_run (done a) f = f a
then_run (crash x) f = crash x
then_run log_overflow f = log_overflow

-- Which calls of malloc succeed, and the word that malloc leaves in a new DH section: `section n`
-- is the call for the n-th section, `log` that for the array of sections.
pub record Heap : Type 0 where
  pub section : ℕ → Bool
  pub log : Bool
  pub word : ℕ

pub record ParseState : Type 0 where
  pub buf : ℕ
  pub table : List HeaderId
  pub nrsections : ℕ
  pub is_error : Bool
  pub ph : Option PrivHdr
  pub log : Option EventLog
  pub log_pos : ℕ

-- How one round of the loop ends: `continue` with nothing changed, on to the next section, out of
-- the loop by `break` with the value of `rc`, or out of the function by `return`.
pub data Turn : Type 0 where
  again : Turn
  next : ParseState → Turn
  break_with : Option Errno → ParseState → Turn
  return_with : Errno → Turn

abbrev pub ph_id : Bytes
ph_id = b'P' ∷ b'H' ∷ []

abbrev wrap : {A : Type 0} → (A → Section) → Outcome A → Outcome Section
wrap c m = m >>= λ a. ok (c a)

-- The chain of `else if`s behind the private header.
unfoldable pub parse_scn : Heap → ℕ → V6Hdr → Bytes → ℕ → ℕ → Outcome (Option Section)
parse_scn heap n hdr mem p buflen =
    let allocated = heap.section n in
    let is = λ (a : ℕ) (b : ℕ). same_id hdr.id (a ∷ b ∷ []) in
    let keep = λ (m : Outcome Section). m >>= λ s. ok (some s) in
    if is b'U' b'H'
    then keep (wrap Section.uh (parse_usr_hdr_scn allocated hdr mem p buflen))
    else if is b'P' b'S'
    then keep (wrap Section.src (parse_src_scn allocated hdr mem p buflen))
    else if is b'E' b'H'
    then keep (wrap Section.eh (parse_eh_scn allocated hdr mem p buflen))
    else if is b'M' b'T'
    then keep (wrap Section.mt (parse_mtms_scn allocated hdr mem p buflen))
    else if is b'S' b'S'
    then keep (wrap Section.src (parse_src_scn allocated hdr mem p buflen))
    else if is b'D' b'H'
    then keep (wrap Section.dh (parse_dh_scn allocated heap.word hdr mem p buflen))
    else if is b'S' b'W'
    then keep (wrap Section.sw (parse_sw_scn allocated hdr mem p buflen))
    else if is b'L' b'P'
    then keep (wrap Section.lp (parse_lp_scn allocated hdr mem p buflen))
    else if is b'L' b'R'
    then keep (wrap Section.lr (parse_lr_scn allocated hdr mem p buflen))
    else if is b'H' b'M'
    then keep (wrap Section.hm (parse_hm_scn allocated hdr mem p buflen))
    else if is b'E' b'P'
    then keep (wrap Section.ep (parse_ep_scn allocated hdr mem p buflen))
    else if is b'I' b'E'
    then keep (wrap Section.ie (parse_ie_scn allocated hdr mem p buflen))
    else if is b'M' b'I'
    then keep (wrap Section.mi (parse_mi_scn allocated hdr mem p buflen))
    else if is b'C' b'H'
    then keep (wrap Section.ch (parse_ch_scn allocated hdr mem p buflen))
    else if is b'U' b'D'
    then keep (wrap Section.ud (parse_ud_scn allocated hdr mem p buflen))
    else if is b'E' b'I'
    then keep (wrap Section.ei (parse_ei_scn allocated hdr mem p buflen))
    else if is b'E' b'D'
    then keep (wrap Section.ed (parse_ed_scn allocated hdr mem p buflen))
    else ok none

-- The caller does not look at what add_opal_event_log_scn returns.
pub add_ignored : ParseState → Bytes → Option Section → Run ParseState
add_ignored s id scn = elim (add_opal_event_log_scn s.log id scn s.log_pos) [
  | added log ↦ done (record s { log = some log; log_pos = s.log_pos + 1 })
  | refused ↦ done (record s { log_pos = s.log_pos + 1 })
  | overflow ↦ log_overflow
]

-- A section that its parser refuses is dropped; only the UH parser sets `is_error`.
pub note_parsed : ParseState → Bytes → Outcome (Option Section) → Run ParseState
note_parsed s id (fault x) = crash x
note_parsed s id (error e) = done s
note_parsed s id (ok none) = done s
note_parsed s id (ok (some (Section.uh usr))) =
    add_ignored (record s { is_error = is_error_of usr }) id (some (Section.uh usr))
note_parsed s id (ok (some scn)) = add_ignored s id (some scn)

-- Behind the section: `buf += hdr.length; if (nrsections == ph->scn_count) break;`.
pub step_over : ℕ → ParseState → Option PrivHdr → Run Turn
step_over len s none = crash uninitialised
step_over len s (some ph) =
    let t = record s { buf = s.buf + len } in
    done (if s.nrsections == ph.scn_count then break_with none t else next t)

-- The private header, without which the function gives up.
pub parse_first : Heap → ParseState → V6Hdr → Outcome PrivHdr → Run Turn
parse_first heap s hdr (fault x) = crash x
parse_first heap s hdr (error e) = done (return_with einval)
parse_first heap s hdr (ok ph) = elim (create_opal_event_log heap.log ph.scn_count) [
  | none ↦ done (return_with enomem)
  | some log ↦
      then_run
        (add_ignored (record s { ph = some ph; log = some log }) ph_id (some (Section.ph ph)))
        (λ t. step_over hdr.length t t.ph)
]

-- A section whose id is in the table, with `nrsections` already counted up.
pub known_section : Heap → Bytes → ℕ → ParseState → V6Hdr → HeaderId → Run Turn
known_section heap mem buflen s hdr entry =
    if out_of_order entry s.nrsections s.is_error
    then done (break_with (some failed) s)
    else (let t = record s { table = note_section s.table hdr.id } in
        if same_id hdr.id ph_id
        then parse_first heap t hdr
            (parse_priv_hdr_scn (heap.section t.nrsections) hdr mem t.buf buflen)
        else then_run (note_parsed t hdr.id (parse_scn heap t.nrsections hdr mem t.buf buflen))
            (λ u. step_over hdr.length u u.ph))

-- The bytes of a section with an unknown id are printed, and then `continue` goes back to the same
-- section.
pub print_unknown : Bytes → ℕ → V6Hdr → Run Turn
print_unknown mem p hdr = elim (read mem (p + 8) (hdr.length - 8)) [
  | fault x ↦ crash x
  | _ ↦ done again
]

-- One round of `while (buflen)`.
unfoldable pub parse_turn : Heap → Bytes → ℕ → ParseState → Run Turn
unfolding known_section parse_first step_over note_parsed add_ignored print_unknown
parse_turn heap mem buflen s = elim (parse_section_header mem s.buf buflen) [
  | fault x ↦ crash x
  | error e ↦ done (break_with (some e) s)
  | ok hdr ↦ elim (header_id_lookup s.table hdr.id) [
    | none ↦ print_unknown mem s.buf hdr
    | some entry ↦
        known_section heap mem buflen (record s { nrsections = s.nrsections + 1 }) hdr entry
  ]
]

-- How the loop ends.
pub data Exit : Type 0 where
  leaves : Option Errno → ParseState → Exit
  returns : Errno → Exit

-- The loop, for `fuel` rounds; `none` means that it has not ended by then.
unfoldable pub parse_loop : ℕ → Heap → Bytes → ℕ → ParseState → Option (Run Exit)
parse_loop zero heap mem buflen s = none
parse_loop (suc fuel) heap mem buflen s = elim (parse_turn heap mem buflen s) [
  | crash x ↦ some (crash x)
  | log_overflow ↦ some log_overflow
  | done again ↦ parse_loop fuel heap mem buflen s
  | done (next t) ↦ parse_loop fuel heap mem buflen t
  | done (break_with rc t) ↦ some (done (leaves rc t))
  | done (return_with e) ↦ some (done (returns e))
]

-- `for(i = log_pos; i < ph->scn_count; i++)`, for the rounds that are left.
unfoldable pub pad_log : ℕ → EventLog → ℕ → Run EventLog
pad_log zero log i = done log
pad_log (suc rounds) log i =
    let rest = λ (padded : EventLog). pad_log rounds padded (i + 1) in
    elim (add_opal_event_log_scn (some log) nul_id none i) [
      | added padded ↦ rest padded
      | refused ↦ rest log
      | overflow ↦ log_overflow
    ]

pub record Parsed : Type 0 where
  pub rc : Option Errno  -- none for 0
  pub r_log : Option EventLog

pub pad_parsed : ParseState → Option PrivHdr → Option EventLog → Run (Option EventLog)
unfolding pad_log
pad_parsed s ph none = done none
pad_parsed s none (some log) = crash uninitialised
pad_parsed s (some ph) (some log) =
    then_run (pad_log (ph.scn_count - s.log_pos) log s.log_pos) (λ padded. done (some padded))

-- What stands behind the loop.
unfoldable pub finish_parse : Exit → Run Parsed
unfolding pad_parsed
finish_parse (returns e) = done (record { rc = some e; r_log = none })
finish_parse (leaves rc s) = then_run (pad_parsed s s.ph s.log) (λ log.
    done (record { rc = if some_missing s.is_error s.table then some einval else rc; r_log = log }))

abbrev pub initial : ℕ → ParseState
initial buf = record {
  buf = buf;
  table = header_order;
  nrsections = 0;
  is_error = false;
  ph = none;
  log = none;
  log_pos = 0;
}

-- From the state at the head of the loop on; with no bytes at all `rc` is still -1.
unfoldable pub parse_from : ℕ → Heap → Bytes → ℕ → ParseState → Option (Run Parsed)
parse_from fuel heap mem buflen s =
    if buflen == 0
    then some (finish_parse (leaves (some failed) s))
    else Option.map (λ exit. then_run exit finish_parse) (parse_loop fuel heap mem buflen s)

-- Where the sections begin. An eSEL header is printed and skipped; its bytes stay counted in
-- `buflen`.
unfoldable pub skip_esel_header : Bytes → Outcome ℕ
unfolding is_esel_header
skip_esel_header mem = do
  esel ← is_esel_header mem 0
  if esel then (do printed ← read mem 0 14; ok sizeof_esel_header) else ok 0

unfoldable pub parse_opal_event_log : ℕ → Heap → Bytes → ℕ → Option (Run Parsed)
parse_opal_event_log fuel heap mem buflen = elim (skip_esel_header mem) [
  | fault x ↦ some (crash x)
  | error e ↦ some (done (record { rc = some e; r_log = none }))
  | ok buf ↦ parse_from fuel heap mem buflen (initial buf)
]
