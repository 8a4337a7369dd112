-- ===== src/Elog/Tests.antt =====
-- Logs and sections on which the parsers of opal_errd/opal-elog-parse run.
use ppc64_diag.Elog.EventLog.Lookup.{entries, get_opal_event_log_scn_lem, scn_of, with_id}
use ppc64_diag.Base.{
  ℕ, ◌≡◌, refl, arith, some, none, [], ◌∷◌, ◌++◌, Bool, true, ltb, ◌&&◌, replicate, get_elem?,
}
use ppc64_diag.Elog.Memory.{Bytes, ok, read, field}
use ppc64_diag.Elog.Header.{V6Hdr, parse_section_header, is_esel_header}
use ppc64_diag.Elog.Parse.{
  Heap, done, again, initial, skip_esel_header, parse_turn, parse_opal_event_log,
}
use ppc64_diag.Elog.Parse.Invariant.{HasUnknownId, IsBytes, TurnInv, parse_turn-TurnInv}
use ppc64_diag.Elog.Parse.Room.{RunEnsures}
use ppc64_diag.Elog.Parse.Total.{initial-Inv}
use ppc64_diag.Elog.Parse.Unknown.{parse_opal_event_log_unknown}
use ppc64_diag.Elog.Table.{header_id_lookup, header_order}
use ppc64_diag.Elog.EventLog.{same_id, EventLog, get_opal_event_log_scn, nul_scn}

abbrev heap : Heap
heap = record { section = λ n. true; log = true; word = 0 }

abbrev scn_header : ℕ → ℕ → ℕ → Bytes
scn_header a b len = a ∷ b ∷ 0 ∷ len ∷ 1 ∷ 0 ∷ 0 ∷ 0 ∷ []

abbrev private_header : ℕ → Bytes
private_header count =
    scn_header b'P' b'H' 48 ++ replicate 16 0 ++ 69 ∷ 0 ∷ 0 ∷ count ∷ replicate 20 0

abbrev user_header : Bytes
user_header = scn_header b'U' b'H' 24 ++ 17 ∷ 0 ∷ 32 ∷ replicate 13 0

-- A private header, a user header and an extended user header.
abbrev three_sections : Bytes
three_sections = private_header 3 ++ user_header ++ scn_header b'E' b'H' 76 ++ replicate 68 0

is_bytes : Bytes → Bool
is_bytes [] = true
is_bytes (b ∷ bs) = ltb b 256 && is_bytes bs

is_bytes-IsBytes : (mem : Bytes) → is_bytes mem ≡ true → IsBytes mem
unfolding is_bytes
is_bytes-IsBytes [] h = tt
is_bytes-IsBytes (b ∷ bs) h = (ground arith, is_bytes-IsBytes bs (ground arith))

three_sections-IsBytes : IsBytes three_sections
unfolding is_bytes
three_sections-IsBytes = is_bytes-IsBytes three_sections refl

parse_turn-TurnInv_example :
    RunEnsures
      (TurnInv (HasUnknownId three_sections 148 (initial 0)) (initial 0))
      (parse_turn heap three_sections 148 (initial 0))
parse_turn-TurnInv_example =
    parse_turn-TurnInv heap three_sections 148 (initial 0) three_sections-IsBytes (initial-Inv 0)

-- A section with an id that no parser knows.
abbrev unknown : Bytes
unknown = scn_header b'Z' b'Z' 8 ++ replicate 8 0

abbrev unknown_header : V6Hdr
unknown_header = record {
  id = b'Z' ∷ b'Z' ∷ [];
  length = 8;
  version = 1;
  subtype = 0;
  component_id = 0;
}

unknown_begins : skip_esel_header unknown ≡ ok 0
unfolding skip_esel_header is_esel_header field
unknown_begins = refl

unknown_parsed : parse_section_header unknown 0 16 ≡ ok unknown_header
unfolding parse_section_header read field
unknown_parsed = refl

unknown_looked_up : header_id_lookup header_order unknown_header.id ≡ none
unfolding header_id_lookup header_order same_id
unknown_looked_up = refl

parse_opal_event_log_unknown_example : parse_opal_event_log 1000 heap unknown 16 ≡ none
parse_opal_event_log_unknown_example =
    parse_opal_event_log_unknown 1000 heap unknown 16 unknown_begins unknown_parsed
      unknown_looked_up (omega arith)

unknown_turn : parse_turn heap unknown 16 (initial 0) ≡ done again
unfolding parse_turn parse_section_header header_id_lookup header_order same_id read field
unknown_turn = refl

-- An array with one section and its terminator.
abbrev one_section : EventLog
one_section = some (record { id = b'E' ∷ b'H' ∷ []; scn = none }) ∷ some nul_scn ∷ []

get_opal_event_log_scn_lem_example :
    get_opal_event_log_scn one_section (b'E' ∷ b'H' ∷ []) 0
    ≡ ok (scn_of (get_elem? (with_id (b'E' ∷ b'H' ∷ []) (entries one_section)) 0))
get_opal_event_log_scn_lem_example =
    get_opal_event_log_scn_lem one_section (b'E' ∷ b'H' ∷ []) 0 (tt, refl)
