-- ===== src/Elog/Table.antt =====
-- libopalevents.h and header_id_lookup of parse-opal-event.c: the table of known sections, which
-- the parser copies and counts down.
use ppc64_diag.Base.{
  ℕ, ◌==◌, Bool, ◌&&◌, ◌||◌, not, has_flag, List, [], ◌∷◌, Option, none, some, if◌then◌else◌, false,
  suc, zero,
}
use ppc64_diag.Elog.EventLog.{same_id}
use ppc64_diag.Elog.Memory.{Bytes}

-- `max`: how many sections may yet come. A negative number is no limit.
pub data Limit : Type 0 where
  unlimited : Limit
  left : ℕ → Limit

pub record HeaderId : Type 0 where
  pub id : Bytes
  pub req : ℕ
  pub pos : ℕ
  pub max : Limit

abbrev pub header_req : ℕ
header_req = 0x1

abbrev pub header_req_w_error : ℕ
header_req_w_error = 0x2

abbrev pub header : ℕ → ℕ → ℕ → ℕ → Limit → HeaderId
header a b req pos max = record { id = a ∷ b ∷ []; req = req; pos = pos; max = max }

unfoldable pub header_order : List HeaderId
header_order =
    header b'P' b'H' 1 1 (left 1)
    ∷ header b'U' b'H' 1 2 (left 1)
    ∷ header b'P' b'S' 2 3 (left 1)
    ∷ header b'E' b'H' 1 0 (left 1)
    ∷ header b'M' b'T' 2 0 (left 1)
    ∷ header b'S' b'S' 0 0 unlimited
    ∷ header b'D' b'H' 0 0 (left 1)
    ∷ header b'S' b'W' 0 0 unlimited
    ∷ header b'L' b'P' 0 0 (left 1)
    ∷ header b'L' b'R' 0 0 (left 1)
    ∷ header b'H' b'M' 0 0 (left 1)
    ∷ header b'E' b'P' 0 0 (left 1)
    ∷ header b'I' b'E' 0 0 (left 1)
    ∷ header b'M' b'I' 0 0 (left 1)
    ∷ header b'C' b'H' 0 0 (left 1)
    ∷ header b'U' b'D' 0 0 unlimited
    ∷ header b'E' b'I' 0 0 (left 1)
    ∷ header b'E' b'D' 0 0 unlimited
    ∷ []

-- The entry at the position that the source returns, or none for -1.
unfoldable pub header_id_lookup : List HeaderId → Bytes → Option HeaderId
header_id_lookup [] id = none
header_id_lookup (h ∷ hs) id = if same_id id h.id then some h else header_id_lookup hs id

-- `if (max == 0) … else if (max > 0) max--`; a section too many is only reported.
unfoldable pub count_down : Limit → Limit
count_down unlimited = unlimited
count_down (left zero) = left 0
count_down (left (suc n)) = left n

-- `hdr_data->max--` in the entry that the look-up found.
unfoldable pub note_section : List HeaderId → Bytes → List HeaderId
unfolding count_down
note_section [] id = []
note_section (h ∷ hs) id =
    if same_id id h.id then record h { max = count_down h.max } ∷ hs else h ∷ note_section hs id

abbrev pub is_used_up : Limit → Bool
is_used_up unlimited = false
is_used_up (left n) = n == 0

unfoldable pub is_required : Bool → HeaderId → Bool
is_required is_error h =
    has_flag h.req header_req || (has_flag h.req header_req_w_error && is_error)

-- `pos != 0 && pos != nrsections && (…)`.
unfoldable pub out_of_order : HeaderId → ℕ → Bool → Bool
unfolding is_required
out_of_order h nrsections is_error =
    not (h.pos == 0) && not (h.pos == nrsections) && is_required is_error h

-- The last loop of the parser: some required section has not been seen.
unfoldable pub some_missing : Bool → List HeaderId → Bool
unfolding is_required
some_missing is_error [] = false
some_missing is_error (h ∷ hs) =
    (is_required is_error h && not (is_used_up h.max)) || some_missing is_error hs
