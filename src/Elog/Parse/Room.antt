-- ===== src/Elog/Parse/Room.antt =====
-- What holds at the head of the loop over the sections: the array of parsed sections has room for
-- all that the private header counts.
use native.Mathlib.Numerals.{add-one}
use ppc64_diag.Base.{
  ℕ, zero, suc, ◌+◌, ◌-◌, ◌≤◌, ◌<◌, ◌≡◌, refl, arith, Option, some, none, Option-cases, inl, inr,
  List, [], ◌∷◌, length, true, has_flag, length-set, set,
}
use ppc64_diag.Elog.EventLog.Complete.{IsWritten}
use ppc64_diag.Elog.EventLog.{EventLog, Section, add_opal_event_log_scn, nul_scn, LogScn}
use ppc64_diag.Elog.Memory.{Bytes, Outcome, ok, error, fault}
use ppc64_diag.Elog.Parse.{
  Run, done, crash, log_overflow, then_run, ParseState, note_parsed, add_ignored, ph_id,
  is_error_of, Run, done, then_run,
}
use ppc64_diag.Elog.Section.Headers.{PrivHdr}
use ppc64_diag.Elog.Table.{HeaderId}

-- The private header is required, and has the first place.
abbrev pub PhFirst : List HeaderId → Type 0
PhFirst [] = Unit
PhFirst (h ∷ hs) = (h.id ≡ ph_id → (h.pos ≡ 1) × (has_flag h.req 1 ≡ true)) × PhFirst hs

-- The terminator stands at the end.
abbrev pub EndsNul : EventLog → Type 0
EndsNul [] = ⊥
EndsNul (x ∷ []) = x ≡ some nul_scn
EndsNul (x ∷ y ∷ log) = EndsNul (y ∷ log)

-- The first `k` entries have been written, and the terminator stands at the end behind them.
abbrev pub Filled : ℕ → EventLog → Type 0
Filled zero log = EndsNul log
Filled (suc k) [] = ⊥
Filled (suc k) (x ∷ log) = IsWritten x × Filled k log

pub Filled-set :
    (k : ℕ) (log : EventLog) (entry : LogScn)
    → Filled k log
    → suc k < length log
    → Filled (suc k) (set log k (some entry))
Filled-set zero [] entry f h = f
Filled-set zero (x ∷ []) entry f h = absurd (omega arith)
Filled-set zero (x ∷ y ∷ log) entry f h = (tt, f)
Filled-set (suc k) [] entry f h = f
Filled-set (suc k) (x ∷ log) entry f h = (f.0, Filled-set k log entry f.1 (omega arith))

Filled-set_next :
    (k : ℕ) (log : EventLog) (entry : LogScn)
    → Filled k log
    → suc k < length log
    → Filled (k + 1) (set log k (some entry))
Filled-set_next k log entry f h = rw add-one (Filled-set k log entry f h)

-- Before the first section nothing is set. Behind it sections are left to read, and the array has
-- an entry for each that the private header counts, and one for the end.
abbrev pub Fits : Option PrivHdr → Option EventLog → ℕ → ℕ → Type 0
Fits none none n k = (n ≡ 0) × (k ≡ 0)
Fits (some ph) (some log) n k =
    (0 < n)
    × (n < ph.scn_count)
    × (ph.scn_count < 256)
    × (length log ≡ ph.scn_count + 1)
    × (k ≤ n)
    × Filled k log
Fits _ _ n k = ⊥

pub record Inv (s : ParseState) : Type 0 where
  pub ph_first : PhFirst s.table
  pub sections : Fits s.ph s.log s.nrsections s.log_pos

-- The same inside the loop, where `j` entries are written and at most `k` are at the `n`-th
-- section.
abbrev pub Room : ℕ → ℕ → Option PrivHdr → Option EventLog → ℕ → Type 0
Room j k none none n = Unit
Room j k (some ph) (some log) n =
    (0 < n)
    × (n ≤ ph.scn_count)
    × (ph.scn_count < 256)
    × (length log ≡ ph.scn_count + 1)
    × (k ≤ n)
    × Filled j log
Room j k _ _ n = ⊥

-- No write leaves the array of parsed sections, and `P` holds of a value. A section parser may
-- fault.
abbrev pub RunEnsures : {A : Type 0} → (A → Type 0) → Run A → Type 0
RunEnsures P (done a) = P a
RunEnsures P (crash x) = Unit
RunEnsures P log_overflow = ⊥

pub RunEnsures-bind :
    {A B : Type 0} (P : A → Type 0) (Q : B → Type 0) (m : Run A) (f : A → Run B)
    → RunEnsures P m
    → ((a : A) → P a → RunEnsures Q (f a))
    → RunEnsures Q (then_run m f)
RunEnsures-bind P Q (done a) f h k = k a h
RunEnsures-bind P Q (crash x) f h k = tt
RunEnsures-bind P Q log_overflow f h k = h

pub record Added (s t : ParseState) : Type 0 where
  pub room : Room t.log_pos t.log_pos t.ph t.log t.nrsections
  pub same_ph : t.ph ≡ s.ph
  pub same_table : t.table ≡ s.table
  pub same_sections : t.nrsections ≡ s.nrsections

pub add_ignored-Added :
    (s : ParseState) (id : Bytes) (scn : Option Section)
    → Room s.log_pos (suc s.log_pos) s.ph s.log s.nrsections
    → RunEnsures (Added s) (add_ignored s id scn)
unfolding add_ignored add_opal_event_log_scn
add_ignored-Added s id scn h = elim (Option-cases s.log) [
  | inl e ↦ ground arith
  | inr (log, e) ↦ ground (
    arith,
    length-set log s.log_pos (some (record { id = id; scn = scn })),
    Filled-set_next s.log_pos log (record { id = id; scn = scn }),
  )
]

Added-self : (s : ParseState) → Room s.log_pos s.log_pos s.ph s.log s.nrsections → Added s s
Added-self s h = record { room = h; same_ph = refl; same_table = refl; same_sections = refl }

Room-less :
    (k : ℕ) (ph : Option PrivHdr) (log : Option EventLog) (n : ℕ)
    → Room k (suc k) ph log n
    → Room k k ph log n
Room-less k none none n h = tt
Room-less k (some ph) (some log) n h = ground arith
Room-less k none (some log) n h = h
Room-less k (some ph) none n h = h

pub note_parsed-Added :
    (s : ParseState) (id : Bytes) (scn : Outcome (Option Section))
    → Room s.log_pos (suc s.log_pos) s.ph s.log s.nrsections
    → RunEnsures (Added s) (note_parsed s id scn)
unfolding note_parsed
note_parsed-Added s id (fault x) h = tt
note_parsed-Added s id (error e) h = Added-self s (Room-less s.log_pos s.ph s.log s.nrsections h)
note_parsed-Added s id (ok none) h = Added-self s (Room-less s.log_pos s.ph s.log s.nrsections h)
note_parsed-Added s id (ok (some (Section.uh usr))) h = ground (
  arith,
  add_ignored-Added (record s { is_error = is_error_of usr }) id (some (Section.uh usr)) h,
)
note_parsed-Added s id (ok (some scn)) h = add_ignored-Added s id (some scn) h

-- At the end of the loop the array has room for padding.
abbrev pub Ends : Option PrivHdr → Option EventLog → ℕ → Type 0
Ends none none k = Unit
Ends (some ph) (some log) k = (length log ≡ ph.scn_count + 1) × (k ≤ ph.scn_count) × Filled k log
Ends _ _ k = ⊥

-- How many more sections may come: at most 255 before the private header, and then those that its
-- count leaves.
abbrev pub rounds_left : Option PrivHdr → ℕ → ℕ
rounds_left none n = 256
rounds_left (some ph) n = ph.scn_count - n

abbrev pub budget : ParseState → ℕ
budget s = rounds_left s.ph s.nrsections
