-- ===== src/Elog/Parse/Invariant.antt =====
-- One round of the loop over the sections.
use ppc64_diag.Elog.Parse.Room.{
  Inv, budget, PhFirst, RunEnsures, Fits, Room, RunEnsures-bind, Ends, Added, note_parsed-Added,
  add_ignored-Added, EndsNul,
}
use mathlib.Core.Option.{some-injective}
use ppc64_diag.Base.{
  ℕ, zero, suc, ◌+◌, ◌-◌, ◌≤◌, ◌<◌, ◌≡◌, ◌⊎◌, refl, arith, Option, some, none, Option-cases, inl,
  inr, List, [], ◌∷◌, length, Bool, true, false, Bool-cases, has_flag, sym, ◌∙◌, take, drop,
  length-append, replicate, length-replicate, ap, ◌++◌, subst,
}
use ppc64_diag.Elog.EventLog.{EventLog, Section, same_id, create_opal_event_log, nul_scn, LogScn}
use ppc64_diag.Elog.Header.{V6Hdr, parse_section_header}
use ppc64_diag.Elog.Memory.{
  Outcome-cases, Bytes, Fault, Outcome, ok, error, fault, read, big_endian, field,
}
use ppc64_diag.Elog.Parse.{
  Heap, ParseState, Turn, again, next, break_with, return_with, parse_turn, known_section,
  step_over, parse_first, note_parsed, add_ignored, parse_scn, ph_id, print_unknown, Run, done,
  crash, log_overflow,
}
use ppc64_diag.Elog.Section.Headers.{PrivHdr, parse_priv_hdr_scn}
use ppc64_diag.Elog.Table.{HeaderId, header_id_lookup, note_section, out_of_order}

abbrev pub TurnInv : Type 0 → ParseState → Turn → Type 0
TurnInv U s again = U
TurnInv U s (next t) = Inv t × (budget t < budget s)
TurnInv U s (break_with rc t) = Ends t.ph t.log t.log_pos
TurnInv U s (return_with e) = Unit

TurnInv-weaken : (U : Type 0) (s : ParseState) (t : Turn) → TurnInv ⊥ s t → TurnInv U s t
TurnInv-weaken U s again h = absurd h
TurnInv-weaken U s (next t) h = h
TurnInv-weaken U s (break_with rc t) h = h
TurnInv-weaken U s (return_with e) h = h

RunEnsures-weaken :
    (U : Type 0) (s : ParseState) (r : Run Turn)
    → RunEnsures (TurnInv ⊥ s) r
    → RunEnsures (TurnInv U s) r
RunEnsures-weaken U s (done t) h = TurnInv-weaken U s t h
RunEnsures-weaken U s (crash x) h = h
RunEnsures-weaken U s log_overflow h = h

-- The section has a header, whose id is not in the table.
abbrev pub HasUnknownId : Bytes → ℕ → ParseState → Type 0
HasUnknownId mem buflen s =
    (hdr : V6Hdr) × (parse_section_header mem s.buf buflen ≡ ok hdr)
    × (header_id_lookup s.table hdr.id ≡ none)

step_over-TurnInv :
    (len : ℕ) (s t : ParseState)
    → PhFirst t.table
    → Room t.log_pos t.log_pos t.ph t.log t.nrsections
    → ((ph : PrivHdr) → t.ph ≡ some ph → ph.scn_count - t.nrsections < budget s)
    → RunEnsures (TurnInv ⊥ s) (step_over len t t.ph)
unfolding step_over
step_over-TurnInv len s t f r b = elim (Option-cases t.ph) [
  | inl e ↦ ground arith
  | inr (ph, e) ↦ ground (arith, b ph e)
]

-- The table keeps its order when a section is counted.
PhFirst-note_section : (hs : List HeaderId) (id : Bytes) → PhFirst hs → PhFirst (note_section hs id)
unfolding note_section
PhFirst-note_section [] id f = tt
PhFirst-note_section (h ∷ hs) id f = ground (arith, PhFirst-note_section hs id f.1)

same_id_eq : (a b : Bytes) → same_id a b ≡ true → a ≡ b
unfolding same_id
same_id_eq [] [] h = refl
same_id_eq [] (y ∷ b) h = cc
same_id_eq (x ∷ a) [] h = cc
same_id_eq (x ∷ a) (y ∷ b) h = ground (arith, same_id_eq a b)

header_id_lookup_first :
    (hs : List HeaderId) (id : Bytes) {h : HeaderId}
    → PhFirst hs
    → header_id_lookup hs id ≡ some h
    → same_id id ph_id ≡ true
    → (h.pos ≡ 1) × (has_flag h.req 1 ≡ true)
unfolding header_id_lookup
header_id_lookup_first [] id f e p = cc
header_id_lookup_first (g ∷ hs) id {h} f e p = elim (Bool-cases (same_id id g.id)) [
  | inl same ↦ ground (arith, f.0 (sym (same_id_eq id g.id same) ∙ same_id_eq id ph_id p))
  | inr other ↦ header_id_lookup_first hs id f.1 (rw other at e) p
]

-- Memory holds bytes.
abbrev pub IsBytes : Bytes → Type 0
IsBytes [] = Unit
IsBytes (b ∷ bs) = (b < 256) × IsBytes bs

byte-lt : (mem : Bytes) (p : ℕ) → IsBytes mem → big_endian 0 (take 1 (drop p mem)) < 256
byte-lt [] zero h = omega arith
byte-lt [] (suc p) h = omega arith
byte-lt (b ∷ bs) zero h = omega arith
byte-lt (b ∷ bs) (suc p) h = byte-lt bs p h.1

-- The parser of the private header returns a count from 1 to 255.
abbrev Counts : Outcome PrivHdr → Type 0
Counts (ok ph) = (1 ≤ ph.scn_count) × (ph.scn_count < 256)
Counts _ = Unit

parse_priv_hdr_scn-Counts :
    (allocated : Bool) (hdr : V6Hdr) (mem : Bytes) (p buflen : ℕ)
    → IsBytes mem
    → Counts (parse_priv_hdr_scn allocated hdr mem p buflen)
unfolding parse_priv_hdr_scn read field
parse_priv_hdr_scn-Counts allocated hdr mem p buflen h = ground (arith, byte-lt mem (p + 27) h)

create_opal_event_log-length :
    (allocated : Bool) (n : ℕ) {log : EventLog}
    → create_opal_event_log allocated n ≡ some log
    → length log ≡ n + 1
unfolding create_opal_event_log
create_opal_event_log-length true n e =
    ap length (sym (some-injective _ _ e))
    ∙ length-append (replicate n none) (some nul_scn ∷ [])
    ∙ omega (arith, length-replicate {A = Option LogScn} n none)
create_opal_event_log-length false n e = cc

replicate-EndsNul : (n : ℕ) → EndsNul (replicate n none ++ some nul_scn ∷ [])
replicate-EndsNul zero = refl
replicate-EndsNul (suc zero) = refl
replicate-EndsNul (suc (suc n)) = replicate-EndsNul (suc n)

create_opal_event_log-EndsNul :
    (allocated : Bool) (n : ℕ) {log : EventLog}
    → create_opal_event_log allocated n ≡ some log
    → EndsNul log
unfolding create_opal_event_log
create_opal_event_log-EndsNul true n e = subst EndsNul (some-injective _ _ e) (replicate-EndsNul n)
create_opal_event_log-EndsNul false n e = cc

-- A new array, whatever stands in its entries, in the state that is about to get its first.
first-Room :
    (ph : PrivHdr) (log : EventLog) (n k : ℕ)
    → (1 ≤ ph.scn_count) × (ph.scn_count < 256)
    → length log ≡ ph.scn_count + 1
    → EndsNul log
    → n ≡ 1
    → k ≡ 0
    → Room k (suc k) (some ph) (some log) n
first-Room ph log n k c l f e z =
    rw (e, z) (omega arith, omega arith, omega arith, l, omega arith, f)

parse_first-TurnInv :
    (heap : Heap) (s t : ParseState) (hdr : V6Hdr) (scn : Outcome PrivHdr)
    → Counts scn
    → PhFirst t.table
    → (t.nrsections ≡ 1) × (t.log_pos ≡ 0) × (s.ph ≡ none)
    → RunEnsures (TurnInv ⊥ s) (parse_first heap t hdr scn)
unfolding parse_first
parse_first-TurnInv heap s t hdr (fault x) c f k = tt
parse_first-TurnInv heap s t hdr (error e) c f k = tt
parse_first-TurnInv heap s t hdr (ok ph) c f k =
    elim (Option-cases (create_opal_event_log heap.log ph.scn_count)) [
      | inl e ↦ rw (e, parse_first) tt
      | inr (log, e) ↦
          rw (e, parse_first)
            (let u = record t { ph = some ph; log = some log } in
              RunEnsures-bind (Added u) (TurnInv ⊥ s) (add_ignored u ph_id (some (Section.ph ph))) _
                (add_ignored-Added u ph_id (some (Section.ph ph)) (
                  first-Room ph log t.nrsections t.log_pos c
                    (create_opal_event_log-length heap.log ph.scn_count e)
                    (create_opal_event_log-EndsNul heap.log ph.scn_count e) k.0 k.1))
                λ v a.
                  step_over-TurnInv hdr.length s v (rw (a.same_table) f) a.room
                    λ ph' e'. ground (arith, a.same_ph, a.same_sections))
    ]

Fits-Ends :
    (ph : Option PrivHdr) (log : Option EventLog) (n k : ℕ) → Fits ph log n k → Ends ph log k
Fits-Ends none none n k h = tt
Fits-Ends (some ph) (some log) n k h = ground arith
Fits-Ends none (some log) n k h = h
Fits-Ends (some ph) none n k h = h

Fits-Room :
    (ph : Option PrivHdr) (log : Option EventLog) (n k : ℕ)
    → Fits ph log n k
    → Room k (suc k) ph log (n + 1)
Fits-Room none none n k h = tt
Fits-Room (some ph) (some log) n k h = ground arith
Fits-Room none (some log) n k h = h
Fits-Room (some ph) none n k h = h

-- A private header that is in order is the first section.
first_in_order :
    (s : ParseState) (entry : HeaderId)
    → Inv s
    → (entry.pos ≡ 1) × (has_flag entry.req 1 ≡ true)
    → out_of_order entry (s.nrsections + 1) s.is_error ≡ false
    → (s.nrsections + 1 ≡ 1) × (s.log_pos ≡ 0) × (s.ph ≡ none)
unfolding out_of_order
first_in_order s entry i p e = ground (arith, i.sections)

rounds_less :
    (s : ParseState) {ph : PrivHdr}
    → Inv s
    → s.ph ≡ some ph
    → ph.scn_count - (s.nrsections + 1) < budget s
rounds_less s i e = ground (arith, i.sections)

known_section-TurnInv :
    (heap : Heap) (mem : Bytes) (buflen : ℕ) (s : ParseState) (hdr : V6Hdr) (entry : HeaderId)
    → IsBytes mem
    → Inv s
    → header_id_lookup s.table hdr.id ≡ some entry
    → RunEnsures
        (TurnInv ⊥ s)
        (known_section heap mem buflen (record s { nrsections = s.nrsections + 1 }) hdr entry)
unfolding known_section
known_section-TurnInv heap mem buflen s hdr entry b i e =
    elim (Bool-cases (out_of_order entry (s.nrsections + 1) s.is_error)) [
      | inl out ↦ rw out (Fits-Ends s.ph s.log s.nrsections s.log_pos i.sections)
      | inr fine ↦ rw fine (elim (Bool-cases (same_id hdr.id ph_id)) [
        | inl first ↦ rw first (
            parse_first-TurnInv heap s _ hdr _
              (parse_priv_hdr_scn-Counts (heap.section (s.nrsections + 1)) hdr mem s.buf buflen b)
              (PhFirst-note_section s.table hdr.id i.ph_first)
              (first_in_order s entry i (header_id_lookup_first s.table hdr.id i.ph_first e first)
                fine))
        | inr other ↦ rw other (
            let t = record s {
              table = note_section s.table hdr.id;
              nrsections = s.nrsections + 1;
            } in
            RunEnsures-bind (Added t) (TurnInv ⊥ s)
              (note_parsed t hdr.id (parse_scn heap t.nrsections hdr mem t.buf buflen)) _
              (note_parsed-Added t hdr.id _
                (Fits-Room s.ph s.log s.nrsections s.log_pos i.sections))
              λ u a.
                step_over-TurnInv hdr.length s u
                  (rw a.same_table (PhFirst-note_section s.table hdr.id i.ph_first)) a.room
                  λ ph e'. rw a.same_sections (rounds_less s i (sym a.same_ph ∙ e')))
      ])
    ]

print_unknown-cases :
    (mem : Bytes) (p : ℕ) (hdr : V6Hdr)
    → (print_unknown mem p hdr ≡ done again) ⊎ (x : Fault) × (print_unknown mem p hdr ≡ crash x)
unfolding print_unknown
print_unknown-cases mem p hdr = elim (Outcome-cases (read mem (p + 8) (hdr.length - 8))) [
  | inl (bytes, e) ↦ inl (rw (e, print_unknown) refl)
  | inr (inl (x, e)) ↦ inl (rw (e, print_unknown) refl)
  | inr (inr (x, e)) ↦ inr (x, rw (e, print_unknown) refl)
]

print_unknown-TurnInv :
    (U : Type 0) (mem : Bytes) (s : ParseState) (hdr : V6Hdr)
    → U
    → RunEnsures (TurnInv U s) (print_unknown mem s.buf hdr)
print_unknown-TurnInv U mem s hdr u = elim (print_unknown-cases mem s.buf hdr) [
  | inl e ↦ subst (RunEnsures (TurnInv U s)) (sym e) u
  | inr (x, e) ↦ subst (RunEnsures (TurnInv U s)) (sym e) tt
]

parse_turn-cases :
    (U : Type 0) (heap : Heap) (mem : Bytes) (buflen : ℕ) (s : ParseState)
    → IsBytes mem
    → Inv s
    → (HasUnknownId mem buflen s → U)
    → RunEnsures (TurnInv U s) (parse_turn heap mem buflen s)
unfolding parse_turn
parse_turn-cases U heap mem buflen s b i u =
    elim (Outcome-cases (parse_section_header mem s.buf buflen)) [
      | inl (hdr, e) ↦ elim (Option-cases (header_id_lookup s.table hdr.id)) [
        | inl unknown ↦
            rw (e, parse_turn)
              (rw (unknown, parse_turn) (print_unknown-TurnInv U mem s hdr (u (hdr, e, unknown))))
        | inr (entry, known) ↦
            rw (e, parse_turn)
              (rw (known, parse_turn)
                (RunEnsures-weaken U s _
                  (known_section-TurnInv heap mem buflen s hdr entry b i known)))
      ]
      | inr (inl (x, e)) ↦
          rw (e, parse_turn) (Fits-Ends s.ph s.log s.nrsections s.log_pos i.sections)
      | inr (inr (x, e)) ↦ rw (e, parse_turn) tt
    ]

-- Let the state of the loop keep the invariant. One round makes no access outside the array of
-- sections, and has one of these results: it goes to the next section, keeps the invariant and uses
-- up one of the sections that are left; it leaves the loop with room for the padding; it comes back to
-- the same section with nothing changed, which it does only where the id of the section is not in the
-- table; it returns an error; or it ends in another fault, such as a read outside the log or of a
-- value that is not set.
pub parse_turn-TurnInv :
    (heap : Heap) (mem : Bytes) (buflen : ℕ) (s : ParseState)
    → IsBytes mem
    → Inv s
    → RunEnsures (TurnInv (HasUnknownId mem buflen s) s) (parse_turn heap mem buflen s)
parse_turn-TurnInv heap mem buflen s b i =
    parse_turn-cases (HasUnknownId mem buflen s) heap mem buflen s b i (λ u. u)
