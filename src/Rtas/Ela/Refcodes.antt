-- ===== src/Rtas/Ela/Refcodes.antt =====
-- process_refcodes of rtas_errd/ela.c: the reference codes of a register become callouts, each with
-- its locations, through a description of four FRUs that is reported whenever it is full.
pub mod Placing
pub mod Looping
pub mod Shown
use ppc64_diag.Base.{
  ℕ, zero, suc, ◌+◌, ◌-◌, ◌*◌, ◌==◌, Bool, if◌then◌else◌, List, [], ◌∷◌, ◌++◌, Option, some, none,
  length, take, replicate, has_flag,
}
use ppc64_diag.Elog.Memory.{Bytes}
use ppc64_diag.Rtas.Ela.Message.{defer_msgrefcode_cust, msgrefcode_cust}
use ppc64_diag.Rtas.Ela.Description.{Description, Fru, fru, locsize, maxfrus, no_fru}
use ppc64_diag.Rtas.Ela.Tables.{cec_src}
use ppc64_diag.Rtas.Ela.State.{
  Callout, Event, Run, State, byte, done, half, srn, write_entry, ◌>>=◌,
}
use ppc64_diag.Rtas.Ela.Locations.{first_loc, next_code}
use ppc64_diag.Rtas.Ela.Report.{callout_loop, name_locations, refcode_fname}

-- A pair of `rctab` and `rctabloc`: a reference code and the number of its locations, which is 1
-- where they are one to one.
abbrev pub RefCode : Type 0
RefCode = ℕ × ℕ

abbrev pub count_of : Event → ℕ → Bool → ℕ → ℕ
count_of e refc one2one j = if one2one then 1 else byte e (refc + 36 + j)

-- The loop that collects RRR2 to RRR5, which stand 12 bytes behind `refc`, up to a zero.
unfoldable pub gather : ℕ → Event → ℕ → Bool → ℕ → List RefCode
unfolding half byte
gather zero e refc one2one j = []
gather (suc left) e refc one2one j =
    let code = half e (refc + 10 + 2 * j) in
    let rest = gather left e refc one2one (j + 1) in
    if code == 0 then [] else (code, count_of e refc one2one j) ∷ rest

unfoldable pub ref_codes : Event → ℕ → ℕ → List RefCode
unfolding gather
ref_codes e refc rlen =
    let one2one = rlen == 36 in
    (half e (refc + 2), count_of e refc one2one 0) ∷ gather 4 e refc one2one 1

-- The FRUs of the description so far, the callouts of those that were full before, and where
-- get_loc_code stands.
pub record Batch : Type 0 where
  pub filled : List Fru
  pub reported : List Callout
  pub loc : Option Bytes
  pub rest : Bytes

abbrev pub ref_fru : ℕ → ℕ → Fru
ref_fru src_type code = fru code refcode_fname [] src_type

-- `j++`, and a full description is reported and cleared.
unfoldable pub push : (Bytes → Option Bytes) → Fru → Batch → Batch
unfolding callout_loop
push fru_pn f b =
    if length b.filled == maxfrus
    then (record b { filled = f ∷ []; reported = b.reported ++ callout_loop fru_pn none b.filled })
    else record b { filled = b.filled ++ f ∷ [] }

unfoldable pub set_last : Bytes → List Fru → List Fru
set_last l [] = []
set_last l (f ∷ []) = record f { floc = l } ∷ []
set_last l (f ∷ g ∷ fs) = f ∷ set_last l (g ∷ fs)

abbrev pub copied : Option Bytes → Bytes
copied none = []
copied (some l) = take (locsize - 1) l

-- The location goes into the last FRU, and the next one is got.
unfoldable pub place : Batch → Batch
unfolding set_last next_code
place b =
    let next = next_code b.rest in
    record b { filled = set_last (copied b.loc) b.filled; loc = next.0; rest = next.1 }

-- `while (nlocs)`.
unfoldable pub loc_loop : (Bytes → Option Bytes) → Fru → ℕ → Batch → Batch
unfolding place push
loc_loop fru_pn f zero b = b
loc_loop fru_pn f (suc zero) b = place b
loc_loop fru_pn f (suc (suc n)) b = loc_loop fru_pn f (suc n) (push fru_pn f (place b))

-- The loop over the reference codes.
unfoldable pub code_loop : (Bytes → Option Bytes) → ℕ → List RefCode → Batch → Batch
unfolding loc_loop push
code_loop fru_pn src_type [] b = b
code_loop fru_pn src_type ((code, nlocs) ∷ codes) b =
    let f = ref_fru src_type code in
    code_loop fru_pn src_type codes (loc_loop fru_pn f nlocs (push fru_pn f b))

-- The register of `rlen` bytes at `refc`. The message is set in the description only.
unfoldable pub process_refcodes : (Bytes → Option Bytes) → Event → ℕ → ℕ → State → Run State
unfolding ref_codes code_loop callout_loop name_locations first_loc write_entry
process_refcodes fru_pn e refc rlen s =
    let predictive = has_flag (byte e 8) 0x08 in
    let sn : ℕ = if predictive then 0x652 else 0x651 in
    let rmsg = if predictive then defer_msgrefcode_cust else msgrefcode_cust in
    do
      r ← first_loc s
      let b =
          code_loop fru_pn (half e refc) (ref_codes e refc rlen)
            (record { filled = []; reported = []; loc = r.0; rest = r.2.rest })
      let frus = name_locations b.filled ++ replicate (maxfrus - length b.filled) no_fru
      let d : Description = record { sn = sn; rcode = 0x880; rmsg = rmsg; frus = frus }
      let s1 = write_entry cec_src 0 d r.2
      done (record s1 {
        rest = b.rest;
        refcode = some (srn sn 0x880);
        callouts = s1.callouts ++ (b.reported ++ callout_loop fru_pn none b.filled);
      })
