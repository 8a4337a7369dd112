-- ===== src/Rtas/Ela/Refcodes/Shown.antt =====
-- The callouts of process_refcodes.
use ppc64_diag.Rtas.Ela.Refcodes.{Batch, code_loop, process_refcodes, ref_codes}
use ppc64_diag.Rtas.Ela.Refcodes.Placing.{Shown, callouts-Ready, map-append_shown, shown}
use ppc64_diag.Rtas.Ela.Refcodes.Looping.{Coded, code_callouts, code_loop-Ready, gather-Coded}
use ppc64_diag.Rtas.Ela.Report.{callout_loop}
use ppc64_diag.Rtas.Ela.Report.Batches.{Short}
use ppc64_diag.Rtas.Ela.Report.Callouts.{IsUsable, first_loc-join}
use ppc64_diag.Rtas.Ela.Locations.Words.{Words, join}
use ppc64_diag.Rtas.Ela.State.{Event, State, byte, done, half, srn}
use ppc64_diag.Elog.Memory.{Bytes}
use ppc64_diag.Base.{
  ℕ, ◌+◌, ◌≡◌, ◌≢◌, refl, ap, ◌∙◌, arith, ◌==◌, if◌then◌else◌, List, [], ◌∷◌, ◌++◌, Option, some,
  none, map, has_flag,
}

ref_codes-Coded :
    (e : Event) (refc rlen : ℕ) → half e (refc + 2) ≢ 0 → Coded (ref_codes e refc rlen)
unfolding ref_codes
ref_codes-Coded e refc rlen h = (ground arith, gather-Coded 4 e refc (rlen == 36) 1)

-- Let the first reference code not be 0, and let the log have locations, words of at most 79
-- characters with a blank between them. process_refcodes returns. The entry gets the SRN, and a
-- callout for each location of each reference code, in their order, also where they fill more than
-- one description; a code without locations, or with more than are left, is shown with "n/a".
pub process_refcodes-shown :
    (fru_pn : Bytes → Option Bytes) (e : Event) (refc rlen : ℕ) (s : State) (w : Bytes)
    (ws : List Bytes)
    → half e (refc + 2) ≢ 0
    → Words (w ∷ ws)
    → Short (w ∷ ws)
    → s.loc_codes ≡ some (join (w ∷ ws))
    → IsUsable s.copy
    → (s' : State) × (process_refcodes fru_pn e refc rlen s ≡ done s')
      × (s'.refcode ≡ some (srn (if has_flag (byte e 8) 0x08 then 0x652 else 0x651) 0x880))
      × (map shown s'.callouts
          ≡ map shown s.callouts ++ code_callouts (half e refc) (ref_codes e refc rlen) (w ∷ ws))
unfolding process_refcodes
process_refcodes-shown fru_pn e refc rlen s w ws c h k codes u =
    let b : Batch = record { filled = []; reported = []; loc = some w; rest = join ws } in
    let looped =
      code_loop-Ready fru_pn (half e refc) (ref_codes e refc rlen) [] (w ∷ ws) b
        (ref_codes-Coded e refc rlen c) h k (refl, tt, refl, refl) in
    rw (first_loc-join s w ws h codes u) (
      _,
      refl,
      refl,
      map-append_shown shown s.callouts (
            (code_loop fru_pn (half e refc) (ref_codes e refc rlen) b).reported
            ++ callout_loop fru_pn none
                (code_loop fru_pn (half e refc) (ref_codes e refc rlen) b).filled)
          ∙ ap (λ (r : List Shown). map shown s.callouts ++ r)
              (callouts-Ready fru_pn _ looped.0 _ looped.1),
    )
