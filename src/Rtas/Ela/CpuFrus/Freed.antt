-- ===== src/Rtas/Ela/CpuFrus/Freed.antt =====
-- What the free at the end of get_cpu_frus does to the next location.
use ppc64_diag.Rtas.Ela.CpuFrus.{
  CpuFrus, arrange, blank_between, free_first, further_locs, get_cpu_frus, is_empty, rc_invalid,
  starts_blank,
}
use ppc64_diag.Rtas.Ela.Locations.{first_loc}
use ppc64_diag.Rtas.Ela.Locations.Words.{Words, join}
use ppc64_diag.Rtas.Ela.Report.{report_srn}
use ppc64_diag.Rtas.Ela.Report.Callouts.{IsUsable, first_loc-join, located}
use ppc64_diag.Rtas.Ela.PreV6.{bus_table, perform}
use ppc64_diag.Rtas.Ela.Actions.{report_bus}
use ppc64_diag.Rtas.Ela.Tables.{Table}
use ppc64_diag.Rtas.Ela.State.{Event, State, crash, done, double_free, freed}
use ppc64_diag.Base.{
  ℕ, suc, ◌≡◌, refl, ◌∙◌, arith, ◌==◌, false, inl, inr, List, [], ◌∷◌, Option, Option-cases, some,
  length,
}
use ppc64_diag.Elog.Memory.{Bytes}

first_loc_freed :
    (s : State) (c : ℕ) (l : Bytes)
    → s.loc_codes ≡ some (c ∷ l)
    → s.copy ≡ freed
    → first_loc s ≡ crash double_free
unfolding first_loc
first_loc_freed s c l e x = rw (e, first_loc) (rw (x, first_loc) refl)

report_srn_freed :
    (fru_pn : Bytes → Option Bytes) (t : Table) (s : State) (l : Bytes)
    → is_empty l ≡ false
    → s.loc_codes ≡ some l
    → s.copy ≡ freed
    → report_srn fru_pn t 0 s ≡ crash double_free
unfolding report_srn
report_srn_freed fru_pn t s [] h e x = cc
report_srn_freed fru_pn t s (c ∷ l) h e x = rw (first_loc_freed s c l e x) refl

between_full : (a b : Bytes) → is_empty (blank_between a b) ≡ false
between_full [] b = refl
between_full (c ∷ a) b = refl

-- The location codes stay a string that is not empty.
arrange_full :
    (loc1 loc2 loc3 codes : Bytes)
    → is_empty codes ≡ false
    → is_empty (arrange loc1 loc2 loc3 codes).1 ≡ false
unfolding arrange
arrange_full loc1 loc2 loc3 codes h =
    ground (arith, between_full loc2 loc1, between_full loc2 (blank_between loc1 loc3))

-- get_cpu_frus returns with its buffer freed and with location codes.
join_blank :
    (c : ℕ) (w : Bytes) (ws : List Bytes) → starts_blank (join ((c ∷ w) ∷ ws)) ≡ (c == b' ')
join_blank c w [] = refl
join_blank c w (v ∷ ws) = refl

join_full : (c : ℕ) (w : Bytes) (ws : List Bytes) → is_empty (join ((c ∷ w) ∷ ws)) ≡ false
join_full c w [] = refl
join_full c w (v ∷ ws) = refl

get_cpu_frus-freed :
    (s : State) (c : ℕ) (w : Bytes) (ws : List Bytes)
    → Words ((c ∷ w) ∷ ws)
    → s.loc_codes ≡ some (join ((c ∷ w) ∷ ws))
    → IsUsable s.copy
    → (rc : CpuFrus) × (s' : State) × (l : Bytes) × (get_cpu_frus s ≡ done (rc, s'))
      × (s'.loc_codes ≡ some l)
      × (is_empty l ≡ false)
      × (s'.copy ≡ freed)
unfolding get_cpu_frus free_first
get_cpu_frus-freed s c w ws h e u =
    let codes = join ((c ∷ w) ∷ ws) in
    let first = first_loc-join s (c ∷ w) ws h e u in
    let blank = join_blank c w ws ∙ h.0.0 in
    let some_locs : (suc (length ws) == 0) ≡ false = ground arith in
    let st = located ((c ∷ w) ∷ ws) s in
    elim (Option-cases (further_locs (suc (length ws)) st.rest)) [
      | inl no_more ↦ (
        rc_invalid,
        record st { copy = freed },
        codes,
        rw (e, get_cpu_frus) (rw first (rw some_locs (rw no_more (rw blank refl)))),
        refl,
        join_full c w ws,
        refl,
      )
      | inr (p, more) ↦
          let a = arrange (c ∷ w) p.0 p.1 codes in
          (
            a.0,
            record st { loc_codes = some (a.1); copy = freed },
            a.1,
            rw (e, get_cpu_frus) (rw first (rw some_locs (rw more (rw blank refl)))),
            refl,
            arrange_full (c ∷ w) p.0 p.1 codes (join_full c w ws),
            refl,
          )
    ]

-- Let the log have locations, words with a blank between them, and let the buffer of get_loc_code
-- not be freed. The action report_bus, which is that of an address or data error or a transfer
-- error of the processor bus, frees that buffer twice.
pub perform_bus-crash :
    (fru_pn : Bytes → Option Bytes) (e : Event) (error_type : ℕ) (t1 t2 t3 : Table) (s : State)
    (w : Bytes) (ws : List Bytes)
    → Words (w ∷ ws)
    → s.loc_codes ≡ some (join (w ∷ ws))
    → IsUsable s.copy
    → perform fru_pn e error_type (report_bus t1 t2 t3) s ≡ crash double_free
unfolding perform
perform_bus-crash fru_pn e error_type t1 t2 t3 s [] ws h codes u = absurd (h.0)
perform_bus-crash fru_pn e error_type t1 t2 t3 s (c ∷ w) ws h codes u =
    let (rc, s', l, returned, l_codes, full, is_freed) = get_cpu_frus-freed s c w ws h codes u in
    rw returned (report_srn_freed fru_pn (bus_table t1 t2 t3 rc) s' l full l_codes is_freed)
