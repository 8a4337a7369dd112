-- ===== src/Rtas/Ela/Warnings/Resets.antt =====
-- What a reset that was saved does to the warnings of its type.
use ppc64_diag.Rtas.Ela.Warnings.{find_reset, has_epow_reset, process_epow, save_epow_reset}
use ppc64_diag.Rtas.Ela.Message.{menu_number, msgmenug202}
use ppc64_diag.Rtas.Ela.Report.{report_menugoal}
use ppc64_diag.Rtas.Ela.State.{Event, Reset, State, done, menu}
use ppc64_diag.Base.{
  ℕ, ◌-◌, ◌%◌, ◌^◌, ◌≡◌, ◌≢◌, Bool, refl, arith, ◌==◌, ==_iff, true, false, List, ◌∷◌, Option, some,
}
use ppc64_diag.Elog.Memory.{Bytes}

-- The reset of a type, as it is saved and as it is marked when a warning has met it.
abbrev pub saved_reset : ℕ → Bool → Reset
saved_reset reset valid = record { err_type = reset; valid_reset = valid }

-- A reset at the head of the list, marked or not, answers a warning of its type.
answered :
    (fru_pn : Bytes → Option Bytes) (e : Event) (reset error_type : ℕ) (valid : Bool)
    (rs : List Reset) (s : State)
    → reset ≡ error_type - error_type % 256
    → reset - reset % 2 ^ 24 ≡ 0x5000000
    → error_type % 16 ≢ 0
    → s.epow_reset_list ≡ saved_reset reset valid ∷ rs
    → process_epow fru_pn e error_type s
      ≡ done (
        1,
        report_menugoal msgmenug202 (record s { epow_reset_list = saved_reset reset false ∷ rs }),
      )
unfolding process_epow has_epow_reset
answered fru_pn e reset error_type valid rs s same kind class list =
    let epow : error_type - error_type % 2 ^ 24 ≡ 0x5000000 = omega arith in
    let is_epow : (error_type - error_type % 2 ^ 24 == 0x5000000) ≡ true = (==_iff _ _).1 epow in
    let is_error : (error_type % 16 == 0) ≡ false = ground arith in
    let found : (reset == error_type - error_type % 256) ≡ true = (==_iff _ _).1 same in
    let hit : find_reset error_type s.epow_reset_list ≡ some (saved_reset reset false ∷ rs) =
      rw list (unfold find_reset in rw found refl) in
    rw is_epow (rw is_error (rw (hit, has_epow_reset) refl))

-- Let a log say that the warnings of a type are over, and let two warnings of the type follow it.
-- process_epow saves the reset, reports nothing and leaves the log to the next analysis. It answers
-- the first warning with the goal of a corrected problem, adds no callout, and marks the reset,
-- before the resets that were there. The mark does not end the reset: the second warning gets the
-- same answer.
pub process_epow-reset :
    (fru_pn : Bytes → Option Bytes) (e e' e'' : Event) (reset error_type : ℕ) (s : State)
    → reset ≡ error_type - error_type % 256
    → reset - reset % 2 ^ 24 ≡ 0x5000000
    → error_type % 16 ≢ 0
    → (s1 : State) × (s2 : State) × (s3 : State) × (process_epow fru_pn e reset s ≡ done (0, s1))
      × (s1.refcode ≡ s.refcode)
      × (process_epow fru_pn e' error_type s1 ≡ done (1, s2))
      × (s2.refcode ≡ some (menu 651202))
      × (s2.callouts ≡ s.callouts)
      × (s2.epow_reset_list ≡ saved_reset reset false ∷ s.epow_reset_list)
      × (process_epow fru_pn e'' error_type s2 ≡ done (1, s3))
      × (s3.refcode ≡ some (menu 651202))
      × (s3.callouts ≡ s.callouts)
      × (s3.epow_reset_list ≡ s2.epow_reset_list)
unfolding process_epow save_epow_reset report_menugoal menu_number
process_epow-reset fru_pn e e' e'' reset error_type s same kind class =
    let is_epow : (reset - reset % 2 ^ 24 == 0x5000000) ≡ true = (==_iff _ _).1 kind in
    let is_reset : (reset % 16 == 0) ≡ true = (==_iff _ _).1 (omega arith) in
    let s1 = save_epow_reset reset s in
    let s2 =
      report_menugoal msgmenug202
        (record s1 { epow_reset_list = saved_reset reset false ∷ s.epow_reset_list }) in
    let s3 =
      report_menugoal msgmenug202
        (record s2 { epow_reset_list = saved_reset reset false ∷ s.epow_reset_list }) in
    (
      s1,
      s2,
      s3,
      rw is_epow (rw is_reset refl),
      refl,
      answered fru_pn e' reset error_type true s.epow_reset_list s1 same kind class refl,
      refl,
      refl,
      refl,
      answered fru_pn e'' reset error_type false s.epow_reset_list s2 same kind class refl,
      refl,
      refl,
      refl,
    )
