-- ===== src/Lpd/Repair/Kept.antt =====
-- A repair leaves the indicators of open events alone.
use mathlib.Core.Bool.{true≢false}
use ppc64_diag.Errd.Files.{same_name}
use ppc64_diag.Errd.Files.Names.{same_name_eq}
use ppc64_diag.Lpd.Event.{Process, Run, finish_run, set_attn_indicator, with_hw}
use ppc64_diag.Lpd.Indicators.{Platform, led_state_off, led_type_fault, set_fault_indicator}
use ppc64_diag.Lpd.Indicators.Reliable.{IsReliable, same_led, set_unless-other}
use ppc64_diag.Lpd.Repair.{
  collect, in_frus, no_frus, parse_repair_event, repair_found, repair_fru_callout,
  repair_indicators, repair_light_path, repair_loop, with_open,
}
use ppc64_diag.Lpd.Repair.Locations.{IsPlaced, collect-in}
use ppc64_diag.Lpd.Location.{Found, LocCode, copy_location, get_indicator_for_loc_code}
use ppc64_diag.Lpd.Location.Nearest.{get_fru_indicator_sound}
use ppc64_diag.Lpd.Supported.{SlCallout, SlEvent, service_event_supported}
use ppc64_diag.Base.{
  ℕ, ◌≡◌, ◌≢◌, refl, sym, ap, subst, ◌∙◌, arith, Bool, true, false, not, ◌&&◌, Bool-cases,
  Option-cases, inl, inr, if◌then◌else◌, List, [], ◌∷◌, some, get_elem?,
}
use ppc64_diag.Elog.Memory.{Bytes}

pub get_indicator_for_loc_code-code :
    (list : List LocCode) (location : Bytes) {led : LocCode}
    → get_indicator_for_loc_code list location ≡ some led
    → led.code ≡ location
unfolding get_indicator_for_loc_code
get_indicator_for_loc_code-code [] location e = absurd cc
get_indicator_for_loc_code-code (l ∷ list) location {led} e =
    elim (Bool-cases (same_name l.code location)) [
      | inl here ↦
          let same : l ≡ led = ground (arith, here) in
          sym (ap (λ x. x.code) same) ∙ same_name_eq l.code location here
      | inr there ↦
          get_indicator_for_loc_code-code list location {led = led} (ground (arith, there))
    ]

module _ {S : Type 0} (platform : Platform S) (reliable : IsReliable platform) where
  abbrev pub Same : LocCode → S → S → Type 0
  Same m s t =
      platform.get_indicator_state led_type_fault m t
      ≡ platform.get_indicator_state led_type_fault m s

  set_fault_indicator-other :
      (l m : LocCode) (v : ℕ) (s : S)
      → same_led l m ≡ false
      → Same m s (set_fault_indicator platform l v s).1
  unfolding set_fault_indicator
  set_fault_indicator-other l m v s h = set_unless-other platform reliable led_type_fault l m v s h

  -- Every other location of the list has another indicator.
  abbrev pub Apart : List LocCode → LocCode → Type 0
  Apart list m =
      (x : Bytes) (l : LocCode)
      → get_indicator_for_loc_code list x ≡ some l
      → m.code ≢ x
      → same_led l m ≡ false

  pub repair_fru_callout-other :
      (fru : Bytes) (list : List LocCode) (m : LocCode) (r : Run S)
      → ((l : LocCode) → get_indicator_for_loc_code list fru ≡ some l → same_led l m ≡ false)
      → Same m r.hw (repair_fru_callout platform fru list r).hw
  unfolding repair_fru_callout repair_found
  repair_fru_callout-other fru list m r h =
      elim (Option-cases (get_indicator_for_loc_code list fru)) [
        | inl e ↦ subst (λ o. Same m r.hw (repair_found platform o r).hw) (sym e) refl
        | inr (led, e) ↦
            subst (λ o. Same m r.hw (repair_found platform o r).hw) (sym e)
              (set_fault_indicator-other led m led_state_off r.hw (h led e))
      ]

  repair_turn-Same :
      (fru : Bytes) (o_frus : List Bytes) (list : List LocCode) (m : LocCode) (r : Run S)
      → in_frus o_frus m.code ≡ true
      → Apart list m
      → Same m r.hw (if in_frus o_frus fru then r else repair_fru_callout platform fru list r).hw
  repair_turn-Same fru o_frus list m r h apart = elim (Bool-cases (in_frus o_frus fru)) [
    | inl kept ↦
        subst (λ b. Same m r.hw (if b then r else repair_fru_callout platform fru list r).hw)
          (sym kept) refl
    | inr gone ↦
        subst (λ b. Same m r.hw (if b then r else repair_fru_callout platform fru list r).hw)
          (sym gone)
          (repair_fru_callout-other fru list m r
            (λ l e. apart fru l e (λ same. true≢false (sym h ∙ (ap (in_frus o_frus) same ∙ gone)))))
  ]

  repair_loop-Same :
      (r_frus o_frus : List Bytes) (list : List LocCode) (m : LocCode) (r : Run S)
      → in_frus o_frus m.code ≡ true
      → Apart list m
      → Same m r.hw (repair_loop platform r_frus o_frus list r).hw
  unfolding repair_loop
  repair_loop-Same [] o_frus list m r h apart = refl
  repair_loop-Same (fru ∷ r_frus) o_frus list m r h apart =
      repair_loop-Same r_frus o_frus list m _ h apart ∙ repair_turn-Same fru o_frus list m r h apart

  pub finish_run-Same :
      (attn_loc : LocCode) (list : List LocCode) (v : ℕ) (b : Bool) (m : LocCode) (r : Run S)
      (p : Process S)
      → same_led attn_loc m ≡ false
      → (rc : Bool) × (p' : Process S) × (with_hw p (finish_run platform (attn_loc ∷ list) v b r)
          ≡ some (rc, p'))
        × Same m r.hw p'.hw
  unfolding finish_run with_hw set_attn_indicator
  finish_run-Same attn_loc list v false m r p h = (r.rc, record p { hw = r.hw }, refl, refl)
  finish_run-Same attn_loc list v true m r p h =
      let set = set_fault_indicator platform attn_loc v r.hw in
      (set.0, record p { hw = set.1 }, refl, set_fault_indicator-other attn_loc m v r.hw h)

  -- Let the hooks of the platform be reliable, and a repair be handled in light path mode. Let an open,
  -- supported event have a callout for whose location an indicator is found that is not the attention
  -- indicator, and let each other location of the list have another indicator. Then
  -- parse_repair_event does not stop at a null pointer, and that indicator reads as before, whichever
  -- events are closed.
  pub parse_repair_event-keeps :
      (closed still_open : List SlEvent) (attn_loc : LocCode) (list : List LocCode) (p : Process S)
      (j i : ℕ) (event : SlEvent) (c : SlCallout) (found : Found)
      → get_elem? still_open j ≡ some event
      → (service_event_supported event.sl_type false).0 ≡ true
      → get_elem? event.callouts i ≡ some c
      → IsPlaced (attn_loc ∷ list) c found
      → same_led attn_loc found.led ≡ false
      → Apart (attn_loc ∷ list) found.led
      → (rc : Bool) × (p' : Process S) × (parse_repair_event platform true
            (some closed)
            (some still_open)
            (some (attn_loc ∷ list))
            p
          ≡ some (rc, p'))
        × Same found.led p.hw p'.hw
  unfolding parse_repair_event with_open repair_indicators repair_light_path
  parse_repair_event-keeps [] still_open attn_loc list p j i event c found at sup at_c placed other
        apart =
      (true, p, refl, refl)
  parse_repair_event-keeps (d ∷ closed) still_open attn_loc list p j i event c found at sup at_c
        placed other apart =
      let all = attn_loc ∷ list in
      let gone = collect (d ∷ closed) all (p.rtas_event, no_frus) in
      let still = collect still_open all (gone.0, no_frus) in
      let r =
        repair_loop platform gone.1.frus still.1.frus all
          record { rc = true; attn_on = gone.1.attn; hw = p.hw } in
      let (location, valid, nearest) = placed in
      let named =
        get_indicator_for_loc_code-code all found.location
          (get_fru_indicator_sound all (copy_location location) false nearest).1 in
      let listed =
        ap (in_frus still.1.frus) named
        ∙ collect-in still_open all j i event c found (gone.0, no_frus) at sup at_c placed in
      let (rc, p', ends, same) =
        finish_run-Same attn_loc list led_state_off (not still.1.attn && r.attn_on) found.led r
          (record p { rtas_event = still.0 }) other in
      (rc, p', ends, same ∙ repair_loop-Same gone.1.frus still.1.frus all found.led _ listed apart)
