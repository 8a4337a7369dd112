-- ===== src/Lpd/Repair/Cleared.antt =====
-- A repair switches off the indicators that no open event asks for, and where it looks for them.
use ppc64_diag.Errd.Files.{same_name}
use ppc64_diag.Errd.Files.Names.{same_name_eq}
use ppc64_diag.Lpd.Event.{Process, Run, finish_run, set_attn_indicator, with_hw}
use ppc64_diag.Lpd.Indicators.{Platform, led_state_off, led_type_fault, set_fault_indicator}
use ppc64_diag.Lpd.Indicators.Reliable.{IsReliable, IsSettable, set_unless-sets, set_unless-keeps}
use ppc64_diag.Lpd.Repair.{
  collect, in_frus, no_frus, parse_repair_event, repair_found, repair_fru_callout,
  repair_indicators, repair_light_path, repair_loop, with_open,
}
use ppc64_diag.Lpd.Repair.Locations.{IsPlaced, collect-in}
use ppc64_diag.Lpd.Location.{Found, LocCode, copy_location, get_indicator_for_loc_code}
use ppc64_diag.Lpd.Location.Nearest.{get_fru_indicator_sound}
use ppc64_diag.Lpd.Supported.{SlCallout, SlEvent, service_event_supported}
use ppc64_diag.Base.{
  ℕ, ◌≡◌, refl, sym, ap, subst, ◌∙◌, Bool, true, false, not, ◌&&◌, Bool-cases, inl, inr,
  if◌then◌else◌, List, [], ◌∷◌, some, none, get_elem?,
}
use ppc64_diag.Elog.Memory.{Bytes}

module _ {S : Type 0} (platform : Platform S) (reliable : IsReliable platform) where
  abbrev pub IsOff : LocCode → S → Type 0
  IsOff m s = platform.get_indicator_state led_type_fault m s ≡ some led_state_off

  set_fault_indicator-IsOff :
      (l m : LocCode) (s : S)
      → IsOff m s
      → IsOff m (set_fault_indicator platform l led_state_off s).1
  unfolding set_fault_indicator
  set_fault_indicator-IsOff l m s h =
      set_unless-keeps platform reliable led_type_fault l m led_state_off s h

  repair_turn-IsOff :
      (b : Bool) (fru : Bytes) (list : List LocCode) (m : LocCode) (r : Run S)
      → IsOff m r.hw
      → IsOff m (if b then r else repair_fru_callout platform fru list r).hw
  unfolding repair_fru_callout repair_found
  repair_turn-IsOff true fru list m r h = h
  repair_turn-IsOff false fru list m r h =
      elim (get_indicator_for_loc_code list fru) as (λ o. IsOff m (repair_found platform o r).hw) [
        | none ↦ h
        | some led ↦ set_fault_indicator-IsOff led m r.hw h
      ]

  repair_loop-IsOff :
      (r_frus o_frus : List Bytes) (list : List LocCode) (m : LocCode) (r : Run S)
      → IsOff m r.hw
      → IsOff m (repair_loop platform r_frus o_frus list r).hw
  unfolding repair_loop
  repair_loop-IsOff [] o_frus list m r h = h
  repair_loop-IsOff (fru ∷ r_frus) o_frus list m r h =
      repair_loop-IsOff r_frus o_frus list m _
        (repair_turn-IsOff (in_frus o_frus fru) fru list m r h)

  repair_fru_callout-IsOff :
      (fru : Bytes) (list : List LocCode) (led : LocCode) (r : Run S)
      → get_indicator_for_loc_code list fru ≡ some led
      → IsSettable platform led
      → IsOff led (repair_fru_callout platform fru list r).hw
  unfolding repair_fru_callout repair_found set_fault_indicator
  repair_fru_callout-IsOff fru list led r e settable =
      subst (λ o. IsOff led (repair_found platform o r).hw) (sym e)
        (set_unless-sets platform reliable led led_state_off r.hw settable)

  -- A location of the list that no open event keeps.
  repair_loop-clears :
      (r_frus o_frus : List Bytes) (list : List LocCode) (x : Bytes) (led : LocCode) (r : Run S)
      → in_frus r_frus x ≡ true
      → in_frus o_frus x ≡ false
      → get_indicator_for_loc_code list x ≡ some led
      → IsSettable platform led
      → IsOff led (repair_loop platform r_frus o_frus list r).hw
  unfolding repair_loop in_frus
  repair_loop-clears [] o_frus list x led r h k e settable = absurd cc
  repair_loop-clears (fru ∷ r_frus) o_frus list x led r h k e settable =
      elim (Bool-cases (same_name fru x)) [
        | inl here ↦
            let same = same_name_eq fru x here in
            repair_loop-IsOff r_frus o_frus list led _ (
              subst (λ b. IsOff led (if b then r else repair_fru_callout platform fru list r).hw)
                (sym (ap (in_frus o_frus) same ∙ k))
                (repair_fru_callout-IsOff fru list led r
                  (ap (get_indicator_for_loc_code list) same ∙ e) settable))
        | inr there ↦
            repair_loop-clears r_frus o_frus list x led _
              (sym (ap (λ b. if b then true else in_frus r_frus x) there) ∙ h) k e settable
      ]

  finish_run-IsOff :
      (attn_loc : LocCode) (list : List LocCode) (b : Bool) (m : LocCode) (r : Run S)
      (p : Process S)
      → IsOff m r.hw
      → (rc : Bool) × (p' : Process S) × (with_hw p
            (finish_run platform (attn_loc ∷ list) led_state_off b r)
          ≡ some (rc, p'))
        × IsOff m p'.hw
  unfolding finish_run with_hw set_attn_indicator
  finish_run-IsOff attn_loc list false m r p h = (r.rc, record p { hw = r.hw }, refl, h)
  finish_run-IsOff attn_loc list true m r p h =
      let set = set_fault_indicator platform attn_loc led_state_off r.hw in
      (set.0, record p { hw = set.1 }, refl, set_fault_indicator-IsOff attn_loc m r.hw h)

  -- Let the hooks of the platform be reliable, and a repair be handled in light path mode. Let a closed,
  -- supported event have a callout for whose location an indicator is found that can be set, and let
  -- the location at which it is found not be among those of the open events. Then parse_repair_event
  -- does not stop at a null pointer, and that indicator is off.
  pub parse_repair_event-clears :
      (closed still_open : List SlEvent) (attn_loc : LocCode) (list : List LocCode) (p : Process S)
      (j i : ℕ) (event : SlEvent) (c : SlCallout) (found : Found)
      → get_elem? closed j ≡ some event
      → (service_event_supported event.sl_type false).0 ≡ true
      → get_elem? event.callouts i ≡ some c
      → IsPlaced (attn_loc ∷ list) c found
      → IsSettable platform found.led
      → let gone = collect closed (attn_loc ∷ list) (p.rtas_event, no_frus) in
        in_frus (collect still_open (attn_loc ∷ list) (gone.0, no_frus)).1.frus found.location
          ≡ false
        → (rc : Bool) × (p' : Process S) × (parse_repair_event platform true
              (some closed)
              (some still_open)
              (some (attn_loc ∷ list))
              p
            ≡ some (rc, p'))
          × IsOff found.led p'.hw
  unfolding parse_repair_event with_open repair_indicators repair_light_path
  parse_repair_event-clears [] still_open attn_loc list p j i event c found at sup at_c placed
        settable free =
      absurd cc
  parse_repair_event-clears (d ∷ closed) still_open attn_loc list p j i event c found at sup at_c
        placed settable free =
      let all = attn_loc ∷ list in
      let gone = collect (d ∷ closed) all (p.rtas_event, no_frus) in
      let still = collect still_open all (gone.0, no_frus) in
      let start : Run S = record { rc = true; attn_on = gone.1.attn; hw = p.hw } in
      let r = repair_loop platform gone.1.frus still.1.frus all start in
      let (location, valid, nearest) = placed in
      let at_found = (get_fru_indicator_sound all (copy_location location) false nearest).1 in
      let listed =
        collect-in (d ∷ closed) all j i event c found (p.rtas_event, no_frus) at sup at_c placed in
      let off =
        repair_loop-clears gone.1.frus still.1.frus all found.location found.led start listed free
          at_found settable in
      finish_run-IsOff attn_loc list (not still.1.attn && r.attn_on) found.led r
        (record p { rtas_event = still.0 }) off
