-- ===== src/Lpd/Event/Lit.antt =====
-- Which indicators are on behind an event.
use mathlib.Core.Option.{some-injective}
use ppc64_diag.Lpd.Event.{
  Process, Run, callout_loop, event_fru_callout, finish_run, handle_event, light, light_found,
  parse_service_event, priorities, priority_loop, run_event, set_attn_indicator, valid_location,
  with_hw,
}
use ppc64_diag.Lpd.Indicators.{Platform, led_state_on, led_type_fault, set_fault_indicator}
use ppc64_diag.Lpd.Indicators.Reliable.{IsReliable, IsSettable, set_unless-sets, set_unless-keeps}
use ppc64_diag.Lpd.Location.{
  Found, LocCode, copy_location, get_fru_indicator, get_indicator_for_loc_code, trim_trail_space,
}
use ppc64_diag.Lpd.Location.Nearest.{IsAncestor, get_fru_indicator-nearest}
use ppc64_diag.Lpd.Supported.{SlCallout, SlEvent, service_event_supported}
use ppc64_diag.Base.{
  ℕ, zero, suc, ◌==◌, ◌≡◌, refl, sym, ap, subst, ◌∙◌, arith, Bool, true, false, if◌then◌else◌, List,
  [], ◌∷◌, Option, some, none, get_elem?,
}
use ppc64_diag.Elog.Memory.{Bytes}

module _ {S : Type 0} (platform : Platform S) where
  abbrev pub IsOn : LocCode → S → Type 0
  IsOn loc s = platform.get_indicator_state led_type_fault loc s ≡ some led_state_on

module _ {S : Type 0} (platform : Platform S) (reliable : IsReliable platform) where
  pub set_fault_indicator-IsOn :
      (l : LocCode) (s : S)
      → IsSettable platform l
      → IsOn platform l (set_fault_indicator platform l led_state_on s).1
  unfolding set_fault_indicator
  set_fault_indicator-IsOn l s k = set_unless-sets platform reliable l led_state_on s k

  pub set_fault_indicator-keeps :
      (l m : LocCode) (s : S)
      → IsOn platform m s
      → IsOn platform m (set_fault_indicator platform l led_state_on s).1
  unfolding set_fault_indicator
  set_fault_indicator-keeps l m s h =
      set_unless-keeps platform reliable led_type_fault l m led_state_on s h

  light-keeps :
      (list : List LocCode) (location : Option Bytes) (m : LocCode) (r : Run S)
      → IsOn platform m r.hw
      → IsOn platform m (light platform list location r).hw
  unfolding light light_found
  light-keeps list none m r h = h
  light-keeps list (some location) m r h =
      elim (get_fru_indicator list (trim_trail_space (copy_location location)) false)
        as (λ found. IsOn platform m (light_found platform found r).hw) [
          | none ↦ h
          | some found ↦ set_fault_indicator-keeps found.led m r.hw h
        ]

  callout_turn-keeps :
      (b : Bool) (list : List LocCode) (location : Option Bytes) (m : LocCode) (r : Run S)
      → IsOn platform m r.hw
      → IsOn platform m (if b then light platform list location r else r).hw
  callout_turn-keeps true list location m r h = light-keeps list location m r h
  callout_turn-keeps false list location m r h = h

  callout_loop-keeps :
      (callouts : List SlCallout) (list : List LocCode) (p : ℕ) (m : LocCode) (r : Run S)
      → IsOn platform m r.hw
      → IsOn platform m (callout_loop platform callouts list p r).hw
  unfolding callout_loop
  callout_loop-keeps [] list p m r h = h
  callout_loop-keeps (c ∷ callouts) list p m r h =
      callout_loop-keeps callouts list p m _
        (callout_turn-keeps (c.priority == p) list (valid_location c.location) m r h)

  priority_loop-keeps :
      (ps : List ℕ) (callouts : List SlCallout) (list : List LocCode) (m : LocCode) (r : Run S)
      → IsOn platform m r.hw
      → IsOn platform m (priority_loop platform ps callouts list r).hw
  unfolding priority_loop event_fru_callout
  priority_loop-keeps [] callouts list m r h = h
  priority_loop-keeps (p ∷ ps) callouts list m r h =
      priority_loop-keeps ps callouts list m _ (callout_loop-keeps callouts list p m _ h)

  -- What a callout asks for: the indicator that is found for its location.
  Asks : List LocCode → SlCallout → Found → Type 0
  Asks list c found =
      (location : Bytes) × (valid_location c.location ≡ some location)
      × (get_fru_indicator list (trim_trail_space (copy_location location)) false ≡ some found)
      × IsSettable platform found.led

  light-IsOn :
      (list : List LocCode) (c : SlCallout) (found : Found) (r : Run S)
      → Asks list c found
      → IsOn platform found.led (light platform list (valid_location c.location) r).hw
  unfolding light light_found Asks
  light-IsOn list c found r (location, valid, at, k) =
      let lit : light platform list (valid_location c.location) r
          ≡ light_found platform (some found) r =
        ap (λ o. light platform list o r) valid ∙ ap (λ o. light_found platform o r) at in
      subst (λ x. IsOn platform found.led x.hw) (sym lit)
        (set_fault_indicator-IsOn found.led r.hw k)

  callout_turn-IsOn :
      (list : List LocCode) (d c : SlCallout) (found : Found) (r : Run S)
      → d ≡ c
      → Asks list c found
      → IsOn platform found.led
          (if d.priority == c.priority
            then light platform list (valid_location d.location) r
            else r).hw
  callout_turn-IsOn list d c found r e a =
      let same : (c.priority == c.priority) ≡ true = ground arith in
      let turn : Bool → SlCallout → Type 0 = λ b x.
        IsOn platform found.led
          (if b then light platform list (valid_location x.location) r else r).hw in
      subst (λ x. turn (x.priority == c.priority) x) (sym e)
        (subst (λ b. turn b c) (sym same) (light-IsOn list c found r a))

  callout_loop-IsOn :
      (callouts : List SlCallout) (list : List LocCode) (i : ℕ) (c : SlCallout) (found : Found)
      (r : Run S)
      → get_elem? callouts i ≡ some c
      → Asks list c found
      → IsOn platform found.led (callout_loop platform callouts list c.priority r).hw
  unfolding callout_loop
  callout_loop-IsOn [] list i c found r e a = absurd cc
  callout_loop-IsOn (d ∷ callouts) list zero c found r e a =
      callout_loop-keeps callouts list c.priority found.led _
        (callout_turn-IsOn list d c found r (some-injective _ _ e) a)
  callout_loop-IsOn (d ∷ callouts) list (suc i) c found r e a =
      callout_loop-IsOn callouts list i c found _ e a

  priority_loop-IsOn :
      (ps : List ℕ) (callouts : List SlCallout) (list : List LocCode) (k i : ℕ) (c : SlCallout)
      (found : Found) (r : Run S)
      → get_elem? ps k ≡ some c.priority
      → get_elem? callouts i ≡ some c
      → Asks list c found
      → IsOn platform found.led (priority_loop platform ps callouts list r).hw
  unfolding priority_loop event_fru_callout
  priority_loop-IsOn [] callouts list k i c found r p e a = absurd cc
  priority_loop-IsOn (q ∷ ps) callouts list zero i c found r p e a =
      let on = callout_loop-IsOn callouts list i c found (record r { rc = true }) e a in
      let lit : Run S → ℕ → Run S = λ r x. callout_loop platform callouts list x r in
      priority_loop-keeps ps callouts list found.led _ (
        subst (λ x. IsOn platform found.led (lit (record r { rc = true }) x).hw)
          (sym (some-injective _ _ p)) on)
  priority_loop-IsOn (q ∷ ps) callouts list (suc k) i c found r p e a =
      priority_loop-IsOn ps callouts list k i c found _ p e a

  finish_run-keeps :
      (list : List LocCode) (attn : Bool) (m : LocCode) (r : Run S) (p : Process S) (a : Bytes)
      {led : LocCode}
      → get_indicator_for_loc_code list a ≡ some led
      → IsOn platform m r.hw
      → (rc : Bool) × (p' : Process S) × (with_hw p (finish_run platform list led_state_on attn r)
          ≡ some (rc, p'))
        × IsOn platform m p'.hw
  unfolding finish_run with_hw set_attn_indicator get_indicator_for_loc_code
  finish_run-keeps list false m r p a e h = (r.rc, record p { hw = r.hw }, refl, h)
  finish_run-keeps [] true m r p a e h = absurd cc
  finish_run-keeps (l ∷ list) true m r p a e h =
      let set = set_fault_indicator platform l led_state_on r.hw in
      (set.0, record p { hw = set.1 }, refl, set_fault_indicator-keeps l m r.hw h)

  run_event-IsOn :
      (rtas_event : Bool) (callouts : List SlCallout) (list : List LocCode) (k i : ℕ)
      (c : SlCallout) (found : Found) (s : S)
      → get_elem? (priorities rtas_event) k ≡ some c.priority
      → get_elem? callouts i ≡ some c
      → Asks list c found
      → IsOn platform found.led (run_event platform true rtas_event callouts list s).hw
  unfolding run_event
  run_event-IsOn rtas_event [] list k i c found s p e a = absurd cc
  run_event-IsOn rtas_event (d ∷ callouts) list k i c found s p e a =
      priority_loop-IsOn (priorities rtas_event) (d ∷ callouts) list k i c found _ p e a

  -- Let the hooks of the platform be reliable, and each indicator of the list be one that can be set. Let
  -- a supported event come in light path mode with a callout of a priority that is gone through. Let some part of its location up to a dash, or all of it, have
  -- an indicator, behind the trailing white space is cut off. Then parse_service_event does not stop
  -- at a null pointer, and the fault indicator that get_fru_indicator finds for the location is on.
  pub parse_service_event-lit :
      (event : SlEvent) (list : List LocCode) (p : Process S) (rtas_event : Bool) (k i : ℕ)
      (c : SlCallout) (location a : Bytes) {led : LocCode}
      → service_event_supported event.sl_type p.rtas_event ≡ (true, rtas_event)
      → get_elem? (priorities rtas_event) k ≡ some c.priority
      → get_elem? event.callouts i ≡ some c
      → valid_location c.location ≡ some location
      → IsAncestor a (trim_trail_space (copy_location location))
      → get_indicator_for_loc_code list a ≡ some led
      → ((x : Bytes) (l : LocCode)
          → get_indicator_for_loc_code list x ≡ some l
          → IsSettable platform l)
      → (rc : Bool) × (p' : Process S) × (found : Found) × (parse_service_event platform true
            (some (some event))
            (some list)
            p
          ≡ some (rc, p'))
        × (get_fru_indicator list (trim_trail_space (copy_location location)) false ≡ some found)
        × IsOn platform found.led p'.hw
  unfolding parse_service_event handle_event Asks
  parse_service_event-lit event list p rtas_event k i c location a sup prio at valid above e
        settable =
      let (found, nearest, more, at_found, longest) =
        get_fru_indicator-nearest list (trim_trail_space (copy_location location)) a false above
          e in
      let on =
        run_event-IsOn rtas_event event.callouts list k i c found p.hw prio at
          (location, valid, nearest, settable _ found.led at_found) in
      let q = record p { rtas_event = rtas_event } in
      let r = run_event platform true rtas_event event.callouts list p.hw in
      let (rc, p', ends, kept) = finish_run-keeps list r.attn_on found.led r q a e on in
      let result : Bool × Bool → Option (Bool × Process S) = λ x.
        let next = record p { rtas_event = x.1 } in
        if x.0 then handle_event platform true event (some list) next else some (true, next) in
      (rc, p', found, ap result sup ∙ ends, nearest, kept)
