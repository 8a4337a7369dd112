-- ===== src/Lpd/Event/Attention.antt =====
-- When an event switches the attention indicator on.
use mathlib.Core.Option.{some-injective}
use ppc64_diag.Lpd.Event.{
  Process, Run, callout_loop, event_fru_callout, finish_run, handle_event, light, light_found,
  parse_service_event, priorities, priority_loop, run_event, set_attn_indicator, valid_location,
  with_hw,
}
use ppc64_diag.Lpd.Event.Lit.{IsOn, set_fault_indicator-IsOn}
use ppc64_diag.Lpd.Indicators.{Platform, led_state_on, set_fault_indicator}
use ppc64_diag.Lpd.Indicators.Reliable.{IsReliable, IsSettable}
use ppc64_diag.Lpd.Location.{LocCode, copy_location, get_fru_indicator, trim_trail_space}
use ppc64_diag.Lpd.Supported.{SlCallout, SlEvent, service_event_supported}
use ppc64_diag.Base.{
  ℕ, zero, suc, ◌==◌, ◌≡◌, ◌⊎◌, inl, inr, refl, sym, ap, subst, ◌∙◌, arith, Bool, true, false,
  if◌then◌else◌, List, [], ◌∷◌, Option, some, none, get_elem?,
}
use ppc64_diag.Elog.Memory.{Bytes}

-- A callout without a location, or with one for which no indicator is found.
abbrev pub IsUnplaced : List LocCode → SlCallout → Type 0
IsUnplaced list c =
    (valid_location c.location ≡ none)
    ⊎ (location : Bytes) × (valid_location c.location ≡ some location)
      × (get_fru_indicator list (trim_trail_space (copy_location location)) false ≡ none)

module _ {S : Type 0} (platform : Platform S) where
  light-keeps_attn :
      (b : Bool) (list : List LocCode) (location : Option Bytes) (r : Run S)
      → r.attn_on ≡ true
      → (if b then light platform list location r else r).attn_on ≡ true
  unfolding light light_found
  light-keeps_attn false list location r h = h
  light-keeps_attn true list none r h = refl
  light-keeps_attn true list (some location) r h =
      elim (get_fru_indicator list (trim_trail_space (copy_location location)) false)
        as (λ found. (light_found platform found r).attn_on ≡ true) [ none ↦ refl | some found ↦ h ]

  callout_loop-keeps_attn :
      (callouts : List SlCallout) (list : List LocCode) (p : ℕ) (r : Run S)
      → r.attn_on ≡ true
      → (callout_loop platform callouts list p r).attn_on ≡ true
  unfolding callout_loop
  callout_loop-keeps_attn [] list p r h = h
  callout_loop-keeps_attn (c ∷ callouts) list p r h =
      callout_loop-keeps_attn callouts list p _
        (light-keeps_attn (c.priority == p) list (valid_location c.location) r h)

  priority_loop-keeps_attn :
      (ps : List ℕ) (callouts : List SlCallout) (list : List LocCode) (r : Run S)
      → r.attn_on ≡ true
      → (priority_loop platform ps callouts list r).attn_on ≡ true
  unfolding priority_loop event_fru_callout
  priority_loop-keeps_attn [] callouts list r h = h
  priority_loop-keeps_attn (p ∷ ps) callouts list r h =
      priority_loop-keeps_attn ps callouts list _ (callout_loop-keeps_attn callouts list p _ h)

  light_attn :
      (list : List LocCode) (c : SlCallout) (r : Run S)
      → IsUnplaced list c
      → (light platform list (valid_location c.location) r).attn_on ≡ true
  unfolding light light_found
  light_attn list c r (inl e) = subst (λ o. (light platform list o r).attn_on ≡ true) (sym e) refl
  light_attn list c r (inr (location, e, nothing)) =
      subst (λ o. (light platform list o r).attn_on ≡ true) (sym e)
        (subst (λ o. (light_found platform o r).attn_on ≡ true) (sym nothing) refl)

  callout_turn_attn :
      (list : List LocCode) (d c : SlCallout) (r : Run S)
      → d ≡ c
      → IsUnplaced list c
      → (if d.priority == c.priority
          then light platform list (valid_location d.location) r
          else r).attn_on
        ≡ true
  callout_turn_attn list d c r e u =
      let same : (c.priority == c.priority) ≡ true = ground arith in
      let turn : Bool → SlCallout → Type 0 = λ b x.
        (if b then light platform list (valid_location x.location) r else r).attn_on ≡ true in
      subst (λ x. turn (x.priority == c.priority) x) (sym e)
        (subst (λ b. turn b c) (sym same) (light_attn list c r u))

  callout_loop_attn :
      (callouts : List SlCallout) (list : List LocCode) (i : ℕ) (c : SlCallout) (r : Run S)
      → get_elem? callouts i ≡ some c
      → IsUnplaced list c
      → (callout_loop platform callouts list c.priority r).attn_on ≡ true
  unfolding callout_loop
  callout_loop_attn [] list i c r e u = absurd cc
  callout_loop_attn (d ∷ callouts) list zero c r e u =
      callout_loop-keeps_attn callouts list c.priority _
        (callout_turn_attn list d c r (some-injective _ _ e) u)
  callout_loop_attn (d ∷ callouts) list (suc i) c r e u = callout_loop_attn callouts list i c _ e u

  priority_loop_attn :
      (ps : List ℕ) (callouts : List SlCallout) (list : List LocCode) (k i : ℕ) (c : SlCallout)
      (r : Run S)
      → get_elem? ps k ≡ some c.priority
      → get_elem? callouts i ≡ some c
      → IsUnplaced list c
      → (priority_loop platform ps callouts list r).attn_on ≡ true
  unfolding priority_loop event_fru_callout
  priority_loop_attn [] callouts list k i c r p e u = absurd cc
  priority_loop_attn (q ∷ ps) callouts list zero i c r p e u =
      let start : Run S = record r { rc = true } in
      priority_loop-keeps_attn ps callouts list _ (
        subst (λ x. (callout_loop platform callouts list x start).attn_on ≡ true)
          (sym (some-injective _ _ p)) (callout_loop_attn callouts list i c start e u))
  priority_loop_attn (q ∷ ps) callouts list (suc k) i c r p e u =
      priority_loop_attn ps callouts list k i c _ p e u

  run_event_attn :
      (rtas_event : Bool) (callouts : List SlCallout) (list : List LocCode) (k i : ℕ)
      (c : SlCallout) (s : S)
      → get_elem? (priorities rtas_event) k ≡ some c.priority
      → get_elem? callouts i ≡ some c
      → IsUnplaced list c
      → (run_event platform true rtas_event callouts list s).attn_on ≡ true
  unfolding run_event
  run_event_attn rtas_event [] list k i c s p e u = absurd cc
  run_event_attn rtas_event (d ∷ callouts) list k i c s p e u =
      priority_loop_attn (priorities rtas_event) (d ∷ callouts) list k i c _ p e u

-- Let the hooks of the platform be reliable, and the attention indicator be one that can be set.
-- Let a supported event come in light path mode with a callout of a priority that is gone through,
-- which has no location, or one for which no indicator is found. Then the attention indicator, the
-- first of the list, is on behind parse_service_event.
pub parse_service_event-attn :
    {S : Type 0} (platform : Platform S) (reliable : IsReliable platform) (event : SlEvent)
    (attn_loc : LocCode) (list : List LocCode) (p : Process S) (rtas_event : Bool) (k i : ℕ)
    (c : SlCallout)
    → service_event_supported event.sl_type p.rtas_event ≡ (true, rtas_event)
    → get_elem? (priorities rtas_event) k ≡ some c.priority
    → get_elem? event.callouts i ≡ some c
    → IsUnplaced (attn_loc ∷ list) c
    → IsSettable platform attn_loc
    → (rc : Bool) × (p' : Process S) × (parse_service_event platform true
          (some (some event))
          (some (attn_loc ∷ list))
          p
        ≡ some (rc, p'))
      × IsOn platform attn_loc p'.hw
unfolding parse_service_event handle_event finish_run set_attn_indicator with_hw
parse_service_event-attn platform reliable event attn_loc list p rtas_event k i c sup prio at u
      settable =
    let all = attn_loc ∷ list in
    let q = record p { rtas_event = rtas_event } in
    let r = run_event platform true rtas_event event.callouts all p.hw in
    let set = set_fault_indicator platform attn_loc led_state_on r.hw in
    let asked = run_event_attn platform rtas_event event.callouts all k i c p.hw prio at u in
    let result : Bool × Bool → Option (Bool × Process _) = λ x.
      let next = record p { rtas_event = x.1 } in
      if x.0 then handle_event platform true event (some all) next else some (true, next) in
    (
      set.0,
      record q { hw = set.1 },
      ap result sup ∙ ap (λ b. with_hw q (finish_run platform all led_state_on b r)) asked,
      set_fault_indicator-IsOn platform reliable attn_loc r.hw settable,
    )
