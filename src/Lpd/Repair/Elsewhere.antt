-- ===== src/Lpd/Repair/Elsewhere.antt =====
-- A location with trailing white space is looked for at two places.
use ppc64_diag.Lpd.Event.{Process, Run, valid_location}
use ppc64_diag.Lpd.Indicators.{Platform, led_state_off}
use ppc64_diag.Lpd.Indicators.Reliable.{IsReliable, same_led}
use mathlib.Core.Option.{some-injective}
use ppc64_diag.Lpd.Repair.{
  add_callout, add_found, add_fru, build_callout_loc_code, build_loop, collect, in_frus, no_frus,
  parse_repair_event, repair_indicators, repair_light_path, repair_loop, with_open,
}
use ppc64_diag.Lpd.Repair.Kept.{Same, finish_run-Same, repair_fru_callout-other}
use ppc64_diag.Lpd.Repair.Locations.{copy_location-location}
use ppc64_diag.Lpd.Location.{
  Found, LocCode, copy_location, get_fru_indicator, get_indicator_for_loc_code, retry,
  trim_trail_space, truncate_loc_code,
}
use ppc64_diag.Lpd.Location.Nearest.{truncate_loc_code_nil}
use ppc64_diag.Lpd.Supported.{SlCallout, SlEvent, service_event_supported}
use ppc64_diag.Base.{
  ◌≡◌, sym, ap, subst, ◌∙◌, arith, Bool, true, false, if◌then◌else◌, List, [], ◌∷◌, some, none,
}
use ppc64_diag.Elog.Memory.{Bytes}

found_here :
    (list : List LocCode) (code : Bytes) (truncated : Bool) {led : LocCode}
    → get_indicator_for_loc_code list code ≡ some led
    → get_fru_indicator list code truncated
      ≡ some record { led = led; location = code; truncated = truncated }
unfolding get_fru_indicator retry
found_here list code truncated e = ground (arith, e)

found_above :
    (list : List LocCode) (code q : Bytes) (truncated : Bool) {led : LocCode}
    → get_indicator_for_loc_code list code ≡ none
    → truncate_loc_code code ≡ some q
    → get_indicator_for_loc_code list q ≡ some led
    → get_fru_indicator list code truncated
      ≡ some record { led = led; location = q; truncated = true }
unfolding get_fru_indicator retry truncate_loc_code
found_above list [] q truncated nothing cut e = absurd (ground (arith, truncate_loc_code_nil))
found_above list (x ∷ code) q truncated nothing cut e = ground (arith, nothing, cut, e)

-- The only location of an event with one callout.
one_fru :
    (list : List LocCode) (c : SlCallout) (location : Bytes) (found : Found)
    → valid_location c.location ≡ some location
    → get_fru_indicator list (copy_location location) false ≡ some found
    → (build_callout_loc_code (c ∷ []) list no_frus).frus ≡ found.location ∷ []
unfolding build_callout_loc_code build_loop add_callout add_found add_fru no_frus in_frus
one_fru list c location found valid at =
    ap (λ o. (add_callout list o no_frus).frus) valid
    ∙ (ap (λ o. (add_found o no_frus).frus) at
        ∙ ap (λ x. x ∷ []) (copy_location-location list location at))

module _ {S : Type 0} (platform : Platform S) (reliable : IsReliable platform) where
  one_repair :
      (attn_loc : LocCode) (list : List LocCode) (m : LocCode) (q : Bytes) (r : Run S)
      → ((l : LocCode)
          → get_indicator_for_loc_code (attn_loc ∷ list) q ≡ some l
          → same_led l m ≡ false)
      → Same platform reliable m r.hw (repair_loop platform (q ∷ []) [] (attn_loc ∷ list) r).hw
  unfolding repair_loop in_frus
  one_repair attn_loc list m q r h =
      repair_fru_callout-other platform reliable q (attn_loc ∷ list) m r h

  -- Let the hooks of the platform be reliable, and let an event have one callout, whose location has trailing white
  -- space. Let the location without it have an indicator, and let the location as it stands have
  -- none, but what truncate_loc_code leaves of it have another one. Then the event is placed at the
  -- first indicator when it comes, but when it is closed, with no event open, parse_repair_event
  -- leaves this indicator as it is.
  pub parse_repair_event_misses :
      (event : SlEvent) (attn_loc : LocCode) (list : List LocCode) (p : Process S) (c : SlCallout)
      (location q : Bytes) {led led' : LocCode}
      → (service_event_supported event.sl_type p.rtas_event).0 ≡ true
      → event.callouts ≡ c ∷ []
      → valid_location c.location ≡ some location
      → get_indicator_for_loc_code (attn_loc ∷ list) (trim_trail_space (copy_location location))
        ≡ some led
      → get_indicator_for_loc_code (attn_loc ∷ list) (copy_location location) ≡ none
      → truncate_loc_code (copy_location location) ≡ some q
      → get_indicator_for_loc_code (attn_loc ∷ list) q ≡ some led'
      → same_led led' led ≡ false
      → same_led attn_loc led ≡ false
      → (rc : Bool) × (p' : Process S) × (get_fru_indicator
            (attn_loc ∷ list)
            (trim_trail_space (copy_location location))
            false
          ≡ some record {
            led = led;
            location = trim_trail_space (copy_location location);
            truncated = false;
          })
        × (parse_repair_event platform true (some (event ∷ [])) (some []) (some (attn_loc ∷ list)) p
            ≡ some (rc, p'))
        × Same platform reliable led p.hw p'.hw
  unfolding parse_repair_event with_open repair_indicators repair_light_path collect no_frus
  parse_repair_event_misses event attn_loc list p c location q {led} {led'} sup one valid here
        nothing cut above other other_attn =
      let all = attn_loc ∷ list in
      let gone = collect (event ∷ []) all (p.rtas_event, no_frus) in
      let found : Found = record { led = led'; location = q; truncated = true } in
      let frus : gone.1.frus ≡ q ∷ [] =
        ap (λ b. (if b then build_callout_loc_code event.callouts all no_frus else no_frus).frus)
          sup
        ∙ (ap (λ cs. (build_callout_loc_code cs all no_frus).frus) one
            ∙ one_fru all c location found valid
                (found_above all (copy_location location) q false nothing cut above)) in
      let start : Run S = record { rc = true; attn_on = gone.1.attn; hw = p.hw } in
      let r = repair_loop platform gone.1.frus [] all start in
      let kept : Same platform reliable led p.hw r.hw =
        subst (λ fs. Same platform reliable led p.hw (repair_loop platform fs [] all start).hw)
          (sym frus)
          (one_repair attn_loc list led q start λ l e.
            subst (λ x. same_led x led ≡ false) (some-injective _ _ (sym above ∙ e)) other) in
      let (rc, p', ends, same) =
        finish_run-Same platform reliable attn_loc list led_state_off r.attn_on led r
          (record p { rtas_event = gone.0 }) other_attn in
      (
        rc,
        p',
        found_here all (trim_trail_space (copy_location location)) false here,
        ends,
        same ∙ kept,
      )
