-- ===== src/Lpd/Repair.antt =====
-- parse_repair_event of lpd/lp_diag.c: what is switched off when events of the service log are
-- closed. The messages for the log file are left out, and `calloc` succeeds.
pub mod Locations
pub mod Kept
pub mod Cleared
pub mod Elsewhere
use ppc64_diag.Errd.Files.{same_name}
use ppc64_diag.Lpd.Event.{Process, Run, finish_run, set_attn_indicator, valid_location, with_hw}
use ppc64_diag.Lpd.Indicators.{Platform, led_state_off, set_fault_indicator}
use ppc64_diag.Lpd.Location.{
  Found, LocCode, copy_location, get_fru_indicator, get_indicator_for_loc_code,
}
use ppc64_diag.Lpd.Supported.{SlCallout, SlEvent, service_event_supported}
use ppc64_diag.Base.{
  ℕ, Bool, true, false, not, ◌&&◌, if◌then◌else◌, List, [], ◌∷◌, ◌++◌, Option, some, none,
}
use ppc64_diag.Elog.Memory.{Bytes}

-- The list of locations, and the variable behind `attn_state`.
pub record Frus : Type 0 where
  pub frus : List Bytes
  pub attn : Bool

unfoldable pub in_frus : List Bytes → Bytes → Bool
in_frus [] location = false
in_frus (fru ∷ frus) location =
    let rest = in_frus frus location in if same_name fru location then true else rest

unfoldable pub add_fru : List Bytes → Bytes → List Bytes
add_fru frus location = if in_frus frus location then frus else frus ++ copy_location location ∷ []

unfoldable pub add_found : Option Found → Frus → Frus
add_found none f = record f { attn = true }
add_found (some found) f = record f { frus = add_fru f.frus found.location }

unfoldable pub add_callout : List LocCode → Option Bytes → Frus → Frus
unfolding add_found add_fru
add_callout list none f = record f { attn = true }
add_callout list (some location) f =
    add_found (get_fru_indicator list (copy_location location) false) f

unfoldable pub build_loop : List SlCallout → List LocCode → Frus → Frus
unfolding add_callout
build_loop [] list f = f
build_loop (callout ∷ callouts) list f =
    build_loop callouts list (add_callout list (valid_location callout.location) f)

unfoldable pub build_callout_loc_code : List SlCallout → List LocCode → Frus → Frus
unfolding build_loop
build_callout_loc_code [] list f = record f { attn = true }
build_callout_loc_code (callout ∷ callouts) list f = build_loop (callout ∷ callouts) list f

-- The loop over the closed or the open events; with the global `rtas_event`.
unfoldable pub collect : List SlEvent → List LocCode → Bool × Frus → Bool × Frus
collect [] list s = s
collect (event ∷ events) list (rtas_event, f) =
    let supported = service_event_supported event.sl_type rtas_event in
    collect events list
      (supported.1, (if supported.0 then build_callout_loc_code event.callouts list f else f))

unfoldable pub no_frus : Frus
no_frus = record { frus = []; attn = false }

abbrev no_events : List SlEvent → Bool
no_events [] = true
no_events (e ∷ events) = false

module _ {S : Type 0} (platform : Platform S) where
  unfoldable pub repair_found : Option LocCode → Run S → Run S
  repair_found none r = record r { rc = true; attn_on = true }
  repair_found (some led) r =
      let set = set_fault_indicator platform led led_state_off r.hw in
      record r { rc = set.0; hw = set.1 }

  -- Here `attn_on` of a run is `attn_disable`.
  unfoldable pub repair_fru_callout : Bytes → List LocCode → Run S → Run S
  unfolding repair_found
  repair_fru_callout fru list r = repair_found (get_indicator_for_loc_code list fru) r

  unfoldable pub repair_loop : List Bytes → List Bytes → List LocCode → Run S → Run S
  unfolding repair_fru_callout
  repair_loop [] o_frus list r = r
  repair_loop (fru ∷ r_frus) o_frus list r =
      repair_loop r_frus o_frus list
        (if in_frus o_frus fru then r else repair_fru_callout fru list r)

  unfoldable pub repair_light_path :
      List SlEvent → List SlEvent → List LocCode → Process S → Option (Bool × Process S)
  unfolding no_frus
  repair_light_path repair_events open_events list p =
      let closed = collect repair_events list (p.rtas_event, no_frus) in
      let still = collect open_events list (closed.0, no_frus) in
      let r =
        repair_loop closed.1.frus still.1.frus list
          record { rc = true; attn_on = closed.1.attn; hw = p.hw } in
      with_hw (record p { rtas_event = still.0 })
        (finish_run platform list led_state_off (not still.1.attn && r.attn_on) r)

  unfoldable pub repair_indicators :
      Bool
      → List SlEvent
      → List SlEvent
      → Option (List LocCode)
      → Process S
      → Option (Bool × Process S)
  unfolding repair_light_path
  repair_indicators light_path repair_events open_events none p = some (false, p)
  repair_indicators true repair_events open_events (some list) p =
      repair_light_path repair_events open_events list p
  repair_indicators false repair_events open_events (some list) p = with_hw p (
      finish_run platform list led_state_off (no_events open_events)
        record { rc = true; attn_on = false; hw = p.hw })

  unfoldable pub with_open :
      Bool
      → List SlEvent
      → Option (List SlEvent)
      → Option (List LocCode)
      → Process S
      → Option (Bool × Process S)
  unfolding repair_indicators
  with_open light_path repair_events none list p = some (false, p)
  with_open light_path repair_events (some open_events) list p =
      repair_indicators light_path repair_events open_events list p

  -- The answers of the service log are none for a return code other than 0.
  unfoldable pub parse_repair_event :
      Bool
      → Option (List SlEvent)
      → Option (List SlEvent)
      → Option (List LocCode)
      → Process S
      → Option (Bool × Process S)
  unfolding with_open
  parse_repair_event light_path none open_events list p = some (false, p)
  parse_repair_event light_path (some []) open_events list p = some (true, p)
  parse_repair_event light_path (some (event ∷ events)) open_events list p =
      with_open light_path (event ∷ events) open_events list p
