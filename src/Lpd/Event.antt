-- ===== src/Lpd/Event.antt =====
-- parse_service_event of lpd/lp_diag.c: what an event of the service log switches on. The messages
-- for the log file are left out.
pub mod Lit
pub mod Attention
use ppc64_diag.Lpd.Indicators.{Platform, led_state_on, set_fault_indicator}
use ppc64_diag.Lpd.Location.{Found, LocCode, copy_location, get_fru_indicator, trim_trail_space}
use ppc64_diag.Lpd.Supported.{SlCallout, SlEvent, service_event_supported}
use ppc64_diag.Base.{
  ℕ, ◌==◌, Bool, true, false, not, ◌&&◌, ◌||◌, if◌then◌else◌, List, [], ◌∷◌, Option, some, none,
}
use ppc64_diag.Elog.Memory.{Bytes}

-- FRU_CALLOUT_PRIORITY.
abbrev pub fru_callout_priority : List ℕ
fru_callout_priority = b'H' ∷ b'M' ∷ b'A' ∷ b'B' ∷ b'C' ∷ b'L' ∷ []

-- `rc` is true for 0; `attn_on` asks for the attention indicator; `hw` is the hardware.
pub record Run (S : Type 0) : Type 0 where
  pub rc : Bool
  pub attn_on : Bool
  pub hw : S

-- What a process keeps between calls: the global `rtas_event`, and the hardware.
pub record Process (S : Type 0) : Type 0 where
  pub rtas_event : Bool
  pub hw : S

-- A location that is no null pointer and not empty.
unfoldable pub valid_location : Option Bytes → Option Bytes
valid_location none = none
valid_location (some []) = none
valid_location (some (c ∷ cs)) = some (c ∷ cs)

-- The callouts that are gone through: all priorities in their order, or the highest one for an
-- event of the firmware.
unfoldable pub priorities : Bool → List ℕ
priorities true = b'H' ∷ []
priorities false = fru_callout_priority

unfoldable pub with_hw : {S : Type 0} → Process S → Option (Bool × S) → Option (Bool × Process S)
with_hw p none = none
with_hw p (some (rc, s)) = some (rc, record p { hw = s })

module _ {S : Type 0} (platform : Platform S) where
  unfoldable pub light_found : Option Found → Run S → Run S
  light_found none r = record r { attn_on = true }
  light_found (some found) r =
      let set = set_fault_indicator platform found.led led_state_on r.hw in
      record r { rc = set.0; hw = set.1 }

  unfoldable pub light : List LocCode → Option Bytes → Run S → Run S
  unfolding light_found
  light list none r = record r { attn_on = true }
  light list (some location) r =
      light_found (get_fru_indicator list (trim_trail_space (copy_location location)) false) r

  -- The loop of event_fru_callout.
  unfoldable pub callout_loop : List SlCallout → List LocCode → ℕ → Run S → Run S
  unfolding light valid_location
  callout_loop [] list fru_priority r = r
  callout_loop (callout ∷ callouts) list fru_priority r = callout_loop callouts list fru_priority (
      if callout.priority == fru_priority
      then light list (valid_location callout.location) r
      else r)

  unfoldable pub event_fru_callout : List SlCallout → List LocCode → ℕ → Run S → Run S
  event_fru_callout callouts list fru_priority r =
      callout_loop callouts list fru_priority (record r { rc = true })

  -- The loop over the priorities.
  unfoldable pub priority_loop : List ℕ → List SlCallout → List LocCode → Run S → Run S
  priority_loop [] callouts list r = r
  priority_loop (p ∷ ps) callouts list r =
      priority_loop ps callouts list (event_fru_callout callouts list p r)

  -- The calls of set_attn_indicator with the first entry of the list; none where there is none, and
  -- a null pointer is read.
  unfoldable pub set_attn_indicator : List LocCode → ℕ → S → Option (Bool × S)
  set_attn_indicator [] new_state s = none
  set_attn_indicator (attn_loc ∷ list) new_state s =
      some (set_fault_indicator platform attn_loc new_state s)

  unfoldable pub run_event : Bool → Bool → List SlCallout → List LocCode → S → Run S
  unfolding priorities
  run_event false rtas_event callouts list s = record { rc = true; attn_on = true; hw = s }
  run_event true rtas_event [] list s = record { rc = true; attn_on = true; hw = s }
  run_event true rtas_event (callout ∷ callouts) list s =
      priority_loop (priorities rtas_event) (callout ∷ callouts) list
        record { rc = true; attn_on = false; hw = s }

  unfoldable pub finish_run : List LocCode → ℕ → Bool → Run S → Option (Bool × S)
  finish_run list new_state false r = some (r.rc, r.hw)
  finish_run list new_state true r = set_attn_indicator list new_state r.hw

  -- `list` is none where get_indicator_list fails.
  unfoldable pub handle_event :
      Bool → SlEvent → Option (List LocCode) → Process S → Option (Bool × Process S)
  unfolding run_event finish_run with_hw
  handle_event light_path event none p = some (false, p)
  handle_event light_path event (some list) p =
      let r = run_event light_path p.rtas_event event.callouts list p.hw in
      with_hw p (finish_run list led_state_on r.attn_on r)

  -- The answer of the service log is none for a return code other than 0, and some none for no event.
  unfoldable pub parse_service_event :
      Bool → Option (Option SlEvent) → Option (List LocCode) → Process S → Option (Bool × Process S)
  unfolding handle_event
  parse_service_event light_path none list p = some (false, p)
  parse_service_event light_path (some none) list p = some (false, p)
  parse_service_event light_path (some (some event)) list p =
      let supported = service_event_supported event.sl_type p.rtas_event in
      let p' = record p { rtas_event = supported.1 } in
      if supported.0 then handle_event light_path event list p' else some (true, p')
