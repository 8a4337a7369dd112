-- ===== src/Lpd/Indicators.antt =====
-- The interface of a platform's indicators (`struct platform` of lpd/indicator.h), and the
-- functions of lpd/indicator.c and lpd/lp_diag.c that get and set them. The messages for the log
-- file are left out.
pub mod Reliable
pub mod Rtas
pub mod Documented
use ppc64_diag.Base.{
  ℕ, ◌==◌, ◌≡◌, ◌≢◌, Bool, true, false, not, ◌&&◌, ◌||◌, if◌then◌else◌, List, [], ◌∷◌, Option, some,
  none,
}
use ppc64_diag.Lpd.Location.{LocCode}

abbrev pub led_type_ident : ℕ
led_type_ident = 0

abbrev pub led_type_fault : ℕ
led_type_fault = 1

abbrev pub led_state_off : ℕ
led_state_off = 0

abbrev pub led_state_on : ℕ
led_state_on = 1

-- The two hooks that read and write an indicator; `S` is the state of the hardware. Reading gives
-- none, and writing false, for a return code other than 0.
pub record Platform (S : Type 0) : Type 0 where
  pub get_indicator_state : ℕ → LocCode → S → Option ℕ
  pub set_indicator_state : ℕ → LocCode → ℕ → S → Bool × S

module _ {S : Type 0} (platform : Platform S) where
  -- The `rc` of a pair of calls of set_attn_indicator or set_fault_indicator.
  unfoldable pub set_unless : Option ℕ → ℕ → LocCode → ℕ → S → Bool × S
  set_unless none led loc new_state s = platform.set_indicator_state led loc new_state s
  set_unless (some state) led loc new_state s =
      if state == new_state then (true, s) else platform.set_indicator_state led loc new_state s

  -- set_attn_indicator and set_fault_indicator, which differ in what they log.
  unfoldable pub set_fault_indicator : LocCode → ℕ → S → Bool × S
  unfolding set_unless
  set_fault_indicator loc new_state s =
      set_unless (platform.get_indicator_state led_type_fault loc s) led_type_fault loc new_state s

  unfoldable pub get_all_indicator_state : ℕ → List LocCode → S → List LocCode
  get_all_indicator_state indicator [] s = []
  get_all_indicator_state indicator (loc ∷ list) s =
      record loc { state = platform.get_indicator_state indicator loc s }
      ∷ get_all_indicator_state indicator list s

  unfoldable pub set_loop : ℕ → List LocCode → ℕ → S → S
  unfolding set_unless
  set_loop indicator [] new_value s = s
  set_loop indicator (loc ∷ list) new_value s =
      set_loop indicator list new_value
        (set_unless (platform.get_indicator_state indicator loc s) indicator loc new_value s).1

  -- The enclosure is the first of the list.
  unfoldable pub set_enclosure : ℕ → List LocCode → ℕ → S → S
  set_enclosure indicator [] new_value s = s
  set_enclosure indicator (encl ∷ list) new_value s =
      if indicator == led_type_ident && new_value == led_state_off
      then (platform.set_indicator_state indicator encl new_value s).1
      else s

  unfoldable pub set_all_indicator_state : ℕ → List LocCode → ℕ → S → S
  set_all_indicator_state indicator list new_value s =
      set_enclosure indicator list new_value (set_loop indicator list new_value s)
