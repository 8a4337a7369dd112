-- ===== src/Lpd/Tests.antt =====
-- Events on which the light path diagnostics run, with indicators that are a table.
use mathlib.Core.Bool.{true≢false}
use ppc64_diag.Errd.Files.{same_name}
use ppc64_diag.Lpd.Location.{
  Found, LocCode, all_space, copy_location, get_fru_indicator, get_indicator_for_loc_code, isspace,
  retry, trim_trail_space, truncate_from, truncate_loc_code,
}
use ppc64_diag.Lpd.Location.Nearest.{IsAncestor, get_fru_indicator-nearest}
use ppc64_diag.Lpd.Supported.{SlCallout, SlEvent, service_event_supported, SlType}
use ppc64_diag.Lpd.Indicators.{Platform}
use ppc64_diag.Lpd.Indicators.Reliable.{IsReliable, IsSettable, same_led, same_index}
use ppc64_diag.Lpd.Indicators.Rtas.{IsDocumented, Librtas, LedName, rtas_platform, same_indicator}
use ppc64_diag.Lpd.Indicators.Documented.{rtas-IsSettable, rtas_platform-IsReliable}
use ppc64_diag.Lpd.Event.{Process, parse_service_event, priorities, valid_location}
use ppc64_diag.Lpd.Event.Lit.{IsOn, parse_service_event-lit}
use ppc64_diag.Lpd.Event.Attention.{parse_service_event-attn}
use ppc64_diag.Lpd.Repair.{collect, in_frus, no_frus, parse_repair_event}
use ppc64_diag.Lpd.Repair.Locations.{IsPlaced}
use ppc64_diag.Lpd.Repair.Kept.{
  Apart, Same, get_indicator_for_loc_code-code, parse_repair_event-keeps,
}
use ppc64_diag.Lpd.Repair.Cleared.{IsOff, parse_repair_event-clears}
use ppc64_diag.Lpd.Repair.Elsewhere.{parse_repair_event_misses}
use ppc64_diag.Base.{
  ℕ, ◌≡◌, ◌⊎◌, ◌≤◌, refl, sym, subst, ap, arith, ◌∙◌, Bool, true, false, inl, inr, if◌then◌else◌,
  List, [], ◌∷◌, some, none, length, get_elem?,
}
use ppc64_diag.Elog.Memory.{Bytes}

-- The indicators of librtas, by their names.
abbrev Table : Type 0
Table = LedName → ℕ

abbrev write_table : LedName → ℕ → Table → Table
write_table n v s x = if same_indicator n x then v else s x

abbrev table_lib : Librtas Table
table_lib = record {
  get_sensor = λ token n s. some (s n);
  set_indicator = λ token n v s. (true, write_table n v s);
}

table_lib-IsDocumented : IsDocumented table_lib
table_lib-IsDocumented = record {
  succeeds = λ k n v s h m e. ap (λ b. some (if b then v else s m)) e;
  fails = λ k n v s h. absurd (true≢false h);
  others = λ k n m v s e. ap (λ b. some (if b then v else s m)) e;
}

-- No enclosures.
abbrev no_ses : Platform (Unit {0})
no_ses = record { get_indicator_state = λ t l s. none; set_indicator_state = λ t l v s. (false, s) }

no_ses-IsReliable : IsReliable no_ses
no_ses-IsReliable = record {
  get-set = λ t l v s h. absurd (true≢false (sym h));
  get-set_keeps = λ t l m v s h. h;
  get-set_other = λ t l m v s h. refl;
}

abbrev Hardware : Type 0
Hardware = Table × Unit {0}

abbrev table_platform : Platform Hardware
table_platform = rtas_platform table_lib no_ses

table-IsReliable : IsReliable table_platform
table-IsReliable =
    rtas_platform-IsReliable table_lib table_lib-IsDocumented no_ses no_ses-IsReliable

abbrev all_off : Hardware
all_off = (λ n. 0, tt)

abbrev u1 : Bytes
u1 = b'U' ∷ b'1' ∷ []

abbrev u1_p1 : Bytes
u1_p1 = b'U' ∷ b'1' ∷ b'-' ∷ b'P' ∷ b'1' ∷ []

abbrev u1_p1_c2 : Bytes
u1_p1_c2 = b'U' ∷ b'1' ∷ b'-' ∷ b'P' ∷ b'1' ∷ b'-' ∷ b'C' ∷ b'2' ∷ []

abbrev u1_p1_space : Bytes
u1_p1_space = b'U' ∷ b'1' ∷ b'-' ∷ b'P' ∷ b'1' ∷ b' ' ∷ []

abbrev at_code : Bytes → LocCode
at_code code = record { code = code; index = none; loc_type = 1; state = none }

at_code-IsSettable : (code : Bytes) → IsSettable table_platform (at_code code)
at_code-IsSettable code =
    rtas-IsSettable table_lib table_lib-IsDocumented no_ses (at_code code) refl (λ v f. refl)

-- The attention indicator, the enclosure and a planar in it.
abbrev attn : LocCode
attn = at_code (b'U' ∷ b'0' ∷ [])

abbrev leds : List LocCode
leds = at_code u1 ∷ at_code u1_p1 ∷ []

abbrev high_at : Bytes → SlCallout
high_at location = record { priority = b'H'; location = some location }

abbrev rtas_event_at : Bytes → SlEvent
rtas_event_at location = record { sl_type = SlType.sl_type_rtas; callouts = high_at location ∷ [] }

abbrev idle : Process Hardware
idle = record { rtas_event = false; hw = all_off }

leds_here : get_indicator_for_loc_code (attn ∷ leds) u1_p1 ≡ some (at_code u1_p1)
unfolding get_indicator_for_loc_code same_name
leds_here = refl

led-cases :
    (x : Bytes) (l : LocCode)
    → get_indicator_for_loc_code (attn ∷ leds) x ≡ some l
    → (attn ≡ l) ⊎ ((at_code u1 ≡ l) ⊎ (at_code u1_p1 ≡ l))
unfolding get_indicator_for_loc_code
led-cases x l e = ground arith

leds-IsSettable :
    (x : Bytes) (l : LocCode)
    → get_indicator_for_loc_code (attn ∷ leds) x ≡ some l
    → IsSettable table_platform l
leds-IsSettable x l e = elim (led-cases x l e) [
  | inl first ↦ subst (IsSettable table_platform) first (at_code-IsSettable attn.code)
  | inr (inl second) ↦ subst (IsSettable table_platform) second (at_code-IsSettable u1)
  | inr (inr third) ↦ subst (IsSettable table_platform) third (at_code-IsSettable u1_p1)
]

get_fru_indicator-nearest_example :
    (found : Found) × (get_fru_indicator (attn ∷ leds) u1_p1_c2 false ≡ some found)
    × IsAncestor found.location u1_p1_c2
    × (get_indicator_for_loc_code (attn ∷ leds) found.location ≡ some found.led)
    × (length u1_p1 ≤ length found.location)
get_fru_indicator-nearest_example =
    get_fru_indicator-nearest (attn ∷ leds) u1_p1_c2 u1_p1 false (inr (b'C' ∷ b'2' ∷ [], refl))
      leds_here

supported_rtas : service_event_supported SlType.sl_type_rtas false ≡ (true, true)
unfolding service_event_supported
supported_rtas = refl

valid_at : valid_location (some u1_p1_space) ≡ some u1_p1_space
unfolding valid_location
valid_at = refl

trimmed : trim_trail_space (copy_location u1_p1_space) ≡ u1_p1
unfolding trim_trail_space copy_location all_space isspace
trimmed = refl

copied : copy_location u1_p1_space ≡ u1_p1_space
unfolding copy_location
copied = refl

highest_first : get_elem? (priorities true) 0 ≡ some (high_at u1_p1_space).priority
unfolding priorities
highest_first = refl

leds_at_trimmed :
    get_indicator_for_loc_code (attn ∷ leds) (trim_trail_space (copy_location u1_p1_space))
    ≡ some (at_code u1_p1)
leds_at_trimmed = ap (get_indicator_for_loc_code (attn ∷ leds)) trimmed ∙ leds_here

parse_service_event-lit_example :
    (rc : Bool) × (p' : Process Hardware) × (found : Found) × (parse_service_event table_platform
        true
        (some (some (rtas_event_at u1_p1_space)))
        (some (attn ∷ leds))
        idle
      ≡ some (rc, p'))
    × (get_fru_indicator (attn ∷ leds) (trim_trail_space (copy_location u1_p1_space)) false
        ≡ some found)
    × IsOn table_platform found.led p'.hw
parse_service_event-lit_example =
    parse_service_event-lit table_platform table-IsReliable (rtas_event_at u1_p1_space)
      (attn ∷ leds) idle true 0 0 (high_at u1_p1_space) u1_p1_space
      (trim_trail_space (copy_location u1_p1_space)) supported_rtas highest_first refl valid_at
      (inl refl) leds_at_trimmed leds-IsSettable

abbrev nowhere : SlCallout
nowhere = record { priority = b'H'; location = none }

abbrev event_nowhere : SlEvent
event_nowhere = record { sl_type = SlType.sl_type_rtas; callouts = nowhere ∷ [] }

invalid : valid_location none ≡ none
unfolding valid_location
invalid = refl

parse_service_event-attn_example :
    (rc : Bool) × (p' : Process Hardware) × (parse_service_event table_platform true
        (some (some event_nowhere))
        (some (attn ∷ leds))
        idle
      ≡ some (rc, p'))
    × IsOn table_platform attn p'.hw
parse_service_event-attn_example =
    parse_service_event-attn table_platform table-IsReliable event_nowhere attn leds idle true 0 0
      nowhere supported_rtas highest_first refl (inl invalid) (at_code-IsSettable attn.code)

abbrev found_p1 : Found
found_p1 = record { led = at_code u1_p1; location = u1_p1; truncated = false }

valid_p1 : valid_location (some u1_p1) ≡ some u1_p1
unfolding valid_location
valid_p1 = refl

at_p1 : get_fru_indicator (attn ∷ leds) (copy_location u1_p1) false ≡ some found_p1
unfolding get_fru_indicator retry get_indicator_for_loc_code same_name copy_location
at_p1 = refl

p1-IsPlaced : IsPlaced (attn ∷ leds) (high_at u1_p1) found_p1
p1-IsPlaced = (u1_p1, valid_p1, at_p1)

supported_any : (service_event_supported SlType.sl_type_rtas false).0 ≡ true
supported_any = ap (λ x. x.0) supported_rtas

attn-other : same_led attn (at_code u1_p1) ≡ false
unfolding same_led same_index same_name
attn-other = refl

u1-other : same_led (at_code u1) (at_code u1_p1) ≡ false
unfolding same_led same_index same_name
u1-other = refl

leds-Apart : Apart table_platform table-IsReliable (attn ∷ leds) (at_code u1_p1)
leds-Apart x l e h = elim (led-cases x l e) [
  | inl first ↦ subst (λ y. same_led y (at_code u1_p1) ≡ false) first attn-other
  | inr (inl second) ↦ subst (λ y. same_led y (at_code u1_p1) ≡ false) second u1-other
  | inr (inr third) ↦
      absurd (h (ap (λ y. y.code) third ∙ get_indicator_for_loc_code-code (attn ∷ leds) x e))
]

parse_repair_event-keeps_example :
    (rc : Bool) × (p' : Process Hardware) × (parse_repair_event table_platform true
        (some (event_nowhere ∷ []))
        (some (rtas_event_at u1_p1 ∷ []))
        (some (attn ∷ leds))
        idle
      ≡ some (rc, p'))
    × Same table_platform table-IsReliable (at_code u1_p1) idle.hw p'.hw
parse_repair_event-keeps_example =
    parse_repair_event-keeps table_platform table-IsReliable (event_nowhere ∷ [])
      (rtas_event_at u1_p1 ∷ []) attn leds idle 0 0 (rtas_event_at u1_p1) (high_at u1_p1) found_p1
      refl supported_any refl p1-IsPlaced attn-other leds-Apart

none_open :
    in_frus
      (collect []
        (attn ∷ leds)
        ((collect (rtas_event_at u1_p1 ∷ []) (attn ∷ leds) (false, no_frus)).0, no_frus)).1.frus
      u1_p1
    ≡ false
unfolding collect no_frus in_frus
none_open = refl

parse_repair_event-clears_example :
    (rc : Bool) × (p' : Process Hardware) × (parse_repair_event table_platform true
        (some (rtas_event_at u1_p1 ∷ []))
        (some [])
        (some (attn ∷ leds))
        idle
      ≡ some (rc, p'))
    × IsOff table_platform table-IsReliable (at_code u1_p1) p'.hw
parse_repair_event-clears_example =
    parse_repair_event-clears table_platform table-IsReliable (rtas_event_at u1_p1 ∷ []) [] attn
      leds idle 0 0 (rtas_event_at u1_p1) (high_at u1_p1) found_p1 refl supported_any refl
      p1-IsPlaced (at_code-IsSettable u1_p1) none_open

none_at_space : get_indicator_for_loc_code (attn ∷ leds) (copy_location u1_p1_space) ≡ none
unfolding get_indicator_for_loc_code same_name copy_location
none_at_space = refl

cut_space : truncate_loc_code (copy_location u1_p1_space) ≡ some u1
unfolding truncate_loc_code truncate_from copy_location
cut_space = refl

above_p1 : get_indicator_for_loc_code (attn ∷ leds) u1 ≡ some (at_code u1)
unfolding get_indicator_for_loc_code same_name
above_p1 = refl

parse_repair_event_misses_example :
    (rc : Bool) × (p' : Process Hardware) × (get_fru_indicator
        (attn ∷ leds)
        (trim_trail_space (copy_location u1_p1_space))
        false
      ≡ some record {
        led = at_code u1_p1;
        location = trim_trail_space (copy_location u1_p1_space);
        truncated = false;
      })
    × (parse_repair_event table_platform true
          (some (rtas_event_at u1_p1_space ∷ []))
          (some [])
          (some (attn ∷ leds))
          idle
        ≡ some (rc, p'))
    × Same table_platform table-IsReliable (at_code u1_p1) idle.hw p'.hw
parse_repair_event_misses_example =
    parse_repair_event_misses table_platform table-IsReliable (rtas_event_at u1_p1_space) attn leds
      idle (high_at u1_p1_space) u1_p1_space u1 supported_any refl valid_at leds_at_trimmed
      none_at_space cut_space above_p1 u1-other attn-other
