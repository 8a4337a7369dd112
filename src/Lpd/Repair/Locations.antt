-- ===== src/Lpd/Repair/Locations.antt =====
-- The locations that are collected from events.
use mathlib.Core.Option.{some-injective}
use ppc64_diag.Errd.Files.Names.{same_name_refl}
use ppc64_diag.Lpd.Event.{valid_location}
use ppc64_diag.Lpd.Repair.{
  Frus, add_callout, add_found, add_fru, build_callout_loc_code, build_loop, collect, in_frus,
}
use ppc64_diag.Lpd.Location.{Found, LocCode, copy_location, get_fru_indicator}
use ppc64_diag.Lpd.Location.Nearest.{IsAncestor-length, get_fru_indicator_sound}
use ppc64_diag.Lpd.Supported.{SlCallout, SlEvent, SlType, service_event_supported}
use ppc64_diag.Base.{
  ℕ, zero, suc, ◌≤◌, ◌≡◌, inl, inr, refl, sym, ap, subst, ◌∙◌, arith, Bool, true, false, Bool-cases,
  if◌then◌else◌, List, [], ◌∷◌, ◌++◌, Option, some, none, get_elem?, length, take, length-take,
}
use ppc64_diag.Elog.Memory.{Bytes}

in_frus-append :
    (frus more : List Bytes) (x : Bytes) → in_frus frus x ≡ true → in_frus (frus ++ more) x ≡ true
unfolding in_frus
in_frus-append [] more x h = absurd cc
in_frus-append (f ∷ frus) more x h = ground (arith, in_frus-append frus more x)

in_frus_last : (frus : List Bytes) (x : Bytes) → in_frus (frus ++ x ∷ []) x ≡ true
unfolding in_frus
in_frus_last [] x = ground (arith, same_name_refl x)
in_frus_last (f ∷ frus) x = ground (arith, in_frus_last frus x)

add_fru-keeps :
    (frus : List Bytes) (l x : Bytes) → in_frus frus x ≡ true → in_frus (add_fru frus l) x ≡ true
unfolding add_fru
add_fru-keeps frus l x h =
    elim (in_frus frus l)
      as (λ b. in_frus (if b then frus else frus ++ copy_location l ∷ []) x ≡ true) [
        | true ↦ h
        | false ↦ in_frus-append frus (copy_location l ∷ []) x h
      ]

add_fru-in :
    (frus : List Bytes) (l : Bytes) → copy_location l ≡ l → in_frus (add_fru frus l) l ≡ true
unfolding add_fru
add_fru-in frus l e = elim (Bool-cases (in_frus frus l)) [
  | inl there ↦ ground (arith, there)
  | inr new ↦
      let added : add_fru frus l ≡ frus ++ l ∷ [] =
        ap (λ b. if b then frus else frus ++ copy_location l ∷ []) new
        ∙ ap (λ x. frus ++ x ∷ []) e in
      ap (λ fs. in_frus fs l) added ∙ in_frus_last frus l
]

take_all : (n : ℕ) (xs : Bytes) → length xs ≤ n → take n xs ≡ xs
take_all zero [] h = refl
take_all zero (x ∷ xs) h = absurd (omega arith)
take_all (suc n) [] h = refl
take_all (suc n) (x ∷ xs) h = ap (x ∷◌) (take_all n xs (omega arith))

pub copy_location-location :
    (list : List LocCode) (location : Bytes) {found : Found}
    → get_fru_indicator list (copy_location location) false ≡ some found
    → copy_location found.location ≡ found.location
unfolding copy_location
copy_location-location list location {found} e =
    let above = (get_fru_indicator_sound list (take 79 location) false e).0 in
    take_all 79 found.location (
      omega
        (arith, IsAncestor-length found.location (take 79 location) above, length-take 79 location))

-- The location at which a callout is found.
abbrev pub IsPlaced : List LocCode → SlCallout → Found → Type 0
IsPlaced list c found =
    (location : Bytes) × (valid_location c.location ≡ some location)
    × (get_fru_indicator list (copy_location location) false ≡ some found)

add_callout-keeps :
    (list : List LocCode) (o : Option Bytes) (f : Frus) (x : Bytes)
    → in_frus f.frus x ≡ true
    → in_frus (add_callout list o f).frus x ≡ true
unfolding add_callout add_found
add_callout-keeps list none f x h = h
add_callout-keeps list (some location) f x h =
    elim (get_fru_indicator list (copy_location location) false)
      as (λ found. in_frus (add_found found f).frus x ≡ true) [
        | none ↦ h
        | some found ↦ add_fru-keeps f.frus found.location x h
      ]

add_callout-in :
    (list : List LocCode) (c : SlCallout) (f : Frus) (found : Found)
    → IsPlaced list c found
    → in_frus (add_callout list (valid_location c.location) f).frus found.location ≡ true
unfolding add_callout add_found
add_callout-in list c f found (location, valid, at) =
    let same : add_callout list (valid_location c.location) f ≡ add_found (some found) f =
      ap (λ o. add_callout list o f) valid ∙ ap (λ o. add_found o f) at in
    ap (λ g. in_frus g.frus found.location) same
    ∙ add_fru-in f.frus found.location (copy_location-location list location at)

build_loop-keeps :
    (callouts : List SlCallout) (list : List LocCode) (f : Frus) (x : Bytes)
    → in_frus f.frus x ≡ true
    → in_frus (build_loop callouts list f).frus x ≡ true
unfolding build_loop
build_loop-keeps [] list f x h = h
build_loop-keeps (c ∷ callouts) list f x h =
    build_loop-keeps callouts list _ x (add_callout-keeps list (valid_location c.location) f x h)

build_loop-in :
    (callouts : List SlCallout) (list : List LocCode) (i : ℕ) (c : SlCallout) (f : Frus)
    (found : Found)
    → get_elem? callouts i ≡ some c
    → IsPlaced list c found
    → in_frus (build_loop callouts list f).frus found.location ≡ true
unfolding build_loop
build_loop-in [] list i c f found e p = absurd cc
build_loop-in (d ∷ callouts) list zero c f found e p =
    build_loop-keeps callouts list _ found.location (
      subst
        (λ x. in_frus (add_callout list (valid_location x.location) f).frus found.location ≡ true)
        (sym (some-injective _ _ e)) (add_callout-in list c f found p))
build_loop-in (d ∷ callouts) list (suc i) c f found e p =
    build_loop-in callouts list i c _ found e p

build_callout_loc_code-keeps :
    (callouts : List SlCallout) (list : List LocCode) (f : Frus) (x : Bytes)
    → in_frus f.frus x ≡ true
    → in_frus (build_callout_loc_code callouts list f).frus x ≡ true
unfolding build_callout_loc_code
build_callout_loc_code-keeps [] list f x h = h
build_callout_loc_code-keeps (c ∷ callouts) list f x h = build_loop-keeps (c ∷ callouts) list f x h

build_callout_loc_code-in :
    (callouts : List SlCallout) (list : List LocCode) (i : ℕ) (c : SlCallout) (f : Frus)
    (found : Found)
    → get_elem? callouts i ≡ some c
    → IsPlaced list c found
    → in_frus (build_callout_loc_code callouts list f).frus found.location ≡ true
unfolding build_callout_loc_code
build_callout_loc_code-in [] list i c f found e p = absurd cc
build_callout_loc_code-in (d ∷ callouts) list i c f found e p =
    build_loop-in (d ∷ callouts) list i c f found e p

collect-keeps :
    (events : List SlEvent) (list : List LocCode) (s : Bool × Frus) (x : Bytes)
    → in_frus s.1.frus x ≡ true
    → in_frus (collect events list s).1.frus x ≡ true
unfolding collect
collect-keeps [] list s x h = h
collect-keeps (event ∷ events) list (rtas_event, f) x h =
    collect-keeps events list _ x
      (elim ((service_event_supported event.sl_type rtas_event).0)
        as (λ b.
          in_frus (if b then build_callout_loc_code event.callouts list f else f).frus x ≡ true) [
            | true ↦ build_callout_loc_code-keeps event.callouts list f x h
            | false ↦ h
          ])

-- Whether an event is supported does not depend on the global variable.
service_event_supported_any :
    (t : SlType) (a b : Bool) → (service_event_supported t a).0 ≡ (service_event_supported t b).0
unfolding service_event_supported
service_event_supported_any (SlType.sl_type_os subsystem driver) a b = refl
service_event_supported_any (SlType.sl_type_enclosure model) a b = refl
service_event_supported_any SlType.sl_type_rtas a b = refl
service_event_supported_any SlType.sl_type_bmc a b = refl
service_event_supported_any SlType.sl_type_basic a b = refl

-- The location of a callout of a supported event is in the list.
pub collect-in :
    (events : List SlEvent) (list : List LocCode) (j i : ℕ) (event : SlEvent) (c : SlCallout)
    (found : Found) (s : Bool × Frus)
    → get_elem? events j ≡ some event
    → (service_event_supported event.sl_type false).0 ≡ true
    → get_elem? event.callouts i ≡ some c
    → IsPlaced list c found
    → in_frus (collect events list s).1.frus found.location ≡ true
unfolding collect
collect-in [] list j i event c found s e sup at p = absurd cc
collect-in (d ∷ events) list zero i event c found (rtas_event, f) e sup at p =
    let supported =
      ap (λ x. (service_event_supported x.sl_type rtas_event).0) (some-injective _ _ e)
      ∙ (service_event_supported_any event.sl_type rtas_event false ∙ sup) in
    collect-keeps events list _ found.location (
      subst
        (λ b.
          in_frus (if b then build_callout_loc_code d.callouts list f else f).frus found.location
          ≡ true)
        (sym supported)
        (build_callout_loc_code-in d.callouts list i c f found
          (ap (λ x. get_elem? x.callouts i) (some-injective _ _ e) ∙ at) p))
collect-in (d ∷ events) list (suc j) i event c found (rtas_event, f) e sup at p =
    collect-in events list j i event c found _ e sup at p
