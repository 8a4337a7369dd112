-- ===== src/Rtas/Ela/Report.antt =====
-- report_srn of rtas_errd/ela.c and what it calls: the callouts of a description, which gets the
-- locations of the event, four at a time. `fru_pn` is what diag_get_fru_pn finds for a location.
pub mod Batches
pub mod Callouts
use ppc64_diag.Base.{
  ℕ, zero, suc, ◌+◌, ◌-◌, ltb, ◌==◌, Bool, true, false, if◌then◌else◌, List, [], ◌∷◌, ◌++◌, Option,
  some, none, length, take, get_or, replicate,
}
use ppc64_diag.Elog.Memory.{Bytes}
use ppc64_diag.Errd.Files.{same_name}
use ppc64_diag.Rtas.Ela.Message.{Message, menu_number}
use ppc64_diag.Rtas.Ela.Description.{Description, Fru, locsize, maxfrus, no_fru}
use ppc64_diag.Rtas.Ela.Tables.{Table}
use ppc64_diag.Rtas.Ela.State.{
  Callout, Run, Srn, State, crash, done, entry, goal, menu, no_fuel, over_write, post_code, srn,
  text, write_entry, ◌>>=◌,
}
use ppc64_diag.Rtas.Ela.Locations.{first_loc, next_code}

abbrev pub not_available : Bytes
not_available = b'n' ∷ b'/' ∷ b'a' ∷ []

abbrev pub refcode_fname : Bytes
refcode_fname = b'R' ∷ b'E' ∷ b'F' ∷ b'-' ∷ b'C' ∷ b'O' ∷ b'D' ∷ b'E' ∷ []

-- get_refcode: the two halves of the code.
unfoldable pub get_refcode : Fru → Option (ℕ × ℕ)
unfolding same_name
get_refcode f = if same_name f.fname refcode_fname then some (f.fmsg, f.conf) else none

abbrev pub or_na : Option Bytes → Bytes
or_na none = not_available
or_na (some pn) = pn

-- `frupn` behind the FRU, where it was `frupn` before.
unfoldable pub part_number : (Bytes → Option Bytes) → Option Bytes → Bytes → Bytes
part_number fru_pn frupn [] = or_na frupn
part_number fru_pn frupn (c ∷ s) = or_na (fru_pn (c ∷ s))

unfoldable pub location_of : Bytes → Bytes
location_of [] = not_available
location_of (c ∷ s) = c ∷ s

-- The loop of set_srn_and_callouts and of add_more_descrs, over the FRUs that are left.
unfoldable pub callout_loop : (Bytes → Option Bytes) → Option Bytes → List Fru → List Callout
unfolding get_refcode part_number location_of
callout_loop fru_pn frupn [] = []
callout_loop fru_pn frupn (f ∷ fs) =
    let pn = part_number fru_pn frupn f.floc in
    let rest = callout_loop fru_pn (some pn) fs in
    let c : Callout = record {
      procedure = get_refcode f;
      location = location_of f.floc;
      part_number = pn;
    } in
    if f.conf == 0 then [] else c ∷ rest

-- The locations that the loop writes into the description.
unfoldable pub name_locations : List Fru → List Fru
unfolding location_of
name_locations [] = []
name_locations (f ∷ fs) =
    let rest = record f { floc = location_of f.floc } ∷ name_locations fs in
    if f.conf == 0 then f ∷ fs else rest

abbrev pub srn_of : Description → ℕ → Srn
srn_of d post_error = if post_error == 0 then srn d.sn d.rcode else post_code post_error

-- set_srn_and_callouts, of the description in a global array.
unfoldable pub set_srn_and_callouts :
    (Bytes → Option Bytes) → Table → ℕ → Description → ℕ → State → State
unfolding callout_loop name_locations write_entry
set_srn_and_callouts fru_pn t i d post_error s =
    write_entry t i (record d { frus = name_locations d.frus })
      (record s {
        refcode = some (srn_of d post_error);
        callouts = s.callouts ++ callout_loop fru_pn none d.frus;
      })

abbrev pub percent_table : List (List (List ℕ))
percent_table =
    ((0 ∷ 0 ∷ 0 ∷ 0 ∷ [])
      ∷ (100 ∷ 0 ∷ 0 ∷ 0 ∷ [])
      ∷ (67 ∷ 33 ∷ 0 ∷ 0 ∷ [])
      ∷ (50 ∷ 30 ∷ 20 ∷ 0 ∷ [])
      ∷ (40 ∷ 30 ∷ 20 ∷ 10 ∷ [])
      ∷ [])
    ∷ ((0 ∷ 0 ∷ 0 ∷ 0 ∷ [])
        ∷ (100 ∷ 0 ∷ 0 ∷ 0 ∷ [])
        ∷ (50 ∷ 50 ∷ 0 ∷ 0 ∷ [])
        ∷ (33 ∷ 33 ∷ 33 ∷ 0 ∷ [])
        ∷ (25 ∷ 25 ∷ 25 ∷ 25 ∷ [])
        ∷ [])
    ∷ []

-- The two loops of set_fru_percentages.
unfoldable pub set_confs : ℕ → List ℕ → List Fru → List Fru
set_confs n percents [] = []
set_confs zero percents (f ∷ fs) = record f { conf = 0 } ∷ set_confs zero percents fs
set_confs (suc n) [] (f ∷ fs) = record f { conf = 0 } ∷ set_confs n [] fs
set_confs (suc n) (p ∷ ps) (f ∷ fs) = record f { conf = p } ∷ set_confs n ps fs

unfoldable pub set_fru_percentages : ℕ → ℕ → List Fru → List Fru
unfolding set_confs
set_fru_percentages pct_index nfrus frus =
    let n = if ltb 4 nfrus then 4 else nfrus in
    set_confs n (get_or (get_or percent_table pct_index []) n []) frus

-- A round for each FRU of the description: strcpy of a location into `floc`, `fmsg`, and the next
-- location.
unfoldable pub fill_frus : List Fru → Option Bytes → Bytes → Run (List Fru × Option Bytes × Bytes)
unfolding next_code
fill_frus [] loc rest = done ([], loc, rest)
fill_frus (f ∷ fs) none rest = do
  r ← fill_frus fs none rest
  done (record f { fmsg = 36 } ∷ r.0, r.1, r.2)
fill_frus (f ∷ fs) (some l) rest =
    let next = next_code rest in
    let filled = fill_frus fs next.0 next.1 in
    if ltb (length l) locsize
    then (do r ← filled; done (record f { floc = l; fmsg = 36 } ∷ r.0, r.1, r.2))
    else crash over_write

-- The same with strncpy into a description of zeros.
unfoldable pub fill_more : ℕ → Option Bytes → Bytes → List Fru × Option Bytes × Bytes
unfolding next_code
fill_more zero loc rest = ([], loc, rest)
fill_more (suc n) none rest =
    let r = fill_more n none rest in (record no_fru { fmsg = 36 } ∷ r.0, r.1, r.2)
fill_more (suc n) (some l) rest =
    let next = next_code rest in
    let r = fill_more n next.0 next.1 in
    (record no_fru { floc = take (locsize - 1) l; fmsg = 36 } ∷ r.0, r.1, r.2)

-- `while (loc != NULL)`: the callouts of the further descriptions, and what is left of the
-- locations.
unfoldable pub more_frus :
    ℕ → (Bytes → Option Bytes) → ℕ → Option Bytes → ℕ → Bytes → Run (List Callout × Bytes)
unfolding fill_more set_fru_percentages callout_loop
more_frus zero fru_pn pct_index loc n rest = crash no_fuel
more_frus (suc fuel) fru_pn pct_index none n rest = done ([], rest)
more_frus (suc fuel) fru_pn pct_index (some l) n rest =
    let filled = fill_more maxfrus (some l) rest in
    let frus = set_fru_percentages pct_index (n - maxfrus) filled.0 in
    do
      r ← more_frus fuel fru_pn pct_index filled.1 (n - maxfrus) filled.2
      done (callout_loop fru_pn none frus ++ r.0, r.1)

-- report_srn with nlocs 0, as in each of its calls, and a description of a global array. A round of
-- the last loop takes a character of the locations at least.
unfoldable pub report_srn : (Bytes → Option Bytes) → Table → ℕ → State → Run State
unfolding entry first_loc fill_frus set_fru_percentages set_srn_and_callouts more_frus
report_srn fru_pn t i s =
    let d = entry t i s in
    do
      r ← first_loc s
      let s1 = r.2
      filled ← fill_frus d.frus r.0 s1.rest
      let frus = set_fru_percentages s1.pct_index r.1 filled.0
      let s2 = set_srn_and_callouts fru_pn t i (record d { frus = frus }) 0 s1
      m ← more_frus (suc (suc (length filled.2))) fru_pn s1.pct_index filled.1 r.1 filled.2
      done (record s2 {
        rest = m.1;
        callouts = s2.callouts ++ m.0;
        call_home = true;
        description = some (text d.rmsg);
      })

-- report_menugoal: `event->errdata.sequence` is 0, so the reference code is never appended.
unfoldable pub report_menugoal : Message → State → State
unfolding menu_number
report_menugoal m s = record s {
  refcode = some (menu (menu_number m));
  description = some (goal m);
}
