-- ===== src/Rtas/Ela/IoBus.antt =====
-- analyze_io_bus_error and report_io_error_frus of rtas_errd/ela.c. Each caller hands over two
-- devices of zeros, so that only the branch for neither device is taken.
use ppc64_diag.Base.{
  ℕ, zero, suc, ◌-◌, ◌==◌, leb, ◌&&◌, if◌then◌else◌, List, [], ◌∷◌, Option, some, none, take,
}
use ppc64_diag.Elog.Memory.{Bytes}
use ppc64_diag.Rtas.Ela.Description.{Fru, locsize}
use ppc64_diag.Rtas.Ela.Tables.{Table, io9cc}
use ppc64_diag.Rtas.Ela.State.{Run, State, done, entry, ◌>>=◌}
use ppc64_diag.Rtas.Ela.Locations.{first_loc, loc_codes_ok, next_code}
use ppc64_diag.Rtas.Ela.Report.{set_fru_percentages, set_srn_and_callouts}
use ppc64_diag.Rtas.Ela.Sensor.{Answer}

-- `while (loc && i < 2)`, with the FRUs, `i` and the string behind the location.
unfoldable pub place_locs : ℕ → List Fru → Option Bytes → Bytes → List Fru × ℕ × Bytes
unfolding next_code
place_locs zero frus loc rest = (frus, 0, rest)
place_locs (suc n) frus none rest = (frus, 0, rest)
place_locs (suc n) [] (some l) rest = ([], 0, rest)
place_locs (suc n) (f ∷ fs) (some l) rest =
    let next = next_code rest in
    let r = place_locs n fs next.0 next.1 in
    (record f { floc = take (locsize - 1) l } ∷ r.0, suc r.1, r.2)

unfoldable pub report_io_error_frus : (Bytes → Option Bytes) → Table → ℕ → State → Run State
unfolding place_locs first_loc set_fru_percentages set_srn_and_callouts entry
report_io_error_frus fru_pn t i s =
    let d = entry t i s in
    do
      r ← first_loc s
      let placed = place_locs 2 d.frus r.0 r.2.rest
      let frus =
          if placed.1 == 0 then placed.0 else set_fru_percentages s.pct_index placed.1 placed.0
      let d' = record d { rcode = 0x100; frus = frus }
      done (set_srn_and_callouts fru_pn t i d' 0 (record r.2 { rest = placed.2 }))

-- The index of the description of IOB12b0, IOB12b1 and IOB12b2.
unfoldable pub bus_index : ℕ → Option ℕ
bus_index error_type =
    if error_type == 0x3000080
    then some 0
    else if error_type == 0x3000040
    then some 1
    else if error_type == 0x3000020
    then some 2
    else none

unfoldable pub analyze_io_bus_error : (Bytes → Option Bytes) → ℕ → ℕ → State → Answer
unfolding bus_index report_io_error_frus loc_codes_ok
analyze_io_bus_error fru_pn version error_type s =
    if leb 3 version && loc_codes_ok s.loc_codes
    then done (0, s)
    else (elim (bus_index error_type) [
      | none ↦ done (0, s)
      | some i ↦ do s' ← report_io_error_frus fru_pn io9cc i s; done (1, s')
    ])
