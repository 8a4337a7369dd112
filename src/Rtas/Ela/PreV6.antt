-- ===== src/Rtas/Ela/PreV6.antt =====
-- process_pre_v6 of rtas_errd/ela.c, which analyses an event of a version before 6. librtasevent
-- finds the extended header; `fru_pn` is what diag_get_fru_pn answers.
pub mod Reported
use Prim.Native.Nat.{bit_or}
use ppc64_diag.Base.{
  ℕ, zero, suc, ◌+◌, ltb, ◌==◌, Bool, true, false, ◌&&◌, if◌then◌else◌, List, [], ◌∷◌, ◌++◌, Option,
  some, none, has_flag, length,
}
use ppc64_diag.Elog.Memory.{Bytes}
use ppc64_diag.Rtas.Ela.Message.{predict_repair_pending, predict_unrecov}
use ppc64_diag.Rtas.Ela.Description.{Fru}
use ppc64_diag.Rtas.Ela.Tables.{Table, bypass_errdscr, cpu619, post, v3_errdscr}
use ppc64_diag.Rtas.Ela.State.{
  Event, Run, State, byte, crash, done, entry, exits, no_fuel, null_read, word, write_entry, ◌>>=◌,
}
use ppc64_diag.Rtas.Ela.Locations.{first_loc, next_code}
use ppc64_diag.Rtas.Ela.Registers.{find_loc_codes, get_register_data, src_reg_id_02}
use ppc64_diag.Rtas.Ela.Report.{
  report_menugoal, report_srn, set_fru_percentages, set_srn_and_callouts,
}
use ppc64_diag.Rtas.Ela.Refcodes.{process_refcodes}
use ppc64_diag.Rtas.Ela.Symptom.{full_io_type, get_error_fmt, get_error_type}
use ppc64_diag.Rtas.Ela.IoBus.{analyze_io_bus_error, place_locs}
use ppc64_diag.Rtas.Ela.Warnings.{process_epow}
use ppc64_diag.Rtas.Ela.Version3.{process_v2_sp, process_v3_logs}
use ppc64_diag.Rtas.Ela.CpuFrus.{
  CpuFrus, get_cpu_frus, rc_invalid, rc_planar, rc_planar_2cpu, rc_planar_cpu,
}
use ppc64_diag.Rtas.Ela.Actions.{
  Action, Actions, action_of, analyze_bus, cpu_actions, io_actions, memory_actions, nothing,
  post_actions, report, report_bus, report_cpu, report_even, report_goal, report_post, sp_actions,
}

-- The fields of librtasevent's extended header that are read.
pub record ExtHdr : Type 0 where
  pub predictive : Bool
  pub unrecoverable_bypassed : Bool

abbrev unnamed : List Fru → List Fru
unnamed [] = []
unnamed (f ∷ fs) = record f { fname = [] } ∷ fs

-- add_cpu_id of the first FRU: the name with the number in it is made empty again, whatever the
-- number.
unfoldable pub add_cpu_id : Table → ℕ → ℕ → State → State
unfolding entry write_entry
add_cpu_id t i cpuid s =
    let d = entry t i s in write_entry t i (record d { frus = unnamed d.frus }) s

-- The POST errors: up to four locations, and the code of the log.
unfoldable pub process_post : (Bytes → Option Bytes) → Event → State → Run State
unfolding word first_loc place_locs set_fru_percentages set_srn_and_callouts entry
process_post fru_pn e s =
    let d = entry post 0 s in
    do
      r ← first_loc s
      let placed = place_locs 4 d.frus r.0 r.2.rest
      let frus = set_fru_percentages s.pct_index placed.1 placed.0
      let d' = record d { sn = 0xfffe; rcode = 0; frus = frus }
      done (set_srn_and_callouts fru_pn post 0 d' (word e 34) (record r.2 { rest = placed.2 }))

abbrev pub bus_table : Table → Table → Table → CpuFrus → Table
bus_table t1 t2 t3 rc_invalid = cpu619
bus_table t1 t2 t3 rc_planar = t1
bus_table t1 t2 t3 rc_planar_cpu = t2
bus_table t1 t2 t3 rc_planar_2cpu = t3

unfoldable pub perform : (Bytes → Option Bytes) → Event → ℕ → Action → State → Run State
unfolding add_cpu_id process_post get_cpu_frus
perform fru_pn e error_type (report t i) s = report_srn fru_pn t i s
perform fru_pn e error_type (report_cpu t i cpuid) s =
    report_srn fru_pn t i (add_cpu_id t i cpuid s)
perform fru_pn e error_type (report_even t i) s = do
  s' ← report_srn fru_pn t i (record s { pct_index = 1 })
  done (record s' { pct_index = 0 })
perform fru_pn e error_type (report_bus t1 t2 t3) s = do
  r ← get_cpu_frus s
  report_srn fru_pn (bus_table t1 t2 t3 r.0) 0 r.1
perform fru_pn e error_type (report_goal m) s = done (report_menugoal m s)
perform fru_pn e error_type analyze_bus s = do
  r ← analyze_io_bus_error fru_pn 1 error_type s
  done r.1
perform fru_pn e error_type report_post s = process_post fru_pn e s
perform fru_pn e error_type nothing s = done s

abbrev pub all_actions : Event → ℕ → ℕ → Actions
all_actions e io_error_type fru_index =
    cpu_actions (byte e 21) fru_index
    ++ memory_actions
    ++ io_actions io_error_type fru_index
    ++ sp_actions
    ++ post_actions

-- How a call of get_dt_status without a location ends: it returns NULL, it ends the daemon since it
-- can make no temporary file, or it reads the location of a device, with which strcmp compares
-- NULL.
pub data StatusCall : Type 0 where
  returns_null no_tmp_file compares : StatusCall

-- get_dt_status(NULL), of diag_support.c: it returns no status but NULL.
unfoldable pub get_dt_status : StatusCall → Run (Option Bytes)
get_dt_status returns_null = done none
get_dt_status no_tmp_file = crash exits
get_dt_status compares = crash null_read

-- The loop over the locations, from call `n` of get_dt_status on. Since the call never returns a
-- status, the part of the body that looks for the location in one is never run, and `ignore_fru`
-- stays FALSE. A round takes a character of the locations at least.
unfoldable pub ignore_loop : ℕ → (ℕ → StatusCall) → ℕ → Option Bytes → Bytes → Run Bytes
unfolding get_dt_status next_code
ignore_loop zero calls n loc rest = crash no_fuel
ignore_loop (suc fuel) calls n none rest = done rest
ignore_loop (suc fuel) calls n (some l) rest =
    let next = next_code rest in
    let later = ignore_loop fuel calls (suc n) next.0 next.1 in
    get_dt_status (calls n) >>= λ devtree. later

-- A predictive error with a deconfigured resource.
unfoldable pub process_deconfigured :
    (Bytes → Option Bytes) → (ℕ → StatusCall) → Event → ℕ → State → Run State
unfolding first_loc ignore_loop entry write_entry
process_deconfigured fru_pn calls e error_fmt s =
    let pending = error_fmt == 1 && has_flag (byte e 32) 0x80 in
    do
      r ← first_loc s
      rest ← ignore_loop (suc (suc (length r.2.rest))) calls 0 r.0 r.2.rest
      let s1 = record r.2 { rest = rest }
      let d = entry v3_errdscr 0 s1
      let d' = record d {
        sn = bit_or (0xa00 + error_fmt) 0x10;
        rcode = if pending then 0x560 else 0x500;
        rmsg = if pending then predict_repair_pending else predict_unrecov;
      }
      report_srn fru_pn v3_errdscr 0 (write_entry v3_errdscr 0 d' s1)

-- The chain of the versions, up to the switch.
unfoldable pub process_versions : (Bytes → Option Bytes) → Event → ℕ → ℕ → State → Run State
unfolding process_v3_logs process_epow process_v2_sp perform action_of
process_versions fru_pn e error_type fru_index s = do
  r1 ← process_v3_logs fru_pn e error_type s
  r2 ← (if r1.0 == 0 then process_epow fru_pn e error_type r1.1 else done r1)
  r3 ← (if r2.0 == 0 then process_v2_sp fru_pn e error_type r2.1 else done r2)
  if r3.0 == 0
      then perform fru_pn e error_type
          (action_of error_type (all_actions e r3.1.io_error_type fru_index)) r3.1
      else done r3.1

-- The symptom bits, where the log has no reference codes. `calls` is how the calls of get_dt_status
-- end.
unfoldable pub process_symptoms :
    (Bytes → Option Bytes) → (ℕ → StatusCall) → Event → ExtHdr → State → Run State
unfolding get_error_fmt get_error_type full_io_type process_deconfigured process_versions
process_symptoms fru_pn calls e exthdr s =
    let fmt = get_error_fmt e in
    let error_type = get_error_type e fmt in
    let io_error_type = if fmt == 3 then full_io_type e fmt else 0 in
    let s1 = record s { io_error_type = io_error_type } in
    let fru_index : ℕ = if exthdr.predictive then 1 else 0 in
    let plain = process_versions fru_pn e error_type fru_index s1 in
    if exthdr.unrecoverable_bypassed && exthdr.predictive
    then process_deconfigured fru_pn calls e fmt s1
    else if exthdr.unrecoverable_bypassed && fmt == 13
    then (elim (s.loc_codes) as (λ _. Run State) [
      | none ↦ plain
      | some l ↦ report_srn fru_pn bypass_errdscr 0 s1
    ])
    else plain

-- A new entry, the location codes of the log, and its reference codes or its symptoms.
unfoldable pub process_pre_v6 :
    (Bytes → Option Bytes) → (ℕ → StatusCall) → Event → ExtHdr → State → Run State
unfolding find_loc_codes get_register_data process_refcodes process_symptoms
process_pre_v6 fru_pn calls e exthdr s =
    let s1 = record s {
      loc_codes = find_loc_codes e;
      refcode = none;
      description = none;
      callouts = [];
      call_home = false;
    } in
    elim (get_register_data e src_reg_id_02) [
      | none ↦ process_symptoms fru_pn calls e exthdr s1
      | some (refc, rlen) ↦ process_refcodes fru_pn e refc rlen s1
    ]
