-- ===== src/Rtas/Ela/Version3.antt =====
-- The analysis of version 3 logs and of the service processor's version 2 logs in rtas_errd/ela.c.
use Prim.Native.Nat.{bit_or}
use ppc64_diag.Base.{
  ℕ, ◌+◌, ◌-◌, ◌*◌, ◌/◌, ◌%◌, ◌^◌, ◌==◌, ltb, Bool, true, not, ◌&&◌, if◌then◌else◌, Option, some,
  none, bit_and, has_flag,
}
use ppc64_diag.Elog.Memory.{Bytes}
use ppc64_diag.Rtas.Ela.Message.{
  msgepow1501b16b4, msgepow1502b16b4, msgepowallzero, msgepowb16b1b17b4, msgepowb16b23,
  msgepowb16b2c12, msgepowb16b2c37, msgepowb16b2b3, msgepowb16b3, msgepowb17b0c12, msgepowb17b0c37,
  msgepowb17b2c12, msgepowb17b2c37, msgepowb17b2red, msgmenug102, msgmenug171, msgmenug204,
  msgmenug205, msgxepow3n73, msg_unknown_v3, Message, no_text,
}
use ppc64_diag.Rtas.Ela.Description.{Description}
use ppc64_diag.Rtas.Ela.Tables.{sp754, platform_error, v3_errdscr}
use ppc64_diag.Rtas.Ela.State.{Event, Run, State, byte, done, entry, write_entry, ◌>>=◌}
use ppc64_diag.Rtas.Ela.Registers.{get_register_data, src_reg_id_04}
use ppc64_diag.Rtas.Ela.Report.{report_menugoal, report_srn}
use ppc64_diag.Rtas.Ela.Refcodes.{process_refcodes}
use ppc64_diag.Rtas.Ela.Symptom.{convert_bcd, full_io_type, get_error_type, symptom}
use ppc64_diag.Rtas.Ela.IoBus.{analyze_io_bus_error}
use ppc64_diag.Rtas.Ela.Sensor.{Answer, conclude_goal, sensor_epow}
use ppc64_diag.Rtas.Ela.Warnings.{
  has_epow_reset, loss_power_mg, manual_power_off_mg, save_epow_reset, unknown_epow_ela,
}

unfoldable pub process_v2_sp : (Bytes → Option Bytes) → Event → ℕ → State → Answer
process_v2_sp fru_pn e error_type s =
    if not (byte e 0 == 2)
    then done (0, s)
    else if not (error_type - error_type % 2 ^ 24 == 0xd000000)
    then done (0, s)
    else if has_flag (byte e 27) 0x80
    then (do s' ← report_srn fru_pn sp754 0 s; done (1, s'))
    else done (0, s)

-- A change of v3_errdscr[0].
abbrev pub change_v3 : (Description → Description) → State → State
change_v3 f s = write_entry v3_errdscr 0 (f (entry v3_errdscr 0 s)) s

-- `rcode`, `rmsg`, and `sn |= 0x10` for a repair that can wait.
abbrev pub v3_as : ℕ → Message → Bool → State → State
v3_as rcode rmsg deferred s =
    change_v3
      (λ d. record d {
        sn = if deferred then bit_or d.sn 0x10 else d.sn;
        rcode = rcode;
        rmsg = rmsg;
      })
      s

-- PROCESS_V4_REFCODE: reference codes in place of the rest, with 2 returned.
unfoldable pub or_refcode : (Bytes → Option Bytes) → Event → ℕ → State → Answer → Answer
unfolding get_register_data process_refcodes
or_refcode fru_pn e version s otherwise =
    if ltb 3 version
    then (elim (get_register_data e src_reg_id_04) [
      | none ↦ otherwise
      | some (p, rlen) ↦ do s' ← process_refcodes fru_pn e p rlen s; done (2, s')
    ])
    else otherwise

-- The power faults of process_v3_epow.
unfoldable pub power_fault_v3 : (Bytes → Option Bytes) → Event → ℕ → ℕ → State → Answer
unfolding or_refcode
power_fault_v3 fru_pn e error_type version s =
    let class = error_type % 256 in
    let low = ltb class 3 in
    let or = λ (s' : State). or_refcode fru_pn e version s (done (1, s')) in
    if has_flag error_type 0x800000
    then or (v3_as 0x140 (if low then msgepowb17b0c12 else msgepowb17b0c37) low s)
    else if has_flag error_type 0x400000
    then (if has_flag error_type 0x800
        then conclude_goal msgmenug204 0 s
        else if class == 2 && version == 4
        then conclude_goal msgmenug205 0 s
        else done (0, loss_power_mg s))
    else if has_flag error_type 0x200000
    then (if has_flag error_type 0x800
        then or (v3_as 0x170 msgepowb17b2red true s)
        else or (v3_as 0x160 (if low then msgepowb17b2c12 else msgepowb17b2c37) low s))
    else if has_flag error_type 0x100000
    then done (0, manual_power_off_mg s)
    else if has_flag error_type 0x80000
    then or (v3_as 0x240 msgepowb16b1b17b4 low s)
    else or_refcode fru_pn e version s (done (0, unknown_epow_ela class s))

-- The branches of process_v3_epow behind the resets.
unfoldable pub faults_v3 : (Bytes → Option Bytes) → Event → ℕ → ℕ → State → Answer
unfolding or_refcode power_fault_v3 sensor_epow
faults_v3 fru_pn e error_type version s =
    let class = error_type % 256 in
    let low = ltb class 3 in
    let or = λ (s' : State). or_refcode fru_pn e version s (done (1, s')) in
    if has_flag error_type 0x8000
    then or_refcode fru_pn e version s (sensor_epow fru_pn e error_type version s)
    else if has_flag error_type 0x4000
    then power_fault_v3 fru_pn e error_type version s
    else if has_flag error_type 0x2000
    then (if has_flag error_type 0x800
        then or (v3_as 0x200 msgepow1501b16b4 true s)
        else if has_flag error_type 0x1000
        then or (v3_as 0x220 (if low then msgepowb16b2b3 else msgepowb16b23) low s)
        else or (v3_as 0x190 (if low then msgepowb16b2c12 else msgepowb16b2c37) low s))
    else if has_flag error_type 0x1000
    then (if class == 1
        then conclude_goal msgmenug102 0 s
        else or (v3_as 0x210 (if low then msgepowb16b3 else msgxepow3n73) low s))
    else if has_flag error_type 0x800
    then (if has_flag error_type 0x400000
        then conclude_goal msgmenug204 0 s
        else or (v3_as 0x230 msgepow1502b16b4 true s))
    else or_refcode fru_pn e version s (done (0, unknown_epow_ela class s))

unfoldable pub process_v3_epow : (Bytes → Option Bytes) → Event → ℕ → ℕ → State → Answer
unfolding has_epow_reset save_epow_reset faults_v3
process_v3_epow fru_pn e error_type version s =
    let reset = has_epow_reset error_type s in
    if error_type % 256 == 0
    then done (0, save_epow_reset error_type s)
    else if reset.0 == 1
    then done (0, reset.1)
    else faults_v3 fru_pn e error_type version
        (change_v3 (λ d. record d { rcode = 0; rmsg = msgepowallzero }) s)

-- convert_symptom: 0x100 where another SRN was reported, 0xFF for an unknown format; the message.
unfoldable pub convert_symptom :
    (Bytes → Option Bytes) → Event → ℕ → Bool → State → Run (ℕ × Message × State)
unfolding symptom convert_bcd analyze_io_bus_error get_error_type full_io_type
convert_symptom fru_pn e fmt predictive s =
    let converted = λ (s' : State).
      (elim (symptom e fmt predictive) as (λ _. Run (ℕ × Message × State)) [
        | none ↦ done (0xff, msg_unknown_v3, s')
        | some (seqn, m) ↦ done (convert_bcd seqn, m, s')
      ]) in
    if fmt == 3
    then (do
      r ←
          analyze_io_bus_error fru_pn 3 (get_error_type e fmt)
            (record s { io_error_type = full_io_type e fmt })
      if r.0 == 0 then converted r.1 else done (0x100, no_text, r.1))
    else converted s

-- The end of process_v3_logs: the modifiers, and the report where the description is ready.
unfoldable pub modify_v3 : (Bytes → Option Bytes) → Event → Bool → State → Answer
modify_v3 fru_pn e ready s =
    let b = byte e 11 in
    let s1 =
      if has_flag (byte e 8) 0x08
      then change_v3 (λ d. record d { sn = bit_or d.sn 0x10 }) s
      else s in
    let s2 = if has_flag b 0x80 then report_menugoal msgmenug171 s1 else s1 in
    let s3 =
      change_v3
        (λ d. record d {
          rcode = (d.rcode + (bit_and b 0x80 + bit_and b 0x40 + bit_and b 0x20) / 32) % 2 ^ 16;
        })
        s2 in
    if ready then (do s' ← report_srn fru_pn v3_errdscr 0 s3; done (1, s')) else done (1, s3)

-- What follows convert_symptom, with the number, the state with its description, and the one
-- before.
unfoldable pub conclude_symptom : (Bytes → Option Bytes) → Event → ℕ → State → State → Answer
unfolding modify_v3 get_register_data
conclude_symptom fru_pn e seqn s before =
    if seqn == 0x100
    then done (1, before)
    else if seqn == 0xff
    then (elim (get_register_data e src_reg_id_04) [
      | none ↦ do s' ← report_srn fru_pn v3_errdscr 0 s; done (1, s')
      | some (p, rlen) ↦ do s' ← process_refcodes fru_pn e p rlen s; done (1, s')
    ])
    else modify_v3 fru_pn e true s

-- A log that is no EPOW log.
unfoldable pub symptom_v3 : (Bytes → Option Bytes) → Event → ℕ → State → Answer
unfolding convert_symptom conclude_symptom
symptom_v3 fru_pn e fmt s = do
  r ← convert_symptom fru_pn e fmt (has_flag (byte e 8) 0x08) s
  conclude_symptom fru_pn e r.0 (change_v3 (λ d. record d { rcode = r.0 * 16; rmsg = r.1 }) r.2) r.2

-- A platform specific error: the reason code is reset behind the report.
unfoldable pub platform_v3 : (Bytes → Option Bytes) → Event → State → Answer
platform_v3 fru_pn e s =
    let nibble = byte e 9 % 16 in
    let change = λ (f : ℕ → ℕ) (st : State).
      (let d = entry platform_error 0 st in
        write_entry platform_error 0 (record d { rcode = f d.rcode }) st) in
    do
      s' ← report_srn fru_pn platform_error 0 (change (λ n. n + nibble) s)
      done (1, change (λ n. n - nibble) s')

unfoldable pub process_v3_logs : (Bytes → Option Bytes) → Event → ℕ → State → Answer
unfolding process_v3_epow symptom_v3 platform_v3 modify_v3
process_v3_logs fru_pn e error_type s =
    let version = byte e 0 in
    let fmt = error_type / 2 ^ 24 in
    let s1 = change_v3 (λ d. record d { sn = 0xa00 + fmt }) s in
    if ltb version 3
    then done (0, s)
    else if has_flag (byte e 9) 0x80
    then platform_v3 fru_pn e s
    else if fmt == 4
    then done (0, s)
    else if fmt == 5
    then (do
      r ← process_v3_epow fru_pn e error_type version s1
      if r.0 == 2 then done (1, r.1) else modify_v3 fru_pn e (ltb 0 r.0) r.1)
    else symptom_v3 fru_pn e fmt s1
