-- ===== src/Rtas/Ela/Sensor.antt =====
-- sensor_epow of rtas_errd/ela.c: the EPOW logs of a defined sensor. A result is what the function
-- returns, with the new state. The names of FRUs that it writes are left out, since nothing reads
-- them.
use Prim.Native.Nat.{bit_or}
use ppc64_diag.Base.{
  ℕ, ◌+◌, ◌%◌, ◌^◌, ◌==◌, ltb, Bool, true, false, ◌&&◌, ◌||◌, if◌then◌else◌, Option, has_flag,
}
use ppc64_diag.Elog.Memory.{Bytes}
use ppc64_diag.Rtas.Ela.Message.{
  msgcrit_fan, msgcrit_fan_shut, msgcrit_power, msgcrit_power_shut, msgcrit_therm,
  msgcrit_therm_shut, msgcrit_unk, msgcrit_unk_shut, msgcrit_volt, msgcrit_volt_shut, msgmenug152,
  msgmenug153, msgred_fan, msgred_power, msgred_unk, msgwarn_fan, Message,
}
use ppc64_diag.Rtas.Ela.Description.{Description}
use ppc64_diag.Rtas.Ela.Tables.{
  fan_epow, volt_epow, therm_epow, pow_epow, unknown_epow, v3_errdscr, Table,
}
use ppc64_diag.Rtas.Ela.State.{Event, Run, State, done, entry, word, write_entry, ◌>>=◌}
use ppc64_diag.Rtas.Ela.Locations.{loc_codes_ok}
use ppc64_diag.Rtas.Ela.Report.{report_menugoal, report_srn}

abbrev pub Answer : Type 0
Answer = Run (ℕ × State)

-- report_srn of the first entry, and 1 returned.
abbrev pub conclude : (Bytes → Option Bytes) → Table → State → Answer
conclude fru_pn t s = do s' ← report_srn fru_pn t 0 s; done (1, s')

-- A menu goal, and a value returned.
abbrev pub conclude_goal : Message → ℕ → State → Answer
conclude_goal m rc s = done (rc, report_menugoal m s)

-- One of two menu goals, with and without location codes.
abbrev pub located_goal : Message → Message → State → State
located_goal m n s = report_menugoal (if loc_codes_ok s.loc_codes then m else n) s

-- The tokens THERM, FAN, VOLT and POWER.
pub data Sensor : Type 0 where
  fan volt therm power other_sensor : Sensor

unfoldable pub sensor_of : ℕ → Sensor
sensor_of token =
    if token == 9001
    then fan
    else if token == 9002
    then volt
    else if token == 3
    then therm
    else if token == 9004
    then power
    else other_sensor

-- Whether the version is 3, which alone uses the description of version 3.
unfoldable pub sensor_table : Bool → Sensor → Table
sensor_table true t = v3_errdscr
sensor_table false fan = fan_epow
sensor_table false volt = volt_epow
sensor_table false therm = therm_epow
sensor_table false power = pow_epow
sensor_table false other_sensor = unknown_epow

unfoldable pub sensor_rcode : Bool → Sensor → ℕ → ℕ
sensor_rcode true fan rcode = 0x10
sensor_rcode true volt rcode = 0x30
sensor_rcode true therm rcode = 0x50
sensor_rcode true power rcode = 0x70
sensor_rcode true other_sensor rcode = 0x90
sensor_rcode false fan rcode = 0x830
sensor_rcode false volt rcode = 0x831
sensor_rcode false therm rcode = 0x832
sensor_rcode false power rcode = 0x833
sensor_rcode false other_sensor rcode = (rcode + 0x839) % 2 ^ 16

abbrev redundant_part : Sensor → ℕ × Message
redundant_part fan = (0x110, msgred_fan)
redundant_part power = (0x120, msgred_power)
redundant_part _ = (0x130, msgred_unk)

unfoldable pub redundant : Bool → Sensor → Description → Description
redundant v3 t d = record d {
  sn = if v3 then bit_or d.sn 0x10 else 0x652;
  rcode = if v3 then (redundant_part t).0 else d.rcode;
  rmsg = (redundant_part t).1;
}

-- The messages of a critical value, also of one that shuts the system down, with its reason code.
abbrev critical_part : Sensor → Message × ℕ × Message
critical_part fan = (msgcrit_fan, 0x20, msgcrit_fan_shut)
critical_part volt = (msgcrit_volt, 0x40, msgcrit_volt_shut)
critical_part therm = (msgcrit_therm, 0x60, msgcrit_therm_shut)
critical_part power = (msgcrit_power, 0x80, msgcrit_power_shut)
critical_part other_sensor = (msgcrit_unk, 0x100, msgcrit_unk_shut)

unfoldable pub critical : Bool → ℕ → Sensor → Description → Description
critical v3 class t d =
    let part = critical_part t in
    if v3 && ltb 2 class
    then record d { rcode = part.1; rmsg = part.2 }
    else record d { rmsg = part.0 }

abbrev warning_message : Sensor → Message
warning_message fan = msgwarn_fan
warning_message t = (critical_part t).0

unfoldable pub warning : Bool → Sensor → Description → Description
warning v3 t d =
    if v3
    then record d { sn = (d.sn + 0x10) % 2 ^ 16; rmsg = warning_message t }
    else record d { rcode = (d.rcode + 0x10) % 2 ^ 16; rmsg = warning_message t }

-- The end of sensor_epow: only version 3 is reported by the caller.
unfoldable pub report_sensor : (Bytes → Option Bytes) → Bool → Table → Description → State → Answer
unfolding write_entry
report_sensor fru_pn v3 table d s =
    let s' = write_entry table 0 d s in if v3 then done (1, s') else conclude fru_pn table s'

unfoldable pub sensor_epow : (Bytes → Option Bytes) → Event → ℕ → ℕ → State → Answer
unfolding sensor_of sensor_table sensor_rcode redundant critical warning report_sensor entry
    write_entry
sensor_epow fru_pn e error_type version s =
    let class = error_type % 256 in
    let t = sensor_of (word e 28) in
    let status = word e 40 in
    let v3 = version == 3 in
    let table = sensor_table v3 t in
    let d0 = entry table 0 s in
    let d1 = record d0 { rcode = sensor_rcode v3 t d0.rcode } in
    let d = if v3 then d1 else record d1 { sn = 0x651 } in
    let s' = write_entry table 0 d s in
    if has_flag error_type 0x800
    then report_sensor fru_pn v3 table (redundant v3 t d) s
    else if status == 13 || status == 9
    then report_sensor fru_pn v3 table (critical v3 class t d) s
    else if status == 12 || status == 10
    then report_sensor fru_pn v3 table (warning v3 t d) s
    else if status == 11 || status == 0
    then done (0, s')
    else done (0, located_goal msgmenug152 msgmenug153 s')
