-- ===== src/Rtas/Epow.antt =====
-- rtas_errd/epow.c and update_epow_status_file of rtas_errd/files.c: what an environmental or power
-- warning (EPOW) does to the status file, to the interval timer and to the shutdown script.
pub mod Timer
pub mod Confirmed
pub mod StatusFile
use ppc64_diag.Base.{
  ℕ, ◌+◌, ◌-◌, ◌/◌, ◌%◌, ltb, ◌==◌, Bool, true, false, not, ◌&&◌, if◌then◌else◌, List, [], ◌∷◌,
  ◌++◌, Option, some, none, length, drop,
}
use ppc64_diag.Elog.Memory.{Bytes}

-- The names of librtasevent's header that the code compares with; `ambient_temp` is none where the
-- header does not define it.
pub record Codes : Type 0 where
  pub reset : ℕ
  pub warn_cooling : ℕ
  pub warn_power : ℕ
  pub system_shutdown : ℕ
  pub system_halt : ℕ
  pub main_enclosure : ℕ
  pub power_off : ℕ
  pub normal_shutdown : ℕ
  pub utility_power_loss : ℕ
  pub crit_func_loss : ℕ
  pub ambient_temp : Option ℕ

-- The fields of librtasevent's `rtas_epow_scn` that the code reads.
pub record EpowScn : Type 0 where
  pub action_code : ℕ
  pub event_modifier : ℕ
  pub fan : Bool
  pub temp : Bool
  pub power_fault : Bool
  pub power_loss : Bool
  pub power_supply : Bool
  pub power_switch : Bool

-- An event: `extended` and `version` of its header, and the section where it has one.
pub record Event : Type 0 where
  pub extended : Bool
  pub version : ℕ
  pub epow : Option EpowScn

-- `time_remaining` is at 0 for what is not positive, since the code only tests its sign.
-- `runs` counts the starts of /etc/rc.powerfail.
pub record State : Type 0 where
  pub time_remaining : ℕ
  pub timer_on : Bool
  pub status_file : Bytes
  pub runs : ℕ

-- `sprintf("%d")` of a status below 100.
unfoldable pub decimal : ℕ → Bytes
decimal n = if ltb n 10 then (b'0' + n) ∷ [] else (b'0' + n / 10) ∷ (b'0' + n % 10) ∷ []

-- A write from the start of the file, which stays as long as it was. `io` is false where the file
-- cannot be opened or written.
unfoldable pub update_epow_status_file : Bool → ℕ → State → State
unfolding decimal
update_epow_status_file false status s = s
update_epow_status_file true status s = record s {
  status_file = decimal status ++ drop (length (decimal status)) s.status_file;
}

unfoldable pub resolved_status : Codes → ℕ → Option ℕ
resolved_status codes state =
    if state == codes.reset
    then some 0
    else if state == codes.warn_cooling
    then some 8
    else if state == codes.warn_power
    then some 9
    else none

abbrev update_some : Bool → Option ℕ → State → State
update_some io none s = s
update_some io (some status) s = update_epow_status_file io status s

-- The handler behind its first test; the sensor is none where it cannot be read.
unfoldable pub check_resolved : Codes → Bool → Option ℕ → State → State
check_resolved codes io none s = record s { time_remaining = s.time_remaining - 5 }
check_resolved codes io (some state) s =
    if ltb state codes.system_shutdown
    then record (update_some io (resolved_status codes state) s) {
      time_remaining = 0;
      timer_on = false;
    }
    else record s { time_remaining = s.time_remaining - 5 }

unfoldable pub epow_timer_handler : Codes → Bool → Option ℕ → State → State
epow_timer_handler codes io sensor s =
    if s.time_remaining == 0
    then record s { timer_on = false }
    else check_resolved codes io sensor s

-- The texts of log_epow and log_msg. The two with a name in them always say "power off", since the
-- case of the main enclosure falls through to an assignment.
pub data Message : Type 0 where
  sensor_failed : Message
  short_power_failure short_not_in_shutdown : Message
  no_section : Message
  reset_no_action noncritical_cooling noncritical_power : Message
  shutdown_resolved shutdown_fan shutdown_power shutdown_normal shutdown_battery : Message
  shutdown_functions shutdown_ambient shutdown_unknown : Message
  halt_resolved halt_fan halt_thermal halt_unknown halt_unspecified : Message
  off_resolved off_source off_failure off_switch off_event : Message
  off_unknown_enclosure off_unknown_supply : Message
  unknown_action : Message

-- What parse_epow returns and logs.
pub record Reply : Type 0 where
  pub status : ℕ
  pub message : Message

unfoldable pub reply : ℕ → Message → Reply
reply n m = record { status = n; message = m }

-- `setitimer`, and the assignment behind it.
unfoldable pub start_timer : State → State
start_timer s = if s.time_remaining == 0 then record s { timer_on = true } else s

unfoldable pub extend_time : State → State
extend_time s = record s { time_remaining = 600 }

unfoldable pub is_ambient : Option ℕ → ℕ → Bool
is_ambient none modifier = false
is_ambient (some ambient_temp) modifier = modifier == ambient_temp

unfoldable pub shutdown_reply : Codes → EpowScn → Reply
unfolding reply
shutdown_reply codes epow =
    if epow.fan
    then reply 6 shutdown_fan
    else if epow.power_fault
    then reply 7 shutdown_power
    else if epow.event_modifier == codes.normal_shutdown
    then reply 10 shutdown_normal
    else if epow.event_modifier == codes.utility_power_loss
    then reply 7 shutdown_battery
    else if epow.event_modifier == codes.crit_func_loss
    then reply 11 shutdown_functions
    else if is_ambient codes.ambient_temp epow.event_modifier
    then reply 4 shutdown_ambient
    else reply 7 shutdown_unknown

unfoldable pub halt_reply : ℕ → EpowScn → Reply
unfolding reply
halt_reply version epow =
    if not (ltb version 6)
    then reply 4 halt_unspecified
    else if epow.fan
    then reply 5 halt_fan
    else if epow.temp
    then reply 4 halt_thermal
    else reply 4 halt_unknown

unfoldable pub off_reply : Codes → ℕ → EpowScn → Reply
unfolding reply
off_reply codes version epow =
    if not (ltb version 6 && epow.power_fault)
    then reply 1 off_event
    else if epow.power_loss
    then reply 1 off_source
    else if epow.power_supply
    then reply 2 off_failure
    else if epow.power_switch
    then reply 3 off_switch
    else if epow.action_code == codes.main_enclosure
    then reply 2 off_unknown_enclosure
    else reply 2 off_unknown_supply

unfoldable pub is_off : Codes → ℕ → Bool
is_off codes n = if n == codes.main_enclosure then true else n == codes.power_off

-- The switch on the action code, for the sensor's `state`.
unfoldable pub act : Codes → ℕ → ℕ → EpowScn → State → Reply × State
unfolding reply
act codes state version epow s =
    if epow.action_code == codes.reset
    then (reply 0 reset_no_action, s)
    else if epow.action_code == codes.warn_cooling
    then (reply 8 noncritical_cooling, s)
    else if epow.action_code == codes.warn_power
    then (reply 9 noncritical_power, s)
    else if epow.action_code == codes.system_shutdown
    then (if state == codes.system_shutdown
        then (shutdown_reply codes epow, extend_time (start_timer s))
        else (reply 0 shutdown_resolved, s))
    else if epow.action_code == codes.system_halt
    then (
      (if state == codes.system_halt then halt_reply version epow else reply 0 halt_resolved),
      s,
    )
    else if is_off codes epow.action_code
    then ((if is_off codes state then off_reply codes version epow else reply 0 off_resolved), s)
    else (reply 0 unknown_action, s)

unfoldable pub parse_section : Codes → ℕ → ℕ → Option EpowScn → State → Reply × State
unfolding reply
parse_section codes state version none s = (reply 0 no_section, s)
parse_section codes state version (some epow) s = act codes state version epow s

unfoldable pub parse_epow : Codes → Option ℕ → Event → State → Reply × State
unfolding reply
parse_epow codes none event s = (reply 0 sensor_failed, s)
parse_epow codes (some state) event s =
    if event.extended
    then parse_section codes state event.version event.epow s
    else if ltb 0 state
    then (reply 10 short_power_failure, s)
    else (reply 0 short_not_in_shutdown, s)

-- `fork` with its child, which executes the script.
unfoldable pub run_program : Bool → ℕ → State → State
run_program forked status s = if ltb 0 status && forked then record s { runs = s.runs + 1 } else s

unfoldable pub check_epow : Codes → Bool → Bool → Option ℕ → Event → State → Reply × State
check_epow codes io forked sensor event s =
    let parsed = parse_epow codes sensor event s in
    (
      parsed.0,
      run_program forked parsed.0.status (update_epow_status_file io parsed.0.status parsed.1),
    )
