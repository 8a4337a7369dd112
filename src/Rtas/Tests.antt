-- ===== src/Rtas/Tests.antt =====
-- Events and configuration files on which rtas_errd runs, with the codes of the architecture.
use ppc64_diag.Rtas.Config.{
  at, at_least_one, begin_or_grow, behind_equals, classify, digits, emit, ends, entry, eof,
  get_config_num, get_config_string, get_token, int_bits, is_equals, is_newline, next, next_of,
  num_value, overflow, scan, signed, skip_spaces, starts_digit, strtol, unsigned,
}
use ppc64_diag.Rtas.Config.Ending.{parse_config_entries_ends}
use ppc64_diag.Rtas.Config.Entries.{
  Ending, entries_loop, init_d_cfg, min_processors_text, name_of, parse_config_entries, read_named,
  then_set,
}
use ppc64_diag.Rtas.Config.LastLine.{IsPlain, last_value_lost}
use ppc64_diag.Errd.Files.{same_name}
use ppc64_diag.Lpd.Location.{isspace}
use ppc64_diag.Elog.Memory.{Bytes}
use ppc64_diag.Rtas.Epow.{Codes, Event, State, check_epow}
use ppc64_diag.Rtas.Epow.Confirmed.{Confirmed, check_epow-Confirmed}
use ppc64_diag.Rtas.Epow.Timer.{
  Reaches, Reaches-TimedInv, Step, TimedInv, TimerInv, signals, signals_stop,
}
use ppc64_diag.Base.{
  ◌+◌, ◌++◌, ◌≤◌, ◌≡◌, ◌⊎◌, inl, inr, ◌≢◌, refl, arith, true, false, [], ◌∷◌, some, replicate,
}

abbrev papr : Codes
papr = record {
  reset = 0;
  warn_cooling = 1;
  warn_power = 2;
  system_shutdown = 3;
  system_halt = 4;
  main_enclosure = 5;
  power_off = 7;
  normal_shutdown = 1;
  utility_power_loss = 2;
  crit_func_loss = 3;
  ambient_temp = some 4;
}

-- A shutdown for the loss of critical functions, and ten minutes with the status 10.
abbrev shutdown : Event
shutdown = record {
  extended = true;
  version = 6;
  epow = some record {
    action_code = 3;
    event_modifier = 3;
    fan = false;
    temp = false;
    power_fault = false;
    power_loss = false;
    power_supply = false;
    power_switch = false;
  };
}

abbrev quiet : State
quiet = record { time_remaining = 0; timer_on = false; status_file = b'0' ∷ []; runs = 0 }

abbrev counting : State
counting = record {
  time_remaining = 600;
  timer_on = true;
  status_file = b'1' ∷ b'0' ∷ [];
  runs = 1;
}

quiet-TimerInv : TimerInv quiet
quiet-TimerInv = (inl refl, omega arith, refl)

counting-TimerInv : TimerInv counting
counting-TimerInv = (inr refl, omega arith, refl)

Reaches-TimedInv_example : TimedInv false ((check_epow papr true true (some 3) shutdown quiet).1)
Reaches-TimedInv_example =
    Reaches-TimedInv papr quiet-TimerInv
      (Reaches.after Reaches.here (Step.event_step true true (some 3) shutdown))

signals_stop_example :
    ((signals papr (replicate 121 (true, some 3)) counting).timer_on ≡ false)
    × ((signals papr (replicate 121 (true, some 3)) counting).time_remaining ≡ 0)
signals_stop_example =
    signals_stop papr (replicate 121 (true, some 3)) counting counting-TimerInv (omega arith)

check_epow-Confirmed_example :
    let r = check_epow papr true true (some 3) shutdown quiet in
    (r.0.status ≤ 11) × ((r.1.runs ≡ 0) ⊎ (r.1.runs ≡ 0 + 1) × Confirmed papr (some 3) shutdown)
check_epow-Confirmed_example = check_epow-Confirmed papr true true (some 3) shutdown quiet

abbrev four : Bytes
four = b'4' ∷ []

four-IsPlain : IsPlain four
unfolding classify
four-IsPlain = (refl, tt)

four_read : at_least_one ((strtol four).0) ≡ 4
unfolding at_least_one strtol signed unsigned digits starts_digit int_bits skip_spaces isspace
four_read = refl

last_value_lost_example :
    (get_config_num (at (b'=' ∷ four)) 1 ≡ entry 1 eof 1)
    × (get_config_string (at (b'=' ∷ four)) 1 ≡ overflow)
last_value_lost_example = last_value_lost four 1 four-IsPlain

abbrev min_processors_file : Bytes
min_processors_file = min_processors_text ++ b'=' ∷ b'4' ∷ b'\n' ∷ []

parse_config_entries_ends_example :
    parse_config_entries (λ policy. true) false min_processors_file ≢ Ending.no_fuel
parse_config_entries_ends_example =
    parse_config_entries_ends (λ policy. true) false min_processors_file

min_processors_parsed :
    parse_config_entries (λ policy. true) false min_processors_file
    ≡ Ending.parsed (record init_d_cfg { min_processors = 4 })
unfolding parse_config_entries entries_loop read_named name_of same_name get_config_num
    behind_equals next next_of get_token scan classify ends emit begin_or_grow is_newline is_equals
    num_value then_set at_least_one strtol signed unsigned digits starts_digit int_bits skip_spaces
    isspace init_d_cfg
min_processors_parsed = refl
