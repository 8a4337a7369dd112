-- ===== src/Rtas/Epow/Confirmed.antt =====
-- When the shutdown script is run, and with which status.
use ppc64_diag.Rtas.Epow.{
  Codes, EpowScn, Event, State, act, check_epow, extend_time, halt_reply, is_off, off_reply,
  parse_epow, parse_section, reply, run_program, shutdown_reply, start_timer,
  update_epow_status_file,
}
use ppc64_diag.Rtas.Epow.Timer.{parse_epow_state}
use ppc64_diag.Base.{
  ◌∙◌, ℕ, ◌+◌, ◌≤◌, ◌<◌, ◌≡◌, ◌⊎◌, inl, inr, refl, arith, Bool, true, false, Option, some, none,
  Option-cases,
}

-- The sensor's state agrees with the event's section.
abbrev pub Current : Codes → ℕ → EpowScn → Type 0
Current codes state epow =
    (epow.action_code ≡ codes.warn_cooling)
    ⊎ (epow.action_code ≡ codes.warn_power)
    ⊎ (epow.action_code ≡ codes.system_shutdown) × (state ≡ codes.system_shutdown)
    ⊎ (epow.action_code ≡ codes.system_halt) × (state ≡ codes.system_halt)
    ⊎ (is_off codes epow.action_code ≡ true) × (is_off codes state ≡ true)

act-Current :
    (codes : Codes) (state version : ℕ) (epow : EpowScn) (s : State)
    → ((act codes state version epow s).0.status ≡ 0) ⊎ Current codes state epow
unfolding act reply
act-Current codes state version epow s = ground arith

shutdown_reply-status :
    (codes : Codes) (epow : EpowScn)
    → (3 < (shutdown_reply codes epow).status) × ((shutdown_reply codes epow).status ≤ 11)
unfolding shutdown_reply reply
shutdown_reply-status codes epow = ground arith

halt_reply-status : (version : ℕ) (epow : EpowScn) → (halt_reply version epow).status ≤ 11
unfolding halt_reply reply
halt_reply-status version epow = ground arith

off_reply-status :
    (codes : Codes) (version : ℕ) (epow : EpowScn) → (off_reply codes version epow).status ≤ 11
unfolding off_reply reply
off_reply-status codes version epow = ground arith

act-status :
    (codes : Codes) (state version : ℕ) (epow : EpowScn) (s : State)
    → (act codes state version epow s).0.status ≤ 11
unfolding act reply
act-status codes state version epow s = ground (
  arith,
  (shutdown_reply-status codes epow).1,
  halt_reply-status version epow,
  off_reply-status codes version epow,
)

-- The sensor is read, and what it says goes with the event: a short event with any state but 0, or
-- a section that agrees with it.
abbrev pub Confirmed : Codes → Option ℕ → Event → Type 0
Confirmed codes sensor event =
    (state : ℕ) × (sensor ≡ some state)
    × ((event.extended ≡ false) × (0 < state)
        ⊎ (event.extended ≡ true)
          × (epow : EpowScn) × (event.epow ≡ some epow)
          × Current codes state epow)

parse_epow-Confirmed :
    (codes : Codes) (sensor : Option ℕ) (event : Event) (s : State)
    → ((parse_epow codes sensor event s).0.status ≡ 0) ⊎ Confirmed codes sensor event
unfolding parse_epow parse_section reply
parse_epow-Confirmed codes none event s = inl refl
parse_epow-Confirmed codes (some state) event s = elim (Option-cases event.epow) [
  | inl e ↦ ground arith
  | inr (epow, e) ↦ ground (arith, act-Current codes state event.version epow s)
]

parse_epow-status :
    (codes : Codes) (sensor : Option ℕ) (event : Event) (s : State)
    → (parse_epow codes sensor event s).0.status ≤ 11
unfolding parse_epow parse_section reply
parse_epow-status codes none event s = omega arith
parse_epow-status codes (some state) event s = elim (Option-cases event.epow) [
  | inl e ↦ ground arith
  | inr (epow, e) ↦ ground (arith, act-status codes state event.version epow s)
]

parse_epow-runs :
    (codes : Codes) (sensor : Option ℕ) (event : Event) (s : State)
    → ((parse_epow codes sensor event s).1).runs ≡ s.runs
unfolding extend_time start_timer
parse_epow-runs codes sensor event s = ground (arith, parse_epow_state codes sensor event s)

update-runs :
    (io : Bool) (status : ℕ) (s : State) → (update_epow_status_file io status s).runs ≡ s.runs
unfolding update_epow_status_file
update-runs false status s = refl
update-runs true status s = refl

run_program-runs :
    (forked : Bool) (status : ℕ) (s : State)
    → ((run_program forked status s).runs ≡ s.runs)
      ⊎ (0 < status) × ((run_program forked status s).runs ≡ s.runs + 1)
unfolding run_program
run_program-runs forked status s = ground arith

-- The shutdown script is started at most once for an event, and only where the sensor can be read.
-- A short event needs a state other than 0. A section needs the state of the same kind as its
-- action code where that asks for a shutdown, a halt or a loss of power, and any state where it is
-- a warning of cooling or of power; other codes do not start the script. The status is at most 11.
pub check_epow-Confirmed :
    (codes : Codes) (io forked : Bool) (sensor : Option ℕ) (event : Event) (s : State)
    → let r = check_epow codes io forked sensor event s in
      (r.0.status ≤ 11)
      × ((r.1.runs ≡ s.runs) ⊎ (r.1.runs ≡ s.runs + 1) × Confirmed codes sensor event)
unfolding check_epow
check_epow-Confirmed codes io forked sensor event s =
    let parsed = parse_epow codes sensor event s in
    let written = update_epow_status_file io parsed.0.status parsed.1 in
    let before = update-runs io parsed.0.status parsed.1 ∙ parse_epow-runs codes sensor event s in
    (
      parse_epow-status codes sensor event s,
      elim (run_program-runs forked parsed.0.status written) [
        | inl same ↦ inl (same ∙ before)
        | inr (some_status, more) ↦ elim (parse_epow-Confirmed codes sensor event s) [
          | inl zero_status ↦ absurd (omega arith)
          | inr confirmed ↦ inr (omega arith, confirmed)
        ]
      ],
    )
