-- ===== src/Rtas/Epow/Timer.antt =====
-- The interval timer of the EPOW handling.
use ppc64_diag.Rtas.Epow.{
  Codes, EpowScn, Event, State, act, check_epow, check_resolved, epow_timer_handler, extend_time,
  parse_epow, parse_section, run_program, start_timer, update_epow_status_file,
}
use ppc64_diag.Base.{
  ℕ, ◌+◌, ◌*◌, ◌-◌, ◌%◌, ◌≤◌, ◌<◌, ◌≡◌, ◌∙◌, ◌⊎◌, ◌||◌, inl, inr, refl, arith, subst, sym, Bool,
  true, false, List, [], ◌∷◌, Option, some, none, length, if◌then◌else◌, Option-cases,
}

-- Time is only left while the timer runs, in steps of five seconds and at most ten minutes.
abbrev pub TimerInv : State → Type 0
TimerInv s =
    ((s.time_remaining ≡ 0) ⊎ (s.timer_on ≡ true))
    × (s.time_remaining ≤ 600)
    × (s.time_remaining % 5 ≡ 0)

-- Where signals also come inside events: the time is still bounded, but the timer may be off while
-- ten minutes are left.
abbrev pub IsBounded : State → Type 0
IsBounded s =
    ((s.time_remaining ≡ 0) ⊎ (s.timer_on ≡ true) ⊎ (s.time_remaining ≡ 600))
    × (s.time_remaining ≤ 600)
    × (s.time_remaining % 5 ≡ 0)

abbrev pub TimedInv : Bool → State → Type 0
TimedInv false s = TimerInv s
TimedInv true s = IsBounded s

-- An event inside which the signal is handled, between the test of the timer and the assignment of
-- the time. The event is handled as without the signal, but for the state. The handler reads the
-- sensor again, and `io'` is the result of its write.
abbrev pub interrupted :
    (codes : Codes) (io io' forked : Bool) (sensor sensor' : Option ℕ) → Event → State → State
interrupted codes io io' forked sensor sensor' event s =
    let status = (parse_epow codes sensor event s).0.status in
    run_program forked status (
      update_epow_status_file io status
        (extend_time (epow_timer_handler codes io' sensor' (start_timer s))))

-- What happens to the daemon: an event comes, the timer runs and its signal is handled, or the
-- signal is handled inside an event that sets the time. The flag is true for the last.
pub data Step (codes : Codes) : Bool → State → State → Type 0 where
  event_step :
      {s : State} (io forked : Bool) (sensor : Option ℕ) (event : Event)
      → Step codes false s ((check_epow codes io forked sensor event s).1)
  timer_step :
      {s : State} (io : Bool) (sensor : Option ℕ)
      → s.timer_on ≡ true
      → Step codes false s (epow_timer_handler codes io sensor s)
  interrupted_step :
      {s : State} (io io' forked : Bool) (sensor sensor' : Option ℕ) (event : Event)
      → (parse_epow codes sensor event s).1 ≡ extend_time (start_timer s)
      → (start_timer s).timer_on ≡ true
      → Step codes true s (interrupted codes io io' forked sensor sensor' event s)

-- Any number of steps, with the flag true where one of them was interrupted.
pub data Reaches (codes : Codes) : Bool → State → State → Type 0 where
  here : {s : State} → Reaches codes false s s
  after :
      {b c : Bool} {s t u : State}
      → Reaches codes b s t
      → Step codes c t u
      → Reaches codes (b || c) s u

abbrev SameTimer : State → State → Type 0
SameTimer s t = (t.time_remaining ≡ s.time_remaining) × (t.timer_on ≡ s.timer_on)

update-SameTimer :
    (io : Bool) (status : ℕ) (s : State) → SameTimer s (update_epow_status_file io status s)
unfolding update_epow_status_file
update-SameTimer false status s = (refl, refl)
update-SameTimer true status s = (refl, refl)

run_program-SameTimer :
    (forked : Bool) (status : ℕ) (s : State) → SameTimer s (run_program forked status s)
unfolding run_program
run_program-SameTimer forked status s = ground arith

-- The state behind an event, before the status file is written.
act_state :
    (codes : Codes) (state version : ℕ) (epow : EpowScn) (s : State)
    → ((act codes state version epow s).1 ≡ s)
      ⊎ ((act codes state version epow s).1 ≡ extend_time (start_timer s))
unfolding act
act_state codes state version epow s = ground arith

pub parse_epow_state :
    (codes : Codes) (sensor : Option ℕ) (event : Event) (s : State)
    → ((parse_epow codes sensor event s).1 ≡ s)
      ⊎ ((parse_epow codes sensor event s).1 ≡ extend_time (start_timer s))
unfolding parse_epow parse_section
parse_epow_state codes none event s = inl refl
parse_epow_state codes (some state) event s = elim (Option-cases event.epow) [
  | inl e ↦ ground arith
  | inr (epow, e) ↦ ground (arith, act_state codes state event.version epow s)
]

TimerInv-extend : (s : State) → TimerInv s → TimerInv (extend_time (start_timer s))
unfolding extend_time start_timer
TimerInv-extend s inv = ground arith

TimerInv-same : (s t : State) → SameTimer s t → TimerInv s → TimerInv t
TimerInv-same s t same inv = ground arith

parse_epow-TimerInv :
    (codes : Codes) (sensor : Option ℕ) (event : Event) (s : State)
    → TimerInv s
    → TimerInv ((parse_epow codes sensor event s).1)
parse_epow-TimerInv codes sensor event s inv = elim (parse_epow_state codes sensor event s) [
  | inl e ↦ subst TimerInv (sym e) inv
  | inr e ↦ subst TimerInv (sym e) (TimerInv-extend s inv)
]

check_epow-TimerInv :
    (codes : Codes) (io forked : Bool) (sensor : Option ℕ) (event : Event) (s : State)
    → TimerInv s
    → TimerInv ((check_epow codes io forked sensor event s).1)
unfolding check_epow
check_epow-TimerInv codes io forked sensor event s inv =
    let parsed = parse_epow codes sensor event s in
    let written = update_epow_status_file io parsed.0.status parsed.1 in
    TimerInv-same written (run_program forked parsed.0.status written)
      (run_program-SameTimer forked parsed.0.status written)
      (TimerInv-same parsed.1 written (update-SameTimer io parsed.0.status parsed.1)
        (parse_epow-TimerInv codes sensor event s inv))

epow_timer_handler-TimerInv :
    (codes : Codes) (io : Bool) (sensor : Option ℕ) (s : State)
    → TimerInv s
    → TimerInv (epow_timer_handler codes io sensor s)
unfolding epow_timer_handler check_resolved
epow_timer_handler-TimerInv codes io none s inv = ground arith
epow_timer_handler-TimerInv codes io (some state) s inv = ground arith

IsBounded-extend : (s : State) → IsBounded s → IsBounded (extend_time (start_timer s))
unfolding extend_time start_timer
IsBounded-extend s inv = ground arith

IsBounded-same : (s t : State) → SameTimer s t → IsBounded s → IsBounded t
IsBounded-same s t same inv = ground arith

written-SameTimer :
    (io forked : Bool) (status : ℕ) (s : State)
    → SameTimer s (run_program forked status (update_epow_status_file io status s))
written-SameTimer io forked status s =
    let before = update-SameTimer io status s in
    let behind = run_program-SameTimer forked status (update_epow_status_file io status s) in
    (behind.0 ∙ before.0, behind.1 ∙ before.1)

parse_epow-IsBounded :
    (codes : Codes) (sensor : Option ℕ) (event : Event) (s : State)
    → IsBounded s
    → IsBounded ((parse_epow codes sensor event s).1)
parse_epow-IsBounded codes sensor event s inv = elim (parse_epow_state codes sensor event s) [
  | inl e ↦ subst IsBounded (sym e) inv
  | inr e ↦ subst IsBounded (sym e) (IsBounded-extend s inv)
]

check_epow-IsBounded :
    (codes : Codes) (io forked : Bool) (sensor : Option ℕ) (event : Event) (s : State)
    → IsBounded s
    → IsBounded ((check_epow codes io forked sensor event s).1)
unfolding check_epow
check_epow-IsBounded codes io forked sensor event s inv =
    let parsed = parse_epow codes sensor event s in
    IsBounded-same parsed.1
      (run_program forked parsed.0.status (update_epow_status_file io parsed.0.status parsed.1))
      (written-SameTimer io forked parsed.0.status parsed.1)
      (parse_epow-IsBounded codes sensor event s inv)

epow_timer_handler-IsBounded :
    (codes : Codes) (io : Bool) (sensor : Option ℕ) (s : State)
    → s.timer_on ≡ true
    → IsBounded s
    → IsBounded (epow_timer_handler codes io sensor s)
unfolding epow_timer_handler check_resolved
epow_timer_handler-IsBounded codes io none s on inv = ground arith
epow_timer_handler-IsBounded codes io (some state) s on inv = ground arith

extend_time-IsBounded : (s : State) → IsBounded (extend_time s)
unfolding extend_time
extend_time-IsBounded s = (inr (inr refl), omega arith, refl)

interrupted-IsBounded :
    (codes : Codes) (io io' forked : Bool) (sensor sensor' : Option ℕ) (event : Event) (s : State)
    → IsBounded (interrupted codes io io' forked sensor sensor' event s)
interrupted-IsBounded codes io io' forked sensor sensor' event s =
    let status = (parse_epow codes sensor event s).0.status in
    let extended = extend_time (epow_timer_handler codes io' sensor' (start_timer s)) in
    IsBounded-same extended (run_program forked status (update_epow_status_file io status extended))
      (written-SameTimer io forked status extended)
      (extend_time-IsBounded (epow_timer_handler codes io' sensor' (start_timer s)))

Step-TimedInv :
    (codes : Codes) (b : Bool) {c : Bool} {s t : State}
    → TimedInv b s
    → Step codes c s t
    → TimedInv (b || c) t
Step-TimedInv codes false inv (event_step io forked sensor event) =
    check_epow-TimerInv codes io forked sensor event _ inv
Step-TimedInv codes false inv (timer_step io sensor on) =
    epow_timer_handler-TimerInv codes io sensor _ inv
Step-TimedInv codes false inv (interrupted_step io io' forked sensor sensor' event e on) =
    interrupted-IsBounded codes io io' forked sensor sensor' event _
Step-TimedInv codes true inv (event_step io forked sensor event) =
    check_epow-IsBounded codes io forked sensor event _ inv
Step-TimedInv codes true inv (timer_step io sensor on) =
    epow_timer_handler-IsBounded codes io sensor _ on inv
Step-TimedInv codes true inv (interrupted_step io io' forked sensor sensor' event e on) =
    interrupted-IsBounded codes io io' forked sensor sensor' event _

-- Let the daemon start in a state in which time is only left while the timer runs, at most ten
-- minutes and in steps of five seconds. The same holds of each state that it reaches, whatever the
-- events, the sensor and the results of the writes are, unless a signal was handled inside an
-- event, between the test of the timer and the assignment of the time. Behind such a signal the
-- time is still at most ten minutes and in steps of five seconds, but all ten may be left while no
-- timer runs.
pub Reaches-TimedInv :
    (codes : Codes) {b : Bool} {s t : State} → TimerInv s → Reaches codes b s t → TimedInv b t
Reaches-TimedInv codes inv here = inv
Reaches-TimedInv codes inv (after {b} r step) =
    Step-TimedInv codes b (Reaches-TimedInv codes inv r) step

-- The signals of the timer, one for each answer of the file and the sensor, as long as it runs.
unfoldable pub signal : Codes → Bool × Option ℕ → State → State
signal codes a s = if s.timer_on then epow_timer_handler codes a.0 a.1 s else s

unfoldable pub signals : Codes → List (Bool × Option ℕ) → State → State
signals codes [] s = s
signals codes (a ∷ answers) s = signals codes answers (signal codes a s)

abbrev Stopped : State → Type 0
Stopped s = (s.timer_on ≡ false) × (s.time_remaining ≡ 0)

signals-Stopped :
    (codes : Codes) (answers : List (Bool × Option ℕ)) (s : State)
    → Stopped s
    → Stopped (signals codes answers s)
unfolding signals signal
signals-Stopped codes [] s h = h
signals-Stopped codes (a ∷ answers) s h =
    let off : signal codes a s ≡ s = ground arith in
    signals-Stopped codes answers (signal codes a s) (ground (arith, off))

epow_timer_handler_counts :
    (codes : Codes) (io : Bool) (sensor : Option ℕ) (s : State)
    → Stopped (epow_timer_handler codes io sensor s)
      ⊎ (epow_timer_handler codes io sensor s ≡ record s { time_remaining = s.time_remaining - 5 })
        × (0 < s.time_remaining)
unfolding epow_timer_handler check_resolved
epow_timer_handler_counts codes io none s = ground arith
epow_timer_handler_counts codes io (some state) s = ground arith

signal_counts :
    (codes : Codes) (a : Bool × Option ℕ) (s : State)
    → TimerInv s
    → Stopped (signal codes a s)
      ⊎ TimerInv (signal codes a s) × ((signal codes a s).time_remaining + 5 ≡ s.time_remaining)
unfolding signal
signal_counts codes a s inv = ground (arith, epow_timer_handler_counts codes a.0 a.1 s)

-- Unless a new event comes, the timer stops: let time be left only while it runs, in steps of five
-- seconds and at most ten minutes, and let the answers that are to come be one for each five
-- seconds left and one more. Behind them the timer is off and no time is left.
pub signals_stop :
    (codes : Codes) (answers : List (Bool × Option ℕ)) (s : State)
    → TimerInv s
    → s.time_remaining + 5 ≤ 5 * length answers
    → ((signals codes answers s).timer_on ≡ false) × ((signals codes answers s).time_remaining ≡ 0)
unfolding signals
signals_stop codes [] s inv h = absurd (omega arith)
signals_stop codes (a ∷ answers) s inv h = elim (signal_counts codes a s inv) [
  | inl stopped ↦ signals-Stopped codes answers (signal codes a s) stopped
  | inr (inv', less) ↦ signals_stop codes answers (signal codes a s) inv' (omega arith)
]

-- A signal that is handled between the test of the timer and the assignment: let time be left and
-- the sensor say that the problem is resolved. Then ten minutes are set and no timer runs, and
-- the next shutdown event does not start one.
extend_time_interrupted :
    (codes : Codes) (io : Bool) (state : ℕ) (s : State)
    → 0 < s.time_remaining
    → state < codes.system_shutdown
    → let t = extend_time (epow_timer_handler codes io (some state) (start_timer s)) in
      (t.time_remaining ≡ 600)
      × (t.timer_on ≡ false)
      × ((extend_time (start_timer t)).timer_on ≡ false)
unfolding extend_time start_timer epow_timer_handler check_resolved
extend_time_interrupted codes io state s h k = ground arith
