-- ===== src/Elog/Parse/Termination.antt =====
-- When the loop over the sections ends. Its pointer moves only behind a section that is in the
-- table.
use ppc64_diag.Base.{ℕ, zero, suc, ◌<◌, ◌≡◌, refl, arith, Option, some, none, inl, inr, ◌⊎◌}
use ppc64_diag.Elog.Memory.{Bytes, Errno, Fault}
use ppc64_diag.Elog.Parse.{
  Heap, ParseState, Turn, again, next, break_with, return_with, parse_turn, parse_loop, Run, done,
  crash, log_overflow, Exit, leaves, returns,
}
use ppc64_diag.Elog.Parse.Room.{Inv, budget, Ends, RunEnsures}
use ppc64_diag.Elog.Parse.Invariant.{parse_turn-TurnInv, IsBytes}

-- The loop comes to a section that sends it back to the same place.
pub data Stuck (heap : Heap) (mem : Bytes) (buflen : ℕ) : ParseState → Type 0 where
  here : {s : ParseState} → parse_turn heap mem buflen s ≡ done again → Stuck heap mem buflen s
  later :
      {s t : ParseState}
      → parse_turn heap mem buflen s ≡ done (next t)
      → Stuck heap mem buflen t
      → Stuck heap mem buflen s

-- At such a section the loop never ends, whatever its fuel.
pub parse_loop-Stuck :
    (fuel : ℕ) (heap : Heap) (mem : Bytes) (buflen : ℕ) {s : ParseState}
    → Stuck heap mem buflen s
    → parse_loop fuel heap mem buflen s ≡ none
unfolding parse_loop
parse_loop-Stuck zero heap mem buflen k = refl
parse_loop-Stuck (suc fuel) heap mem buflen (here e) =
    rw (e, parse_loop) (parse_loop-Stuck fuel heap mem buflen (here e))
parse_loop-Stuck (suc fuel) heap mem buflen (later e k) =
    rw (e, parse_loop) (parse_loop-Stuck fuel heap mem buflen k)

abbrev pub ExitInv : Exit → Type 0
ExitInv (leaves rc t) = Ends t.ph t.log t.log_pos
ExitInv (returns e) = Unit

pub Turn-cases :
    (m : Run Turn)
    → (m ≡ done again)
      ⊎ ((t : ParseState) × (m ≡ done (next t)))
      ⊎ ((rc : Option Errno) × (t : ParseState) × (m ≡ done (break_with rc t)))
      ⊎ ((e : Errno) × (m ≡ done (return_with e)))
      ⊎ ((x : Fault) × (m ≡ crash x))
      ⊎ (m ≡ log_overflow)
Turn-cases (done again) = inl refl
Turn-cases (done (next t)) = inr (inl (t, refl))
Turn-cases (done (break_with rc t)) = inr (inr (inl (rc, t, refl)))
Turn-cases (done (return_with e)) = inr (inr (inr (inl (e, refl))))
Turn-cases (crash x) = inr (inr (inr (inr (inl (x, refl)))))
Turn-cases log_overflow = inr (inr (inr (inr (inr refl))))

-- With more fuel than sections are left, the loop ends, or comes to a section at which it never
-- ends.
pub parse_loop_ends :
    (fuel : ℕ) (heap : Heap) (mem : Bytes) (buflen : ℕ) (s : ParseState)
    → IsBytes mem
    → Inv s
    → budget s < fuel
    → Stuck heap mem buflen s
      ⊎ ((r : Run Exit) × (parse_loop fuel heap mem buflen s ≡ some r) × RunEnsures ExitInv r)
unfolding parse_loop
parse_loop_ends zero heap mem buflen s b i h = absurd (omega arith)
parse_loop_ends (suc fuel) heap mem buflen s b i h =
    elim (Turn-cases (parse_turn heap mem buflen s)) [
      | inl e ↦ inl (here e)
      | inr (inl (t, e)) ↦
          let j = rw e at (parse_turn-TurnInv heap mem buflen s b i) in
          elim (parse_loop_ends fuel heap mem buflen t b j.0 (omega arith)) [
            | inl k ↦ inl (later e k)
            | inr (r, p, q) ↦ inr (r, rw (e, parse_loop) p, q)
          ]
      | inr (inr (inl (rc, t, e))) ↦ inr (
        done (leaves rc t),
        rw (e, parse_loop) refl,
        rw e at (parse_turn-TurnInv heap mem buflen s b i),
      )
      | inr (inr (inr (inl (x, e)))) ↦ inr (done (returns x), rw (e, parse_loop) refl, tt)
      | inr (inr (inr (inr (inl (x, e))))) ↦ inr (crash x, rw (e, parse_loop) refl, tt)
      | inr (inr (inr (inr (inr e)))) ↦ absurd (rw e at (parse_turn-TurnInv heap mem buflen s b i))
    ]
