-- ===== src/Rtas/Ela/PreV6/Reported.antt =====
-- The predictive errors with a deconfigured resource, which process_pre_v6 means to ignore where
-- the platform has deconfigured all their FRUs.
use Prim.Native.Nat.{bit_or}
use ppc64_diag.Rtas.Ela.PreV6.{
  StatusCall, get_dt_status, ignore_loop, process_deconfigured, returns_null,
}
use ppc64_diag.Rtas.Ela.Report.{report_srn}
use ppc64_diag.Rtas.Ela.Report.Batches.{Short, Unmarked, callout_at}
use ppc64_diag.Rtas.Ela.Report.Callouts.{IsUsable, first_loc-join, located, report_srn-callouts}
use ppc64_diag.Rtas.Ela.Locations.Words.{Words, head, join, next_code-join, tail, length-join}
use ppc64_diag.Rtas.Ela.Tables.{number, v3_errdscr}
use ppc64_diag.Rtas.Ela.Description.{Fru, Description}
use ppc64_diag.Rtas.Ela.State.{Event, State, byte, done, entry, srn, write_entry}
use ppc64_diag.Elog.Memory.{Bytes}
use ppc64_diag.Base.{
  ℕ, zero, suc, ◌+◌, ◌≡◌, ◌<◌, ◌==◌, ◌&&◌, has_flag, refl, sym, subst, ap, ◌∙◌, arith,
  if◌then◌else◌, List, [], ◌∷◌, ◌++◌, Option, some, map, length,
}

ignore_loop-join :
    (fuel : ℕ) (calls : ℕ → StatusCall) (n : ℕ) (ws : List Bytes)
    → ((i : ℕ) → calls i ≡ returns_null)
    → length ws < fuel
    → Words ws
    → (rest : Bytes) × (ignore_loop fuel calls n (head ws) (join (tail ws)) ≡ done rest)
unfolding ignore_loop get_dt_status
ignore_loop-join zero calls n ws nulls l h = absurd (omega arith)
ignore_loop-join (suc fuel) calls n [] nulls l h = ([], refl)
ignore_loop-join (suc fuel) calls n (w ∷ ws) nulls l h =
    let (rest, later) = ignore_loop-join fuel calls (suc n) ws nulls (omega arith) (h.1) in
    (rest, rw (nulls n) (rw (next_code-join ws (h.1)) later))

entry_first :
    (s : State) (d : Description) (ds : List Description)
    → s.arrays v3_errdscr ≡ d ∷ ds
    → (entry v3_errdscr 0 s).frus ≡ d.frus
unfolding entry
entry_first s d ds e = rw e refl

entry-write_entry :
    (s : State) (d x : Description) (ds : List Description)
    → s.arrays v3_errdscr ≡ d ∷ ds
    → entry v3_errdscr 0 (write_entry v3_errdscr 0 x s) ≡ x
unfolding entry write_entry number
entry-write_entry s d x ds e = rw e refl

-- A report of the description of version 3, as it is changed before.
report_changed :
    (fru_pn : Bytes → Option Bytes) (s : State) (w : Bytes) (ws : List Bytes) (d : Description)
    (ds : List Description) (x : Description)
    → s.arrays v3_errdscr ≡ d ∷ ds
    → x.frus ≡ d.frus
    → length d.frus ≡ 4
    → Unmarked d.frus
    → s.loc_codes ≡ some (join (w ∷ ws))
    → IsUsable s.copy
    → s.pct_index < 2
    → Words (w ∷ ws)
    → Short (w ∷ ws)
    → (s' : State) × (report_srn fru_pn v3_errdscr 0 (write_entry v3_errdscr 0 x s) ≡ done s')
      × (s'.refcode ≡ some (srn x.sn x.rcode))
      × (s'.callouts ≡ s.callouts ++ map (callout_at fru_pn) (w ∷ ws))
unfolding write_entry
report_changed fru_pn s w ws d ds x array same four m codes u p h k =
    let written = ap (λ (y : Description). y.frus) (entry-write_entry s d x ds array) ∙ same in
    let (s', returned, l, t, shown) =
      report_srn-callouts fru_pn v3_errdscr 0 (write_entry v3_errdscr 0 x s) w ws
        (ap (λ (fs : List Fru). length fs) written ∙ four) (subst Unmarked (sym written) m) codes u
        p h k in
    (
      s',
      returned,
      l ∙ ap (λ (y : Description). some (srn y.sn y.rcode)) (entry-write_entry s d x ds array),
      shown,
    )

-- The reason code of the report: a repair waits for an IPL or not.
abbrev pub reason : Event → ℕ → ℕ
reason e error_fmt = if error_fmt == 1 && has_flag (byte e 32) 0x80 then 0x560 else 0x500

-- Let the log of a predictive error with a deconfigured resource have locations, words of at most
-- 79 characters with a blank between them. Let no buffer of locations be freed, the description of
-- version 3 have four FRUs, none of which is named REF-CODE, and the index of the percentages be
-- below 2. Where each call of get_dt_status returns, process_deconfigured returns, and the error is
-- always reported: with its source number and reason code, and a callout for each of the locations,
-- in their order. That the platform has deconfigured them plays no part.
pub process_deconfigured-reported :
    (fru_pn : Bytes → Option Bytes) (calls : ℕ → StatusCall) (e : Event) (error_fmt : ℕ) (s : State)
    (w : Bytes) (ws : List Bytes) (d : Description) (ds : List Description)
    → ((i : ℕ) → calls i ≡ returns_null)
    → s.arrays v3_errdscr ≡ d ∷ ds
    → length d.frus ≡ 4
    → Unmarked d.frus
    → s.loc_codes ≡ some (join (w ∷ ws))
    → IsUsable s.copy
    → s.pct_index < 2
    → Words (w ∷ ws)
    → Short (w ∷ ws)
    → (s' : State) × (process_deconfigured fru_pn calls e error_fmt s ≡ done s')
      × (s'.refcode ≡ some (srn (bit_or (0xa00 + error_fmt) 0x10) (reason e error_fmt)))
      × (s'.callouts ≡ s.callouts ++ map (callout_at fru_pn) (w ∷ ws))
unfolding process_deconfigured
process_deconfigured-reported fru_pn calls e error_fmt s w ws d ds nulls array four m codes u p h
      k =
    let looped =
      ignore_loop-join (suc (suc (length (join ws)))) calls 0 (w ∷ ws) nulls
        (omega (arith, length-join ws (h.1))) h in
    rw (first_loc-join s w ws h codes u) (
      rw (looped.1) (
        report_changed fru_pn (record (located (w ∷ ws) s) { rest = looped.0 }) w ws d ds _ array
          (entry_first s d ds array) four m refl tt p h k))
