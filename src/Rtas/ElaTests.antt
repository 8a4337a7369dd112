-- ===== src/Rtas/ElaTests.antt =====
-- Logs on which the error log analysis of rtas_errd runs, from the state it starts with.
use ppc64_diag.Rtas.Ela.Description.{describe, no_fru}
use ppc64_diag.Rtas.Ela.Message.{no_text, msgiob12b5}
use ppc64_diag.Rtas.Ela.Tables.{cpu610, cpu611, cpu612, initial, mem624}
use ppc64_diag.Rtas.Ela.State.{
  Event, Run, Srn, State, byte, half, crash, done, double_free, entry, menu, srn, text, unset,
}
use ppc64_diag.Rtas.Ela.Locations.Words.{IsWord, Words, join}
use ppc64_diag.Rtas.Ela.Report.{report_srn}
use ppc64_diag.Rtas.Ela.Report.Batches.{Short, callout_at}
use ppc64_diag.Rtas.Ela.Report.Callouts.{report_srn-callouts}
use ppc64_diag.Rtas.Ela.Refcodes.{gather, process_refcodes, ref_codes}
use ppc64_diag.Rtas.Ela.Refcodes.Placing.{Shown, shown}
use ppc64_diag.Rtas.Ela.Refcodes.Looping.{code_callouts}
use ppc64_diag.Rtas.Ela.Refcodes.Shown.{process_refcodes-shown}
use ppc64_diag.Rtas.Ela.Symptom.{symptom}
use ppc64_diag.Rtas.Ela.Symptom.Rows.{is_combined, symptom_io_single}
use ppc64_diag.Rtas.Ela.Warnings.{process_epow}
use ppc64_diag.Rtas.Ela.Warnings.Resets.{process_epow-reset, saved_reset}
use ppc64_diag.Rtas.Ela.Actions.{report_bus}
use ppc64_diag.Rtas.Ela.PreV6.{perform}
use ppc64_diag.Rtas.Ela.PreV6.{process_pre_v6, process_deconfigured, compares, returns_null}
use ppc64_diag.Rtas.Ela.State.{null_read}
use ppc64_diag.Rtas.Ela.Locations.{visible}
use ppc64_diag.Rtas.Ela.PreV6.Reported.{process_deconfigured-reported, reason}
use ppc64_diag.Rtas.Ela.CpuFrus.Freed.{perform_bus-crash}
use ppc64_diag.Errd.Files.{same_name}
use ppc64_diag.Elog.Memory.{Bytes}
use ppc64_diag.Base.{
  ℕ, ◌≡◌, refl, arith, false, List, [], ◌∷◌, ◌++◌, Option, some, none, map, replicate,
  if◌then◌else◌, has_flag,
}

abbrev no_parts : Bytes → Option Bytes
no_parts l = none

abbrev started : State
started = record {
  loc_codes = none;
  copy = unset;
  rest = [];
  arrays = initial;
  pct_index = 0;
  io_error_type = 0;
  epow_reset_list = [];
  refcode = none;
  description = none;
  callouts = [];
  call_home = false;
}

-- A planar and a processor on it.
abbrev planar : Bytes
planar = b'P' ∷ b'1' ∷ []

abbrev processor : Bytes
processor = b'P' ∷ b'1' ∷ b'-' ∷ b'C' ∷ b'1' ∷ []

abbrev five : List Bytes
five = processor ∷ planar ∷ planar ∷ planar ∷ processor ∷ []

planar-IsWord : IsWord planar
planar-IsWord = (refl, refl, (refl, refl, tt))

processor-IsWord : IsWord processor
processor-IsWord = (refl, refl, (refl, refl, (refl, refl, (refl, refl, (refl, refl, tt)))))

five-Words : Words five
five-Words =
    (processor-IsWord, (planar-IsWord, (planar-IsWord, (planar-IsWord, (processor-IsWord, tt)))))

five-Short : Short five
five-Short = (omega arith, (omega arith, (omega arith, (omega arith, (omega arith, tt)))))

abbrev located : State
located = record started { loc_codes = some (join five) }

report_srn-callouts_example :
    (s' : State) × (report_srn no_parts mem624 0 located ≡ done s')
    × (s'.refcode ≡ some (srn (entry mem624 0 located).sn (entry mem624 0 located).rcode))
    × (s'.description ≡ some (text (entry mem624 0 located).rmsg))
    × (s'.callouts ≡ [] ++ map (callout_at no_parts) five)
unfolding entry initial same_name
report_srn-callouts_example =
    report_srn-callouts no_parts mem624 0 located processor
      (planar ∷ planar ∷ planar ∷ processor ∷ []) refl (refl, (refl, (refl, (refl, tt)))) refl tt
      (omega arith) five-Words five-Short

-- A register with a reference code of five locations, which take two descriptions.
abbrev register : Event
register = record {
  event_buf = 0xb4 ∷ 0x10 ∷ 0x12 ∷ 0x34 ∷ replicate 32 0 ++ 5 ∷ replicate 7 0;
  length = 44;
}

abbrev five_locations : List Shown
five_locations = code_callouts (half register 0) (ref_codes register 0 44) five

process_refcodes-shown_example :
    (s' : State) × (process_refcodes no_parts register 0 44 located ≡ done s')
    × (s'.refcode ≡ some (srn (if has_flag (byte register 8) 0x08 then 0x652 else 0x651) 0x880))
    × (map shown s'.callouts ≡ [] ++ five_locations)
unfolding half byte
process_refcodes-shown_example =
    process_refcodes-shown no_parts register 0 44 located processor
      (planar ∷ planar ∷ planar ∷ processor ∷ []) (omega arith) five-Words five-Short refl tt

-- All five are shown with the code.
five_shown : map (λ (c : Shown). c.0) five_locations ≡ replicate 5 (some (0xb410, 0x1234))
unfolding half byte ref_codes gather
five_shown = refl

-- A log with the bytes 12 and 13.
abbrev log_of : ℕ → ℕ → Event
log_of b c = record { event_buf = replicate 20 0 ++ b ∷ c ∷ []; length = 22 }

perform_bus-crash_example :
    perform no_parts (log_of 2 0) 0x1000200 (report_bus cpu610 cpu611 cpu612) located
    ≡ crash double_free
perform_bus-crash_example =
    perform_bus-crash no_parts (log_of 2 0) 0x1000200 cpu610 cpu611 cpu612 located processor
      (planar ∷ planar ∷ planar ∷ processor ∷ []) five-Words refl tt

abbrev sixth : ℕ
sixth = 6

symptom_io_single_example : is_combined msgiob12b5 ≡ false
unfolding symptom byte
symptom_io_single_example =
    symptom_io_single (log_of 4 16) false sixth msgiob12b5 (omega arith) refl

process_epow-reset_example :
    (s1 : State) × (s2 : State) × (s3 : State) × (process_epow no_parts
        (log_of 0 0)
        0x5004000
        started
      ≡ done (0, s1))
    × (s1.refcode ≡ none)
    × (process_epow no_parts (log_of 1 0) 0x5004001 s1 ≡ done (1, s2))
    × (s2.refcode ≡ some (menu 651202))
    × (s2.callouts ≡ [])
    × (s2.epow_reset_list ≡ saved_reset 0x5004000 false ∷ [])
    × (process_epow no_parts (log_of 2 0) 0x5004001 s2 ≡ done (1, s3))
    × (s3.refcode ≡ some (menu 651202))
    × (s3.callouts ≡ [])
    × (s3.epow_reset_list ≡ s2.epow_reset_list)
process_epow-reset_example =
    process_epow-reset no_parts (log_of 0 0) (log_of 1 0) (log_of 2 0) 0x5004000 0x5004001 started
      refl refl (omega arith)

process_deconfigured-reported_example :
    (s' : State) × (process_deconfigured no_parts (λ i. returns_null) (log_of 0 0) 1 located
      ≡ done s')
    × (s'.refcode ≡ some (srn 0xa11 (reason (log_of 0 0) 1)))
    × (s'.callouts ≡ [] ++ map (callout_at no_parts) five)
unfolding initial same_name
process_deconfigured-reported_example =
    process_deconfigured-reported no_parts (λ i. returns_null) (log_of 0 0) 1 located processor
      (planar ∷ planar ∷ planar ∷ processor ∷ []) (describe 0xa00 0 no_text (replicate 4 no_fru)) []
      (λ i. refl) refl refl (refl, (refl, (refl, (refl, tt)))) refl tt (omega arith) five-Words
      five-Short

-- The location of a device is compared with NULL.
deconfigured_crash :
    process_deconfigured no_parts (λ i. compares) (log_of 0 0) 1 located ≡ crash null_read
unfolding process_deconfigured visible
deconfigured_crash = refl

-- A log of version 3 with an internal error of a processor: SRN A01-010.
abbrev processor_log : Event
processor_log = record {
  event_buf = 3 ∷ replicate 9 0 ++ 1 ∷ replicate 9 0 ++ 0x80 ∷ replicate 60 0;
  length = 81;
}

abbrev srn_found : Run State → Option Srn
srn_found (done s) = s.refcode
srn_found (crash c) = none

processor_srn :
    srn_found (
      process_pre_v6 no_parts
        (λ i. returns_null)
        processor_log
        (record { predictive = false; unrecoverable_bypassed = false })
        started)
    ≡ some (srn 0xa01 0x10)
unfolding process_pre_v6 report_srn initial
processor_srn = refl
