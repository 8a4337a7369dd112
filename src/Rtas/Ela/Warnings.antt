-- ===== src/Rtas/Ela/Warnings.antt =====
-- The analysis of EPOW logs in rtas_errd/ela.c: resets, and version 1 and version 2 logs.
pub mod Resets
use Prim.Native.Nat.{bit_or}
use ppc64_diag.Base.{
  ℕ, ◌+◌, ◌-◌, ◌%◌, ◌^◌, ◌==◌, ltb, Bool, true, false, not, ◌&&◌, ◌||◌, if◌then◌else◌, List, [],
  ◌∷◌, Option, some, none, bit_and, has_flag,
}
use ppc64_diag.Elog.Memory.{Bytes}
use ppc64_diag.Rtas.Ela.Message.{
  msgmenug150, msgmenug151, msgmenug156, msgmenug157, msgmenug158, msgmenug159, msgmenug160,
  msgmenug161, msgmenug162, msgmenug175, msgmenug202,
}
use ppc64_diag.Rtas.Ela.Description.{Description}
use ppc64_diag.Rtas.Ela.Tables.{
  epow800, epow801, epow802, epow809, epow810, epow811, epow812, epow813, epow814, epow815, epow816,
  epow817, epow819, epow819red, epow820, epow821, epow822, epow823, epow824, epow652810, epow652820,
}
use ppc64_diag.Rtas.Ela.State.{
  Event, Reset, Run, State, byte, done, entry, word, write_entry, ◌>>=◌,
}
use ppc64_diag.Rtas.Ela.Locations.{loc_codes_ok}
use ppc64_diag.Rtas.Ela.Registers.{get_ext_epow, get_register_data, pci_epow_reg_id}
use ppc64_diag.Rtas.Ela.Report.{report_menugoal, report_srn}
use ppc64_diag.Rtas.Ela.Sensor.{Answer, conclude, conclude_goal, located_goal, sensor_epow}

unfoldable pub save_epow_reset : ℕ → State → State
save_epow_reset error_type s = record s {
  epow_reset_list = record { err_type = error_type; valid_reset = true } ∷ s.epow_reset_list;
}

-- The list behind a search that found the error type, with the mark of the reset that it found.
unfoldable pub find_reset : ℕ → List Reset → Option (List Reset)
find_reset error_type [] = none
find_reset error_type (r ∷ rs) =
    let later = find_reset error_type rs in
    if r.err_type == error_type - error_type % 256
    then some (record r { valid_reset = false } ∷ rs)
    else (elim later [ none ↦ none | some rs' ↦ some (r ∷ rs') ])

unfoldable pub has_epow_reset : ℕ → State → ℕ × State
unfolding find_reset
has_epow_reset error_type s = elim (find_reset error_type s.epow_reset_list) [
  | none ↦ (0, s)
  | some rs ↦ (1, report_menugoal msgmenug202 (record s { epow_reset_list = rs }))
]

unfoldable pub unknown_epow_ela : ℕ → State → State
unknown_epow_ela class s =
    if ltb class 3
    then located_goal msgmenug156 msgmenug157 s
    else if class == 3
    then located_goal msgmenug158 msgmenug159 s
    else located_goal msgmenug160 msgmenug161 s

abbrev pub unknown_log : ℕ → State → Answer
unknown_log class s = done (0, unknown_epow_ela class s)

unfoldable pub process_v1_epow : (Bytes → Option Bytes) → Event → ℕ → State → Answer
process_v1_epow fru_pn e error_type s =
    let class = error_type % 256 in
    let ext_epow = get_ext_epow e in
    let nofan = bit_and ext_epow 0xf0ff in
    if ext_epow == 0
    then (if class == 5 then conclude fru_pn epow812 s else unknown_log class s)
    else if nofan == 0x1011
    then conclude fru_pn epow800 s
    else if nofan == 0x1064
    then conclude fru_pn epow801 s
    else if nofan == 0x2032
    then conclude fru_pn epow810 s
    else if nofan == 0x2052
    then conclude fru_pn epow811 s
    else if nofan == 0x3021
    then conclude fru_pn epow820 s
    else if nofan == 0x3073
    then conclude fru_pn epow821 s
    else unknown_log class s

unfoldable pub loss_power_mg : State → State
loss_power_mg s = located_goal msgmenug150 msgmenug151 s

unfoldable pub manual_power_off_mg : State → State
manual_power_off_mg s = report_menugoal msgmenug162 s

-- The masked register of extended debug data.
unfoldable pub pci_epow : Event → ℕ
unfolding word
pci_epow e = elim (get_register_data e pci_epow_reg_id) [
  | none ↦ 0
  | some (p, size) ↦ bit_and (word e p) 0x70000
]

-- The part of process_v2_epow for a power fault.
unfoldable pub power_fault_v2 : (Bytes → Option Bytes) → Event → ℕ → State → Answer
power_fault_v2 fru_pn e error_type s =
    let class = error_type % 256 in
    let ext_epow = pci_epow e in
    let unspecified = if ltb class 3 then epow809 else epow824 in
    if has_flag error_type 0x800000
    then (if loc_codes_ok s.loc_codes
        then conclude fru_pn unspecified s
        else conclude_goal msgmenug175 1 s)
    else if has_flag error_type 0x400000
    then (if ext_epow == 0x70000
        then conclude fru_pn epow813 s
        else if ext_epow == 0x40000
        then conclude fru_pn epow814 s
        else if ext_epow == 0x30000
        then conclude fru_pn epow815 s
        else done (1, loss_power_mg s))
    else if has_flag error_type 0x200000
    then (if ext_epow == 0x10000
        then conclude fru_pn epow816 s
        else if ext_epow == 0x20000
        then conclude fru_pn epow817 s
        else if has_flag error_type 0x800
        then conclude fru_pn epow819red s
        else conclude fru_pn epow819 s)
    else if has_flag error_type 0x100000
    then done (1, manual_power_off_mg s)
    else unknown_log class s

unfoldable pub process_v2_epow : (Bytes → Option Bytes) → Event → ℕ → State → Answer
process_v2_epow fru_pn e error_type s =
    let class = error_type % 256 in
    if has_flag error_type 0x8000
    then sensor_epow fru_pn e error_type 2 s
    else if has_flag error_type 0x4000
    then power_fault_v2 fru_pn e error_type s
    else if has_flag error_type 0x2000
    then (if has_flag error_type 0x800
        then conclude fru_pn epow652820 s
        else if has_flag error_type 0x1000
        then conclude fru_pn epow822 s
        else if ltb class 3
        then conclude fru_pn epow802 s
        else conclude fru_pn epow823 s)
    else if has_flag error_type 0x1000
    then conclude fru_pn epow821 s
    else if has_flag error_type 0x800
    then conclude fru_pn epow652810 s
    else unknown_log class s

-- Any log that is no EPOW log is left to the next analysis.
unfoldable pub process_epow : (Bytes → Option Bytes) → Event → ℕ → State → Answer
unfolding has_epow_reset save_epow_reset
process_epow fru_pn e error_type s =
    let reset = has_epow_reset error_type s in
    if not (error_type - error_type % 2 ^ 24 == 0x5000000)
    then done (0, s)
    else if error_type % 16 == 0
    then done (0, save_epow_reset error_type s)
    else if reset.0 == 1
    then done reset
    else if byte e 0 == 1
    then process_v1_epow fru_pn e error_type s
    else process_v2_epow fru_pn e error_type s
