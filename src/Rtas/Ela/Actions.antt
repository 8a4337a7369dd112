-- ===== src/Rtas/Ela/Actions.antt =====
-- The switch of process_pre_v6 in rtas_errd/ela.c: what is done for each error of a POST log and of
-- a version 1 log. The numbers are the identifiers of rtas_errd/dchrp.h.
use ppc64_diag.Base.{ℕ, ◌==◌, if◌then◌else◌, List, [], ◌∷◌}
use ppc64_diag.Rtas.Ela.Message.{msgmenug174, Message}
use ppc64_diag.Rtas.Ela.Tables.{
  cpu610, cpu611, cpu612, cpu613, cpu614, cpu615, cpu619, cpu710, cpu711, cpu712, cpu713, cpu714,
  cpu715, mem624, mem625, mem626, mem627, mem628, mem629, io630, io631, io632, io633, io634, mem722,
  mem723, mem724, mem725, io832, io639, io730, io731, io732, io733, io734, io735, io736, sp740,
  sp640, sp641, sp642, sp741, sp742, sp643, sp644, sp743, sp744, sp745, sp746, sp747, sp748, sp749,
  sp750, sp751, sp752, sp753, sp760, io770, io771, io772, io773, memtest600, Table,
}

pub data Action : Type 0 where
  report : Table → ℕ → Action  -- report_srn of an entry
  report_cpu : Table → ℕ → ℕ → Action  -- the same behind add_cpu_id
  report_even : Table → ℕ → Action  -- the same with `pct_index` at 1
  report_bus : Table → Table → Table → Action  -- by what get_cpu_frus finds
  report_goal : Message → Action
  analyze_bus : Action
  report_post : Action
  nothing : Action

abbrev pub Actions : Type 0
Actions = List (ℕ × Action)

-- The processor's errors; `fru_index` is 1 for a predictive error.
abbrev pub cpu_actions : ℕ → ℕ → Actions
cpu_actions cpuid fru_index =
    (0x01000080, report_cpu cpu610 fru_index cpuid)
    ∷ (0x01000040, report_cpu cpu611 fru_index cpuid)
    ∷ (0x01000020, report cpu612 fru_index)
    ∷ (0x01000010, report cpu613 fru_index)
    ∷ (0x01000008, report cpu614 0)
    ∷ (0x01000004, report cpu615 0)
    ∷ (0x01000002, report_bus cpu710 cpu711 cpu712)
    ∷ (0x01000001, report_bus cpu713 cpu714 cpu715)
    ∷ (0x01000000, report cpu619 0)
    ∷ []

abbrev pub memory_actions : Actions
memory_actions =
    (0x02000000, report mem629 0)
    ∷ (0x02000080, report memtest600 0)
    ∷ (0x02000040, report_even memtest600 0)
    ∷ (0x02000020, report_even memtest600 0)
    ∷ (0x02000010, report mem624 0)
    ∷ (0x02000008, report mem625 0)
    ∷ (0x02001008, report_goal msgmenug174)
    ∷ (0x02000004, report mem626 0)
    ∷ (0x02000002, nothing)
    ∷ (0x02000001, report mem627 0)
    ∷ (0x02008000, report_cpu mem722 0 0)
    ∷ (0x02004000, report_cpu mem628 0 0)
    ∷ (0x02002000, report_cpu mem723 0 0)
    ∷ (0x02001000, report mem724 0)
    ∷ (0x02000800, report mem725 0)
    ∷ []

-- `io_error_type` is the type with the bits that tell where the bus is connected.
abbrev pub io_actions : ℕ → ℕ → Actions
io_actions io_error_type fru_index =
    (0x03000000, report io639 0)
    ∷ (0x03000080, analyze_bus)
    ∷ (0x03000040, analyze_bus)
    ∷ (0x03000020, analyze_bus)
    ∷ (0x03000010, if io_error_type == 0x03002010 then report io634 fru_index else report io832 0)
    ∷ (0x03000008, report io730 0)
    ∷ (
      0x03000004,
      if io_error_type == 0x03004004
          then report io733 fru_index
          else if io_error_type == 0x03002004
          then report io770 fru_index
          else report io731 fru_index,
    )
    ∷ (
      0x03000002,
      if io_error_type == 0x03004002
          then report io734 fru_index
          else if io_error_type == 0x03002002
          then report io771 fru_index
          else if io_error_type == 0x03001002
          then report io773 fru_index
          else report io732 fru_index,
    )
    ∷ (
      0x03000001,
      if io_error_type == 0x03004001
          then report io736 fru_index
          else if io_error_type == 0x03002001
          then report io772 fru_index
          else report io735 fru_index,
    )
    ∷ (0x03000800, report io630 fru_index)
    ∷ (0x03000400, report io631 fru_index)
    ∷ (0x03000200, report io632 fru_index)
    ∷ (0x03000100, report io633 fru_index)
    ∷ []

-- The service processor's errors.
abbrev pub sp_actions : Actions
sp_actions =
    (0x0d000080, report sp740 0)
    ∷ (0x0d000040, report sp640 0)
    ∷ (0x0d000020, report sp641 0)
    ∷ (0x0d000010, report sp642 0)
    ∷ (0x0d000008, report sp741 0)
    ∷ (0x0d000004, report sp742 0)
    ∷ (0x0d000002, report sp643 0)
    ∷ (0x0d000001, report sp644 0)
    ∷ (0x0d008000, report sp743 0)
    ∷ (0x0d004000, report sp744 0)
    ∷ (0x0d002000, report sp745 0)
    ∷ (0x0d001000, report sp746 0)
    ∷ (0x0d000800, report sp747 0)
    ∷ (0x0d000400, report sp748 0)
    ∷ (0x0d800000, report sp749 0)
    ∷ (0x0d400000, report sp750 0)
    ∷ (0x0d200000, report sp751 0)
    ∷ (0x0d100000, report sp752 0)
    ∷ (0x0d080000, report sp753 0)
    ∷ (0x0d010000, report sp760 0)
    ∷ []

abbrev pub post_actions : Actions
post_actions =
    (0x04000000, report_post)
    ∷ (0x04000080, report_post)
    ∷ (0x04000040, report_post)
    ∷ (0x04000020, report_post)
    ∷ (0x04000010, report_post)
    ∷ (0x04000008, report_post)
    ∷ (0x04000004, report_post)
    ∷ (0x04000002, report_post)
    ∷ (0x04000001, report_post)
    ∷ (0x04008000, report_post)
    ∷ (0x04004000, report_post)
    ∷ (0x04002000, report_post)
    ∷ (0x04001000, report_post)
    ∷ (0x04000800, report_post)
    ∷ (0x04000400, report_post)
    ∷ (0x04000100, report_post)
    ∷ []

-- The case of an identifier; no case does nothing.
unfoldable pub action_of : ℕ → Actions → Action
action_of error_type [] = nothing
action_of error_type (a ∷ rest) =
    let later = action_of error_type rest in if error_type == a.0 then a.1 else later
