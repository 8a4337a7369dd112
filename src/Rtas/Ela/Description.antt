-- ===== src/Rtas/Ela/Description.antt =====
-- rtas_errd/fru_prev6.h and the FRUs of rtas_errd/dchrp_frus.h: the description of an error, from
-- which its SRN and its callouts are made. A string is the list of its characters, and a short is
-- taken modulo 2 ^ 16. The fields `dname` and `flags`, which nothing reads, are left out.
use ppc64_diag.Base.{ℕ, List, [], ◌∷◌, ◌++◌, length, ◌-◌, replicate}
use ppc64_diag.Elog.Memory.{Bytes}
use ppc64_diag.Rtas.Ela.Message.{Message, no_text}

-- struct fru_callout_pre_v6.
pub record Fru : Type 0 where
  pub conf : ℕ
  pub fname : Bytes
  pub floc : Bytes
  pub fmsg : ℕ

-- struct event_description_pre_v6.
pub record Description : Type 0 where
  pub sn : ℕ
  pub rcode : ℕ
  pub rmsg : Message
  pub frus : List Fru

abbrev pub maxfrus : ℕ
maxfrus = 4

abbrev pub locsize : ℕ
locsize = 80

abbrev pub fru : ℕ → Bytes → Bytes → ℕ → Fru
fru conf fname floc fmsg = record { conf = conf; fname = fname; floc = floc; fmsg = fmsg }

-- What the compiler fills the rest of an array of FRUs with.
abbrev pub no_fru : Fru
no_fru = fru 0 [] [] 0

abbrev pub describe : ℕ → ℕ → Message → List Fru → Description
describe sn rcode rmsg frus = record {
  sn = sn;
  rcode = rcode;
  rmsg = rmsg;
  frus = frus ++ replicate (maxfrus - length frus) no_fru;
}

abbrev pub no_description : Description
no_description = describe 0 0 no_text []

abbrev pub fru_processor : ℕ → Fru
fru_processor x = fru x (b'p' ∷ b'r' ∷ b'o' ∷ b'c' ∷ b'x' ∷ []) (b' ' ∷ []) 127

abbrev pub fru_l2cache : ℕ → Fru
fru_l2cache x = fru x (b'L' ∷ b'2' ∷ b'C' ∷ b'a' ∷ b'c' ∷ b'h' ∷ b'e' ∷ b'0' ∷ []) (b' ' ∷ []) 33

abbrev pub fru_memory_controller : ℕ → Fru
fru_memory_controller x = fru x ([]) (b' ' ∷ []) 1

abbrev pub fru_host_bridge : ℕ → Fru
fru_host_bridge x = fru x ([]) (b' ' ∷ []) 2

abbrev pub fru_rtasfru : ℕ → Fru
fru_rtasfru x = fru x ([]) (b' ' ∷ []) 192

abbrev pub fru_system_bus_connector : ℕ → Fru
fru_system_bus_connector x = fru x ([]) (b' ' ∷ []) 192

abbrev pub fru_io_expansion_unit : ℕ → Fru
fru_io_expansion_unit x = fru x ([]) (b' ' ∷ []) 128

abbrev pub fru_io_expansion_bus : ℕ → Fru
fru_io_expansion_bus x = fru x ([]) (b' ' ∷ []) 129

abbrev pub fru_rio_bridge : ℕ → Fru
fru_rio_bridge x = fru x ([]) (b' ' ∷ []) 185

abbrev pub fru_mezzanine_bus : ℕ → Fru
fru_mezzanine_bus x = fru x ([]) (b' ' ∷ []) 7

abbrev pub fru_pci_device : ℕ → Fru
fru_pci_device x = fru x ([]) (b' ' ∷ []) 3

abbrev pub fru_pci_bus : ℕ → Fru
fru_pci_bus x = fru x ([]) (b' ' ∷ []) 192

abbrev pub fru_isa_bus : ℕ → Fru
fru_isa_bus x = fru x ([]) (b' ' ∷ []) 10

abbrev pub fru_mezzanine_bus_arbiter : ℕ → Fru
fru_mezzanine_bus_arbiter x = fru x ([]) (b' ' ∷ []) 11

abbrev pub fru_service_processor : ℕ → Fru
fru_service_processor x = fru x ([]) (b' ' ∷ []) 12

abbrev pub fru_sp_system_interface : ℕ → Fru
fru_sp_system_interface x = fru x ([]) (b' ' ∷ []) 13

abbrev pub fru_sp_primary_bus : ℕ → Fru
fru_sp_primary_bus x = fru x ([]) (b' ' ∷ []) 14

abbrev pub fru_sp_secondary_bus : ℕ → Fru
fru_sp_secondary_bus x = fru x ([]) (b' ' ∷ []) 15

abbrev pub fru_vpd_module : ℕ → Fru
fru_vpd_module x = fru x ([]) (b' ' ∷ []) 16

abbrev pub fru_operator_panel : ℕ → Fru
fru_operator_panel x = fru x ([]) (b' ' ∷ []) 213

abbrev pub fru_power_controller : ℕ → Fru
fru_power_controller x = fru x ([]) (b' ' ∷ []) 18

abbrev pub fru_fan_sensor : ℕ → Fru
fru_fan_sensor x =
    fru x (b'F' ∷ b'a' ∷ b'n' ∷ b' ' ∷ b'S' ∷ b'e' ∷ b'n' ∷ b's' ∷ b'o' ∷ b'r' ∷ []) (b' ' ∷ []) 19

abbrev pub fru_thermal_sensor : ℕ → Fru
fru_thermal_sensor x = fru x (b'S' ∷ b'e' ∷ b'n' ∷ b's' ∷ b'o' ∷ b'r' ∷ []) (b' ' ∷ []) 20

abbrev pub fru_voltage_sensor : ℕ → Fru
fru_voltage_sensor x = fru x (b'S' ∷ b'e' ∷ b'n' ∷ b's' ∷ b'o' ∷ b'r' ∷ []) (b' ' ∷ []) 21

abbrev pub fru_serial_port_controller : ℕ → Fru
fru_serial_port_controller x = fru x ([]) (b' ' ∷ []) 22

abbrev pub fru_nvram : ℕ → Fru
fru_nvram x = fru x ([]) (b' ' ∷ []) 23

abbrev pub fru_rtc_tod : ℕ → Fru
fru_rtc_tod x = fru x ([]) (b' ' ∷ []) 24

abbrev pub fru_jtag : ℕ → Fru
fru_jtag x = fru x ([]) (b' ' ∷ []) 25

abbrev pub fru_battery : ℕ → Fru
fru_battery x = fru x ([]) (b' ' ∷ []) 30

abbrev pub fru_software : ℕ → Fru
fru_software x = fru x ([]) (b' ' ∷ []) 26

abbrev pub fru_hardware : ℕ → Fru
fru_hardware x = fru x ([]) (b' ' ∷ []) 27

abbrev pub fru_fan : ℕ → Fru
fru_fan x = fru x (b'F' ∷ b'a' ∷ b'n' ∷ []) (b' ' ∷ []) 28

abbrev pub fru_power_supply : ℕ → Fru
fru_power_supply x = fru x ([]) (b' ' ∷ []) 29

abbrev pub fru_34_power_supply : ℕ → Fru
fru_34_power_supply x = fru x ([]) (b' ' ∷ []) 130

abbrev pub fru_14_power_supply : ℕ → Fru
fru_14_power_supply x = fru x ([]) (b' ' ∷ []) 131

abbrev pub fru_memory_module : ℕ → Fru
fru_memory_module x =
    fru x
      (b'M' ∷ b'e' ∷ b'm' ∷ b'o' ∷ b'r' ∷ b'y' ∷ b' ' ∷ b'm' ∷ b'o' ∷ b'd' ∷ b'u' ∷ b'l' ∷ b'e'
        ∷ [])
      (b' ' ∷ []) 4

abbrev pub fru_power_sensor : ℕ → Fru
fru_power_sensor x = fru x (b's' ∷ b'e' ∷ b'n' ∷ b's' ∷ b'o' ∷ b'r' ∷ []) (b' ' ∷ []) 179
