-- ===== src/Rtas/Ela/Tables/Sp.antt =====
-- The descriptions of errors of the service processor, from rtas_errd/dchrp_frus.h. Of two entries
-- the second is for a predictive failure; three entries are for the three errors of an I/O bus.
use ppc64_diag.Base.{List, [], ◌∷◌}
use ppc64_diag.Rtas.Ela.Message.{
  msgspb16b0, msgspb16b1, msgspb16b2, msgspb16b3, msgspb16b4, msgspb16b5, msgspb16b6, msgspb16b7,
  msgspb17b0, msgspb17b1, msgspb17b2, msgspb17b3, msgspb17b4, msgspb17b5, msgspb18b0, msgspb18b1,
  msgspb18b2, msgspb18b3, msgspb18b4, msgspb18b7, msgspb19b0,
}
use ppc64_diag.Rtas.Ela.Description.{
  Description, describe, fru_battery, fru_fan_sensor, fru_hardware, fru_jtag, fru_nvram,
  fru_operator_panel, fru_power_controller, fru_rtc_tod, fru_serial_port_controller,
  fru_service_processor, fru_software, fru_sp_primary_bus, fru_sp_secondary_bus,
  fru_sp_system_interface, fru_thermal_sensor, fru_voltage_sensor, fru_vpd_module,
}

abbrev pub sp740 : List Description
sp740 =
    describe 0x651 0x740 msgspb16b0 (fru_service_processor 60 ∷ fru_sp_system_interface 40 ∷ [])
    ∷ []

abbrev pub sp640 : List Description
sp640 = describe 0x651 0x640 msgspb16b1 (fru_sp_primary_bus 100 ∷ []) ∷ []

abbrev pub sp641 : List Description
sp641 = describe 0x651 0x641 msgspb16b2 (fru_sp_secondary_bus 100 ∷ []) ∷ []

abbrev pub sp642 : List Description
sp642 = describe 0x651 0x642 msgspb16b3 (fru_service_processor 100 ∷ []) ∷ []

abbrev pub sp741 : List Description
sp741 =
    describe 0x651 0x741 msgspb16b4 (fru_service_processor 60 ∷ fru_sp_system_interface 40 ∷ [])
    ∷ []

abbrev pub sp742 : List Description
sp742 =
    describe 0x651 0x742 msgspb16b5 (fru_service_processor 60 ∷ fru_sp_system_interface 40 ∷ [])
    ∷ []

abbrev pub sp643 : List Description
sp643 = describe 0x651 0x643 msgspb16b6 (fru_service_processor 100 ∷ []) ∷ []

abbrev pub sp644 : List Description
sp644 = describe 0x651 0x644 msgspb16b7 (fru_service_processor 100 ∷ []) ∷ []

abbrev pub sp743 : List Description
sp743 = describe 0x651 0x743 msgspb17b0 (fru_vpd_module 75 ∷ fru_sp_primary_bus 25 ∷ []) ∷ []

abbrev pub sp744 : List Description
sp744 = describe 0x651 0x744 msgspb17b1 (fru_operator_panel 75 ∷ fru_sp_primary_bus 25 ∷ []) ∷ []

abbrev pub sp745 : List Description
sp745 = describe 0x651 0x745 msgspb17b2 (fru_power_controller 75 ∷ fru_sp_primary_bus 25 ∷ []) ∷ []

abbrev pub sp746 : List Description
sp746 = describe 0x651 0x746 msgspb17b3 (fru_fan_sensor 75 ∷ fru_sp_primary_bus 25 ∷ []) ∷ []

abbrev pub sp747 : List Description
sp747 = describe 0x651 0x747 msgspb17b4 (fru_thermal_sensor 75 ∷ fru_sp_primary_bus 25 ∷ []) ∷ []

abbrev pub sp748 : List Description
sp748 = describe 0x651 0x748 msgspb17b5 (fru_voltage_sensor 75 ∷ fru_sp_primary_bus 25 ∷ []) ∷ []

abbrev pub sp749 : List Description
sp749 =
    describe 0x651 0x749 msgspb18b0
      (fru_serial_port_controller 75 ∷ fru_sp_system_interface 25 ∷ [])
    ∷ []

abbrev pub sp750 : List Description
sp750 = describe 0x651 0x750 msgspb18b1 (fru_nvram 75 ∷ fru_sp_system_interface 25 ∷ []) ∷ []

abbrev pub sp751 : List Description
sp751 = describe 0x651 0x751 msgspb18b2 (fru_rtc_tod 75 ∷ fru_sp_system_interface 25 ∷ []) ∷ []

abbrev pub sp752 : List Description
sp752 = describe 0x651 0x752 msgspb18b3 (fru_jtag 75 ∷ fru_sp_system_interface 25 ∷ []) ∷ []

abbrev pub sp753 : List Description
sp753 = describe 0x651 0x753 msgspb18b4 (fru_battery 75 ∷ fru_sp_system_interface 25 ∷ []) ∷ []

abbrev pub sp754 : List Description
sp754 = describe 0x651 0x754 msgspb19b0 ([]) ∷ []

abbrev pub sp760 : List Description
sp760 = describe 0x651 0x760 msgspb18b7 (fru_software 60 ∷ fru_hardware 40 ∷ []) ∷ []
