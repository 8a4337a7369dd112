-- ===== src/Rtas/Ela/Tables/Warnings.antt =====
-- The descriptions of environmental and power warnings, from rtas_errd/dchrp_frus.h. Of two
-- entries the second is for a predictive failure; three entries are for the three errors of an I/O
-- bus.
use ppc64_diag.Base.{List, [], ◌∷◌}
use ppc64_diag.Rtas.Ela.Message.{
  msgepow1501b16b4, msgepow1502b16b4, msgepowb1505, msgepowb16b23, msgepowb16b2c12, msgepowb16b2c37,
  msgepowb17b0c12, msgepowb17b0c37, msgepowb17b2red, msgepowpci001, msgepowpci010, msgepowpci011,
  msgepowpci100, msgepowpci111, msgxepow1n11, msgxepow1n64, msgxepow2n32, msgxepow2n52,
  msgxepow3n21, msgxepow3n73, no_text,
}
use ppc64_diag.Rtas.Ela.Description.{
  Description, describe, fru, fru_14_power_supply, fru_34_power_supply, fru_fan, fru_fan_sensor,
  fru_power_sensor, fru_power_supply, fru_rtasfru, fru_thermal_sensor, fru_voltage_sensor,
}

abbrev pub epow800 : List Description
epow800 = describe 0x651 0x800 msgxepow1n11 (fru_fan 60 ∷ fru_fan_sensor 40 ∷ []) ∷ []

abbrev pub epow801 : List Description
epow801 = describe 0x651 0x801 msgxepow1n64 (fru_fan 60 ∷ fru_fan_sensor 40 ∷ []) ∷ []

abbrev pub epow802 : List Description
epow802 = describe 0x651 0x802 msgepowb16b2c12 ([]) ∷ []

abbrev pub epow809 : List Description
epow809 = describe 0x651 0x809 msgepowb17b0c12 ([]) ∷ []

abbrev pub epow810 : List Description
epow810 = describe 0x651 0x810 msgxepow2n32 (fru_power_supply 60 ∷ fru_voltage_sensor 40 ∷ []) ∷ []

abbrev pub epow811 : List Description
epow811 = describe 0x651 0x811 msgxepow2n52 (fru_power_supply 60 ∷ fru_voltage_sensor 40 ∷ []) ∷ []

abbrev pub epow812 : List Description
epow812 = describe 0x651 0x812 msgepowb1505 (fru_power_supply 100 ∷ []) ∷ []

abbrev pub epow813 : List Description
epow813 = describe 0x651 0x813 msgepowpci111 ([]) ∷ []

abbrev pub epow814 : List Description
epow814 = describe 0x651 0x814 msgepowpci100 ([]) ∷ []

abbrev pub epow815 : List Description
epow815 =
    describe 0x651 0x815 msgepowpci011 (fru_34_power_supply 50 ∷ fru_14_power_supply 50 ∷ []) ∷ []

abbrev pub epow816 : List Description
epow816 = describe 0x651 0x816 msgepowpci001 (fru_34_power_supply 100 ∷ []) ∷ []

abbrev pub epow817 : List Description
epow817 = describe 0x651 0x817 msgepowpci010 (fru_14_power_supply 100 ∷ []) ∷ []

abbrev pub epow819 : List Description
epow819 = describe 0x651 0x819 msgepowpci001 (fru_rtasfru 100 ∷ []) ∷ []

abbrev pub epow819red : List Description
epow819red = describe 0x652 0x819 msgepowb17b2red ([]) ∷ []

abbrev pub epow820 : List Description
epow820 = describe 0x651 0x820 msgxepow3n21 (fru_thermal_sensor 100 ∷ []) ∷ []

abbrev pub epow821 : List Description
epow821 = describe 0x651 0x821 msgxepow3n73 (fru_thermal_sensor 100 ∷ []) ∷ []

abbrev pub epow822 : List Description
epow822 = describe 0x651 0x822 msgepowb16b23 ([]) ∷ []

abbrev pub epow823 : List Description
epow823 = describe 0x651 0x823 msgepowb16b2c37 ([]) ∷ []

abbrev pub epow824 : List Description
epow824 = describe 0x651 0x824 msgepowb17b0c37 ([]) ∷ []

abbrev pub epow652810 : List Description
epow652810 = describe 0x652 0x810 msgepow1502b16b4 ([]) ∷ []

abbrev pub epow652820 : List Description
epow652820 = describe 0x652 0x820 msgepow1501b16b4 ([]) ∷ []

abbrev pub fan_epow : List Description
fan_epow = describe 0x651 0 no_text (fru_fan 60 ∷ fru_fan_sensor 40 ∷ []) ∷ []

abbrev pub volt_epow : List Description
volt_epow = describe 0x651 0 no_text (fru_power_supply 60 ∷ fru_voltage_sensor 40 ∷ []) ∷ []

abbrev pub therm_epow : List Description
therm_epow = describe 0x651 0 no_text (fru_thermal_sensor 100 ∷ []) ∷ []

abbrev pub pow_epow : List Description
pow_epow = describe 0x651 0 no_text (fru_power_supply 60 ∷ fru_power_sensor 40 ∷ []) ∷ []

abbrev pub unknown_epow : List Description
unknown_epow = describe 0x651 0 no_text (fru 100 ([]) ([]) 180 ∷ []) ∷ []
