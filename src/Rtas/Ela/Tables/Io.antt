-- ===== src/Rtas/Ela/Tables/Io.antt =====
-- The descriptions of errors of the I/O, from rtas_errd/dchrp_frus.h. Of two entries the second is
-- for a predictive failure; three entries are for the three errors of an I/O bus.
use ppc64_diag.Base.{List, [], ◌∷◌}
use ppc64_diag.Rtas.Ela.Message.{
  defer_msgiob12b3, defer_msgiob12b5, defer_msgiob12b6, defer_msgiob12b7, defer_msgiob13b4,
  defer_msgiob13b5, defer_msgiob13b6, defer_msgiob13b7, msgioallzero, msgiob12b0, msgiob12b1,
  msgiob12b2, msgiob12b3, msgiob12b4, msgiob12b5, msgiob12b6, msgiob12b7, msgiob13b4, msgiob13b5,
  msgiob13b6, msgiob13b7,
}
use ppc64_diag.Rtas.Ela.Description.{
  Description, describe, fru, fru_host_bridge, fru_io_expansion_bus, fru_io_expansion_unit,
  fru_isa_bus, fru_memory_controller, fru_mezzanine_bus, fru_mezzanine_bus_arbiter, fru_pci_bus,
  fru_pci_device, fru_rio_bridge,
}

abbrev pub io630 : List Description
io630 =
    describe 0x651 0x630 msgiob13b4 (fru_io_expansion_unit 100 ∷ [])
    ∷ describe 0x652 0x630 defer_msgiob13b4 (fru_io_expansion_unit 100 ∷ [])
    ∷ []

abbrev pub io631 : List Description
io631 =
    describe 0x651 0x631 msgiob13b5 (fru_io_expansion_unit 100 ∷ [])
    ∷ describe 0x652 0x631 defer_msgiob13b5 (fru_io_expansion_unit 100 ∷ [])
    ∷ []

abbrev pub io632 : List Description
io632 =
    describe 0x651 0x632 msgiob13b6
      (fru_io_expansion_bus 70 ∷ fru_io_expansion_unit 20 ∷ fru_rio_bridge 10 ∷ [])
    ∷ describe 0x652 0x632 defer_msgiob13b6
        (fru_io_expansion_bus 70 ∷ fru_io_expansion_unit 20 ∷ fru_rio_bridge 10 ∷ [])
    ∷ []

abbrev pub io633 : List Description
io633 =
    describe 0x651 0x633 msgiob13b7 (fru_io_expansion_unit 70 ∷ fru_io_expansion_bus 30 ∷ [])
    ∷ describe 0x652 0x633 defer_msgiob13b7
        (fru_io_expansion_unit 70 ∷ fru_io_expansion_bus 30 ∷ [])
    ∷ []

abbrev pub io634 : List Description
io634 =
    describe 0x651 0x634 msgiob12b3 (fru_io_expansion_unit 100 ∷ [])
    ∷ describe 0x652 0x634 defer_msgiob12b3 (fru_io_expansion_unit 100 ∷ [])
    ∷ []

abbrev pub io833 : List Description
io833 =
    describe 0x833 0 msgiob12b0
      (fru 40 ([]) (b' ' ∷ []) 192 ∷ fru_pci_device 35 ∷ fru_pci_bus 25 ∷ [])
    ∷ describe 0x833 0 msgiob12b1
        (fru 40 ([]) (b' ' ∷ []) 192 ∷ fru_pci_device 35 ∷ fru_pci_bus 25 ∷ [])
    ∷ describe 0x833 0 msgiob12b2
        (fru 40 ([]) (b' ' ∷ []) 192 ∷ fru_pci_device 35 ∷ fru_pci_bus 25 ∷ [])
    ∷ []

abbrev pub io9cc : List Description
io9cc =
    describe 0x9aa 0 msgiob12b0 (fru 60 ([]) (b' ' ∷ []) 192 ∷ fru_pci_bus 40 ∷ [])
    ∷ describe 0x9aa 0 msgiob12b1 (fru 60 ([]) (b' ' ∷ []) 192 ∷ fru_pci_bus 40 ∷ [])
    ∷ describe 0x9aa 0 msgiob12b2 (fru 60 ([]) (b' ' ∷ []) 192 ∷ fru_pci_bus 40 ∷ [])
    ∷ []

abbrev pub iobusonly : List Description
iobusonly =
    describe 0x9aa 0 msgiob12b0 (fru_pci_bus 100 ∷ [])
    ∷ describe 0x9aa 0 msgiob12b1 (fru_pci_bus 100 ∷ [])
    ∷ describe 0x9aa 0 msgiob12b2 (fru_pci_bus 100 ∷ [])
    ∷ []

abbrev pub io832 : List Description
io832 = describe 0x832 0 msgiob12b3 (fru 100 ([]) (b' ' ∷ []) 192 ∷ []) ∷ []

abbrev pub io639 : List Description
io639 =
    describe 0x651 0x639 msgioallzero
      (fru 0 ([]) ([]) 36 ∷ fru 0 ([]) ([]) 36 ∷ fru 0 ([]) ([]) 36 ∷ fru 0 ([]) ([]) 36 ∷ [])
    ∷ []

abbrev pub io730 : List Description
io730 = describe 0x651 0x730 msgiob12b4 (fru_isa_bus 100 ∷ []) ∷ []

abbrev pub io731 : List Description
io731 =
    describe 0x651 0x731 msgiob12b5 (fru_mezzanine_bus 60 ∷ fru_host_bridge 40 ∷ [])
    ∷ describe 0x652 0x731 defer_msgiob12b5 (fru_mezzanine_bus 60 ∷ fru_host_bridge 40 ∷ [])
    ∷ []

abbrev pub io732 : List Description
io732 =
    describe 0x651 0x732 msgiob12b6 (fru_mezzanine_bus 60 ∷ fru_host_bridge 40 ∷ [])
    ∷ describe 0x652 0x732 defer_msgiob12b6 (fru_mezzanine_bus 60 ∷ fru_host_bridge 40 ∷ [])
    ∷ []

abbrev pub io733 : List Description
io733 =
    describe 0x651 0x733 msgiob12b5
      (fru_memory_controller 40 ∷ fru_mezzanine_bus 35 ∷ fru_host_bridge 25 ∷ [])
    ∷ describe 0x652 0x733 defer_msgiob12b5
        (fru_memory_controller 40 ∷ fru_mezzanine_bus 35 ∷ fru_host_bridge 25 ∷ [])
    ∷ []

abbrev pub io734 : List Description
io734 =
    describe 0x651 0x734 msgiob12b6
      (fru_memory_controller 40 ∷ fru_mezzanine_bus 35 ∷ fru_host_bridge 25 ∷ [])
    ∷ describe 0x652 0x734 defer_msgiob12b6
        (fru_memory_controller 40 ∷ fru_mezzanine_bus 35 ∷ fru_host_bridge 25 ∷ [])
    ∷ []

abbrev pub io735 : List Description
io735 =
    describe 0x651 0x735 msgiob12b7 (fru_mezzanine_bus_arbiter 60 ∷ fru_host_bridge 40 ∷ [])
    ∷ describe 0x652 0x735 defer_msgiob12b7 (fru_mezzanine_bus_arbiter 60 ∷ fru_host_bridge 40 ∷ [])
    ∷ []

abbrev pub io736 : List Description
io736 =
    describe 0x651 0x736 msgiob12b7
      (fru_mezzanine_bus_arbiter 40 ∷ fru_host_bridge 35 ∷ fru_memory_controller 25 ∷ [])
    ∷ describe 0x652 0x736 defer_msgiob12b7
        (fru_mezzanine_bus_arbiter 40 ∷ fru_host_bridge 35 ∷ fru_memory_controller 25 ∷ [])
    ∷ []

abbrev pub io770 : List Description
io770 =
    describe 0x651 0x770 msgiob12b5
      (fru_mezzanine_bus 40 ∷ fru_host_bridge 35 ∷ fru_io_expansion_bus 25 ∷ [])
    ∷ describe 0x652 0x770 defer_msgiob12b5
        (fru_mezzanine_bus 40 ∷ fru_host_bridge 35 ∷ fru_io_expansion_bus 25 ∷ [])
    ∷ []

abbrev pub io771 : List Description
io771 =
    describe 0x651 0x771 msgiob12b6
      (fru_mezzanine_bus 40 ∷ fru_host_bridge 35 ∷ fru_io_expansion_bus 25 ∷ [])
    ∷ describe 0x652 0x771 defer_msgiob12b6
        (fru_mezzanine_bus 40 ∷ fru_host_bridge 35 ∷ fru_io_expansion_bus 25 ∷ [])
    ∷ []

abbrev pub io772 : List Description
io772 =
    describe 0x651 0x772 msgiob12b7
      (fru_mezzanine_bus 40 ∷ fru_host_bridge 35 ∷ fru_mezzanine_bus_arbiter 25 ∷ [])
    ∷ describe 0x652 0x772 defer_msgiob12b7
        (fru_mezzanine_bus 40 ∷ fru_host_bridge 35 ∷ fru_mezzanine_bus_arbiter 25 ∷ [])
    ∷ []

abbrev pub io773 : List Description
io773 =
    describe 0x651 0x773 msgiob12b6 (fru_rio_bridge 100 ∷ [])
    ∷ describe 0x652 0x773 defer_msgiob12b6 (fru_rio_bridge 100 ∷ [])
    ∷ []
