-- ===== src/Rtas/Ela/Tables/Cpu.antt =====
-- The descriptions of errors of a processor, from rtas_errd/dchrp_frus.h. Of two entries the
-- second is for a predictive failure; three entries are for the three errors of an I/O bus.
use ppc64_diag.Base.{List, [], ◌∷◌}
use ppc64_diag.Rtas.Ela.Message.{
  defer_msgcpub12b0, defer_msgcpub12b1, defer_msgcpub12b2, defer_msgcpub12b3, msgcpuallzero,
  msgcpub12b0, msgcpub12b1, msgcpub12b2, msgcpub12b3, msgcpub12b4, msgcpub12b5, msgcpub12b6,
  msgcpub12b7,
}
use ppc64_diag.Rtas.Ela.Description.{
  Description, describe, fru, fru_host_bridge, fru_l2cache, fru_memory_controller, fru_processor,
  fru_rtasfru, fru_system_bus_connector,
}

abbrev pub cpu610 : List Description
cpu610 =
    describe 0x651 0x610 msgcpub12b0 (fru_processor 100 ∷ [])
    ∷ describe 0x652 0x610 defer_msgcpub12b0 (fru_processor 100 ∷ [])
    ∷ []

abbrev pub cpu611 : List Description
cpu611 =
    describe 0x651 0x611 msgcpub12b1 (fru_processor 100 ∷ [])
    ∷ describe 0x652 0x611 defer_msgcpub12b1 (fru_processor 100 ∷ [])
    ∷ []

abbrev pub cpu612 : List Description
cpu612 =
    describe 0x651 0x612 msgcpub12b2 (fru_l2cache 100 ∷ [])
    ∷ describe 0x652 0x612 defer_msgcpub12b2 (fru_l2cache 100 ∷ [])
    ∷ []

abbrev pub cpu613 : List Description
cpu613 =
    describe 0x651 0x613 msgcpub12b3 (fru_l2cache 100 ∷ [])
    ∷ describe 0x652 0x613 defer_msgcpub12b3 (fru_l2cache 100 ∷ [])
    ∷ []

abbrev pub cpu614 : List Description
cpu614 = describe 0x651 0x614 msgcpub12b4 (fru_memory_controller 100 ∷ []) ∷ []

abbrev pub cpu615 : List Description
cpu615 = describe 0x651 0x615 msgcpub12b5 (fru_host_bridge 100 ∷ []) ∷ []

abbrev pub cpu619 : List Description
cpu619 =
    describe 0x651 0x619 msgcpuallzero
      (fru 0 ([]) ([]) 36 ∷ fru 0 ([]) ([]) 36 ∷ fru 0 ([]) ([]) 36 ∷ fru 0 ([]) ([]) 36 ∷ [])
    ∷ []

abbrev pub cpu710 : List Description
cpu710 = describe 0x651 0x710 msgcpub12b6 (fru_rtasfru 60 ∷ fru_system_bus_connector 40 ∷ []) ∷ []

abbrev pub cpu711 : List Description
cpu711 =
    describe 0x651 0x711 msgcpub12b6
      (fru_rtasfru 40 ∷ fru_rtasfru 35 ∷ fru_system_bus_connector 25 ∷ [])
    ∷ []

abbrev pub cpu712 : List Description
cpu712 =
    describe 0x651 0x712 msgcpub12b6
      (fru_rtasfru 40 ∷ fru_rtasfru 25 ∷ fru_rtasfru 25 ∷ fru_system_bus_connector 10 ∷ [])
    ∷ []

abbrev pub cpu713 : List Description
cpu713 = describe 0x651 0x713 msgcpub12b7 (fru_rtasfru 60 ∷ fru_system_bus_connector 40 ∷ []) ∷ []

abbrev pub cpu714 : List Description
cpu714 =
    describe 0x651 0x714 msgcpub12b7
      (fru_rtasfru 40 ∷ fru_rtasfru 35 ∷ fru_system_bus_connector 25 ∷ [])
    ∷ []

abbrev pub cpu715 : List Description
cpu715 =
    describe 0x651 0x715 msgcpub12b7
      (fru_rtasfru 40 ∷ fru_rtasfru 25 ∷ fru_rtasfru 25 ∷ fru_system_bus_connector 10 ∷ [])
    ∷ []
