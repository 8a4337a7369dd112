-- ===== src/Rtas/Ela/Tables/Memory.antt =====
-- The descriptions of errors of the memory, from rtas_errd/dchrp_frus.h. Of two entries the second
-- is for a predictive failure; three entries are for the three errors of an I/O bus.
use ppc64_diag.Base.{List, [], ◌∷◌}
use ppc64_diag.Rtas.Ela.Message.{
  defer_msg_unsupported_mem, msg_unsupported_mem, msgmemallzero, msgmemb12b3, msgmemb12b4,
  msgmemb12b5, msgmemb12b7, msgmemb13b0, msgmemb13b1, msgmemb13b2, msgmemb13b3, msgmemb13b4,
}
use ppc64_diag.Rtas.Ela.Description.{
  Description, describe, fru, fru_host_bridge, fru_memory_controller, fru_memory_module,
  fru_mezzanine_bus, fru_processor, fru_system_bus_connector,
}

abbrev pub mem624 : List Description
mem624 = describe 0x651 0x624 msgmemb12b3 (fru_memory_controller 100 ∷ []) ∷ []

abbrev pub mem625 : List Description
mem625 = describe 0x651 0x625 msgmemb12b4 (fru_memory_controller 100 ∷ []) ∷ []

abbrev pub mem626 : List Description
mem626 = describe 0x651 0x626 msgmemb12b5 (fru_memory_controller 100 ∷ []) ∷ []

abbrev pub mem627 : List Description
mem627 = describe 0x651 0x627 msgmemb12b7 (fru_memory_controller 100 ∷ []) ∷ []

abbrev pub mem628 : List Description
mem628 = describe 0x651 0x628 msgmemb13b1 (fru_processor 100 ∷ []) ∷ []

abbrev pub mem629 : List Description
mem629 =
    describe 0x651 0x629 msgmemallzero
      (fru 0 ([]) ([]) 36 ∷ fru 0 ([]) ([]) 36 ∷ fru 0 ([]) ([]) 36 ∷ fru 0 ([]) ([]) 36 ∷ [])
    ∷ []

abbrev pub mem722 : List Description
mem722 =
    describe 0x651 0x722 msgmemb13b0
      (fru_processor 40 ∷ fru_system_bus_connector 35 ∷ fru_memory_controller 25 ∷ [])
    ∷ []

abbrev pub mem723 : List Description
mem723 =
    describe 0x651 0x723 msgmemb13b2
      (fru_processor 40 ∷ fru_system_bus_connector 35 ∷ fru_memory_controller 25 ∷ [])
    ∷ []

abbrev pub mem724 : List Description
mem724 =
    describe 0x651 0x724 msgmemb13b3
      (fru_host_bridge 40 ∷ fru_mezzanine_bus 35 ∷ fru_memory_controller 25 ∷ [])
    ∷ []

abbrev pub mem725 : List Description
mem725 =
    describe 0x651 0x725 msgmemb13b4
      (fru_host_bridge 40 ∷ fru_mezzanine_bus 35 ∷ fru_memory_controller 25 ∷ [])
    ∷ []

abbrev pub memtest600 : List Description
memtest600 =
    describe 0x651 0x600 msg_unsupported_mem (fru_memory_module 100 ∷ [])
    ∷ describe 0x652 0x600 defer_msg_unsupported_mem (fru_memory_module 100 ∷ [])
    ∷ []
