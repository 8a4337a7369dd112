-- ===== src/Rtas/Ela/Tables/Version3.antt =====
-- The descriptions of POST errors, version 3 logs, reference codes and bypassed resources, from
-- rtas_errd/dchrp_frus.h. Of two entries the second is for a predictive failure; three entries are
-- for the three errors of an I/O bus.
use ppc64_diag.Base.{List, [], ◌∷◌}
use ppc64_diag.Rtas.Ela.Message.{msg_bypass, msg_platform_error, msgpostall, no_text}
use ppc64_diag.Rtas.Ela.Description.{Description, describe, fru}

abbrev pub post : List Description
post =
    describe 0xfffe 0 msgpostall
      (fru 0 ([]) ([]) 36 ∷ fru 0 ([]) ([]) 36 ∷ fru 0 ([]) ([]) 36 ∷ fru 0 ([]) ([]) 36 ∷ [])
    ∷ []

abbrev pub cec_src : List Description
cec_src =
    describe 0x651 0 no_text
      (fru 0 ([]) ([]) 0 ∷ fru 0 ([]) ([]) 0 ∷ fru 0 ([]) ([]) 0 ∷ fru 0 ([]) ([]) 0 ∷ [])
    ∷ []

abbrev pub platform_error : List Description
platform_error =
    describe 0x651 0x900 msg_platform_error
      (fru 0 ([]) ([]) 0 ∷ fru 0 ([]) ([]) 0 ∷ fru 0 ([]) ([]) 0 ∷ fru 0 ([]) ([]) 0 ∷ [])
    ∷ []

abbrev pub v3_errdscr : List Description
v3_errdscr =
    describe 0xa00 0 no_text
      (fru 0 ([]) ([]) 0 ∷ fru 0 ([]) ([]) 0 ∷ fru 0 ([]) ([]) 0 ∷ fru 0 ([]) ([]) 0 ∷ [])
    ∷ []

abbrev pub bypass_errdscr : List Description
bypass_errdscr = describe 0xa10 0x100 msg_bypass (fru 100 ([]) ([]) 0 ∷ []) ∷ []
