-- ===== src/Common/Tests.antt =====
-- Files of the platforms, and processors.
use ppc64_diag.Common.Platform.{
  platform_powerkvm_guest, platform_pseries_lpar, power8, processor_unknown, get_platform,
  get_processor, platform_loop, pseries, emulated_by_qemu,
}
use ppc64_diag.Common.Platform.Decided.{Decides, Undecided, none_left, undecided, names_qemu}
use ppc64_diag.Base.{◌≡◌, refl, List, [], ◌∷◌, some}
use ppc64_diag.Errd.Files.{contains, starts_with}
use ppc64_diag.Elog.Memory.{Bytes}

abbrev machine : List Bytes
machine = (b'x' ∷ []) ∷ pseries ∷ []

machine-Undecided : Undecided machine
unfolding contains starts_with
machine-Undecided = undecided (refl, refl) (undecided (refl, refl) none_left)

emulated : Decides emulated_by_qemu platform_powerkvm_guest
unfolding contains starts_with
emulated = names_qemu refl refl

lpar_machine : get_platform (some machine) ≡ platform_pseries_lpar
unfolding get_platform platform_loop contains starts_with
lpar_machine = refl

power8_of_76 : get_processor 76 ≡ power8
unfolding get_processor
power8_of_76 = refl

unknown_of_65535 : get_processor 65535 ≡ processor_unknown
unfolding get_processor
unknown_of_65535 = refl
