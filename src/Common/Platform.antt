-- ===== src/Common/Platform.antt =====
-- common/platform.c and platform.h: which platform and which processor the tools run on. The file
-- /proc/cpuinfo is the list of the pieces that fgets reads from it, none where fopen fails.
pub mod Decided
use ppc64_diag.Base.{ℕ, ◌==◌, ◌||◌, if◌then◌else◌, List, [], ◌∷◌, Option, some, none}
use ppc64_diag.Errd.Files.{contains}
use ppc64_diag.Elog.Memory.{Bytes}

pub data PlatformId : Type 0 where
  platform_unknown platform_powernv platform_powerkvm_guest platform_pseries_lpar : PlatformId

abbrev pub powernv : Bytes
powernv = b'P' ∷ b'o' ∷ b'w' ∷ b'e' ∷ b'r' ∷ b'N' ∷ b'V' ∷ []

abbrev pub pseries : Bytes
pseries = b'p' ∷ b'S' ∷ b'e' ∷ b'r' ∷ b'i' ∷ b'e' ∷ b's' ∷ []

abbrev pub emulated_by_qemu : Bytes
emulated_by_qemu =
    b'p' ∷ b'S' ∷ b'e' ∷ b'r' ∷ b'i' ∷ b'e' ∷ b's' ∷ b' ' ∷ b'(' ∷ b'e' ∷ b'm' ∷ b'u' ∷ b'l' ∷ b'a'
    ∷ b't' ∷ b'e' ∷ b'd' ∷ b' ' ∷ b'b' ∷ b'y' ∷ b' ' ∷ b'q' ∷ b'e' ∷ b'm' ∷ b'u' ∷ b')' ∷ []

-- The loop, with `rc`.
unfoldable pub platform_loop : List Bytes → PlatformId → PlatformId
unfolding contains
platform_loop [] rc = rc
platform_loop (line ∷ lines) rc =
    let lpar = platform_loop lines platform_pseries_lpar in
    let rest = platform_loop lines rc in
    if contains powernv line
    then platform_powernv
    else if contains emulated_by_qemu line
    then platform_powerkvm_guest
    else if contains pseries line
    then lpar
    else rest

unfoldable pub get_platform : Option (List Bytes) → PlatformId
unfolding platform_loop
get_platform none = platform_unknown
get_platform (some lines) = platform_loop lines platform_unknown

pub data Processor : Type 0 where
  processor_unknown power4 power5 power6 power7 power8 power9 power10 power11 : Processor

-- `pvr_ver` is what get_pvr_ver returns.
unfoldable pub get_processor : ℕ → Processor
get_processor pvr_ver =
    if pvr_ver == 53 || pvr_ver == 56
    then power4
    else if pvr_ver == 58 || pvr_ver == 59
    then power5
    else if pvr_ver == 62
    then power6
    else if pvr_ver == 63 || pvr_ver == 74
    then power7
    else if pvr_ver == 75 || pvr_ver == 76 || pvr_ver == 77
    then power8
    else if pvr_ver == 78
    then power9
    else if pvr_ver == 128
    then power10
    else if pvr_ver == 130
    then power11
    else processor_unknown
