-- ===== src/Common/Platform/Decided.antt =====
-- What get_platform answers, by the first line that decides it.
use ppc64_diag.Common.Platform.{
  PlatformId, platform_unknown, platform_powernv, platform_powerkvm_guest, platform_pseries_lpar,
  emulated_by_qemu, get_platform, platform_loop, powernv, pseries,
}
use ppc64_diag.Base.{
  ◌≡◌, refl, ◌∙◌, true, false, if◌then◌else◌, List, [], ◌∷◌, ◌++◌, some, Bool, Bool-cases, inl, inr,
}
use ppc64_diag.Errd.Files.{contains}
use ppc64_diag.Elog.Memory.{Bytes}

-- A line that does not end the loop.
abbrev pub IsUndecided : Bytes → Type 0
IsUndecided line = contains powernv line ≡ false × contains emulated_by_qemu line ≡ false

pub data Undecided : List Bytes → Type 0 where
  none_left : Undecided []
  undecided :
      {line : Bytes} {lines : List Bytes}
      → IsUndecided line
      → Undecided lines
      → Undecided (line ∷ lines)

-- The answer of a file no line of which ends the loop.
unfoldable pub names_pseries : List Bytes → Bool
names_pseries [] = false
names_pseries (line ∷ lines) =
    let rest = names_pseries lines in if contains pseries line then true else rest

-- A line that ends the loop, with the answer.
pub data Decides : Bytes → PlatformId → Type 0 where
  names_powernv : {line : Bytes} → contains powernv line ≡ true → Decides line platform_powernv
  names_qemu :
      {line : Bytes}
      → contains powernv line ≡ false
      → contains emulated_by_qemu line ≡ true
      → Decides line platform_powerkvm_guest

platform_loop-Decides :
    (line : Bytes) (lines : List Bytes) (rc answer : PlatformId)
    → Decides line answer
    → platform_loop (line ∷ lines) rc ≡ answer
unfolding platform_loop
platform_loop-Decides line lines rc answer (names_powernv h) = rw h refl
platform_loop-Decides line lines rc answer (names_qemu absent h) = rw (absent, h) refl

platform_loop_first :
    (before after : List Bytes) (line : Bytes) (rc answer : PlatformId)
    → Undecided before
    → Decides line answer
    → platform_loop (before ++ line ∷ after) rc ≡ answer
unfolding platform_loop
platform_loop_first [] after line rc answer none_left d =
    platform_loop-Decides line after rc answer d
platform_loop_first (l ∷ before) after line rc answer (undecided (absent, native) us) d =
    elim (Bool-cases (contains pseries l)) [
      | inl yes_it ↦
          rw (absent, native, yes_it)
            (platform_loop_first before after line platform_pseries_lpar answer us d)
      | inr not_it ↦
          rw (absent, native, not_it) (platform_loop_first before after line rc answer us d)
    ]

if_same : (b : Bool) (x : PlatformId) → (if b then x else x) ≡ x
if_same true x = refl
if_same false x = refl

platform_loop-Undecided :
    (lines : List Bytes) (rc : PlatformId)
    → Undecided lines
    → platform_loop lines rc ≡ (if names_pseries lines then platform_pseries_lpar else rc)
unfolding platform_loop names_pseries
platform_loop-Undecided [] rc none_left = refl
platform_loop-Undecided (l ∷ lines) rc (undecided (absent, native) us) =
    elim (Bool-cases (contains pseries l)) [
      | inl yes_it ↦
          rw (absent, native, yes_it)
            (platform_loop-Undecided lines platform_pseries_lpar us
              ∙ if_same (names_pseries lines) platform_pseries_lpar)
      | inr not_it ↦ rw (absent, native, not_it) (platform_loop-Undecided lines rc us)
    ]

-- The first line that names PowerNV, or pSeries under qemu, decides. Where none does, a line with
-- pSeries makes an LPAR of the machine, and without one the platform is unknown.
get_platform-decided :
    (before : List Bytes)
    → Undecided before
    → ((line : Bytes) (after : List Bytes) (answer : PlatformId)
        → Decides line answer
        → get_platform (some (before ++ line ∷ after)) ≡ answer)
      × get_platform (some before)
        ≡ (if names_pseries before then platform_pseries_lpar else platform_unknown)
unfolding get_platform
get_platform-decided before us = (
  λ line after answer d. platform_loop_first before after line platform_unknown answer us d,
  platform_loop-Undecided before platform_unknown us,
)
