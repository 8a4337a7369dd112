-- ===== src/Rtas/Ela/CpuFrus.antt =====
-- get_cpu_frus of rtas_errd/ela.c: which of a planar and processors the first three locations are.
-- The buffer of get_loc_code is freed at its end, through the pointer to its first location.
pub mod Freed
use ppc64_diag.Base.{
  ℕ, ltb, leb, ◌==◌, Bool, true, false, not, ◌&&◌, if◌then◌else◌, List, [], ◌∷◌, ◌++◌, Option, some,
  none,
}
use ppc64_diag.Elog.Memory.{Bytes}
use ppc64_diag.Rtas.Ela.State.{Run, State, bad_free, crash, done, freed, null_read, ◌>>=◌}
use ppc64_diag.Rtas.Ela.Locations.{first_loc, is_cpu, is_planar, next_code, visible}

-- RC_INVALID, RC_PLANAR, RC_PLANAR_CPU and RC_PLANAR_2CPU.
pub data CpuFrus : Type 0 where
  rc_invalid rc_planar rc_planar_cpu rc_planar_2cpu : CpuFrus

abbrev pub blank_between : Bytes → Bytes → Bytes
blank_between a b = a ++ b' ' ∷ b

-- The string of a location that may be missing: is_not_fru tells no empty one from a missing one.
abbrev pub or_empty : Option Bytes → Bytes
or_empty none = []
or_empty (some l) = l

abbrev pub is_empty : Bytes → Bool
is_empty [] = true
is_empty (c ∷ s) = false

-- The tests, with the location codes as they were or in the order planar, processors.
unfoldable pub arrange : Bytes → Bytes → Bytes → Bytes → CpuFrus × Bytes
unfolding is_planar is_cpu
arrange loc1 loc2 loc3 loc_codes =
    if is_planar loc1
    then (if is_empty loc2
        then (rc_planar, loc_codes)
        else if not (is_cpu loc2)
        then (rc_invalid, loc_codes)
        else if is_empty loc3
        then (rc_planar_cpu, loc_codes)
        else if is_cpu loc3
        then (rc_planar_2cpu, loc_codes)
        else (rc_invalid, loc_codes))
    else if is_cpu loc1 && is_planar loc2
    then (if is_empty loc3
        then (rc_planar_cpu, blank_between loc2 loc1)
        else if is_cpu loc3
        then (rc_planar_2cpu, blank_between loc2 (blank_between loc1 loc3))
        else (rc_invalid, loc_codes))
    else (rc_invalid, loc_codes)

abbrev pub starts_blank : Bytes → Bool
starts_blank [] = false
starts_blank (c ∷ s) = c == b' '

-- The second and the third location, where there are so many; none for `goto out`.
unfoldable pub further_locs : ℕ → Bytes → Option (Bytes × Bytes)
unfolding next_code
further_locs nlocs rest =
    let second = next_code rest in
    let third = next_code second.1 in
    if ltb nlocs 2 then some ([], []) else (elim (second.0) [
      | none ↦ none
      | some loc2 ↦
          if ltb nlocs 3
          then some (loc2, [])
          else (elim (third.0) [ none ↦ none | some loc3 ↦ some (loc2, loc3) ])
    ])

-- `free(free_me)`, where the first location may stand behind blanks.
unfoldable pub free_first : Bytes → CpuFrus → State → Run (CpuFrus × State)
free_first loc_codes rc s =
    if starts_blank loc_codes then crash bad_free else done (rc, record s { copy = freed })

unfoldable pub get_cpu_frus : State → Run (CpuFrus × State)
unfolding first_loc further_locs arrange free_first
get_cpu_frus s = elim (s.loc_codes) [
  | none ↦ crash null_read
  | some loc_codes ↦ do
    r ← first_loc s
    (elim (r.0) as (λ _. Run (CpuFrus × State)) [
      | none ↦ done (rc_invalid, r.2)
      | some loc1 ↦
          if r.1 == 0
          then done (rc_invalid, r.2)
          else (elim (further_locs r.1 r.2.rest) as (λ _. Run (CpuFrus × State)) [
            | none ↦ free_first loc_codes rc_invalid r.2
            | some (loc2, loc3) ↦
                let a = arrange loc1 loc2 loc3 loc_codes in
                free_first loc_codes a.0 (record r.2 { loc_codes = some (a.1) })
          ])
    ])
]
