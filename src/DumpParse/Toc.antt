-- ===== src/DumpParse/Toc.antt =====
-- The tables of contents of a dump: the entry of the log, and the sections of the log.
use ppc64_diag.DumpParse.{Skiboot, hw_loop, is_skiboot, uint32}
use ppc64_diag.DumpParse.Extract.{MdstTable, find_section, list_section}
use ppc64_diag.DumpParse.Reading.{Parsed-cases, be32, e_section, error, ok}
use ppc64_diag.Base.{
  ℕ, zero, suc, ◌+◌, ◌*◌, ◌<◌, ◌≡◌, ◌⊎◌, inl, inr, refl, ap, subst, ◌∙◌, arith, ◌==◌, Bool, true,
  false, Bool-cases, ==_iff, if◌then◌else◌, List, [], ◌∷◌, ◌++◌, some,
}
use ppc64_diag.Elog.Memory.{Bytes}

-- An entry of the table of contents of HWDATA that holds the log.
abbrev pub IsLogEntry : Bytes → ℕ → Skiboot → Type 0
IsLogEntry dump toc s =
    (flags : ℕ) × (be32 dump (toc + 20) ≡ ok flags)
    × (be32 dump (toc + 16) ≡ ok s.offset)
    × (be32 dump (toc + 24) ≡ ok (s.size + 0x28))
    × (is_skiboot flags (s.size + 0x28) ≡ true)

hw_loop_first :
    (n : ℕ) (dump : Bytes) (next toc_size : ℕ) {s : Skiboot}
    → hw_loop (suc n) dump next toc_size ≡ ok (some s)
    → IsLogEntry dump next s ⊎ (hw_loop n dump (next + toc_size) toc_size ≡ ok (some s))
unfolding hw_loop
hw_loop_first n dump next toc_size e =
    let size_cases = Parsed-cases (be32 dump (next + 24)) in
    let flags_cases = Parsed-cases (be32 dump (next + 20)) in
    let offset_cases = Parsed-cases (be32 dump (next + 16)) in ground arith

suc_times : (i n : ℕ) → suc i * n ≡ n + i * n
suc_times i n = omega arith

-- The log that the loop finds stands in one of the entries: its offset, its flags and its size,
-- less the header, are that entry's.
hw_loop_sound :
    (n : ℕ) (dump : Bytes) (next toc_size : ℕ) {s : Skiboot}
    → hw_loop n dump next toc_size ≡ ok (some s)
    → (i : ℕ) × (i < n) × IsLogEntry dump (next + i * toc_size) s
unfolding hw_loop
hw_loop_sound zero dump next toc_size e = absurd (ground arith)
hw_loop_sound (suc n) dump next toc_size {s} e =
    elim (hw_loop_first n dump next toc_size {s = s} e) [
      | inl here ↦ (0, omega arith, subst (λ at. IsLogEntry dump at s) (omega arith) here)
      | inr there ↦
          let (i, less, entry) = hw_loop_sound n dump (next + toc_size) toc_size {s = s} there in
          (
            suc i,
            omega arith,
            subst (λ at. IsLogEntry dump at s) (omega (arith, suc_times i toc_size)) entry,
          )
    ]

-- The sizes of the sections, and whether none of them has an id.
unfoldable pub total : List MdstTable → ℕ
total [] = 0
total (m ∷ ms) = m.size + total ms

unfoldable pub lacks : ℕ → List MdstTable → Bool
lacks id [] = true
lacks id (m ∷ ms) = let rest = lacks id ms in if m.sec_type == id then false else rest

-- The section that is asked for: the first of its id.
abbrev pub IsFirst : ℕ → List MdstTable → ℕ → ℕ → ℕ → Type 0
IsFirst id entries before start size =
    (earlier later : List MdstTable) × (m : MdstTable) × (entries ≡ earlier ++ m ∷ later)
    × (lacks id earlier ≡ true)
    × (m.sec_type ≡ id)
    × (size ≡ m.size)
    × (start ≡ uint32 (before + total earlier))

list_section-values :
    (n : ℕ) (dump : Bytes) (next : ℕ) {entries : List MdstTable}
    → list_section (suc n) dump next ≡ ok entries
    → (m : MdstTable) × (rest : List MdstTable) × (be32 dump (next + 8) ≡ ok m.sec_type)
      × (be32 dump (next + 12) ≡ ok m.size)
      × (list_section n dump (next + 16) ≡ ok rest)
      × (entries ≡ m ∷ rest)
unfolding list_section
list_section-values n dump next e =
    let type_cases = Parsed-cases (be32 dump (next + 8)) in
    let size_cases = Parsed-cases (be32 dump (next + 12)) in
    let rest_cases = Parsed-cases (list_section n dump (next + 16)) in ground arith

-- Let list_section list the sections. Then find_section refuses an id that none of them has, and
-- otherwise finds the first that has it: with its size, and behind the sizes of those before it,
-- in 32 bits.
pub find_section-listed :
    (n : ℕ) (dump : Bytes) (next id before : ℕ) {entries : List MdstTable}
    → list_section n dump next ≡ ok entries
    → before < 4294967296
    → (lacks id entries ≡ true) × (find_section n dump next id before ≡ error e_section)
      ⊎ (start size : ℕ) × (find_section n dump next id before ≡ ok (start, size))
        × IsFirst id entries before start size
unfolding list_section find_section lacks total uint32
find_section-listed zero dump next id before e h = inl (ground arith, refl)
find_section-listed (suc n) dump next id before {entries} e h =
    let (m, rest, type_at, size_at, rest_at, same) = list_section-values n dump next e in
    elim (Bool-cases (m.sec_type == id)) [
      | inl here ↦ inr (
        before,
        m.size,
        ground (arith, type_at, size_at, here),
        ([], rest, m, same, refl, (==_iff m.sec_type id).0 here, refl, omega arith),
      )
      | inr other ↦
          let next_total = uint32 (before + m.size) in
          elim (find_section-listed n dump (next + 16) id next_total rest_at (omega arith)) [
            | inl (none_there, refused) ↦ inl (ground arith, ground arith)
            | inr
                  (
                    start,
                    size,
                    found,
                    (earlier, later, m', whole, none_earlier, at, sized, begins),
                  ) ↦
                inr (
                  start,
                  size,
                  ground arith,
                  (
                    m ∷ earlier,
                    later,
                    m',
                    same ∙ ap (m ∷◌) whole,
                    ground arith,
                    at,
                    sized,
                    omega (arith, begins),
                  ),
                )
          ]
    ]
