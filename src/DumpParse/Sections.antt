-- ===== src/DumpParse/Sections.antt =====
-- The loop over the section directory of a dump.
use ppc64_diag.DumpParse.{section_loop, section_signature, uint16, validate_sections}
use ppc64_diag.DumpParse.Reading.{Parsed-cases, be16, be32, matches, ok, out_of_fuel}
use ppc64_diag.Base.{
  ℕ, zero, suc, ◌+◌, ◌≤◌, ◌<◌, ◌≡◌, ◌↔◌, inl, inr, refl, sym, subst, ◌∙◌, arith, true, false,
  Bool-cases, if◌then◌else◌, has_flag,
}
use ppc64_diag.Elog.Memory.{Bytes}

-- A section entry at an offset, with its size and flags.
abbrev pub IsEntry : Bytes → ℕ → ℕ → ℕ → Type 0
IsEntry dump offset size flags =
    (matches dump offset section_signature ≡ ok true)
    × (be16 dump (offset + 8) ≡ ok size)
    × (be32 dump (offset + 16) ≡ ok flags)

-- A chain of entries from an offset to the end behind the last one: each entry is followed by the
-- one its size points at, and the last one is the first that has the flag SECTION_LAST.
pub data Chain (dump : Bytes) : ℕ → ℕ → ℕ → Type 0 where
  last :
      {offset size flags : ℕ}
      → IsEntry dump offset size flags
      → has_flag flags 1 ≡ true
      → Chain dump 1 offset (uint16 (offset + size))
  more :
      {offset size flags n end : ℕ}
      → IsEntry dump offset size flags
      → has_flag flags 1 ≡ false
      → Chain dump n (uint16 (offset + size)) end
      → Chain dump (suc n) offset end

section_loop_entry :
    (fuel : ℕ) (dump : Bytes) (offset : ℕ) {size flags : ℕ}
    → IsEntry dump offset size flags
    → section_loop (suc fuel) dump offset ≡ (
        if has_flag flags 1
        then ok (uint16 (offset + size))
        else section_loop fuel dump (uint16 (offset + size)))
unfolding section_loop
section_loop_entry fuel dump offset (label, size_at, flags_at) = rw (label, size_at, flags_at) refl

-- The loop follows a chain to its end, with fuel for its entries.
section_loop-Chain :
    (dump : Bytes) {n offset end : ℕ}
    → Chain dump n offset end
    → section_loop n dump offset ≡ ok end
section_loop-Chain dump (last {offset} entry flag) =
    ground (arith, flag, section_loop_entry 0 dump offset entry)
section_loop-Chain dump (more {offset} {n = n} entry flag chain) =
    ground (arith, flag, section_loop_entry n dump offset entry, section_loop-Chain dump chain)

section_loop-cases :
    (fuel : ℕ) (dump : Bytes) (offset : ℕ) {end : ℕ}
    → section_loop (suc fuel) dump offset ≡ ok end
    → (size flags : ℕ) × IsEntry dump offset size flags
unfolding section_loop
section_loop-cases fuel dump offset e =
    let label_cases = Parsed-cases (matches dump offset section_signature) in
    let size_cases = Parsed-cases (be16 dump (offset + 8)) in
    let flags_cases = Parsed-cases (be32 dump (offset + 16)) in ground (arith)

-- An answer of the loop is the end of a chain.
section_loop_sound :
    (fuel : ℕ) (dump : Bytes) (offset : ℕ) {end : ℕ}
    → section_loop fuel dump offset ≡ ok end
    → (n : ℕ) × (n ≤ fuel) × Chain dump n offset end
unfolding section_loop
section_loop_sound zero dump offset e = absurd (ground arith)
section_loop_sound (suc fuel) dump offset {end} e =
    let (size, flags, entry) = section_loop-cases fuel dump offset e in
    let turn = sym (section_loop_entry fuel dump offset entry) ∙ e in
    elim (Bool-cases (has_flag flags 1)) [
      | inl flag ↦ (1, omega arith, subst (Chain dump 1 offset) (ground arith) (last entry flag))
      | inr flag ↦
          let (n, less, chain) =
            section_loop_sound fuel dump (uint16 (offset + size)) {end = end}
              (ground (arith, flag, turn)) in
          (suc n, omega arith, more entry flag chain)
    ]

-- With some fuel validate_sections answers with an offset exactly where the directory, from its
-- begin at 0x40, is a chain of section entries that ends there.
pub validate_sections-Chain :
    (dump : Bytes) (end : ℕ)
    → ((fuel : ℕ) × (validate_sections fuel dump ≡ ok end)) ↔ ((n : ℕ) × Chain dump n 0x40 end)
unfolding validate_sections
validate_sections-Chain dump end = (
  λ (fuel, e). let (n, less, chain) = section_loop_sound fuel dump 0x40 e in (n, chain),
  λ (n, chain). (n, section_loop-Chain dump chain),
)

-- A section entry of size 0 that is not the last: the loop stays at it.
stays :
    (fuel : ℕ) (dump : Bytes) (offset : ℕ) {flags : ℕ}
    → offset < 65536
    → IsEntry dump offset 0 flags
    → has_flag flags 1 ≡ false
    → section_loop fuel dump offset ≡ out_of_fuel
unfolding section_loop uint16
stays zero dump offset h entry flag = refl
stays (suc fuel) dump offset h entry flag =
    ground
      (arith, flag, section_loop_entry fuel dump offset entry, stays fuel dump offset h entry flag)

-- Let the directory begin with an entry of size 0 that does not have the flag SECTION_LAST. Then
-- validate_sections never answers, whatever the fuel.
validate_sections_endless :
    (fuel : ℕ) (dump : Bytes) {flags : ℕ}
    → IsEntry dump 0x40 0 flags
    → has_flag flags 1 ≡ false
    → validate_sections fuel dump ≡ out_of_fuel
unfolding validate_sections
validate_sections_endless fuel dump entry flag = stays fuel dump 0x40 (omega arith) entry flag
