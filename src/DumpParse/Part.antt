-- ===== src/DumpParse/Part.antt =====
-- What is written is a part of the dump.
use ppc64_diag.DumpParse.{Skiboot, get_mdst_table_offset, uint32}
use ppc64_diag.DumpParse.Extract.{Request, find_section}
use ppc64_diag.DumpParse.Reading.{ok}
use ppc64_diag.Base.{ℕ, ◌+◌, ◌≤◌, ◌≡◌, length, take, drop}
use ppc64_diag.Elog.Memory.{Bytes}

-- The bytes of the dump from `start` on, all inside it.
abbrev pub IsPart : Bytes → ℕ → ℕ → Bytes → Type 0
IsPart dump start size contents =
    (start + size ≤ length dump) × (contents ≡ take size (drop start dump))

-- The part that a request asks for: the whole log from its offset on, or the section that is found
-- in the table, as far behind the offset as the sections before it are long.
abbrev pub IsRequested : Request → ℕ → Bytes → ℕ → Skiboot → ℕ → ℕ → Type 0
IsRequested Request.list_sections fuel dump hwdata_start skiboot start size = ⊥
IsRequested (Request.one_section id) fuel dump hwdata_start skiboot start size =
    (mdst : ℕ × ℕ) × (get_mdst_table_offset fuel dump hwdata_start ≡ ok mdst)
    × (found : ℕ × ℕ) × (find_section mdst.1 dump mdst.0 id 0 ≡ ok found)
    × (start ≡ uint32 (skiboot.offset + found.0))
    × (size ≡ found.1)
IsRequested Request.whole_log fuel dump hwdata_start skiboot start size =
    (start ≡ skiboot.offset) × (size ≡ skiboot.size)

-- The part that is asked for is what is written.
abbrev pub Answers : Request → ℕ → Bytes → ℕ → Skiboot → Bytes → Type 0
Answers request fuel dump hwdata_start skiboot contents =
    (start size : ℕ) × IsRequested request fuel dump hwdata_start skiboot start size
    × IsPart dump start size contents
