-- ===== src/DumpParse.antt =====
-- opal-dump-parse/opal-dump-parse.c: the command that takes a log out of a dump of the platform.
-- The dump is the bytes of its file; an offset into it wraps around as the source's integers do.
pub mod Reading
pub mod Sections
pub mod Toc
pub mod Extract
pub mod Part
mod Tests
use ppc64_diag.DumpParse.Reading.{
  Parsed, DumpError, e_file, e_invalid, e_opal_data, e_opal_table, e_section, error, ok, over_read,
  out_of_fuel, ◌>>=◌, ◌>>◌, be16, be32, matches, check, c_string, lift,
}
use ppc64_diag.Base.{
  ℕ, zero, suc, ◌+◌, ◌-◌, ◌*◌, ◌/◌, ◌%◌, ltb, leb, ◌==◌, Bool, true, false, not, ◌&&◌, ◌||◌,
  if◌then◌else◌, List, [], ◌∷◌, ◌++◌, Option, some, none, length, take, drop, has_flag,
}
use ppc64_diag.Elog.Memory.{Bytes, read, strncpy}

-- The labels.
abbrev pub section_signature : Bytes
section_signature = b'S' ∷ b'E' ∷ b'C' ∷ b'T' ∷ b'I' ∷ b'O' ∷ b'N' ∷ []

abbrev pub dump_hdr_signature : Bytes
dump_hdr_signature = b'S' ∷ b'Y' ∷ b'S' ∷ b' ' ∷ b'D' ∷ b'U' ∷ b'M' ∷ b'P' ∷ []

abbrev pub hwdata_signature : Bytes
hwdata_signature = b'H' ∷ b'W' ∷ b'D' ∷ b'A' ∷ b'T' ∷ b'A' ∷ []

abbrev pub data_section : Bytes
data_section = b'S' ∷ b'Y' ∷ b'S' ∷ b'D' ∷ b'A' ∷ b'T' ∷ b'A' ∷ []

abbrev pub dump_file_signature : Bytes
dump_file_signature = b'F' ∷ b'I' ∷ b'L' ∷ b'E' ∷ []

abbrev pub dump_file_prefix : Bytes
dump_file_prefix = b'S' ∷ b'Y' ∷ b'S' ∷ b'D' ∷ b'U' ∷ b'M' ∷ b'P' ∷ []

-- A 16-bit and a 32-bit integer.
unfoldable pub uint16 : ℕ → ℕ
uint16 n = n % 65536

unfoldable pub uint32 : ℕ → ℕ
uint32 n = n % 4294967296

-- The loop of validate_sections; `offset` is of 16 bits.
unfoldable pub section_loop : ℕ → Bytes → ℕ → Parsed ℕ
unfolding uint16
section_loop zero dump offset = out_of_fuel
section_loop (suc fuel) dump offset =
    let next = λ (size : ℕ). section_loop fuel dump (uint16 (offset + size)) in
    do
      labelled ← matches dump offset section_signature
      check labelled e_invalid
      size ← be16 dump (offset + 8)
      flags ← be32 dump (offset + 16)
      if has_flag flags 1 then ok (uint16 (offset + size)) else next size

-- The offset of the dump header.
unfoldable pub validate_sections : ℕ → Bytes → Parsed ℕ
validate_sections fuel dump = section_loop fuel dump 0x40

-- The offset of the HWDATA section.
unfoldable pub validate_dump_header : Bytes → ℕ → Parsed ℕ
validate_dump_header dump dump_header = do
  labelled ← matches dump dump_header dump_hdr_signature
  check labelled e_invalid
  size ← be16 dump (dump_header + 22)
  ok (dump_header + size)

-- A facility of the "get block" kind with more than SKIBOOT_SIZE_LIMIT bytes.
unfoldable pub is_skiboot : ℕ → ℕ → Bool
is_skiboot flags size = has_flag (flags / 134217728) 16 && ltb 1048576 size

-- The offset and the size of the log, of the entry at which the loop breaks.
pub record Skiboot : Type 0 where
  pub offset : ℕ
  pub size : ℕ

-- The loop over the `n` entries that are left; none where none is the log.
unfoldable pub hw_loop : ℕ → Bytes → ℕ → ℕ → Parsed (Option Skiboot)
unfolding is_skiboot
hw_loop zero dump next_toc toc_size = ok none
hw_loop (suc n) dump next_toc toc_size =
    let rest = hw_loop n dump (next_toc + toc_size) toc_size in
    do
      size ← be32 dump (next_toc + 24)
      flags ← be32 dump (next_toc + 20)
      offset ← be32 dump (next_toc + 16)
      if is_skiboot flags size
          then ok (some record { offset = offset; size = size - 0x28 })
          else rest

-- An offset of 0 is taken for no entry.
unfoldable pub skiboot_entry : Option Skiboot → Parsed Skiboot
skiboot_entry none = error e_opal_data
skiboot_entry (some s) = if s.offset == 0 then error e_opal_data else ok s

-- Here `offset` of the answer is `skiboot_start`.
unfoldable pub get_skiboot : Bytes → ℕ → Parsed Skiboot
unfolding skiboot_entry uint32
get_skiboot dump hwdata_start = do
  version ← be16 dump (hwdata_start + 10)
  check (version == 2) e_invalid
  labelled ← matches dump hwdata_start hwdata_signature
  check labelled e_invalid
  header_size ← be16 dump (hwdata_start + 8)
  toc_cnt ← be32 dump (hwdata_start + 28)
  toc_size ← be16 dump (hwdata_start + 32)
  found ← hw_loop toc_cnt dump (hwdata_start + header_size) toc_size
  entry ← skiboot_entry found
  ok record entry {
    offset = uint32 (hwdata_start + header_size + toc_size * toc_cnt + entry.offset + 0x28);
  }

-- The search for the SYSDATA section.
unfoldable pub sysdata_loop : ℕ → Bytes → ℕ → Parsed ℕ
unfolding uint32
sysdata_loop zero dump sec_start = out_of_fuel
sysdata_loop (suc fuel) dump sec_start =
    let next = λ (size : ℕ). sysdata_loop fuel dump (uint32 (sec_start + size)) in
    do
      labelled ← matches dump sec_start data_section
      if labelled then ok sec_start else (be32 dump (sec_start + 16) >>= next)

-- The offset and the size of an entry.
unfoldable pub sys_entry : Bytes → ℕ → Parsed (ℕ × ℕ)
sys_entry dump toc = do offset ← be32 dump (toc + 4); size ← be32 dump (toc + 8); ok (offset, size)

-- The entry of the MDST table.
unfoldable pub sys_loop : ℕ → Bytes → ℕ → ℕ → Parsed (ℕ × ℕ)
sys_loop zero dump next_toc toc_size = error e_opal_table
sys_loop (suc n) dump next_toc toc_size =
    let rest = sys_loop n dump (next_toc + toc_size) toc_size in
    do id ← be32 dump next_toc; if id == 0xf00c0001 then sys_entry dump next_toc else rest

-- `mdst_start` and `mdst_cnt`.
unfoldable pub get_mdst_table_offset : ℕ → Bytes → ℕ → Parsed (ℕ × ℕ)
unfolding uint32
get_mdst_table_offset fuel dump hwdata_start = do
  sec_start ← sysdata_loop fuel dump hwdata_start
  header_size ← be16 dump (sec_start + 8)
  toc_cnt ← be32 dump (sec_start + 28)
  toc_size ← be16 dump (sec_start + 32)
  entry ← sys_loop toc_cnt dump (sec_start + header_size) toc_size
  ok (uint32 (sec_start + header_size + toc_size * toc_cnt + entry.0), entry.1 / 16)
