-- ===== src/DumpParse/Extract.antt =====
-- print_section, list_section, write_log and parse_dump of opal-dump-parse.c. What is written is an
-- answer of the functions: the name of the file and its bytes.
use ppc64_diag.DumpParse.{
  Skiboot, dump_file_prefix, dump_file_signature, get_mdst_table_offset, get_skiboot, uint32,
  validate_dump_header, validate_sections,
}
use ppc64_diag.DumpParse.Reading.{
  Parsed, be32, c_string, check, e_file, e_invalid, e_section, error, lift, matches, ok, ◌>>=◌,
  ◌>>◌,
}
use ppc64_diag.Base.{
  ℕ, zero, suc, ◌+◌, ltb, ◌==◌, Bool, true, false, not, ◌||◌, if◌then◌else◌, List, [], ◌∷◌, ◌++◌,
  length,
}
use ppc64_diag.Elog.Memory.{Bytes, read, strncpy}

-- The names of the sections, DUMP_SECTION_DESC.
unfoldable pub parse_section : ℕ → Bytes
parse_section t =
    if t == 1
    then b'O' ∷ b'p' ∷ b'a' ∷ b'l' ∷ b'-' ∷ b'l' ∷ b'o' ∷ b'g' ∷ []
    else if t == 2
    then (b'H' ∷ b'o' ∷ b's' ∷ b't' ∷ b'B' ∷ b'o' ∷ b'o' ∷ b't' ∷ b'-' ∷ b'R' ∷ b'u' ∷ b'n' ∷ b't'
        ∷ b'i' ∷ b'm' ∷ b'e' ∷ b'-' ∷ b'l' ∷ b'o' ∷ b'g' ∷ [])
    else if t == 128
    then b'p' ∷ b'r' ∷ b'i' ∷ b'n' ∷ b't' ∷ b'k' ∷ []
    else b'U' ∷ b'n' ∷ b'k' ∷ b'n' ∷ b'o' ∷ b'w' ∷ b'n' ∷ []

-- An entry of the MDST table, without its address.
pub record MdstTable : Type 0 where
  pub sec_type : ℕ
  pub size : ℕ

-- The loop of list_section: its lines.
unfoldable pub list_section : ℕ → Bytes → ℕ → Parsed (List MdstTable)
list_section zero dump next = ok []
list_section (suc n) dump next =
    let rest = list_section n dump (next + 16) in
    do
      sec_type ← be32 dump (next + 8)
      size ← be32 dump (next + 12)
      entries ← rest
      ok (record { sec_type = sec_type; size = size } ∷ entries)

-- The loop of print_section: `total_size` and the size of the section that is asked for.
unfoldable pub find_section : ℕ → Bytes → ℕ → ℕ → ℕ → Parsed (ℕ × ℕ)
unfolding uint32
find_section zero dump next opt_sec_id total_size = error e_section
find_section (suc n) dump next opt_sec_id total_size =
    let rest =
      λ (size : ℕ). find_section n dump (next + 16) opt_sec_id (uint32 (total_size + size)) in
    do
      sec_type ← be32 dump (next + 8)
      size ← be32 dump (next + 12)
      if sec_type == opt_sec_id then ok (total_size, size) else rest size

pub record Written : Type 0 where
  pub path : Bytes
  pub contents : Bytes

-- `opt_output_flag`, with `opt_output_file`.
pub record Output : Type 0 where
  pub flag : Bool
  pub file : Bytes

-- The suffix of the dump's own name, which ends the path unless the user gave one.
unfoldable pub dump_suffix : Bool → Bytes → Parsed Bytes
dump_suffix true dump = ok []
dump_suffix false dump = do suffix ← lift (strncpy dump 31 33); ok (c_string suffix)

-- Where the file is opened, written and synced without an error. The source does not compare the
-- part with the length of the dump: a part that goes past it is read behind the mapped file,
-- over_read.
unfoldable pub write_log : Bytes → Bool → Bytes → ℕ → ℕ → Parsed Written
write_log path flag dump start size = do
  check (ltb (length path) 4096) e_file
  suffix ← dump_suffix flag dump
  check (flag || ltb (length path + length suffix) 4096) e_file
  contents ← lift (read dump start size)
  ok record { path = path ++ suffix; contents = contents }

unfoldable pub output_file : Output → ℕ → Bytes
output_file out sec_type = if out.flag then out.file else parse_section sec_type

unfoldable pub print_section : Output → ℕ → Bytes → ℕ × ℕ → ℕ → Parsed Written
print_section out opt_sec_id dump mdst skiboot_start = do
  found ← find_section mdst.1 dump mdst.0 opt_sec_id 0
  write_log (output_file out opt_sec_id) out.flag dump (uint32 (skiboot_start + found.0)) found.1

-- What the options ask for: -l, -s with its number, or neither.
pub data Request : Type 0 where
  list_sections : Request
  one_section : ℕ → Request
  whole_log : Request

pub data Answer : Type 0 where
  listed : List MdstTable → Answer
  written : Written → Answer

unfoldable pub answer : Request → Output → ℕ → Bytes → ℕ → Skiboot → Parsed Answer
answer list_sections out fuel dump hwdata_start skiboot = do
  mdst ← get_mdst_table_offset fuel dump hwdata_start
  entries ← list_section mdst.1 dump mdst.0
  ok (listed entries)
answer (one_section opt_sec_id) out fuel dump hwdata_start skiboot = do
  mdst ← get_mdst_table_offset fuel dump hwdata_start
  w ← print_section out opt_sec_id dump mdst skiboot.offset
  ok (written w)
answer whole_log out fuel dump hwdata_start skiboot = do
  w ← write_log out.file out.flag dump skiboot.offset skiboot.size
  ok (written w)

-- parse_dump, where the file can be mapped. A failure of write_log in the last case of `answer` is
-- not passed on by the source, which returns E_SUCCESS then.
unfoldable pub parse_dump : Request → Output → ℕ → Bytes → Parsed Answer
parse_dump request out fuel dump = do
  check (not (length dump == 0)) e_file
  file_label ← matches dump 0 dump_file_signature
  check file_label e_invalid
  file_name ← matches dump 24 dump_file_prefix
  check file_name e_invalid
  dump_header ← validate_sections fuel dump
  hwdata_start ← validate_dump_header dump dump_header
  skiboot ← get_skiboot dump hwdata_start
  answer request out fuel dump hwdata_start skiboot
