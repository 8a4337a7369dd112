-- ===== src/DumpParse/Tests.antt =====
-- Dumps on which opal-dump-parse runs.
use ppc64_diag.DumpParse.{
  Skiboot, data_section, dump_file_prefix, dump_file_signature, dump_hdr_signature, hw_loop,
  hwdata_signature, is_skiboot, section_loop, section_signature, uint16, validate_sections,
}
use ppc64_diag.DumpParse.Extract.{MdstTable, Output, Written, find_section, list_section}
use ppc64_diag.DumpParse.Reading.{be16, be32, e_section, error, lift, matches, ok}
use ppc64_diag.DumpParse.Sections.{Chain, IsEntry, validate_sections-Chain}
use ppc64_diag.DumpParse.Toc.{IsFirst, find_section-listed, lacks}
use ppc64_diag.Base.{
  ℕ, ◌≡◌, ◌⊎◌, ◌↔◌, refl, arith, true, List, [], ◌∷◌, ◌++◌, some, replicate, length,
}
use ppc64_diag.Elog.Memory.{Bytes, field}

-- A section entry of 24 bytes, of a given size, with a given flag.
abbrev entry_of : ℕ → ℕ → Bytes
entry_of size flag =
    section_signature
    ++ 0 ∷ 0 ∷ size ∷ 0 ∷ 0 ∷ 0 ∷ 0 ∷ 0 ∷ 0 ∷ 0 ∷ 0 ∷ 0 ∷ flag ∷ 0 ∷ 0 ∷ 0 ∷ 0 ∷ []

-- Two entries, behind the 64 bytes of the file's header; and one of size 0.
abbrev two_sections : Bytes
two_sections = replicate 64 0 ++ (entry_of 24 0 ++ entry_of 24 1)

abbrev empty_section : Bytes
empty_section = replicate 64 0 ++ entry_of 0 0

validate_sections-Chain_example :
    ((fuel : ℕ) × (validate_sections fuel two_sections ≡ ok 112))
    ↔ ((n : ℕ) × Chain two_sections n 0x40 112)
validate_sections-Chain_example = validate_sections-Chain two_sections 112

two_sections_valid : validate_sections 2 two_sections ≡ ok 112
unfolding validate_sections section_loop uint16 matches be16 be32 lift field
two_sections_valid = refl

empty-IsEntry : IsEntry empty_section 0x40 0 0
unfolding matches be16 be32 lift field
empty-IsEntry = (refl, refl, refl)

-- One entry of the table of contents: the log at 256, of two megabytes.
abbrev hw_toc : Bytes
hw_toc = replicate 18 0 ++ 1 ∷ 0 ∷ 128 ∷ 0 ∷ 0 ∷ 0 ∷ 0 ∷ 32 ∷ 0 ∷ 0 ∷ []

abbrev log_entry : Skiboot
log_entry = record { offset = 256; size = 2097112 }

hw_toc_found : hw_loop 1 hw_toc 0 28 ≡ ok (some log_entry)
unfolding hw_loop is_skiboot be32 lift field
hw_toc_found = refl

-- Sections 1 and 128 of 5 and 7 bytes.
abbrev mdst : Bytes
mdst = replicate 11 0 ++ 1 ∷ 0 ∷ 0 ∷ 0 ∷ 5 ∷ (replicate 11 0 ++ 128 ∷ 0 ∷ 0 ∷ 0 ∷ 7 ∷ [])

abbrev mdst_entries : List MdstTable
mdst_entries = record { sec_type = 1; size = 5 } ∷ record { sec_type = 128; size = 7 } ∷ []

mdst_listed : list_section 2 mdst 0 ≡ ok mdst_entries
unfolding list_section be32 lift field
mdst_listed = refl

find_section-listed_example :
    (lacks 128 mdst_entries ≡ true) × (find_section 2 mdst 0 128 0 ≡ error e_section)
    ⊎ (start size : ℕ) × (find_section 2 mdst 0 128 0 ≡ ok (start, size))
      × IsFirst 128 mdst_entries 0 start size
find_section-listed_example = find_section-listed 2 mdst 0 128 0 mdst_listed (omega arith)

-- A dump: the file's header, one section entry, the dump header, HWDATA with the entry of the log,
-- SYSDATA with the entry of the MDST table, the table with one section, and its four bytes.
abbrev file_header : Bytes
file_header =
    dump_file_signature ++ (replicate 20 0 ++ (dump_file_prefix ++ b'.' ∷ b'1' ∷ replicate 31 0))

abbrev dump_header : Bytes
dump_header = dump_hdr_signature ++ (replicate 15 0 ++ 24 ∷ [])

-- The header of a node of 76 bytes with one entry of `toc_size` bytes.
abbrev node_header : ℕ → Bytes
node_header toc_size =
    0
    ∷ 48
    ∷ 0
    ∷ 2
    ∷ 0
    ∷ 0
    ∷ 0
    ∷ 0
    ∷ 0
    ∷ 0
    ∷ 0
    ∷ 76
    ∷ (replicate 11 0 ++ 1 ∷ 0 ∷ toc_size ∷ replicate 14 0)

abbrev small_dump : Bytes
small_dump =
    file_header
    ++ (entry_of 24 1
        ++ (dump_header
            ++ (hwdata_signature
                ++ (0 ∷ 0 ∷ node_header 28
                    ++ (replicate 19 0
                        ++ 36
                          ∷ 128
                          ∷ 0
                          ∷ 0
                          ∷ 0
                          ∷ 0
                          ∷ 32
                          ∷ 0
                          ∷ 0
                          ∷ (data_section
                              ++ (0 ∷ node_header 12
                                  ++ (0xf0 ∷ 0x0c ∷ 0 ∷ 1 ∷ replicate 7 0
                                      ++ 16
                                        ∷ (replicate 11 0
                                            ++ 1 ∷ 0 ∷ 0 ∷ 0 ∷ 4 ∷ b'l' ∷ b'o' ∷ b'g' ∷ b'!'
                                              ∷ [])))))))))

abbrev to_file : Output
to_file = record { flag = true; file = b'f' ∷ [] }

abbrev log_written : Written
log_written = record { path = b'f' ∷ []; contents = b'l' ∷ b'o' ∷ b'g' ∷ b'!' ∷ [] }

small_dump_size : length small_dump ≡ 268
small_dump_size = refl
