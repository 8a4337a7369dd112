-- ===== src/Errd/DumpTests.antt =====
-- A dump of 72 bytes that is stored into a directory, also where a temporary file was left.
use mathlib.Core.Bool.{true≢false}
use ppc64_diag.Errd.Dump.{is_same_type, path_fits, remove_dump_files, remove_loop, same_prefix}
use ppc64_diag.Errd.Dump.Processing.{
  Dump, Dumps, DumpStorage, behind_read, dump_get_file_name, dump_stored, listed, make_room,
  process_dump, read_loop, rename_new, retain, save_dump, still_reading, store_dump, string_of,
  tmp_name, unlink_all,
}
use ppc64_diag.Errd.Dump.Processing.Left.{Keeps, process_dump-Keeps}
use ppc64_diag.Errd.Dump.Processing.Stuck.{IsLeft, left, process_dump_stuck}
use ppc64_diag.Errd.Files.{same_name, starts_with}
use ppc64_diag.Errd.Files.Names.{same_name_refl}
use ppc64_diag.Base.{
  ◌≡◌, ◌≢◌, refl, sym, ap, ◌∙◌, arith, true, false, [], ◌∷◌, ◌++◌, some, replicate,
}
use ppc64_diag.Elog.Memory.{Bytes}

abbrev sysdump_9 : Bytes
sysdump_9 = b'S' ∷ b'Y' ∷ b'S' ∷ b'D' ∷ b'U' ∷ b'M' ∷ b'P' ∷ b'9' ∷ []

abbrev sysdump_1 : Bytes
sysdump_1 = b'S' ∷ b'Y' ∷ b'S' ∷ b'D' ∷ b'U' ∷ b'M' ∷ b'P' ∷ b'1' ∷ []

abbrev fspdump : Bytes
fspdump = b'F' ∷ b'S' ∷ b'P' ∷ b'D' ∷ b'U' ∷ b'M' ∷ b'P' ∷ []

abbrev dump_of : DumpStorage → Dump
dump_of storage = record {
  buf = replicate 24 0 ++ sysdump_9 ++ replicate 40 0;
  is_ready = true;
  reads = some 40 ∷ some 32 ∷ [];
  removable = λ name. true;
  can_create = true;
  storage = storage;
}

abbrev output : Dumps
output = (sysdump_1, 1 ∷ []) ∷ (fspdump, 2 ∷ []) ∷ []

named_9 : (storage : DumpStorage) → dump_get_file_name (dump_of storage).buf ≡ sysdump_9
unfolding dump_get_file_name string_of
named_9 storage = refl

-- With room for one dump the old one of the type goes.
stored :
    process_dump 1 20 (dump_of dump_stored) output
    ≡ some (true, (sysdump_9, (dump_of dump_stored).buf) ∷ (fspdump, 2 ∷ []) ∷ [])
unfolding process_dump behind_read read_loop save_dump dump_get_file_name string_of make_room
    unlink_all retain listed remove_dump_files remove_loop is_same_type path_fits same_prefix
    starts_with same_name store_dump rename_new
stored = refl

-- A file that is shorter than stat says.
endless : read_loop 72 0 (some 40 ∷ replicate 100 (some 0)) ≡ still_reading
unfolding read_loop
endless = refl

apart : (x y : Bytes) → same_name y x ≡ false → x ≢ y
apart x y h e = true≢false (sym (same_name_refl y) ∙ ap (same_name y) (sym e) ∙ h)

process_dump-Keeps_example : Keeps fspdump output (process_dump 1 20 (dump_of dump_stored) output)
unfolding dump_get_file_name string_of is_same_type same_prefix starts_with same_name
process_dump-Keeps_example =
    process_dump-Keeps 1 20 (dump_of dump_stored) fspdump output
      (refl, (refl, (refl, (refl, (refl, (refl, (refl, (refl, tt)))))))) (omega arith)
      (apart fspdump sysdump_9 refl) (apart fspdump (tmp_name sysdump_9) refl) refl

left_behind :
    IsLeft (dump_get_file_name (dump_of dump_stored).buf) ((tmp_name sysdump_9, 1 ∷ []) ∷ output)
unfolding dump_get_file_name string_of listed same_name
left_behind = left refl

process_dump_stuck_example :
    (after : Dumps) × (process_dump 4 20
        (dump_of dump_stored)
        ((tmp_name sysdump_9, 1 ∷ []) ∷ output)
      ≡ some (false, after))
    × IsLeft (dump_get_file_name (dump_of dump_stored).buf) after
unfolding read_loop
process_dump_stuck_example =
    process_dump_stuck 4 20 (dump_of dump_stored) ((tmp_name sysdump_9, 1 ∷ []) ∷ output)
      (omega arith) refl refl left_behind
