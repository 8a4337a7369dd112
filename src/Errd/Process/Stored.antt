-- ===== src/Errd/Process/Stored.antt =====
-- What stands in the output directory after a log was processed.
use ppc64_diag.Errd.Classify.{Report, parse_log}
use ppc64_diag.Errd.Files.Names.{same_name_eq, same_name_refl, get_elog_filetype-suffix}
use ppc64_diag.Errd.Process.{
  limits, put, Elog, RotateFlags, World, all_stored, output_name, process_elog, process_parsed,
  process_raw, set_flag, store, store_log, Storage, not_created, not_synced, short_write,
}
use ppc64_diag.Errd.Files.{
  Directory, File, lookup, same_name, ElogType, get_elog_filetype, informational, serviceable,
  elog_type_str,
}
use mathlib.Core.List.{append-nil, append_assoc}
use ppc64_diag.Base.{
  ℕ, ◌+◌, ◌≤◌, ◌<◌, ◌≡◌, ◌≢◌, refl, arith, sym, ◌∙◌, ap, Bool, true, false, leb, inl, inr, [], ◌∷◌,
  ◌++◌, Option, some, none, length, take, drop, Bool-cases,
}
use ppc64_diag.Elog.Memory.{Bytes, ok, Outcome, error, fault}

lookup-put_other :
    (name other contents : Bytes) (dir : Directory)
    → same_name name other ≡ false
    → lookup name (put other contents dir) ≡ lookup name dir
unfolding lookup put
lookup-put_other name other contents [] e = ground arith
lookup-put_other name other contents (f ∷ fs) e = ground (
  arith,
  lookup-put_other name other contents fs e,
  same_name_eq other f.name,
  same_name_eq name f.name,
)

-- The bytes that stand in a file.
abbrev pub contents_of : Option File → Bytes
contents_of none = []
contents_of (some f) = f.data_of

put_new : (contents : Bytes) → contents ≡ contents ++ drop (length contents) []
put_new [] = refl
put_new (c ∷ contents) = ap (λ s. c ∷ s) (sym (append-nil contents))

output_name-filetype :
    (elog : Elog) (t : ElogType) → get_elog_filetype (output_name elog t) ≡ some t
unfolding output_name
output_name-filetype elog t =
    let dash = b'-' ∷ [] in
    ap get_elog_filetype (
      ap (λ s. elog.stamp ++ b'-' ∷ s) (sym (append_assoc elog.name dash (elog_type_str t)))
      ∙ sym (append_assoc elog.stamp (b'-' ∷ (elog.name ++ dash)) (elog_type_str t)))
    ∙ get_elog_filetype-suffix (elog.stamp ++ b'-' ∷ (elog.name ++ dash)) t

lookup-put :
    (name contents : Bytes) (dir : Directory)
    → contents_of (lookup name (put name contents dir))
      ≡ contents ++ drop (length contents) (contents_of (lookup name dir))
unfolding lookup put
lookup-put name contents [] = rw (same_name_refl name) (ground (arith, put_new contents))
lookup-put name contents (f ∷ fs) =
    ground (arith, lookup-put name contents fs, same_name_eq name f.name, same_name_refl name)

record_flag : ElogType → RotateFlags → Bool
record_flag serviceable flags = flags.srvc
record_flag informational flags = flags.info

-- Let a log be read and parsed, let the paths fit, and let the kernel store all of it. Then
-- process_elog returns 0, the file that it named holds the log, before what an older file of the
-- name held behind it, the name's suffix is the log's type, and this type will be rotated.
pub process_elog_stored :
    (elog_dir output contents : Bytes) (elog : Elog) (w : World) {report : Report}
    → length elog_dir + 1 + length elog.name + 4 < 4096
    → length output + 1 + length (output_name elog report.elog_type) < 4096
    → elog.raw ≡ some contents
    → parse_log contents ≡ ok report
    → elog.storage ≡ all_stored
    → let r = process_elog elog_dir output elog w in
      let name = output_name elog report.elog_type in
      (r.0 ≡ true)
      × (contents_of (lookup name r.1.dir)
          ≡ contents ++ drop (length contents) (contents_of (lookup name w.dir)))
      × (get_elog_filetype name ≡ some report.elog_type)
      × (r.1.flags ≡ set_flag report.elog_type w.flags)
unfolding process_elog process_raw process_parsed store_log store output_name lookup
    get_elog_filetype set_flag
process_elog_stored elog_dir output contents elog w {report} h k raw parsed stored =
    let name = output_name elog report.elog_type in
    let short : leb 4096 (length elog_dir + 1 + length elog.name + 4) ≡ false = ground arith in
    let fits_path : leb 4096 (length output + 1 + length name) ≡ false = ground arith in
    rw (short, raw, parsed, process_elog)
      (rw (fits_path, stored, process_elog)
        (refl, lookup-put name contents w.dir, output_name-filetype elog report.elog_type, refl))

store-other :
    (storage : Storage) (name other contents : Bytes) (dir : Directory)
    → same_name name other ≡ false
    → lookup name (store storage other contents dir) ≡ lookup name dir
unfolding store
store-other not_created name other contents dir e = refl
store-other (short_write n) name other contents dir e =
    lookup-put_other name other (take n contents) dir e
store-other not_synced name other contents dir e = lookup-put_other name other contents dir e
store-other all_stored name other contents dir e = lookup-put_other name other contents dir e

not_same : (s t : Bytes) → s ≢ t → same_name s t ≡ false
not_same s t n = elim (Bool-cases (same_name s t)) [
  | inl same ↦ absurd (n (same_name_eq s t same))
  | inr other ↦ other
]

store_log-other :
    (output name contents : Bytes) (elog : Elog) (t : ElogType) (w : World)
    → name ≢ output_name elog t
    → lookup name (store_log output elog contents t w).1.dir ≡ lookup name w.dir
unfolding store_log
store_log-other output name contents elog t w n = ground (
  arith,
  store-other elog.storage name (output_name elog t) contents w.dir
      (not_same name (output_name elog t) n),
)

process_parsed-other :
    (output name contents : Bytes) (elog : Elog) (w : World) (r : Outcome Report)
    → ((t : ElogType) → name ≢ output_name elog t)
    → lookup name (process_parsed output elog contents w r).1.dir ≡ lookup name w.dir
unfolding process_parsed
process_parsed-other output name contents elog w (ok report) n =
    store_log-other output name contents elog report.elog_type w (n report.elog_type)
process_parsed-other output name contents elog w (error e) n = refl
process_parsed-other output name contents elog w (fault x) n = refl

process_raw-other :
    (output name : Bytes) (elog : Elog) (w : World) (raw : Option Bytes)
    → ((t : ElogType) → name ≢ output_name elog t)
    → lookup name (process_raw output elog w raw).1.dir ≡ lookup name w.dir
unfolding process_raw
process_raw-other output name elog w none n = refl
process_raw-other output name elog w (some contents) n =
    process_parsed-other output name contents elog w (parse_log contents) n

-- Processing a log touches no file of another name than the two that the log may be given, however
-- far it gets.
pub process_elog-other :
    (elog_dir output name : Bytes) (elog : Elog) (w : World)
    → ((t : ElogType) → name ≢ output_name elog t)
    → lookup name (process_elog elog_dir output elog w).1.dir ≡ lookup name w.dir
unfolding process_elog
process_elog-other elog_dir output name elog w n =
    ground (arith, process_raw-other output name elog w elog.raw n)

-- The limits that main takes by default never keep more logs than the user asked for, and at most
-- one less.
limits_default :
    (n : ℕ)
    → ((limits n 0).max_serviceable_logs + (limits n 0).max_info_logs ≤ n)
      × (n ≤ (limits n 0).max_serviceable_logs + (limits n 0).max_info_logs + 1)
unfolding limits
limits_default n = (omega arith, omega arith)
