-- ===== src/Errd/Process/Round.antt =====
-- What one round of the daemon does to the files that it finds.
use ppc64_diag.Errd.Rotate.Trim.{rotate_logs_lem, unless}
use ppc64_diag.Errd.Process.Stored.{process_elog-other}
use ppc64_diag.Errd.Process.{
  ack_elog, process_elog, Elog, Limits, Retval, World, count, find_and_read_elog_events, is_log,
  main_round, output_name, read_entry, rotate_if,
}
use ppc64_diag.Errd.Files.{Directory, ElogType, File, informational, lookup, serviceable}
use ppc64_diag.Base.{
  ℕ, ap, arith, ◌≡◌, ◌≢◌, ◌⊎◌, refl, ◌∙◌, Bool, true, false, inl, inr, List, [], ◌∷◌, Option, none,
}
use ppc64_diag.Elog.Memory.{Bytes}

-- None of the logs may be stored under the name.
abbrev pub IsNoOutput : Bytes → List Elog → Type 0
IsNoOutput name [] = Unit
IsNoOutput name (e ∷ es) =
    (name ≢ output_name e serviceable) × (name ≢ output_name e informational) × IsNoOutput name es

either_type :
    (name : Bytes) (e : Elog)
    → name ≢ output_name e serviceable
    → name ≢ output_name e informational
    → (t : ElogType) → name ≢ output_name e t
either_type name e s i serviceable = s
either_type name e s i informational = i

ack_elog-dir : (elog_dir : Bytes) (e : Elog) (w : World) → (ack_elog elog_dir e w).dir ≡ w.dir
unfolding ack_elog
ack_elog-dir elog_dir e w = ground arith

read_entry-other :
    (log : Bool) (elog_dir output name : Bytes) (e : Elog) (s : Retval × World)
    → name ≢ output_name e serviceable
    → name ≢ output_name e informational
    → lookup name (read_entry log elog_dir output e s).1.dir ≡ lookup name s.1.dir
unfolding read_entry
read_entry-other true elog_dir output name e s n i =
    let processed = process_elog elog_dir output e s.1 in
    ap (lookup name) (ack_elog-dir elog_dir e processed.1)
    ∙ process_elog-other elog_dir output name e s.1 (either_type name e n i)
read_entry-other false elog_dir output name e s n i = refl

find_and_read_elog_events-other :
    (elog_dir output name : Bytes) (elogs : List Elog) (s : Retval × World)
    → IsNoOutput name elogs
    → lookup name (find_and_read_elog_events elog_dir output elogs s).1.dir ≡ lookup name s.1.dir
unfolding find_and_read_elog_events
find_and_read_elog_events-other elog_dir output name [] s n = refl
find_and_read_elog_events-other elog_dir output name (e ∷ es) s n =
    find_and_read_elog_events-other elog_dir output name es
      (read_entry (is_log elog_dir e) elog_dir output e s) n.2
    ∙ read_entry-other (is_log elog_dir e) elog_dir output name e s n.0 n.1

-- The file is there as before, or gone.
abbrev pub KeptOrGone : Option File → Option File → Type 0
KeptOrGone before after = (after ≡ before) ⊎ (after ≡ none)

unless-KeptOrGone : (gone : Bool) (file : Option File) → KeptOrGone file (unless gone file)
unless-KeptOrGone true file = inr refl
unless-KeptOrGone false file = inl refl

rotate_if-KeptOrGone :
    (alphasort : List File → List File) (may_remove : Bytes → Bool) (flag : Bool) (max_logs : ℕ)
    (t : ElogType) (dir : Directory) (name : Bytes)
    → KeptOrGone
        (lookup name dir)
        (lookup name (rotate_if alphasort may_remove flag max_logs t dir))
rotate_if-KeptOrGone alphasort may_remove false max_logs t dir name = inl refl
rotate_if-KeptOrGone alphasort may_remove true max_logs t dir name =
    rw (rotate_logs_lem alphasort may_remove dir max_logs t name)
      (unless-KeptOrGone _ (lookup name dir))

KeptOrGone-trans : (a b c : Option File) → KeptOrGone a b → KeptOrGone b c → KeptOrGone a c
KeptOrGone-trans a b c (inl e) (inl f) = inl (f ∙ e)
KeptOrGone-trans a b c (inr e) (inl f) = inr (f ∙ e)
KeptOrGone-trans a b c h (inr f) = inr f

-- Let a name be none that a log of this round may be stored under. After the round, the file of
-- this name is as it was, or it is gone.
pub main_round-KeptOrGone :
    (alphasort : List File → List File) (may_remove : Bytes → Bool) (max : Limits)
    (elog_dir output name : Bytes) (elogs : List Elog) (w : World)
    → IsNoOutput name elogs
    → KeptOrGone
        (lookup name w.dir)
        (lookup name (main_round alphasort may_remove max elog_dir output elogs w).dir)
unfolding main_round
main_round-KeptOrGone alphasort may_remove max elog_dir output name elogs w n =
    let start = record w { flags = record { srvc = false; info = false } } in
    let read = (find_and_read_elog_events elog_dir output elogs (count 0, start)).1 in
    let srvc =
      rotate_if alphasort may_remove read.flags.srvc max.max_serviceable_logs serviceable
        read.dir in
    KeptOrGone-trans (lookup name w.dir) (lookup name srvc) _
      (KeptOrGone-trans (lookup name w.dir) (lookup name read.dir) (lookup name srvc)
        (inl (find_and_read_elog_events-other elog_dir output name elogs (count 0, start) n))
        (rotate_if-KeptOrGone alphasort may_remove read.flags.srvc max.max_serviceable_logs
          serviceable read.dir name))
      (rotate_if-KeptOrGone alphasort may_remove read.flags.info max.max_info_logs informational
        srvc name)
