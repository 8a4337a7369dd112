-- ===== src/Errd/Dump/Processing/Left.antt =====
-- What a new dump leaves in the output directory.
use ppc64_diag.Errd.Dump.{is_same_type, path_fits, remove_dump_files, remove_loop}
use ppc64_diag.Errd.Dump.Processing.{
  Dump, Dumps, DumpStorage, not_written, not_synced, not_renamed, no_directory, dump_stored,
  Reading, read_failed, read_all, still_reading, behind_read, dump_get_file_name, listed, make_room,
  process_dump, read_loop, rename_new, retain, save_dump, store_dump, tmp_name, unlink_all,
}
use ppc64_diag.Errd.Files.{same_name}
use ppc64_diag.Errd.Files.Names.{same_name_eq}
use mathlib.Core.Bool.{true≢false}
use ppc64_diag.Base.{
  ℕ, ◌+◌, ◌≡◌, ◌≢◌, refl, sym, ap, ◌∙◌, ltb, Bool, Bool-cases, true, false, not, ◌&&◌, ◌==◌,
  if◌then◌else◌, inl, inr, List, [], ◌∷◌, Option, some, none, length, map, take, ◌<◌,
}
use ppc64_diag.Elog.Memory.{Bytes}

unfoldable pub contents_of : Bytes → Dumps → Option Bytes
unfolding same_name
contents_of name [] = none
contents_of name (f ∷ fs) =
    let rest = contents_of name fs in if same_name f.0 name then some f.1 else rest

different : (x y : Bytes) → y ≢ x → same_name x y ≡ false
different x y h = elim (Bool-cases (same_name x y)) [
  | inl same ↦ absurd (h (sym (same_name_eq x y same)))
  | inr other ↦ other
]

retain-contents_of :
    (keep : Bytes → Bool) (name : Bytes) (dir : Dumps)
    → keep name ≡ true
    → contents_of name (retain keep dir) ≡ contents_of name dir
unfolding contents_of retain
retain-contents_of keep name [] h = refl
retain-contents_of keep name (f ∷ fs) h =
    let rest = retain-contents_of keep name fs h in
    elim (Bool-cases (keep f.0)) [
      | inl kept ↦ rw kept (ap (λ r. if same_name f.0 name then some f.1 else r) rest)
      | inr gone ↦ elim (Bool-cases (same_name f.0 name)) [
        | inl same ↦ absurd (true≢false (sym h ∙ ap keep (sym (same_name_eq f.0 name same)) ∙ gone))
        | inr other ↦ rw (gone, other) rest
      ]
    ]

pub never : (b : Bool) → not (b && false) ≡ true
never true = refl
never false = refl

only : (x name : Bytes) → name ≢ x → listed name (x ∷ []) ≡ false
unfolding listed
only x name h = rw (different x name h) refl

-- A file of another type is not removed.
remove_loop-listed :
    (opt_max_dump output_len count : ℕ) (dumpname name : Bytes) (names : List Bytes)
    → is_same_type dumpname name ≡ false
    → listed name (remove_loop opt_max_dump output_len dumpname count names) ≡ false
unfolding remove_loop listed
remove_loop-listed opt_max_dump output_len count dumpname name [] h = refl
remove_loop-listed opt_max_dump output_len count dumpname name (x ∷ xs) h =
    let other = remove_loop-listed opt_max_dump output_len count dumpname name xs h in
    let rest = remove_loop-listed opt_max_dump output_len (count + 1) dumpname name xs h in
    let r = remove_loop opt_max_dump output_len dumpname (count + 1) xs in
    elim (Bool-cases (is_same_type dumpname x)) [
      | inr not_same ↦ rw not_same other
      | inl same ↦
          let differs =
            different x name
              (λ e. true≢false (sym same ∙ ap (is_same_type dumpname) (sym e) ∙ h)) in
          rw same
            (elim (path_fits output_len x)
              as (λ b.
                listed name
                  (if not b then r else (if ltb (count + 1) opt_max_dump then r else x ∷ r))
                ≡ false) [
                  | false ↦ rest
                  | true ↦
                      elim (ltb (count + 1) opt_max_dump)
                        as (λ b. listed name (if b then r else x ∷ r) ≡ false) [
                          | true ↦ rest
                          | false ↦ rw differs rest
                        ]
                ])
    ]

unlink_all-contents_of :
    (removable : Bytes → Bool) (names : List Bytes) (name : Bytes) (dir : Dumps)
    → listed name names ≡ false
    → contents_of name (unlink_all removable names dir) ≡ contents_of name dir
unfolding unlink_all
unlink_all-contents_of removable names name dir h =
    retain-contents_of (λ n. not (removable n && listed n names)) name dir
      (rw h (never (removable name)))

rename_new-contents_of :
    (outfname name buf : Bytes) (dir : Dumps)
    → name ≢ outfname
    → contents_of name (rename_new outfname buf dir) ≡ contents_of name dir
unfolding rename_new contents_of
rename_new-contents_of outfname name buf dir h = rw (different outfname name h) (
    retain-contents_of (λ n. not (same_name n outfname)) name dir
      (ap not (different name outfname (λ e. h (sym e)))))

put_tmp-contents_of :
    (outfname name buf : Bytes) (dir : Dumps)
    → name ≢ tmp_name outfname
    → contents_of name ((tmp_name outfname, buf) ∷ dir) ≡ contents_of name dir
unfolding contents_of
put_tmp-contents_of outfname name buf dir h =
    ap (λ b. if b then some buf else contents_of name dir) (different (tmp_name outfname) name h)

make_room-contents_of :
    (opt_max_dump output_len : ℕ) (removable : Bytes → Bool) (outfname name : Bytes) (dir : Dumps)
    → name ≢ outfname
    → is_same_type outfname name ≡ false
    → contents_of name (make_room opt_max_dump output_len removable outfname dir)
      ≡ contents_of name dir
unfolding make_room remove_dump_files
make_room-contents_of opt_max_dump output_len removable outfname name dir h k =
    let rest = unlink_all removable (outfname ∷ []) dir in
    let names = map (λ f. f.0) rest in
    unlink_all-contents_of removable (remove_loop opt_max_dump output_len outfname 0 names) name
      rest (remove_loop-listed opt_max_dump output_len 0 outfname name names k)
    ∙ unlink_all-contents_of removable (outfname ∷ []) name dir (only outfname name h)

abbrev Same : Bytes → Dumps → Bool × Dumps → Type 0
Same name dir result = contents_of name result.1 ≡ contents_of name dir

store_dump-contents_of :
    (storage : DumpStorage) (removable : Bytes → Bool) (outfname name buf : Bytes) (dir : Dumps)
    → name ≢ outfname
    → name ≢ tmp_name outfname
    → contents_of name (store_dump storage removable outfname buf dir).1 ≡ contents_of name dir
unfolding store_dump
store_dump-contents_of (not_written n) removable outfname name buf dir h k =
    elim (removable (tmp_name outfname))
      as (λ b.
        Same name dir
          (if b then (false, dir) else (false, (tmp_name outfname, take n buf) ∷ dir))) [
            | true ↦ refl
            | false ↦ put_tmp-contents_of outfname name (take n buf) dir k
          ]
store_dump-contents_of not_synced removable outfname name buf dir h k =
    put_tmp-contents_of outfname name buf dir k
store_dump-contents_of not_renamed removable outfname name buf dir h k =
    put_tmp-contents_of outfname name buf dir k
store_dump-contents_of no_directory removable outfname name buf dir h k =
    rename_new-contents_of outfname name buf dir h
store_dump-contents_of dump_stored removable outfname name buf dir h k =
    rename_new-contents_of outfname name buf dir h

save_dump-contents_of :
    (opt_max_dump output_len : ℕ) (d : Dump) (name : Bytes) (dir : Dumps)
    → name ≢ dump_get_file_name d.buf
    → name ≢ tmp_name (dump_get_file_name d.buf)
    → is_same_type (dump_get_file_name d.buf) name ≡ false
    → contents_of name (save_dump opt_max_dump output_len d dir).1 ≡ contents_of name dir
unfolding save_dump
save_dump-contents_of opt_max_dump output_len d name dir h k t =
    let outfname = dump_get_file_name d.buf in
    let rest = make_room opt_max_dump output_len d.removable outfname dir in
    let stored = store_dump d.storage d.removable outfname d.buf rest in
    let room = make_room-contents_of opt_max_dump output_len d.removable outfname name dir h t in
    elim (listed (tmp_name outfname) (map (λ f. f.0) rest))
      as (λ b.
        contents_of name
          (if b then (false, rest) else (if not d.can_create then (false, rest) else stored)).1
        ≡ contents_of name dir) [
          | true ↦ room
          | false ↦
              elim (d.can_create)
                as (λ b.
                  contents_of name (if not b then (false, rest) else stored).1
                  ≡ contents_of name dir) [
                    | false ↦ room
                    | true ↦
                        store_dump-contents_of d.storage d.removable outfname name d.buf rest h k
                        ∙ room
                  ]
        ]

-- It returns with the file as it was, or still reads.
unfoldable pub Keeps : Bytes → Dumps → Option (Bool × Dumps) → Type 0
Keeps name dir none = Unit
Keeps name dir (some result) = contents_of name result.1 ≡ contents_of name dir

behind_read-Keeps :
    (opt_max_dump output_len : ℕ) (d : Dump) (name : Bytes) (dir : Dumps) (r : Reading)
    → Same name dir (save_dump opt_max_dump output_len d dir)
    → Keeps name dir (behind_read opt_max_dump output_len d dir r)
unfolding behind_read Keeps
behind_read-Keeps opt_max_dump output_len d name dir read_failed h = refl
behind_read-Keeps opt_max_dump output_len d name dir read_all h = h
behind_read-Keeps opt_max_dump output_len d name dir still_reading h = tt

-- A name without a '/', which names a file of the output directory itself.
abbrev pub IsFileName : Bytes → Type 0
IsFileName [] = Unit
IsFileName (c ∷ s) = ((c == b'/') ≡ false) × IsFileName s

-- Let the name in the header of the new dump have no '/', and let the path of its temporary file
-- fit in PATH_MAX. A file in the output directory that is of another type than the new dump, and
-- has neither its name nor that of its temporary file, has the same contents behind process_dump,
-- unless process_dump still reads.
pub process_dump-Keeps :
    (opt_max_dump output_len : ℕ) (d : Dump) (name : Bytes) (dir : Dumps)
    → IsFileName (dump_get_file_name d.buf)
    → output_len + 1 + length (tmp_name (dump_get_file_name d.buf)) < 4096
    → name ≢ dump_get_file_name d.buf
    → name ≢ tmp_name (dump_get_file_name d.buf)
    → is_same_type (dump_get_file_name d.buf) name ≡ false
    → Keeps name dir (process_dump opt_max_dump output_len d dir)
unfolding process_dump Keeps
process_dump-Keeps opt_max_dump output_len d name dir plain fits h k t =
    let results = read_loop (length d.buf) 0 d.reads in
    let saved = save_dump-contents_of opt_max_dump output_len d name dir h k t in
    elim (d.is_ready)
      as (λ b.
        Keeps name dir
          (if b then behind_read opt_max_dump output_len d dir results else some (false, dir))) [
            | true ↦ behind_read-Keeps opt_max_dump output_len d name dir results saved
            | false ↦ refl
          ]
