-- ===== src/Errd/Dump/Processing/Stuck.antt =====
-- What a temporary file that was left does to the next dump of its name.
use ppc64_diag.Errd.Dump.{is_same_type, path_fits, remove_dump_files, remove_loop}
use ppc64_diag.Errd.Dump.Processing.{
  Dump, Dumps, read_all, behind_read, dump_get_file_name, listed, make_room, process_dump,
  read_loop, retain, save_dump, tmp_name, unlink_all,
}
use ppc64_diag.Errd.Files.{same_name}
use ppc64_diag.Errd.Files.Names.{same_name_refl}
use ppc64_diag.Errd.Dump.Processing.Left.{never}
use mathlib.Core.Bool.{true≢false}
use ppc64_diag.Base.{
  ℕ, ◌+◌, ◌≡◌, ◌<◌, refl, sym, subst, arith, ltb, Bool, true, false, not, ◌&&◌, if◌then◌else◌, List,
  [], ◌∷◌, ◌++◌, some, length, map, lt→ltb,
}
use ppc64_diag.Elog.Memory.{Bytes}

abbrev pub names : Dumps → List Bytes
names dir = map (λ f. f.0) dir

longer : (s t : Bytes) (c : ℕ) → same_name s (s ++ c ∷ t) ≡ false
unfolding same_name
longer [] t c = refl
longer (x ∷ s) t c = ground (arith, longer s t c)

neither : (b c : Bool) → (if b then true else c) ≡ false → (b ≡ false) × (c ≡ false)
neither true c h = absurd (true≢false h)
neither false c h = (refl, h)

unlisted_alone : (s t : Bytes) (c : ℕ) → listed (s ++ c ∷ t) (s ∷ []) ≡ false
unfolding listed
unlisted_alone s t c = rw (longer s t c) refl

listed-skip :
    (name x : Bytes) (xs : List Bytes) → listed name (x ∷ xs) ≡ false → listed name xs ≡ false
unfolding listed
listed-skip name x xs h = (neither (same_name x name) (listed name xs) h).1

listed-keep :
    (name x : Bytes) (xs ys : List Bytes)
    → listed name (x ∷ xs) ≡ false
    → listed name ys ≡ false
    → listed name (x ∷ ys) ≡ false
unfolding listed
listed-keep name x xs ys h k = rw ((neither (same_name x name) (listed name xs) h).0) k

retain-listed :
    (keep : Bytes → Bool) (name : Bytes) (dir : Dumps)
    → listed name (names dir) ≡ false
    → listed name (names (retain keep dir)) ≡ false
unfolding retain
retain-listed keep name [] h = h
retain-listed keep name (f ∷ fs) h =
    let rest = retain-listed keep name fs (listed-skip name f.0 (names fs) h) in
    elim (keep f.0)
      as (λ b. listed name (names (if b then f ∷ retain keep fs else retain keep fs)) ≡ false) [
        | true ↦ listed-keep name f.0 (names fs) (names (retain keep fs)) h rest
        | false ↦ rest
      ]

remove_loop_unlisted :
    (opt_max_dump output_len count : ℕ) (dumpname name : Bytes) (xs : List Bytes)
    → listed name xs ≡ false
    → listed name (remove_loop opt_max_dump output_len dumpname count xs) ≡ false
unfolding remove_loop
remove_loop_unlisted opt_max_dump output_len count dumpname name [] h = h
remove_loop_unlisted opt_max_dump output_len count dumpname name (x ∷ xs) h =
    let tail = listed-skip name x xs h in
    let other = remove_loop_unlisted opt_max_dump output_len count dumpname name xs tail in
    let rest = remove_loop_unlisted opt_max_dump output_len (count + 1) dumpname name xs tail in
    let o = remove_loop opt_max_dump output_len dumpname count xs in
    let r = remove_loop opt_max_dump output_len dumpname (count + 1) xs in
    elim (is_same_type dumpname x)
      as (λ b.
        listed name (
          if not b
          then o
          else if not (path_fits output_len x)
          then r
          else if ltb (count + 1) opt_max_dump
          then r
          else x ∷ r)
        ≡ false) [
          | false ↦ other
          | true ↦
              elim (path_fits output_len x)
                as (λ b.
                  listed name
                    (if not b then r else (if ltb (count + 1) opt_max_dump then r else x ∷ r))
                  ≡ false) [
                    | false ↦ rest
                    | true ↦
                        elim (ltb (count + 1) opt_max_dump)
                          as (λ b. listed name (if b then r else x ∷ r) ≡ false) [
                            | true ↦ rest
                            | false ↦ listed-keep name x xs r h rest
                          ]
                  ]
        ]

-- The newest file is kept.
remove_loop_newest :
    (opt_max_dump output_len : ℕ) (dumpname name : Bytes) (xs : List Bytes)
    → 1 < opt_max_dump
    → listed name xs ≡ false
    → listed name (remove_loop opt_max_dump output_len dumpname 0 (name ∷ xs)) ≡ false
unfolding remove_loop
remove_loop_newest opt_max_dump output_len dumpname name xs m h =
    let other = remove_loop_unlisted opt_max_dump output_len 0 dumpname name xs h in
    let rest = remove_loop_unlisted opt_max_dump output_len 1 dumpname name xs h in
    let o = remove_loop opt_max_dump output_len dumpname 0 xs in
    let r = remove_loop opt_max_dump output_len dumpname 1 xs in
    rw (lt→ltb 1 opt_max_dump m)
      (elim (is_same_type dumpname name)
        as (λ b.
          listed name (if not b then o else (if not (path_fits output_len name) then r else r))
          ≡ false) [
            | false ↦ other
            | true ↦
                elim (path_fits output_len name)
                  as (λ b. listed name (if not b then r else r) ≡ false) [
                    | false ↦ rest
                    | true ↦ rest
                  ]
          ])

-- unlink_all keeps the newest file where its name is not one of the list.
unlink_all_newest :
    (removable : Bytes → Bool) (gone : List Bytes) (name contents : Bytes) (dir : Dumps)
    → listed name gone ≡ false
    → unlink_all removable gone ((name, contents) ∷ dir)
      ≡ (name, contents) ∷ unlink_all removable gone dir
unfolding unlink_all retain
unlink_all_newest removable gone name contents dir h = rw (h, never (removable name)) refl

unlink_all-listed :
    (removable : Bytes → Bool) (gone : List Bytes) (name : Bytes) (dir : Dumps)
    → listed name (names dir) ≡ false
    → listed name (names (unlink_all removable gone dir)) ≡ false
unfolding unlink_all
unlink_all-listed removable gone name dir h =
    retain-listed (λ n. not (removable n && listed n gone)) name dir h

-- The newest file is the temporary one of this name, and the only one.
pub data IsLeft : Bytes → Dumps → Type 0 where
  left :
      {outfname contents : Bytes} {rest : Dumps}
      → listed (tmp_name outfname) (names rest) ≡ false
      → IsLeft outfname ((tmp_name outfname, contents) ∷ rest)

make_room-IsLeft :
    (opt_max_dump output_len : ℕ) (removable : Bytes → Bool) (outfname : Bytes) (dir : Dumps)
    → 1 < opt_max_dump
    → IsLeft outfname dir
    → IsLeft outfname (make_room opt_max_dump output_len removable outfname dir)
unfolding make_room remove_dump_files
make_room-IsLeft opt_max_dump output_len removable outfname _ m (left {contents} {rest} h) =
    let tmp = tmp_name outfname in
    let first = unlink_all removable (outfname ∷ []) rest in
    let unlisted = unlink_all-listed removable (outfname ∷ []) tmp rest h in
    let gone = remove_loop opt_max_dump output_len outfname 0 (tmp ∷ names first) in
    let e =
      unlink_all_newest removable (outfname ∷ []) tmp contents rest
        (unlisted_alone outfname (b't' ∷ b'm' ∷ b'p' ∷ []) b'.') in
    let e' =
      unlink_all_newest removable gone tmp contents first
        (remove_loop_newest opt_max_dump output_len outfname tmp (names first) m unlisted) in
    subst
      (λ x.
        IsLeft outfname
          (unlink_all removable (remove_loop opt_max_dump output_len outfname 0 (names x)) x))
      (sym e)
      (subst (IsLeft outfname) (sym e')
        (left (unlink_all-listed removable gone tmp first unlisted)))

IsLeft-listed :
    (outfname : Bytes) (dir : Dumps)
    → IsLeft outfname dir
    → listed (tmp_name outfname) (names dir) ≡ true
unfolding listed
IsLeft-listed outfname _ (left h) = rw (same_name_refl (tmp_name outfname)) refl

-- A temporary file that was left as the newest file stops each later dump of its name, where at
-- least two dumps are kept: process_dump fails, and the file is still there and the newest one.
pub process_dump_stuck :
    (opt_max_dump output_len : ℕ) (d : Dump) (dir : Dumps)
    → 1 < opt_max_dump
    → d.is_ready ≡ true
    → read_loop (length d.buf) 0 d.reads ≡ read_all
    → IsLeft (dump_get_file_name d.buf) dir
    → (after : Dumps) × (process_dump opt_max_dump output_len d dir ≡ some (false, after))
      × IsLeft (dump_get_file_name d.buf) after
unfolding process_dump behind_read save_dump
process_dump_stuck opt_max_dump output_len d dir m ready whole l =
    let outfname = dump_get_file_name d.buf in
    let after = make_room opt_max_dump output_len d.removable outfname dir in
    let l' = make_room-IsLeft opt_max_dump output_len d.removable outfname dir m l in
    (after, rw (ready, whole, IsLeft-listed outfname after l') refl, l')
