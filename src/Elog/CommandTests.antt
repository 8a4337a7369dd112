-- ===== src/Elog/CommandTests.antt =====
-- Files on which the command opal-elog-parse runs.
use ppc64_diag.Elog.Command.{elogdisplayentry}
use ppc64_diag.Elog.Command.Shown.{
  NoEsel, elogdisplayentry_lem, first_with_id, readable, up_to_stop,
}
use ppc64_diag.Elog.Parse.{Heap}
use ppc64_diag.Base.{ℕ, ◌≡◌, refl, true, false, List, [], ◌∷◌, ◌++◌, Option, some, none, replicate}
use ppc64_diag.Elog.Header.{is_esel_header}
use ppc64_diag.Elog.Memory.{Bytes, ok, u32, field}

-- A log of 48 bytes, with its id in the last four.
abbrev log_of : ℕ → Bytes
log_of id = replicate 47 0 ++ id ∷ []

abbrev files : List (Option Bytes)
files = some (log_of 7) ∷ none ∷ some (log_of 9) ∷ []

files-NoEsel : NoEsel files
unfolding is_esel_header field
files-NoEsel = (refl, (refl, tt))

abbrev heap : Heap
heap = record { log = true; section = λ n. true; word = 0 }

elogdisplayentry_lem_example :
    (elogdisplayentry heap 9 false files ≡ ok (first_with_id 9 (readable files)))
    × (elogdisplayentry heap 9 true files ≡ ok (up_to_stop heap (readable files)))
elogdisplayentry_lem_example = elogdisplayentry_lem heap 9 files files-NoEsel

-- An eSEL with an id.
abbrev esel_of : ℕ → Bytes
esel_of id = 0 ∷ 0 ∷ 0xdf ∷ (replicate 10 0 ++ 0xaa ∷ (replicate 49 0 ++ id ∷ replicate 20 0))

esel_header : (id : ℕ) → is_esel_header (esel_of id) 0 ≡ ok true
unfolding is_esel_header field
esel_header id = refl

first_id : u32 (esel_of 7) 0x3c ≡ ok 7
unfolding field
first_id = refl

second_word : u32 (esel_of 9) 0x4c ≡ ok 0
unfolding field
second_word = refl

summary_no_esel : is_esel_header (replicate 128 0) 0 ≡ ok false
unfolding is_esel_header field
summary_no_esel = refl
