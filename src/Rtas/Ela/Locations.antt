-- ===== src/Rtas/Ela/Locations.antt =====
-- get_loc_code of rtas_errd/ela.c, and which locations are those of a planar or a processor.
pub mod Words
use ppc64_diag.Base.{
  ℕ, ◌+◌, ◌==◌, Bool, true, false, not, ◌&&◌, ◌||◌, if◌then◌else◌, List, [], ◌∷◌, Option, some,
  none,
}
use ppc64_diag.Elog.Memory.{Bytes}
use ppc64_diag.Rtas.Ela.State.{
  Copy, Crash, Run, State, crash, done, double_free, freed, live, unset,
}

-- LOC_CODES_OK.
unfoldable pub loc_codes_ok : Option Bytes → Bool
loc_codes_ok none = false
loc_codes_ok (some []) = false
loc_codes_ok (some (c ∷ s)) = true

-- The string up to LOC_HIDE_CHAR.
unfoldable pub visible : Bytes → Bytes
visible [] = []
visible (c ∷ s) = let rest = visible s in if c == b'>' then [] else c ∷ rest

-- The loop that counts, with `prev_space` and `*nlocs`.
unfoldable pub count_locs : Bool → ℕ → Bytes → ℕ
count_locs prev_space n [] = if prev_space then n else n + 1
count_locs prev_space n (c ∷ s) =
    count_locs (c == b' ') (if c == b' ' && not prev_space then n + 1 else n) s

unfoldable pub skip_blanks : Bytes → Bytes
skip_blanks [] = []
skip_blanks (c ∷ s) = let rest = skip_blanks s in if c == b' ' then rest else c ∷ s

unfoldable pub word_of : Bytes → Bytes
word_of [] = []
word_of (c ∷ s) = let rest = word_of s in if c == b' ' then [] else c ∷ rest

unfoldable pub behind_word : Bytes → Bytes
behind_word [] = []
behind_word (c ∷ s) = let rest = behind_word s in if c == b' ' then s else rest

-- The end of get_loc_code: the location at `start_loc`, and what stands behind it.
unfoldable pub next_code : Bytes → Option Bytes × Bytes
unfolding skip_blanks word_of behind_word
next_code [] = (none, [])
next_code (c ∷ s) = let t = skip_blanks (c ∷ s) in (some (word_of t), behind_word t)

-- get_loc_code with FIRST_LOC: the location, the number of locations, and the new state.
unfoldable pub first_loc : State → Run (Option Bytes × ℕ × State)
unfolding next_code count_locs
first_loc st = elim (st.loc_codes) [
  | none ↦ done (none, 0, st)
  | some [] ↦ done (none, 0, st)
  | some (c ∷ s) ↦ elim (st.copy) [
    | freed ↦ crash double_free
    | _ ↦
        let shown = visible (c ∷ s) in
        let (code, rest) = next_code shown in
        done (code, count_locs true 0 shown, record st { copy = live; rest = rest })
  ]
]

unfoldable pub holds : ℕ → Bytes → Bool
holds x [] = false
holds x (c ∷ s) = let rest = holds x s in if c == x then true else rest

-- The macros is_planar, is_cpu and is_not_fru, of a location that is there.
unfoldable pub is_planar : Bytes → Bool
unfolding holds
is_planar x = holds b'P' x && not (holds b'-' x) && not (holds b'/' x)

unfoldable pub is_cpu : Bytes → Bool
unfolding holds
is_cpu x = holds b'C' x
