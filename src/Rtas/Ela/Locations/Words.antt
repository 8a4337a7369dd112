-- ===== src/Rtas/Ela/Locations/Words.antt =====
-- The locations that get_loc_code gives of a string of words with a blank between them.
use ppc64_diag.Rtas.Ela.Locations.{
  behind_word, count_locs, next_code, skip_blanks, visible, word_of,
}
use ppc64_diag.Base.{
  ℕ, ◌+◌, ◌≡◌, ◌≤◌, refl, ap, ◌∙◌, arith, ◌==◌, true, false, List, [], ◌∷◌, ◌++◌, Option, some,
  none, length, length-append,
}
use ppc64_diag.Elog.Memory.{Bytes}

-- No blank, and not the character that hides the rest.
abbrev pub Plain : Bytes → Type 0
Plain [] = Unit
Plain (c ∷ s) = ((c == b' ') ≡ false) × ((c == b'>') ≡ false) × Plain s

abbrev pub IsWord : Bytes → Type 0
IsWord [] = ⊥
IsWord (c ∷ s) = Plain (c ∷ s)

abbrev pub Words : List Bytes → Type 0
Words [] = Unit
Words (w ∷ ws) = IsWord w × Words ws

abbrev pub join : List Bytes → Bytes
join [] = []
join (w ∷ []) = w
join (w ∷ v ∷ ws) = w ++ b' ' ∷ join (v ∷ ws)

abbrev pub head : List Bytes → Option Bytes
head [] = none
head (w ∷ ws) = some w

abbrev pub tail : List Bytes → List Bytes
tail [] = []
tail (w ∷ ws) = ws

word_of_end : (w : Bytes) → Plain w → word_of w ≡ w
unfolding word_of
word_of_end [] h = refl
word_of_end (c ∷ s) h = rw (h.0) (ap (λ (r : Bytes). c ∷ r) (word_of_end s (h.2)))

word_of_blank : (w s : Bytes) → Plain w → word_of (w ++ b' ' ∷ s) ≡ w
unfolding word_of
word_of_blank [] s h = refl
word_of_blank (c ∷ w) s h = rw (h.0) (ap (λ (r : Bytes). c ∷ r) (word_of_blank w s (h.2)))

behind_word_end : (w : Bytes) → Plain w → behind_word w ≡ []
unfolding behind_word
behind_word_end [] h = refl
behind_word_end (c ∷ s) h = rw (h.0) (behind_word_end s (h.2))

behind_word_blank : (w s : Bytes) → Plain w → behind_word (w ++ b' ' ∷ s) ≡ s
unfolding behind_word
behind_word_blank [] s h = refl
behind_word_blank (c ∷ w) s h = rw (h.0) (behind_word_blank w s (h.2))

-- The next location of a string of words is its first word, and the others are left.
pub next_code-join : (ws : List Bytes) → Words ws → next_code (join ws) ≡ (head ws, join (tail ws))
unfolding next_code skip_blanks
next_code-join [] h = refl
next_code-join ([] ∷ ws) h = absurd (h.0)
next_code-join ((c ∷ w) ∷ []) h =
    rw (h.0.0) (rw (word_of_end (c ∷ w) (h.0), behind_word_end (c ∷ w) (h.0)) refl)
next_code-join ((c ∷ w) ∷ v ∷ ws) h = rw (h.0.0) (
    rw
      (word_of_blank (c ∷ w) (join (v ∷ ws)) (h.0), behind_word_blank (c ∷ w) (join (v ∷ ws)) (h.0))
      refl)

visible_word : (w s : Bytes) → Plain w → visible (w ++ s) ≡ w ++ visible s
unfolding visible
visible_word [] s h = refl
visible_word (c ∷ w) s h = rw (h.1) (ap (λ (r : Bytes). c ∷ r) (visible_word w s (h.2)))

word-Plain : (w : Bytes) → IsWord w → Plain w
word-Plain [] h = absurd h
word-Plain (c ∷ s) h = h

visible_end : (w : Bytes) → Plain w → visible w ≡ w
unfolding visible
visible_end [] h = refl
visible_end (c ∷ w) h = rw (h.1) (ap (λ (r : Bytes). c ∷ r) (visible_end w (h.2)))

-- A string of words has no hidden part.
pub visible-join : (ws : List Bytes) → Words ws → visible (join ws) ≡ join ws
unfolding visible
visible-join [] h = refl
visible-join (w ∷ []) h = visible_end w (word-Plain w (h.0))
visible-join (w ∷ v ∷ ws) h =
    visible_word w (b' ' ∷ join (v ∷ ws)) (word-Plain w (h.0))
    ∙ ap (λ (r : Bytes). w ++ b' ' ∷ r) (visible-join (v ∷ ws) (h.1))

count_word : (w s : Bytes) (n : ℕ) → Plain w → count_locs false n (w ++ s) ≡ count_locs false n s
unfolding count_locs
count_word [] s n h = refl
count_word (c ∷ w) s n h = rw (h.0, count_locs) (count_word w s n (h.2))

count_end : (w : Bytes) (n : ℕ) → Plain w → count_locs false n w ≡ n + 1
unfolding count_locs
count_end [] n h = refl
count_end (c ∷ w) n h = rw (h.0, count_locs) (count_end w n (h.2))

-- Each word is counted.
pub count_locs-join :
    (ws : List Bytes) (n : ℕ) → Words ws → count_locs true n (join ws) ≡ n + length ws
unfolding count_locs
count_locs-join [] n h = omega arith
count_locs-join ([] ∷ ws) n h = absurd (h.0)
count_locs-join ((c ∷ w) ∷ []) n h = rw (h.0.0, count_locs) (count_end w n (h.0.2))
count_locs-join ((c ∷ w) ∷ v ∷ ws) n h =
    rw (h.0.0, count_locs)
      (count_word w (b' ' ∷ join (v ∷ ws)) n (h.0.2)
        ∙ count_locs-join (v ∷ ws) (n + 1) (h.1)
        ∙ omega arith)

-- Each word takes a character.
pub length-join : (ws : List Bytes) → Words ws → length ws ≤ length (join ws)
length-join [] h = omega arith
length-join ([] ∷ ws) h = absurd (h.0)
length-join ((c ∷ w) ∷ []) h = omega arith
length-join ((c ∷ w) ∷ v ∷ ws) h =
    omega (arith, length-append {0} w (b' ' ∷ join (v ∷ ws)), length-join (v ∷ ws) (h.1))
