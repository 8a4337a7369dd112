-- ===== src/Rtas/Ela/Report/Batches.antt =====
-- The loops of report_srn on a string of words: the callouts that each batch of FRUs makes.
use ppc64_diag.Rtas.Ela.Report.{
  callout_loop, fill_frus, fill_more, get_refcode, or_na, percent_table, refcode_fname, set_confs,
  set_fru_percentages,
}
use ppc64_diag.Rtas.Ela.Locations.Words.{Words, head, join, next_code-join, tail}
use ppc64_diag.Rtas.Ela.Description.{Fru, no_fru}
use ppc64_diag.Rtas.Ela.State.{Callout, done}
use ppc64_diag.Errd.Files.{same_name}
use ppc64_diag.Base.{
  ℕ, zero, suc, ◌≡◌, ◌≤◌, ◌<◌, refl, ap, arith, ltb, lt→ltb, ◌==◌, false, if◌then◌else◌, List, [],
  ◌∷◌, Option, some, none, map, length, take, drop, drop_all, get_or, replicate,
}
use ppc64_diag.Elog.Memory.{Bytes}

-- Each word fits in `floc`.
abbrev pub Short : List Bytes → Type 0
Short [] = Unit
Short (w ∷ ws) = (length w < 80) × Short ws

-- No FRU is named as one of a reference code.
abbrev pub Unmarked : List Fru → Type 0
Unmarked [] = Unit
Unmarked (f ∷ fs) = (same_name f.fname refcode_fname ≡ false) × Unmarked fs

-- The callout of a location.
abbrev pub callout_at : (Bytes → Option Bytes) → Bytes → Callout
callout_at fru_pn l = record { procedure = none; location = l; part_number = or_na (fru_pn l) }

-- The FRUs with a location each, as far as there are locations.
abbrev pub with_locs : List Fru → List Bytes → List Fru
with_locs [] ws = []
with_locs (f ∷ fs) [] = record f { fmsg = 36 } ∷ with_locs fs []
with_locs (f ∷ fs) (w ∷ ws) = record f { floc = w; fmsg = 36 } ∷ with_locs fs ws

pub Words-tail : (ws : List Bytes) → Words ws → Words (tail ws)
Words-tail [] h = tt
Words-tail (w ∷ ws) h = h.1

pub Words-drop : (n : ℕ) (ws : List Bytes) → Words ws → Words (drop n ws)
Words-drop zero ws h = h
Words-drop (suc n) [] h = tt
Words-drop (suc n) (w ∷ ws) h = Words-drop n ws (h.1)

pub Short-drop : (n : ℕ) (ws : List Bytes) → Short ws → Short (drop n ws)
Short-drop zero ws h = h
Short-drop (suc n) [] h = tt
Short-drop (suc n) (w ∷ ws) h = Short-drop n ws (h.1)

pub fill_frus-join :
    (fs : List Fru) (ws : List Bytes)
    → Words ws
    → Short ws
    → fill_frus fs (head ws) (join (tail ws))
      ≡ done (with_locs fs ws, head (drop (length fs) ws), join (tail (drop (length fs) ws)))
unfolding fill_frus
fill_frus-join [] ws h k = refl
fill_frus-join (f ∷ fs) [] h k =
    rw (fill_frus-join fs [] tt tt) (rw (drop_all {A = Bytes} (length fs) [] (omega arith)) refl)
fill_frus-join (f ∷ fs) (w ∷ ws) h k =
    rw (lt→ltb (length w) 80 (k.0))
      (rw (next_code-join ws (h.1)) (rw (fill_frus-join fs ws (h.1) (k.1)) refl))

pub take_short : (n : ℕ) (w : Bytes) → length w ≤ n → take n w ≡ w
take_short zero [] h = refl
take_short zero (c ∷ w) h = absurd (omega arith)
take_short (suc n) [] h = refl
take_short (suc n) (c ∷ w) h = ap (λ (r : Bytes). c ∷ r) (take_short n w (omega arith))

pub fill_more-join :
    (n : ℕ) (ws : List Bytes)
    → Words ws
    → Short ws
    → fill_more n (head ws) (join (tail ws))
      ≡ (with_locs (replicate n no_fru) ws, head (drop n ws), join (tail (drop n ws)))
unfolding fill_more
fill_more-join zero ws h k = refl
fill_more-join (suc n) [] h k =
    rw (fill_more-join n [] tt tt) (rw (drop_all {A = Bytes} n [] (omega arith)) refl)
fill_more-join (suc n) (w ∷ ws) h k =
    rw (next_code-join ws (h.1))
      (rw (fill_more-join n ws (h.1) (k.1)) (rw (take_short 79 w (omega arith)) refl))

-- The percentages of the first `n` FRUs are not 0.
abbrev NonZero : ℕ → List ℕ → Type 0
NonZero zero ps = Unit
NonZero (suc n) [] = ⊥
NonZero (suc n) (p ∷ ps) = ((p == 0) ≡ false) × NonZero n ps

-- A count that tells FRUs with a location from the others.
abbrev Covers : ℕ → List Fru → List Bytes → Type 0
Covers n [] ws = Unit
Covers n (f ∷ fs) [] = n ≡ 0
Covers zero (f ∷ fs) (w ∷ ws) = ⊥
Covers (suc n) (f ∷ fs) (w ∷ ws) = Covers n fs ws

-- The callouts of a batch are those of its locations.
callout_loop-with_locs :
    (fru_pn : Bytes → Option Bytes) (prev : Option Bytes) (n : ℕ) (ps : List ℕ) (fs : List Fru)
    (ws : List Bytes)
    → Words ws
    → Unmarked fs
    → NonZero n ps
    → Covers n fs ws
    → callout_loop fru_pn prev (set_confs n ps (with_locs fs ws))
      ≡ map (callout_at fru_pn) (take (length fs) ws)
unfolding callout_loop set_confs get_refcode
callout_loop-with_locs fru_pn prev n ps [] ws h u z c = refl
callout_loop-with_locs fru_pn prev zero ps (f ∷ fs) [] h u z c = refl
callout_loop-with_locs fru_pn prev (suc n) ps (f ∷ fs) [] h u z c = absurd (omega arith)
callout_loop-with_locs fru_pn prev zero ps (f ∷ fs) (w ∷ ws) h u z c = absurd c
callout_loop-with_locs fru_pn prev (suc n) [] (f ∷ fs) (w ∷ ws) h u z c = absurd z
callout_loop-with_locs fru_pn prev (suc n) (p ∷ ps) (f ∷ fs) ([] ∷ ws) h u z c = absurd (h.0)
callout_loop-with_locs fru_pn prev (suc n) (p ∷ ps) (f ∷ fs) ((x ∷ w) ∷ ws) h u z c =
    let rest =
      callout_loop-with_locs fru_pn (some (or_na (fru_pn (x ∷ w)))) n ps fs ws (h.1) (u.1) (z.1)
        c in
    rw (z.0) (rw (u.0) (ap (λ (r : List Callout). callout_at fru_pn (x ∷ w) ∷ r) rest))

Covers-four :
    (f g h i : Fru) (n : ℕ) (ws : List Bytes)
    → n ≡ length ws
    → Covers (if ltb 4 n then 4 else n) (f ∷ g ∷ h ∷ i ∷ []) ws
Covers-four f g h i n [] e = ground arith
Covers-four f g h i n (a ∷ []) e = rw e refl
Covers-four f g h i n (a ∷ b ∷ []) e = rw e refl
Covers-four f g h i n (a ∷ b ∷ c ∷ []) e = rw e refl
Covers-four f g h i n (a ∷ b ∷ c ∷ d ∷ []) e = rw e tt
Covers-four f g h i n (a ∷ b ∷ c ∷ d ∷ x ∷ ws) e =
    rw (e, lt→ltb 4 (suc (suc (suc (suc (suc (length ws)))))) (omega arith)) tt

row : (pct n : ℕ) → pct < 2 → n ≤ 4 → NonZero n (get_or (get_or percent_table pct []) n [])
row zero zero p h = tt
row zero (suc zero) p h = (refl, tt)
row zero (suc (suc zero)) p h = (refl, (refl, tt))
row zero (suc (suc (suc zero))) p h = (refl, (refl, (refl, tt)))
row zero (suc (suc (suc (suc zero)))) p h = (refl, (refl, (refl, (refl, tt))))
row zero (suc (suc (suc (suc (suc n))))) p h = absurd (omega arith)
row (suc zero) zero p h = tt
row (suc zero) (suc zero) p h = (refl, tt)
row (suc zero) (suc (suc zero)) p h = (refl, (refl, tt))
row (suc zero) (suc (suc (suc zero))) p h = (refl, (refl, (refl, tt)))
row (suc zero) (suc (suc (suc (suc zero)))) p h = (refl, (refl, (refl, (refl, tt))))
row (suc zero) (suc (suc (suc (suc (suc n))))) p h = absurd (omega arith)
row (suc (suc pct)) n p h = absurd (omega arith)

-- Four FRUs with the percentages of `n` locations.
pub callout_loop-four :
    (fru_pn : Bytes → Option Bytes) (pct n : ℕ) (f g h i : Fru) (ws : List Bytes)
    → Words ws
    → Unmarked (f ∷ g ∷ h ∷ i ∷ [])
    → pct < 2
    → n ≡ length ws
    → callout_loop fru_pn none (set_fru_percentages pct n (with_locs (f ∷ g ∷ h ∷ i ∷ []) ws))
      ≡ map (callout_at fru_pn) (take 4 ws)
unfolding set_fru_percentages
callout_loop-four fru_pn pct n f g h i ws k u p e =
    let m = if ltb 4 n then 4 else n in
    callout_loop-with_locs fru_pn none m (get_or (get_or percent_table pct []) m [])
      (f ∷ g ∷ h ∷ i ∷ []) ws k u (row pct m p (ground arith)) (Covers-four f g h i n ws e)
