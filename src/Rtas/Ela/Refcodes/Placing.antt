-- ===== src/Rtas/Ela/Refcodes/Placing.antt =====
-- The loops of process_refcodes: what the FRUs show, however they are split over descriptions.
use ppc64_diag.Rtas.Ela.Refcodes.{Batch, copied, place, push, set_last}
use ppc64_diag.Rtas.Ela.Report.{callout_loop, get_refcode, location_of, part_number}
use ppc64_diag.Rtas.Ela.Description.{Fru, maxfrus}
use ppc64_diag.Rtas.Ela.State.{Callout}
use ppc64_diag.Rtas.Ela.Locations.{next_code}
use ppc64_diag.Rtas.Ela.Locations.Words.{Words, head, join, next_code-join, tail}
use ppc64_diag.Rtas.Ela.Report.Batches.{Words-tail}
use mathlib.Core.List.{append-nil, append_assoc}
use ppc64_diag.Base.{
  ℕ, ◌≡◌, refl, sym, subst, ap, ◌∙◌, ◌==◌, Bool-cases, false, inl, inr, List, [], ◌∷◌, ◌++◌, Option,
  some, none, map, length,
}
use ppc64_diag.Elog.Memory.{Bytes}

-- What a callout shows besides its part number.
abbrev pub Shown : Type 0
Shown = Option (ℕ × ℕ) × Bytes

abbrev pub shown : Callout → Shown
shown c = (c.procedure, c.location)

abbrev pub shown_fru : Fru → Shown
shown_fru f = (get_refcode f, location_of f.floc)

-- No FRU with a confidence of 0, at which the loop over a description would stop.
abbrev pub Counted : List Fru → Type 0
Counted [] = Unit
Counted (f ∷ fs) = ((f.conf == 0) ≡ false) × Counted fs

callout_loop-shown :
    (fru_pn : Bytes → Option Bytes) (prev : Option Bytes) (fs : List Fru)
    → Counted fs
    → map shown (callout_loop fru_pn prev fs) ≡ map shown_fru fs
unfolding callout_loop
callout_loop-shown fru_pn prev [] h = refl
callout_loop-shown fru_pn prev (f ∷ fs) h = rw (h.0) (
    ap (λ (r : List Shown). shown_fru f ∷ r)
      (callout_loop-shown fru_pn (some (part_number fru_pn prev f.floc)) fs (h.1)))

pub map-append_shown :
    {A : Type 0} (g : A → Shown) (xs ys : List A) → map g (xs ++ ys) ≡ map g xs ++ map g ys
map-append_shown g [] ys = refl
map-append_shown g (x ∷ xs) ys = ap (λ (r : List Shown). g x ∷ r) (map-append_shown g xs ys)

-- The FRUs of the batch show `out`, and the next locations are `ws`.
abbrev pub Ready : List Shown → List Bytes → Batch → Type 0
Ready out ws b =
    (map shown b.reported ++ map shown_fru b.filled ≡ out)
    × Counted b.filled
    × (b.loc ≡ head ws)
    × (b.rest ≡ join (tail ws))

-- The same of the FRUs before the last one, which is `f`.
abbrev pub Open : List Shown → Fru → List Bytes → Batch → Type 0
Open out f ws b =
    (fs : List Fru) × (b.filled ≡ fs ++ f ∷ [])
    × (map shown b.reported ++ map shown_fru fs ≡ out)
    × Counted fs
    × (b.loc ≡ head ws)
    × (b.rest ≡ join (tail ws))

-- All of them as callouts.
pub callouts-Ready :
    (fru_pn : Bytes → Option Bytes) (out : List Shown) (ws : List Bytes) (b : Batch)
    → Ready out ws b
    → map shown (b.reported ++ callout_loop fru_pn none b.filled) ≡ out
callouts-Ready fru_pn out ws b (shows, counted, at_loc, at_rest) =
    map-append_shown shown b.reported (callout_loop fru_pn none b.filled)
    ∙ ap (λ (r : List Shown). map shown b.reported ++ r)
        (callout_loop-shown fru_pn none b.filled counted)
    ∙ shows

pub push-Open :
    (fru_pn : Bytes → Option Bytes) (f : Fru) (out : List Shown) (ws : List Bytes) (b : Batch)
    → Ready out ws b
    → Open out f ws (push fru_pn f b)
unfolding push
push-Open fru_pn f out ws b (shows, counted, at_loc, at_rest) =
    elim (Bool-cases (length b.filled == maxfrus)) [
      | inl full ↦ rw full (
        [],
        refl,
        append-nil (map shown (b.reported ++ callout_loop fru_pn none b.filled))
            ∙ callouts-Ready fru_pn out ws b (shows, counted, at_loc, at_rest),
        tt,
        at_loc,
        at_rest,
      )
      | inr room ↦ rw room (b.filled, refl, shows, counted, at_loc, at_rest)
    ]

set_last_append :
    (l : Bytes) (fs : List Fru) (f : Fru)
    → set_last l (fs ++ f ∷ []) ≡ fs ++ (record f { floc = l }) ∷ []
unfolding set_last
set_last_append l [] f = refl
set_last_append l (g ∷ []) f = refl
set_last_append l (g ∷ h ∷ fs) f = ap (λ (r : List Fru). g ∷ r) (set_last_append l (h ∷ fs) f)

pub place-Open :
    (f : Fru) (out : List Shown) (ws : List Bytes) (b : Batch)
    → Words ws
    → Open out f ws b
    → Open out (record f { floc = copied (head ws) }) (tail ws) (place b)
unfolding place
place-Open f out ws b h (fs, filled, shows, counted, at_loc, at_rest) =
    let next = ap next_code at_rest ∙ next_code-join (tail ws) (Words-tail ws h) in
    (
      fs,
      rw (filled, at_loc) (set_last_append (copied (head ws)) fs f),
      shows,
      counted,
      rw next refl,
      rw next refl,
    )

append-Counted :
    (fs : List Fru) (f : Fru) → Counted fs → (f.conf == 0) ≡ false → Counted (fs ++ f ∷ [])
append-Counted [] f h c = (c, tt)
append-Counted (g ∷ fs) f h c = (h.0, append-Counted fs f (h.1) c)

pub Open-Ready :
    (f : Fru) (out : List Shown) (ws : List Bytes) (b : Batch)
    → (f.conf == 0) ≡ false
    → Open out f ws b
    → Ready (out ++ shown_fru f ∷ []) ws b
Open-Ready f out ws b c (fs, filled, shows, counted, at_loc, at_rest) = (
  ap (λ (r : List Fru). map shown b.reported ++ map shown_fru r) filled
      ∙ ap (λ (r : List Shown). map shown b.reported ++ r) (map-append_shown shown_fru fs (f ∷ []))
      ∙ sym (append_assoc (map shown b.reported) (map shown_fru fs) (shown_fru f ∷ []))
      ∙ ap (λ (r : List Shown). r ++ shown_fru f ∷ []) shows,
  subst Counted (sym filled) (append-Counted fs f counted c),
  at_loc,
  at_rest,
)
