-- ===== src/Rtas/Ela/Refcodes/Looping.antt =====
-- The loops of process_refcodes over the reference codes and the locations of each.
use ppc64_diag.Rtas.Ela.Refcodes.{
  Batch, RefCode, code_loop, copied, gather, loc_loop, place, push, ref_fru,
}
use ppc64_diag.Rtas.Ela.Report.{get_refcode, location_of, not_available}
use ppc64_diag.Rtas.Ela.Description.{Fru}
use ppc64_diag.Rtas.Ela.State.{Event, half}
use ppc64_diag.Rtas.Ela.Locations.Words.{Words, head, tail}
use ppc64_diag.Rtas.Ela.Report.Batches.{Short, Short-drop, Words-drop, take_short}
use ppc64_diag.Errd.Files.{same_name}
use mathlib.Core.List.{append-nil, append_assoc}
use ppc64_diag.Base.{
  ℕ, zero, suc, ◌+◌, ◌*◌, ◌≡◌, refl, sym, subst, arith, ◌==◌, Bool, Bool-cases, false, inl, inr,
  List, [], ◌∷◌, ◌++◌, Option, some, map, drop,
}
use ppc64_diag.Elog.Memory.{Bytes}
use ppc64_diag.Rtas.Ela.Refcodes.Placing.{
  Open, Open-Ready, Ready, Shown, place-Open, push-Open, shown_fru,
}

-- The locations that a reference code with so many of them is shown with: "n/a" where it has none,
-- and where there are no more.
abbrev pub padded : ℕ → List Bytes → List Bytes
padded zero ws = []
padded (suc n) [] = not_available ∷ padded n []
padded (suc n) (w ∷ ws) = w ∷ padded n ws

abbrev pub places : ℕ → List Bytes → List Bytes
places zero ws = not_available ∷ []
places (suc n) ws = padded (suc n) ws

-- The callouts of reference codes that take their locations from `ws`.
abbrev pub code_callouts : ℕ → List RefCode → List Bytes → List Shown
code_callouts src_type [] ws = []
code_callouts src_type ((code, n) ∷ codes) ws =
    map (λ (l : Bytes). (some (src_type, code), l)) (places n ws)
    ++ code_callouts src_type codes (drop n ws)

abbrev head_or_na : List Bytes → Bytes
head_or_na [] = not_available
head_or_na (w ∷ ws) = w

ref_fru_shown :
    (src_type code : ℕ) (ws : List Bytes)
    → Words ws
    → Short ws
    → shown_fru (record (ref_fru src_type code) { floc = copied (head ws) })
      ≡ (some (src_type, code), head_or_na ws)
unfolding get_refcode same_name location_of
ref_fru_shown src_type code [] h k = refl
ref_fru_shown src_type code ([] ∷ ws) h k = absurd (h.0)
ref_fru_shown src_type code ((c ∷ w) ∷ ws) h k = rw (take_short 79 (c ∷ w) (omega arith)) refl

-- What a FRU of the code shows at a location.
abbrev code_shown : ℕ → ℕ → Bytes → Shown
code_shown src_type code l = (some (src_type, code), l)

placed-Ready :
    (src_type code : ℕ) (out : List Shown) (ws : List Bytes) (b : Batch)
    → (code == 0) ≡ false
    → Words ws
    → Short ws
    → Open out (ref_fru src_type code) ws b
    → Ready (out ++ code_shown src_type code (head_or_na ws) ∷ []) (tail ws) (place b)
placed-Ready src_type code out ws b c h k o =
    let f = ref_fru src_type code in
    let placed = place-Open f out ws b h o in
    let f' : Fru = record f { floc = copied (head ws) } in
    subst (λ (x : Shown). Ready (out ++ x ∷ []) (tail ws) (place b))
      (ref_fru_shown src_type code ws h k) (Open-Ready f' out (tail ws) (place b) c placed)

append-Ready :
    (out : List Shown) (x : Shown) (xs : List Shown) (ws : List Bytes) (b : Batch)
    → Ready ((out ++ x ∷ []) ++ xs) ws b
    → Ready (out ++ x ∷ xs) ws b
append-Ready out x xs ws b r =
    subst (λ (z : List Shown). Ready z ws b) (append_assoc out (x ∷ []) xs) r

loc_loop-Ready :
    (fru_pn : Bytes → Option Bytes) (src_type code n : ℕ) (out : List Shown) (ws : List Bytes)
    (b : Batch)
    → (code == 0) ≡ false
    → Words ws
    → Short ws
    → Open out (ref_fru src_type code) ws b
    → Ready
        (out ++ map (code_shown src_type code) (places n ws))
        (drop n ws)
        (loc_loop fru_pn (ref_fru src_type code) n b)
unfolding loc_loop get_refcode same_name location_of
loc_loop-Ready fru_pn src_type code zero out ws b c h k o =
    Open-Ready (ref_fru src_type code) out ws b c o
loc_loop-Ready fru_pn src_type code (suc zero) out [] b c h k o =
    placed-Ready src_type code out [] b c h k o
loc_loop-Ready fru_pn src_type code (suc zero) out (w ∷ ws) b c h k o =
    placed-Ready src_type code out (w ∷ ws) b c h k o
loc_loop-Ready fru_pn src_type code (suc (suc n)) out [] b c h k o =
    let f = ref_fru src_type code in
    let x = code_shown src_type code not_available in
    let placed = placed-Ready src_type code out [] b c h k o in
    let pushed = push-Open fru_pn f (out ++ x ∷ []) [] (place b) placed in
    append-Ready out x (map (code_shown src_type code) (places (suc n) [])) []
      (loc_loop fru_pn f (suc n) (push fru_pn f (place b)))
      (loc_loop-Ready fru_pn src_type code (suc n) (out ++ x ∷ []) [] (push fru_pn f (place b)) c tt
        tt pushed)
loc_loop-Ready fru_pn src_type code (suc (suc n)) out (w ∷ ws) b c h k o =
    let f = ref_fru src_type code in
    let x = code_shown src_type code w in
    let placed = placed-Ready src_type code out (w ∷ ws) b c h k o in
    let pushed = push-Open fru_pn f (out ++ x ∷ []) ws (place b) placed in
    append-Ready out x (map (code_shown src_type code) (places (suc n) ws)) (drop (suc n) ws)
      (loc_loop fru_pn f (suc n) (push fru_pn f (place b)))
      (loc_loop-Ready fru_pn src_type code (suc n) (out ++ x ∷ []) ws (push fru_pn f (place b)) c
        (h.1) (k.1) pushed)

-- No code is 0, at which the loop over a description would stop.
abbrev pub Coded : List RefCode → Type 0
Coded [] = Unit
Coded ((code, n) ∷ codes) = ((code == 0) ≡ false) × Coded codes

pub code_loop-Ready :
    (fru_pn : Bytes → Option Bytes) (src_type : ℕ) (codes : List RefCode) (out : List Shown)
    (ws : List Bytes) (b : Batch)
    → Coded codes
    → Words ws
    → Short ws
    → Ready out ws b
    → (ws' : List Bytes) × Ready
        (out ++ code_callouts src_type codes ws)
        ws'
        (code_loop fru_pn src_type codes b)
unfolding code_loop
code_loop-Ready fru_pn src_type [] out ws b c h k r =
    (ws, subst (λ (z : List Shown). Ready z ws b) (sym (append-nil out)) r)
code_loop-Ready fru_pn src_type ((code, n) ∷ codes) out ws b c h k r =
    let f = ref_fru src_type code in
    let shows = map (code_shown src_type code) (places n ws) in
    let b' = loc_loop fru_pn f n (push fru_pn f b) in
    let opened = push-Open fru_pn f out ws b r in
    let done_one =
      loc_loop-Ready fru_pn src_type code n out ws (push fru_pn f b) (c.0) h k opened in
    let (ws', rest) =
      code_loop-Ready fru_pn src_type codes (out ++ shows) (drop n ws) b' (c.1) (Words-drop n ws h)
        (Short-drop n ws k) done_one in
    (
      ws',
      subst (λ (z : List Shown). Ready z ws' (code_loop fru_pn src_type codes b'))
          (append_assoc out shows (code_callouts src_type codes (drop n ws))) rest,
    )

pub gather-Coded :
    (n : ℕ) (e : Event) (refc : ℕ) (one2one : Bool) (j : ℕ) → Coded (gather n e refc one2one j)
unfolding gather
gather-Coded zero e refc one2one j = tt
gather-Coded (suc n) e refc one2one j = elim (Bool-cases (half e (refc + 10 + 2 * j) == 0)) [
  | inl last ↦ rw last tt
  | inr more ↦ rw more (more, gather-Coded n e refc one2one (j + 1))
]
