-- ===== src/Rtas/Ela/Report/Callouts.antt =====
-- What report_srn leaves in the entry of servicelog.
use ppc64_diag.Rtas.Ela.Report.{
  callout_loop, more_frus, report_srn, set_fru_percentages, set_srn_and_callouts,
}
use ppc64_diag.Rtas.Ela.Report.Batches.{
  Short, Short-drop, Unmarked, Words-drop, callout_at, callout_loop-four, fill_frus-join,
  fill_more-join, with_locs,
}
use ppc64_diag.Rtas.Ela.Locations.{count_locs, first_loc, next_code, visible}
use ppc64_diag.Rtas.Ela.Locations.Words.{
  Words, count_locs-join, head, join, length-join, next_code-join, tail, visible-join,
}
use ppc64_diag.Rtas.Ela.Description.{Description, Fru, no_fru}
use ppc64_diag.Rtas.Ela.Tables.{Table}
use ppc64_diag.Rtas.Ela.State.{
  Callout, Copy, Run, State, done, entry, freed, live, write_entry, srn, text, unset,
}
use ppc64_diag.Errd.Files.{same_name}
use mathlib.Core.List.{append_assoc}
use ppc64_diag.Base.{
  ℕ, zero, suc, ◌+◌, ◌-◌, ◌≡◌, ◌≤◌, ◌<◌, ◌⊎◌, inl, inr, refl, sym, ap, subst, ◌∙◌, arith, true,
  List, [], ◌∷◌, ◌++◌, Option, some, none, map, length, take, drop, replicate,
}
use ppc64_diag.Elog.Memory.{Bytes}

-- The number of locations behind the first four FRUs.
abbrev Left : ℕ → List Bytes → Type 0
Left n [] = Unit
Left n (w ∷ ws) = n ≡ suc (length ws) + 4

Left-drop : (n : ℕ) (ws : List Bytes) → n ≡ length ws → Left n (drop 4 ws)
Left-drop n [] e = tt
Left-drop n (a ∷ []) e = tt
Left-drop n (a ∷ b ∷ []) e = tt
Left-drop n (a ∷ b ∷ c ∷ []) e = tt
Left-drop n (a ∷ b ∷ c ∷ d ∷ []) e = tt
Left-drop n (a ∷ b ∷ c ∷ d ∷ x ∷ ws) e = omega arith

length-drop_four : (w : Bytes) (ws : List Bytes) → length (drop 4 (w ∷ ws)) ≤ length ws
length-drop_four w [] = omega arith
length-drop_four w (a ∷ []) = omega arith
length-drop_four w (a ∷ b ∷ []) = omega arith
length-drop_four w (a ∷ b ∷ c ∷ ws) = omega arith

take_both-map :
    (f : Bytes → Callout) (n : ℕ) (ws : List Bytes)
    → map f (take n ws) ++ map f (drop n ws) ≡ map f ws
take_both-map f zero ws = refl
take_both-map f (suc n) [] = refl
take_both-map f (suc n) (w ∷ ws) = ap (λ (r : List Callout). f w ∷ r) (take_both-map f n ws)

no_fru-Unmarked : Unmarked (replicate 4 no_fru)
unfolding same_name
no_fru-Unmarked = (refl, (refl, (refl, (refl, tt))))

-- The batches behind the first one.
more_frus-join :
    (fuel : ℕ) (fru_pn : Bytes → Option Bytes) (pct n : ℕ) (ws : List Bytes)
    → length ws < fuel
    → pct < 2
    → Words ws
    → Short ws
    → Left n ws
    → more_frus fuel fru_pn pct (head ws) n (join (tail ws)) ≡ done (map (callout_at fru_pn) ws, [])
unfolding more_frus
more_frus-join zero fru_pn pct n ws m p h k l = absurd (omega arith)
more_frus-join (suc fuel) fru_pn pct n [] m p h k l = refl
more_frus-join (suc fuel) fru_pn pct n (w ∷ ws) m p h k l =
    let ih =
      more_frus-join fuel fru_pn pct (n - 4) (drop 4 (w ∷ ws))
        (omega (arith, length-drop_four w ws)) p (Words-drop 4 (w ∷ ws) h) (Short-drop 4 (w ∷ ws) k)
        (Left-drop (n - 4) (w ∷ ws) (omega arith)) in
    let batch =
      callout_loop-four fru_pn pct (n - 4) no_fru no_fru no_fru no_fru (w ∷ ws) h no_fru-Unmarked p
        (omega arith) in
    let filled = fill_more-join 4 (w ∷ ws) h k in
    let batch' =
      ap
        (λ (r : List Fru × Option Bytes × Bytes).
          callout_loop fru_pn none (set_fru_percentages pct (n - 4) r.0))
        filled
      ∙ batch in
    rw batch' (
      rw filled (
        rw ih
          (ap (λ (r : List Callout). done (r, [])) (take_both-map (callout_at fru_pn) 4 (w ∷ ws)))))

-- The buffer of get_loc_code can be freed.
abbrev pub IsUsable : Copy → Type 0
IsUsable unset = Unit
IsUsable live = Unit
IsUsable freed = ⊥

Copy-cases : (x : Copy) → (x ≡ unset) ⊎ ((x ≡ live) ⊎ (x ≡ freed))
Copy-cases unset = inl refl
Copy-cases live = inr (inl refl)
Copy-cases freed = inr (inr refl)

-- The answer for a string, and for what is visible of it.
abbrev found : State → Option Bytes → Bytes → Run (Option Bytes × ℕ × State)
found s codes shown = done (
  (next_code shown).0,
  count_locs true 0 shown,
  record s { loc_codes = codes; copy = live; rest = (next_code shown).1 },
)

first_loc-some :
    (s : State) (c : ℕ) (l : Bytes)
    → s.loc_codes ≡ some (c ∷ l)
    → IsUsable s.copy
    → first_loc s ≡ found s (some (c ∷ l)) (visible (c ∷ l))
unfolding first_loc
first_loc-some s c l e u =
    let codes = ap (λ (o : Option Bytes). found s o (visible (c ∷ l))) e in
    elim (Copy-cases s.copy) [
      | inl x ↦ rw (e, first_loc) (rw (x, first_loc) codes)
      | inr (inl x) ↦ rw (e, first_loc) (rw (x, first_loc) codes)
      | inr (inr x) ↦ absurd (subst IsUsable x u)
    ]

-- The state behind get_loc_code with FIRST_LOC.
abbrev pub located : List Bytes → State → State
located ws s = record s { loc_codes = some (join ws); copy = live; rest = join (tail ws) }

first_loc-Words :
    (s : State) (c : ℕ) (l : Bytes) (ws : List Bytes)
    → join ws ≡ c ∷ l
    → Words ws
    → s.loc_codes ≡ some (join ws)
    → IsUsable s.copy
    → first_loc s ≡ done (head ws, length ws, located ws s)
first_loc-Words s c l ws j h e u =
    let shown = ap visible (sym j) ∙ visible-join ws h in
    let next = ap next_code shown ∙ next_code-join ws h in
    let zero_add : 0 + length ws ≡ length ws = omega arith in
    let count = ap (count_locs true 0) shown ∙ count_locs-join ws 0 h in
    first_loc-some s c l (e ∙ ap (λ (x : Bytes). some x) j) u
    ∙ rw (next, count, ← j) (ap (λ (n : ℕ). done (head ws, n, located ws s)) zero_add)

pub first_loc-join :
    (s : State) (w : Bytes) (ws : List Bytes)
    → Words (w ∷ ws)
    → s.loc_codes ≡ some (join (w ∷ ws))
    → IsUsable s.copy
    → first_loc s ≡ done (some w, suc (length ws), located (w ∷ ws) s)
first_loc-join s [] ws h e u = absurd (h.0)
first_loc-join s (c ∷ w) [] h e u = first_loc-Words s c w ((c ∷ w) ∷ []) refl h e u
first_loc-join s (c ∷ w) (v ∷ ws) h e u =
    first_loc-Words s c (w ++ b' ' ∷ join (v ∷ ws)) ((c ∷ w) ∷ v ∷ ws) refl h e u

-- The description with the locations of the first batch.
abbrev first_batch : Description → ℕ → List Bytes → Description
first_batch d pct ws = record d { frus = set_fru_percentages pct (length ws) (with_locs d.frus ws) }

abbrev reported : (Bytes → Option Bytes) → Table → ℕ → State → List Bytes → State
reported fru_pn t i s ws =
    let d = entry t i s in
    let s2 = set_srn_and_callouts fru_pn t i (first_batch d s.pct_index ws) 0 (located ws s) in
    record s2 {
      rest = [];
      callouts = s2.callouts ++ map (callout_at fru_pn) (drop 4 ws);
      call_home = true;
      description = some (text d.rmsg);
    }

enough_fuel : (vs : List Bytes) → Words vs → length vs < suc (suc (length (join (tail vs))))
enough_fuel [] h = omega arith
enough_fuel (v ∷ vs) h = omega (arith, length-join vs (h.1))

report_srn-reported :
    (fru_pn : Bytes → Option Bytes) (t : Table) (i : ℕ) (s : State) (w : Bytes) (ws : List Bytes)
    → length (entry t i s).frus ≡ 4
    → s.loc_codes ≡ some (join (w ∷ ws))
    → IsUsable s.copy
    → s.pct_index < 2
    → Words (w ∷ ws)
    → Short (w ∷ ws)
    → report_srn fru_pn t i s ≡ done (reported fru_pn t i s (w ∷ ws))
unfolding report_srn
report_srn-reported fru_pn t i s w ws four e u p h k =
    let n = length (entry t i s).frus in
    let filled = fill_frus-join (entry t i s).frus (w ∷ ws) h k in
    let left = drop 4 (w ∷ ws) in
    let enough : length left < suc (suc (length (join (tail left)))) =
      enough_fuel (drop 4 (w ∷ ws)) (Words-drop 4 (w ∷ ws) h) in
    let more =
      more_frus-join (suc (suc (length (join (tail left))))) fru_pn s.pct_index (suc (length ws))
        left enough p (Words-drop 4 (w ∷ ws) h) (Short-drop 4 (w ∷ ws) k)
        (Left-drop (suc (length ws)) (w ∷ ws) refl) in
    rw (first_loc-join s w ws h e u) (rw filled (rw four (rw more refl)))

batch_callouts :
    (fru_pn : Bytes → Option Bytes) (pct : ℕ) (fs : List Fru) (ws : List Bytes)
    → length fs ≡ 4
    → Words ws
    → Unmarked fs
    → pct < 2
    → callout_loop fru_pn none (set_fru_percentages pct (length ws) (with_locs fs ws))
      ≡ map (callout_at fru_pn) (take 4 ws)
batch_callouts fru_pn pct [] ws four h m p = absurd (omega arith)
batch_callouts fru_pn pct (a ∷ []) ws four h m p = absurd (omega arith)
batch_callouts fru_pn pct (a ∷ b ∷ []) ws four h m p = absurd (omega arith)
batch_callouts fru_pn pct (a ∷ b ∷ c ∷ []) ws four h m p = absurd (omega arith)
batch_callouts fru_pn pct (a ∷ b ∷ c ∷ d ∷ []) ws four h m p =
    callout_loop-four fru_pn pct (length ws) a b c d ws h m p refl
batch_callouts fru_pn pct (a ∷ b ∷ c ∷ d ∷ x ∷ fs) ws four h m p = absurd (omega arith)

-- Let the log have locations, words of at most 79 characters with a blank between them, and let the
-- buffer that get_loc_code returned for an earlier call not be freed. Let the description have four
-- FRUs, none of which is named REF-CODE, and let the index of the percentages be below 2.
-- report_srn returns. The entry gets the SRN and the message of the description, and a callout for
-- each of the locations, in their order and however many there are, with the part number that is
-- found for it.
pub report_srn-callouts :
    (fru_pn : Bytes → Option Bytes) (t : Table) (i : ℕ) (s : State) (w : Bytes) (ws : List Bytes)
    → length (entry t i s).frus ≡ 4
    → Unmarked (entry t i s).frus
    → s.loc_codes ≡ some (join (w ∷ ws))
    → IsUsable s.copy
    → s.pct_index < 2
    → Words (w ∷ ws)
    → Short (w ∷ ws)
    → (s' : State) × (report_srn fru_pn t i s ≡ done s')
      × (s'.refcode ≡ some (srn (entry t i s).sn (entry t i s).rcode))
      × (s'.description ≡ some (text (entry t i s).rmsg))
      × (s'.callouts ≡ s.callouts ++ map (callout_at fru_pn) (w ∷ ws))
unfolding set_srn_and_callouts write_entry
report_srn-callouts fru_pn t i s w ws four m e u p h k =
    let d = entry t i s in
    let first = batch_callouts fru_pn s.pct_index d.frus (w ∷ ws) four h m p in
    let all = take_both-map (callout_at fru_pn) 4 (w ∷ ws) in
    (
      reported fru_pn t i s (w ∷ ws),
      report_srn-reported fru_pn t i s w ws four e u p h k,
      refl,
      refl,
      append_assoc s.callouts _ (map (callout_at fru_pn) (drop 4 (w ∷ ws)))
          ∙ ap (λ (r : List Callout). s.callouts ++ r)
              (ap (λ (r : List Callout). r ++ map (callout_at fru_pn) (drop 4 (w ∷ ws))) first
                ∙ all),
    )
