-- ===== src/Lpd/Indicators/Documented.antt =====
-- The hooks of rtas_platform are reliable where librtas does what its documentation says.
use ppc64_diag.Errd.Files.Names.{same_name_refl}
use ppc64_diag.Lpd.Location.{LocCode}
use ppc64_diag.Lpd.Indicators.{Platform}
use ppc64_diag.Lpd.Indicators.Reliable.{IsReliable, IsSettable, same_index, same_led}
use ppc64_diag.Lpd.Indicators.Rtas.{
  IsDocumented, Librtas, LedName, dynamic, get_rtas_indicator_state, get_rtas_sensor,
  get_rtas_token, indexed, name_at, rtas_platform, same_indicator, same_index_name, token_sensor,
  set_rtas_indicator, set_rtas_indicator_state, set_token, type_rtas,
}
use ppc64_diag.Base.{
  ℕ, ◌≡◌, refl, sym, ap, ◌∙◌, inl, inr, arith, Bool-cases, true, false, Option, some, none,
}

same_indicator_refl : (n : LedName) → same_indicator n n ≡ true
unfolding same_indicator
same_indicator_refl (dynamic a) = same_name_refl a
same_indicator_refl (indexed i) = ground arith

module _ {F : Type 0} (lib : Librtas F) (documented : IsDocumented lib) {E : Type 0}
    (ses : Platform E) where
  token_sets :
      (k : Option ℕ) (l : LocCode) (v : ℕ) (f : F)
      → (set_token lib ses k l v f).0 ≡ true
      → token_sensor lib ses k l (set_token lib ses k l v f).1 ≡ some v
  unfolding set_token token_sensor
  token_sets none l v f h = absurd cc
  token_sets (some k) l v f h =
      documented.succeeds k _ v f h _ (same_indicator_refl (name_at l.code l.index))

  token_keeps :
      (k : Option ℕ) (l m : LocCode) (v : ℕ) (f : F)
      → token_sensor lib ses k m f ≡ some v
      → token_sensor lib ses k m (set_token lib ses k l v f).1 ≡ some v
  unfolding set_token token_sensor
  token_keeps none l m v f h = h
  token_keeps (some k) l m v f h =
      let n = name_at l.code l.index in
      let n' = name_at m.code m.index in
      elim (Bool-cases (same_indicator n n')) [
        | inr other ↦ documented.others k n n' v f other ∙ h
        | inl same ↦ elim (Bool-cases (lib.set_indicator k n v f).0) [
          | inl set ↦ documented.succeeds k n v f set n' same
          | inr failed ↦ ap (lib.get_sensor k n') (documented.fails k n v f failed) ∙ h
        ]
      ]

  token_other :
      (k : Option ℕ) (l m : LocCode) (v : ℕ) (f : F)
      → same_index l m l.index m.index ≡ false
      → token_sensor lib ses k m (set_token lib ses k l v f).1 ≡ token_sensor lib ses k m f
  unfolding set_token token_sensor
  token_other none l m v f h = refl
  token_other (some k) l m v f h =
      documented.others k _ _ v f (sym (same_index_name l m l.index m.index) ∙ h)

  -- Let librtas do what its documentation says, and the hooks for enclosures be reliable. Then the
  -- hooks of the platform are.
  pub rtas_platform-IsReliable : IsReliable ses → IsReliable (rtas_platform lib ses)
  unfolding get_rtas_indicator_state set_rtas_indicator_state get_rtas_sensor set_rtas_indicator
      same_led
  rtas_platform-IsReliable reliable = record {
    get-set = λ t l v s h.
        ground (arith, token_sets (get_rtas_token t) l v s.0, reliable.get-set t l v s.1);
    get-set_keeps = λ t l m v s h.
        ground
          (arith, token_keeps (get_rtas_token t) l m v s.0, reliable.get-set_keeps t l m v s.1);
    get-set_other = λ t l m v s h.
        ground
          (arith, token_other (get_rtas_token t) l m v s.0, reliable.get-set_other t l m v s.1);
  }

  -- A fault indicator of RTAS can be set where librtas can set it.
  pub rtas-IsSettable :
      (l : LocCode)
      → l.loc_type ≡ type_rtas
      → ((v : ℕ) (f : F) → (lib.set_indicator 9006 (name_at l.code l.index) v f).0 ≡ true)
      → IsSettable (rtas_platform lib ses) l
  unfolding set_rtas_indicator_state set_rtas_indicator get_rtas_token set_token
  rtas-IsSettable l e h v s = ground (arith, h v s.0)
