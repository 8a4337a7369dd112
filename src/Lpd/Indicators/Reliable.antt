-- ===== src/Lpd/Indicators/Reliable.antt =====
-- Indicators that can be set.
use ppc64_diag.Errd.Files.{same_name}
use ppc64_diag.Lpd.Location.{LocCode}
use ppc64_diag.Lpd.Indicators.{Platform, led_type_fault, set_unless}
use ppc64_diag.Base.{
  ℕ, ◌==◌, ◌≡◌, ◌⊎◌, inl, inr, refl, sym, subst, arith, Bool, true, false, Bool-cases, Option, some,
  none, ◌&&◌,
}

-- Whether two entries name the same indicator: an index does, and for a dynamic indicator the
-- location code does.
unfoldable pub same_index : LocCode → LocCode → Option ℕ → Option ℕ → Bool
same_index l m none none = same_name l.code m.code
same_index l m none (some j) = false
same_index l m (some i) none = false
same_index l m (some i) (some j) = i == j

unfoldable pub same_led : LocCode → LocCode → Bool
unfolding same_index
same_led l m = (l.loc_type == m.loc_type) && same_index l m l.index m.index

-- What the hooks keep to. An indicator whose setting succeeds reads as it was set; one that reads
-- `v` still does when one is set to `v`, whether that succeeds or not; and no other indicator
-- changes.
pub record IsReliable {S : Type 0} (platform : Platform S) : Type 0 where
  pub get-set :
      (t : ℕ) (l : LocCode) (v : ℕ) (s : S)
      → (platform.set_indicator_state t l v s).0 ≡ true
      → platform.get_indicator_state t l (platform.set_indicator_state t l v s).1 ≡ some v
  pub get-set_keeps :
      (t : ℕ) (l m : LocCode) (v : ℕ) (s : S)
      → platform.get_indicator_state t m s ≡ some v
      → platform.get_indicator_state t m (platform.set_indicator_state t l v s).1 ≡ some v
  pub get-set_other :
      (t : ℕ) (l m : LocCode) (v : ℕ) (s : S)
      → same_led l m ≡ false
      → platform.get_indicator_state t m (platform.set_indicator_state t l v s).1
        ≡ platform.get_indicator_state t m s

-- The setting of the fault indicator succeeds.
abbrev pub IsSettable : {S : Type 0} → Platform S → LocCode → Type 0
IsSettable {S} platform l =
    (v : ℕ) (s : S) → (platform.set_indicator_state led_type_fault l v s).0 ≡ true

module _ {S : Type 0} (platform : Platform S) (reliable : IsReliable platform) where
  set_unless-cases :
      (o : Option ℕ) (t : ℕ) (l : LocCode) (v : ℕ) (s : S)
      → (set_unless platform o t l v s ≡ (true, s)) × (o ≡ some v)
        ⊎ (set_unless platform o t l v s ≡ platform.set_indicator_state t l v s)
  unfolding set_unless
  set_unless-cases none t l v s = inr refl
  set_unless-cases (some state) t l v s = elim (Bool-cases (state == v)) [
    | inl same ↦ inl (ground arith, ground arith)
    | inr other ↦ inr (ground arith)
  ]

  abbrev Reads : ℕ → LocCode → ℕ → Bool × S → Type 0
  Reads t l v r = platform.get_indicator_state t l r.1 ≡ some v

  pub set_unless-sets :
      (l : LocCode) (v : ℕ) (s : S)
      → IsSettable platform l
      → let t = led_type_fault in
        platform.get_indicator_state t l
          (set_unless platform (platform.get_indicator_state t l s) t l v s).1
        ≡ some v
  set_unless-sets l v s k =
      let t = led_type_fault in
      elim (set_unless-cases (platform.get_indicator_state t l s) t l v s) [
        | inl (e, at) ↦ subst (Reads t l v) (sym e) at
        | inr e ↦ subst (Reads t l v) (sym e) (reliable.get-set t l v s (k v s))
      ]

  pub set_unless-keeps :
      (t : ℕ) (l m : LocCode) (v : ℕ) (s : S)
      → platform.get_indicator_state t m s ≡ some v
      → platform.get_indicator_state t m
          (set_unless platform (platform.get_indicator_state t l s) t l v s).1
        ≡ some v
  set_unless-keeps t l m v s h =
      elim (set_unless-cases (platform.get_indicator_state t l s) t l v s) [
        | inl (e, at) ↦ subst (Reads t m v) (sym e) h
        | inr e ↦ subst (Reads t m v) (sym e) (reliable.get-set_keeps t l m v s h)
      ]

  pub set_unless-other :
      (t : ℕ) (l m : LocCode) (v : ℕ) (s : S)
      → same_led l m ≡ false
      → platform.get_indicator_state t m
          (set_unless platform (platform.get_indicator_state t l s) t l v s).1
        ≡ platform.get_indicator_state t m s
  set_unless-other t l m v s h =
      let same : Bool × S → Type 0 =
        λ r. platform.get_indicator_state t m r.1 ≡ platform.get_indicator_state t m s in
      elim (set_unless-cases (platform.get_indicator_state t l s) t l v s) [
        | inl (e, at) ↦ subst same (sym e) refl
        | inr e ↦ subst same (sym e) (reliable.get-set_other t l m v s h)
      ]
