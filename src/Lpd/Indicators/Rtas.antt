-- ===== src/Lpd/Indicators/Rtas.antt =====
-- The hooks of rtas_platform, lpd/indicator_rtas.c. `lib` is librtas, and `ses` stands for the
-- hooks of lpd/indicator_ses.c, which the indicators of enclosures go to.
use ppc64_diag.Errd.Files.{same_name}
use ppc64_diag.Lpd.Location.{LocCode}
use ppc64_diag.Lpd.Indicators.{Platform, led_type_fault, led_type_ident}
use ppc64_diag.Lpd.Indicators.Reliable.{same_index}
use ppc64_diag.Elog.Memory.{Bytes}
use ppc64_diag.Base.{ℕ, ◌==◌, ◌≡◌, refl, ◌||◌, Bool, true, false, if◌then◌else◌, Option, some, none}

abbrev pub led_type_attn : ℕ
led_type_attn = 2

abbrev pub type_rtas : ℕ
type_rtas = 1

abbrev pub type_ses : ℕ
type_ses = 2

unfoldable pub get_rtas_token : ℕ → Option ℕ
get_rtas_token indicator =
    if indicator == led_type_attn || indicator == led_type_fault
    then some 9006
    else if indicator == led_type_ident
    then some 9007
    else none

-- How librtas is told an indicator: a dynamic one by its location code, and else by an index.
pub data LedName : Type 0 where
  dynamic : Bytes → LedName
  indexed : ℕ → LedName

unfoldable pub name_at : Bytes → Option ℕ → LedName
name_at code none = dynamic code
name_at code (some index) = indexed index

unfoldable pub same_indicator : LedName → LedName → Bool
same_indicator (dynamic a) (dynamic b) = same_name a b
same_indicator (dynamic a) (indexed j) = false
same_indicator (indexed i) (dynamic b) = false
same_indicator (indexed i) (indexed j) = i == j

-- rtas_get_sensor and rtas_set_indicator, or rtas_get_dynamic_sensor and rtas_set_dynamic_indicator
-- for a dynamic indicator, of a token: none and false for a return code other than 0.
pub record Librtas (F : Type 0) : Type 0 where
  pub get_sensor : ℕ → LedName → F → Option ℕ
  pub set_indicator : ℕ → LedName → ℕ → F → Bool × F

-- What the documentation of the calls says: where setting succeeds the sensor reads the value, a
-- call that fails changes nothing, and no call changes another indicator.
pub record IsDocumented {F : Type 0} (lib : Librtas F) : Type 0 where
  pub succeeds :
      (k : ℕ) (n : LedName) (v : ℕ) (f : F)
      → (lib.set_indicator k n v f).0 ≡ true
      → (m : LedName) → same_indicator n m ≡ true
      → lib.get_sensor k m (lib.set_indicator k n v f).1 ≡ some v
  pub fails :
      (k : ℕ) (n : LedName) (v : ℕ) (f : F)
      → (lib.set_indicator k n v f).0 ≡ false
      → (lib.set_indicator k n v f).1 ≡ f
  pub others :
      (k : ℕ) (n m : LedName) (v : ℕ) (f : F)
      → same_indicator n m ≡ false
      → lib.get_sensor k m (lib.set_indicator k n v f).1 ≡ lib.get_sensor k m f

module _ {F E : Type 0} (lib : Librtas F) (ses : Platform E) where
  unfoldable pub token_sensor : Option ℕ → LocCode → F → Option ℕ
  unfolding name_at
  token_sensor none loc f = none
  token_sensor (some token) loc f = lib.get_sensor token (name_at loc.code loc.index) f

  unfoldable pub get_rtas_sensor : ℕ → LocCode → F → Option ℕ
  unfolding get_rtas_token token_sensor
  get_rtas_sensor indicator loc f = token_sensor (get_rtas_token indicator) loc f

  unfoldable pub set_token : Option ℕ → LocCode → ℕ → F → Bool × F
  unfolding name_at
  set_token none loc new_value f = (false, f)
  set_token (some token) loc new_value f =
      lib.set_indicator token (name_at loc.code loc.index) new_value f

  unfoldable pub set_rtas_indicator : ℕ → LocCode → ℕ → F → Bool × F
  unfolding get_rtas_token set_token
  set_rtas_indicator indicator loc new_value f =
      set_token (get_rtas_token indicator) loc new_value f

  unfoldable pub get_rtas_indicator_state : ℕ → LocCode → F × E → Option ℕ
  unfolding get_rtas_sensor
  get_rtas_indicator_state indicator loc s =
      if loc.loc_type == type_rtas
      then get_rtas_sensor indicator loc s.0
      else if loc.loc_type == type_ses
      then ses.get_indicator_state indicator loc s.1
      else none

  unfoldable pub set_rtas_indicator_state : ℕ → LocCode → ℕ → F × E → Bool × (F × E)
  unfolding set_rtas_indicator
  set_rtas_indicator_state indicator loc new_value s =
      let r = set_rtas_indicator indicator loc new_value s.0 in
      let e = ses.set_indicator_state indicator loc new_value s.1 in
      if loc.loc_type == type_rtas
      then (r.0, (r.1, s.1))
      else if loc.loc_type == type_ses
      then (e.0, (s.0, e.1))
      else (false, s)

  abbrev pub rtas_platform : Platform (F × E)
  rtas_platform = record {
    get_indicator_state = get_rtas_indicator_state;
    set_indicator_state = set_rtas_indicator_state;
  }

pub same_index_name :
    (l m : LocCode) (i j : Option ℕ)
    → same_index l m i j ≡ same_indicator (name_at l.code i) (name_at m.code j)
unfolding same_index same_indicator name_at
same_index_name l m none none = refl
same_index_name l m none (some j) = refl
same_index_name l m (some i) none = refl
same_index_name l m (some i) (some j) = refl
