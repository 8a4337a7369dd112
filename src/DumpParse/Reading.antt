-- ===== src/DumpParse/Reading.antt =====
-- The results of the functions of opal-dump-parse, and its reads of the mapped file.
use ppc64_diag.Base.{
  ℕ, ◌+◌, ◌==◌, Bool, true, false, if◌then◌else◌, [], ◌∷◌, ◌≡◌, ◌⊎◌, inl, inr, refl,
}
use ppc64_diag.Elog.Memory.{Bytes, Outcome, field}

pub data DumpError : Type 0 where
  e_invalid e_file e_opal_table e_opal_data e_section : DumpError

-- `over_read` is a read behind the end of the file; `out_of_fuel` is for loops that may not end.
pub data Parsed {ℓ} (A : Type ℓ) : Type ℓ where
  over_read out_of_fuel : Parsed A
  error : DumpError → Parsed A
  ok : A → Parsed A

infixl 5 ◌>>=◌ ◌>>◌
abbrev pub ◌>>=◌ {κ} : {T : Type 0} {V : Type κ} → Parsed T → (T → Parsed V) → Parsed V
over_read >>= next = over_read
out_of_fuel >>= next = out_of_fuel
error refusal >>= next = error refusal
ok value >>= next = next value

abbrev pub ◌>>◌ : {V : Type 0} → Parsed (Unit {0}) → Parsed V → Parsed V
first >> second = first >>= λ done. second

-- An early `return` with an error unless the test holds.
abbrev pub check : Bool → DumpError → Parsed (Unit {0})
check true e = ok tt
check false e = error e

unfoldable pub lift {ℓ} : {A : Type ℓ} → Outcome A → Parsed A
lift (Outcome.ok a) = ok a
lift (Outcome.error e) = over_read
lift (Outcome.fault x) = over_read

unfoldable pub be16 : Bytes → ℕ → Parsed ℕ
unfolding lift
be16 dump p = lift (field dump p 2)

unfoldable pub be32 : Bytes → ℕ → Parsed ℕ
unfolding lift
be32 dump p = lift (field dump p 4)

-- `strncmp(data + p, label, strlen(label)) == 0`.
unfoldable pub matches : Bytes → ℕ → Bytes → Parsed Bool
unfolding lift
matches dump p [] = ok true
matches dump p (c ∷ label) =
    let rest = matches dump (p + 1) label in
    do b ← lift (field dump p 1); if b == c then rest else ok false

-- The bytes before the first NUL.
unfoldable pub c_string : Bytes → Bytes
c_string [] = []
c_string (c ∷ cs) = let rest = c_string cs in if c == 0 then [] else c ∷ rest

pub Parsed-cases {ℓ} :
    {A : Type ℓ} (r : Parsed A)
    → ((a : A) × (r ≡ ok a))
      ⊎ ((e : DumpError) × (r ≡ error e))
      ⊎ (r ≡ over_read)
      ⊎ (r ≡ out_of_fuel)
Parsed-cases (ok a) = inl (a, refl)
Parsed-cases (error e) = inr (inl (e, refl))
Parsed-cases over_read = inr (inr (inl refl))
Parsed-cases out_of_fuel = inr (inr (inr refl))
