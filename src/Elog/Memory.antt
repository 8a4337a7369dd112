-- ===== src/Elog/Memory.antt =====
-- The memory that the parsers of opal_errd/opal-elog-parse read, and the ways in which one ends.
-- A pointer is an offset into the object that was read from the log file. A read or a write that
-- leaves its object is a fault, so that a theorem can speak of memory safety.
use ppc64_diag.Base.{
  ◌⊎◌, inl, inr, ℕ, zero, suc, ◌+◌, ◌*◌, Bool, true, false, ◌≡◌, refl, List, [], ◌∷◌, leb, ◌==◌,
  if◌then◌else◌, length, take, drop, replicate,
}

abbrev pub Bytes : Type 0
Bytes = List ℕ

-- The negative results of the parsers: -EINVAL, -ENOMEM and -1.
pub data Errno : Type 0 where
  einval enomem failed : Errno

pub data Fault : Type 0 where
  over_read over_write uninitialised : Fault

pub data Outcome {ℓ} (A : Type ℓ) : Type ℓ where
  ok : A → Outcome A
  error : Errno → Outcome A
  fault : Fault → Outcome A

infixl 5 ◌>>=◌ ◌>>◌
abbrev pub ◌>>=◌ {ℓ κ} : {A : Type ℓ} {B : Type κ} → Outcome A → (A → Outcome B) → Outcome B
ok a >>= f = f a
error e >>= f = error e
fault x >>= f = fault x

abbrev pub ◌>>◌ {ℓ} : {B : Type ℓ} → Outcome (Unit {0}) → Outcome B → Outcome B
m >> k = m >>= λ _. k

-- An early `return` with an error unless the test holds.
abbrev pub guard : Bool → Errno → Outcome (Unit {0})
guard true e = ok tt
guard false e = error e

-- A write of `n` bytes at offset `at` of an object of `size` bytes.
abbrev pub fits : ℕ → ℕ → ℕ → Outcome (Unit {0})
fits at n size = if leb (at + n) size then ok tt else fault over_write

-- The number that bytes in network order stand for (`be16toh`, `be32toh`, `be64toh`).
abbrev pub big_endian : ℕ → Bytes → ℕ
big_endian acc [] = acc
big_endian acc (b ∷ bs) = big_endian (acc * 256 + b) bs

-- `memcpy` out of the buffer.
unfoldable pub read : Bytes → ℕ → ℕ → Outcome Bytes
read mem p n = if leb (p + n) (length mem) then ok (take n (drop p mem)) else fault over_read

-- One field of a packed struct, of `n` bytes.
unfoldable pub field : Bytes → ℕ → ℕ → Outcome ℕ
field mem p n =
    if leb (p + n) (length mem) then ok (big_endian 0 (take n (drop p mem))) else fault over_read

abbrev pub u8 : Bytes → ℕ → Outcome ℕ
u8 mem p = field mem p 1

abbrev pub u16 : Bytes → ℕ → Outcome ℕ
u16 mem p = field mem p 2

abbrev pub u32 : Bytes → ℕ → Outcome ℕ
u32 mem p = field mem p 4

abbrev pub u64 : Bytes → ℕ → Outcome ℕ
u64 mem p = field mem p 8

-- `strlen`, over the bytes from the pointer to the end of the object.
pub strlen_from : Bytes → Outcome ℕ
strlen_from [] = fault over_read
strlen_from (c ∷ cs) =
    let rest = strlen_from cs in if c == 0 then ok 0 else (do n ← rest; ok (suc n))

-- `strncpy`: the bytes before the NUL, and NULs up to `n`.
pub strncpy_from : Bytes → ℕ → Outcome Bytes
strncpy_from cs zero = ok []
strncpy_from [] (suc n) = fault over_read
strncpy_from (c ∷ cs) (suc n) =
    let rest = strncpy_from cs n in
    if c == 0 then ok (replicate (suc n) 0) else (do r ← rest; ok (c ∷ r))

unfoldable pub strlen : Bytes → ℕ → Outcome ℕ
unfolding strlen_from
strlen mem p = strlen_from (drop p mem)

unfoldable pub strncpy : Bytes → ℕ → ℕ → Outcome Bytes
unfolding strncpy_from
strncpy mem p n = strncpy_from (drop p mem) n

-- What holds of a result: `P` of a value, and a fault only of the kinds that `F` allows.
abbrev pub Ensures {ℓ} : {A : Type ℓ} → (Fault → Type 0) → (A → Type 0) → Outcome A → Type 0
Ensures F P (ok a) = P a
Ensures F P (error e) = Unit
Ensures F P (fault x) = F x

abbrev pub NoFault : Fault → Type 0
NoFault x = ⊥

-- A write may leave its array, but nothing is read outside an object or before it is set.
abbrev pub OverWriteOnly : Fault → Type 0
OverWriteOnly over_write = Unit
OverWriteOnly _ = ⊥

abbrev pub Any {ℓ} : {A : Type ℓ} → A → Type 0
Any a = Unit

-- No access outside an object, and no use of a value that was never set.
abbrev pub IsSafe {ℓ} : {A : Type ℓ} → Outcome A → Type 0
IsSafe = Ensures NoFault Any

-- A chain of steps, with what the first ensures at hand for the rest.
pub Ensures-bind {ℓ κ} :
    {A : Type ℓ} {B : Type κ} (F : Fault → Type 0) (P : A → Type 0) (Q : B → Type 0) (m : Outcome A)
    (f : A → Outcome B)
    → Ensures F P m
    → ((a : A) → P a → Ensures F Q (f a))
    → Ensures F Q (m >>= f)
Ensures-bind F P Q (ok a) f h k = k a h
Ensures-bind F P Q (error e) f h k = tt
Ensures-bind F P Q (fault x) f h k = h

pub Outcome-cases {ℓ} :
    {A : Type ℓ} (m : Outcome A)
    → ((a : A) × (m ≡ ok a)) ⊎ ((e : Errno) × (m ≡ error e)) ⊎ ((x : Fault) × (m ≡ fault x))
Outcome-cases (ok a) = inl (a, refl)
Outcome-cases (error e) = inr (inl (e, refl))
Outcome-cases (fault x) = inr (inr (x, refl))
