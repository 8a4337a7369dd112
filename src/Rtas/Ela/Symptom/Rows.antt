-- ===== src/Rtas/Ela/Symptom/Rows.antt =====
-- Which rows of the tables of symptoms are found.
use ppc64_diag.Rtas.Ela.Message.{Message}
use ppc64_diag.Rtas.Ela.State.{Event, byte}
use ppc64_diag.Rtas.Ela.Symptom.{
  find_signature, io_log, io_log_sig, mem_log_sig, message_at, symptom,
}
use mathlib.Core.Option.{some-injective}
use ppc64_diag.Base.{
  ap, ℕ, zero, suc, ◌+◌, ◌*◌, ◌-◌, ◌%◌, ◌^◌, ◌≡◌, ◌<◌, refl, subst, arith, ltb, leb, some, List,
  ◌==◌, Bool, true, false, not, ◌&&◌, if◌then◌else◌,
}

-- A test of every number below a bound.
each_below : ℕ → (ℕ → Bool) → Bool
each_below zero test = true
each_below (suc n) test = let rest = each_below n test in if test n then rest else false

each_below_holds :
    (n : ℕ) (test : ℕ → Bool) (x : ℕ) → each_below n test ≡ true → x < n → test x ≡ true
unfolding each_below
each_below_holds zero test x h l = absurd (omega arith)
each_below_holds (suc n) test x h l = ground (arith, each_below_holds n test x)

-- The messages of a bit of byte 12 together with bit 3 of byte 13.
abbrev pub is_combined : Message → Bool
is_combined Message.msgiob12b5b13b3 = true
is_combined Message.msgiob12b6b13b3 = true
is_combined Message.msgiob12b7b13b3 = true
is_combined Message.defer_msgiob12b5b13b3 = true
is_combined Message.defer_msgiob12b6b13b3 = true
is_combined Message.defer_msgiob12b7b13b3 = true
is_combined _ = false

abbrev io_message : Bool → ℕ → Message
io_message predictive row = message_at io_log predictive row

abbrev row_is_single : ℕ → Bool
row_is_single n = not (is_combined (io_message true n)) && not (is_combined (io_message false n))

abbrev io_row : ℕ → ℕ → ℕ
io_row byte12 byte13 = find_signature (byte12 * 256 + byte13 % 32) 1 io_log_sig

io_rows : each_below 256 (λ b. each_below 32 (λ c. row_is_single (io_row b c))) ≡ true
unfolding each_below find_signature
io_rows = refl

io_row_single : (b c : ℕ) → b < 256 → row_is_single (io_row b c) ≡ true
io_row_single b c l =
    let column =
      each_below_holds 256 (λ b. each_below 32 (λ c. row_is_single (io_row b c))) b io_rows l in
    subst (λ (n : ℕ). row_is_single (find_signature (b * 256 + n) 1 io_log_sig) ≡ true) same_column
      (each_below_holds 32 (λ c. row_is_single (io_row b c)) (c % 32) column (omega arith))
  where
    same_column : c % 32 % 32 ≡ c % 32
    same_column = omega arith

both_single :
    (predictive : Bool) (n : ℕ)
    → row_is_single n ≡ true
    → is_combined (io_message predictive n) ≡ false
both_single true n h = ground arith
both_single false n h = ground arith

-- The messages of an I/O bus error for bit 5, 6 or 7 of byte 12 together with bit 3 of byte 13 are
-- never given, neither for a predictive error nor for another, whatever the bytes of the log: the
-- row of the bit of byte 12 alone stands before theirs, and is found first.
pub symptom_io_single :
    (e : Event) (predictive : Bool) (seqn : ℕ) (m : Message)
    → byte e 20 < 256
    → symptom e 3 predictive ≡ some (seqn, m)
    → is_combined m ≡ false
unfolding symptom
symptom_io_single e predictive seqn m l h =
    let row = io_row (byte e 20) (byte e 21) in
    let pair : (row, io_message predictive row) ≡ (seqn, m) = some-injective _ _ h in
    subst (λ (x : Message). is_combined x ≡ false) (ap (λ (x : ℕ × Message). x.1) pair)
      (both_single predictive row (io_row_single (byte e 20) (byte e 21) l))

-- The row of a number of so many bits: 0 for no bit, and else counted from the highest bit.
abbrev is_highest : ℕ → ℕ → ℕ → Bool
is_highest bits x seqn =
    if x == 0
    then seqn == 0
    else leb (2 ^ (bits - seqn)) x && ltb x (2 ^ (bits + 1 - seqn)) && ltb 0 seqn && leb seqn bits

memory_rows :
    each_below 256 (λ b.
      each_below 256
        (λ c. is_highest 16 (b * 256 + c) (find_signature (b * 256 + c) 1 mem_log_sig)))
    ≡ true
unfolding each_below find_signature
memory_rows = refl

abbrev row_of : List ℕ → ℕ → ℕ
row_of sigs x = find_signature x 1 sigs

-- The sequence number of an error of the memory is the place of the highest bit of its two symptom
-- bytes, and 0 where no bit is set.
symptom_memory-highest :
    (e : Event) (predictive : Bool) (seqn : ℕ) (m : Message)
    → byte e 20 < 256
    → byte e 21 < 256
    → symptom e 2 predictive ≡ some (seqn, m)
    → is_highest 16 (byte e 20 * 256 + byte e 21) seqn ≡ true
unfolding symptom
symptom_memory-highest e predictive seqn m l l' h =
    let b = byte e 20 in
    let c = byte e 21 in
    let column =
      each_below_holds 256
        (λ b. each_below 256 (λ c. is_highest 16 (b * 256 + c) (row_of mem_log_sig (b * 256 + c))))
        b memory_rows l in
    let memory =
      each_below_holds 256 (λ c. is_highest 16 (b * 256 + c) (row_of mem_log_sig (b * 256 + c))) c
        column l' in
    let same : row_of mem_log_sig (b * 256 + c) ≡ seqn = ground arith in
    subst (λ (n : ℕ). is_highest 16 (b * 256 + c) n ≡ true) same memory
