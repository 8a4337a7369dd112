-- ===== src/Rtas/Ela/Symptom.antt =====
-- get_error_fmt, get_error_type and convert_symptom of rtas_errd/ela.c: the bits of a log that say
-- what went wrong. A byte is a char, which is unsigned on these processors. The formats are
-- RTAS_EXTHDR_FMT_CPU 1, MEMORY 2, IO 3, POST 4, EPOW 5 and IBM_SP 13.
pub mod Rows
use ppc64_diag.Base.{
  ℕ, zero, suc, ◌+◌, ◌-◌, ◌*◌, ◌/◌, ◌%◌, ◌^◌, ◌==◌, ltb, Bool, true, false, if◌then◌else◌, List, [],
  ◌∷◌, Option, some, none, bit_and, get_or,
}
use ppc64_diag.Rtas.Ela.Message.{Message, no_text}
use ppc64_diag.Rtas.Ela.State.{Event, byte}

unfoldable pub get_error_fmt : Event → ℕ
unfolding byte
get_error_fmt e = byte e 10 % 16

-- The shifted bytes have no bit in common, so `|` is their sum.
unfoldable pub get_error_type : Event → ℕ → ℕ
unfolding byte
get_error_type e fmt =
    if fmt == 13
    then fmt * 2 ^ 24 + byte e 26 * 2 ^ 16 + byte e 25 * 2 ^ 8 + byte e 24
    else if fmt == 5
    then fmt * 2 ^ 24 + byte e 25 * 2 ^ 16 + byte e 24 * 2 ^ 8 + byte e 23 % 16
    else if fmt == 1
    then fmt * 2 ^ 24 + byte e 20
    else if fmt == 3
    then fmt % 16 * 2 ^ 24 + byte e 21 % 16 * 2 ^ 8 + byte e 20
    else fmt * 2 ^ 24 + byte e 21 * 2 ^ 8 + byte e 20

-- The global that get_error_type sets for IO, before the mask.
unfoldable pub full_io_type : Event → ℕ → ℕ
unfolding byte
full_io_type e fmt = fmt * 2 ^ 24 + byte e 21 * 2 ^ 8 + byte e 20

-- `sprintf("%d")` and strtol in base 16, of at most two digits.
unfoldable pub convert_bcd : ℕ → ℕ
convert_bcd n = n / 10 * 16 + n % 10

-- `while (seqn < N)`: the first signature that the bits have, 0 where they have none.
unfoldable pub find_signature : ℕ → ℕ → List ℕ → ℕ
find_signature sbits seqn [] = 0
find_signature sbits seqn (signature ∷ rest) =
    let later = find_signature sbits (seqn + 1) rest in
    if bit_and sbits signature == signature then seqn else later

-- The signatures from the second on, since `seqn` starts at 1.
abbrev pub cpu_log_sig : List ℕ
cpu_log_sig = 0x80 ∷ 0x40 ∷ 0x20 ∷ 0x10 ∷ 0x08 ∷ 0x04 ∷ 0x02 ∷ 0x01 ∷ []

abbrev pub mem_log_sig : List ℕ
mem_log_sig =
    0x8000 ∷ 0x4000 ∷ 0x2000 ∷ 0x1000 ∷ 0x0800 ∷ 0x0400 ∷ 0x0200 ∷ 0x0100 ∷ 0x0080 ∷ 0x0040 ∷ 0x0020
    ∷ 0x0010 ∷ 0x0008 ∷ 0x0004 ∷ 0x0002 ∷ 0x0001 ∷ []

abbrev pub io_log_sig : List ℕ
io_log_sig =
    0x8000 ∷ 0x4000 ∷ 0x2000 ∷ 0x1000 ∷ 0x0800 ∷ 0x0400 ∷ 0x0410 ∷ 0x0200 ∷ 0x0210 ∷ 0x0100 ∷ 0x0110
    ∷ 0x0010 ∷ 0x0008 ∷ 0x0004 ∷ 0x0002 ∷ 0x0001 ∷ []

abbrev pub sp_log_sig : List ℕ
sp_log_sig =
    0x80000000 ∷ 0x40000000 ∷ 0x20000000 ∷ 0x10000000 ∷ 0x08000000 ∷ 0x04000000 ∷ 0x02000000
    ∷ 0x01000000 ∷ 0x00800000 ∷ 0x00400000 ∷ 0x00200000 ∷ 0x00100000 ∷ 0x00080000 ∷ 0x00040000
    ∷ 0x00020000 ∷ 0x00010000 ∷ 0x00008000 ∷ 0x00004000 ∷ 0x00002000 ∷ 0x00001000 ∷ 0x00000800
    ∷ 0x00000400 ∷ 0x00000200 ∷ 0x00000100 ∷ 0x00000080 ∷ 0x00000040 ∷ 0x00000020 ∷ 0x00000010
    ∷ 0x00000008 ∷ 0x00000004 ∷ 0x00000002 ∷ 0x00000001 ∷ []

abbrev pub cpu_log : List (Message × Message)
cpu_log =
    (Message.msgcpuallzero, Message.defer_msgallzero)
    ∷ (Message.msgcpub12b0, Message.defer_msgcpub12b0)
    ∷ (Message.msgcpub12b1, Message.defer_msgcpub12b1)
    ∷ (Message.msgcpub12b2, Message.defer_msgcpub12b2)
    ∷ (Message.msgcpub12b3, Message.defer_msgcpub12b3)
    ∷ (Message.msgcpub12b4, Message.defer_msgcpub12b4)
    ∷ (Message.msgcpub12b5, Message.defer_msgcpub12b5)
    ∷ (Message.msgcpub12b6, Message.defer_msgcpub12b6)
    ∷ (Message.msgcpub12b7, Message.defer_msgcpub12b7)
    ∷ []

abbrev pub mem_log : List (Message × Message)
mem_log =
    (Message.msgmemallzero, Message.defer_msgallzero)
    ∷ (Message.msgmemb12b0, Message.defer_msgmemb12b0)
    ∷ (Message.msgmemb12b1, Message.defer_msgmemb12b1)
    ∷ (Message.msgmemb12b2, Message.defer_msgmemb12b2)
    ∷ (Message.msgmemb12b3, Message.defer_msgmemb12b3)
    ∷ (Message.msgmemb12b4, Message.defer_msgmemb12b4)
    ∷ (Message.msgmemb12b5, Message.defer_msgmemb12b5)
    ∷ (Message.msgmemb12b6, Message.defer_msgmemb12b6)
    ∷ (Message.msgmemb12b7, Message.defer_msgmemb12b7)
    ∷ (Message.msgmemb13b0, Message.defer_msgmemb13b0)
    ∷ (Message.msgmemb13b1, Message.defer_msgmemb13b1)
    ∷ (Message.msgmemb13b2, Message.defer_msgmemb13b2)
    ∷ (Message.msgmemb13b3, Message.defer_msgmemb13b3)
    ∷ (Message.msgmemb13b4, Message.defer_msgmemb13b4)
    ∷ (Message.msgreserved, Message.defer_msgreserved)
    ∷ (Message.msgmemb13b6, Message.defer_msgmemb13b6)
    ∷ (Message.msgmemb13b7, Message.defer_msgmemb13b7)
    ∷ []

abbrev pub io_log : List (Message × Message)
io_log =
    (Message.msgioallzero, Message.defer_msgallzero)
    ∷ (Message.msgiob12b0, Message.defer_msgiob12b0)
    ∷ (Message.msgiob12b1, Message.defer_msgiob12b1)
    ∷ (Message.msgiob12b2, Message.defer_msgiob12b2)
    ∷ (Message.msgiob12b3, Message.defer_msgiob12b3)
    ∷ (Message.msgiob12b4, Message.defer_msgiob12b4)
    ∷ (Message.msgiob12b5, Message.defer_msgiob12b5)
    ∷ (Message.msgiob12b5b13b3, Message.defer_msgiob12b5b13b3)
    ∷ (Message.msgiob12b6, Message.defer_msgiob12b6)
    ∷ (Message.msgiob12b6b13b3, Message.defer_msgiob12b6b13b3)
    ∷ (Message.msgiob12b7, Message.defer_msgiob12b7)
    ∷ (Message.msgiob12b7b13b3, Message.defer_msgiob12b7b13b3)
    ∷ (Message.msgiob13b3, Message.defer_msgiob13b3)
    ∷ (Message.msgiob13b4, Message.defer_msgiob13b4)
    ∷ (Message.msgiob13b5, Message.defer_msgiob13b5)
    ∷ (Message.msgiob13b6, Message.defer_msgiob13b6)
    ∷ (Message.msgiob13b7, Message.defer_msgiob13b7)
    ∷ []

abbrev pub sp_log : List (Message × Message)
sp_log =
    (Message.msgspallzero, Message.defer_msgallzero)
    ∷ (Message.msgspb16b0, Message.defer_msgspb16b0)
    ∷ (Message.msgspb16b1, Message.defer_msgspb16b1)
    ∷ (Message.msgspb16b2, Message.defer_msgspb16b2)
    ∷ (Message.msgspb16b3, Message.defer_msgspb16b3)
    ∷ (Message.msgspb16b4, Message.defer_msgspb16b4)
    ∷ (Message.msgspb16b5, Message.defer_msgspb16b5)
    ∷ (Message.msgspb16b6, Message.defer_msgspb16b6)
    ∷ (Message.msgspb16b7, Message.defer_msgspb16b7)
    ∷ (Message.msgspb17b0, Message.defer_msgspb17b0)
    ∷ (Message.msgspb17b1, Message.defer_msgspb17b1)
    ∷ (Message.msgspb17b2, Message.defer_msgspb17b2)
    ∷ (Message.msgspb17b3, Message.defer_msgspb17b3)
    ∷ (Message.msgspb17b4, Message.defer_msgspb17b4)
    ∷ (Message.msgspb17b5, Message.defer_msgspb17b5)
    ∷ (Message.msgreserved, Message.defer_msgreserved)
    ∷ (Message.msgreserved, Message.defer_msgreserved)
    ∷ (Message.msgspb18b0, Message.defer_msgspb18b0)
    ∷ (Message.msgspb18b1, Message.defer_msgspb18b1)
    ∷ (Message.msgspb18b2, Message.defer_msgspb18b2)
    ∷ (Message.msgspb18b3, Message.defer_msgspb18b3)
    ∷ (Message.msgspb18b4, Message.defer_msgspb18b4)
    ∷ (Message.msgreserved, Message.defer_msgreserved)
    ∷ (Message.msgspb18b6, Message.defer_msgspb18b6)
    ∷ (Message.msgspb18b7, Message.defer_msgspb18b7)
    ∷ (Message.msgspb19b0, Message.defer_msgspb19b0)
    ∷ (Message.msgspb19b1, Message.defer_msgspb19b1)
    ∷ (Message.msgreserved, Message.defer_msgreserved)
    ∷ (Message.msgreserved, Message.defer_msgreserved)
    ∷ (Message.msgspb19b4, Message.defer_msgspb19b4)
    ∷ (Message.msgspb19b5, Message.defer_msgspb19b5)
    ∷ (Message.msgspb19b6, Message.defer_msgspb19b6)
    ∷ (Message.msgreserved, Message.defer_msgreserved)
    ∷ []

abbrev pub sp_log_additional : List (Message × Message)
sp_log_additional =
    (Message.msgspallzero, Message.defer_msgallzero)
    ∷ (Message.msgspb28b0, Message.defer_msgspb28b0)
    ∷ (Message.msgspb28b1, Message.defer_msgspb28b1)
    ∷ (Message.msgspb28b2, Message.defer_msgspb28b2)
    ∷ (Message.msgspb28b3, Message.defer_msgspb28b3)
    ∷ (Message.msgspb28b4, Message.defer_msgspb28b4)
    ∷ (Message.msgspb28b5, Message.defer_msgspb28b5)
    ∷ (Message.msgspb28b6, Message.defer_msgspb28b6)
    ∷ (Message.msgspb28b7, Message.defer_msgspb28b7)
    ∷ []

-- The message of a row, for a predictive error or not.
abbrev pub message_at : List (Message × Message) → Bool → ℕ → Message
message_at log predictive seqn =
    let row = get_or log seqn (no_text, no_text) in if predictive then row.1 else row.0

-- The bits of bytes 16 to 19, or those of byte 28 where they are all zero.
unfoldable pub sp_symptom : Event → Bool → ℕ × Message
unfolding byte find_signature
sp_symptom e predictive =
    let sbits = byte e 24 * 2 ^ 24 + byte e 25 * 2 ^ 16 + byte e 26 * 2 ^ 8 + byte e 27 in
    let n = find_signature sbits 1 sp_log_sig in
    let m = find_signature (byte e 36) 1 cpu_log_sig in
    if sbits == 0
    then (if m == 0 then 0 else m + 32, message_at sp_log_additional predictive m)
    else (n, message_at sp_log predictive n)

-- The sequence number that CPU, memory, I/O and service processor logs have, with its message; none
-- for another format. The number of an additional bit of the service processor follows the others.
unfoldable pub symptom : Event → ℕ → Bool → Option (ℕ × Message)
unfolding byte find_signature
symptom e fmt predictive =
    if fmt == 1
    then (let n = find_signature (byte e 20) 1 cpu_log_sig in
        some (n, message_at cpu_log predictive n))
    else if fmt == 2
    then (let n = find_signature (byte e 20 * 256 + byte e 21) 1 mem_log_sig in
        some (n, message_at mem_log predictive n))
    else if fmt == 3
    then (let n = find_signature (byte e 20 * 256 + byte e 21 % 32) 1 io_log_sig in
        some (n, message_at io_log predictive n))
    else if fmt == 13
    then some (sp_symptom e predictive)
    else none
