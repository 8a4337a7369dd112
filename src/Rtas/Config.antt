-- ===== src/Rtas/Config.antt =====
-- rtas_errd/config.c: the tokens of the configuration file and the entries that are read from them.
-- A place in the file is the list of the characters from it to the file's end. The file has no NUL.
pub mod Tokens
pub mod Entries
pub mod LastLine
pub mod Ending
use ppc64_diag.Base.{
  ℕ, zero, suc, ◌+◌, ◌*◌, ◌-◌, ◌%◌, ltb, leb, ◌==◌, Bool, true, false, not, ◌&&◌, ◌||◌,
  if◌then◌else◌, List, [], ◌∷◌, ◌++◌, Option, some, none, length,
}
use ppc64_diag.Elog.Memory.{Bytes}
use ppc64_diag.Lpd.Location.{isspace}

-- The cases of the switch of get_token.
pub data CharClass : Type 0 where
  hash backslash blank newline mark quote other : CharClass

unfoldable pub classify : ℕ → CharClass
classify c =
    if c == b'#'
    then hash
    else if c == b'\\'
    then backslash
    else if c == b' ' || c == b'\t'
    then blank
    else if c == b'\n'
    then newline
    else if c == b'{' || c == b'}' || c == b'='
    then mark
    else if c == b'"'
    then quote
    else other

-- What get_token returns: a token with the place behind it and the number of the line, NULL, or
-- EOF. A token that does not fit the 1024 bytes of `tok` is a write over its end.
pub data Token : Type 0 where
  token : Bytes → Bytes → ℕ → Token
  null : Token
  end_of_file : Token
  over_write : Token
  out_of_fuel : Token

unfoldable pub emit : Bytes → Bytes → ℕ → Token
emit tok rest line_no = if ltb (length tok) 1024 then token tok rest line_no else over_write

-- `while ((str < str_end) && (*str++ != '\n'))`: what is skipped, and the rest.
unfoldable pub skip_line : Bytes → Bytes × Bytes
skip_line [] = ([], [])
skip_line (c ∷ cs) =
    let rest = skip_line cs in if c == b'\n' then (c ∷ [], cs) else (c ∷ rest.0, rest.1)

-- A quoted string, from behind the opening quote, which is part of the token.
unfoldable pub quoted : Bytes → Bytes → ℕ → Token
unfolding emit
quoted tok [] line_no = emit tok [] line_no
quoted tok (c ∷ cs) line_no =
    let rest = quoted (tok ++ c ∷ []) cs line_no in
    if c == b'"' then emit tok cs line_no else (if c == b'\n' then null else rest)

-- The characters from `start` to `str`; none before a token has started.
unfoldable pub grow : Option Bytes → Bytes → Option Bytes
grow none more = none
grow (some tok) more = some (tok ++ more)

-- The end of a token that has started, at `rest`, or else `idle`.
unfoldable pub ends : Option Bytes → Bytes → ℕ → Token → Token
unfolding emit
ends none rest line_no idle = idle
ends (some tok) rest line_no idle = emit tok rest line_no

unfoldable pub begin_or_grow : Option Bytes → ℕ → Option Bytes
begin_or_grow none c = some (c ∷ [])
begin_or_grow (some tok) c = some (tok ++ c ∷ [])

-- The loop of get_token.
unfoldable pub scan : ℕ → Bytes → Option Bytes → ℕ → Token
unfolding emit ends grow begin_or_grow classify
scan zero str start line_no = out_of_fuel
scan (suc fuel) [] start line_no = end_of_file
scan (suc fuel) (c ∷ cs) start line_no = elim (classify c) [
  | hash ↦
      let skipped = skip_line (c ∷ cs) in scan fuel skipped.1 (grow start skipped.0) (line_no + 1)
  | backslash ↦
      let skipped = skip_line (c ∷ cs) in
      ends start skipped.1 (line_no + 1) (scan fuel skipped.1 none (line_no + 1))
  | blank ↦ ends start cs line_no (scan fuel cs none line_no)
  | newline ↦ ends start (c ∷ cs) line_no (token (b'\n' ∷ []) cs (line_no + 1))
  | mark ↦ ends start (c ∷ cs) line_no (token (c ∷ []) cs line_no)
  | quote ↦ ends start (c ∷ cs) line_no (quoted (c ∷ []) cs line_no)
  | other ↦ scan fuel cs (begin_or_grow start c) line_no
]

unfoldable pub get_token : Bytes → ℕ → Token
get_token str line_no = scan (suc (length str)) str none line_no

-- A pointer into the file, or the EOF that get_token returned; get_token answers EOF to EOF.
pub data Cursor : Type 0 where
  at : Bytes → Cursor
  eof : Cursor

-- A call of get_token with what `tok` holds, which is none where nothing was written to it: the
-- pointer, `tok` and the line behind the call.
pub data Next : Type 0 where
  got : Cursor → Option Bytes → ℕ → Next
  is_null : Next
  tok_overflow : Next
  tok_no_fuel : Next

unfoldable pub next_of : Option Bytes → ℕ → Token → Next
next_of tok line_no (token t rest line_no') = got (at rest) (some t) line_no'
next_of tok line_no null = is_null
next_of tok line_no end_of_file = got eof tok line_no
next_of tok line_no over_write = tok_overflow
next_of tok line_no out_of_fuel = tok_no_fuel

unfoldable pub next : Cursor → Option Bytes → ℕ → Next
unfolding next_of
next eof tok line_no = got eof tok line_no
next (at str) tok line_no = next_of tok line_no (get_token str line_no)

-- What reads an entry: its value and the pointer behind it, NULL, a use of `tok` before it was
-- set, a write over the end of `tok` or of the configuration, or no end within the fuel.
pub data Entry (A : Type 0) : Type 0 where
  entry : A → Cursor → ℕ → Entry A
  no_entry : Entry A
  unset : Entry A
  overflow : Entry A
  unfinished : Entry A

-- `(int) strtol` in base 10: the 32 bits of the value, and what is behind the digits.
unfoldable pub digits : ℕ → Bytes → ℕ × Bytes
digits n [] = (n, [])
digits n (c ∷ cs) =
    let rest = digits (n * 10 + (c - b'0')) cs in
    if leb b'0' c && leb c b'9' then rest else (n, c ∷ cs)

unfoldable pub starts_digit : Bytes → Bool
starts_digit [] = false
starts_digit (c ∷ cs) = leb b'0' c && leb c b'9'

-- A `long` is cut to its extreme values before it becomes an `int`.
unfoldable pub int_bits : Bool → ℕ → ℕ
int_bits false n =
    if ltb n 9223372036854775808 then n % 4294967296 else 9223372036854775807 % 4294967296
int_bits true n =
    if ltb n 9223372036854775808 then (4294967296 - n % 4294967296) % 4294967296 else 0

-- Without a digit nothing is read of the token.
unfoldable pub unsigned : Bytes → Bool → Bytes → ℕ × Bytes
unfolding digits starts_digit int_bits
unsigned tok negative cs =
    let read = digits 0 cs in
    if starts_digit cs then (int_bits negative read.0, read.1) else (0, tok)

unfoldable pub signed : Bytes → Bytes → ℕ × Bytes
unfolding unsigned
signed tok [] = (0, tok)
signed tok (c ∷ cs) =
    if c == b'-'
    then unsigned tok true cs
    else if c == b'+'
    then unsigned tok false cs
    else unsigned tok false (c ∷ cs)

unfoldable pub skip_spaces : Bytes → Bytes
skip_spaces [] = []
skip_spaces (c ∷ cs) = let rest = skip_spaces cs in if isspace c then rest else c ∷ cs

unfoldable pub strtol : Bytes → ℕ × Bytes
unfolding signed
strtol tok = signed tok (skip_spaces tok)

-- The larger of 1 and an `int` of these bits.
unfoldable pub at_least_one : ℕ → ℕ
at_least_one bits = if ltb 1 bits && ltb bits 2147483648 then bits else 1

unfoldable pub is_equals : Bytes → Bool
is_equals [] = false
is_equals (c ∷ cs) = c == b'='

unfoldable pub is_newline : Bytes → Bool
is_newline [] = false
is_newline (c ∷ cs) = c == b'\n'

unfoldable pub num_value : Next → Entry ℕ
unfolding strtol at_least_one
num_value (got cur none line_no) = unset
num_value (got cur (some tok) line_no) = entry (at_least_one ((strtol tok).0)) cur line_no
num_value is_null = no_entry
num_value tok_overflow = overflow
num_value tok_no_fuel = unfinished

-- The test of the first token, and the second one.
unfoldable pub behind_equals : {A : Type 0} → (Next → Entry A) → Next → Entry A
unfolding is_equals next
behind_equals value (got cur none line_no) = unset
behind_equals value (got cur (some tok) line_no) =
    if is_equals tok then value (next cur (some tok) line_no) else no_entry
behind_equals value is_null = no_entry
behind_equals value tok_overflow = overflow
behind_equals value tok_no_fuel = unfinished

unfoldable pub get_config_num : Cursor → ℕ → Entry ℕ
unfolding behind_equals num_value
get_config_num cur line_no = behind_equals num_value (next cur none line_no)

abbrev pub path_length : ℕ
path_length = 512

-- The loop of get_config_string, which appends tokens to `buf` up to a newline.
unfoldable pub string_loop : ℕ → Bytes → Next → Entry Bytes
unfolding is_newline next
string_loop zero buf n = unfinished
string_loop (suc fuel) buf (got cur none line_no) = unset
string_loop (suc fuel) buf is_null = no_entry
string_loop (suc fuel) buf tok_overflow = overflow
string_loop (suc fuel) buf tok_no_fuel = unfinished
string_loop (suc fuel) buf (got cur (some tok) line_no) =
    let longer = buf ++ b' ' ∷ tok in
    let rest = string_loop fuel longer (next cur (some tok) line_no) in
    if is_newline tok
    then entry buf cur line_no
    else if ltb (length longer) path_length
    then rest
    else overflow

-- The first token is copied, whatever it is. A round appends a character at least, so that a
-- fuel of path_length is enough.
unfoldable pub string_value : Next → Entry Bytes
unfolding string_loop
string_value (got cur none line_no) = unset
string_value is_null = no_entry
string_value tok_overflow = overflow
string_value tok_no_fuel = unfinished
string_value (got cur (some tok) line_no) =
    if ltb (length tok) path_length
    then string_loop path_length tok (next cur (some tok) line_no)
    else overflow

unfoldable pub get_config_string : Cursor → ℕ → Entry Bytes
unfolding behind_equals string_value
get_config_string cur line_no = behind_equals string_value (next cur none line_no)
