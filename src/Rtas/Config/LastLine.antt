-- ===== src/Rtas/Config/LastLine.antt =====
-- The value of an entry, with and without a newline behind it.
use mathlib.Core.List.{append-nil, append_assoc}
use ppc64_diag.Rtas.Config.{
  CharClass, Token, at, at_least_one, begin_or_grow, behind_equals, classify, emit, end_of_file,
  ends, entry, eof, get_config_num, get_config_string, get_token, got, is_equals, is_newline, next,
  skip_spaces, next_of, num_value, overflow, scan, string_loop, string_value, strtol, token,
}
use ppc64_diag.Base.{
  ℕ, zero, suc, ◌<◌, ◌≡◌, refl, sym, ap, ◌∙◌, arith, if◌then◌else◌, [], ◌∷◌, ◌++◌, Option, some,
  none, length, length-append, lt→ltb,
}
use ppc64_diag.Lpd.Location.{isspace}
use ppc64_diag.Elog.Memory.{Bytes}

-- A word has none of the characters that end a token or begin a comment.
abbrev pub IsPlain : Bytes → Type 0
IsPlain [] = Unit
IsPlain (c ∷ cs) = (classify c ≡ CharClass.other) × IsPlain cs

scan-other :
    (fuel c : ℕ) (cs : Bytes) (start : Option Bytes) (line_no : ℕ)
    → classify c ≡ CharClass.other
    → scan (suc fuel) (c ∷ cs) start line_no ≡ scan fuel cs (begin_or_grow start c) line_no
unfolding scan
scan-other fuel c cs start line_no e = ground (arith, e)

-- A word at the end of the file is no token.
scan_plain :
    (fuel : ℕ) (w : Bytes) (start : Option Bytes) (line_no : ℕ)
    → IsPlain w
    → length w < fuel
    → scan fuel w start line_no ≡ end_of_file
unfolding scan
scan_plain zero w start line_no p h = absurd (omega arith)
scan_plain (suc fuel) [] start line_no p h = refl
scan_plain (suc fuel) (c ∷ w) start line_no p h =
    scan-other fuel c w start line_no p.0
    ∙ scan_plain fuel w (begin_or_grow start c) line_no p.1 (omega arith)

get_token_plain : (w : Bytes) (line_no : ℕ) → IsPlain w → get_token w line_no ≡ end_of_file
unfolding get_token
get_token_plain w line_no p = scan_plain (suc (length w)) w none line_no p (omega arith)

-- A word before a newline is a token.
scan_word :
    (fuel : ℕ) (w acc rest : Bytes) (line_no : ℕ)
    → IsPlain w
    → length w < fuel
    → scan fuel (w ++ b'\n' ∷ rest) (some acc) line_no ≡ emit (acc ++ w) (b'\n' ∷ rest) line_no
unfolding scan ends classify
scan_word zero w acc rest line_no p h = absurd (omega arith)
scan_word (suc fuel) [] acc rest line_no p h =
    ap (λ x. emit x (b'\n' ∷ rest) line_no) (sym (append-nil acc))
scan_word (suc fuel) (c ∷ w) acc rest line_no p h =
    scan-other fuel c (w ++ b'\n' ∷ rest) (some acc) line_no p.0
    ∙ (scan_word fuel w (acc ++ c ∷ []) rest line_no p.1 (omega arith)
        ∙ ap (λ x. emit x (b'\n' ∷ rest) line_no) (append_assoc acc (c ∷ []) w))

get_token_equals :
    (rest : Bytes) (line_no : ℕ) → get_token (b'=' ∷ rest) line_no ≡ token (b'=' ∷ []) rest line_no
unfolding get_token scan classify ends emit
get_token_equals rest line_no = refl

get_token_word :
    (c : ℕ) (w rest : Bytes) (line_no : ℕ)
    → IsPlain (c ∷ w)
    → get_token (c ∷ (w ++ b'\n' ∷ rest)) line_no ≡ emit (c ∷ w) (b'\n' ∷ rest) line_no
unfolding get_token begin_or_grow emit
get_token_word c w rest line_no p =
    let enough = length-append w (b'\n' ∷ rest) in
    scan-other (suc (length (w ++ b'\n' ∷ rest))) c (w ++ b'\n' ∷ rest) none line_no p.0
    ∙ scan_word (suc (length (w ++ b'\n' ∷ rest))) w (c ∷ []) rest line_no p.1 (omega arith)

-- A number behind the '=' with a newline behind it is the value of its entry, or 1 where it is
-- less.
get_config_num_word :
    (c : ℕ) (w rest : Bytes) (line_no : ℕ)
    → IsPlain (c ∷ w)
    → length (c ∷ w) < 1024
    → get_config_num (at (b'=' ∷ c ∷ (w ++ b'\n' ∷ rest))) line_no
      ≡ entry (at_least_one ((strtol (c ∷ w)).0)) (at (b'\n' ∷ rest)) line_no
unfolding get_config_num behind_equals next next_of is_equals num_value emit
get_config_num_word c w rest line_no p h =
    let equals = b'=' ∷ [] in
    let fits =
      ap (λ b. if b then token (c ∷ w) (b'\n' ∷ rest) line_no else Token.over_write)
        (lt→ltb (length (c ∷ w)) 1024 h) in
    ap (λ t. behind_equals num_value (next_of none line_no t))
      (get_token_equals (c ∷ (w ++ b'\n' ∷ rest)) line_no)
    ∙ ap (λ t. num_value (next_of (some equals) line_no t))
        (get_token_word c w rest line_no p ∙ fits)

-- Once the end of the file is reached `tok` stays what it is, and is appended for ever.
filled : (line_no : ℕ) → string_value (got eof (some (b'=' ∷ [])) line_no) ≡ overflow
unfolding string_value string_loop next is_newline
filled line_no = refl

get_config_num_lost :
    (w : Bytes) (line_no : ℕ)
    → IsPlain w
    → get_config_num (at (b'=' ∷ w)) line_no ≡ entry 1 eof line_no
unfolding get_config_num behind_equals next next_of is_equals num_value skip_spaces isspace
get_config_num_lost w line_no p =
    ap (λ t. behind_equals num_value (next_of none line_no t)) (get_token_equals w line_no)
    ∙ ap (λ t. num_value (next_of (some (b'=' ∷ [])) line_no t)) (get_token_plain w line_no p)

get_config_string_lost :
    (w : Bytes) (line_no : ℕ) → IsPlain w → get_config_string (at (b'=' ∷ w)) line_no ≡ overflow
unfolding get_config_string behind_equals next next_of is_equals
get_config_string_lost w line_no p =
    ap (λ t. behind_equals string_value (next_of none line_no t)) (get_token_equals w line_no)
    ∙ (ap (λ t. string_value (next_of (some (b'=' ∷ [])) line_no t)) (get_token_plain w line_no p)
        ∙ filled line_no)

-- Let a value have no blank, tab or newline, and none of the characters that the tokenizer treats
-- apart: quotes, '#', '\', braces and '='. Behind the '=' where the end of the file follows it, and
-- not a newline, such a value is not read: the number is 1, and the path overflows its array.
pub last_value_lost :
    (w : Bytes) (line_no : ℕ)
    → IsPlain w
    → (get_config_num (at (b'=' ∷ w)) line_no ≡ entry 1 eof line_no)
      × (get_config_string (at (b'=' ∷ w)) line_no ≡ overflow)
last_value_lost w line_no p = (get_config_num_lost w line_no p, get_config_string_lost w line_no p)
