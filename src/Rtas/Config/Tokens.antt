-- ===== src/Rtas/Config/Tokens.antt =====
-- The tokenizer and the loop over the entries end.
use ppc64_diag.Rtas.Config.{
  backslash, blank, hash, mark, newline, other, quote, CharClass, Cursor, Entry, Next, Token, at,
  begin_or_grow, classify, emit, ends, eof, get_token, grow, next, next_of, quoted, scan, skip_line,
  token,
}
use ppc64_diag.Base.{
  ℕ, zero, suc, ◌+◌, ◌≤◌, ◌<◌, ◌≡◌, ◌≢◌, refl, subst, arith, ltb, ◌==◌, true, false, if◌then◌else◌,
  [], ◌∷◌, ◌++◌, Option, some, none, length,
}
use ppc64_diag.Elog.Memory.{Bytes}

-- A token leaves at most `n` characters, and the fuel was enough.
abbrev pub Leaves : ℕ → Token → Type 0
Leaves n (Token.token tok rest line_no) = length rest ≤ n
Leaves n Token.out_of_fuel = ⊥
Leaves n _ = Unit

skip_line-shorter : (str : Bytes) → length (skip_line str).1 ≤ length str
unfolding skip_line
skip_line-shorter [] = omega arith
skip_line-shorter (c ∷ cs) = ground (arith, skip_line-shorter cs)

skip_line_less : (c : ℕ) (cs : Bytes) → length (skip_line (c ∷ cs)).1 ≤ length cs
unfolding skip_line
skip_line_less c cs = ground (arith, skip_line-shorter cs)

emit-Leaves :
    (tok rest : Bytes) (line_no n : ℕ) → length rest ≤ n → Leaves n (emit tok rest line_no)
unfolding emit
emit-Leaves tok rest line_no n h =
    elim (ltb (length tok) 1024)
      as (λ b. Leaves n (if b then token tok rest line_no else Token.over_write)) [
        | true ↦ h
        | false ↦ tt
      ]

Leaves-mono : (m n : ℕ) (t : Token) → m ≤ n → Leaves m t → Leaves n t
Leaves-mono m n (Token.token tok rest line_no) h k = omega arith
Leaves-mono m n Token.null h k = tt
Leaves-mono m n Token.end_of_file h k = tt
Leaves-mono m n Token.over_write h k = tt
Leaves-mono m n Token.out_of_fuel h k = k

quoted-Leaves : (tok cs : Bytes) (line_no : ℕ) → Leaves (length cs) (quoted tok cs line_no)
unfolding quoted
quoted-Leaves tok [] line_no = emit-Leaves tok [] line_no 0 (omega arith)
quoted-Leaves tok (c ∷ cs) line_no =
    let rest = quoted (tok ++ c ∷ []) cs line_no in
    elim (c == b'"')
      as (λ b.
        Leaves (suc (length cs))
          (if b then emit tok cs line_no else (if c == b'\n' then Token.null else rest))) [
            | true ↦ emit-Leaves tok cs line_no (suc (length cs)) (omega arith)
            | false ↦
                elim (c == b'\n')
                  as (λ b. Leaves (suc (length cs)) (if b then Token.null else rest)) [
                    | true ↦ tt
                    | false ↦
                        Leaves-mono (length cs) (suc (length cs)) rest (omega arith)
                          (quoted-Leaves (tok ++ c ∷ []) cs line_no)
                  ]
          ]

-- One character less is left where no token had started.
begun : Option Bytes → ℕ
begun none = 1
begun (some tok) = 0

ends-Leaves :
    (start : Option Bytes) (rest : Bytes) (line_no n : ℕ) (idle : Token)
    → length rest ≤ n + begun start
    → Leaves n idle
    → Leaves n (ends start rest line_no idle)
unfolding ends begun
ends-Leaves none rest line_no n idle h k = k
ends-Leaves (some tok) rest line_no n idle h k = emit-Leaves tok rest line_no n (omega arith)

begun_at_most : (start : Option Bytes) → begun start ≤ 1
unfolding begun
begun_at_most none = omega arith
begun_at_most (some tok) = omega arith

begun-grow : (start : Option Bytes) (more : Bytes) → begun (grow start more) ≡ begun start
unfolding begun grow
begun-grow none more = refl
begun-grow (some tok) more = refl

begun-begin_or_grow : (start : Option Bytes) (c : ℕ) → begun (begin_or_grow start c) ≡ 0
unfolding begun begin_or_grow
begun-begin_or_grow none c = refl
begun-begin_or_grow (some tok) c = refl

-- The cases of one round of scan.
abbrev turn : ℕ → ℕ → Bytes → Option Bytes → ℕ → CharClass → Token
turn fuel c cs start line_no k = elim k [
  | hash ↦
      let skipped = skip_line (c ∷ cs) in scan fuel skipped.1 (grow start skipped.0) (line_no + 1)
  | backslash ↦
      let skipped = skip_line (c ∷ cs) in
      ends start skipped.1 (line_no + 1) (scan fuel skipped.1 none (line_no + 1))
  | blank ↦ ends start cs line_no (scan fuel cs none line_no)
  | newline ↦ ends start (c ∷ cs) line_no (token (b'\n' ∷ []) cs (line_no + 1))
  | mark ↦ ends start (c ∷ cs) line_no (token (c ∷ []) cs line_no)
  | quote ↦ ends start (c ∷ cs) line_no (quoted (c ∷ []) cs line_no)
  | other ↦ scan fuel cs (begin_or_grow start c) line_no
]

scan-Leaves :
    (fuel : ℕ) (str : Bytes) (start : Option Bytes) (line_no n : ℕ)
    → length str < fuel
    → length str ≤ n + begun start
    → Leaves n (scan fuel str start line_no)
unfolding scan begun
scan-Leaves zero str start line_no n h k = absurd (omega arith)
scan-Leaves (suc fuel) [] start line_no n h k = tt
scan-Leaves (suc fuel) (c ∷ cs) start line_no n h k =
    let less = skip_line_less c cs in
    let one = begun_at_most start in
    elim (classify c) as (λ x. Leaves n (turn fuel c cs start line_no x)) [
      | hash ↦
          scan-Leaves fuel (skip_line (c ∷ cs)).1 (grow start (skip_line (c ∷ cs)).0) (line_no + 1)
            n (omega arith) (omega (arith, begun-grow start (skip_line (c ∷ cs)).0))
      | backslash ↦
          ends-Leaves start (skip_line (c ∷ cs)).1 (line_no + 1) n _ (omega arith) (
            scan-Leaves fuel (skip_line (c ∷ cs)).1 none (line_no + 1) n (omega arith)
              (omega arith))
      | blank ↦
          ends-Leaves start cs line_no n _ (omega arith)
            (scan-Leaves fuel cs none line_no n (omega arith) (omega arith))
      | newline ↦ ends-Leaves start (c ∷ cs) line_no n _ k (omega arith)
      | mark ↦ ends-Leaves start (c ∷ cs) line_no n _ k (omega arith)
      | quote ↦
          ends-Leaves start (c ∷ cs) line_no n _ k
            (Leaves-mono (length cs) n _ (omega arith) (quoted-Leaves (c ∷ []) cs line_no))
      | other ↦
          scan-Leaves fuel cs (begin_or_grow start c) line_no n (omega arith)
            (omega (arith, begun-begin_or_grow start c))
    ]

get_token-Leaves :
    (c : ℕ) (cs : Bytes) (line_no : ℕ) → Leaves (length cs) (get_token (c ∷ cs) line_no)
unfolding get_token begun
get_token-Leaves c cs line_no =
    scan-Leaves (suc (length (c ∷ cs))) (c ∷ cs) none line_no (length cs) (omega arith)
      (omega arith)

-- The characters that a pointer has before it.
unfoldable pub left : Cursor → ℕ
left (at str) = length str
left eof = 0

-- A call that ends and does not leave more than `n` characters.
abbrev pub NextLeaves : ℕ → Next → Type 0
NextLeaves n (Next.got cur tok line_no) = left cur ≤ n
NextLeaves n Next.tok_no_fuel = ⊥
NextLeaves n _ = Unit

abbrev pub EntryLeaves : {A : Type 0} → ℕ → Entry A → Type 0
EntryLeaves n (Entry.entry a cur line_no) = left cur ≤ n
EntryLeaves n Entry.unfinished = ⊥
EntryLeaves n _ = Unit

next_of-NextLeaves :
    (n : ℕ) (tok : Option Bytes) (line_no : ℕ) (t : Token)
    → Leaves n t
    → NextLeaves n (next_of tok line_no t)
unfolding next_of left
next_of-NextLeaves n tok line_no (Token.token t rest line_no') h = h
next_of-NextLeaves n tok line_no Token.null h = tt
next_of-NextLeaves n tok line_no Token.end_of_file h = omega arith
next_of-NextLeaves n tok line_no Token.over_write h = tt
next_of-NextLeaves n tok line_no Token.out_of_fuel h = absurd h

pub next-NextLeaves :
    (c : ℕ) (cs : Bytes) (tok : Option Bytes) (line_no : ℕ)
    → NextLeaves (length cs) (next (at (c ∷ cs)) tok line_no)
unfolding next
next-NextLeaves c cs tok line_no =
    next_of-NextLeaves (length cs) tok line_no (get_token (c ∷ cs) line_no)
      (get_token-Leaves c cs line_no)

pub NextLeaves-mono : (m n : ℕ) (t : Next) → m ≤ n → NextLeaves m t → NextLeaves n t
NextLeaves-mono m n (Next.got cur tok line_no) h k = omega arith
NextLeaves-mono m n Next.is_null h k = tt
NextLeaves-mono m n Next.tok_overflow h k = tt
NextLeaves-mono m n Next.tok_no_fuel h k = k

pub next-left :
    (cur : Cursor) (tok : Option Bytes) (line_no : ℕ) → NextLeaves (left cur) (next cur tok line_no)
unfolding next left get_token scan
next-left eof tok line_no = omega arith
next-left (at []) tok line_no = omega arith
next-left (at (c ∷ cs)) tok line_no =
    NextLeaves-mono (length cs) (suc (length cs)) _ (omega arith) (next-NextLeaves c cs tok line_no)

-- get_token never comes to the end of its fuel, which is more than the length of the rest of the
-- file.
get_token_ends : (str : Bytes) (line_no : ℕ) → get_token str line_no ≢ Token.out_of_fuel
unfolding get_token scan
get_token_ends [] line_no e = absurd cc
get_token_ends (c ∷ cs) line_no e = subst (Leaves (length cs)) e (get_token-Leaves c cs line_no)
