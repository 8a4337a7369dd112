-- ===== src/Rtas/Config/Ending.antt =====
-- The loop over the entries of the configuration file ends.
use mathlib.Core.Bool.{false≢true}
use ppc64_diag.Rtas.Config.{
  is_null, tok_overflow, tok_no_fuel, Cursor, Entry, Next, at, behind_equals, entry, eof,
  get_config_num, get_config_string, got, is_equals, is_newline, next, num_value, path_length,
  string_loop, string_value,
}
use ppc64_diag.Rtas.Config.Entries.{
  auto_restart_policy_name, min_entitled_capacity_name, min_processors_name, no_name,
  platform_dump_path_name, scanlog_dump_path_name, Config, Ending, Name, entries_loop,
  get_restart_policy_value, init_d_cfg, name_of, parse_config_entries, policy_value, read_named,
  slashed, then_set, with_slash,
}
use ppc64_diag.Rtas.Config.Tokens.{
  EntryLeaves, NextLeaves, NextLeaves-mono, left, next-NextLeaves, next-left,
}
use ppc64_diag.Base.{
  ℕ, zero, suc, ◌≤◌, ◌<◌, ◌≡◌, ◌≢◌, refl, sym, ap, ◌∙◌, arith, ltb, Bool, Bool-cases, length-append,
  inl, inr, ◌+◌, true, false, if◌then◌else◌, [], ◌∷◌, ◌++◌, Option, some, none, length,
}
use ppc64_diag.Elog.Memory.{Bytes}

num_value-EntryLeaves : (n : ℕ) (t : Next) → NextLeaves n t → EntryLeaves n (num_value t)
unfolding num_value
num_value-EntryLeaves n (Next.got cur none line_no) h = tt
num_value-EntryLeaves n (Next.got cur (some tok) line_no) h = h
num_value-EntryLeaves n Next.is_null h = tt
num_value-EntryLeaves n Next.tok_overflow h = tt
num_value-EntryLeaves n Next.tok_no_fuel h = absurd h

policy_value-EntryLeaves : (n : ℕ) (t : Next) → NextLeaves n t → EntryLeaves n (policy_value t)
unfolding policy_value
policy_value-EntryLeaves n (Next.got cur none line_no) h = tt
policy_value-EntryLeaves n (Next.got cur (some tok) line_no) h = h
policy_value-EntryLeaves n Next.is_null h = tt
policy_value-EntryLeaves n Next.tok_overflow h = tt
policy_value-EntryLeaves n Next.tok_no_fuel h = absurd h

next_mono :
    (n : ℕ) (cur : Cursor) (tok : Option Bytes) (line_no : ℕ)
    → left cur ≤ n
    → NextLeaves n (next cur tok line_no)
next_mono n cur tok line_no h = NextLeaves-mono (left cur) n _ h (next-left cur tok line_no)

string_loop-EntryLeaves :
    (fuel n : ℕ) (buf : Bytes) (t : Next)
    → length buf < path_length
    → path_length ≤ fuel + length buf
    → NextLeaves n t
    → EntryLeaves n (string_loop fuel buf t)
unfolding string_loop
string_loop-EntryLeaves zero n buf t b f h = absurd (omega arith)
string_loop-EntryLeaves (suc fuel) n buf (Next.got cur none line_no) b f h = tt
string_loop-EntryLeaves (suc fuel) n buf Next.is_null b f h = tt
string_loop-EntryLeaves (suc fuel) n buf Next.tok_overflow b f h = tt
string_loop-EntryLeaves (suc fuel) n buf Next.tok_no_fuel b f h = absurd h
string_loop-EntryLeaves (suc fuel) n buf (Next.got cur (some tok) line_no) b f h =
    let longer = buf ++ b' ' ∷ tok in
    let rest = string_loop fuel longer (next cur (some tok) line_no) in
    elim (is_newline tok)
      as (λ b. EntryLeaves n (
        if b
        then entry buf cur line_no
        else (if ltb (length longer) path_length then rest else Entry.overflow))) [
          | true ↦ h
          | false ↦ elim (Bool-cases (ltb (length longer) path_length)) [
            | inl fits ↦ rw fits (
                string_loop-EntryLeaves fuel n longer _ (ground arith)
                  (omega (arith, length-append {0} buf (b' ' ∷ tok)))
                  (next_mono n cur (some tok) line_no h))
            | inr full ↦ rw full tt
          ]
        ]

string_value-EntryLeaves : (n : ℕ) (t : Next) → NextLeaves n t → EntryLeaves n (string_value t)
unfolding string_value
string_value-EntryLeaves n (Next.got cur none line_no) h = tt
string_value-EntryLeaves n Next.is_null h = tt
string_value-EntryLeaves n Next.tok_overflow h = tt
string_value-EntryLeaves n Next.tok_no_fuel h = absurd h
string_value-EntryLeaves n (Next.got cur (some tok) line_no) h =
    elim (Bool-cases (ltb (length tok) path_length)) [
      | inl fits ↦ rw fits (
          string_loop-EntryLeaves path_length n tok _ (ground arith) (omega arith)
            (next_mono n cur (some tok) line_no h))
      | inr full ↦ rw full tt
    ]

behind_equals-EntryLeaves :
    {A : Type 0} (n : ℕ) (value : Next → Entry A) (t : Next)
    → ((m : ℕ) (u : Next) → NextLeaves m u → EntryLeaves m (value u))
    → NextLeaves n t
    → EntryLeaves n (behind_equals value t)
unfolding behind_equals
behind_equals-EntryLeaves n value (Next.got cur none line_no) k h = tt
behind_equals-EntryLeaves n value Next.is_null k h = tt
behind_equals-EntryLeaves n value Next.tok_overflow k h = tt
behind_equals-EntryLeaves n value Next.tok_no_fuel k h = absurd h
behind_equals-EntryLeaves n value (Next.got cur (some tok) line_no) k h =
    elim (is_equals tok)
      as (λ b. EntryLeaves n (if b then value (next cur (some tok) line_no) else Entry.no_entry)) [
        | true ↦ k n _ (next_mono n cur (some tok) line_no h)
        | false ↦ tt
      ]

then_set-EntryLeaves :
    {A : Type 0} (n : ℕ) (set : A → Config) (e : Entry A)
    → EntryLeaves n e
    → EntryLeaves n (then_set set e)
unfolding then_set
then_set-EntryLeaves n set (Entry.entry a cur line_no) h = h
then_set-EntryLeaves n set Entry.no_entry h = tt
then_set-EntryLeaves n set Entry.unset h = tt
then_set-EntryLeaves n set Entry.overflow h = tt
then_set-EntryLeaves n set Entry.unfinished h = absurd h

slashed-EntryLeaves : (n : ℕ) (e : Entry Bytes) → EntryLeaves n e → EntryLeaves n (slashed e)
unfolding slashed
slashed-EntryLeaves n (Entry.entry path cur line_no) h =
    elim (with_slash path)
      as (λ o.
        EntryLeaves n (elim o [ some longer ↦ entry longer cur line_no | none ↦ Entry.overflow ])) [
          | some longer ↦ h
          | none ↦ tt
        ]
slashed-EntryLeaves n Entry.no_entry h = tt
slashed-EntryLeaves n Entry.unset h = tt
slashed-EntryLeaves n Entry.overflow h = tt
slashed-EntryLeaves n Entry.unfinished h = absurd h

read_named-EntryLeaves :
    (configured : ℕ → Bool) (update : Bool) (name : Name) (cur : Cursor) (line_no n : ℕ)
    (cfg : Config)
    → left cur ≤ n
    → EntryLeaves n (read_named configured update name cur line_no cfg)
unfolding read_named get_config_num get_config_string get_restart_policy_value
read_named-EntryLeaves configured update name cur line_no n cfg h =
    let start = next_mono n cur none line_no h in
    let num = behind_equals-EntryLeaves n num_value _ num_value-EntryLeaves start in
    let path =
      slashed-EntryLeaves n _
        (behind_equals-EntryLeaves n string_value _ string_value-EntryLeaves start) in
    let policy = behind_equals-EntryLeaves n policy_value _ policy_value-EntryLeaves start in
    elim name as (λ x. EntryLeaves n (read_named configured update x cur line_no cfg)) [
      | min_processors_name ↦ then_set-EntryLeaves n _ _ num
      | min_entitled_capacity_name ↦ then_set-EntryLeaves n _ _ num
      | scanlog_dump_path_name ↦ then_set-EntryLeaves n _ _ path
      | platform_dump_path_name ↦ then_set-EntryLeaves n _ _ path
      | auto_restart_policy_name ↦ then_set-EntryLeaves n _ _ policy
      | no_name ↦ tt
    ]

is_fuelled : Ending → Bool
is_fuelled Ending.no_fuel = false
is_fuelled _ = true

entries_loop-fuelled :
    (fuel n : ℕ) (configured : ℕ → Bool) (update : Bool) (e : Entry Config)
    → EntryLeaves n e
    → n < fuel
    → is_fuelled (entries_loop fuel configured update e) ≡ true
unfolding entries_loop left is_fuelled
entries_loop-fuelled zero n configured update e h k = absurd (omega arith)
entries_loop-fuelled (suc fuel) n configured update Entry.no_entry h k = refl
entries_loop-fuelled (suc fuel) n configured update Entry.unset h k = refl
entries_loop-fuelled (suc fuel) n configured update Entry.overflow h k = refl
entries_loop-fuelled (suc fuel) n configured update Entry.unfinished h k = absurd h
entries_loop-fuelled (suc fuel) n configured update (Entry.entry cfg eof line_no) h k = refl
entries_loop-fuelled (suc fuel) n configured update (Entry.entry cfg (at []) line_no) h k = refl
entries_loop-fuelled (suc fuel) n configured update (Entry.entry cfg (at (c ∷ cs)) line_no) h k =
    (elim (next (at (c ∷ cs)) none line_no)
        as (λ t.
          NextLeaves (length cs) t
          → is_fuelled (elim t [
            | got eof tok line_no' ↦ Ending.parsed cfg
            | got (at rest) none line_no' ↦ Ending.faulty
            | got (at rest) (some tok) line_no' ↦ entries_loop fuel configured update (
                if is_newline tok
                then entry cfg (at rest) line_no'
                else read_named configured update (name_of tok) (at rest) line_no' cfg)
            | is_null ↦ Ending.parse_error
            | tok_overflow ↦ Ending.faulty
            | tok_no_fuel ↦ Ending.no_fuel
          ])
            ≡ true) [
              | got eof tok line_no' ↦ λ less. refl
              | got (at rest) none line_no' ↦ λ less. refl
              | got (at rest) (some tok) line_no' ↦ λ less.
                  entries_loop-fuelled fuel (length cs) configured update _
                    (elim (is_newline tok)
                      as (λ b. EntryLeaves (length cs) (
                        if b
                        then entry cfg (at rest) line_no'
                        else read_named configured update (name_of tok) (at rest) line_no' cfg)) [
                          | true ↦ less
                          | false ↦
                              read_named-EntryLeaves configured update (name_of tok) (at rest)
                                line_no' (length cs) cfg less
                        ])
                    (omega arith)
              | is_null ↦ λ less. refl
              | tok_overflow ↦ λ less. refl
              | tok_no_fuel ↦ λ less. absurd less
            ])
      (next-NextLeaves c cs none line_no)

-- parse_config_entries ends on every file: with a configuration, with an error, or in a fault.
-- Neither its own loop nor those of the tokenizer and of the values run out of fuel.
pub parse_config_entries_ends :
    (configured : ℕ → Bool) (update : Bool) (file : Bytes)
    → parse_config_entries configured update file ≢ Ending.no_fuel
unfolding parse_config_entries left is_fuelled
parse_config_entries_ends configured update file e =
    let fuelled =
      entries_loop-fuelled (suc (length file)) (length file) configured update
        (entry init_d_cfg (at file) 1) (omega arith) (omega arith) in
    false≢true (sym (ap is_fuelled e) ∙ fuelled)
