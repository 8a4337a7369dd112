-- ===== src/Rtas/Ela/Registers.antt =====
-- get_register_data of rtas_errd/ela.c: where the log has a register, behind the location codes.
use ppc64_diag.Base.{
  ℕ, zero, suc, ◌+◌, ◌-◌, ltb, leb, ◌==◌, not, ◌&&◌, ◌||◌, if◌then◌else◌, [], ◌∷◌, Option, some,
  none, drop,
}
use ppc64_diag.Elog.Memory.{Bytes}
use ppc64_diag.Errd.Files.{starts_with}
use ppc64_diag.Rtas.Ela.State.{Event, byte, half}

-- I_IBM, EXT_EPOW_REG_ID, SRC_REG_ID_02, PCI_EPOW_REG_ID and SRC_REG_ID_04.
abbrev pub i_ibm : ℕ
i_ibm = 48

abbrev pub ext_epow_reg_id : ℕ
ext_epow_reg_id = 0x3031

abbrev pub src_reg_id_02 : ℕ
src_reg_id_02 = 0x3032

abbrev pub pci_epow_reg_id : ℕ
pci_epow_reg_id = 0x3033

abbrev pub src_reg_id_04 : ℕ
src_reg_id_04 = 0x3034

abbrev pub ibm : Bytes
ibm = b'I' ∷ b'B' ∷ b'M' ∷ []

-- `strstr(s, "IBM")`: how far from the start of the string, which ends at a NUL.
unfoldable pub find_ibm : Bytes → Option ℕ
unfolding starts_with
find_ibm [] = none
find_ibm (c ∷ s) =
    let rest = find_ibm s in
    if starts_with ibm (c ∷ s)
    then some 0
    else if c == 0
    then none
    else (elim rest [ none ↦ none | some n ↦ some (suc n) ])

-- The string up to its NUL.
unfoldable pub string_at : Bytes → Bytes
string_at [] = []
string_at (c ∷ s) = let rest = string_at s in if c == 0 then [] else c ∷ rest

abbrev count_bytes : Bytes → ℕ
count_bytes [] = 0
count_bytes (c ∷ s) = suc (count_bytes s)

-- Up to the four bytes whose last one is NUL; the fuel is the length of the log.
unfoldable pub pad_loop : ℕ → Event → ℕ → ℕ
unfolding byte
pad_loop zero e q = q
pad_loop (suc fuel) e q =
    let rest = pad_loop fuel e (q + 4) in
    if not (byte e (q + 3) == 0) && ltb q e.length then rest else q

-- The loop over the registers from `p`: where the data of the register are, and their length. A
-- register that is passed over takes 5 bytes or more, so a fuel of the length of the log is enough.
-- The length of a register of size 3, which is -1, is 0 here; it is only compared with 36.
unfoldable pub register_loop : ℕ → Event → ℕ → ℕ → Option (ℕ × ℕ)
unfolding half
register_loop zero e rid p = none
register_loop (suc fuel) e rid p =
    let size = half e p in
    let rest = register_loop fuel e rid (p + size) in
    if leb size 2 || leb 0x8000 size
    then none
    else if half e (p + 2) == rid
    then some (p + 4, size - 4)
    else if leb e.length (p + size)
    then none
    else if leb size 4
    then none
    else rest

unfoldable pub get_register_data : Event → ℕ → Option (ℕ × ℕ)
unfolding find_ibm string_at pad_loop register_loop
get_register_data e rid = elim (find_ibm (drop i_ibm e.event_buf)) [
  | none ↦ none
  | some n ↦
      let p = i_ibm + n in
      let q = p + count_bytes (string_at (drop p e.event_buf)) + 1 in
      let first = pad_loop e.length e q + 4 in
      if leb e.length first then none else register_loop e.length e rid first
]

-- The location codes of process_pre_v6: the string 4 bytes behind the tag, where it is not empty.
unfoldable pub find_loc_codes : Event → Option Bytes
unfolding find_ibm string_at
find_loc_codes e = elim (find_ibm (drop i_ibm e.event_buf)) [
  | none ↦ none
  | some n ↦ elim (string_at (drop (i_ibm + n + 4) e.event_buf)) [
    | [] ↦ none
    | c ∷ s ↦ some (c ∷ s)
  ]
]

-- get_ext_epow.
unfoldable pub get_ext_epow : Event → ℕ
unfolding get_register_data half
get_ext_epow e = elim (get_register_data e ext_epow_reg_id) [ none ↦ 0 | some (p, size) ↦ half e p ]
