-- ===== src/Elog/Fru/Bounds.antt =====
-- Where the callout parser reads and writes, and how much it consumes.
use ppc64_diag.Base.{ℕ, zero, suc, ◌+◌, ◌-◌, ◌≤◌, Bool, arith, length, has_flag, take, drop}
use ppc64_diag.Elog.Fru.{
  FruHead, parse_mrus, parse_src_fru_mr_scn, parse_src_fru_pe_scn, parse_src_fru_id_scn, parse_sub,
  parse_fru_scn, parse_fru_head, fru_scn_static_size,
}
use ppc64_diag.Elog.Memory.{
  Bytes, Outcome, read, field, big_endian, Ensures, Ensures-bind, OverWriteOnly,
}

-- A sub-parser that got `buflen` bytes read no others, and consumed at most those.
abbrev pub Within : {A : Type 0} → ℕ → Outcome (A × ℕ) → Type 0
Within buflen = Ensures OverWriteOnly (λ r. r.1 ≤ buflen)

pub parse_src_fru_id_scn-Within :
    (mem : Bytes) (p buflen : ℕ)
    → p + buflen ≤ length mem
    → Within buflen (parse_src_fru_id_scn mem p buflen)
unfolding parse_src_fru_id_scn read field
parse_src_fru_id_scn-Within mem p buflen h = ground arith

pub parse_src_fru_pe_scn-Within :
    (mem : Bytes) (p buflen : ℕ)
    → p + buflen ≤ length mem
    → Within buflen (parse_src_fru_pe_scn mem p buflen)
unfolding parse_src_fru_pe_scn read field
parse_src_fru_pe_scn-Within mem p buflen h = ground arith

parse_mrus-Within :
    (slots hdr_length : ℕ) (mem : Bytes) (p buflen min_length : ℕ)
    → p + buflen ≤ length mem
    → min_length ≤ buflen
    → Within buflen (parse_mrus slots hdr_length mem p buflen min_length)
unfolding parse_mrus read field
parse_mrus-Within zero hdr_length mem p buflen min_length h k = ground arith
parse_mrus-Within (suc slots) hdr_length mem p buflen min_length h k =
    ground (arith, parse_mrus-Within slots hdr_length mem p buflen (min_length + 8) h)

pub parse_src_fru_mr_scn-Within :
    (mem : Bytes) (p buflen : ℕ)
    → p + buflen ≤ length mem
    → Within buflen (parse_src_fru_mr_scn mem p buflen)
unfolding parse_src_fru_mr_scn read field
parse_src_fru_mr_scn-Within mem p buflen h =
    ground (arith, parse_mrus-Within 15 (big_endian 0 (take 1 (drop (p + 2) mem))) mem p buflen 8 h)

parse_sub-Within :
    {A : Type 0} (present : Bool) (parse : Bytes → ℕ → ℕ → Outcome (A × ℕ)) (mem : Bytes)
    (p buflen offset : ℕ)
    → p + buflen ≤ length mem
    → offset ≤ buflen
    → Within (buflen - offset) (parse mem (p + offset) (buflen - offset))
    → Within buflen (parse_sub present parse mem p buflen offset)
unfolding parse_sub
parse_sub-Within present parse mem p buflen offset h k w = ground arith

-- The head is read inside the buffer too, and the first sub-section begins inside it.
abbrev HeadWithin : ℕ → Outcome FruHead → Type 0
HeadWithin buflen = Ensures OverWriteOnly (λ head. fru_scn_static_size + head.loc_code_len ≤ buflen)

parse_fru_head-HeadWithin :
    (mem : Bytes) (p buflen : ℕ)
    → p + buflen ≤ length mem
    → HeadWithin buflen (parse_fru_head mem p buflen)
unfolding parse_fru_head read field
parse_fru_head-HeadWithin mem p buflen h = ground arith

-- The callout parser reads inside its buffer only, whatever the bytes are, and what it consumes
-- fits the buffer.
pub parse_fru_scn-Within :
    (mem : Bytes) (p buflen : ℕ)
    → p + buflen ≤ length mem
    → Within buflen (parse_fru_scn mem p buflen)
unfolding parse_fru_scn
parse_fru_scn-Within mem p buflen h =
    Ensures-bind OverWriteOnly (λ head. fru_scn_static_size + head.loc_code_len ≤ buflen) fits_in
      (parse_fru_head mem p buflen) _ (parse_fru_head-HeadWithin mem p buflen h)
      λ head k0.
        Ensures-bind OverWriteOnly fits_in fits_in
          (parse_sub (has_flag head.type 0x08) parse_src_fru_id_scn mem p buflen
            (fru_scn_static_size + head.loc_code_len))
          _
          (parse_sub-Within _ parse_src_fru_id_scn mem p buflen _ h k0
            (parse_src_fru_id_scn-Within mem _ _ (omega arith)))
          λ id k1.
            Ensures-bind OverWriteOnly fits_in fits_in
              (parse_sub (has_flag head.type 0x03) parse_src_fru_pe_scn mem p buflen id.1) _
              (parse_sub-Within _ parse_src_fru_pe_scn mem p buflen _ h k1
                (parse_src_fru_pe_scn-Within mem _ _ (omega arith)))
              λ pe k2.
                Ensures-bind OverWriteOnly fits_in fits_in
                  (parse_sub (has_flag head.type 0x04) parse_src_fru_mr_scn mem p buflen pe.1) _
                  (parse_sub-Within _ parse_src_fru_mr_scn mem p buflen _ h k2
                    (parse_src_fru_mr_scn-Within mem _ _ (omega arith)))
                  λ mr k3. ground arith
  where
    fits_in : {A : Type 0} → A × ℕ → Type 0
    fits_in r = r.1 ≤ buflen
