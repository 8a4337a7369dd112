-- ===== src/Elog/Src/Bounds.antt =====
-- Where the SRC parser reads, and what it returns.
use ppc64_diag.Base.{
  ℕ, zero, suc, ◌+◌, ◌-◌, ◌*◌, ◌≤◌, ◌≡◌, refl, Bool, arith, length, ltb, Bool-cases, inl, inr, take,
  drop,
}
use ppc64_diag.Elog.Fru.Bounds.{parse_fru_scn-Within}
use ppc64_diag.Elog.Fru.{parse_fru_scn}
use ppc64_diag.Elog.Header.{V6Hdr}
use ppc64_diag.Elog.Memory.{
  Bytes, read, field, Ensures, Ensures-bind, OverWriteOnly, NoFault, big_endian,
}
use ppc64_diag.Elog.Src.{parse_frus, parse_src_scn, parse_callouts, read_words, src_fru_max}

pub read_words-Ensures :
    (n : ℕ) (mem : Bytes) (p : ℕ)
    → p + 4 * n ≤ length mem
    → Ensures NoFault (λ words. length words ≡ n) (read_words n mem p)
unfolding read_words field
read_words-Ensures zero mem p h = refl
read_words-Ensures (suc n) mem p h = ground (arith, read_words-Ensures n mem (p + 4) (omega arith))

parse_frus-Ensures :
    (slots srclength : ℕ) (mem : Bytes) (p buflen offset : ℕ)
    → p + buflen ≤ length mem
    → offset ≤ buflen
    → Ensures OverWriteOnly
        (λ frus. length frus ≤ slots)
        (parse_frus slots srclength mem p buflen offset)
unfolding parse_frus
parse_frus-Ensures zero srclength mem p buflen offset h k = omega arith
parse_frus-Ensures (suc slots) srclength mem p buflen offset h k =
    elim (Bool-cases (ltb offset srclength)) [
      | inl more ↦ rw more (
          Ensures-bind OverWriteOnly (λ r. r.1 ≤ buflen - offset) _
            (parse_fru_scn mem (p + offset) (buflen - offset)) _
            (parse_fru_scn-Within mem (p + offset) (buflen - offset) (omega arith))
            λ r fits_in.
              Ensures-bind OverWriteOnly (λ frus. length frus ≤ slots) _
                (parse_frus slots srclength mem p buflen (offset + r.1)) _
                (parse_frus-Ensures slots srclength mem p buflen (offset + r.1) h (omega arith))
                λ frus few. omega arith)
      | inr done ↦ rw done (omega arith)
    ]

parse_callouts-Ensures :
    (flags srclength : ℕ) (mem : Bytes) (p buflen : ℕ)
    → p + buflen ≤ length mem
    → Ensures OverWriteOnly
        (λ callouts. length callouts.fru ≤ src_fru_max)
        (parse_callouts flags srclength mem p buflen)
unfolding parse_callouts field
parse_callouts-Ensures flags srclength mem p buflen h =
    ground (arith, parse_frus-Ensures src_fru_max srclength mem p buflen 84 h)

-- Whatever the bytes of the section are, the SRC parser reads inside its buffer only, and a
-- section that is parsed has at most ten callouts and its eight extended reference codes.
pub parse_src_scn-Ensures :
    (allocated : Bool) (hdr : V6Hdr) (mem : Bytes) (p buflen : ℕ)
    → p + buflen ≤ length mem
    → Ensures OverWriteOnly
        (λ src. (length src.fru ≤ src_fru_max) × (length src.ext_refcode ≡ 8))
        (parse_src_scn allocated hdr mem p buflen)
unfolding parse_src_scn read field
parse_src_scn-Ensures allocated hdr mem p buflen h = ground (
  arith,
  read_words-Ensures 8 mem (p + 16),
  parse_callouts-Ensures (big_endian 0 (take 1 (drop (p + 9) mem)))
      (big_endian 0 (take 2 (drop (p + 14) mem))) mem p buflen h,
)
