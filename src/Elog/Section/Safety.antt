-- ===== src/Elog/Section/Safety.antt =====
-- When the section parsers stay inside their objects: `buflen` bytes stand behind `p`.
use ppc64_diag.Base.{ℕ, zero, suc, ◌+◌, ◌*◌, ◌≤◌, ◌≢◌, Bool, arith, length, take, drop}
use ppc64_diag.Elog.Header.{V6Hdr, parse_section_header, parse_opal_datetime}
use ppc64_diag.Elog.Memory.{Bytes, read, field, IsSafe, Ensures, big_endian, OverWriteOnly, Any}
use ppc64_diag.Elog.Section.Fixed.{
  parse_mtms_scn, parse_hm_scn, parse_ep_scn, parse_mi_scn, parse_lr_scn,
}
use ppc64_diag.Elog.Section.Headers.{parse_priv_hdr_scn, parse_usr_hdr_scn}
use ppc64_diag.Elog.Section.Notice.{parse_dh_scn, parse_ie_scn}
use ppc64_diag.Elog.Section.Partition.{
  parse_lp_scn, parse_ei_scn, read_lps, read_readings, read_env,
}
use ppc64_diag.Elog.Section.Software.{parse_sw_scn}
use ppc64_diag.Elog.Section.Text.{parse_ud_scn, parse_ed_scn}

pub parse_opal_datetime-IsSafe :
    (mem : Bytes) (p : ℕ) → p + 8 ≤ length mem → IsSafe (parse_opal_datetime mem p)
unfolding parse_opal_datetime field
parse_opal_datetime-IsSafe mem p h = ground arith

module _ (allocated : Bool) (hdr : V6Hdr) (mem : Bytes) (p buflen : ℕ)
    (inside : p + buflen ≤ length mem) where
  -- With `buflen` bytes behind `p`, the parser of the private header makes no access outside an
  -- object, whatever the bytes are.
  parse_priv_hdr_scn-IsSafe : IsSafe (parse_priv_hdr_scn allocated hdr mem p buflen)
  unfolding parse_priv_hdr_scn read field
  parse_priv_hdr_scn-IsSafe =
      ground
        (arith, parse_opal_datetime-IsSafe mem (p + 8), parse_opal_datetime-IsSafe mem (p + 16))

  pub parse_usr_hdr_scn-IsSafe : IsSafe (parse_usr_hdr_scn allocated hdr mem p buflen)
  unfolding parse_usr_hdr_scn read field
  parse_usr_hdr_scn-IsSafe = ground arith

  pub parse_mtms_scn-IsSafe : IsSafe (parse_mtms_scn allocated hdr mem p buflen)
  unfolding parse_mtms_scn read field
  parse_mtms_scn-IsSafe = ground arith

  pub parse_hm_scn-IsSafe : IsSafe (parse_hm_scn allocated hdr mem p buflen)
  unfolding parse_hm_scn read field
  parse_hm_scn-IsSafe = ground arith

  pub parse_ep_scn-IsSafe : IsSafe (parse_ep_scn allocated hdr mem p buflen)
  unfolding parse_ep_scn read field
  parse_ep_scn-IsSafe = ground arith

  pub parse_mi_scn-IsSafe : IsSafe (parse_mi_scn allocated hdr mem p buflen)
  unfolding parse_mi_scn read field
  parse_mi_scn-IsSafe = ground arith

  pub parse_lr_scn-IsSafe : IsSafe (parse_lr_scn allocated hdr mem p buflen)
  unfolding parse_lr_scn read field
  parse_lr_scn-IsSafe = ground arith

  pub parse_ed_scn-IsSafe : IsSafe (parse_ed_scn allocated hdr mem p buflen)
  unfolding parse_ed_scn read field
  parse_ed_scn-IsSafe = ground arith

read_lps-IsSafe : (n : ℕ) (mem : Bytes) (p : ℕ) → p + n * 2 ≤ length mem → IsSafe (read_lps n mem p)
unfolding read_lps field
read_lps-IsSafe zero mem p h = tt
read_lps-IsSafe (suc n) mem p h = ground (arith, read_lps-IsSafe n mem (p + 2) (omega arith))

-- The number that a field holds.
abbrev number : Bytes → ℕ → ℕ → ℕ
number mem p n = big_endian 0 (take n (drop p mem))

read_env-IsSafe : (mem : Bytes) (p : ℕ) → p + 8 ≤ length mem → IsSafe (read_env mem p)
unfolding read_env field
read_env-IsSafe mem p h = ground arith

read_readings-IsSafe :
    (n : ℕ) (mem : Bytes) (p : ℕ) → p + n * 8 ≤ length mem → IsSafe (read_readings n mem p)
unfolding read_readings
read_readings-IsSafe zero mem p h = tt
read_readings-IsSafe (suc n) mem p h =
    ground
      (arith, read_env-IsSafe mem p (omega arith), read_readings-IsSafe n mem (p + 8) (omega arith))

module _ (allocated : Bool) (hdr : V6Hdr) (mem : Bytes) (p buflen : ℕ)
    (inside : p + buflen ≤ length mem) where
  -- With `buflen` bytes behind `p`, the parser of the partition section makes no access outside an
  -- object, if the section's length is not its fixed sixteen bytes.
  parse_lp_scn-IsSafe : hdr.length ≢ 16 → IsSafe (parse_lp_scn allocated hdr mem p buflen)
  unfolding parse_lp_scn read field
  parse_lp_scn-IsSafe h =
      ground (arith, read_lps-IsSafe (number mem (p + 11) 1) mem (p + (16 + number mem (p + 10) 1)))

  -- With `buflen` bytes behind `p`, the parser of the environment section makes no access outside
  -- an object, whatever the bytes are.
  parse_ei_scn-IsSafe : IsSafe (parse_ei_scn allocated hdr mem p buflen)
  unfolding parse_ei_scn field
  parse_ei_scn-IsSafe = ground (
    arith,
    read_env-IsSafe mem (p + 16),
    read_readings-IsSafe (number mem (p + 26) 2) mem (p + 28),
  )

  pub parse_dh_scn-Ensures :
      (heap_word : ℕ)
      → Ensures OverWriteOnly Any (parse_dh_scn allocated heap_word hdr mem p buflen)
  unfolding parse_dh_scn read field
  parse_dh_scn-Ensures heap_word = ground arith

  pub parse_ie_scn-Ensures : Ensures OverWriteOnly Any (parse_ie_scn allocated hdr mem p buflen)
  unfolding parse_ie_scn read field
  parse_ie_scn-Ensures = ground arith

  pub parse_sw_scn-Ensures : Ensures OverWriteOnly Any (parse_sw_scn allocated hdr mem p buflen)
  unfolding parse_sw_scn read field
  parse_sw_scn-Ensures = ground arith

  pub parse_ud_scn-IsSafe : hdr.length ≤ buflen → IsSafe (parse_ud_scn allocated hdr mem p buflen)
  unfolding parse_ud_scn read
  parse_ud_scn-IsSafe h = ground arith

pub parse_section_header-IsSafe :
    (mem : Bytes) (p buflen : ℕ)
    → p + buflen ≤ length mem
    → IsSafe (parse_section_header mem p buflen)
unfolding parse_section_header read field
parse_section_header-IsSafe mem p buflen h = ground arith
