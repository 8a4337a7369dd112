-- ===== src/Elog/Fru/Overflow.antt =====
-- The array of MRUs of a callout: when the parser writes behind its last element, and when a
-- callout is safe to parse.
use ppc64_diag.Base.{
  ℕ, zero, suc, ◌+◌, ◌*◌, ◌%◌, ◌≤◌, ◌<◌, ◌≡◌, arith, length, ◌⊎◌, inl, inr, lt-cases,
}
use ppc64_diag.Elog.Fru.{
  FruScn, FruHdr, parse_mrus, parse_src_fru_mr_scn, parse_fru_scn, parse_opal_fru_hdr, parse_sub,
  parse_fru_head,
}
use ppc64_diag.Elog.Memory.{Bytes, ok, fault, over_write, read, field, IsSafe}

parse_mrus-over_write :
    (slots hdr_length : ℕ) (mem : Bytes) (p buflen min_length : ℕ)
    → p + buflen ≤ length mem
    → min_length + 8 * slots + 8 ≤ hdr_length
    → min_length + 8 * slots + 8 ≤ buflen
    → parse_mrus slots hdr_length mem p buflen min_length ≡ fault over_write
unfolding parse_mrus read field
parse_mrus-over_write zero hdr_length mem p buflen min_length h k l = ground arith
parse_mrus-over_write (suc slots) hdr_length mem p buflen min_length h k l = ground (
  arith,
  parse_mrus-over_write slots hdr_length mem p buflen (min_length + 8) h (omega arith)
      (omega arith),
)

parse_mrus-IsSafe :
    (slots hdr_length : ℕ) (mem : Bytes) (p buflen min_length : ℕ)
    → p + buflen ≤ length mem
    → (hdr_length < min_length + 8 * slots + 8) ⊎ (buflen < min_length + 8 * slots + 8)
    → IsSafe (parse_mrus slots hdr_length mem p buflen min_length)
unfolding parse_mrus read field
parse_mrus-IsSafe zero hdr_length mem p buflen min_length h k = ground arith
parse_mrus-IsSafe (suc slots) hdr_length mem p buflen min_length h k =
    ground (arith, parse_mrus-IsSafe slots hdr_length mem p buflen (min_length + 8) h (omega arith))

-- Let an MR sub-section begin with the header `hdr`, inside the buffer. If the header's length and
-- the buffer have room for sixteen MRUs or more, the parser writes behind `mr->mru`, which has
-- fifteen. Otherwise it makes no access outside an object.
pub parse_src_fru_mr_scn-over_write :
    (mem : Bytes) (p buflen : ℕ) (hdr : FruHdr)
    → p + buflen ≤ length mem
    → parse_opal_fru_hdr mem p ≡ ok hdr
    → hdr.type ≡ 0x4d52
    → (136 ≤ hdr.length) × (136 ≤ buflen) × (parse_src_fru_mr_scn mem p buflen ≡ fault over_write)
      ⊎ ((hdr.length < 136) ⊎ (buflen < 136)) × IsSafe (parse_src_fru_mr_scn mem p buflen)
unfolding parse_src_fru_mr_scn read
parse_src_fru_mr_scn-over_write mem p buflen hdr h e t =
    let bounded : (hdr.length < 136) ⊎ (buflen < 136) → IsSafe (parse_src_fru_mr_scn mem p buflen) =
      λ k. ground (arith, parse_mrus-IsSafe 15 hdr.length mem p buflen 8 h k) in
    elim (lt-cases hdr.length 136) [
      | inl k ↦ inr (inl k, bounded (inl k))
      | inr k ↦ elim (lt-cases buflen 136) [
        | inl l ↦ inr (inr l, bounded (inr l))
        | inr l ↦
            inl (k, l, ground (arith, parse_mrus-over_write 15 hdr.length mem p buflen 8 h k l))
      ]
    ]

-- A callout that is parsed has consumed as many bytes as its first byte says, at least the four
-- fixed ones and the location code, whose length is a multiple of four of at most 80.
parse_fru_scn_consumed :
    (mem : Bytes) (p buflen : ℕ) {r : FruScn × ℕ}
    → parse_fru_scn mem p buflen ≡ ok r
    → (r.1 ≡ r.0.length)
      × (4 + r.0.loc_code_len ≤ r.1)
      × (r.0.loc_code_len ≤ 80)
      × (r.0.loc_code_len % 4 ≡ 0)
unfolding parse_fru_scn parse_sub parse_fru_head
parse_fru_scn_consumed mem p buflen e = ground arith
