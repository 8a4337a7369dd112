-- ===== src/Elog/Section/Faults.antt =====
-- The lengths in a section that its parser trusts too far, and what it does with those that fit.
-- `buflen` bytes stand behind `p`.
use ppc64_diag.Base.{
  ℕ, ◌+◌, ◌≤◌, ◌<◌, ◌≡◌, true, false, ◌⊎◌, inl, inr, lt-cases, arith, length, take, drop, has_flag,
}
use ppc64_diag.Elog.Header.{V6Hdr}
use ppc64_diag.Elog.Memory.{
  Bytes, ok, fault, over_read, over_write, read, field, u8, u16, u32, big_endian, IsSafe,
}
use ppc64_diag.Elog.Section.Notice.{parse_dh_scn, parse_ie_scn}
use ppc64_diag.Elog.Section.Partition.{parse_lp_scn}
use ppc64_diag.Elog.Section.Software.{SwScn, SwV2, v2, parse_sw_scn}
use ppc64_diag.Elog.Section.Text.{parse_ud_scn}

-- A field inside the memory has a value.
pub field_inside : (mem : Bytes) (p n : ℕ) → p + n ≤ length mem → (v : ℕ) × (field mem p n ≡ ok v)
unfolding field
field_inside mem p n h = (big_endian 0 (take n (drop p mem)), ground arith)

module _ (hdr : V6Hdr) (mem : Bytes) (p buflen : ℕ) (inside : p + buflen ≤ length mem) where
  -- A dump section whose name is text, in a buffer that passes the parser's test for it: with a
  -- name of more than 40 bytes the parser writes behind its struct, and with any other name it
  -- makes no access outside an object.
  parse_dh_scn-over_write :
      (heap_word flags len : ℕ)
      → u8 mem (p + 12) ≡ ok flags
      → u8 mem (p + 15) ≡ ok len
      → has_flag flags 0x40 ≡ false
      → 64 + len ≤ buflen
      → (40 < len) × (parse_dh_scn true heap_word hdr mem p buflen ≡ fault over_write)
        ⊎ (len ≤ 40) × IsSafe (parse_dh_scn true heap_word hdr mem p buflen)
  unfolding parse_dh_scn read
  parse_dh_scn-over_write heap_word flags len f l text room =
      let dump_id = field_inside mem (p + 8) 4 (omega arith) in
      let dump_size = field_inside mem (p + 16) 8 (omega arith) in
      elim (lt-cases 40 len) [
        | inl long ↦ inl (long, ground arith)
        | inr short ↦ inr (short, ground arith)
      ]

  -- An impacted-entity section that passes an RPC through, in a buffer that has all of it: with
  -- more than 216 bytes the parser writes behind its struct, and otherwise not.
  parse_ie_scn-over_write :
      (len : ℕ)
      → u8 mem (p + 8) ≡ ok 0x04
      → u8 mem (p + 9) ≡ ok len
      → 16 + len ≤ buflen
      → (216 < len) × (parse_ie_scn true hdr mem p buflen ≡ fault over_write)
        ⊎ (len ≤ 216) × IsSafe (parse_ie_scn true hdr mem p buflen)
  unfolding parse_ie_scn read
  parse_ie_scn-over_write len t l room =
      let scope = field_inside mem (p + 10) 1 (omega arith) in
      let subtype = field_inside mem (p + 11) 1 (omega arith) in
      let drc = field_inside mem (p + 12) 4 (omega arith) in
      elim (lt-cases 216 len) [
        | inl long ↦ inl (long, ground arith)
        | inr short ↦ inr (short, ground (arith, field_inside mem (p + 16) 8))
      ]

  -- A user-defined section: the parser reads past the memory exactly where the section's own
  -- length goes past it, whatever the caller's length says.
  parse_ud_scn-over_read :
      8 ≤ buflen
      → 8 ≤ hdr.length
      → (length mem < p + hdr.length) × (parse_ud_scn true hdr mem p buflen ≡ fault over_read)
        ⊎ (p + hdr.length ≤ length mem) × IsSafe (parse_ud_scn true hdr mem p buflen)
  unfolding parse_ud_scn read
  parse_ud_scn-over_read b l = elim (lt-cases (length mem) (p + hdr.length)) [
    | inl out ↦ inl (out, ground arith)
    | inr fine ↦ inr (fine, ground arith)
  ]

  -- A partition section of sixteen bytes: the terminator of its name is written behind the struct.
  parse_lp_scn-over_write :
      16 ≤ buflen → hdr.length ≡ 16 → parse_lp_scn true hdr mem p buflen ≡ fault over_write
  unfolding parse_lp_scn field
  parse_lp_scn-over_write b l = ground arith

  -- A firmware section of the second version that is parsed: its fields come from the section's
  -- first twelve bytes, which hold the section header.
  parse_sw_scn_header :
      {sw : SwScn} {w : SwV2}
      → parse_sw_scn true hdr mem p buflen ≡ ok sw
      → sw.version ≡ v2 w
      → (u32 mem p ≡ ok w.rc)
        × (u16 mem (p + 4) ≡ ok w.file_id)
        × (u16 mem (p + 6) ≡ ok w.location_id)
        × (u32 mem (p + 8) ≡ ok w.object_id)
  unfolding parse_sw_scn
  parse_sw_scn_header e v = ground arith
