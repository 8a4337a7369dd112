-- ===== src/Elog/Section/Fixed.antt =====
-- opal-mtms-scn.c, opal-hm-scn.c, opal-ep-scn.c, opal-mi-scn.c and opal-lr-scn.c: the sections of
-- one fixed size. `allocated` says whether the parser's call of malloc succeeds.
use ppc64_diag.Base.{ℕ, ◌+◌, Bool, not, ltb, ◌==◌}
use ppc64_diag.Elog.Header.{V6Hdr, Mtms, copy_mtms_struct}
use ppc64_diag.Elog.Memory.{Bytes, Outcome, einval, enomem, ok, ◌>>=◌, ◌>>◌, guard, u8, u16, u32}

pub record MtmsScn : Type 0 where
  pub v6hdr : V6Hdr
  pub mtms : Mtms

abbrev pub sizeof_mtms_scn : ℕ
sizeof_mtms_scn = 28

unfoldable pub parse_mtms_scn : Bool → V6Hdr → Bytes → ℕ → ℕ → Outcome MtmsScn
unfolding copy_mtms_struct
parse_mtms_scn allocated hdr mem p buflen = do
  guard (not (ltb buflen sizeof_mtms_scn)) einval
  guard (hdr.length == sizeof_mtms_scn) einval
  guard allocated enomem
  mtms ← copy_mtms_struct mem (p + 8)
  ok (record { v6hdr = hdr; mtms = mtms })

-- The struct of the HM section has the fields of the MT section's.
unfoldable pub parse_hm_scn : Bool → V6Hdr → Bytes → ℕ → ℕ → Outcome MtmsScn
unfolding copy_mtms_struct
parse_hm_scn allocated hdr mem p buflen = do
  guard (not (ltb buflen sizeof_mtms_scn)) einval
  guard allocated enomem
  mtms ← copy_mtms_struct mem (p + 8)
  ok (record { v6hdr = hdr; mtms = mtms })

pub record EpScn : Type 0 where
  pub v6hdr : V6Hdr
  pub value : ℕ
  pub modifier : ℕ
  pub ext_modifier : ℕ
  pub reason : ℕ

unfoldable pub parse_ep_scn : Bool → V6Hdr → Bytes → ℕ → ℕ → Outcome EpScn
parse_ep_scn allocated hdr mem p buflen = do
  guard (not (ltb buflen 16)) einval
  guard allocated enomem
  value ← u8 mem (p + 8)
  modifier ← u8 mem (p + 9)
  ext_modifier ← u16 mem (p + 10)
  reason ← u32 mem (p + 12)
  ok (record {
    v6hdr = hdr;
    value = value;
    modifier = modifier;
    ext_modifier = ext_modifier;
    reason = reason;
  })

pub record MiScn : Type 0 where
  pub v6hdr : V6Hdr
  pub flags : ℕ

unfoldable pub parse_mi_scn : Bool → V6Hdr → Bytes → ℕ → ℕ → Outcome MiScn
parse_mi_scn allocated hdr mem p buflen = do
  guard (not (ltb buflen 16)) einval
  guard allocated enomem
  flags ← u32 mem (p + 8)
  ok (record { v6hdr = hdr; flags = flags })

pub record LrScn : Type 0 where
  pub v6hdr : V6Hdr
  pub res_type : ℕ
  pub capacity : ℕ
  pub shared : ℕ
  pub memory_addr : ℕ

unfoldable pub parse_lr_scn : Bool → V6Hdr → Bytes → ℕ → ℕ → Outcome LrScn
parse_lr_scn allocated hdr mem p buflen = do
  guard (not (ltb buflen 20)) einval
  guard allocated enomem
  res_type ← u8 mem (p + 8)
  capacity ← u16 mem (p + 10)
  shared ← u32 mem (p + 12)
  memory_addr ← u32 mem (p + 16)
  ok (record {
    v6hdr = hdr;
    res_type = res_type;
    capacity = capacity;
    shared = shared;
    memory_addr = memory_addr;
  })
