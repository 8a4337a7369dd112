-- ===== src/Elog/Section/Partition.antt =====
-- opal-lp-scn.c and opal-ei-scn.c: the logical partition and the environment sections, which end
-- in arrays whose number of entries stands in the section. `allocated` says whether the parser's
-- call of malloc succeeds.
use ppc64_diag.Base.{ℕ, zero, suc, ◌+◌, ◌*◌, Bool, not, ltb, List, [], ◌∷◌, ◌||◌}
use ppc64_diag.Elog.Header.{V6Hdr, check_buflen}
use ppc64_diag.Elog.Memory.{
  Bytes, Outcome, einval, enomem, ok, ◌>>=◌, ◌>>◌, guard, read, fits, u8, u16, u32, u64,
}

-- `for(i = 0; i < lp->lp_count; i++) lps[i] = be16toh(lpsbuf[i]);`
unfoldable pub read_lps : ℕ → Bytes → ℕ → Outcome (List ℕ)
read_lps zero mem p = ok []
read_lps (suc n) mem p = do lp ← u16 mem p; lps ← read_lps n mem (p + 2); ok (lp ∷ lps)

pub record LpScn : Type 0 where
  pub v6hdr : V6Hdr
  pub primary : ℕ
  pub length_name : ℕ
  pub lp_count : ℕ
  pub partition_id : ℕ
  pub name : Bytes
  pub lps : List ℕ

abbrev pub sizeof_lp_scn : ℕ
sizeof_lp_scn = 16

-- `name` has no size of its own: `lp->name[0] = '\0'` writes behind the sixteen bytes.
unfoldable pub parse_lp_scn : Bool → V6Hdr → Bytes → ℕ → ℕ → Outcome LpScn
parse_lp_scn allocated hdr mem p buflen = do
  guard (not (ltb buflen sizeof_lp_scn || ltb hdr.length sizeof_lp_scn)) einval
  guard allocated enomem
  primary ← u16 mem (p + 8)
  length_name ← u8 mem (p + 10)
  lp_count ← u8 mem (p + 11)
  partition_id ← u32 mem (p + 12)
  fits sizeof_lp_scn 1 hdr.length
  let name_end = sizeof_lp_scn + length_name
  guard (not (ltb buflen name_end || ltb hdr.length name_end)) einval
  name ← read mem (p + 16) length_name
  let lps_end = name_end + lp_count * 2
  guard (not (ltb buflen lps_end || ltb hdr.length lps_end)) einval
  lps ← read_lps lp_count mem (p + name_end)
  ok (record {
    v6hdr = hdr;
    primary = primary;
    length_name = length_name;
    lp_count = lp_count;
    partition_id = partition_id;
    name = name;
    lps = lps;
  })

pub record EnvScn : Type 0 where
  pub corrosion : ℕ
  pub temperature : ℕ
  pub rate : ℕ

unfoldable pub read_env : Bytes → ℕ → Outcome EnvScn
read_env mem p = do
  corrosion ← u32 mem p
  temperature ← u16 mem (p + 4)
  rate ← u16 mem (p + 6)
  ok (record { corrosion = corrosion; temperature = temperature; rate = rate })

-- `for (i = 0; i < ei->read_count; i++)`.
unfoldable pub read_readings : ℕ → Bytes → ℕ → Outcome (List EnvScn)
read_readings zero mem p = ok []
read_readings (suc n) mem p = do
  reading ← read_env mem p
  readings ← read_readings n mem (p + 8)
  ok (reading ∷ readings)

pub record EiScn : Type 0 where
  pub v6hdr : V6Hdr
  pub g_timestamp : ℕ
  pub genesis : EnvScn
  pub status : ℕ
  pub user_data_scn : ℕ
  pub read_count : ℕ
  pub readings : List EnvScn

abbrev pub sizeof_ei_scn : ℕ
sizeof_ei_scn = 28

unfoldable pub parse_ei_scn : Bool → V6Hdr → Bytes → ℕ → ℕ → Outcome EiScn
unfolding check_buflen
parse_ei_scn allocated hdr mem p buflen = do
  check_buflen buflen sizeof_ei_scn
  check_buflen hdr.length sizeof_ei_scn
  guard allocated enomem
  g_timestamp ← u64 mem (p + 8)
  genesis ← read_env mem (p + 16)
  status ← u8 mem (p + 24)
  user_data_scn ← u8 mem (p + 25)
  read_count ← u16 mem (p + 26)
  check_buflen hdr.length (sizeof_ei_scn + read_count * 8)
  check_buflen buflen (sizeof_ei_scn + read_count * 8)
  readings ← read_readings read_count mem (p + 28)
  ok (record {
    v6hdr = hdr;
    g_timestamp = g_timestamp;
    genesis = genesis;
    status = status;
    user_data_scn = user_data_scn;
    read_count = read_count;
    readings = readings;
  })
