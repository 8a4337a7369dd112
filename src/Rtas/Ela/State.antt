-- ===== src/Rtas/Ela/State.antt =====
-- What error log analysis works on: the event with the entry for servicelog that it fills, the
-- static variables of get_loc_code and the global variables of ela.c. Allocations succeed.
use ppc64_diag.Base.{ℕ, ◌+◌, ◌*◌, ◌==◌, if◌then◌else◌, Bool, List, Option, get_or, set}
use ppc64_diag.Elog.Memory.{Bytes}
use ppc64_diag.Rtas.Ela.Message.{Message}
use ppc64_diag.Rtas.Ela.Description.{Description, no_description}
use ppc64_diag.Rtas.Ela.Tables.{Table, number}

-- What ends the daemon, or is undefined; `no_fuel` is no behaviour of the code.
pub data Crash : Type 0 where
  null_read double_free bad_free over_write exits no_fuel : Crash

pub data Run {ℓ} (A : Type ℓ) : Type ℓ where
  done : A → Run A
  crash : Crash → Run A

infixl 5 ◌>>=◌
abbrev pub ◌>>=◌ {ℓ κ} : {A : Type ℓ} {B : Type κ} → Run A → (A → Run B) → Run B
done a >>= f = f a
crash c >>= f = crash c

-- The `refcode` of the entry: "%03hX-%03hX" of a source number and a reason code, "%0X" of a POST
-- error code, or '#' and the number of a menu goal.
pub data Srn : Type 0 where
  srn : ℕ → ℕ → Srn
  post_code : ℕ → Srn
  menu : ℕ → Srn

-- The `description`: a message, or a menu goal behind its number.
pub data Text : Type 0 where
  text : Message → Text
  goal : Message → Text

-- A callout of the entry; `procedure` is a reference code, none for "n/a". The priority is ' ' and
-- the type 0 for each.
pub record Callout : Type 0 where
  pub procedure : Option (ℕ × ℕ)
  pub location : Bytes
  pub part_number : Bytes

-- The allocation that `save_copyLCB` points to.
pub data Copy : Type 0 where
  unset live freed : Copy

-- struct epow_reset; its sequence number and error id are 0, since nothing sets those of an event.
pub record Reset : Type 0 where
  pub err_type : ℕ
  pub valid_reset : Bool

-- `rest` is the string from `start_loc` to `end_loc`, empty where it is not before it.
pub record State : Type 0 where
  pub loc_codes : Option Bytes
  pub copy : Copy
  pub rest : Bytes
  pub arrays : Table → List Description
  pub pct_index : ℕ
  pub io_error_type : ℕ
  pub epow_reset_list : List Reset
  pub refcode : Option Srn
  pub description : Option Text
  pub callouts : List Callout
  pub call_home : Bool

-- The bytes that were read, and NULs behind them.
pub record Event : Type 0 where
  pub event_buf : Bytes
  pub length : ℕ

unfoldable pub byte : Event → ℕ → ℕ
byte e i = get_or e.event_buf i 0

-- A short and an int of the buffer, as on a big endian processor.
unfoldable pub half : Event → ℕ → ℕ
unfolding byte
half e i = byte e i * 256 + byte e (i + 1)

unfoldable pub word : Event → ℕ → ℕ
unfolding half
word e i = half e i * 65536 + half e (i + 2)

unfoldable pub entry : Table → ℕ → State → Description
entry t i s = get_or (s.arrays t) i no_description

unfoldable pub write_entry : Table → ℕ → Description → State → State
unfolding number
write_entry t i d s = record s {
  arrays = λ u. if number u == number t then set (s.arrays u) i d else s.arrays u;
}
