-- ===== src/Lpd/Supported.antt =====
-- Which events lp_diag acts on: the tables of lpd/lp_util.c and service_event_supported of
-- lpd/lp_diag.c.
use ppc64_diag.Base.{ℕ, Bool, true, false, ◌&&◌, if◌then◌else◌, List, [], ◌∷◌, Option, some, none}
use ppc64_diag.Errd.Files.{same_name}
use ppc64_diag.Elog.Memory.{Bytes}

abbrev net : Bytes
net = b'n' ∷ b'e' ∷ b't' ∷ []

abbrev pub cxgb3 : Bytes
cxgb3 = b'c' ∷ b'x' ∷ b'g' ∷ b'b' ∷ b'3' ∷ []

abbrev pub e1000e : Bytes
e1000e = b'e' ∷ b'1' ∷ b'0' ∷ b'0' ∷ b'0' ∷ b'e' ∷ []

abbrev pub os_supported_device : List (Bytes × Bytes)
os_supported_device = (net, cxgb3) ∷ (net, e1000e) ∷ []

abbrev pub supported_ses_enclosure : List Bytes
supported_ses_enclosure =
    (b'5' ∷ b'8' ∷ b'8' ∷ b'8' ∷ [])
    ∷ (b'E' ∷ b'D' ∷ b'R' ∷ b'1' ∷ [])
    ∷ (b'5' ∷ b'8' ∷ b'8' ∷ b'7' ∷ [])
    ∷ (b'E' ∷ b'S' ∷ b'L' ∷ b'L' ∷ [])
    ∷ (b'E' ∷ b'S' ∷ b'L' ∷ b'S' ∷ [])
    ∷ []

unfoldable pub in_devices : List (Bytes × Bytes) → Bytes → Bytes → Bool
in_devices [] subsystem driver = false
in_devices (d ∷ ds) subsystem driver =
    let rest = in_devices ds subsystem driver in
    if same_name d.0 subsystem && same_name d.1 driver then true else rest

-- A name is none for a null pointer.
unfoldable pub device_supported : Option Bytes → Option Bytes → Bool
device_supported none driver = false
device_supported (some subsystem) none = false
device_supported (some subsystem) (some driver) = in_devices os_supported_device subsystem driver

unfoldable pub in_models : List Bytes → Bytes → Bool
in_models [] model = false
in_models (m ∷ ms) model = let rest = in_models ms model in if same_name m model then true else rest

unfoldable pub enclosure_supported : Option Bytes → Bool
enclosure_supported none = false
enclosure_supported (some model) = in_models supported_ses_enclosure model

-- The type of an event of the service log, with what `addl_data` says of it.
pub data SlType : Type 0 where
  sl_type_os : Option Bytes → Option Bytes → SlType
  sl_type_enclosure : Option Bytes → SlType
  sl_type_rtas sl_type_bmc sl_type_basic : SlType

pub record SlCallout : Type 0 where
  pub priority : ℕ
  pub location : Option Bytes

pub record SlEvent : Type 0 where
  pub sl_type : SlType
  pub callouts : List SlCallout

-- The answer, and the global `rtas_event` behind it, which was `rtas_event` before.
unfoldable pub service_event_supported : SlType → Bool → Bool × Bool
service_event_supported (sl_type_os subsystem driver) rtas_event =
    (device_supported subsystem driver, rtas_event)
service_event_supported (sl_type_enclosure model) rtas_event =
    (enclosure_supported model, rtas_event)
service_event_supported sl_type_rtas rtas_event = (true, true)
service_event_supported sl_type_bmc rtas_event = (false, rtas_event)
service_event_supported sl_type_basic rtas_event = (false, rtas_event)
