-- ===== src/Adb/Devices.antt =====
-- `list_devices` (madbfs/src/connection/connection.cpp).
use adbfsm.Prelude.{ℕ, Bool, Option, none, some, List, [], ◌∷◌, text_eq, if◌then◌else◌}
use adbfsm.Split.{Text, char_delim, any_delim, next, split}
use adbfsm.Adb.Names.{adb_word}
use adbfsm.Adb.Calls.{Adb, Run, transform, run, sink}

pub data DeviceStatus : Type 0 where
  device offline unauthorized unknown : DeviceStatus

pub record Device : Type 0 where
  pub serial : Text
  pub status : DeviceStatus

abbrev pub device_text : Text
device_text = b'd' ∷ b'e' ∷ b'v' ∷ b'i' ∷ b'c' ∷ b'e' ∷ []

abbrev pub offline_text : Text
offline_text = b'o' ∷ b'f' ∷ b'f' ∷ b'l' ∷ b'i' ∷ b'n' ∷ b'e' ∷ []

abbrev pub unauthorized_text : Text
unauthorized_text =
    b'u' ∷ b'n' ∷ b'a' ∷ b'u' ∷ b't' ∷ b'h' ∷ b'o' ∷ b'r' ∷ b'i' ∷ b'z' ∷ b'e' ∷ b'd' ∷ []

abbrev pub devices_word : Text
devices_word = b'd' ∷ b'e' ∷ b'v' ∷ b'i' ∷ b'c' ∷ b'e' ∷ b's' ∷ []

abbrev pub start_server_word : Text
start_server_word =
    b's' ∷ b't' ∷ b'a' ∷ b'r' ∷ b't' ∷ b'-' ∷ b's' ∷ b'e' ∷ b'r' ∷ b'v' ∷ b'e' ∷ b'r' ∷ []

unfoldable pub status_of : Text → DeviceStatus
status_of status_str =
    if text_eq status_str offline_text
    then offline
    else if text_eq status_str unauthorized_text
    then unauthorized
    else if text_eq status_str device_text
    then device
    else unknown

-- The device of a line, if it has two words.
unfoldable pub parse_device : Text → Option Device
unfolding next status_of
parse_device str =
    let is_delim : ℕ → Bool = any_delim (b' ' ∷ b'\t' ∷ []) in
    let (serial_str, idx) = next is_delim str 0 in
    elim serial_str [
      | none ↦ none
      | some serial ↦ elim (next is_delim str idx).0 [
        | none ↦ none
        | some status ↦ some (record { serial = serial; status = status_of status })
      ]
    ]

unfoldable pub parse_devices : List Text → List Device
unfolding parse_device
parse_devices [] = []
parse_devices (line ∷ lines) =
    let rest = parse_devices lines in elim (parse_device line) [ none ↦ rest | some d ↦ d ∷ rest ]

-- The lines behind the first.
unfoldable pub devices_of : Text → List Device
unfolding parse_devices split
devices_of out = elim (split (char_delim b'\n') out) [
  | some (first ∷ lines) ↦ parse_devices lines
  | _ ↦ []
]

module _ (D : Adb) where
  unfoldable pub start_connection : Run D (Unit {0})
  unfolding sink
  start_connection = sink D (adb_word ∷ start_server_word ∷ [])

  unfoldable pub list_devices : Run D (List Device)
  unfolding run devices_of
  list_devices = transform devices_of (run D (adb_word ∷ devices_word ∷ []))
