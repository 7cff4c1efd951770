-- ===== src/Adb/Tests.antt =====
-- The connection that runs adb at concrete outputs of its commands.
use adbfsm.Prelude.{◌≡◌, refl, pos, none, some, [], ◌∷◌, ◌++◌, arith}
use adbfsm.Split.{Text, char_delim, find_delim, leading, any_delim}
use adbfsm.Split.Fields.{fields}
use adbfsm.Rpc.Request.{Timespec}
use adbfsm.Adb.Command.{parse_stderr, perm_denied}
use adbfsm.Adb.Texts.{parse_file_stat, parse_unsigned, decimal}
use adbfsm.Adb.Lines.{parse_file_stat-fields}
use adbfsm.Adb.Devices.{devices_of, device, offline}

-- "ls: /x: Permission denied"
refused :
    parse_stderr none (
      b'l' ∷ b's' ∷ b':' ∷ b' ' ∷ b'/' ∷ b'x' ∷ b':' ∷ b' ' ∷ b'P' ∷ b'e' ∷ b'r' ∷ b'm' ∷ b'i'
      ∷ b's' ∷ b's' ∷ b'i' ∷ b'o' ∷ b'n' ∷ b' ' ∷ b'd' ∷ b'e' ∷ b'n' ∷ b'i' ∷ b'e' ∷ b'd' ∷ [])
    ≡ perm_denied
unfolding parse_stderr find_delim leading char_delim any_delim
refused = refl

-- "List of", "a device", "b offline"
two_devices :
    devices_of (
      (b'L' ∷ b'i' ∷ b's' ∷ b't' ∷ b' ' ∷ b'o' ∷ b'f' ∷ b'\n' ∷ b'a' ∷ b' ' ∷ b'd' ∷ b'e' ∷ b'v'
        ∷ b'i' ∷ b'c' ∷ b'e' ∷ b'\n' ∷ b'b' ∷ b' ' ∷ b'o' ∷ b'f' ∷ b'f' ∷ b'l' ∷ b'i' ∷ b'n' ∷ b'e'
        ∷ []))
    ≡ record { serial = b'a' ∷ []; status = device }
      ∷ record { serial = b'b' ∷ []; status = offline }
      ∷ []
unfolding devices_of find_delim leading char_delim any_delim
two_devices = refl

-- A library that takes every date for the same.
abbrev parse_date : Text → Timespec
parse_date text = record { tv_sec = pos 0; tv_nsec = pos 0 }

-- "81a4|1|512|0|0|a|b|c|/f", an entry of the root
parse_file_stat-fields_example :
    parse_file_stat parse_date (
      fields b'|'
        ((b'8' ∷ b'1' ∷ b'a' ∷ b'4' ∷ [])
          ∷ decimal 1
          ∷ decimal 512
          ∷ decimal 0
          ∷ decimal 0
          ∷ (b'a' ∷ [])
          ∷ (b'b' ∷ [])
          ∷ (b'c' ∷ [])
          ∷ [])
        ([] ++ b'/' ∷ b'f' ∷ []))
    ≡ some (
      record {
        links = 1;
        size = pos 512;
        mtime = parse_date (b'b' ∷ []);
        atime = parse_date (b'a' ∷ []);
        ctime = parse_date (b'c' ∷ []);
        mode = 33188;
        uid = 0;
        gid = 0;
      },
      b'f' ∷ [],
    )
parse_file_stat-fields_example =
    parse_file_stat-fields parse_date (b'8' ∷ b'1' ∷ b'a' ∷ b'4' ∷ []) (b'a' ∷ []) (b'b' ∷ [])
      (b'c' ∷ []) [] (b'f' ∷ []) 33188 1 512 0 0 (unfold parse_unsigned in refl) (omega arith)
      (omega arith) (omega arith) (omega arith) (unfold char_delim in (refl, (refl, (refl, refl))))
      (unfold char_delim in refl) (unfold char_delim in refl) (unfold char_delim in refl)
      (unfold char_delim in refl) (unfold char_delim in refl)
