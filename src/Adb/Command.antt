-- ===== src/Adb/Command.antt =====
-- The run of a command (madbfs/src/cmd.cpp): the process is a parameter, the reading of its messages and
-- its result are not.
use adbfsm.Prelude.{
  ℕ, Bool, ◌||◌, ◌&&◌, not, Option, none, some, List, [], ◌∷◌, ◌++◌, reverse, text_eq, ◌==◌,
  if◌then◌else◌,
}
use adbfsm.Split.{Text, char_delim, any_delim, next, split, strip}
use adbfsm.Cache.State.{Expect, ok, err}

abbrev pub no_device_text : Text
no_device_text =
    b'a' ∷ b'd' ∷ b'b' ∷ b':' ∷ b' ' ∷ b'n' ∷ b'o' ∷ b' ' ∷ b'd' ∷ b'e' ∷ b'v' ∷ b'i' ∷ b'c' ∷ b'e'
    ∷ b's' ∷ b'/' ∷ b'e' ∷ b'm' ∷ b'u' ∷ b'l' ∷ b'a' ∷ b't' ∷ b'o' ∷ b'r' ∷ b's' ∷ b' ' ∷ b'f'
    ∷ b'o' ∷ b'u' ∷ b'n' ∷ b'd' ∷ []

abbrev pub device_offline_text : Text
device_offline_text =
    b'a' ∷ b'd' ∷ b'b' ∷ b':' ∷ b' ' ∷ b'd' ∷ b'e' ∷ b'v' ∷ b'i' ∷ b'c' ∷ b'e' ∷ b' ' ∷ b'o' ∷ b'f'
    ∷ b'f' ∷ b'l' ∷ b'i' ∷ b'n' ∷ b'e' ∷ []

abbrev pub permission_denied_text : Text
permission_denied_text =
    b' ' ∷ b'P' ∷ b'e' ∷ b'r' ∷ b'm' ∷ b'i' ∷ b's' ∷ b's' ∷ b'i' ∷ b'o' ∷ b'n' ∷ b' ' ∷ b'd' ∷ b'e'
    ∷ b'n' ∷ b'i' ∷ b'e' ∷ b'd' ∷ []

abbrev pub no_such_file_or_dir_text : Text
no_such_file_or_dir_text =
    b' ' ∷ b'N' ∷ b'o' ∷ b' ' ∷ b's' ∷ b'u' ∷ b'c' ∷ b'h' ∷ b' ' ∷ b'f' ∷ b'i' ∷ b'l' ∷ b'e' ∷ b' '
    ∷ b'o' ∷ b'r' ∷ b' ' ∷ b'd' ∷ b'i' ∷ b'r' ∷ b'e' ∷ b'c' ∷ b't' ∷ b'o' ∷ b'r' ∷ b'y' ∷ []

abbrev pub not_a_directory_text : Text
not_a_directory_text =
    b' ' ∷ b'N' ∷ b'o' ∷ b't' ∷ b' ' ∷ b'a' ∷ b' ' ∷ b'd' ∷ b'i' ∷ b'r' ∷ b'e' ∷ b'c' ∷ b't' ∷ b'o'
    ∷ b'r' ∷ b'y' ∷ []

abbrev pub inaccessible_text : Text
inaccessible_text =
    b' ' ∷ b'i' ∷ b'n' ∷ b'a' ∷ b'c' ∷ b'c' ∷ b'e' ∷ b's' ∷ b's' ∷ b'i' ∷ b'b' ∷ b'l' ∷ b'e' ∷ b' '
    ∷ b'o' ∷ b'r' ∷ b' ' ∷ b'n' ∷ b'o' ∷ b't' ∷ b' ' ∷ b'f' ∷ b'o' ∷ b'u' ∷ b'n' ∷ b'd' ∷ []

abbrev pub read_only_text : Text
read_only_text =
    b' ' ∷ b'R' ∷ b'e' ∷ b'a' ∷ b'd' ∷ b'-' ∷ b'o' ∷ b'n' ∷ b'l' ∷ b'y' ∷ b' ' ∷ b'f' ∷ b'i' ∷ b'l'
    ∷ b'e' ∷ b' ' ∷ b's' ∷ b'y' ∷ b's' ∷ b't' ∷ b'e' ∷ b'm' ∷ []

pub data AdbError : Type 0 where
  unknown no_dev perm_denied no_such_file_or_dir not_a_dir inaccessible read_only try_again :
      AdbError

unfoldable pub to_errc : AdbError → ℕ
to_errc unknown = 5
to_errc no_dev = 19
to_errc perm_denied = 13
to_errc no_such_file_or_dir = 2
to_errc not_a_dir = 20
to_errc inaccessible = 95
to_errc read_only = 30
to_errc try_again = 11

-- `get_no_dev_serial`, of `ANDROID_SERIAL`.
unfoldable pub get_no_dev_serial : Option Text → Text
get_no_dev_serial none = []
get_no_dev_serial (some serial) =
    (b'a' ∷ b'd' ∷ b'b' ∷ b':' ∷ b' ' ∷ b'd' ∷ b'e' ∷ b'v' ∷ b'i' ∷ b'c' ∷ b'e' ∷ b' ' ∷ b'\'' ∷ [])
    ++ (serial ++ b'\'' ∷ b' ' ∷ b'n' ∷ b'o' ∷ b't' ∷ b' ' ∷ b'f' ∷ b'o' ∷ b'u' ∷ b'n' ∷ b'd' ∷ [])

-- The default delimiters of `strip`.
abbrev pub is_space : ℕ → Bool
is_space = any_delim (b' ' ∷ b'\t' ∷ b'\n' ∷ [])

-- The error that the end of a line names, reversed and up to the last colon.
unfoldable pub named_error : Text → AdbError
named_error reversed =
    if text_eq reversed (reverse permission_denied_text)
    then perm_denied
    else if text_eq reversed (reverse no_such_file_or_dir_text)
    then no_such_file_or_dir
    else if text_eq reversed (reverse not_a_directory_text)
    then not_a_dir
    else if text_eq reversed (reverse inaccessible_text)
    then inaccessible
    else if text_eq reversed (reverse read_only_text)
    then read_only
    else unknown

-- One line; `none` goes on with the next.
unfoldable pub parse_line : Option Text → Text → Option AdbError
unfolding named_error get_no_dev_serial next strip
parse_line serial line =
    if text_eq line no_device_text || text_eq line device_offline_text
    then some no_dev
    else if text_eq line (get_no_dev_serial serial)
    then some try_again
    else elim (next (char_delim b':') (strip is_space (reverse line)) 0).0 [
      | none ↦ none
      | some e ↦ some (named_error e)
    ]

unfoldable pub parse_lines : Option Text → List Text → AdbError
unfolding parse_line
parse_lines serial [] = unknown
parse_lines serial (line ∷ lines) = elim (parse_line serial line) [
  | none ↦ parse_lines serial lines
  | some e ↦ e
]

unfoldable pub parse_stderr : Option Text → Text → AdbError
unfolding parse_lines split
parse_stderr serial str = elim (split (char_delim b'\n') str) [
  | none ↦ unknown
  | some lines ↦ parse_lines serial lines
]

-- The process: its exit status, what it wrote to stdout, and to stderr, or the error of a pipe.
pub record Process : Type 1 where
  pub State : Type 0
  pub serial : Option Text
  pub run : State → List Text → Text → Expect (ℕ × Text × Text) × State

-- What `exec` makes of a process that has ended.
unfoldable pub result_of : Option Text → Bool → Bool → ℕ → Text → Text → Expect Text
unfolding parse_stderr to_errc strip
result_of serial check merge_err ret out errors =
    let message : Text = elim errors [
      | [] ↦ strip is_space out
      | e ∷ es ↦ strip is_space (e ∷ es)
    ] in
    if check && not (ret == 0)
    then err (to_errc (parse_stderr serial message))
    else (if merge_err then ok (out ++ errors) else ok out)

unfoldable pub exec :
    (P : Process) → List Text → Text → Bool → Bool → P.State → Expect Text × P.State
unfolding result_of
exec P cmd input check merge_err s =
    let (r, s') = P.run s cmd input in
    (
      elim r [
        | err e ↦ err e
        | ok (ret, out, errors) ↦ result_of P.serial check merge_err ret out errors
      ],
      s',
    )
