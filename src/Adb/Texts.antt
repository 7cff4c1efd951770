-- ===== src/Adb/Texts.antt =====
-- The texts of `AdbConnection` (madbfs/src/connection/adb_connection.cpp): numbers that are printed and
-- parsed, and the lines of `stat`. How a date is parsed is a parameter.
use adbfsm.Prelude.{
  ℕ, zero, suc, ◌+◌, ◌-◌, ◌*◌, ◌/◌, ◌%◌, ◌^◌, ℤ, pos, negsuc, ◌&&◌, Option, none, some, List, [],
  ◌∷◌, ◌++◌, reverse, leb, ltb, ◌==◌, text_eq, if◌then◌else◌,
}
use adbfsm.Split.{Text, char_delim, find_delim, split_n}
use adbfsm.FilePath.{FilePath, fullpath}
use adbfsm.Prelude.{take}
use adbfsm.Rpc.Request.{Timespec}
use adbfsm.Tree.Data.{Attributes}

-- The digit of a character, of up to 36.
unfoldable pub digit_of : ℕ → Option ℕ
digit_of c =
    if leb b'0' c && leb c b'9'
    then some (c - b'0')
    else if leb b'a' c && leb c b'z'
    then some (c - b'a' + 10)
    else if leb b'A' c && leb c b'Z'
    then some (c - b'A' + 10)
    else none

-- The number behind the digits that give `n`: `none` if a character is no digit of the base.
unfoldable pub digits_from : ℕ → ℕ → Text → Option ℕ
unfolding digit_of
digits_from base n [] = some n
digits_from base n (c ∷ cs) = elim (digit_of c) [
  | none ↦ none
  | some d ↦ let rest = digits_from base (n * base + d) cs in if ltb d base then rest else none
]

unfoldable pub below : ℕ → ℕ → Option ℕ
below bound n = if ltb n bound then some n else none

unfoldable pub parse_digits : ℕ → ℕ → Text → Option ℕ
unfolding digits_from below
parse_digits bound base [] = none
parse_digits bound base (c ∷ cs) = elim (digits_from base 0 (c ∷ cs)) [
  | none ↦ none
  | some n ↦ below bound n
]

-- `parse_fundamental` for an unsigned type of `w` bits, and for `off_t`.
unfoldable pub parse_unsigned : ℕ → ℕ → Text → Option ℕ
unfolding parse_digits
parse_unsigned w base str = parse_digits (2 ^ w) base str

unfoldable pub negated : ℕ → ℤ
negated zero = pos 0
negated (suc n) = negsuc n

unfoldable pub parse_signed : ℕ → ℕ → Text → Option ℤ
unfolding parse_digits negated
parse_signed w base [] = none
parse_signed w base (c ∷ cs) =
    if c == b'-'
    then elim (parse_digits (2 ^ (w - 1) + 1) base cs) [ none ↦ none | some n ↦ some (negated n) ]
    else elim (parse_digits (2 ^ (w - 1)) base (c ∷ cs)) [ none ↦ none | some n ↦ some (pos n) ]

abbrev pub root_text : Text
root_text = b'/' ∷ []

-- `get_basename`
unfoldable pub get_basename : Text → Text
unfolding find_delim
get_basename path =
    if text_eq path root_text then path else elim (find_delim (char_delim b'/') (reverse path)) [
      | none ↦ path
      | some k ↦ reverse (take k (reverse path))
    ]

abbrev pub get_or_0 : Option ℕ → ℕ
get_or_0 n = elim n [ none ↦ 0 | some k ↦ k ]

-- The fields of `stat -c '%f|%h|%s|%u|%g|%x|%y|%z|%n'`.
unfoldable pub attributes_of : (Text → Timespec) → List Text → Option Attributes
unfolding parse_unsigned parse_signed
attributes_of parse_date (mode_hex ∷ hardlinks ∷ size ∷ uid ∷ gid ∷ atime ∷ mtime ∷ ctime ∷ []) =
    some (record {
      links = get_or_0 (parse_unsigned 64 10 hardlinks);
      size = elim (parse_signed 64 10 size) [ none ↦ pos 0 | some n ↦ n ];
      mtime = parse_date mtime;
      atime = parse_date atime;
      ctime = parse_date ctime;
      mode = get_or_0 (parse_unsigned 32 16 mode_hex);
      uid = get_or_0 (parse_unsigned 32 10 uid);
      gid = get_or_0 (parse_unsigned 32 10 gid);
    })
attributes_of parse_date _ = none

unfoldable pub parse_file_stat : (Text → Timespec) → Text → Option (Attributes × Text)
unfolding attributes_of get_basename split_n
parse_file_stat parse_date str = elim (split_n (char_delim b'|') 8 str) [
  | none ↦ none
  | some (fields, path) ↦ elim (attributes_of parse_date fields) [
    | none ↦ none
    | some stat ↦ some (stat, get_basename path)
  ]
]

-- `fmt::format` of a number, with fuel for its digits.
unfoldable pub decimal_from : ℕ → ℕ → Text → Text
decimal_from zero n back = back
decimal_from (suc fuel) n back =
    let all = (b'0' + n % 10) ∷ back in
    let front = decimal_from fuel (n / 10) all in if ltb n 10 then all else front

unfoldable pub decimal : ℕ → Text
unfolding decimal_from
decimal n = decimal_from (suc n) n []

unfoldable pub decimal_int : ℤ → Text
unfolding decimal
decimal_int (pos n) = decimal n
decimal_int (negsuc n) = b'-' ∷ decimal (suc n)

unfoldable pub quote : FilePath → Text
unfolding fullpath
quote path = b'"' ∷ (fullpath path ++ b'"' ∷ [])
