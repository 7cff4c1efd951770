-- ===== src/Adb/Lines.antt =====
-- A line of `stat`, as it is printed and as it is parsed.
use adbfsm.Prelude.{
  ℕ, ◌^◌, ◌<◌, ◌≡◌, refl, ap, ◌∙◌, pos, Bool, true, false, ◌&&◌, ◌==◌, some, List, [], ◌∷◌, ◌++◌,
  reverse, reverse-append, reverse-reverse, length, text_eq, append_assoc, arith,
}
use adbfsm.Split.{Text, char_delim, find_delim, split_n}
use adbfsm.Split.Fields.{fields, find_delim-word, split_n-fields}
use adbfsm.Split.Join.{IsWord}
use adbfsm.Split.Words.{StartsWord}
use adbfsm.Rpc.Payload.Reads.{take-append}
use adbfsm.Rpc.Request.{Timespec}
use adbfsm.Tree.Data.{Attributes}
use adbfsm.Adb.Texts.{parse_unsigned, get_basename, parse_file_stat, attributes_of, decimal}
use adbfsm.Adb.Numbers.{IsNumber, decimal-IsNumber, parse_unsigned-decimal, parse_signed-decimal}

abbrev pub is_bar : ℕ → Bool
is_bar = char_delim b'|'

abbrev pub is_slash : ℕ → Bool
is_slash = char_delim b'/'

number-IsWord : (s : Text) → IsNumber s → IsWord is_bar s
unfolding char_delim
number-IsWord [] h = absurd h
number-IsWord (c ∷ []) ((d, lt, e), rest) = ground (arith, e)
number-IsWord (c ∷ b ∷ cs) ((d, lt, e), rest) =
    let other : (c == b'|') ≡ false = ground (arith, e) in (other, number-IsWord (b ∷ cs) rest)

-- The name of a file in a directory.
get_basename-name :
    (dir name : Text)
    → IsWord is_slash (reverse name)
    → text_eq (dir ++ b'/' ∷ name) (b'/' ∷ []) ≡ false
    → get_basename (dir ++ b'/' ∷ name) ≡ name
unfolding get_basename
get_basename-name dir name word other =
    let turned : reverse (dir ++ b'/' ∷ name) ≡ reverse name ++ b'/' ∷ reverse dir =
      reverse-append dir (b'/' ∷ name)
      ∙ ap (λ t. t ++ reverse dir) (reverse-append (b'/' ∷ []) name)
      ∙ append_assoc (reverse name) (b'/' ∷ []) (reverse dir) in
    let found : find_delim is_slash (reverse name ++ b'/' ∷ reverse dir)
        ≡ some (length (reverse name)) =
      find_delim-word is_slash b'/' (unfold char_delim in refl) (reverse name) (reverse dir) word in
    rw (other, turned, found)
      (rw (turned, take-append (reverse name) (b'/' ∷ reverse dir)) (reverse-reverse name))

-- The fields of the line.
attributes_of-words :
    (parse_date : Text → Timespec) (mode_hex atime mtime ctime : Text) (mode links size uid gid : ℕ)
    → parse_unsigned 32 16 mode_hex ≡ some mode
    → links < 2 ^ 64
    → size < 2 ^ 63
    → uid < 2 ^ 32
    → gid < 2 ^ 32
    → attributes_of parse_date (
        mode_hex
        ∷ decimal links
        ∷ decimal size
        ∷ decimal uid
        ∷ decimal gid
        ∷ atime
        ∷ mtime
        ∷ ctime
        ∷ [])
      ≡ some (record {
        links = links;
        size = pos size;
        mtime = parse_date mtime;
        atime = parse_date atime;
        ctime = parse_date ctime;
        mode = mode;
        uid = uid;
        gid = gid;
      })
unfolding attributes_of
attributes_of-words parse_date mode_hex atime mtime ctime mode links size uid gid hex l s u g =
    rw
      (
        hex,
        parse_unsigned-decimal 64 links l,
        parse_signed-decimal 64 size s,
        parse_unsigned-decimal 32 uid u,
        parse_unsigned-decimal 32 gid g,
      )
      refl

and_false : (b : Bool) → (b && false) ≡ false
and_false true = refl
and_false false = refl

-- What ends with a slash and a name is longer than the root.
not_root :
    (dir name : Text)
    → IsWord is_slash (reverse name)
    → text_eq (dir ++ b'/' ∷ name) (b'/' ∷ []) ≡ false
not_root [] [] word = absurd word
not_root [] (c ∷ cs) word = refl
not_root (c ∷ []) name word = and_false (c == b'/')
not_root (c ∷ d ∷ cs) name word = and_false (c == b'/')

parsed_as :
    (parse_date : Text → Timespec) (str path : Text) (ws : List Text) {stat : Attributes}
    {name : Text}
    → attributes_of parse_date ws ≡ some stat
    → split_n is_bar 8 str ≡ some (ws, path)
    → get_basename path ≡ name
    → parse_file_stat parse_date str ≡ some (stat, name)
unfolding parse_file_stat
parsed_as parse_date str path ws parsed cut base =
    rw (cut, parse_file_stat) (rw (parsed, base) refl)

-- A line of `stat` about a file whose path is a text, which may be empty and starts with no bar, a slash
-- and a name without one, as of an entry of the root or of a directory; with four numbers, printed in
-- decimal and in range, and with a mode and three dates without a bar, is parsed to just that: the
-- numbers, the dates as the library reads them, and the name.
pub parse_file_stat-fields :
    (parse_date : Text → Timespec) (mode_hex atime mtime ctime dir name : Text)
    (mode links size uid gid : ℕ)
    → parse_unsigned 32 16 mode_hex ≡ some mode
    → links < 2 ^ 64
    → size < 2 ^ 63
    → uid < 2 ^ 32
    → gid < 2 ^ 32
    → IsWord is_bar mode_hex
    → IsWord is_bar atime
    → IsWord is_bar mtime
    → IsWord is_bar ctime
    → IsWord is_slash (reverse name)
    → StartsWord is_bar (dir ++ b'/' ∷ name)
    → parse_file_stat parse_date (
        fields b'|'
          (mode_hex
            ∷ decimal links
            ∷ decimal size
            ∷ decimal uid
            ∷ decimal gid
            ∷ atime
            ∷ mtime
            ∷ ctime
            ∷ [])
          (dir ++ b'/' ∷ name))
      ≡ some (
        record {
          links = links;
          size = pos size;
          mtime = parse_date mtime;
          atime = parse_date atime;
          ctime = parse_date ctime;
          mode = mode;
          uid = uid;
          gid = gid;
        },
        name,
      )
parse_file_stat-fields parse_date mode_hex atime mtime ctime dir name mode links size uid gid hex l
      s u g wm wa wt wc wn starts =
    let words : List Text =
      mode_hex
      ∷ decimal links
      ∷ decimal size
      ∷ decimal uid
      ∷ decimal gid
      ∷ atime
      ∷ mtime
      ∷ ctime
      ∷ [] in
    let is_number : (n : ℕ) → IsWord is_bar (decimal n) =
      λ n. number-IsWord (decimal n) (decimal-IsNumber n) in
    let cut : split_n is_bar 8 (fields b'|' words (dir ++ b'/' ∷ name))
        ≡ some (words, dir ++ b'/' ∷ name) =
      split_n-fields is_bar b'|' (unfold char_delim in refl) words (dir ++ b'/' ∷ name)
        (
          wm,
          (
            is_number links,
            (is_number size, (is_number uid, (is_number gid, (wa, (wt, (wc, tt)))))),
          ),
        )
        starts in
    let base : get_basename (dir ++ b'/' ∷ name) ≡ name =
      get_basename-name dir name wn (not_root dir name wn) in
    parsed_as parse_date (fields b'|' words (dir ++ b'/' ∷ name)) (dir ++ b'/' ∷ name) words
      (attributes_of-words parse_date mode_hex atime mtime ctime mode links size uid gid hex l s u
        g)
      cut base
