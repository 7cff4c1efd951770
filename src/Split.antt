-- ===== src/Split.antt =====
-- `StringSplitter` and its clients (madbfs-common/include/madbfs-common/util/split.hpp). A text is the
-- list of its bytes, and a set of delimiters is its test `is_delim`.
mod Tests
pub mod Words
pub mod Join
pub mod Fields
use adbfsm.Prelude.{
  ℕ, zero, suc, ◌+◌, ◌-◌, Bool, true, false, Option, none, some, List, [], ◌∷◌, leb, ◌==◌,
  if◌then◌else◌, length, take, drop, reverse,
}

abbrev pub Text : Type 0
Text = List ℕ

-- `SplitDelim` of one character, and of the characters of a text.
unfoldable pub char_delim : ℕ → ℕ → Bool
char_delim delim ch = ch == delim

unfoldable pub any_delim : Text → ℕ → Bool
any_delim [] ch = false
any_delim (d ∷ ds) ch = if d == ch then true else any_delim ds ch

module _ (is_delim : ℕ → Bool) where
  -- How far the loop over leading delimiters goes.
  unfoldable pub leading : Text → ℕ
  leading [] = 0
  leading (c ∷ cs) = if is_delim c then suc (leading cs) else 0

  -- `find_if`: the distance to the first delimiter; `none` is the end.
  unfoldable pub find_delim : Text → Option ℕ
  find_delim [] = none
  find_delim (c ∷ cs) =
      if is_delim c then some 0 else elim (find_delim cs) [ none ↦ none | some k ↦ some (suc k) ]

  -- The part of `next` behind the leading delimiters, by what `find_if` returned.
  abbrev pub found_at : Text → ℕ → Option ℕ → Option Text × ℕ
  found_at s start (some k) = (some (take k (drop start s)), start + k + 1)
  found_at s start none =
      if leb (length s) start then (none, start) else (some (drop start s), length s)

  -- `next` on the text `s` at the index `idx`: the word and the new index.
  unfoldable pub next : Text → ℕ → Option Text × ℕ
  next s idx =
      let start = idx + leading (drop idx s) in
      if leb (length s) idx then (none, idx) else found_at s start (find_delim (drop start s))

  -- `while_next` that collects the words, with fuel for its rounds; `none` where it runs out.
  unfoldable pub collect : ℕ → Text → ℕ → Option (List Text)
  collect zero s idx = none
  collect (suc fuel) s idx =
      let (word, idx') = next s idx in
      elim word [
        | none ↦ some []
        | some w ↦ elim (collect fuel s idx') [ none ↦ none | some ws ↦ some (w ∷ ws) ]
      ]

  -- `split`. A round moves the index, so one round more than there are characters is enough.
  unfoldable pub split : Text → Option (List Text)
  unfolding collect
  split s = collect (suc (length s)) s 0

  -- The first `n` words of `split_n` and the index behind them, or `none` if there are fewer.
  unfoldable pub first_words : ℕ → Text → ℕ → Option (List Text × ℕ)
  first_words zero s idx = some ([], idx)
  first_words (suc n) s idx =
      let (word, idx') = next s idx in
      elim word [
        | none ↦ none
        | some w ↦ elim (first_words n s idx') [ none ↦ none | some (ws, end) ↦ some (w ∷ ws, end) ]
      ]

  -- `split_n`: the words, and the text behind the delimiters that follow them.
  unfoldable pub split_n : ℕ → Text → Option (List Text × Text)
  unfolding first_words leading
  split_n n s = elim (first_words n s 0) [
    | none ↦ none
    | some (ws, end) ↦ some (ws, drop (end + leading (drop end s)) s)
  ]

  unfoldable pub lstrip : Text → Text
  lstrip [] = []
  lstrip (c ∷ cs) = let rest = lstrip cs in if is_delim c then rest else c ∷ cs

  -- The last characters are the first of the reversed text.
  unfoldable pub rstrip : Text → Text
  unfolding lstrip
  rstrip s = reverse (lstrip (reverse s))

  unfoldable pub strip : Text → Text
  unfolding rstrip
  strip s = rstrip (lstrip s)
