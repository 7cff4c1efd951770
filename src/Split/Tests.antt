-- ===== src/Split/Tests.antt =====
-- Splitting at concrete texts.
use adbfsm.Prelude.{◌≡◌, refl, [], ◌∷◌, some}
use adbfsm.Split.{Text, char_delim, split, next, find_delim, split_n, strip}
use adbfsm.Split.Words.{words, split-words}
use adbfsm.Split.Join.{join, split-join}

abbrev usr : Text
usr = b'u' ∷ b's' ∷ b'r' ∷ []

abbrev bin : Text
bin = b'b' ∷ b'i' ∷ b'n' ∷ []

-- "//usr/bin/"
abbrev doubled : Text
doubled = b'/' ∷ b'/' ∷ b'u' ∷ b's' ∷ b'r' ∷ b'/' ∷ b'b' ∷ b'i' ∷ b'n' ∷ b'/' ∷ []

split_n_two : split_n (char_delim b'/') 1 doubled ≡ some (usr ∷ [], b'b' ∷ b'i' ∷ b'n' ∷ b'/' ∷ [])
unfolding split_n char_delim next find_delim
split_n_two = refl

strip_both : strip (char_delim b'/') (b'/' ∷ b'u' ∷ b'/' ∷ []) ≡ b'u' ∷ []
unfolding strip char_delim
strip_both = refl

split-words_example : split (char_delim b'/') doubled ≡ some (usr ∷ bin ∷ [])
unfolding words char_delim
split-words_example = split-words (char_delim b'/') doubled

split-join_example : split (char_delim b'/') (join b'/' (usr ∷ bin ∷ [])) ≡ some (usr ∷ bin ∷ [])
unfolding char_delim
split-join_example =
    split-join (char_delim b'/') b'/' (usr ∷ bin ∷ []) refl
      ((refl, (refl, refl)), ((refl, (refl, refl)), tt))
