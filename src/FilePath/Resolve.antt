-- ===== src/FilePath/Resolve.antt =====
-- `path::resolve` (madbfs/src/path.cpp), and the components that it arrives at.
pub mod Normal
use adbfsm.Prelude.{
  ℕ, if◌then◌else◌, reverse, ◌≡◌, refl, sym, subst, false, Bool-cases, inl, inr, Option, none, some,
  List, [], ◌∷◌, ◌++◌, text_eq,
}
use mathlib.Core.List.{reverse-cons}
use adbfsm.Split.{Text, split, char_delim}
use adbfsm.Split.Words.{words, split-words}
use adbfsm.Split.Join.{IsWord, AreWords, words-AreWords, join}
use adbfsm.FilePath.{FilePath, slash, is_slash, dot, dot_dot, root, fullpath, create_buf}

-- `resolve`: the visitor of the splitter, on the components so far, the last one first.
unfoldable pub resolve_word : List Text → Text → List Text
resolve_word parents word =
    if text_eq word dot
    then parents
    else if text_eq word dot_dot
    then elim parents [ [] ↦ [] | last ∷ rest ↦ rest ]
    else word ∷ parents

unfoldable pub resolve_words : List Text → List Text → List Text
unfolding resolve_word
resolve_words parents [] = parents
resolve_words parents (w ∷ ws) = resolve_words (resolve_word parents w) ws

-- The components that `resolve` starts from, for a text whose first character is `c`.
unfoldable pub start_words : FilePath → ℕ → Option (List Text)
unfolding fullpath split char_delim
start_words p c = if is_slash c then some [] else split is_slash (fullpath p)

-- The text of the components, the last one first; none is the root.
unfoldable pub resolved : List Text → Option FilePath
unfolding create_buf
resolved [] = some root
resolved (w ∷ ws) = create_buf (join slash (reverse (w ∷ ws)))

-- `none` is undefined: the empty text has no first character, and the value of no path is taken.
unfoldable pub resolve : FilePath → Text → Option FilePath
unfolding start_words resolve_words resolved
resolve p [] = none
resolve p (c ∷ cs) = elim (start_words p c) [
  | none ↦ none
  | some parents ↦ elim (split is_slash (c ∷ cs)) [
    | none ↦ none
    | some ws ↦ resolved (resolve_words (reverse parents) ws)
  ]
]

-- A component that names an entry of a directory.
abbrev pub IsEntry : Text → Type 0
IsEntry w = IsWord is_slash w × (text_eq w dot ≡ false) × (text_eq w dot_dot ≡ false)

abbrev pub AreEntries : List Text → Type 0
AreEntries [] = Unit {0}
AreEntries (w ∷ ws) = IsEntry w × AreEntries ws

tail-AreEntries :
    (ws : List Text) → AreEntries ws → AreEntries (elim ws [ [] ↦ [] | last ∷ rest ↦ rest ])
tail-AreEntries [] h = tt
tail-AreEntries (w ∷ ws) h = h.1

resolve_word-AreEntries :
    (parents : List Text) (w : Text)
    → AreEntries parents
    → IsWord is_slash w
    → AreEntries (resolve_word parents w)
unfolding resolve_word
resolve_word-AreEntries parents w h k = elim (Bool-cases (text_eq w dot)) [
  | inl e ↦ rw e h
  | inr e ↦ elim (Bool-cases (text_eq w dot_dot)) [
    | inl f ↦ rw (e, f) (tail-AreEntries parents h)
    | inr f ↦ rw (e, f) ((k, e, f), h)
  ]
]

pub resolve_words-AreEntries :
    (parents ws : List Text)
    → AreEntries parents
    → AreWords is_slash ws
    → AreEntries (resolve_words parents ws)
unfolding resolve_words
resolve_words-AreEntries parents [] h k = h
resolve_words-AreEntries parents (w ∷ ws) h k =
    resolve_words-AreEntries (resolve_word parents w) ws (resolve_word-AreEntries parents w h k.0)
      k.1

AreEntries-append : (xs ys : List Text) → AreEntries xs → AreEntries ys → AreEntries (xs ++ ys)
AreEntries-append [] ys h k = k
AreEntries-append (x ∷ xs) ys h k = (h.0, AreEntries-append xs ys h.1 k)

pub AreEntries-reverse : (xs : List Text) → AreEntries xs → AreEntries (reverse xs)
AreEntries-reverse [] h = tt
AreEntries-reverse (x ∷ xs) h =
    subst AreEntries (sym (reverse-cons x xs))
      (AreEntries-append (reverse xs) (x ∷ []) (AreEntries-reverse xs h.1) (h.0, tt))

-- Where `resolve` starts, the last component first.
unfoldable pub start : FilePath → ℕ → List Text
start p c = if is_slash c then [] else reverse (words is_slash (fullpath p))

pub start-AreEntries :
    (p : FilePath) (c : ℕ) → AreEntries (words is_slash (fullpath p)) → AreEntries (start p c)
unfolding start
start-AreEntries p c h = elim (Bool-cases (is_slash c)) [
  | inl e ↦ rw e tt
  | inr e ↦ rw e (AreEntries-reverse (words is_slash (fullpath p)) h)
]

resolve_steps :
    (p : FilePath) (c : ℕ) (cs : Text) (ws : List Text)
    → start_words p c ≡ some ws
    → resolve p (c ∷ cs) ≡ resolved (resolve_words (reverse ws) (words is_slash (c ∷ cs)))
unfolding resolve
resolve_steps p c cs ws e = rw (resolve, e, split-words is_slash (c ∷ cs)) refl

pub resolve-start :
    (p : FilePath) (c : ℕ) (cs : Text)
    → resolve p (c ∷ cs) ≡ resolved (resolve_words (start p c) (words is_slash (c ∷ cs)))
unfolding start_words start
resolve-start p c cs = elim (Bool-cases (is_slash c)) [
  | inl e ↦ rw e (resolve_steps p c cs [] (rw e refl))
  | inr e ↦ rw e (
      resolve_steps p c cs (words is_slash (fullpath p)) (rw e (split-words is_slash (fullpath p))))
]
