-- ===== src/FilePath/Iter.antt =====
-- `Path::iter` (madbfs/src/path.cpp): the generator as the list of what it yields.
use adbfsm.Prelude.{
  ℕ, zero, suc, ◌+◌, ◌-◌, ◌≡◌, ◌<◌, refl, sym, ap, subst, ◌∙◌, Bool-cases, Option-cases, inl, inr,
  Option, none, some, List, [], ◌∷◌, leb, if◌then◌else◌, length, take, drop, drop-add, drop-eq-nil,
  length-drop, arith,
}
use adbfsm.Split.{Text, leading, find_delim, char_delim}
use adbfsm.Split.Words.{words, words-leading, words-word, leading-stops, StartsWord}
use adbfsm.FilePath.{FilePath, is_slash, fullpath, root_text}

-- The loop of `iter_path_impl` from `index`, with fuel for its rounds; `none` where it runs out.
unfoldable pub iter_from : ℕ → Text → ℕ → Option (List Text)
unfolding leading find_delim char_delim
iter_from zero s index = none
iter_from (suc fuel) s index =
    let start = index + leading is_slash (drop index s) in
    let rest : Option (List Text) = elim (find_delim is_slash (drop start s)) [
      | none ↦ some (drop start s ∷ [])
      | some k ↦ elim (iter_from fuel s (start + k + 1)) [
        | none ↦ none
        | some ws ↦ some (take k (drop start s) ∷ ws)
      ]
    ] in
    if leb (length s) index then some [] else if leb (length s) start then some [] else rest

unfoldable pub iter_path : Text → Option (List Text)
unfolding iter_from
iter_path s = elim (iter_from (suc (length s)) s 1) [
  | none ↦ none
  | some ws ↦ some (root_text ∷ ws)
]

unfoldable pub iter : FilePath → Option (List Text)
unfolding iter_path fullpath
iter p = iter_path (fullpath p)

-- What a round finds in the text `t` at `start`.
iter_found :
    (fuel : ℕ) (s : Text) (start : ℕ) (t : Text)
    → ((i : ℕ) → start < i → iter_from fuel s i ≡ some (words is_slash (drop i s)))
    → start < length s
    → drop start s ≡ t
    → StartsWord is_slash t
    → elim (find_delim is_slash t) [
      | none ↦ some (t ∷ [])
      | some k ↦ elim (iter_from fuel s (start + k + 1)) [
        | none ↦ none
        | some ws ↦ some (take k t ∷ ws)
      ]
    ]
      ≡ some (words is_slash t)
iter_found fuel s start [] ih inside d w = absurd (omega (arith, ap length d, length-drop start s))
iter_found fuel s start (c ∷ cs) ih inside d w =
    elim (Option-cases (find_delim is_slash (c ∷ cs))) [
      | inl o ↦
          let all : words is_slash (c ∷ cs) ≡ (c ∷ cs) ∷ [] =
            rw o at (words-word is_slash c cs w) in
          rw (o, all) refl
      | inr (k, o) ↦
          let all : words is_slash (c ∷ cs)
              ≡ take k (c ∷ cs) ∷ words is_slash (drop (suc k) (c ∷ cs)) =
            rw o at (words-word is_slash c cs w) in
          let place : start + suc k ≡ start + k + 1 = omega arith in
          let on : drop (start + k + 1) s ≡ drop (suc k) (c ∷ cs) =
            ap (λ n. drop n s) (sym place) ∙ drop-add start (suc k) s ∙ ap (drop (suc k)) d in
          let left : start < start + k + 1 = omega arith in
          rw (o, all, ih (start + k + 1) left, on) refl
    ]

iter_from-words :
    (fuel : ℕ) (s : Text) (index : ℕ)
    → length s - index < fuel
    → iter_from fuel s index ≡ some (words is_slash (drop index s))
unfolding iter_from
iter_from-words zero s index h = absurd (omega arith)
iter_from-words (suc fuel) s index h = elim (Bool-cases (leb (length s) index)) [
  | inl e ↦ rw (e, drop-eq-nil index s (ground arith)) (unfold words in refl)
  | inr e ↦
      let u : Text = drop index s in
      let start : ℕ = index + leading is_slash u in
      let behind : drop start s ≡ drop (leading is_slash u) u =
        drop-add index (leading is_slash u) s in
      let same : words is_slash u ≡ words is_slash (drop start s) =
        rw behind (sym (words-leading is_slash u)) in
      let begins : StartsWord is_slash (drop start s) =
        subst (StartsWord is_slash) (sym behind) (leading-stops is_slash u) in
      elim (Bool-cases (leb (length s) start)) [
        | inl f ↦ rw (e, f, same, drop-eq-nil start s (ground arith)) (unfold words in refl)
        | inr f ↦
            rw (e, f, same)
              (iter_found fuel s start (drop start s)
                (λ i lt. iter_from-words fuel s i (ground arith)) (ground arith) refl begins)
      ]
]

iter_path-words : (s : Text) → iter_path s ≡ some (root_text ∷ words is_slash (drop 1 s))
unfolding iter_path
iter_path-words s = rw (iter_path, iter_from-words (suc (length s)) s 1 (omega arith)) refl

-- Iterating over a path ends, and yields the root and then the words behind the first character.
pub iter_lem : (p : FilePath) → iter p ≡ some (root_text ∷ words is_slash (drop 1 (fullpath p)))
unfolding iter
iter_lem p = iter_path-words (fullpath p)
