-- ===== src/Split/Join.antt =====
-- Words and the texts that are joined from them.
use adbfsm.Prelude.{
  ℕ, suc, ◌≡◌, refl, Bool, true, false, Bool-cases, Option-cases, inl, inr, some, List, [], ◌∷◌,
  ◌++◌, take, drop,
}
use adbfsm.Split.{Text, find_delim, split}
use adbfsm.Split.Words.{words, glue, words-cons, glue_delim, words-word, split-words}

module _ (is_delim : ℕ → Bool) where
  abbrev pub IsWord : Text → Type 0
  IsWord [] = ⊥
  IsWord (c ∷ []) = is_delim c ≡ false
  IsWord (c ∷ d ∷ cs) = (is_delim c ≡ false) × IsWord (d ∷ cs)

  abbrev pub EndsWord : Text → Type 0
  EndsWord [] = Unit {0}
  EndsWord (d ∷ ds) = is_delim d ≡ true

  IsWord-head : (d : ℕ) (cs : Text) → IsWord (d ∷ cs) → is_delim d ≡ false
  IsWord-head d [] h = h
  IsWord-head d (c ∷ cs) h = h.0

  -- A word in front of a text that goes on with a delimiter or ends.
  pub words-append :
      (w rest : Text)
      → IsWord w
      → EndsWord rest
      → words is_delim (w ++ rest) ≡ w ∷ words is_delim rest
  words-append [] rest h e = absurd h
  words-append (c ∷ []) [] h e = rw (words-cons is_delim c [] h) (unfold glue in refl)
  words-append (c ∷ []) (d ∷ ds) h e =
      rw (words-cons is_delim c (d ∷ ds) h, glue_delim is_delim c d ds (words is_delim (d ∷ ds)) e)
  words-append (c ∷ d ∷ cs) rest h e =
      rw (words-cons is_delim c (d ∷ cs ++ rest) h.0, words-append (d ∷ cs) rest h.1 e)
        (unfold glue in rw (IsWord-head d cs h.1))

  pub words-delim :
      (d : ℕ) (ds : Text) → is_delim d ≡ true → words is_delim (d ∷ ds) ≡ words is_delim ds
  unfolding words
  words-delim d ds h = rw h

  words-cons_some :
      (c : ℕ) (cs : Text)
      → is_delim c ≡ false
      → (w : Text) × (ws : List Text) × (words is_delim (c ∷ cs) ≡ w ∷ ws)
  words-cons_some c cs h = elim (Option-cases (find_delim is_delim (c ∷ cs))) [
    | inl o ↦ (c ∷ cs, [], rw o at (words-word is_delim c cs h))
    | inr (k, o) ↦ (
      take k (c ∷ cs),
      words is_delim (drop (suc k) (c ∷ cs)),
      rw o at (words-word is_delim c cs h),
    )
  ]

  word_first :
      (c : ℕ) (cs : Text) (d : ℕ) (t : Text)
      → is_delim c ≡ false
      → is_delim d ≡ true
      → words is_delim (cs ++ d ∷ t) ≡ words is_delim cs ++ words is_delim t
      → words is_delim (c ∷ (cs ++ d ∷ t)) ≡ words is_delim (c ∷ cs) ++ words is_delim t
  word_first c [] d t e h ih =
      let start : words is_delim (d ∷ t) ≡ words is_delim t = words-delim d t h in
      rw
        (
          words-cons is_delim c (d ∷ t) e,
          words-cons is_delim c [] e,
          start,
          glue_delim is_delim c d t (words is_delim t) h,
        )
        (unfold glue words in refl)
  word_first c (b ∷ bs) d t e h ih = elim (Bool-cases (is_delim b)) [
    | inl f ↦
        rw
          (
            words-cons is_delim c (b ∷ bs ++ d ∷ t) e,
            words-cons is_delim c (b ∷ bs) e,
            ih,
            glue_delim is_delim c b (bs ++ d ∷ t) (words is_delim (b ∷ bs) ++ words is_delim t) f,
            glue_delim is_delim c b bs (words is_delim (b ∷ bs)) f,
          )
          refl
    | inr f ↦
        let (w, ws, found) = words-cons_some b bs f in
        rw (words-cons is_delim c (b ∷ bs ++ d ∷ t) e, words-cons is_delim c (b ∷ bs) e, ih, found)
          (unfold glue in rw f refl)
  ]

  -- A delimiter separates the words is_delim on its two sides.
  pub words-append_delim :
      (s : Text) (d : ℕ) (t : Text)
      → is_delim d ≡ true
      → words is_delim (s ++ d ∷ t) ≡ words is_delim s ++ words is_delim t
  words-append_delim [] d t h = rw (words-delim d t h) (unfold words in refl)
  words-append_delim (c ∷ cs) d t h = elim (Bool-cases (is_delim c)) [
    | inl e ↦ rw (words-delim c (cs ++ d ∷ t) e, words-delim c cs e) (words-append_delim cs d t h)
    | inr e ↦ word_first c cs d t e h (words-append_delim cs d t h)
  ]

-- A path from its components: a delimiter before each.
abbrev pub join : ℕ → List Text → Text
join d [] = []
join d (w ∷ ws) = d ∷ (w ++ join d ws)

module _ (is_delim : ℕ → Bool) where
  abbrev pub AreWords : List Text → Type 0
  AreWords [] = Unit {0}
  AreWords (w ∷ ws) = IsWord is_delim w × AreWords ws

  pub words-join :
      (d : ℕ) (ws : List Text) → is_delim d ≡ true → AreWords ws → words is_delim (join d ws) ≡ ws
  words-join d [] h k = unfold words in refl
  words-join d (w ∷ ws) h k = rw (
    words-delim is_delim d (w ++ join d ws) h,
    words-append is_delim w (join d ws) k.0 (join_ends ws),
    words-join d ws h k.1,
  )
    where
      join_ends : (ws : List Text) → EndsWord is_delim (join d ws)
      join_ends [] = tt
      join_ends (w ∷ ws) = h

  -- Splitting the join of words gives the words back, if none of them is empty or holds a delimiter.
  pub split-join :
      (d : ℕ) (ws : List Text)
      → is_delim d ≡ true
      → AreWords ws
      → split is_delim (join d ws) ≡ some ws
  split-join d ws h k = rw (split-words is_delim (join d ws), words-join d ws h k)

  IsWord-cons :
      (c : ℕ) (w : Text) → is_delim c ≡ false → IsWord is_delim w → IsWord is_delim (c ∷ w)
  IsWord-cons c [] h k = absurd k
  IsWord-cons c (d ∷ ds) h k = (h, k)

  glue-AreWords :
      (c : ℕ) (cs : Text) (ws : List Text)
      → is_delim c ≡ false
      → AreWords ws
      → AreWords (glue is_delim c cs ws)
  unfolding glue
  glue-AreWords c [] ws h k = (h, k)
  glue-AreWords c (d ∷ ds) [] h k = (h, tt)
  glue-AreWords c (d ∷ ds) (w ∷ ws) h k = elim (Bool-cases (is_delim d)) [
    | inl e ↦ rw e (h, k)
    | inr e ↦ rw e (IsWord-cons c w h k.0, k.1)
  ]

  -- The words of a text are words: none is empty or holds a delimiter.
  pub words-AreWords : (s : Text) → AreWords (words is_delim s)
  unfolding words
  words-AreWords [] = tt
  words-AreWords (c ∷ cs) = elim (Bool-cases (is_delim c)) [
    | inl e ↦ rw e (words-AreWords cs)
    | inr e ↦ rw e (glue-AreWords c cs (words is_delim cs) e (words-AreWords cs))
  ]
