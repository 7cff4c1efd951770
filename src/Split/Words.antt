-- ===== src/Split/Words.antt =====
-- `split` returns the words of a text: its longest runs of characters that are no delimiters.
use adbfsm.Prelude.{
  ℕ, zero, suc, ◌+◌, ◌-◌, ◌<◌, ◌≤◌, ◌≡◌, refl, sym, ap, subst, ◌∙◌, length-drop, drop-add,
  drop-eq-nil, Bool, true, false, Bool-cases, Option-cases, ◌⊎◌, inl, inr, Option, none, some, List,
  [], ◌∷◌, leb, if◌then◌else◌, arith, length, take, drop,
}
use adbfsm.Split.{Text, leading, find_delim, found_at, next, collect, split}

module _ (is_delim : ℕ → Bool) where
  -- A character before the words of the rest: it starts a word, or extends the first one if the
  -- rest goes on with a character that is no delimiter.
  unfoldable pub glue : ℕ → Text → List Text → List Text
  glue c [] ws = (c ∷ []) ∷ ws
  glue c (d ∷ ds) [] = (c ∷ []) ∷ []
  glue c (d ∷ ds) (w ∷ ws) = if is_delim d then (c ∷ []) ∷ w ∷ ws else (c ∷ w) ∷ ws

  unfoldable pub words : Text → List Text
  unfolding glue
  words [] = []
  words (c ∷ cs) = let ws = words cs in if is_delim c then ws else glue c cs ws

  -- Leading delimiters have no words.
  pub words-leading : (s : Text) → words (drop (leading is_delim s) s) ≡ words s
  unfolding words leading
  words-leading [] = refl
  words-leading (c ∷ cs) = ground (arith, words-leading cs)

  -- A delimiter behind a character ends the word.
  pub glue_delim :
      (c d : ℕ) (ds : Text) (ws : List Text)
      → is_delim d ≡ true
      → glue c (d ∷ ds) ws ≡ (c ∷ []) ∷ ws
  unfolding glue
  glue_delim c d ds [] h = refl
  glue_delim c d ds (w ∷ ws) h = rw h

  -- The words of a text that starts with no delimiter, by what `find_delim` says of it.
  abbrev pub word_at : Text → Option ℕ → List Text
  word_at s none = s ∷ []
  word_at s (some k) = take k s ∷ words (drop (suc k) s)

  pub words-cons : (c : ℕ) (cs : Text) → is_delim c ≡ false → words (c ∷ cs) ≡ glue c cs (words cs)
  unfolding words
  words-cons c cs h = rw h

  find_delim-cons :
      (c : ℕ) (cs : Text)
      → is_delim c ≡ false
      → find_delim is_delim (c ∷ cs)
        ≡ elim (find_delim is_delim cs) [ none ↦ none | some k ↦ some (suc k) ]
  unfolding find_delim
  find_delim-cons c cs h = rw h

  pub words-word :
      (c : ℕ) (cs : Text)
      → is_delim c ≡ false
      → words (c ∷ cs) ≡ word_at (c ∷ cs) (find_delim is_delim (c ∷ cs))
  words-word c [] h =
      rw (words-cons c [] h, find_delim-cons c [] h) (unfold words glue find_delim in refl)
  words-word c (d ∷ ds) h = elim (Bool-cases (is_delim d)) [
    | inl e ↦
        let found : find_delim is_delim (d ∷ ds) ≡ some 0 = unfold find_delim in rw e in
        let skipped : words (d ∷ ds) ≡ words ds = unfold words in rw e in
        rw (
          words-cons c (d ∷ ds) h,
          find_delim-cons c (d ∷ ds) h,
          found,
          skipped,
          glue_delim c d ds (words ds) e,
        )
    | inr e ↦ elim (Option-cases (find_delim is_delim (d ∷ ds))) [
      | inl o ↦
          let ws : words (d ∷ ds) ≡ (d ∷ ds) ∷ [] = rw o at (words-word d ds e) in
          rw (words-cons c (d ∷ ds) h, find_delim-cons c (d ∷ ds) h, o, ws) (unfold glue in rw e)
      | inr (k, o) ↦
          let ws : words (d ∷ ds) ≡ take k (d ∷ ds) ∷ words (drop (suc k) (d ∷ ds)) =
            rw o at (words-word d ds e) in
          rw (words-cons c (d ∷ ds) h, find_delim-cons c (d ∷ ds) h, o, ws) (unfold glue in rw e)
    ]
  ]

  abbrev pub StartsWord : Text → Type 0
  StartsWord [] = Unit {0}
  StartsWord (c ∷ cs) = is_delim c ≡ false

  pub leading-stops : (u : Text) → StartsWord (drop (leading is_delim u) u)
  unfolding leading
  leading-stops [] = tt
  leading-stops (c ∷ cs) = elim (Bool-cases (is_delim c)) [
    | inl e ↦ rw e (leading-stops cs)
    | inr e ↦ rw e e
  ]

  -- What a round returns: no word and there is none, or the first of the words that are left, with
  -- an index that has the others behind it.
  abbrev Splits : Text → ℕ → Option Text × ℕ → Type 0
  Splits s idx r =
      ((words (drop idx s) ≡ []) × (r.0 ≡ none))
      ⊎ ((w : Text) × (words (drop idx s) ≡ w ∷ words (drop r.1 s))
          × (r.0 ≡ some w)
          × (idx < r.1)
          × (idx < length s))

  found_at-Splits :
      (s : Text) (idx start : ℕ) (t : Text)
      → idx ≤ start
      → drop start s ≡ t
      → words (drop idx s) ≡ words t
      → StartsWord t
      → Splits s idx (found_at is_delim s start (find_delim is_delim t))
  found_at-Splits s idx start [] le d same h =
      let past : leb (length s) start ≡ true = ground (arith, ap length d, length-drop start s) in
      unfold find_delim words in rw past (inl (same, refl))
  found_at-Splits s idx start (c ∷ cs) le d same h =
      let inside : start < length s = omega (arith, ap length d, length-drop start s) in
      elim (Option-cases (find_delim is_delim (c ∷ cs))) [
        | inl o ↦
            let within : leb (length s) start ≡ false = ground arith in
            let all : words (drop idx s) ≡ drop start s ∷ words (drop (length s) s) =
              rw (same, words-word c cs h, o, d, drop-eq-nil (length s) s (omega arith))
                (unfold words in refl) in
            rw (o, within) (inr (drop start s, all, refl, omega arith, omega arith))
        | inr (k, o) ↦
            let on : drop (start + k + 1) s ≡ drop (suc k) (c ∷ cs) =
              subst (λ n. drop n s ≡ drop (suc k) (c ∷ cs)) (omega arith)
                (drop-add start (suc k) s ∙ ap (drop (suc k)) d) in
            let all : words (drop idx s) ≡ take k (drop start s) ∷ words (drop (start + k + 1) s) =
              rw (same, words-word c cs h, o, on, d) in
            rw o (inr (take k (drop start s), all, refl, omega arith, omega arith))
      ]

  next-Splits : (s : Text) (idx : ℕ) → Splits s idx (next is_delim s idx)
  unfolding next
  next-Splits s idx = elim (Bool-cases (leb (length s) idx)) [
    | inl e ↦
        let none_left : words (drop idx s) ≡ [] =
          rw (drop-eq-nil idx s (ground arith)) (unfold words in refl) in
        rw e (inl (none_left, refl))
    | inr e ↦
        let u : Text = drop idx s in
        let start : ℕ = idx + leading is_delim u in
        let behind : drop start s ≡ drop (leading is_delim u) u =
          drop-add idx (leading is_delim u) s in
        let same : words u ≡ words (drop start s) = rw behind (sym (words-leading u)) in
        let begins : StartsWord (drop start s) = subst StartsWord (sym behind) (leading-stops u) in
        rw e (found_at-Splits s idx start (drop start s) (omega arith) refl same begins)
  ]

  -- From any index, with fuel for the characters that are left.
  collect-words :
      (fuel : ℕ) (s : Text) (idx : ℕ)
      → length s - idx < fuel
      → collect is_delim fuel s idx ≡ some (words (drop idx s))
  unfolding collect
  collect-words zero s idx lt = absurd (omega arith)
  collect-words (suc fuel) s idx lt = elim (next-Splits s idx) [
    | inl (e, o) ↦ rw (o, collect, e)
    | inr (w, e, o, on, lt') ↦
        rw (o, collect, collect-words fuel s (next is_delim s idx).1 (omega arith), e)
  ]

  -- `split` ends, and returns exactly the words of the text.
  pub split-words : (s : Text) → split is_delim s ≡ some (words s)
  unfolding split
  split-words s = collect-words (suc (length s)) s 0 (omega arith)
