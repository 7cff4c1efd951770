-- ===== src/Split/Fields.antt =====
-- What `split_n` returns of a text in which each field is followed by a delimiter.
use adbfsm.Prelude.{
  ℕ, suc, ◌+◌, ◌≡◌, refl, ap, subst, ◌∙◌, length, length-append, length-drop, drop-add, take, drop,
  Bool, true, false, some, List, [], ◌∷◌, ◌++◌, leb, arith,
}
use adbfsm.Rpc.Payload.Reads.{take-append, drop-append}
use adbfsm.Split.{Text, leading, find_delim, next, first_words, split_n}
use adbfsm.Split.Join.{IsWord}
use adbfsm.Split.Words.{StartsWord}

-- The fields, each with the delimiter behind it.
abbrev pub fields : ℕ → List Text → Text → Text
fields d [] rest = rest
fields d (w ∷ ws) rest = w ++ d ∷ fields d ws rest

module _ (is_delim : ℕ → Bool) where
  abbrev pub AreFields : List Text → Type 0
  AreFields [] = Unit {0}
  AreFields (w ∷ ws) = IsWord is_delim w × AreFields ws

module _ (is_delim : ℕ → Bool) (d : ℕ) (h : is_delim d ≡ true) where
  pub find_delim-word :
      (w rest : Text) → IsWord is_delim w → find_delim is_delim (w ++ d ∷ rest) ≡ some (length w)
  unfolding find_delim
  find_delim-word [] rest e = absurd e
  find_delim-word (c ∷ []) rest e = rw e (rw h refl)
  find_delim-word (c ∷ b ∷ cs) rest (e, k) = rw e (rw (find_delim-word (b ∷ cs) rest k) refl)

  leading-word : (w rest : Text) → IsWord is_delim w → leading is_delim (w ++ d ∷ rest) ≡ 0
  unfolding leading
  leading-word [] rest e = absurd e
  leading-word (c ∷ []) rest e = rw e refl
  leading-word (c ∷ b ∷ cs) rest (e, k) = rw e refl

  leading-StartsWord : (rest : Text) → StartsWord is_delim rest → leading is_delim rest ≡ 0
  unfolding leading
  leading-StartsWord [] e = refl
  leading-StartsWord (c ∷ cs) e = rw e refl

  next-word :
      (s : Text) (idx : ℕ) (w rest : Text)
      → IsWord is_delim w
      → drop idx s ≡ w ++ d ∷ rest
      → (next is_delim s idx ≡ (some w, idx + length w + 1)) × (drop (idx + length w + 1) s ≡ rest)
  unfolding next
  next-word s idx w rest e left =
      let whole : length (drop idx s) ≡ length w + suc (length rest) =
        ap length left ∙ length-append w (d ∷ rest) in
      let inside : leb (length s) idx ≡ false = ground (arith, whole, length-drop idx s) in
      let at : leading is_delim (drop idx s) ≡ 0 =
        ap (leading is_delim) left ∙ leading-word w rest e in
      let start : idx + 0 ≡ idx = omega arith in
      let behind : drop (idx + (length w + 1)) s ≡ rest =
        drop-add idx (length w + 1) s
        ∙ ap (drop (length w + 1)) left
        ∙ drop-add (length w) 1 (w ++ d ∷ rest)
        ∙ ap (drop 1) (drop-append w (d ∷ rest)) in
      let took : take (length w) (drop idx s) ≡ w =
        ap (take (length w)) left ∙ take-append w (d ∷ rest) in
      let same : idx + (length w + 1) ≡ idx + length w + 1 = omega arith in
      (
        rw (inside, at, start, ap (find_delim is_delim) left ∙ find_delim-word w rest e, took) refl,
        subst (λ n. drop n s ≡ rest) same behind,
      )

  first_words-fields :
      (ws : List Text) (s : Text) (idx : ℕ) (rest : Text)
      → AreFields is_delim ws
      → drop idx s ≡ fields d ws rest
      → (end : ℕ) × (first_words is_delim (length ws) s idx ≡ some (ws, end)) × (drop end s ≡ rest)
  unfolding first_words
  first_words-fields [] s idx rest k left = (idx, refl, left)
  first_words-fields (w ∷ ws) s idx rest (e, k) left =
      let (found, behind) = next-word s idx w (fields d ws rest) e left in
      let (end, others, after) = first_words-fields ws s (idx + length w + 1) rest k behind in
      (end, rw (found, first_words) (rw (found, others) refl), after)

  -- The fields are the words, and the text behind them is what is left, if it does not start with a
  -- delimiter.
  pub split_n-fields :
      (ws : List Text) (rest : Text)
      → AreFields is_delim ws
      → StartsWord is_delim rest
      → split_n is_delim (length ws) (fields d ws rest) ≡ some (ws, rest)
  unfolding split_n
  split_n-fields ws rest k starts =
      let (end, found, after) = first_words-fields ws (fields d ws rest) 0 rest k refl in
      let none_leads : leading is_delim (drop end (fields d ws rest)) ≡ 0 =
        ap (leading is_delim) after ∙ leading-StartsWord rest starts in
      let same : end + 0 ≡ end = omega arith in
      rw (found, split_n) (rw (none_leads, same, after) refl)
