-- ===== src/FilePath/Resolve/Normal.antt =====
-- The path that `resolve` returns, described without its stack: the components from the last to the first,
-- of which each ".." takes away the next one that is left.
use adbfsm.Prelude.{
  ℕ, zero, suc, ◌≡◌, ◌≢◌, Bool, refl, sym, ap, subst, ◌∙◌, true, false, Bool-cases, inl, inr, some,
  List, [], ◌∷◌, ◌++◌, reverse, reverse-reverse, append_assoc, drop, text_eq, if◌then◌else◌,
}
use mathlib.Core.List.{reverse-cons}
use adbfsm.Split.{Text, char_delim}
use adbfsm.Split.Words.{words}
use adbfsm.Split.Join.{AreWords, join, words-join, words-AreWords}
use adbfsm.FilePath.{FilePath, slash, is_slash, dot, dot_dot, root, fullpath, create, create_buf}
use adbfsm.FilePath.Resolve.{
  resolve_word, resolve_words, resolved, resolve, AreEntries, start, start-AreEntries,
  resolve-start, resolve_words-AreEntries, AreEntries-reverse,
}

-- The components that are left of those from the last to the first, where the next `n` are taken away.
abbrev pub left : ℕ → List Text → List Text
left n [] = []
left zero (w ∷ ws) =
    if text_eq w dot then left 0 ws else if text_eq w dot_dot then left 1 ws else w ∷ left 0 ws
left (suc n) (w ∷ ws) =
    if text_eq w dot
    then left (suc n) ws
    else if text_eq w dot_dot
    then left (suc (suc n)) ws
    else left n ws

drop-suc : (n : ℕ) (ws : List Text) → drop n (drop 1 ws) ≡ drop (suc n) ws
drop-suc zero [] = refl
drop-suc (suc n) [] = refl
drop-suc n (w ∷ ws) = refl

left-drop : (n : ℕ) (ws : List Text) → left n ws ≡ drop n (left 0 ws)
left-drop zero ws = refl
left-drop (suc n) [] = refl
left-drop (suc n) (w ∷ ws) = elim (Bool-cases (text_eq w dot)) [
  | inl e ↦ rw e (left-drop (suc n) ws)
  | inr e ↦ elim (Bool-cases (text_eq w dot_dot)) [
    | inl f ↦
        rw (e, f)
          (left-drop (suc (suc n)) ws
            ∙ sym (ap (drop (suc n)) (left-drop 1 ws) ∙ drop-suc (suc n) (left 0 ws)))
    | inr f ↦ rw (e, f) (left-drop n ws)
  ]
]

drop_first : (ws : List Text) → elim ws [ [] ↦ [] | last ∷ rest ↦ rest ] ≡ drop 1 ws
drop_first [] = refl
drop_first (w ∷ ws) = refl

left-cons : (w : Text) (ws : List Text) → resolve_word (left 0 ws) w ≡ left 0 (w ∷ ws)
unfolding resolve_word
left-cons w ws = elim (Bool-cases (text_eq w dot)) [
  | inl e ↦ rw e refl
  | inr e ↦ elim (Bool-cases (text_eq w dot_dot)) [
    | inl f ↦ rw (e, f) (drop_first (left 0 ws) ∙ sym (left-drop 1 ws))
    | inr f ↦ rw (e, f) refl
  ]
]

resolve_words-left :
    (ws before : List Text) → resolve_words (left 0 before) ws ≡ left 0 (reverse ws ++ before)
unfolding resolve_words
resolve_words-left [] before = refl
resolve_words-left (w ∷ ws) before =
    let turned : reverse (w ∷ ws) ++ before ≡ reverse ws ++ (w ∷ before) =
      ap (λ t. t ++ before) (reverse-cons w ws) ∙ append_assoc (reverse ws) (w ∷ []) before in
    ap (λ t. resolve_words t ws) (left-cons w before)
    ∙ resolve_words-left ws (w ∷ before)
    ∙ sym (ap (left 0) turned)

left-AreEntries : (ws : List Text) → AreEntries ws → left 0 ws ≡ ws
left-AreEntries [] h = refl
left-AreEntries (w ∷ ws) ((k, e, f), h) = rw (e, f) (ap (λ t. w ∷ t) (left-AreEntries ws h))

if_some : (b : Bool) (x y : FilePath) → (p : FilePath) × ((if b then some x else some y) ≡ some p)
if_some true x y = (x, refl)
if_some false x y = (y, refl)

create-slash : (cs : Text) → (p : FilePath) × (create (slash ∷ cs) ≡ some p)
unfolding create char_delim
create-slash cs = if_some _ _ _

create_buf-slash :
    (cs : Text) → (q : FilePath) × (create_buf (slash ∷ cs) ≡ some q) × (q.buffer ≡ slash ∷ cs)
unfolding create_buf
create_buf-slash cs =
    let (p, e) = create-slash cs in
    (record p { buffer = slash ∷ cs }, rw (create_buf, e) refl, refl)

AreEntries-AreWords : (ws : List Text) → AreEntries ws → AreWords is_slash ws
AreEntries-AreWords [] h = tt
AreEntries-AreWords (w ∷ ws) ((k, e, f), h) = (k, AreEntries-AreWords ws h)

reverse-not_nil : (w : Text) (ws : List Text) → reverse (w ∷ ws) ≢ []
reverse-not_nil w ws e = cons_nil w ws (sym (reverse-reverse (w ∷ ws)) ∙ ap reverse e)
  where
    cons_nil : (x : Text) (xs : List Text) → (x ∷ xs) ≢ []
    cons_nil x xs same = cc

-- The components make a path.
resolved-AreEntries :
    (ws : List Text)
    → AreEntries (reverse ws)
    → (q : FilePath) × (resolved ws ≡ some q) × (words is_slash q.buffer ≡ reverse ws)
unfolding resolved
resolved-AreEntries [] h = (root, refl, unfold words char_delim in refl)
resolved-AreEntries (w ∷ ws) h = go (reverse (w ∷ ws)) refl h
  where
    go :
        (vs : List Text)
        → reverse (w ∷ ws) ≡ vs
        → AreEntries vs
        → (q : FilePath) × (resolved (w ∷ ws) ≡ some q)
          × (words is_slash q.buffer ≡ reverse (w ∷ ws))
    go [] e k = absurd (reverse-not_nil w ws e)
    go (v ∷ vs) e k =
        let (q, made, whole) = create_buf-slash (v ++ join slash vs) in
        (
          q,
          rw (resolved, e) made,
          rw whole (
              words-join is_slash slash (v ∷ vs) (unfold char_delim in refl)
                (AreEntries-AreWords (v ∷ vs) k)
              ∙ sym e),
        )

-- The components that a text is resolved with, the last one first: those of the path, if the text is not
-- absolute, and then its own.
abbrev pub all_words : FilePath → Text → List Text
all_words p [] = []
all_words p (c ∷ cs) = reverse (words is_slash (c ∷ cs)) ++ start p c

-- A text that is not empty is resolved, absolute or against a path whose components are entries, to a path,
-- and the components of that path are those of the path and the text without the dots, where going from
-- the last to the first each ".." takes away the next component that is left. All of them are entries:
-- none is empty, ".", ".." or holds a slash.
pub resolve_lem :
    (p : FilePath) (c : ℕ) (cs : Text)
    → AreEntries (words is_slash (fullpath p))
    → (q : FilePath) × (resolve p (c ∷ cs) ≡ some q)
      × (words is_slash q.buffer ≡ reverse (left 0 (all_words p (c ∷ cs))))
      × AreEntries (words is_slash q.buffer)
resolve_lem p c cs h =
    let before = start-AreEntries p c h in
    let stack = resolve_words (start p c) (words is_slash (c ∷ cs)) in
    let entries : AreEntries stack =
      resolve_words-AreEntries (start p c) (words is_slash (c ∷ cs)) before
        (words-AreWords is_slash (c ∷ cs)) in
    let same : stack ≡ left 0 (all_words p (c ∷ cs)) =
      ap (λ t. resolve_words t (words is_slash (c ∷ cs))) (sym (left-AreEntries (start p c) before))
      ∙ resolve_words-left (words is_slash (c ∷ cs)) (start p c) in
    let turned : AreEntries (reverse stack) = AreEntries-reverse stack entries in
    let (q, made, parts) = resolved-AreEntries stack turned in
    (q, resolve-start p c cs ∙ made, parts ∙ ap reverse same, subst AreEntries (sym parts) turned)
