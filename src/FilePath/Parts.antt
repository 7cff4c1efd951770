-- ===== src/FilePath/Parts.antt =====
-- What `extend`, `extend_copy` and `rename` do to the components of a path.
use adbfsm.Prelude.{
  ℕ, suc, ◌+◌, ◌≡◌, refl, sym, ap, ◌∙◌, Bool, true, false, Bool-cases, inl, inr, List, [], ◌∷◌,
  ◌++◌, length, take, drop, ◌||◌, ◌&&◌, ◌==◌, not, length-append, take-all, arith, get_or,
  append-nil, text_eq, if◌then◌else◌, append_assoc, ==_iff,
}
use mathlib.Core.Bool.{true≢false}
use adbfsm.Split.{Text, char_delim}
use adbfsm.Split.Words.{words}
use adbfsm.Split.Join.{words-append, words-append_delim, IsWord}
use adbfsm.FilePath.{
  FilePath, slash, is_slash, filename, fullpath, parent, has_slash, bad_name, extend, rename,
  root_text,
}

abbrev pub components : Text → List Text
components = words is_slash

slash_delim : is_slash slash ≡ true
unfolding char_delim
slash_delim = refl

or_false : (a b : Bool) → (a || b) ≡ false → (a ≡ false) × (b ≡ false)
or_false true b h = absurd (true≢false h)
or_false false b h = (refl, h)

IsWord-no_slash : (c : ℕ) (cs : Text) → has_slash (c ∷ cs) ≡ false → IsWord is_slash (c ∷ cs)
unfolding has_slash
IsWord-no_slash c [] h = elim (Bool-cases (is_slash c)) [
  | inl e ↦ absurd (true≢false (rw e at h))
  | inr e ↦ e
]
IsWord-no_slash c (d ∷ ds) h = elim (Bool-cases (is_slash c)) [
  | inl e ↦ absurd (true≢false (rw e at h))
  | inr e ↦ (e, IsWord-no_slash d ds (rw e at h))
]

IsWord-name : (name : Text) → bad_name name ≡ false → IsWord is_slash name
unfolding bad_name
IsWord-name [] h = absurd (true≢false h)
IsWord-name (c ∷ cs) h = IsWord-no_slash c cs (or_false (has_slash (c ∷ cs)) _ h).0

pub and_false : (b : Bool) → (b && false) ≡ false
and_false true = refl
and_false false = refl

-- The base name is the end of the buffer, behind a slash.
unfoldable pub HasName : FilePath → Text → Text → Type 0
HasName p dir base =
    (p.buffer ≡ dir ++ slash ∷ base)
    × (p.basename_offset ≡ suc (length dir))
    × (p.basename_size ≡ length base)

drop_past : (dir : Text) (c : ℕ) (base : Text) → drop (suc (length dir)) (dir ++ c ∷ base) ≡ base
drop_past [] c base = refl
drop_past (x ∷ dir) c base = drop_past dir c base

take_past :
    (dir : Text) (c : ℕ) (base : Text) → take (suc (length dir)) (dir ++ c ∷ base) ≡ dir ++ c ∷ []
take_past [] c base = refl
take_past (x ∷ dir) c base = ap (λ t. x ∷ t) (take_past dir c base)

components_name :
    (dir base : Text)
    → IsWord is_slash base
    → components (dir ++ slash ∷ base) ≡ components dir ++ base ∷ []
unfolding words
components_name dir base h =
    let alone : components base ≡ base ∷ [] =
      ap components (sym (append-nil base)) ∙ words-append is_slash base [] h tt in
    words-append_delim is_slash dir slash base slash_delim ∙ rw alone refl

HasName-filename : (p : FilePath) (dir base : Text) → HasName p dir base → filename p ≡ base
unfolding HasName filename
HasName-filename p dir base (b, o, s) = rw (b, o, s, drop_past dir slash base) (take-all base)

pub HasName-fullpath :
    (p : FilePath) (dir base : Text) → HasName p dir base → fullpath p ≡ dir ++ slash ∷ base
unfolding HasName fullpath
HasName-fullpath p dir base (b, o, s) =
    let size : suc (length dir) + length base ≡ length (dir ++ slash ∷ base) =
      omega (arith, length-append dir (slash ∷ base)) in
    rw (b, o, s, size) (take-all (dir ++ slash ∷ base))

-- The last component of a path with a name is the name.
components-fullpath :
    (p : FilePath) (dir base : Text)
    → HasName p dir base
    → IsWord is_slash base
    → components (fullpath p) ≡ components dir ++ base ∷ []
components-fullpath p dir base h w =
    ap components (HasName-fullpath p dir base h) ∙ components_name dir base w

not_root :
    (dir base : Text) → IsWord is_slash base → text_eq (dir ++ slash ∷ base) root_text ≡ false
not_root [] [] w = absurd w
not_root [] (b ∷ bs) w = refl
not_root (x ∷ []) base w = and_false (x == slash)
not_root (x ∷ y ∷ dir) base w = and_false (x == slash)

rename-HasName :
    (name : Text) (p : FilePath) (dir base : Text)
    → HasName p dir base
    → IsWord is_slash base
    → bad_name name ≡ false
    → ((rename name p).1 ≡ true) × HasName (rename name p).0 dir name
unfolding rename HasName
rename-HasName name p dir base (b, o, s) w good =
    let other : text_eq p.buffer root_text ≡ false = rw b (not_root dir base w) in
    let kept : take p.basename_offset p.buffer ≡ dir ++ slash ∷ [] =
      rw (o, b) (take_past dir slash base) in
    rw (good, other) (refl, (rw kept (append_assoc dir (slash ∷ []) name), o, refl))

-- Renaming a path that ends in a name, to a name that is not empty, "." or ".." and holds no slash,
-- is done: the new name takes the place of the last component, and the others stay.
pub rename_lem :
    (name : Text) (p : FilePath) (dir base : Text)
    → HasName p dir base
    → IsWord is_slash base
    → bad_name name ≡ false
    → ((rename name p).1 ≡ true)
      × (filename (rename name p).0 ≡ name)
      × (components (fullpath (rename name p).0) ≡ components dir ++ name ∷ [])
      × (components (fullpath p) ≡ components dir ++ base ∷ [])
rename_lem name p dir base h w good =
    let (done, named) = rename-HasName name p dir base h w good in
    (
      done,
      HasName-filename (rename name p).0 dir name named,
      components-fullpath (rename name p).0 dir name named (IsWord-name name good),
      components-fullpath p dir base h w,
    )

-- The test of `extend` for a path that is not the root.
unfoldable pub needs_slash : Text → Bool
needs_slash buffer = not (length buffer == 1) || not (is_slash (get_or buffer 0 0))

-- The directory of the path that `extend` makes, without its last slash.
unfoldable pub extended_dir : Text → Text
unfolding needs_slash
extended_dir buffer = if needs_slash buffer then buffer else []

one_slash : (s : Text) → needs_slash s ≡ false → s ≡ slash ∷ []
unfolding needs_slash char_delim
one_slash [] h = absurd (true≢false h)
one_slash (c ∷ []) h = elim (Bool-cases (c == slash)) [
  | inl e ↦ ap (λ x. x ∷ []) ((==_iff c slash).0 e)
  | inr e ↦ absurd (true≢false (rw e at h))
]
one_slash (c ∷ d ∷ cs) h =
    let long : (suc (suc (length cs)) == 1) ≡ false = ground arith in
    absurd (true≢false (rw long at h))

extended_dir-components : (s : Text) → components (extended_dir s) ≡ components s
unfolding extended_dir words char_delim
extended_dir-components s = elim (Bool-cases (needs_slash s)) [
  | inl e ↦ rw e refl
  | inr e ↦ rw (e, one_slash s e) refl
]

take_front : (xs ys : Text) → take (length xs) (xs ++ ys) ≡ xs
take_front [] ys = refl
take_front (x ∷ xs) ys = ap (λ t. x ∷ t) (take_front xs ys)

pub extend-HasName :
    (name : Text) (p : FilePath)
    → bad_name name ≡ false
    → ((extend name p).1 ≡ true)
      × HasName (extend name p).0 (extended_dir p.buffer) name
      × (parent (extend name p).0 ≡ p.buffer)
unfolding extend extended_dir HasName parent needs_slash
extend-HasName name p good = elim (Bool-cases (needs_slash p.buffer)) [
  | inl e ↦
      let joined = append_assoc p.buffer (slash ∷ []) name in
      rw (good, e)
        (refl, (joined, omega arith, refl), rw joined (take_front p.buffer (slash ∷ name)))
  | inr e ↦ rw (good, e, one_slash p.buffer e) (refl, (refl, refl, refl), refl)
]

-- Extending a path, which fills its buffer or not, by a name that is not empty, "." or ".." and holds no
-- slash is done: the name is the new last component, behind those of the old buffer, which is the
-- new parent.
pub extend_lem :
    (name : Text) (p : FilePath)
    → bad_name name ≡ false
    → ((extend name p).1 ≡ true)
      × (filename (extend name p).0 ≡ name)
      × (parent (extend name p).0 ≡ p.buffer)
      × (components (fullpath (extend name p).0) ≡ components p.buffer ++ name ∷ [])
extend_lem name p good =
    let (done, named, dir) = extend-HasName name p good in
    let q = (extend name p).0 in
    (
      done,
      HasName-filename q (extended_dir p.buffer) name named,
      dir,
      components-fullpath q (extended_dir p.buffer) name named (IsWord-name name good)
          ∙ ap (λ ws. ws ++ name ∷ []) (extended_dir-components p.buffer),
    )
