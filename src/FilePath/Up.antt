-- ===== src/FilePath/Up.antt =====
-- `parent_path` undoes `extend`.
pub mod Texts
use adbfsm.Prelude.{
  ℕ, zero, suc, ◌+◌, ◌-◌, ◌≡◌, ◌<◌, refl, sym, ap, subst, ◌∙◌, true, false, ◌==◌, Bool-cases, ◌⊎◌,
  inl, inr, [], ◌∷◌, ◌++◌, length, length-append, append_assoc, arith, get_or, text_eq,
  if◌then◌else◌,
}
use mathlib.Core.Bool.{true≢false}
use adbfsm.Split.{Text, char_delim}
use adbfsm.FilePath.{
  FilePath, slash, is_slash, root, root_text, parent, has_slash, bad_name, extend, back_to_slash,
  back_over_slashes, parent_path,
}
use adbfsm.FilePath.Parts.{extend_lem, and_false}

slash_is : is_slash slash ≡ true
unfolding char_delim
slash_is = refl

get_or-append : (f g : Text) (k d : ℕ) → get_or (f ++ g) (length f + k) d ≡ get_or g k d
get_or-append [] g k d = let e : 0 + k ≡ k = omega arith in ap (λ n. get_or g n d) e
get_or-append (c ∷ cs) g k d =
    let e : suc (length cs) + k ≡ suc (length cs + k) = omega arith in
    ap (λ n. get_or (c ∷ (cs ++ g)) n d) e ∙ get_or-append cs g k d

get_or-front : (f g : Text) (k d : ℕ) → k < length f → get_or (f ++ g) k d ≡ get_or f k d
get_or-front [] g k d lt = absurd (omega arith)
get_or-front (c ∷ cs) g zero d lt = refl
get_or-front (c ∷ cs) g (suc k) d lt = get_or-front cs g k d (omega arith)

no_slash : (base : Text) (k : ℕ) → has_slash base ≡ false → is_slash (get_or base k 0) ≡ false
unfolding has_slash char_delim
no_slash [] k h = refl
no_slash (c ∷ cs) zero h = elim (Bool-cases (is_slash c)) [
  | inl e ↦ absurd (true≢false (sym (rw e refl) ∙ h))
  | inr e ↦ e
]
no_slash (c ∷ cs) (suc k) h = elim (Bool-cases (is_slash c)) [
  | inl e ↦ absurd (true≢false (sym (rw e refl) ∙ h))
  | inr e ↦ no_slash cs k (rw e at h)
]

-- The last slash of a directory, a slash and a name without one.
back_to_slash-last :
    (f base : Text) (k : ℕ)
    → has_slash base ≡ false
    → back_to_slash (suc (length f + k)) (f ++ slash ∷ base) ≡ length f
unfolding back_to_slash
back_to_slash-last f base zero h =
    let e : length f + 0 ≡ length f = omega arith in
    let at : get_or (f ++ slash ∷ base) (length f + 0) 0 ≡ slash =
      get_or-append f (slash ∷ base) 0 0 in
    rw (at, back_to_slash) (rw slash_is e)
back_to_slash-last f base (suc k) h =
    let e : length f + suc k ≡ suc (length f + k) = omega arith in
    let at : is_slash (get_or (f ++ slash ∷ base) (length f + suc k) 0) ≡ false =
      ap is_slash (get_or-append f (slash ∷ base) (suc k) 0) ∙ no_slash base k h in
    let rest : back_to_slash (length f + suc k) (f ++ slash ∷ base) ≡ length f =
      ap (λ n. back_to_slash n (f ++ slash ∷ base)) e ∙ back_to_slash-last f base k h in
    rw (back_to_slash, at) rest

-- The loop over the slashes in front of it stops at once, where the directory does not end with one.
back_over_slashes-last :
    (n : ℕ) (f base : Text)
    → length f ≡ suc (suc n)
    → is_slash (get_or f (suc n) 0) ≡ false
    → back_over_slashes (length f) (f ++ slash ∷ base) ≡ suc n
unfolding back_over_slashes
back_over_slashes-last n f base size ends =
    let here : get_or (f ++ slash ∷ base) (suc (suc n)) 0 ≡ slash =
      ap (λ k. get_or (f ++ slash ∷ base) k 0) (sym size ∙ same)
      ∙ get_or-append f (slash ∷ base) 0 0 in
    let before : is_slash (get_or (f ++ slash ∷ base) (suc n) 0) ≡ false =
      ap is_slash (get_or-front f (slash ∷ base) (suc n) 0 (omega (arith, size))) ∙ ends in
    rw (size, here, back_over_slashes) (rw (slash_is, before) refl)
  where
    same : length f ≡ length f + 0
    same = omega arith

not_bad : (base : Text) → bad_name base ≡ false → has_slash base ≡ false
unfolding bad_name
not_bad base h = elim (Bool-cases (has_slash base)) [
  | inr e ↦ e
  | inl e ↦ elim (Bool-cases (text_eq base [])) [
    | inl f ↦ absurd (true≢false (sym (rw f refl) ∙ h))
    | inr f ↦ absurd (true≢false (sym (rw (f, e) refl) ∙ h))
  ]
]

-- An absolute directory that does not end with a slash: it has at least two characters.
abbrev pub IsDirectory : Text → Type 0
IsDirectory f =
    (n : ℕ) × (length f ≡ suc (suc n))
    × (get_or f 0 0 ≡ slash)
    × (is_slash (get_or f (suc n) 0) ≡ false)

parent_path-dir :
    (x : FilePath) (dir : Text) (b e : ℕ)
    → parent x ≡ dir
    → text_eq dir root_text ≡ false
    → back_to_slash (length dir) dir ≡ b
    → back_over_slashes b dir ≡ e
    → parent_path x ≡ record {
      buffer = dir;
      parent_size = if e == 0 then b + 1 else e + 1;
      basename_size = length dir - (b + 1);
      basename_offset = b + 1;
    }
unfolding parent_path
parent_path-dir x dir b e d other last over = rw (d, parent_path) (rw (other, last) (rw over refl))

-- A path in the root, and one in a directory that does not end with a slash.
abbrev below_root : Text → FilePath
below_root base = record {
  buffer = slash ∷ base;
  parent_size = 1;
  basename_size = length base;
  basename_offset = 1;
}

abbrev below : Text → Text → FilePath
below f base = record {
  buffer = (f ++ slash ∷ []) ++ base;
  parent_size = length f;
  basename_size = length base;
  basename_offset = length f + 1;
}

extend-root :
    (base : Text) (p : FilePath)
    → bad_name base ≡ false
    → p.buffer ≡ root_text
    → (extend base p).0 ≡ below_root base
unfolding extend
extend-root base p good e = rw (good, e, slash_is) refl

extend-directory :
    (base : Text) (p : FilePath)
    → bad_name base ≡ false
    → IsDirectory p.buffer
    → (extend base p).0 ≡ below p.buffer base
unfolding extend
extend-directory base p good (n, size, starts, ends) =
    let long : (length p.buffer == 1) ≡ false = ground (arith, size) in rw (good, long) refl

nonempty : (base : Text) → bad_name base ≡ false → 0 < length base
unfolding bad_name
nonempty [] h = absurd (true≢false h)
nonempty (c ∷ cs) h = omega arith

longer : (s : Text) → 1 < length s → text_eq s root_text ≡ false
longer [] h = absurd (omega arith)
longer (c ∷ []) h = absurd (omega arith)
longer (c ∷ d ∷ cs) h = and_false (c == slash)

up_to_root :
    (x : FilePath) (base : Text)
    → bad_name base ≡ false
    → parent x ≡ slash ∷ base
    → parent_path x ≡ below_root base
unfolding back_over_slashes
up_to_root x base good d =
    let size : suc (length base) - 1 ≡ length base = omega arith in
    let walk : back_to_slash (suc (0 + length base)) (slash ∷ base) ≡ 0 =
      back_to_slash-last [] base (length base) (not_bad base good) in
    let same : 0 + length base ≡ length base = omega arith in
    parent_path-dir x (slash ∷ base) 0 0 d
      (longer (slash ∷ base) (omega (arith, nonempty base good)))
      (subst (λ k. back_to_slash (suc k) (slash ∷ base) ≡ 0) same walk) refl
    ∙ ap (λ k. record (below_root base) { basename_size = k }) size

up_to_directory :
    (x : FilePath) (f base : Text)
    → bad_name base ≡ false
    → IsDirectory f
    → parent x ≡ f ++ slash ∷ base
    → parent_path x ≡ below f base
up_to_directory x f base good (n, size, starts, ends) d =
    let whole : length (f ++ slash ∷ base) ≡ suc (length f + length base) =
      length-append f (slash ∷ base) ∙ sum in
    let walk : back_to_slash (length (f ++ slash ∷ base)) (f ++ slash ∷ base) ≡ length f =
      ap (λ k. back_to_slash k (f ++ slash ∷ base)) whole
      ∙ back_to_slash-last f base (length base) (not_bad base good) in
    let over = back_over_slashes-last n f base size ends in
    let some_before : (suc n == 0) ≡ false = ground arith in
    let parent_end : suc n + 1 ≡ length f = omega (arith, size) in
    let rest : length (f ++ slash ∷ base) - (length f + 1) ≡ length base = omega (arith, whole) in
    parent_path-dir x (f ++ slash ∷ base) (length f) (suc n) d
      (longer (f ++ slash ∷ base) (omega (arith, whole, size))) walk over
    ∙ rw (some_before, parent_end, rest, append_assoc f (slash ∷ []) base) refl
  where
    sum : length f + suc (length base) ≡ suc (length f + length base)
    sum = omega arith

-- The root, or an absolute directory, the root or one that does not end with a slash, extended by a good
-- name.
abbrev pub IsNode : FilePath → Type 0
IsNode p =
    (p ≡ root)
    ⊎ ((base : Text) × (q : FilePath) × (bad_name base ≡ false)
        × ((q.buffer ≡ root_text) ⊎ IsDirectory q.buffer)
        × (p ≡ (extend base q).0))

up_from : (name : Text) (p : FilePath) → bad_name name ≡ false → parent (extend name p).0 ≡ p.buffer
up_from name p good = let (done, named, dir, all) = extend_lem name p good in dir

-- Going up from the root or from a path that is an absolute directory extended by a good name, extended by
-- a good name, leads to the path as it was: its text, and where its directory and its name stand in it.
pub parent_path-extend :
    (name : Text) (p : FilePath)
    → bad_name name ≡ false
    → IsNode p
    → ((extend name p).1 ≡ true) × (parent_path (extend name p).0 ≡ p)
parent_path-extend name p good (inl e) =
    let dir : parent (extend name p).0 ≡ root_text = up_from name p good ∙ ap (λ q. q.buffer) e in
    ((extend_lem name p good).0, unfold parent_path in rw (dir, parent_path) (sym e))
parent_path-extend name p good (inr (base, q, fine, inl e, made)) =
    let shape : p ≡ below_root base = made ∙ extend-root base q fine e in
    (
      (extend_lem name p good).0,
      up_to_root (extend name p).0 base fine (up_from name p good ∙ ap (λ x. x.buffer) shape)
          ∙ sym shape,
    )
parent_path-extend name p good (inr (base, q, fine, inr k, made)) =
    let shape : p ≡ below q.buffer base = made ∙ extend-directory base q fine k in
    (
      (extend_lem name p good).0,
      up_to_directory (extend name p).0 q.buffer base fine k (
            up_from name p good
            ∙ ap (λ x. x.buffer) shape
            ∙ append_assoc q.buffer (slash ∷ []) base)
          ∙ sym shape,
    )
