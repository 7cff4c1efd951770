-- ===== src/Tree/Data/Finite.antt =====
-- A directory is a finite map from names to nodes.
use adbfsm.Prelude.{
  ℕ, ◌≡◌, refl, sym, ap, ◌∙◌, Bool, true, false, Option-cases, inl, inr, Option, none, some, [],
  ◌∷◌, if◌then◌else◌, text_eq, text_eq_refl, text_eq-cases,
}
use mathlib.Core.Path.{fun_ext}
use adbfsm.Split.{Text}
use adbfsm.Cache.State.{Expect, ok, err}
use adbfsm.Tree.Data.{
  Children, Directory, lookup, remove, find, erase, insert, extract, no_such_file_or_directory,
  file_exists,
}

-- The abstract directory, and its operations.
abbrev pub Names : Type 0
Names = Text → Option ℕ

unfoldable pub view : Directory → Names
view d name = lookup name d.children

unfoldable pub updated : Text → Option ℕ → Names → Names
updated name v m word = if text_eq name word then v else m word

abbrev pub find_spec : Text → Names → Expect ℕ
find_spec name m = elim (m name) [ some child ↦ ok child | none ↦ err no_such_file_or_directory ]

abbrev pub erase_spec : Text → Names → Option ℕ × Names
erase_spec name m = (m name, updated name none m)

abbrev pub insert_over : Option ℕ → Text → ℕ → Bool → Names → Expect (Option ℕ × Names)
insert_over none name child overwrite m = ok (none, updated name (some child) m)
insert_over (some old) name child overwrite m =
    if overwrite then ok (some old, updated name (some child) m) else err file_exists

abbrev pub insert_spec : Text → ℕ → Bool → Names → Expect (Option ℕ × Names)
insert_spec name child overwrite m = insert_over (m name) name child overwrite m

abbrev pub extract_over : Option ℕ → Text → Names → Expect (ℕ × Names)
extract_over none name m = err no_such_file_or_directory
extract_over (some child) name m = ok (child, updated name none m)

abbrev pub extract_spec : Text → Names → Expect (ℕ × Names)
extract_spec name m = extract_over (m name) name m

-- No name stands twice.
abbrev pub AreDistinct : Children → Type 0
AreDistinct [] = Unit {0}
AreDistinct ((name, child) ∷ cs) = (lookup name cs ≡ none) × AreDistinct cs

abbrev pub viewed : {A : Type 0} → Expect (A × Directory) → Expect (A × Names)
viewed (ok (a, d)) = ok (a, view d)
viewed (err e) = err e

pub lookup-remove :
    (name word : Text) (cs : Children)
    → AreDistinct cs
    → lookup word (remove name cs) ≡ (if text_eq name word then none else lookup word cs)
unfolding lookup remove
lookup-remove name word [] distinct = elim (text_eq-cases name word) [
  | inl (same, e) ↦ rw e refl
  | inr (ne, e) ↦ rw e refl
]
lookup-remove name word ((key, child) ∷ cs) (fresh, distinct) =
    let ih = lookup-remove name word cs distinct in
    elim (text_eq-cases key name) [
      | inl (same, e) ↦ elim (text_eq-cases name word) [
        | inl (same', f) ↦ rw (e, f) (ap (λ x. lookup x cs) (sym (same ∙ same')) ∙ fresh)
        | inr (ne, f) ↦
            let g : text_eq key word ≡ false = ap (λ x. text_eq x word) same ∙ f in
            rw (e, f, g) refl
      ]
      | inr (ne, e) ↦ elim (text_eq-cases key word) [
        | inl (same, g) ↦ elim (text_eq-cases name word) [
          | inl (same', f) ↦ absurd (ne (same ∙ sym same'))
          | inr (ne', f) ↦ rw (e, f, g) refl
        ]
        | inr (ne', g) ↦ rw (e, g) ih
      ]
    ]

remove-AreDistinct : (name : Text) (cs : Children) → AreDistinct cs → AreDistinct (remove name cs)
unfolding remove
remove-AreDistinct name [] h = tt
remove-AreDistinct name ((key, child) ∷ cs) (fresh, distinct) = elim (text_eq-cases key name) [
  | inl (same, e) ↦ rw e distinct
  | inr (ne, e) ↦
      let still : lookup key (remove name cs) ≡ none =
        lookup-remove name key cs distinct ∙ (elim (text_eq-cases name key) [
          | inl (same, f) ↦ rw f refl
          | inr (ne', f) ↦ rw f fresh
        ]) in
      rw e (still, remove-AreDistinct name cs distinct)
]

view-remove :
    (name : Text) (d : Directory)
    → AreDistinct d.children
    → view (record d { children = remove name d.children }) ≡ updated name none (view d)
unfolding view updated
view-remove name d h = fun_ext λ word. lookup-remove name word d.children h

view-cons :
    (name : Text) (child : ℕ) (d : Directory)
    → lookup name d.children ≡ none
    → view (record d { children = (name, child) ∷ d.children }) ≡ updated name (some child) (view d)
unfolding view updated lookup
view-cons name child d h = refl

view-put :
    (name : Text) (child : ℕ) (d : Directory)
    → AreDistinct d.children
    → view (record d { children = (name, child) ∷ remove name d.children })
      ≡ updated name (some child) (view d)
unfolding view updated lookup
view-put name child d h = fun_ext λ word. elim (text_eq-cases name word) [
  | inl (same, e) ↦ rw e refl
  | inr (ne, e) ↦ rw e (lookup-remove name word d.children h ∙ rw e refl)
]

insert-Refines :
    (name : Text) (child : ℕ) (overwrite : Bool) (d : Directory)
    → AreDistinct d.children
    → viewed (insert name child overwrite d) ≡ insert_spec name child overwrite (view d)
unfolding insert
insert-Refines name child overwrite d h = elim (Option-cases (lookup name d.children)) [
  | inl e ↦
      let free : view d name ≡ none = unfold view in e in
      rw (e, insert, free) (ap (λ m. ok (none, m)) (view-cons name child d e))
  | inr (old, e) ↦
      let bound : view d name ≡ some old = unfold view in e in
      rw (e, insert, bound)
        (elim overwrite
          as (λ b.
            viewed (
              if b
              then ok (some old, record d { children = (name, child) ∷ remove name d.children })
              else err file_exists)
            ≡ insert_over (some old) name child b (view d)) [
              | true ↦ ap (λ m. ok (some old, m)) (view-put name child d h)
              | false ↦ refl
            ])
]

extract-Refines :
    (name : Text) (d : Directory)
    → AreDistinct d.children
    → viewed (extract name d) ≡ extract_spec name (view d)
unfolding extract
extract-Refines name d h = elim (Option-cases (lookup name d.children)) [
  | inl e ↦ let free : view d name ≡ none = unfold view in e in rw (e, extract, free) refl
  | inr (old, e) ↦
      let bound : view d name ≡ some old = unfold view in e in
      rw (e, extract, bound) (ap (λ m. ok (old, m)) (view-remove name d h))
]

-- `find`, `erase`, `insert` and `extract` of a directory in which no name stands twice do to its map of
-- names what finite maps do: find looks the name up, erase and extract forget it, and insert binds it to
-- the child, unless it is bound and may not be overwritten. Each returns what the name was bound to.
pub Directory-Refines :
    (name : Text) (child : ℕ) (overwrite : Bool) (d : Directory)
    → AreDistinct d.children
    → (find name d ≡ find_spec name (view d))
      × (((erase name d).0, view (erase name d).1) ≡ erase_spec name (view d))
      × (viewed (insert name child overwrite d) ≡ insert_spec name child overwrite (view d))
      × (viewed (extract name d) ≡ extract_spec name (view d))
unfolding find erase view
Directory-Refines name child overwrite d h = (
  refl,
  ap (λ m. (lookup name d.children, m)) (view-remove name d h),
  insert-Refines name child overwrite d h,
  extract-Refines name d h,
)

abbrev pub KeptDistinct : {A : Type 0} → Expect (A × Directory) → Type 0
KeptDistinct (ok (a, d)) = AreDistinct d.children
KeptDistinct (err e) = Unit {0}

insert-KeptDistinct :
    (name : Text) (child : ℕ) (overwrite : Bool) (d : Directory)
    → AreDistinct d.children
    → KeptDistinct (insert name child overwrite d)
unfolding insert
insert-KeptDistinct name child overwrite d h = elim (Option-cases (lookup name d.children)) [
  | inl e ↦ rw (e, insert) (e, h)
  | inr (old, e) ↦
      let free : lookup name (remove name d.children) ≡ none =
        lookup-remove name name d.children h ∙ rw (text_eq_refl name) refl in
      rw (e, insert)
        (elim overwrite
          as (λ b. KeptDistinct (
            if b
            then ok (some old, record d { children = (name, child) ∷ remove name d.children })
            else err file_exists)) [
              | true ↦ (free, remove-AreDistinct name d.children h)
              | false ↦ tt
            ])
]

extract-KeptDistinct :
    (name : Text) (d : Directory) → AreDistinct d.children → KeptDistinct (extract name d)
unfolding extract
extract-KeptDistinct name d h = elim (Option-cases (lookup name d.children)) [
  | inl e ↦ rw (e, extract) tt
  | inr (old, e) ↦ rw (e, extract) (remove-AreDistinct name d.children h)
]

-- `erase`, `insert` and `extract` keep the names of a directory distinct.
pub Directory-AreDistinct :
    (name : Text) (child : ℕ) (overwrite : Bool) (d : Directory)
    → AreDistinct d.children
    → AreDistinct (erase name d).1.children
      × KeptDistinct (insert name child overwrite d)
      × KeptDistinct (extract name d)
unfolding erase
Directory-AreDistinct name child overwrite d h = (
  remove-AreDistinct name d.children h,
  insert-KeptDistinct name child overwrite d h,
  extract-KeptDistinct name d h,
)
