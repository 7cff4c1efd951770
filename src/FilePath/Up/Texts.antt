-- ===== src/FilePath/Up/Texts.antt =====
-- The text of `parent_path`, behind `extend`.
use adbfsm.Prelude.{
  ℕ, zero, suc, ◌+◌, ◌-◌, ◌≡◌, ◌≤◌, sym, ◌∙◌, true, false, Bool-cases, inl, inr, [], ◌∷◌, length,
  take-all, arith, get_or, text_eq, text_eq_lem, ◌<◌,
}
use adbfsm.Split.{Text}
use adbfsm.FilePath.{
  FilePath, slash, is_slash, root_text, parent, fullpath, bad_name, extend, back_to_slash,
  parent_path,
}
use adbfsm.FilePath.Parts.{extend_lem}

back_to_slash-le : (n : ℕ) (s : Text) → back_to_slash n s ≤ n - 1
unfolding back_to_slash
back_to_slash-le zero s = omega arith
back_to_slash-le (suc i) s =
    let rest : back_to_slash i s ≤ i - 1 = back_to_slash-le i s in
    elim (Bool-cases (is_slash (get_or s i 0))) [
      | inl e ↦ rw e (omega arith)
      | inr e ↦ rw e (omega (arith, rest))
    ]

has_first : (s : Text) → get_or s 0 0 ≡ slash → 0 < length s
has_first [] h = absurd (omega (arith, h))
has_first (c ∷ cs) h = omega arith

fullpath-parent_path :
    (p : FilePath) → get_or (parent p) 0 0 ≡ slash → fullpath (parent_path p) ≡ parent p
unfolding parent_path fullpath
fullpath-parent_path p h = elim (Bool-cases (text_eq (parent p) root_text)) [
  | inl e ↦ rw e (sym (text_eq_lem (parent p) root_text e))
  | inr e ↦
      let dir = parent p in
      let found : back_to_slash (length dir) dir ≤ length dir - 1 =
        back_to_slash-le (length dir) dir in
      let size : back_to_slash (length dir) dir
            + 1
            + (length dir - (back_to_slash (length dir) dir + 1))
          ≡ length dir =
        omega (arith, found, has_first dir h) in
      rw (e, size) (take-all dir)
]

-- Going up from an absolute path that was extended by a good name leads to a path with the same text.
pub parent_path_text :
    (name : Text) (p : FilePath)
    → bad_name name ≡ false
    → get_or p.buffer 0 0 ≡ slash
    → ((extend name p).1 ≡ true) × (fullpath (parent_path (extend name p).0) ≡ p.buffer)
parent_path_text name p good h =
    let (done, named, dir, all) = extend_lem name p good in
    (done, fullpath-parent_path (extend name p).0 (rw dir h) ∙ dir)
