-- ===== src/Cache/Maps.antt =====
-- What `find` finds behind `put` and `erase`.
use adbfsm.Prelude.{
  ℕ, ◌≡◌, ◌≢◌, refl, sym, ◌∙◌, true, false, ◌==◌, ==_iff, Bool-cases, inl, inr, some, List, [], ◌∷◌,
}
use adbfsm.Cache.State.{find, put, erase}

not_equal : (j k : ℕ) → j ≢ k → (j == k) ≡ false
not_equal j k ne = elim (Bool-cases (j == k)) [ inl e ↦ absurd (ne ((==_iff j k).0 e)) | inr e ↦ e ]

module _ {V : Type 0} where
  pub find-put_same : (k : ℕ) (v : V) (m : List (ℕ × V)) → find k (put k v m) ≡ some v
  unfolding find put
  find-put_same k v [] = let e : (k == k) ≡ true = (==_iff k k).1 refl in rw e refl
  find-put_same k v ((j, w) ∷ m) = elim (Bool-cases (j == k)) [
    | inl e ↦ let s : (k == k) ≡ true = (==_iff k k).1 refl in rw e (rw s refl)
    | inr e ↦ rw e (rw e (find-put_same k v m))
  ]

  pub find-put_other : (i k : ℕ) (v : V) (m : List (ℕ × V)) → i ≢ k → find i (put k v m) ≡ find i m
  unfolding find put
  find-put_other i k v [] ne =
      let s : (k == i) ≡ false = not_equal k i (λ e. ne (sym e)) in rw s refl
  find-put_other i k v ((j, w) ∷ m) ne = elim (Bool-cases (j == k)) [
    | inl e ↦
        let s : (k == i) ≡ false = not_equal k i (λ x. ne (sym x)) in
        let t : (j == i) ≡ false = not_equal j i (λ x. ne (sym x ∙ (==_iff j k).0 e)) in
        rw e (rw (s, t) refl)
    | inr e ↦ elim (Bool-cases (j == i)) [
      | inl f ↦ rw e (rw f refl)
      | inr f ↦ rw e (rw f (find-put_other i k v m ne))
    ]
  ]

  pub find-erase_other : (i k : ℕ) (m : List (ℕ × V)) → i ≢ k → find i (erase k m) ≡ find i m
  unfolding find erase
  find-erase_other i k [] ne = refl
  find-erase_other i k ((j, w) ∷ m) ne = elim (Bool-cases (j == k)) [
    | inl e ↦
        let t : (j == i) ≡ false = not_equal j i (λ x. ne (sym x ∙ (==_iff j k).0 e)) in
        rw (e, t) (find-erase_other i k m ne)
    | inr e ↦ elim (Bool-cases (j == i)) [
      | inl f ↦ rw e (rw f refl)
      | inr f ↦ rw e (rw f (find-erase_other i k m ne))
    ]
  ]
