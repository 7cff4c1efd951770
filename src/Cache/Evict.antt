-- ===== src/Cache/Evict.antt =====
-- What `evict` leaves in the list: the pages that were used last.
use adbfsm.Prelude.{
  ℕ, zero, suc, ◌-◌, ◌*◌, ◌≤◌, ◌<◌, ◌≡◌, refl, sym, ap, ◌∙◌, Bool-cases, Option-cases, inl, inr,
  Option, none, some, List, map, [], ◌∷◌, ltb, length, take, take-all, arith,
}
use adbfsm.Cache.Page.{PageKey, Page, buf}
use adbfsm.Cache.State.{
  Connection, Entry, Cache, find, pop_back, erase, settle_entry, forget, push_page, on_flush, evict,
  make_room,
}
use adbfsm.Cache.Flush.{flush_all, shutdown, set_page_size, set_max_pages}

take-take : {A : Type 0} (m k : ℕ) (xs : List A) → m ≤ k → take m (take k xs) ≡ take m xs
take-take zero k xs h = refl
take-take (suc m) zero xs h = absurd (omega arith)
take-take (suc m) (suc k) [] h = refl
take-take (suc m) (suc k) (x ∷ xs) h = ap (λ t. x ∷ t) (take-take m k xs (omega arith))

take-past : {A : Type 0} (m : ℕ) (xs : List A) → length xs ≤ m → take m xs ≡ xs
take-past zero [] h = refl
take-past zero (x ∷ xs) h = absurd (omega arith)
take-past (suc m) [] h = refl
take-past (suc m) (x ∷ xs) h = ap (λ t. x ∷ t) (take-past m xs (omega arith))

-- What `pop_back` returns of a list.
abbrev Pops : List (ℕ × Page) → Option (Page × List (ℕ × Page)) → Type 0
Pops xs none = xs ≡ []
Pops xs (some (p, front)) = (front ≡ take (length front) xs) × (suc (length front) ≡ length xs)

pop_back_cons :
    (i : ℕ) (x : Page) (rest : List (ℕ × Page)) (r : Option (Page × List (ℕ × Page)))
    → pop_back rest ≡ r
    → Pops rest r
    → Pops ((i, x) ∷ rest) (pop_back ((i, x) ∷ rest))
unfolding pop_back
pop_back_cons i x rest none e h = rw (e, h) (refl, refl)
pop_back_cons i x rest (some (last, front)) e (same, size) =
    rw e (ap (λ t. (i, x) ∷ t) same, ap suc size)

pop_back-Pops : (xs : List (ℕ × Page)) → Pops xs (pop_back xs)
unfolding pop_back
pop_back-Pops [] = refl
pop_back-Pops ((i, x) ∷ rest) = pop_back_cons i x rest (pop_back rest) refl (pop_back-Pops rest)

module _ {C : Connection} where
  settle_entry-lru :
      (id : ℕ) (e : Entry) (ps : List (ℕ × ℕ)) (c : Cache C) → (settle_entry id e ps c).lru ≡ c.lru
  unfolding settle_entry
  settle_entry-lru id e [] c = refl
  settle_entry-lru id e (p ∷ ps) c = refl

  forget-lru : (key : PageKey) (c : Cache C) → (forget key c).lru ≡ c.lru
  unfolding forget
  forget-lru key c = elim (Option-cases (find key.id c.table)) [
    | inl e ↦ rw (e, forget) refl
    | inr (x, e) ↦ rw (e, forget) (settle_entry-lru key.id x (erase key.index x.pages) c)
  ]

  on_flush-lru :
      (id : ℕ) (input : List ℕ) (offset : ℕ) (c : Cache C)
      → ((on_flush id input offset c).1).lru ≡ c.lru
  unfolding on_flush
  on_flush-lru id input offset c = elim (Option-cases (find id c.table)) [
    | inl e ↦ rw (e, on_flush) refl
    | inr (x, e) ↦ rw (e, on_flush) refl
  ]

  push_page-lru : (p : Page) (c : Cache C) → (push_page p c).lru ≡ c.lru
  unfolding push_page
  push_page-lru p c = elim (Bool-cases p.dirty) [
    | inl d ↦ rw d (on_flush-lru p.key.id (buf p) (p.key.index * c.page_size) c)
    | inr d ↦ rw d refl
  ]

  evict_step :
      (n : ℕ) (c : Cache C) (r : Option (Page × List (ℕ × Page)))
      → ((c' : Cache C) → (evict n c').lru ≡ take (length c'.lru - n) c'.lru)
      → Pops c.lru r
      → pop_back c.lru ≡ r
      → (evict (suc n) c).lru ≡ take (length c.lru - suc n) c.lru
  unfolding evict
  evict_step n c none ih h e = rw (e, evict) (rw h (sym (take-past (0 - suc n) [] (omega arith))))
  evict_step n c (some (p, front)) ih (same, size) e =
      let popped : Cache C = record c { lru = front } in
      let left : (forget p.key (push_page p popped)).lru ≡ front =
        forget-lru p.key (push_page p popped) ∙ push_page-lru p popped in
      let count : length front - n ≡ length c.lru - suc n = omega arith in
      let kept : take (length front - n) front ≡ take (length c.lru - suc n) c.lru =
        ap (λ k. take k front) count
        ∙ ap (take (length c.lru - suc n)) same
        ∙ take-take (length c.lru - suc n) (length front) c.lru (omega arith) in
      rw (e, evict)
        (ih (forget p.key (push_page p popped)) ∙ ap (λ l. take (length l - n) l) left ∙ kept)

  -- `n` pages leave, from the end of the list, the page that was used the longest time ago first; also
  -- where an entry is missing, which is undefined in the source and sets `faulted`.
  pub evict-lru : (n : ℕ) (c : Cache C) → (evict n c).lru ≡ take (length c.lru - n) c.lru
  unfolding evict
  evict-lru zero c =
      let all : length c.lru ≡ length c.lru - 0 = omega arith in
      sym (take-all c.lru) ∙ ap (λ k. take k c.lru) all
  evict-lru (suc n) c = evict_step n c (pop_back c.lru) (evict-lru n) (pop_back-Pops c.lru) refl

  -- The list behind an insertion, `faulted` or not.
  pub make_room-lru : (c : Cache C) → (make_room c).lru ≡ take c.max_pages c.lru
  unfolding make_room
  make_room-lru c = elim (Bool-cases (ltb c.max_pages (length c.lru))) [
    | inl e ↦
        let more : c.max_pages < length c.lru = ground arith in
        let left : length c.lru - (length c.lru - c.max_pages) ≡ c.max_pages = omega arith in
        rw e (evict-lru (length c.lru - c.max_pages) c ∙ ap (λ k. take k c.lru) left)
    | inr e ↦ rw e (sym (take-past c.max_pages c.lru (ground arith)))
  ]

  -- The list behind `shutdown` and a change of the page size or of the number of pages, `faulted` or not.
  pub shutdown-lru :
      (n : ℕ) (c : Cache C)
      → ((shutdown c).lru ≡ []) × ((set_page_size n c).lru ≡ []) × ((set_max_pages n c).lru ≡ [])
  unfolding shutdown set_page_size set_max_pages
  shutdown-lru n c =
      let flushed = flush_all (map (λ e. e.0) c.table) c in
      let gone : length flushed.lru - length flushed.lru ≡ 0 = omega arith in
      let left : (evict (length flushed.lru) flushed).lru ≡ [] =
        evict-lru (length flushed.lru) flushed ∙ ap (λ k. take k flushed.lru) gone in
      (left, left, left)
