-- ===== src/Cache/Sizes.antt =====
-- What `evict`, `flush` and `shutdown` keep: the page size. They change pages, entries and the device.
use adbfsm.Prelude.{
  ℕ, zero, suc, ◌*◌, ◌≡◌, refl, ◌∙◌, Option, none, some, Bool-cases, Option-cases, inl, inr, false,
  List, map, [], ◌∷◌, length, Bool,
}
use adbfsm.Cache.Page.{PageKey, Page, buf, read, set_dirty}
use adbfsm.Cache.State.{
  Connection, Entry, Cache, find, put, pop_back, erase, settle_entry, forget, push_page, on_flush,
  evict,
}
use adbfsm.Cache.Access.{mark}
use adbfsm.Cache.Flush.{flush_content, flush_at, flush_pages, flush, flush_all, shutdown}

module _ {C : Connection} where
  settle_entry-page_size :
      (id : ℕ) (e : Entry) (ps : List (ℕ × ℕ)) (c : Cache C)
      → (settle_entry id e ps c).page_size ≡ c.page_size
  unfolding settle_entry
  settle_entry-page_size id e [] c = refl
  settle_entry-page_size id e (p ∷ ps) c = refl

  forget-page_size : (key : PageKey) (c : Cache C) → (forget key c).page_size ≡ c.page_size
  unfolding forget
  forget-page_size key c = elim (Option-cases (find key.id c.table)) [
    | inl e ↦ rw (e, forget) refl
    | inr (x, e) ↦ rw (e, forget) (settle_entry-page_size key.id x (erase key.index x.pages) c)
  ]

  on_flush-page_size :
      (id : ℕ) (input : List ℕ) (offset : ℕ) (c : Cache C)
      → ((on_flush id input offset c).1).page_size ≡ c.page_size
  unfolding on_flush
  on_flush-page_size id input offset c = elim (Option-cases (find id c.table)) [
    | inl e ↦ rw (e, on_flush) refl
    | inr (x, e) ↦ rw (e, on_flush) refl
  ]

  push_page-page_size : (p : Page) (c : Cache C) → (push_page p c).page_size ≡ c.page_size
  unfolding push_page
  push_page-page_size p c = elim (Bool-cases p.dirty) [
    | inl d ↦ rw d (on_flush-page_size p.key.id (buf p) (p.key.index * c.page_size) c)
    | inr d ↦ rw d refl
  ]

  evict-page_size : (n : ℕ) (c : Cache C) → (evict n c).page_size ≡ c.page_size
  unfolding evict
  evict-page_size zero c = refl
  evict-page_size (suc n) c = elim (Option-cases (pop_back c.lru)) [
    | inl e ↦ rw (e, evict) refl
    | inr ((p, front), e) ↦
        let popped : Cache C = record c { lru = front } in
        rw (e, evict)
          (evict-page_size n (forget p.key (push_page p popped))
            ∙ forget-page_size p.key (push_page p popped)
            ∙ push_page-page_size p popped)
  ]

  flush_content-page_size :
      (id offset : ℕ) (content : Option (List ℕ)) (c : Cache C)
      → ((flush_content id offset content c).1).page_size ≡ c.page_size
  flush_content-page_size id offset none c = refl
  flush_content-page_size id offset (some bytes) c = on_flush-page_size id bytes offset c

  flush_at-page_size : (h id : ℕ) (c : Cache C) → ((flush_at h id c).1).page_size ≡ c.page_size
  unfolding flush_at
  flush_at-page_size h id c = elim (Option-cases (find h c.lru)) [
    | inl e ↦ rw (e, flush_at) refl
    | inr (p, e) ↦ elim (Bool-cases p.dirty) [
      | inl d ↦
          rw (e, flush_at)
            (rw d (
              flush_content-page_size id (p.key.index * c.page_size) (read p c.page_size 0)
                (record c { lru = put h (set_dirty p false) c.lru })))
      | inr d ↦ rw (e, flush_at) (rw d refl)
    ]
  ]

  flush_pages-page_size :
      (ps : List (ℕ × ℕ)) (id : ℕ) (c : Cache C) → ((flush_pages ps id c).1).page_size ≡ c.page_size
  unfolding flush_pages
  flush_pages-page_size [] id c = refl
  flush_pages-page_size ((index, h) ∷ ps) id c =
      flush_pages-page_size ps id (flush_at h id c).1 ∙ flush_at-page_size h id c

  mark-page_size : (id : ℕ) (dirty : Bool) (c : Cache C) → (mark id dirty c).page_size ≡ c.page_size
  unfolding mark
  mark-page_size id dirty c = elim (Option-cases (find id c.table)) [
    | inl e ↦ rw (e, mark) refl
    | inr (x, e) ↦ rw (e, mark) refl
  ]

  flush-page_size : (id : ℕ) (c : Cache C) → ((flush id c).1).page_size ≡ c.page_size
  unfolding flush
  flush-page_size id c = elim (Option-cases (find id c.table)) [
    | inl e ↦ rw (e, flush) refl
    | inr (x, e) ↦ elim (Bool-cases x.dirty) [
      | inl d ↦
          rw (e, flush)
            (rw d (flush_pages-page_size x.pages id (mark id false c) ∙ mark-page_size id false c))
      | inr d ↦ rw (e, flush) (rw d refl)
    ]
  ]

  flush_all-page_size : (ids : List ℕ) (c : Cache C) → (flush_all ids c).page_size ≡ c.page_size
  unfolding flush_all
  flush_all-page_size [] c = refl
  flush_all-page_size (id ∷ ids) c = flush_all-page_size ids (flush id c).1 ∙ flush-page_size id c

  pub shutdown-page_size : (c : Cache C) → (shutdown c).page_size ≡ c.page_size
  unfolding shutdown
  shutdown-page_size c =
      let flushed = flush_all (map (λ e. e.0) c.table) c in
      evict-page_size (length flushed.lru) flushed ∙ flush_all-page_size (map (λ e. e.0) c.table) c
