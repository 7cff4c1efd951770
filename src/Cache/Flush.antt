-- ===== src/Cache/Flush.antt =====
-- `flush`, `flush_at`, `shutdown`, and the operations that drop or rename what is cached. A map of the
-- source without an order is walked in the order of its list.
use adbfsm.Prelude.{
  ℕ, ◌*◌, Bool, false, Option, none, some, List, [], ◌∷◌, if◌then◌else◌, length, map,
}
use adbfsm.Cache.Page.{set_dirty, read as read_page}
use adbfsm.Cache.State.{Expect, ok, err, Connection, Cache, find, put, erase, on_flush, evict}
use adbfsm.Cache.Access.{mark, total}

module _ {C : Connection} where
  -- What was read of the page goes to the device.
  abbrev pub flush_content : ℕ → ℕ → Option (List ℕ) → Cache C → Expect ℕ × Cache C
  flush_content id offset none c = (err 0, c)
  flush_content id offset (some content) c = on_flush id content offset c

  -- `flush_at`, on the page with the iterator `h`. The dirty mark is gone even if the write fails.
  -- A read from behind the buffer is undefined: here error 0.
  unfoldable pub flush_at : ℕ → ℕ → Cache C → Expect ℕ × Cache C
  unfolding find put on_flush read_page
  flush_at h id c = elim (find h c.lru) [
    | none ↦ (err 0, c)
    | some page ↦
        let clean = record c { lru = put h (set_dirty page false) c.lru } in
        if page.dirty
        then flush_content id (page.key.index * c.page_size) (read_page page c.page_size 0) clean
        else (ok 0, c)
  ]

  unfoldable pub flush_pages : List (ℕ × ℕ) → ℕ → Cache C → List (Expect ℕ) × Cache C
  unfolding flush_at
  flush_pages [] id c = ([], c)
  flush_pages ((index, h) ∷ ps) id c =
      let (r, c') = flush_at h id c in let (rs, c'') = flush_pages ps id c' in (r ∷ rs, c'')

  -- `flush`, which returns nothing or the first error.
  unfoldable pub flush : ℕ → Cache C → Expect Unit × Cache C
  unfolding find flush_pages mark total
  flush id c = elim (find id c.table) [
    | none ↦ (ok tt, c)
    | some e ↦
        let (rs, c') = flush_pages e.pages id (mark id false c) in
        let result : Expect Unit = elim (total rs) [ err x ↦ err x | ok n ↦ ok tt ] in
        if e.dirty then (result, c') else (ok tt, c)
  ]

  unfoldable pub flush_all : List ℕ → Cache C → Cache C
  unfolding flush
  flush_all [] c = c
  flush_all (id ∷ ids) c = flush_all ids (flush id c).1

  -- `shutdown`, also `invalidate_all`. Errors of `flush` are only logged.
  unfoldable pub shutdown : Cache C → Cache C
  unfolding flush_all evict
  shutdown c =
      let flushed = flush_all (map (λ e. e.0) c.table) c in evict (length flushed.lru) flushed

  unfoldable pub rename : ℕ → List ℕ → Cache C → Cache C
  unfolding find put
  rename id new_name c = elim (find id c.table) [
    | none ↦ c
    | some e ↦ record c { table = put id (record e { path = new_name }) c.table }
  ]

  unfoldable pub erase_pages : List (ℕ × ℕ) → Cache C → Cache C
  unfolding erase
  erase_pages [] c = c
  erase_pages ((index, h) ∷ ps) c = erase_pages ps (record c { lru = erase h c.lru })

  -- `invalidate_one`: the entry leaves the table before `flush` looks for it.
  unfoldable pub invalidate_one : ℕ → Bool → Cache C → Cache C
  unfolding find erase flush erase_pages
  invalidate_one id should_flush c = elim (find id c.table) [
    | none ↦ c
    | some e ↦
        let extracted = record c { table = erase id c.table } in
        erase_pages e.pages (if should_flush then (flush id extracted).1 else extracted)
  ]

  unfoldable pub set_page_size : ℕ → Cache C → Cache C
  unfolding shutdown
  set_page_size new_page_size c = record (shutdown c) { page_size = new_page_size }

  unfoldable pub set_max_pages : ℕ → Cache C → Cache C
  unfolding shutdown
  set_max_pages new_max_pages c = record (shutdown c) { max_pages = new_max_pages }
