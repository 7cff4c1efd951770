-- ===== src/Cache/Access.antt =====
-- `Cache::read` and `Cache::write`, with `read_at` and `write_at`. The iterator of a page that is not in
-- the list, the reference to an entry that is not in the table, and a copy from behind the buffer of a
-- page are undefined: here error 0.
use adbfsm.Prelude.{
  ℕ, zero, suc, ◌+◌, ◌-◌, ◌*◌, Bool, true, Option, none, some, List, [], ◌∷◌, ◌++◌, length, take,
  drop, replicate,
}
use adbfsm.Cache.Page.{
  PageKey, Page, make, overwrite, set_dirty, read as read_page, write as write_page,
}
use adbfsm.Cache.State.{
  Expect, ok, err, Connection, Cache, find, put, lookup, on_miss, make_room, insert_page, touch,
}
use adbfsm.Cache.Spans.{first_page, last_page, local_offset, local_size, buffer_offset}

-- `std::views::iota`, as the numbers from `first` on.
unfoldable pub iota : ℕ → ℕ → List ℕ
iota first zero = []
iota first (suc n) = first ∷ iota (suc first) n

-- The first error in the order of the pages, else the sum.
unfoldable pub total : List (Expect ℕ) → Expect ℕ
total [] = ok 0
total (err e ∷ rs) = err e
total (ok n ∷ rs) = elim (total rs) [ err e ↦ err e | ok m ↦ ok (n + m) ]

module _ {C : Connection} where
  -- `entry.pages.find`.
  unfoldable pub page_entry : ℕ → ℕ → Cache C → Option ℕ
  unfolding find
  page_entry id index c = elim (find id c.table) [ none ↦ none | some e ↦ find index e.pages ]

  -- The page of `read_at`, read from the device if it is not cached: its iterator.
  unfoldable pub fetch : ℕ → ℕ → Cache C → Expect ℕ × Cache C
  unfolding page_entry on_miss make_room insert_page make
  fetch id index c = elim (page_entry id index c) [
    | some h ↦ (ok h, c)
    | none ↦
        let (result, c') = on_miss id c.page_size (index * c.page_size) c in
        let new : List ℕ → Page = λ content.
          make (record { id = id; index = index })
            (content ++ replicate (c.page_size - length content) 0) (length content) c.page_size in
        elim result [
          | err e ↦ (err e, c')
          | ok content ↦ (ok c'.fresh, make_room (insert_page id (new content) c'))
        ]
  ]

  -- The page of `write_at`: an empty one if it is not cached.
  unfoldable pub fresh_page : ℕ → ℕ → Cache C → ℕ × Cache C
  unfolding page_entry make_room insert_page make
  fresh_page id index c = elim (page_entry id index c) [
    | some h ↦ (h, c)
    | none ↦
        let key : PageKey = record { id = id; index = index } in
        let page = make key (replicate c.page_size 0) 0 c.page_size in
        (c.fresh, make_room (insert_page id page c))
  ]

  -- `read_at`: the number of bytes, the caller's buffer `out` and the cache.
  unfoldable pub read_at : List ℕ → ℕ → ℕ → ℕ → ℕ → ℕ → Cache C → Expect ℕ × List ℕ × Cache C
  unfolding fetch touch find local_offset local_size buffer_offset read_page overwrite
  read_at out id index first last offset c =
      let (fetched, c') = fetch id index c in
      let start = local_offset c.page_size first index offset in
      let size = local_size c.page_size first last index offset (length out) in
      let room = buffer_offset c.page_size first index offset in
      elim fetched [
        | err e ↦ (err e, out, c')
        | ok h ↦ elim (find h c'.lru) [
          | none ↦ (err 0, out, c')
          | some page ↦ elim (read_page page size start) [
            | none ↦ (err 0, out, c')
            | some bytes ↦ (ok (length bytes), overwrite room bytes out, touch h c')
          ]
        ]
      ]

  unfoldable pub write_at : List ℕ → ℕ → ℕ → ℕ → ℕ → ℕ → Cache C → Expect ℕ × Cache C
  unfolding fresh_page touch find put local_offset local_size buffer_offset write_page
  write_at input id index first last offset c =
      let (h, c') = fresh_page id index c in
      let start = local_offset c.page_size first index offset in
      let size = local_size c.page_size first last index offset (length input) in
      let room = buffer_offset c.page_size first index offset in
      let span = take size (drop room input) in
      elim (find h c'.lru) [
        | none ↦ (err 0, c')
        | some page ↦
            let (page', written) = write_page page span start in
            let c'' = touch h c' in
            (ok written, record c'' { lru = put h (set_dirty page' true) c''.lru })
      ]

  unfoldable pub read_pages :
      List ℕ → List ℕ → ℕ → ℕ → ℕ → ℕ → Cache C → List (Expect ℕ) × List ℕ × Cache C
  unfolding read_at
  read_pages [] out id first last offset c = ([], out, c)
  read_pages (i ∷ is) out id first last offset c =
      let (r, out', c') = read_at out id i first last offset c in
      let (rs, out'', c'') = read_pages is out' id first last offset c' in (r ∷ rs, out'', c'')

  unfoldable pub write_pages : List ℕ → List ℕ → ℕ → ℕ → ℕ → ℕ → Cache C → List (Expect ℕ) × Cache C
  unfolding write_at
  write_pages [] input id first last offset c = ([], c)
  write_pages (i ∷ is) input id first last offset c =
      let (r, c') = write_at input id i first last offset c in
      let (rs, c'') = write_pages is input id first last offset c' in (r ∷ rs, c'')

  -- `read` into the buffer `out`.
  unfoldable pub read : ℕ → List ℕ → List ℕ → ℕ → Cache C → Expect ℕ × List ℕ × Cache C
  unfolding lookup read_pages first_page last_page iota total
  read id path out offset c =
      let first = first_page c.page_size offset in
      let last = last_page c.page_size offset (length out) in
      let (entry, c') = lookup id path c in
      let (results, out', c'') =
        read_pages (iota first (suc last - first)) out id first last offset c' in
      (total results, out', c'')

  -- `m_table[id].dirty = true`.
  unfoldable pub mark : ℕ → Bool → Cache C → Cache C
  unfolding find put
  mark id dirty c = elim (find id c.table) [
    | none ↦ c
    | some e ↦ record c { table = put id (record e { dirty = dirty }) c.table }
  ]

  unfoldable pub write : ℕ → List ℕ → List ℕ → ℕ → Cache C → Expect ℕ × Cache C
  unfolding lookup mark write_pages first_page last_page iota total
  write id path input offset c =
      let first = first_page c.page_size offset in
      let last = last_page c.page_size offset (length input) in
      let (entry, c') = lookup id path c in
      let (results, c'') =
        write_pages (iota first (suc last - first)) input id first last offset (mark id true c') in
      (total results, c'')
