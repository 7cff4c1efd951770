-- ===== src/Cache/Truncate.antt =====
-- `Cache::truncate`. The reference to an entry that `evict` has taken from the table is undefined: here
-- nothing more happens.
use adbfsm.Prelude.{
  ℕ, suc, ◌+◌, ◌-◌, ◌*◌, ◌/◌, ◌%◌, ◌^◌, none, some, List, [], ◌∷◌, ltb, leb, ◌==◌, ◌||◌,
  if◌then◌else◌, length, min, max, replicate, usize_sub,
}
use adbfsm.Cache.Page.{PageKey, make, truncate as truncate_content}
use adbfsm.Cache.State.{Connection, Cache, find, put, erase, evict}

-- How many pages a file of `size` bytes has.
unfoldable pub page_count : ℕ → ℕ → ℕ
page_count page_size size = size / page_size + (if size % page_size == 0 then 0 else 1)

module _ {C : Connection} where
  -- `m_lru.erase` and `entry.pages.erase`.
  unfoldable pub drop_page : ℕ → ℕ → ℕ → Cache C → Cache C
  unfolding find put erase
  drop_page id index h c = elim (find id c.table) [
    | none ↦ c
    | some e ↦ record c {
      lru = erase h c.lru;
      table = put id (record e { pages = erase index e.pages }) c.table;
    }
  ]

  -- `m_lru.emplace_front`. The entry has a page with this index, so its `emplace` does nothing.
  unfoldable pub front_page : PageKey → ℕ → Cache C → Cache C
  unfolding make
  front_page key size c = record c {
    lru = (c.fresh, make key (replicate c.page_size 0) (size % 2 ^ 32) c.page_size) ∷ c.lru;
    fresh = suc c.fresh;
  }

  unfoldable pub resize_page : ℕ → ℕ → Cache C → Cache C
  unfolding find put truncate_content
  resize_page h size c = elim (find h c.lru) [
    | none ↦ c
    | some page ↦ record c { lru = put h (truncate_content page size) c.lru }
  ]

  -- A round of the loop, on the page with the number `index` and the iterator `h`.
  unfoldable pub truncate_page : ℕ → ℕ → ℕ → ℕ → ℕ → ℕ → Cache C → Cache C
  unfolding drop_page front_page resize_page usize_sub
  truncate_page id index h old_pages new_pages new_size c =
      let key : PageKey = record { id = id; index = index } in
      let off_pages = max 1 (min old_pages new_pages) - 1 in
      let rem_size = min (usize_sub new_size (index * c.page_size)) c.page_size in
      let size =
        if index == usize_sub new_pages 1
        then usize_sub new_size 1 % c.page_size + 1
        else c.page_size in
      if ltb index off_pages || leb (max old_pages new_pages) index
      then c
      else if ltb index (usize_sub old_pages 1)
      then drop_page id index h c
      else if ltb (usize_sub old_pages 1) index
      then front_page key rem_size c
      else resize_page h size c

  unfoldable pub truncate_pages : List (ℕ × ℕ) → ℕ → ℕ → ℕ → ℕ → Cache C → Cache C
  unfolding truncate_page
  truncate_pages [] id old_pages new_pages new_size c = c
  truncate_pages ((index, h) ∷ ps) id old_pages new_pages new_size c =
      truncate_pages ps id old_pages new_pages new_size
        (truncate_page id index h old_pages new_pages new_size c)

  unfoldable pub truncate : ℕ → ℕ → ℕ → Cache C → Cache C
  unfolding find evict truncate_pages page_count
  truncate id old_size new_size c =
      let old_pages = page_count c.page_size old_size in
      let new_pages = page_count c.page_size new_size in
      let wanted = length c.lru + (new_pages - old_pages) in
      let room =
        if ltb old_pages new_pages
        then (if ltb c.max_pages wanted then evict (wanted - c.max_pages) c else c)
        else c in
      elim (find id c.table) [
        | none ↦ c
        | some before ↦ elim (find id room.table) [
          | none ↦ room
          | some e ↦ truncate_pages e.pages id old_pages new_pages new_size room
        ]
      ]
