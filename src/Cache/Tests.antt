-- ===== src/Cache/Tests.antt =====
-- The cache at concrete requests.
use adbfsm.Prelude.{
  false, none, some, ℕ, ◌+◌, ◌*◌, ◌≡◌, refl, true, List, [], ◌∷◌, length, take, drop, max, min,
  arith, suc,
}
use adbfsm.Cache.Page.{Page, overwrite, read, read_size, write}
use adbfsm.Cache.Page.Content.{IsPage, read-write, read_behind}
use adbfsm.Cache.State.{ok, Connection, Cache}
use adbfsm.Cache.Spans.{first_page, last_page, local_offset, local_size, buffer_offset, parts_lem}
use adbfsm.Cache.State.{evict}
use adbfsm.Cache.Access.{write as write_file, read as read_file}
use adbfsm.Cache.Truncate.{truncate}
use adbfsm.Cache.Flush.{flush}

-- A device with one file.
abbrev disk : Connection
disk = record {
  Device = List ℕ;
  read = λ d path size offset. (ok (take size (drop offset d)), d);
  write = λ d path input offset. (ok (length input), overwrite offset input d);
}

abbrev empty : Cache disk
empty = record {
  lru = [];
  fresh = 0;
  table = [];
  page_size = 4;
  max_pages = 2;
  device = 1 ∷ 2 ∷ 3 ∷ 4 ∷ 5 ∷ 6 ∷ [];
  faulted = false;
}

-- A read over two pages.
read_two : (read_file 7 [] (0 ∷ 0 ∷ 0 ∷ []) 2 empty).1 ≡ 3 ∷ 4 ∷ 5 ∷ []
unfolding read_file
read_two = refl

-- A write into a page that is not cached, and its flush: the bytes of the page before the write are
-- zeros on the device.
lost_bytes : (flush 7 (write_file 7 [] (9 ∷ []) 2 empty).1).1.device ≡ 0 ∷ 0 ∷ 9 ∷ 4 ∷ 5 ∷ 6 ∷ []
unfolding flush write_file
lost_bytes = refl

abbrev page : ℕ → Page
page index = record {
  key = record { id = 7; index = index };
  bytes = 1 ∷ 2 ∷ 3 ∷ 4 ∷ [];
  size = 3;
  page_size = 4;
  dirty = true;
}

abbrev three : Cache disk
three = record empty {
  lru = (2, page 2) ∷ (1, page 1) ∷ (0, page 0) ∷ [];
  fresh = 3;
  table = (7, record { pages = (0, 0) ∷ (1, 1) ∷ (2, 2) ∷ []; path = []; dirty = true }) ∷ [];
}

-- Two changes of the size leave a page in the list that no entry has; where pages are then dropped, the
-- entry of that page is not found.
page_without_entry :
    (evict 5 (truncate 7 4 20 (truncate 7 12 4 (record three { max_pages = 9 })))).faulted ≡ true
unfolding evict truncate
page_without_entry = refl

page-IsPage : IsPage (page 0)
unfolding IsPage
page-IsPage = (refl, omega arith, omega arith)

read-write_example : read (write (page 0) (8 ∷ 9 ∷ []) 2).0 2 2 ≡ some (8 ∷ 9 ∷ [])
read-write_example = read-write (page 0) (8 ∷ 9 ∷ []) 2 page-IsPage (omega arith) (omega arith)

-- Nine bytes from the offset 6, in pages of 4, on the page 2.
parts_lem_example :
    (6 + buffer_offset 4 (first_page 4 6) 2 6 ≡ max (2 * 4) 6)
    × (2 * 4 + local_offset 4 (first_page 4 6) 2 6 ≡ max (2 * 4) 6)
    × (2 * 4
          + local_offset 4 (first_page 4 6) 2 6
          + local_size 4 (first_page 4 6) (last_page 4 6 9) 2 6 9
        ≡ min (suc 2 * 4) (6 + 9))
parts_lem_example =
    parts_lem 4 6 9 (omega arith) (omega arith) (omega arith) 2 (unfold first_page in omega arith)
      (unfold last_page in omega arith)

read_behind_example :
    (read_size (record (page 0) { size = 1 }) 3 2 ≡ 3)
    × (read (record (page 0) { size = 1 }) 3 2 ≡ none)
read_behind_example =
    read_behind (record (page 0) { size = 1 }) 3 2
      (unfold IsPage in (refl, omega arith, omega arith)) (omega arith) (omega arith) (omega arith)
