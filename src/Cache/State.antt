-- ===== src/Cache/State.antt =====
-- The state of the cache: the LRU list of pages, the lookup table, and the operations of both. A
-- list iterator is the number under which its page was put into the list; numbers are not reused.
-- The device is a parameter: `Connection::read` and `Connection::write` of the chosen transport.
use adbfsm.Prelude.{
  ℕ, zero, suc, ◌-◌, ◌*◌, Bool, true, false, Option, none, some, List, [], ◌∷◌, ltb, ◌==◌,
  if◌then◌else◌, length,
}
use adbfsm.Cache.Page.{PageKey, Page, buf}

-- A result of the device or of the cache; an error is its number.
pub data Expect (A : Type 0) : Type 0 where
  ok : A → Expect A
  err : ℕ → Expect A

-- `read dev path size offset` returns the bytes, at most `size` of them.
pub record Connection : Type 1 where
  pub Device : Type 0
  pub read : Device → List ℕ → ℕ → ℕ → Expect (List ℕ) × Device
  pub write : Device → List ℕ → List ℕ → ℕ → Expect ℕ × Device

-- `LookupEntry`: the pages of a file by index, with their iterators.
pub record Entry : Type 0 where
  pub pages : List (ℕ × ℕ)
  pub path : List ℕ
  pub dirty : Bool

-- Association lists, for `std::map` and `std::unordered_map`.
module _ {V : Type 0} where
  unfoldable pub find : ℕ → List (ℕ × V) → Option V
  find k [] = none
  find k ((j, v) ∷ m) = if j == k then some v else find k m

  -- A new value under a key that is there, or a new entry at the end.
  unfoldable pub put : ℕ → V → List (ℕ × V) → List (ℕ × V)
  put k v [] = (k, v) ∷ []
  put k v ((j, w) ∷ m) = if j == k then (k, v) ∷ m else (j, w) ∷ put k v m

  unfoldable pub erase : ℕ → List (ℕ × V) → List (ℕ × V)
  erase k [] = []
  erase k ((j, w) ∷ m) = let rest = erase k m in if j == k then rest else (j, w) ∷ rest

-- `std::map::emplace` in a map that is kept in the order of its keys: a key that is there keeps its
-- value.
unfoldable pub emplace : ℕ → ℕ → List (ℕ × ℕ) → List (ℕ × ℕ)
emplace k v [] = (k, v) ∷ []
emplace k v ((j, w) ∷ m) =
    let rest = emplace k v m in
    if k == j then (j, w) ∷ m else if ltb k j then (k, v) ∷ (j, w) ∷ m else (j, w) ∷ rest

-- `faulted` is whether `evict` has used the value of a `lookup` that found no entry, which is undefined:
-- what is behind it means nothing.
pub record Cache (C : Connection) : Type 0 where
  pub lru : List (ℕ × Page)
  pub fresh : ℕ
  pub table : List (ℕ × Entry)
  pub page_size : ℕ
  pub max_pages : ℕ
  pub device : C.Device
  pub faulted : Bool

-- The last page of the list, and the list without it.
unfoldable pub pop_back : List (ℕ × Page) → Option (Page × List (ℕ × Page))
pop_back [] = none
pop_back ((h, p) ∷ rest) = elim (pop_back rest) [
  | none ↦ some (p, [])
  | some (last, front) ↦ some (last, (h, p) ∷ front)
]

module _ {C : Connection} where
  -- `lookup` with a path: the entry is made if it is not there.
  unfoldable pub lookup : ℕ → List ℕ → Cache C → Entry × Cache C
  unfolding find put
  lookup id path c = elim (find id c.table) [
    | some e ↦ (e, c)
    | none ↦
        let e : Entry = record { pages = []; path = path; dirty = false } in
        (e, record c { table = put id e c.table })
  ]

  -- `on_flush` where the entry is there, which it asserts.
  unfoldable pub on_flush : ℕ → List ℕ → ℕ → Cache C → Expect ℕ × Cache C
  unfolding find
  on_flush id input offset c = elim (find id c.table) [
    | none ↦ (err 0, c)
    | some e ↦ let (r, dev) = C.write c.device e.path input offset in (r, record c { device = dev })
  ]

  -- `on_miss`.
  unfoldable pub on_miss : ℕ → ℕ → ℕ → Cache C → Expect (List ℕ) × Cache C
  unfolding find
  on_miss id size offset c = elim (find id c.table) [
    | none ↦ (err 0, c)
    | some e ↦ let (r, dev) = C.read c.device e.path size offset in (r, record c { device = dev })
  ]

  -- An entry whose page is erased; without pages it leaves the table.
  unfoldable pub settle_entry : ℕ → Entry → List (ℕ × ℕ) → Cache C → Cache C
  unfolding put erase
  settle_entry id e [] c = record c { table = erase id c.table }
  settle_entry id e (p ∷ ps) c = record c { table = put id (record e { pages = p ∷ ps }) c.table }

  -- The end of a round of `evict`, with the entry that it dereferences.
  unfoldable pub forget : PageKey → Cache C → Cache C
  unfolding find erase settle_entry
  forget key c = elim (find key.id c.table) [
    | none ↦ record c { faulted = true }
    | some e ↦ settle_entry key.id e (erase key.index e.pages) c
  ]

  -- A dirty page is written to the device; a failure is only logged.
  unfoldable pub push_page : Page → Cache C → Cache C
  unfolding on_flush buf
  push_page p c = if p.dirty then (on_flush p.key.id (buf p) (p.key.index * c.page_size) c).1 else c

  unfoldable pub evict : ℕ → Cache C → Cache C
  unfolding pop_back push_page forget
  evict zero c = c
  evict (suc n) c = elim (pop_back c.lru) [
    | none ↦ c
    | some (p, front) ↦ evict n (forget p.key (push_page p (record c { lru = front })))
  ]

  -- The eviction behind an insertion.
  unfoldable pub make_room : Cache C → Cache C
  unfolding evict
  make_room c = if ltb c.max_pages (length c.lru) then evict (length c.lru - c.max_pages) c else c

  -- A new page at the front of the list, and in its entry.
  unfoldable pub insert_page : ℕ → Page → Cache C → Cache C
  unfolding find put emplace
  insert_page id p c = elim (find id c.table) [
    | none ↦ c
    | some e ↦ record c {
      lru = (c.fresh, p) ∷ c.lru;
      fresh = suc c.fresh;
      table = put id (record e { pages = emplace p.key.index c.fresh e.pages }) c.table;
    }
  ]

  -- `splice`: the page goes to the front.
  unfoldable pub touch : ℕ → Cache C → Cache C
  unfolding find erase
  touch h c = elim (find h c.lru) [ none ↦ c | some p ↦ record c { lru = (h, p) ∷ erase h c.lru } ]
