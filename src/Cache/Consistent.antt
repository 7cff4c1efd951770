-- ===== src/Cache/Consistent.antt =====
-- Where the list and the table agree, `evict` finds the entry of every page that it drops.
use adbfsm.Prelude.{ℕ, ◌≡◌, ◌≢◌, ◌⊎◌, Option, none, some, List, [], ◌∷◌}
use adbfsm.Cache.Page.{Page}
use adbfsm.Cache.State.{Connection, Entry, Cache, find}

-- The page has its entry, and the entry has its index.
abbrev pub IsCached : List (ℕ × Entry) → Page → Type 0
IsCached table p =
    (e : Entry) × (h : ℕ) × (find p.key.id table ≡ some e) × (find p.key.index e.pages ≡ some h)

abbrev pub AreCached : List (ℕ × Entry) → List (ℕ × Page) → Type 0
AreCached table [] = Unit {0}
AreCached table ((h, p) ∷ ps) = IsCached table p × AreCached table ps

abbrev pub IsOther : Page → Page → Type 0
IsOther p q = (q.key.id ≢ p.key.id) ⊎ (q.key.index ≢ p.key.index)

abbrev pub AreOther : Page → List (ℕ × Page) → Type 0
AreOther p [] = Unit {0}
AreOther p ((h, q) ∷ ps) = IsOther p q × IsOther q p × AreOther p ps

abbrev pub AreDistinct : List (ℕ × Page) → Type 0
AreDistinct [] = Unit {0}
AreDistinct ((h, p) ∷ ps) = AreOther p ps × AreDistinct ps

-- What the last page and the rest have of this.
abbrev Splits : List (ℕ × Entry) → Option (Page × List (ℕ × Page)) → Type 0
Splits table none = Unit {0}
Splits table (some (p, front)) =
    IsCached table p × AreCached table front × AreOther p front × AreDistinct front

-- What is other than all of a list is other than its last page.
abbrev AreOtherLast : Page → Option (Page × List (ℕ × Page)) → Type 0
AreOtherLast p none = Unit {0}
AreOtherLast p (some (q, front)) = IsOther p q × IsOther q p × AreOther p front

module _ {C : Connection} where
  abbrev pub IsConsistent : Cache C → Type 0
  IsConsistent c = AreCached c.table c.lru × AreDistinct c.lru
