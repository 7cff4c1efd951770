-- ===== src/Control/Sizes.antt =====
-- The sizes that the control socket sets, and its messages.
use adbfsm.Prelude.{
  ℕ, zero, suc, ◌+◌, ◌*◌, ◌/◌, ◌^◌, ◌<◌, ◌≤◌, ◌≡◌, refl, sym, ap, subst, Bool-cases, inl, inr, leb,
  true, max, min, some, arith,
}
use native.Mathlib.Nat.{div-le_self, div-lt_iff_lt-mul}
use adbfsm.Cache.State.{Connection, Cache}
use adbfsm.Cache.Flush
use adbfsm.Cache.Flush.{set_max_pages}
use adbfsm.Cache.Sizes.{shutdown-page_size}
use adbfsm.Control.{
  bit_ceil_from, bit_ceil, lowest_page_size, highest_page_size, lowest_max_pages, times, Value,
  set_page_size, page_sizes, pages_for, on_set_page_size, ipc_handler,
}

abbrev pub IsPower : ℕ → Type 0
IsPower n = (k : ℕ) × (n ≡ 2 ^ k)

bit_ceil_from_lem :
    (left k n : ℕ)
    → n ≤ 2 ^ (k + left)
    → (power : ℕ) × (bit_ceil_from (suc left) (2 ^ k) n ≡ some power) × (n ≤ power) × IsPower power
unfolding bit_ceil_from
bit_ceil_from_lem zero k n fits =
    let same : 2 ^ (k + 0) ≡ 2 ^ k = ap (λ j. 2 ^ j) (omega arith) in
    let enough : leb n (2 ^ k) ≡ true = ground (arith, same) in
    (2 ^ k, rw enough refl, omega (arith, same), (k, refl))
bit_ceil_from_lem (suc left) k n fits = elim (Bool-cases (leb n (2 ^ k))) [
  | inl e ↦ (2 ^ k, rw e refl, ground arith, (k, refl))
  | inr e ↦
      let next : 2 ^ k * 2 ≡ 2 ^ suc k = omega arith in
      let same : 2 ^ (k + suc left) ≡ 2 ^ (suc k + left) = ap (λ j. 2 ^ j) (omega arith) in
      let (power, found, enough, is_power) =
        bit_ceil_from_lem left (suc k) n (omega (arith, same)) in
      (power, rw (e, next) found, enough, is_power)
]

-- A size of at most 2^63 has a ceiling.
bit_ceil_lem :
    (n : ℕ) → n ≤ 2 ^ 63 → (power : ℕ) × (bit_ceil n ≡ some power) × (n ≤ power) × IsPower power
unfolding bit_ceil
bit_ceil_lem n fits = bit_ceil_from_lem 63 0 n fits

abbrev clamped : ℕ → ℕ
clamped n = min (max n lowest_page_size) highest_page_size

clamped-lem : (n : ℕ) → (lowest_page_size ≤ clamped n) × (clamped n ≤ highest_page_size)
clamped-lem n = (omega arith, omega arith)

-- A power of two that is put between 2^16 and 2^22 is one.
clamped-IsPower : (n : ℕ) → IsPower n → IsPower (clamped n)
clamped-IsPower n (k, e) = elim (Bool-cases (leb n lowest_page_size)) [
  | inl low ↦ (16, ground arith)
  | inr high ↦ elim (Bool-cases (leb highest_page_size n)) [
    | inl above ↦ (22, ground arith)
    | inr below ↦ (k, ground (arith, e))
  ]
]

times-small : (m n : ℕ) → m * n < 2 ^ 64 → times m n ≡ m * n
unfolding times
times-small m n h = omega (arith, h)

-- Pages for so many bytes: not fewer than the lowest number, and not fewer than the whole pages in them.
pages_for_lem :
    (bytes page : ℕ)
    → bytes ≤ 2 ^ 63
    → 0 < page
    → (n : ℕ) × (pages_for bytes page ≡ some n) × (lowest_max_pages ≤ n) × (bytes / page ≤ n)
unfolding pages_for
pages_for_lem bytes page fits some_size =
    let (power, found, above, is_power) =
      bit_ceil_lem (bytes / page) (omega (arith, div-le_self bytes page, fits)) in
    (max power lowest_max_pages, rw (found, pages_for) refl, omega arith, omega (arith, above))

module _ {C : Connection} where
  -- The handler, where both ceilings are there.
  sized :
      (kib ceiling n : ℕ) (c : Cache C)
      → bit_ceil (times kib 1024) ≡ some ceiling
      → pages_for (times c.max_pages c.page_size) (clamped ceiling) ≡ some n
      → (v : Value) × (ipc_handler (set_page_size kib) c
          ≡ some (v, set_max_pages n (Flush.set_page_size (clamped ceiling) c)))
  unfolding ipc_handler on_set_page_size
  sized kib ceiling n c found pages =
      let old_bytes = times c.max_pages c.page_size in
      let new = clamped ceiling in
      (
        page_sizes (c.page_size / 1024) (old_bytes / 1024 / 1024) (new / 1024)
            (times n new / 1024 / 1024),
        rw (found, on_set_page_size) (rw pages refl),
      )

  resized_page_size :
      (n new : ℕ) (c : Cache C) → (set_max_pages n (Flush.set_page_size new c)).page_size ≡ new
  unfolding set_max_pages Flush.set_page_size
  resized_page_size n new c = shutdown-page_size (Flush.set_page_size new c)

  resized_max_pages : (n : ℕ) (c : Cache C) → (set_max_pages n c).max_pages ≡ n
  unfolding set_max_pages
  resized_max_pages n c = refl

  -- Where a page size of at most 2^53 KiB is set and the sizes of the cache do not overflow, the handler
  -- answers, and then: the page size is a power of two from 64 KiB to 4 MiB, whatever was asked for, and
  -- there are at least 128 pages, which hold as many bytes as before less a part of a page. What the
  -- `shutdown` before it does to the pages is not said.
  pub set_page_size_lem :
      (kib : ℕ) (c : Cache C)
      → kib ≤ 2 ^ 53
      → c.max_pages * c.page_size ≤ 2 ^ 63
      → (v : Value) × (c' : Cache C) × (ipc_handler (set_page_size kib) c ≡ some (v, c'))
        × IsPower c'.page_size
        × (lowest_page_size ≤ c'.page_size)
        × (c'.page_size ≤ highest_page_size)
        × (lowest_max_pages ≤ c'.max_pages)
        × (c.max_pages * c.page_size < (c'.max_pages + 1) * c'.page_size)
  set_page_size_lem kib c small fits =
      let kib_small : times kib 1024 ≡ kib * 1024 = times-small kib 1024 (omega (arith, small)) in
      let all_small : times c.max_pages c.page_size ≡ c.max_pages * c.page_size =
        times-small c.max_pages c.page_size (omega (arith, fits)) in
      let (ceiling, found, above, is_power) =
        bit_ceil_lem (times kib 1024) (omega (arith, kib_small, small)) in
      let (least, most) = clamped-lem ceiling in
      let (n, pages, many, whole) =
        pages_for_lem (times c.max_pages c.page_size) (clamped ceiling)
          (omega (arith, all_small, fits)) (omega (arith, least)) in
      let (v, answered) = sized kib ceiling n c found pages in
      let new = clamped ceiling in
      let page : (set_max_pages n (Flush.set_page_size new c)).page_size ≡ new =
        resized_page_size n new c in
      let count : (set_max_pages n (Flush.set_page_size new c)).max_pages ≡ n =
        resized_max_pages n (Flush.set_page_size new c) in
      let kept : times c.max_pages c.page_size < (n + 1) * new =
        (div-lt_iff_lt-mul (omega (arith, least))).0 (omega (arith, whole)) in
      (
        v,
        set_max_pages n (Flush.set_page_size new c),
        answered,
        subst IsPower (sym page) (clamped-IsPower ceiling is_power),
        subst (λ s. lowest_page_size ≤ s) (sym page) least,
        subst (λ s. s ≤ highest_page_size) (sym page) most,
        subst (λ s. lowest_max_pages ≤ s) (sym count) many,
        rw (page, count) (subst (λ b. b < (n + 1) * new) all_small kept),
      )
