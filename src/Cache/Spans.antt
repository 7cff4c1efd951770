-- ===== src/Cache/Spans.antt =====
-- Which part of a page, and of the caller's buffer, `read_at` and `write_at` use for the page `index` of
-- the pages from `first` to `last` of a request of `size` bytes at `offset`.
use adbfsm.Prelude.{
  ℕ, ◌+◌, ◌-◌, ◌*◌, ◌/◌, ◌%◌, ◌≤◌, ◌<◌, ◌≡◌, leb, ◌==◌, if◌then◌else◌, ◌^◌, suc, max, min,
  usize_sub, arith, ==_iff, ◌≢◌, Bool-cases, inl, inr, true, false, ap, ◌∙◌,
}
use native.Mathlib.Nat.{
  div-add-mod', mod-lt, mul-le-mul_right, mul-add-mod_self_right, suc-mul, mul_comm, mul-sub,
  mod-mod,
}

unfoldable pub first_page : ℕ → ℕ → ℕ
first_page page_size offset = offset / page_size

unfoldable pub last_page : ℕ → ℕ → ℕ → ℕ
unfolding usize_sub
last_page page_size offset size = usize_sub (offset + size) 1 / page_size

unfoldable pub local_offset : ℕ → ℕ → ℕ → ℕ → ℕ
local_offset page_size first index offset = if index == first then offset % page_size else 0

unfoldable pub local_size : ℕ → ℕ → ℕ → ℕ → ℕ → ℕ → ℕ
unfolding local_offset usize_sub
local_size page_size first last index offset size =
    let start = local_offset page_size first index offset in
    if index == last
    then usize_sub (usize_sub (size + offset % page_size) 1 % page_size + 1) start
    else if index == first
    then page_size - start
    else page_size

-- `out_off` and `in_off`.
unfoldable pub buffer_offset : ℕ → ℕ → ℕ → ℕ → ℕ
unfolding usize_sub
buffer_offset page_size first index offset =
    if leb (first + 1) index
    then usize_sub ((index - first) * page_size) (offset % page_size)
    else 0

step_up : (P a b : ℕ) → a < b → a * P + P ≤ b * P
step_up P a b h = let le : suc a * P ≤ b * P = mul-le-mul_right P h in omega (arith, suc-mul a P)

sub-mul : (a b P : ℕ) → (a - b) * P ≡ a * P - b * P
sub-mul a b P = rw (mul_comm (a - b) P, mul_comm a P, mul_comm b P) (mul-sub P a b)

apart : (a b : ℕ) → (a == b) ≡ false → a ≢ b
apart a b h = ground arith

-- The numbers behind a request that does not pass 2 ^ 64.
module _ (P offset size : ℕ) (ps : 0 < P) (some_bytes : 0 < size)
    (fit : offset + size < 2 ^ 64) where
  abbrev first : ℕ
  first = first_page P offset

  abbrev last : ℕ
  last = last_page P offset size

  first_lem : (first * P + offset % P ≡ offset) × (offset % P < P)
  unfolding first_page
  first_lem = (div-add-mod' offset P, mod-lt offset ps)

  last_lem :
      (last * P + (offset + size - 1) % P ≡ offset + size - 1) × ((offset + size - 1) % P < P)
  unfolding last_page usize_sub
  last_lem =
      let e : (offset + size + 2 ^ 64 - 1) % 2 ^ 64 ≡ offset + size - 1 = omega arith in
      rw e (div-add-mod' (offset + size - 1) P, mod-lt (offset + size - 1) ps)

  -- The part of a page starts at the same byte in the page and in the caller's buffer, the first that
  -- is in both.
  module _ (index : ℕ) (lo : first ≤ index) (hi : index ≤ last) where
    after_first : index ≢ first → first * P + P ≤ index * P
    after_first ne = step_up P first index (ground arith)

    first_same : (index == first) ≡ true → index * P ≡ first * P
    first_same e = ap (λ k. k * P) ((==_iff index first).0 e)

    start_in_page : index * P + local_offset P first index offset ≡ max (index * P) offset
    unfolding local_offset
    start_in_page = elim (Bool-cases (index == first)) [
      | inl e ↦ rw e (omega (arith, first_lem, first_same e))
      | inr e ↦ rw e (omega (arith, first_lem, after_first (apart index first e)))
    ]

    start_in_buffer : offset + buffer_offset P first index offset ≡ max (index * P) offset
    unfolding buffer_offset usize_sub
    start_in_buffer = elim (Bool-cases (leb (first + 1) index)) [
      | inl e ↦
          let lt : first < index = ground arith in
          let gap : (index - first) * P ≡ index * P - first * P = sub-mul index first P in
          let room : index * P ≤ last * P = mul-le-mul_right P hi in
          rw e (omega (arith, first_lem, last_lem, gap, room, step_up P first index lt))
      | inr e ↦
          let eq : index ≡ first = ground arith in
          rw e (omega (arith, first_lem, ap (λ k. k * P) eq))
    ]

    start_fits : local_offset P first index offset < P
    unfolding local_offset
    start_fits = elim (Bool-cases (index == first)) [ inl e ↦ rw e (first_lem.1) | inr e ↦ rw e ps ]

    inner_size :
        (index == last) ≡ false
        → local_offset P first index offset + local_size P first last index offset size ≡ P
    unfolding local_size local_offset usize_sub
    inner_size ne = elim (Bool-cases (index == first)) [
      | inl e ↦ rw (ne, e) (omega (arith, first_lem))
      | inr e ↦ rw (ne, e) (omega arith)
    ]

    -- What the last page holds of the request, counted in its pages.
    last_rest : (size + offset % P - 1) % P ≡ (offset + size - 1) % P
    last_rest =
        let up : first * P ≤ last * P = mul-le-mul_right P (omega (arith, lo, hi)) in
        let split : size + offset % P - 1 ≡ (last - first) * P + (offset + size - 1) % P =
          omega (arith, first_lem, last_lem, sub-mul last first P, up) in
        ap (λ k. k % P) split
        ∙ mul-add-mod_self_right (last - first) P ((offset + size - 1) % P)
        ∙ mod-mod (offset + size - 1) P

    last_size :
        (index == last) ≡ true
        → local_offset P first index offset + local_size P first last index offset size
          ≡ (offset + size - 1) % P + 1
    unfolding local_size usize_sub
    last_size e =
        let sum : (size + offset % P + 2 ^ 64 - 1) % 2 ^ 64 ≡ size + offset % P - 1 =
          omega (arith, first_lem) in
        let eq : index * P ≡ last * P = ap (λ k. k * P) ((==_iff index last).0 e) in
        rw (e, sum, last_rest) (omega (arith, last_lem, start_fits, eq, start_in_page))

    end_in_page :
        index * P + local_offset P first index offset + local_size P first last index offset size
        ≡ min (suc index * P) (offset + size)
    end_in_page = elim (Bool-cases (index == last)) [
      | inl e ↦
          let eq : index * P ≡ last * P = ap (λ k. k * P) ((==_iff index last).0 e) in
          omega (arith, last_lem, last_size e, eq, suc-mul index P)
      | inr e ↦
          let ne : index ≢ last = apart index last e in
          omega
            (arith, last_lem, inner_size e, suc-mul index P, step_up P index last (ground arith))
    ]

    -- For a request of at least one byte that ends before 2 ^ 64, and a page that it touches: the part
    -- of the page and the part of the caller's buffer start at the same byte of the file, the first
    -- that is in the page and in the request; and the part ends behind the last such byte.
    pub parts_lem :
        (offset + buffer_offset P first index offset ≡ max (index * P) offset)
        × (index * P + local_offset P first index offset ≡ max (index * P) offset)
        × (index * P + local_offset P first index offset + local_size P first last index offset size
            ≡ min (suc index * P) (offset + size))
    parts_lem = (start_in_buffer, start_in_page, end_in_page)
