-- ===== src/Cache/Page/Content.antt =====
-- What a page holds behind `write`, and what `read` returns then.
use adbfsm.Prelude.{
  ℕ, zero, suc, ◌+◌, ◌-◌, ◌≤◌, ◌<◌, ◌≡◌, ◌^◌, ◌%◌, ltb, leb, true, false, none, some, if◌then◌else◌,
  refl, subst, ap, ◌∙◌, List, [], ◌∷◌, ◌++◌, length, take, take-all, drop, min, max, length-append,
  length-take, length-drop, arith, usize_sub,
}
use adbfsm.Cache.Page.{Page, read, read_size, write, overwrite}

-- The buffer has the size of a page, the content fits into it, and sizes have 32 bits.
unfoldable pub IsPage : Page → Type 0
IsPage p = (length p.bytes ≡ p.page_size) × (p.size ≤ p.page_size) × (p.page_size < 2 ^ 32)

take-length : (xs ys : List ℕ) → take (length xs) (xs ++ ys) ≡ xs
take-length [] ys = refl
take-length (x ∷ xs) ys = ap (λ t. x ∷ t) (take-length xs ys)

-- Bytes that are written are behind the offset.
drop-overwrite :
    (offset : ℕ) (input bytes : List ℕ)
    → offset ≤ length bytes
    → drop offset (overwrite offset input bytes) ≡ input ++ drop (offset + length input) bytes
unfolding overwrite
drop-overwrite zero input bytes h = refl
drop-overwrite (suc n) input [] h = absurd (omega arith)
drop-overwrite (suc n) input (b ∷ bytes) h =
    let split : suc (n + length input) ≡ suc n + length input = omega arith in
    subst
      (λ k. drop n (take n bytes ++ (input ++ drop k (b ∷ bytes))) ≡ input ++ drop k (b ∷ bytes))
      split (drop-overwrite n input bytes (omega arith))

length-overwrite :
    (offset : ℕ) (input bytes : List ℕ)
    → offset + length input ≤ length bytes
    → length (overwrite offset input bytes) ≡ length bytes
unfolding overwrite
length-overwrite offset input bytes h = omega (
  arith,
  length-append (take offset bytes) (input ++ drop (offset + length input) bytes),
  length-append input (drop (offset + length input) bytes),
  length-take offset bytes,
  length-drop (offset + length input) bytes,
)

write_result :
    (p : Page) (input : List ℕ) (offset : ℕ)
    → IsPage p
    → offset + length input ≤ p.page_size
    → 0 < length input
    → write p input offset ≡ (
      record p {
        bytes = overwrite offset input p.bytes;
        size = max (offset + length input) p.size;
      },
      length input,
    )
unfolding write IsPage usize_sub
write_result p input offset (b, s, w) h pos =
    let sum : (offset + length input) % 2 ^ 32 ≡ offset + length input = omega arith in
    let fits : ltb p.page_size (offset + length input) ≡ false = ground arith in
    let count : (offset + length input + 2 ^ 64 - offset) % 2 ^ 64 ≡ length input = omega arith in
    let inside : leb p.page_size offset ≡ false = ground arith in
    rw (sum, fits, inside, count, take-all input) refl

-- A write inside a page leaves a page, and all of it is written.
pub write-IsPage :
    (p : Page) (input : List ℕ) (offset : ℕ)
    → IsPage p
    → offset + length input ≤ p.page_size
    → 0 < length input
    → IsPage (write p input offset).0
unfolding IsPage
write-IsPage p input offset (b, s, w) h pos =
    rw (write_result p input offset (b, s, w) h pos)
      (length-overwrite offset input p.bytes (omega arith) ∙ b, omega arith, w)

-- What was written is read back at its offset.
pub read-write :
    (p : Page) (input : List ℕ) (offset : ℕ)
    → IsPage p
    → offset + length input ≤ p.page_size
    → 0 < length input
    → read (write p input offset).0 (length input) offset ≡ some input
unfolding IsPage read usize_sub
read-write p input offset (b, s, w) h pos =
    let room : min ((max (offset + length input) p.size + 2 ^ 64 - offset) % 2 ^ 64) (length input)
        ≡ length input =
      omega arith in
    let inside : leb (offset + length input) (length (overwrite offset input p.bytes)) ≡ true =
      ground (arith, b, h, length-overwrite offset input p.bytes (omega arith)) in
    rw
      (
        write_result p input offset (b, s, w) h pos,
        room,
        inside,
        drop-overwrite offset input p.bytes (omega arith),
      )
      (ap some (take-length input (drop (offset + length input) p.bytes)))

-- A read that starts behind the content, but not behind the page, copies as many bytes as the output
-- has room for, up to 2 ^ 32, since the difference of the sizes wraps: bytes of the buffer that are no
-- content, or, where the output has more room than is left of the page, bytes from behind the buffer.
pub read_behind :
    (p : Page) (room offset : ℕ)
    → IsPage p
    → p.size < offset
    → offset ≤ p.page_size
    → room ≤ 2 ^ 32
    → (read_size p room offset ≡ room)
      × (read p room offset ≡ (
          if leb (offset + room) p.page_size then some (take room (drop offset p.bytes)) else none))
unfolding IsPage read read_size usize_sub
read_behind p room offset (b, s, w) behind inside small =
    let wraps : min ((p.size + 2 ^ 64 - offset) % 2 ^ 64) room ≡ room = omega arith in
    (wraps, rw (wraps, b) refl)
