-- ===== src/Cache/Page.antt =====
-- `data::Page`: a buffer of `page_size` bytes, of which the first `size` are content.
pub mod Content
use adbfsm.Prelude.{
  ℕ, ◌+◌, ◌-◌, ◌%◌, ◌^◌, Bool, true, false, Option, none, some, List, ◌++◌, ltb, leb, if◌then◌else◌,
  length, take, drop, min, max, usize_sub,
}

pub record PageKey : Type 0 where
  pub id : ℕ
  pub index : ℕ

pub record Page : Type 0 where
  pub key : PageKey
  pub bytes : List ℕ
  pub size : ℕ
  pub page_size : ℕ
  pub dirty : Bool

-- The constructor, on a buffer that a caller has made.
unfoldable pub make : PageKey → List ℕ → ℕ → ℕ → Page
make key bytes size page_size = record {
  key = key;
  bytes = bytes;
  size = size;
  page_size = page_size;
  dirty = false;
}

-- How much `read` copies into an output of `room` bytes.
unfoldable pub read_size : Page → ℕ → ℕ → ℕ
unfolding usize_sub
read_size p room offset = min (usize_sub p.size offset) room

-- `read`: the bytes that are copied, or `none` where that copies from behind the buffer.
unfoldable pub read : Page → ℕ → ℕ → Option (List ℕ)
unfolding read_size
read p room offset =
    if leb (offset + read_size p room offset) (length p.bytes)
    then some (take (read_size p room offset) (drop offset p.bytes))
    else none

-- `std::copy_n` into the buffer.
unfoldable pub overwrite : ℕ → List ℕ → List ℕ → List ℕ
overwrite offset input bytes = take offset bytes ++ (input ++ drop (offset + length input) bytes)

-- `write`: the page, and how many bytes were written. `end` is cut to 32 bits.
unfoldable pub write : Page → List ℕ → ℕ → Page × ℕ
unfolding overwrite usize_sub
write p input offset =
    let sum = (offset + length input) % 2 ^ 32 in
    let end = if ltb p.page_size sum then min sum p.page_size else sum in
    let count = usize_sub end offset in
    if leb p.page_size offset then (p, 0) else (
      record p { bytes = overwrite offset (take count input) p.bytes; size = max end p.size },
      count,
    )

unfoldable pub truncate : Page → ℕ → Page
truncate p size = record p { size = min (size % 2 ^ 32) p.page_size }

abbrev pub set_dirty : Page → Bool → Page
set_dirty p dirty = record p { dirty = dirty }

-- `buf`: the content.
unfoldable pub buf : Page → List ℕ
buf p = take p.size p.bytes
