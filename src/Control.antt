-- ===== src/Control.antt =====
-- The control socket: `Madbfs::ipc_handler` (madbfs/src/madbfs.cpp) and the messages on the socket
-- (madbfs/src/data/ipc.cpp). The text of a JSON value is not modelled.
mod Tests
pub mod Sizes
pub mod Messages
pub mod Peer
use adbfsm.Prelude.{
  ℕ, zero, suc, ◌+◌, ◌*◌, ◌/◌, ◌%◌, ◌^◌, min, max, leb, ltb, Option, none, some, List, length, ◌++◌,
  if◌then◌else◌,
}
use adbfsm.Cache.State.{Connection, Cache, Expect, ok, err}
use adbfsm.Cache.Flush
use adbfsm.Cache.Flush.{shutdown, set_max_pages}
use adbfsm.Rpc.Wire.{Endian, to_net_bytes, from_net_bytes}
use adbfsm.Rpc.Frame.{read_exact}

-- `std::bit_ceil`: the least power of two that is not less; `none` where no 64-bit one is.
unfoldable pub bit_ceil_from : ℕ → ℕ → ℕ → Option ℕ
bit_ceil_from zero power n = none
bit_ceil_from (suc left) power n =
    let next = bit_ceil_from left (power * 2) n in if leb n power then some power else next

unfoldable pub bit_ceil : ℕ → Option ℕ
unfolding bit_ceil_from
bit_ceil n = bit_ceil_from 64 1 n

pub data Op : Type 0 where
  help invalidate_cache : Op
  set_page_size : (kib : ℕ) → Op
  get_page_size : Op
  set_cache_size : (mib : ℕ) → Op
  get_cache_size : Op

-- The JSON value of an answer; sizes of pages are in KiB and of the cache in MiB where they are set.
pub data Value : Type 0 where
  operations nothing : Value
  page_sizes : (old_page old_cache new_page new_cache : ℕ) → Value
  cache_sizes : (old_cache new_cache : ℕ) → Value
  number : ℕ → Value

abbrev pub lowest_page_size : ℕ
lowest_page_size = 65536

abbrev pub highest_page_size : ℕ
highest_page_size = 4194304

abbrev pub lowest_max_pages : ℕ
lowest_max_pages = 128

-- The product of two `usize`.
unfoldable pub times : ℕ → ℕ → ℕ
times m n = m * n % 2 ^ 64

-- The new number of pages: not fewer than the lowest.
unfoldable pub pages_for : ℕ → ℕ → Option ℕ
pages_for bytes page = elim (bit_ceil (bytes / page)) [
  | none ↦ none
  | some n ↦ some (max n lowest_max_pages)
]

module _ {C : Connection} where
  unfoldable pub on_set_page_size : ℕ → Cache C → Option (Value × Cache C)
  on_set_page_size kib c = elim (bit_ceil (times kib 1024)) [
    | none ↦ none
    | some ceiling ↦
        let new_size = min (max ceiling lowest_page_size) highest_page_size in
        let old_bytes = times c.max_pages c.page_size in
        elim (pages_for old_bytes new_size) [
          | none ↦ none
          | some new_max ↦ some (
            page_sizes (c.page_size / 1024) (old_bytes / 1024 / 1024) (new_size / 1024)
                (times new_max new_size / 1024 / 1024),
            set_max_pages new_max (Flush.set_page_size new_size c),
          )
        ]
  ]

  unfoldable pub on_set_cache_size : ℕ → Cache C → Option (Value × Cache C)
  on_set_cache_size mib c = elim (pages_for (times (times mib 1024) 1024) c.page_size) [
    | none ↦ none
    | some new_max ↦ some (
      cache_sizes (times c.max_pages c.page_size / 1024 / 1024)
          (times new_max c.page_size / 1024 / 1024),
      set_max_pages new_max c,
    )
  ]

  -- `none` is where `std::bit_ceil` is undefined.
  unfoldable pub ipc_handler : Op → Cache C → Option (Value × Cache C)
  unfolding on_set_page_size on_set_cache_size
  ipc_handler help c = some (operations, c)
  ipc_handler invalidate_cache c = some (nothing, shutdown c)
  ipc_handler (set_page_size kib) c = on_set_page_size kib c
  ipc_handler get_page_size c = some (number (c.page_size), c)
  ipc_handler (set_cache_size mib) c = on_set_cache_size mib c
  ipc_handler get_cache_size c = some (number (times c.page_size c.max_pages / 1024 / 1024), c)

-- `EMSGSIZE`, and the longest message.
abbrev pub message_size : ℕ
message_size = 90

abbrev pub max_msg_len : ℕ
max_msg_len = 4096

module _ (host : Endian) where
  -- `send`: the length and the bytes, where the socket takes them all.
  unfoldable pub send : List ℕ → List ℕ
  unfolding to_net_bytes
  send msg = to_net_bytes host 4 (length msg % 2 ^ 32) ++ msg

  -- `receive` on a socket that delivers these bytes before a read fails: `lost` is what `to_generic_err`
  -- makes of the error of that read.
  unfoldable pub receive : ℕ → List ℕ → Expect (List ℕ) × List ℕ
  unfolding read_exact from_net_bytes
  receive lost stream = elim (read_exact 4 stream) [
    | none ↦ (err lost, stream)
    | some (front, rest) ↦
        let len = from_net_bytes host 4 front in
        if ltb max_msg_len len then (err message_size, rest) else elim (read_exact len rest) [
          | none ↦ (err lost, rest)
          | some (msg, rest') ↦ (ok msg, rest')
        ]
  ]
