-- ===== src/Control/Tests.antt =====
-- The control socket over the cache of a device with one file.
use adbfsm.Prelude.{
  ℕ, false, ◌+◌, ◌*◌, ◌<◌, ◌≤◌, ◌≡◌, refl, some, List, [], ◌∷◌, arith, text_eq, if◌then◌else◌,
}
use adbfsm.Cache.State.{ok, Connection, Cache}
use adbfsm.Cache.Flush
use adbfsm.Cache.Flush.{set_max_pages}
use adbfsm.Rpc.Wire.{little, big}
use adbfsm.Control.{
  Value, set_page_size, operations, page_sizes, ipc_handler, bit_ceil, times, pages_for, send,
  receive, lowest_page_size, highest_page_size, lowest_max_pages,
}
use adbfsm.Control.Sizes.{IsPower, set_page_size_lem}
use adbfsm.Control.Peer.{Json, parsed, refused, success, failure, help_text, respond, handle_peer}
use adbfsm.Control.Messages.{handle_peer-send}

abbrev disk : Connection
disk = record {
  Device = List ℕ;
  read = λ d path size offset. (ok d, d);
  write = λ d path input offset. (ok 0, d);
}

-- A cache of 512 pages of 128 KiB.
abbrev empty : Cache disk
empty = record {
  lru = [];
  fresh = 0;
  table = [];
  page_size = 131072;
  max_pages = 512;
  device = [];
  faulted = false;
}

-- 100 KiB are rounded to 128 KiB, and the number of pages stays.
round_up : ipc_handler (set_page_size 100) empty ≡ some (page_sizes 128 64 128 64, empty)
unfolding ipc_handler bit_ceil times pages_for set_max_pages Flush.set_page_size
round_up = refl

set_page_size_lem_example :
    (v : Value) × (c' : Cache disk) × (ipc_handler (set_page_size 300) empty ≡ some (v, c'))
    × IsPower c'.page_size
    × (lowest_page_size ≤ c'.page_size)
    × (c'.page_size ≤ highest_page_size)
    × (lowest_max_pages ≤ c'.max_pages)
    × (512 * 131072 < (c'.max_pages + 1) * c'.page_size)
set_page_size_lem_example = set_page_size_lem 300 empty (omega arith) (omega arith)

-- A library that knows one text, `{}`, and takes it for the operation `help`.
abbrev library : Json
library = record {
  Tree = Unit;
  parse = λ msg. if text_eq msg (b'{' ∷ b'}' ∷ []) then parsed tt else refused (b'?' ∷ []);
  member = λ field json. parsed tt;
  to_string = λ json. parsed help_text;
  to_u32 = λ json. parsed 0;
  serialize = λ r. elim r [ success v ↦ b'1' ∷ [] | failure message ↦ b'0' ∷ message ];
}

handle_peer-send_example :
    (out : List ℕ) × (handle_peer library big 104 (send little (b'{' ∷ b'}' ∷ [])) empty
      ≡ some (out, empty))
    × (receive little 5 out ≡ (ok (b'1' ∷ []), []))
handle_peer-send_example =
    handle_peer-send library little big 104 5 (b'{' ∷ b'}' ∷ []) empty empty (success operations)
      (omega arith) (unfold respond in refl) (omega arith)
