-- ===== src/Control/Messages.antt =====
-- The messages on the control socket: what `send` writes, `receive` reads.
use adbfsm.Prelude.{
  ℕ, ◌^◌, ◌%◌, ◌<◌, ◌≤◌, ◌≡◌, refl, ◌∙◌, ltb, false, some, List, [], ◌++◌, append-nil, subst,
  append_assoc, length, if◌then◌else◌, arith,
}
use adbfsm.Cache.State.{Connection, Cache, ok, err}
use adbfsm.Rpc.Wire.{Endian, to_net_bytes, length-to_net_bytes, from_net_bytes-to_net_bytes}
use adbfsm.Rpc.Frame.Headers.{read_exact-append}
use adbfsm.Control.Peer.{Json, Response, respond, handle_peer}
use adbfsm.Split.{Text}
use adbfsm.Control.{send, receive, max_msg_len, message_size}

module _ (g h : Endian) (lost : ℕ) where
  -- A message of at most 4096 bytes arrives as it was sent, and what follows it on the socket stays; a longer one is refused, and its bytes stay.
  pub receive-send :
      (msg rest : List ℕ)
      → length msg < 2 ^ 32
      → receive g lost (send h msg ++ rest)
        ≡ (if ltb max_msg_len (length msg) then (err message_size, msg ++ rest) else (ok msg, rest))
  unfolding receive send
  receive-send msg rest fits =
      let front = to_net_bytes h 4 (length msg % 2 ^ 32) in
      let sent : length msg % 2 ^ 32 ≡ length msg = omega (arith, fits) in
      rw
        (
          append_assoc front msg rest,
          receive,
          read_exact-append 4 front (msg ++ rest) (length-to_net_bytes h 4 (length msg % 2 ^ 32)),
          from_net_bytes-to_net_bytes g h 4 (length msg % 2 ^ 32) (omega arith),
          sent,
          read_exact-append (length msg) msg rest refl,
        )
        refl

  short_message :
      (msg : List ℕ) → length msg ≤ max_msg_len → receive g lost (send h msg) ≡ (ok msg, [])
  short_message msg short =
      let whole : send h msg ++ [] ≡ send h msg = append-nil (send h msg) in
      let fits : ltb max_msg_len (length msg) ≡ false = ground (arith, short) in
      subst (λ s. receive g lost s ≡ (ok msg, [])) whole
        (receive-send msg [] (omega (arith, short)) ∙ rw fits refl)

-- A peer that sends a text of at most 4096 bytes and whose answer is not longer reads that answer,
-- whatever the byte orders of the two, and the cache is as the handler of the operation leaves it.
pub handle_peer-send :
    (K : Json) (g h : Endian) (lost lost' : ℕ) {C : Connection} (msg : Text) (c c' : Cache C)
    (r : Response)
    → length msg ≤ max_msg_len
    → respond K msg c ≡ some (r, c')
    → length (K.serialize r) ≤ max_msg_len
    → (out : List ℕ) × (handle_peer K h lost (send g msg) c ≡ some (out, c'))
      × (receive g lost' out ≡ (ok (K.serialize r), []))
unfolding handle_peer
handle_peer-send K g h lost lost' msg c c' r short answered fits = (
  send h (K.serialize r),
  rw (handle_peer, short_message h g lost msg short, answered) refl,
  short_message g h lost' (K.serialize r) fits,
)
