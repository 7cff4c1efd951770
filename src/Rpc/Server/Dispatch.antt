-- ===== src/Rpc/Server/Dispatch.antt =====
-- What `listen` does with the messages of a client, and with messages of an unknown procedure.
use adbfsm.Prelude.{
  ℕ, zero, suc, ◌^◌, ◌<◌, ◌≡◌, refl, none, List, [], ◌∷◌, ◌++◌, append_assoc, arith, length,
  length-append,
}
use adbfsm.Rpc.Wire.{Endian, to_net_bytes, length-to_net_bytes}
use adbfsm.Rpc.Payload.{procedure_code, procedure_of, nullopt, Procedure}
use adbfsm.Rpc.Payload.Reads.{procedure_of-procedure_code, procedure_code-lt}
use adbfsm.Rpc.Request.{Request, proc, parse_request}
use adbfsm.Rpc.Request.RoundTrip.{payload, InRange, parse_request-payload}
use adbfsm.Rpc.Frame.{request_message, read_exact}
use adbfsm.Rpc.Frame.Layout.{frame, request_front, request_message_lem}
use adbfsm.Rpc.Frame.Headers.{run-read_request_header, read_exact-append, skip-append}
use adbfsm.Rpc.Server.{
  Call, next, dispatch, on_header, on_payload, listen_round, not_connected, listen,
}

module _ (g h : Endian) where
  -- A round on a message, whatever its procedure: the header is read, and the payload and what
  -- follows it are left.
  listen_round-frame :
      (id code : ℕ) (body rest : List ℕ)
      → id < 2 ^ 32
      → code < 256
      → length body < 2 ^ 64
      → listen_round g (frame h (request_front h id code) body ++ rest)
        ≡ on_header g id (length body) (procedure_of code) (body ++ rest)
  unfolding listen_round on_header
  listen_round-frame id code body rest i c s =
      let front : List ℕ =
        to_net_bytes h 4 id ++ (to_net_bytes h 1 code ++ to_net_bytes h 8 (length body)) in
      let regroup : frame h (request_front h id code) body ++ rest ≡ front ++ (body ++ rest) =
        simp append_assoc in
      let long : length front ≡ 13 = omega (
        arith,
        length-append (to_net_bytes h 4 id)
            (to_net_bytes h 1 code ++ to_net_bytes h 8 (length body)),
        length-append (to_net_bytes h 1 code) (to_net_bytes h 8 (length body)),
        length-to_net_bytes h 4 id,
        length-to_net_bytes h 1 code,
        length-to_net_bytes h 8 (length body),
      ) in
      rw (
        regroup,
        listen_round,
        read_exact-append 13 front (body ++ rest) long,
        run-read_request_header g h id code (length body) i c s,
      )

-- What a client may send: a request, a message of a procedure that the server does not know, and a
-- message whose payload is no request of its procedure.
pub data Message : Type 0 where
  known : (id : ℕ) (r : Request) → Message
  unknown : (id code : ℕ) (body : List ℕ) → Message
  malformed : (id : ℕ) (p : Procedure) (body : List ℕ) → Message

abbrev pub bytes_of : Endian → Message → List ℕ
bytes_of h (known id r) = request_message h id r
bytes_of h (unknown id code body) = frame h (request_front h id code) body
bytes_of h (malformed id p body) = frame h (request_front h id (procedure_code p)) body

abbrev pub stream_of : Endian → List Message → List ℕ
stream_of h [] = []
stream_of h (m ∷ ms) = bytes_of h m ++ stream_of h ms

-- The requests among the messages.
abbrev pub calls_of : List Message → List Call
calls_of [] = []
calls_of (known id r ∷ ms) = record { id = id; procedure = proc r; request = r } ∷ calls_of ms
calls_of (unknown id code body ∷ ms) = calls_of ms
calls_of (malformed id p body ∷ ms) = calls_of ms

-- The numbers of a message fit in its fields, and it is of its kind on the host `g`.
abbrev pub IsMessage : Endian → Endian → Message → Type 0
IsMessage g h (known id r) = (id < 2 ^ 32) × InRange r × (length (payload h r) < 2 ^ 64)
IsMessage g h (unknown id code body) =
    (id < 2 ^ 32) × (code < 256) × (procedure_of code ≡ none) × (length body < 2 ^ 64)
IsMessage g h (malformed id p body) =
    (id < 2 ^ 32) × (length body < 2 ^ 64) × (parse_request g body p ≡ nullopt)

abbrev pub AreMessages : Endian → Endian → List Message → Type 0
AreMessages g h [] = Unit {0}
AreMessages g h (m ∷ ms) = IsMessage g h m × AreMessages g h ms

module _ (g h : Endian) where
  round_known :
      (id : ℕ) (r : Request) (rest : List ℕ)
      → IsMessage g h (known id r)
      → listen_round g (request_message h id r ++ rest)
        ≡ dispatch (record { id = id; procedure = proc r; request = r }) rest
  unfolding on_header on_payload
  round_known id r rest ok_message = rw (
    request_message_lem h id r,
    listen_round-frame g h id (procedure_code (proc r)) (payload h r) rest ok_message.0
        (procedure_code-lt (proc r)) ok_message.2,
    procedure_of-procedure_code (proc r),
    on_header,
    read_exact-append (length (payload h r)) (payload h r) rest refl,
    parse_request-payload g h r ok_message.1 ok_message.2,
    on_payload,
  )

  round_unknown :
      (id code : ℕ) (body rest : List ℕ)
      → IsMessage g h (unknown id code body)
      → listen_round g (bytes_of h (unknown id code body) ++ rest) ≡ next rest
  unfolding on_header
  round_unknown id code body rest k = rw (
    listen_round-frame g h id code body rest k.0 k.1 k.3,
    k.2,
    on_header,
    skip-append (length body) body rest refl,
  )

  round_malformed :
      (id : ℕ) (p : Procedure) (body rest : List ℕ)
      → IsMessage g h (malformed id p body)
      → listen_round g (bytes_of h (malformed id p body) ++ rest) ≡ next rest
  unfolding on_header on_payload
  round_malformed id p body rest k = rw (
    listen_round-frame g h id (procedure_code p) body rest k.0 (procedure_code-lt p) k.1,
    procedure_of-procedure_code p,
    on_header,
    read_exact-append (length body) body rest refl,
    k.2,
    on_payload,
  )

  -- For messages whose numbers fit in their fields and whose malformed payloads `parse_request` refuses -
  -- a payload on which it reads past the end of the buffer is none of them - and more rounds than
  -- messages: the server dispatches exactly the requests among them, in order and as they were made, and
  -- skips the rest without losing its place in the stream. The byte orders of the two hosts may differ.
  pub listen-stream_of :
      (ms : List Message) (fuel : ℕ)
      → AreMessages g h ms
      → length ms < fuel
      → listen g fuel (stream_of h ms) ≡ (calls_of ms, not_connected)
  unfolding listen
  listen-stream_of ms zero k lt = absurd (omega arith)
  listen-stream_of [] (suc fuel) k lt = unfold listen_round read_exact in refl
  listen-stream_of (known id r ∷ ms) (suc fuel) k lt =
      rw (listen, round_known id r (stream_of h ms) k.0, listen-stream_of ms fuel k.1 (omega arith))
  listen-stream_of (unknown id code body ∷ ms) (suc fuel) k lt = rw (
    listen,
    round_unknown id code body (stream_of h ms) k.0,
    listen-stream_of ms fuel k.1 (omega arith),
  )
  listen-stream_of (malformed id p body ∷ ms) (suc fuel) k lt = rw (
    listen,
    round_malformed id p body (stream_of h ms) k.0,
    listen-stream_of ms fuel k.1 (omega arith),
  )
