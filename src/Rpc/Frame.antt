-- ===== src/Rpc/Frame.antt =====
-- Whole messages: `RequestBuilder`, `ResponseBuilder`, the bytes that `Client::send_req` and
-- `Server::send_resp` write, and the headers that `listen` and `receive` read (rpc.cpp).
pub mod Layout
pub mod Headers
use adbfsm.Prelude.{
  ℕ, ◌+◌, ◌-◌, Option, none, some, List, [], ◌++◌, leb, ◌==◌, if◌then◌else◌, length, take, drop,
}
use adbfsm.Rpc.Wire.{Endian, to_net_bytes}
use adbfsm.Rpc.Payload.{
  Procedure, procedure_code, procedure_of, Parser, ◌>>=◌, pure, write_int, write_procedure,
  write_status, write_id, read_int, read_status, read_id,
}
use adbfsm.Rpc.Request
use adbfsm.Rpc.Request.{Request}
use adbfsm.Rpc.Response
use adbfsm.Rpc.Response.{Response}

-- `sr::copy_n` into a buffer, at an offset.
unfoldable pub overwrite : ℕ → List ℕ → List ℕ → List ℕ
overwrite offset bytes buffer = take offset buffer ++ (bytes ++ drop (offset + length bytes) buffer)

-- `sizeof(Id) + sizeof(Procedure) + sizeof(u64)`, and with `sizeof(Status)`.
abbrev pub request_header_len : ℕ
request_header_len = 13

abbrev pub response_header_len : ℕ
response_header_len = 14

module _ (host : Endian) where
  -- `build`: the size of the payload goes into the last eight bytes of the header.
  unfoldable pub build : ℕ → List ℕ → List ℕ
  unfolding overwrite
  build header_len buffer =
      overwrite (header_len - 8) (to_net_bytes host 8 (length buffer - header_len)) buffer

  -- The constructors of the builders, on an empty buffer.
  unfoldable pub request_builder : ℕ → Procedure → List ℕ
  request_builder id procedure =
      write_int host 8 0 (write_procedure host procedure (write_id host id []))

  unfoldable pub response_builder : ℕ → Procedure → ℕ → List ℕ
  response_builder id procedure status =
      write_int host 8 0
        (write_status host status (write_procedure host procedure (write_id host id [])))

  -- The message that `send_req` puts on the channel.
  unfoldable pub request_message : ℕ → Request → List ℕ
  request_message id r =
      build request_header_len (Request.write_fields host r (request_builder id (Request.proc r)))

-- `Var<Status, Response>`: what a handler returns.
pub data Reply : Type 0 where
  status : ℕ → Reply
  response : Response → Reply

-- `send_resp` writes a message, refuses a response of another procedure, or throws: a handler's
-- status of success is no response.
pub data Sent : Type 0 where
  sent : List ℕ → Sent
  bad_message bad_variant_access : Sent

module _ (host : Endian) where
  unfoldable pub send_resp : ℕ → Procedure → Reply → Sent
  send_resp id procedure (status s) =
      if s == 0
      then bad_variant_access
      else sent (build host response_header_len (response_builder host id procedure s))
  send_resp id procedure (response r) =
      if procedure_code (Response.proc r) == procedure_code procedure
      then sent (
          build host response_header_len
            (Response.write_fields host r (response_builder host id procedure 0)))
      else bad_message

-- A header. `procedure` is `none` where the domain check of `read_procedure` fails; the reader has
-- moved past the byte all the same.
pub record RequestHeader : Type 0 where
  pub id : ℕ
  pub procedure : Option Procedure
  pub size : ℕ

pub record ResponseHeader : Type 0 where
  pub id : ℕ
  pub procedure : Option Procedure
  pub status : ℕ
  pub size : ℕ

module _ (host : Endian) where
  unfoldable pub read_request_header : Parser RequestHeader
  read_request_header = do
    id ← read_id host
    code ← read_int host 1
    size ← read_int host 8
    pure (record { id = id; procedure = procedure_of code; size = size })

  unfoldable pub read_response_header : Parser ResponseHeader
  read_response_header = do
    id ← read_id host
    code ← read_int host 1
    s ← read_status host
    size ← read_int host 8
    pure (record { id = id; procedure = procedure_of code; status = s; size = size })

-- `async::read_exact` on a socket that delivers these bytes and then fails: a short read fails.
unfoldable pub read_exact : ℕ → List ℕ → Option (List ℕ × List ℕ)
read_exact n stream = if leb n (length stream) then some (take n stream, drop n stream) else none

-- A read whose result is ignored.
unfoldable pub skip : ℕ → List ℕ → List ℕ
unfolding read_exact
skip n stream = elim (read_exact n stream) [ none ↦ [] | some (bytes, rest) ↦ rest ]
