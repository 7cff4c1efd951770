-- ===== src/Rpc/Server.antt =====
-- `Server::listen` of rpc.cpp: the requests that a connection dispatches. The socket is the list of
-- the bytes that arrive before it fails; a handler is started for each dispatched request and is not
-- waited for.
pub mod Dispatch
pub mod Progress
use adbfsm.Prelude.{ℕ, zero, suc, Option, none, some, List, [], ◌∷◌}
use adbfsm.Rpc.Wire.{Endian}
use adbfsm.Rpc.Payload.{Procedure, Outcome, ok, nullopt, undefined, run}
use adbfsm.Rpc.Request.{Request, parse_request}
use adbfsm.Rpc.Frame.{request_header_len, RequestHeader, read_request_header, read_exact, skip}

-- A request that is handed to the handler, with the id and the procedure of its header.
pub record Call : Type 0 where
  pub id : ℕ
  pub procedure : Procedure
  pub request : Request

-- One round of the loop: it returns `not_connected`, goes on, starts a handler and goes on, or reads
-- past the end of a buffer or throws.
pub data Round : Type 0 where
  stop : Round
  next : List ℕ → Round
  dispatch : Call → List ℕ → Round
  fault : Round

-- The payload has been read: parse it.
unfoldable pub on_payload : ℕ → Procedure → Outcome Request → List ℕ → Round
on_payload id procedure (ok r) rest =
    dispatch (record { id = id; procedure = procedure; request = r }) rest
on_payload id procedure nullopt rest = next rest
on_payload id procedure undefined rest = fault

module _ (host : Endian) where
  -- A header with an unknown procedure: its payload is skipped.
  unfoldable pub on_header : ℕ → ℕ → Option Procedure → List ℕ → Round
  unfolding on_payload
  on_header id size none stream = next (skip size stream)
  on_header id size (some procedure) stream = elim (read_exact size stream) [
    | none ↦ stop
    | some (buffer, rest) ↦ on_payload id procedure (parse_request host buffer procedure) rest
  ]

  -- `value()` throws on a field that is not there.
  unfoldable pub with_header : Outcome RequestHeader → List ℕ → Round
  unfolding on_header
  with_header (ok header) rest = on_header header.id header.size header.procedure rest
  with_header nullopt rest = fault
  with_header undefined rest = fault

  unfoldable pub listen_round : List ℕ → Round
  unfolding with_header
  listen_round stream = elim (read_exact request_header_len stream) [
    | none ↦ stop
    | some (header, rest) ↦ with_header (run (read_request_header host) header) rest
  ]

-- How a run of the loop ends.
pub data End : Type 0 where
  not_connected faulted out_of_fuel : End

module _ (host : Endian) where
  -- `listen`, with fuel for the rounds: the dispatched calls, in order, and the end.
  unfoldable pub listen : ℕ → List ℕ → List Call × End
  listen zero stream = ([], out_of_fuel)
  listen (suc fuel) stream = elim (listen_round host stream) [
    | stop ↦ ([], not_connected)
    | next rest ↦ listen fuel rest
    | dispatch call rest ↦ let (calls, end) = listen fuel rest in (call ∷ calls, end)
    | fault ↦ ([], faulted)
  ]
