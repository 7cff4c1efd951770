-- ===== src/Rpc/Client.antt =====
-- `Client` of rpc.cpp: `send_req`, and the loop of `receive` with the handler that `start` runs when
-- it ends. A promise in `m_requests` is known by its id. The socket is the list of the bytes that
-- arrive before it fails.
pub mod Answers
pub mod Told
pub mod Settled
pub mod Ids
use adbfsm.Prelude.{
  ℕ, zero, suc, ◌+◌, ◌%◌, ◌^◌, Bool, Option, none, some, List, [], ◌∷◌, ◌++◌, map, ◌==◌,
  if◌then◌else◌,
}
use adbfsm.Rpc.Wire.{Endian}
use adbfsm.Rpc.Payload.{Procedure, Outcome, ok, nullopt, undefined, run}
use adbfsm.Rpc.Request.{Request}
use adbfsm.Rpc.Response.{Response, parse_response}
use adbfsm.Rpc.Frame.{
  response_header_len, ResponseHeader, read_response_header, request_message, read_exact, skip,
}

-- What a promise receives: a response, an error of the server, an error of the client; or nothing,
-- when it is destroyed.
pub data Result : Type 0 where
  value : Response → Result
  remote : (status : ℕ) → Result
  bad_message not_connected dropped : Result

pub record Completion : Type 0 where
  pub id : ℕ
  pub result : Result

-- `m_requests.extract`: the promises that are left, or `none`.
unfoldable pub extract : ℕ → List ℕ → Option (List ℕ)
extract id [] = none
extract id (other ∷ rest) =
    let found : Option (List ℕ) = extract id rest in
    if other == id then some rest else elim found [ none ↦ none | some left ↦ some (other ∷ left) ]

-- `m_requests.emplace`: an id that is in use keeps its promise.
unfoldable pub emplace : ℕ → List ℕ → List ℕ
unfolding extract
emplace id pending = elim (extract id pending) [ none ↦ id ∷ pending | some _ ↦ pending ]

-- The fields of `Client` that its requests use.
pub record Client : Type 0 where
  pub counter : ℕ
  pub pending : List ℕ
  pub running : Bool

-- What `send_req` does until it waits for its promise: it returns an error, or a message has gone out.
pub data Sending : Type 0 where
  refused : (errc : ℕ) → Sending
  sent : (id : ℕ) (message : List ℕ) → Sending

-- `Errc::not_connected`
abbrev pub enotconn : ℕ
enotconn = 107

-- `m_channel.async_send`, which is boost's: `none` where the channel takes the message, or what
-- `to_generic_err` makes of its error. Then the counter has moved and there is no promise.
unfoldable pub send_req : Endian → Option ℕ → Request → Client → Client × Sending
unfolding emplace
send_req host failure r c =
    let id = (c.counter + 1) % 2 ^ 32 in
    if c.running
    then elim failure [
      | some errc ↦ (record c { counter = id }, refused errc)
      | none ↦ (
        record c { counter = id; pending = emplace id c.pending },
        sent id (request_message host id r),
      )
    ]
    else (c, refused enotconn)

-- One round of `receive`: it returns `not_connected`, goes on with what it has completed, or reads
-- past the end of a buffer.
pub data Round : Type 0 where
  stop : Round
  next : List Completion → List ℕ → List ℕ → Round
  fault : Round

-- The payload has been read: parse it, and set the promise.
unfoldable pub on_payload : ℕ → Outcome Response → List ℕ → List ℕ → Round
on_payload id (ok r) pending rest = next (record { id = id; result = value r } ∷ []) pending rest
on_payload id nullopt pending rest =
    next (record { id = id; result = bad_message } ∷ []) pending rest
on_payload id undefined pending rest = fault

module _ (host : Endian) where
  -- The promise has been extracted. A failure has no payload; where the payload does not arrive, the
  -- promise is destroyed.
  unfoldable pub on_promise : ℕ → Procedure → ℕ → ℕ → List ℕ → List ℕ → Round
  unfolding on_payload
  on_promise id procedure status size pending stream =
      if status == 0
      then elim (read_exact size stream) [
        | none ↦ next (record { id = id; result = dropped } ∷ []) pending []
        | some (buffer, rest) ↦ on_payload id (parse_response host buffer procedure) pending rest
      ]
      else next (record { id = id; result = remote status } ∷ []) pending stream

  unfoldable pub on_header : ResponseHeader → Option Procedure → List ℕ → List ℕ → Round
  unfolding on_promise
  on_header header none pending stream = next [] pending (skip header.size stream)
  on_header header (some procedure) pending stream = elim (extract header.id pending) [
    | none ↦ next [] pending (skip header.size stream)
    | some left ↦ on_promise header.id procedure header.status header.size left stream
  ]

  -- `value()` throws on a field that is not there.
  unfoldable pub with_header : Outcome ResponseHeader → List ℕ → List ℕ → Round
  unfolding on_header
  with_header (ok header) pending rest = on_header header header.procedure pending rest
  with_header nullopt pending rest = fault
  with_header undefined pending rest = fault

  unfoldable pub receive_round : List ℕ → List ℕ → Round
  unfolding with_header
  receive_round pending stream = elim (read_exact response_header_len stream) [
    | none ↦ stop
    | some (header, rest) ↦ with_header (run (read_response_header host) header) pending rest
  ]

pub data End : Type 0 where
  disconnected faulted out_of_fuel : End

pub record Run : Type 0 where
  pub completed : List Completion
  pub pending : List ℕ
  pub end : End

abbrev pub more : List Completion → Run → Run
more done r = record r { completed = done ++ r.completed }

abbrev pub ended : List ℕ → End → Run
ended pending end = record { completed = []; pending = pending; end = end }

module _ (host : Endian) where
  -- `receive`, with fuel for the rounds.
  unfoldable pub receive : ℕ → List ℕ → List ℕ → Run
  receive zero pending stream = ended pending out_of_fuel
  receive (suc fuel) pending stream = elim (receive_round host pending stream) [
    | stop ↦ ended pending disconnected
    | next done left rest ↦ more done (receive fuel left rest)
    | fault ↦ ended pending faulted
  ]

-- The handler of `start`, when `receive` has returned: every promise that is left fails.
unfoldable pub settle : Run → List Completion
settle r = r.completed ++ map (λ id. record { id = id; result = not_connected }) r.pending
