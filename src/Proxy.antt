-- ===== src/Proxy.antt =====
-- `ServerConnection` (madbfs/src/connection/server_connection.cpp and its header): the connection that
-- asks the server on the device. The rpc client below it is a parameter; a request that takes too long is
-- an error that the client returns.
pub mod Calls
mod Tests
pub mod Reconnects
pub mod Buffers
use adbfsm.Prelude.{ℕ, Bool, true, false, Option, none, some, ◌==◌, ◌||◌, if◌then◌else◌}
use adbfsm.Rpc.Request.{Request}
use adbfsm.Rpc.Response.{Response}
use adbfsm.Cache.State.{Expect, ok, err}

-- `make_client` with the connection and the handshake, `Client::start` if the client is not running,
-- `Client::send_req`, and the destructor of the client.
pub record Link : Type 1 where
  pub State : Type 0
  pub make_client : State → Expect Unit × State
  pub start : State → State
  pub send_req : State → Request → Expect Response × State
  pub release : State → State

-- `connected` is whether `m_client` is there.
pub record Proxy (L : Link) : Type 0 where
  pub connected : Bool
  pub below : L.State

abbrev pub not_connected : ℕ
not_connected = 107

abbrev pub broken_pipe : ℕ
broken_pipe = 32

abbrev pub bad_message : ℕ
bad_message = 74

unfoldable pub is_lost : ℕ → Bool
is_lost e = (e == not_connected) || (e == broken_pipe)

module _ {L : Link} where
  -- What `send` makes of the result of the client: a lost connection releases the client.
  abbrev pub settled : Expect Response × L.State → Expect Response × Proxy L
  settled (ok response, s) = (ok response, record { connected = true; below = s })
  settled (err e, s) = (
    err e,
    if is_lost e
        then record { connected = false; below = L.release s }
        else record { connected = true; below = s },
  )

  -- The part of `send` behind the connection.
  unfoldable pub send_below : L.State → Request → Expect Response × Proxy L
  unfolding is_lost
  send_below s request = settled (L.send_req (L.start s) request)

  -- The request, with the client that was made.
  abbrev pub with_client : Request → Expect Unit × L.State → Expect Response × Proxy L
  with_client request (ok done, s) = send_below s request
  with_client request (err e, s) = (err e, record { connected = false; below = s })

  -- `send` connects again if the client is gone.
  unfoldable pub send : Request → Proxy L → Expect Response × Proxy L
  unfolding send_below
  send request p =
      if p.connected
      then send_below p.below request
      else with_client request (L.make_client p.below)

  -- `send_req`: the alternative of the response that belongs to the request.
  unfoldable pub send_req :
      {A : Type 0} → (Response → Option A) → Request → Proxy L → Expect A × Proxy L
  unfolding send
  send_req pick request p =
      let (result, p') = send request p in
      (
        elim result [
          | err e ↦ err e
          | ok response ↦ elim (pick response) [ none ↦ err bad_message | some a ↦ ok a ]
        ],
        p',
      )
