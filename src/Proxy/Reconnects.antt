-- ===== src/Proxy/Reconnects.antt =====
-- What `ServerConnection::send` does about a client that is gone.
use adbfsm.Prelude.{ℕ, ◌≡◌, refl, true, false}
use adbfsm.Rpc.Request.{Request}
use adbfsm.Rpc.Response.{Response}
use adbfsm.Cache.State.{ok, err}
use adbfsm.Proxy.{Link, send, send_below, is_lost}

module _ {L : Link} where
  -- A request on a connected proxy that fails because the connection is lost returns that error and
  -- releases the client. If a new client can be made, the next request is sent to it: its answer is
  -- returned, and the proxy is connected.
  pub send_reconnects :
      (first second : Request) (s s1 s2 s3 : L.State) (e : ℕ) (answer : Response)
      → L.send_req (L.start s) first ≡ (err e, s1)
      → is_lost e ≡ true
      → L.make_client (L.release s1) ≡ (ok tt, s2)
      → L.send_req (L.start s2) second ≡ (ok answer, s3)
      → (send {L = L} first (record { connected = true; below = s })
          ≡ (err e, record { connected = false; below = L.release s1 }))
        × (send {L = L} second (send {L = L} first (record { connected = true; below = s })).1
            ≡ (ok answer, record { connected = true; below = s3 }))
  unfolding send send_below
  send_reconnects first second s s1 s2 s3 e answer fails lost made answers =
      (rw (fails, lost) refl, rw (fails, lost, made, answers) refl)

  -- A request on a proxy without a client, for which none can be made, returns the error of the attempt,
  -- asks nobody, and leaves the proxy without a client; on a connected proxy, an error by which the
  -- connection is not lost is returned and the client stays.
  pub send_fails :
      (request : Request) (s s1 s2 : L.State) (refused e : ℕ)
      → L.make_client s ≡ (err refused, s1)
      → L.send_req (L.start s) request ≡ (err e, s2)
      → is_lost e ≡ false
      → (send {L = L} request (record { connected = false; below = s })
          ≡ (err refused, record { connected = false; below = s1 }))
        × (send {L = L} request (record { connected = true; below = s })
            ≡ (err e, record { connected = true; below = s2 }))
  unfolding send send_below
  send_fails request s s1 s2 refused e none_made fails stays =
      (rw none_made refl, rw (fails, stays) refl)
