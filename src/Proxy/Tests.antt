-- ===== src/Proxy/Tests.antt =====
-- The proxy over a concrete client.
use adbfsm.Prelude.{ℕ, ◌+◌, ◌==◌, ◌≡◌, refl, true, if◌then◌else◌, pos, [], ◌∷◌}
use adbfsm.FilePath.{root, fullpath}
use adbfsm.Rpc.Request.{Request}
use adbfsm.Rpc.Response.{Response}
use adbfsm.Cache.State.{ok, err}
use adbfsm.Proxy.{Link, Proxy, send}
use adbfsm.Proxy.Calls.{read}
use adbfsm.Proxy.Buffers.{read_lem}

-- The state counts the clients that were made. The client 0 has lost its connection, and behind the
-- client 9 none can be made.
abbrev flaky : Link
flaky = record {
  State = ℕ;
  make_client = λ n. if n == 9 then (err 111, n) else (ok tt, n + 1);
  start = λ n. n;
  send_req = λ n request.
      if n == 0
      then (err 32, n)
      else if n == 9
      then (err 5, n)
      else (ok (Response.read (7 ∷ 8 ∷ 9 ∷ [])), n);
  release = λ n. n;
}

abbrev question : Request
question = Request.read (fullpath root) (pos 0) 2

abbrev dead : Proxy flaky
dead = record { connected = true; below = 0 }

abbrev alive : Proxy flaky
alive = record { connected = true; below = 1 }

-- Of three bytes, two fit.
read_lem_example : read root (0 ∷ 0 ∷ []) (pos 0) alive ≡ (ok (2, 7 ∷ 8 ∷ []), alive)
read_lem_example =
    read_lem root (0 ∷ 0 ∷ []) (pos 0) alive alive (7 ∷ 8 ∷ 9 ∷ []) (unfold send in refl)
