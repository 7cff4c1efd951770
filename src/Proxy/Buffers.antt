-- ===== src/Proxy/Buffers.antt =====
-- What `ServerConnection::read` does to the buffer.
use adbfsm.Prelude.{ℕ, ◌+◌, ◌≡◌, ap, ℤ, List, length, length-take, take, drop, min, ◌++◌, arith}
use adbfsm.FilePath.{FilePath, fullpath}
use adbfsm.Rpc.Request.{Request}
use adbfsm.Rpc.Response.{Response}
use adbfsm.Cache.State.{ok}
use adbfsm.Cache.Page.{overwrite}
use adbfsm.Proxy.{Link, Proxy, send, send_req}
use adbfsm.Proxy.Calls.{read, copied}

module _ {L : Link} where
  -- Whatever bytes the server answers a read with, more or fewer than were asked for: the count is their
  -- number or the size of the buffer, if that is less, that many of them stand at the front of the buffer,
  -- and the rest of the buffer is as it was.
  pub read_lem :
      (path : FilePath) (out : List ℕ) (offset : ℤ) (p p' : Proxy L) (bytes : List ℕ)
      → send (Request.read (fullpath path) offset (length out)) p ≡ (ok (Response.read bytes), p')
      → read path out offset p ≡ (
        ok (
          min (length bytes) (length out),
          take (min (length bytes) (length out)) bytes
              ++ drop (min (length bytes) (length out)) out,
        ),
        p',
      )
  unfolding read send_req copied overwrite
  read_lem path out offset p p' bytes answered =
      let n = min (length bytes) (length out) in
      let all : 0 + length (take n bytes) ≡ n = omega (arith, length-take n bytes) in
      rw answered (ap (λ k. (ok (n, take n bytes ++ drop k out), p')) all)
