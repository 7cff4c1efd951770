-- ===== src/Proxy/Calls.antt =====
-- The operations of `ServerConnection` (madbfs/src/connection/server_connection.cpp).
use adbfsm.Prelude.{ℕ, ℤ, Option, none, some, List, [], ◌∷◌, length, take, min}
use adbfsm.Split.{Text}
use adbfsm.FilePath.{FilePath, fullpath, parent_path}
use adbfsm.FilePath.Resolve.{resolve}
use adbfsm.Rpc.Request.{Request, Timespec}
use adbfsm.Rpc.Response
use adbfsm.Rpc.Response.{Response}
use adbfsm.Cache.State.{Expect, ok, err}
use adbfsm.Cache.Page.{overwrite}
use adbfsm.Tree.Data.{Attributes}
use adbfsm.Proxy.{Link, Proxy, send_req}

-- `rpc::ToResp` of each request: the response, if it is of the request's procedure.
abbrev pub to_listdir : Response → Option (List (Text × Response.Stat))
to_listdir v = elim v [ Response.listdir entries ↦ some entries | _ ↦ none ]

abbrev pub to_stat : Response → Option Response.Stat
to_stat v = elim v [ Response.stat s ↦ some s | _ ↦ none ]

abbrev pub to_readlink : Response → Option Text
to_readlink v = elim v [ Response.readlink target ↦ some target | _ ↦ none ]

abbrev pub to_mknod : Response → Option (Unit {0})
to_mknod v = elim v [ Response.mknod ↦ some tt | _ ↦ none ]

abbrev pub to_mkdir : Response → Option (Unit {0})
to_mkdir v = elim v [ Response.mkdir ↦ some tt | _ ↦ none ]

abbrev pub to_unlink : Response → Option (Unit {0})
to_unlink v = elim v [ Response.unlink ↦ some tt | _ ↦ none ]

abbrev pub to_rmdir : Response → Option (Unit {0})
to_rmdir v = elim v [ Response.rmdir ↦ some tt | _ ↦ none ]

abbrev pub to_rename : Response → Option (Unit {0})
to_rename v = elim v [ Response.rename ↦ some tt | _ ↦ none ]

abbrev pub to_truncate : Response → Option (Unit {0})
to_truncate v = elim v [ Response.truncate ↦ some tt | _ ↦ none ]

abbrev pub to_read : Response → Option (List ℕ)
to_read v = elim v [ Response.read bytes ↦ some bytes | _ ↦ none ]

abbrev pub to_write : Response → Option ℕ
to_write v = elim v [ Response.write size ↦ some size | _ ↦ none ]

abbrev pub to_utimens : Response → Option (Unit {0})
to_utimens v = elim v [ Response.utimens ↦ some tt | _ ↦ none ]

abbrev pub to_copy_file_range : Response → Option ℕ
to_copy_file_range v = elim v [ Response.copy_file_range size ↦ some size | _ ↦ none ]

unfoldable pub attributes_of : Response.Stat → Attributes
attributes_of s = record {
  links = s.links;
  size = s.size;
  mtime = s.mtime;
  atime = s.atime;
  ctime = s.ctime;
  mode = s.mode;
  uid = s.uid;
  gid = s.gid;
}

unfoldable pub parsed_stats : List (Text × Response.Stat) → List (Attributes × Text)
unfolding attributes_of
parsed_stats [] = []
parsed_stats ((name, s) ∷ entries) = (attributes_of s, name) ∷ parsed_stats entries

-- `transform` of a result.
abbrev pub transform : {A B P : Type 0} → (A → B) → Expect A × P → Expect B × P
transform f (ok a, p) = (ok (f a), p)
transform f (err e, p) = (err e, p)

-- The bytes that `read` copies to the front of the buffer, and how many.
unfoldable pub copied : List ℕ → List ℕ → ℕ × List ℕ
copied out bytes =
    let size = min (length bytes) (length out) in (size, overwrite 0 (take size bytes) out)

module _ {L : Link} where
  unfoldable pub statdir : FilePath → Proxy L → Expect (List (Attributes × Text)) × Proxy L
  unfolding send_req parsed_stats fullpath
  statdir path p = transform parsed_stats (send_req to_listdir (Request.listdir (fullpath path)) p)

  unfoldable pub stat : FilePath → Proxy L → Expect Attributes × Proxy L
  unfolding send_req attributes_of fullpath
  stat path p = transform attributes_of (send_req to_stat (Request.stat (fullpath path)) p)

  -- `none` inside the result is where `resolve` is undefined.
  unfoldable pub readlink : FilePath → Proxy L → Expect (Option FilePath) × Proxy L
  unfolding send_req resolve parent_path fullpath
  readlink path p =
      transform (resolve (parent_path path))
        (send_req to_readlink (Request.readlink (fullpath path)) p)

  unfoldable pub mknod : FilePath → ℕ → ℕ → Proxy L → Expect (Unit {0}) × Proxy L
  unfolding send_req fullpath
  mknod path mode dev = send_req to_mknod (Request.mknod (fullpath path) mode dev)

  unfoldable pub mkdir : FilePath → ℕ → Proxy L → Expect (Unit {0}) × Proxy L
  unfolding send_req fullpath
  mkdir path mode = send_req to_mkdir (Request.mkdir (fullpath path) mode)

  unfoldable pub unlink : FilePath → Proxy L → Expect (Unit {0}) × Proxy L
  unfolding send_req fullpath
  unlink path = send_req to_unlink (Request.unlink (fullpath path))

  unfoldable pub rmdir : FilePath → Proxy L → Expect (Unit {0}) × Proxy L
  unfolding send_req fullpath
  rmdir path = send_req to_rmdir (Request.rmdir (fullpath path))

  unfoldable pub rename : FilePath → FilePath → ℕ → Proxy L → Expect (Unit {0}) × Proxy L
  unfolding send_req fullpath
  rename from to flags = send_req to_rename (Request.rename (fullpath from) (fullpath to) flags)

  unfoldable pub truncate : FilePath → ℤ → Proxy L → Expect (Unit {0}) × Proxy L
  unfolding send_req fullpath
  truncate path size = send_req to_truncate (Request.truncate (fullpath path) size)

  unfoldable pub read : FilePath → List ℕ → ℤ → Proxy L → Expect (ℕ × List ℕ) × Proxy L
  unfolding send_req copied fullpath
  read path out offset p =
      transform (copied out) (send_req to_read (Request.read (fullpath path) offset (length out)) p)

  unfoldable pub write : FilePath → List ℕ → ℤ → Proxy L → Expect ℕ × Proxy L
  unfolding send_req fullpath
  write path bytes offset = send_req to_write (Request.write (fullpath path) offset bytes)

  unfoldable pub utimens : FilePath → Timespec → Timespec → Proxy L → Expect (Unit {0}) × Proxy L
  unfolding send_req fullpath
  utimens path atime mtime = send_req to_utimens (Request.utimens (fullpath path) atime mtime)

  unfoldable pub copy_file_range : FilePath → ℤ → FilePath → ℤ → ℕ → Proxy L → Expect ℕ × Proxy L
  unfolding send_req fullpath
  copy_file_range from from_offset to to_offset size =
      send_req to_copy_file_range
        (Request.copy_file_range (fullpath from) from_offset (fullpath to) to_offset size)
