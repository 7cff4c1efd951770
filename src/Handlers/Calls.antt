-- ===== src/Handlers/Calls.antt =====
-- `RequestHandler::handle_req` for each request, and what `Server::run` gives to the rpc server.
use adbfsm.Prelude.{
  ℕ, zero, suc, ◌+◌, ℤ, ◌||◌, Option, none, some, List, [], ◌∷◌, text_eq, if◌then◌else◌,
}
use adbfsm.Split.{Text}
use adbfsm.FilePath.{dot, dot_dot}
use adbfsm.Rpc.Request.{Request, Timespec}
use adbfsm.Rpc.Response.{Response, Stat}
use adbfsm.Rpc.Frame.{Reply, status, response}
use adbfsm.Handlers.{
  System, Step, done, failed, unfinished, Run, ◌>>=◌, ◌>>◌, pure, run_out, call, try, deferred,
  check,
}

-- `PATH_MAX`, and the size of the buffer of `copy_file_range`.
abbrev pub path_max : ℕ
path_max = 4096

abbrev pub copy_size : ℕ
copy_size = 262144

abbrev append_entry : List (Text × Stat) → List (Text × Stat) → List (Text × Stat)
append_entry [] rest = rest
append_entry (e ∷ es) rest = e ∷ append_entry es rest

module _ (S : System) where
  -- The entry of a name; a file whose stat fails is left out.
  unfoldable pub entry_of : ℕ → Text → Run S.State (List (Text × Stat))
  entry_of dir name =
      if text_eq name dot || text_eq name dot_dot
      then pure []
      else (try (λ s. S.fstatat s dir name) >>= λ found. elim found [
        | none ↦ pure []
        | some stat ↦ pure ((name, stat) ∷ [])
      ])

  -- The loop over `readdir`, with fuel for its rounds.
  unfoldable pub list_entries : ℕ → ℕ → Run S.State (List (Text × Stat))
  unfolding entry_of
  list_entries zero dir = run_out
  list_entries (suc fuel) dir = try (λ s. S.readdir s dir) >>= λ next. elim next [
    | none ↦ pure []
    | some name ↦ do
      found ← entry_of dir name
      rest ← list_entries fuel dir
      pure (append_entry found rest)
  ]

  unfoldable pub listdir : ℕ → Text → Run S.State Response
  unfolding list_entries
  listdir fuel path = call S (λ s. S.opendir s path) >>= λ dir.
      deferred (λ s. S.closedir s dir)
        (list_entries fuel dir >>= λ entries. pure (Response.listdir entries))

  unfoldable pub stat : Text → Run S.State Response
  stat path = call S (λ s. S.lstat s path) >>= λ found. pure (Response.stat found)

  unfoldable pub readlink : Text → Run S.State Response
  readlink path =
      call S (λ s. S.readlink s path path_max) >>= λ target. pure (Response.readlink target)

  unfoldable pub mknod : Text → ℕ → ℕ → Run S.State Response
  mknod path mode dev = check S (λ s. S.mknod s path mode dev) >> pure Response.mknod

  unfoldable pub mkdir : Text → ℕ → Run S.State Response
  mkdir path mode = check S (λ s. S.mkdir s path mode) >> pure Response.mkdir

  unfoldable pub unlink : Text → Run S.State Response
  unlink path = check S (λ s. S.unlink s path) >> pure Response.unlink

  unfoldable pub rmdir : Text → Run S.State Response
  rmdir path = check S (λ s. S.rmdir s path) >> pure Response.rmdir

  unfoldable pub rename : Text → Text → ℕ → Run S.State Response
  rename from to flags = check S (λ s. S.renameat2 s from to flags) >> pure Response.rename

  unfoldable pub truncate : Text → ℤ → Run S.State Response
  truncate path size = check S (λ s. S.truncate s path size) >> pure Response.truncate

  unfoldable pub read : Text → ℤ → ℕ → Run S.State Response
  read path offset size = call S (λ s. S.open_read s path) >>= λ fd.
      deferred (λ s. S.close s fd)
        (do
          _ ← check S (λ s. S.seek s fd offset)
          bytes ← call S (λ s. S.read s fd size)
          pure (Response.read bytes))

  unfoldable pub write : Text → ℤ → List ℕ → Run S.State Response
  write path offset bytes = call S (λ s. S.open_write s path) >>= λ fd.
      deferred (λ s. S.close s fd)
        (do
          _ ← check S (λ s. S.seek s fd offset)
          count ← call S (λ s. S.write s fd bytes)
          pure (Response.write count))

  -- The loop of `copy_file_range`, with fuel for its rounds: how much has been written.
  unfoldable pub copy_loop : ℕ → ℕ → ℕ → ℕ → Run S.State ℕ
  copy_loop zero in_fd out_fd copied = run_out
  copy_loop (suc fuel) in_fd out_fd copied = call S (λ s. S.read s in_fd copy_size) >>= λ bytes.
      elim bytes [
        | [] ↦ pure copied
        | b ∷ bs ↦ call S (λ s. S.write s out_fd (b ∷ bs)) >>= λ count.
            copy_loop fuel in_fd out_fd (copied + count)
      ]

  -- The size of the request is not used.
  unfoldable pub copy_file_range : ℕ → Text → ℤ → Text → ℤ → ℕ → Run S.State Response
  unfolding copy_loop
  copy_file_range fuel from from_offset to to_offset size =
      call S (λ s. S.open_read s from) >>= λ in_fd.
      deferred (λ s. S.close s in_fd)
        (check S (λ s. S.seek s in_fd from_offset)
          >> (call S (λ s. S.open_write s to) >>= λ out_fd.
              deferred (λ s. S.close s out_fd)
                (do
                  _ ← check S (λ s. S.seek s out_fd to_offset)
                  copied ← copy_loop fuel in_fd out_fd 0
                  pure (Response.copy_file_range copied))))

  unfoldable pub utimens : Text → Timespec → Timespec → Run S.State Response
  utimens path atime mtime = check S (λ s. S.utimensat s path atime mtime) >> pure Response.utimens

  -- The overload that the handler of `Server::run` visits a request with.
  unfoldable pub handle : ℕ → Request → Run S.State Response
  unfolding listdir stat readlink mknod mkdir unlink rmdir rename truncate read write utimens
      copy_file_range
  handle fuel (Request.listdir path) = listdir fuel path
  handle fuel (Request.stat path) = stat path
  handle fuel (Request.readlink path) = readlink path
  handle fuel (Request.mknod path mode dev) = mknod path mode dev
  handle fuel (Request.mkdir path mode) = mkdir path mode
  handle fuel (Request.unlink path) = unlink path
  handle fuel (Request.rmdir path) = rmdir path
  handle fuel (Request.rename from to flags) = rename from to flags
  handle fuel (Request.truncate path size) = truncate path size
  handle fuel (Request.read path offset size) = read path offset size
  handle fuel (Request.write path offset bytes) = write path offset bytes
  handle fuel (Request.utimens path atime mtime) = utimens path atime mtime
  handle fuel (Request.copy_file_range from from_offset to to_offset size) =
      copy_file_range fuel from from_offset to to_offset size

-- `Var<Status, Response>`, if the handler has ended.
unfoldable pub reply_of : Step Response → Option Reply
reply_of (done r) = some (response r)
reply_of (failed e) = some (status e)
reply_of unfinished = none
