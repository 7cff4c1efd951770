-- ===== src/Rpc/Response.antt =====
-- The responses of the protocol: `namespace resp` and `Response` of madbfs-common's rpc.hpp, the
-- fields that `Server::send_resp` writes for each, and `parse_response` of rpc.cpp.
pub mod RoundTrip
use adbfsm.Prelude.{ℕ, zero, suc, ℤ, List, [], ◌∷◌, length}
use adbfsm.Rpc.Wire.{Endian}
use adbfsm.Rpc.Payload.{
  Str, Procedure, Outcome, Parser, ◌>>=◌, pure, write_int, write_i64, write_bytes, write_path,
  read_int, read_i64, read_bytes, read_path, run,
}
use adbfsm.Rpc.Request.{Timespec}

pub record Stat : Type 0 where
  pub size : ℤ
  pub links : ℕ
  pub mtime : Timespec
  pub atime : Timespec
  pub ctime : Timespec
  pub mode : ℕ
  pub uid : ℕ
  pub gid : ℕ

pub data Response : Type 0 where
  listdir : (entries : List (Str × Stat)) → Response
  stat : Stat → Response
  readlink : (target : Str) → Response
  mknod mkdir unlink rmdir rename truncate : Response
  read : (bytes : List ℕ) → Response
  write : (size : ℕ) → Response
  utimens : Response
  copy_file_range : (size : ℕ) → Response

-- `Response::proc`: the index of the alternative.
unfoldable pub proc : Response → Procedure
proc (Response.listdir entries) = Procedure.listdir
proc (Response.stat s) = Procedure.stat
proc (Response.readlink target) = Procedure.readlink
proc Response.mknod = Procedure.mknod
proc Response.mkdir = Procedure.mkdir
proc Response.unlink = Procedure.unlink
proc Response.rmdir = Procedure.rmdir
proc Response.rename = Procedure.rename
proc Response.truncate = Procedure.truncate
proc (Response.read bytes) = Procedure.read
proc (Response.write size) = Procedure.write
proc Response.utimens = Procedure.utimens
proc (Response.copy_file_range size) = Procedure.copy_file_range

module _ (host : Endian) where
  unfoldable pub write_timespec : Timespec → List ℕ → List ℕ
  write_timespec t buffer = write_i64 host t.tv_nsec (write_i64 host t.tv_sec buffer)

  -- The fields of a stat, which `send_resp` writes for a stat and for each entry of a directory.
  unfoldable pub write_stat : Stat → List ℕ → List ℕ
  unfolding write_timespec
  write_stat s buffer = write_int host 4 s.gid (
      write_int host 4 s.uid (
        write_int host 4 s.mode (
          write_timespec s.ctime (
            write_timespec s.atime
              (write_timespec s.mtime (write_int host 8 s.links (write_i64 host s.size buffer)))))))

  unfoldable pub write_entries : List (Str × Stat) → List ℕ → List ℕ
  write_entries [] buffer = buffer
  write_entries ((name, s) ∷ rest) buffer =
      write_entries rest (write_stat s (write_path host name buffer))

  -- The visitor of `send_resp`: the fields, behind what the buffer holds.
  unfoldable pub write_fields : Response → List ℕ → List ℕ
  write_fields (Response.listdir entries) buffer =
      write_entries entries (write_int host 8 (length entries) buffer)
  write_fields (Response.stat s) buffer = write_stat s buffer
  write_fields (Response.readlink target) buffer = write_path host target buffer
  write_fields Response.mknod buffer = buffer
  write_fields Response.mkdir buffer = buffer
  write_fields Response.unlink buffer = buffer
  write_fields Response.rmdir buffer = buffer
  write_fields Response.rename buffer = buffer
  write_fields Response.truncate buffer = buffer
  write_fields (Response.read bytes) buffer = write_bytes host bytes buffer
  write_fields (Response.write size) buffer = write_int host 8 size buffer
  write_fields Response.utimens buffer = buffer
  write_fields (Response.copy_file_range size) buffer = write_int host 8 size buffer

  -- The fields of a stat, as `parse_response` reads them for a stat and for each entry.
  unfoldable pub read_stat : Parser Stat
  read_stat = do
    size ← read_i64 host
    links ← read_int host 8
    mtime_sec ← read_i64 host
    mtime_nsec ← read_i64 host
    atime_sec ← read_i64 host
    atime_nsec ← read_i64 host
    ctime_sec ← read_i64 host
    ctime_nsec ← read_i64 host
    mode ← read_int host 4
    uid ← read_int host 4
    gid ← read_int host 4
    pure (record {
      size = size;
      links = links;
      mtime = record { tv_sec = mtime_sec; tv_nsec = mtime_nsec };
      atime = record { tv_sec = atime_sec; tv_nsec = atime_nsec };
      ctime = record { tv_sec = ctime_sec; tv_nsec = ctime_nsec };
      mode = mode;
      uid = uid;
      gid = gid;
    })

  -- The loop over the entries of a directory.
  unfoldable pub read_entries : ℕ → Parser (List (Str × Stat))
  read_entries zero = pure []
  read_entries (suc n) = do
    path ← read_path host
    s ← read_stat
    rest ← read_entries n
    pure ((path, s) ∷ rest)

  unfoldable pub read_response : Procedure → Parser Response
  read_response Procedure.listdir = do
    size ← read_int host 8
    entries ← read_entries size
    pure (Response.listdir entries)
  read_response Procedure.stat = do s ← read_stat; pure (Response.stat s)
  read_response Procedure.readlink = do target ← read_path host; pure (Response.readlink target)
  read_response Procedure.mknod = pure Response.mknod
  read_response Procedure.mkdir = pure Response.mkdir
  read_response Procedure.unlink = pure Response.unlink
  read_response Procedure.rmdir = pure Response.rmdir
  read_response Procedure.rename = pure Response.rename
  read_response Procedure.truncate = pure Response.truncate
  read_response Procedure.read = do bytes ← read_bytes host; pure (Response.read bytes)
  read_response Procedure.write = do size ← read_int host 8; pure (Response.write size)
  read_response Procedure.utimens = pure Response.utimens
  read_response Procedure.copy_file_range = do
    size ← read_int host 8
    pure (Response.copy_file_range size)

unfoldable pub parse_response : Endian → List ℕ → Procedure → Outcome Response
unfolding run read_response
parse_response host buffer procedure = run (read_response host procedure) buffer
