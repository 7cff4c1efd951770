-- ===== src/Rpc/Request.antt =====
-- The requests of the protocol: `namespace req` and `Request` of madbfs-common's rpc.hpp, the fields
-- that `Client::send_req` writes for each, and `parse_request` of rpc.cpp.
pub mod RoundTrip
use adbfsm.Prelude.{ℕ, ℤ, List}
use adbfsm.Rpc.Wire.{Endian}
use adbfsm.Rpc.Payload.{
  Str, Procedure, Reader, Outcome, Parser, ◌>>=◌, pure, write_int, write_i64, write_bytes,
  write_path, read_int, read_i64, read_bytes, read_path, run,
}

pub record Timespec : Type 0 where
  pub tv_sec : ℤ
  pub tv_nsec : ℤ

pub data Request : Type 0 where
  listdir : (path : Str) → Request
  stat : (path : Str) → Request
  readlink : (path : Str) → Request
  mknod : (path : Str) (mode dev : ℕ) → Request
  mkdir : (path : Str) (mode : ℕ) → Request
  unlink : (path : Str) → Request
  rmdir : (path : Str) → Request
  rename : (from to : Str) (flags : ℕ) → Request
  truncate : (path : Str) (size : ℤ) → Request
  read : (path : Str) (offset : ℤ) (size : ℕ) → Request
  write : (path : Str) (offset : ℤ) (bytes : List ℕ) → Request
  utimens : (path : Str) (atime mtime : Timespec) → Request
  copy_file_range :
      (in_path : Str) (in_offset : ℤ) (out_path : Str) (out_offset : ℤ) (size : ℕ) → Request

-- `Request::proc`: the index of the alternative.
unfoldable pub proc : Request → Procedure
proc (Request.listdir path) = Procedure.listdir
proc (Request.stat path) = Procedure.stat
proc (Request.readlink path) = Procedure.readlink
proc (Request.mknod path mode dev) = Procedure.mknod
proc (Request.mkdir path mode) = Procedure.mkdir
proc (Request.unlink path) = Procedure.unlink
proc (Request.rmdir path) = Procedure.rmdir
proc (Request.rename from to flags) = Procedure.rename
proc (Request.truncate path size) = Procedure.truncate
proc (Request.read path offset size) = Procedure.read
proc (Request.write path offset bytes) = Procedure.write
proc (Request.utimens path atime mtime) = Procedure.utimens
proc (Request.copy_file_range i io o oo size) = Procedure.copy_file_range

module _ (host : Endian) where
  -- The visitor of `send_req`: the fields, behind what the buffer holds.
  unfoldable pub write_fields : Request → List ℕ → List ℕ
  write_fields (Request.listdir path) buffer = write_path host path buffer
  write_fields (Request.stat path) buffer = write_path host path buffer
  write_fields (Request.readlink path) buffer = write_path host path buffer
  write_fields (Request.mknod path mode dev) buffer =
      write_int host 8 dev (write_int host 4 mode (write_path host path buffer))
  write_fields (Request.mkdir path mode) buffer =
      write_int host 4 mode (write_path host path buffer)
  write_fields (Request.unlink path) buffer = write_path host path buffer
  write_fields (Request.rmdir path) buffer = write_path host path buffer
  write_fields (Request.rename from to flags) buffer =
      write_int host 4 flags (write_path host to (write_path host from buffer))
  write_fields (Request.truncate path size) buffer =
      write_i64 host size (write_path host path buffer)
  write_fields (Request.read path offset size) buffer =
      write_int host 8 size (write_i64 host offset (write_path host path buffer))
  write_fields (Request.write path offset bytes) buffer =
      write_bytes host bytes (write_i64 host offset (write_path host path buffer))
  write_fields (Request.utimens path atime mtime) buffer = write_i64 host mtime.tv_nsec (
      write_i64 host mtime.tv_sec
        (write_i64 host atime.tv_nsec (write_i64 host atime.tv_sec (write_path host path buffer))))
  write_fields (Request.copy_file_range in_path in_offset out_path out_offset size) buffer =
      write_int host 8 size (
        write_i64 host out_offset
          (write_path host out_path (write_i64 host in_offset (write_path host in_path buffer))))

  -- `parse_request`, before the reader is dropped.
  unfoldable pub read_request : Procedure → Parser Request
  read_request Procedure.listdir = do path ← read_path host; pure (Request.listdir path)
  read_request Procedure.stat = do path ← read_path host; pure (Request.stat path)
  read_request Procedure.readlink = do path ← read_path host; pure (Request.readlink path)
  read_request Procedure.mknod = do
    path ← read_path host
    mode ← read_int host 4
    dev ← read_int host 8
    pure (Request.mknod path mode dev)
  read_request Procedure.mkdir = do
    path ← read_path host
    mode ← read_int host 4
    pure (Request.mkdir path mode)
  read_request Procedure.unlink = do path ← read_path host; pure (Request.unlink path)
  read_request Procedure.rmdir = do path ← read_path host; pure (Request.rmdir path)
  read_request Procedure.rename = do
    from ← read_path host
    to ← read_path host
    flags ← read_int host 4
    pure (Request.rename from to flags)
  read_request Procedure.truncate = do
    path ← read_path host
    size ← read_i64 host
    pure (Request.truncate path size)
  read_request Procedure.read = do
    path ← read_path host
    offset ← read_i64 host
    size ← read_int host 8
    pure (Request.read path offset size)
  read_request Procedure.write = do
    path ← read_path host
    offset ← read_i64 host
    bytes ← read_bytes host
    pure (Request.write path offset bytes)
  read_request Procedure.utimens = do
    path ← read_path host
    atime_sec ← read_i64 host
    atime_nsec ← read_i64 host
    mtime_sec ← read_i64 host
    mtime_nsec ← read_i64 host
    pure (
        Request.utimens path (record { tv_sec = atime_sec; tv_nsec = atime_nsec })
          (record { tv_sec = mtime_sec; tv_nsec = mtime_nsec }))
  read_request Procedure.copy_file_range = do
    in_path ← read_path host
    in_offset ← read_i64 host
    out_path ← read_path host
    out_offset ← read_i64 host
    size ← read_int host 8
    pure (Request.copy_file_range in_path in_offset out_path out_offset size)

unfoldable pub parse_request : Endian → List ℕ → Procedure → Outcome Request
unfolding run read_request
parse_request host buffer procedure = run (read_request host procedure) buffer
