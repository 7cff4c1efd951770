-- ===== src/Rpc/Request/RoundTrip.antt =====
-- A request that `send_req` writes is the request that `parse_request` returns.
use adbfsm.Prelude.{ℕ, ◌^◌, ◌<◌, ◌≡◌, ap, IsI64, bits_of, ℤ, List, [], ◌++◌, arith, length}
use adbfsm.Rpc.Wire.{Endian, to_net_bytes}
use adbfsm.Rpc.Payload.{Str, Parser, ◌>>=◌, ok, read_int, read_i64, read_path}
use adbfsm.Rpc.Payload.Fields.{path_field, bytes_field, field_laws}
use adbfsm.Rpc.Payload.Reads.{
  Yields, Yields-bind, Yields-int, Yields-i64, Yields-path, Yields-bytes, Yields-last, run-Yields,
}
use adbfsm.Rpc.Request.{Timespec, Request, proc, write_fields, read_request, parse_request}

-- The fields of a request on the wire, in order.
unfoldable pub payload : Endian → Request → List ℕ
payload h (Request.listdir path) = path_field h path
payload h (Request.stat path) = path_field h path
payload h (Request.readlink path) = path_field h path
payload h (Request.mknod path mode dev) =
    path_field h path ++ (to_net_bytes h 4 mode ++ to_net_bytes h 8 dev)
payload h (Request.mkdir path mode) = path_field h path ++ to_net_bytes h 4 mode
payload h (Request.unlink path) = path_field h path
payload h (Request.rmdir path) = path_field h path
payload h (Request.rename from to flags) =
    path_field h from ++ (path_field h to ++ to_net_bytes h 4 flags)
payload h (Request.truncate path size) = path_field h path ++ to_net_bytes h 8 (bits_of size)
payload h (Request.read path offset size) =
    path_field h path ++ (to_net_bytes h 8 (bits_of offset) ++ to_net_bytes h 8 size)
payload h (Request.write path offset bytes) =
    path_field h path ++ (to_net_bytes h 8 (bits_of offset) ++ bytes_field h bytes)
payload h (Request.utimens path atime mtime) =
    path_field h path
    ++ (to_net_bytes h 8 (bits_of atime.tv_sec)
        ++ (to_net_bytes h 8 (bits_of atime.tv_nsec)
            ++ (to_net_bytes h 8 (bits_of mtime.tv_sec)
                ++ to_net_bytes h 8 (bits_of mtime.tv_nsec))))
payload h (Request.copy_file_range in_path in_offset out_path out_offset size) =
    path_field h in_path
    ++ (to_net_bytes h 8 (bits_of in_offset)
        ++ (path_field h out_path
            ++ (to_net_bytes h 8 (bits_of out_offset) ++ to_net_bytes h 8 size)))

-- `send_req` appends exactly the payload.
pub write_fields_lem :
    (h : Endian) (r : Request) (buffer : List ℕ) → write_fields h r buffer ≡ buffer ++ payload h r
unfolding write_fields payload
write_fields_lem h (Request.listdir path) buffer = simp field_laws
write_fields_lem h _ buffer = simp field_laws

abbrev pub IsTimespec : Timespec → Type 0
IsTimespec t = IsI64 t.tv_sec × IsI64 t.tv_nsec

-- Each number fits in the type of its field.
abbrev pub InRange : Request → Type 0
InRange (Request.mknod path mode dev) = (mode < 2 ^ 32) × (dev < 2 ^ 64)
InRange (Request.mkdir path mode) = mode < 2 ^ 32
InRange (Request.rename from to flags) = flags < 2 ^ 32
InRange (Request.truncate path size) = IsI64 size
InRange (Request.read path offset size) = IsI64 offset × (size < 2 ^ 64)
InRange (Request.write path offset bytes) = IsI64 offset
InRange (Request.utimens path atime mtime) = IsTimespec atime × IsTimespec mtime
InRange (Request.copy_file_range in_path in_offset out_path out_offset size) =
    IsI64 in_offset × IsI64 out_offset × (size < 2 ^ 64)
InRange _ = Unit {0}

module _ (g h : Endian) where
  pub path_then :
      {B : Type 0} {more : List ℕ} {b : B} (path : Str) (f : Str → Parser B)
      → Yields (f path) more b
      → Yields (read_path g >>= f) (path_field h path ++ more) b
  path_then path f y = Yields-bind f (Yields-path g h path) y

  pub i64_then :
      {B : Type 0} {more : List ℕ} {b : B} (z : ℤ) (f : ℤ → Parser B)
      → IsI64 z
      → Yields (f z) more b
      → Yields (read_i64 g >>= f) (to_net_bytes h 8 (bits_of z) ++ more) b
  i64_then z f range y = Yields-bind f (Yields-i64 g h z range) y

  pub u32 : (v : ℕ) → v < 2 ^ 32 → Yields (read_int g 4) (to_net_bytes h 4 v) v
  u32 v fits = Yields-int g h 4 v (omega arith) (omega arith)

  pub u64 : (v : ℕ) → v < 2 ^ 64 → Yields (read_int g 8) (to_net_bytes h 8 v) v
  u64 v fits = Yields-int g h 8 v (omega arith) (omega arith)

  read_request-Yields : (r : Request) → InRange r → Yields (read_request g (proc r)) (payload h r) r
  unfolding read_request payload proc
  read_request-Yields (Request.listdir path) range = Yields-last _ (Yields-path g h path)
  read_request-Yields (Request.stat path) range = Yields-last _ (Yields-path g h path)
  read_request-Yields (Request.readlink path) range = Yields-last _ (Yields-path g h path)
  read_request-Yields (Request.mknod path mode dev) range =
      path_then path _ (Yields-bind _ (u32 mode range.0) (Yields-last _ (u64 dev range.1)))
  read_request-Yields (Request.mkdir path mode) range =
      path_then path _ (Yields-last _ (u32 mode range))
  read_request-Yields (Request.unlink path) range = Yields-last _ (Yields-path g h path)
  read_request-Yields (Request.rmdir path) range = Yields-last _ (Yields-path g h path)
  read_request-Yields (Request.rename from to flags) range =
      path_then from _ (path_then to _ (Yields-last _ (u32 flags range)))
  read_request-Yields (Request.truncate path size) range =
      path_then path _ (Yields-last _ (Yields-i64 g h size range))
  read_request-Yields (Request.read path offset size) range =
      path_then path _ (i64_then offset _ range.0 (Yields-last _ (u64 size range.1)))
  read_request-Yields (Request.write path offset bytes) range =
      path_then path _ (i64_then offset _ range (Yields-last _ (Yields-bytes g h bytes)))
  read_request-Yields (Request.utimens path atime mtime) range = path_then path _ (
      i64_then atime.tv_sec _ range.0.0 (
        i64_then atime.tv_nsec _ range.0.1 (
          i64_then mtime.tv_sec _ range.1.0
            (Yields-last _ (Yields-i64 g h mtime.tv_nsec range.1.1)))))
  read_request-Yields (Request.copy_file_range in_path in_offset out_path out_offset size) range =
      path_then in_path _ (
        i64_then in_offset _ range.0
          (path_then out_path _ (i64_then out_offset _ range.1 (Yields-last _ (u64 size range.2)))))

  -- The payload of a request is parsed into that request, whatever the byte orders of the two hosts.
  pub parse_request-payload :
      (r : Request)
      → InRange r
      → length (payload h r) < 2 ^ 64
      → parse_request g (payload h r) (proc r) ≡ ok r
  unfolding parse_request
  parse_request-payload r range small = run-Yields (read_request-Yields r range) small

-- The fields that `send_req` writes for a request are parsed by `parse_request` into that request,
-- whatever the byte orders of the two hosts, if each number fits in its field and the bytes can be
-- counted in 64 bits.
pub parse_request-write_fields :
    (g h : Endian) (r : Request)
    → InRange r
    → length (write_fields h r []) < 2 ^ 64
    → parse_request g (write_fields h r []) (proc r) ≡ ok r
parse_request-write_fields g h r range small =
    let e : write_fields h r [] ≡ payload h r = write_fields_lem h r [] in
    rw e (parse_request-payload g h r range (omega (arith, ap length e)))
