-- ===== src/Rpc/Response/RoundTrip.antt =====
-- A response that `send_resp` writes is the response that `parse_response` returns.
use adbfsm.Prelude.{
  ℕ, ◌^◌, ◌<◌, ◌≡◌, ap, sym, ◌∙◌, IsI64, bits_of, ℤ, List, [], ◌∷◌, ◌++◌, append-nil, arith, length,
}
use adbfsm.Rpc.Wire.{Endian, to_net_bytes}
use adbfsm.Rpc.Payload.{Str, ok}
use adbfsm.Rpc.Payload.Fields.{path_field, bytes_field, field_laws}
use adbfsm.Rpc.Payload.Reads.{
  Yields, Yields-pure, Yields-bind, Yields-path, Yields-bytes, Yields-last, run-Yields,
}
use adbfsm.Rpc.Request.RoundTrip.{IsTimespec, path_then, i64_then, u32, u64}
use adbfsm.Rpc.Response.{
  Stat, Response, proc, write_stat, write_entries, write_fields, read_stat, read_entries,
  read_response, parse_response,
}

abbrev i64_field : Endian → ℤ → List ℕ
i64_field h z = to_net_bytes h 8 (bits_of z)

unfoldable pub stat_field : Endian → Stat → List ℕ
stat_field h s =
    i64_field h s.size
    ++ (to_net_bytes h 8 s.links
        ++ (i64_field h s.mtime.tv_sec
            ++ (i64_field h s.mtime.tv_nsec
                ++ (i64_field h s.atime.tv_sec
                    ++ (i64_field h s.atime.tv_nsec
                        ++ (i64_field h s.ctime.tv_sec
                            ++ (i64_field h s.ctime.tv_nsec
                                ++ (to_net_bytes h 4 s.mode
                                    ++ (to_net_bytes h 4 s.uid ++ to_net_bytes h 4 s.gid)))))))))

unfoldable pub entries_field : Endian → List (Str × Stat) → List ℕ
entries_field h [] = []
entries_field h ((name, s) ∷ rest) = path_field h name ++ (stat_field h s ++ entries_field h rest)

-- The fields of a response on the wire, in order.
unfoldable pub payload : Endian → Response → List ℕ
payload h (Response.listdir entries) = to_net_bytes h 8 (length entries) ++ entries_field h entries
payload h (Response.stat s) = stat_field h s
payload h (Response.readlink target) = path_field h target
payload h (Response.read bytes) = bytes_field h bytes
payload h (Response.write size) = to_net_bytes h 8 size
payload h (Response.copy_file_range size) = to_net_bytes h 8 size
payload h _ = []

write_stat_lem :
    (h : Endian) (s : Stat) (buffer : List ℕ) → write_stat h s buffer ≡ buffer ++ stat_field h s
unfolding write_stat stat_field
write_stat_lem h s buffer = simp field_laws

write_entries_lem :
    (h : Endian) (entries : List (Str × Stat)) (buffer : List ℕ)
    → write_entries h entries buffer ≡ buffer ++ entries_field h entries
unfolding write_entries entries_field
write_entries_lem h [] buffer = simp append-nil
write_entries_lem h ((name, s) ∷ rest) buffer =
    write_entries_lem h rest _ ∙ simp (field_laws, write_stat_lem)

-- `send_resp` appends exactly the payload.
pub write_fields_lem :
    (h : Endian) (r : Response) (buffer : List ℕ) → write_fields h r buffer ≡ buffer ++ payload h r
unfolding write_fields payload
write_fields_lem h (Response.listdir entries) buffer = simp (write_entries_lem, field_laws)
write_fields_lem h (Response.stat s) buffer = write_stat_lem h s buffer
write_fields_lem h (Response.readlink target) buffer = simp field_laws
write_fields_lem h (Response.read bytes) buffer = simp field_laws
write_fields_lem h (Response.write size) buffer = simp field_laws
write_fields_lem h (Response.copy_file_range size) buffer = simp field_laws
write_fields_lem h _ buffer = sym (append-nil buffer)

pub record IsStat (s : Stat) : Type 0 where
  pub size : IsI64 s.size
  pub links : s.links < 2 ^ 64
  pub mtime : IsTimespec s.mtime
  pub atime : IsTimespec s.atime
  pub ctime : IsTimespec s.ctime
  pub mode : s.mode < 2 ^ 32
  pub uid : s.uid < 2 ^ 32
  pub gid : s.gid < 2 ^ 32

abbrev pub AreEntries : List (Str × Stat) → Type 0
AreEntries [] = Unit {0}
AreEntries ((name, s) ∷ rest) = IsStat s × AreEntries rest

-- Each number fits in the type of its field.
abbrev pub InRange : Response → Type 0
InRange (Response.listdir entries) = AreEntries entries × (length entries < 2 ^ 64)
InRange (Response.stat s) = IsStat s
InRange (Response.write size) = size < 2 ^ 64
InRange (Response.copy_file_range size) = size < 2 ^ 64
InRange _ = Unit {0}

module _ (g h : Endian) where
  read_stat-Yields : (s : Stat) → IsStat s → Yields (read_stat g) (stat_field h s) s
  unfolding read_stat stat_field
  read_stat-Yields s r = i64_then g h s.size _ r.size (
      Yields-bind _ (u64 g h s.links r.links) (
        i64_then g h s.mtime.tv_sec _ r.mtime.0 (
          i64_then g h s.mtime.tv_nsec _ r.mtime.1 (
            i64_then g h s.atime.tv_sec _ r.atime.0 (
              i64_then g h s.atime.tv_nsec _ r.atime.1 (
                i64_then g h s.ctime.tv_sec _ r.ctime.0 (
                  i64_then g h s.ctime.tv_nsec _ r.ctime.1 (
                    Yields-bind _ (u32 g h s.mode r.mode) (
                      Yields-bind _ (u32 g h s.uid r.uid)
                        (Yields-last _ (u32 g h s.gid r.gid)))))))))))

  read_entries-Yields :
      (entries : List (Str × Stat))
      → AreEntries entries
      → Yields (read_entries g (length entries)) (entries_field h entries) entries
  unfolding read_entries entries_field
  read_entries-Yields [] r = Yields-pure []
  read_entries-Yields ((name, s) ∷ rest) r =
      path_then g h name _
        (Yields-bind _ (read_stat-Yields s r.0) (Yields-last _ (read_entries-Yields rest r.1)))

  read_response-Yields :
      (r : Response) → InRange r → Yields (read_response g (proc r)) (payload h r) r
  unfolding read_response payload proc
  read_response-Yields (Response.listdir entries) range =
      Yields-bind _ (u64 g h (length entries) range.1)
        (Yields-last _ (read_entries-Yields entries range.0))
  read_response-Yields (Response.stat s) range = Yields-last _ (read_stat-Yields s range)
  read_response-Yields (Response.readlink target) range = Yields-last _ (Yields-path g h target)
  read_response-Yields (Response.read bytes) range = Yields-last _ (Yields-bytes g h bytes)
  read_response-Yields (Response.write size) range = Yields-last _ (u64 g h size range)
  read_response-Yields (Response.copy_file_range size) range = Yields-last _ (u64 g h size range)
  read_response-Yields _ range = Yields-pure _

  -- The payload of a response is parsed into that response, whatever the byte orders of the two hosts.
  pub parse_response-payload :
      (r : Response)
      → InRange r
      → length (payload h r) < 2 ^ 64
      → parse_response g (payload h r) (proc r) ≡ ok r
  unfolding parse_response
  parse_response-payload r range small = run-Yields (read_response-Yields r range) small

-- The fields that `send_resp` writes for a response are parsed by `parse_response` into that
-- response, whatever the byte orders of the two hosts, if each number fits in its field and the
-- bytes can be counted in 64 bits.
pub parse_response-write_fields :
    (g h : Endian) (r : Response)
    → InRange r
    → length (write_fields h r []) < 2 ^ 64
    → parse_response g (write_fields h r []) (proc r) ≡ ok r
parse_response-write_fields g h r range small =
    let e : write_fields h r [] ≡ payload h r = write_fields_lem h r [] in
    rw e (parse_response-payload g h r range (omega (arith, ap length e)))
