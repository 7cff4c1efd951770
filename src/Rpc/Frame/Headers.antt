-- ===== src/Rpc/Frame/Headers.antt =====
-- What the header readers return on the header of a message, and what `read_exact` takes.
use adbfsm.Prelude.{
  ℕ, ◌+◌, ◌^◌, ◌<◌, ◌≤◌, ◌≡◌, some, List, ◌++◌, arith, length, length-append, leb, true, subst,
  length-take, length-drop,
}
use adbfsm.Rpc.Wire.{Endian, to_net_bytes, length-to_net_bytes}
use adbfsm.Rpc.Payload.{ok, procedure_of, read_id, read_status, run}
use adbfsm.Rpc.Payload.Reads.{
  Yields, Yields-bind, Yields-last, Yields-int, run-Yields, take-append, drop-append,
}
use adbfsm.Rpc.Frame.{read_request_header, read_response_header, read_exact, skip}

module _ (g h : Endian) where
  pub run-read_request_header :
      (id code size : ℕ)
      → id < 2 ^ 32
      → code < 256
      → size < 2 ^ 64
      → run
          (read_request_header g)
          (to_net_bytes h 4 id ++ (to_net_bytes h 1 code ++ to_net_bytes h 8 size))
        ≡ ok (record { id = id; procedure = procedure_of code; size = size })
  run-read_request_header id code size i c s = run-Yields whole small
    where
      whole :
          Yields
            (read_request_header g)
            (to_net_bytes h 4 id ++ (to_net_bytes h 1 code ++ to_net_bytes h 8 size))
            (record { id = id; procedure = procedure_of code; size = size })
      whole =
          unfold read_request_header read_id in
          Yields-bind _ (Yields-int g h 4 id (omega arith) (omega arith)) (
            Yields-bind _ (Yields-int g h 1 code (omega arith) (omega arith))
              (Yields-last _ (Yields-int g h 8 size (omega arith) (omega arith))))

      small :
          length (to_net_bytes h 4 id ++ (to_net_bytes h 1 code ++ to_net_bytes h 8 size)) < 2 ^ 64
      small = omega (
        arith,
        length-append (to_net_bytes h 4 id) (to_net_bytes h 1 code ++ to_net_bytes h 8 size),
        length-append (to_net_bytes h 1 code) (to_net_bytes h 8 size),
        length-to_net_bytes h 4 id,
        length-to_net_bytes h 1 code,
        length-to_net_bytes h 8 size,
      )

  pub run-read_response_header :
      (id code st size : ℕ)
      → id < 2 ^ 32
      → code < 256
      → st < 256
      → size < 2 ^ 64
      → run (read_response_header g) (
          to_net_bytes h 4 id
          ++ (to_net_bytes h 1 code ++ (to_net_bytes h 1 st ++ to_net_bytes h 8 size)))
        ≡ ok (record { id = id; procedure = procedure_of code; status = st; size = size })
  run-read_response_header id code st size i c t s = run-Yields whole small
    where
      whole :
          Yields
            (read_response_header g)
            (to_net_bytes h 4 id
              ++ (to_net_bytes h 1 code ++ (to_net_bytes h 1 st ++ to_net_bytes h 8 size)))
            (record { id = id; procedure = procedure_of code; status = st; size = size })
      whole =
          unfold read_response_header read_id read_status in
          Yields-bind _ (Yields-int g h 4 id (omega arith) (omega arith)) (
            Yields-bind _ (Yields-int g h 1 code (omega arith) (omega arith)) (
              Yields-bind _ (Yields-int g h 1 st (omega arith) (omega arith))
                (Yields-last _ (Yields-int g h 8 size (omega arith) (omega arith)))))

      small :
          length (
            to_net_bytes h 4 id
            ++ (to_net_bytes h 1 code ++ (to_net_bytes h 1 st ++ to_net_bytes h 8 size)))
          < 2 ^ 64
      small = omega (
        arith,
        length-append (to_net_bytes h 4 id)
            (to_net_bytes h 1 code ++ (to_net_bytes h 1 st ++ to_net_bytes h 8 size)),
        length-append (to_net_bytes h 1 code) (to_net_bytes h 1 st ++ to_net_bytes h 8 size),
        length-append (to_net_bytes h 1 st) (to_net_bytes h 8 size),
        length-to_net_bytes h 4 id,
        length-to_net_bytes h 1 code,
        length-to_net_bytes h 1 st,
        length-to_net_bytes h 8 size,
      )

pub read_exact-append :
    (n : ℕ) (bytes rest : List ℕ)
    → length bytes ≡ n
    → read_exact n (bytes ++ rest) ≡ some (bytes, rest)
read_exact-append n bytes rest e =
    subst (λ k. read_exact k (bytes ++ rest) ≡ some (bytes, rest)) e taken
  where
    enough : leb (length bytes) (length (bytes ++ rest)) ≡ true
    enough =
        let l : length (bytes ++ rest) ≡ length bytes + length rest = length-append bytes rest in
        ground arith

    taken : read_exact (length bytes) (bytes ++ rest) ≡ some (bytes, rest)
    taken = unfold read_exact in rw (enough, take-append bytes rest, drop-append bytes rest)

pub skip-append : (n : ℕ) (bytes rest : List ℕ) → length bytes ≡ n → skip n (bytes ++ rest) ≡ rest
unfolding skip
skip-append n bytes rest e = rw (read_exact-append n bytes rest e, skip)

-- A read leaves a shorter stream behind it.
pub read_exact-shorter :
    (n : ℕ) (stream bytes rest : List ℕ)
    → read_exact n stream ≡ some (bytes, rest)
    → (length bytes ≡ n) × (length rest + n ≡ length stream)
unfolding read_exact
read_exact-shorter n stream bytes rest e =
    ground (arith, length-take n stream, length-drop n stream)

pub length-skip : (n : ℕ) (stream : List ℕ) → length (skip n stream) ≤ length stream
unfolding skip read_exact
length-skip n stream = ground (arith, length-drop n stream)
