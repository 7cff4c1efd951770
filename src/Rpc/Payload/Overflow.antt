-- ===== src/Rpc/Payload/Overflow.antt =====
-- The guard of `read_bytes` on the size that a message claims, right and wrong.
use adbfsm.Prelude.{
  ℕ, ◌+◌, ◌-◌, ◌^◌, ◌≤◌, ◌<◌, ◌≡◌, ap, List, [], ◌++◌, arith, length, length-append, leb, ◌==◌,
  if◌then◌else◌, true, false, take, Bool-cases, inl, inr,
}
use adbfsm.Rpc.Wire.{Endian, to_net_bytes, length-to_net_bytes}
use adbfsm.Rpc.Payload.{
  ok, nullopt, undefined, ◌>>=◌, last_index, subspan, read_span, read_int, read_bytes, run, outcome,
}
use adbfsm.Rpc.Payload.Reads.{reader_at, drop-append, Yields-int}

-- Where the sum does not wrap, the guard compares the claimed size with the bytes that are left.
read_span_cases :
    (pre rest : List ℕ) (s : ℕ)
    → 1 < length pre
    → length pre + s ≤ 2 ^ 64
    → length pre + length rest < 2 ^ 64
    → outcome (read_span s s (reader_at pre rest))
      ≡ (if leb s (length rest) then ok (take s rest) else nullopt)
read_span_cases pre rest s pos fits small =
    let total : length (pre ++ rest) ≡ length pre + length rest = length-append pre rest in
    elim (Bool-cases (leb s (length rest))) [
      | inl e ↦
          let inside : leb (length (pre ++ rest)) (last_index (length pre) s) ≡ false =
            unfold last_index in ground (arith, total) in
          let far : (s == 2 ^ 64 - 1) ≡ false = ground arith in
          let within : leb (length pre + s) (length (pre ++ rest)) ≡ true = ground (arith, total) in
          rw e (unfold read_span subspan in rw (inside, far, within, drop-append pre rest))
      | inr e ↦
          let outside : leb (length (pre ++ rest)) (last_index (length pre) s) ≡ true =
            unfold last_index in ground (arith, total) in
          rw e (unfold read_span in rw outside)
    ]

-- Where it wraps, the guard passes and the bytes are not there.
read_span_wraps :
    (pre rest : List ℕ) (s : ℕ)
    → 2 ^ 64 < length pre + s
    → s < 2 ^ 64 - 1
    → length pre + length rest < 2 ^ 64
    → read_span s s (reader_at pre rest) ≡ undefined
read_span_wraps pre rest s wraps fits small =
    let total : length (pre ++ rest) ≡ length pre + length rest = length-append pre rest in
    let inside : leb (length (pre ++ rest)) (last_index (length pre) s) ≡ false =
      unfold last_index in ground (arith, total) in
    let far : (s == 2 ^ 64 - 1) ≡ false = ground arith in
    let beyond : leb (length pre + s) (length (pre ++ rest)) ≡ false = ground (arith, total) in
    unfold read_span subspan in rw (inside, far, beyond)

module _ (g h : Endian) where
  read_bytes-read_span :
      (s : ℕ) (rest : List ℕ)
      → s < 2 ^ 64
      → length rest + 8 < 2 ^ 64
      → run (read_bytes g) (to_net_bytes h 8 s ++ rest)
        ≡ outcome (read_span s s (reader_at (to_net_bytes h 8 s) rest))
  unfolding run
  read_bytes-read_span s rest fits small =
      let net : List ℕ = to_net_bytes h 8 s in
      let one : read_int g 8 (reader_at [] (net ++ rest)) ≡ ok (s, reader_at net rest) =
        (Yields-int g h 8 s (omega arith) (omega arith)).at [] rest
          (omega (arith, length-to_net_bytes h 8 s)) in
      let whole : read_bytes g (reader_at [] (net ++ rest)) ≡ read_span s s (reader_at net rest) =
        unfold read_bytes in rw (one, ◌>>=◌) in
      ap outcome whole

  -- `read_bytes` on a buffer that starts with the size `s` returns the next `s` bytes if the buffer
  -- has them and `nullopt` if it does not, for every claimed size of at most 2 ^ 64 - 8.
  pub read_bytes_cases :
      (s : ℕ) (rest : List ℕ)
      → s ≤ 2 ^ 64 - 8
      → length rest + 8 < 2 ^ 64
      → run (read_bytes g) (to_net_bytes h 8 s ++ rest)
        ≡ (if leb s (length rest) then ok (take s rest) else nullopt)
  read_bytes_cases s rest fits small = rw (read_bytes-read_span s rest (omega arith) small) (
      read_span_cases (to_net_bytes h 8 s) rest s (omega (arith, length-to_net_bytes h 8 s))
        (omega (arith, length-to_net_bytes h 8 s)) (omega (arith, length-to_net_bytes h 8 s)))

  -- For the six sizes above those but the greatest, the sum in the guard wraps: whatever follows,
  -- the guard passes and the read goes past the end of the buffer.
  pub read_bytes_wraps :
      (s : ℕ) (rest : List ℕ)
      → 2 ^ 64 - 8 < s
      → s < 2 ^ 64 - 1
      → length rest + 8 < 2 ^ 64
      → run (read_bytes g) (to_net_bytes h 8 s ++ rest) ≡ undefined
  read_bytes_wraps s rest big fits small = rw (
    read_bytes-read_span s rest (omega arith) small,
    read_span_wraps (to_net_bytes h 8 s) rest s (omega (arith, length-to_net_bytes h 8 s)) fits
        (omega (arith, length-to_net_bytes h 8 s)),
  )
