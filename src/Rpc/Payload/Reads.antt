-- ===== src/Rpc/Payload/Reads.antt =====
-- What a field reader returns on a buffer that the builder wrote.
use native.Mathlib.Nat.{add-zero}
use adbfsm.Prelude.{
  ℕ, ◌+◌, ◌-◌, ◌%◌, ◌^◌, ◌≤◌, ◌<◌, ◌≡◌, refl, ap, subst, ℤ, IsI64, bits_of, int_of, int_of-bits_of,
  bits_of-lt, true, false, leb, ◌==◌, some, List, [], ◌∷◌, ◌++◌, append_assoc, append-nil, arith,
  length, length-append, take, drop,
}
use adbfsm.Rpc.Wire.{Endian, to_net_bytes, length-to_net_bytes, from_net_bytes-to_net_bytes}
use adbfsm.Rpc.Payload.{
  Str, Procedure, procedure_code, procedure_of, Reader, ok, Parser, ◌>>=◌, pure, lift_option,
  last_index, subspan, read_int, read_i64, read_procedure, read_span, read_bytes, read_path,
  outcome, run,
}

module _ {ℓ} {A : Type ℓ} where
  pub drop-append : (xs ys : List A) → drop (length xs) (xs ++ ys) ≡ ys
  drop-append [] ys = refl
  drop-append (x ∷ xs) ys = drop-append xs ys

  pub take-append : (xs ys : List A) → take (length xs) (xs ++ ys) ≡ xs
  take-append [] ys = refl
  take-append (x ∷ xs) ys = ap (◌∷◌ x) (take-append xs ys)

-- A reader that has `pre` behind it and `rest` before it.
abbrev pub reader_at : List ℕ → List ℕ → Reader
reader_at pre rest = record { index = length pre; buffer = pre ++ rest }

-- In a buffer that `usize` can index, `m` reads the bytes `bytes`, whatever surrounds them, and
-- returns `a`.
pub record Yields {A : Type 0} (m : Parser A) (bytes : List ℕ) (a : A) : Type 0 where
  pub at :
      (pre rest : List ℕ)
      → length pre + length bytes + length rest < 2 ^ 64
      → m (reader_at pre (bytes ++ rest)) ≡ ok (a, reader_at (pre ++ bytes) rest)

pub Yields-pure : {A : Type 0} (a : A) → Yields (pure a) [] a
Yields-pure a = record { at = λ pre rest fits. rw (append-nil pre) }

pub Yields-bind :
    {A B : Type 0} {m : Parser A} {bytes more : List ℕ} {a : A} {b : B} (f : A → Parser B)
    → Yields m bytes a
    → Yields (f a) more b
    → Yields (m >>= f) (bytes ++ more) b
Yields-bind {m = m} {bytes} {more} {a} {b} f ym yf = record {
  at = λ pre rest fits.
      let size : length (bytes ++ more) ≡ length bytes + length more = length-append bytes more in
      let one : m (reader_at pre (bytes ++ (more ++ rest)))
          ≡ ok (a, reader_at (pre ++ bytes) (more ++ rest)) =
        ym.at pre (more ++ rest) (omega (arith, length-append more rest)) in
      let two : f a (reader_at (pre ++ bytes) (more ++ rest))
          ≡ ok (b, reader_at (pre ++ bytes ++ more) rest) =
        yf.at (pre ++ bytes) rest (omega (arith, length-append pre bytes)) in
      rw (append_assoc bytes more rest, one, ◌>>=◌, two, append_assoc pre bytes more);
}

-- The last field of a message.
pub Yields-last :
    {A B : Type 0} {m : Parser A} {bytes : List ℕ} {a : A} (f : A → B)
    → Yields m bytes a
    → Yields (m >>= λ x. pure (f x)) bytes (f a)
Yields-last {m = m} {bytes} {a} f y =
    rw append-nil at (Yields-bind (λ x. pure (f x)) y (Yields-pure (f a)))

pub run-Yields :
    {A : Type 0} {m : Parser A} {bytes : List ℕ} {a : A}
    → Yields m bytes a
    → length bytes < 2 ^ 64
    → run m bytes ≡ ok a
unfolding run
run-Yields {m = m} {bytes} y small =
    rw (append-nil bytes) at (ap outcome (y.at [] [] (omega arith)))

-- The guard of the readers passes where the bytes are there.
in_bounds :
    (i n len : ℕ) → 0 < i + n → i + n ≤ len → len < 2 ^ 64 → leb len (last_index i n) ≡ false
unfolding last_index
in_bounds i n len pos inside small = ground arith

length_around :
    (pre bytes rest : List ℕ)
    → length (pre ++ (bytes ++ rest)) ≡ length pre + length bytes + length rest
length_around pre bytes rest =
    omega (arith, length-append pre (bytes ++ rest), length-append bytes rest)

take_at :
    (pre bytes rest : List ℕ)
    → take (length bytes) (drop (length pre) (pre ++ (bytes ++ rest))) ≡ bytes
take_at pre bytes rest = rw (drop-append pre (bytes ++ rest)) (take-append bytes rest)

module _ (g h : Endian) where
  pub Yields-int : (w v : ℕ) → 0 < w → v < 256 ^ w → Yields (read_int g w) (to_net_bytes h w v) v
  Yields-int w v pos fits = record {
    at = λ pre rest small.
        let bytes : List ℕ = to_net_bytes h w v in
        let e : length bytes ≡ w = length-to_net_bytes h w v in
        let t : take w (drop (length pre) (pre ++ (bytes ++ rest))) ≡ bytes =
          subst (λ n. take n (drop (length pre) (pre ++ (bytes ++ rest))) ≡ bytes) e
            (take_at pre bytes rest) in
        let inside : leb (length (pre ++ (bytes ++ rest))) (last_index (length pre) w) ≡ false =
          in_bounds (length pre) w _ (omega arith) (omega (arith, length_around pre bytes rest))
            (omega (arith, length_around pre bytes rest)) in
        let moved : length (pre ++ bytes) ≡ length pre + w =
          omega (arith, length-append pre bytes) in
        unfold read_int in
        rw
          (inside, t, from_net_bytes-to_net_bytes g h w v fits, moved, append_assoc pre bytes rest);
  }

  pub Yields-i64 : (z : ℤ) → IsI64 z → Yields (read_i64 g) (to_net_bytes h 8 (bits_of z)) z
  unfolding read_i64
  Yields-i64 z range =
      subst (λ bytes. Yields (read_i64 g) bytes z) (append-nil (to_net_bytes h 8 (bits_of z)))
        (Yields-bind (λ bits. pure (int_of bits))
          (Yields-int 8 (bits_of z) (omega arith) (bits_of-lt z))
          (rw (int_of-bits_of z range) (Yields-pure z)))

pub procedure_of-procedure_code : (p : Procedure) → procedure_of (procedure_code p) ≡ some p
unfolding procedure_of procedure_code
procedure_of-procedure_code Procedure.listdir = refl
procedure_of-procedure_code _ = refl

pub procedure_code-lt : (p : Procedure) → procedure_code p < 256
unfolding procedure_code
procedure_code-lt Procedure.listdir = omega arith
procedure_code-lt _ = omega arith

subspan_at :
    (pre bytes more rest : List ℕ)
    → 0 < length pre
    → length pre + length bytes + length more + length rest < 2 ^ 64
    → subspan (length pre) (length bytes) (pre ++ ((bytes ++ more) ++ rest)) ≡ some bytes
subspan_at pre bytes more rest pos small =
    let size : length (pre ++ (bytes ++ (more ++ rest)))
        ≡ length pre + length bytes + length (more ++ rest) =
      length_around pre bytes (more ++ rest) in
    let far : (length bytes == 2 ^ 64 - 1) ≡ false = ground arith in
    let inside : leb (length pre + length bytes) (length (pre ++ (bytes ++ (more ++ rest))))
        ≡ true =
      ground (arith, size) in
    rw (append_assoc bytes more rest)
      (unfold subspan in rw (far, inside, take_at pre bytes (more ++ rest)))

-- The bytes `bytes` are read where the index moves past `bytes ++ more`.
read_span_at :
    (pre bytes more rest : List ℕ)
    → 0 < length pre
    → length pre + length bytes + length more + length rest < 2 ^ 64
    → read_span
        (length bytes)
        (length bytes + length more)
        (reader_at pre ((bytes ++ more) ++ rest))
      ≡ ok (bytes, reader_at (pre ++ (bytes ++ more)) rest)
read_span_at pre bytes more rest pos small =
    let size : length (bytes ++ more) ≡ length bytes + length more = length-append bytes more in
    let whole : length (pre ++ ((bytes ++ more) ++ rest))
        ≡ length pre + length (bytes ++ more) + length rest =
      length_around pre (bytes ++ more) rest in
    let inside : leb (length (pre ++ ((bytes ++ more) ++ rest)))
          (last_index (length pre) (length bytes + length more))
        ≡ false =
      in_bounds (length pre) (length bytes + length more) _ (omega arith) (omega arith)
        (omega arith) in
    let moved : length (pre ++ (bytes ++ more)) ≡ length pre + (length bytes + length more) =
      omega (arith, length-append pre (bytes ++ more)) in
    unfold read_span in
    rw (
      inside,
      subspan_at pre bytes more rest pos small,
      moved,
      append_assoc pre (bytes ++ more) rest,
    )

module _ (g h : Endian) where
  pub Yields-procedure :
      (p : Procedure) → Yields (read_procedure g) (to_net_bytes h 1 (procedure_code p)) p
  unfolding read_procedure
  Yields-procedure p =
      subst (λ bytes. Yields (read_procedure g) bytes p)
        (append-nil (to_net_bytes h 1 (procedure_code p)))
        (Yields-bind (λ code. lift_option (procedure_of code))
          (Yields-int g h 1 (procedure_code p) (omega arith) (procedure_code-lt p))
          (rw (procedure_of-procedure_code p) (Yields-pure p)))

  pub Yields-bytes :
      (bytes : List ℕ) → Yields (read_bytes g) (to_net_bytes h 8 (length bytes) ++ bytes) bytes
  unfolding read_bytes
  Yields-bytes bytes = record {
    at = λ pre rest small.
        let net : List ℕ = to_net_bytes h 8 (length bytes) in
        let width : length net ≡ 8 = length-to_net_bytes h 8 (length bytes) in
        let total : length (net ++ bytes) ≡ length net + length bytes = length-append net bytes in
        let before : length (pre ++ net) ≡ length pre + length net = length-append pre net in
        let one : read_int g 8 (reader_at pre (net ++ (bytes ++ rest)))
            ≡ ok (length bytes, reader_at (pre ++ net) (bytes ++ rest)) =
          (Yields-int g h 8 (length bytes) (omega arith) (omega arith)).at pre (bytes ++ rest)
            (omega (arith, length-append bytes rest)) in
        let two : read_span (length bytes) (length bytes) (reader_at (pre ++ net) (bytes ++ rest))
            ≡ ok (bytes, reader_at (pre ++ net ++ bytes) rest) =
          rw (append-nil bytes, add-zero) at
            (read_span_at (pre ++ net) bytes [] rest (omega arith) (omega arith)) in
        rw (append_assoc net bytes rest, one, ◌>>=◌, two, append_assoc pre net bytes);
  }

  pub Yields-path :
      (path : Str)
      → Yields (read_path g) (to_net_bytes h 8 (length path + 1) ++ (path ++ 0 ∷ [])) path
  unfolding read_path
  Yields-path path = record {
    at = λ pre rest small.
        let net : List ℕ = to_net_bytes h 8 (length path + 1) in
        let text : List ℕ = path ++ 0 ∷ [] in
        let width : length net ≡ 8 = length-to_net_bytes h 8 (length path + 1) in
        let long : length text ≡ length path + 1 = omega (arith, length-append path (0 ∷ [])) in
        let total : length (net ++ text) ≡ length net + length text = length-append net text in
        let before : length (pre ++ net) ≡ length pre + length net = length-append pre net in
        let one : read_int g 8 (reader_at pre (net ++ (text ++ rest)))
            ≡ ok (length path + 1, reader_at (pre ++ net) (text ++ rest)) =
          (Yields-int g h 8 (length path + 1) (omega arith) (omega arith)).at pre (text ++ rest)
            (omega (arith, length-append text rest)) in
        let count : (length path + 1 + (2 ^ 64 - 1)) % 2 ^ 64 ≡ length path = omega arith in
        let two : read_span (length path) (length path + 1) (reader_at (pre ++ net) (text ++ rest))
            ≡ ok (path, reader_at (pre ++ net ++ text) rest) =
          read_span_at (pre ++ net) path (0 ∷ []) rest (omega arith) (omega arith) in
        rw (append_assoc net text rest, one, ◌>>=◌, count, two, append_assoc pre net text);
  }
