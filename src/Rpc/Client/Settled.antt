-- ===== src/Rpc/Client/Settled.antt =====
-- Every promise is settled exactly once, whatever bytes the server sends.
use mathlib.Core.List.{Perm}
use mathlib.Core.List.Perm
use adbfsm.Prelude.{
  ℕ, zero, suc, ◌<◌, ◌≤◌, ◌≡◌, ◌≢◌, refl, Option, none, some, List, [], ◌∷◌, ◌++◌, map, arith,
  length, ◌==◌, ==_iff, Bool-cases, Option-cases, inl, inr,
}
use adbfsm.Rpc.Wire.{Endian}
use adbfsm.Rpc.Payload.{Procedure, Outcome, ok, nullopt, undefined, run}
use adbfsm.Rpc.Response.{Response, parse_response}
use adbfsm.Rpc.Frame.{ResponseHeader, read_response_header, read_exact}
use adbfsm.Rpc.Frame.Headers.{read_exact-shorter, length-skip}
use adbfsm.Rpc.Client.{
  Completion, extract, Round, stop, next, fault, on_payload, on_promise, on_header, with_header,
  receive_round, out_of_fuel, receive,
}

abbrev pub ids : List Completion → List ℕ
ids = map λ c. c.id

-- A round that goes on completes or keeps each of the promises `pending`, and leaves a stream of
-- fewer than `n` bytes.
abbrev Keeps : List ℕ → ℕ → Round → Type 0
Keeps pending n stop = Unit {0}
Keeps pending n (next done left rest) = Perm pending (ids done ++ left) × (length rest < n)
Keeps pending n fault = Unit {0}

extract-perm :
    (id : ℕ) (pending left : List ℕ) → extract id pending ≡ some left → Perm pending (id ∷ left)
unfolding extract
extract-perm id [] left e = cc
extract-perm id (other ∷ rest) left e = elim (Bool-cases (other == id)) [
  | inl hit ↦
      let tail : rest ≡ left = ground arith in
      Perm.cons' ((==_iff other id).0 hit) (rw tail (Perm.refl left))
  | inr miss ↦ elim (Option-cases (extract id rest)) [
    | inl gone ↦ absurd (ground arith)
    | inr (found, at) ↦
        let whole : left ≡ other ∷ found = ground arith in
        rw whole
          (Perm.trans (Perm.cons other (extract-perm id rest found at)) (Perm.swap id other found))
  ]
]

Keeps-perm :
    (pending other : List ℕ) (m n : ℕ) (r : Round)
    → Perm pending other
    → Keeps other m r
    → m ≤ n
    → Keeps pending n r
Keeps-perm pending other m n stop p k le = tt
Keeps-perm pending other m n (next done left rest) p k le = (Perm.trans p k.0, omega arith)
Keeps-perm pending other m n fault p k le = tt

module _ (g : Endian) where
  on_payload-Keeps :
      (id n : ℕ) (r : Outcome Response) (left rest : List ℕ)
      → length rest < n
      → Keeps (id ∷ left) n (on_payload id r left rest)
  unfolding on_payload
  on_payload-Keeps id n (ok r) left rest h = (Perm.refl _, h)
  on_payload-Keeps id n nullopt left rest h = (Perm.refl _, h)
  on_payload-Keeps id n undefined left rest h = tt

  on_promise-Keeps :
      (id : ℕ) (p : Procedure) (status size : ℕ) (left stream : List ℕ)
      → Keeps (id ∷ left) (suc (length stream)) (on_promise g id p status size left stream)
  unfolding on_promise
  on_promise-Keeps id p status size left stream = elim (Bool-cases (status == 0)) [
    | inr failed ↦ rw (failed, on_promise) (Perm.refl _, omega arith)
    | inl success ↦ elim (Option-cases (read_exact size stream)) [
      | inl e ↦ rw (success, e, on_promise) (Perm.refl _, omega arith)
      | inr ((buffer, rest), e) ↦
          rw (success, e, on_promise)
            (on_payload-Keeps id (suc (length stream)) (parse_response g buffer p) left rest
              (omega (arith, read_exact-shorter size stream buffer rest e)))
    ]
  ]

  on_header-Keeps :
      (header : ResponseHeader) (p : Option Procedure) (pending stream : List ℕ)
      → Keeps pending (suc (length stream)) (on_header g header p pending stream)
  unfolding on_header
  on_header-Keeps header none pending stream =
      (Perm.refl _, omega (arith, length-skip header.size stream))
  on_header-Keeps header (some p) pending stream = elim (Option-cases (extract header.id pending)) [
    | inl e ↦ rw (e, on_header) (Perm.refl _, omega (arith, length-skip header.size stream))
    | inr (left, e) ↦
        rw (e, on_header)
          (Keeps-perm pending (header.id ∷ left) (suc (length stream)) (suc (length stream)) _
            (extract-perm header.id pending left e)
            (on_promise-Keeps header.id p header.status header.size left stream) (omega arith))
  ]

  with_header-Keeps :
      (r : Outcome ResponseHeader) (pending stream : List ℕ)
      → Keeps pending (suc (length stream)) (with_header g r pending stream)
  unfolding with_header
  with_header-Keeps (ok header) pending stream =
      on_header-Keeps header header.procedure pending stream
  with_header-Keeps nullopt pending stream = tt
  with_header-Keeps undefined pending stream = tt

  receive_round-Keeps :
      (n : ℕ) (pending stream : List ℕ)
      → length stream ≤ n
      → Keeps pending n (receive_round g pending stream)
  unfolding receive_round
  receive_round-Keeps n pending stream h = elim (Option-cases (read_exact 14 stream)) [
    | inl e ↦ rw (e, receive_round) tt
    | inr ((header, rest), e) ↦
        rw (e, receive_round)
          (Keeps-perm pending pending (suc (length rest)) n _ (Perm.refl pending)
            (with_header-Keeps (run (read_response_header g) header) pending rest)
            (omega (arith, read_exact-shorter 14 stream header rest e)))
  ]

  -- Whatever bytes arrive, fuel for one round more than there are bytes is enough for `receive`.
  pub receive_total :
      (fuel : ℕ) (pending stream : List ℕ)
      → length stream < fuel
      → (receive g fuel pending stream).end ≢ out_of_fuel
  unfolding receive
  receive_total zero pending stream lt = absurd (omega arith)
  receive_total (suc fuel) pending stream lt =
      go (receive_round g pending stream) refl
        (receive_round-Keeps fuel pending stream (omega arith))
        (λ left rest le. receive_total fuel left rest le)
    where
      go :
          (r : Round)
          → receive_round g pending stream ≡ r
          → Keeps pending fuel r
          → ((left rest : List ℕ)
              → length rest < fuel
              → (receive g fuel left rest).end ≢ out_of_fuel)
          → (receive g (suc fuel) pending stream).end ≢ out_of_fuel
      go stop e k ih = rw (e, receive) (λ x. cc)
      go (next done left rest) e k ih = rw (e, receive) (ih left rest k.1)
      go fault e k ih = rw (e, receive) (λ x. cc)
