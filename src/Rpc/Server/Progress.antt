-- ===== src/Rpc/Server/Progress.antt =====
-- The loop of `listen` ends on any bytes.
use adbfsm.Prelude.{
  ℕ, zero, suc, ◌<◌, ◌≤◌, ◌≡◌, ◌≢◌, refl, Option, none, some, List, arith, length, Option-cases,
  inl, inr,
}
use adbfsm.Rpc.Wire.{Endian}
use adbfsm.Rpc.Payload.{Procedure, Outcome, ok, nullopt, undefined, run}
use adbfsm.Rpc.Request.{Request, parse_request}
use adbfsm.Rpc.Frame.{RequestHeader, read_request_header, read_exact}
use adbfsm.Rpc.Frame.Headers.{read_exact-shorter, length-skip}
use adbfsm.Rpc.Server.{
  Round, stop, next, dispatch, fault, on_payload, on_header, with_header, listen_round, out_of_fuel,
  listen,
}

-- The stream that a round leaves has fewer than `n` bytes.
abbrev Leaves : ℕ → Round → Type 0
Leaves n stop = Unit {0}
Leaves n (next rest) = length rest < n
Leaves n (dispatch call rest) = length rest < n
Leaves n fault = Unit {0}

module _ (g : Endian) where
  on_payload-Leaves :
      (id n : ℕ) (p : Procedure) (r : Outcome Request) (rest : List ℕ)
      → length rest < n
      → Leaves n (on_payload id p r rest)
  unfolding on_payload
  on_payload-Leaves id n p (ok r) rest h = h
  on_payload-Leaves id n p nullopt rest h = h
  on_payload-Leaves id n p undefined rest h = tt

  on_header-Leaves :
      (id size : ℕ) (p : Option Procedure) (stream : List ℕ)
      → Leaves (suc (length stream)) (on_header g id size p stream)
  unfolding on_header
  on_header-Leaves id size none stream = omega (arith, length-skip size stream)
  on_header-Leaves id size (some p) stream = elim (Option-cases (read_exact size stream)) [
    | inl e ↦ rw (e, on_header) tt
    | inr ((buffer, rest), e) ↦
        rw (e, on_header)
          (on_payload-Leaves id (suc (length stream)) p (parse_request g buffer p) rest
            (omega (arith, read_exact-shorter size stream buffer rest e)))
  ]

  with_header-Leaves :
      (r : Outcome RequestHeader) (stream : List ℕ)
      → Leaves (suc (length stream)) (with_header g r stream)
  unfolding with_header
  with_header-Leaves (ok header) stream =
      on_header-Leaves header.id header.size header.procedure stream
  with_header-Leaves nullopt stream = tt
  with_header-Leaves undefined stream = tt

  Leaves-le : (m n : ℕ) (r : Round) → Leaves m r → m ≤ n → Leaves n r
  Leaves-le m n stop h le = tt
  Leaves-le m n (next rest) h le = omega arith
  Leaves-le m n (dispatch call rest) h le = omega arith
  Leaves-le m n fault h le = tt

  -- A round that goes on has read a header.
  listen_round-Leaves :
      (n : ℕ) (stream : List ℕ) → length stream ≤ n → Leaves n (listen_round g stream)
  unfolding listen_round
  listen_round-Leaves n stream h = elim (Option-cases (read_exact 13 stream)) [
    | inl e ↦ rw (e, listen_round) tt
    | inr ((header, rest), e) ↦
        rw (e, listen_round)
          (Leaves-le (suc (length rest)) n _
            (with_header-Leaves (run (read_request_header g) header) rest)
            (omega (arith, read_exact-shorter 13 stream header rest e)))
  ]

  -- Whatever bytes arrive, fuel for one round more than there are bytes is enough: the loop ends
  -- with the connection or with a fault.
  pub listen_total :
      (fuel : ℕ) (stream : List ℕ) → length stream < fuel → (listen g fuel stream).1 ≢ out_of_fuel
  unfolding listen
  listen_total zero stream lt = absurd (omega arith)
  listen_total (suc fuel) stream lt =
      go (listen_round g stream) refl (listen_round-Leaves fuel stream (omega arith))
        (λ rest le. listen_total fuel rest le)
    where
      go :
          (r : Round)
          → listen_round g stream ≡ r
          → Leaves fuel r
          → ((rest : List ℕ) → length rest < fuel → (listen g fuel rest).1 ≢ out_of_fuel)
          → (listen g (suc fuel) stream).1 ≢ out_of_fuel
      go stop e le ih = rw (e, listen) (λ x. cc)
      go (next rest) e le ih = rw (e, listen) (ih rest (omega arith))
      go (dispatch call rest) e le ih = rw (e, listen) (ih rest (omega arith))
      go fault e le ih = rw (e, listen) (λ x. cc)
