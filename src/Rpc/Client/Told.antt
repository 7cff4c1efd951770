-- ===== src/Rpc/Client/Told.antt =====
-- What a promise that `receive` completes is told: the answer, or nothing because the connection ended.
use adbfsm.Prelude.{
  ℕ, zero, suc, ◌≡◌, ◌≢◌, refl, ap, ◌∙◌, Option, none, some, List, [], ◌∷◌, ◌==◌, Bool-cases,
  Option-cases, ◌⊎◌, inl, inr,
}
use adbfsm.Rpc.Wire.{Endian}
use adbfsm.Rpc.Payload.{Procedure, Outcome, ok, nullopt, undefined, run}
use adbfsm.Rpc.Response.{Response, parse_response}
use adbfsm.Rpc.Frame.{ResponseHeader, read_response_header, read_exact}
use adbfsm.Rpc.Client.{
  Completion, Result, value, remote, bad_message, dropped, not_connected, extract, Round, stop,
  next, fault, on_payload, on_promise, on_header, with_header, receive_round, receive,
}

-- The message for a promise has come.
abbrev pub IsAnswer : Result → Type 0
IsAnswer (value r) = Unit {0}
IsAnswer (remote status) = Unit {0}
IsAnswer bad_message = Unit {0}
IsAnswer not_connected = ⊥
IsAnswer dropped = ⊥

-- All have an answer, save that the last may be dropped.
abbrev pub AreAnswers : List Completion → Type 0
AreAnswers [] = Unit {0}
AreAnswers (c ∷ []) = IsAnswer c.result ⊎ (c.result ≡ dropped)
AreAnswers (c ∷ d ∷ cs) = IsAnswer c.result × AreAnswers (d ∷ cs)

module _ (g : Endian) where
  -- A round completes at most one promise: with the answer to it, or it drops it, and then nothing is left
  -- to be read.
  abbrev Tells : Round → Type 0
  Tells stop = Unit {0}
  Tells (next [] left rest) = Unit {0}
  Tells (next (d ∷ []) left rest) = IsAnswer d.result ⊎ ((d.result ≡ dropped) × (rest ≡ []))
  Tells (next (d ∷ e ∷ ds) left rest) = ⊥
  Tells fault = Unit {0}

  on_payload-Tells :
      (id : ℕ) (r : Outcome Response) (left rest : List ℕ) → Tells (on_payload id r left rest)
  unfolding on_payload
  on_payload-Tells id (ok r) left rest = inl tt
  on_payload-Tells id nullopt left rest = inl tt
  on_payload-Tells id undefined left rest = tt

  on_promise-Tells :
      (id : ℕ) (p : Procedure) (status size : ℕ) (left stream : List ℕ)
      → Tells (on_promise g id p status size left stream)
  unfolding on_promise
  on_promise-Tells id p status size left stream = elim (Bool-cases (status == 0)) [
    | inr failed ↦ rw (failed, on_promise) (inl tt)
    | inl success ↦ elim (Option-cases (read_exact size stream)) [
      | inl e ↦ rw (success, e, on_promise) (inr (refl, refl))
      | inr ((buffer, rest), e) ↦
          rw (success, e, on_promise) (on_payload-Tells id (parse_response g buffer p) left rest)
    ]
  ]

  on_header-Tells :
      (header : ResponseHeader) (p : Option Procedure) (pending stream : List ℕ)
      → Tells (on_header g header p pending stream)
  unfolding on_header
  on_header-Tells header none pending stream = tt
  on_header-Tells header (some p) pending stream = elim (Option-cases (extract header.id pending)) [
    | inl e ↦ rw (e, on_header) tt
    | inr (left, e) ↦
        rw (e, on_header) (on_promise-Tells header.id p header.status header.size left stream)
  ]

  with_header-Tells :
      (r : Outcome ResponseHeader) (pending stream : List ℕ)
      → Tells (with_header g r pending stream)
  unfolding with_header
  with_header-Tells (ok header) pending stream =
      on_header-Tells header header.procedure pending stream
  with_header-Tells nullopt pending stream = tt
  with_header-Tells undefined pending stream = tt

  receive_round-Tells : (pending stream : List ℕ) → Tells (receive_round g pending stream)
  unfolding receive_round
  receive_round-Tells pending stream = elim (Option-cases (read_exact 14 stream)) [
    | inl e ↦ rw (e, receive_round) tt
    | inr ((header, rest), e) ↦
        rw (e, receive_round) (with_header-Tells (run (read_response_header g) header) pending rest)
  ]

  receive-nothing : (fuel : ℕ) (pending : List ℕ) → (receive g fuel pending []).completed ≡ []
  unfolding receive
  receive-nothing zero pending = refl
  receive-nothing (suc fuel) pending = unfold receive_round read_exact in refl

  first-AreAnswers :
      (d : Completion) (ds : List Completion)
      → IsAnswer d.result ⊎ ((d.result ≡ dropped) × (ds ≡ []))
      → AreAnswers ds
      → AreAnswers (d ∷ ds)
  first-AreAnswers d [] (inl a) h = inl a
  first-AreAnswers d [] (inr (e, k)) h = inr e
  first-AreAnswers d (c ∷ cs) (inl a) h = (a, h)
  first-AreAnswers d (c ∷ cs) (inr (e, k)) h = absurd (not_nil c cs k)
    where
      not_nil : (x : Completion) (xs : List Completion) → (x ∷ xs) ≢ []
      not_nil x xs same = cc

  pub receive-AreAnswers :
      (fuel : ℕ) (pending stream : List ℕ) → AreAnswers (receive g fuel pending stream).completed
  unfolding receive
  receive-AreAnswers zero pending stream = tt
  receive-AreAnswers (suc fuel) pending stream =
      go (receive_round g pending stream) refl (receive_round-Tells pending stream)
        (λ left rest. receive-AreAnswers fuel left rest)
    where
      go :
          (r : Round)
          → receive_round g pending stream ≡ r
          → Tells r
          → ((left rest : List ℕ) → AreAnswers (receive g fuel left rest).completed)
          → AreAnswers (receive g (suc fuel) pending stream).completed
      go stop e k ih = rw (e, receive) tt
      go (next [] left rest) e k ih = rw (e, receive) (ih left rest)
      go (next (d ∷ []) left rest) e (inl a) ih =
          rw (e, receive)
            (first-AreAnswers d (receive g fuel left rest).completed (inl a) (ih left rest))
      go (next (d ∷ []) left rest) e (inr (x, k)) ih =
          rw (e, receive)
            (first-AreAnswers d (receive g fuel left rest).completed
              (inr (x, ap (λ s. (receive g fuel left s).completed) k ∙ receive-nothing fuel left))
              (ih left rest))
      go (next (d ∷ b ∷ ds) left rest) e k ih = absurd k
      go fault e k ih = rw (e, receive) tt
