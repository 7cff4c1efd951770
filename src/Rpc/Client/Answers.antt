-- ===== src/Rpc/Client/Answers.antt =====
-- The answers that `send_resp` writes, as `receive` completes them.
use adbfsm.Prelude.{
  ℕ, zero, suc, ◌^◌, ◌<◌, ◌≡◌, ◌≢◌, refl, ap, some, List, [], ◌∷◌, ◌++◌, append_assoc, arith,
  length, length-append, ◌==◌, false,
}
use adbfsm.Rpc.Wire.{Endian, to_net_bytes, length-to_net_bytes}
use adbfsm.Rpc.Payload.{Procedure, procedure_code}
use adbfsm.Rpc.Payload.Reads.{procedure_of-procedure_code, procedure_code-lt}
use adbfsm.Rpc.Response.{Response, proc}
use adbfsm.Rpc.Response.RoundTrip.{payload, InRange, parse_response-payload}
use adbfsm.Rpc.Frame.{
  response, status, Sent, sent, bad_message, bad_variant_access, send_resp, read_exact,
}
use adbfsm.Rpc.Frame.Layout.{frame, response_front, send_resp-response, send_resp-status}
use adbfsm.Rpc.Frame.Headers.{run-read_response_header, read_exact-append}
use adbfsm.Rpc.Client.{
  Completion, value, remote, extract, next, on_payload, on_promise, on_header, receive_round,
  disconnected, ended, receive,
}

-- What a server answers to a request: a response, or a status of failure for the procedure.
pub data Answer : Type 0 where
  answer : (id : ℕ) (r : Response) → Answer
  failure : (id : ℕ) (p : Procedure) (s : ℕ) → Answer

abbrev pub id_of : Answer → ℕ
id_of (answer id r) = id
id_of (failure id p s) = id

abbrev pub completion_of : Answer → Completion
completion_of (answer id r) = record { id = id; result = value r }
completion_of (failure id p s) = record { id = id; result = remote s }

abbrev pub completions_of : List Answer → List Completion
completions_of [] = []
completions_of (a ∷ as') = completion_of a ∷ completions_of as'

abbrev pub written : Sent → List ℕ
written (sent bytes) = bytes
written bad_message = []
written bad_variant_access = []

-- The bytes that `send_resp` writes for an answer.
abbrev pub bytes_of : Endian → Answer → List ℕ
bytes_of h (answer id r) = written (send_resp h id (proc r) (response r))
bytes_of h (failure id p s) = written (send_resp h id p (status s))

abbrev pub stream_of : Endian → List Answer → List ℕ
stream_of h [] = []
stream_of h (a ∷ as') = bytes_of h a ++ stream_of h as'

-- The numbers of an answer fit in its fields.
abbrev pub IsAnswer : Endian → Answer → Type 0
IsAnswer h (answer id r) = (id < 2 ^ 32) × InRange r × (length (payload h r) < 2 ^ 64)
IsAnswer h (failure id p s) = (id < 2 ^ 32) × (s ≢ 0) × (s < 256)

-- Each answer is for a promise that is pending when it comes; `left` are those without an answer.
abbrev pub Answers : Endian → List ℕ → List Answer → List ℕ → Type 0
Answers h pending [] left = pending ≡ left
Answers h pending (a ∷ as') left =
    (mid : List ℕ) × (extract (id_of a) pending ≡ some mid) × IsAnswer h a × Answers h mid as' left

module _ (g h : Endian) where
  -- A round on a message to a pending promise.
  receive_round-frame :
      (id s : ℕ) (p : Procedure) (body rest pending mid : List ℕ)
      → id < 2 ^ 32
      → s < 256
      → length body < 2 ^ 64
      → extract id pending ≡ some mid
      → receive_round g pending (frame h (response_front h id (procedure_code p) s) body ++ rest)
        ≡ on_promise g id p s (length body) mid (body ++ rest)
  unfolding receive_round on_header
  receive_round-frame id s p body rest pending mid i t small e =
      let code : ℕ = procedure_code p in
      let front : List ℕ =
        to_net_bytes h 4 id
        ++ (to_net_bytes h 1 code ++ (to_net_bytes h 1 s ++ to_net_bytes h 8 (length body))) in
      let regroup : frame h (response_front h id code s) body ++ rest ≡ front ++ (body ++ rest) =
        simp append_assoc in
      let long : length front ≡ 14 = omega (
        arith,
        length-append (to_net_bytes h 4 id)
            (to_net_bytes h 1 code ++ (to_net_bytes h 1 s ++ to_net_bytes h 8 (length body))),
        length-append (to_net_bytes h 1 code)
            (to_net_bytes h 1 s ++ to_net_bytes h 8 (length body)),
        length-append (to_net_bytes h 1 s) (to_net_bytes h 8 (length body)),
        length-to_net_bytes h 4 id,
        length-to_net_bytes h 1 code,
        length-to_net_bytes h 1 s,
        length-to_net_bytes h 8 (length body),
      ) in
      rw (
        regroup,
        receive_round,
        read_exact-append 14 front (body ++ rest) long,
        run-read_response_header g h id code s (length body) i (procedure_code-lt p) t small,
        procedure_of-procedure_code p,
        e,
        on_header,
      )

  round-answer :
      (a : Answer) (rest pending mid : List ℕ)
      → IsAnswer h a
      → extract (id_of a) pending ≡ some mid
      → receive_round g pending (bytes_of h a ++ rest) ≡ next (completion_of a ∷ []) mid rest
  unfolding on_promise on_payload
  round-answer (answer id r) rest pending mid k e = rw (
    send_resp-response h id r,
    receive_round-frame id 0 (proc r) (payload h r) rest pending mid k.0 (omega arith) k.2 e,
    on_promise,
    read_exact-append (length (payload h r)) (payload h r) rest refl,
    parse_response-payload g h r k.1 k.2,
  )
  round-answer (failure id p s) rest pending mid k e =
      let other : (s == 0) ≡ false = ground arith in
      rw (
        send_resp-status h id s p k.1,
        receive_round-frame id s p [] rest pending mid k.0 k.2 (omega arith) e,
        on_promise,
        other,
      )

  -- A client completes each promise with the answer that the server sent for its id, in the order of
  -- the answers, whatever the order of the requests was; the promises without an answer stay.
  pub receive-stream_of :
      (as' : List Answer) (fuel : ℕ) (pending left : List ℕ)
      → Answers h pending as' left
      → length as' < fuel
      → receive g fuel pending (stream_of h as')
        ≡ record { completed = completions_of as'; pending = left; end = disconnected }
  unfolding receive
  receive-stream_of as' zero pending left k lt = absurd (omega arith)
  receive-stream_of [] (suc fuel) pending left k lt =
      unfold receive_round read_exact in ap (λ l. ended l disconnected) k
  receive-stream_of (a ∷ as') (suc fuel) pending left k lt = rw (
    receive,
    round-answer a (stream_of h as') pending k.0 k.2 k.1,
    receive-stream_of as' fuel k.0 left k.3 (omega arith),
  )
