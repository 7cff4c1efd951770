-- ===== src/Rpc/EndToEnd.antt =====
-- A client and a server at the two ends of a connection (madbfs-common/src/rpc.cpp): the requests that
-- `send_req` writes, the handlers that `listen` starts, what `send_resp` writes for them, and what
-- `receive` completes. The handlers answer in the order of the requests.
use adbfsm.Prelude.{
  ℕ, ◌^◌, ◌<◌, ◌≡◌, ◌≢◌, refl, sym, ap, ==_iff, ◌==◌, true, some, List, [], ◌∷◌, ◌++◌, length,
  arith,
}
use adbfsm.Rpc.Wire.{Endian}
use adbfsm.Rpc.Request.{Request, proc}
use adbfsm.Rpc.Request.RoundTrip.{payload, InRange}
use adbfsm.Rpc.Response
use adbfsm.Rpc.Response.RoundTrip as Answered
use adbfsm.Rpc.Frame.{Reply, status, response, send_resp}
use adbfsm.Rpc.Server.{Call, listen}
use adbfsm.Rpc.Server.Dispatch.{Message, known, AreMessages, stream_of, calls_of, listen-stream_of}
use adbfsm.Rpc.Client.{Completion, Result, value, remote, extract, receive, disconnected}
use adbfsm.Rpc.Client.Answers.{
  stream_of as answer_stream, Answer, answer, failure, written, Answers, IsAnswer, completions_of,
  completion_of, bytes_of, id_of, receive-stream_of,
}

-- The handler that `listen` starts for a call answers it.
unfoldable pub respond : Endian → (Request → Reply) → List Call → List ℕ
unfolding send_resp
respond h handler [] = []
respond h handler (c ∷ cs) =
    written (send_resp h c.id c.procedure (handler c.request)) ++ respond h handler cs

-- Requests with their ids.
abbrev pub messages_of : List (ℕ × Request) → List Message
messages_of [] = []
messages_of ((id, r) ∷ rs) = known id r ∷ messages_of rs

abbrev pub ids_of : List (ℕ × Request) → List ℕ
ids_of [] = []
ids_of ((id, r) ∷ rs) = id ∷ ids_of rs

-- What the promise of a request should get.
abbrev pub result_of : Reply → Result
result_of (status s) = remote s
result_of (response v) = value v

abbrev pub results_of : (Request → Reply) → List (ℕ × Request) → List Completion
results_of handler [] = []
results_of handler ((id, r) ∷ rs) =
    record { id = id; result = result_of (handler r) } ∷ results_of handler rs

-- A handler replies with a response of the request's procedure or with an error status, and what it
-- replies fits in its fields.
abbrev pub IsReply : Endian → Request → Reply → Type 0
IsReply h r (status s) = (s ≢ 0) × (s < 256)
IsReply h r (response v) =
    (Response.proc v ≡ proc r) × Answered.InRange v × (length (Answered.payload h v) < 2 ^ 64)

abbrev pub AreServed : Endian → Endian → (Request → Reply) → List (ℕ × Request) → Type 0
AreServed g h handler [] = Unit {0}
AreServed g h handler ((id, r) ∷ rs) =
    (id < 2 ^ 32)
    × InRange r
    × (length (payload g r) < 2 ^ 64)
    × IsReply h r (handler r)
    × AreServed g h handler rs

abbrev answer_with : ℕ → Request → Reply → Answer
answer_with id r (status s) = failure id (proc r) s
answer_with id r (response v) = answer id v

abbrev answers_of : (Request → Reply) → List (ℕ × Request) → List Answer
answers_of handler [] = []
answers_of handler ((id, r) ∷ rs) = answer_with id r (handler r) ∷ answers_of handler rs

bytes_of-answer_with :
    (h : Endian) (id : ℕ) (r : Request) (reply : Reply)
    → IsReply h r reply
    → written (send_resp h id (proc r) reply) ≡ bytes_of h (answer_with id r reply)
bytes_of-answer_with h id r (status s) k = refl
bytes_of-answer_with h id r (response v) k =
    ap (λ p. written (send_resp h id p (response v))) (sym k.0)

answer_with-IsAnswer :
    (h : Endian) (id : ℕ) (r : Request) (reply : Reply)
    → id < 2 ^ 32
    → IsReply h r reply
    → IsAnswer h (answer_with id r reply)
answer_with-IsAnswer h id r (status s) i k = (i, k.0, k.1)
answer_with-IsAnswer h id r (response v) i k = (i, k.1, k.2)

extract_first :
    (id : ℕ) (r : Request) (reply : Reply) (ids : List ℕ)
    → extract (id_of (answer_with id r reply)) (id ∷ ids) ≡ some ids
unfolding extract
extract_first id r (status s) ids = let e : (id == id) ≡ true = (==_iff id id).1 refl in rw e refl
extract_first id r (response v) ids = let e : (id == id) ≡ true = (==_iff id id).1 refl in rw e refl

completion_of-answer_with :
    (id : ℕ) (r : Request) (reply : Reply)
    → completion_of (answer_with id r reply) ≡ record { id = id; result = result_of reply }
completion_of-answer_with id r (status s) = refl
completion_of-answer_with id r (response v) = refl

completions-results :
    (handler : Request → Reply) (rs : List (ℕ × Request))
    → completions_of (answers_of handler rs) ≡ results_of handler rs
completions-results handler [] = refl
completions-results handler ((id, r) ∷ rs) =
    rw (completion_of-answer_with id r (handler r), completions-results handler rs) refl

length-answers_of :
    (handler : Request → Reply) (rs : List (ℕ × Request))
    → length (answers_of handler rs) ≡ length rs
length-answers_of handler [] = refl
length-answers_of handler (r ∷ rs) = rw (length-answers_of handler rs) refl

length-messages_of : (rs : List (ℕ × Request)) → length (messages_of rs) ≡ length rs
length-messages_of [] = refl
length-messages_of (r ∷ rs) = rw (length-messages_of rs) refl

module _ (g h : Endian) (handler : Request → Reply) where
  served-AreMessages :
      (rs : List (ℕ × Request)) → AreServed g h handler rs → AreMessages h g (messages_of rs)
  served-AreMessages [] k = tt
  served-AreMessages ((id, r) ∷ rs) k = ((k.0, k.1, k.2), served-AreMessages rs k.4)

  served-Answers :
      (rs : List (ℕ × Request))
      → AreServed g h handler rs
      → Answers h (ids_of rs) (answers_of handler rs) []
  served-Answers [] k = refl
  served-Answers ((id, r) ∷ rs) k = (
    ids_of rs,
    extract_first id r (handler r) (ids_of rs),
    answer_with-IsAnswer h id r (handler r) k.0 k.3,
    served-Answers rs k.4,
  )

  respond-stream_of :
      (rs : List (ℕ × Request))
      → AreServed g h handler rs
      → respond h handler (calls_of (messages_of rs)) ≡ answer_stream h (answers_of handler rs)
  unfolding respond
  respond-stream_of [] k = refl
  respond-stream_of ((id, r) ∷ rs) k =
      rw (bytes_of-answer_with h id r (handler r) k.3, respond-stream_of rs k.4) refl

  -- Requests with their ids, written by a client on one host, are read, handled and answered by a server
  -- on another, and the client completes each promise with what the handler returned for its request,
  -- whatever the byte orders of the two hosts. The loops may run for more rounds than there are requests;
  -- the requests and the replies fit in their fields, a
  -- response is of the procedure of its request, and an error status is not that of success.
  pub end_to_end :
      (rs : List (ℕ × Request)) (rounds again : ℕ)
      → AreServed g h handler rs
      → length rs < rounds
      → length rs < again
      → receive g again
          (ids_of rs)
          (respond h handler (listen h rounds (stream_of g (messages_of rs))).0)
        ≡ record { completed = results_of handler rs; pending = []; end = disconnected }
  end_to_end rs rounds again k enough enough' =
      let dispatched =
        listen-stream_of h g (messages_of rs) rounds (served-AreMessages rs k)
          (omega (arith, length-messages_of rs)) in
      let answered =
        receive-stream_of g h (answers_of handler rs) again (ids_of rs) [] (served-Answers rs k)
          (omega (arith, length-answers_of handler rs)) in
      rw (dispatched, respond-stream_of rs k, answered, completions-results handler rs) refl
