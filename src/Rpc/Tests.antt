-- ===== src/Rpc/Tests.antt =====
-- Runs of the protocol on concrete messages, and the theorems about it at concrete inputs.
use adbfsm.Prelude.{ℕ, ◌≡◌, ◌≢◌, refl, pos, negsuc, true, none, List, [], ◌∷◌, ◌++◌, arith}
use adbfsm.Rpc.Wire.{little, big, to_net_bytes, from_net_bytes, from_net_bytes-to_net_bytes}
use adbfsm.Rpc.Payload.{
  read_path, read_int, ok, nullopt, undefined, Procedure, Str, procedure_of, run, read_bytes,
  write_path, write_i64, write_bytes, write_int,
}
use adbfsm.Rpc.Payload.Overflow.{read_bytes_cases, read_bytes_wraps}
use adbfsm.Rpc.Request
use adbfsm.Rpc.Request.{Request, Timespec, parse_request}
use adbfsm.Rpc.Request.RoundTrip.{parse_request-write_fields}
use adbfsm.Rpc.Response
use adbfsm.Rpc.Response.{Response, Stat, parse_response, write_stat, write_entries}
use adbfsm.Rpc.Response.RoundTrip.{IsStat, parse_response-write_fields}
use adbfsm.Rpc.Server
use adbfsm.Rpc.Server.{Call, listen}
use adbfsm.Rpc.Server.Dispatch.{Message, known, unknown, malformed, stream_of, listen-stream_of}
use adbfsm.Rpc.Server.Progress.{listen_total}
use adbfsm.Rpc.Client
use adbfsm.Rpc.Client.{Client, extract, receive}
use adbfsm.Rpc.Client.Answers
use adbfsm.Rpc.Client.Answers.{answer, failure, receive-stream_of}
use adbfsm.Rpc.EndToEnd.{respond, messages_of, end_to_end}
use adbfsm.Rpc.Frame.{Reply, status, response}
use adbfsm.Rpc.Client.Ids
use adbfsm.Rpc.Client.Ids.{send_req_fresh}

from_net_bytes-to_net_bytes_example : from_net_bytes little 2 (to_net_bytes big 2 513) ≡ 513
from_net_bytes-to_net_bytes_example = from_net_bytes-to_net_bytes little big 2 513 (omega arith)

most_significant_first : to_net_bytes little 4 258 ≡ 0 ∷ 0 ∷ 1 ∷ 2 ∷ []
unfolding to_net_bytes
most_significant_first = refl

-- "/a"
abbrev file : Str
file = b'/' ∷ b'a' ∷ []

abbrev write_request : Request
write_request = Request.write file (negsuc 0) (7 ∷ 8 ∷ [])

parse_request-write_fields_example :
    parse_request big (Request.write_fields little write_request []) Procedure.write
    ≡ ok write_request
unfolding Request.proc
parse_request-write_fields_example =
    parse_request-write_fields big little write_request (omega arith) (
      unfold Request.write_fields write_path write_i64 write_bytes write_int to_net_bytes in
      omega arith)

abbrev epoch : Timespec
epoch = record { tv_sec = pos 0; tv_nsec = pos 0 }

abbrev some_stat : Stat
some_stat = record {
  size = pos 21;
  links = 1;
  mtime = epoch;
  atime = epoch;
  ctime = epoch;
  mode = 33188;
  uid = 0;
  gid = 0;
}

some_stat-IsStat : IsStat some_stat
some_stat-IsStat = omega arith

abbrev listing : Response
listing = Response.listdir ((file, some_stat) ∷ [])

parse_response-write_fields_example :
    parse_response little (Response.write_fields little listing []) Procedure.listdir ≡ ok listing
unfolding Response.proc
parse_response-write_fields_example =
    parse_response-write_fields little little listing ((some_stat-IsStat, tt), omega arith)
      (unfold Response.write_fields write_stat write_entries Response.write_timespec write_path
          write_i64 write_int to_net_bytes in
        omega arith)

read_bytes_cases_example : run (read_bytes big) (to_net_bytes little 8 3 ++ 1 ∷ 2 ∷ []) ≡ nullopt
read_bytes_cases_example = read_bytes_cases big little 3 (1 ∷ 2 ∷ []) (omega arith) (omega arith)

read_bytes_wraps_example :
    run (read_bytes big) (to_net_bytes little 8 18446744073709551610 ++ 1 ∷ 2 ∷ []) ≡ undefined
read_bytes_wraps_example =
    read_bytes_wraps big little 18446744073709551610 (1 ∷ 2 ∷ []) (omega arith) (omega arith)
      (omega arith)

abbrev stat_request : Request
stat_request = Request.stat file

abbrev messages : List Message
messages =
    unknown 8 99 (1 ∷ 2 ∷ 3 ∷ [])
    ∷ malformed 7 Procedure.stat (1 ∷ 2 ∷ [])
    ∷ known 9 stat_request
    ∷ []

listen-stream_of_example : listen little 5 (stream_of big messages) ≡ (
  record { id = 9; procedure = Request.proc stat_request; request = stat_request } ∷ [],
  Server.not_connected,
)
unfolding Request.proc
listen-stream_of_example =
    listen-stream_of little big messages 5
      (
        (omega arith, omega arith, unfold procedure_of in refl, omega arith),
        (
          (omega arith, omega arith, unfold parse_request read_path read_int in refl),
          ((omega arith, tt, unfold Request.RoundTrip.payload to_net_bytes in omega arith), tt),
        ),
      )
      (omega arith)

listen_total_example : (listen big 4 (1 ∷ 2 ∷ 3 ∷ [])).1 ≢ Server.out_of_fuel
listen_total_example = listen_total big 4 (1 ∷ 2 ∷ 3 ∷ []) (omega arith)

abbrev answers : List Answers.Answer
answers = failure 2 Procedure.stat 2 ∷ answer 1 Response.mkdir ∷ []

receive-stream_of_example :
    receive little 3 (1 ∷ 2 ∷ 3 ∷ []) (Answers.stream_of big answers) ≡ record {
      completed = Answers.completions_of answers;
      pending = 3 ∷ [];
      end = Client.disconnected;
    }
receive-stream_of_example =
    receive-stream_of little big answers 3 (1 ∷ 2 ∷ 3 ∷ []) (3 ∷ [])
      (
        1 ∷ 3 ∷ [],
        unfold extract in refl,
        (omega arith, (λ e. absurd (omega arith)), omega arith),
        (
          3 ∷ [],
          unfold extract in refl,
          (omega arith, tt, unfold Response.RoundTrip.payload in omega arith),
          refl,
        ),
      )
      (omega arith)

abbrev cut_run : Client.Run
cut_run = receive big 3 (5 ∷ []) (1 ∷ 2 ∷ [])

abbrev fresh_client : Client
fresh_client = record { counter = 1; pending = 1 ∷ []; running = true }

send_req_fresh_example :
    Ids.Sends little stat_request fresh_client
      (Client.send_req little none stat_request fresh_client)
send_req_fresh_example =
    send_req_fresh little none stat_request fresh_client (omega arith)
      (omega arith, omega arith, tt)

-- A handler that knows no file and makes every directory.
abbrev handler : Request → Reply
handler r = elim r [ Request.mkdir path mode ↦ response Response.mkdir | _ ↦ status 2 ]

abbrev two_requests : List (ℕ × Request)
two_requests = (1, Request.mkdir file 493) ∷ (2, stat_request) ∷ []

end_to_end_example :
    receive little 3
      (1 ∷ 2 ∷ [])
      (respond big handler (listen big 3 (stream_of little (messages_of two_requests))).0)
    ≡ record {
      completed =
          record { id = 1; result = Client.value Response.mkdir }
          ∷ record { id = 2; result = Client.remote 2 }
          ∷ [];
      pending = [];
      end = Client.disconnected;
    }
unfolding Request.proc Response.proc
end_to_end_example =
    end_to_end little big handler two_requests 3 3
      (
        omega arith,
        omega arith,
        unfold Request.RoundTrip.payload to_net_bytes in omega arith,
        (refl, tt, unfold Response.RoundTrip.payload in omega arith),
        (
          omega arith,
          tt,
          unfold Request.RoundTrip.payload to_net_bytes in omega arith,
          ((λ e. absurd (omega (arith, e))), omega arith),
          tt,
        ),
      )
      (omega arith) (omega arith)
