-- ===== src/Rpc/Frame/Layout.antt =====
-- What the builders put on the wire: a header with the length of the payload, and the payload.
use adbfsm.Prelude.{
  ℕ, ◌+◌, ◌-◌, ◌≡◌, refl, List, [], ◌++◌, append-nil, append_assoc, arith, length, length-append,
  drop, ◌==◌, ==_iff, true, false, ◌≢◌,
}
use adbfsm.Rpc.Wire.{Endian, to_net_bytes, length-to_net_bytes}
use adbfsm.Rpc.Payload.{
  Procedure, procedure_code, write_int, write_procedure, write_status, write_id,
}
use adbfsm.Rpc.Payload.Reads.{take-append, drop-append}
use adbfsm.Rpc.Request
use adbfsm.Rpc.Request.{Request}
use adbfsm.Rpc.Response
use adbfsm.Rpc.Response.{Response}
use adbfsm.Rpc.Frame.{
  overwrite, build, request_builder, response_builder, request_message, send_resp, sent, response,
  status,
}

-- Writing over the bytes in the middle.
overwrite_middle :
    (front old new back : List ℕ)
    → length new ≡ length old
    → overwrite (length front) new (front ++ (old ++ back)) ≡ front ++ (new ++ back)
unfolding overwrite
overwrite_middle front old new back e =
    let past : drop (length front + length new) (front ++ (old ++ back)) ≡ back =
      rw (e, ← length-append front old, ← append_assoc front old back)
        (drop-append (front ++ old) back) in
    rw (take-append front (old ++ back), past)

module _ (h : Endian) where
  -- `build` over a header `front` of which the last field is still zero.
  build_lem :
      (front body : List ℕ) (header_len : ℕ)
      → length front + 8 ≡ header_len
      → build h header_len (front ++ (to_net_bytes h 8 0 ++ body))
        ≡ front ++ (to_net_bytes h 8 (length body) ++ body)
  build_lem front body header_len e =
      let zeros : length (to_net_bytes h 8 0) ≡ 8 = length-to_net_bytes h 8 0 in
      let whole : length (front ++ (to_net_bytes h 8 0 ++ body)) - header_len ≡ length body =
        omega (
          arith,
          length-append front (to_net_bytes h 8 0 ++ body),
          length-append (to_net_bytes h 8 0) body,
        ) in
      let at_size : header_len - 8 ≡ length front = omega arith in
      unfold build in
      rw (at_size, whole)
        (overwrite_middle front (to_net_bytes h 8 0) (to_net_bytes h 8 (length body)) body
          (omega (arith, length-to_net_bytes h 8 (length body))))

  abbrev pub request_front : ℕ → ℕ → List ℕ
  request_front id code = to_net_bytes h 4 id ++ to_net_bytes h 1 code

  abbrev pub response_front : ℕ → ℕ → ℕ → List ℕ
  response_front id code s = to_net_bytes h 4 id ++ (to_net_bytes h 1 code ++ to_net_bytes h 1 s)

  -- A message: the header, the length of the payload, the payload.
  abbrev pub frame : List ℕ → List ℕ → List ℕ
  frame front body = front ++ (to_net_bytes h 8 (length body) ++ body)

  pub length-request_front : (id code : ℕ) → length (request_front id code) ≡ 5
  length-request_front id code = omega (
    arith,
    length-append (to_net_bytes h 4 id) (to_net_bytes h 1 code),
    length-to_net_bytes h 4 id,
    length-to_net_bytes h 1 code,
  )

  pub length-response_front : (id code s : ℕ) → length (response_front id code s) ≡ 6
  length-response_front id code s = omega (
    arith,
    length-append (to_net_bytes h 4 id) (to_net_bytes h 1 code ++ to_net_bytes h 1 s),
    length-append (to_net_bytes h 1 code) (to_net_bytes h 1 s),
    length-to_net_bytes h 4 id,
    length-to_net_bytes h 1 code,
    length-to_net_bytes h 1 s,
  )

  pub request_message_lem :
      (id : ℕ) (r : Request)
      → request_message h id r
        ≡ frame (request_front id (procedure_code (Request.proc r))) (Request.RoundTrip.payload h r)
  unfolding request_message request_builder write_procedure write_id write_int
  request_message_lem id r =
      let code : ℕ = procedure_code (Request.proc r) in
      let front : List ℕ = request_front id code in
      rw
        (
          Request.RoundTrip.write_fields_lem h r (front ++ to_net_bytes h 8 0),
          append_assoc front (to_net_bytes h 8 0) (Request.RoundTrip.payload h r),
        )
        (build_lem front (Request.RoundTrip.payload h r) 13
          (omega (arith, length-request_front id code)))

  response_builder_lem :
      (id s : ℕ) (p : Procedure)
      → response_builder h id p s ≡ response_front id (procedure_code p) s ++ to_net_bytes h 8 0
  unfolding response_builder write_procedure write_status write_id write_int
  response_builder_lem id s p = simp append_assoc

  -- A response that its procedure expects is sent behind a header with status 0.
  pub send_resp-response :
      (id : ℕ) (r : Response)
      → send_resp h id (Response.proc r) (response r)
        ≡ sent (
            frame
              (response_front id (procedure_code (Response.proc r)) 0)
              (Response.RoundTrip.payload h r))
  unfolding send_resp
  send_resp-response id r =
      let code : ℕ = procedure_code (Response.proc r) in
      let front : List ℕ = response_front id code 0 in
      let same : (code == code) ≡ true = (==_iff code code).1 refl in
      rw (
        same,
        response_builder_lem id 0 (Response.proc r),
        Response.RoundTrip.write_fields_lem h r (front ++ to_net_bytes h 8 0),
        append_assoc front (to_net_bytes h 8 0) (Response.RoundTrip.payload h r),
        build_lem front (Response.RoundTrip.payload h r) 14
            (omega (arith, length-response_front id code 0)),
      )

  -- A failure is sent as a header with an empty payload.
  pub send_resp-status :
      (id s : ℕ) (p : Procedure)
      → s ≢ 0
      → send_resp h id p (status s) ≡ sent (frame (response_front id (procedure_code p) s) [])
  unfolding send_resp
  send_resp-status id s p fails =
      let front : List ℕ = response_front id (procedure_code p) s in
      let other : (s == 0) ≡ false = ground arith in
      let zeros : List ℕ = to_net_bytes h 8 0 in
      let built : build h 14 (front ++ zeros) ≡ front ++ zeros =
        rw (append-nil zeros) at
          (build_lem front [] 14 (omega (arith, length-response_front id (procedure_code p) s))) in
      rw (other, response_builder_lem id s p, append-nil zeros, built)
