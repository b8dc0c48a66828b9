-- ===== src/Rpc/Session/Answers.antt =====
-- src/rpc.rs, `RpcHandler::call_method`: which answer a call gets.
use native.Mathlib.Nat.{mod-eq_of_lt}
use sub_script.Prelude.{
  ℕ, ◌+◌, ◌%◌, ◌^◌, ◌<◌, ◌≡◌, ◌≢◌, refl, sym, ap, ◌∙◌, String, true, Option, none, some, List, [],
  ◌∷◌, ◌++◌, append_assoc, length, Result, ok, err, arith,
}
use mathlib.Core.Path.{subst}
use sub_script.Rpc.Message.{
  Value, RequestToken, ResponseEvent, ResponseMessage, RpcRequest, call_method, request_data,
  RpcResp,
}
use sub_script.Rpc.Connection.{
  Out, not_connected, connected, broken, Conn, token_of, send, add_request, transmit,
}
use sub_script.Rpc.Invariant.{Inv, HasRoom}
use sub_script.Rpc.Pending.{Pending}
use sub_script.Rpc.Pending.Receives.{ForOthers}
use sub_script.Rpc.Routing.{send_lem}
use sub_script.Rpc.Handler.{get_response, response_of, NoneFor, cache, wait_cached}
use sub_script.Rpc.Session.{
  Session, async_call_method, arrive, returned, response_for, get_typed, with_conn, get_after,
  call_and_wait,
}
use sub_script.Rpc.Session.Arrived.{event_of, NoneFor-append, arrived}

-- what sending leaves as it was, and the next number
sent_keeps :
    (c : Conn) (req : RpcRequest)
    → HasRoom c
    → ((send c req).0.next_id ≡ c.next_id + 1)
      × ((send c req).0.alive ≡ c.alive)
      × ((send c req).0.conn_id ≡ c.conn_id)
unfolding send add_request
sent_keeps c req room = go c.out
  where
    next : (c.next_id + 1) % 2 ^ 32 ≡ c.next_id + 1
    next = mod-eq_of_lt room

    after : Out → Conn
    after o =
        (transmit o (add_request c req)
          (record { id = c.next_id; method = req.method; params = req.params })
          (token_of c c.next_id)).0

    go :
        (o : Out)
        → ((after o).next_id ≡ c.next_id + 1)
          × ((after o).alive ≡ c.alive)
          × ((after o).conn_id ≡ c.conn_id)
    go not_connected = (next, refl, refl)
    go connected = (next, refl, refl)
    go broken = (next, refl, refl)

-- A wait on the channel ends at the answer.
get_typed-front :
    {T : Type 0} (from_value : Value → Option T) (s : Session) (t : RequestToken)
    (pre : List ResponseMessage) (e : ResponseEvent)
    → s.handler.updates t ≡ none
    → NoneFor t pre
    → s.handler.queue ≡ pre ++ record { token = t; event = e } ∷ []
    → get_typed from_value s t
      ≡ returned
          (record s { handler = record { updates = cache pre s.handler.updates; queue = [] } })
          (response_of from_value e)
unfolding get_typed response_for get_response
get_typed-front from_value s t pre e empty h q =
    rw (empty, get_response) (rw q (rw (wait_cached t s.handler.updates pre [] e empty h) refl))

-- A call over a connection that is not broken, whose channel is read, gets the answer to its own
-- request, whatever the server sends for other requests and topics before, as long as request
-- numbers do not wrap and nothing for the number is left from before: the call returns what the
-- answer says, a result or an error, it is no longer waited for, and the channel is read up to the
-- answer.
pub call_and_wait_lem :
    {T : Type 0} (from_value : Value → Option T) (s : Session) (method : String) (params : Value)
    (before : List RpcResp) (resp : RpcResp)
    → Inv s.conn
    → s.conn.out ≢ broken
    → s.conn.alive s.chan ≡ true
    → s.conn.next_id + 1 + length before < 2 ^ 32
    → ForOthers s.conn.next_id before
    → resp.id ≡ some s.conn.next_id
    → s.handler.updates (token_of s.conn s.conn.next_id) ≡ none
    → NoneFor (token_of s.conn s.conn.next_id) s.handler.queue
    → (s' : Session) × (call_and_wait from_value s method params (before ++ resp ∷ [])
        ≡ returned s' (response_of from_value (event_of resp.err resp.result)))
      × (s'.conn.requests s.conn.next_id ≡ none)
      × (s'.handler.queue ≡ [])
unfolding call_and_wait async_call_method get_after arrive
call_and_wait_lem {T} from_value s method params before resp v up live room others to empty
      none_queued =
    let (fresh, sent, waits, rest, subs) = send_lem s.conn req v up in
    let (next, alive, same_id) = sent_keeps s.conn req (omega (arith, room)) in
    go (send s.conn req) sent next alive same_id (record {
      waits = waits;
      unowned = λ t h. (let (r, at, topic) = v.owned t id (rw subs at h) in cc);
      below = omega (arith, next);
    })
  where
    id : ℕ
    id = s.conn.next_id

    tok : RequestToken
    tok = token_of s.conn id

    req : RpcRequest
    req = call_method method params s.chan

    go :
        (p : Conn × Result RequestToken)
        → p.1 ≡ ok tok
        → p.0.next_id ≡ id + 1
        → p.0.alive ≡ s.conn.alive
        → p.0.conn_id ≡ s.conn.conn_id
        → Pending id (request_data req) p.0
        → (s' : Session) × (get_after from_value (before ++ resp ∷ []) (with_conn s p)
            ≡ returned s' (response_of from_value (event_of resp.err resp.result)))
          × (s'.conn.requests id ≡ none)
          × (s'.handler.queue ≡ [])
    go (c, err e) bad next alive same_id p = cc
    go (c, ok t) is_tok next alive same_id p =
        let (front, free, read, gone) =
          arrived c id s.chan (request_data req) before resp to refl refl refl (rw alive live)
            (omega (arith, next, room)) others p in
        let own : t ≡ tok = cc in
        let here : tok ≡ token_of c id =
          ap (λ n. record { conn_id = n; req_id = id }) (sym same_id) in
        let s2 : Session = arrive (record s { conn = c }) (before ++ resp ∷ []) in
        let pre : List ResponseMessage = s.handler.queue ++ front in
        let ev : ResponseEvent = event_of resp.err resp.result in
        let queued : s2.handler.queue ≡ pre ++ record { token = tok; event = ev } ∷ [] =
          ap (λ l. s.handler.queue ++ l) read
          ∙ (sym (append_assoc s.handler.queue front _)
              ∙ ap (λ x. pre ++ record { token = x; event = ev } ∷ []) (sym here)) in
        let skipped : NoneFor tok pre =
          NoneFor-append tok s.handler.queue front none_queued
            (subst (λ x. NoneFor x front) (sym here) free) in
        (
          record s2 { handler = record { updates = cache pre s.handler.updates; queue = [] } },
          ap (get_typed from_value s2) own
              ∙ get_typed-front from_value s2 tok pre ev empty skipped queued,
          gone,
          refl,
        )
