-- ===== src/Tests/Connections.antt =====
-- A connection with one call and one started subscription, and a handler's queue.
use sub_script.Prelude.{
  ℕ, ◌≡◌, ◌≢◌, refl, str_eq, str_eq_iff, Bool, Bool-cases, inl, inr, true, false, none, some, [],
  ◌∷◌, ◌++◌, if◌then◌else◌, ok, arith,
}
use sub_script.Rpc.Message.{
  text, topics, other, RequestToken, update, closed, ResponseMessage, RpcRequest, call_method,
  subscribe, RequestData, request_data, RpcRespParams, RpcResp,
}
use sub_script.Rpc.Connection.{
  connected, Conn, put, put_topic, new, set_out, token_of, add_request, send, is_open, push,
  close_request, on_resp,
}
use sub_script.Rpc.Invariant.{Inv}
use sub_script.Rpc.Routing.{send_lem, close_request_lem, on_resp_update}
use sub_script.Rpc.Reachable.{Reach, here, next, opens, calls, receives, Reach-Inv}
use sub_script.Rpc.Session.{Session, returned, call_and_wait}
use sub_script.Rpc.Session.Answers.{call_and_wait_lem}
use sub_script.Rpc.Handler.{
  response_of, Handler, got, get_response, last_event, get_response_keeps_last,
}

abbrev alive : ℕ → Bool
alive i = true

abbrev watch : RequestData
watch = record {
  is_subscription = true;
  unsub = some "unwatch";
  topic = some "T";
  resp_tx = some 5;
}

abbrev call : RequestData
call = record { is_subscription = false; unsub = none; topic = none; resp_tx = some 6 }

-- request 1 is a started subscription, request 2 a call
abbrev two : Conn
two = record {
  conn_id = 9;
  next_id = 3;
  requests = put 1 (some watch) (put 2 (some call) (λ i. none));
  subscriptions = put_topic "T" (some 1) (λ t. none);
  out = connected;
  alive = alive;
  delivered = [];
  sent = [];
}

two-Inv : Inv two
two-Inv = record {
  plain = λ i req e s. ground arith;
  owned = λ t i e. elim (Bool-cases (str_eq "T" t)) [
    | inl same ↦ let at : i ≡ 1 = ground arith in (watch, rw at, ground (arith, str_eq_iff "T" t))
    | inr different ↦ ground arith
  ];
  below = λ i h. ground arith;
}

abbrev ask : RpcRequest
ask = call_method "chain_getHeader" (other 0) 7

send_lem_example :
    (two.requests two.next_id ≡ none)
    × ((send two ask).1 ≡ ok (token_of two two.next_id))
    × ((send two ask).0.requests two.next_id ≡ some (request_data ask))
    × ((i : ℕ) → i ≢ two.next_id → (send two ask).0.requests i ≡ two.requests i)
    × ((send two ask).0.subscriptions ≡ two.subscriptions)
send_lem_example = send_lem two ask two-Inv (λ e. cc)

close_request_lem_example :
    ((close_request two 1).0.requests 1 ≡ none)
    × ((close_request two 1).0.subscriptions "T" ≡ none)
    × ((close_request two 1).0.sent
        ≡ [] ++ record { id = 3; method = "unwatch"; params = topics "T" } ∷ [])
    × ((close_request two 1).0.delivered ≡ (
        if is_open two (some 5)
        then push (some 5) (record { token = token_of two 1; event = closed }) []
        else []))
    × ((close_request two 1).1 ≡ ok tt)
close_request_lem_example = close_request_lem two 1 watch "T" "unwatch" two-Inv refl refl refl refl

abbrev late : RpcResp
late = record {
  err = none;
  id = some 2;
  result = some (text "again");
  method = none;
  params = none;
}

abbrev news : RpcRespParams
news = record { result = some (other 42); subscription = some (text "T") }

abbrev notice : RpcResp
notice = record {
  err = none;
  id = none;
  result = none;
  method = some (text "event");
  params = some news;
}

on_resp_update_example :
    (req : RequestData) × (two.requests 1 ≡ some req)
    × (req.topic ≡ some "T")
    × (on_resp two notice ≡ (
        if is_open two req.resp_tx
        then record two {
          delivered =
              push req.resp_tx
                (record { token = token_of two 1; event = update news.result })
                two.delivered;
        }
        else (close_request two 1).0))
on_resp_update_example =
    on_resp_update two notice news (text "event") "T" 1 two-Inv refl refl refl refl refl

-- a new connection, connected, that has subscribed and has the server's answer
abbrev start : RpcRequest
start = subscribe "watch" (other 0) 5 "unwatch"

abbrev started : RpcResp
started = record { err = none; id = some 1; result = some (text "T"); method = none; params = none }

abbrev asked : Conn
asked = (send (set_out (new 9 alive)) start).0

path : Reach (new 9 alive) (on_resp asked started)
unfolding new set_out send add_request
path =
    next (next (next here (opens _)) (calls _ start (omega arith)))
      (receives _ started (omega arith) (λ id e f req at sub. ground arith))

Reach-Inv_example : Inv (on_resp asked started)
Reach-Inv_example = Reach-Inv 9 alive (on_resp asked started) path

abbrev token : ℕ → RequestToken
token i = record { conn_id = 9; req_id = i }

abbrev message : ℕ → ℕ → ResponseMessage
message i v = record { token = token i; event = update (some (other v)) }

abbrev waiting_for : Handler
waiting_for = record {
  updates = λ t. none;
  queue = message 1 10 ∷ message 1 11 ∷ message 2 20 ∷ message 1 12 ∷ [];
}

last_is : last_event (token 1) (message 1 10 ∷ message 1 11 ∷ []) ≡ some (update (some (other 11)))
unfolding last_event
last_is = refl

get_response_keeps_last_example :
    (h' h'' : Handler) × (get_response waiting_for (token 2) ≡ got (update (some (other 20))) h')
    × (h'.queue ≡ message 1 12 ∷ [])
    × (get_response h' (token 1) ≡ got (update (some (other 11))) h'')
    × (h''.queue ≡ message 1 12 ∷ [])
    × (h''.updates (token 1) ≡ none)
get_response_keeps_last_example =
    get_response_keeps_last (token 2) (token 1) waiting_for (message 1 10 ∷ message 1 11 ∷ [])
      (message 1 12 ∷ []) (update (some (other 20))) (update (some (other 11))) refl refl
      (refl, (refl, tt)) last_is

abbrev session : Session
session = record {
  conn = two;
  chan = 6;
  handler = record { updates = λ t. none; queue = message 2 8 ∷ [] };
}

-- the answer to the call of the test
abbrev own_answer : RpcResp
own_answer = record {
  err = none;
  id = some 3;
  result = some (other 77);
  method = none;
  params = none;
}

call_and_wait_lem_example :
    (s' : Session) × (call_and_wait
        (λ v. some v)
        session
        "chain_getHeader"
        (other 0)
        (notice ∷ late ∷ own_answer ∷ [])
      ≡ returned s' (ok (some (other 77))))
    × (s'.conn.requests 3 ≡ none)
    × (s'.handler.queue ≡ [])
unfolding response_of
call_and_wait_lem_example =
    call_and_wait_lem (λ v. some v) session "chain_getHeader" (other 0) (notice ∷ late ∷ [])
      own_answer two-Inv (λ e. cc) refl (omega arith) ((λ e. cc), ((λ e. cc), tt)) refl refl
      (refl, tt)
