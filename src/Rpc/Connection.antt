-- ===== src/Rpc/Connection.antt =====
-- src/rpc.rs, `InnerRpcConnection`. `delivered` is what the connection has put on the channels, `sent`
-- what it has given to the socket; both grow at the end. A request is by its number, a subscription by
-- its topic. Each method is one step: the maps' locks are not held across methods.
use sub_script.Prelude.{
  ℕ, ◌+◌, ◌%◌, ◌^◌, String, Bool, false, Option, none, some, List, [], ◌∷◌, ◌++◌, ◌==◌, str_eq,
  if◌then◌else◌, Result, ok, err, rpc_failed,
}
use sub_script.Rpc.Message.{
  Value, as_str, RequestToken, RpcError, ResponseEvent, reply, update, error, closed,
  ResponseMessage, RpcRequest, unsubscribe_request, RequestData, Outgoing, request_data,
  RpcRespParams, RpcResp,
}

-- the socket's sending end: not set yet, good, or refusing
pub data Out : Type 0 where
  not_connected connected broken : Out

pub record Conn : Type 0 where
  pub conn_id : ℕ
  pub next_id : ℕ
  pub requests : ℕ → Option RequestData
  pub subscriptions : String → Option ℕ
  pub out : Out
  -- the channels whose receiver lives
  pub alive : ℕ → Bool
  pub delivered : List (ℕ × ResponseMessage)
  pub sent : List Outgoing

abbrev pub put {ℓ} : {V : Type ℓ} → ℕ → Option V → (ℕ → Option V) → ℕ → Option V
put k v m j = if k == j then v else m j

abbrev pub put_topic {ℓ} :
    {V : Type ℓ} → String → Option V → (String → Option V) → String → Option V
put_topic k v m j = if str_eq k j then v else m j

unfoldable pub new : ℕ → (ℕ → Bool) → Conn
new id alive = record {
  conn_id = id;
  next_id = 1;
  requests = λ i. none;
  subscriptions = λ t. none;
  out = not_connected;
  alive = alive;
  delivered = [];
  sent = [];
}

unfoldable pub set_out : Conn → Conn
set_out c = record c { out = connected }

abbrev pub token_of : Conn → ℕ → RequestToken
token_of c id = record { conn_id = c.conn_id; req_id = id }

-- `fetch_add` on an `AtomicU32`, and the new entry
unfoldable pub add_request : Conn → RpcRequest → Conn
add_request c req = record c {
  next_id = (c.next_id + 1) % 2 ^ 32;
  requests = put c.next_id (some (request_data req)) c.requests;
}

abbrev pub transmit : Out → Conn → Outgoing → RequestToken → Conn × Result RequestToken
transmit not_connected c m t = (c, ok t)
transmit connected c m t = (record c { sent = c.sent ++ m ∷ [] }, ok t)
transmit broken c m t = (c, err rpc_failed)

unfoldable pub send : Conn → RpcRequest → Conn × Result RequestToken
unfolding add_request
send c req =
    transmit c.out (add_request c req)
      (record { id = c.next_id; method = req.method; params = req.params }) (token_of c c.next_id)

-- `RequestData::send`
abbrev pub is_open : Conn → Option ℕ → Bool
is_open c none = false
is_open c (some tx) = c.alive tx

abbrev pub push :
    Option ℕ → ResponseMessage → List (ℕ × ResponseMessage) → List (ℕ × ResponseMessage)
push none m log = log
push (some tx) m log = log ++ (tx, m) ∷ []

unfoldable pub deliver : Conn → RequestData → ℕ → ResponseEvent → Conn
deliver c req id e =
    if is_open c req.resp_tx
    then record c {
      delivered = push req.resp_tx (record { token = token_of c id; event = e }) c.delivered;
    }
    else c

unfoldable pub forget_topic : Conn → Option String → Conn
forget_topic c none = c
forget_topic c (some t) = record c { subscriptions = put_topic t none c.subscriptions }

abbrev pub as_unit {ℓ} : {A : Type ℓ} → Conn × Result A → Conn × Result (Unit {0})
as_unit (c, ok _) = (c, ok tt)
as_unit (c, err e) = (c, err e)

unfoldable pub unsubscribe_topic : Conn → Option String → Option String → Conn × Result (Unit {0})
unfolding send
unsubscribe_topic c (some t) (some u) = as_unit (send c (unsubscribe_request u t))
unsubscribe_topic c _ _ = (c, ok tt)

unfoldable pub close_found : Conn → ℕ → RequestData → Conn × Result (Unit {0})
unfolding deliver forget_topic unsubscribe_topic
close_found c id req =
    let removed = record c { requests = put id none c.requests } in
    unsubscribe_topic (forget_topic (deliver removed req id closed) req.topic) req.topic req.unsub

unfoldable pub close_request : Conn → ℕ → Conn × Result (Unit {0})
unfolding close_found
close_request c id = elim (c.requests id) [ none ↦ (c, ok tt) | some req ↦ close_found c id req ]

unfoldable pub request_error : Conn → ℕ → RpcError → Conn
unfolding deliver forget_topic
request_error c id e = elim (c.requests id) [
  | none ↦ c
  | some req ↦
      forget_topic (deliver (record c { requests = put id none c.requests }) req id (error e))
        req.topic
]

abbrev pub topic_of : Option Value → Option String
topic_of none = none
topic_of (some v) = as_str v

-- a subscription starts: its result is the topic
unfoldable pub start_subscription : Conn → ℕ → RequestData → Option String → Conn
start_subscription c id req none = c
start_subscription c id req (some t) = record c {
  subscriptions = put_topic t (some id) c.subscriptions;
  requests = put id (some (record req { topic = some t })) c.requests;
}

unfoldable pub answer : Conn → ℕ → RequestData → Option Value → Conn
unfolding deliver start_subscription
answer c id req result =
    if req.is_subscription
    then start_subscription c id req (topic_of result)
    else let c' = deliver c req id (reply result) in
      record c' { requests = put id none c'.requests }

unfoldable pub request_reply : Conn → ℕ → Option Value → Conn
unfolding answer
request_reply c id result = elim (c.requests id) [ none ↦ c | some req ↦ answer c id req result ]

-- An update that no one receives closes the subscription; the result of that is dropped.
unfoldable pub request_update : Conn → ℕ → Option Value → Conn
unfolding deliver close_request
request_update c id result = elim (c.requests id) [
  | none ↦ c
  | some req ↦
      if is_open c req.resp_tx then deliver c req id (update result) else (close_request c id).0
]

abbrev pub get_subscription_id : Conn → Option Value → Option ℕ
get_subscription_id c v = elim (topic_of v) [ none ↦ none | some t ↦ c.subscriptions t ]

unfoldable pub on_update : Conn → Option RpcRespParams → Conn
unfolding request_update
on_update c none = c
on_update c (some p) = elim (get_subscription_id c p.subscription) [
  | none ↦ c
  | some id ↦ request_update c id p.result
]

unfoldable pub on_answer : Conn → ℕ → Option RpcError → Option Value → Conn
unfolding request_error request_reply
on_answer c id (some e) result = request_error c id e
on_answer c id none result = request_reply c id result

unfoldable pub on_notice : Conn → Option Value → Option RpcRespParams → Conn
unfolding on_update
on_notice c none params = c
on_notice c (some _) params = on_update c params

unfoldable pub on_resp : Conn → RpcResp → Conn
unfolding on_answer on_notice
on_resp c resp = elim resp.id [
  | none ↦ on_notice c resp.method resp.params
  | some id ↦ on_answer c id resp.err resp.result
]
