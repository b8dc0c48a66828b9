-- ===== src/Rpc/Routing.antt =====
-- src/rpc.rs: where answers, updates and closings go.
use sub_script.Prelude.{
  ℕ, ◌<◌, ◌≡◌, refl, String, none, some, [], ◌∷◌, ◌++◌, str_eq_refl, if◌then◌else◌, Result, ok,
  arith, ◌≢◌,
}
use sub_script.Rpc.Message.{
  Value, text, topics, update, closed, RpcRequest, RequestData, Outgoing, request_data,
  RpcRespParams, RpcResp, RequestToken,
}
use sub_script.Rpc.Connection.{
  Out, not_connected, connected, broken, Conn, token_of, add_request, transmit, send, is_open, push,
  deliver, close_found, close_request, request_update, on_update, on_notice, on_resp,
}
use sub_script.Rpc.Invariant.{Inv, live_below}

-- A request that the socket does not refuse gets the next number, which no live request has, and
-- stands under it; every other request, and every subscription, is as it was.
pub send_lem :
    (c : Conn) (req : RpcRequest)
    → Inv c
    → c.out ≢ broken
    → (c.requests c.next_id ≡ none)
      × ((send c req).1 ≡ ok (token_of c c.next_id))
      × ((send c req).0.requests c.next_id ≡ some (request_data req))
      × ((i : ℕ) → i ≢ c.next_id → (send c req).0.requests i ≡ c.requests i)
      × ((send c req).0.subscriptions ≡ c.subscriptions)
unfolding send add_request
send_lem c req v up = go c.out up
  where
    m : Outgoing
    m = record { id = c.next_id; method = req.method; params = req.params }

    after : Out → Conn × Result RequestToken
    after o = transmit o (add_request c req) m (token_of c c.next_id)

    go :
        (o : Out)
        → o ≢ broken
        → (c.requests c.next_id ≡ none)
          × ((after o).1 ≡ ok (token_of c c.next_id))
          × ((after o).0.requests c.next_id ≡ some (request_data req))
          × ((i : ℕ) → i ≢ c.next_id → (after o).0.requests i ≡ c.requests i)
          × ((after o).0.subscriptions ≡ c.subscriptions)
    go not_connected h =
        (v.below c.next_id (omega arith), refl, ground arith, (λ i ne. ground arith), refl)
    go connected h =
        (v.below c.next_id (omega arith), refl, ground arith, (λ i ne. ground arith), refl)
    go broken h = absurd (h refl)

-- Closing a started subscription over a connected socket: the request and its topic are gone, the
-- receiver is told if it lives, and the server is asked, by a new request, to stop the topic.
pub close_request_lem :
    (c : Conn) (id : ℕ) (req : RequestData) (t u : String)
    → Inv c
    → c.requests id ≡ some req
    → req.topic ≡ some t
    → req.unsub ≡ some u
    → c.out ≡ connected
    → ((close_request c id).0.requests id ≡ none)
      × ((close_request c id).0.subscriptions t ≡ none)
      × ((close_request c id).0.sent
          ≡ c.sent ++ record { id = c.next_id; method = u; params = topics t } ∷ [])
      × ((close_request c id).0.delivered ≡ (
          if is_open c req.resp_tx
          then push req.resp_tx (record { token = token_of c id; event = closed }) c.delivered
          else c.delivered))
      × ((close_request c id).1 ≡ ok tt)
unfolding close_request close_found send add_request
close_request_lem c id req t u v at has_topic has_unsub up =
    let small : id < c.next_id = live_below c id req v at in ground (arith, small, str_eq_refl t)

-- An update of a subscribed topic goes to the request that owns the topic, as long as its receiver
-- lives: nothing else of the connection changes. If the receiver is gone, the request is closed.
pub on_resp_update :
    (c : Conn) (resp : RpcResp) (p : RpcRespParams) (m : Value) (t : String) (id : ℕ)
    → Inv c
    → resp.id ≡ none
    → resp.method ≡ some m
    → resp.params ≡ some p
    → p.subscription ≡ some (text t)
    → c.subscriptions t ≡ some id
    → (req : RequestData) × (c.requests id ≡ some req)
      × (req.topic ≡ some t)
      × (on_resp c resp ≡ (
          if is_open c req.resp_tx
          then record c {
            delivered =
                push req.resp_tx
                  (record { token = token_of c id; event = update p.result })
                  c.delivered;
          }
          else (close_request c id).0))
unfolding on_resp on_notice on_update request_update deliver
on_resp_update c resp p m t id v no_id has_method has_params topic sub =
    let (req, at, has_topic) = v.owned t id sub in (req, at, has_topic, ground arith)
