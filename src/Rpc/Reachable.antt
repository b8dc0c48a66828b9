-- ===== src/Rpc/Reachable.antt =====
-- src/rpc.rs: what the clients, the server and the socket can make of a connection, and the invariant
-- that ties the map of subscriptions to the map of requests.
use sub_script.Prelude.{
  ℕ, ◌≡◌, refl, ap, String, Bool, true, false, Option, none, some, if◌then◌else◌, Option-cases, inl,
  inr,
}
use mathlib.Core.Path.{subst}
use sub_script.Rpc.Message.{
  Value, RpcError, ResponseEvent, reply, update, error, closed, RpcRequest, RequestData,
  RpcRespParams, RpcResp,
}
use sub_script.Rpc.Connection.{
  broken, Conn, put, new, set_out, send, deliver, is_open, close_found, close_request,
  request_error, topic_of, start_subscription, answer, request_reply, request_update,
  get_subscription_id, on_update, on_answer, on_notice, on_resp,
}
use sub_script.Rpc.Invariant.{
  HasRoom, Inv, Inv-deliver, Inv-of, Inv-send, Inv-unsubscribe_topic, Inv-without, Owned,
  below_added, below_removed, forget, live_below, next_id-deliver, next_id-without, Owned-removed,
  Owned-started, Plain-added, Plain-removed, requests-deliver, subscriptions-deliver, without,
}

Inv-close_request : (c : Conn) (id : ℕ) → HasRoom c → Inv c → Inv (close_request c id).0
unfolding close_request close_found
Inv-close_request c id room v = elim (Option-cases (c.requests id)) [
  | inl gone ↦ rw (gone, close_request) v
  | inr (req, at) ↦
      rw (at, close_request)
        (Inv-unsubscribe_topic (without c id req closed) req.topic req.unsub
          (rw (next_id-without c id req closed) room) (Inv-without c id req closed at v))
]

Inv-request_error : (c : Conn) (id : ℕ) (e : RpcError) → Inv c → Inv (request_error c id e)
unfolding request_error
Inv-request_error c id e v = elim (Option-cases (c.requests id)) [
  | inl gone ↦ rw (gone, request_error) v
  | inr (req, at) ↦ rw (at, request_error) (Inv-without c id req (error e) at v)
]

-- The server starts a subscription once: the request has no topic yet.
abbrev pub FirstReply : Conn → ℕ → Type 0
FirstReply c id =
    (req : RequestData) → c.requests id ≡ some req → req.is_subscription ≡ true → req.topic ≡ none

Inv-start_subscription :
    (c : Conn) (id : ℕ) (req : RequestData) (t : Option String)
    → c.requests id ≡ some req
    → req.is_subscription ≡ true
    → req.topic ≡ none
    → Inv c
    → Inv (start_subscription c id req t)
unfolding start_subscription
Inv-start_subscription c id req none at sub fresh v = v
Inv-start_subscription c id req (some t) at sub fresh v = record {
  plain = Plain-added c.requests id (record req { topic = some t }) (λ no_sub. cc) v.plain;
  owned = Owned-started c.requests c.subscriptions id req t at fresh v.owned;
  below = below_added c.requests c.next_id id _ (live_below c id req v at) v.below;
}

Inv-if :
    (b : Bool) (x y : Conn) → (b ≡ true → Inv x) → (b ≡ false → Inv y) → Inv (if b then x else y)
Inv-if true x y hx hy = hx refl
Inv-if false x y hx hy = hy refl

-- An answered call is gone; it had no topic, so nothing leads to it.
Inv-answered :
    (c : Conn) (id : ℕ) (req : RequestData) (e : ResponseEvent)
    → c.requests id ≡ some req
    → req.topic ≡ none
    → Inv c
    → Inv (record (deliver c req id e) { requests = put id none (deliver c req id e).requests })
Inv-answered c id req e at no_topic v =
    Inv-of _ (put id none c.requests) c.subscriptions c.next_id
      (ap (put id none) (requests-deliver c req id e)) (subscriptions-deliver c req id e)
      (next_id-deliver c req id e)
      (subst (λ t. Owned (put id none c.requests) (forget t c.subscriptions)) no_topic
        (Owned-removed c.requests c.subscriptions id req at v.owned))
      (below_removed c.requests c.next_id id v.below) (Plain-removed c.requests id v.plain)

Inv-answer :
    (c : Conn) (id : ℕ) (req : RequestData) (result : Option Value)
    → c.requests id ≡ some req
    → (req.is_subscription ≡ true → req.topic ≡ none)
    → Inv c
    → Inv (answer c id req result)
unfolding answer
Inv-answer c id req result at first v =
    Inv-if req.is_subscription _ _
      (λ sub. Inv-start_subscription c id req (topic_of result) at sub (first sub) v)
      (λ call. Inv-answered c id req (reply result) at (v.plain id req at call) v)

Inv-request_reply :
    (c : Conn) (id : ℕ) (result : Option Value)
    → FirstReply c id
    → Inv c
    → Inv (request_reply c id result)
unfolding request_reply
Inv-request_reply c id result first v = elim (Option-cases (c.requests id)) [
  | inl gone ↦ rw (gone, request_reply) v
  | inr (req, at) ↦ rw (at, request_reply) (Inv-answer c id req result at (first req at) v)
]

Inv-request_update :
    (c : Conn) (id : ℕ) (result : Option Value)
    → HasRoom c
    → Inv c
    → Inv (request_update c id result)
unfolding request_update
Inv-request_update c id result room v = elim (Option-cases (c.requests id)) [
  | inl gone ↦ rw (gone, request_update) v
  | inr (req, at) ↦
      rw (at, request_update)
        (Inv-if (is_open c req.resp_tx) _ _ (λ _. Inv-deliver c req id (update result) v)
          (λ _. Inv-close_request c id room v))
]

Inv-on_update : (c : Conn) (p : Option RpcRespParams) → HasRoom c → Inv c → Inv (on_update c p)
unfolding on_update
Inv-on_update c none room v = v
Inv-on_update c (some p) room v = elim (Option-cases (get_subscription_id c p.subscription)) [
  | inl gone ↦ rw (gone, on_update) v
  | inr (id, at) ↦ rw (at, on_update) (Inv-request_update c id p.result room v)
]

Inv-on_answer :
    (c : Conn) (id : ℕ) (e : Option RpcError) (result : Option Value)
    → (e ≡ none → FirstReply c id)
    → Inv c
    → Inv (on_answer c id e result)
unfolding on_answer
Inv-on_answer c id none result first v = Inv-request_reply c id result (first refl) v
Inv-on_answer c id (some e) result first v = Inv-request_error c id e v

Inv-on_notice :
    (c : Conn) (m : Option Value) (p : Option RpcRespParams)
    → HasRoom c
    → Inv c
    → Inv (on_notice c m p)
unfolding on_notice
Inv-on_notice c none p room v = v
Inv-on_notice c (some m) p room v = Inv-on_update c p room v

-- The server answers a request to subscribe once, by an error or by a topic.
abbrev pub AnswersOnce : Conn → RpcResp → Type 0
AnswersOnce c resp = (id : ℕ) → resp.id ≡ some id → resp.err ≡ none → FirstReply c id

Inv-on_resp :
    (c : Conn) (resp : RpcResp) → HasRoom c → AnswersOnce c resp → Inv c → Inv (on_resp c resp)
unfolding on_resp
Inv-on_resp c resp room once v = elim (Option-cases resp.id) [
  | inl notice ↦ rw (notice, on_resp) (Inv-on_notice c resp.method resp.params room v)
  | inr (id, at) ↦ rw (at, on_resp) (Inv-on_answer c id resp.err resp.result (λ e. once id at e) v)
]

-- One step: a client's call, the server's message, the socket, or a receiver that goes away.
pub data Step : Conn → Conn → Type 0 where
  opens : (c : Conn) → Step c (set_out c)
  breaks : (c : Conn) → Step c (record c { out = broken })
  calls : (c : Conn) (req : RpcRequest) → HasRoom c → Step c (send c req).0
  closes : (c : Conn) (id : ℕ) → HasRoom c → Step c (close_request c id).0
  receives : (c : Conn) (resp : RpcResp) → HasRoom c → AnswersOnce c resp → Step c (on_resp c resp)
  drops : (c : Conn) (alive : ℕ → Bool) → Step c (record c { alive = alive })

pub data Reach (c : Conn) : Conn → Type 0 where
  here : Reach c c
  next : {d e : Conn} → Reach c d → Step d e → Reach c e

Inv-set_out : (c : Conn) → Inv c → Inv (set_out c)
unfolding set_out
Inv-set_out c v = record { plain = v.plain; owned = v.owned; below = v.below }

pub Step-Inv : {c d : Conn} → Step c d → Inv c → Inv d
Step-Inv (opens c) v = Inv-set_out c v
Step-Inv (breaks c) v = record { plain = v.plain; owned = v.owned; below = v.below }
Step-Inv (calls c req room) v = Inv-send c req room v
Step-Inv (closes c id room) v = Inv-close_request c id room v
Step-Inv (receives c resp room once) v = Inv-on_resp c resp room once v
Step-Inv (drops c alive) v = record { plain = v.plain; owned = v.owned; below = v.below }

Inv-new : (id : ℕ) (alive : ℕ → Bool) → Inv (new id alive)
unfolding new
Inv-new id alive = record { plain = λ i req e. cc; owned = λ t i e. cc; below = λ i h. refl }

reach_Inv : {c d : Conn} → Inv c → Reach c d → Inv d
reach_Inv v here = v
reach_Inv v (next r s) = Step-Inv s (reach_Inv v r)

-- In every state that a connection reaches from its creation, as long as request numbers do not wrap
-- and the server starts a subscription once: each subscribed topic leads to a live request that has
-- that topic, no plain call has a topic, and no request has a number that is still to be given out.
pub Reach-Inv : (id : ℕ) (alive : ℕ → Bool) (c : Conn) → Reach (new id alive) c → Inv c
Reach-Inv id alive c r = reach_Inv (Inv-new id alive) r
