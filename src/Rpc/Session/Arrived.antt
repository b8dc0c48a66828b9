-- ===== src/Rpc/Session/Arrived.antt =====
-- src/rpc.rs, what has arrived on the channel of a call.
use sub_script.Prelude.{
  ℕ, ◌+◌, ◌^◌, ◌<◌, ◌≡◌, refl, ap, ◌∙◌, true, false, Option, none, some, List, [], ◌∷◌, ◌++◌,
  ==_refl, append_assoc, length, arith,
}
use sub_script.Rpc.Message.{
  Value, RequestToken, RpcError, ResponseEvent, reply, error, ResponseMessage, RequestData, RpcResp,
}
use sub_script.Rpc.Connection.{
  Conn, token_of, deliver, request_error, request_reply, answer, on_answer, on_resp, forget_topic,
}
use sub_script.Rpc.Pending.{NoneOf, Pending}
use sub_script.Rpc.Pending.Receives.{receive_all, ForOthers, Waiting-receive_all}
use sub_script.Rpc.Handler.{NoneFor}
use sub_script.Rpc.Session.{on_channel, grown}

grown-append : {A : Type 0} (old log : List A) → grown old (old ++ log) ≡ log
unfolding grown
grown-append [] log = refl
grown-append (a ∷ old) log = grown-append old log

on_channel-append :
    (chan : ℕ) (l k : List (ℕ × ResponseMessage))
    → on_channel chan (l ++ k) ≡ on_channel chan l ++ on_channel chan k
unfolding on_channel
on_channel-append chan [] k = refl
on_channel-append chan ((tx, m) ∷ l) k = ground (arith, on_channel-append chan l k)

on_channel-NoneFor :
    (t : RequestToken) (chan : ℕ) (log : List (ℕ × ResponseMessage))
    → NoneOf t.req_id log
    → NoneFor t (on_channel chan log)
unfolding on_channel
on_channel-NoneFor t chan [] h = tt
on_channel-NoneFor t chan ((tx, m) ∷ log) (other, h) =
    ground (arith, other, on_channel-NoneFor t chan log h)

pub NoneFor-append :
    (t : RequestToken) (q r : List ResponseMessage) → NoneFor t q → NoneFor t r → NoneFor t (q ++ r)
NoneFor-append t [] r f g = g
NoneFor-append t (m ∷ q) r (h, f) g = (h, NoneFor-append t q r f g)

-- the event that an answer is
abbrev pub event_of : Option RpcError → Option Value → ResponseEvent
event_of none result = reply result
event_of (some e) result = error e

-- The answer to a plain call goes to the caller's channel, and the request is gone.
answered :
    (c : Conn) (id tx : ℕ) (e : Option RpcError) (result : Option Value) (req : RequestData)
    → c.requests id ≡ some req
    → req.is_subscription ≡ false
    → req.topic ≡ none
    → req.resp_tx ≡ some tx
    → c.alive tx ≡ true
    → ((on_answer c id e result).delivered
        ≡ c.delivered ++ (tx, record { token = token_of c id; event = event_of e result }) ∷ [])
      × ((on_answer c id e result).requests id ≡ none)
unfolding on_answer request_reply request_error answer deliver forget_topic
answered c id tx none result req at call no_topic to live = ground (arith, ==_refl id)
answered c id tx (some e) result req at call no_topic to live = ground (arith, ==_refl id)

receive_all-append :
    (c : Conn) (before : List RpcResp) (resp : RpcResp)
    → receive_all c (before ++ resp ∷ []) ≡ on_resp (receive_all c before) resp
unfolding receive_all
receive_all-append c [] resp = refl
receive_all-append c (r ∷ before) resp = receive_all-append (on_resp c r) before resp

-- What has arrived on the channel of a pending call once its answer is there.
module _ (c : Conn) (id chan : ℕ) (req : RequestData) (before : List RpcResp) (resp : RpcResp)
    (to : resp.id ≡ some id) (call : req.is_subscription ≡ false) (no_topic : req.topic ≡ none)
    (tx : req.resp_tx ≡ some chan) (live : c.alive chan ≡ true)
    (room : c.next_id + length before < 2 ^ 32) (others : ForOthers id before)
    (p : Pending id req c) where
  abbrev msg : ResponseMessage
  msg = record { token = token_of c id; event = event_of resp.err resp.result }

  abbrev end : Conn
  end = receive_all c (before ++ resp ∷ [])

  -- in front of the answer there is nothing for the call
  abbrev Arrived : Type 0
  Arrived =
      (front : List ResponseMessage) × NoneFor (token_of c id) front
      × (on_channel chan (grown c.delivered end.delivered) ≡ front ++ msg ∷ [])
      × (end.requests id ≡ none)

  pub arrived : Arrived
  unfolding on_resp on_channel
  arrived =
      let w = Waiting-receive_all id req c before room others p in
      let d : Conn = receive_all c before in
      let (log, gone) =
        answered d id chan resp.err resp.result req w.pending.waits call no_topic tx
          (rw (w.same_alive) live) in
      let last : end ≡ on_answer d id resp.err resp.result =
        receive_all-append c before resp ∙ rw (to, on_resp) refl in
      let token : token_of d id ≡ token_of c id =
        ap (λ n. record { conn_id = n; req_id = id }) w.same_id in
      let m : ResponseMessage = record {
        token = token_of d id;
        event = event_of resp.err resp.result;
      } in
      let same : m ≡ msg =
        ap (λ t. record { token = t; event = event_of resp.err resp.result }) token in
      let total : end.delivered ≡ c.delivered ++ (w.log ++ (chan, m) ∷ []) =
        ap (λ x. x.delivered) last
        ∙ (log
            ∙ (ap (λ l. l ++ (chan, m) ∷ []) w.added
                ∙ append_assoc c.delivered w.log ((chan, m) ∷ []))) in
      let single : on_channel chan ((chan, m) ∷ []) ≡ m ∷ [] = rw (==_refl chan) refl in
      (
        on_channel chan w.log,
        on_channel-NoneFor (token_of c id) chan w.log w.foreign,
        ap (λ l. on_channel chan (grown c.delivered l)) total
            ∙ (ap (on_channel chan) (grown-append c.delivered (w.log ++ (chan, m) ∷ []))
                ∙ (on_channel-append chan w.log ((chan, m) ∷ [])
                    ∙ ap (λ l. on_channel chan w.log ++ l) (single ∙ ap (λ x. x ∷ []) same))),
        ap (λ x. x.requests id) last ∙ gone,
      )
