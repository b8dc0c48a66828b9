-- ===== src/Rpc/Pending/Receives.antt =====
-- src/rpc.rs: a request that waits while the messages of the server for others come in.
use sub_script.Prelude.{
  false, length, ℕ, ◌+◌, ◌^◌, ◌<◌, ◌≡◌, ◌≢◌, refl, sym, ◌∙◌, String, false, Option, none, some,
  List, [], ◌∷◌, ◌++◌, ◌==◌, append_assoc, append-nil, arith, Option-cases, inl, inr,
}
use sub_script.Rpc.Message.{
  Value, RpcError, ResponseEvent, reply, update, error, closed, ResponseMessage, RequestData,
  RpcRespParams, RpcResp,
}
use sub_script.Rpc.Connection.{
  Conn, put, is_open, deliver, close_found, close_request, request_error, topic_of,
  start_subscription, answer, request_reply, request_update, get_subscription_id, on_update,
  on_answer, on_notice, on_resp,
}
use sub_script.Rpc.Invariant.{HasRoom, without, next_id-deliver, next_id-without}
use sub_script.Rpc.Pending.{
  NoneOf, NoneOf-append, Pending, Goes, Goes-refl, Goes-then, Goes-if, Goes-deliver, Goes-put,
  Goes-forget_topic, Goes-unsubscribe_topic,
}

module _ (id : ℕ) (req : RequestData) where
  module _ (j : ℕ) (other : (j == id) ≡ false) where
    -- the request of another number is told, and removed with its topic
    Goes-without :
        (c : Conn) (r : RequestData) (e : ResponseEvent)
        → Pending id req c
        → Goes id req c (without c j r e)
    Goes-without c r e p =
        let removed : Conn = record c { requests = put j none c.requests } in
        Goes-then id req c removed _ (Goes-put id req j other c none p) refl λ q.
          Goes-then id req removed (deliver removed r j e) _
            (Goes-deliver id req j other removed r e q) (next_id-deliver removed r j e)
            (Goes-forget_topic id req (deliver removed r j e) r.topic)

    Goes-close_request :
        (c : Conn) → HasRoom c → Pending id req c → Goes id req c (close_request c j).0
    unfolding close_request close_found
    Goes-close_request c room p = elim (Option-cases (c.requests j)) [
      | inl gone ↦ rw (gone, close_request) (Goes-refl id req c p)
      | inr (r, at) ↦
          rw (at, close_request)
            (Goes-then id req c (without c j r closed) _ (Goes-without c r closed p)
              (next_id-without c j r closed)
              (Goes-unsubscribe_topic id req (without c j r closed) r.topic r.unsub
                (rw (next_id-without c j r closed) room)))
    ]

    Goes-request_error :
        (c : Conn) (e : RpcError) → Pending id req c → Goes id req c (request_error c j e)
    unfolding request_error
    Goes-request_error c e p = elim (Option-cases (c.requests j)) [
      | inl gone ↦ rw (gone, request_error) (Goes-refl id req c p)
      | inr (r, at) ↦ rw (at, request_error) (Goes-without c r (error e) p)
    ]

    Goes-start_subscription :
        (c : Conn) (r : RequestData) (t : Option String)
        → Pending id req c
        → Goes id req c (start_subscription c j r t)
    unfolding start_subscription
    Goes-start_subscription c r none p = Goes-refl id req c p
    Goes-start_subscription c r (some t) p = record {
      pending = record {
        waits = rw other (p.waits);
        unowned = λ s h. ground (arith, p.unowned s, other, h);
        below = p.below;
      };
      same_id = refl;
      same_alive = refl;
      little = omega arith;
      log = [];
      added = sym (append-nil c.delivered);
      foreign = tt;
    }

    Goes-request_reply :
        (c : Conn) (result : Option Value)
        → Pending id req c
        → Goes id req c (request_reply c j result)
    unfolding request_reply answer
    Goes-request_reply c result p = elim (Option-cases (c.requests j)) [
      | inl gone ↦ rw (gone, request_reply) (Goes-refl id req c p)
      | inr (r, at) ↦
          rw (at, request_reply)
            (Goes-if id req c r.is_subscription _ _
              (Goes-start_subscription c r (topic_of result) p)
              (Goes-then id req c (deliver c r j (reply result)) _
                (Goes-deliver id req j other c r (reply result) p)
                (next_id-deliver c r j (reply result))
                (Goes-put id req j other (deliver c r j (reply result)) none)))
    ]

    Goes-request_update :
        (c : Conn) (result : Option Value)
        → HasRoom c
        → Pending id req c
        → Goes id req c (request_update c j result)
    unfolding request_update
    Goes-request_update c result room p = elim (Option-cases (c.requests j)) [
      | inl gone ↦ rw (gone, request_update) (Goes-refl id req c p)
      | inr (r, at) ↦
          rw (at, request_update)
            (Goes-if id req c (is_open c r.resp_tx) _ _
              (Goes-deliver id req j other c r (update result) p) (Goes-close_request c room p))
    ]

  Goes-on_update :
      (c : Conn) (o : Option RpcRespParams)
      → HasRoom c
      → Pending id req c
      → Goes id req c (on_update c o)
  unfolding on_update
  Goes-on_update c none room p = Goes-refl id req c p
  Goes-on_update c (some u) room p = elim (Option-cases (get_subscription_id c u.subscription)) [
    | inl gone ↦ rw (gone, on_update) (Goes-refl id req c p)
    | inr (j, at) ↦
        rw (at, on_update)
          (Goes-request_update j (led (topic_of u.subscription) j at) c u.result room p)
  ]
    where
      led :
          (t : Option String) (j : ℕ)
          → elim t as (λ x. Option ℕ) [ none ↦ none | some s ↦ c.subscriptions s ] ≡ some j
          → (j == id) ≡ false
      led none j h = cc
      led (some s) j h = ground (arith, p.unowned s, h)

  Goes-on_resp :
      (c : Conn) (resp : RpcResp)
      → HasRoom c
      → resp.id ≢ some id
      → Pending id req c
      → Goes id req c (on_resp c resp)
  unfolding on_resp on_answer on_notice
  Goes-on_resp c resp room other p = elim (Option-cases resp.id) [
    | inl notice ↦ rw (notice, on_resp) (noticed resp.method)
    | inr (j, at) ↦
        let apart : (j == id) ≡ false = ground (arith, other, at) in
        rw (at, on_resp) (answered j apart resp.err)
  ]
    where
      noticed : (m : Option Value) → Goes id req c (on_notice c m resp.params)
      noticed none = Goes-refl id req c p
      noticed (some m) = Goes-on_update c resp.params room p

      answered :
          (j : ℕ)
          → (j == id) ≡ false
          → (e : Option RpcError) → Goes id req c (on_answer c j e resp.result)
      answered j apart none = Goes-request_reply j apart c resp.result p
      answered j apart (some e) = Goes-request_error j apart c e p

-- the messages of the server, one after the other
unfoldable pub receive_all : Conn → List RpcResp → Conn
unfolding on_resp
receive_all c [] = c
receive_all c (resp ∷ resps) = receive_all (on_resp c resp) resps

abbrev pub ForOthers : ℕ → List RpcResp → Type 0
ForOthers id [] = Unit
ForOthers id (resp ∷ resps) = (resp.id ≢ some id) × ForOthers id resps

module _ (id : ℕ) (req : RequestData) where
  -- what a run leaves: the request waits, and nothing in the log is for it
  pub record Waiting (c c' : Conn) : Type 0 where
    pub pending : Pending id req c'
    pub same_id : c'.conn_id ≡ c.conn_id
    pub same_alive : c'.alive ≡ c.alive
    pub log : List (ℕ × ResponseMessage)
    pub added : c'.delivered ≡ c.delivered ++ log
    pub foreign : NoneOf id log

  pub Waiting-receive_all :
      (c : Conn) (resps : List RpcResp)
      → c.next_id + length resps < 2 ^ 32
      → ForOthers id resps
      → Pending id req c
      → Waiting c (receive_all c resps)
  unfolding receive_all
  Waiting-receive_all c [] room h p = record {
    pending = p;
    same_id = refl;
    same_alive = refl;
    log = [];
    added = sym (append-nil c.delivered);
    foreign = tt;
  }
  Waiting-receive_all c (resp ∷ resps) room h p =
      let f = Goes-on_resp id req c resp (omega (arith, room)) h.0 p in
      let g =
        Waiting-receive_all (on_resp c resp) resps (omega (arith, room, f.little)) h.1 f.pending in
      record {
        pending = g.pending;
        same_id = g.same_id ∙ f.same_id;
        same_alive = g.same_alive ∙ f.same_alive;
        log = f.log ++ g.log;
        added = g.added ∙ (rw (f.added) (append_assoc c.delivered f.log g.log));
        foreign = NoneOf-append id f.log g.log f.foreign g.foreign;
      }
