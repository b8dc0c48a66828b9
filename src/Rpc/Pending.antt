-- ===== src/Rpc/Pending.antt =====
-- src/rpc.rs: a request that waits while the parts of a step are done for others.
pub mod Receives
use native.Mathlib.Nat.{mod-eq_of_lt}
use sub_script.Prelude.{
  Bool, true, false, if◌then◌else◌, length, ℕ, ◌+◌, ◌%◌, ◌^◌, ◌≤◌, ◌<◌, ◌≡◌, ◌≢◌, refl, sym, ◌∙◌,
  String, false, Option, none, some, List, [], ◌∷◌, ◌++◌, ◌==◌, append_assoc, append-nil, Result,
  ok, err, arith, Bool-cases, Option-cases, inl, inr,
}
use sub_script.Rpc.Message.{
  Value, RpcError, ResponseEvent, reply, update, error, closed, ResponseMessage, RpcRequest,
  unsubscribe_request, RequestData, Outgoing, RpcRespParams, RpcResp,
}
use sub_script.Rpc.Connection.{
  Out, not_connected, connected, broken, Conn, put, token_of, add_request, transmit, send, is_open,
  push, deliver, forget_topic, as_unit, unsubscribe_topic, close_found, close_request,
  request_error, topic_of, start_subscription, answer, request_reply, request_update,
  get_subscription_id, on_update, on_answer, on_notice, on_resp,
}
use sub_script.Rpc.Invariant.{HasRoom, without, next_id-deliver, next_id-without}

fst-as_unit : {A : Type 0} (p : Conn × Result A) → (as_unit p).0 ≡ p.0
fst-as_unit (c, ok x) = refl
fst-as_unit (c, err e) = refl

-- no message for the request of a number
abbrev pub NoneOf : ℕ → List (ℕ × ResponseMessage) → Type 0
NoneOf id [] = Unit
NoneOf id ((tx, m) ∷ log) = ((m.token.req_id == id) ≡ false) × NoneOf id log

pub NoneOf-append :
    (id : ℕ) (l k : List (ℕ × ResponseMessage)) → NoneOf id l → NoneOf id k → NoneOf id (l ++ k)
NoneOf-append id [] k f g = g
NoneOf-append id ((tx, m) ∷ l) k (h, f) g = (h, NoneOf-append id l k f g)

module _ (id : ℕ) (req : RequestData) where
  -- The request waits, no topic leads to it, and its number is given out.
  pub record Pending (c : Conn) : Type 0 where
    pub waits : c.requests id ≡ some req
    pub unowned : (t : String) → c.subscriptions t ≢ some id
    pub below : id < c.next_id

  -- From one state to another the request goes on waiting, and nothing is delivered for it.
  pub record Goes (c c' : Conn) : Type 0 where
    pub pending : Pending c'
    pub same_id : c'.conn_id ≡ c.conn_id
    pub same_alive : c'.alive ≡ c.alive
    pub little : c'.next_id ≤ c.next_id + 1
    pub log : List (ℕ × ResponseMessage)
    pub added : c'.delivered ≡ c.delivered ++ log
    pub foreign : NoneOf id log

  pub Goes-refl : (c : Conn) → Pending c → Goes c c
  Goes-refl c p = record {
    pending = p;
    same_id = refl;
    same_alive = refl;
    little = omega arith;
    log = [];
    added = sym (append-nil c.delivered);
    foreign = tt;
  }

  -- The first part gives out no number.
  pub Goes-then :
      (c d e : Conn) → Goes c d → d.next_id ≡ c.next_id → (Pending d → Goes d e) → Goes c e
  Goes-then c d e f same next =
      let g = next f.pending in
      record {
        pending = g.pending;
        same_id = g.same_id ∙ f.same_id;
        same_alive = g.same_alive ∙ f.same_alive;
        little = omega (arith, g.little, same);
        log = f.log ++ g.log;
        added = g.added ∙ (rw (f.added) (append_assoc c.delivered f.log g.log));
        foreign = NoneOf-append id f.log g.log f.foreign g.foreign;
      }

  pub Goes-if :
      (c : Conn) (b : Bool) (x y : Conn) → Goes c x → Goes c y → Goes c (if b then x else y)
  Goes-if c true x y f g = f
  Goes-if c false x y f g = g

  module _ (j : ℕ) (other : (j == id) ≡ false) where
    pub Goes-deliver :
        (c : Conn) (r : RequestData) (e : ResponseEvent) → Pending c → Goes c (deliver c r j e)
    unfolding deliver
    Goes-deliver c r e p = elim (Bool-cases (is_open c r.resp_tx)) [
      | inr shut ↦ rw (shut, deliver) (Goes-refl c p)
      | inl live ↦ rw (live, deliver) (pushed r.resp_tx)
    ]
      where
        m : ResponseMessage
        m = record { token = token_of c j; event = e }

        pushed : (o : Option ℕ) → Goes c (record c { delivered = push o m c.delivered })
        pushed none = Goes-refl c p
        pushed (some tx) = record {
          pending = record { waits = p.waits; unowned = p.unowned; below = p.below };
          same_id = refl;
          same_alive = refl;
          little = omega arith;
          log = (tx, m) ∷ [];
          added = refl;
          foreign = (other, tt);
        }

    pub Goes-put :
        (c : Conn) (o : Option RequestData)
        → Pending c
        → Goes c (record c { requests = put j o c.requests })
    Goes-put c o p = record {
      pending = record { waits = rw other (p.waits); unowned = p.unowned; below = p.below };
      same_id = refl;
      same_alive = refl;
      little = omega arith;
      log = [];
      added = sym (append-nil c.delivered);
      foreign = tt;
    }

  pub Goes-forget_topic : (c : Conn) (o : Option String) → Pending c → Goes c (forget_topic c o)
  unfolding forget_topic
  Goes-forget_topic c none p = Goes-refl c p
  Goes-forget_topic c (some t) p = record {
    pending = record {
      waits = p.waits;
      unowned = λ s h. ground (arith, p.unowned s, h);
      below = p.below;
    };
    same_id = refl;
    same_alive = refl;
    little = omega arith;
    log = [];
    added = sym (append-nil c.delivered);
    foreign = tt;
  }

  Goes-added :
      (c : Conn) (r : RpcRequest) (sent : List Outgoing)
      → HasRoom c
      → Pending c
      → Goes c (record (add_request c r) { sent = sent })
  unfolding add_request
  Goes-added c r sent room p =
      let next : (c.next_id + 1) % 2 ^ 32 ≡ c.next_id + 1 = mod-eq_of_lt room in
      let apart : (c.next_id == id) ≡ false = ground (arith, p.below) in
      record {
        pending = record {
          waits = rw apart (p.waits);
          unowned = p.unowned;
          below = omega (arith, next, p.below);
        };
        same_id = refl;
        same_alive = refl;
        little = omega (arith, next);
        log = [];
        added = sym (append-nil c.delivered);
        foreign = tt;
      }

  pub Goes-send : (c : Conn) (r : RpcRequest) → HasRoom c → Pending c → Goes c (send c r).0
  unfolding send add_request
  Goes-send c r room p = sent c.out
    where
      m : Outgoing
      m = record { id = c.next_id; method = r.method; params = r.params }

      sent : (o : Out) → Goes c (transmit o (add_request c r) m (token_of c c.next_id)).0
      sent not_connected = Goes-added c r c.sent room p
      sent connected = Goes-added c r (c.sent ++ m ∷ []) room p
      sent broken = Goes-added c r c.sent room p

  pub Goes-unsubscribe_topic :
      (c : Conn) (t u : Option String) → HasRoom c → Pending c → Goes c (unsubscribe_topic c t u).0
  unfolding unsubscribe_topic
  Goes-unsubscribe_topic c none u room p = Goes-refl c p
  Goes-unsubscribe_topic c (some t) none room p = Goes-refl c p
  Goes-unsubscribe_topic c (some t) (some u) room p =
      rw (fst-as_unit (send c (unsubscribe_request u t)))
        (Goes-send c (unsubscribe_request u t) room p)
