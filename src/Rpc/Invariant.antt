-- ===== src/Rpc/Invariant.antt =====
-- src/rpc.rs: the invariant that ties the map of subscriptions to the map of requests, through the
-- steps that the methods of a connection are made of.
use sub_script.Prelude.{
  ℕ, ◌+◌, ◌%◌, ◌^◌, ◌≤◌, ◌<◌, ◌≡◌, refl, ap, ◌∙◌, String, false, Option, none, some, ◌==◌, str_eq,
  str_eq_iff, str_eq_refl, Bool-cases, Option-cases, inl, inr, arith, Result, ok, err,
}
use native.Mathlib.Nat.{mod-eq_of_lt}
use sub_script.Rpc.Message.{
  ResponseEvent, RpcRequest, unsubscribe_request, RequestData, Outgoing, RequestToken, request_data,
}
use sub_script.Rpc.Connection.{
  Out, not_connected, connected, broken, Conn, put, put_topic, add_request, transmit, send, deliver,
  is_open, forget_topic, as_unit, unsubscribe_topic,
}

-- Each subscription leads to a live request, which has the topic.
abbrev pub Owned : (ℕ → Option RequestData) → (String → Option ℕ) → Type 0
Owned requests subscriptions =
    (t : String) (i : ℕ)
    → subscriptions t ≡ some i
    → (req : RequestData) × (requests i ≡ some req) × (req.topic ≡ some t)

abbrev pub forget : Option String → (String → Option ℕ) → String → Option ℕ
forget none s = s
forget (some t) s = put_topic t none s

pub Owned-removed :
    (r : ℕ → Option RequestData) (s : String → Option ℕ) (id : ℕ) (req : RequestData)
    → r id ≡ some req
    → Owned r s
    → Owned (put id none r) (forget req.topic s)
Owned-removed r s id req at o t i e = elim (Option-cases req.topic) [
  | inl no_topic ↦ let (q, here, topic) = o t i (rw no_topic at e) in (q, ground arith, topic)
  | inr (u, has) ↦
      let e' : put_topic u none s t ≡ some i = rw has at e in
      let (q, here, topic) = o t i (ground (arith, e')) in (q, ground (arith, str_eq_refl t), topic)
]

pub Owned-added :
    (r : ℕ → Option RequestData) (s : String → Option ℕ) (n : ℕ) (x : RequestData)
    → r n ≡ none
    → Owned r s
    → Owned (put n (some x) r) s
Owned-added r s n x free o t i e = let (q, here, topic) = o t i e in (q, ground arith, topic)

pub Owned-started :
    (r : ℕ → Option RequestData) (s : String → Option ℕ) (id : ℕ) (req : RequestData) (u : String)
    → r id ≡ some req
    → req.topic ≡ none
    → Owned r s
    → Owned (put id (some (record req { topic = some u })) r) (put_topic u (some id) s)
Owned-started r s id req u at fresh o t i e = elim (Bool-cases (str_eq u t)) [
  | inl same ↦
      let same_id : id ≡ i = ground arith in
      (record req { topic = some u }, ground arith, ground (arith, str_eq_iff u t))
  | inr other ↦ let (q, here, topic) = o t i (ground arith) in (q, ground arith, topic)
]

-- A plain call never has a topic.
abbrev pub Plain : (ℕ → Option RequestData) → Type 0
Plain requests =
    (i : ℕ) (req : RequestData)
    → requests i ≡ some req
    → req.is_subscription ≡ false
    → req.topic ≡ none

pub Plain-removed : (r : ℕ → Option RequestData) (id : ℕ) → Plain r → Plain (put id none r)
Plain-removed r id p i req at sub = p i req (ground arith) sub

pub Plain-added :
    (r : ℕ → Option RequestData) (id : ℕ) (x : RequestData)
    → (x.is_subscription ≡ false → x.topic ≡ none)
    → Plain r
    → Plain (put id (some x) r)
Plain-added r id x h p i req at sub = elim (Bool-cases (id == i)) [
  | inl same ↦ let e : x ≡ req = ground arith in rw (← e) (h (rw e sub))
  | inr other ↦ p i req (ground arith) sub
]

pub record Inv (c : Conn) : Type 0 where
  pub plain : Plain c.requests
  pub owned : Owned c.requests c.subscriptions
  pub below : (i : ℕ) → c.next_id ≤ i → c.requests i ≡ none

-- The number of the next request does not wrap.
abbrev pub HasRoom : Conn → Type 0
HasRoom c = c.next_id + 1 < 2 ^ 32

pub Inv-deliver :
    (c : Conn) (req : RequestData) (id : ℕ) (e : ResponseEvent) → Inv c → Inv (deliver c req id e)
unfolding deliver
Inv-deliver c req id e v = elim (Bool-cases (is_open c req.resp_tx)) [
  | inl yes' ↦ rw yes' (record { plain = v.plain; owned = v.owned; below = v.below })
  | inr no' ↦ rw no' v
]

pub below_removed :
    (r : ℕ → Option RequestData) (n id : ℕ)
    → ((i : ℕ) → n ≤ i → r i ≡ none)
    → (i : ℕ) → n ≤ i
    → put id none r i ≡ none
below_removed r n id b i h = ground (arith, b i h)

pub below_added :
    (r : ℕ → Option RequestData) (n id : ℕ) (x : RequestData)
    → id < n
    → ((i : ℕ) → n ≤ i → r i ≡ none)
    → (i : ℕ) → n ≤ i
    → put id (some x) r i ≡ none
below_added r n id x small b i h = ground (arith, b i h)

-- A live request is below the counter.
pub live_below :
    (c : Conn) (id : ℕ) (req : RequestData) → Inv c → c.requests id ≡ some req → id < c.next_id
live_below c id req v e = ground (arith, v.below id)

pub Inv-add_request : (c : Conn) (req : RpcRequest) → HasRoom c → Inv c → Inv (add_request c req)
unfolding add_request
Inv-add_request c req room v =
    let next : (c.next_id + 1) % 2 ^ 32 ≡ c.next_id + 1 = mod-eq_of_lt room in
    record {
      plain = Plain-added c.requests c.next_id (request_data req) (λ _. refl) v.plain;
      owned =
          Owned-added c.requests c.subscriptions c.next_id (request_data req)
            (v.below c.next_id (omega arith)) v.owned;
      below = λ i h. ground (arith, v.below i, next);
    }

pub Inv-transmit :
    (o : Out) (c : Conn) (m : Outgoing) (t : RequestToken) → Inv c → Inv (transmit o c m t).0
Inv-transmit not_connected c m t v = v
Inv-transmit connected c m t v = record { plain = v.plain; owned = v.owned; below = v.below }
Inv-transmit broken c m t v = v

pub Inv-send : (c : Conn) (req : RpcRequest) → HasRoom c → Inv c → Inv (send c req).0
unfolding send
Inv-send c req room v = Inv-transmit c.out _ _ _ (Inv-add_request c req room v)

fst-as_unit : {A : Type 0} (p : Conn × Result A) → (as_unit p).0 ≡ p.0
fst-as_unit (c, ok a) = refl
fst-as_unit (c, err e) = refl

pub Inv-unsubscribe_topic :
    (c : Conn) (t u : Option String) → HasRoom c → Inv c → Inv (unsubscribe_topic c t u).0
unfolding unsubscribe_topic
Inv-unsubscribe_topic c (some t) (some u) room v =
    rw (fst-as_unit (send c (unsubscribe_request u t)))
      (Inv-send c (unsubscribe_request u t) room v)
Inv-unsubscribe_topic c none u room v = v
Inv-unsubscribe_topic c (some t) none room v = v

pub Inv-of :
    (c : Conn) (r : ℕ → Option RequestData) (s : String → Option ℕ) (n : ℕ)
    → c.requests ≡ r
    → c.subscriptions ≡ s
    → c.next_id ≡ n
    → Owned r s
    → ((i : ℕ) → n ≤ i → r i ≡ none)
    → Plain r
    → Inv c
Inv-of c r s n er es en o b p = record {
  plain = rw er p;
  owned = rw er (rw es o);
  below = rw er (rw en b);
}

pub requests-deliver :
    (c : Conn) (req : RequestData) (id : ℕ) (e : ResponseEvent)
    → (deliver c req id e).requests ≡ c.requests
unfolding deliver
requests-deliver c req id e = ground arith

pub subscriptions-deliver :
    (c : Conn) (req : RequestData) (id : ℕ) (e : ResponseEvent)
    → (deliver c req id e).subscriptions ≡ c.subscriptions
unfolding deliver
subscriptions-deliver c req id e = ground arith

pub next_id-deliver :
    (c : Conn) (req : RequestData) (id : ℕ) (e : ResponseEvent)
    → (deliver c req id e).next_id ≡ c.next_id
unfolding deliver
next_id-deliver c req id e = ground arith

subscriptions-forget_topic :
    (c : Conn) (t : Option String) → (forget_topic c t).subscriptions ≡ forget t c.subscriptions
unfolding forget_topic
subscriptions-forget_topic c none = refl
subscriptions-forget_topic c (some t) = refl

pub requests-forget_topic :
    (c : Conn) (t : Option String) → (forget_topic c t).requests ≡ c.requests
unfolding forget_topic
requests-forget_topic c none = refl
requests-forget_topic c (some t) = refl

next_id-forget_topic : (c : Conn) (t : Option String) → (forget_topic c t).next_id ≡ c.next_id
unfolding forget_topic
next_id-forget_topic c none = refl
next_id-forget_topic c (some t) = refl

abbrev pub without : Conn → ℕ → RequestData → ResponseEvent → Conn
without c id req e =
    forget_topic (deliver (record c { requests = put id none c.requests }) req id e) req.topic

pub next_id-without :
    (c : Conn) (id : ℕ) (req : RequestData) (e : ResponseEvent)
    → (without c id req e).next_id ≡ c.next_id
next_id-without c id req e =
    next_id-forget_topic _ req.topic
    ∙ next_id-deliver (record c { requests = put id none c.requests }) req id e

-- The state after a request and its topic are gone.
pub Inv-without :
    (c : Conn) (id : ℕ) (req : RequestData) (e : ResponseEvent)
    → c.requests id ≡ some req
    → Inv c
    → Inv (without c id req e)
Inv-without c id req e at v =
    Inv-of _ (put id none c.requests) (forget req.topic c.subscriptions) c.next_id
      (requests-forget_topic _ req.topic ∙ requests-deliver _ req id e)
      (subscriptions-forget_topic _ req.topic
        ∙ ap (forget req.topic) (subscriptions-deliver _ req id e))
      (next_id-without c id req e) (Owned-removed c.requests c.subscriptions id req at v.owned)
      (below_removed c.requests c.next_id id v.below) (Plain-removed c.requests id v.plain)
