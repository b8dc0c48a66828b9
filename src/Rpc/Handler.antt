-- ===== src/Rpc/Handler.antt =====
-- src/rpc.rs, `InnerRpcHandler` and `RpcHandler`: waiting for the answer to one token on a channel that
-- carries the answers to all. The queue holds what has arrived; a wait on an empty queue blocks, and
-- the channel is not closed while the handler, which has a sender, lives. `from_value` is serde's.
use sub_script.Prelude.{
  Bool, true, false, Option, none, some, List, [], ◌∷◌, ◌++◌, ◌≡◌, refl, if◌then◌else◌, Result, ok,
  err, rpc_failed, unexpected_event, request_failed, malformed, arith,
}
use sub_script.Rpc.Message.{
  Value, RequestToken, token_eq, ResponseEvent, reply, update, error, closed, ResponseMessage,
}

pub record Handler : Type 0 where
  pub updates : RequestToken → Option ResponseEvent
  pub queue : List ResponseMessage

pub data Waited : Type 0 where
  got : ResponseEvent → Handler → Waited
  waiting : Handler → Waited

abbrev pub store :
    RequestToken
    → Option ResponseEvent
    → (RequestToken → Option ResponseEvent)
    → RequestToken
    → Option ResponseEvent
store t e u x = if token_eq t x then e else u x

-- The cache is looked at before each message is taken.
unfoldable pub wait_for_update :
    RequestToken → (RequestToken → Option ResponseEvent) → List ResponseMessage → Waited
wait_for_update t u [] = elim (u t) [
  | none ↦ waiting (record { updates = u; queue = [] })
  | some e ↦ got e (record { updates = store t none u; queue = [] })
]
wait_for_update t u (m ∷ q) = elim (u t) [
  | none ↦
      if token_eq t m.token
      then got m.event (record { updates = u; queue = q })
      else wait_for_update t (store m.token (some m.event) u) q
  | some e ↦ got e (record { updates = store t none u; queue = m ∷ q })
]

unfoldable pub get_response : Handler → RequestToken → Waited
unfolding wait_for_update
get_response h t = elim (h.updates t) [
  | some e ↦ got e (record h { updates = store t none h.updates })
  | none ↦ wait_for_update t h.updates h.queue
]

-- What a call makes of the event: `none` is a null result.
module _ {T : Type 0} (from_value : Value → Option T) where
  abbrev pub parsed : Option Value → Result (Option T)
  parsed none = ok none
  parsed (some v) = elim (from_value v) [ none ↦ err malformed | some x ↦ ok (some x) ]

  unfoldable pub response_of : ResponseEvent → Result (Option T)
  response_of (reply v) = parsed v
  response_of (update v) = err unexpected_event
  response_of (error e) = err rpc_failed
  response_of closed = err request_failed

  -- The flag says that the request is closed first.
  unfoldable pub update_of : ResponseEvent → Result (Option T) × Bool
  update_of (update v) = (parsed v, false)
  update_of (error e) = (err rpc_failed, false)
  update_of (reply v) = (err unexpected_event, true)
  update_of closed = (err unexpected_event, true)

abbrev pub NoneFor : RequestToken → List ResponseMessage → Type 0
NoneFor t [] = Unit
NoneFor t (m ∷ q) = (token_eq t m.token ≡ false) × NoneFor t q

-- the last event for a token
unfoldable pub last_event : RequestToken → List ResponseMessage → Option ResponseEvent
last_event t [] = none
last_event t (m ∷ q) = elim (last_event t q) [
  | some e ↦ some e
  | none ↦ if token_eq m.token t then some m.event else none
]

pub cache :
    List ResponseMessage
    → (RequestToken → Option ResponseEvent)
    → RequestToken
    → Option ResponseEvent
cache [] u = u
cache (m ∷ q) u = cache q (store m.token (some m.event) u)

token_sym : (s t : RequestToken) → token_eq s t ≡ token_eq t s
token_sym s t = ground arith

cache-last_event :
    (t : RequestToken) (q : List ResponseMessage) (u : RequestToken → Option ResponseEvent)
    → cache q u t ≡ elim (last_event t q) [ some e ↦ some e | none ↦ u t ]
unfolding cache last_event
cache-last_event t [] u = refl
cache-last_event t (m ∷ q) u = ground (arith, cache-last_event t q (store m.token (some m.event) u))

token_refl : (t : RequestToken) → token_eq t t ≡ true
token_refl t = ground arith

pub wait_cached :
    (t : RequestToken) (u : RequestToken → Option ResponseEvent) (pre post : List ResponseMessage)
    (e : ResponseEvent)
    → u t ≡ none
    → NoneFor t pre
    → wait_for_update t u (pre ++ record { token = t; event = e } ∷ post)
      ≡ got e (record { updates = cache pre u; queue = post })
unfolding wait_for_update cache
wait_cached t u [] post e empty h = rw (empty, wait_for_update) (rw (token_refl t))
wait_cached t u (m ∷ pre) post e empty h =
    rw (empty, wait_for_update)
      (rw (h.0) (
        wait_cached t (store m.token (some m.event) u) pre post e
          (rw (token_sym m.token t) (rw (h.0) empty)) h.1))

-- Waiting for one token takes the first event for it off the queue and leaves what is behind it. Of
-- another token's events that were in front only the last is kept: it is what the next wait for that
-- token gives, and after that the cache has nothing for the token. Earlier ones are lost.
pub get_response_keeps_last :
    (t other : RequestToken) (h : Handler) (pre post : List ResponseMessage)
    (e kept : ResponseEvent)
    → h.queue ≡ pre ++ record { token = t; event = e } ∷ post
    → h.updates t ≡ none
    → NoneFor t pre
    → last_event other pre ≡ some kept
    → (h' h'' : Handler) × (get_response h t ≡ got e h')
      × (h'.queue ≡ post)
      × (get_response h' other ≡ got kept h'')
      × (h''.queue ≡ post)
      × (h''.updates other ≡ none)
unfolding get_response
get_response_keeps_last t other h pre post e kept q empty no_t last = (
  record { updates = cache pre h.updates; queue = post },
  record { updates = store other none (cache pre h.updates); queue = post },
  rw (empty, get_response) (rw q (wait_cached t h.updates pre post e empty no_t)),
  refl,
  rw (cached, get_response),
  refl,
  rw (token_refl other),
)
  where
    cached : cache pre h.updates other ≡ some kept
    cached = rw (cache-last_event other pre h.updates) (rw last)
