-- ===== src/Rpc/Session.antt =====
-- src/rpc.rs, `RpcHandler` over its connection: a call is sent, what the server sends meanwhile goes through the
-- connection onto the channels, and the handler waits on its own. The socket's thread is a list of
-- messages that arrive before the wait ends.
pub mod Arrived
pub mod Answers
use sub_script.Prelude.{
  ℕ, ◌≡◌, refl, String, Option, List, [], ◌∷◌, ◌++◌, ◌==◌, if◌then◌else◌, Result, ok, err, arith,
}
use sub_script.Rpc.Message.{Value, RequestToken, ResponseMessage, call_method, subscribe, RpcResp}
use sub_script.Rpc.Connection.{Conn, send}
use sub_script.Rpc.Pending.{NoneOf}
use sub_script.Rpc.Pending.Receives.{receive_all}
use sub_script.Rpc.Handler.{Handler, Waited, got, waiting, get_response, response_of, NoneFor}

-- the handler's channel is by its number
pub record Session : Type 0 where
  pub conn : Conn
  pub chan : ℕ
  pub handler : Handler

abbrev pub with_conn : Session → Conn × Result RequestToken → Session × Result RequestToken
with_conn s (c, r) = (record s { conn = c }, r)

unfoldable pub async_call_method : Session → String → Value → Session × Result RequestToken
unfolding send
async_call_method s method params = with_conn s (send s.conn (call_method method params s.chan))

unfoldable pub subscribe_method : Session → String → Value → String → Session × Result RequestToken
unfolding send
subscribe_method s method params unsub =
    with_conn s (send s.conn (subscribe method params s.chan unsub))

-- what a channel carries of the messages
unfoldable pub on_channel : ℕ → List (ℕ × ResponseMessage) → List ResponseMessage
on_channel chan [] = []
on_channel chan ((tx, m) ∷ log) =
    let rest = on_channel chan log in if tx == chan then m ∷ rest else rest

-- the end of a log that has grown
unfoldable pub grown : {A : Type 0} → List A → List A → List A
grown [] log = log
grown (a ∷ old) [] = []
grown (a ∷ old) (b ∷ log) = grown old log

-- the server's messages arrive
unfoldable pub arrive : Session → List RpcResp → Session
unfolding receive_all on_channel grown
arrive s resps =
    let c = receive_all s.conn resps in
    record s {
      conn = c;
      handler = record s.handler {
        queue = s.handler.queue ++ on_channel s.chan (grown s.conn.delivered c.delivered);
      };
    }

pub data Called (A : Type 0) : Type 0 where
  returned : Session → Result A → Called A
  blocked : Session → Called A

unfoldable pub and_then : {A B : Type 0} → Called A → (Session → A → Called B) → Called B
and_then (returned s (ok a)) f = f s a
and_then (returned s (err e)) f = returned s (err e)
and_then (blocked s) f = blocked s

module _ {T : Type 0} (from_value : Value → Option T) where
  unfoldable pub response_for : Session → Waited → Called (Option T)
  unfolding response_of
  response_for s (got e h) = returned (record s { handler = h }) (response_of from_value e)
  response_for s (waiting h) = blocked (record s { handler = h })

  -- `RpcHandler::get_response`
  unfoldable pub get_typed : Session → RequestToken → Called (Option T)
  unfolding response_for get_response
  get_typed s t = response_for s (get_response s.handler t)

  unfoldable pub get_after : List RpcResp → Session × Result RequestToken → Called (Option T)
  unfolding get_typed arrive
  get_after resps (s, err e) = returned s (err e)
  get_after resps (s, ok t) = get_typed (arrive s resps) t

  -- `RpcHandler::call_method`, with what arrives while it waits
  unfoldable pub call_and_wait : Session → String → Value → List RpcResp → Called (Option T)
  unfolding get_after async_call_method
  call_and_wait s method params resps = get_after resps (async_call_method s method params)

  -- `RpcHandler::get_responses`
  unfoldable pub get_responses : Session → List RequestToken → Called (List (Option T))
  unfolding get_typed and_then
  get_responses s [] = returned s (ok [])
  get_responses s (t ∷ ts) =
      and_then (get_typed s t)
        λ s' x. and_then (get_responses s' ts) λ s'' xs. returned s'' (ok (x ∷ xs))
