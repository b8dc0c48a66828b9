-- ===== src/Rpc/Message.antt =====
-- src/rpc.rs: tokens, events, requests and the messages of the server.
use sub_script.Prelude.{ℕ, String, Bool, true, false, Option, none, some, ◌==◌, ◌&&◌, ℤ}

-- A JSON value (`serde_json`): a text, the list of one text, or any other value by its number.
pub data Value : Type 0 where
  text : String → Value
  topics : String → Value
  other : ℕ → Value

abbrev pub as_str : Value → Option String
as_str (text s) = some s
as_str _ = none

-- `RequestToken(connection, request)`
pub record RequestToken : Type 0 where
  pub conn_id : ℕ
  pub req_id : ℕ

abbrev pub token_eq : RequestToken → RequestToken → Bool
token_eq a b = a.conn_id == b.conn_id && a.req_id == b.req_id

pub record RpcError : Type 0 where
  pub code : ℤ
  pub message : String

pub data ResponseEvent : Type 0 where
  reply update : Option Value → ResponseEvent
  error : RpcError → ResponseEvent
  closed : ResponseEvent

pub record ResponseMessage : Type 0 where
  pub token : RequestToken
  pub event : ResponseEvent

-- A channel's sending end is the channel's number.
pub record RpcRequest : Type 0 where
  pub method : String
  pub params : Value
  pub is_subscription : Bool
  pub unsub : Option String
  pub resp_tx : Option ℕ

abbrev pub call_method : String → Value → ℕ → RpcRequest
call_method method params tx = record {
  method = method;
  params = params;
  is_subscription = false;
  unsub = none;
  resp_tx = some tx;
}

abbrev pub subscribe : String → Value → ℕ → String → RpcRequest
subscribe method params tx unsub = record {
  method = method;
  params = params;
  is_subscription = true;
  unsub = some unsub;
  resp_tx = some tx;
}

abbrev pub unsubscribe_request : String → String → RpcRequest
unsubscribe_request method topic = record {
  method = method;
  params = topics topic;
  is_subscription = false;
  unsub = none;
  resp_tx = none;
}

pub record RequestData : Type 0 where
  pub is_subscription : Bool
  pub unsub : Option String
  pub topic : Option String
  pub resp_tx : Option ℕ

-- What goes out over the socket.
pub record Outgoing : Type 0 where
  pub id : ℕ
  pub method : String
  pub params : Value

abbrev pub request_data : RpcRequest → RequestData
request_data req = record {
  is_subscription = req.is_subscription;
  unsub = req.unsub;
  topic = none;
  resp_tx = req.resp_tx;
}

pub record RpcRespParams : Type 0 where
  pub result : Option Value
  pub subscription : Option Value

pub record RpcResp : Type 0 where
  pub err : Option RpcError
  pub id : Option ℕ
  pub result : Option Value
  pub method : Option Value
  pub params : Option RpcRespParams
