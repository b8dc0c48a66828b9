-- ===== src/Rpc/Manager.antt =====
-- src/rpc.rs, `RpcManager`: one connection for each address. A connection is shared: here a value `Conn` that
-- `connect` makes with a number of its own, the number of a u16 that wraps.
use sub_script.Prelude.{
  ℕ, ◌+◌, ◌%◌, ◌^◌, String, none, some, List, [], lookup, insert, Result, ok, err,
}

pub record RpcManager (Conn : Type 0) : Type 0 where
  pub next_id : ℕ
  pub connections : List (String × Conn)

unfoldable pub new : {Conn : Type 0} → RpcManager Conn
new = record { next_id = 1; connections = [] }

module _ {Conn : Type 0} (connect : ℕ → String → Result Conn) where
  unfoldable pub get_next_id : RpcManager Conn → RpcManager Conn × ℕ
  get_next_id m = (record m { next_id = (m.next_id + 1) % 2 ^ 16 }, m.next_id)

  abbrev pub connected : String → RpcManager Conn → Result Conn → RpcManager Conn × Result Conn
  connected url m (err e) = (m, err e)
  connected url m (ok c) = (record m { connections = insert url c m.connections }, ok c)

  -- a number is used up also when the connection fails
  unfoldable pub get_connection : String → RpcManager Conn → RpcManager Conn × Result Conn
  unfolding get_next_id
  get_connection url m = elim (lookup url m.connections) [
    | some c ↦ (m, ok c)
    | none ↦ let (m', id) = get_next_id m in connected url m' (connect id url)
  ]
