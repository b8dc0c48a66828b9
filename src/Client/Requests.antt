-- ===== src/Client/Requests.antt =====
-- src/client.rs, `InnerClient`: what it asks the node for at the start, and reading the chain's storage. The
-- node is a parameter, with one field for each method called through `RpcHandler::call_method`;
-- the metadata is the lookup of a storage item, and block hashes are numbers.
pub mod Account
use sub_script.Prelude.{
  ℕ, String, Option, none, some, List, [], ◌∷◌, Result, ok, err, ◌>>=◌, or_fail, rpc_failed,
}
use sub_script.Dynamic.{Dynamic, unit}
use sub_script.Libs.{Libs}
use sub_script.Types.Meta.{TypeMeta}
use sub_script.Types.Decode.{decode}
use sub_script.Metadata.Hasher.{Hashes}
use sub_script.Metadata.Storage.{StorageMetadata, get_value_key, raw_map_key, raw_double_map_key}
use sub_script.Client.Extrinsic.{AdditionalSigned}

pub record RuntimeVersion : Type 0 where
  pub spec_version : ℕ
  pub transaction_version : ℕ

-- `state_getMetadata` gives a text; `decode_metadata` makes the metadata of it
pub record Node (Meta : Type 0) : Type 0 where
  pub runtime_version : Result (Option RuntimeVersion)
  pub block_hash : ℕ → Result (Option ℕ)
  pub metadata_hex : Result (Option (List ℕ))
  pub decode_metadata : List ℕ → Result Meta
  pub storage : List ℕ → Option ℕ → Result (Option (List ℕ))
  pub keys_paged : List ℕ → ℕ → List ℕ → Result (Option (List (List ℕ)))

abbrev pub required {ℓ} : {A : Type ℓ} → Result (Option A) → Result A
required r = r >>= λ o. or_fail o rpc_failed

-- the parts of the client that do not change
pub record Session (Meta : Type 0) : Type 0 where
  pub version : RuntimeVersion
  pub genesis_hash : ℕ
  pub metadata : Meta

module _ {Meta : Type 0} (node : Node Meta) where
  unfoldable pub rpc_get_runtime_version : Result RuntimeVersion
  rpc_get_runtime_version = required node.runtime_version

  unfoldable pub rpc_get_block_hash : ℕ → Result (Option ℕ)
  rpc_get_block_hash n = node.block_hash n

  unfoldable pub rpc_get_genesis_hash : Result ℕ
  unfolding rpc_get_block_hash
  rpc_get_genesis_hash = required (rpc_get_block_hash 0)

  unfoldable pub rpc_get_runtime_metadata : Result Meta
  rpc_get_runtime_metadata = required node.metadata_hex >>= λ hex. node.decode_metadata hex

  unfoldable pub connect : Result (Session Meta)
  unfolding rpc_get_runtime_version rpc_get_genesis_hash rpc_get_runtime_metadata
  connect = do
    version ← rpc_get_runtime_version
    genesis ← rpc_get_genesis_hash
    metadata ← rpc_get_runtime_metadata
    ok (record { version = version; genesis_hash = genesis; metadata = metadata })

  abbrev pub or_nil : Option (List (List ℕ)) → List (List ℕ)
  or_nil none = []
  or_nil (some keys) = keys

  abbrev pub start_or : Option (List ℕ) → List ℕ → List ℕ
  start_or none prefix = prefix
  start_or (some k) prefix = k

  unfoldable pub get_storage_keys_paged : List ℕ → ℕ → Option (List ℕ) → Result (List (List ℕ))
  get_storage_keys_paged prefix count start_key = do
    keys ← node.keys_paged prefix count (start_or start_key prefix)
    ok (or_nil keys)

unfoldable pub get_signed_extra : {Meta : Type 0} → (ℕ → List ℕ) → Session Meta → AdditionalSigned
get_signed_extra hash_bytes s = record {
  spec_version = s.version.spec_version;
  transaction_version = s.version.transaction_version;
  genesis_hash = hash_bytes s.genesis_hash;
}

-- `storage` answers `state_getStorage` with a key and a block, the latest by `none`; `from_dynamic`
-- reads the nonce of a decoded account.
module _ (l : Libs) (hs : Hashes) (deref : ℕ → TypeMeta) (fuel : ℕ)
    (get_storage : String → String → Result StorageMetadata)
    (storage : List ℕ → Option ℕ → Result (Option (List ℕ))) where
  unfoldable pub get_storage_by_key : List ℕ → Option ℕ → Result (Option (List ℕ))
  get_storage_by_key key at_block = storage key at_block

  unfoldable pub get_storage_value : String → String → Option ℕ → Result (Option (List ℕ))
  unfolding get_storage_by_key
  get_storage_value mod_name name at_block = do
    md ← get_storage mod_name name
    key ← get_value_key hs md
    get_storage_by_key key at_block

  unfoldable pub get_storage_map : String → String → List ℕ → Option ℕ → Result (Option (List ℕ))
  unfolding get_storage_by_key
  get_storage_map mod_name name key at_block = do
    md ← get_storage mod_name name
    k ← raw_map_key hs md key
    get_storage_by_key k at_block

  unfoldable pub get_storage_double_map :
      String → String → List ℕ → List ℕ → Option ℕ → Result (Option (List ℕ))
  unfolding get_storage_by_key
  get_storage_double_map mod_name name key1 key2 at_block = do
    md ← get_storage mod_name name
    k ← raw_double_map_key hs md key1 key2
    get_storage_by_key k at_block

  abbrev pub events_of : ℕ → Option (List ℕ) → Result Dynamic
  events_of event_records none = ok unit
  events_of event_records (some v) = decode l deref fuel event_records v

  unfoldable pub get_block_events : ℕ → Option ℕ → Result Dynamic
  unfolding get_storage_value
  get_block_events event_records hash = do
    v ← get_storage_value "System" "Events" hash
    events_of event_records v

  abbrev pub info_of : ℕ → Option (List ℕ) → Result (Option Dynamic)
  info_of account_info none = ok none
  info_of account_info (some v) = do x ← decode l deref fuel account_info v; ok (some x)

  -- an account by its bytes
  unfoldable pub get_account_info : ℕ → List ℕ → Result (Option Dynamic)
  unfolding get_storage_map
  get_account_info account_info account = do
    v ← get_storage_map "System" "Account" account none
    info_of account_info v

  abbrev pub nonce_of : (Dynamic → Result ℕ) → Option Dynamic → Result (Option ℕ)
  nonce_of from_dynamic none = ok none
  nonce_of from_dynamic (some v) = do n ← from_dynamic v; ok (some n)

  unfoldable pub get_nonce : ℕ → (Dynamic → Result ℕ) → List ℕ → Result (Option ℕ)
  unfolding get_account_info
  get_nonce account_info from_dynamic account = do
    v ← get_account_info account_info account
    nonce_of from_dynamic v
