-- ===== src/Storage/Items.antt =====
-- src/storage.rs, `Storage`: items of the chain's storage by the names of a module and an item. The
-- metadata (`Metadata::get_storage`) and the node (values at the latest block) are parameters.
use sub_script.Prelude.{ℕ, String, Option, none, some, List, [], ◌∷◌, Result, ok, ◌>>=◌}
use sub_script.Dynamic.{Dynamic, unit}
use sub_script.Libs.{Libs}
use sub_script.Types.Meta.{TypeMeta}
use sub_script.Metadata.Hasher.{Hashes}
use sub_script.Metadata.Storage.{
  StorageMetadata, get_value_key, get_map_prefix, get_map_key, get_double_map_key,
  get_double_map_prefix, decode_value,
}
use sub_script.Storage.{Key, StorageKeysPaged, new}

pub record Chain : Type 0 where
  pub get_storage : String → String → Result StorageMetadata
  pub get_storage_by_key : Key → Result (Option (List ℕ))
  pub get_storage_by_keys : List Key → Result (List (Option (List ℕ)))

module _ (l : Libs) (hs : Hashes) (deref : ℕ → TypeMeta) (fuel : ℕ) (chain : Chain) where
  abbrev pub decoded : StorageMetadata → Option (List ℕ) → Result Dynamic
  decoded md none = ok unit
  decoded md (some v) = decode_value l hs deref fuel md v

  unfoldable pub get_by_key : StorageMetadata → Key → Result Dynamic
  get_by_key md key = do v ← chain.get_storage_by_key key; decoded md v

  unfoldable pub decode_each : StorageMetadata → List (Option (List ℕ)) → Result (List Dynamic)
  decode_each md [] = ok []
  decode_each md (v ∷ vs) = do x ← decoded md v; xs ← decode_each md vs; ok (x ∷ xs)

  unfoldable pub get_by_keys : StorageMetadata → List Key → Result (List Dynamic)
  unfolding decode_each
  get_by_keys md keys = do vs ← chain.get_storage_by_keys keys; decode_each md vs

  unfoldable pub get_value : String → String → Result Dynamic
  unfolding get_by_key
  get_value mod_name name = do
    md ← chain.get_storage mod_name name
    key ← get_value_key hs md
    get_by_key md key

  unfoldable pub get_map : String → String → Dynamic → Result Dynamic
  unfolding get_by_key
  get_map mod_name name key = do
    md ← chain.get_storage mod_name name
    k ← get_map_key l hs deref fuel md key
    get_by_key md k

  unfoldable pub get_double_map : String → String → Dynamic → Dynamic → Result Dynamic
  unfolding get_by_key
  get_double_map mod_name name key1 key2 = do
    md ← chain.get_storage mod_name name
    k ← get_double_map_key l hs deref fuel md key1 key2
    get_by_key md k

  unfoldable pub map_keys : StorageMetadata → List Dynamic → Result (List Key)
  map_keys md [] = ok []
  map_keys md (key ∷ keys) = do
    k ← get_map_key l hs deref fuel md key
    ks ← map_keys md keys
    ok (k ∷ ks)

  unfoldable pub get_map_keys : String → String → List Dynamic → Result (List Dynamic)
  unfolding map_keys get_by_keys
  get_map_keys mod_name name keys = do
    md ← chain.get_storage mod_name name
    ks ← map_keys md keys
    get_by_keys md ks

  unfoldable pub get_map_paged : String → String → Result StorageKeysPaged
  unfolding new
  get_map_paged mod_name name = do
    md ← chain.get_storage mod_name name
    prefix ← get_map_prefix hs md
    ok (new prefix)

  unfoldable pub get_double_paged : String → String → Dynamic → Result StorageKeysPaged
  unfolding new
  get_double_paged mod_name name key1 = do
    md ← chain.get_storage mod_name name
    prefix ← get_double_map_prefix l hs deref fuel md key1
    ok (new prefix)

  -- one lookup after the other
  unfoldable pub each : String → String → List Dynamic → Result (List Dynamic)
  each mod_name name [] = ok []
  each mod_name name (key ∷ keys) = do
    x ← get_map mod_name name key
    xs ← each mod_name name keys
    ok (x ∷ xs)
