-- ===== src/Metadata/Storage.antt =====
-- src/metadata.rs, `StorageMetadata`: the keys of one storage item, and its value.
use sub_script.Prelude.{ℕ, List, ◌++◌, Option, none, some, Result, ok, err, no_keys, keys_expected}
use sub_script.Dynamic.{Dynamic}
use sub_script.Libs.{Libs}
use sub_script.Types.Meta.{TypeMeta}
use sub_script.Types.Decode.{decode}
use sub_script.Metadata.Hasher
use sub_script.Metadata.Hasher.{Hashes, KeyHasher}

-- the prefix and the name by their bytes, the value's type by its cell
pub record StorageMetadata : Type 0 where
  pub prefix : List ℕ
  pub name : List ℕ
  pub key_hasher : Option KeyHasher
  pub value_ty : ℕ

module _ (hs : Hashes) where
  unfoldable pub get_prefix_key : StorageMetadata → List ℕ
  get_prefix_key md = hs.hash_twox_128 md.prefix ++ hs.hash_twox_128 md.name

  unfoldable pub get_value_key : StorageMetadata → Result (List ℕ)
  unfolding get_prefix_key
  get_value_key md = elim md.key_hasher [
    | some _ ↦ err keys_expected
    | none ↦ ok (get_prefix_key md)
  ]

  unfoldable pub get_map_prefix : StorageMetadata → Result (List ℕ)
  unfolding get_prefix_key
  get_map_prefix md = elim md.key_hasher [ some _ ↦ ok (get_prefix_key md) | none ↦ err no_keys ]

  unfoldable pub raw_map_key : StorageMetadata → List ℕ → Result (List ℕ)
  raw_map_key md key = elim md.key_hasher [
    | some kh ↦ Hasher.raw_map_key hs kh (get_prefix_key md) key
    | none ↦ err no_keys
  ]

  unfoldable pub raw_double_map_key : StorageMetadata → List ℕ → List ℕ → Result (List ℕ)
  raw_double_map_key md key1 key2 = elim md.key_hasher [
    | some kh ↦ Hasher.raw_double_map_key hs kh (get_prefix_key md) key1 key2
    | none ↦ err no_keys
  ]

module _ (l : Libs) (hs : Hashes) (deref : ℕ → TypeMeta) (fuel : ℕ) where
  unfoldable pub get_map_key : StorageMetadata → Dynamic → Result (List ℕ)
  get_map_key md key = elim md.key_hasher [
    | some kh ↦ Hasher.get_map_key l hs deref fuel kh (get_prefix_key hs md) key
    | none ↦ err no_keys
  ]

  unfoldable pub get_double_map_key : StorageMetadata → Dynamic → Dynamic → Result (List ℕ)
  get_double_map_key md key1 key2 = elim md.key_hasher [
    | some kh ↦ Hasher.get_double_map_key l hs deref fuel kh (get_prefix_key hs md) key1 key2
    | none ↦ err no_keys
  ]

  unfoldable pub get_double_map_prefix : StorageMetadata → Dynamic → Result (List ℕ)
  get_double_map_prefix md key1 = elim md.key_hasher [
    | some kh ↦ Hasher.get_double_map_prefix l hs deref fuel kh (get_prefix_key hs md) key1
    | none ↦ err no_keys
  ]

  unfoldable pub encode_map_key : StorageMetadata → Dynamic → Result (List ℕ)
  encode_map_key md key = elim md.key_hasher [
    | some kh ↦ Hasher.encode_map_key l hs deref fuel kh key
    | none ↦ err no_keys
  ]

  unfoldable pub encode_double_map_key :
      StorageMetadata → Dynamic → Dynamic → Result (List ℕ × List ℕ)
  encode_double_map_key md key1 key2 = elim md.key_hasher [
    | some kh ↦ Hasher.encode_double_map_key l hs deref fuel kh key1 key2
    | none ↦ err no_keys
  ]

  unfoldable pub decode_value : StorageMetadata → List ℕ → Result Dynamic
  decode_value md bytes = decode l deref fuel md.value_ty bytes
