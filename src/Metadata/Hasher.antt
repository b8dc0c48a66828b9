-- ===== src/Metadata/Hasher.antt =====
-- src/metadata.rs, `KeyHasherType` and `KeyHasher`. The hash functions of `frame_support` and `sp_core` are
-- a parameter. A key is encoded by `NamedType::encode`, which is `TypeRef::encode` of its cell.
use sub_script.Prelude.{
  ℕ, List, [], ◌∷◌, ◌++◌, get_elem?, none, some, Result, ok, err, ◌>>=◌, not_a_map,
  not_a_double_map, panicked,
}
use sub_script.Dynamic.{Dynamic, unit}
use sub_script.Libs.{Libs}
use sub_script.Types.Meta.{TypeMeta}
use sub_script.Types.Encode.{encode}

pub data KeyHasherType : Type 0 where
  blake2_128 blake2_256 blake2_128_concat twox_128 twox_256 twox_64_concat identity : KeyHasherType

pub record Hashes : Type 0 where
  pub hash_blake2_128 : List ℕ → List ℕ
  pub hash_blake2_256 : List ℕ → List ℕ
  pub hash_blake2_128_concat : List ℕ → List ℕ
  pub hash_twox_128 : List ℕ → List ℕ
  pub hash_twox_256 : List ℕ → List ℕ
  pub hash_twox_64_concat : List ℕ → List ℕ

-- the cells of the key types, each with its hash function
abbrev pub KeyHasher : Type 0
KeyHasher = List (ℕ × KeyHasherType)

unfoldable pub hash : Hashes → KeyHasherType → List ℕ → List ℕ
hash hs blake2_128 = hs.hash_blake2_128
hash hs blake2_256 = hs.hash_blake2_256
hash hs blake2_128_concat = hs.hash_blake2_128_concat
hash hs twox_128 = hs.hash_twox_128
hash hs twox_256 = hs.hash_twox_256
hash hs twox_64_concat = hs.hash_twox_64_concat
hash hs identity = λ key. key

unfoldable pub raw_hash_key : Hashes → KeyHasher → List ℕ → ℕ → List ℕ → Result (List ℕ)
raw_hash_key hs kh buf idx key = elim (get_elem? kh idx) [
  | none ↦ err panicked
  | some (r, hasher) ↦ ok (buf ++ hash hs hasher key)
]

-- The arms of `match self.type_hashers.len()`.
unfoldable pub raw_map_key : Hashes → KeyHasher → List ℕ → List ℕ → Result (List ℕ)
unfolding raw_hash_key
raw_map_key hs [] buf key = err not_a_map
raw_map_key hs (a ∷ []) buf key = raw_hash_key hs (a ∷ []) buf 0 key
raw_map_key hs (a ∷ b ∷ kh) buf key = err not_a_double_map

unfoldable pub raw_double_map_key : Hashes → KeyHasher → List ℕ → List ℕ → List ℕ → Result (List ℕ)
unfolding raw_hash_key
raw_double_map_key hs (a ∷ b ∷ []) buf key1 key2 = do
  buf1 ← raw_hash_key hs (a ∷ b ∷ []) buf 0 key1
  raw_hash_key hs (a ∷ b ∷ []) buf1 1 key2
raw_double_map_key hs _ buf key1 key2 = err not_a_double_map

module _ (l : Libs) (hs : Hashes) (deref : ℕ → TypeMeta) (fuel : ℕ) where
  unfoldable pub hash_key : KeyHasher → List ℕ → ℕ → Dynamic → Result (List ℕ)
  unfolding raw_hash_key
  hash_key kh buf idx key = elim (get_elem? kh idx) [
    | none ↦ err panicked
    | some (r, hasher) ↦ encode l deref fuel r key >>= λ bytes. raw_hash_key hs kh buf idx bytes
  ]

  unfoldable pub encode_map_key : KeyHasher → Dynamic → Result (List ℕ)
  encode_map_key [] key = err not_a_map
  encode_map_key ((r, _) ∷ []) key = encode l deref fuel r key
  encode_map_key (a ∷ b ∷ kh) key = err not_a_double_map

  unfoldable pub encode_double_map_key : KeyHasher → Dynamic → Dynamic → Result (List ℕ × List ℕ)
  encode_double_map_key ((r1, _) ∷ (r2, _) ∷ []) key1 key2 = do
    buf1 ← encode l deref fuel r1 key1
    buf2 ← encode l deref fuel r2 key2
    ok (buf1, buf2)
  encode_double_map_key _ key1 key2 = err not_a_double_map

  unfoldable pub get_map_key : KeyHasher → List ℕ → Dynamic → Result (List ℕ)
  unfolding hash_key
  get_map_key [] buf key = err not_a_map
  get_map_key (a ∷ []) buf key = hash_key (a ∷ []) buf 0 key
  get_map_key (a ∷ b ∷ kh) buf key = err not_a_double_map

  unfoldable pub get_double_map_key : KeyHasher → List ℕ → Dynamic → Dynamic → Result (List ℕ)
  unfolding hash_key
  get_double_map_key (a ∷ b ∷ []) buf key1 key2 = do
    buf1 ← hash_key (a ∷ b ∷ []) buf 0 key1
    hash_key (a ∷ b ∷ []) buf1 1 key2
  get_double_map_key _ buf key1 key2 = err not_a_double_map

  -- A unit for the first key asks for the prefix of all keys.
  abbrev pub prefix_of : KeyHasher → List ℕ → Dynamic → Result (List ℕ)
  prefix_of kh buf unit = ok buf
  prefix_of kh buf key1 = hash_key kh buf 0 key1

  unfoldable pub get_double_map_prefix : KeyHasher → List ℕ → Dynamic → Result (List ℕ)
  unfolding hash_key
  get_double_map_prefix (a ∷ b ∷ []) buf key1 = prefix_of (a ∷ b ∷ []) buf key1
  get_double_map_prefix _ buf key1 = err not_a_double_map
