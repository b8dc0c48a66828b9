-- ===== src/Tests/Items.antt =====
-- A call with two parameters, a custom type, and a map of the chain's storage.
use sub_script.Prelude.{
  Result, ◌>>=◌, ℕ, ◌≡◌, refl, pos, true, false, Option, none, some, List, [], ◌∷◌, ◌==◌,
  if◌then◌else◌, length, ok, err, arith, decode_failed,
}
use sub_script.Dynamic.{Dynamic, int, text, type_id}
use sub_script.Types.Meta.{Enc, Reader, TypeMeta, bool_type, integer, emit}
use sub_script.Types.Encode
use sub_script.Types.Encode.{encode_ref, encode_meta}
use sub_script.Types.Decode
use sub_script.Types.Decode.{decode_ref, decode_meta}
use sub_script.Types.Custom.{custom_encode, custom_decode, custom_encode_lem}
use sub_script.Calls.{
  FuncMetadata, EncodedCall, encode_call, decode_each, FitsArgs, decode_each-encode_call,
  encode_call-length,
}
use sub_script.Types.Meta
use sub_script.Types.Meta.{EncodedArgs}
use sub_script.Storage.{Key}
use sub_script.Storage.Items
use sub_script.Storage.Items.{Chain, get_map_keys, each}
use sub_script.Storage.Lookups.{values_of, get_map_keys-each}
use sub_script.Metadata.Storage.{StorageMetadata, encode_map_key}
use sub_script.Client.Requests.{get_account_info}
use sub_script.Client.Requests.Account.{or_unit, chain_of, get_account_info-get_map}
use sub_script.Metadata.Hasher.{identity}
use sub_script.Metadata.Hasher
use sub_script.Metadata.Storage
use sub_script.Tests.Codec.{toy, toy-Laws, toy_hashes}
use sub_script.Tests.Values.{cells}

abbrev transfer : FuncMetadata
transfer = record {
  mod_idx = 5;
  func_idx = 0;
  args = record { name = "dest"; ty = 0 } ∷ record { name = "value"; ty = 4 } ∷ [];
}

abbrev params : List Dynamic
params = int (pos 7) ∷ int (pos 1000) ∷ []

params_fit : FitsArgs toy cells 3 2 transfer.args params
params_fit = ((refl, omega arith, omega arith), (omega arith, tt))

decode_each-encode_call_example :
    (d : EncodedArgs) × (encode_call toy cells 3 transfer params
      ≡ ok (record { mod_idx = 5; func_idx = 0; encoded = d }))
    × (decode_each toy cells 3 transfer.args d.data_bytes ≡ ok (params, []))
decode_each-encode_call_example =
    decode_each-encode_call toy toy-Laws cells 3 2 (omega arith) transfer params params_fit

abbrev made : EncodedCall
made = record {
  mod_idx = 5;
  func_idx = 0;
  encoded = record { data_bytes = 7 ∷ 1000 ∷ []; compact = false };
}

made_is : encode_call toy cells 3 transfer params ≡ ok made
unfolding encode_call Meta.◌>>◌ encode_ref encode_meta Encode.encode_integer Meta.in_compact
made_is = refl

encode_call-length_example : length params ≡ length transfer.args
encode_call-length_example = encode_call-length toy cells 3 transfer params made made_is

-- the amount of a text is its length
abbrev by_length : Dynamic → Enc
by_length (text s) = emit (length s ∷ [])
by_length _ = emit []

abbrev fails : Reader Dynamic
fails input = err decode_failed

-- the u128 cell with both registered
abbrev registered : TypeMeta
registered = custom_decode fails (custom_encode 4 by_length (integer 16 false))

custom_encode_lem_example :
    (encode_meta toy (encode_ref toy cells 3) cells registered (text (1 ∷ 2 ∷ [])) ≡ (
      if 4 == type_id (text (1 ∷ 2 ∷ []))
      then by_length (text (1 ∷ 2 ∷ []))
      else encode_meta toy (encode_ref toy cells 3) cells (integer 16 false) (text (1 ∷ 2 ∷ []))))
    × (decode_meta toy (decode_ref toy cells 3) registered true ≡ fails)
    × (decode_meta toy (decode_ref toy cells 3) (custom_encode 4 by_length (integer 16 false)) false
        ≡ decode_meta toy (decode_ref toy cells 3) (integer 16 false) false)
custom_encode_lem_example =
    custom_encode_lem toy (encode_ref toy cells 3) (decode_ref toy cells 3) cells 4 by_length fails
      (integer 16 false) (text (1 ∷ 2 ∷ [])) true

-- a map from u8 to u8 that holds a value under every key: the last byte of the key
abbrev levels : StorageMetadata
levels = record {
  prefix = 4 ∷ [];
  name = 2 ∷ [];
  key_hasher = some ((0, identity) ∷ []);
  value_ty = 0;
}

abbrev two_keys : List Dynamic
two_keys = int (pos 7) ∷ int (pos 9) ∷ []

abbrev state : Key → Option (List ℕ)
state (a ∷ b ∷ c ∷ k) = some (c ∷ [])
state _ = none

abbrev chain : Chain
chain = record {
  get_storage = λ m n. ok levels;
  get_storage_by_key = λ k. ok (state k);
  get_storage_by_keys = λ ks. ok (values_of state ks);
}

each_is : each toy toy_hashes cells 2 chain "Staking" "Levels" two_keys ≡ ok two_keys
unfolding each Items.get_map Storage.get_map_key Hasher.get_map_key Encode.encode encode_meta
    Encode.encode_integer Storage.get_prefix_key Hasher.hash Storage.decode_value Decode.decode
    decode_meta Decode.decode_integer
each_is = refl

get_map_keys-each_example :
    get_map_keys toy toy_hashes cells 2 chain "Staking" "Levels" two_keys ≡ ok two_keys
get_map_keys-each_example =
    get_map_keys-each toy toy_hashes cells 2 chain state (λ k. refl) (λ ks. refl) "Staking" "Levels"
      levels refl two_keys two_keys each_is

abbrev nodes : Key → Option ℕ → Result (Option (List ℕ))
nodes k at_block = ok (state k)

key_bytes : encode_map_key toy toy_hashes cells 2 levels (int (pos 7)) ≡ ok (7 ∷ [])
unfolding encode_map_key Hasher.encode_map_key Encode.encode encode_meta Encode.encode_integer
key_bytes = refl

get_account_info-get_map_example :
    Items.get_map toy toy_hashes cells 2
      (chain_of (λ m n. ok levels) nodes (λ ks. ok (values_of state ks)))
      "System"
      "Account"
      (int (pos 7))
    ≡ (get_account_info toy toy_hashes cells 2 (λ m n. ok levels) nodes 0 (7 ∷ []) >>= λ v.
        ok (or_unit v))
get_account_info-get_map_example =
    get_account_info-get_map toy toy_hashes cells 2 (λ m n. ok levels) nodes
      (λ ks. ok (values_of state ks)) levels (7 ∷ []) (int (pos 7)) refl key_bytes
