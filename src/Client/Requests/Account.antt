-- ===== src/Client/Requests/Account.antt =====
-- src/client.rs, `InnerClient::get_account_info`, against the lookup of src/storage.rs.
use sub_script.Prelude.{
  ℕ, ◌≡◌, refl, inl, inr, String, Option, none, some, List, Result, ok, err, Result-cases, ◌>>=◌,
}
use sub_script.Dynamic.{Dynamic, unit}
use sub_script.Libs.{Libs}
use sub_script.Types.Meta.{TypeMeta}
use sub_script.Types.Decode.{decode}
use sub_script.Metadata.Hasher.{Hashes}
use sub_script.Metadata.Storage.{StorageMetadata, encode_map_key, raw_map_key, decode_value}
use sub_script.Metadata.Keys.{get_map_key-eq-raw}
use sub_script.Storage.Items.{Chain, decoded, get_by_key, get_map}
use sub_script.Client.Requests.{get_storage_map, get_account_info, info_of}

abbrev pub or_unit : Option Dynamic → Dynamic
or_unit none = unit
or_unit (some v) = v

abbrev pub chain_of :
    (String → String → Result StorageMetadata)
    → (List ℕ → Option ℕ → Result (Option (List ℕ)))
    → ((List (List ℕ)) → Result (List (Option (List ℕ))))
    → Chain
chain_of get_storage storage many = record {
  get_storage = get_storage;
  get_storage_by_key = λ k. storage k none;
  get_storage_by_keys = many;
}

module _ (l : Libs) (hs : Hashes) (deref : ℕ → TypeMeta) (fuel : ℕ)
    (get_storage : String → String → Result StorageMetadata)
    (storage : List ℕ → Option ℕ → Result (Option (List ℕ)))
    (many : List (List ℕ) → Result (List (Option (List ℕ)))) where
  decoded-info_of :
      (md : StorageMetadata) (o : Option (List ℕ))
      → decoded l hs deref fuel (chain_of get_storage storage many) md o
        ≡ (info_of l hs deref fuel get_storage storage md.value_ty o >>= λ v. ok (or_unit v))
  unfolding decode_value
  decoded-info_of md none = refl
  decoded-info_of md (some v) = go (decode l deref fuel md.value_ty v)
    where
      go : (r : Result Dynamic) → r ≡ ((r >>= λ x. ok (some x)) >>= λ v. ok (or_unit v))
      go (ok x) = refl
      go (err e) = refl

  -- When the script's value for the account encodes to the account's bytes, and the item System.Account has
  -- values of the type by which accounts are read: what the client reads of an account is what a script's
  -- lookup in System.Account gives, errors included, where no account stands for the unit.
  pub get_account_info-get_map :
      (md : StorageMetadata) (account : List ℕ) (key : Dynamic)
      → get_storage "System" "Account" ≡ ok md
      → encode_map_key l hs deref fuel md key ≡ ok account
      → get_map l hs deref fuel (chain_of get_storage storage many) "System" "Account" key ≡ (
          get_account_info l hs deref fuel get_storage storage md.value_ty account >>= λ v.
          ok (or_unit v))
  unfolding get_map get_by_key get_account_info get_storage_map
  get_account_info-get_map md account key known encodes =
      let raw = get_map_key-eq-raw l hs deref fuel md key in
      rw known (
        rw raw (
          rw encodes (elim (Result-cases (raw_map_key hs md account)) [
            | inr (e, bad) ↦ rw bad refl
            | inl (k, made) ↦ rw made (elim (Result-cases (storage k none)) [
              | inr (e, bad) ↦ rw bad refl
              | inl (o, given) ↦ rw given (decoded-info_of md o)
            ])
          ])))
