-- ===== src/Polymesh.antt =====
-- src/plugins/polymesh.rs, `str_to_ticker` and `PolymeshUtils::get_did`. The texts are bytes; `try_from` makes a
-- ticker of bytes, and `decode_did` an identity of a stored value.
use sub_script.Prelude.{
  ℕ, ◌-◌, String, Option, none, some, List, ◌++◌, length, take, replicate, ◌==◌, if◌then◌else◌,
  Result, ok, ◌>>=◌,
}
use sub_script.Metadata.Hasher.{Hashes}
use sub_script.Metadata.Storage.{StorageMetadata}
use sub_script.Libs.{Libs}
use sub_script.Types.Meta.{TypeMeta}
use sub_script.Client.Requests.{get_storage_map}

-- the first twelve bytes, with zeros behind
unfoldable pub ticker_bytes : List ℕ → List ℕ
ticker_bytes val = if length val == 12 then val else take 12 val ++ replicate (12 - length val) 0

module _ {Ticker : Type 0} (try_from : List ℕ → Result Ticker) where
  unfoldable pub str_to_ticker : List ℕ → Result Ticker
  unfolding ticker_bytes
  str_to_ticker val = try_from (ticker_bytes val)

module _ (l : Libs) (hs : Hashes) (deref : ℕ → TypeMeta) (fuel : ℕ)
    (get_storage : String → String → Result StorageMetadata)
    (storage : List ℕ → Option ℕ → Result (Option (List ℕ))) where
  abbrev pub did_of : {Did : Type 0} → (List ℕ → Result Did) → Option (List ℕ) → Result (Option Did)
  did_of decode_did none = ok none
  did_of decode_did (some v) = do did ← decode_did v; ok (some did)

  unfoldable pub get_did : {Did : Type 0} → (List ℕ → Result Did) → List ℕ → Result (Option Did)
  get_did decode_did account = do
    v ←
        get_storage_map l hs deref fuel get_storage storage "Identity" "KeyToIdentityIds" account
          none
    did_of decode_did v
