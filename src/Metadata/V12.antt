-- ===== src/Metadata/V12.antt =====
-- src/metadata.rs, what the version 12 has of its own: the types of storage, and the types over the modules.
pub mod Ends
pub mod Reads
use sub_script.Prelude.{ℕ, String, Option, none, some, List, [], ◌∷◌}
use sub_script.Types.Meta
use sub_script.Types.Registry.{M, proceed, ◌>>=◌, pure, insert_meta}
use sub_script.Types.Import.{lift}
use sub_script.Metadata.Hasher.{KeyHasher, KeyHasherType}
use sub_script.Metadata.Storage.{StorageMetadata}
use sub_script.Metadata.Modules.{ModuleMetadata}
use sub_script.Metadata.Top.{Metadata, TopTypes, no_types, no_modules, each_module, insert_events}
use sub_script.Metadata.Legacy.{Different, decode_meta, named_type}
use sub_script.Metadata.Legacy.Modules
use sub_script.Metadata.Legacy.Modules.{StorageEntry, ModuleEntry}

-- a hasher by the `KeyHasherType` of its name
pub data StorageEntryType : Type 0 where
  plain : (value : Different String) → StorageEntryType
  map : (hasher : KeyHasherType) (key value : Different String) → StorageEntryType
  double_map :
      (hasher : KeyHasherType) (key1 : Different String) (key2_hasher : KeyHasherType)
      (key2 value : Different String)
      → StorageEntryType

unfoldable pub insert_runtime_call : TopTypes → M ℕ
insert_runtime_call top = insert_meta "RuntimeCall" (Meta.enum top.mod_calls)

module _ (fuel : ℕ) where
  unfoldable pub key_type : Different String → M ℕ
  unfolding lift decode_meta named_type
  key_type key = do name ← lift (decode_meta key); named_type fuel name

  unfoldable pub hasher_from : StorageEntryType → M (Option KeyHasher × Different String)
  unfolding pure key_type
  hasher_from (plain value) = pure (none, value)
  hasher_from (map hasher key value) = do ty ← key_type key; pure (some ((ty, hasher) ∷ []), value)
  hasher_from (double_map hasher key1 key2_hasher key2 value) = do
    ty1 ← key_type key1
    ty2 ← key_type key2
    pure (some ((ty1, hasher) ∷ (ty2, key2_hasher) ∷ []), value)

  module _ (utf8 : String → List ℕ) where
    unfoldable pub storage_from :
        String → StorageEntry StorageEntryType → M (String × StorageMetadata)
    unfolding hasher_from Modules.storage_from
    storage_from = Modules.storage_from fuel utf8 hasher_from

    unfoldable pub module_from : ModuleEntry StorageEntryType → M ModuleMetadata
    unfolding hasher_from Modules.module_from
    module_from = Modules.module_from fuel utf8 hasher_from

    unfoldable pub from_v12_metadata : List (ModuleEntry StorageEntryType) → M Metadata
    unfolding pure module_from each_module insert_events insert_runtime_call
    from_v12_metadata modules = do
      (top, api) ← each_module module_from no_types no_modules modules
      e ← insert_events top
      c ← insert_runtime_call top
      pure api
