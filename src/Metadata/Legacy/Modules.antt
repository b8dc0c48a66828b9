-- ===== src/Metadata/Legacy/Modules.antt =====
-- src/metadata.rs, `ModuleMetadata::from_v12_meta` and `ModuleMetadata::from_v13_meta`: a module from a
-- description of these versions, which read the key types of storage each in its own way.
pub mod Ends
pub mod Errors
pub mod Named
use Prim.Native.String.{◌++◌ as append}
use sub_script.Prelude.{
  ℕ, zero, suc, ◌%◌, ◌^◌, String, Option, none, some, List, [], ◌∷◌, lookup, insert,
}
use sub_script.Types.Variants.{EnumVariants, empty, insert_at}
use sub_script.Types.Meta
use sub_script.Types.Registry.{M, proceed, ◌>>=◌, pure, insert_meta, store}
use sub_script.Types.Import.{lift}
use sub_script.Metadata.Hasher.{KeyHasher}
use sub_script.Metadata.Storage.{StorageMetadata}
use sub_script.Metadata.Pallets.{ErrorMetadata}
use sub_script.Metadata.Modules.{ModuleMetadata, empty_module}
use sub_script.Metadata.Legacy.{
  Different, decode_meta, Documentation, FunctionEntry, EventEntry, ConstantEntry, ErrorEntry,
  named_type, func_from, event_from, const_from, error_from,
}

pub record StorageEntry (K : Type 0) : Type 0 where
  pub name : Different String
  pub ty : K
  pub documentation : Documentation

pub record StorageEntries (K : Type 0) : Type 0 where
  pub prefix : Different String
  pub entries : Different (List (StorageEntry K))

pub record ModuleEntry (K : Type 0) : Type 0 where
  pub name : Different String
  pub index : ℕ
  pub storage : Option (Different (StorageEntries K))
  pub calls : Option (Different (List FunctionEntry))
  pub event : Option (Different (List EventEntry))
  pub constants : Different (List ConstantEntry)
  pub errors : Different (List ErrorEntry)

-- `as u8` of the place in the list
abbrev pub as_u8 : ℕ → ℕ
as_u8 i = i % 2 ^ 8

-- calls, or events: a variant of the raw type and an entry by name for each
module _ {E A : Type 0} (from : ℕ → E → M (String × A × Option ℕ)) where
  unfoldable pub each_variant :
      ℕ → EnumVariants → List (String × A) → List E → M (EnumVariants × List (String × A))
  unfolding pure lift
  each_variant i raw acc [] = pure (raw, acc)
  each_variant i raw acc (md ∷ mds) = do
    (name, a, ref) ← from (as_u8 i) md
    raw' ← lift (insert_at raw (as_u8 i) name ref)
    each_variant (suc i) raw' (insert name a acc) mds

abbrev pub add_error : ErrorMetadata → ModuleMetadata → ModuleMetadata
add_error e m = record m {
  errors = insert e.name e m.errors;
  err_idx_map = store e.error_idx (some e.name) m.err_idx_map;
}

unfoldable pub each_error :
    String → ℕ → EnumVariants → ModuleMetadata → List ErrorEntry → M (EnumVariants × ModuleMetadata)
unfolding pure lift error_from
each_error mod_name i raw m [] = pure (raw, m)
each_error mod_name i raw m (md ∷ mds) = do
  e ← error_from mod_name (as_u8 i) md
  raw' ← lift (insert_at raw e.error_idx e.name none)
  each_error mod_name (suc i) raw' (add_error e m) mds

unfoldable pub with_errors :
    String → Different (List ErrorEntry) → ModuleMetadata → M ModuleMetadata
unfolding pure lift decode_meta each_error
with_errors name listed m = do
  mds ← lift (decode_meta listed)
  (raw, m') ← each_error name 0 empty m mds
  r ← insert_meta (append name "::RawError") (Meta.enum raw)
  pure (record m' { error_ref = some r })

module _ (fuel : ℕ) where
  unfoldable pub with_calls :
      String → ℕ → Option (Different (List FunctionEntry)) → ModuleMetadata → M ModuleMetadata
  unfolding pure lift decode_meta each_variant func_from
  with_calls name index none m = pure m
  with_calls name index (some calls) m = do
    mds ← lift (decode_meta calls)
    (raw, funcs) ← each_variant (func_from fuel name index) 0 empty m.funcs mds
    r ← insert_meta (append name "::RawCall") (Meta.enum raw)
    pure (record m { funcs = funcs; call_ref = some r })

  unfoldable pub with_events :
      String → Option (Different (List EventEntry)) → ModuleMetadata → M ModuleMetadata
  unfolding pure lift decode_meta each_variant event_from
  with_events name none m = pure m
  with_events name (some listed) m = do
    mds ← lift (decode_meta listed)
    (raw, events) ← each_variant (event_from fuel name) 0 empty m.events mds
    r ← insert_meta (append name "::RawEvent") (Meta.enum raw)
    pure (record m { events = events; event_ref = some r })

  unfoldable pub each_const : String → ModuleMetadata → List ConstantEntry → M ModuleMetadata
  unfolding pure const_from
  each_const name m [] = pure m
  each_const name m (md ∷ mds) = do
    c ← const_from fuel name md
    each_const name (record m { constants = insert c.name c m.constants }) mds

  unfoldable pub with_constants :
      String → Different (List ConstantEntry) → ModuleMetadata → M ModuleMetadata
  unfolding lift decode_meta each_const
  with_constants name listed m = do mds ← lift (decode_meta listed); each_const name m mds

  -- `utf8` gives the bytes of a text, `hasher_from` reads the key types and finds the value type
  module _ {K : Type 0} (utf8 : String → List ℕ)
      (hasher_from : K → M (Option KeyHasher × Different String)) where
    unfoldable pub storage_from : String → StorageEntry K → M (String × StorageMetadata)
    unfolding pure lift decode_meta named_type
    storage_from prefix md = do
      (key_hasher, value) ← hasher_from md.ty
      name ← lift (decode_meta md.name)
      ty ← lift (decode_meta value)
      r ← named_type fuel ty
      docs ← lift (decode_meta md.documentation)
      pure (
        name,
        record { prefix = utf8 prefix; name = utf8 name; key_hasher = key_hasher; value_ty = r },
      )

    unfoldable pub each_entry : String → ModuleMetadata → List (StorageEntry K) → M ModuleMetadata
    unfolding pure storage_from
    each_entry prefix m [] = pure m
    each_entry prefix m (md ∷ mds) = do
      (name, s) ← storage_from prefix md
      each_entry prefix (record m { storage = insert name s m.storage }) mds

    unfoldable pub with_storage :
        Option (Different (StorageEntries K)) → ModuleMetadata → M ModuleMetadata
    unfolding pure lift decode_meta each_entry
    with_storage none m = pure m
    with_storage (some storage) m = do
      md ← lift (decode_meta storage)
      prefix ← lift (decode_meta md.prefix)
      mds ← lift (decode_meta md.entries)
      m' ← each_entry prefix m mds
      pure (record m' { storage_prefix = prefix })

    unfoldable pub module_from : ModuleEntry K → M ModuleMetadata
    unfolding lift decode_meta with_calls with_storage with_events with_constants with_errors
        empty_module
    module_from md = do
      name ← lift (decode_meta md.name)
      m1 ← with_calls name md.index md.calls (empty_module name md.index)
      m2 ← with_storage md.storage m1
      m3 ← with_events name md.event m2
      m4 ← with_constants name md.constants m3
      with_errors name md.errors m4
