-- ===== src/Metadata/Modules.antt =====
-- src/metadata.rs, `ModuleMetadata`: a module from a version 14 description, and the lookup of an error.
pub mod Errors
pub mod Ends
pub mod Named
use Prim.Native.String.{◌++◌ as append}
use sub_script.Prelude.{
  ℕ, zero, suc, ◌-◌, String, Bool, true, false, Option, none, some, List, [], ◌∷◌, if◌then◌else◌,
  lookup, insert, Result, ok, err, panicked, not_found, or_fail, ℤ, as_unsigned,
}
use sub_script.Types.Variants.{EnumVariants, empty, insert_at}
use sub_script.Types.Meta
use sub_script.Types.Meta.{TypeMeta}
use sub_script.Types.Portable.{
  Field, Variant, TypeDef, variant, PortableType, PortableRegistry, get_type_name, is_type_compact,
  in_angles,
}
use sub_script.Types.Registry.{
  Types, M, proceed, ◌>>=◌, pure, throw, insert_meta, insert_ref, store,
}
use sub_script.Types.Import.{lift, import_v14_types}
use sub_script.Types.Parser.{parse_type}
use sub_script.Metadata.Hasher.{KeyHasher, KeyHasherType}
use sub_script.Metadata.Storage.{StorageMetadata}
use sub_script.Calls.{FuncMetadata, FuncArg}
use sub_script.Metadata.Pallets.{
  Strings, StorageEntryType, StorageEntry, PalletStorage, PalletMetadata, EventMetadata,
  ConstMetadata, ErrorMetadata, func_from, event_from, error_from, const_from, storage_from,
  variants_of,
}

pub record ModuleMetadata : Type 0 where
  pub name : String
  pub index : ℕ
  pub storage_prefix : String
  pub storage : List (String × StorageMetadata)
  pub funcs : List (String × FuncMetadata)
  pub events : List (String × EventMetadata)
  pub constants : List (String × ConstMetadata)
  pub errors : List (String × ErrorMetadata)
  pub err_idx_map : ℕ → Option String
  pub event_ref : Option ℕ
  pub error_ref : Option ℕ
  pub call_ref : Option ℕ

unfoldable pub empty_module : String → ℕ → ModuleMetadata
empty_module name index = record {
  name = name;
  index = index;
  storage_prefix = "";
  storage = [];
  funcs = [];
  events = [];
  constants = [];
  errors = [];
  err_idx_map = λ i. none;
  event_ref = none;
  error_ref = none;
  call_ref = none;
}

-- `find_error`, with `as u8` of the script's index
unfoldable pub find_error : ModuleMetadata → ℤ → Option ErrorMetadata
find_error m err_idx = elim (m.err_idx_map (as_unsigned 8 err_idx)) [
  | none ↦ none
  | some name ↦ lookup name m.errors
]

module _ (strs : Strings) (types : PortableRegistry) (fuel : ℕ) where
  -- calls, or events: a variant of the raw type and an entry by name for each
  module _ {A : Type 0} (from : Variant → M (A × Option ℕ)) where
    unfoldable pub each_variant :
        EnumVariants → List (String × A) → List Variant → M (EnumVariants × List (String × A))
    unfolding pure lift
    each_variant raw acc [] = pure (raw, acc)
    each_variant raw acc (v ∷ vs) = do
      (a, ref) ← from v
      raw' ← lift (insert_at raw v.index v.name ref)
      each_variant raw' (insert v.name a acc) vs

  unfoldable pub with_calls : PalletMetadata → ModuleMetadata → M ModuleMetadata
  unfolding pure lift variants_of each_variant func_from
  with_calls md m = elim md.calls [
    | none ↦ pure m
    | some id ↦ do
      vs ← lift (variants_of strs types fuel id)
      (raw, funcs) ← each_variant (func_from strs types fuel md.name md.index) empty m.funcs vs
      r ← insert_meta (append md.name "::RawCall") (Meta.enum raw)
      pure (record m { funcs = funcs; call_ref = some r })
  ]

  unfoldable pub each_entry :
      String
      → List (String × StorageMetadata)
      → List StorageEntry
      → M (List (String × StorageMetadata))
  unfolding pure storage_from
  each_entry prefix acc [] = pure acc
  each_entry prefix acc (e ∷ es) = do
    s ← storage_from strs types fuel prefix e
    each_entry prefix (insert e.name s acc) es

  unfoldable pub with_storage : PalletMetadata → ModuleMetadata → M ModuleMetadata
  unfolding pure each_entry
  with_storage md m = elim md.storage [
    | none ↦ pure m
    | some st ↦ do
      storage ← each_entry st.prefix m.storage st.entries
      pure (record m { storage = storage; storage_prefix = st.prefix })
  ]

  unfoldable pub with_events : PalletMetadata → ModuleMetadata → M ModuleMetadata
  unfolding pure lift variants_of each_variant event_from
  with_events md m = elim md.event [
    | none ↦ pure m
    | some id ↦ do
      vs ← lift (variants_of strs types fuel id)
      (raw, events) ← each_variant (event_from strs types fuel md.name) empty m.events vs
      r ← insert_meta (append md.name "::RawEvent") (Meta.enum raw)
      pure (record m { events = events; event_ref = some r })
  ]

  unfoldable pub each_const :
      String → List (String × ConstMetadata) → List (String × ℕ) → M (List (String × ConstMetadata))
  unfolding pure const_from
  each_const mod_name acc [] = pure acc
  each_const mod_name acc ((name, ty) ∷ cs) = do
    c ← const_from strs types fuel mod_name (name, ty)
    each_const mod_name (insert name c acc) cs

  unfoldable pub with_constants : PalletMetadata → ModuleMetadata → M ModuleMetadata
  unfolding pure each_const
  with_constants md m = do
    constants ← each_const md.name m.constants md.constants
    pure (record m { constants = constants })

  abbrev pub add_error : String → Variant → ModuleMetadata → ModuleMetadata
  add_error mod_name v m = record m {
    errors = insert v.name (error_from strs types fuel mod_name v) m.errors;
    err_idx_map = store v.index (some v.name) m.err_idx_map;
  }

  unfoldable pub each_error :
      String → ℕ → EnumVariants → ModuleMetadata → List Variant → M (EnumVariants × ModuleMetadata)
  unfolding pure lift error_from
  each_error mod_name extra raw m [] = pure (raw, m)
  each_error mod_name extra raw m (v ∷ vs) = do
    raw' ← lift (insert_at raw v.index v.name (some extra))
    each_error mod_name extra raw' (add_error mod_name v m) vs

  unfoldable pub with_errors : PalletMetadata → ModuleMetadata → M ModuleMetadata
  unfolding pure lift variants_of each_error
  with_errors md m = elim md.error [
    | none ↦ pure m
    | some id ↦ do
      extra ← parse_type fuel "[u8; 3]"
      vs ← lift (variants_of strs types fuel id)
      (raw, m') ← each_error md.name extra empty m vs
      r ← insert_meta (append md.name "::RawError") (Meta.enum raw)
      pure (record m' { error_ref = some r })
  ]

  -- `ModuleMetadata::from_v14_meta`
  unfoldable pub module_from : PalletMetadata → M ModuleMetadata
  unfolding with_calls with_storage with_events with_constants with_errors empty_module
  module_from md = do
    m1 ← with_calls md (empty_module md.name md.index)
    m2 ← with_storage md m1
    m3 ← with_events md m2
    m4 ← with_constants md m3
    with_errors md m4
