-- ===== src/Metadata/Top.antt =====
-- src/metadata.rs, `Metadata`: the modules of a chain, the types that stand over them, and the lookups.
pub mod Found
pub mod Ends
pub mod Reads
use sub_script.Prelude.{
  ℕ, String, Option, none, some, List, [], ◌∷◌, lookup, insert, Result, not_found, or_fail, ℤ,
  as_unsigned,
}
use sub_script.Types.Variants.{EnumVariants, empty, insert_at}
use sub_script.Types.Meta
use sub_script.Types.Meta.{TypeMeta}
use sub_script.Types.Portable.{PortableRegistry}
use sub_script.Types.Registry.{M, proceed, ◌>>=◌, pure, insert_meta, insert_ref, store}
use sub_script.Types.Import.{lift, import_v14_types}
use sub_script.Metadata.Storage.{StorageMetadata}
use sub_script.Metadata.Pallets.{Strings, PalletMetadata, ErrorMetadata}
use sub_script.Metadata.Modules.{ModuleMetadata, find_error, module_from}

-- `Metadata`
pub record Metadata : Type 0 where
  pub modules : List (String × ModuleMetadata)
  pub idx_map : ℕ → Option String

pub record TopTypes : Type 0 where
  pub mod_events : EnumVariants
  pub mod_errors : EnumVariants
  pub mod_calls : EnumVariants

abbrev pub no_types : TopTypes
no_types = record { mod_events = empty; mod_errors = empty; mod_calls = empty }

abbrev pub no_modules : Metadata
no_modules = record { modules = []; idx_map = λ i. none }

-- the loop over the modules, each read as its version is
module _ {D : Type 0} (read : D → M ModuleMetadata) where
  unfoldable pub each_module : TopTypes → Metadata → List D → M (TopTypes × Metadata)
  unfolding pure lift
  each_module top api [] = pure (top, api)
  each_module top api (md ∷ mds) = do
    m ← read md
    events ← lift (insert_at top.mod_events m.index m.name m.event_ref)
    errors ← lift (insert_at top.mod_errors m.index m.name m.error_ref)
    calls ← lift (insert_at top.mod_calls m.index m.name m.call_ref)
    each_module (record { mod_events = events; mod_errors = errors; mod_calls = calls })
        (record {
          modules = insert m.name m api.modules;
          idx_map = store m.index (some m.name) api.idx_map;
        })
        mds

-- a description under one name, and its cell under another
unfoldable pub insert_both : String → String → TypeMeta → M ℕ
insert_both name other m = do r ← insert_meta name m; insert_ref other r

unfoldable pub insert_events : TopTypes → M ℕ
unfolding insert_both
insert_events top = do
  event ← insert_both "RawEvent" "Event" (Meta.enum top.mod_events)
  insert_both "RawError" "DispatchErrorModule" (Meta.enum top.mod_errors)

-- versions 13 and 14
unfoldable pub insert_call : TopTypes → M ℕ
unfolding insert_both
insert_call top = insert_both "Call" "Call" (Meta.enum top.mod_calls)

unfoldable pub from_v14_metadata : Strings → PortableRegistry → ℕ → List PalletMetadata → M Metadata
unfolding pure each_module import_v14_types insert_events insert_call
from_v14_metadata strs types fuel pallets = do
  u ← import_v14_types strs.show types fuel
  (top, api) ← each_module (module_from strs types fuel) no_types no_modules pallets
  e ← insert_events top
  c ← insert_call top
  pure api

unfoldable pub get_module : Metadata → String → Option ModuleMetadata
get_module md name = lookup name md.modules

abbrev pub storage_in : Option ModuleMetadata → String → Option StorageMetadata
storage_in none name = none
storage_in (some m) name = lookup name m.storage

unfoldable pub get_storage : Metadata → String → String → Result StorageMetadata
unfolding get_module
get_storage md mod_name name = or_fail (storage_in (get_module md mod_name) name) not_found

abbrev pub error_in : Option ModuleMetadata → ℤ → Option ErrorMetadata
error_in none err_idx = none
error_in (some m) err_idx = find_error m err_idx

-- the error of a module by both indices; `none` is the unit
unfoldable pub find_module_error : Metadata → ℤ → ℤ → Option ErrorMetadata
unfolding find_error
find_module_error md mod_idx err_idx = elim (md.idx_map (as_unsigned 8 mod_idx)) [
  | none ↦ none
  | some mod_name ↦ error_in (lookup mod_name md.modules) err_idx
]
