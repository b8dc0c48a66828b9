-- ===== src/Metadata/Legacy/Modules/Ends.antt =====
-- src/metadata.rs, `ModuleMetadata::from_v12_meta` and `ModuleMetadata::from_v13_meta`: they come to an end.
use Prim.Native.String.{◌++◌ as append}
use sub_script.Prelude.{Each, ℕ, suc, refl, String, Option, none, some, List, [], ◌∷◌, insert}
use sub_script.Types.Variants.{EnumVariants, empty}
use sub_script.Types.Meta
use sub_script.Types.Registry.{M, insert_meta}
use sub_script.Types.Registry.Results.{Returns}
use sub_script.Types.Registry.Quiet.{Quiet, Quiet-pure, Quiet-bind, Quiet-then, Quiet-insert_meta}
use sub_script.Metadata.Hasher.{KeyHasher}
use sub_script.Metadata.Storage.{StorageMetadata}
use sub_script.Metadata.Modules.{ModuleMetadata, empty_module}
use sub_script.Metadata.Legacy.{
  Different, FunctionEntry, EventEntry, ConstantEntry, ErrorEntry, named_type, func_from,
  event_from, const_from, error_from,
}
use sub_script.Metadata.Legacy.Modules.{
  StorageEntry, StorageEntries, ModuleEntry, as_u8, each_variant, add_error, each_error,
  with_errors, with_calls, with_events, each_const, with_constants, storage_from, each_entry,
  with_storage, module_from,
}
use sub_script.Metadata.Legacy.Ends.{
  If, IfGiven, IsShort, IsShortFunction, IsShortEvent, IsShortConstant, Quiet-decoded, Quiet-any,
  Quiet-insert_at, Quiet-error_from, Quiet-named_type, Quiet-func_from, Quiet-event_from,
  Quiet-const_from,
}

module _ {E A : Type 0} (from : ℕ → E → M (String × A × Option ℕ)) (P : E → Type 0)
    (from-Quiet : (i : ℕ) (md : E) → P md → Quiet (from i md)) where
  Quiet-each_variant :
      (i : ℕ) (raw : EnumVariants) (acc : List (String × A)) (mds : List E)
      → Each P mds
      → Quiet (each_variant from i raw acc mds)
  unfolding each_variant
  Quiet-each_variant i raw acc [] h = Quiet-pure {A = EnumVariants × List (String × A)} (raw, acc)
  Quiet-each_variant i raw acc (md ∷ mds) h =
      Quiet-bind (from (as_u8 i) md) _ (from-Quiet (as_u8 i) md h.0) λ (name, a, ref).
        Quiet-insert_at raw (as_u8 i) name ref _
          λ raw'. Quiet-each_variant (suc i) raw' (insert name a acc) mds h.1

Quiet-each_error :
    (mod_name : String) (i : ℕ) (raw : EnumVariants) (m : ModuleMetadata) (mds : List ErrorEntry)
    → Quiet (each_error mod_name i raw m mds)
unfolding each_error
Quiet-each_error mod_name i raw m [] = Quiet-pure {A = EnumVariants × ModuleMetadata} (raw, m)
Quiet-each_error mod_name i raw m (md ∷ mds) =
    Quiet-bind (error_from mod_name (as_u8 i) md) _ (Quiet-error_from mod_name (as_u8 i) md) λ e.
      Quiet-insert_at raw e.error_idx e.name none _
        λ raw'. Quiet-each_error mod_name (suc i) raw' (add_error e m) mds

Quiet-with_errors :
    (name : String) (listed : Different (List ErrorEntry)) (m : ModuleMetadata)
    → Quiet (with_errors name listed m)
unfolding with_errors
Quiet-with_errors name listed m = Quiet-any listed _ λ mds.
    Quiet-bind (each_error name 0 empty m mds) _ (Quiet-each_error name 0 empty m mds) λ (raw, m').
      Quiet-bind (insert_meta (append name "::RawError") (Meta.enum raw)) _
        (Quiet-insert_meta _ _ refl) (λ r. Quiet-pure (record m' { error_ref = some r }))

module _ (fuel : ℕ) where
  Quiet-each_const :
      (name : String) (m : ModuleMetadata) (mds : List ConstantEntry)
      → Each (IsShortConstant fuel) mds
      → Quiet (each_const fuel name m mds)
  unfolding each_const const_from
  Quiet-each_const name m [] h = Quiet-pure m
  Quiet-each_const name m (md ∷ mds) h =
      Quiet-bind (const_from fuel name md) _ (Quiet-const_from fuel name md h.0)
        λ c. Quiet-each_const name (record m { constants = insert c.name c m.constants }) mds h.1

  Quiet-with_calls :
      (name : String) (index : ℕ) (calls : Option (Different (List FunctionEntry)))
      (m : ModuleMetadata)
      → IfGiven (Each (IsShortFunction fuel)) calls
      → Quiet (with_calls fuel name index calls m)
  unfolding with_calls
  Quiet-with_calls name index none m h = Quiet-pure m
  Quiet-with_calls name index (some calls) m h = Quiet-decoded calls _ _ h λ mds short.
      Quiet-bind (each_variant (func_from fuel name index) 0 empty m.funcs mds) _
        (Quiet-each_variant _ (IsShortFunction fuel) (Quiet-func_from fuel name index) 0 empty
          m.funcs mds short)
        λ (raw, funcs).
          Quiet-bind (insert_meta (append name "::RawCall") (Meta.enum raw)) _
            (Quiet-insert_meta _ _ refl)
            (λ r. Quiet-pure (record m { funcs = funcs; call_ref = some r }))

  Quiet-with_events :
      (name : String) (listed : Option (Different (List EventEntry))) (m : ModuleMetadata)
      → IfGiven (Each (IsShortEvent fuel)) listed
      → Quiet (with_events fuel name listed m)
  unfolding with_events
  Quiet-with_events name none m h = Quiet-pure m
  Quiet-with_events name (some listed) m h = Quiet-decoded listed _ _ h λ mds short.
      Quiet-bind (each_variant (event_from fuel name) 0 empty m.events mds) _
        (Quiet-each_variant _ (IsShortEvent fuel) (Quiet-event_from fuel name) 0 empty m.events mds
          short)
        λ (raw, events).
          Quiet-bind (insert_meta (append name "::RawEvent") (Meta.enum raw)) _
            (Quiet-insert_meta _ _ refl)
            (λ r. Quiet-pure (record m { events = events; event_ref = some r }))

-- What a version's reader of key types keeps to: types whose texts are short are read quietly, and
-- the text of the value type is one of them.
pub record KeyReader (K : Type 0) (fuel : ℕ)
    (hasher_from : K → M (Option KeyHasher × Different String)) : Type 1 where
  pub IsShortKey : K → Type 0
  pub reads : (k : K) → IsShortKey k → Quiet (hasher_from k)
  pub value : (k : K) → IsShortKey k → Returns (hasher_from k) (λ p. If (IsShort fuel) p.1)

abbrev pub IsShortModule : {K : Type 0} → (fuel : ℕ) → (K → Type 0) → ModuleEntry K → Type 0
IsShortModule fuel P md =
    IfGiven (Each (IsShortFunction fuel)) md.calls
    × IfGiven (λ s. If (Each (λ e. P e.ty)) s.entries) md.storage
    × IfGiven (Each (IsShortEvent fuel)) md.event
    × If (Each (IsShortConstant fuel)) md.constants

module _ {K : Type 0} (fuel : ℕ) (utf8 : String → List ℕ)
    (hasher_from : K → M (Option KeyHasher × Different String))
    (reader : KeyReader K fuel hasher_from) where
  Quiet-storage_from :
      (prefix : String) (md : StorageEntry K)
      → reader.IsShortKey md.ty
      → Quiet (storage_from fuel utf8 hasher_from prefix md)
  unfolding storage_from
  Quiet-storage_from prefix md h =
      Quiet-then (hasher_from md.ty) _ (λ p. If (IsShort fuel) p.1) (reader.reads md.ty h)
        (reader.value md.ty h)
        λ (key_hasher, value) short. Quiet-any md.name _ λ name.
          Quiet-decoded value _ _ short λ ty small.
            Quiet-bind (named_type fuel ty) _ (Quiet-named_type fuel ty small) λ r.
              Quiet-any md.documentation _ λ docs. Quiet-pure {A = String × StorageMetadata} (
                name,
                record {
                  prefix = utf8 prefix;
                  name = utf8 name;
                  key_hasher = key_hasher;
                  value_ty = r;
                },
              )

  Quiet-each_entry :
      (prefix : String) (m : ModuleMetadata) (mds : List (StorageEntry K))
      → Each (λ e. reader.IsShortKey e.ty) mds
      → Quiet (each_entry fuel utf8 hasher_from prefix m mds)
  unfolding each_entry
  Quiet-each_entry prefix m [] h = Quiet-pure m
  Quiet-each_entry prefix m (md ∷ mds) h =
      Quiet-bind (storage_from fuel utf8 hasher_from prefix md) _ (Quiet-storage_from prefix md h.0)
        λ (name, s).
          Quiet-each_entry prefix (record m { storage = insert name s m.storage }) mds h.1

  Quiet-with_storage :
      (storage : Option (Different (StorageEntries K))) (m : ModuleMetadata)
      → IfGiven (λ s. If (Each (λ e. reader.IsShortKey e.ty)) s.entries) storage
      → Quiet (with_storage fuel utf8 hasher_from storage m)
  unfolding with_storage
  Quiet-with_storage none m h = Quiet-pure m
  Quiet-with_storage (some storage) m h = Quiet-decoded storage _ _ h λ md short.
      Quiet-any md.prefix _ λ prefix. Quiet-decoded md.entries _ _ short λ mds small.
        Quiet-bind (each_entry fuel utf8 hasher_from prefix m mds) _
          (Quiet-each_entry prefix m mds small)
          (λ m'. Quiet-pure (record m' { storage_prefix = prefix }))

  pub Quiet-module_from :
      (md : ModuleEntry K)
      → IsShortModule fuel reader.IsShortKey md
      → Quiet (module_from fuel utf8 hasher_from md)
  unfolding module_from with_constants
  Quiet-module_from md (calls, storage, events, constants) = Quiet-any md.name _ λ name.
      Quiet-bind (with_calls fuel name md.index md.calls (empty_module name md.index)) _
        (Quiet-with_calls fuel name md.index md.calls _ calls)
        λ m1.
          Quiet-bind (with_storage fuel utf8 hasher_from md.storage m1) _
            (Quiet-with_storage md.storage m1 storage)
            λ m2.
              Quiet-bind (with_events fuel name md.event m2) _
                (Quiet-with_events fuel name md.event m2 events)
                λ m3.
                  Quiet-bind (with_constants fuel name md.constants m3) _
                    (Quiet-decoded md.constants _ _ constants (Quiet-each_const fuel name m3))
                    λ m4. Quiet-with_errors name md.errors m4
