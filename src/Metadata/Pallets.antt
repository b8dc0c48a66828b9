-- ===== src/Metadata/Pallets.antt =====
-- src/metadata.rs, the parts of a module: `NamedType`, `FuncMetadata`, `EventMetadata`, `ErrorMetadata`,
-- `ConstMetadata` and `StorageMetadata` from a version 14 description. The description is
-- `frame_metadata`'s: of it what the source reads. Documentation is left out, and a `NamedType` is
-- the cell of its type.
pub mod Ends
use Prim.Native.String.{◌++◌ as append}
use sub_script.Prelude.{
  ℕ, ◌-◌, String, Bool, false, Option, none, some, List, [], ◌∷◌, if◌then◌else◌, Result, ok, err,
  panicked, not_found, or_fail,
}
use sub_script.Types.Meta
use sub_script.Types.Meta.{TypeMeta}
use sub_script.Types.Portable.{
  Field, Variant, variant, PortableType, PortableRegistry, get_type_name, is_type_compact,
  in_angles,
}
use sub_script.Types.Registry.{M, ◌>>=◌, pure, insert_meta}
use sub_script.Types.Import.{lift}
use sub_script.Types.Parser.{parse_type}
use sub_script.Metadata.Hasher.{KeyHasher, KeyHasherType}
use sub_script.Metadata.Storage.{StorageMetadata}
use sub_script.Calls.{FuncMetadata, FuncArg}

-- Rust's `str`: the bytes of a text, a slice of it by bytes, which panics out of bounds or inside a
-- character, and numbers in decimal
pub record Strings : Type 0 where
  pub utf8 : String → List ℕ
  pub byte_len : String → ℕ
  pub byte_slice : String → ℕ → ℕ → Option String
  pub starts_with : String → String → Bool
  pub show : ℕ → String

pub data StorageEntryType : Type 0 where
  plain : ℕ → StorageEntryType
  map : (hashers : List KeyHasherType) (key value : ℕ) → StorageEntryType

pub record StorageEntry : Type 0 where
  pub name : String
  pub ty : StorageEntryType

pub record PalletStorage : Type 0 where
  pub prefix : String
  pub entries : List StorageEntry

pub record PalletMetadata : Type 0 where
  pub name : String
  pub index : ℕ
  pub storage : Option PalletStorage
  pub calls : Option ℕ
  pub event : Option ℕ
  pub constants : List (String × ℕ)
  pub error : Option ℕ

pub record EventMetadata : Type 0 where
  pub mod_name : String
  pub name : String
  pub event_idx : ℕ
  pub args : List ℕ

pub record ConstMetadata : Type 0 where
  pub mod_name : String
  pub name : String
  pub const_ty : ℕ

pub record ErrorMetadata : Type 0 where
  pub mod_name : String
  pub name : String
  pub error_idx : ℕ

-- the cell of a tuple under a name, where there are parts
unfoldable pub tuple_ref : String → List ℕ → M (Option ℕ)
unfolding pure
tuple_ref name [] = pure none
tuple_ref name (r ∷ rs) = do q ← insert_meta name (Meta.tuple (r ∷ rs)); pure (some q)

module _ (strs : Strings) (types : PortableRegistry) (fuel : ℕ) where
  abbrev pub type_at : ℕ → Result PortableType
  type_at id = or_fail (types.resolve id) not_found

  -- `NamedType::new_type`
  unfoldable pub new_type : ℕ → M ℕ
  unfolding lift get_type_name
  new_type id = do
    ty ← lift (type_at id)
    name ← lift (get_type_name strs.show types false fuel ty)
    parse_type fuel name

  -- six bytes of marks at each end are taken off
  unfoldable pub trimmed : String → Result String
  trimmed name =
      if strs.starts_with name "/*«*/"
      then or_fail (strs.byte_slice name 6 (strs.byte_len name - 6)) panicked
      else ok name

  abbrev pub as_compact : PortableType → Result String → Result String
  as_compact ty (err e) = err e
  as_compact ty (ok name) = ok (if is_type_compact ty then in_angles "Compact" name else name)

  unfoldable pub field_type_name : Field → PortableType → Result String
  unfolding trimmed get_type_name is_type_compact
  field_type_name f ty = elim f.type_name [
    | some name ↦ as_compact ty (trimmed name)
    | none ↦ get_type_name strs.show types false fuel ty
  ]

  -- `NamedType::new_field_type`
  unfoldable pub new_field_type : Field → M ℕ
  unfolding lift field_type_name
  new_field_type f = do
    ty ← lift (type_at f.ty)
    name ← lift (field_type_name f ty)
    parse_type fuel name

  unfoldable pub field_types : List Field → M (List ℕ)
  unfolding pure new_field_type
  field_types [] = pure []
  field_types (f ∷ fs) = do r ← new_field_type f; rs ← field_types fs; pure (r ∷ rs)

  abbrev pub arg_name : Option String → String
  arg_name none = ""
  arg_name (some name) = name

  abbrev pub as_args : List Field → List ℕ → List FuncArg
  as_args (f ∷ fs) (r ∷ rs) = record { name = arg_name f.name; ty = r } ∷ as_args fs rs
  as_args _ _ = []

  -- `FuncMetadata::from_v14_meta`
  unfoldable pub func_from : String → ℕ → Variant → M (FuncMetadata × Option ℕ)
  unfolding pure field_types tuple_ref
  func_from mod_name mod_idx md = do
    rs ← field_types md.fields
    ref ← tuple_ref (append mod_name (append "::RawFunc::" md.name)) rs
    pure (record { mod_idx = mod_idx; func_idx = md.index; args = as_args md.fields rs }, ref)

  -- `EventMetadata::from_v14_meta`
  unfoldable pub event_from : String → Variant → M (EventMetadata × Option ℕ)
  unfolding pure field_types tuple_ref
  event_from mod_name md = do
    rs ← field_types md.fields
    ref ← tuple_ref (append mod_name (append "::RawEvent::" md.name)) rs
    pure (record { mod_name = mod_name; name = md.name; event_idx = md.index; args = rs }, ref)

  -- `ErrorMetadata::from_v14_meta`
  unfoldable pub error_from : String → Variant → ErrorMetadata
  error_from mod_name md = record { mod_name = mod_name; name = md.name; error_idx = md.index }

  -- `ConstMetadata::from_v14_meta`
  unfoldable pub const_from : String → String × ℕ → M ConstMetadata
  unfolding pure new_type
  const_from mod_name (name, ty) = do
    r ← new_type ty
    pure (record { mod_name = mod_name; name = name; const_ty = r })

  abbrev pub with_key : List KeyHasherType → ℕ → KeyHasher
  with_key [] r = []
  with_key (h ∷ hashers) r = (r, h) ∷ with_key hashers r

  -- Each hasher of a map gets the type of the whole key.
  unfoldable pub key_hasher_from : StorageEntryType → M (Option KeyHasher × ℕ)
  unfolding pure new_type
  key_hasher_from (plain value) = pure (none, value)
  key_hasher_from (map hashers key value) = do
    r ← new_type key
    pure (some (with_key hashers r), value)

  -- `StorageMetadata::from_v14_meta`
  unfoldable pub storage_from : String → StorageEntry → M StorageMetadata
  unfolding pure key_hasher_from new_type
  storage_from prefix md = do
    (kh, value) ← key_hasher_from md.ty
    r ← new_type value
    pure (record {
      prefix = strs.utf8 prefix;
      name = strs.utf8 md.name;
      key_hasher = kh;
      value_ty = r;
    })

  -- the variants of a type that a module names
  unfoldable pub variants_of : ℕ → Result (List Variant)
  variants_of id = elim (types.resolve id) [
    | none ↦ err panicked
    | some ty ↦ elim ty.type_def [ variant vs ↦ ok vs | _ ↦ err panicked ]
  ]
