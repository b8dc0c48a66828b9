-- ===== src/Metadata/Pallets/Ends.antt =====
-- src/metadata.rs, the parts of a module of version 14: reading them comes to an end.
use sub_script.Prelude.{
  ℕ, ◌<◌, ◌≡◌, String, false, Option, none, some, List, [], ◌∷◌, Each, inl, inr, Option-cases,
  Bool-cases, Result, ok, err, ◌>>=◌, panicked,
}
use sub_script.Types.Registry.Results.{Returns, Returns-pure, Returns-bind}
use sub_script.Types.Registry.Quiet.{Quiet, Quiet-Calm, Quiet-pure, Quiet-bind, Quiet-then}
use sub_script.Metadata.Hasher.{KeyHasher}
use sub_script.Metadata.Storage.{StorageMetadata}
use sub_script.Calls.{FuncMetadata}
use sub_script.Metadata.Legacy.Ends.{Quiet-tuple_ref}
use sub_script.Types.Scan.Weight.{weight}
use sub_script.Types.Registry.{Types, M, proceed, pure, throw}
use sub_script.Types.Registry
use sub_script.Types.Registry.Keeps.{Keeps-refl, Settled}
use sub_script.Types.Portable.{
  Field, Variant, TypeDef, variant, PortableType, PortableRegistry, get_type_name,
}
use sub_script.Types.Portable.Named.{RanksBelow, get_type_name-Settled, Settled-or_fail}
use sub_script.Types.Import.{lift}
use sub_script.Types.Parser.{parse_type}
use sub_script.Types.Parser.Ends.{Calm-parse_type}
use sub_script.Metadata.Pallets.{
  Strings, StorageEntryType, plain, map, StorageEntry, EventMetadata, ConstMetadata, type_at,
  new_type, trimmed, as_compact, field_type_name, new_field_type, field_types, tuple_ref, as_args,
  func_from, event_from, const_from, with_key, key_hasher_from, storage_from, variants_of,
}

-- a text that weighs less, where there is one
abbrev pub Short : ℕ → Result String → Type 0
Short w (ok name) = weight name < w
Short w (err e) = Unit

Quiet-Short :
    (fuel : ℕ) (r : Result String)
    → Short fuel r
    → Settled r
    → Quiet (Registry.◌>>=◌ (lift r) (parse_type fuel))
unfolding lift pure throw proceed
Quiet-Short fuel (ok name) h s t v u =
    Quiet-Calm fuel (parse_type fuel name) (Calm-parse_type fuel name fuel h h) t v u
Quiet-Short fuel (err e) h s t v u = (Keeps-refl t v, s)

-- What the names of types are made of ranks below them, and below the fuel.
module _ (strs : Strings) (types : PortableRegistry) (fuel : ℕ) where
  -- The text of a type, and of the type of a field, weighs less than the fuel.
  abbrev pub IsShortType : ℕ → Type 0
  IsShortType id =
      Short fuel (type_at strs types fuel id >>= get_type_name strs.show types false fuel)

  abbrev pub IsShortField : Field → Type 0
  IsShortField f = Short fuel (type_at strs types fuel f.ty >>= field_type_name strs types fuel f)

  abbrev pub IsShortVariant : Variant → Type 0
  IsShortVariant v = Each IsShortField v.fields

  abbrev pub IsShortEntry : StorageEntryType → Type 0
  IsShortEntry (plain value) = IsShortType value
  IsShortEntry (map hashers key value) = IsShortType key × IsShortType value

  module _ (rank : ℕ → ℕ)
      (ranked : (id : ℕ) (ty : PortableType)
        → types.resolve id ≡ some ty
        → RanksBelow rank (rank id) ty)
      (low : (id : ℕ) → rank id < fuel) where
    Settled-type_name :
        (id : ℕ) (ty : PortableType)
        → types.resolve id ≡ some ty
        → Settled (get_type_name strs.show types false fuel ty)
    Settled-type_name id ty found =
        get_type_name-Settled strs.show types false rank ranked fuel (rank id) ty
          (ranked id ty found) (low id)

    pub Quiet-new_type : (id : ℕ) → IsShortType id → Quiet (new_type strs types fuel id)
    unfolding new_type lift throw pure proceed
    Quiet-new_type id h = elim (Option-cases (types.resolve id)) [
      | inl missing ↦ rw (missing, new_type) (λ t v u. (Keeps-refl t v, tt))
      | inr (ty, found) ↦
          rw (found, new_type)
            (λ t v u.
              Quiet-Short fuel (get_type_name strs.show types false fuel ty) (rw (found) at h)
                (Settled-type_name id ty found) t v u)
    ]

    Settled-trimmed : (name : String) → Settled (trimmed strs types fuel name)
    unfolding trimmed
    Settled-trimmed name = elim (Bool-cases (strs.starts_with name "/*«*/")) [
      | inl marked ↦ rw (marked, trimmed) (Settled-or_fail _ panicked tt)
      | inr plain_text ↦ rw (plain_text, trimmed) tt
    ]

    Settled-as_compact :
        (ty : PortableType) (r : Result String)
        → Settled r
        → Settled (as_compact strs types fuel ty r)
    Settled-as_compact ty (ok name) s = tt
    Settled-as_compact ty (err e) s = s

    Settled-field_type_name :
        (f : Field) (ty : PortableType)
        → types.resolve f.ty ≡ some ty
        → Settled (field_type_name strs types fuel f ty)
    unfolding field_type_name
    Settled-field_type_name f ty found = elim (Option-cases f.type_name) [
      | inl e ↦ rw (e, field_type_name) (Settled-type_name f.ty ty found)
      | inr (name, e) ↦ rw (e, field_type_name) (Settled-as_compact ty _ (Settled-trimmed name))
    ]

    Quiet-new_field_type : (f : Field) → IsShortField f → Quiet (new_field_type strs types fuel f)
    unfolding new_field_type lift throw pure proceed
    Quiet-new_field_type f h = elim (Option-cases (types.resolve f.ty)) [
      | inl missing ↦ rw (missing, new_field_type) (λ t v u. (Keeps-refl t v, tt))
      | inr (ty, found) ↦
          rw (found, new_field_type)
            (λ t v u.
              Quiet-Short fuel (field_type_name strs types fuel f ty) (rw (found) at h)
                (Settled-field_type_name f ty found) t v u)
    ]

    Quiet-field_types :
        (fs : List Field) → Each IsShortField fs → Quiet (field_types strs types fuel fs)
    unfolding field_types
    Quiet-field_types [] h = Quiet-pure {A = List ℕ} []
    Quiet-field_types (f ∷ fs) h =
        Quiet-bind (new_field_type strs types fuel f) _ (Quiet-new_field_type f h.0) λ r.
          Quiet-bind (field_types strs types fuel fs) _ (Quiet-field_types fs h.1)
            (λ rs. Quiet-pure (r ∷ rs))

    pub Quiet-func_from :
        (mod_name : String) (mod_idx : ℕ) (md : Variant)
        → IsShortVariant md
        → Quiet (func_from strs types fuel mod_name mod_idx md)
    unfolding func_from
    Quiet-func_from mod_name mod_idx md h =
        Quiet-bind (field_types strs types fuel md.fields) _ (Quiet-field_types md.fields h) λ rs.
          Quiet-bind (tuple_ref _ rs) _ (Quiet-tuple_ref _ rs) (λ ref.
            Quiet-pure {A = FuncMetadata × Option ℕ} (
              record {
                mod_idx = mod_idx;
                func_idx = md.index;
                args = as_args strs types fuel md.fields rs;
              },
              ref,
            ))

    pub Quiet-event_from :
        (mod_name : String) (md : Variant)
        → IsShortVariant md
        → Quiet (event_from strs types fuel mod_name md)
    unfolding event_from
    Quiet-event_from mod_name md h =
        Quiet-bind (field_types strs types fuel md.fields) _ (Quiet-field_types md.fields h) λ rs.
          Quiet-bind (tuple_ref _ rs) _ (Quiet-tuple_ref _ rs) (λ ref.
            Quiet-pure {A = EventMetadata × Option ℕ} (
              record { mod_name = mod_name; name = md.name; event_idx = md.index; args = rs },
              ref,
            ))

    pub Quiet-const_from :
        (mod_name name : String) (ty : ℕ)
        → IsShortType ty
        → Quiet (const_from strs types fuel mod_name (name, ty))
    unfolding const_from
    Quiet-const_from mod_name name ty h =
        Quiet-bind (new_type strs types fuel ty) _ (Quiet-new_type ty h) (λ r.
          Quiet-pure {A = ConstMetadata}
            (record { mod_name = mod_name; name = name; const_ty = r }))

    Quiet-key_hasher_from :
        (e : StorageEntryType) → IsShortEntry e → Quiet (key_hasher_from strs types fuel e)
    unfolding key_hasher_from
    Quiet-key_hasher_from (plain value) h = Quiet-pure {A = Option KeyHasher × ℕ} (none, value)
    Quiet-key_hasher_from (map hashers key value) h =
        Quiet-bind (new_type strs types fuel key) _ (Quiet-new_type key h.0) (λ r.
          Quiet-pure {A = Option KeyHasher × ℕ} (some (with_key strs types fuel hashers r), value))

    key_hasher_from-value :
        (e : StorageEntryType)
        → IsShortEntry e
        → Returns (key_hasher_from strs types fuel e) (λ p. IsShortType p.1)
    unfolding key_hasher_from
    key_hasher_from-value (plain value) h = Returns-pure (none, value) _ h
    key_hasher_from-value (map hashers key value) h =
        Returns-bind (new_type strs types fuel key) _ _
          (λ r. Returns-pure (some (with_key strs types fuel hashers r), value) _ h.1)

    pub Quiet-storage_from :
        (prefix : String) (md : StorageEntry)
        → IsShortEntry md.ty
        → Quiet (storage_from strs types fuel prefix md)
    unfolding storage_from
    Quiet-storage_from prefix md h =
        Quiet-then (key_hasher_from strs types fuel md.ty) _ (λ p. IsShortType p.1)
          (Quiet-key_hasher_from md.ty h) (key_hasher_from-value md.ty h)
          λ (kh, value) short.
            Quiet-bind (new_type strs types fuel value) _ (Quiet-new_type value short) (λ r.
              Quiet-pure {A = StorageMetadata} (record {
                prefix = strs.utf8 prefix;
                name = strs.utf8 md.name;
                key_hasher = kh;
                value_ty = r;
              }))

pub Settled-variants_of :
    (strs : Strings) (types : PortableRegistry) (fuel id : ℕ)
    → Settled (variants_of strs types fuel id)
unfolding variants_of
Settled-variants_of strs types fuel id = elim (Option-cases (types.resolve id)) [
  | inl missing ↦ rw (missing, variants_of) tt
  | inr (ty, found) ↦ rw (found, variants_of) (go ty.type_def)
]
  where
    go :
        (d : TypeDef)
        → Settled (elim d as (λ x. Result (List Variant)) [ variant vs ↦ ok vs | _ ↦ err panicked ])
    go (variant vs) = tt
    go _ = tt
