-- ===== src/Types/Import.antt =====
-- src/types.rs, `Types::{import_v14_type, import_v14_types}`: the registry filled from a version 14 registry.
pub mod Fills
pub mod Resolved
pub mod Sound
pub mod Ends
use Prim.Native.String.{◌++◌ as append}
use sub_script.Prelude.{
  ℕ, String, Bool, true, Option, none, some, List, [], ◌∷◌, length, ◌==◌, if◌then◌else◌, insert,
  Result, ok, err, Error, panicked, deadlock,
}
use sub_script.Prelude
use sub_script.Types.Variants.{EnumVariants, empty, insert_at}
use sub_script.Types.Meta
use sub_script.Types.Meta.{TypeMeta, integer}
use sub_script.Types.Portable.{
  Primitive, bool, char, str, u8, u16, u32, u64, u128, u256, i8, i16, i32, i64, i128, i256, Field,
  Variant, TypeDef, composite, variant, sequence, array, tuple, primitive, compact, bit_sequence,
  PortableType, PortableRegistry, get_type_name,
}
use sub_script.Types.Registry.{
  Types, M, proceed, ◌>>=◌, pure, throw, set_cell, alloc, resolve, store,
}

-- `id_to_ref`
abbrev pub Refs : Type 0
Refs = ℕ → Option ℕ

unfoldable pub lift : {A : Type 0} → Result A → M A
unfolding pure throw
lift (ok a) = pure a
lift (err e) = throw e

-- a cell of its own for a description
unfoldable pub new_ref : TypeMeta → M ℕ
unfolding alloc
new_ref m t = (alloc m t, ok t.next)

unfoldable pub write_cell : ℕ → TypeMeta → M (Unit {0})
unfolding set_cell
write_cell r m t = if t.locked r then (t, err deadlock) else (set_cell r m t, ok tt)

abbrev pub primitive_meta : Primitive → TypeMeta
primitive_meta bool = Meta.bool_type
primitive_meta char = integer 1 Prelude.false
primitive_meta str = Meta.string_type
primitive_meta u8 = integer 1 Prelude.false
primitive_meta u16 = integer 2 Prelude.false
primitive_meta u32 = integer 4 Prelude.false
primitive_meta u64 = integer 8 Prelude.false
primitive_meta u128 = integer 16 Prelude.false
primitive_meta u256 = integer 32 Prelude.false
primitive_meta i8 = integer 1 true
primitive_meta i16 = integer 2 true
primitive_meta i32 = integer 4 true
primitive_meta i64 = integer 8 true
primitive_meta i128 = integer 16 true
primitive_meta i256 = integer 32 true

module _ (show : ℕ → String) where
  abbrev pub field_name : Option String → ℕ → String
  field_name (some name) n = name
  field_name none n = append "unnamed_" (show n)

  module _ (refs : Refs) where
    abbrev pub ref_of : ℕ → Result ℕ
    ref_of id = Prelude.or_fail (refs id) panicked

    unfoldable pub composite_fields : List (String × ℕ) → List Field → Result (List (String × ℕ))
    composite_fields acc [] = ok acc
    composite_fields acc (f ∷ fs) = elim (refs f.ty) [
      | none ↦ err panicked
      | some r ↦ composite_fields (insert (field_name f.name (length acc)) r acc) fs
    ]

    unfoldable pub refs_of : List ℕ → Result (List ℕ)
    refs_of [] = ok []
    refs_of (id ∷ ids) =
        let rest = refs_of ids in
        elim (refs id) [
          | none ↦ err panicked
          | some r ↦ elim rest [ err e ↦ err e | ok rs ↦ ok (r ∷ rs) ]
        ]

    abbrev pub field_ids : List Field → List ℕ
    field_ids [] = []
    field_ids (f ∷ fs) = f.ty ∷ field_ids fs

    -- one field stands for itself, several for a tuple
    unfoldable pub variant_ref : List ℕ → M (Option ℕ)
    unfolding pure new_ref
    variant_ref [] = pure none
    variant_ref (r ∷ []) = pure (some r)
    variant_ref (r ∷ q ∷ rs) = do n ← new_ref (Meta.tuple (r ∷ q ∷ rs)); pure (some n)

    unfoldable pub import_variants : EnumVariants → List Variant → M EnumVariants
    unfolding pure lift refs_of variant_ref
    import_variants vs [] = pure vs
    import_variants vs (v ∷ more) = do
      rs ← lift (refs_of (field_ids v.fields))
      o ← variant_ref rs
      vs' ← lift (insert_at vs v.index v.name o)
      import_variants vs' more

    unfoldable pub meta_of : TypeDef → M TypeMeta
    unfolding pure throw lift composite_fields import_variants refs_of
    meta_of (composite fs) = do fields ← lift (composite_fields [] fs); pure (Meta.struct fields)
    meta_of (variant vs) = do variants ← import_variants empty vs; pure (Meta.enum variants)
    meta_of (sequence id) = do r ← lift (ref_of id); pure (Meta.vector r)
    meta_of (array len id) = do r ← lift (ref_of id); pure (Meta.slice len r)
    meta_of (tuple ids) = do rs ← lift (refs_of ids); pure (Meta.tuple rs)
    meta_of (primitive p) = pure (primitive_meta p)
    meta_of (compact id) = do r ← lift (ref_of id); pure (Meta.compact r)
    meta_of bit_sequence = throw panicked

    unfoldable pub import_v14_type : ℕ → PortableType → M (Unit {0})
    unfolding lift meta_of write_cell
    import_v14_type id ty = do r ← lift (ref_of id); m ← meta_of ty.type_def; write_cell r m

    unfoldable pub import_each : List (ℕ × PortableType) → M (Unit {0})
    unfolding pure import_v14_type
    import_each [] = pure tt
    import_each ((id, ty) ∷ tys) = do u ← import_v14_type id ty; import_each tys

  -- the first loop: a cell for the name of each type
  module _ (registry : PortableRegistry) (fuel : ℕ) where
    unfoldable pub resolve_each : Refs → List (ℕ × PortableType) → M Refs
    unfolding pure lift get_type_name resolve
    resolve_each refs [] = pure refs
    resolve_each refs ((id, ty) ∷ tys) = do
      name ← lift (get_type_name show registry true fuel ty)
      r ← resolve name
      resolve_each (store id (some r) refs) tys

    unfoldable pub import_v14_types : M (Unit {0})
    unfolding resolve_each import_each
    import_v14_types = do
      refs ← resolve_each (λ id. none) registry.types
      import_each refs registry.types
