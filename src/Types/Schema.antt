-- ===== src/Types/Schema.antt =====
-- src/types.rs, `Types::{parse_named_type, parse_enum, parse_struct, parse_schema_types}` and the choice of the
-- map of types in `load_schema`. A JSON value is a text, a list, an object in the order of its keys,
-- or any other value; reading the file is left out. The fuel is that of `parse_type`.
pub mod Safe
use sub_script.Prelude.{
  ℕ, String, str_eq, Option, none, some, List, [], ◌∷◌, if◌then◌else◌, lookup, insert, Result, ok,
  err, parse_failed, panicked,
}
use sub_script.Dynamic.{Dynamic}
use sub_script.Types.Variants.{EnumVariants, empty, insert_variant}
use sub_script.Types.Meta.{Enc, Reader, TypeMeta, struct, enum, new_type}
use sub_script.Types.Custom
use sub_script.Types.Registry.{Types, M, proceed, ◌>>=◌, pure, throw, set_cell, insert_meta}
use sub_script.Types.Parser.{parse_type}

mutual
  pub data Json : Type 0 where
    text : String → Json
    list : Elements → Json
    object : Members → Json
    other : Json

  pub data Elements : Type 0 where
    nil : Elements
    cons : Json → Elements → Elements

  pub data Members : Type 0 where
    end : Members
    member : String → Json → Members → Members

abbrev pub get : String → Members → Option Json
get k end = none
get k (member j v m) = if str_eq j k then some v else get k m

unfoldable pub skip_unit : {A : Type 0} → M A → M (Unit {0})
unfolding pure
skip_unit m = do a ← m; pure tt

unfoldable pub add_variant : EnumVariants → String → Option ℕ → EnumVariants
add_variant vs name r = (insert_variant vs name r).0

-- the variants of a list of names
unfoldable pub parse_names : EnumVariants → Elements → M EnumVariants
unfolding pure throw add_variant
parse_names vs nil = pure vs
parse_names vs (cons (text name) es) = parse_names (add_variant vs name none) es
parse_names vs (cons _ es) = throw parse_failed

abbrev pub types_of : Option Json → Members → Members
types_of (some (object types)) schema = types
types_of _ schema = schema

module _ (fuel : ℕ) where
  unfoldable pub parse_named_type : String → String → M ℕ
  parse_named_type name def = do r ← parse_type fuel def; insert_meta name (new_type name r)

  -- the variants of an object from names to type texts, of which the empty one stands for none
  unfoldable pub parse_variants : EnumVariants → Members → M EnumVariants
  unfolding pure throw add_variant
  parse_variants vs end = pure vs
  parse_variants vs (member name (text def) ms) =
      if str_eq def ""
      then parse_variants (add_variant vs name none) ms
      else (do r ← parse_type fuel def; parse_variants (add_variant vs name (some r)) ms)
  parse_variants vs (member name _ ms) = throw parse_failed

  unfoldable pub parse_enum : String → Json → M (Unit {0})
  unfolding throw skip_unit parse_names parse_variants
  parse_enum name (list es) = do vs ← parse_names empty es; skip_unit (insert_meta name (enum vs))
  parse_enum name (object ms) = do
    vs ← parse_variants empty ms
    skip_unit (insert_meta name (enum vs))
  parse_enum name _ = throw parse_failed

  unfoldable pub parse_fields : List (String × ℕ) → Members → M (List (String × ℕ))
  unfolding pure throw
  parse_fields fs end = pure fs
  parse_fields fs (member name (text def) ms) = do
    r ← parse_type fuel def
    parse_fields (insert name r fs) ms
  parse_fields fs (member name _ ms) = throw parse_failed

  unfoldable pub parse_struct : String → Members → M (Unit {0})
  unfolding skip_unit parse_fields
  parse_struct name ms = do fs ← parse_fields [] ms; skip_unit (insert_meta name (struct fs))

  unfoldable pub parse_object : String → Members → M (Unit {0})
  unfolding parse_enum parse_struct
  parse_object name ms = elim (get "_enum" ms) [
    | some variants ↦ parse_enum name variants
    | none ↦ parse_struct name ms
  ]

  -- a value of another kind is reported and passed over
  unfoldable pub parse_schema_type : String → Json → M (Unit {0})
  unfolding pure skip_unit parse_named_type parse_object
  parse_schema_type name (text def) = skip_unit (parse_named_type name def)
  parse_schema_type name (object ms) = parse_object name ms
  parse_schema_type name _ = pure tt

  unfoldable pub parse_schema_types : Members → M (Unit {0})
  unfolding pure parse_schema_type
  parse_schema_types end = pure tt
  parse_schema_types (member name v ms) = do u ← parse_schema_type name v; parse_schema_types ms

  unfoldable pub load_schema : Json → M (Unit {0})
  unfolding throw parse_schema_types
  load_schema (object schema) = parse_schema_types (types_of (get "types" schema) schema)
  load_schema _ = throw panicked

  -- a type by its text, and its cell's codec replaced
  unfoldable pub custom_encode : String → ℕ → (Dynamic → Enc) → M (Unit {0})
  unfolding pure set_cell
  custom_encode name type_id f t =
      proceed (parse_type fuel name t)
        (λ r t'. pure tt (set_cell r (Custom.custom_encode type_id f (t'.cells r)) t'))

  unfoldable pub custom_decode : String → Reader Dynamic → M (Unit {0})
  unfolding pure set_cell
  custom_decode name f t =
      proceed (parse_type fuel name t)
        (λ r t'. pure tt (set_cell r (Custom.custom_decode f (t'.cells r)) t'))
