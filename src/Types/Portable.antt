-- ===== src/Types/Portable.antt =====
-- src/types.rs, `get_type_name` and `is_type_compact`: the texts of the types of a version 14 registry. The
-- registry is `scale_info`'s: of a type what the source reads, with `path` its path as a text and
-- `ident` the path's last part; `resolve` gives the type of an id.
pub mod Named
use Prim.Native.String.{◌++◌ as append}
use sub_script.Prelude.{
  ℕ, zero, suc, String, Bool, true, false, Option, none, some, List, [], ◌∷◌, if◌then◌else◌, Result,
  ok, err, ◌>>=◌, or_fail, panicked, out_of_fuel,
}

pub data Primitive : Type 0 where
  bool char str u8 u16 u32 u64 u128 u256 i8 i16 i32 i64 i128 i256 : Primitive

pub record Field : Type 0 where
  pub name : Option String
  pub ty : ℕ
  pub type_name : Option String

pub record Variant : Type 0 where
  pub name : String
  pub index : ℕ
  pub fields : List Field

pub data TypeDef : Type 0 where
  composite : List Field → TypeDef
  variant : List Variant → TypeDef
  sequence : ℕ → TypeDef
  array : (len elem : ℕ) → TypeDef
  tuple : List ℕ → TypeDef
  primitive : Primitive → TypeDef
  compact : ℕ → TypeDef
  bit_sequence : TypeDef

pub record PortableType : Type 0 where
  pub path : String
  pub ident : Option String
  pub type_params : List (String × Option ℕ)
  pub type_def : TypeDef

pub record PortableRegistry : Type 0 where
  pub types : List (ℕ × PortableType)
  pub resolve : ℕ → Option PortableType

unfoldable pub is_type_compact : PortableType → Bool
is_type_compact ty = elim ty.type_def [ compact _ ↦ true | _ ↦ false ]

abbrev pub primitive_name : Primitive → String
primitive_name bool = "bool"
primitive_name char = "char"
primitive_name str = "Text"
primitive_name u8 = "u8"
primitive_name u16 = "u16"
primitive_name u32 = "u32"
primitive_name u64 = "u64"
primitive_name u128 = "u128"
primitive_name u256 = "u256"
primitive_name i8 = "i8"
primitive_name i16 = "i16"
primitive_name i32 = "i32"
primitive_name i64 = "i64"
primitive_name i128 = "i128"
primitive_name i256 = "i256"

-- `join(",")`
abbrev pub comma_list : List String → String
comma_list [] = ""
comma_list (s ∷ []) = s
comma_list (s ∷ r ∷ ss) = append s (append "," (comma_list (r ∷ ss)))

abbrev pub in_angles : String → String → String
in_angles name inner = append name (append "<" (append inner ">"))

-- `show` writes a number in decimal; `full` takes the whole path
module _ (show : ℕ → String) (types : PortableRegistry) (full : Bool) where
  module _ (rec : PortableType → Result String) where
    unfoldable pub name_of_id : ℕ → Result String
    name_of_id id = or_fail (types.resolve id) panicked >>= λ ty. rec ty

    unfoldable pub names_of_ids : List ℕ → Result (List String)
    unfolding name_of_id
    names_of_ids [] = ok []
    names_of_ids (id ∷ ids) = do n ← name_of_id id; ns ← names_of_ids ids; ok (n ∷ ns)

    unfoldable pub names_of_params : List (String × Option ℕ) → Result (List String)
    unfolding name_of_id
    names_of_params [] = ok []
    names_of_params ((p, none) ∷ ps) = do ns ← names_of_params ps; ok (p ∷ ns)
    names_of_params ((p, some id) ∷ ps) = do n ← name_of_id id; ns ← names_of_params ps; ok (n ∷ ns)

    abbrev pub path_name : PortableType → Result String
    path_name ty = if full then ok ty.path else or_fail ty.ident panicked

    unfoldable pub base_name : PortableType → Result String
    unfolding names_of_ids
    base_name ty = elim ty.type_def [
      | sequence id ↦ name_of_id id >>= λ n. ok (in_angles "Vec" n)
      | array len id ↦
          name_of_id id >>= λ n. ok (append "[" (append n (append "; " (append (show len) "]"))))
      | tuple ids ↦ names_of_ids ids >>= λ ns. ok (append "(" (append (comma_list ns) ")"))
      | primitive p ↦ ok (primitive_name p)
      | compact id ↦ name_of_id id >>= λ n. ok (in_angles "Compact" n)
      | composite _ ↦ path_name ty
      | variant _ ↦ path_name ty
      | bit_sequence ↦ path_name ty
    ]

    abbrev pub with_params : String → List (String × Option ℕ) → Result String
    with_params name [] = ok name
    with_params name (p ∷ ps) =
        names_of_params (p ∷ ps) >>= λ ns. ok (in_angles name (comma_list ns))

  unfoldable pub get_type_name : ℕ → PortableType → Result String
  unfolding base_name names_of_params
  get_type_name zero ty = err out_of_fuel
  get_type_name (suc fuel) ty = do
    name ← base_name (get_type_name fuel) ty
    with_params (get_type_name fuel) name ty.type_params
