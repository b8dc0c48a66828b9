-- ===== src/Types/Decode.antt =====
-- src/types.rs, `TypeMeta::decode_value` and `TypeRef::{decode_value, decode}`, with the input passed on.
use sub_script.Prelude.{
  ℕ, zero, suc, ◌^◌, String, Bool, true, false, ◌&&◌, ◌||◌, not, Option, none, some, List, [], ◌∷◌,
  ℤ, pos, negsuc, ltb, ◌==◌, if◌then◌else◌, Result, ok, err, ◌>>=◌, or_fail,
}
use sub_script.Prelude.Outcome
use sub_script.Dynamic.{
  Dynamic, unit, int, decimal, boolean, text, array, object, Items, nil, cons, Fields, end,
  insert_field,
}
use sub_script.Libs.{Libs}
use sub_script.Types.Variants.{EnumVariant, EnumVariants, get_by_idx}
use sub_script.Types.Meta.{
  Reader, TypeMeta, unit_type, bool_type, option_bool, string_type, integer, option, box, vector,
  compact, result, slice, tuple, struct, enum, new_type, unresolved_type, custom,
}

abbrev pub read {ℓ} : {A : Type ℓ} → Option (A × List ℕ) → Result (A × List ℕ)
read o = or_fail o Outcome.decode_failed

abbrev pub only : Dynamic → List ℕ → Result (Dynamic × List ℕ)
only v rest = ok (v, rest)

module _ (l : Libs) where
  -- `Decimal::from`
  unfoldable pub to_decimal : ℤ → Result Dynamic
  to_decimal z = elim (l.decimal_from_int z) [
    | none ↦ err Outcome.panicked
    | some x ↦ ok (decimal x)
  ]

  -- `i64::try_from`, or else a decimal
  unfoldable pub narrow : ℤ → Result Dynamic
  unfolding to_decimal
  narrow (pos n) = if ltb n (2 ^ 63) then ok (int (pos n)) else to_decimal (pos n)
  narrow (negsuc n) = ok (int (negsuc n))

  unfoldable pub decode_integer : ℕ → Bool → Bool → Reader Dynamic
  unfolding narrow
  decode_integer w signed is_compact input =
      if not signed && is_compact
      then (do (n, rest) ← read (l.compact128_decode input); v ← narrow (pos n); ok (v, rest))
      else if w == 16
      then (do (z, rest) ← read (l.int_decode w signed input); v ← to_decimal z; ok (v, rest))
      else if w == 8 && not signed
      then (do (z, rest) ← read (l.int_decode w signed input); v ← narrow z; ok (v, rest))
      else if w == 1 || w == 2 || w == 4 || w == 8
      then (do (z, rest) ← read (l.int_decode w signed input); ok (int z, rest))
      else err Outcome.unsupported_integer

  unfoldable pub decode_bool : Reader Dynamic
  decode_bool input = do (b, rest) ← read (l.read_byte input); ok (boolean (b == 1), rest)

  abbrev pub option_bool_of : ℕ → Dynamic
  option_bool_of b = if b == 1 then boolean true else if b == 2 then boolean false else unit

  unfoldable pub decode_option_bool : Reader Dynamic
  decode_option_bool input = do (b, rest) ← read (l.read_byte input); ok (option_bool_of b, rest)

  unfoldable pub decode_string : Reader Dynamic
  decode_string input = do (s, rest) ← read (l.str_decode input); ok (text s, rest)

-- `for _ in 0..len`
unfoldable pub decode_items : Reader Dynamic → ℕ → Reader Items
decode_items f zero input = ok (nil, input)
decode_items f (suc n) input = do
  (v, rest) ← f input
  (vs, rest') ← decode_items f n rest
  ok (cons v vs, rest')

-- The branches, over the recursive call `rec`, which decodes at a `TypeRef`.
module _ (l : Libs) (rec : ℕ → Bool → Reader Dynamic) where
  unfoldable pub decode_option : ℕ → Reader Dynamic
  decode_option r input = do
    (b, rest) ← read (l.read_byte input)
    if b == 1 then rec r false rest else only unit rest

  abbrev pub single : String → Dynamic → Dynamic
  single name v = object (insert_field name v end)

  unfoldable pub decode_result : ℕ → ℕ → Reader Dynamic
  unfolding insert_field
  decode_result ok_ref err_ref input = do
    (b, rest) ← read (l.read_byte input)
    (v, rest') ← rec (if b == 0 then ok_ref else err_ref) false rest
    ok (single (if b == 0 then "Ok" else "Err") v, rest')

  unfoldable pub decode_vector : ℕ → Reader Dynamic
  unfolding decode_items
  decode_vector r input = do
    (len, rest) ← read (l.compact64_decode input)
    (vs, rest') ← decode_items (rec r false) len rest
    ok (array vs, rest')

  unfoldable pub decode_slice : ℕ → ℕ → Reader Dynamic
  unfolding decode_items
  decode_slice len r input = do
    (vs, rest) ← decode_items (rec r false) len input
    ok (array vs, rest)

  unfoldable pub decode_zip : List ℕ → Reader Items
  decode_zip [] input = ok (nil, input)
  decode_zip (r ∷ rs) input = do
    (v, rest) ← rec r false input
    (vs, rest') ← decode_zip rs rest
    ok (cons v vs, rest')

  unfoldable pub decode_tuple : List ℕ → Reader Dynamic
  unfolding decode_zip
  decode_tuple rs input = do (vs, rest) ← decode_zip rs input; ok (array vs, rest)

  -- The map so far is passed on.
  unfoldable pub decode_fields : List (String × ℕ) → Fields → Reader Fields
  decode_fields [] m input = ok (m, input)
  decode_fields ((name, r) ∷ fs) m input = do
    (v, rest) ← rec r false input
    decode_fields fs (insert_field name v m) rest

  unfoldable pub decode_struct : List (String × ℕ) → Reader Dynamic
  unfolding decode_fields
  decode_struct fs input = do (m, rest) ← decode_fields fs end input; ok (object m, rest)

  unfoldable pub decode_payload : Option ℕ → Reader Dynamic
  decode_payload none input = only unit input
  decode_payload (some r) input = rec r false input

  unfoldable pub decode_variant : Option EnumVariant → Reader Dynamic
  unfolding decode_payload
  decode_variant none input = err Outcome.invalid_variant
  decode_variant (some variant) input = do
    (v, rest) ← decode_payload variant.type_ref input
    ok (single variant.name v, rest)

  unfoldable pub decode_enum : EnumVariants → Reader Dynamic
  unfolding decode_variant
  decode_enum vs input = do
    (b, rest) ← read (l.read_byte input)
    decode_variant (get_by_idx vs b) rest

  -- `TypeMeta::decode_value`; a custom type passes `false` on
  unfoldable pub decode_meta : TypeMeta → Bool → Reader Dynamic
  decode_meta unit_type c = only unit
  decode_meta (integer w signed) c = decode_integer l w signed c
  decode_meta bool_type c = decode_bool l
  decode_meta (option r) c = decode_option r
  decode_meta option_bool c = decode_option_bool l
  decode_meta (result a b) c = decode_result a b
  decode_meta (vector r) c = decode_vector r
  decode_meta (slice len r) c = decode_slice len r
  decode_meta string_type c = decode_string l
  decode_meta (tuple rs) c = decode_tuple rs
  decode_meta (struct fs) c = decode_struct fs
  decode_meta (enum vs) c = decode_enum vs
  decode_meta (compact r) c = rec r true
  decode_meta (box r) c = rec r c
  decode_meta (new_type _ r) c = rec r c
  decode_meta (custom fns m) c = elim fns.decode [ none ↦ decode_meta m false | some f ↦ f ]
  decode_meta (unresolved_type name) c = λ input. err (Outcome.unresolved name)

module _ (l : Libs) (deref : ℕ → TypeMeta) where
  -- `TypeRef::decode_value`
  unfoldable pub decode_ref : ℕ → ℕ → Bool → Reader Dynamic
  decode_ref zero r c input = err Outcome.out_of_fuel
  decode_ref (suc fuel) r c input = decode_meta l (decode_ref fuel) (deref r) c input

  -- `TypeRef::decode`; what is left of the input is dropped
  unfoldable pub decode : ℕ → ℕ → List ℕ → Result Dynamic
  unfolding decode_ref
  decode fuel r input = do (v, rest) ← decode_ref fuel r false input; ok v
