-- ===== src/Types/Encode.antt =====
-- src/types.rs, `TypeMeta::encode_value` and `TypeRef::{encode_value, encode}`. `deref` reads the cell of
-- a `TypeRef`. Descriptions may be cyclic, so the recursion through cells takes fuel.
use sub_script.Prelude.{
  ℕ, zero, suc, ◌*◌, String, Bool, true, false, ◌&&◌, ◌||◌, not, Option, none, some, List, [], ◌∷◌,
  ℤ, pos, as_unsigned, cast, length, drop, leb, ◌==◌, if◌then◌else◌, Result, ok, err,
}
use sub_script.Prelude.Outcome
use sub_script.Dynamic.{
  Dynamic, unit, int, decimal, boolean, text, bytes, array, object, user, Items, nil, cons, Fields,
  end, field, count, type_id, get_field,
}
use sub_script.Libs.{Libs}
use sub_script.Types.Variants.{EnumVariants, get_by_name}
use sub_script.Types.Meta.{
  Enc, EncodedArgs, new_args, emit, fail, ◌>>◌, in_compact, TypeMeta, unit_type, bool_type,
  option_bool, string_type, integer, option, box, vector, compact, result, slice, tuple, struct,
  enum, new_type, unresolved_type, custom, encoder, is_u8,
}

-- the widths that the source has an arm for
abbrev pub is_width : ℕ → Bool
is_width w = w == 1 || w == 2 || w == 4 || w == 8 || w == 16

unfoldable pub done : Enc
done d = (d, ok tt)

unfoldable pub has_0x : List ℕ → Bool
has_0x (a ∷ b ∷ _) = a == b'0' && b == b'x'
has_0x _ = false

module _ (l : Libs) where
  unfoldable pub encode_u8 : ℕ → Enc
  unfolding emit
  encode_u8 n = emit (l.int_encode 1 false (pos n))

  -- an i64 of a script, cast to the width
  unfoldable pub encode_int : ℕ → Bool → ℤ → Enc
  unfolding emit fail
  encode_int w signed z d =
      if not signed && d.compact
      then emit (l.compact128_encode (as_unsigned 128 z)) d
      else if is_width w
      then emit (l.int_encode w signed (cast (8 * w) signed z)) d
      else fail Outcome.unsupported_integer d

  abbrev pub emit_int : (ℤ → List ℕ) → Option ℤ → Enc
  emit_int f none = fail Outcome.integer_out_of_range
  emit_int f (some z) = emit (f z)

  unfoldable pub encode_decimal : ℕ → Bool → ℕ → Enc
  unfolding emit fail
  encode_decimal w signed x d =
      if not signed && d.compact
      then emit_int (λ z. l.compact128_encode (as_unsigned 128 z)) (l.decimal_to_int 16 false x) d
      else if is_width w
      then emit_int (l.int_encode w signed) (l.decimal_to_int w signed x) d
      else fail Outcome.unsupported_integer d

  unfoldable pub encode_integer : ℕ → Bool → Dynamic → Enc
  unfolding encode_int encode_decimal
  encode_integer w signed (int z) = encode_int w signed z
  encode_integer w signed (decimal x) = encode_decimal w signed x
  encode_integer w signed _ = fail Outcome.expected_number

  unfoldable pub encode_bool : Dynamic → Enc
  unfolding emit fail
  encode_bool (boolean b) = emit (l.bool_encode b)
  encode_bool _ = fail Outcome.expected_bool

  unfoldable pub encode_option_bool : Dynamic → Enc
  unfolding emit
  encode_option_bool (boolean b) = emit (l.option_bool_encode (some b))
  encode_option_bool _ = emit (l.option_bool_encode none)

  unfoldable pub encode_string : Dynamic → Enc
  unfolding emit fail
  encode_string (bytes b) = emit (l.slice_encode b)
  encode_string (text s) = emit (l.str_encode s)
  encode_string _ = fail Outcome.expected_string

  abbrev pub emit_hex : Option (List ℕ) → Enc
  emit_hex none = fail Outcome.bad_hex
  emit_hex (some b) = emit b

  -- a text for `[u8; len]`: the bytes themselves, or hexadecimal digits
  unfoldable pub encode_byte_text : ℕ → List ℕ → Enc
  unfolding emit fail has_0x
  encode_byte_text len s =
      if length s == len
      then emit s
      else if leb (len * 2) (length s)
      then emit_hex (l.hex_decode (if has_0x s then drop 2 s else s))
      else fail Outcome.unhandled_slice

  unfoldable pub encode_byte_array : ℕ → Dynamic → Enc
  unfolding encode_byte_text
  encode_byte_array len (user u) =
      if len == 32 then emit (l.public u) else fail Outcome.unhandled_slice
  encode_byte_array len (text s) = encode_byte_text len s
  encode_byte_array len _ = fail Outcome.unhandled_slice

unfoldable pub encode_items : (Dynamic → Enc) → Items → Enc
unfolding done
encode_items f nil = done
encode_items f (cons v vs) = f v >> encode_items f vs

-- The branches, over the recursive call `rec`, which encodes at a `TypeRef`.
module _ (l : Libs) (rec : ℕ → Dynamic → Enc) where
  unfoldable pub encode_option : ℕ → Dynamic → Enc
  unfolding encode_u8
  encode_option r unit = encode_u8 l 0
  encode_option r v = encode_u8 l 1 >> rec r v

  unfoldable pub encode_vector : ℕ → Dynamic → Enc
  unfolding emit fail encode_items
  encode_vector r (array vs) = emit (l.compact64_encode (count vs)) >> encode_items (rec r) vs
  encode_vector r _ = fail Outcome.expected_vector

  unfoldable pub encode_slice : (ℕ → TypeMeta) → ℕ → ℕ → Dynamic → Enc
  unfolding fail encode_items encode_byte_array
  encode_slice deref len r (array vs) =
      if count vs == len then encode_items (rec r) vs else fail Outcome.wrong_length
  encode_slice deref len r v =
      if is_u8 (deref r) then encode_byte_array l len v else fail Outcome.unhandled_slice

  unfoldable pub encode_zip : List ℕ → Items → Enc
  unfolding done
  encode_zip (r ∷ rs) (cons v vs) = rec r v >> encode_zip rs vs
  encode_zip _ _ = done

  unfoldable pub encode_tuple : List ℕ → Dynamic → Enc
  unfolding fail encode_zip
  encode_tuple rs (array vs) =
      if count vs == length rs then encode_zip rs vs else fail Outcome.wrong_length
  encode_tuple rs _ = fail Outcome.expected_tuple

  unfoldable pub encode_fields : List (String × ℕ) → Fields → Enc
  unfolding done fail
  encode_fields [] m = done
  encode_fields ((name, r) ∷ fs) m = elim (get_field name m) [
    | none ↦ fail (Outcome.missing_field name)
    | some v ↦ rec r v >> encode_fields fs m
  ]

  unfoldable pub encode_struct : List (String × ℕ) → Dynamic → Enc
  unfolding fail encode_fields
  encode_struct fs (object m) = encode_fields fs m
  encode_struct fs _ = fail Outcome.expected_struct

  unfoldable pub encode_payload : Option ℕ → Dynamic → Enc
  unfolding done
  encode_payload none v = done
  encode_payload (some r) v = rec r v

  -- The flag says that a variant has been written.
  unfoldable pub encode_variants : EnumVariants → Bool → Fields → Enc
  unfolding done fail encode_u8 encode_payload
  encode_variants vs encoded end = if encoded then done else fail Outcome.empty_enum
  encode_variants vs encoded (field name v m) = elim (get_by_name vs name) [
    | none ↦ fail (Outcome.unknown_variant name)
    | some variant ↦
        if encoded
        then fail Outcome.multiple_variants
        else (encode_u8 l variant.idx >> encode_payload variant.type_ref v)
          >> encode_variants vs true m
  ]

  unfoldable pub encode_enum : EnumVariants → Dynamic → Enc
  unfolding fail encode_variants
  encode_enum vs (object m) = encode_variants vs false m
  encode_enum vs _ = fail Outcome.expected_enum

  -- `TypeMeta::encode_value`
  unfoldable pub encode_meta : (ℕ → TypeMeta) → TypeMeta → Dynamic → Enc
  unfolding done fail
  encode_meta deref unit_type v = done
  encode_meta deref (integer w signed) v = encode_integer l w signed v
  encode_meta deref bool_type v = encode_bool l v
  encode_meta deref (option r) v = encode_option r v
  encode_meta deref option_bool v = encode_option_bool l v
  encode_meta deref (vector r) v = encode_vector r v
  encode_meta deref (slice len r) v = encode_slice deref len r v
  encode_meta deref string_type v = encode_string l v
  encode_meta deref (tuple rs) v = encode_tuple rs v
  encode_meta deref (struct fs) v = encode_struct fs v
  encode_meta deref (enum vs) v = encode_enum vs v
  encode_meta deref (compact r) v = in_compact (rec r v)
  encode_meta deref (box r) v = rec r v
  encode_meta deref (new_type _ r) v = rec r v
  encode_meta deref (custom c m) v = elim (encoder (type_id v) c.encode_map) [
    | none ↦ encode_meta deref m v
    | some f ↦ f v
  ]
  encode_meta deref (unresolved_type name) v = fail (Outcome.unresolved name)
  encode_meta deref (result _ _) v = fail Outcome.unhandled_type

module _ (l : Libs) (deref : ℕ → TypeMeta) where
  -- `TypeRef::encode_value`
  unfoldable pub encode_ref : ℕ → ℕ → Dynamic → Enc
  unfolding fail
  encode_ref zero r v = fail Outcome.out_of_fuel
  encode_ref (suc fuel) r v = encode_meta l (encode_ref fuel) deref (deref r) v

  abbrev pub finish : EncodedArgs × Result (Unit {0}) → Result (List ℕ)
  finish (d, ok _) = ok d.data_bytes
  finish (d, err e) = err e

  -- `TypeRef::encode`
  unfoldable pub encode : ℕ → ℕ → Dynamic → Result (List ℕ)
  unfolding encode_ref
  encode fuel r v = finish (encode_ref fuel r v new_args)
