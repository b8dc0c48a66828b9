-- ===== src/Types/Appends.antt =====
-- src/types.rs, `TypeMeta::encode_value`, on every branch, errors included.
pub mod Rules
use sub_script.Prelude.{
  ℕ, zero, suc, ◌*◌, String, Bool, true, false, ◌&&◌, not, Option, none, some, List, [], ◌∷◌, ◌++◌,
  ◌≡◌, refl, ◌∙◌, ℤ, append-nil, append_assoc, ◌==◌, leb, if◌then◌else◌, length, Bool-cases, inl,
  inr, Option-cases, Result, ok, err, Error, arith,
}
use sub_script.Dynamic.{
  Dynamic, unit, int, decimal, boolean, text, bytes, array, object, user, Items, nil, cons, Fields,
  end, field, get_field, count, type_id,
}
use sub_script.Libs.{Libs}
use sub_script.Types.Variants.{EnumVariants, get_by_name}
use sub_script.Types.Meta.{
  EncodedArgs, Enc, emit, fail, continue, ◌>>◌, in_compact, TypeMeta, unit_type, bool_type,
  option_bool, string_type, integer, option, box, vector, compact, result, slice, tuple, struct,
  enum, new_type, unresolved_type, custom, encoder, is_u8,
}
use sub_script.Types.Encode.{
  done, is_width, encode_u8, encode_integer, encode_bool, encode_option_bool, encode_string,
  encode_byte_array, encode_items, encode_option, encode_vector, encode_slice, encode_zip,
  encode_tuple, encode_fields, encode_struct, encode_payload, encode_variants, encode_enum,
  encode_meta, encode_ref, emit_int, emit_hex,
}
use mathlib.Core.Path.{subst}
use Rules.{
  Appends, Appends-emit, Appends-fail, Appends-done, Appends-test, Appends-if, Appends-seq,
  Appends-in_compact,
}

abbrev pub AllAppend : List (ℕ × (Dynamic → Enc)) → Type 0
AllAppend [] = Unit
AllAppend ((t, f) ∷ fs) = ((v : Dynamic) → Appends (f v)) × AllAppend fs

-- The registered encoders only append, as `data.encode` does.
abbrev pub CustomAppends : TypeMeta → Type 0
CustomAppends (custom c m) = AllAppend c.encode_map × CustomAppends m
CustomAppends _ = Unit

encoder-Appends :
    (t : ℕ) (fs : List (ℕ × (Dynamic → Enc))) (f : Dynamic → Enc)
    → AllAppend fs
    → encoder t fs ≡ some f
    → (v : Dynamic) → Appends (f v)
unfolding encoder
encoder-Appends t [] f h e = cc
encoder-Appends t ((u, g) ∷ fs) f h e = elim (Bool-cases (u == t)) [
  | inl same ↦ λ v.
      let e' : ◌≡◌ {A = Option (Dynamic → Enc)} (some g) (some f) = rw same at e in
      let q : g ≡ f = cc in subst (λ k. Appends (k v)) q (h.0 v)
  | inr diff ↦ encoder-Appends t fs f h.1 (rw diff at e)
]

module _ (l : Libs) where
  Appends-u8 : (n : ℕ) → Appends (encode_u8 l n)
  unfolding encode_u8
  Appends-u8 n = Appends-emit _

  Appends-integer : (w : ℕ) (s : Bool) (v : Dynamic) → Appends (encode_integer l w s v)
  unfolding encode_integer
  Appends-integer w s (int z) =
      Appends-test (λ d. not s && d.compact) _ _ (Appends-emit _)
        (Appends-test (λ d. is_width w) _ _ (Appends-emit _) (Appends-fail _))
  Appends-integer w s (decimal x) =
      Appends-test (λ d. not s && d.compact) _ _ (of_option _ (l.decimal_to_int 16 false x))
        (Appends-test (λ d. is_width w) _ _ (of_option _ (l.decimal_to_int w s x)) (Appends-fail _))
    where
      of_option : (f : ℤ → List ℕ) (o : Option ℤ) → Appends (emit_int l f o)
      of_option f none = Appends-fail _
      of_option f (some z) = Appends-emit _
  Appends-integer w s _ = Appends-fail _

  Appends-byte_array : (len : ℕ) (v : Dynamic) → Appends (encode_byte_array l len v)
  unfolding encode_byte_array
  Appends-byte_array len (user u) = Appends-if (len == 32) _ _ (Appends-emit _) (Appends-fail _)
  Appends-byte_array len (text s) =
      Appends-if (length s == len) _ _ (Appends-emit _)
        (Appends-if (leb (len * 2) (length s)) _ _ (of_option (l.hex_decode _)) (Appends-fail _))
    where
      of_option : (o : Option (List ℕ)) → Appends (emit_hex l o)
      of_option none = Appends-fail _
      of_option (some b) = Appends-emit _
  Appends-byte_array len _ = Appends-fail _

  Appends-bool : (v : Dynamic) → Appends (encode_bool l v)
  unfolding encode_bool
  Appends-bool (boolean b) = Appends-emit _
  Appends-bool _ = Appends-fail _

  Appends-option_bool : (v : Dynamic) → Appends (encode_option_bool l v)
  unfolding encode_option_bool
  Appends-option_bool (boolean b) = Appends-emit _
  Appends-option_bool _ = Appends-emit _

  Appends-string : (v : Dynamic) → Appends (encode_string l v)
  unfolding encode_string
  Appends-string (text b) = Appends-emit _
  Appends-string (bytes b) = Appends-emit _
  Appends-string _ = Appends-fail _

Appends-items :
    (f : Dynamic → Enc)
    → ((v : Dynamic) → Appends (f v))
    → (vs : Items) → Appends (encode_items f vs)
unfolding encode_items
Appends-items f h nil = Appends-done
Appends-items f h (cons v vs) = Appends-seq _ _ (h v) (Appends-items f h vs)

module _ (l : Libs) (rec : ℕ → Dynamic → Enc) (ih : (r : ℕ) (v : Dynamic) → Appends (rec r v)) where
  Appends-option : (r : ℕ) (v : Dynamic) → Appends (encode_option l rec r v)
  unfolding encode_option
  Appends-option r unit = Appends-u8 l 0
  Appends-option r _ = Appends-seq _ _ (Appends-u8 l 1) (ih r _)

  Appends-vector : (r : ℕ) (v : Dynamic) → Appends (encode_vector l rec r v)
  unfolding encode_vector
  Appends-vector r (array vs) = Appends-seq _ _ (Appends-emit _) (Appends-items (rec r) (ih r) vs)
  Appends-vector r _ = Appends-fail _

  Appends-slice :
      (deref : ℕ → TypeMeta) (len r : ℕ) (v : Dynamic) → Appends (encode_slice l rec deref len r v)
  unfolding encode_slice
  Appends-slice deref len r (array vs) =
      Appends-if (count vs == len) _ _ (Appends-items (rec r) (ih r) vs) (Appends-fail _)
  Appends-slice deref len r v =
      Appends-if (is_u8 (deref r)) _ _ (Appends-byte_array l len v) (Appends-fail _)

  Appends-zip : (rs : List ℕ) (vs : Items) → Appends (encode_zip l rec rs vs)
  unfolding encode_zip
  Appends-zip (r ∷ rs) (cons v vs) = Appends-seq _ _ (ih r v) (Appends-zip rs vs)
  Appends-zip _ _ = Appends-done

  Appends-tuple : (rs : List ℕ) (v : Dynamic) → Appends (encode_tuple l rec rs v)
  unfolding encode_tuple
  Appends-tuple rs (array vs) =
      Appends-if (count vs == length rs) _ _ (Appends-zip rs vs) (Appends-fail _)
  Appends-tuple rs _ = Appends-fail _

  Appends-fields : (fs : List (String × ℕ)) (m : Fields) → Appends (encode_fields l rec fs m)
  unfolding encode_fields
  Appends-fields [] m = Appends-done
  Appends-fields ((name, r) ∷ fs) m = elim (Option-cases (get_field name m)) [
    | inl e ↦ rw (e, encode_fields) (Appends-fail _)
    | inr (v, e) ↦ rw (e, encode_fields) (Appends-seq _ _ (ih r v) (Appends-fields fs m))
  ]

  Appends-struct : (fs : List (String × ℕ)) (v : Dynamic) → Appends (encode_struct l rec fs v)
  unfolding encode_struct
  Appends-struct fs (object m) = Appends-fields fs m
  Appends-struct fs _ = Appends-fail _

  Appends-payload : (o : Option ℕ) (v : Dynamic) → Appends (encode_payload l rec o v)
  unfolding encode_payload
  Appends-payload none v = Appends-done
  Appends-payload (some r) v = ih r v

  Appends-variants :
      (vs : EnumVariants) (b : Bool) (m : Fields) → Appends (encode_variants l rec vs b m)
  unfolding encode_variants
  Appends-variants vs b end = Appends-if b _ _ Appends-done (Appends-fail _)
  Appends-variants vs b (field name v m) = elim (Option-cases (get_by_name vs name)) [
    | inl e ↦ rw (e, encode_variants) (Appends-fail _)
    | inr (variant, e) ↦
        rw (e, encode_variants)
          (Appends-if b _ _ (Appends-fail _) (
            Appends-seq _ _
              (Appends-seq _ _ (Appends-u8 l variant.idx) (Appends-payload variant.type_ref v))
              (Appends-variants vs true m)))
  ]

  Appends-enum : (vs : EnumVariants) (v : Dynamic) → Appends (encode_enum l rec vs v)
  unfolding encode_enum
  Appends-enum vs (object m) = Appends-variants vs false m
  Appends-enum vs _ = Appends-fail _

  Appends-meta :
      (deref : ℕ → TypeMeta) (m : TypeMeta) (v : Dynamic)
      → CustomAppends m
      → Appends (encode_meta l rec deref m v)
  unfolding encode_meta
  Appends-meta deref unit_type v h = Appends-done
  Appends-meta deref (integer w signed) v h = Appends-integer l w signed v
  Appends-meta deref bool_type v h = Appends-bool l v
  Appends-meta deref (option r) v h = Appends-option r v
  Appends-meta deref option_bool v h = Appends-option_bool l v
  Appends-meta deref (vector r) v h = Appends-vector r v
  Appends-meta deref (slice len r) v h = Appends-slice deref len r v
  Appends-meta deref string_type v h = Appends-string l v
  Appends-meta deref (tuple rs) v h = Appends-tuple rs v
  Appends-meta deref (struct fs) v h = Appends-struct fs v
  Appends-meta deref (enum vs) v h = Appends-enum vs v
  Appends-meta deref (compact r) v h = Appends-in_compact _ (ih r v)
  Appends-meta deref (box r) v h = ih r v
  Appends-meta deref (new_type _ r) v h = ih r v
  Appends-meta deref (unresolved_type name) v h = Appends-fail _
  Appends-meta deref (result _ _) v h = Appends-fail _
  Appends-meta deref (custom c m) v h = elim (Option-cases (encoder (type_id v) c.encode_map)) [
    | inl e ↦ rw (e, encode_meta) (Appends-meta deref m v h.1)
    | inr (f, e) ↦ rw (e, encode_meta) (encoder-Appends (type_id v) c.encode_map f h.0 e v)
  ]

module _ (l : Libs) (deref : ℕ → TypeMeta) (customs : (r : ℕ) → CustomAppends (deref r)) where
  -- If the registered custom encoders only append, then encoding any value at any cell, with any
  -- fuel, only appends to the buffer and leaves the compact flag as it was, also when it fails.
  pub encode_ref-Appends : (fuel r : ℕ) (v : Dynamic) → Appends (encode_ref l deref fuel r v)
  unfolding encode_ref
  encode_ref-Appends zero r v = Appends-fail _
  encode_ref-Appends (suc fuel) r v =
      Appends-meta l (encode_ref l deref fuel) (encode_ref-Appends fuel) deref (deref r) v
        (customs r)
