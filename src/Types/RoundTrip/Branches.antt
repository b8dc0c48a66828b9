-- ===== src/Types/RoundTrip/Branches.antt =====
-- The round trips of the composite descriptions, from those at the cells below.
use sub_script.Prelude.{
  ℕ, zero, suc, ◌<◌, String, Bool, true, false, Option, none, some, List, [], ◌∷◌, ◌≡◌, refl, ap,
  length, ◌==◌, ==_refl, str_eq_iff, str_eq_refl, arith,
}
use sub_script.Dynamic.{
  Dynamic, unit, array, object, Items, nil, cons, Fields, end, field, count, get_field,
  insert_field, get_field-insert_field,
}
use sub_script.Libs.{Libs, Laws}
use sub_script.Types.Variants.{EnumVariant, EnumVariants, get_by_idx}
use sub_script.Types.Meta.{Enc, Reader, TypeMeta}
use sub_script.Types.Encode.{
  encode_u8, encode_items, encode_option, encode_vector, encode_slice, encode_zip, encode_tuple,
  encode_fields, encode_struct, encode_payload, encode_variants, encode_enum,
}
use sub_script.Types.Decode.{
  read, decode_items, decode_option, decode_vector, decode_slice, decode_zip, decode_tuple,
  decode_fields, decode_struct, decode_payload, decode_variant, decode_enum,
}
use sub_script.Types.RoundTrip.Rules.{
  Codes, Codes-emit, Codes-done, Codes-seq, Codes-map, Codes-end,
}
use sub_script.Types.RoundTrip.Fitting.{
  AllItems, IsFresh, FitsOption, FitsVector, FitsSlice, FitsZip, FitsTuple, FitsEach, fields_of,
  FitsStruct, FitsPayload, FitsEnum,
}

-- The field is not written again.
get_fields_of :
    (P : ℕ → Bool → Dynamic → Type 0) (name : String) (fs : List (String × ℕ)) (vs : Items)
    (m : Fields)
    → IsFresh name fs
    → get_field name (fields_of P fs vs m) ≡ get_field name m
get_fields_of P name [] vs m h = refl
get_fields_of P name (f ∷ fs) nil m h = refl
get_fields_of P name ((other, r) ∷ fs) (cons v vs) m h = ground (
  arith,
  get_fields_of P name fs vs (insert_field other v m) h.1,
  get_field-insert_field other name v m,
  str_eq_iff other name,
)

module _ (l : Libs) (laws : Laws l) (e : ℕ → Dynamic → Enc) (d : ℕ → Bool → Reader Dynamic)
    (P : ℕ → Bool → Dynamic → Type 0)
    (ih : (r : ℕ) (c : Bool) (v : Dynamic) → P r c v → Codes (e r v) (d r c) c v) where
  Codes-tag : (n : ℕ) → n < 256 → Codes (encode_u8 l n) (λ input. read (l.read_byte input)) false n
  unfolding encode_u8
  Codes-tag n h = Codes-emit false _ _ n (λ rest. rw (laws.byte_codec n rest h))

  Codes-items :
      (r : ℕ) (vs : Items) (n : ℕ)
      → count vs ≡ n
      → AllItems (P r false) vs
      → Codes (encode_items (e r) vs) (decode_items (d r false) n) false vs
  unfolding encode_items decode_items
  Codes-items r nil zero q h = Codes-done false _ nil (λ rest. refl)
  Codes-items r nil (suc n) q h = absurd (omega arith)
  Codes-items r (cons v vs) zero q h = absurd (omega arith)
  Codes-items r (cons v vs) (suc n) q h =
      Codes-seq false _ _ (d r false) _ v (cons v vs) (ih r false v h.0) (
        Codes-map false _ (decode_items (d r false) n) (cons v) vs
          (Codes-items r vs n (omega arith) h.1))

  pub Codes-option :
      (r : ℕ) (v : Dynamic)
      → FitsOption P r v
      → Codes (encode_option l e r v) (decode_option l d r) false v
  unfolding encode_option decode_option
  Codes-option r unit h =
      Codes-emit false _ _ unit (λ rest. rw (laws.byte_codec 0 rest (omega arith)))
  Codes-option r v h =
      Codes-seq false _ _ (λ input. read (l.read_byte input)) _ 1 v (Codes-tag 1 (omega arith))
        (ih r false v h)

  pub Codes-vector :
      (r : ℕ) (v : Dynamic)
      → FitsVector P r v
      → Codes (encode_vector l e r v) (decode_vector l d r) false v
  unfolding encode_vector decode_vector
  Codes-vector r (array vs) h =
      Codes-seq false _ _ (λ input. read (l.compact64_decode input)) _ (count vs) (array vs)
        (Codes-emit false _ _ _ (λ rest. rw (laws.compact64_codec (count vs) rest h.0)))
        (Codes-map false _ (decode_items (d r false) (count vs)) array vs
          (Codes-items r vs (count vs) refl h.1))
  Codes-vector r _ h = absurd h

  pub Codes-slice :
      (deref : ℕ → TypeMeta) (len r : ℕ) (v : Dynamic)
      → FitsSlice P len r v
      → Codes (encode_slice l e deref len r v) (decode_slice l d len r) false v
  unfolding encode_slice decode_slice
  Codes-slice deref len r (array vs) h =
      let fits : (count vs == len) ≡ true = ground (arith, h.0) in
      rw fits
        (Codes-map false _ (decode_items (d r false) len) array vs (Codes-items r vs len h.0 h.1))
  Codes-slice deref len r _ h = absurd h

  Codes-zip :
      (rs : List ℕ) (vs : Items)
      → FitsZip P rs vs
      → Codes (encode_zip l e rs vs) (decode_zip l d rs) false vs
  unfolding encode_zip decode_zip
  Codes-zip [] nil h = Codes-done false _ nil (λ rest. refl)
  Codes-zip (r ∷ rs) (cons v vs) h =
      Codes-seq false _ _ (d r false) _ v (cons v vs) (ih r false v h.0)
        (Codes-map false _ (decode_zip l d rs) (cons v) vs (Codes-zip rs vs h.1))
  Codes-zip _ _ h = absurd h

  zip_count : (rs : List ℕ) (vs : Items) → FitsZip P rs vs → count vs ≡ length rs
  zip_count [] nil h = refl
  zip_count (r ∷ rs) (cons v vs) h = ap suc (zip_count rs vs h.1)
  zip_count _ _ h = absurd h

  pub Codes-tuple :
      (rs : List ℕ) (v : Dynamic)
      → FitsTuple P rs v
      → Codes (encode_tuple l e rs v) (decode_tuple l d rs) false v
  unfolding encode_tuple decode_tuple
  Codes-tuple rs (array vs) h = rw (zip_count rs vs h) (
      rw (==_refl (length rs)) (Codes-map false _ (decode_zip l d rs) array vs (Codes-zip rs vs h)))
  Codes-tuple rs _ h = absurd h

  Codes-fields :
      (fs : List (String × ℕ)) (vs : Items) (m full : Fields)
      → FitsEach P fs vs
      → full ≡ fields_of P fs vs m
      → Codes (encode_fields l e fs full) (decode_fields l d fs m) false full
  unfolding encode_fields decode_fields
  Codes-fields [] nil m full h q = Codes-done false _ full (λ rest. rw q)
  Codes-fields ((name, r) ∷ fs) (cons v vs) m full h q =
      rw (here, encode_fields)
        (Codes-seq false _ _ (d r false) _ v full (ih r false v h.1)
          (Codes-fields fs vs (insert_field name v m) full h.2 q))
    where
      here : get_field name full ≡ some v
      here = rw q (
          rw (get_fields_of P name fs vs (insert_field name v m) h.0)
            (rw (get_field-insert_field name name v m) (rw (str_eq_refl name))))
  Codes-fields _ _ m full h q = absurd h

  pub Codes-struct :
      (fs : List (String × ℕ)) (v : Dynamic)
      → FitsStruct P fs v
      → Codes (encode_struct l e fs v) (decode_struct l d fs) false v
  unfolding encode_struct decode_struct
  Codes-struct fs (object m) h =
      Codes-map false _ (decode_fields l d fs end) object m (Codes-fields fs h.0 end m h.1 h.2)
  Codes-struct fs _ h = absurd h

  Codes-payload :
      (o : Option ℕ) (v : Dynamic)
      → FitsPayload P o v
      → Codes (encode_payload l e o v) (decode_payload l d o) false v
  unfolding encode_payload decode_payload
  Codes-payload (some r) v h = ih r false v h
  Codes-payload none unit h = Codes-done false _ unit (λ rest. refl)
  Codes-payload none v h = absurd h

  Codes-variant :
      (name : String) (o : Option EnumVariant) (variant : EnumVariant) (v : Dynamic)
      → o ≡ some variant
      → variant.name ≡ name
      → FitsPayload P variant.type_ref v
      → Codes
          (encode_payload l e variant.type_ref v)
          (decode_variant l d o)
          false
          (object (field name v end))
  unfolding decode_variant insert_field
  Codes-variant name o variant v q n h = rw q (
      rw (← n) (
        Codes-map false _ (decode_payload l d variant.type_ref)
          (λ x. object (insert_field variant.name x end)) v (Codes-payload variant.type_ref v h)))

  pub Codes-enum :
      (vs : EnumVariants) (v : Dynamic)
      → FitsEnum P vs v
      → Codes (encode_enum l e vs v) (decode_enum l d vs) false v
  unfolding encode_enum decode_enum
  Codes-enum vs (object (field name v end)) (variant, by_name, by_idx, n, small, h) =
      rw (by_name, encode_variants)
        (Codes-end false _ _ _ (
          Codes-seq false _ _ (λ input. read (l.read_byte input)) _ variant.idx
            (object (field name v end)) (Codes-tag variant.idx small)
            (Codes-variant name (get_by_idx vs variant.idx) variant v by_idx n h)))
  Codes-enum vs _ h = absurd h
