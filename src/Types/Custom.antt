-- ===== src/Types/Custom.antt =====
-- src/types.rs, `TypeMeta::{make_custom_type, custom_encode, custom_decode}` and
-- `TypeRef::{custom_encode, custom_decode}`: functions of the script engine replace the codec of a cell.
use sub_script.Prelude.{
  ℕ, Bool, true, false, Option, none, some, List, [], ◌∷◌, ◌≡◌, refl, ◌==◌, if◌then◌else◌, arith,
}
use sub_script.Dynamic.{Dynamic, type_id}
use sub_script.Libs.{Libs}
use sub_script.Types.Meta.{Enc, Reader, CustomFns, TypeMeta, custom, encoder}
use sub_script.Types.Encode.{encode_meta}
use sub_script.Types.Decode.{decode_meta}

abbrev pub no_fns : CustomFns
no_fns = record { encode_map = []; decode = none }

-- A description that is wrapped already stays as it is.
unfoldable pub make_custom_type : TypeMeta → TypeMeta
make_custom_type (custom fns m) = custom fns m
make_custom_type m = custom no_fns m

-- the map of encoders by type: an entry that is there is replaced
unfoldable pub add_encoder :
    ℕ → (Dynamic → Enc) → List (ℕ × (Dynamic → Enc)) → List (ℕ × (Dynamic → Enc))
add_encoder t f [] = (t, f) ∷ []
add_encoder t f ((u, g) ∷ fs) =
    let rest = add_encoder t f fs in if u == t then (t, f) ∷ fs else (u, g) ∷ rest

abbrev pub with_encoder : ℕ → (Dynamic → Enc) → TypeMeta → TypeMeta
with_encoder t f (custom fns m) =
    custom (record fns { encode_map = add_encoder t f fns.encode_map }) m
with_encoder t f m = m

abbrev pub with_decoder : Reader Dynamic → TypeMeta → TypeMeta
with_decoder f (custom fns m) = custom (record fns { decode = some f }) m
with_decoder f m = m

unfoldable pub custom_encode : ℕ → (Dynamic → Enc) → TypeMeta → TypeMeta
unfolding make_custom_type add_encoder
custom_encode t f m = with_encoder t f (make_custom_type m)

unfoldable pub custom_decode : Reader Dynamic → TypeMeta → TypeMeta
unfolding make_custom_type
custom_decode f m = with_decoder f (make_custom_type m)

encoder-add_encoder :
    (t u : ℕ) (f : Dynamic → Enc) (fs : List (ℕ × (Dynamic → Enc)))
    → encoder u (add_encoder t f fs) ≡ (if t == u then some f else encoder u fs)
unfolding encoder add_encoder
encoder-add_encoder t u f [] = refl
encoder-add_encoder t u f ((w, g) ∷ fs) = ground (arith, encoder-add_encoder t u f fs)

abbrev encode_by : Option (Dynamic → Enc) → Enc → Dynamic → Enc
encode_by o e v = elim o [ none ↦ e | some f ↦ f v ]

encode_by_test :
    (b : Bool) (f : Dynamic → Enc) (o : Option (Dynamic → Enc)) (e : Enc) (v : Dynamic)
    → encode_by (if b then some f else o) e v ≡ (if b then f v else encode_by o e v)
encode_by_test true f o e v = refl
encode_by_test false f o e v = refl

module _ (l : Libs) (enc : ℕ → Dynamic → Enc) (dec : ℕ → Bool → Reader Dynamic)
    (deref : ℕ → TypeMeta) where
  encode_meta-custom_encode :
      (t : ℕ) (f : Dynamic → Enc) (m : TypeMeta) (v : Dynamic)
      → encode_meta l enc deref (custom_encode t f m) v
        ≡ (if t == type_id v then f v else encode_meta l enc deref m v)
  unfolding encode_meta custom_encode encoder make_custom_type add_encoder
  encode_meta-custom_encode t f (custom fns m) v =
      rw (encoder-add_encoder t (type_id v) f fns.encode_map, encode_meta)
        (encode_by_test (t == type_id v) f (encoder (type_id v) fns.encode_map)
          (encode_meta l enc deref m v) v)
  encode_meta-custom_encode t f m v =
      encode_by_test (t == type_id v) f none (encode_meta l enc deref m v) v

  -- After an encoder for a type of values and then a decoder have been registered at a cell, whatever
  -- was registered earlier: the encoder is used for the values of its type, every other value is
  -- encoded as before, and every value is read by the decoder. With the encoder alone, reading
  -- outside a compact type is as before.
  pub custom_encode_lem :
      (t : ℕ) (f : Dynamic → Enc) (g : Reader Dynamic) (m : TypeMeta) (v : Dynamic) (c : Bool)
      → (encode_meta l enc deref (custom_decode g (custom_encode t f m)) v
          ≡ (if t == type_id v then f v else encode_meta l enc deref m v))
        × (decode_meta l dec (custom_decode g (custom_encode t f m)) c ≡ g)
        × (decode_meta l dec (custom_encode t f m) false ≡ decode_meta l dec m false)
  unfolding encode_meta decode_meta custom_encode custom_decode make_custom_type
  custom_encode_lem t f g (custom fns m) v c =
      (encode_meta-custom_encode t f (custom fns m) v, refl, refl)
  custom_encode_lem t f g m v c = (encode_meta-custom_encode t f m v, refl, refl)
