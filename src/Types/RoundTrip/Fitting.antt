-- ===== src/Types/RoundTrip/Fitting.antt =====
-- The values that have an encoding from which the same value is read back, at a description.
-- Below a `Compact` (the flag) only integers, boxes and new types are such: encoding passes the flag on,
-- decoding does not.
use sub_script.Prelude.{
  ℕ, zero, suc, ◌*◌, ◌^◌, ◌<◌, ◌≤◌, String, Bool, true, false, ◌&&◌, ◌||◌, not, Option, none, some,
  List, [], ◌∷◌, ◌≡◌, ℤ, pos, negsuc, InRange, leb, ◌==◌,
}
use sub_script.Dynamic.{
  Dynamic, unit, int, decimal, boolean, text, array, object, Items, nil, cons, Fields, end, field,
  count, type_id, insert_field,
}
use sub_script.Libs.{Libs}
use sub_script.Types.Variants.{EnumVariant, EnumVariants, get_by_idx, get_by_name}
use sub_script.Types.Meta.{
  TypeMeta, unit_type, bool_type, string_type, integer, option, box, vector, compact, slice, tuple,
  struct, enum, new_type, custom, encoder,
}

abbrev pub is_small : ℕ → Bool
is_small w = w == 1 || w == 2 || w == 4 || w == 8

-- the integers that come back as an integer of a script; the flag: written as a compact number
abbrev pub FitsInt : Bool → ℕ → Bool → ℤ → Type 0
FitsInt true w s (pos n) = n < 2 ^ 63
FitsInt true w s (negsuc n) = ⊥
FitsInt false w s z = (is_small w ≡ true) × InRange (8 * w) s z × InRange 64 true z

-- those that come back as a decimal
abbrev pub is_big : ℕ → Bool → ℤ → Bool
is_big w s (pos n) = w == 16 || (w == 8 && not s && leb (2 ^ 63) n)
is_big w s (negsuc n) = w == 16

module _ (l : Libs) where
  abbrev pub FitsDecimal : Bool → ℕ → Bool → ℕ → Type 0
  FitsDecimal true w s x =
      (n : ℕ) × (l.decimal_to_int 16 false x ≡ some (pos n))
      × (l.decimal_from_int (pos n) ≡ some x)
      × (2 ^ 63 ≤ n)
      × (n < 2 ^ 128)
  FitsDecimal false w s x =
      (z : ℤ) × (l.decimal_to_int w s x ≡ some z)
      × (l.decimal_from_int z ≡ some x)
      × InRange (8 * w) s z
      × (is_big w s z ≡ true)

  abbrev pub FitsInteger : ℕ → Bool → Bool → Dynamic → Type 0
  FitsInteger w s c (int z) = FitsInt (not s && c) w s z
  FitsInteger w s c (decimal x) = FitsDecimal (not s && c) w s x
  FitsInteger w s c _ = ⊥

abbrev pub FitsBool : Dynamic → Type 0
FitsBool (boolean b) = Unit
FitsBool _ = ⊥

abbrev pub FitsString : Dynamic → Type 0
FitsString (text s) = Unit
FitsString _ = ⊥

abbrev pub FitsUnit : Dynamic → Type 0
FitsUnit unit = Unit
FitsUnit _ = ⊥

abbrev pub AllItems : (Dynamic → Type 0) → Items → Type 0
AllItems P nil = Unit
AllItems P (cons v vs) = P v × AllItems P vs

-- No later field has the name.
abbrev pub IsFresh : String → List (String × ℕ) → Type 0
IsFresh name [] = Unit
IsFresh name ((other, r) ∷ fs) = (name ≡ other → ⊥) × IsFresh name fs

-- The branches, over the predicate at a `TypeRef`.
module _ (P : ℕ → Bool → Dynamic → Type 0) where
  abbrev pub FitsOption : ℕ → Dynamic → Type 0
  FitsOption r unit = Unit
  FitsOption r v = P r false v

  abbrev pub FitsVector : ℕ → Dynamic → Type 0
  FitsVector r (array vs) = (count vs < 2 ^ 64) × AllItems (P r false) vs
  FitsVector r _ = ⊥

  abbrev pub FitsSlice : ℕ → ℕ → Dynamic → Type 0
  FitsSlice len r (array vs) = (count vs ≡ len) × AllItems (P r false) vs
  FitsSlice len r _ = ⊥

  abbrev pub FitsZip : List ℕ → Items → Type 0
  FitsZip [] nil = Unit
  FitsZip (r ∷ rs) (cons v vs) = P r false v × FitsZip rs vs
  FitsZip _ _ = ⊥

  abbrev pub FitsTuple : List ℕ → Dynamic → Type 0
  FitsTuple rs (array vs) = FitsZip rs vs
  FitsTuple rs _ = ⊥

  -- `vs` are the values of the fields, in the order of the description.
  abbrev pub FitsEach : List (String × ℕ) → Items → Type 0
  FitsEach [] nil = Unit
  FitsEach ((name, r) ∷ fs) (cons v vs) = IsFresh name fs × P r false v × FitsEach fs vs
  FitsEach _ _ = ⊥

  abbrev pub fields_of : List (String × ℕ) → Items → Fields → Fields
  fields_of ((name, r) ∷ fs) (cons v vs) m = fields_of fs vs (insert_field name v m)
  fields_of _ _ m = m

  abbrev pub FitsStruct : List (String × ℕ) → Dynamic → Type 0
  FitsStruct fs (object m) = (vs : Items) × FitsEach fs vs × (m ≡ fields_of fs vs end)
  FitsStruct fs _ = ⊥

  abbrev pub FitsPayload : Option ℕ → Dynamic → Type 0
  FitsPayload none v = FitsUnit v
  FitsPayload (some r) v = P r false v

  abbrev pub FitsEnum : EnumVariants → Dynamic → Type 0
  FitsEnum vs (object (field name v end)) =
      (variant : EnumVariant) × (get_by_name vs name ≡ some variant)
      × (get_by_idx vs variant.idx ≡ some variant)
      × (variant.name ≡ name)
      × (variant.idx < 256)
      × FitsPayload variant.type_ref v
  FitsEnum vs _ = ⊥

  -- At a cell that is described by `m`; the flag is that of a `Compact` above.
  abbrev pub FitsMeta : Libs → TypeMeta → Bool → Dynamic → Type 0
  FitsMeta l unit_type c v = FitsUnit v
  FitsMeta l bool_type c v = FitsBool v
  FitsMeta l string_type c v = FitsString v
  FitsMeta l (integer w s) c v = FitsInteger l w s c v
  FitsMeta l (compact r) c v = P r true v
  FitsMeta l (box r) c v = P r c v
  FitsMeta l (new_type _ r) c v = P r c v
  FitsMeta l (option r) false v = FitsOption r v
  FitsMeta l (vector r) false v = FitsVector r v
  FitsMeta l (slice len r) false v = FitsSlice len r v
  FitsMeta l (tuple rs) false v = FitsTuple rs v
  FitsMeta l (struct fs) false v = FitsStruct fs v
  FitsMeta l (enum vs) false v = FitsEnum vs v
  FitsMeta l (custom fns m) false v =
      (encoder (type_id v) fns.encode_map ≡ none) × (fns.decode ≡ none) × FitsMeta l m false v
  FitsMeta l _ c v = ⊥

-- Through at most so many cells.
abbrev pub Fits : Libs → (ℕ → TypeMeta) → ℕ → ℕ → Bool → Dynamic → Type 0
Fits l deref zero r c v = ⊥
Fits l deref (suc n) r c v = FitsMeta (Fits l deref n) l (deref r) c v
