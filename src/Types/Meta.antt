-- ===== src/Types/Meta.antt =====
-- src/types.rs, `TypeMeta`, `CustomType`, and src/metadata.rs, `EncodedArgs`. A `TypeRef` is a shared
-- cell: here an address in a store of descriptions, which is an argument of the codec.
use sub_script.Prelude.{
  ℕ, String, Bool, true, false, Option, none, some, List, [], ◌∷◌, ◌++◌, ◌==◌, if◌then◌else◌,
  Result, ok, err, Error,
}
use sub_script.Dynamic.{Dynamic}
use sub_script.Types.Variants.{EnumVariants}

pub record EncodedArgs : Type 0 where
  pub data_bytes : List ℕ
  pub compact : Bool

abbrev pub new_args : EncodedArgs
new_args = record { data_bytes = []; compact = false }

-- An operation on the buffer. What was written before an error stays written.
abbrev pub Enc : Type 0
Enc = EncodedArgs → EncodedArgs × Result (Unit {0})

-- A reader of the input.
abbrev pub Reader : Type 0 → Type 0
Reader A = List ℕ → Result (A × List ℕ)

-- `data.encode(val)` and `data.write(bytes)`, with the bytes of `val`
unfoldable pub emit : List ℕ → Enc
emit bs d = (record d { data_bytes = d.data_bytes ++ bs }, ok tt)

unfoldable pub fail : Error → Enc
fail e d = (d, err e)

unfoldable pub continue : Result (Unit {0}) → Enc → Enc
continue (ok _) n d = n d
continue (err e) n d = (d, err e)

infixl 5 ◌>>◌
unfoldable pub ◌>>◌ : Enc → Enc → Enc
unfolding continue
◌>>◌ m n d = let (d', r) = m d in continue r n d'

-- `set_compact(true)`, the inner encoding, and the old flag put back, also after an error
unfoldable pub in_compact : Enc → Enc
in_compact m d =
    let (d', r) = m (record d { compact = true }) in (record d' { compact = d.compact }, r)

-- the encoders by type of the value, and the decoder
pub record CustomFns : Type 0 where
  pub encode_map : List (ℕ × (Dynamic → Enc))
  pub decode : Option (Reader Dynamic)

pub data TypeMeta : Type 0 where
  unit_type bool_type option_bool string_type : TypeMeta
  integer : ℕ → Bool → TypeMeta
  option box vector compact : ℕ → TypeMeta
  result : ℕ → ℕ → TypeMeta
  slice : ℕ → ℕ → TypeMeta
  tuple : List ℕ → TypeMeta
  struct : List (String × ℕ) → TypeMeta
  enum : EnumVariants → TypeMeta
  new_type : String → ℕ → TypeMeta
  unresolved_type : String → TypeMeta
  custom : CustomFns → TypeMeta → TypeMeta

unfoldable pub encoder : ℕ → List (ℕ × (Dynamic → Enc)) → Option (Dynamic → Enc)
encoder t [] = none
encoder t ((u, f) ∷ fs) = if u == t then some f else encoder t fs

-- `TypeRef::is_u8`, of the description in the cell
abbrev pub is_u8 : TypeMeta → Bool
is_u8 (integer w false) = w == 1
is_u8 _ = false
