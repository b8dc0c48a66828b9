-- ===== src/Libs.antt =====
-- The third-party code that src/types.rs calls, as a parameter: the SCALE codec
-- (`parity_scale_codec`), `rust_decimal`, `hex` and the key pairs of `sp_core`.
use sub_script.Prelude.{
  ℕ, ◌*◌, ◌<◌, ◌^◌, ℤ, pos, InRange, Bool, true, false, Option, some, List, ◌++◌, ◌≡◌,
}

pub record Libs : Type 0 where
  -- `Encode` and `Decode` of the integer of so many bytes, signed or not
  pub int_encode : ℕ → Bool → ℤ → List ℕ
  pub int_decode : ℕ → Bool → List ℕ → Option (ℤ × List ℕ)
  -- `Compact<u64>` and `Compact<u128>`
  pub compact64_encode : ℕ → List ℕ
  pub compact64_decode : List ℕ → Option (ℕ × List ℕ)
  pub compact128_encode : ℕ → List ℕ
  pub compact128_decode : List ℕ → Option (ℕ × List ℕ)
  -- `Input::read_byte`
  pub read_byte : List ℕ → Option (ℕ × List ℕ)
  pub bool_encode : Bool → List ℕ
  pub option_bool_encode : Option Bool → List ℕ
  -- `[u8]` and `str`, with their length in front
  pub slice_encode : List ℕ → List ℕ
  pub str_encode : List ℕ → List ℕ
  pub str_decode : List ℕ → Option (List ℕ × List ℕ)
  pub hex_decode : List ℕ → Option (List ℕ)
  -- `Decimal::to_i8` .. `Decimal::to_u128`, and `Decimal::from`, which panics when it does not fit
  pub decimal_to_int : ℕ → Bool → ℕ → Option ℤ
  pub decimal_from_int : ℤ → Option ℕ
  -- the public key of a user, encoded
  pub public : ℕ → List ℕ

-- The documented behaviour that decoding relies on: what was encoded is read back, and the rest
-- of the input is left.
pub record Laws (l : Libs) : Type 0 where
  pub int_codec :
      (w : ℕ) (s : Bool) (z : ℤ) (rest : List ℕ)
      → InRange (8 * w) s z
      → l.int_decode w s (l.int_encode w s z ++ rest) ≡ some (z, rest)
  pub compact64_codec :
      (n : ℕ) (rest : List ℕ)
      → n < 2 ^ 64
      → l.compact64_decode (l.compact64_encode n ++ rest) ≡ some (n, rest)
  pub compact128_codec :
      (n : ℕ) (rest : List ℕ)
      → n < 2 ^ 128
      → l.compact128_decode (l.compact128_encode n ++ rest) ≡ some (n, rest)
  pub byte_codec :
      (n : ℕ) (rest : List ℕ)
      → n < 256
      → l.read_byte (l.int_encode 1 false (pos n) ++ rest) ≡ some (n, rest)
  pub bool_codec :
      (b : Bool) (rest : List ℕ)
      → l.read_byte (l.bool_encode b ++ rest) ≡ some (elim b [ true ↦ 1 | false ↦ 0 ], rest)
  pub str_codec : (s rest : List ℕ) → l.str_decode (l.str_encode s ++ rest) ≡ some (s, rest)
