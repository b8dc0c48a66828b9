-- ===== src/Tests/Codec.antt =====
-- A codec that keeps its laws: one number per integer, one more in front for the sign of a signed one.
-- It stands for `parity_scale_codec` in the tests only.
use sub_script.Prelude.{
  ℕ, zero, suc, ℤ, pos, negsuc, InRange, Bool, true, false, Option, none, some, List, [], ◌∷◌, ◌++◌,
  ◌≡◌, refl, ap, length, take, drop, ◌*◌,
}
use sub_script.Libs.{Libs, Laws}
use sub_script.Metadata.Hasher.{Hashes}
use sub_script.Metadata.Keys.{HashLaws}

abbrev write_int : ℕ → Bool → ℤ → List ℕ
write_int w false (pos n) = n ∷ []
write_int w _ (pos n) = 0 ∷ n ∷ []
write_int w _ (negsuc n) = 1 ∷ n ∷ []

abbrev read_int : ℕ → Bool → List ℕ → Option (ℤ × List ℕ)
read_int w false (n ∷ rest) = some (pos n, rest)
read_int w true (zero ∷ n ∷ rest) = some (pos n, rest)
read_int w true (suc _ ∷ n ∷ rest) = some (negsuc n, rest)
read_int w _ _ = none

abbrev pub read_one : List ℕ → Option (ℕ × List ℕ)
read_one [] = none
read_one (n ∷ rest) = some (n, rest)

abbrev write_bool : Bool → List ℕ
write_bool true = 1 ∷ []
write_bool false = 0 ∷ []

abbrev write_option_bool : Option Bool → List ℕ
write_option_bool none = 0 ∷ []
write_option_bool (some true) = 1 ∷ []
write_option_bool (some false) = 2 ∷ []

abbrev write_str : List ℕ → List ℕ
write_str s = length s ∷ s

abbrev read_str : List ℕ → Option (List ℕ × List ℕ)
read_str [] = none
read_str (n ∷ rest) = some (take n rest, drop n rest)

abbrev pub toy : Libs
toy = record {
  int_encode = write_int;
  int_decode = read_int;
  compact64_encode = λ n. n ∷ [];
  compact64_decode = read_one;
  compact128_encode = λ n. n ∷ [];
  compact128_decode = read_one;
  read_byte = read_one;
  bool_encode = write_bool;
  option_bool_encode = write_option_bool;
  slice_encode = write_str;
  str_encode = write_str;
  str_decode = read_str;
  hex_decode = λ s. some s;
  decimal_to_int = λ w s x. some (pos x);
  decimal_from_int = λ z. elim z [ pos n ↦ some n | negsuc n ↦ none ];
  public = λ u. u ∷ [];
}

take-append : (s rest : List ℕ) → take (length s) (s ++ rest) ≡ s
take-append [] rest = refl
take-append (x ∷ s) rest = ap (λ ys. x ∷ ys) (take-append s rest)

drop-append : (s rest : List ℕ) → drop (length s) (s ++ rest) ≡ rest
drop-append [] rest = refl
drop-append (x ∷ s) rest = drop-append s rest

reads_int :
    (w : ℕ) (s : Bool) (z : ℤ) (rest : List ℕ)
    → InRange (8 * w) s z
    → read_int w s (write_int w s z ++ rest) ≡ some (z, rest)
reads_int w false (pos n) rest h = refl
reads_int w false (negsuc n) rest h = absurd h
reads_int w true (pos n) rest h = refl
reads_int w true (negsuc n) rest h = refl

reads_bool :
    (b : Bool) (rest : List ℕ)
    → read_one (write_bool b ++ rest) ≡ some (elim b [ true ↦ 1 | false ↦ 0 ], rest)
reads_bool true rest = refl
reads_bool false rest = refl

reads_str : (s rest : List ℕ) → read_str (write_str s ++ rest) ≡ some (s, rest)
reads_str s rest = rw (take-append s rest, drop-append s rest)

pub toy-Laws : Laws toy
toy-Laws = record {
  int_codec = reads_int;
  compact64_codec = λ n rest h. refl;
  compact128_codec = λ n rest h. refl;
  byte_codec = λ n rest h. refl;
  bool_codec = reads_bool;
  str_codec = reads_str;
}

-- hash functions that keep the whole key
abbrev pub toy_hashes : Hashes
toy_hashes = record {
  hash_blake2_128 = λ k. k;
  hash_blake2_256 = λ k. k;
  hash_blake2_128_concat = λ k. 7 ∷ k;
  hash_twox_128 = λ k. k;
  hash_twox_256 = λ k. k;
  hash_twox_64_concat = λ k. 9 ∷ k;
}

pub toy-HashLaws : HashLaws toy_hashes
toy-HashLaws = record { blake2_concat_injective = λ x y e. cc; twox_concat_injective = λ x y e. cc }
