-- ===== src/Types/RoundTrip/Atoms.antt =====
-- The round trips of numbers, Booleans and texts.
use native.Mathlib.Nat.{mod-eq_of_lt, pow-succ'}
use sub_script.Prelude.{
  ℕ, zero, suc, ◌-◌, ◌*◌, ◌%◌, ◌^◌, ◌<◌, Bool, true, false, ◌&&◌, not, some, List, ◌++◌, ◌≡◌, refl,
  ap, ℤ, pos, negsuc, InRange, cast, ltb, if◌then◌else◌, ok, arith, lt→ltb,
}
use sub_script.Dynamic.{Dynamic, int, decimal, boolean, text}
use sub_script.Libs.{Libs, Laws}
use sub_script.Types.Meta.{emit}
use sub_script.Types.Encode.{
  encode_int, encode_decimal, encode_integer, encode_bool, encode_string, is_width,
}
use sub_script.Types.Decode.{decode_integer, decode_bool, decode_string, narrow}
use sub_script.Types.RoundTrip.Rules.{Codes, Codes-emit}
use sub_script.Types.RoundTrip.Fitting.{
  FitsInt, FitsDecimal, FitsInteger, FitsBool, FitsString, is_small, is_big,
}

cast_signed :
    (p q n : ℕ)
    → q ≡ 2 * p
    → n < p
    → ((if ltb (n % q) p then pos (n % q) else negsuc (q - 1 - n % q)) ≡ pos n)
      × ((if ltb (q - 1 - n % q) p then pos (q - 1 - n % q) else negsuc (q - 1 - (q - 1 - n % q)))
          ≡ negsuc n)
cast_signed p q n e h =
    let m : n % q ≡ n = mod-eq_of_lt (omega arith) in (rw m (ground arith), rw m (ground arith))

pow_pred : (b : ℕ) → 2 ^ suc b ≡ 2 * 2 ^ (suc b - 1)
pow_pred b = let e : suc b - 1 ≡ b = omega arith in rw e (pow-succ' 2 b)

-- A cast to a type that holds the value changes nothing.
pub cast-InRange : (b : ℕ) (s : Bool) (z : ℤ) → 0 < b → InRange b s z → cast b s z ≡ z
cast-InRange zero s z p h = absurd (omega arith)
cast-InRange (suc b) true (pos n) p h =
    (cast_signed (2 ^ (suc b - 1)) (2 ^ suc b) n (pow_pred b) h).0
cast-InRange (suc b) true (negsuc n) p h =
    (cast_signed (2 ^ (suc b - 1)) (2 ^ suc b) n (pow_pred b) h).1
cast-InRange (suc b) false (pos n) p h = ap pos (mod-eq_of_lt h)
cast-InRange (suc b) false (negsuc n) p h = absurd h

wide : (w : ℕ) → is_small w ≡ true → is_width w ≡ true
wide w h = ground arith

wide_big : (w : ℕ) (s : Bool) (z : ℤ) → is_big w s z ≡ true → is_width w ≡ true
wide_big w s (pos n) h = ground arith
wide_big w s (negsuc n) h = ground arith

positive : (w : ℕ) → is_small w ≡ true → 0 < 8 * w
positive w h = ground arith

module _ (l : Libs) (laws : Laws l) where
  pub Codes-encode_bool :
      (c : Bool) (v : Dynamic) → FitsBool v → Codes (encode_bool l v) (decode_bool l) c v
  unfolding encode_bool decode_bool
  Codes-encode_bool c (boolean true) h =
      Codes-emit c (l.bool_encode true) _ _ (λ rest. rw (laws.bool_codec true rest))
  Codes-encode_bool c (boolean false) h =
      Codes-emit c (l.bool_encode false) _ _ (λ rest. rw (laws.bool_codec false rest))
  Codes-encode_bool c _ h = absurd h

  pub Codes-encode_string :
      (c : Bool) (v : Dynamic) → FitsString v → Codes (encode_string l v) (decode_string l) c v
  unfolding encode_string decode_string
  Codes-encode_string c (text s) h =
      Codes-emit c (l.str_encode s) _ _ (λ rest. rw (laws.str_codec s rest))
  Codes-encode_string c _ h = absurd h

  int_compact :
      (w n : ℕ)
      → n < 2 ^ 63
      → Codes (encode_int l w false (pos n)) (decode_integer l w false true) true (int (pos n))
  unfolding encode_int decode_integer narrow
  int_compact w n h = record {
    written = l.compact128_encode n;
    writes = λ p. let m : n % 2 ^ 128 ≡ n = mod-eq_of_lt (omega arith) in rw m;
    reads = λ rest. rw (laws.compact128_codec n rest (omega arith)) (rw (lt→ltb n (2 ^ 63) h));
  }

  int_fixed_reads :
      (w : ℕ) (s c : Bool) (z : ℤ)
      → (not s && c) ≡ false
      → FitsInt false w s z
      → (rest : List ℕ) → decode_integer l w s c (l.int_encode w s z ++ rest) ≡ ok (int z, rest)
  unfolding decode_integer narrow
  int_fixed_reads w true c (pos n) e h rest = ground (arith, laws.int_codec w true (pos n) rest h.1)
  int_fixed_reads w true c (negsuc n) e h rest =
      ground (arith, laws.int_codec w true (negsuc n) rest h.1)
  int_fixed_reads w false c (pos n) e h rest =
      ground (arith, laws.int_codec w false (pos n) rest h.1)
  int_fixed_reads w false c (negsuc n) e h rest = absurd h.1

  int_fixed :
      (w : ℕ) (s c : Bool) (z : ℤ)
      → (not s && c) ≡ false
      → FitsInt false w s z
      → Codes (encode_int l w s z) (decode_integer l w s c) c (int z)
  unfolding encode_int decode_integer narrow
  int_fixed w s c z e h = record {
    written = l.int_encode w s z;
    writes = λ p.
        rw (e, encode_int) (rw (wide w h.0) (rw (cast-InRange (8 * w) s z (positive w h.0) h.1)));
    reads = λ rest. int_fixed_reads w s c z e h rest;
  }

  decimal_compact :
      (w x : ℕ)
      → FitsDecimal l true w false x
      → Codes (encode_decimal l w false x) (decode_integer l w false true) true (decimal x)
  unfolding encode_decimal decode_integer narrow emit
  decimal_compact w x (n, to, from, big, small) = record {
    written = l.compact128_encode n;
    writes = λ p. let m : n % 2 ^ 128 ≡ n = mod-eq_of_lt (omega arith) in rw to (rw m);
    reads = λ rest. ground (arith, laws.compact128_codec n rest small);
  }

  decimal_fixed_reads :
      (w x : ℕ) (s c : Bool) (z : ℤ)
      → (not s && c) ≡ false
      → l.decimal_from_int z ≡ some x
      → InRange (8 * w) s z
      → is_big w s z ≡ true
      → (rest : List ℕ) → decode_integer l w s c (l.int_encode w s z ++ rest) ≡ ok (decimal x, rest)
  unfolding decode_integer narrow
  decimal_fixed_reads w x true c (pos n) e from h big rest =
      ground (arith, laws.int_codec w true (pos n) rest h)
  decimal_fixed_reads w x false c (pos n) e from h big rest =
      ground (arith, laws.int_codec w false (pos n) rest h)
  decimal_fixed_reads w x true c (negsuc n) e from h big rest =
      ground (arith, laws.int_codec w true (negsuc n) rest h)
  decimal_fixed_reads w x false c (negsuc n) e from h big rest = absurd h

  decimal_fixed :
      (w x : ℕ) (s c : Bool)
      → (not s && c) ≡ false
      → FitsDecimal l false w s x
      → Codes (encode_decimal l w s x) (decode_integer l w s c) c (decimal x)
  unfolding encode_decimal emit
  decimal_fixed w x s c e (z, to, from, range, big) = record {
    written = l.int_encode w s z;
    writes = λ p. rw (e, encode_decimal) (rw (wide_big w s z big) (rw to));
    reads = decimal_fixed_reads w x s c z e from range big;
  }

  pub Codes-encode_integer :
      (w : ℕ) (s c : Bool) (v : Dynamic)
      → FitsInteger l w s c v
      → Codes (encode_integer l w s v) (decode_integer l w s c) c v
  unfolding encode_integer
  Codes-encode_integer w false true (int (pos n)) h = int_compact w n h
  Codes-encode_integer w false true (int (negsuc n)) h = absurd h
  Codes-encode_integer w true c (int z) h = int_fixed w true c z refl h
  Codes-encode_integer w false false (int z) h = int_fixed w false false z refl h
  Codes-encode_integer w false true (decimal x) h = decimal_compact w x h
  Codes-encode_integer w true c (decimal x) h = decimal_fixed w x true c refl h
  Codes-encode_integer w false false (decimal x) h = decimal_fixed w x false false refl h
  Codes-encode_integer w s c _ h = absurd h
