-- ===== src/Client/Extrinsic/RoundTrip.antt =====
-- src/client.rs, `ExtrinsicV4`: what is submitted is read back from a block.
use sub_script.Prelude.{
  ℕ, ◌<◌, ◌^◌, ◌≡◌, refl, true, Option, none, some, List, [], ◌∷◌, ◌++◌, map, append_assoc, length,
  Result, ok, arith,
}
use sub_script.Dynamic.{Dynamic}
use sub_script.Libs.{Libs, Laws}
use sub_script.Client.Extrinsic.{
  Wire, Extra, ExtrinsicV4, call_bytes, extra_bytes, decode_extra, signature_bytes, encode, to_hex,
  skip_signature, with_version, decode_call, decoded, with_call, contains, extrinsic_call,
  extrinsics_filtered,
}

pub record WireLaws (l : Libs) (w : Wire) : Type 0 where
  pub address_codec :
      (a : ℕ) (rest : List ℕ) → w.address_decode (w.address_encode a ++ rest) ≡ some (a, rest)
  pub signature_codec :
      (s : ℕ) (rest : List ℕ) → w.signature_decode (w.signature_encode s ++ rest) ≡ some (s, rest)
  pub era_codec : (e : ℕ) (rest : List ℕ) → w.era_decode (w.era_encode e ++ rest) ≡ some (e, rest)
  pub compact32_codec :
      (n : ℕ) (rest : List ℕ)
      → n < 2 ^ 32
      → w.compact32_decode (w.compact32_encode n ++ rest) ≡ some (n, rest)
  -- a byte is written as it is, and a byte string with its length in front
  pub byte_raw : (n : ℕ) (rest : List ℕ) → n < 256 → l.read_byte (n ∷ rest) ≡ some (n, rest)
  pub slice_raw :
      (bs : List ℕ) → length bs < 2 ^ 32 → l.slice_encode bs ≡ w.compact32_encode (length bs) ++ bs
  pub hex_codec : (bs : List ℕ) → l.hex_decode (w.hex_encode bs) ≡ some bs
  pub blake_length : (bs : List ℕ) → length (w.blake2_256 bs) ≡ 32

-- The nonce is a u32, the tip a u128, and the whole is shorter than 2 ^ 32 bytes.
abbrev pub SignatureFits : Option (ℕ × ℕ × Extra) → Type 0
SignatureFits none = Unit
SignatureFits (some (account, sig, extra)) = (extra.nonce < 2 ^ 32) × (extra.tip < 2 ^ 128)

pub record Sendable (l : Libs) (w : Wire) (xt : ExtrinsicV4) : Type 0 where
  pub fits : SignatureFits xt.signature
  pub short : length (signature_bytes l w xt.signature ++ call_bytes xt.call) < 2 ^ 32

module _ (l : Libs) (w : Wire) where
  abbrev pub AllSendable : List ExtrinsicV4 → Type 0
  AllSendable [] = Unit
  AllSendable (xt ∷ xts) = Sendable l w xt × AllSendable xts

  -- the calls that decode, in order
  unfoldable pub calls : (List ℕ → Result Dynamic) → List ExtrinsicV4 → List Dynamic
  calls decode_ty [] = []
  calls decode_ty (xt ∷ xts) =
      with_call l w (decoded l w (decode_ty (call_bytes xt.call))) (calls decode_ty xts)

module _ (l : Libs) (w : Wire) (laws : Laws l) (wire : WireLaws l w) where
  decode_extra_lem :
      (e : Extra) (rest : List ℕ)
      → e.nonce < 2 ^ 32
      → e.tip < 2 ^ 128
      → decode_extra l w (extra_bytes l w e ++ rest) ≡ ok (e, rest)
  unfolding decode_extra extra_bytes
  decode_extra_lem e rest n t =
      rw
        (append_assoc (w.era_encode e.era) (w.compact32_encode e.nonce ++ l.compact128_encode e.tip)
          rest)
        (rw (append_assoc (w.compact32_encode e.nonce) (l.compact128_encode e.tip) rest) (
          rw
            (wire.era_codec e.era
              (w.compact32_encode e.nonce ++ (l.compact128_encode e.tip ++ rest)))
            (rw (wire.compact32_codec e.nonce (l.compact128_encode e.tip ++ rest) n)
              (rw (laws.compact128_codec e.tip rest t) refl))))

  skip_signature_lem :
      (a s : ℕ) (e : Extra) (rest : List ℕ)
      → e.nonce < 2 ^ 32
      → e.tip < 2 ^ 128
      → skip_signature l w true
          ((w.address_encode a ++ (w.signature_encode s ++ extra_bytes l w e)) ++ rest)
        ≡ ok rest
  unfolding skip_signature
  skip_signature_lem a s e rest n t =
      rw (append_assoc (w.address_encode a) (w.signature_encode s ++ extra_bytes l w e) rest) (
        rw (append_assoc (w.signature_encode s) (extra_bytes l w e) rest) (
          rw (wire.address_codec a (w.signature_encode s ++ (extra_bytes l w e ++ rest))) (
            rw (wire.signature_codec s (extra_bytes l w e ++ rest))
              (rw (decode_extra_lem e rest n t) refl))))

  decode_call_signed :
      (decode_ty : List ℕ → Result Dynamic) (sig : Option (ℕ × ℕ × Extra)) (body : List ℕ)
      → SignatureFits sig
      → length (signature_bytes l w sig ++ body) < 2 ^ 32
      → decode_call l w decode_ty (l.slice_encode (signature_bytes l w sig ++ body))
        ≡ decode_ty body
  unfolding decode_call signature_bytes with_version skip_signature
  decode_call_signed decode_ty none body fits short = rw (wire.slice_raw (4 ∷ body) short) (
      rw (wire.compact32_codec (length (4 ∷ body)) (4 ∷ body) short)
        (rw (wire.byte_raw 4 body (omega arith)) refl))
  decode_call_signed decode_ty (some (a, s, e)) body (n, t) short =
      let parts = (w.address_encode a ++ (w.signature_encode s ++ extra_bytes l w e)) ++ body in
      rw (wire.slice_raw (132 ∷ parts) short) (
        rw (wire.compact32_codec (length (132 ∷ parts)) (132 ∷ parts) short) (
          rw (wire.byte_raw 132 parts (omega arith)) (rw (skip_signature_lem a s e body n t) refl)))

  -- Under the documented behaviour of the codecs, for an extrinsic that fits: reading the call out of
  -- the encoded extrinsic, signed or not, gives what decoding the call's own bytes gives.
  pub decode_call-encode :
      (decode_ty : List ℕ → Result Dynamic) (xt : ExtrinsicV4)
      → Sendable l w xt
      → decode_call l w decode_ty (encode l w xt) ≡ decode_ty (call_bytes xt.call)
  unfolding encode
  decode_call-encode decode_ty xt s =
      decode_call_signed decode_ty xt.signature (call_bytes xt.call) s.fits s.short

  contains_empty : (s : List ℕ) → contains [] s ≡ true
  unfolding contains
  contains_empty [] = refl
  contains_empty (a ∷ s) = refl

  extrinsic_call-to_hex :
      (decode_ty : List ℕ → Result Dynamic) (xt : ExtrinsicV4)
      → Sendable l w xt
      → extrinsic_call l w (some decode_ty) (to_hex l w xt)
        ≡ decoded l w (decode_ty (call_bytes xt.call))
  unfolding extrinsic_call to_hex
  extrinsic_call-to_hex decode_ty xt s =
      rw (wire.hex_codec (encode l w xt)) (rw (decode_call-encode decode_ty xt s) refl)

  -- A block of extrinsics that were submitted, in the texts in which they were submitted: an empty
  -- filter gives the decoded calls, one for each extrinsic whose call decodes, in order.
  pub extrinsics_filtered-to_hex :
      (decode_ty : List ℕ → Result Dynamic) (xts : List ExtrinsicV4)
      → AllSendable l w xts
      → extrinsics_filtered l w (some decode_ty) [] (map (to_hex l w) xts) ≡ calls l w decode_ty xts
  unfolding extrinsics_filtered calls
  extrinsics_filtered-to_hex decode_ty [] h = refl
  extrinsics_filtered-to_hex decode_ty (xt ∷ xts) h = rw (contains_empty (to_hex l w xt)) (
      rw (extrinsic_call-to_hex decode_ty xt h.0)
        (rw (extrinsics_filtered-to_hex decode_ty xts h.1) refl))
