-- ===== src/Client/Extrinsic.antt =====
-- src/client.rs, `Extra`, `SignedPayload`, `ExtrinsicV4`, `Block::extrinsics_filtered` and the making of an
-- extrinsic in `InnerClient::submit_call`. Accounts, signatures and eras are third-party values, held by
-- a number, and `Wire` is their codec; texts are lists of characters.
pub mod RoundTrip
pub mod Signed
use sub_script.Prelude.{
  ℕ, ◌+◌, ◌*◌, ◌/◌, ◌%◌, ◌<◌, ◌^◌, pos, ◌≡◌, Bool, true, false, Option, none, some, List, [], ◌∷◌,
  ◌++◌, length, drop, ltb, ◌==◌, if◌then◌else◌, Result, ok, err, ◌>>=◌, or_fail, decode_failed,
  malformed,
}
use sub_script.Dynamic.{Dynamic, text}
use sub_script.Libs.{Libs}
use sub_script.Types.Meta.{TypeMeta}
use sub_script.Types.Decode.{decode, read}
use sub_script.Calls.{EncodedCall}

-- the codecs of `MultiAddress`, `MultiSignature`, `Era` and `Compact<u32>`, and the hash of payloads
pub record Wire : Type 0 where
  pub address_encode : ℕ → List ℕ
  pub address_decode : List ℕ → Option (ℕ × List ℕ)
  pub signature_encode : ℕ → List ℕ
  pub signature_decode : List ℕ → Option (ℕ × List ℕ)
  pub era_encode : ℕ → List ℕ
  pub era_decode : List ℕ → Option (ℕ × List ℕ)
  pub compact32_encode : ℕ → List ℕ
  pub compact32_decode : List ℕ → Option (ℕ × List ℕ)
  pub blake2_256 : List ℕ → List ℕ
  pub hex_encode : List ℕ → List ℕ

pub record Extra : Type 0 where
  pub era : ℕ
  pub nonce : ℕ
  pub tip : ℕ

unfoldable pub new : ℕ → ℕ → Extra
new era nonce = record { era = era; nonce = nonce; tip = 0 }

-- the versions and the genesis hash; its unit components encode to nothing
pub record AdditionalSigned : Type 0 where
  pub spec_version : ℕ
  pub transaction_version : ℕ
  pub genesis_hash : List ℕ

pub record ExtrinsicV4 : Type 0 where
  pub signature : Option (ℕ × ℕ × Extra)
  pub call : EncodedCall

unfoldable pub signed : ℕ → ℕ → Extra → EncodedCall → ExtrinsicV4
signed account sig extra call = record { signature = some (account, sig, extra); call = call }

unfoldable pub unsigned : EncodedCall → ExtrinsicV4
unsigned call = record { signature = none; call = call }

abbrev pub extrinsic_version : ℕ
extrinsic_version = 4

unfoldable pub call_bytes : EncodedCall → List ℕ
call_bytes c = c.mod_idx ∷ c.func_idx ∷ c.encoded.data_bytes

abbrev pub starts : List ℕ → List ℕ → Bool
starts [] s = true
starts (a ∷ p) [] = false
starts (a ∷ p) (b ∷ s) = if a == b then starts p s else false

-- `contains`
unfoldable pub contains : List ℕ → List ℕ → Bool
contains p [] = starts p []
contains p (a ∷ s) = if starts p (a ∷ s) then true else contains p s

module _ (l : Libs) (w : Wire) where
  unfoldable pub extra_bytes : Extra → List ℕ
  extra_bytes e = w.era_encode e.era ++ (w.compact32_encode e.nonce ++ l.compact128_encode e.tip)

  unfoldable pub decode_extra : List ℕ → Result (Extra × List ℕ)
  decode_extra input = do
    (era, rest) ← read (w.era_decode input)
    (nonce, rest') ← read (w.compact32_decode rest)
    (tip, rest'') ← read (l.compact128_decode rest')
    ok (record { era = era; nonce = nonce; tip = tip }, rest'')

  unfoldable pub payload_bytes : EncodedCall → Extra → AdditionalSigned → List ℕ
  unfolding call_bytes extra_bytes
  payload_bytes call extra more =
      call_bytes call
      ++ (extra_bytes extra
          ++ (l.int_encode 4 false (pos more.spec_version)
              ++ (l.int_encode 4 false (pos more.transaction_version)
                  ++ (more.genesis_hash ++ more.genesis_hash))))

  -- what `using_encoded` gives to the signer
  unfoldable pub using_encoded : EncodedCall → Extra → AdditionalSigned → List ℕ
  unfolding payload_bytes
  using_encoded call extra more =
      let payload = payload_bytes call extra more in
      if ltb 256 (length payload) then w.blake2_256 payload else payload

  unfoldable pub signature_bytes : Option (ℕ × ℕ × Extra) → List ℕ
  unfolding extra_bytes
  signature_bytes none = extrinsic_version ∷ []
  signature_bytes (some (account, sig, extra)) =
      (extrinsic_version + 128) ∷ w.address_encode account
      ++ (w.signature_encode sig ++ extra_bytes extra)

  unfoldable pub encode : ExtrinsicV4 → List ℕ
  unfolding signature_bytes call_bytes
  encode xt = l.slice_encode (signature_bytes xt.signature ++ call_bytes xt.call)

  unfoldable pub to_hex : ExtrinsicV4 → List ℕ
  unfolding encode
  to_hex xt = b'0' ∷ b'x' ∷ w.hex_encode (encode xt)

  unfoldable pub skip_signature : Bool → List ℕ → Result (List ℕ)
  unfolding decode_extra
  skip_signature false input = ok input
  skip_signature true input = do
    (account, rest) ← read (w.address_decode input)
    (sig, rest') ← read (w.signature_decode rest)
    (extra, rest'') ← decode_extra rest'
    ok rest''

  -- the signed flag is the highest bit of the version
  unfoldable pub with_version : ℕ → List ℕ → Result (List ℕ)
  unfolding skip_signature
  with_version version input =
      if version % 128 == extrinsic_version
      then skip_signature (version / 128 % 2 == 1) input
      else err malformed

  unfoldable pub decode_call : (List ℕ → Result Dynamic) → List ℕ → Result Dynamic
  unfolding with_version
  decode_call decode_ty xt = do
    (len, rest) ← read (w.compact32_decode xt)
    (version, rest') ← read (l.read_byte rest)
    rest'' ← with_version version rest'
    decode_ty rest''

  abbrev pub decoded : Result Dynamic → Option Dynamic
  decoded (ok v) = some v
  decoded (err e) = none

  abbrev pub from_hex : (List ℕ → Result Dynamic) → Option (List ℕ) → Option Dynamic
  from_hex decode_ty none = none
  from_hex decode_ty (some xt) = decoded (decode_call decode_ty xt)

  -- one extrinsic of a block; without the type of calls its text
  unfoldable pub extrinsic_call : Option (List ℕ → Result Dynamic) → List ℕ → Option Dynamic
  unfolding decode_call
  extrinsic_call none xthex = some (text xthex)
  extrinsic_call (some decode_ty) xthex =
      if starts (b'0' ∷ b'x' ∷ []) xthex
      then from_hex decode_ty (l.hex_decode (drop 2 xthex))
      else none

  abbrev pub with_call : Option Dynamic → List Dynamic → List Dynamic
  with_call none vs = vs
  with_call (some v) vs = v ∷ vs

  unfoldable pub extrinsics_filtered :
      Option (List ℕ → Result Dynamic) → List ℕ → List (List ℕ) → List Dynamic
  unfolding contains extrinsic_call
  extrinsics_filtered call_ty partial [] = []
  extrinsics_filtered call_ty partial (x ∷ xs) =
      let rest = extrinsics_filtered call_ty partial xs in
      if contains partial x then with_call (extrinsic_call call_ty x) rest else rest

  -- the extrinsic of a user: `sign` is its key pair
  unfoldable pub signed_call :
      (List ℕ → ℕ) → ℕ → ℕ → AdditionalSigned → ℕ → EncodedCall → ExtrinsicV4
  unfolding new using_encoded signed
  signed_call sign account nonce more immortal call =
      let extra = new immortal nonce in
      signed account (sign (using_encoded call extra more)) extra call
