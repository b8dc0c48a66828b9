-- ===== src/Tests/Blocks.antt =====
-- Extrinsics, cached blocks and accounts at concrete inputs.
use sub_script.Prelude.{
  ℕ, ◌≡◌, refl, none, some, List, [], ◌∷◌, map, length-replicate, replicate, Result, ok, err,
  rpc_failed, arith, false,
}
use sub_script.Dynamic.{Dynamic, bytes, unit}
use sub_script.Calls.{EncodedCall}
use sub_script.Client.Extrinsic.{
  Wire, AdditionalSigned, ExtrinsicV4, call_bytes, encode, decode_call, to_hex, extrinsics_filtered,
  signature_bytes, extra_bytes,
}
use sub_script.Client.Extrinsic.RoundTrip.{
  WireLaws, Sendable, calls, decode_call-encode, extrinsics_filtered-to_hex,
}
use sub_script.Client.Blocks.{Block, NodeBlock, no_caches}
use sub_script.Client.Blocks.Refines.{
  Request, ask_block, ask_events, cached_step, abstract_step, unknown, replies, replies-cached_step,
}
use sub_script.Tests.Codec.{toy, toy-Laws, read_one}

abbrev toy_wire : Wire
toy_wire = record {
  address_encode = λ a. a ∷ [];
  address_decode = read_one;
  signature_encode = λ s. s ∷ [];
  signature_decode = read_one;
  era_encode = λ e. e ∷ [];
  era_decode = read_one;
  compact32_encode = λ n. n ∷ [];
  compact32_decode = read_one;
  blake2_256 = λ bs. replicate 32 0;
  hex_encode = λ bs. bs;
}

toy_wire-WireLaws : WireLaws toy toy_wire
toy_wire-WireLaws = record {
  address_codec = λ a rest. refl;
  signature_codec = λ s rest. refl;
  era_codec = λ e rest. refl;
  compact32_codec = λ n rest h. refl;
  byte_raw = λ n rest h. refl;
  slice_raw = λ bs h. refl;
  hex_codec = λ bs. refl;
  blake_length = λ bs. length-replicate {A = ℕ} 32 0;
}

abbrev transfer : EncodedCall
transfer = record {
  mod_idx = 5;
  func_idx = 0;
  encoded = record { data_bytes = 1 ∷ 2 ∷ []; compact = false };
}

abbrev by_user : ExtrinsicV4
by_user = record {
  signature = some (7, 9, record { era = 0; nonce = 3; tip = 0 });
  call = transfer;
}

abbrev plain : ExtrinsicV4
plain = record { signature = none; call = transfer }

by_user-Sendable : Sendable toy toy_wire by_user
unfolding signature_bytes call_bytes extra_bytes
by_user-Sendable = record { fits = (omega arith, omega arith); short = omega arith }

plain-Sendable : Sendable toy toy_wire plain
unfolding signature_bytes call_bytes
plain-Sendable = record { fits = tt; short = omega arith }

abbrev as_bytes : List ℕ → Result Dynamic
as_bytes bs = ok (bytes bs)

decode_call-encode_example :
    decode_call toy toy_wire as_bytes (encode toy toy_wire by_user) ≡ as_bytes (call_bytes transfer)
decode_call-encode_example =
    decode_call-encode toy toy_wire toy-Laws toy_wire-WireLaws as_bytes by_user by_user-Sendable

extrinsics_filtered-to_hex_example :
    extrinsics_filtered toy toy_wire
      (some as_bytes)
      []
      (map (to_hex toy toy_wire) (by_user ∷ plain ∷ []))
    ≡ calls toy toy_wire as_bytes (by_user ∷ plain ∷ [])
extrinsics_filtered-to_hex_example =
    extrinsics_filtered-to_hex toy toy_wire toy-Laws toy_wire-WireLaws as_bytes
      (by_user ∷ plain ∷ []) (by_user-Sendable, (plain-Sendable, tt))

abbrev more : AdditionalSigned
more = record { spec_version = 1; transaction_version = 2; genesis_hash = replicate 32 4 }

abbrev block_at : ℕ → Block
block_at h = record { extrinsics = (h ∷ []) ∷ []; header = h; call_ty = none }

abbrev node : NodeBlock
node none = ok none
node (some h) = ok (some (block_at h))

abbrev requests : List Request
requests =
    ask_block (some 1) (λ o. err rpc_failed)
    ∷ ask_block (some 1) node
    ∷ ask_block (some 1) (λ o. err rpc_failed)
    ∷ ask_events (some 1) (λ o. ok unit)
    ∷ []

replies-cached_step_example :
    replies (cached_step 6) no_caches requests
    ≡ replies (abstract_step 6 block_at (λ h. unit)) unknown requests
replies-cached_step_example =
    replies-cached_step 6 block_at (λ h. unit) requests
      ((λ h b e. cc), ((λ h b e. cc), ((λ h b e. cc), ((λ h v e. cc), tt))))
