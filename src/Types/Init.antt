-- ===== src/Types/Init.antt =====
-- src/types.rs, `init_engine`: the registry that every engine starts with. The schemas come from files, and what
-- `sp_runtime` and `rhai` do with an era, an account or a signature is given. The codecs of the feature
-- libp2p are left out.
pub mod Steady
pub mod Ready
use sub_script.Prelude.{ℕ, String, true, false, List, [], ◌∷◌, Result, ok, err}
use sub_script.Dynamic.{Dynamic}
use sub_script.Types.Meta
use sub_script.Types.Meta.{TypeMeta, integer, Enc, Reader, emit, fail, ◌>>◌}
use sub_script.Types.Registry.{M, ◌>>=◌, proceed, pure, insert_meta}
use sub_script.Types.Schema.{Json, load_schema, custom_encode, custom_decode}

abbrev pub primitives : List (String × TypeMeta)
primitives =
    ("u8", integer 1 false)
    ∷ ("u16", integer 2 false)
    ∷ ("u32", integer 4 false)
    ∷ ("u64", integer 8 false)
    ∷ ("u128", integer 16 false)
    ∷ ("i8", integer 1 true)
    ∷ ("i16", integer 2 true)
    ∷ ("i32", integer 4 true)
    ∷ ("i64", integer 8 true)
    ∷ ("i128", integer 16 true)
    ∷ ("bool", Meta.bool_type)
    ∷ ("Text", Meta.string_type)
    ∷ ("Option<bool>", Meta.option_bool)
    ∷ []

unfoldable pub insert_all : List (String × TypeMeta) → M (Unit {0})
unfolding pure
insert_all [] = pure tt
insert_all ((name, m) ∷ more) = do r ← insert_meta name m; insert_all more

-- the `TypeId`s of the values, and their bytes
pub record Codecs : Type 0 where
  pub era : ℕ
  pub shared_user : ℕ
  pub account : ℕ
  pub text : ℕ
  pub signature : ℕ
  pub era_bytes : Dynamic → List ℕ
  pub public : Dynamic → List ℕ
  pub account_bytes : Dynamic → List ℕ
  pub account_of_text : Dynamic → Result (List ℕ)
  pub signature_bytes : Dynamic → List ℕ
  pub decode_era : Reader Dynamic
  pub decode_account : Reader Dynamic

pub data Codec : Type 0 where
  encodes : (name : String) (type_id : ℕ) (f : Dynamic → Enc) → Codec
  decodes : (name : String) (f : Reader Dynamic) → Codec

abbrev pub emit_or_fail : Result (List ℕ) → Enc
emit_or_fail (ok bytes) = emit bytes
emit_or_fail (err e) = fail e

unfoldable pub custom_codecs : Codecs → List Codec
unfolding emit fail ◌>>◌
custom_codecs c =
    encodes "Era" c.era (λ v. emit (c.era_bytes v))
    ∷ decodes "Era" c.decode_era
    ∷ encodes "AccountId" c.shared_user (λ v. emit (c.public v))
    ∷ encodes "AccountId" c.account (λ v. emit (c.account_bytes v))
    ∷ encodes "AccountId" c.text (λ v. emit_or_fail (c.account_of_text v))
    ∷ decodes "AccountId" c.decode_account
    -- the index of the variant, and the account
    ∷ encodes "MultiAddress" c.shared_user (λ v. emit (0 ∷ []) >> emit (c.public v))
    ∷ encodes "MultiSignature" c.signature (λ v. emit (c.signature_bytes v))
    ∷ []

module _ (fuel : ℕ) where
  unfoldable pub set_codec : Codec → M (Unit {0})
  unfolding custom_encode custom_decode
  set_codec (encodes name type_id f) = custom_encode fuel name type_id f
  set_codec (decodes name f) = custom_decode fuel name f

  unfoldable pub set_codecs : List Codec → M (Unit {0})
  unfolding pure set_codec
  set_codecs [] = pure tt
  set_codecs (c ∷ cs) = do u ← set_codec c; set_codecs cs

  unfoldable pub init_types : Json → Json → Codecs → M (Unit {0})
  unfolding insert_all load_schema set_codecs custom_codecs
  init_types substrate_types custom_types codecs = do
    u ← insert_all primitives
    v ← load_schema fuel substrate_types
    w ← load_schema fuel custom_types
    set_codecs (custom_codecs codecs)
