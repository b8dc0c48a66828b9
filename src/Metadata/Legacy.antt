-- ===== src/Metadata/Legacy.antt =====
-- src/metadata.rs, `decode_meta` and the parts of a module in the versions 12 and 13, whose code is the
-- same text but for the types of storage. A description is `frame_metadata`'s: of it what the
-- source reads. Documentation is checked, and left out.
pub mod Ends
pub mod Modules
pub mod Reads
use Prim.Native.String.{◌++◌ as append}
use sub_script.Prelude.{
  ℕ, suc, ◌%◌, ◌^◌, String, Option, none, List, [], ◌∷◌, Result, ok, err, not_decoded,
}
use sub_script.Types.Registry.{M, proceed, ◌>>=◌, pure}
use sub_script.Types.Import.{lift}
use sub_script.Types.Parser.{parse_type}
use sub_script.Calls.{FuncMetadata, FuncArg}
use sub_script.Metadata.Pallets.{EventMetadata, ConstMetadata, ErrorMetadata, tuple_ref}

-- `DecodeDifferent`
pub data Different {ℓ} (A : Type ℓ) : Type ℓ where
  encode : Different A
  decoded : A → Different A

unfoldable pub decode_meta {ℓ} : {A : Type ℓ} → Different A → Result A
decode_meta encode = err not_decoded
decode_meta (decoded a) = ok a

abbrev pub Documentation : Type 0
Documentation = Different (List String)

pub record ArgumentEntry : Type 0 where
  pub name : Different String
  pub ty : Different String

pub record FunctionEntry : Type 0 where
  pub name : Different String
  pub arguments : Different (List ArgumentEntry)
  pub documentation : Documentation

pub record EventEntry : Type 0 where
  pub name : Different String
  pub arguments : Different (List String)
  pub documentation : Documentation

pub record ConstantEntry : Type 0 where
  pub name : Different String
  pub ty : Different String
  pub documentation : Documentation

pub record ErrorEntry : Type 0 where
  pub name : Different String
  pub documentation : Documentation

-- `NamedType::new`
unfoldable pub named_type : ℕ → String → M ℕ
unfolding parse_type
named_type fuel name = parse_type fuel name

-- `FuncArg::from_v12_meta`, `FuncArg::from_v13_meta`
unfoldable pub arg_from : ℕ → ArgumentEntry → M FuncArg
unfolding pure lift decode_meta named_type
arg_from fuel md = do
  name ← lift (decode_meta md.name)
  ty ← lift (decode_meta md.ty)
  r ← named_type fuel ty
  pure (record { name = name; ty = r })

unfoldable pub each_arg : ℕ → List ArgumentEntry → M (List FuncArg)
unfolding pure arg_from
each_arg fuel [] = pure []
each_arg fuel (md ∷ mds) = do a ← arg_from fuel md; args ← each_arg fuel mds; pure (a ∷ args)

abbrev pub arg_types : List FuncArg → List ℕ
arg_types [] = []
arg_types (a ∷ args) = a.ty ∷ arg_types args

-- The function comes with its name and the cell of its arguments' types.
unfoldable pub func_from : ℕ → String → ℕ → ℕ → FunctionEntry → M (String × FuncMetadata × Option ℕ)
unfolding pure lift decode_meta each_arg tuple_ref
func_from fuel mod_name mod_idx func_idx md = do
  name ← lift (decode_meta md.name)
  docs ← lift (decode_meta md.documentation)
  mds ← lift (decode_meta md.arguments)
  args ← each_arg fuel mds
  ref ← tuple_ref (append mod_name (append "::RawFunc::" name)) (arg_types args)
  pure (name, record { mod_idx = mod_idx; func_idx = func_idx; args = args }, ref)

unfoldable pub each_type : ℕ → List String → M (List ℕ)
unfolding pure named_type
each_type fuel [] = pure []
each_type fuel (name ∷ names) = do
  r ← named_type fuel name
  rs ← each_type fuel names
  pure (r ∷ rs)

unfoldable pub event_from : ℕ → String → ℕ → EventEntry → M (String × EventMetadata × Option ℕ)
unfolding pure lift decode_meta each_type tuple_ref
event_from fuel mod_name event_idx md = do
  name ← lift (decode_meta md.name)
  docs ← lift (decode_meta md.documentation)
  names ← lift (decode_meta md.arguments)
  rs ← each_type fuel names
  ref ← tuple_ref (append mod_name (append "::RawEvent::" name)) rs
  pure (name, record { mod_name = mod_name; name = name; event_idx = event_idx; args = rs }, ref)

unfoldable pub const_from : ℕ → String → ConstantEntry → M ConstMetadata
unfolding pure lift decode_meta named_type
const_from fuel mod_name md = do
  ty ← lift (decode_meta md.ty)
  r ← named_type fuel ty
  name ← lift (decode_meta md.name)
  docs ← lift (decode_meta md.documentation)
  pure (record { mod_name = mod_name; name = name; const_ty = r })

unfoldable pub error_from : String → ℕ → ErrorEntry → M ErrorMetadata
unfolding pure lift decode_meta
error_from mod_name error_idx md = do
  name ← lift (decode_meta md.name)
  docs ← lift (decode_meta md.documentation)
  pure (record { mod_name = mod_name; name = name; error_idx = error_idx })
