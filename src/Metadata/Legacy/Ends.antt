-- ===== src/Metadata/Legacy/Ends.antt =====
-- src/metadata.rs, the parts of a module in the versions 12 and 13: reading them comes to an end.
use sub_script.Prelude.{
  Each, ℕ, ◌<◌, refl, String, Option, none, some, List, [], ◌∷◌, Result, ok, err,
}
use sub_script.Types.Variants.{EnumVariants, insert_at}
use sub_script.Types.Meta
use sub_script.Types.Scan.Weight.{weight}
use sub_script.Types.Registry.{M, proceed, ◌>>=◌, pure, throw, insert_meta}
use sub_script.Types.Registry.Keeps.{Keeps-refl, Settled}
use sub_script.Types.Registry.Quiet.{Quiet, Quiet-Calm, Quiet-pure, Quiet-bind, Quiet-insert_meta}
use sub_script.Types.Import.{lift}
use sub_script.Types.Import.Sound.{Settled-insert_at}
use sub_script.Types.Parser.{parse_type}
use sub_script.Types.Parser.Ends.{Calm-parse_type}
use sub_script.Calls.{FuncMetadata, FuncArg}
use sub_script.Metadata.Pallets.{EventMetadata, ConstMetadata, ErrorMetadata, tuple_ref}
use sub_script.Metadata.Legacy.{
  Different, encode, decoded, decode_meta, ArgumentEntry, FunctionEntry, EventEntry, ConstantEntry,
  ErrorEntry, named_type, arg_from, each_arg, arg_types, func_from, each_type, event_from,
  const_from, error_from,
}

-- where there is a value, it is such
abbrev pub If : {A : Type 0} → (A → Type 0) → Different A → Type 0
If P encode = Unit
If P (decoded a) = P a

abbrev pub IfGiven : {A : Type 0} → (A → Type 0) → Option (Different A) → Type 0
IfGiven P none = Unit
IfGiven P (some d) = If P d

-- The texts that are parsed weigh less.
abbrev pub IsShort : ℕ → String → Type 0
IsShort w s = weight s < w

abbrev pub IsShortArgument : ℕ → ArgumentEntry → Type 0
IsShortArgument w md = If (IsShort w) md.ty

abbrev pub IsShortFunction : ℕ → FunctionEntry → Type 0
IsShortFunction w md = If (Each (IsShortArgument w)) md.arguments

abbrev pub IsShortEvent : ℕ → EventEntry → Type 0
IsShortEvent w md = If (Each (IsShort w)) md.arguments

abbrev pub IsShortConstant : ℕ → ConstantEntry → Type 0
IsShortConstant w md = If (IsShort w) md.ty

pub Quiet-lift : {A : Type 0} (r : Result A) → Settled r → Quiet (lift r)
unfolding lift pure throw
Quiet-lift (ok a) s t v u = (Keeps-refl t v, tt)
Quiet-lift (err e) s t v u = (Keeps-refl t v, s)

pub Quiet-decoded :
    {A B : Type 0} (d : Different A) (P : A → Type 0) (f : A → M B)
    → If P d
    → ((a : A) → P a → Quiet (f a))
    → Quiet (lift (decode_meta d) >>= f)
unfolding lift pure throw proceed decode_meta
Quiet-decoded encode P f h q t v u = (Keeps-refl t v, tt)
Quiet-decoded (decoded a) P f h q t v u = q a h t v u

-- nothing is asked of the value
pub Quiet-any :
    {A B : Type 0} (d : Different A) (f : A → M B)
    → ((a : A) → Quiet (f a))
    → Quiet (lift (decode_meta d) >>= f)
unfolding lift pure throw proceed decode_meta
Quiet-any encode f q t v u = (Keeps-refl t v, tt)
Quiet-any (decoded a) f q t v u = q a t v u

pub Quiet-tuple_ref : (name : String) (rs : List ℕ) → Quiet (tuple_ref name rs)
unfolding tuple_ref
Quiet-tuple_ref name [] = Quiet-pure {A = Option ℕ} none
Quiet-tuple_ref name (r ∷ rs) =
    Quiet-bind (insert_meta name (Meta.tuple (r ∷ rs))) _ (Quiet-insert_meta name _ refl)
      (λ q. Quiet-pure (some q))

pub Quiet-insert_at :
    {B : Type 0} (vs : EnumVariants) (i : ℕ) (name : String) (o : Option ℕ) (f : EnumVariants → M B)
    → ((vs' : EnumVariants) → Quiet (f vs'))
    → Quiet (lift (insert_at vs i name o) >>= f)
Quiet-insert_at vs i name o f q =
    Quiet-bind (lift (insert_at vs i name o)) f (Quiet-lift _ (Settled-insert_at vs i name o)) q

pub Quiet-error_from :
    (mod_name : String) (i : ℕ) (md : ErrorEntry) → Quiet (error_from mod_name i md)
unfolding error_from
Quiet-error_from mod_name i md = Quiet-any md.name _ λ name. Quiet-any md.documentation _ λ docs.
    Quiet-pure {A = ErrorMetadata} (record { mod_name = mod_name; name = name; error_idx = i })

module _ (fuel : ℕ) where
  pub Quiet-named_type : (name : String) → IsShort fuel name → Quiet (named_type fuel name)
  unfolding named_type
  Quiet-named_type name h =
      Quiet-Calm fuel (parse_type fuel name) (Calm-parse_type fuel name fuel h h)

  Quiet-each_arg :
      (mds : List ArgumentEntry) → Each (IsShortArgument fuel) mds → Quiet (each_arg fuel mds)
  unfolding each_arg arg_from
  Quiet-each_arg [] h = Quiet-pure {A = List FuncArg} []
  Quiet-each_arg (md ∷ mds) h =
      Quiet-bind (arg_from fuel md) _
        (Quiet-any md.name _ λ name. Quiet-decoded md.ty _ _ h.0 λ ty short.
          Quiet-bind (named_type fuel ty) _ (Quiet-named_type ty short)
            (λ r. Quiet-pure {A = FuncArg} (record { name = name; ty = r })))
        λ a.
          Quiet-bind (each_arg fuel mds) _ (Quiet-each_arg mds h.1) (λ args. Quiet-pure (a ∷ args))

  pub Quiet-func_from :
      (mod_name : String) (mod_idx i : ℕ) (md : FunctionEntry)
      → IsShortFunction fuel md
      → Quiet (func_from fuel mod_name mod_idx i md)
  unfolding func_from
  Quiet-func_from mod_name mod_idx i md h = Quiet-any md.name _ λ name.
      Quiet-any md.documentation _ λ docs. Quiet-decoded md.arguments _ _ h λ mds short.
        Quiet-bind (each_arg fuel mds) _ (Quiet-each_arg mds short) λ args.
          Quiet-bind (tuple_ref _ (arg_types args)) _ (Quiet-tuple_ref _ (arg_types args)) (λ ref.
            Quiet-pure {A = String × FuncMetadata × Option ℕ}
              (name, record { mod_idx = mod_idx; func_idx = i; args = args }, ref))

  Quiet-each_type : (names : List String) → Each (IsShort fuel) names → Quiet (each_type fuel names)
  unfolding each_type
  Quiet-each_type [] h = Quiet-pure {A = List ℕ} []
  Quiet-each_type (name ∷ names) h =
      Quiet-bind (named_type fuel name) _ (Quiet-named_type name h.0) λ r.
        Quiet-bind (each_type fuel names) _ (Quiet-each_type names h.1) (λ rs. Quiet-pure (r ∷ rs))

  pub Quiet-event_from :
      (mod_name : String) (i : ℕ) (md : EventEntry)
      → IsShortEvent fuel md
      → Quiet (event_from fuel mod_name i md)
  unfolding event_from
  Quiet-event_from mod_name i md h = Quiet-any md.name _ λ name.
      Quiet-any md.documentation _ λ docs. Quiet-decoded md.arguments _ _ h λ names short.
        Quiet-bind (each_type fuel names) _ (Quiet-each_type names short) λ rs.
          Quiet-bind (tuple_ref _ rs) _ (Quiet-tuple_ref _ rs) (λ ref.
            Quiet-pure {A = String × EventMetadata × Option ℕ}
              (name, record { mod_name = mod_name; name = name; event_idx = i; args = rs }, ref))

  pub Quiet-const_from :
      (name : String) (md : ConstantEntry)
      → IsShortConstant fuel md
      → Quiet (const_from fuel name md)
  unfolding const_from
  Quiet-const_from name md h = Quiet-decoded md.ty _ _ h λ ty short.
      Quiet-bind (named_type fuel ty) _ (Quiet-named_type ty short) λ r. Quiet-any md.name _ λ n.
        Quiet-any md.documentation _ λ docs.
          Quiet-pure {A = ConstMetadata} (record { mod_name = name; name = n; const_ty = r })
