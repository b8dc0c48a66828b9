-- ===== src/Calls.antt =====
-- src/metadata.rs, `FuncMetadata::{encode_call, encode_params}`, `FuncArg::encode_value` and
-- `EncodedCall`: the bytes of a call of the chain from a script's parameters.
use sub_script.Prelude.{
  ℕ, suc, ◌≤◌, ◌<◌, ◌≡◌, refl, ap, String, List, [], ◌∷◌, length, ltb, ◌==◌, ◌≢◌, if◌then◌else◌,
  Result, ok, err, wrong_parameters, arith, append-nil, false, Bool-cases, inl, inr, ◌>>=◌,
}
use sub_script.Dynamic.{Dynamic}
use sub_script.Libs.{Libs, Laws}
use sub_script.Types.Meta.{EncodedArgs, new_args, Enc, fail, continue, ◌>>◌, Reader, TypeMeta}
use sub_script.Types.Encode.{done, encode_ref}
use sub_script.Types.Decode.{decode_ref}
use sub_script.Types.RoundTrip.{decode_ref-encode_ref}
use sub_script.Types.RoundTrip.Rules.{args, Codes, Codes-done, Codes-seq, Codes-map}
use sub_script.Types.RoundTrip.Fitting.{Fits}

-- the cell of the argument's type
pub record FuncArg : Type 0 where
  pub name : String
  pub ty : ℕ

pub record FuncMetadata : Type 0 where
  pub mod_idx : ℕ
  pub func_idx : ℕ
  pub args : List FuncArg

pub record EncodedCall : Type 0 where
  pub mod_idx : ℕ
  pub func_idx : ℕ
  pub encoded : EncodedArgs

module _ (l : Libs) (deref : ℕ → TypeMeta) (fuel : ℕ) where
  -- an argument without a parameter is an error once it is reached
  unfoldable pub encode_each : List FuncArg → List Dynamic → Enc
  unfolding done fail
  encode_each [] params = done
  encode_each (a ∷ fs) [] = fail wrong_parameters
  encode_each (a ∷ fs) (v ∷ params) = encode_ref l deref fuel a.ty v >> encode_each fs params

  unfoldable pub encode_params : FuncMetadata → List Dynamic → Enc
  unfolding fail encode_each
  encode_params f params =
      if ltb (length f.args) (length params)
      then fail wrong_parameters
      else encode_each f.args params

  abbrev pub as_call : FuncMetadata → EncodedArgs × Result (Unit {0}) → Result EncodedCall
  as_call f (d, ok _) = ok (record { mod_idx = f.mod_idx; func_idx = f.func_idx; encoded = d })
  as_call f (d, err e) = err e

  unfoldable pub encode_call : FuncMetadata → List Dynamic → Result EncodedCall
  unfolding encode_params
  encode_call f params = as_call f (encode_params f params new_args)

-- A decoder of the arguments, one after the other, as the chain reads a call.
module _ (l : Libs) (deref : ℕ → TypeMeta) (fuel : ℕ) where
  unfoldable pub decode_each : List FuncArg → Reader (List Dynamic)
  decode_each [] input = ok ([], input)
  decode_each (a ∷ fs) input = decode_ref l deref fuel a.ty false input >>= λ (v, rest).
      decode_each fs rest >>= λ (vs, rest'). ok (v ∷ vs, rest')

  abbrev pub FitsArgs : ℕ → List FuncArg → List Dynamic → Type 0
  FitsArgs n [] [] = Unit
  FitsArgs n (a ∷ fs) (v ∷ vs) = Fits l deref n a.ty false v × FitsArgs n fs vs
  FitsArgs n _ _ = ⊥

module _ (l : Libs) (laws : Laws l) (deref : ℕ → TypeMeta) (fuel n : ℕ) (enough : n ≤ fuel) where
  Codes-encode_each :
      (fs : List FuncArg) (vs : List Dynamic)
      → FitsArgs l deref fuel n fs vs
      → Codes (encode_each l deref fuel fs vs) (decode_each l deref fuel fs) false vs
  unfolding encode_each decode_each
  Codes-encode_each [] [] h = Codes-done false _ [] (λ rest. refl)
  Codes-encode_each [] (v ∷ vs) h = absurd h
  Codes-encode_each (a ∷ fs) [] h = absurd h
  Codes-encode_each (a ∷ fs) (v ∷ vs) h =
      Codes-seq false _ _ (decode_ref l deref fuel a.ty false) _ v (v ∷ vs)
        (decode_ref-encode_ref l laws deref n fuel a.ty false v enough h.0)
        (Codes-map false _ (decode_each l deref fuel fs) (λ xs. v ∷ xs) vs
          (Codes-encode_each fs vs h.1))

  length-FitsArgs :
      (fs : List FuncArg) (vs : List Dynamic)
      → FitsArgs l deref fuel n fs vs
      → length fs ≡ length vs
  length-FitsArgs [] [] h = refl
  length-FitsArgs [] (v ∷ vs) h = absurd h
  length-FitsArgs (a ∷ fs) [] h = absurd h
  length-FitsArgs (a ∷ fs) (v ∷ vs) h = ap suc (length-FitsArgs fs vs h.1)

  -- Parameters that fit the arguments of a function, one for each, make a call with the function's
  -- indices, from whose bytes the parameters are read back in order, with nothing left.
  pub decode_each-encode_call :
      (f : FuncMetadata) (vs : List Dynamic)
      → FitsArgs l deref fuel n f.args vs
      → (d : EncodedArgs) × (encode_call l deref fuel f vs
          ≡ ok (record { mod_idx = f.mod_idx; func_idx = f.func_idx; encoded = d }))
        × (decode_each l deref fuel f.args d.data_bytes ≡ ok (vs, []))
  unfolding encode_call encode_params
  decode_each-encode_call f vs h =
      let p = Codes-encode_each f.args vs h in
      let same = length-FitsArgs f.args vs h in
      let fits : ltb (length f.args) (length vs) ≡ false = ground (arith, same) in
      (
        args p.written false,
        rw fits (rw (p.writes [])),
        (let q : decode_each l deref fuel f.args p.written ≡ ok (vs, []) =
              rw append-nil at (p.reads []) in
            q),
      )

abbrev IsErr : EncodedArgs × Result (Unit {0}) → Type 0
IsErr (d, ok _) = ⊥
IsErr (d, err _) = Unit

seq-IsErr : (m n : Enc) → ((d : EncodedArgs) → IsErr (n d)) → (d : EncodedArgs) → IsErr ((m >> n) d)
unfolding ◌>>◌ continue
seq-IsErr m n h d = after (m d)
  where
    after : (p : EncodedArgs × Result (Unit {0})) → IsErr (continue p.1 n p.0)
    after (d', ok _) = h d'
    after (d', err e) = tt

module _ (l : Libs) (deref : ℕ → TypeMeta) (fuel : ℕ) where
  encode_each-IsErr :
      (fs : List FuncArg) (vs : List Dynamic)
      → length vs < length fs
      → (d : EncodedArgs) → IsErr (encode_each l deref fuel fs vs d)
  unfolding encode_each fail
  encode_each-IsErr [] vs h d = absurd (omega arith)
  encode_each-IsErr (a ∷ fs) [] h d = tt
  encode_each-IsErr (a ∷ fs) (v ∷ vs) h d =
      seq-IsErr (encode_ref l deref fuel a.ty v) (encode_each l deref fuel fs vs)
        (encode_each-IsErr fs vs (omega arith)) d

  encode_params-IsErr :
      (f : FuncMetadata) (vs : List Dynamic) (d : EncodedArgs)
      → length vs ≢ length f.args
      → IsErr (encode_params l deref fuel f vs d)
  unfolding encode_params fail
  encode_params-IsErr f vs d ne = elim (Bool-cases (ltb (length f.args) (length vs))) [
    | inl many ↦ rw (many, encode_params) tt
    | inr few ↦ rw (few, encode_params) (encode_each-IsErr f.args vs (ground (arith, ne)) d)
  ]

  as_call-IsErr :
      (f : FuncMetadata) (p : EncodedArgs × Result (Unit {0})) (c : EncodedCall)
      → IsErr p
      → as_call l deref fuel f p ≡ ok c
      → ⊥
  as_call-IsErr f (d, ok _) c h e = h
  as_call-IsErr f (d, err x) c h e = cc

  -- A call is made only from as many parameters as the function has arguments: fewer or more are an
  -- error.
  pub encode_call-length :
      (f : FuncMetadata) (vs : List Dynamic) (c : EncodedCall)
      → encode_call l deref fuel f vs ≡ ok c
      → length vs ≡ length f.args
  unfolding encode_call
  encode_call-length f vs c e = elim (Bool-cases (length vs == length f.args)) [
    | inl same ↦ ground arith
    | inr other ↦ absurd (
        as_call-IsErr f (encode_params l deref fuel f vs new_args) c
          (encode_params-IsErr f vs new_args (λ same. ground (arith, same))) e)
  ]
