-- ===== src/Types/Init/Steady.antt =====
-- src/types.rs, `init_engine`: what the steps of the start do to a registry that has the primitive types.
use sub_script.Prelude.{
  ℕ, ◌<◌, ◌≡◌, refl, ap, ◌∙◌, ==_iff, String, false, some, List, [], ◌∷◌, ◌==◌, Each, Bool-cases,
  inl, inr, lookup, Result, ok, err, arith,
}
use sub_script.Types.Meta.{TypeMeta, unresolved_type, custom, Enc, Reader}
use sub_script.Dynamic.{Dynamic}
use sub_script.Types.Scan.Weight.{weight}
use sub_script.Types.Custom
use sub_script.Types.Custom.{make_custom_type, with_encoder, with_decoder}
use sub_script.Types.Registry.{Types, M, proceed, ◌>>=◌, pure, set_cell, is_unresolved}
use sub_script.Types.Registry.Keeps.{Keeps, Settled}
use sub_script.Types.Registry.Quiet.{IsUnlocked-Keeps, Quiet, Quiet-Calm, Quiet-pure}
use sub_script.Types.Import.Sound.{Wf-set_cell, IsSound}
use sub_script.Types.Parser.{parse_type}
use sub_script.Types.Parser.Ends.{Calm-parse_type}
use sub_script.Types.Schema.{Json, load_schema, custom_encode, custom_decode}
use sub_script.Types.Schema.Safe.{TextsBelow, Calm-load_schema}
use sub_script.Types.Init.{primitives, Codec, encodes, decodes, set_codec, set_codecs}

-- a description without the codecs that are put on it
abbrev pub base : TypeMeta → TypeMeta
base (custom fns m) = m
base m = m

-- The name stands for a cell with the description, whatever codecs are put on it.
abbrev pub Has : Types → String × TypeMeta → Type 0
Has t (name, m) = (r : ℕ) × (lookup name t.types ≡ some r) × (r < t.next) × (base (t.cells r) ≡ m)

-- From a sound registry, the operation settles, leaves a sound one, and what it has.
abbrev pub Steady : {A : Type 0} → M A → Type 0
Steady m =
    (t : Types)
    → IsSound t
    → Each (Has t) primitives
    → IsSound (m t).0 × Each (Has (m t).0) primitives × Settled (m t).1

Has-Keeps :
    (t t' : Types) (name : String) (m : TypeMeta)
    → is_unresolved m ≡ false
    → Keeps t t'
    → Has t (name, m)
    → Has t' (name, m)
Has-Keeps t t' name m d k (r, at, there, is) =
    let here : is_unresolved (t.cells r) ≡ false = described (t.cells r) is in
    (r, k.names name r at, omega (arith, there, k.grows), ap base (k.described r there here) ∙ is)
  where
    described : (x : TypeMeta) → base x ≡ m → is_unresolved x ≡ false
    described (unresolved_type s) e = ap is_unresolved e ∙ d
    described _ e = refl

unfoldable pub AllDescribed : List (String × TypeMeta) → Type 0
AllDescribed = Each (λ p. is_unresolved p.1 ≡ false)

Each-Has :
    (t t' : Types) (ps : List (String × TypeMeta))
    → AllDescribed ps
    → ((name : String) (m : TypeMeta)
        → is_unresolved m ≡ false
        → Has t (name, m)
        → Has t' (name, m))
    → Each (Has t) ps
    → Each (Has t') ps
unfolding AllDescribed
Each-Has t t' [] d f h = tt
Each-Has t t' ((name, m) ∷ ps) d f h = (f name m d.0 h.0, Each-Has t t' ps d.1 f h.1)

pub primitives-Described : AllDescribed primitives
unfolding AllDescribed
primitives-Described = (
  refl,
  (
    refl,
    (refl, (refl, (refl, (refl, (refl, (refl, (refl, (refl, (refl, (refl, (refl, tt))))))))))),
  ),
)

pub Steady-Quiet : {A : Type 0} (m : M A) → Quiet m → Steady m
Steady-Quiet m q t (v, u) h =
    let (k, s) = q t v u in
    (
      (k.wf, IsUnlocked-Keeps t (m t).0 k u),
      Each-Has t (m t).0 primitives primitives-Described
          (λ name x d g. Has-Keeps t (m t).0 name x d k g) h,
      s,
    )

pub Steady-bind :
    {A B : Type 0} (m : M A) (f : A → M B) → Steady m → ((a : A) → Steady (f a)) → Steady (m >>= f)
unfolding proceed
Steady-bind {A} {B} m f cm cf t sound h = go (m t) (cm t sound h)
  where
    go :
        (p : Types × Result A)
        → IsSound p.0 × Each (Has p.0) primitives × Settled p.1
        → IsSound (proceed p f).0 × Each (Has (proceed p f).0) primitives × Settled (proceed p f).1
    go (t', ok a) (s', h', s) = cf a t' s' h'
    go (t', err e) (s', h', s) = (s', h', s)

-- a cell rewritten with codecs put on it
Steady-set_cell :
    (r : ℕ) (x : TypeMeta) (t : Types)
    → is_unresolved x ≡ false
    → base x ≡ base (t.cells r)
    → IsSound t
    → Each (Has t) primitives
    → IsSound (set_cell r x t) × Each (Has (set_cell r x t)) primitives
unfolding set_cell
Steady-set_cell r x t d same (v, u) h = (
  (Wf-set_cell r x t v d, u),
  Each-Has t (set_cell r x t) primitives primitives-Described
      (λ name m d' (j, at, there, is). (j, at, there, kept j m is)) h,
)
  where
    kept : (j : ℕ) (m : TypeMeta) → base (t.cells j) ≡ m → base ((set_cell r x t).cells j) ≡ m
    kept j m is = elim (Bool-cases (r == j)) [
      | inl here ↦
          let at : r ≡ j = (==_iff r j).0 here in
          rw here (same ∙ (ap (λ i. base (t.cells i)) at ∙ is))
      | inr there ↦ rw there is
    ]

custom_encode-Described :
    (i : ℕ) (f : Dynamic → Enc) (m : TypeMeta)
    → (is_unresolved (Custom.custom_encode i f m) ≡ false)
      × (base (Custom.custom_encode i f m) ≡ base m)
unfolding Custom.custom_encode make_custom_type
custom_encode-Described i f (custom fns m) = (refl, refl)
custom_encode-Described i f m = (refl, refl)

custom_decode-Described :
    (f : Reader Dynamic) (m : TypeMeta)
    → (is_unresolved (Custom.custom_decode f m) ≡ false)
      × (base (Custom.custom_decode f m) ≡ base m)
unfolding Custom.custom_decode make_custom_type
custom_decode-Described f (custom fns m) = (refl, refl)
custom_decode-Described f m = (refl, refl)

-- The texts of the codecs weigh less.
abbrev pub IsShortCodec : ℕ → Codec → Type 0
IsShortCodec w (encodes name i f) = weight name < w
IsShortCodec w (decodes name f) = weight name < w

module _ (fuel : ℕ) where
  -- a cell that is parsed, and then rewritten
  Steady-rewritten :
      (name : String) (x : TypeMeta → TypeMeta)
      → weight name < fuel
      → ((m : TypeMeta) → (is_unresolved (x m) ≡ false) × (base (x m) ≡ base m))
      → Steady
          (λ t. proceed (parse_type fuel name t) (λ r t'. pure tt (set_cell r (x (t'.cells r)) t')))
  unfolding proceed pure
  Steady-rewritten name x small keeps t sound h = go (parse_type fuel name t) (
      Steady-Quiet (parse_type fuel name)
        (Quiet-Calm fuel (parse_type fuel name) (Calm-parse_type fuel name fuel small small)) t
        sound h)
    where
      after : ℕ → M (Unit {0})
      after r t' = pure tt (set_cell r (x (t'.cells r)) t')

      go :
          (p : Types × Result ℕ)
          → IsSound p.0 × Each (Has p.0) primitives × Settled p.1
          → IsSound (proceed p after).0
            × Each (Has (proceed p after).0) primitives
            × Settled (proceed p after).1
      go (t', ok r) (s', h', s) =
          let (d, same) = keeps (t'.cells r) in
          let (s'', h'') = Steady-set_cell r (x (t'.cells r)) t' d same s' h' in (s'', h'', tt)
      go (t', err e) (s', h', s) = (s', h', s)

  Steady-set_codec : (c : Codec) → IsShortCodec fuel c → Steady (set_codec fuel c)
  unfolding set_codec custom_encode custom_decode
  Steady-set_codec (encodes name i f) small =
      Steady-rewritten name (Custom.custom_encode i f) small (custom_encode-Described i f)
  Steady-set_codec (decodes name f) small =
      Steady-rewritten name (Custom.custom_decode f) small (custom_decode-Described f)

  pub Steady-set_codecs :
      (cs : List Codec) → Each (IsShortCodec fuel) cs → Steady (set_codecs fuel cs)
  unfolding set_codecs
  Steady-set_codecs [] h = Steady-Quiet (pure tt) (Quiet-pure tt)
  Steady-set_codecs (c ∷ cs) h =
      Steady-bind (set_codec fuel c) _ (Steady-set_codec c h.0) (λ u. Steady-set_codecs cs h.1)

  pub Steady-load_schema : (v : Json) → TextsBelow fuel v → Steady (load_schema fuel v)
  Steady-load_schema v h = Steady-Quiet _ (Quiet-Calm fuel _ (Calm-load_schema fuel v h))
