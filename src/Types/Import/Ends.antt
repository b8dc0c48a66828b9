-- ===== src/Types/Import/Ends.antt =====
-- src/types.rs, `Types::import_v14_types`: how it ends.
use sub_script.Prelude.{
  ℕ, ◌<◌, ◌≡◌, refl, String, true, none, some, List, [], ◌∷◌, inl, inr, ◌⊎◌, lookup, Result, ok,
  err, Error,
}
use sub_script.Types.Portable.{PortableType, PortableRegistry, get_type_name}
use sub_script.Types.Portable.Named.{RanksBelow, get_type_name-Settled}
use sub_script.Types.Registry.{Types, store, resolve}
use sub_script.Types.Registry.Keeps.{Settled, IsReported}
use sub_script.Types.Import.Resolved.{Distinct, Imported, import_v14_types-Imports}
use sub_script.Types.Import.{Refs, lift, resolve_each, import_v14_types}
use sub_script.Types.Import.Sound.{
  IsSound, Free, Free-pure, Free-lift, Free-bind, Free-resolve, Free-import_each,
}

abbrev pub AllRanked : (ℕ → ℕ) → ℕ → List (ℕ × PortableType) → Type 0
AllRanked rank n [] = Unit
AllRanked rank n ((id, ty) ∷ tys) = RanksBelow rank n ty × AllRanked rank n tys

module _ (show : ℕ → String) (registry : PortableRegistry) (fuel : ℕ) (rank : ℕ → ℕ) (n : ℕ)
    (ranked : (id : ℕ) (ty : PortableType)
      → registry.resolve id ≡ some ty
      → RanksBelow rank (rank id) ty)
    (enough : n < fuel) where
  Free-resolve_each :
      (refs : Refs) (tys : List (ℕ × PortableType))
      → AllRanked rank n tys
      → Free (resolve_each show registry fuel refs tys)
  unfolding resolve_each
  Free-resolve_each refs [] h = Free-pure refs
  Free-resolve_each refs ((id, ty) ∷ tys) h =
      Free-bind (lift (get_type_name show registry true fuel ty)) _
        (Free-lift _ (get_type_name-Settled show registry true rank ranked fuel n ty h.0 enough))
        λ name.
          Free-bind (resolve name) _ (Free-resolve name)
            λ r. Free-resolve_each (store id (some r) refs) tys h.1

  pub Free-import_v14_types :
      AllRanked rank n registry.types → Free (import_v14_types show registry fuel)
  unfolding import_v14_types
  Free-import_v14_types h =
      Free-bind (resolve_each show registry fuel (λ id. none) registry.types) _
        (Free-resolve_each (λ id. none) registry.types h)
        (λ refs. Free-import_each show refs registry.types)

-- A version 14 registry with distinct ids is imported into a well-formed registry without locks; what the name of
-- a type is made of ranks below the type, and all ranks are below the fuel. The import ends, with
-- an error of its own or with success, never for want of fuel and never in a deadlock; on success the
-- name of each imported type stands for a cell that is described, whatever was there before. In
-- both cases no lock is left, and every name that was there stands for the cell it had.
pub import_v14_types_lem :
    (show : ℕ → String) (registry : PortableRegistry) (fuel : ℕ) (rank : ℕ → ℕ) (n : ℕ) (t : Types)
    → ((id : ℕ) (ty : PortableType) → registry.resolve id ≡ some ty → RanksBelow rank (rank id) ty)
    → AllRanked rank n registry.types
    → n < fuel
    → Distinct registry.types
    → IsSound t
    → (((e : Error) × ((import_v14_types show registry fuel t).1 ≡ err e) × IsReported e)
        ⊎ (((import_v14_types show registry fuel t).1 ≡ ok tt)
            × Imported show registry fuel registry.types (import_v14_types show registry fuel t).0))
      × IsSound (import_v14_types show registry fuel t).0
      × ((k : String) (r : ℕ)
          → lookup k t.types ≡ some r
          → lookup k (import_v14_types show registry fuel t).0.types ≡ some r)
import_v14_types_lem show registry fuel rank n t ranked all enough distinct u =
    let (free, settled) = Free-import_v14_types show registry fuel rank n ranked enough all t u in
    let (kept, done) = import_v14_types-Imports show registry fuel t distinct in
    (go (import_v14_types show registry fuel t) settled done, free, kept)
  where
    go :
        (p : Types × Result (Unit {0}))
        → Settled p.1
        → (p.1 ≡ ok tt → Imported show registry fuel registry.types p.0)
        → ((e : Error) × (p.1 ≡ err e) × IsReported e)
          ⊎ ((p.1 ≡ ok tt) × Imported show registry fuel registry.types p.0)
    go (t', ok x) s d = inr (refl, d refl)
    go (t', err e) s d = inl (e, refl, s)
