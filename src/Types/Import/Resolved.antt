-- ===== src/Types/Import/Resolved.antt =====
-- src/types.rs, `Types::import_v14_types`: after it, each type of the registry is described.
use sub_script.Prelude.{
  ℕ, ◌≡◌, refl, sym, ap, ◌∙◌, ==_refl, String, str_eq, str_eq_iff, true, false, none, some, List,
  [], ◌∷◌, ◌==◌, Bool-cases, Option-cases, inl, inr, lookup, lookup-insert, Result, ok, err,
  Result-cases,
}
use mathlib.Core.Path.{subst}
use sub_script.Types.Portable.{PortableType, PortableRegistry, get_type_name}
use sub_script.Types.Registry.{
  Types, proceed, pure, throw, store, alloc, add_name, resolve, is_unresolved,
}
use sub_script.Types.Registry.Keeps.{lookup-resolve}
use sub_script.Types.Import.{Refs, lift, import_each, resolve_each, import_v14_types}
use sub_script.Types.Import.Fills.{AllDescribed, AllDescribed-import_each}

-- The names of types and the cells of ids.
abbrev Named : (ℕ → String) → PortableRegistry → ℕ → Refs → List (ℕ × PortableType) → Types → Type 0
Named show registry fuel refs [] t = Unit
Named show registry fuel refs ((id, ty) ∷ tys) t =
    ((name : String) × (r : ℕ) × (get_type_name show registry true fuel ty ≡ ok name)
      × (lookup name t.types ≡ some r)
      × (refs id ≡ some r))
    × Named show registry fuel refs tys t

abbrev IsFresh : ℕ → List (ℕ × PortableType) → Type 0
IsFresh id [] = Unit
IsFresh id ((j, ty) ∷ tys) = ((j == id) ≡ false) × IsFresh id tys

-- No two types have one id.
abbrev pub Distinct : List (ℕ × PortableType) → Type 0
Distinct [] = Unit
Distinct ((id, ty) ∷ tys) = IsFresh id tys × Distinct tys

lookup-resolve_other :
    (k name : String) (r : ℕ) (t : Types)
    → lookup k t.types ≡ some r
    → lookup k (resolve name t).0.types ≡ some r
unfolding resolve alloc add_name
lookup-resolve_other k name r t h = elim (Option-cases (lookup name t.types)) [
  | inr (q, e) ↦ rw (e, resolve) h
  | inl e ↦
      rw (e, resolve)
        (rw (lookup-insert name k t.next t.types) (elim (Bool-cases (str_eq name k)) [
          | inr other ↦ rw other h
          | inl same ↦
              let path : name ≡ k = (str_eq_iff name k).0 same in
              let bad : lookup name t.types ≡ some r = rw path h in cc
        ]))
]

module _ (show : ℕ → String) (registry : PortableRegistry) (fuel : ℕ) where
  -- the loop keeps names and the cells of other ids
  abbrev Resolves : Refs → List (ℕ × PortableType) → Types → Types × Result Refs → Type 0
  Resolves refs tys t p =
      ((k : String) (r : ℕ) → lookup k t.types ≡ some r → lookup k p.0.types ≡ some r)
      × ((refs' : Refs)
          → p.1 ≡ ok refs'
          → Named show registry fuel refs' tys p.0
            × ((id : ℕ) → IsFresh id tys → refs' id ≡ refs id))

  Resolves-resolve_each :
      (tys : List (ℕ × PortableType)) (refs : Refs) (t : Types)
      → Distinct tys
      → Resolves refs tys t (resolve_each show registry fuel refs tys t)
  unfolding resolve_each pure proceed lift throw
  Resolves-resolve_each [] refs t d = (
    (λ k r h. h),
    (λ refs' e. (tt, (λ id f. let same : refs ≡ refs' = cc in ap (λ x. x id) (sym same)))),
  )
  Resolves-resolve_each ((id, ty) ∷ tys) refs t d =
      elim (Result-cases (get_type_name show registry true fuel ty)) [
        | inr (e, bad) ↦ rw bad ((λ k r h. h), (λ refs' x. cc))
        | inl (name, made) ↦
            let step : resolve_each show registry fuel refs ((id, ty) ∷ tys) t
                ≡ proceed (resolve name t)
                    (λ r. resolve_each show registry fuel (store id (some r) refs) tys) =
              rw made refl in
            subst (Resolves refs ((id, ty) ∷ tys) t) (sym step) (
              go name made (resolve name t) (λ k r h. lookup-resolve_other k name r t h)
                (λ r e. lookup-resolve name t r e)
                (λ refs' t'. Resolves-resolve_each tys refs' t' d.1))
      ]
    where
      go :
          (name : String)
          → get_type_name show registry true fuel ty ≡ ok name
          → (p : Types × Result ℕ)
          → ((k : String) (r : ℕ) → lookup k t.types ≡ some r → lookup k p.0.types ≡ some r)
          → ((r : ℕ) → p.1 ≡ ok r → lookup name p.0.types ≡ some r)
          → ((refs' : Refs) (t' : Types)
              → Resolves refs' tys t' (resolve_each show registry fuel refs' tys t'))
          → Resolves refs
              ((id, ty) ∷ tys)
              t
              (proceed p (λ r. resolve_each show registry fuel (store id (some r) refs) tys))
      go name made (t', err x) kept found rest = (kept, (λ refs' e. cc))
      go name made (t', ok r) kept found rest =
          let (k', n) = rest (store id (some r) refs) t' in
          (
            (λ k q h. k' k q (kept k q h)),
            (λ refs' e.
                let (named, same) = n refs' e in
                let stored : store id (some r) refs id ≡ some r = rw (==_refl id) refl in
                (
                  ((name, r, made, k' name r (found r refl), same id d.0 ∙ stored), named),
                  (λ j f.
                      let skipped : store id (some r) refs j ≡ refs j = rw (f.0) refl in
                      same j f.1 ∙ skipped),
                )),
          )

  -- The name of each type stands for a cell that is described.
  abbrev pub Imported : List (ℕ × PortableType) → Types → Type 0
  Imported [] t = Unit
  Imported ((id, ty) ∷ tys) t =
      ((name : String) × (r : ℕ) × (get_type_name show registry true fuel ty ≡ ok name)
        × (lookup name t.types ≡ some r)
        × (is_unresolved (t.cells r) ≡ false))
      × Imported tys t

  Imported-AllDescribed :
      (refs : Refs) (tys : List (ℕ × PortableType)) (t t' : Types)
      → t'.types ≡ t.types
      → Named show registry fuel refs tys t
      → AllDescribed show refs tys t'
      → Imported tys t'
  Imported-AllDescribed refs [] t t' same n d = tt
  Imported-AllDescribed refs ((id, ty) ∷ tys) t t' same ((name, r, made, found, known), n)
        (here, d) =
      (
        (name, r, made, ap (lookup name) same ∙ found, here r known),
        Imported-AllDescribed refs tys t t' same n d,
      )

  pub import_v14_types-Imports :
      (t : Types)
      → Distinct registry.types
      → ((k : String) (r : ℕ)
          → lookup k t.types ≡ some r
          → lookup k (import_v14_types show registry fuel t).0.types ≡ some r)
        × ((import_v14_types show registry fuel t).1 ≡ ok tt
            → Imported registry.types (import_v14_types show registry fuel t).0)
  unfolding import_v14_types proceed
  import_v14_types-Imports t d =
      go (resolve_each show registry fuel (λ id. none) registry.types t)
        (Resolves-resolve_each registry.types (λ id. none) t d)
    where
      go :
          (p : Types × Result Refs)
          → Resolves (λ id. none) registry.types t p
          → ((k : String) (r : ℕ)
              → lookup k t.types ≡ some r
              → lookup k (proceed p (λ refs. import_each show refs registry.types)).0.types
                ≡ some r)
            × ((proceed p (λ refs. import_each show refs registry.types)).1 ≡ ok tt
                → Imported registry.types
                    (proceed p (λ refs. import_each show refs registry.types)).0)
      go (t', err e) (kept, n) = (kept, (λ x. cc))
      go (t', ok refs) (kept, n) =
          let (f, d') = AllDescribed-import_each show refs registry.types t' in
          (
            (λ k r h. ap (lookup k) f.same_names ∙ kept k r h),
            (λ x.
                Imported-AllDescribed refs registry.types t' _ f.same_names (n refs refl).0 (d' x)),
          )
