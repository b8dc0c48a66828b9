-- ===== src/Types/Portable/Named.antt =====
-- src/types.rs, `get_type_name`: it comes to an end when the types of the registry do not contain themselves.
use sub_script.Prelude.{
  ℕ, zero, suc, ◌<◌, ◌≡◌, String, Bool, true, false, Option, none, some, List, [], ◌∷◌,
  if◌then◌else◌, Option-cases, inl, inr, Result, ok, err, Error, ◌>>=◌, or_fail, panicked, arith,
}
use sub_script.Types.Registry.Keeps.{Settled, IsReported}
use sub_script.Types.Portable.{
  TypeDef, composite, variant, sequence, array, tuple, primitive, compact, bit_sequence,
  PortableType, PortableRegistry, name_of_id, names_of_ids, names_of_params, base_name, with_params,
  get_type_name,
}

abbrev pub AllLess : (ℕ → ℕ) → ℕ → List ℕ → Type 0
AllLess rank n [] = Unit
AllLess rank n (id ∷ ids) = (rank id < n) × AllLess rank n ids

abbrev pub parts : TypeDef → List ℕ
parts (sequence id) = id ∷ []
parts (array len id) = id ∷ []
parts (tuple ids) = ids
parts (compact id) = id ∷ []
parts _ = []

abbrev pub ParamsLess : (ℕ → ℕ) → ℕ → List (String × Option ℕ) → Type 0
ParamsLess rank n [] = Unit
ParamsLess rank n ((p, none) ∷ ps) = ParamsLess rank n ps
ParamsLess rank n ((p, some id) ∷ ps) = (rank id < n) × ParamsLess rank n ps

-- What the name of a type is made of ranks below it.
abbrev pub RanksBelow : (ℕ → ℕ) → ℕ → PortableType → Type 0
RanksBelow rank n ty = AllLess rank n (parts ty.type_def) × ParamsLess rank n ty.type_params

pub Settled-bind :
    {A B : Type 0} (r : Result A) (f : A → Result B)
    → Settled r
    → ((a : A) → Settled (f a))
    → Settled (r >>= f)
Settled-bind (ok a) f s h = h a
Settled-bind (err e) f s h = s

pub Settled-or_fail : {A : Type 0} (o : Option A) (e : Error) → IsReported e → Settled (or_fail o e)
Settled-or_fail none e s = s
Settled-or_fail (some a) e s = tt

module _ (show : ℕ → String) (types : PortableRegistry) (full : Bool) (rank : ℕ → ℕ)
    (ranked : (id : ℕ) (ty : PortableType)
      → types.resolve id ≡ some ty
      → RanksBelow rank (rank id) ty) where
  module _ (rec : PortableType → Result String) (n : ℕ)
      (inner : (id : ℕ) (ty : PortableType)
        → types.resolve id ≡ some ty
        → rank id < n
        → Settled (rec ty)) where
    Settled-name_of_id : (id : ℕ) → rank id < n → Settled (name_of_id show types full rec id)
    unfolding name_of_id
    Settled-name_of_id id h = elim (Option-cases (types.resolve id)) [
      | inl missing ↦ rw missing tt
      | inr (ty, found) ↦ rw found (inner id ty found h)
    ]

    Settled-names_of_ids :
        (ids : List ℕ) → AllLess rank n ids → Settled (names_of_ids show types full rec ids)
    unfolding names_of_ids
    Settled-names_of_ids [] h = tt
    Settled-names_of_ids (id ∷ ids) h =
        Settled-bind (name_of_id show types full rec id) _ (Settled-name_of_id id h.0) λ a.
          Settled-bind (names_of_ids show types full rec ids) _ (Settled-names_of_ids ids h.1)
            (λ b. tt)

    Settled-names_of_params :
        (ps : List (String × Option ℕ))
        → ParamsLess rank n ps
        → Settled (names_of_params show types full rec ps)
    unfolding names_of_params
    Settled-names_of_params [] h = tt
    Settled-names_of_params ((p, none) ∷ ps) h =
        Settled-bind (names_of_params show types full rec ps) _ (Settled-names_of_params ps h)
          (λ b. tt)
    Settled-names_of_params ((p, some id) ∷ ps) h =
        Settled-bind (name_of_id show types full rec id) _ (Settled-name_of_id id h.0) λ a.
          Settled-bind (names_of_params show types full rec ps) _ (Settled-names_of_params ps h.1)
            (λ b. tt)

    Settled-path_name :
        (ty : PortableType) (b : Bool)
        → Settled (if b then ok ty.path else or_fail ty.ident panicked)
    Settled-path_name ty true = tt
    Settled-path_name ty false = Settled-or_fail ty.ident panicked tt

    Settled-base_name :
        (path : String) (ident : Option String) (ps : List (String × Option ℕ)) (d : TypeDef)
        → AllLess rank n (parts d)
        → Settled (
            base_name show types full rec
              (record { path = path; ident = ident; type_params = ps; type_def = d }))
    unfolding base_name
    Settled-base_name path ident ps (sequence id) h =
        Settled-bind (name_of_id show types full rec id) _ (Settled-name_of_id id h.0) (λ a. tt)
    Settled-base_name path ident ps (array len id) h =
        Settled-bind (name_of_id show types full rec id) _ (Settled-name_of_id id h.0) (λ a. tt)
    Settled-base_name path ident ps (tuple ids) h =
        Settled-bind (names_of_ids show types full rec ids) _ (Settled-names_of_ids ids h) (λ a. tt)
    Settled-base_name path ident ps (primitive p) h = tt
    Settled-base_name path ident ps (compact id) h =
        Settled-bind (name_of_id show types full rec id) _ (Settled-name_of_id id h.0) (λ a. tt)
    Settled-base_name path ident ps (composite fs) h =
        Settled-path_name
          (record { path = path; ident = ident; type_params = ps; type_def = composite fs }) full
    Settled-base_name path ident ps (variant vs) h =
        Settled-path_name
          (record { path = path; ident = ident; type_params = ps; type_def = variant vs }) full
    Settled-base_name path ident ps bit_sequence h =
        Settled-path_name
          (record { path = path; ident = ident; type_params = ps; type_def = bit_sequence }) full

    Settled-with_params :
        (name : String) (ps : List (String × Option ℕ))
        → ParamsLess rank n ps
        → Settled (with_params show types full rec name ps)
    Settled-with_params name [] h = tt
    Settled-with_params name (p ∷ ps) h =
        Settled-bind (names_of_params show types full rec (p ∷ ps)) _
          (Settled-names_of_params (p ∷ ps) h) (λ a. tt)

  -- Naming a type of a registry in which what a type's name is made of ranks below the type, with more
  -- fuel than the rank, ends with a name or an error of its own.
  pub get_type_name-Settled :
      (fuel n : ℕ) (ty : PortableType)
      → RanksBelow rank n ty
      → n < fuel
      → Settled (get_type_name show types full fuel ty)
  unfolding get_type_name
  get_type_name-Settled zero n ty below enough = absurd (omega arith)
  get_type_name-Settled (suc fuel) n ty below enough =
      let inner : (id : ℕ) (u : PortableType)
          → types.resolve id ≡ some u
          → rank id < n
          → Settled (get_type_name show types full fuel u) =
        λ id u found less.
          get_type_name-Settled fuel (rank id) u (ranked id u found)
            (omega (arith, less, enough)) in
      Settled-bind (base_name show types full (get_type_name show types full fuel) ty) _
        (Settled-base_name (get_type_name show types full fuel) n inner ty.path ty.ident
          ty.type_params ty.type_def below.0)
        (λ name.
          Settled-with_params (get_type_name show types full fuel) n inner name ty.type_params
            below.1)
