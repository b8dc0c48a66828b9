-- ===== src/Types/Import/Fills.antt =====
-- src/types.rs, `Types::import_v14_type`: the import of a type writes its own cell.
use sub_script.Prelude.{
  ℕ, ◌≡◌, refl, ◌∙◌, ==_refl, String, false, Option, none, some, List, [], ◌∷◌, ◌==◌, Bool-cases,
  Option-cases, inl, inr, Result, ok, err,
}
use sub_script.Types.Meta.{TypeMeta, tuple, struct, enum, vector, slice, compact}
use sub_script.Types.Variants.{EnumVariants, empty, insert_at}
use sub_script.Types.Portable
use sub_script.Types.Portable.{
  Primitive, Field, Variant, TypeDef, composite, variant, sequence, array, primitive, bit_sequence,
  PortableType, PortableRegistry, get_type_name,
}
use sub_script.Types.Registry.{
  Types, M, proceed, ◌>>=◌, pure, throw, set_cell, alloc, is_unresolved,
}
use sub_script.Types.Registry.Results.{Returns, Returns-pure, Returns-bind}
use sub_script.Types.Import.{
  Refs, lift, new_ref, write_cell, primitive_meta, refs_of, field_ids, variant_ref, import_variants,
  meta_of, import_v14_type, import_each,
}

-- Names stay as they are, and what is described stays so.
pub record Fills (t t' : Types) : Type 0 where
  pub same_names : t'.types ≡ t.types
  pub filled : (r : ℕ) → is_unresolved (t.cells r) ≡ false → is_unresolved (t'.cells r) ≡ false

Fills-refl : (t : Types) → Fills t t
Fills-refl t = record { same_names = refl; filled = λ r h. h }

Fills-trans : (s t u : Types) → Fills s t → Fills t u → Fills s u
Fills-trans s t u f g = record {
  same_names = g.same_names ∙ f.same_names;
  filled = λ r h. g.filled r (f.filled r h);
}

abbrev Filling : {A : Type 0} → M A → Type 0
Filling m = (t : Types) → Fills t (m t).0

Filling-pure : {A : Type 0} (a : A) → Filling (pure a)
unfolding pure
Filling-pure a t = Fills-refl t

Filling-lift : {A : Type 0} (r : Result A) → Filling (lift r)
unfolding lift pure throw
Filling-lift (ok a) t = Fills-refl t
Filling-lift (err e) t = Fills-refl t

Filling-bind :
    {A B : Type 0} (m : M A) (f : A → M B)
    → Filling m
    → ((a : A) → Filling (f a))
    → Filling (m >>= f)
unfolding proceed
Filling-bind {A} {B} m f c d t = go (m t) (c t)
  where
    go : (p : Types × Result A) → Fills t p.0 → Fills t (proceed p f).0
    go (t', ok a) k = Fills-trans t t' (f a t').0 k (d a t')
    go (t', err e) k = k

Filling-new_ref : (m : TypeMeta) → is_unresolved m ≡ false → Filling (new_ref m)
unfolding new_ref alloc
Filling-new_ref m d t = record {
  same_names = refl;
  filled = λ r h. elim (Bool-cases (t.next == r)) [ inl e ↦ rw e d | inr e ↦ rw e h ];
}

Filling-write_cell : (r : ℕ) (m : TypeMeta) → is_unresolved m ≡ false → Filling (write_cell r m)
unfolding write_cell set_cell
Filling-write_cell r m d t = elim (Bool-cases (t.locked r)) [
  | inl locked ↦ rw (locked, write_cell) (Fills-refl t)
  | inr free ↦
      rw (free, write_cell)
        (record {
          same_names = refl;
          filled = λ j h. elim (Bool-cases (r == j)) [ inl e ↦ rw e d | inr e ↦ rw e h ];
        })
]

abbrev IsDescribed : TypeMeta → Type 0
IsDescribed m = is_unresolved m ≡ false

primitive-IsDescribed : (p : Primitive) → IsDescribed (primitive_meta p)
primitive-IsDescribed Portable.bool = refl
primitive-IsDescribed Portable.str = refl
primitive-IsDescribed _ = refl

module _ (show : ℕ → String) (refs : Refs) where
  Filling-variant_ref : (rs : List ℕ) → Filling (variant_ref show refs rs)
  unfolding variant_ref
  Filling-variant_ref [] = Filling-pure {A = Option ℕ} none
  Filling-variant_ref (r ∷ []) = Filling-pure (some r)
  Filling-variant_ref (r ∷ q ∷ rs) =
      Filling-bind (new_ref (tuple (r ∷ q ∷ rs))) _ (Filling-new_ref _ refl)
        (λ n. Filling-pure (some n))

  Filling-import_variants :
      (vs : EnumVariants) (more : List Variant) → Filling (import_variants show refs vs more)
  unfolding import_variants
  Filling-import_variants vs [] = Filling-pure vs
  Filling-import_variants vs (v ∷ more) =
      Filling-bind (lift (refs_of show refs (field_ids show refs v.fields))) _ (Filling-lift _)
        λ rs. Filling-bind (variant_ref show refs rs) _ (Filling-variant_ref rs) λ o.
          Filling-bind (lift (insert_at vs v.index v.name o)) _ (Filling-lift _)
            λ vs'. Filling-import_variants vs' more

  Filling-meta_of : (d : TypeDef) → Filling (meta_of show refs d)
  unfolding meta_of throw
  Filling-meta_of (composite fs) =
      Filling-bind (lift _) _ (Filling-lift _) (λ x. Filling-pure (struct x))
  Filling-meta_of (variant vs) =
      Filling-bind (import_variants show refs empty vs) _ (Filling-import_variants empty vs)
        (λ x. Filling-pure (enum x))
  Filling-meta_of (sequence id) =
      Filling-bind (lift _) _ (Filling-lift _) (λ x. Filling-pure (vector x))
  Filling-meta_of (array len id) =
      Filling-bind (lift _) _ (Filling-lift _) (λ x. Filling-pure (slice len x))
  Filling-meta_of (Portable.tuple ids) =
      Filling-bind (lift _) _ (Filling-lift _) (λ x. Filling-pure (tuple x))
  Filling-meta_of (primitive p) = Filling-pure (primitive_meta p)
  Filling-meta_of (Portable.compact id) =
      Filling-bind (lift _) _ (Filling-lift _) (λ x. Filling-pure (compact x))
  Filling-meta_of bit_sequence = λ t. Fills-refl t

  meta_of-IsDescribed : (d : TypeDef) → Returns (meta_of show refs d) IsDescribed
  unfolding meta_of throw
  meta_of-IsDescribed (composite fs) =
      Returns-bind (lift _) _ _ (λ x. Returns-pure (struct x) _ refl)
  meta_of-IsDescribed (variant vs) =
      Returns-bind (import_variants show refs empty vs) _ _ (λ x. Returns-pure (enum x) _ refl)
  meta_of-IsDescribed (sequence id) =
      Returns-bind (lift _) _ _ (λ x. Returns-pure (vector x) _ refl)
  meta_of-IsDescribed (array len id) =
      Returns-bind (lift _) _ _ (λ x. Returns-pure (slice len x) _ refl)
  meta_of-IsDescribed (Portable.tuple ids) =
      Returns-bind (lift _) _ _ (λ x. Returns-pure (tuple x) _ refl)
  meta_of-IsDescribed (primitive p) = Returns-pure (primitive_meta p) _ (primitive-IsDescribed p)
  meta_of-IsDescribed (Portable.compact id) =
      Returns-bind (lift _) _ _ (λ x. Returns-pure (compact x) _ refl)
  meta_of-IsDescribed bit_sequence = λ t m e. cc

  -- An import that succeeds leaves the cell described.
  abbrev Imports : Types → ℕ → Types × Result (Unit {0}) → Type 0
  Imports t r q = Fills t q.0 × (q.1 ≡ ok tt → is_unresolved (q.0.cells r) ≡ false)

  Imports-write_cell :
      (t t' : Types) (r : ℕ) (m : TypeMeta)
      → Fills t t'
      → IsDescribed m
      → Imports t r (write_cell r m t')
  unfolding write_cell set_cell
  Imports-write_cell t t' r m k d = elim (Bool-cases (t'.locked r)) [
    | inl locked ↦ rw (locked, write_cell) (k, (λ e. cc))
    | inr free ↦
        let f = Filling-write_cell r m d t' in
        let whole = Fills-trans t t' _ k f in
        let here = ==_refl r in (whole, (λ e. rw (free, write_cell) (rw here d)))
  ]

  Imports-import_v14_type :
      (id r : ℕ) (ty : PortableType) (t : Types)
      → refs id ≡ some r
      → Imports t r (import_v14_type show refs id ty t)
  unfolding import_v14_type proceed lift pure
  Imports-import_v14_type id r ty t known = rw known (
      go (meta_of show refs ty.type_def t) (Filling-meta_of ty.type_def t)
        (meta_of-IsDescribed ty.type_def t))
    where
      go :
          (p : Types × Result TypeMeta)
          → Fills t p.0
          → ((m : TypeMeta) → p.1 ≡ ok m → IsDescribed m)
          → Imports t r (proceed p (write_cell r))
      go (t', ok m) k d = Imports-write_cell t t' r m k (d m refl)
      go (t', err e) k d = (k, (λ x. cc))

  Filling-import_v14_type : (id : ℕ) (ty : PortableType) → Filling (import_v14_type show refs id ty)
  unfolding import_v14_type proceed lift throw
  Filling-import_v14_type id ty t = elim (Option-cases (refs id)) [
    | inr (r, known) ↦ (Imports-import_v14_type id r ty t known).0
    | inl missing ↦ rw missing (Fills-refl t)
  ]

  abbrev pub AllDescribed : List (ℕ × PortableType) → Types → Type 0
  AllDescribed [] t = Unit
  AllDescribed ((id, ty) ∷ tys) t =
      ((r : ℕ) → refs id ≡ some r → is_unresolved (t.cells r) ≡ false) × AllDescribed tys t

  pub AllDescribed-import_each :
      (tys : List (ℕ × PortableType)) (t : Types)
      → Fills t (import_each show refs tys t).0
        × ((import_each show refs tys t).1 ≡ ok tt
            → AllDescribed tys (import_each show refs tys t).0)
  unfolding import_each pure proceed
  AllDescribed-import_each [] t = (Fills-refl t, (λ e. tt))
  AllDescribed-import_each ((id, ty) ∷ tys) t =
      go (import_v14_type show refs id ty t) (Filling-import_v14_type id ty t)
        (λ r known. (Imports-import_v14_type id r ty t known).1)
        (λ t'. AllDescribed-import_each tys t')
    where
      go :
          (p : Types × Result (Unit {0}))
          → Fills t p.0
          → ((r : ℕ) → refs id ≡ some r → p.1 ≡ ok tt → is_unresolved (p.0.cells r) ≡ false)
          → ((t' : Types)
              → Fills t' (import_each show refs tys t').0
                × ((import_each show refs tys t').1 ≡ ok tt
                    → AllDescribed tys (import_each show refs tys t').0))
          → Fills t (proceed p (λ u. import_each show refs tys)).0
            × ((proceed p (λ u. import_each show refs tys)).1 ≡ ok tt
                → AllDescribed ((id, ty) ∷ tys) (proceed p (λ u. import_each show refs tys)).0)
      go (t', err e) k d rest = (k, (λ x. cc))
      go (t', ok u) k d rest =
          let (k', d') = rest t' in
          (Fills-trans t t' _ k k', (λ x. ((λ r known. k'.filled r (d r known refl)), d' x)))
