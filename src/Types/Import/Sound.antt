-- ===== src/Types/Import/Sound.antt =====
-- src/types.rs, `Types::import_v14_type` and what it calls: how they end.
use sub_script.Prelude.{
  insert, ℕ, suc, ◌≡◌, refl, String, false, Option, none, some, List, [], ◌∷◌, Option-cases, inl,
  inr, ◌==◌, ltb, length, Bool-cases, Result, ok, err,
}
use sub_script.Types.Meta.{TypeMeta, tuple, struct, enum, vector, slice, compact}
use sub_script.Types.Variants.{EnumVariants, empty, insert_at, checked}
use sub_script.Types.Portable
use sub_script.Types.Portable.{
  Primitive, Field, Variant, TypeDef, composite, variant, sequence, array, primitive, bit_sequence,
  PortableType, PortableRegistry, get_type_name,
}
use sub_script.Types.Registry.{
  Types, M, proceed, ◌>>=◌, pure, throw, set_cell, resolve, is_unresolved,
}
use sub_script.Types.Registry.Keeps.{Wf, Calm-resolve, Settled}
use sub_script.Types.Scan.Weight.{weight}
use sub_script.Types.Registry.Insert.{Keeps-alloc, is_unresolved_text}
use sub_script.Types.Registry.Results.{Returns, Returns-pure, Returns-bind}
use sub_script.Types.Registry.Quiet.{IsUnlocked, IsUnlocked-Keeps, Quiet, Quiet-Calm}
use sub_script.Types.Import.{
  field_name, Refs, lift, new_ref, write_cell, primitive_meta, ref_of, composite_fields, refs_of,
  field_ids, variant_ref, import_variants, meta_of, import_v14_type, import_each,
}

-- Well-formed and without locks.
abbrev pub IsSound : Types → Type 0
IsSound t = Wf t × IsUnlocked t

-- From a sound registry, the operation settles and leaves a sound one.
abbrev pub Free : {A : Type 0} → M A → Type 0
Free m = (t : Types) → IsSound t → IsSound (m t).0 × Settled (m t).1

Free-Quiet : {A : Type 0} (m : M A) → Quiet m → Free m
Free-Quiet m q t (v, u) = let (k, s) = q t v u in ((k.wf, IsUnlocked-Keeps t (m t).0 k u), s)

pub Free-pure : {A : Type 0} (a : A) → Free (pure a)
unfolding pure
Free-pure a t u = (u, tt)

pub Free-lift : {A : Type 0} (r : Result A) → Settled r → Free (lift r)
unfolding lift pure throw
Free-lift (ok a) s t u = (u, tt)
Free-lift (err e) s t u = (u, s)

Free-then :
    {A B : Type 0} (m : M A) (f : A → M B) (P : A → Type 0)
    → Free m
    → Returns m P
    → ((a : A) → P a → Free (f a))
    → Free (m >>= f)
unfolding proceed
Free-then {A} {B} m f P c known d t u = go (m t) (c t u) (known t)
  where
    go :
        (p : Types × Result A)
        → IsSound p.0 × Settled p.1
        → ((a : A) → p.1 ≡ ok a → P a)
        → IsSound (proceed p f).0 × Settled (proceed p f).1
    go (t', ok a) (k, s) q = d a (q a refl) t' k
    go (t', err e) (k, s) q = (k, s)

pub Free-bind :
    {A B : Type 0} (m : M A) (f : A → M B) → Free m → ((a : A) → Free (f a)) → Free (m >>= f)
Free-bind m f c d = Free-then m f (λ a. Unit) c (λ t a e. tt) (λ a x. d a)

pub Free-resolve : (name : String) → Free (resolve name)
Free-resolve name =
    Free-Quiet (resolve name)
      (Quiet-Calm (suc (weight name)) (resolve name) (Calm-resolve (suc (weight name)) name))

Free-new_ref : (m : TypeMeta) → is_unresolved m ≡ false → Free (new_ref m)
unfolding new_ref
Free-new_ref m d = Free-Quiet (new_ref m) (λ t v u. (Keeps-alloc "" m t v d, tt))

pub Wf-set_cell :
    (r : ℕ) (m : TypeMeta) (t : Types) → Wf t → is_unresolved m ≡ false → Wf (set_cell r m t)
unfolding set_cell
Wf-set_cell r m t v d = record {
  bound = v.bound;
  own = λ k j n l c. elim (Bool-cases (r == j)) [
    | inl here ↦ absurd (is_unresolved_text m n d (rw here at c))
    | inr there ↦ v.own k j n l (rw there at c)
  ];
  free = v.free;
}

Free-write_cell : (r : ℕ) (m : TypeMeta) → is_unresolved m ≡ false → Free (write_cell r m)
unfolding write_cell set_cell
Free-write_cell r m d t (v, u) = rw (u r, write_cell) ((Wf-set_cell r m t v d, u), tt)

Settled-checked : (i : ℕ) (p : EnumVariants × ℕ) → Settled (checked i p)
unfolding checked
Settled-checked i (vs, at) = elim (Bool-cases (at == i)) [ inl e ↦ rw e tt | inr e ↦ rw e tt ]

pub Settled-insert_at :
    (vs : EnumVariants) (i : ℕ) (name : String) (o : Option ℕ) → Settled (insert_at vs i name o)
unfolding insert_at
Settled-insert_at vs i name o = elim (Bool-cases (ltb i (length vs.variants))) [
  | inl e ↦ rw (e, insert_at) tt
  | inr e ↦ rw (e, insert_at) (Settled-checked i _)
]

module _ (show : ℕ → String) (refs : Refs) where
  Settled-ref_of : (id : ℕ) → Settled (ref_of show refs id)
  Settled-ref_of id = elim (Option-cases (refs id)) [ inl e ↦ rw e tt | inr (r, e) ↦ rw e tt ]

  Settled-composite_fields :
      (acc : List (String × ℕ)) (fs : List Field) → Settled (composite_fields show refs acc fs)
  unfolding composite_fields
  Settled-composite_fields acc [] = tt
  Settled-composite_fields acc (f ∷ fs) = elim (Option-cases (refs f.ty)) [
    | inl e ↦ rw (e, composite_fields) tt
    | inr (r, e) ↦
        rw (e, composite_fields)
          (Settled-composite_fields (insert (field_name show f.name (length acc)) r acc) fs)
  ]

  Settled-refs_of : (ids : List ℕ) → Settled (refs_of show refs ids)
  unfolding refs_of
  Settled-refs_of [] = tt
  Settled-refs_of (id ∷ ids) = elim (Option-cases (refs id)) [
    | inl e ↦ rw (e, refs_of) tt
    | inr (r, e) ↦ rw (e, refs_of) (go r (refs_of show refs ids) (Settled-refs_of ids))
  ]
    where
      go :
          (r : ℕ) (rest : Result (List ℕ))
          → Settled rest
          → Settled (elim rest as (λ x. Result (List ℕ)) [ err e ↦ err e | ok rs ↦ ok (r ∷ rs) ])
      go r (ok rs) s = tt
      go r (err e) s = s

  Free-variant_ref : (rs : List ℕ) → Free (variant_ref show refs rs)
  unfolding variant_ref
  Free-variant_ref [] = Free-pure {A = Option ℕ} none
  Free-variant_ref (r ∷ []) = Free-pure (some r)
  Free-variant_ref (r ∷ q ∷ rs) =
      Free-bind (new_ref (tuple (r ∷ q ∷ rs))) _ (Free-new_ref (tuple (r ∷ q ∷ rs)) refl)
        (λ n. Free-pure (some n))

  Free-import_variants :
      (vs : EnumVariants) (more : List Variant) → Free (import_variants show refs vs more)
  unfolding import_variants
  Free-import_variants vs [] = Free-pure vs
  Free-import_variants vs (v ∷ more) =
      Free-bind (lift (refs_of show refs (field_ids show refs v.fields))) _
        (Free-lift _ (Settled-refs_of _))
        λ rs. Free-bind (variant_ref show refs rs) _ (Free-variant_ref rs) λ o.
          Free-bind (lift (insert_at vs v.index v.name o)) _
            (Free-lift _ (Settled-insert_at vs v.index v.name o))
            λ vs'. Free-import_variants vs' more

  Free-meta_of : (d : TypeDef) → Free (meta_of show refs d)
  unfolding meta_of throw
  Free-meta_of (composite fs) =
      Free-bind (lift _) _ (Free-lift _ (Settled-composite_fields [] fs))
        (λ x. Free-pure (struct x))
  Free-meta_of (variant vs) =
      Free-bind (import_variants show refs empty vs) _ (Free-import_variants empty vs)
        (λ x. Free-pure (enum x))
  Free-meta_of (sequence id) =
      Free-bind (lift _) _ (Free-lift _ (Settled-ref_of id)) (λ x. Free-pure (vector x))
  Free-meta_of (array len id) =
      Free-bind (lift _) _ (Free-lift _ (Settled-ref_of id)) (λ x. Free-pure (slice len x))
  Free-meta_of (Portable.tuple ids) =
      Free-bind (lift _) _ (Free-lift _ (Settled-refs_of ids)) (λ x. Free-pure (tuple x))
  Free-meta_of (primitive p) = Free-pure (primitive_meta p)
  Free-meta_of (Portable.compact id) =
      Free-bind (lift _) _ (Free-lift _ (Settled-ref_of id)) (λ x. Free-pure (compact x))
  Free-meta_of bit_sequence = λ t u. (u, tt)

  primitive_meta-described : (p : Primitive) → is_unresolved (primitive_meta p) ≡ false
  primitive_meta-described Portable.bool = refl
  primitive_meta-described Portable.char = refl
  primitive_meta-described Portable.str = refl
  primitive_meta-described _ = refl

  meta_of-described : (d : TypeDef) → Returns (meta_of show refs d) (λ m. is_unresolved m ≡ false)
  unfolding meta_of throw
  meta_of-described (composite fs) = Returns-bind (lift _) _ _ (λ x. Returns-pure (struct x) _ refl)
  meta_of-described (variant vs) =
      Returns-bind (import_variants show refs empty vs) _ _ (λ x. Returns-pure (enum x) _ refl)
  meta_of-described (sequence id) = Returns-bind (lift _) _ _ (λ x. Returns-pure (vector x) _ refl)
  meta_of-described (array len id) =
      Returns-bind (lift _) _ _ (λ x. Returns-pure (slice len x) _ refl)
  meta_of-described (Portable.tuple ids) =
      Returns-bind (lift _) _ _ (λ x. Returns-pure (tuple x) _ refl)
  meta_of-described (primitive p) = Returns-pure (primitive_meta p) _ (primitive_meta-described p)
  meta_of-described (Portable.compact id) =
      Returns-bind (lift _) _ _ (λ x. Returns-pure (compact x) _ refl)
  meta_of-described bit_sequence = λ t m e. cc

  pub Free-import_each : (tys : List (ℕ × PortableType)) → Free (import_each show refs tys)
  unfolding import_each import_v14_type
  Free-import_each [] = Free-pure tt
  Free-import_each ((id, ty) ∷ tys) =
      Free-bind (import_v14_type show refs id ty) _
        (Free-bind (lift (ref_of show refs id)) _ (Free-lift _ (Settled-ref_of id)) λ r.
          Free-then (meta_of show refs ty.type_def) _ (λ m. is_unresolved m ≡ false)
            (Free-meta_of ty.type_def) (meta_of-described ty.type_def) λ m d. Free-write_cell r m d)
        (λ u. Free-import_each tys)
