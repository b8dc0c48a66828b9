-- ===== src/Metadata/Modules/Named.antt =====
-- src/metadata.rs, `ModuleMetadata::from_v14_meta`: the module has the name and the index of its description, and
-- its errors are found.
use sub_script.Prelude.{
  ℕ, ◌≡◌, refl, ◌∙◌, String, Option, none, some, List, [], ◌∷◌, inl, inr, Option-cases, Result, ok,
  err, Result-cases,
}
use sub_script.Types.Variants.{EnumVariants, empty, insert_at}
use sub_script.Types.Meta
use sub_script.Types.Registry.{M, ◌>>=◌, insert_meta}
use sub_script.Types.Registry.Results.{Returns, Returns-pure, Returns-bind, Returns-then}
use sub_script.Types.Portable.{Variant, PortableRegistry}
use sub_script.Types.Import.{lift}
use sub_script.Types.Parser.{parse_type}
use sub_script.Metadata.Pallets.{Strings, PalletMetadata, func_from, event_from, variants_of}
use sub_script.Metadata.Modules.{
  ModuleMetadata, empty_module, each_variant, with_calls, each_entry, with_storage, with_events,
  each_const, with_constants, add_error, each_error, with_errors, module_from,
}
use sub_script.Metadata.Modules.Errors.{Distinct, AllFound, find_error-module_from}

abbrev pub Same : ModuleMetadata → ModuleMetadata → Type 0
Same m m' = (m.name ≡ m'.name) × (m.index ≡ m'.index)

pub Same-then :
    (m : ModuleMetadata) (x : M ModuleMetadata) (f : ModuleMetadata → M ModuleMetadata)
    → Returns x (Same m)
    → ((m1 : ModuleMetadata) → Returns (f m1) (Same m1))
    → Returns (x >>= f) (Same m)
Same-then m x f first next = Returns-then x f (Same m) (Same m) first λ m1 (name, index) t m2 e.
    let (name', index') = next m1 t m2 e in (name ∙ name', index ∙ index')

module _ (strs : Strings) (types : PortableRegistry) (fuel : ℕ) where
  Same-with_calls :
      (md : PalletMetadata) (m : ModuleMetadata)
      → Returns (with_calls strs types fuel md m) (Same m)
  unfolding with_calls
  Same-with_calls md m = elim (Option-cases md.calls) [
    | inl e ↦ rw (e, with_calls) (Returns-pure m _ (refl, refl))
    | inr (id, e) ↦
        rw (e, with_calls)
          (Returns-bind (lift (variants_of strs types fuel id)) _ (Same m) λ vs.
            Returns-bind
              (each_variant strs types fuel (func_from strs types fuel md.name md.index) empty
                m.funcs vs)
              _ (Same m)
              λ (raw, funcs). Returns-bind (insert_meta _ (Meta.enum raw)) _ (Same m) λ r.
                Returns-pure (record m { funcs = funcs; call_ref = some r }) (Same m) (refl, refl))
  ]

  Same-with_storage :
      (md : PalletMetadata) (m : ModuleMetadata)
      → Returns (with_storage strs types fuel md m) (Same m)
  unfolding with_storage
  Same-with_storage md m = elim (Option-cases md.storage) [
    | inl e ↦ rw (e, with_storage) (Returns-pure m _ (refl, refl))
    | inr (st, e) ↦
        rw (e, with_storage)
          (Returns-bind (each_entry strs types fuel st.prefix m.storage st.entries) _ (Same m)
            λ storage.
              Returns-pure (record m { storage = storage; storage_prefix = st.prefix }) (Same m)
                (refl, refl))
  ]

  Same-with_events :
      (md : PalletMetadata) (m : ModuleMetadata)
      → Returns (with_events strs types fuel md m) (Same m)
  unfolding with_events
  Same-with_events md m = elim (Option-cases md.event) [
    | inl e ↦ rw (e, with_events) (Returns-pure m _ (refl, refl))
    | inr (id, e) ↦
        rw (e, with_events)
          (Returns-bind (lift (variants_of strs types fuel id)) _ (Same m) λ vs.
            Returns-bind
              (each_variant strs types fuel (event_from strs types fuel md.name) empty m.events vs)
              _ (Same m)
              λ (raw, events). Returns-bind (insert_meta _ (Meta.enum raw)) _ (Same m) λ r.
                Returns-pure (record m { events = events; event_ref = some r }) (Same m)
                  (refl, refl))
  ]

  Same-with_constants :
      (md : PalletMetadata) (m : ModuleMetadata)
      → Returns (with_constants strs types fuel md m) (Same m)
  unfolding with_constants
  Same-with_constants md m =
      Returns-bind (each_const strs types fuel md.name m.constants md.constants) _ (Same m)
        λ cs. Returns-pure (record m { constants = cs }) (Same m) (refl, refl)

  Same-each_error :
      (name : String) (extra : ℕ) (raw : EnumVariants) (m : ModuleMetadata) (vs : List Variant)
      → Returns (each_error strs types fuel name extra raw m vs) (λ p. Same m p.1)
  unfolding each_error
  Same-each_error name extra raw m [] = Returns-pure (raw, m) _ (refl, refl)
  Same-each_error name extra raw m (v ∷ vs) =
      Returns-bind (lift (insert_at raw v.index v.name (some extra))) _ _
        λ raw'. Same-each_error name extra raw' (add_error strs types fuel name v m) vs

  Same-with_errors :
      (md : PalletMetadata) (m : ModuleMetadata)
      → Returns (with_errors strs types fuel md m) (Same m)
  unfolding with_errors
  Same-with_errors md m = elim (Option-cases md.error) [
    | inl e ↦ rw (e, with_errors) (Returns-pure m _ (refl, refl))
    | inr (id, e) ↦
        rw (e, with_errors)
          (Returns-bind (parse_type fuel "[u8; 3]") _ (Same m) λ extra.
            Returns-bind (lift (variants_of strs types fuel id)) _ (Same m) λ vs.
              Returns-then (each_error strs types fuel md.name extra empty m vs) _ _ (Same m)
                (Same-each_error md.name extra empty m vs)
                λ (raw, m') same.
                  Returns-bind (insert_meta _ (Meta.enum raw)) _ (Same m)
                    λ r. Returns-pure (record m' { error_ref = some r }) (Same m) same)
  ]

  Same-module_from :
      (md : PalletMetadata)
      → Returns (module_from strs types fuel md) (Same (empty_module md.name md.index))
  unfolding module_from
  Same-module_from md =
      let m0 : ModuleMetadata = empty_module md.name md.index in
      Same-then m0 (with_calls strs types fuel md m0) _ (Same-with_calls md m0) λ m1.
        Same-then m1 (with_storage strs types fuel md m1) _ (Same-with_storage md m1) λ m2.
          Same-then m2 (with_events strs types fuel md m2) _ (Same-with_events md m2) λ m3.
            Same-then m3 (with_constants strs types fuel md m3) _ (Same-with_constants md m3)
              λ m4. Same-with_errors md m4

  abbrev pub listed_or_none : Result (List Variant) → List Variant
  listed_or_none (ok vs) = vs
  listed_or_none (err e) = []

  -- the errors that a description names
  abbrev pub errors_of : Option ℕ → List Variant
  errors_of none = []
  errors_of (some id) = listed_or_none (variants_of strs types fuel id)

  abbrev pub HasDistinctErrors : PalletMetadata → Type 0
  HasDistinctErrors md = Distinct (errors_of md.error)

  -- Each error of the description is found by its index.
  abbrev pub FindsErrors : PalletMetadata → ModuleMetadata → Type 0
  FindsErrors md m = AllFound strs types fuel md.name (errors_of md.error) m

  module_from-FindsErrors :
      (md : PalletMetadata)
      → HasDistinctErrors md
      → Returns (module_from strs types fuel md) (FindsErrors md)
  module_from-FindsErrors md d = elim (Option-cases md.error) [
    | inl e ↦ λ t m h. rw e tt
    | inr (id, e) ↦ elim (Result-cases (variants_of strs types fuel id)) [
      | inl (vs, f) ↦ λ t m h.
          rw (e, f) (find_error-module_from strs types fuel md id vs t m e f (rw (e, f) at d) h)
      | inr (x, f) ↦ λ t m h. rw (e, f) tt
    ]
  ]

  pub module_from-IsRead :
      (md : PalletMetadata)
      → HasDistinctErrors md
      → Returns
          (module_from strs types fuel md)
          (λ m. (md.name ≡ m.name) × (md.index ≡ m.index) × FindsErrors md m)
  unfolding empty_module
  module_from-IsRead md d t m e =
      let (name, index) = Same-module_from md t m e in
      (name, index, module_from-FindsErrors md d t m e)
