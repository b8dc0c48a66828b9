-- ===== src/Metadata/Legacy/Modules/Named.antt =====
-- src/metadata.rs, `ModuleMetadata::from_v12_meta` and `ModuleMetadata::from_v13_meta`: the module has the name
-- and the index of its description, and its errors are found.
use sub_script.Prelude.{
  ℕ, suc, ◌≤◌, ◌≡◌, refl, sym, ap, ◌∙◌, String, Option, none, some, List, [], ◌∷◌, length, insert,
  ok,
}
use mathlib.Core.Path.{subst}
use sub_script.Types.Variants.{EnumVariants, empty, insert_at}
use sub_script.Types.Meta
use sub_script.Types.Registry.{M, throw, insert_meta}
use sub_script.Types.Registry.Results.{Returns, Returns-pure, Returns-bind, Returns-then}
use sub_script.Types.Import.{lift}
use sub_script.Metadata.Hasher.{KeyHasher}
use sub_script.Metadata.Modules.{ModuleMetadata, empty_module}
use sub_script.Metadata.Modules.Named.{Same, Same-then}
use sub_script.Metadata.Modules.Errors.{Returns-lift}
use sub_script.Metadata.Legacy.{
  Different, encode, decoded, decode_meta, FunctionEntry, EventEntry, ConstantEntry, ErrorEntry,
  func_from, event_from, const_from, error_from,
}
use sub_script.Metadata.Legacy.Modules.{
  StorageEntry, StorageEntries, ModuleEntry, as_u8, each_variant, add_error, each_error,
  with_errors, with_calls, with_events, each_const, with_constants, storage_from, each_entry,
  with_storage, module_from,
}
use sub_script.Metadata.Legacy.Modules.Errors.{
  name_of, names_of, Distinct, AllFound, module_from-AllFound,
}

Same-each_error :
    (mod_name : String) (i : ℕ) (raw : EnumVariants) (m : ModuleMetadata) (mds : List ErrorEntry)
    → Returns (each_error mod_name i raw m mds) (λ p. Same m p.1)
unfolding each_error
Same-each_error mod_name i raw m [] = Returns-pure (raw, m) _ (refl, refl)
Same-each_error mod_name i raw m (md ∷ mds) =
    Returns-bind (error_from mod_name (as_u8 i) md) _ _ λ e.
      Returns-bind (lift (insert_at raw e.error_idx e.name none)) _ _
        λ raw'. Same-each_error mod_name (suc i) raw' (add_error e m) mds

Same-with_errors :
    (name : String) (listed : Different (List ErrorEntry)) (m : ModuleMetadata)
    → Returns (with_errors name listed m) (Same m)
unfolding with_errors
Same-with_errors name listed m = Returns-bind (lift (decode_meta listed)) _ _ λ mds.
    Returns-then (each_error name 0 empty m mds) _ _ _ (Same-each_error name 0 empty m mds)
      λ (raw, m') same.
        Returns-bind (insert_meta _ (Meta.enum raw)) _ _
          λ r. Returns-pure (record m' { error_ref = some r }) _ same

module _ (fuel : ℕ) where
  Same-with_calls :
      (name : String) (index : ℕ) (calls : Option (Different (List FunctionEntry)))
      (m : ModuleMetadata)
      → Returns (with_calls fuel name index calls m) (Same m)
  unfolding with_calls
  Same-with_calls name index none m = Returns-pure m _ (refl, refl)
  Same-with_calls name index (some calls) m = Returns-bind (lift (decode_meta calls)) _ _ λ mds.
      Returns-bind (each_variant (func_from fuel name index) 0 empty m.funcs mds) _ _
        λ (raw, funcs).
          Returns-bind (insert_meta _ (Meta.enum raw)) _ _
            λ r. Returns-pure (record m { funcs = funcs; call_ref = some r }) _ (refl, refl)

  Same-with_events :
      (name : String) (listed : Option (Different (List EventEntry))) (m : ModuleMetadata)
      → Returns (with_events fuel name listed m) (Same m)
  unfolding with_events
  Same-with_events name none m = Returns-pure m _ (refl, refl)
  Same-with_events name (some listed) m = Returns-bind (lift (decode_meta listed)) _ _ λ mds.
      Returns-bind (each_variant (event_from fuel name) 0 empty m.events mds) _ _ λ (raw, events).
        Returns-bind (insert_meta _ (Meta.enum raw)) _ _
          λ r. Returns-pure (record m { events = events; event_ref = some r }) _ (refl, refl)

  Same-each_const :
      (name : String) (m : ModuleMetadata) (mds : List ConstantEntry)
      → Returns (each_const fuel name m mds) (Same m)
  unfolding each_const
  Same-each_const name m [] = Returns-pure m _ (refl, refl)
  Same-each_const name m (md ∷ mds) =
      Returns-bind (const_from fuel name md) _ _
        λ c. Same-each_const name (record m { constants = insert c.name c m.constants }) mds

  module _ {K : Type 0} (utf8 : String → List ℕ)
      (hasher_from : K → M (Option KeyHasher × Different String)) where
    Same-each_entry :
        (prefix : String) (m : ModuleMetadata) (mds : List (StorageEntry K))
        → Returns (each_entry fuel utf8 hasher_from prefix m mds) (Same m)
    unfolding each_entry
    Same-each_entry prefix m [] = Returns-pure m _ (refl, refl)
    Same-each_entry prefix m (md ∷ mds) =
        Returns-bind (storage_from fuel utf8 hasher_from prefix md) _ _
          λ (name, s). Same-each_entry prefix (record m { storage = insert name s m.storage }) mds

    Same-with_storage :
        (storage : Option (Different (StorageEntries K))) (m : ModuleMetadata)
        → Returns (with_storage fuel utf8 hasher_from storage m) (Same m)
    unfolding with_storage
    Same-with_storage none m = Returns-pure m _ (refl, refl)
    Same-with_storage (some storage) m = Returns-bind (lift (decode_meta storage)) _ _ λ md.
        Returns-bind (lift (decode_meta md.prefix)) _ _ λ prefix.
          Returns-bind (lift (decode_meta md.entries)) _ _ λ mds.
            Returns-then (each_entry fuel utf8 hasher_from prefix m mds) _ _ _
              (Same-each_entry prefix m mds)
              λ m' same. Returns-pure (record m' { storage_prefix = prefix }) _ same

    Same-module_from :
        (md : ModuleEntry K) (name : String)
        → decode_meta md.name ≡ ok name
        → Returns (module_from fuel utf8 hasher_from md) (Same (empty_module name md.index))
    unfolding module_from with_constants empty_module
    Same-module_from md name named =
        Returns-then (lift (decode_meta md.name)) _ _ _
          (Returns-lift (decode_meta md.name) name named)
          λ n same t m e.
            let (name', index) =
              Same-then (empty_module n md.index)
                (with_calls fuel n md.index md.calls (empty_module n md.index)) _
                (Same-with_calls n md.index md.calls (empty_module n md.index))
                (λ m1.
                  Same-then m1 (with_storage fuel utf8 hasher_from md.storage m1) _
                    (Same-with_storage md.storage m1)
                    (λ m2.
                      Same-then m2 (with_events fuel n md.event m2) _
                        (Same-with_events n md.event m2)
                        (λ m3.
                          Same-then m3 (with_constants fuel n md.constants m3) _
                            (Returns-bind (lift (decode_meta md.constants)) _ (Same m3)
                              (Same-each_const n m3))
                            (λ m4. Same-with_errors n md.errors m4))))
                t m e in
            (same ∙ name', index)

    -- nothing is read without a name
    module_from-unnamed :
        (md : ModuleEntry K) (Q : ModuleMetadata → Type 0)
        → md.name ≡ encode
        → Returns (module_from fuel utf8 hasher_from md) Q
    unfolding module_from lift throw decode_meta
    module_from-unnamed md Q e =
        Returns-then (lift (decode_meta md.name)) _ (λ n. ⊥) Q
          (subst (λ d. Returns (lift (decode_meta d)) (λ n. ⊥)) (sym e) never) (λ n bad. absurd bad)
      where
        never : Returns (lift (decode_meta {A = String} encode)) (λ n. ⊥)
        never t n h = cc

abbrev pub error_names : Different (List ErrorEntry) → List String
error_names encode = []
error_names (decoded mds) = names_of mds

-- Errors with distinct names, no more than a byte counts.
abbrev pub HasFewErrors : {K : Type 0} → ModuleEntry K → Type 0
HasFewErrors md = (length (error_names md.errors) ≤ 256) × Distinct (error_names md.errors)

-- The errors of the description are found by their places.
abbrev pub FindsErrors : {K : Type 0} → ModuleEntry K → ModuleMetadata → Type 0
FindsErrors md m = AllFound (name_of md.name) 0 (error_names md.errors) m

module _ {K : Type 0} (fuel : ℕ) (utf8 : String → List ℕ)
    (hasher_from : K → M (Option KeyHasher × Different String)) where
  pub module_from-IsRead :
      (md : ModuleEntry K)
      → HasFewErrors md
      → Returns
          (module_from fuel utf8 hasher_from md)
          (λ m. (name_of md.name ≡ m.name) × (md.index ≡ m.index) × FindsErrors md m)
  unfolding decode_meta empty_module
  module_from-IsRead md (fit, d) t m e = go md.name md.errors refl refl
    where
      go :
          (dn : Different String) (de : Different (List ErrorEntry))
          → md.name ≡ dn
          → md.errors ≡ de
          → (name_of md.name ≡ m.name) × (md.index ≡ m.index) × FindsErrors md m
      go encode de f g =
          module_from-unnamed fuel utf8 hasher_from md
            (λ x. (name_of md.name ≡ x.name) × (md.index ≡ x.index) × FindsErrors md x) f t m e
      go (decoded name) encode f g =
          let (a, b) = Same-module_from fuel utf8 hasher_from md name (ap decode_meta f) t m e in
          (ap name_of f ∙ a, b, rw (f, g) tt)
      go (decoded name) (decoded mds) f g =
          let (a, b) = Same-module_from fuel utf8 hasher_from md name (ap decode_meta f) t m e in
          (
            ap name_of f ∙ a,
            b,
            rw (f, g)
                (module_from-AllFound fuel utf8 hasher_from md name mds (ap decode_meta f)
                  (ap decode_meta g) (rw g at fit) (rw g at d) t m e),
          )
