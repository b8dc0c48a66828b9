-- ===== src/Metadata/Modules/Errors.antt =====
-- src/metadata.rs, `ModuleMetadata::find_error`: the errors of a module are found by their indices.
use sub_script.Prelude.{
  ℕ, ◌<◌, ◌%◌, ◌^◌, ◌≡◌, refl, sym, ap, ◌∙◌, ==_refl, String, str_eq, str_eq_refl, false, some,
  List, [], ◌∷◌, ◌==◌, lookup, lookup-insert, Result, ok, err, pos,
}
use native.Mathlib.Nat.{mod-eq_of_lt}
use mathlib.Core.Path.{subst}
use sub_script.Types.Variants.{EnumVariants, empty, insert_at}
use sub_script.Types.Meta
use sub_script.Types.Portable.{Variant, PortableRegistry}
use sub_script.Types.Registry.{Types, pure, throw, insert_meta}
use sub_script.Types.Registry.Results.{Returns, Returns-pure, Returns-bind, Returns-then}
use sub_script.Types.Import.{lift}
use sub_script.Types.Parser.{parse_type}
use sub_script.Metadata.Pallets.{Strings, PalletMetadata, ErrorMetadata, variants_of, error_from}
use sub_script.Metadata.Modules.{
  ModuleMetadata, empty_module, find_error, add_error, each_error, with_calls, with_storage,
  with_events, with_constants, with_errors, module_from,
}

-- Another name and another index than those of the variant.
abbrev IsOther : Variant → List Variant → Type 0
IsOther v [] = Unit
IsOther v (u ∷ us) = (str_eq u.name v.name ≡ false) × ((u.index == v.index) ≡ false) × IsOther v us

-- Names and indices are distinct, and an index is a byte.
abbrev pub Distinct : List Variant → Type 0
Distinct [] = Unit
Distinct (v ∷ vs) = (v.index < 256) × IsOther v vs × Distinct vs

pub find_error_at :
    (m : ModuleMetadata) (i : ℕ) (name : String) (e : ErrorMetadata)
    → i < 256
    → m.err_idx_map i ≡ some name
    → lookup name m.errors ≡ some e
    → find_error m (pos i) ≡ some e
unfolding find_error
find_error_at m i name e small named entry =
    let key : m.err_idx_map (i % 2 ^ 8) ≡ some name =
      ap m.err_idx_map (mod-eq_of_lt small) ∙ named in
    rw (key, find_error) entry

module _ (strs : Strings) (types : PortableRegistry) (fuel : ℕ) (mod_name : String) where
  abbrev add : Variant → ModuleMetadata → ModuleMetadata
  add = add_error strs types fuel mod_name

  abbrev add_all : List Variant → ModuleMetadata → ModuleMetadata
  add_all [] m = m
  add_all (v ∷ vs) m = add_all vs (add v m)

  -- Each error is found by its index.
  abbrev pub AllFound : List Variant → ModuleMetadata → Type 0
  AllFound [] m = Unit
  AllFound (v ∷ vs) m =
      (find_error m (pos v.index) ≡ some (error_from strs types fuel mod_name v)) × AllFound vs m

  lookup-add_all :
      (v : Variant) (vs : List Variant) (m : ModuleMetadata)
      → IsOther v vs
      → lookup v.name (add_all vs m).errors ≡ lookup v.name m.errors
  lookup-add_all v [] m h = refl
  lookup-add_all v (u ∷ us) m (n, i, h) =
      lookup-add_all v us (add u m) h ∙ (lookup-insert u.name v.name _ m.errors ∙ rw n refl)

  err_idx_map-add_all :
      (v : Variant) (vs : List Variant) (m : ModuleMetadata)
      → IsOther v vs
      → (add_all vs m).err_idx_map v.index ≡ m.err_idx_map v.index
  err_idx_map-add_all v [] m h = refl
  err_idx_map-add_all v (u ∷ us) m (n, i, h) = err_idx_map-add_all v us (add u m) h ∙ rw i refl

  AllFound-add_all :
      (vs : List Variant) (m : ModuleMetadata) → Distinct vs → AllFound vs (add_all vs m)
  AllFound-add_all [] m d = tt
  AllFound-add_all (v ∷ vs) m (small, other, d) =
      let name : (add_all vs (add v m)).err_idx_map v.index ≡ some v.name =
        err_idx_map-add_all v vs (add v m) other ∙ rw (==_refl v.index) refl in
      let entry : lookup v.name (add_all vs (add v m)).errors
          ≡ some (error_from strs types fuel mod_name v) =
        lookup-add_all v vs (add v m) other
        ∙ (lookup-insert v.name v.name _ m.errors ∙ rw (str_eq_refl v.name) refl) in
      (
        find_error_at (add_all vs (add v m)) v.index v.name _ small name entry,
        AllFound-add_all vs (add v m) d,
      )

  each_error-add_all :
      (extra : ℕ) (raw : EnumVariants) (m : ModuleMetadata) (vs : List Variant)
      → Returns (each_error strs types fuel mod_name extra raw m vs) (λ p. p.1 ≡ add_all vs m)
  unfolding each_error
  each_error-add_all extra raw m [] = Returns-pure (raw, m) _ refl
  each_error-add_all extra raw m (v ∷ vs) =
      Returns-bind (lift (insert_at raw v.index v.name (some extra))) _ _
        λ raw'. each_error-add_all extra raw' (add v m) vs

pub Returns-lift : {A : Type 0} (r : Result A) (a : A) → r ≡ ok a → Returns (lift r) (λ b. a ≡ b)
unfolding lift pure throw
Returns-lift (ok b) a h t c e = cc
Returns-lift (err x) a h t c e = cc

module _ (strs : Strings) (types : PortableRegistry) (fuel : ℕ) where
  AllFound-error_ref :
      (mod_name : String) (vs : List Variant) (m : ModuleMetadata) (r : ℕ)
      → AllFound strs types fuel mod_name vs m
      → AllFound strs types fuel mod_name vs (record m { error_ref = some r })
  unfolding find_error
  AllFound-error_ref mod_name [] m r h = tt
  AllFound-error_ref mod_name (v ∷ vs) m r (found, h) =
      (found, AllFound-error_ref mod_name vs m r h)

  with_errors-AllFound :
      (md : PalletMetadata) (m : ModuleMetadata) (id : ℕ) (vs : List Variant)
      → md.error ≡ some id
      → variants_of strs types fuel id ≡ ok vs
      → Distinct vs
      → Returns (with_errors strs types fuel md m) (AllFound strs types fuel md.name vs)
  unfolding with_errors
  with_errors-AllFound md m id vs named listed d = rw named (
      Returns-bind (parse_type fuel "[u8; 3]") _ _ λ extra.
        Returns-then (lift (variants_of strs types fuel id)) _ (λ us. vs ≡ us) _
          (Returns-lift (variants_of strs types fuel id) vs listed)
          λ us same.
            Returns-then (each_error strs types fuel md.name extra empty m us) _ _ _
              (each_error-add_all strs types fuel md.name extra empty m us)
              λ p added. Returns-bind (insert_meta _ (Meta.enum p.0)) _ _ λ r.
                Returns-pure (record p.1 { error_ref = some r }) _
                  (AllFound-error_ref md.name vs p.1 r (
                    subst (AllFound strs types fuel md.name vs)
                      (sym (added ∙ ap (λ x. add_all strs types fuel md.name x m) (sym same)))
                      (AllFound-add_all strs types fuel md.name vs m d))))

-- When a module is read with success from a description whose errors have distinct names and
-- distinct indices of a byte, each error of the description is found by its index.
pub find_error-module_from :
    (strs : Strings) (types : PortableRegistry) (fuel : ℕ) (md : PalletMetadata) (id : ℕ)
    (vs : List Variant) (t : Types) (m : ModuleMetadata)
    → md.error ≡ some id
    → variants_of strs types fuel id ≡ ok vs
    → Distinct vs
    → (module_from strs types fuel md t).1 ≡ ok m
    → AllFound strs types fuel md.name vs m
unfolding module_from
find_error-module_from strs types fuel md id vs t m named listed d =
    Returns-bind (with_calls strs types fuel md (empty_module md.name md.index)) _ _
      (λ m1. Returns-bind (with_storage strs types fuel md m1) _ _ (λ m2.
        Returns-bind (with_events strs types fuel md m2) _ _ (λ m3.
          Returns-bind (with_constants strs types fuel md m3) _ _
            (λ m4. with_errors-AllFound strs types fuel md m4 id vs named listed d))))
      t m
