-- ===== src/Metadata/Legacy/Modules/Errors.antt =====
-- src/metadata.rs, `ModuleMetadata::find_error`: the errors of a module of the versions 12 and 13 are found by
-- their places.
use sub_script.Prelude.{
  ℕ, suc, ◌+◌, ◌<◌, ◌≤◌, ◌≡◌, refl, sym, ap, ◌∙◌, ==_refl, String, str_eq, str_eq_refl, false,
  Option, none, some, List, [], ◌∷◌, ◌==◌, length, lookup, lookup-insert, pos, arith, ok,
}
use native.Mathlib.Nat.{mod-eq_of_lt}
use mathlib.Core.Path.{subst}
use sub_script.Types.Variants.{EnumVariants, empty, insert_at}
use sub_script.Types.Meta
use sub_script.Metadata.Hasher.{KeyHasher}
use sub_script.Types.Registry.{M, proceed, pure, throw, insert_meta}
use sub_script.Types.Registry.Results.{Returns, Returns-pure, Returns-bind, Returns-then}
use sub_script.Types.Import.{lift}
use sub_script.Metadata.Pallets.{ErrorMetadata}
use sub_script.Metadata.Modules.{ModuleMetadata, empty_module, find_error}
use sub_script.Metadata.Modules.Errors.{Returns-lift, find_error_at}
use sub_script.Metadata.Legacy.{
  Different, encode, decoded, decode_meta, Documentation, ErrorEntry, error_from,
}
use sub_script.Metadata.Legacy.Modules.{
  ModuleEntry, as_u8, add_error, each_error, with_errors, with_calls, with_events, with_constants,
  with_storage, module_from,
}

abbrev pub name_of : Different String → String
name_of encode = ""
name_of (decoded name) = name

abbrev pub names_of : List ErrorEntry → List String
names_of [] = []
names_of (md ∷ mds) = name_of md.name ∷ names_of mds

abbrev IsNew : String → List String → Type 0
IsNew n [] = Unit
IsNew n (k ∷ ks) = (str_eq k n ≡ false) × IsNew n ks

abbrev pub Distinct : List String → Type 0
Distinct [] = Unit
Distinct (n ∷ ns) = IsNew n ns × Distinct ns

module _ (mod_name : String) where
  -- the error at a place of the list
  abbrev pub error_at : ℕ → String → ErrorMetadata
  error_at i name = record { mod_name = mod_name; name = name; error_idx = as_u8 i }

  -- From a place on, each error is found by its place.
  abbrev pub AllFound : ℕ → List String → ModuleMetadata → Type 0
  AllFound i [] m = Unit
  AllFound i (n ∷ ns) m = (find_error m (pos i) ≡ some (error_at i n)) × AllFound (suc i) ns m

  abbrev add_all : ℕ → List String → ModuleMetadata → ModuleMetadata
  add_all i [] m = m
  add_all i (n ∷ ns) m = add_all (suc i) ns (add_error (error_at i n) m)

  lookup-add_all :
      (n : String) (i : ℕ) (ns : List String) (m : ModuleMetadata)
      → IsNew n ns
      → lookup n (add_all i ns m).errors ≡ lookup n m.errors
  lookup-add_all n i [] m h = refl
  lookup-add_all n i (k ∷ ks) m (new, h) =
      lookup-add_all n (suc i) ks (add_error (error_at i k) m) h
      ∙ (lookup-insert k n (error_at i k) m.errors ∙ rw new refl)

  err_idx_map-add_all :
      (j i : ℕ) (ns : List String) (m : ModuleMetadata)
      → j < i
      → i + length ns ≤ 256
      → (add_all i ns m).err_idx_map j ≡ m.err_idx_map j
  err_idx_map-add_all j i [] m before fit = refl
  err_idx_map-add_all j i (n ∷ ns) m before fit =
      let small : i < 256 = omega (arith, fit) in
      let place : as_u8 i ≡ i = mod-eq_of_lt small in
      let apart : (i == j) ≡ false = ground (arith, before) in
      err_idx_map-add_all j (suc i) ns (add_error (error_at i n) m) (omega (arith, before))
        (omega (arith, fit))
      ∙ rw place (rw apart refl)

  AllFound-add_all :
      (i : ℕ) (ns : List String) (m : ModuleMetadata)
      → i + length ns ≤ 256
      → Distinct ns
      → AllFound i ns (add_all i ns m)
  AllFound-add_all i [] m fit d = tt
  AllFound-add_all i (n ∷ ns) m fit (new, d) =
      let small : i < 256 = omega (arith, fit) in
      let place : as_u8 i ≡ i = mod-eq_of_lt small in
      let m' : ModuleMetadata = add_error (error_at i n) m in
      let named : (add_all (suc i) ns m').err_idx_map i ≡ some n =
        err_idx_map-add_all i (suc i) ns m' (omega arith) (omega (arith, fit))
        ∙ rw place (rw (==_refl i) refl) in
      let entry : lookup n (add_all (suc i) ns m').errors ≡ some (error_at i n) =
        lookup-add_all n (suc i) ns m' new
        ∙ (lookup-insert n n (error_at i n) m.errors ∙ rw (str_eq_refl n) refl) in
      (
        find_error_at (add_all (suc i) ns m') i n (error_at i n) small named entry,
        AllFound-add_all (suc i) ns m' (omega (arith, fit)) d,
      )

  error_from-made :
      (i : ℕ) (name : Different String) (docs : Documentation)
      → Returns
          (error_from mod_name (as_u8 i) (record { name = name; documentation = docs }))
          (λ e. error_at i (name_of name) ≡ e)
  unfolding error_from lift throw proceed pure decode_meta
  error_from-made i encode docs t e h = cc
  error_from-made i (decoded name) encode t e h = cc
  error_from-made i (decoded name) (decoded docs) t e h = cc

  each_error-add_all :
      (i : ℕ) (raw : EnumVariants) (m : ModuleMetadata) (mds : List ErrorEntry)
      → Returns (each_error mod_name i raw m mds) (λ p. p.1 ≡ add_all i (names_of mds) m)
  unfolding each_error
  each_error-add_all i raw m [] = Returns-pure (raw, m) _ refl
  each_error-add_all i raw m (md ∷ mds) =
      Returns-then (error_from mod_name (as_u8 i) md) _ _ _
        (error_from-made i md.name md.documentation)
        λ e same. Returns-bind (lift (insert_at raw e.error_idx e.name none)) _ _ λ raw' t p h.
          each_error-add_all (suc i) raw' (add_error e m) mds t p h
          ∙ ap (λ x. add_all (suc i) (names_of mds) (add_error x m)) (sym same)

  AllFound-error_ref :
      (i : ℕ) (ns : List String) (m : ModuleMetadata) (r : ℕ)
      → AllFound i ns m
      → AllFound i ns (record m { error_ref = some r })
  unfolding find_error
  AllFound-error_ref i [] m r h = tt
  AllFound-error_ref i (n ∷ ns) m r (found, h) = (found, AllFound-error_ref (suc i) ns m r h)

  with_errors-AllFound :
      (m : ModuleMetadata) (listed : Different (List ErrorEntry)) (mds : List ErrorEntry)
      → decode_meta listed ≡ ok mds
      → length (names_of mds) ≤ 256
      → Distinct (names_of mds)
      → Returns (with_errors mod_name listed m) (AllFound 0 (names_of mds))
  unfolding with_errors
  with_errors-AllFound m listed mds given fit d =
      Returns-then (lift (decode_meta listed)) _ _ _ (Returns-lift (decode_meta listed) mds given)
        λ es same.
          Returns-then (each_error mod_name 0 empty m es) _ _ _ (each_error-add_all 0 empty m es)
            λ (raw, m') added. Returns-bind (insert_meta _ (Meta.enum raw)) _ _ λ r.
              Returns-pure (record m' { error_ref = some r }) _
                (AllFound-error_ref 0 (names_of mds) m' r (
                  subst (AllFound 0 (names_of mds))
                    (sym (added ∙ ap (λ x. add_all 0 (names_of x) m) (sym same)))
                    (AllFound-add_all 0 (names_of mds) m (omega (arith, fit)) d)))

-- The errors of a module that is read are found by their places, where their names are distinct and
-- no more than a byte counts.
pub module_from-AllFound :
    {K : Type 0} (fuel : ℕ) (utf8 : String → List ℕ)
    (hasher_from : K → M (Option KeyHasher × Different String)) (md : ModuleEntry K) (name : String)
    (mds : List ErrorEntry)
    → decode_meta md.name ≡ ok name
    → decode_meta md.errors ≡ ok mds
    → length (names_of mds) ≤ 256
    → Distinct (names_of mds)
    → Returns (module_from fuel utf8 hasher_from md) (AllFound name 0 (names_of mds))
unfolding module_from
module_from-AllFound fuel utf8 hasher_from md name mds named listed fit d =
    Returns-then (lift (decode_meta md.name)) _ _ _ (Returns-lift (decode_meta md.name) name named)
      λ n same.
        Returns-bind (with_calls fuel n md.index md.calls (empty_module n md.index)) _ _ λ m1.
          Returns-bind (with_storage fuel utf8 hasher_from md.storage m1) _ _ λ m2.
            Returns-bind (with_events fuel n md.event m2) _ _ λ m3.
              Returns-bind (with_constants fuel n md.constants m3) _ _ λ m4.
                subst (λ x. Returns (with_errors x md.errors m4) (AllFound name 0 (names_of mds)))
                  same (with_errors-AllFound name m4 md.errors mds listed fit d)
