-- ===== src/Metadata/Top/Found.antt =====
-- src/metadata.rs, `Metadata::find_error`: the modules that were read are found by their indices.
use sub_script.Prelude.{
  Each, ℕ, ◌<◌, ◌%◌, ◌^◌, ◌≡◌, refl, sym, ap, ◌∙◌, ==_refl, String, str_eq, str_eq_refl, some,
  false, List, [], ◌∷◌, ◌==◌, lookup, lookup-insert, insert, ℤ, pos,
}
use native.Mathlib.Nat.{mod-eq_of_lt}
use sub_script.Types.Variants.{insert_at}
use sub_script.Types.Registry.{M, store}
use sub_script.Types.Registry.Results.{Returns, Returns-pure, Returns-bind, Returns-then}
use sub_script.Types.Import.{lift}
use sub_script.Metadata.Modules.{ModuleMetadata, find_error}
use sub_script.Metadata.Top.{Metadata, TopTypes, each_module, error_in, find_module_error}

-- The descriptions of modules by what is asked of them: a name, an index, and what holds of the
-- module that is read.
module _ {D : Type 0} (name_of : D → String) (index_of : D → ℕ)
    (Good : D → ModuleMetadata → Type 0) where
  abbrev IsOther : String → ℕ → List D → Type 0
  IsOther n i [] = Unit
  IsOther n i (md ∷ mds) =
      (str_eq (name_of md) n ≡ false) × ((index_of md == i) ≡ false) × IsOther n i mds

  -- Names and indices are distinct, and an index is a byte.
  abbrev pub Apart : List D → Type 0
  Apart [] = Unit
  Apart (md ∷ mds) = (index_of md < 256) × IsOther (name_of md) (index_of md) mds × Apart mds

  abbrev pub IsRead : D → ModuleMetadata → Type 0
  IsRead md m = (name_of md ≡ m.name) × (index_of md ≡ m.index) × Good md m

  -- Each module is there, under its name, and the errors found under its index are its own.
  abbrev pub AllThere : Metadata → List D → Type 0
  AllThere api [] = Unit
  AllThere api (md ∷ mds) =
      ((m : ModuleMetadata) × Good md m
        × (lookup (name_of md) api.modules ≡ some m)
        × ((e : ℤ) → find_module_error api (pos (index_of md)) e ≡ find_error m e))
      × AllThere api mds

  -- the lookups that stay as they are
  abbrev IsKept : Metadata → Metadata → List D → Type 0
  IsKept api api' mds =
      (n : String) (i : ℕ)
      → IsOther n i mds
      → (lookup n api'.modules ≡ lookup n api.modules) × (api'.idx_map i ≡ api.idx_map i)

  find_module_error_at :
      (api : Metadata) (n : String) (i : ℕ) (m : ModuleMetadata)
      → i < 256
      → api.idx_map i ≡ some n
      → lookup n api.modules ≡ some m
      → (e : ℤ) → find_module_error api (pos i) e ≡ find_error m e
  unfolding find_module_error
  find_module_error_at api n i m small at entry e =
      let key : api.idx_map (i % 2 ^ 8) ≡ some n = ap api.idx_map (mod-eq_of_lt small) ∙ at in
      rw (key, find_module_error) (ap (λ o. error_in o e) entry)

  module _ (read : D → M ModuleMetadata) (P : D → Type 0)
      (reads : (md : D) → P md → Returns (read md) (IsRead md)) where
    abbrev added : Metadata → ModuleMetadata → Metadata
    added api m = record {
      modules = insert m.name m api.modules;
      idx_map = store m.index (some m.name) api.idx_map;
    }

    IsKept-added :
        (api api' : Metadata) (m : ModuleMetadata) (md : D) (mds : List D)
        → name_of md ≡ m.name
        → index_of md ≡ m.index
        → IsKept (added api m) api' mds
        → IsKept api api' (md ∷ mds)
    IsKept-added api api' m md mds named index kept n i (other, apart, h) =
        let (modules, idx) = kept n i h in
        let name : str_eq m.name n ≡ false = rw (← named) other in
        let at : (m.index == i) ≡ false = rw (← index) apart in
        (modules ∙ (lookup-insert m.name n m api.modules ∙ rw name refl), idx ∙ rw at refl)

    AllThere-added :
        (api api' : Metadata) (m : ModuleMetadata) (md : D) (mds : List D)
        → IsRead md m
        → Apart (md ∷ mds)
        → AllThere api' mds × IsKept (added api m) api' mds
        → AllThere api' (md ∷ mds) × IsKept api api' (md ∷ mds)
    AllThere-added api api' m md mds (named, index, good) (small, other, d) (there, kept) =
        let (modules, idx) = kept (name_of md) (index_of md) other in
        let entry : lookup (name_of md) api'.modules ≡ some m =
          modules
          ∙ (lookup-insert m.name (name_of md) m api.modules
              ∙ rw (named, str_eq_refl m.name) refl) in
        let at : api'.idx_map (index_of md) ≡ some (name_of md) =
          idx ∙ rw (index, ==_refl m.index) (ap some (sym named)) in
        (
          (
            (m, good, entry, find_module_error_at api' (name_of md) (index_of md) m small at entry),
            there,
          ),
          IsKept-added api api' m md mds named index kept,
        )

    pub each_module-AllThere :
        (top : TopTypes) (api : Metadata) (mds : List D)
        → Each P mds
        → Apart mds
        → Returns (each_module read top api mds) (λ p. AllThere p.1 mds × IsKept api p.1 mds)
    unfolding each_module
    each_module-AllThere top api [] h d = Returns-pure (top, api) _ (tt, λ n i h. (refl, refl))
    each_module-AllThere top api (md ∷ mds) h (small, other, d) =
        Returns-then (read md) _ (IsRead md) _ (reads md h.0) λ m (named, index, good).
          Returns-bind (lift (insert_at top.mod_events m.index m.name m.event_ref)) _ _ λ es.
            Returns-bind (lift (insert_at top.mod_errors m.index m.name m.error_ref)) _ _ λ rs.
              Returns-bind (lift (insert_at top.mod_calls m.index m.name m.call_ref)) _ _ λ cs.
                λ t p done.
                  AllThere-added api p.1 m md mds (named, index, good) (small, other, d)
                    (each_module-AllThere
                      (record { mod_events = es; mod_errors = rs; mod_calls = cs }) (added api m)
                      mds h.1 d t p done)
