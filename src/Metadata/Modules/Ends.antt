-- ===== src/Metadata/Modules/Ends.antt =====
-- src/metadata.rs, `ModuleMetadata::from_v14_meta`: reading a module comes to an end.
use sub_script.Prelude.{
  ℕ, ◌<◌, ◌≡◌, refl, String, Option, none, some, List, [], ◌∷◌, Each, inl, inr, Option-cases,
  Result, ok, err, insert,
}
use sub_script.Types.Scan.Weight.{weight}
use mathlib.Core.Path.{subst}
use sub_script.Types.Variants.{EnumVariants, empty}
use sub_script.Types.Meta
use sub_script.Types.Registry.{M, throw, pure, insert_meta}
use sub_script.Types.Registry.Results.{Returns}
use sub_script.Types.Registry.Quiet.{
  Quiet, Quiet-Calm, Quiet-pure, Quiet-bind, Quiet-then, Quiet-insert_meta,
}
use sub_script.Types.Portable.{Variant, PortableType, PortableRegistry}
use sub_script.Types.Portable.Named.{RanksBelow}
use sub_script.Types.Import.{lift}
use sub_script.Types.Parser.{parse_type}
use sub_script.Types.Parser.Ends.{Calm-parse_type}
use sub_script.Metadata.Storage.{StorageMetadata}
use sub_script.Metadata.Legacy.Ends.{Quiet-lift, Quiet-insert_at}
use sub_script.Metadata.Pallets.{
  Strings, StorageEntry, PalletStorage, PalletMetadata, ConstMetadata, func_from, event_from,
  const_from, storage_from, variants_of,
}
use sub_script.Metadata.Pallets.Ends.{
  IsShortType, IsShortVariant, IsShortEntry, Quiet-func_from, Quiet-event_from, Quiet-const_from,
  Quiet-storage_from, Settled-variants_of,
}
use sub_script.Metadata.Modules.{
  ModuleMetadata, empty_module, each_variant, with_calls, each_entry, with_storage, with_events,
  each_const, with_constants, add_error, each_error, with_errors, module_from,
}

abbrev pub IfSome : {A : Type 0} → (A → Type 0) → Option A → Type 0
IfSome P none = Unit
IfSome P (some a) = P a

abbrev pub IfOk : {A : Type 0} → (A → Type 0) → Result A → Type 0
IfOk P (err e) = Unit
IfOk P (ok a) = P a

IfOk-Returns : {A : Type 0} (P : A → Type 0) (r : Result A) → IfOk P r → Returns (lift r) P
unfolding lift pure throw
IfOk-Returns P (ok a) h t b e = let same : a ≡ b = cc in subst P same h
IfOk-Returns P (err x) h t b e = cc

module _ (strs : Strings) (types : PortableRegistry) (fuel : ℕ) where
  module _ {A : Type 0} (from : Variant → M (A × Option ℕ)) (P : Variant → Type 0)
      (from-Quiet : (v : Variant) → P v → Quiet (from v)) where
    Quiet-each_variant :
        (raw : EnumVariants) (acc : List (String × A)) (vs : List Variant)
        → Each P vs
        → Quiet (each_variant strs types fuel from raw acc vs)
    unfolding each_variant
    Quiet-each_variant raw acc [] h = Quiet-pure {A = EnumVariants × List (String × A)} (raw, acc)
    Quiet-each_variant raw acc (v ∷ vs) h = Quiet-bind (from v) _ (from-Quiet v h.0) λ (a, ref).
        Quiet-insert_at raw v.index v.name ref _
          λ raw'. Quiet-each_variant raw' (insert v.name a acc) vs h.1

  Quiet-each_error :
      (name : String) (extra : ℕ) (raw : EnumVariants) (m : ModuleMetadata) (vs : List Variant)
      → Quiet (each_error strs types fuel name extra raw m vs)
  unfolding each_error
  Quiet-each_error name extra raw m [] = Quiet-pure {A = EnumVariants × ModuleMetadata} (raw, m)
  Quiet-each_error name extra raw m (v ∷ vs) =
      Quiet-insert_at raw v.index v.name (some extra) _
        λ raw'. Quiet-each_error name extra raw' (add_error strs types fuel name v m) vs

  Quiet-with_errors :
      (md : PalletMetadata) (m : ModuleMetadata)
      → weight "[u8; 3]" < fuel
      → Quiet (with_errors strs types fuel md m)
  unfolding with_errors
  Quiet-with_errors md m small = elim (Option-cases md.error) [
    | inl e ↦ rw (e, with_errors) (Quiet-pure m)
    | inr (id, e) ↦
        rw (e, with_errors)
          (Quiet-bind (parse_type fuel "[u8; 3]") _
            (Quiet-Calm fuel _ (Calm-parse_type fuel "[u8; 3]" fuel small small))
            λ extra.
              Quiet-bind (lift (variants_of strs types fuel id)) _
                (Quiet-lift _ (Settled-variants_of strs types fuel id))
                λ vs.
                  Quiet-bind (each_error strs types fuel md.name extra empty m vs) _
                    (Quiet-each_error md.name extra empty m vs)
                    λ (raw, m').
                      Quiet-bind (insert_meta _ (Meta.enum raw)) _
                        (Quiet-insert_meta _ (Meta.enum raw) refl)
                        (λ r. Quiet-pure (record m' { error_ref = some r })))
  ]

  -- The texts of a module's types weigh less than the fuel.
  abbrev pub IsShortVariants : ℕ → Type 0
  IsShortVariants id = IfOk (Each (IsShortVariant strs types fuel)) (variants_of strs types fuel id)

  abbrev pub IsShortStorage : PalletStorage → Type 0
  IsShortStorage s = Each (λ e. IsShortEntry strs types fuel e.ty) s.entries

  abbrev pub IsShortPallet : PalletMetadata → Type 0
  IsShortPallet md =
      IfSome IsShortVariants md.calls
      × IfSome IsShortStorage md.storage
      × IfSome IsShortVariants md.event
      × Each (λ c. IsShortType strs types fuel c.1) md.constants

  module _ (rank : ℕ → ℕ)
      (ranked : (id : ℕ) (ty : PortableType)
        → types.resolve id ≡ some ty
        → RanksBelow rank (rank id) ty)
      (low : (id : ℕ) → rank id < fuel) where
    Quiet-with_calls :
        (md : PalletMetadata) (m : ModuleMetadata)
        → IfSome IsShortVariants md.calls
        → Quiet (with_calls strs types fuel md m)
    unfolding with_calls
    Quiet-with_calls md m h = elim (Option-cases md.calls) [
      | inl e ↦ rw (e, with_calls) (Quiet-pure m)
      | inr (id, e) ↦
          rw (e, with_calls)
            (Quiet-then (lift (variants_of strs types fuel id)) _ _
              (Quiet-lift _ (Settled-variants_of strs types fuel id))
              (IfOk-Returns (Each (IsShortVariant strs types fuel)) _ (rw e at h))
              λ vs short.
                Quiet-bind
                  (each_variant strs types fuel (func_from strs types fuel md.name md.index) empty
                    m.funcs vs)
                  _
                  (Quiet-each_variant _ (IsShortVariant strs types fuel)
                    (Quiet-func_from strs types fuel rank ranked low md.name md.index) empty m.funcs
                    vs short)
                  λ (raw, funcs).
                    Quiet-bind (insert_meta _ (Meta.enum raw)) _
                      (Quiet-insert_meta _ (Meta.enum raw) refl)
                      (λ r. Quiet-pure (record m { funcs = funcs; call_ref = some r })))
    ]

    Quiet-with_events :
        (md : PalletMetadata) (m : ModuleMetadata)
        → IfSome IsShortVariants md.event
        → Quiet (with_events strs types fuel md m)
    unfolding with_events
    Quiet-with_events md m h = elim (Option-cases md.event) [
      | inl e ↦ rw (e, with_events) (Quiet-pure m)
      | inr (id, e) ↦
          rw (e, with_events)
            (Quiet-then (lift (variants_of strs types fuel id)) _ _
              (Quiet-lift _ (Settled-variants_of strs types fuel id))
              (IfOk-Returns (Each (IsShortVariant strs types fuel)) _ (rw e at h))
              λ vs short.
                Quiet-bind
                  (each_variant strs types fuel (event_from strs types fuel md.name) empty m.events
                    vs)
                  _
                  (Quiet-each_variant _ (IsShortVariant strs types fuel)
                    (Quiet-event_from strs types fuel rank ranked low md.name) empty m.events vs
                    short)
                  λ (raw, events).
                    Quiet-bind (insert_meta _ (Meta.enum raw)) _
                      (Quiet-insert_meta _ (Meta.enum raw) refl)
                      (λ r. Quiet-pure (record m { events = events; event_ref = some r })))
    ]

    Quiet-each_entry :
        (prefix : String) (acc : List (String × StorageMetadata)) (es : List StorageEntry)
        → Each (λ e. IsShortEntry strs types fuel e.ty) es
        → Quiet (each_entry strs types fuel prefix acc es)
    unfolding each_entry
    Quiet-each_entry prefix acc [] h = Quiet-pure acc
    Quiet-each_entry prefix acc (e ∷ es) h =
        Quiet-bind (storage_from strs types fuel prefix e) _
          (Quiet-storage_from strs types fuel rank ranked low prefix e h.0)
          λ s. Quiet-each_entry prefix (insert e.name s acc) es h.1

    Quiet-with_storage :
        (md : PalletMetadata) (m : ModuleMetadata)
        → IfSome IsShortStorage md.storage
        → Quiet (with_storage strs types fuel md m)
    unfolding with_storage
    Quiet-with_storage md m h = elim (Option-cases md.storage) [
      | inl e ↦ rw (e, with_storage) (Quiet-pure m)
      | inr (st, e) ↦
          rw (e, with_storage)
            (Quiet-bind (each_entry strs types fuel st.prefix m.storage st.entries) _
              (Quiet-each_entry st.prefix m.storage st.entries (rw e at h))
              (λ storage. Quiet-pure (record m { storage = storage; storage_prefix = st.prefix })))
    ]

    Quiet-each_const :
        (name : String) (acc : List (String × ConstMetadata)) (cs : List (String × ℕ))
        → Each (λ c. IsShortType strs types fuel c.1) cs
        → Quiet (each_const strs types fuel name acc cs)
    unfolding each_const
    Quiet-each_const name acc [] h = Quiet-pure acc
    Quiet-each_const name acc ((n, ty) ∷ cs) h =
        Quiet-bind (const_from strs types fuel name (n, ty)) _
          (Quiet-const_from strs types fuel rank ranked low name n ty h.0)
          λ c. Quiet-each_const name (insert n c acc) cs h.1

    pub Quiet-module_from :
        (md : PalletMetadata)
        → weight "[u8; 3]" < fuel
        → IsShortPallet md
        → Quiet (module_from strs types fuel md)
    unfolding module_from with_constants
    Quiet-module_from md small (calls, storage, events, constants) =
        let m0 : ModuleMetadata = empty_module md.name md.index in
        Quiet-bind (with_calls strs types fuel md m0) _ (Quiet-with_calls md m0 calls) λ m1.
          Quiet-bind (with_storage strs types fuel md m1) _ (Quiet-with_storage md m1 storage) λ m2.
            Quiet-bind (with_events strs types fuel md m2) _ (Quiet-with_events md m2 events) λ m3.
              Quiet-bind (with_constants strs types fuel md m3) _
                (Quiet-bind (each_const strs types fuel md.name m3.constants md.constants) _
                  (Quiet-each_const md.name m3.constants md.constants constants)
                  (λ cs. Quiet-pure (record m3 { constants = cs })))
                λ m4. Quiet-with_errors md m4 small
