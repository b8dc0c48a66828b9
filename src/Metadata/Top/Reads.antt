-- ===== src/Metadata/Top/Reads.antt =====
-- src/metadata.rs, `Metadata::from_v14_metadata`: a description is read to an end, and the errors of its modules
-- are found.
use sub_script.Prelude.{Each, ℕ, ◌<◌, ◌≡◌, refl, String, some, List, lookup, Result, ok, err}
use sub_script.Types.Scan.Weight.{weight}
use sub_script.Types.Registry.{Types, M, ◌>>=◌, proceed, pure}
use sub_script.Types.Registry.Keeps.{Settled, IsReported}
use sub_script.Types.Registry.Results.{Returns, Returns-pure, Returns-bind, Returns-then}
use sub_script.Types.Registry.Quiet.{Quiet, IsUnlocked-Keeps, Quiet-pure, Quiet-bind}
use sub_script.Types.Portable.{PortableType, PortableRegistry}
use sub_script.Types.Portable.Named.{RanksBelow}
use sub_script.Types.Import.{import_v14_types}
use sub_script.Types.Import.Resolved.{Distinct, import_v14_types-Imports}
use sub_script.Types.Import.Sound.{IsSound}
use sub_script.Types.Import.Ends.{AllRanked, Free-import_v14_types}
use sub_script.Metadata.Pallets.{Strings, PalletMetadata}
use sub_script.Metadata.Modules.{module_from}
use sub_script.Metadata.Modules.Ends.{IsShortPallet, Quiet-module_from}
use sub_script.Metadata.Modules.Named.{HasDistinctErrors, FindsErrors, module_from-IsRead}
use sub_script.Metadata.Top.{
  Metadata, no_types, no_modules, each_module, insert_events, insert_call, from_v14_metadata,
}
use sub_script.Metadata.Top.Found.{Apart, AllThere, each_module-AllThere}
use sub_script.Metadata.Top.Ends.{Quiet-each_module, Quiet-insert_events, Quiet-insert_call}

module _ (strs : Strings) (types : PortableRegistry) (fuel : ℕ)
    (pallets : List PalletMetadata) where
  -- Each module stands under its name, and its errors are found by its index and theirs.
  abbrev pub FindsAll : Metadata → Type 0
  FindsAll api = AllThere (λ md. md.name) (λ md. md.index) (FindsErrors strs types fuel) api pallets

  -- No two modules have one name or one index.
  abbrev pub IsApart : Type 0
  IsApart = Apart (λ md. md.name) (λ md. md.index) (FindsErrors strs types fuel) pallets

  -- What reading a description comes to: an error of its own, or metadata in which all is found.
  abbrev pub IsDone : Result Metadata → Type 0
  IsDone (ok api) = FindsAll api
  IsDone (err e) = IsReported e

  -- what is done after the import
  abbrev read_modules : M Metadata
  read_modules = do
    (top, api) ← each_module (module_from strs types fuel) no_types no_modules pallets
    e ← insert_events top
    c ← insert_call top
    pure api

  read_modules-FindsAll :
      Each (HasDistinctErrors strs types fuel) pallets → IsApart → Returns read_modules FindsAll
  read_modules-FindsAll few apart =
      Returns-then (each_module (module_from strs types fuel) no_types no_modules pallets) _ _ _
        (each_module-AllThere (λ md. md.name) (λ md. md.index) (FindsErrors strs types fuel)
          (module_from strs types fuel) (HasDistinctErrors strs types fuel)
          (module_from-IsRead strs types fuel) no_types no_modules pallets few apart)
        λ (top, api) (there, kept).
          Returns-bind (insert_events top) _ _
            λ e. Returns-bind (insert_call top) _ _ λ c. Returns-pure api FindsAll there

  module _ (rank : ℕ → ℕ)
      (ranked : (id : ℕ) (ty : PortableType)
        → types.resolve id ≡ some ty
        → RanksBelow rank (rank id) ty)
      (low : (id : ℕ) → rank id < fuel) (small : weight "[u8; 3]" < fuel)
      (short : Each (IsShortPallet strs types fuel) pallets) where
    Quiet-read_modules : Quiet read_modules
    Quiet-read_modules =
        Quiet-bind (each_module (module_from strs types fuel) no_types no_modules pallets) _
          (Quiet-each_module (module_from strs types fuel) (IsShortPallet strs types fuel)
            (λ md h. Quiet-module_from strs types fuel rank ranked low md small h) no_types
            no_modules pallets short)
          λ (top, api).
            Quiet-bind (insert_events top) _ (Quiet-insert_events top)
              λ e. Quiet-bind (insert_call top) _ (Quiet-insert_call top) (λ c. Quiet-pure api)

abbrev Kept : Types → Types → Type 0
Kept t t' = (k : String) (r : ℕ) → lookup k t.types ≡ some r → lookup k t'.types ≡ some r

-- A version 14 description with distinct ids of types; what the name of a type is made of ranks below
-- the type, and all ranks are below the fuel, as are the weights of the texts of the types that
-- modules use; modules have distinct names and distinct indices of a byte, and the errors of each
-- have distinct names and distinct indices of a byte. Reading it into a well-formed registry without
-- locks ends, with an error of its own or with metadata in which each module stands under its name
-- and, under its index and the index of an error, that error is found; never for want of fuel and
-- never in a deadlock. In both cases the registry is well-formed and without locks, and names keep
-- their cells.
pub from_v14_metadata_lem :
    (strs : Strings) (types : PortableRegistry) (fuel : ℕ) (pallets : List PalletMetadata)
    (rank : ℕ → ℕ) (n : ℕ) (t : Types)
    → ((id : ℕ) (ty : PortableType) → types.resolve id ≡ some ty → RanksBelow rank (rank id) ty)
    → ((id : ℕ) → rank id < fuel)
    → AllRanked rank n types.types
    → n < fuel
    → Distinct types.types
    → weight "[u8; 3]" < fuel
    → Each (IsShortPallet strs types fuel) pallets
    → Each (HasDistinctErrors strs types fuel) pallets
    → IsApart strs types fuel pallets
    → IsSound t
    → IsDone strs types fuel pallets (from_v14_metadata strs types fuel pallets t).1
      × IsSound (from_v14_metadata strs types fuel pallets t).0
      × ((k : String) (r : ℕ)
          → lookup k t.types ≡ some r
          → lookup k (from_v14_metadata strs types fuel pallets t).0.types ≡ some r)
unfolding from_v14_metadata proceed
from_v14_metadata_lem strs types fuel pallets rank n t ranked low all enough distinct small short
      few apart sound =
    let (free, settled) =
      Free-import_v14_types strs.show types fuel rank n ranked enough all t sound in
    let (kept, done) = import_v14_types-Imports strs.show types fuel t distinct in
    go (import_v14_types strs.show types fuel t) free settled kept
  where
    finished :
        (p : Result Metadata)
        → Settled p
        → ((api : Metadata) → p ≡ ok api → FindsAll strs types fuel pallets api)
        → IsDone strs types fuel pallets p
    finished (ok api) s d = d api refl
    finished (err e) s d = s

    after :
        (t' : Types)
        → Kept t t'
        → IsSound t'
        → IsDone strs types fuel pallets (read_modules strs types fuel pallets t').1
          × IsSound (read_modules strs types fuel pallets t').0
          × Kept t (read_modules strs types fuel pallets t').0
    after t' kept (v, u) =
        let (k, s) =
          Quiet-read_modules strs types fuel pallets rank ranked low small short t' v u in
        (
          finished (read_modules strs types fuel pallets t').1 s
              (read_modules-FindsAll strs types fuel pallets few apart t'),
          (k.wf, IsUnlocked-Keeps t' (read_modules strs types fuel pallets t').0 k u),
          (λ key r l. k.names key r (kept key r l)),
        )

    go :
        (p : Types × Result (Unit {0}))
        → IsSound p.0
        → Settled p.1
        → Kept t p.0
        → IsDone strs types fuel pallets (proceed p (λ x. read_modules strs types fuel pallets)).1
          × IsSound (proceed p (λ x. read_modules strs types fuel pallets)).0
          × Kept t (proceed p (λ x. read_modules strs types fuel pallets)).0
    go (t', ok x) s settled kept = after t' kept s
    go (t', err e) s settled kept = (settled, s, kept)
