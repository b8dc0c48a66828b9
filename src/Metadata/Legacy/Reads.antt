-- ===== src/Metadata/Legacy/Reads.antt =====
-- src/metadata.rs, `Metadata::{from_v12_metadata, from_v13_metadata}`: a description is read to an end, and the
-- errors of its modules are found.
use sub_script.Prelude.{Each, ℕ, ◌≡◌, refl, String, Option, some, List, lookup, Result, ok, err}
use sub_script.Types.Registry.{Types, M, ◌>>=◌, pure}
use sub_script.Types.Registry.Keeps.{Wf, Settled, IsReported}
use sub_script.Types.Registry.Results.{Returns, Returns-pure, Returns-bind, Returns-then}
use sub_script.Types.Registry.Quiet.{Quiet, IsUnlocked, IsUnlocked-Keeps, Quiet-pure, Quiet-bind}
use sub_script.Metadata.Hasher.{KeyHasher}
use sub_script.Metadata.Legacy.{Different}
use sub_script.Metadata.Legacy.Modules.{ModuleEntry, module_from}
use sub_script.Metadata.Legacy.Modules.Ends.{KeyReader, IsShortModule, Quiet-module_from}
use sub_script.Metadata.Legacy.Modules.Errors.{name_of}
use sub_script.Metadata.Legacy.Modules.Named.{HasFewErrors, FindsErrors, module_from-IsRead}
use sub_script.Metadata.Top.{Metadata, TopTypes, no_types, no_modules, each_module, insert_events}
use sub_script.Metadata.Top.Found.{Apart, AllThere, each_module-AllThere}
use sub_script.Metadata.Top.Ends.{Quiet-each_module, Quiet-insert_events}

-- Each module stands under its name, and its errors are found by its index and theirs.
abbrev pub FindsAll : {K : Type 0} → Metadata → List (ModuleEntry K) → Type 0
FindsAll api mds = AllThere (λ md. name_of md.name) (λ md. md.index) FindsErrors api mds

-- No two modules have one name or one index.
abbrev pub IsApart : {K : Type 0} → List (ModuleEntry K) → Type 0
IsApart = Apart (λ md. name_of md.name) (λ md. md.index) FindsErrors

-- What reading a description comes to: an error of its own, or metadata in which all is found.
abbrev pub IsDone : {K : Type 0} → List (ModuleEntry K) → Result Metadata → Type 0
IsDone mds (ok api) = FindsAll api mds
IsDone mds (err e) = IsReported e

-- `finish` registers the type of calls as the version has it.
module _ {K : Type 0} (fuel : ℕ) (utf8 : String → List ℕ)
    (hasher_from : K → M (Option KeyHasher × Different String))
    (reader : KeyReader K fuel hasher_from) (finish : TopTypes → M ℕ)
    (finish-Quiet : (top : TopTypes) → Quiet (finish top)) (mds : List (ModuleEntry K)) where
  abbrev pub read_all : M Metadata
  read_all = do
    (top, api) ← each_module (module_from fuel utf8 hasher_from) no_types no_modules mds
    e ← insert_events top
    c ← finish top
    pure api

  read_all-FindsAll :
      Each HasFewErrors mds → IsApart mds → Returns read_all (λ api. FindsAll api mds)
  read_all-FindsAll few apart =
      Returns-then (each_module (module_from fuel utf8 hasher_from) no_types no_modules mds) _ _ _
        (each_module-AllThere (λ md. name_of md.name) (λ md. md.index) FindsErrors
          (module_from fuel utf8 hasher_from) HasFewErrors
          (module_from-IsRead fuel utf8 hasher_from) no_types no_modules mds few apart)
        λ (top, api) (there, kept).
          Returns-bind (insert_events top) _ _
            λ e. Returns-bind (finish top) _ _ λ c. Returns-pure api _ there

  Quiet-read_all : Each (IsShortModule fuel reader.IsShortKey) mds → Quiet read_all
  Quiet-read_all short =
      Quiet-bind (each_module (module_from fuel utf8 hasher_from) no_types no_modules mds) _
        (Quiet-each_module (module_from fuel utf8 hasher_from)
          (IsShortModule fuel reader.IsShortKey) (Quiet-module_from fuel utf8 hasher_from reader)
          no_types no_modules mds short)
        λ (top, api).
          Quiet-bind (insert_events top) _ (Quiet-insert_events top)
            λ e. Quiet-bind (finish top) _ (finish-Quiet top) (λ c. Quiet-pure api)

  pub read_all_lem :
      (t : Types)
      → Each (IsShortModule fuel reader.IsShortKey) mds
      → Each HasFewErrors mds
      → IsApart mds
      → Wf t
      → IsUnlocked t
      → IsDone mds (read_all t).1
        × Wf (read_all t).0
        × IsUnlocked (read_all t).0
        × ((k : String) (r : ℕ)
            → lookup k t.types ≡ some r
            → lookup k (read_all t).0.types ≡ some r)
  read_all_lem t short few apart v u =
      let (k, s) = Quiet-read_all short t v u in
      (
        go (read_all t).1 s (read_all-FindsAll few apart t),
        k.wf,
        IsUnlocked-Keeps t (read_all t).0 k u,
        k.names,
      )
    where
      go :
          (p : Result Metadata)
          → Settled p
          → ((api : Metadata) → p ≡ ok api → FindsAll api mds)
          → IsDone mds p
      go (ok api) s d = d api refl
      go (err e) s d = s
