-- ===== src/Tests/Versions.antt =====
-- Reading the metadata of a chain, at concrete descriptions of the versions 12 and 13.
use sub_script.Prelude.{ℕ, ◌≡◌, refl, String, none, some, List, [], ◌∷◌, Each, lookup, arith}
use sub_script.Types.Scan.{is_space}
use sub_script.Types.Scan.Weight.{weight}
use sub_script.Types.Registry.{new}
use sub_script.Types.Registry.Keeps.{Wf}
use sub_script.Types.Registry.Quiet.{IsUnlocked}
use sub_script.Metadata.Hasher
use sub_script.Metadata.Legacy.{decoded, ErrorEntry}
use sub_script.Metadata.Legacy.Modules.{ModuleEntry}
use sub_script.Metadata.Legacy.Modules.Ends.{IsShortModule}
use sub_script.Metadata.Legacy.Modules.Named.{HasFewErrors}
use sub_script.Metadata.Legacy.Reads.{IsApart, IsDone}
use sub_script.Metadata.V12
use sub_script.Metadata.V12.{from_v12_metadata}
use sub_script.Metadata.V12.Ends as Ends12
use sub_script.Metadata.V12.Reads.{from_v12_metadata_lem}
use sub_script.Metadata.V13
use sub_script.Metadata.V13.{from_v13_metadata}
use sub_script.Metadata.V13.Ends as Ends13
use sub_script.Metadata.V13.Reads.{from_v13_metadata_lem}

new-Wf : Wf new
unfolding new lookup
new-Wf = record { bound = λ k r l. cc; own = λ k r d l c. cc; free = λ r le. refl }

new-IsUnlocked : IsUnlocked new
unfolding new
new-IsUnlocked r = refl

abbrev error : String → ErrorEntry
error name = record { name = decoded name; documentation = decoded [] }

-- a module with one item of storage, a call and two errors
abbrev module_of : {K : Type 0} → String → ℕ → K → ModuleEntry K
module_of name index ty = record {
  name = decoded name;
  index = index;
  storage = some (
      decoded (record {
        prefix = decoded name;
        entries =
            decoded (record { name = decoded "Items"; ty = ty; documentation = decoded [] } ∷ []);
      }));
  calls = some (
      decoded (
        record {
          name = decoded "set";
          arguments = decoded (record { name = decoded "value"; ty = decoded "u128" } ∷ []);
          documentation = decoded [];
        }
        ∷ []));
  event = none;
  constants = decoded [];
  errors = decoded (error "TooLow" ∷ error "TooHigh" ∷ []);
}

abbrev modules_v12 : List (ModuleEntry V12.StorageEntryType)
modules_v12 =
    module_of "System" 0 (V12.plain (decoded "u32"))
    ∷ module_of "Balances" 5 (V12.map Hasher.twox_64_concat (decoded "u8") (decoded "u128"))
    ∷ []

abbrev modules_v13 : List (ModuleEntry V13.StorageEntryType)
modules_v13 =
    module_of "System" 0 (V13.plain (decoded "u32"))
    ∷ module_of "Balances" 5
        (V13.n_map (decoded (Hasher.identity ∷ [])) (decoded ("u8" ∷ [])) (decoded "u128"))
    ∷ []

short_v12 : Each (IsShortModule 6 (Ends12.IsShortKey 6)) modules_v12
unfolding weight is_space
short_v12 = (
  (((omega arith, tt), tt), (omega arith, tt), tt, tt),
  ((((omega arith, tt), tt), ((omega arith, omega arith), tt), tt, tt), tt),
)

short_v13 : Each (IsShortModule 6 (Ends13.IsShortKey 6)) modules_v13
unfolding weight is_space
short_v13 = (
  (((omega arith, tt), tt), (omega arith, tt), tt, tt),
  ((((omega arith, tt), tt), (((omega arith, tt), omega arith), tt), tt, tt), tt),
)

few_errors_v12 : Each HasFewErrors modules_v12
few_errors_v12 =
    ((omega arith, ((refl, tt), (tt, tt))), ((omega arith, ((refl, tt), (tt, tt))), tt))

few_errors_v13 : Each HasFewErrors modules_v13
few_errors_v13 =
    ((omega arith, ((refl, tt), (tt, tt))), ((omega arith, ((refl, tt), (tt, tt))), tt))

apart_v12 : IsApart modules_v12
apart_v12 = (omega arith, (refl, refl, tt), (omega arith, tt, tt))

apart_v13 : IsApart modules_v13
apart_v13 = (omega arith, (refl, refl, tt), (omega arith, tt, tt))

from_v12_metadata_lem_example :
    IsDone modules_v12 (from_v12_metadata 6 (λ s. []) modules_v12 new).1
    × Wf (from_v12_metadata 6 (λ s. []) modules_v12 new).0
    × IsUnlocked (from_v12_metadata 6 (λ s. []) modules_v12 new).0
    × ((k : String) (r : ℕ)
        → lookup k new.types ≡ some r
        → lookup k (from_v12_metadata 6 (λ s. []) modules_v12 new).0.types ≡ some r)
from_v12_metadata_lem_example =
    from_v12_metadata_lem 6 (λ s. []) modules_v12 new short_v12 few_errors_v12 apart_v12 new-Wf
      new-IsUnlocked

from_v13_metadata_lem_example :
    IsDone modules_v13 (from_v13_metadata 6 (λ s. []) modules_v13 new).1
    × Wf (from_v13_metadata 6 (λ s. []) modules_v13 new).0
    × IsUnlocked (from_v13_metadata 6 (λ s. []) modules_v13 new).0
    × ((k : String) (r : ℕ)
        → lookup k new.types ≡ some r
        → lookup k (from_v13_metadata 6 (λ s. []) modules_v13 new).0.types ≡ some r)
from_v13_metadata_lem_example =
    from_v13_metadata_lem 6 (λ s. []) modules_v13 new short_v13 few_errors_v13 apart_v13 new-Wf
      new-IsUnlocked
