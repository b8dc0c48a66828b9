-- ===== src/Metadata/V13/Reads.antt =====
-- src/metadata.rs, `Metadata::from_v13_metadata`: a description is read to an end, and the errors of its modules
-- are found.
use sub_script.Prelude.{Each, ℕ, ◌≡◌, String, List, lookup, some}
use sub_script.Types.Registry.{Types}
use sub_script.Types.Registry.Keeps.{Wf}
use sub_script.Types.Registry.Quiet.{IsUnlocked}
use sub_script.Metadata.Legacy.Modules.{ModuleEntry}
use sub_script.Metadata.Legacy.Modules.Ends.{IsShortModule}
use sub_script.Metadata.Legacy.Modules.Named.{HasFewErrors}
use sub_script.Metadata.Legacy.Reads.{IsApart, IsDone, read_all_lem}
use sub_script.Metadata.Top.{insert_call}
use sub_script.Metadata.Top.Ends.{Quiet-insert_call}
use sub_script.Metadata.V13.{StorageEntryType, hasher_from, from_v13_metadata}
use sub_script.Metadata.V13.Ends.{IsShortKey, v13_reader}

-- A version 13 description whose texts weigh less than the fuel, whose modules have distinct names and
-- distinct indices of a byte, and whose modules each have at most 256 errors with distinct names,
-- is read into a well-formed registry without locks. Reading ends, with an error of its own or with
-- metadata in which each module stands under its name and, under its index and the place of an
-- error in its list, that error is found; never for want of fuel and never in a deadlock. In both
-- cases the registry is well-formed and without locks, and names keep their cells.
pub from_v13_metadata_lem :
    (fuel : ℕ) (utf8 : String → List ℕ) (mds : List (ModuleEntry StorageEntryType)) (t : Types)
    → Each (IsShortModule fuel (IsShortKey fuel)) mds
    → Each HasFewErrors mds
    → IsApart mds
    → Wf t
    → IsUnlocked t
    → IsDone mds (from_v13_metadata fuel utf8 mds t).1
      × Wf (from_v13_metadata fuel utf8 mds t).0
      × IsUnlocked (from_v13_metadata fuel utf8 mds t).0
      × ((k : String) (r : ℕ)
          → lookup k t.types ≡ some r
          → lookup k (from_v13_metadata fuel utf8 mds t).0.types ≡ some r)
unfolding from_v13_metadata
from_v13_metadata_lem fuel utf8 mds t =
    read_all_lem fuel utf8 (hasher_from fuel) (v13_reader fuel) insert_call Quiet-insert_call mds t
