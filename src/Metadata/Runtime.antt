-- ===== src/Metadata/Runtime.antt =====
-- src/metadata.rs, `Metadata::from_runtime_metadata`: the version of a description chooses how it is read. The
-- prefix that each version wants is `frame_metadata`'s.
use sub_script.Prelude.{ℕ, List, ◌==◌, if◌then◌else◌, invalid_prefix, unsupported_version}
use sub_script.Types.Registry.{M, throw}
use sub_script.Types.Portable.{PortableRegistry}
use sub_script.Metadata.Pallets.{Strings, PalletMetadata}
use sub_script.Metadata.Legacy.Modules.{ModuleEntry}
use sub_script.Metadata.Top.{Metadata, from_v14_metadata}
use sub_script.Metadata.V12
use sub_script.Metadata.V12.{from_v12_metadata}
use sub_script.Metadata.V13
use sub_script.Metadata.V13.{from_v13_metadata}

pub data RuntimeMetadata : Type 0 where
  v12 : List (ModuleEntry V12.StorageEntryType) → RuntimeMetadata
  v13 : List (ModuleEntry V13.StorageEntryType) → RuntimeMetadata
  v14 : (types : PortableRegistry) (pallets : List PalletMetadata) → RuntimeMetadata
  other : RuntimeMetadata

-- `META_RESERVED` of each version
pub record Reserved : Type 0 where
  pub reserved_v12 : ℕ
  pub reserved_v13 : ℕ
  pub reserved_v14 : ℕ

abbrev pub if_reserved : ℕ → ℕ → M Metadata → M Metadata
if_reserved wanted prefix read = if prefix == wanted then read else throw invalid_prefix

-- all three versions are compiled in
unfoldable pub from_runtime_metadata : Strings → Reserved → ℕ → ℕ → RuntimeMetadata → M Metadata
unfolding throw from_v12_metadata from_v13_metadata from_v14_metadata
from_runtime_metadata strs res fuel prefix (v12 mds) =
    if_reserved res.reserved_v12 prefix (from_v12_metadata fuel strs.utf8 mds)
from_runtime_metadata strs res fuel prefix (v13 mds) =
    if_reserved res.reserved_v13 prefix (from_v13_metadata fuel strs.utf8 mds)
from_runtime_metadata strs res fuel prefix (v14 types pallets) =
    if_reserved res.reserved_v14 prefix (from_v14_metadata strs types fuel pallets)
from_runtime_metadata strs res fuel prefix other = throw unsupported_version
