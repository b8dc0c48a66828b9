-- ===== src/Tests/Modules.antt =====
-- Reading the metadata of a chain, at a concrete description of version 14.
use sub_script.Prelude.{
  ℕ, ◌<◌, ◌≡◌, refl, String, none, some, List, [], ◌∷◌, Each, false, lookup, arith,
}
use mathlib.Core.Path.{subst}
use sub_script.Types.Portable.{Variant, variant, PortableType, PortableRegistry}
use sub_script.Types.Portable.Named.{RanksBelow}
use sub_script.Types.Scan.{is_space}
use sub_script.Types.Scan.Weight.{weight}
use sub_script.Types.Registry.{new}
use sub_script.Types.Registry.Keeps.{Wf}
use sub_script.Types.Import.Sound.{IsSound}
use sub_script.Metadata.Pallets.{Strings, PalletMetadata, variants_of}
use sub_script.Metadata.Modules.Ends.{IsShortPallet}
use sub_script.Metadata.Modules.Named.{HasDistinctErrors}
use sub_script.Metadata.Top.{from_v14_metadata}
use sub_script.Metadata.Top.Reads.{IsApart, IsDone, from_v14_metadata_lem}

abbrev strs : Strings
strs = record {
  utf8 = λ s. [];
  byte_len = λ s. 0;
  byte_slice = λ s i j. none;
  starts_with = λ s p. false;
  show = λ n. "0";
}

abbrev errors : List Variant
errors =
    record { name = "TooLow"; index = 0; fields = [] }
    ∷ record { name = "TooHigh"; index = 3; fields = [] }
    ∷ []

abbrev error_type : PortableType
error_type = record {
  path = "Error";
  ident = some "Error";
  type_params = [];
  type_def = variant errors;
}

abbrev registry : PortableRegistry
registry = record { types = []; resolve = λ id. some error_type }

abbrev pallet : PalletMetadata
pallet = record {
  name = "Balances";
  index = 5;
  storage = none;
  calls = none;
  event = none;
  constants = [];
  error = some 9;
}

abbrev system : PalletMetadata
system = record {
  name = "System";
  index = 0;
  storage = none;
  calls = some 9;
  event = none;
  constants = [];
  error = none;
}

abbrev pallets : List PalletMetadata
pallets = pallet ∷ system ∷ []

new-Wf : Wf new
unfolding new lookup
new-Wf = record { bound = λ k r l. cc; own = λ k r d l c. cc; free = λ r le. refl }

new_unlocked : (r : ℕ) → new.locked r ≡ false
unfolding new
new_unlocked r = refl

ranked : (id : ℕ) (ty : PortableType) → registry.resolve id ≡ some ty → RanksBelow (λ i. 0) 0 ty
ranked id ty h = let same : error_type ≡ ty = cc in subst (RanksBelow (λ i. 0) 0) same (tt, tt)

slice_fits : weight "[u8; 3]" < 9
unfolding weight is_space
slice_fits = omega arith

pallets_short : Each (IsShortPallet strs registry 9) pallets
unfolding variants_of
pallets_short = ((tt, tt, tt, tt), (((tt, (tt, tt)), tt, tt, tt), tt))

errors_apart : Each (HasDistinctErrors strs registry 9) pallets
unfolding variants_of
errors_apart = ((omega arith, (refl, refl, tt), (omega arith, tt, tt)), (tt, tt))

pallets_apart : IsApart strs registry 9 pallets
pallets_apart = (omega arith, (refl, refl, tt), (omega arith, tt, tt))

from_v14_metadata_lem_example :
    IsDone strs registry 9 pallets (from_v14_metadata strs registry 9 pallets new).1
    × IsSound (from_v14_metadata strs registry 9 pallets new).0
    × ((k : String) (r : ℕ)
        → lookup k new.types ≡ some r
        → lookup k (from_v14_metadata strs registry 9 pallets new).0.types ≡ some r)
from_v14_metadata_lem_example =
    from_v14_metadata_lem strs registry 9 pallets (λ i. 0) 0 new ranked (λ id. omega arith) tt
      (omega arith) tt slice_fits pallets_short errors_apart pallets_apart (new-Wf, new_unlocked)
