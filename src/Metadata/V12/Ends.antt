-- ===== src/Metadata/V12/Ends.antt =====
-- src/metadata.rs, `StorageMetadata::from_v12_meta`: the key types of storage are read to an end.
use sub_script.Prelude.{ℕ, String, Option, none, some, [], ◌∷◌}
use sub_script.Types.Registry.Results.{Returns, Returns-pure, Returns-bind}
use sub_script.Types.Registry.Quiet.{Quiet, Quiet-pure, Quiet-bind}
use sub_script.Metadata.Hasher.{KeyHasher}
use sub_script.Metadata.Legacy.{Different}
use sub_script.Metadata.Legacy.Ends.{If, IsShort, Quiet-decoded, Quiet-named_type}
use sub_script.Metadata.Legacy.Modules.Ends.{KeyReader}
use sub_script.Metadata.V12.{StorageEntryType, plain, map, double_map, key_type, hasher_from}

abbrev pub IsShortKey : ℕ → StorageEntryType → Type 0
IsShortKey w (plain value) = If (IsShort w) value
IsShortKey w (map hasher key value) = If (IsShort w) key × If (IsShort w) value
IsShortKey w (double_map hasher key1 key2_hasher key2 value) =
    If (IsShort w) key1 × If (IsShort w) key2 × If (IsShort w) value

module _ (fuel : ℕ) where
  Quiet-key_type : (key : Different String) → If (IsShort fuel) key → Quiet (key_type fuel key)
  unfolding key_type
  Quiet-key_type key h = Quiet-decoded key _ _ h (Quiet-named_type fuel)

  pub Quiet-hasher_from : (k : StorageEntryType) → IsShortKey fuel k → Quiet (hasher_from fuel k)
  unfolding hasher_from
  Quiet-hasher_from (plain value) h =
      Quiet-pure {A = Option KeyHasher × Different String} (none, value)
  Quiet-hasher_from (map hasher key value) h =
      Quiet-bind (key_type fuel key) _ (Quiet-key_type key h.0)
        λ ty. Quiet-pure {A = Option KeyHasher × Different String} (some ((ty, hasher) ∷ []), value)
  Quiet-hasher_from (double_map hasher key1 key2_hasher key2 value) h =
      Quiet-bind (key_type fuel key1) _ (Quiet-key_type key1 h.0) λ ty1.
        Quiet-bind (key_type fuel key2) _ (Quiet-key_type key2 h.1) λ ty2.
          Quiet-pure {A = Option KeyHasher × Different String}
            (some ((ty1, hasher) ∷ (ty2, key2_hasher) ∷ []), value)

  pub hasher_from-value :
      (k : StorageEntryType)
      → IsShortKey fuel k
      → Returns (hasher_from fuel k) (λ p. If (IsShort fuel) p.1)
  unfolding hasher_from
  hasher_from-value (plain value) h = Returns-pure (none, value) _ h
  hasher_from-value (map hasher key value) h =
      Returns-bind (key_type fuel key) _ _
        (λ ty. Returns-pure (some ((ty, hasher) ∷ []), value) _ h.1)
  hasher_from-value (double_map hasher key1 key2_hasher key2 value) h =
      Returns-bind (key_type fuel key1) _ _ λ ty1.
        Returns-bind (key_type fuel key2) _ _
          (λ ty2. Returns-pure (some ((ty1, hasher) ∷ (ty2, key2_hasher) ∷ []), value) _ h.2)

  abbrev pub v12_reader : KeyReader StorageEntryType fuel (hasher_from fuel)
  v12_reader = record {
    IsShortKey = IsShortKey fuel;
    reads = Quiet-hasher_from;
    value = hasher_from-value;
  }
