-- ===== src/Metadata/V13/Ends.antt =====
-- src/metadata.rs, `StorageMetadata::from_v13_meta`: the key types of storage are read to an end.
use sub_script.Prelude.{Each, ℕ, String, Option, none, some, List, [], ◌∷◌}
use sub_script.Types.Registry.Results.{Returns, Returns-pure, Returns-bind}
use sub_script.Types.Registry.Quiet.{Quiet, Quiet-pure, Quiet-bind}
use sub_script.Types.Import.{lift}
use sub_script.Metadata.Hasher.{KeyHasher, KeyHasherType}
use sub_script.Metadata.Legacy.{Different, decode_meta, named_type}
use sub_script.Metadata.Legacy.Ends.{If, IsShort, Quiet-decoded, Quiet-any, Quiet-named_type}
use sub_script.Metadata.Legacy.Modules.Ends.{KeyReader}
use sub_script.Metadata.V13.{
  StorageEntryType, plain, map, double_map, n_map, key_type, each_key, hasher_from,
}

abbrev pub IsShortKey : ℕ → StorageEntryType → Type 0
IsShortKey w (plain value) = If (IsShort w) value
IsShortKey w (map hasher key value) = If (IsShort w) key × If (IsShort w) value
IsShortKey w (double_map hasher key1 key2_hasher key2 value) =
    If (IsShort w) key1 × If (IsShort w) key2 × If (IsShort w) value
IsShortKey w (n_map hashers keys value) = If (Each (IsShort w)) keys × If (IsShort w) value

module _ (fuel : ℕ) where
  Quiet-key_type : (key : Different String) → If (IsShort fuel) key → Quiet (key_type fuel key)
  unfolding key_type
  Quiet-key_type key h = Quiet-decoded key _ _ h (Quiet-named_type fuel)

  Quiet-each_key :
      (keys : List String) (hashers : List KeyHasherType)
      → Each (IsShort fuel) keys
      → Quiet (each_key fuel keys hashers)
  unfolding each_key
  Quiet-each_key [] hashers h = Quiet-pure {A = KeyHasher} []
  Quiet-each_key (key ∷ keys) [] h = Quiet-pure {A = KeyHasher} []
  Quiet-each_key (key ∷ keys) (hasher ∷ hashers) h =
      Quiet-bind (named_type fuel key) _ (Quiet-named_type fuel key h.0) λ ty.
        Quiet-bind (each_key fuel keys hashers) _ (Quiet-each_key keys hashers h.1)
          (λ type_hashers. Quiet-pure {A = KeyHasher} ((ty, hasher) ∷ type_hashers))

  pub Quiet-hasher_from : (k : StorageEntryType) → IsShortKey fuel k → Quiet (hasher_from fuel k)
  unfolding hasher_from
  Quiet-hasher_from (plain value) h =
      Quiet-pure {A = Option KeyHasher × Different String} (none, value)
  Quiet-hasher_from (map hasher key value) h =
      Quiet-bind (key_type fuel key) _ (Quiet-key_type key h.0)
        λ ty. Quiet-pure {A = Option KeyHasher × Different String} (some ((ty, hasher) ∷ []), value)
  Quiet-hasher_from (double_map hasher key1 key2_hasher key2 value) h =
      Quiet-bind (key_type fuel key1) _ (Quiet-key_type key1 h.0) λ ty1.
        Quiet-bind (key_type fuel key2) _ (Quiet-key_type key2 h.1) λ ty2.
          Quiet-pure {A = Option KeyHasher × Different String}
            (some ((ty1, hasher) ∷ (ty2, key2_hasher) ∷ []), value)
  Quiet-hasher_from (n_map hashers keys value) h = Quiet-decoded keys _ _ h.0 λ names short.
      Quiet-any hashers _ λ listed.
        Quiet-bind (each_key fuel names listed) _ (Quiet-each_key names listed short)
          (λ hs. Quiet-pure {A = Option KeyHasher × Different String} (some hs, value))

  pub hasher_from-value :
      (k : StorageEntryType)
      → IsShortKey fuel k
      → Returns (hasher_from fuel k) (λ p. If (IsShort fuel) p.1)
  unfolding hasher_from
  hasher_from-value (plain value) h = Returns-pure (none, value) _ h
  hasher_from-value (map hasher key value) h =
      Returns-bind (key_type fuel key) _ _
        (λ ty. Returns-pure (some ((ty, hasher) ∷ []), value) _ h.1)
  hasher_from-value (double_map hasher key1 key2_hasher key2 value) h =
      Returns-bind (key_type fuel key1) _ _ λ ty1.
        Returns-bind (key_type fuel key2) _ _
          (λ ty2. Returns-pure (some ((ty1, hasher) ∷ (ty2, key2_hasher) ∷ []), value) _ h.2)
  hasher_from-value (n_map hashers keys value) h =
      Returns-bind (lift (decode_meta keys)) _ _ λ names.
        Returns-bind (lift (decode_meta hashers)) _ _ λ listed.
          Returns-bind (each_key fuel names listed) _ _ (λ hs. Returns-pure (some hs, value) _ h.1)

  abbrev pub v13_reader : KeyReader StorageEntryType fuel (hasher_from fuel)
  v13_reader = record {
    IsShortKey = IsShortKey fuel;
    reads = Quiet-hasher_from;
    value = hasher_from-value;
  }
