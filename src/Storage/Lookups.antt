-- ===== src/Storage/Lookups.antt =====
-- src/storage.rs: one request for many keys against one request for each.
use sub_script.Prelude.{
  Result-cases, ℕ, String, Option, List, [], ◌∷◌, ◌≡◌, refl, Result, ok, ◌>>=◌, inl, inr, arith,
}
use sub_script.Dynamic.{Dynamic}
use sub_script.Libs.{Libs}
use sub_script.Types.Meta.{TypeMeta}
use sub_script.Metadata.Hasher.{Hashes}
use sub_script.Metadata.Storage.{StorageMetadata, get_map_key}
use sub_script.Storage.{Key}
use sub_script.Storage.Items.{
  Chain, decoded, get_by_key, decode_each, get_by_keys, get_map, map_keys, get_map_keys, each,
}

abbrev pub values_of : (Key → Option (List ℕ)) → List Key → List (Option (List ℕ))
values_of state [] = []
values_of state (k ∷ ks) = state k ∷ values_of state ks

module _ (l : Libs) (hs : Hashes) (deref : ℕ → TypeMeta) (fuel : ℕ) (chain : Chain)
    (state : Key → Option (List ℕ)) (by_key : (k : Key) → chain.get_storage_by_key k ≡ ok (state k))
    (by_keys : (ks : List Key) → chain.get_storage_by_keys ks ≡ ok (values_of state ks))
    (mod_name name : String) (md : StorageMetadata)
    (known : chain.get_storage mod_name name ≡ ok md) where
  one : (key : Dynamic) → Result Dynamic
  one key = get_map_key l hs deref fuel md key >>= λ k. decoded l hs deref fuel chain md (state k)

  get_map-one : (key : Dynamic) → get_map l hs deref fuel chain mod_name name key ≡ one key
  unfolding get_map get_by_key one
  get_map-one key = elim (Result-cases (get_map_key l hs deref fuel md key)) [
    | inl (k, e) ↦ rw known (rw e (rw (by_key k)))
    | inr (x, e) ↦ rw known (rw e)
  ]

  each_keys :
      (keys : List Dynamic) (xs : List Dynamic)
      → each l hs deref fuel chain mod_name name keys ≡ ok xs
      → (ks : List Key) × (map_keys l hs deref fuel chain md keys ≡ ok ks)
        × (decode_each l hs deref fuel chain md (values_of state ks) ≡ ok xs)
  unfolding each map_keys decode_each one
  each_keys [] xs h = ([], refl, h)
  each_keys (key ∷ keys) xs h =
      let h' = rw (get_map-one key) at h in
      elim (Result-cases (get_map_key l hs deref fuel md key)) [
        | inl (k, e) ↦ elim (Result-cases (decoded l hs deref fuel chain md (state k))) [
          | inl (x, f) ↦ elim (Result-cases (each l hs deref fuel chain mod_name name keys)) [
            | inl (ys, g) ↦
                let (ks, p, q) = each_keys keys ys g in
                (k ∷ ks, rw e (rw p), rw f (rw q (ground (arith, h'))))
            | inr (y, g) ↦ ground (arith, h')
          ]
          | inr (y, f) ↦ ground (arith, h')
        ]
        | inr (y, e) ↦ ground (arith, h')
      ]

  -- On a node that answers both requests from one state, for a known item: if looking up keys of a map
  -- one after the other gives values, looking them up at once gives the same values, in order.
  pub get_map_keys-each :
      (keys : List Dynamic) (xs : List Dynamic)
      → each l hs deref fuel chain mod_name name keys ≡ ok xs
      → get_map_keys l hs deref fuel chain mod_name name keys ≡ ok xs
  unfolding get_map_keys get_by_keys
  get_map_keys-each keys xs h =
      let (ks, p, q) = each_keys keys xs h in rw known (rw p (rw (by_keys ks) q))
