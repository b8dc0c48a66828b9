-- ===== src/Metadata/Keys.antt =====
-- src/metadata.rs: how the ways to make a storage key agree, and which keys are told apart.
use sub_script.Prelude.{
  Result-cases, ℕ, ◌≤◌, ◌≡◌, refl, List, [], ◌∷◌, ◌++◌, get_elem?, no_keys, some, Option-cases, inl,
  inr, Result, ok, err, ◌>>=◌, false, arith,
}
use sub_script.Dynamic.{Dynamic, unit}
use sub_script.Libs.{Libs, Laws}
use sub_script.Types.Meta.{TypeMeta}
use sub_script.Types.Encode.{encode}
use sub_script.Types.RoundTrip.{decode-encode}
use sub_script.Types.RoundTrip.Fitting.{Fits}
use sub_script.Metadata.Hasher
use sub_script.Metadata.Hasher.{Hashes, KeyHasherType, KeyHasher, hash}
use sub_script.Metadata.Storage.{
  StorageMetadata, get_prefix_key, raw_map_key, get_map_key, get_double_map_key,
  get_double_map_prefix, encode_map_key,
}

module _ (l : Libs) (hs : Hashes) (deref : ℕ → TypeMeta) (fuel : ℕ) where
  hasher_map_key :
      (kh : KeyHasher) (buf : List ℕ) (key : Dynamic)
      → Hasher.get_map_key l hs deref fuel kh buf key
        ≡ (Hasher.encode_map_key l hs deref fuel kh key >>= Hasher.raw_map_key hs kh buf)
  unfolding Hasher.get_map_key Hasher.encode_map_key Hasher.raw_map_key
  hasher_map_key [] buf key = refl
  hasher_map_key ((r, h) ∷ []) buf key = refl
  hasher_map_key (a ∷ b ∷ kh) buf key = refl

  -- The key of a map entry is that of the raw bytes into which the script's value is encoded, for
  -- every storage item and value, errors included.
  pub get_map_key-eq-raw :
      (md : StorageMetadata) (key : Dynamic)
      → get_map_key l hs deref fuel md key
        ≡ (encode_map_key l hs deref fuel md key >>= raw_map_key hs md)
  unfolding get_map_key encode_map_key raw_map_key
  get_map_key-eq-raw md key = elim (Option-cases md.key_hasher) [
    | inl e ↦ rw (e, get_map_key, encode_map_key, raw_map_key)
    | inr (kh, e) ↦
        rw (e, get_map_key, encode_map_key, raw_map_key)
          (hasher_map_key kh (get_prefix_key hs md) key)
  ]

  -- Hashing a key appends to the buffer.
  hash_key-append :
      (kh : KeyHasher) (buf : List ℕ) (i : ℕ) (key : Dynamic) (k : List ℕ)
      → Hasher.hash_key l hs deref fuel kh buf i key ≡ ok k
      → (s : List ℕ) × (k ≡ buf ++ s)
  unfolding Hasher.hash_key
  hash_key-append kh buf i key k h = elim (Option-cases (get_elem? kh i)) [
    | inl e ↦ ground (arith, h)
    | inr ((r, hasher), e) ↦ elim (Result-cases (encode l deref fuel r key)) [
      | inl (bs, f) ↦ (hash hs hasher bs, ground (arith, h))
      | inr (x, f) ↦ ground (arith, h)
    ]
  ]

  hasher_double_prefix :
      (kh : KeyHasher) (buf : List ℕ) (key1 key2 : Dynamic) (k : List ℕ)
      → (key1 ≡ unit → ⊥)
      → Hasher.get_double_map_key l hs deref fuel kh buf key1 key2 ≡ ok k
      → (p s : List ℕ) × (Hasher.get_double_map_prefix l hs deref fuel kh buf key1 ≡ ok p)
        × (k ≡ p ++ s)
  unfolding Hasher.get_double_map_key Hasher.get_double_map_prefix
  hasher_double_prefix (a ∷ b ∷ []) buf key1 key2 k ne h =
      let kh : KeyHasher = a ∷ b ∷ [] in
      elim (Result-cases (Hasher.hash_key l hs deref fuel kh buf 0 key1)) [
        | inl (p, e) ↦
            let (s, q) = hash_key-append kh p 1 key2 k (rw e at h) in
            (p, s, same_prefix key1 ne p e, q)
        | inr (x, e) ↦ let bad : ◌≡◌ {A = Result (List ℕ)} (err x) (ok k) = rw e at h in cc
      ]
    where
      same_prefix :
          (v : Dynamic)
          → (v ≡ unit → ⊥)
          → (p : List ℕ) → Hasher.hash_key l hs deref fuel (a ∷ b ∷ []) buf 0 v ≡ ok p
          → Hasher.prefix_of l hs deref fuel (a ∷ b ∷ []) buf v ≡ ok p
      same_prefix unit n p e = absurd (n refl)
      same_prefix _ n p e = e
  hasher_double_prefix _ buf key1 key2 k ne h = cc

  -- The key of an entry of a double map begins with the prefix under which the entries of its first
  -- key are listed, if the first key is not the unit.
  pub get_double_map_key-prefix :
      (md : StorageMetadata) (key1 key2 : Dynamic) (k : List ℕ)
      → (key1 ≡ unit → ⊥)
      → get_double_map_key l hs deref fuel md key1 key2 ≡ ok k
      → (p s : List ℕ) × (get_double_map_prefix l hs deref fuel md key1 ≡ ok p) × (k ≡ p ++ s)
  unfolding get_double_map_key get_double_map_prefix
  get_double_map_key-prefix md key1 key2 k ne h = elim (Option-cases md.key_hasher) [
    | inl e ↦
        let bad : ◌≡◌ {A = Result (List ℕ)} (err no_keys) (ok k) =
          rw (e, get_double_map_key) at h in
        cc
    | inr (kh, e) ↦
        rw (e, get_double_map_prefix)
          (hasher_double_prefix kh (get_prefix_key hs md) key1 key2 k ne
            (rw (e, get_double_map_key) at h))
  ]

append_cancel {ℓ} : {A : Type ℓ} (p s t : List A) → p ++ s ≡ p ++ t → s ≡ t
append_cancel [] s t h = h
append_cancel (x ∷ p) s t h = append_cancel p s t (cc)

-- The hash functions that keep the whole key.
abbrev pub IsReversible : KeyHasherType → Type 0
IsReversible Hasher.identity = Unit
IsReversible Hasher.blake2_128_concat = Unit
IsReversible Hasher.twox_64_concat = Unit
IsReversible _ = ⊥

-- The documented form of the two `Concat` hashes: the key stands behind its hash.
pub record HashLaws (hs : Hashes) : Type 0 where
  pub blake2_concat_injective :
      (x y : List ℕ) → hs.hash_blake2_128_concat x ≡ hs.hash_blake2_128_concat y → x ≡ y
  pub twox_concat_injective :
      (x y : List ℕ) → hs.hash_twox_64_concat x ≡ hs.hash_twox_64_concat y → x ≡ y

hash_injective :
    (hs : Hashes)
    → HashLaws hs
    → (h : KeyHasherType) → IsReversible h
    → (x y : List ℕ) → hash hs h x ≡ hash hs h y
    → x ≡ y
unfolding hash
hash_injective hs laws Hasher.identity r x y e = e
hash_injective hs laws Hasher.blake2_128_concat r x y e = laws.blake2_concat_injective x y e
hash_injective hs laws Hasher.twox_64_concat r x y e = laws.twox_concat_injective x y e
hash_injective hs laws _ r x y e = absurd r

module _ (l : Libs) (laws : Laws l) (hs : Hashes) (hash_laws : HashLaws hs) (deref : ℕ → TypeMeta)
    (fuel : ℕ) where
  key_of :
      (md : StorageMetadata) (r : ℕ) (h : KeyHasherType) (v : Dynamic) (bs : List ℕ)
      → md.key_hasher ≡ some ((r, h) ∷ [])
      → encode l deref fuel r v ≡ ok bs
      → get_map_key l hs deref fuel md v ≡ ok (get_prefix_key hs md ++ hash hs h bs)
  unfolding get_map_key Hasher.get_map_key get_prefix_key
  key_of md r h v bs e enc = rw (e, get_map_key) (rw (enc))

  -- Under a hash that keeps the key, two values that fit the key type and have one storage key are
  -- one value: no entry of a map is read in place of another.
  pub get_map_key-injective :
      (md : StorageMetadata) (n r : ℕ) (h : KeyHasherType) (v w : Dynamic)
      → md.key_hasher ≡ some ((r, h) ∷ [])
      → IsReversible h
      → n ≤ fuel
      → Fits l deref n r false v
      → Fits l deref n r false w
      → get_map_key l hs deref fuel md v ≡ get_map_key l hs deref fuel md w
      → v ≡ w
  get_map_key-injective md n r h v w e rev le fv fw same =
      let (bv, ev, dv) = decode-encode l laws deref n fuel r v le fv in
      let (bw, ew, dw) = decode-encode l laws deref n fuel r w le fw in
      let kv = key_of md r h v bv e ev in
      let kw = key_of md r h w bw e ew in
      let keys : get_prefix_key hs md ++ hash hs h bv ≡ get_prefix_key hs md ++ hash hs h bw = cc in
      let hashes = append_cancel (get_prefix_key hs md) (hash hs h bv) (hash hs h bw) keys in
      let encoded = hash_injective hs hash_laws h rev bv bw hashes in cc
