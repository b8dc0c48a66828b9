-- ===== src/Types/Variants/Laws.antt =====
-- src/types.rs, `EnumVariants`: what the lookups by index and by name find after an insertion.
use sub_script.Prelude.{
  ℕ, zero, suc, ◌+◌, ◌-◌, ◌%◌, ◌≤◌, ◌<◌, String, false, Option, none, some, List, [], ◌∷◌, ◌++◌,
  ◌≡◌, refl, sym, ◌∙◌, arith, length, get_elem?, set, replicate, ltb, lt→ltb, ◌==◌, ==_refl,
  if◌then◌else◌, lookup, insert, lookup-insert, str_eq, str_eq_iff, Bool-cases, Option-cases, inl,
  inr, ok, length-append, length-replicate,
}
use native.Mathlib.Nat.{mod-eq_of_lt}
use sub_script.Types.Variants.{
  EnumVariant, EnumVariants, pad, insert_at, join, get_by_idx, get_by_name,
}

abbrev variant_at : ℕ → String → Option ℕ → EnumVariant
variant_at idx name r = record { idx = idx; name = name; type_ref = r }

-- Appending gaps changes no lookup.
join_gaps :
    (xs : List (Option EnumVariant)) (k j : ℕ)
    → join (get_elem? (xs ++ replicate k none) j) ≡ join (get_elem? xs j)
join_gaps [] zero j = refl
join_gaps [] (suc k) zero = refl
join_gaps [] (suc k) (suc j) = join_gaps [] k j
join_gaps (x ∷ xs) k zero = refl
join_gaps (x ∷ xs) k (suc j) = join_gaps xs k j

-- Appending one more variant changes the lookup at the old length.
join_snoc :
    (xs : List (Option EnumVariant)) (v : EnumVariant) (j : ℕ)
    → join (get_elem? (xs ++ some v ∷ []) j)
      ≡ (if j == length xs then some v else join (get_elem? xs j))
join_snoc [] v zero = refl
join_snoc [] v (suc j) = ground arith
join_snoc (x ∷ xs) v zero = ground arith
join_snoc (x ∷ xs) v (suc j) = ground (arith, join_snoc xs v j)

join-set :
    (xs : List (Option EnumVariant)) (v : EnumVariant) (i j : ℕ)
    → i < length xs
    → join (get_elem? (set xs i (some v)) j) ≡ (if j == i then some v else join (get_elem? xs j))
join-set [] v i j h = absurd (omega arith)
join-set (x ∷ xs) v zero zero h = refl
join-set (x ∷ xs) v zero (suc j) h = ground arith
join-set (x ∷ xs) v (suc i) zero h = ground arith
join-set (x ∷ xs) v (suc i) (suc j) h = ground (arith, join-set xs v i j (omega arith))

length-pad :
    (idx : ℕ) (xs : List (Option EnumVariant)) → length xs ≤ idx → length (pad idx xs) ≡ idx
unfolding pad
length-pad idx xs h =
    length-append xs (replicate (idx - length xs) none)
    ∙ omega (arith, length-replicate {A = Option EnumVariant} (idx - length xs) none)

-- The map that `insert_at` gives: its variants and names, on each of its two branches.
inserted : EnumVariants → ℕ → String → Option ℕ → EnumVariants
inserted vs idx name r =
    if ltb idx (length vs.variants)
    then record vs { variants = set vs.variants idx (some (variant_at idx name r)) }
    else record {
      variants = pad idx vs.variants ++ some (variant_at idx name r) ∷ [];
      name_map = insert name idx vs.name_map;
    }

insert_at-eq-inserted :
    (vs : EnumVariants) (idx : ℕ) (name : String) (r : Option ℕ)
    → idx < 256
    → insert_at vs idx name r ≡ ok (inserted vs idx name r)
unfolding insert_at inserted
insert_at-eq-inserted vs idx name r h = elim (Bool-cases (ltb idx (length vs.variants))) [
  | inl low ↦ rw low
  | inr high ↦
      let len : length (pad idx vs.variants) ≡ idx = length-pad idx vs.variants (ground arith) in
      let m : idx % 256 ≡ idx = mod-eq_of_lt h in rw high (rw len (rw m (rw (==_refl idx))))
]

get_by_idx-inserted :
    (vs : EnumVariants) (idx : ℕ) (name : String) (r : Option ℕ) (j : ℕ)
    → get_by_idx (inserted vs idx name r) j
      ≡ (if j == idx then some (variant_at idx name r) else get_by_idx vs j)
unfolding get_by_idx inserted pad
get_by_idx-inserted vs idx name r j = elim (Bool-cases (ltb idx (length vs.variants))) [
  | inl low ↦ rw low (join-set vs.variants (variant_at idx name r) idx j (ground arith))
  | inr high ↦ rw high (
      ground (
        arith,
        join_snoc (pad idx vs.variants) (variant_at idx name r) j,
        length-pad idx vs.variants,
        join_gaps vs.variants (idx - length vs.variants) j,
      ))
]

-- For an index of a byte, an insertion does not panic; it puts the variant at its index and changes
-- no other index, whether the index was free, a gap, taken or beyond the end.
pub get_by_idx-insert_at :
    (vs : EnumVariants) (idx : ℕ) (name : String) (r : Option ℕ)
    → idx < 256
    → (vs' : EnumVariants) × (insert_at vs idx name r ≡ ok vs')
      × ((j : ℕ)
          → get_by_idx vs' j ≡ (
              if j == idx
              then some (record { idx = idx; name = name; type_ref = r })
              else get_by_idx vs j))
get_by_idx-insert_at vs idx name r h = (
  inserted vs idx name r,
  insert_at-eq-inserted vs idx name r h,
  get_by_idx-inserted vs idx name r,
)

-- Every entry of the name map leads to a variant of that name.
pub record IsConsistent (vs : EnumVariants) : Type 0 where
  pub named :
      (n : String) (i : ℕ)
      → lookup n vs.name_map ≡ some i
      → (v : EnumVariant) × (get_by_idx vs i ≡ some v) × (v.name ≡ n) × (i < length vs.variants)

get_by_name_found :
    (vs : EnumVariants) (n : String) (i : ℕ)
    → lookup n vs.name_map ≡ some i
    → get_by_name vs n ≡ get_by_idx vs i
unfolding get_by_name
get_by_name_found vs n i e = rw (e, get_by_name)

get_by_name_missing :
    (vs : EnumVariants) (n : String) → lookup n vs.name_map ≡ none → get_by_name vs n ≡ none
unfolding get_by_name
get_by_name_missing vs n e = rw (e, get_by_name)

lookup-inserted :
    (vs : EnumVariants) (idx : ℕ) (name : String) (r : Option ℕ) (n : String)
    → length vs.variants ≤ idx
    → lookup n (inserted vs idx name r).name_map
      ≡ (if str_eq name n then some idx else lookup n vs.name_map)
unfolding inserted
lookup-inserted vs idx name r n h =
    let high : ltb idx (length vs.variants) ≡ false = ground arith in
    rw high (lookup-insert name n idx vs.name_map)

-- The lookup in the old variants is that in the new ones, short of the new index.
old_entry :
    (vs : EnumVariants) (idx : ℕ) (name : String) (r : Option ℕ) (n : String) (i : ℕ)
    → length vs.variants ≤ idx
    → IsConsistent vs
    → lookup n vs.name_map ≡ some i
    → get_by_idx (inserted vs idx name r) i ≡ get_by_idx vs i
old_entry vs idx name r n i h c e =
    let (v, at, named, small) = c.named n i e in ground (arith, get_by_idx-inserted vs idx name r i)

get_by_name-inserted :
    (vs : EnumVariants) (idx : ℕ) (name : String) (r : Option ℕ) (n : String)
    → length vs.variants ≤ idx
    → IsConsistent vs
    → get_by_name (inserted vs idx name r) n
      ≡ (if str_eq name n then some (variant_at idx name r) else get_by_name vs n)
get_by_name-inserted vs idx name r n h c = elim (Bool-cases (str_eq name n)) [
  | inl same ↦
      let e : lookup n (inserted vs idx name r).name_map ≡ some idx =
        rw (lookup-inserted vs idx name r n h) (rw same) in
      rw same (
        get_by_name_found _ n idx e
        ∙ (rw (get_by_idx-inserted vs idx name r idx) (rw (==_refl idx))))
  | inr other ↦
      let e : lookup n (inserted vs idx name r).name_map ≡ lookup n vs.name_map =
        rw (lookup-inserted vs idx name r n h) (rw other) in
      rw other (elim (Option-cases (lookup n vs.name_map)) [
        | inl missing ↦
            get_by_name_missing _ n (e ∙ missing) ∙ sym (get_by_name_missing vs n missing)
        | inr (i, found) ↦
            get_by_name_found _ n i (e ∙ found)
            ∙ old_entry vs idx name r n i h c found
            ∙ sym (get_by_name_found vs n i found)
      ])
]

inserted-IsConsistent :
    (vs : EnumVariants) (idx : ℕ) (name : String) (r : Option ℕ)
    → length vs.variants ≤ idx
    → IsConsistent vs
    → IsConsistent (inserted vs idx name r)
unfolding inserted
inserted-IsConsistent vs idx name r h c = record {
  named = λ n i e. elim (Bool-cases (str_eq name n)) [
    | inl same ↦
        let at : i ≡ idx = ground (arith, lookup-inserted vs idx name r n h) in
        (
          variant_at idx name r,
          ground (arith, get_by_idx-inserted vs idx name r i),
          (str_eq_iff name n).0 same,
          omega (arith, longer),
        )
    | inr other ↦
        let old : lookup n vs.name_map ≡ some i =
          ground (arith, lookup-inserted vs idx name r n h) in
        let (v, at, named, small) = c.named n i old in
        (v, old_entry vs idx name r n i h c old ∙ at, named, omega (arith, longer))
  ];
}
  where
    longer : length (inserted vs idx name r).variants ≡ idx + 1
    longer =
        let high : ltb idx (length vs.variants) ≡ false = ground arith in
        rw high (
          length-append (pad idx vs.variants) (some (variant_at idx name r) ∷ [])
          ∙ omega (arith, length-pad idx vs.variants h))

-- An insertion past the end keeps the name map consistent with the variants; the name then finds
-- the new variant, and every other name finds what it found before.
pub get_by_name-insert_at :
    (vs : EnumVariants) (idx : ℕ) (name : String) (r : Option ℕ)
    → IsConsistent vs
    → length vs.variants ≤ idx
    → idx < 256
    → (vs' : EnumVariants) × (insert_at vs idx name r ≡ ok vs')
      × IsConsistent vs'
      × ((n : String)
          → get_by_name vs' n ≡ (
              if str_eq name n
              then some (record { idx = idx; name = name; type_ref = r })
              else get_by_name vs n))
get_by_name-insert_at vs idx name r c h small = (
  inserted vs idx name r,
  insert_at-eq-inserted vs idx name r small,
  inserted-IsConsistent vs idx name r h c,
  λ n. get_by_name-inserted vs idx name r n h c,
)

inserted_low :
    (vs : EnumVariants) (idx : ℕ) (name : String) (r : Option ℕ)
    → idx < length vs.variants
    → (inserted vs idx name r).name_map ≡ vs.name_map
unfolding inserted
inserted_low vs idx name r low = rw (lt→ltb idx (length vs.variants) low)

-- An insertion into a gap, or over another variant, does not record the name: a name that was
-- unknown stays unknown, though the variant stands at its index.
pub insert_at_gap_unnamed :
    (vs : EnumVariants) (idx : ℕ) (name : String) (r : Option ℕ)
    → idx < length vs.variants
    → idx < 256
    → lookup name vs.name_map ≡ none
    → (vs' : EnumVariants) × (insert_at vs idx name r ≡ ok vs')
      × (get_by_idx vs' idx ≡ some (record { idx = idx; name = name; type_ref = r }))
      × (get_by_name vs' name ≡ none)
insert_at_gap_unnamed vs idx name r low small missing = (
  inserted vs idx name r,
  insert_at-eq-inserted vs idx name r small,
  rw (get_by_idx-inserted vs idx name r idx) (rw (==_refl idx)),
  get_by_name_missing _ name (rw (inserted_low vs idx name r low) missing),
)
