-- ===== src/Storage/Paging.antt =====
-- src/storage.rs: reading all pages gives every value once, in the node's order.
use sub_script.Prelude.{
  ℕ, zero, suc, ◌+◌, ◌<◌, ◌≤◌, ◌≡◌, refl, ap, ◌∙◌, Bool, true, false, Option, none, some, List, [],
  ◌∷◌, ◌++◌, map, append_assoc, append-nil, length, take, drop, take-append-drop, length-drop, ltb,
  ◌==◌, if◌then◌else◌, Bool-cases, inl, inr, Result, ok, err, ◌>>=◌, out_of_fuel, arith,
}
use mathlib.Core.List.{map-append}
use sub_script.Dynamic.{Dynamic}
use sub_script.Storage.{
  Key, StorageKeysPaged, last, or_prefix, Node, load_values, advance, page_of, next,
}

abbrev pub items_of : Option (List Dynamic) → List Dynamic
items_of none = []
items_of (some xs) = xs

-- A script's loop `while pages.has_more { values += pages.next(); }`, on fuel.
pub collect : Node → ℕ → StorageKeysPaged → Result (List Dynamic)
collect node zero p = err out_of_fuel
collect node (suc fuel) p =
    let more = (next node p).1 >>= λ page.
    collect node fuel (next node p).0 >>= λ xs. ok (items_of page ++ xs) in
    if p.finished then ok [] else more

last-append {ℓ} : {A : Type ℓ} (xs ys : List A) → 0 < length ys → last (xs ++ ys) ≡ last ys
last-append [] ys h = refl
last-append (x ∷ []) [] h = absurd (omega arith)
last-append (x ∷ []) (y ∷ ys) h = refl
last-append (x ∷ z ∷ xs) ys h = last-append (z ∷ xs) ys h

length-take_le {ℓ} : {A : Type ℓ} (n : ℕ) (xs : List A) → n ≤ length xs → length (take n xs) ≡ n
length-take_le zero xs h = refl
length-take_le (suc n) [] h = absurd (omega arith)
length-take_le (suc n) (x ∷ xs) h = ap suc (length-take_le n xs (omega arith))

take_all {ℓ} : {A : Type ℓ} (n : ℕ) (xs : List A) → length xs ≤ n → take n xs ≡ xs
take_all zero [] h = refl
take_all zero (x ∷ xs) h = absurd (omega arith)
take_all (suc n) [] h = refl
take_all (suc n) (x ∷ xs) h = ap (λ ys. x ∷ ys) (take_all n xs (omega arith))

module _ (node : Node) (prefix : Key) (count : ℕ) (all : List Key) (value : Key → Dynamic)
    (pages : (done rest : List Key)
      → all ≡ done ++ rest
      → node.keys_paged prefix count (or_prefix (last done) prefix) ≡ ok (take count rest))
    (loads : (keys : List Key) → load_values node keys ≡ ok (map value keys)) where
  abbrev at : List Key → Bool → StorageKeysPaged
  at done finished = record {
    prefix = prefix;
    count = count;
    start_key = last done;
    finished = finished;
  }

  last_page :
      (done rest : List Key)
      → all ≡ done ++ rest
      → length rest < count
      → (next node (at done false) ≡ (at done true, page_of node (at done false) rest))
  unfolding next advance
  last_page done rest split short =
      let all_in : take count rest ≡ rest = take_all count rest (omega arith) in
      let low : ltb (length rest) count ≡ true = ground arith in
      rw (pages done rest split) (rw all_in (rw low))

  full_page :
      (done rest : List Key)
      → all ≡ done ++ rest
      → 0 < count
      → count ≤ length rest
      → next node (at done false)
        ≡ (at (done ++ take count rest) false, ok (some (map value (take count rest))))
  unfolding next advance
  full_page done rest split pos long =
      let len : length (take count rest) ≡ count = length-take_le count rest long in
      let high : ltb (length (take count rest)) count ≡ false = ground (arith, len) in
      let tail : last (done ++ take count rest) ≡ last (take count rest) =
        last-append done (take count rest) (omega (arith, len)) in
      rw (pages done rest split) (rw high (rw (loads (take count rest)) (rw tail)))

  page_of_short :
      (done rest : List Key)
      → length rest < count
      → (page : Option (List Dynamic)) × (page_of node (at done false) rest ≡ ok page)
        × (items_of page ≡ map value rest)
  page_of_short done [] short = let low : ltb 0 count ≡ true = ground arith in (none, rw low, refl)
  page_of_short done (x ∷ rest) short =
      let low : ltb (length (x ∷ rest)) count ≡ true = ground arith in
      let some_keys : (length (x ∷ rest) == 0) ≡ false = ground arith in
      (some (map value (x ∷ rest)), rw (low, some_keys) (rw (loads (x ∷ rest))), refl)

  collect_last :
      (done rest : List Key) (fuel : ℕ)
      → all ≡ done ++ rest
      → length rest < count
      → collect node (suc (suc fuel)) (at done false) ≡ ok (map value rest)
  unfolding collect
  collect_last done rest fuel split short =
      let (page, e, items) = page_of_short done rest short in
      rw (last_page done rest split short) (rw e (rw append-nil (rw items)))

  collect_all :
      (fuel : ℕ) (done rest : List Key)
      → all ≡ done ++ rest
      → 0 < count
      → length rest + 1 < fuel
      → collect node fuel (at done false) ≡ ok (map value rest)
  unfolding collect
  collect_all zero done rest split pos enough = absurd (omega arith)
  collect_all (suc zero) done rest split pos enough = absurd (omega arith)
  collect_all (suc (suc fuel)) done rest split pos enough =
      elim (Bool-cases (ltb (length rest) count)) [
        | inl short ↦ collect_last done rest fuel split (ground arith)
        | inr long' ↦
            let long : count ≤ length rest = ground arith in
            let again =
              collect_all (suc fuel) (done ++ take count rest) (drop count rest)
                (split ∙ (rw append_assoc (rw (take-append-drop count rest)))) pos
                (omega (arith, length-drop {0} count rest)) in
            rw (full_page done rest split pos long)
              (rw again (rw (← map-append) (rw (take-append-drop count rest))))
      ]

-- If the node lists the keys that follow the start key, up to the count, and the values load, then
-- reading pages until none is left gives the values of all keys, once each and in the node's
-- order, and the reading ends within two rounds more than there are keys. The page count is not zero.
pub collect_lem :
    (node : Node) (prefix : Key) (count : ℕ) (all : List Key) (value : Key → Dynamic) (fuel : ℕ)
    → ((done rest : List Key)
        → all ≡ done ++ rest
        → node.keys_paged prefix count (or_prefix (last done) prefix) ≡ ok (take count rest))
    → ((keys : List Key) → load_values node keys ≡ ok (map value keys))
    → 0 < count
    → length all + 1 < fuel
    → collect node fuel
        (record { prefix = prefix; count = count; start_key = none; finished = false })
      ≡ ok (map value all)
collect_lem node prefix count all value fuel pages loads pos enough =
    collect_all node prefix count all value pages loads fuel [] all refl pos enough

module _ (node : Node) (prefix : Key) where
  abbrev pub zero_pages : Option Key → StorageKeysPaged
  zero_pages start = record { prefix = prefix; count = 0; start_key = start; finished = false }

  zero_page :
      (start : Option Key)
      → node.keys_paged prefix 0 (or_prefix start prefix) ≡ ok []
      → load_values node [] ≡ ok []
      → next node (zero_pages start) ≡ (zero_pages none, ok (some []))
  unfolding next advance
  zero_page start no_keys no_values = rw no_keys (rw no_values)

  -- With a page count of zero, which asks the node for no keys, the pages never end, whatever the map
  -- holds: no number of rounds is enough.
  pub collect_zero :
      (start : Option Key) (fuel : ℕ)
      → ((k : Key) → node.keys_paged prefix 0 k ≡ ok [])
      → load_values node [] ≡ ok []
      → collect node fuel (zero_pages start) ≡ err out_of_fuel
  unfolding collect
  collect_zero start zero no_keys no_values = refl
  collect_zero start (suc fuel) no_keys no_values =
      rw (zero_page start (no_keys _) no_values) (rw (collect_zero none fuel no_keys no_values))
