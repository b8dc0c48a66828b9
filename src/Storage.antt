-- ===== src/Storage.antt =====
-- src/storage.rs, `StorageKeysPaged`: reading a map of the chain's storage page by page. The node is a
-- parameter: the keys of a page, and the values of keys.
pub mod Paging
pub mod Items
pub mod Lookups
use sub_script.Prelude.{
  ℕ, zero, suc, ◌+◌, ◌-◌, ◌*◌, ◌%◌, ◌^◌, ◌&&◌, ◌<◌, ◌≤◌, ◌≡◌, ◌≢◌, refl, sym, ap, ◌∙◌, Bool, true,
  false, Option, none, some, List, [], ◌∷◌, ◌++◌, map, append_assoc, append-nil, length, take, drop,
  take-append-drop, length-drop, length-append, ltb, ◌==◌, if◌then◌else◌, Bool-cases, inl, inr,
  Result, ok, err, ◌>>=◌, arith,
}
use sub_script.Dynamic.{Dynamic, unit}

-- Keys are byte strings.
abbrev pub Key : Type 0
Key = List ℕ

pub record StorageKeysPaged : Type 0 where
  pub prefix : Key
  pub count : ℕ
  pub start_key : Option Key
  pub finished : Bool

unfoldable pub new : Key → StorageKeysPaged
new prefix = record { prefix = prefix; count = 100; start_key = none; finished = false }

-- `count as u32` of a script's integer that is not negative
unfoldable pub set_page_count : StorageKeysPaged → ℕ → StorageKeysPaged
set_page_count p count = record p { count = count % 2 ^ 32 }

abbrev pub last {ℓ} : {A : Type ℓ} → List A → Option A
last [] = none
last (x ∷ []) = some x
last (x ∷ y ∷ xs) = last (y ∷ xs)

abbrev pub or_prefix : Option Key → Key → Key
or_prefix none p = p
or_prefix (some k) p = k

-- `state_getKeysPaged` with a prefix, a count and the key to start after, the values of keys at the
-- latest block, and the decoding of a value
pub record Node : Type 0 where
  pub keys_paged : Key → ℕ → Key → Result (List Key)
  pub values : List Key → Result (List (Option (List ℕ)))
  pub decode_value : List ℕ → Result Dynamic

module _ (node : Node) where
  abbrev pub decoded : Option (List ℕ) → Result Dynamic
  decoded none = ok unit
  decoded (some v) = node.decode_value v

  unfoldable pub decode_all : List (Option (List ℕ)) → Result (List Dynamic)
  decode_all [] = ok []
  decode_all (v ∷ vs) = do x ← decoded v; xs ← decode_all vs; ok (x ∷ xs)

  unfoldable pub load_values : List Key → Result (List Dynamic)
  unfolding decode_all
  load_values keys = do vs ← node.values keys; decode_all vs

  -- the state after a page of keys has come
  unfoldable pub advance : StorageKeysPaged → List Key → StorageKeysPaged
  advance p keys =
      if ltb (length keys) p.count
      then record p { finished = true }
      else record p { start_key = last keys }

  abbrev pub page_of : StorageKeysPaged → List Key → Result (Option (List Dynamic))
  page_of p keys =
      if ltb (length keys) p.count && length keys == 0
      then ok none
      else (load_values keys >>= λ vs. ok (some vs))

  abbrev pub paged :
      StorageKeysPaged → Result (List Key) → StorageKeysPaged × Result (Option (List Dynamic))
  paged p (err e) = (p, err e)
  paged p (ok keys) = (advance p keys, page_of p keys)

  -- `none` is the unit that stands for no more pages
  unfoldable pub next : StorageKeysPaged → StorageKeysPaged × Result (Option (List Dynamic))
  unfolding advance load_values
  next p =
      if p.finished
      then (p, ok none)
      else paged p (node.keys_paged p.prefix p.count (or_prefix p.start_key p.prefix))
