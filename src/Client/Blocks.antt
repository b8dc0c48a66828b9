-- ===== src/Client/Blocks.antt =====
-- src/client.rs, `InnerClient::{get_block, get_block_by_number, get_events}`: the caches of blocks and events.
-- What the node answers to a call is an argument, since it may fail at one time and not at another.
pub mod Refines
use sub_script.Prelude.{
  ℕ, Option, none, some, List, [], ◌∷◌, Bool, ◌==◌, if◌then◌else◌, Result, ok, err,
}
use sub_script.Dynamic.{Dynamic}

-- extrinsics by their texts, the header by a number; a block that comes from the node has no type of calls
pub record Block : Type 0 where
  pub extrinsics : List (List ℕ)
  pub header : ℕ
  pub call_ty : Option ℕ

pub record Caches : Type 0 where
  pub cached_blocks : ℕ → Option Block
  pub cached_events : ℕ → Option Dynamic

unfoldable pub no_caches : Caches
no_caches = record { cached_blocks = λ h. none; cached_events = λ h. none }

abbrev pub put {ℓ} : {A : Type ℓ} → ℕ → A → (ℕ → Option A) → ℕ → Option A
put h a f k = if h == k then some a else f k

abbrev pub NodeBlock : Type 0
NodeBlock = Option ℕ → Result (Option Block)

module _ (call_ty : ℕ) where
  abbrev pub typed : Block → Block
  typed b = record b { call_ty = some call_ty }

  -- a block that has come is kept; no block and an error are not
  unfoldable pub keep_block : ℕ → Result (Option Block) → Caches → Caches × Result (Option Block)
  keep_block hash (ok none) c = (c, ok none)
  keep_block hash (ok (some b)) c =
      (record c { cached_blocks = put hash (typed b) c.cached_blocks }, ok (some (typed b)))
  keep_block hash (err e) c = (c, err e)

  unfoldable pub get_block : NodeBlock → Option ℕ → Caches → Caches × Result (Option Block)
  unfolding keep_block
  get_block node none c = (c, node none)
  get_block node (some hash) c = elim (c.cached_blocks hash) [
    | some b ↦ (c, ok (some b))
    | none ↦ keep_block hash (node (some hash)) c
  ]

  unfoldable pub block_of_hash :
      NodeBlock → Result (Option ℕ) → Caches → Caches × Result (Option Block)
  unfolding get_block
  block_of_hash node (err e) c = (c, err e)
  block_of_hash node (ok hash) c = get_block node hash c

  -- the node gives the hash of a number
  unfoldable pub get_block_by_number :
      NodeBlock → (ℕ → Result (Option ℕ)) → ℕ → Caches → Caches × Result (Option Block)
  unfolding block_of_hash
  get_block_by_number node block_hash n c = block_of_hash node (block_hash n) c

abbrev pub NodeEvents : Type 0
NodeEvents = Option ℕ → Result Dynamic

unfoldable pub keep_events : ℕ → Result Dynamic → Caches → Caches × Result Dynamic
keep_events hash (ok v) c = (record c { cached_events = put hash v c.cached_events }, ok v)
keep_events hash (err e) c = (c, err e)

-- the node's answer is that of `get_block_events`
unfoldable pub get_events : NodeEvents → Option ℕ → Caches → Caches × Result Dynamic
unfolding keep_events
get_events node none c = (c, node none)
get_events node (some hash) c = elim (c.cached_events hash) [
  | some v ↦ (c, ok v)
  | none ↦ keep_events hash (node (some hash)) c
]
