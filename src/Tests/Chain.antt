-- ===== src/Tests/Chain.antt =====
-- A node with three keys, a transaction's statuses, a block, and a user.
use sub_script.Prelude.{
  ℕ, ◌≡◌, refl, rpc_failed, String, true, false, Option, none, some, List, [], ◌∷◌, ◌++◌, map, take,
  drop, length, ok, err, arith, pos,
}
use sub_script.Dynamic.{Dynamic, int}
use sub_script.Storage.{Key, last, or_prefix, Node, load_values, decode_all}
use sub_script.Storage.Paging.{collect, collect_lem}
use sub_script.Client.Tracking.{
  future, ready, in_block, retracted, finality_timeout, finalized, usurped, dropped, invalid,
  Updates, finished, waits, closing, get_request_block_hash, get_request_block_hash_lem,
}
use sub_script.Client.CallResult.{
  apply_extrinsic, EventRecord, find_extrinsic, ChainView, CallResult,
}
use sub_script.Users.{User, submit_all, nonce-submit_all}

-- The keys of the map are [1, 1], [1, 2] and [1, 3], under the prefix [1]; a page starts after a key.
abbrev all_keys : List Key
all_keys = (1 ∷ 1 ∷ []) ∷ (1 ∷ 2 ∷ []) ∷ (1 ∷ 3 ∷ []) ∷ []

-- the keys after the given one
abbrev after_key : Key → List Key
after_key (a ∷ b ∷ k) = drop b all_keys
after_key _ = all_keys

abbrev values_of : List Key → List (Option (List ℕ))
values_of [] = []
values_of (k ∷ ks) = some k ∷ values_of ks

abbrev value : Key → Dynamic
value k = int (pos (length k))

abbrev node : Node
node = record {
  keys_paged = λ prefix count k. ok (take count (after_key k));
  values = λ ks. ok (values_of ks);
  decode_value = λ v. ok (value v);
}

loads : (keys : List Key) → load_values node keys ≡ ok (map value keys)
unfolding load_values decode_all
loads [] = refl
loads (k ∷ ks) = rw (loads ks)

pages :
    (done rest : List Key)
    → all_keys ≡ done ++ rest
    → node.keys_paged (1 ∷ []) 2 (or_prefix (last done) (1 ∷ [])) ≡ ok (take 2 rest)
pages [] rest h = rw (← h)
pages (a ∷ []) rest h =
    let first : ◌≡◌ {A = Key} (1 ∷ 1 ∷ []) a = cc in
    let left : ◌≡◌ {A = List Key} ((1 ∷ 2 ∷ []) ∷ (1 ∷ 3 ∷ []) ∷ []) rest = cc in
    rw (← first) (rw (← left))
pages (a ∷ b ∷ []) rest h =
    let second : ◌≡◌ {A = Key} (1 ∷ 2 ∷ []) b = cc in
    let left : ◌≡◌ {A = List Key} ((1 ∷ 3 ∷ []) ∷ []) rest = cc in rw (← second) (rw (← left))
pages (a ∷ b ∷ c ∷ []) rest h =
    let third : ◌≡◌ {A = Key} (1 ∷ 3 ∷ []) c = cc in
    let left : ◌≡◌ {A = List Key} [] rest = cc in rw (← third) (rw (← left))
pages (a ∷ b ∷ c ∷ d ∷ done) rest h = cc

collect_lem_example :
    collect node 5 (record { prefix = 1 ∷ []; count = 2; start_key = none; finished = false })
    ≡ ok (map value all_keys)
collect_lem_example =
    collect_lem node (1 ∷ []) 2 all_keys value 5 pages loads (omega arith) (omega arith)

abbrev pending : Updates
pending = ok (some future) ∷ ok (some ready) ∷ ok (some (retracted 3)) ∷ []

get_request_block_hash_lem_example :
    (get_request_block_hash (ok tt) pending ≡ waits)
    × (get_request_block_hash (ok tt) (pending ++ ok (some (in_block 8)) ∷ [])
        ≡ finished (closing (ok tt) (some 8)) true [])
    × (get_request_block_hash (ok tt) (pending ++ ok (some (finalized 8)) ∷ [])
        ≡ finished (closing (ok tt) (some 8)) true [])
    × (get_request_block_hash (ok tt) (pending ++ ok (some (finality_timeout 8)) ∷ [])
        ≡ finished (closing (ok tt) (some 8)) true [])
    × (get_request_block_hash (ok tt) (pending ++ ok (some (usurped 8)) ∷ [])
        ≡ finished (closing (ok tt) none) true [])
    × (get_request_block_hash (ok tt) (pending ++ ok (some dropped) ∷ [])
        ≡ finished (closing (ok tt) none) true [])
    × (get_request_block_hash (ok tt) (pending ++ ok (some invalid) ∷ [])
        ≡ finished (closing (ok tt) none) true [])
    × (get_request_block_hash (ok tt) (pending ++ ok none ∷ [])
        ≡ finished (closing (ok tt) none) true [])
    × (get_request_block_hash (ok tt) (pending ++ err rpc_failed ∷ [])
        ≡ finished (err rpc_failed) false [])
get_request_block_hash_lem_example =
    get_request_block_hash_lem (ok tt) pending [] 8 rpc_failed (tt, (tt, (tt, tt)))

-- a block of two extrinsics, the second of which failed
abbrev events : List EventRecord
events =
    record { phase = apply_extrinsic 0; name = "System.ExtrinsicSuccess"; payload = 0 }
    ∷ record { phase = apply_extrinsic 1; name = "System.ExtrinsicFailed"; payload = 1 }
    ∷ []

abbrev chain : ChainView
chain = record { get_block = λ h. ok (some ("0xaa" ∷ "0xbb" ∷ [])); get_events = λ h. ok events }

abbrev result_of : String → CallResult
result_of x = record { hash = none; xthex = x; idx = none; events = none }

unfound_cc : find_extrinsic "0xcc" ("0xaa" ∷ "0xbb" ∷ []) ≡ none
unfolding find_extrinsic
unfound_cc = refl

abbrev alice : User
alice = record { nonce = 4; account = 1 }

nonce-submit_all_example : (submit_all (λ a. err rpc_failed) alice (10 ∷ 11 ∷ [])).nonce ≡ 6
nonce-submit_all_example =
    nonce-submit_all (λ a. err rpc_failed) alice (10 ∷ 11 ∷ []) (omega arith) (omega arith)
