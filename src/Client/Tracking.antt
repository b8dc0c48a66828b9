-- ===== src/Client/Tracking.antt =====
-- src/client.rs, `TransactionStatus` and `InnerClient::get_request_block_hash`. The loop takes the results of
-- `RpcHandler::get_update` one after the other; where they end, it waits.
use sub_script.Prelude.{
  ℕ, String, Bool, true, false, Option, none, some, List, [], ◌∷◌, ◌++◌, ◌≡◌, refl, append-nil,
  Result, ok, err, Error, ◌>>=◌,
}

-- Hashes are numbers.
pub data TransactionStatus : Type 0 where
  future ready dropped invalid : TransactionStatus
  broadcast : List String → TransactionStatus
  in_block retracted finality_timeout finalized usurped : ℕ → TransactionStatus

abbrev pub Updates : Type 0
Updates = List (Result (Option TransactionStatus))

-- `closes` says that `close_request` is called.
pub data Tracked : Type 0 where
  finished : (hash : Result (Option ℕ)) (closes : Bool) (rest : Updates) → Tracked
  waits : Tracked

-- the value with which a status ends the loop
unfoldable pub verdict : Option TransactionStatus → Option (Option ℕ)
verdict (some (in_block h)) = some (some h)
verdict (some (finalized h)) = some (some h)
verdict (some (finality_timeout h)) = some (some h)
verdict (some future) = none
verdict (some ready) = none
verdict (some (broadcast nodes)) = none
verdict (some (retracted h)) = none
verdict (some (usurped h)) = some none
verdict (some dropped) = some none
verdict (some invalid) = some none
verdict none = some none

abbrev pub closing : Result (Unit {0}) → Option ℕ → Result (Option ℕ)
closing close h = close >>= λ _. ok h

-- `close` is what `close_request` returns.
unfoldable pub get_request_block_hash : Result (Unit {0}) → Updates → Tracked
get_request_block_hash close [] = waits
get_request_block_hash close (err e ∷ us) = finished (err e) false us
get_request_block_hash close (ok s ∷ us) = elim (verdict s) [
  | some h ↦ finished (closing close h) true us
  | none ↦ get_request_block_hash close us
]

-- Future, Ready, Broadcast or Retracted.
abbrev pub IsPending : Result (Option TransactionStatus) → Type 0
IsPending (ok (some future)) = Unit
IsPending (ok (some ready)) = Unit
IsPending (ok (some (broadcast _))) = Unit
IsPending (ok (some (retracted _))) = Unit
IsPending _ = ⊥

abbrev pub AllPending : Updates → Type 0
AllPending [] = Unit
AllPending (u ∷ us) = IsPending u × AllPending us

pending_verdict : (s : Option TransactionStatus) → IsPending (ok s) → verdict s ≡ none
unfolding verdict
pending_verdict (some future) p = refl
pending_verdict (some ready) p = refl
pending_verdict (some (broadcast _)) p = refl
pending_verdict (some (retracted _)) p = refl
pending_verdict _ p = absurd p

skip_pending :
    (close : Result (Unit {0})) (us vs : Updates)
    → AllPending us
    → get_request_block_hash close (us ++ vs) ≡ get_request_block_hash close vs
unfolding get_request_block_hash
skip_pending close [] vs p = refl
skip_pending close (ok s ∷ us) vs p =
    rw (pending_verdict s p.0, get_request_block_hash) (skip_pending close us vs p.1)
skip_pending close (err e ∷ us) vs p = absurd p.0

-- Whatever pending statuses come first, a retraction among them: the loop waits as long as nothing
-- else comes; it ends with the block hash at the first status that has one, and without a hash at
-- a drop, an invalid or usurped transaction or an empty update, closing the request and leaving the
-- later updates; an error of the connection is passed on, and then the request is not closed.
pub get_request_block_hash_lem :
    (close : Result (Unit {0})) (us vs : Updates) (h : ℕ) (e : Error)
    → AllPending us
    → (get_request_block_hash close us ≡ waits)
      × (get_request_block_hash close (us ++ ok (some (in_block h)) ∷ vs)
          ≡ finished (closing close (some h)) true vs)
      × (get_request_block_hash close (us ++ ok (some (finalized h)) ∷ vs)
          ≡ finished (closing close (some h)) true vs)
      × (get_request_block_hash close (us ++ ok (some (finality_timeout h)) ∷ vs)
          ≡ finished (closing close (some h)) true vs)
      × (get_request_block_hash close (us ++ ok (some (usurped h)) ∷ vs)
          ≡ finished (closing close none) true vs)
      × (get_request_block_hash close (us ++ ok (some dropped) ∷ vs)
          ≡ finished (closing close none) true vs)
      × (get_request_block_hash close (us ++ ok (some invalid) ∷ vs)
          ≡ finished (closing close none) true vs)
      × (get_request_block_hash close (us ++ ok none ∷ vs) ≡ finished (closing close none) true vs)
      × (get_request_block_hash close (us ++ err e ∷ vs) ≡ finished (err e) false vs)
unfolding get_request_block_hash verdict
get_request_block_hash_lem close us vs h e p = (
  rw (← append-nil us) (skip_pending close us [] p),
  skip_pending close us _ p,
  skip_pending close us _ p,
  skip_pending close us _ p,
  skip_pending close us _ p,
  skip_pending close us _ p,
  skip_pending close us _ p,
  skip_pending close us _ p,
  skip_pending close us _ p,
)
