-- ===== src/Client/CallResult.antt =====
-- src/client.rs, `Block::find_extrinsic`, `EventRecords::filter` and `InnerCallResult`. What the client
-- returns for a block is a parameter: its extrinsics, and its decoded events.
use sub_script.Prelude.{
  ℕ, suc, ◌≡◌, Bool, true, false, String, str_eq, codes, Option, none, some, List, [], ◌∷◌, ◌==◌,
  if◌then◌else◌, Result, ok, ◌>>=◌, arith,
}

pub data Phase : Type 0 where
  apply_extrinsic : ℕ → Phase
  finalization initialization : Phase

abbrev pub phase_eq : Phase → Phase → Bool
phase_eq (apply_extrinsic i) (apply_extrinsic j) = i == j
phase_eq finalization finalization = true
phase_eq initialization initialization = true
phase_eq _ _ = false

-- the arguments and topics of an event by a number
pub record EventRecord : Type 0 where
  pub phase : Phase
  pub name : String
  pub payload : ℕ

-- `self.0.retain(|ev| ev.phase == phase)`
unfoldable pub filter_phase : Phase → List EventRecord → List EventRecord
filter_phase p [] = []
filter_phase p (e ∷ es) =
    let rest = filter_phase p es in if phase_eq e.phase p then e ∷ rest else rest

-- `position`
unfoldable pub find_extrinsic : String → List String → Option ℕ
find_extrinsic x [] = none
find_extrinsic x (y ∷ ys) =
    let rest = find_extrinsic x ys in
    if str_eq y x then some 0 else elim rest [ none ↦ none | some i ↦ some (suc i) ]

abbrev pub is_prefix : List ℕ → List ℕ → Bool
is_prefix [] s = true
is_prefix (a ∷ p) [] = false
is_prefix (a ∷ p) (b ∷ s) = if a == b then is_prefix p s else false

unfoldable pub starts_with : String → String → Bool
starts_with p s = is_prefix (codes p) (codes s)

pub record ChainView : Type 0 where
  pub get_block : ℕ → Result (Option (List String))
  pub get_events : ℕ → Result (List EventRecord)

pub record CallResult : Type 0 where
  pub hash : Option ℕ
  pub xthex : String
  pub idx : Option ℕ
  pub events : Option (List EventRecord)

abbrev pub position_in : String → Option (List String) → Option ℕ
position_in x none = none
position_in x (some xs) = find_extrinsic x xs

abbrev pub of_call : Option ℕ → List EventRecord → List EventRecord
of_call none es = es
of_call (some i) es = filter_phase (apply_extrinsic i) es

-- `load_events` once the hash has been looked for
unfoldable pub load_from : ChainView → CallResult → Option ℕ → Result CallResult
load_from chain r none = ok (record r { events = some [] })
load_from chain r (some h) = do
  block ← chain.get_block h
  all ← chain.get_events h
  ok (record r {
    idx = position_in r.xthex block;
    events = some (of_call (position_in r.xthex block) all);
  })

-- The hash is asked for until it is known; `found` is what the tracking gives.
unfoldable pub load_events : ChainView → (Result (Option ℕ)) → CallResult → Result CallResult
unfolding load_from
load_events chain found r = elim r.events [
  | some _ ↦ ok r
  | none ↦ elim r.hash [
    | some h ↦ load_from chain r (some h)
    | none ↦ found >>= λ h. load_from chain (record r { hash = h }) h
  ]
]

unfoldable pub filter_name : String → List EventRecord → List EventRecord
filter_name p [] = []
filter_name p (e ∷ es) =
    let rest = filter_name p es in if starts_with p e.name then e ∷ rest else rest

abbrev pub or_empty : Option (List EventRecord) → List EventRecord
or_empty none = []
or_empty (some es) = es

unfoldable pub events_filtered :
    ChainView → Result (Option ℕ) → String → CallResult → Result (CallResult × List EventRecord)
unfolding load_events filter_name
events_filtered chain found p r = do
  r' ← load_events chain found r
  ok (r', filter_name p (or_empty r'.events))

abbrev pub is_nonempty : List EventRecord → Bool
is_nonempty [] = false
is_nonempty (_ ∷ _) = true

unfoldable pub is_success : ChainView → Result (Option ℕ) → CallResult → Result Bool
unfolding events_filtered
is_success chain found r = do
  (r', es) ← events_filtered chain found "System.ExtrinsicSuccess" r
  ok (is_nonempty es)

-- Every event of the list is of the extrinsic.
abbrev pub AllPhase : Phase → List EventRecord → Type 0
AllPhase p [] = Unit
AllPhase p (e ∷ es) = (phase_eq e.phase p ≡ true) × AllPhase p es

-- When the block does not hold the extrinsic, success is read off the events of the whole block:
-- the success of any other extrinsic counts.
pub is_success_unfound :
    (chain : ChainView) (r : CallResult) (h : ℕ) (xs : List String) (all : List EventRecord)
    → r.events ≡ none
    → r.hash ≡ none
    → chain.get_block h ≡ ok (some xs)
    → chain.get_events h ≡ ok all
    → find_extrinsic r.xthex xs ≡ none
    → is_success chain (ok (some h)) r
      ≡ ok (is_nonempty (filter_name "System.ExtrinsicSuccess" all))
unfolding is_success
is_success_unfound chain r h xs all no_events no_hash block events missing = ground arith
