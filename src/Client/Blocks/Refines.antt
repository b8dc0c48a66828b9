-- ===== src/Client/Blocks/Refines.antt =====
-- src/client.rs, the caches of `InnerClient` against the node: an abstract client that remembers only of which
-- blocks it has heard.
use sub_script.Prelude.{
  ℕ, ◌≡◌, refl, ap, ◌∙◌, Option, none, some, List, [], ◌∷◌, Bool, true, false, ◌==◌, ==_iff,
  if◌then◌else◌, Bool-cases, inl, inr, Result, ok, err,
}
use sub_script.Dynamic.{Dynamic}
use sub_script.Client.Blocks.{
  Block, Caches, no_caches, NodeBlock, NodeEvents, typed, keep_block, get_block, keep_events,
  get_events,
}

-- A request with what the node would answer at its time.
pub data Request : Type 0 where
  ask_block : Option ℕ → NodeBlock → Request
  ask_events : Option ℕ → NodeEvents → Request

pub data Reply : Type 0 where
  block_reply : Result (Option Block) → Reply
  events_reply : Result Dynamic → Reply

abbrev pub as_reply {ℓ} : {A : Type ℓ} {S : Type 0} → (A → Reply) → S × A → S × Reply
as_reply f (s, a) = (s, f a)

-- the requests one after the other, on any kind of state
abbrev pub replies : {S : Type 0} → (Request → S → S × Reply) → S → List Request → List Reply
replies step s [] = []
replies step s (r ∷ rs) = (step r s).1 ∷ replies step (step r s).0 rs

-- the hashes of which a block, or events, have come
pub record Known : Type 0 where
  pub of_block : ℕ → Bool
  pub of_events : ℕ → Bool

abbrev pub unknown : Known
unknown = record { of_block = λ h. false; of_events = λ h. false }

abbrev pub note : ℕ → (ℕ → Bool) → ℕ → Bool
note h f k = if h == k then true else f k

module _ (call_ty : ℕ) where
  unfoldable pub cached_step : Request → Caches → Caches × Reply
  cached_step (ask_block o node) c = as_reply block_reply (get_block call_ty node o c)
  cached_step (ask_events o node) c = as_reply events_reply (get_events node o c)

  -- `blocks` and `events` are what the chain has under a hash
  module _ (blocks : ℕ → Block) (events : ℕ → Dynamic) where
    abbrev pub hear_block : ℕ → Result (Option Block) → Known → Known × Reply
    hear_block h (ok (some b)) k =
        (record k { of_block = note h k.of_block }, block_reply (ok (some (typed call_ty b))))
    hear_block h r k = (k, block_reply r)

    abbrev pub hear_events : ℕ → Result Dynamic → Known → Known × Reply
    hear_events h (ok v) k = (record k { of_events = note h k.of_events }, events_reply (ok v))
    hear_events h r k = (k, events_reply r)

    -- The abstract client: of a block it has heard of it gives what the chain has, and of another what
    -- the node answers.
    unfoldable pub abstract_step : Request → Known → Known × Reply
    abstract_step (ask_block none node) k = (k, block_reply (node none))
    abstract_step (ask_block (some h) node) k =
        if k.of_block h
        then (k, block_reply (ok (some (typed call_ty (blocks h)))))
        else hear_block h (node (some h)) k
    abstract_step (ask_events none node) k = (k, events_reply (node none))
    abstract_step (ask_events (some h) node) k =
        if k.of_events h then (k, events_reply (ok (events h))) else hear_events h (node (some h)) k

    -- A node may fail, but what it gives under a hash is what the chain has.
    abbrev pub IsHonest : Request → Type 0
    IsHonest (ask_block o node) = (h : ℕ) (b : Block) → node (some h) ≡ ok (some b) → b ≡ blocks h
    IsHonest (ask_events o node) = (h : ℕ) (v : Dynamic) → node (some h) ≡ ok v → v ≡ events h

    abbrev pub AllHonest : List Request → Type 0
    AllHonest [] = Unit
    AllHonest (r ∷ rs) = IsHonest r × AllHonest rs

    pub record Represents (c : Caches) (k : Known) : Type 0 where
      pub same_blocks :
          (h : ℕ)
          → c.cached_blocks h ≡ (if k.of_block h then some (typed call_ty (blocks h)) else none)
      pub same_events :
          (h : ℕ) → c.cached_events h ≡ (if k.of_events h then some (events h) else none)

    abbrev pub Matches : Caches × Reply → Known × Reply → Type 0
    Matches p q = Represents p.0 q.0 × (p.1 ≡ q.1)

    Matches-keep_block :
        (h : ℕ) (r : Result (Option Block)) (c : Caches) (k : Known)
        → Represents c k
        → ((b : Block) → r ≡ ok (some b) → b ≡ blocks h)
        → Matches (as_reply block_reply (keep_block call_ty h r c)) (hear_block h r k)
    unfolding keep_block
    Matches-keep_block h (ok none) c k rep honest = (rep, refl)
    Matches-keep_block h (err e) c k rep honest = (rep, refl)
    Matches-keep_block h (ok (some b)) c k rep honest = (
      record {
        same_blocks = λ j. elim (Bool-cases (h == j)) [
          | inl here ↦
              let same : h ≡ j = (==_iff h j).0 here in
              rw here (ap (λ x. some (typed call_ty x)) (honest b refl ∙ ap blocks same))
          | inr there ↦ rw there (rep.same_blocks j)
        ];
        same_events = rep.same_events;
      },
      refl,
    )

    Matches-keep_events :
        (h : ℕ) (r : Result Dynamic) (c : Caches) (k : Known)
        → Represents c k
        → ((v : Dynamic) → r ≡ ok v → v ≡ events h)
        → Matches (as_reply events_reply (keep_events h r c)) (hear_events h r k)
    unfolding keep_events
    Matches-keep_events h (err e) c k rep honest = (rep, refl)
    Matches-keep_events h (ok v) c k rep honest = (
      record {
        same_blocks = rep.same_blocks;
        same_events = λ j. elim (Bool-cases (h == j)) [
          | inl here ↦
              let same : h ≡ j = (==_iff h j).0 here in
              rw here (ap some (honest v refl ∙ ap events same))
          | inr there ↦ rw there (rep.same_events j)
        ];
      },
      refl,
    )

    Matches-step :
        (r : Request) (c : Caches) (k : Known)
        → Represents c k
        → IsHonest r
        → Matches (cached_step r c) (abstract_step r k)
    unfolding cached_step abstract_step get_block get_events
    Matches-step (ask_block none node) c k rep honest = (rep, refl)
    Matches-step (ask_events none node) c k rep honest = (rep, refl)
    Matches-step (ask_block (some h) node) c k rep honest = elim (Bool-cases (k.of_block h)) [
      | inl heard ↦
          let found : c.cached_blocks h ≡ some (typed call_ty (blocks h)) =
            rw heard at (rep.same_blocks h) in
          rw (found, get_block) (rw heard (rep, refl))
      | inr new ↦
          let missing : c.cached_blocks h ≡ none = rw new at (rep.same_blocks h) in
          rw (missing, get_block) (rw new (Matches-keep_block h (node (some h)) c k rep (honest h)))
    ]
    Matches-step (ask_events (some h) node) c k rep honest = elim (Bool-cases (k.of_events h)) [
      | inl heard ↦
          let found : c.cached_events h ≡ some (events h) = rw heard at (rep.same_events h) in
          rw (found, get_events) (rw heard (rep, refl))
      | inr new ↦
          let missing : c.cached_events h ≡ none = rw new at (rep.same_events h) in
          rw (missing, get_events)
            (rw new (Matches-keep_events h (node (some h)) c k rep (honest h)))
    ]

    replies-Represents :
        (rs : List Request) (c : Caches) (k : Known)
        → Represents c k
        → AllHonest rs
        → replies cached_step c rs ≡ replies abstract_step k rs
    replies-Represents [] c k rep honest = refl
    replies-Represents (r ∷ rs) c k rep honest =
        let (rep', same) = Matches-step r c k rep honest.0 in
        let rest = replies-Represents rs (cached_step r c).0 (abstract_step r k).0 rep' honest.1 in
        rw same (rw rest refl)

-- The client with its caches, from empty ones, over any requests for blocks and events, gives what
-- the abstract client gives, if the node may fail at any time but what it gives under a hash is
-- always what the chain has: a block of which it has heard comes without the node, with the type
-- of calls, and of another block the node's answer is passed on, failures too.
pub replies-cached_step :
    (call_ty : ℕ) (blocks : ℕ → Block) (events : ℕ → Dynamic) (rs : List Request)
    → AllHonest call_ty blocks events rs
    → replies (cached_step call_ty) no_caches rs
      ≡ replies (abstract_step call_ty blocks events) unknown rs
unfolding no_caches
replies-cached_step call_ty blocks events rs honest =
    replies-Represents call_ty blocks events rs no_caches unknown
      (record { same_blocks = λ h. refl; same_events = λ h. refl }) honest
