-- ===== src/Users/Directory.antt =====
-- src/users.rs, `User::new` and `InnerUsers`: users by name and by account. A user is shared: here an address in
-- a store, of which `next` is the first that nobody has. `from_seed` is the account of the key pair of a
-- seed, which may be refused.
use sub_script.Prelude.{
  ℕ, ◌+◌, ◌<◌, ◌≡◌, refl, sym, ap, ◌∙◌, ◌⊎◌, ==_iff, ==_refl, String, str_eq, str_eq_iff,
  str_eq_refl, false, Option, none, some, List, [], ◌==◌, if◌then◌else◌, Bool-cases, Option-cases,
  inl, inr, lookup, insert, lookup-insert, Result, ok, err, Result-cases, arith,
}
use mathlib.Core.Path.{subst}
use sub_script.Users.{User}

pub record Users : Type 0 where
  pub users : List (String × ℕ)
  pub account_map : ℕ → Option ℕ
  pub cells : ℕ → User
  pub next : ℕ

unfoldable pub new : User → Users
new blank = record { users = []; account_map = λ a. none; cells = λ r. blank; next = 0 }

unfoldable pub find_by_account : Users → ℕ → Option ℕ
find_by_account us acc = us.account_map acc

abbrev pub put {ℓ} : {A : Type ℓ} → ℕ → A → (ℕ → A) → ℕ → A
put r a f j = if r == j then a else f j

-- the new user of a name, with both entries
unfoldable pub add_user : String → ℕ → Users → Users
add_user name account us = record {
  users = insert name us.next us.users;
  account_map = put account (some us.next) us.account_map;
  cells = put us.next (record { nonce = 0; account = account }) us.cells;
  next = us.next + 1;
}

module _ (from_seed : String → Result ℕ) where
  abbrev pub made : String → Users → Result ℕ → Users × Result ℕ
  made name us (err e) = (us, err e)
  made name us (ok account) = (add_user name account us, ok us.next)

  unfoldable pub get_user : String → Users → Users × Result ℕ
  unfolding add_user
  get_user name us = elim (lookup name us.users) [
    | some r ↦ (us, ok r)
    | none ↦ made name us (from_seed name)
  ]

  -- A named user has the account of its name and is found by an account that a user of the same
  -- account holds.
  pub record Wf (us : Users) : Type 0 where
    pub bound : (k : String) (r : ℕ) → lookup k us.users ≡ some r → r < us.next
    pub seeded :
        (k : String) (r : ℕ) → lookup k us.users ≡ some r → from_seed k ≡ ok (us.cells r).account
    pub held : (a r : ℕ) → us.account_map a ≡ some r → (r < us.next) × ((us.cells r).account ≡ a)
    pub found :
        (k : String) (r : ℕ)
        → lookup k us.users ≡ some r
        → (q : ℕ) × (us.account_map (us.cells r).account ≡ some q)

  -- a name is the new one, or an older one with an older cell
  module _ (name : String) (us : Users) (v : Wf us) where
    new_or_old :
        (k : String) (r : ℕ)
        → lookup k (insert name us.next us.users) ≡ some r
        → ((k ≡ name) × (r ≡ us.next)) ⊎ (lookup k us.users ≡ some r)
    new_or_old k r l = elim (Bool-cases (str_eq name k)) [
      | inl same ↦
          let at_new : ◌≡◌ {A = Option ℕ} (some us.next) (some r) =
            rw same at (sym (lookup-insert name k us.next us.users) ∙ l) in
          let this : us.next ≡ r = cc in inl (sym ((str_eq_iff name k).0 same), sym this)
      | inr other ↦ inr (rw other at (sym (lookup-insert name k us.next us.users) ∙ l))
    ]

  Wf-add_user :
      (name : String) (account : ℕ) (us : Users)
      → Wf us
      → from_seed name ≡ ok account
      → Wf (add_user name account us)
  unfolding add_user
  Wf-add_user name account us v seed = record {
    bound = λ k r l. elim (new_or_old name us v k r l) [
      | inl (n, e) ↦ omega (arith, e)
      | inr old ↦ omega (arith, v.bound k r old)
    ];
    seeded = λ k r l. elim (new_or_old name us v k r l) [
      | inl (n, e) ↦ rw n (rw e (rw (==_refl us.next) seed))
      | inr old ↦
          let apart : (us.next == r) ≡ false = ground (arith, v.bound k r old) in
          rw apart (v.seeded k r old)
    ];
    held = λ a r l. elim (Bool-cases (account == a)) [
      | inl here ↦
          let at_new : ◌≡◌ {A = Option ℕ} (some us.next) (some r) = rw here at l in
          let this : us.next ≡ r = cc in
          (omega (arith, this), rw (← this) (rw (==_refl us.next) ((==_iff account a).0 here)))
      | inr there ↦
          let (lt, e) = v.held a r (rw there at l) in
          let apart : (us.next == r) ≡ false = ground (arith, lt) in (omega (arith, lt), rw apart e)
    ];
    found = λ k r l. elim (new_or_old name us v k r l) [
      | inl (n, e) ↦ (us.next, rw e (rw (==_refl us.next) (rw (==_refl account) refl)))
      | inr old ↦
          let apart : (us.next == r) ≡ false = ground (arith, v.bound k r old) in
          rw apart (elim (Bool-cases (account == (us.cells r).account)) [
            | inl here ↦ (us.next, rw here refl)
            | inr there ↦ let (q, e) = v.found k r old in (q, rw there e)
          ])
    ];
  }

  abbrev Registers : String → Users × Result ℕ → Type 0
  Registers name p = Wf p.0 × ((r : ℕ) → p.1 ≡ ok r → lookup name p.0.users ≡ some r)

  Registers-get_user : (name : String) (us : Users) → Wf us → Registers name (get_user name us)
  unfolding get_user add_user
  Registers-get_user name us v = elim (Option-cases (lookup name us.users)) [
    | inr (q, e) ↦ rw (e, get_user) (v, (λ r h. let same : q ≡ r = cc in e ∙ ap some same))
    | inl e ↦
        rw (e, get_user)
          (elim (Result-cases (from_seed name)) [
            | inr (x, bad) ↦ rw bad (v, (λ r h. cc))
            | inl (account, seed) ↦ rw seed (
              Wf-add_user name account us v seed,
              (λ r h.
                  let same : us.next ≡ r = cc in
                  lookup-insert name name us.next us.users ∙ rw (str_eq_refl name) (ap some same)),
            )
          ])
  ]

  again :
      (name : String) (us : Users) (r : ℕ)
      → lookup name us.users ≡ some r
      → get_user name us ≡ (us, ok r)
  unfolding get_user
  again name us r e = rw (e, get_user) refl

  -- A user that is asked for by name, and given, on well-formed users: they stay well-formed; the user
  -- has the account of the name's seed; it is given again for the name, with nothing changed; and by
  -- its account a user of that account is found.
  pub get_user-again :
      (name : String) (us us' : Users) (r : ℕ)
      → Wf us
      → get_user name us ≡ (us', ok r)
      → Wf us'
        × (from_seed name ≡ ok (us'.cells r).account)
        × (get_user name us' ≡ (us', ok r))
        × ((q : ℕ) × (find_by_account us' (us'.cells r).account ≡ some q)
            × ((us'.cells q).account ≡ (us'.cells r).account))
  unfolding find_by_account
  get_user-again name us us' r v given =
      let (v', named) = subst (Registers name) given (Registers-get_user name us v) in
      let there : lookup name us'.users ≡ some r = named r refl in
      let (q, e) = v'.found name r there in
      let (lt, same) = v'.held (us'.cells r).account q e in
      (v', v'.seeded name r there, again name us' r there, (q, e, same))
