-- ===== src/Users.antt =====
-- src/users.rs, `User::submit_call`: the nonce of a user. The client is a parameter: the nonce that the
-- chain knows for the account, and the submission of an extrinsic that is signed with a nonce.
pub mod Directory
use sub_script.Prelude.{
  ℕ, suc, ◌+◌, ◌%◌, ◌^◌, ◌<◌, ◌≡◌, ap, ◌∙◌, false, Option, none, some, List, [], ◌∷◌, ◌==◌,
  if◌then◌else◌, Result, ok, err, arith,
}
use native.Mathlib.Nat.{mod-eq_of_lt}

pub record User : Type 0 where
  pub nonce : ℕ
  pub account : ℕ

abbrev pub or_zero : Option ℕ → ℕ
or_zero none = 0
or_zero (some n) = n

-- A call is a number. The nonce stays as loaded when the submission fails.
module _ (get_nonce : ℕ → Result (Option ℕ)) (submit : ℕ → ℕ → Result (Unit {0})) where
  unfoldable pub submit_loaded : User → ℕ → User × Result (Unit {0})
  submit_loaded u call = elim (submit u.nonce call) [
    | err e ↦ (u, err e)
    | ok r ↦ (record u { nonce = (u.nonce + 1) % 2 ^ 32 }, ok r)
  ]

  unfoldable pub load_and_submit : User → ℕ → Result (Option ℕ) → User × Result (Unit {0})
  unfolding submit_loaded
  load_and_submit u call (err e) = (u, err e)
  load_and_submit u call (ok n) = submit_loaded (record u { nonce = or_zero n }) call

  unfoldable pub submit_call : User → ℕ → User × Result (Unit {0})
  unfolding load_and_submit submit_loaded
  submit_call u call =
      if u.nonce == 0 then load_and_submit u call (get_nonce u.account) else submit_loaded u call

-- a client that accepts every call, and the nonces and calls that it is given
abbrev pub accepts : ℕ → ℕ → Result (Unit {0})
accepts n call = ok tt

abbrev pub submit_all : (ℕ → Result (Option ℕ)) → User → List ℕ → User
submit_all get_nonce u [] = u
submit_all get_nonce u (call ∷ calls) =
    submit_all get_nonce (submit_call get_nonce accepts u call).0 calls

abbrev pub count_calls : List ℕ → ℕ
count_calls [] = 0
count_calls (_ ∷ cs) = suc (count_calls cs)

submit_step :
    (get_nonce : ℕ → Result (Option ℕ)) (u : User) (call : ℕ)
    → 0 < u.nonce
    → u.nonce + 1 < 2 ^ 32
    → submit_call get_nonce accepts u call ≡ (record u { nonce = u.nonce + 1 }, ok tt)
unfolding submit_call submit_loaded
submit_step get_nonce u call pos small =
    let m : (u.nonce + 1) % 2 ^ 32 ≡ u.nonce + 1 = mod-eq_of_lt small in
    let loaded : (u.nonce == 0) ≡ false = ground arith in rw (loaded, submit_call) (rw m)

-- A user with a loaded nonce that makes some calls, each accepted, has a nonce that is larger by
-- their number, as long as it stays below 2 ^ 32; the chain is not asked for the nonce again.
pub nonce-submit_all :
    (get_nonce : ℕ → Result (Option ℕ)) (u : User) (calls : List ℕ)
    → 0 < u.nonce
    → u.nonce + count_calls calls < 2 ^ 32
    → (submit_all get_nonce u calls).nonce ≡ u.nonce + count_calls calls
nonce-submit_all get_nonce u [] pos small = omega arith
nonce-submit_all get_nonce u (call ∷ calls) pos small =
    ap (λ x. (submit_all get_nonce x.0 calls).nonce)
      (submit_step get_nonce u call pos (omega arith))
    ∙ omega (
      arith,
      nonce-submit_all get_nonce (record u { nonce = u.nonce + 1 }) calls (omega arith)
          (omega arith),
    )
