-- ===== src/Ledger/App.antt =====
-- src/plugins/ledger.rs, `SubstrateApp::{new_polymesh, update_account, set_address, submit_call}`: an account on a
-- device. The device is that of `sign`; the client is the chain's nonce of an account, and the
-- submission of an extrinsic by its text; `signature_of` reads a signature of a scheme, and panics on others.
use sub_script.Prelude.{
  ℕ, ◌+◌, ◌%◌, ◌^◌, Option, none, some, List, [], ◌∷◌, length, take, ltb, if◌then◌else◌, Result, ok,
  err, panicked,
}
use sub_script.Libs.{Libs}
use sub_script.Calls.{EncodedCall}
use sub_script.Users.{or_zero}
use sub_script.Client.Extrinsic.{Wire, AdditionalSigned, Extra, new, using_encoded, signed, to_hex}
use sub_script.Ledger.Bip44.{encode}
use sub_script.Ledger.Signing.{ApduCommand, ApduAnswer, SubstrateApp, is_error, sign}

-- the app with its account, and the type of coin of its addresses
pub record Account : Type 0 where
  pub app : SubstrateApp
  pub slip0044 : ℕ
  pub account_id : List ℕ
  pub nonce : ℕ

abbrev pub ins_get_addr : ℕ
ins_get_addr = 1

abbrev pub slip0044_polymesh : ℕ
slip0044_polymesh = 595

abbrev pub app_polymesh : ℕ
app_polymesh = 0x91

module _ {S : Type 0} (exchange : S → ApduCommand → S × Result ApduAnswer)
    (get_nonce : List ℕ → Result (Option ℕ)) where
  abbrev pub checked : S × Result ApduAnswer → S × Result (List ℕ)
  checked (s, ok a) = (s, is_error a)
  checked (s, err e) = (s, err e)

  unfoldable pub get_address : SubstrateApp → S → S × Result (List ℕ)
  unfolding is_error
  get_address app s = checked (
      exchange s (record {
        cla = app.cla;
        ins = ins_get_addr;
        p1 = 0;
        p2 = app.scheme;
        payload = encode app.address;
      }))

  abbrev pub with_nonce : Account → Result (Option ℕ) → Account × Result (Unit {0})
  with_nonce a (err e) = (a, err e)
  with_nonce a (ok n) = (record a { nonce = or_zero n }, ok tt)

  -- the account is the first 32 bytes of the answer, which are taken before the nonce is asked for
  unfoldable pub take_account : Account → Result (List ℕ) → Account × Result (Unit {0})
  take_account a (err e) = (a, err e)
  take_account a (ok res) =
      if ltb (length res) 32
      then (a, err panicked)
      else with_nonce (record a { account_id = take 32 res }) (get_nonce (take 32 res))

  unfoldable pub update_account : Account → S → S × Account × Result (Unit {0})
  unfolding get_address take_account
  update_account a s =
      let (s', res) = get_address a.app s in let (a', r) = take_account a res in (s', a', r)

  -- the address is changed first, and stays so when the device refuses
  unfoldable pub set_address : Account → ℕ → ℕ → ℕ → S → S × Account × Result (Unit {0})
  unfolding update_account
  set_address a account change address_index s =
      update_account
        (record a {
          app = record a.app {
            address = record {
              slip0044 = a.slip0044;
              account = account;
              change = change;
              address_index = address_index;
            };
          };
        })
        s

  abbrev pub made : S × Account × Result (Unit {0}) → S × Result Account
  made (s, a, ok u) = (s, ok a)
  made (s, a, err e) = (s, err e)

  unfoldable pub new_polymesh : S → S × Result Account
  unfolding update_account
  new_polymesh s = made (
      update_account
        (record {
          app = record {
            cla = app_polymesh;
            address = record {
              slip0044 = slip0044_polymesh;
              account = 0;
              change = 0;
              address_index = 0;
            };
            scheme = 0;
          };
          slip0044 = slip0044_polymesh;
          account_id = [];
          nonce = 0;
        })
        s)

  -- `account_of` is the number that stands for an account's bytes
  module _ (l : Libs) (w : Wire) (immortal : ℕ) (more : AdditionalSigned) (account_of : List ℕ → ℕ)
      (signature_of : ℕ → List ℕ → Option ℕ) (submit : List ℕ → Result (Unit {0})) where
    abbrev pub count_up : Account → Result (Unit {0}) → Account × Result (Unit {0})
    count_up a (err e) = (a, err e)
    count_up a (ok u) = (record a { nonce = (a.nonce + 1) % 2 ^ 32 }, ok u)

    -- the first byte of the device's answer is the kind of signature
    abbrev pub signature_in : ℕ → List ℕ → Option ℕ
    signature_in scheme [] = none
    signature_in scheme (kind ∷ bytes) = signature_of scheme bytes

    unfoldable pub submit_signed :
        Account → EncodedCall → Extra → Result (List ℕ) → Account × Result (Unit {0})
    unfolding signed to_hex
    submit_signed a call extra (err e) = (a, err e)
    submit_signed a call extra (ok answer) = elim (signature_in a.app.scheme answer) [
      | none ↦ (a, err panicked)
      | some sig ↦
          count_up a (submit (to_hex l w (signed (account_of a.account_id) sig extra call)))
    ]

    unfoldable pub submit_call : Account → EncodedCall → S → S × Account × Result (Unit {0})
    unfolding new using_encoded sign submit_signed
    submit_call a call s =
        let extra = new immortal a.nonce in
        let (s', answer) = sign exchange a.app (using_encoded l w call extra more) s in
        let (a', r) = submit_signed a call extra answer in (s', a', r)
