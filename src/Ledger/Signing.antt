-- ===== src/Ledger/Signing.antt =====
-- src/plugins/ledger.rs, `SubstrateApp::{send_cmd, is_error, sign}`: a message goes to the device in chunks.
-- The device is a parameter: a state and an exchange of a command for a return code and data.
use sub_script.Prelude.{
  ℕ, zero, suc, ◌≤◌, ◌<◌, List, [], ◌∷◌, ◌++◌, length, take, drop, ◌==◌, if◌then◌else◌, Result, ok,
  err, device_error,
}
use sub_script.Ledger.Bip44.{AddressBip44, encode}

abbrev pub chunk_size : ℕ
chunk_size = 250

abbrev pub ins_sign : ℕ
ins_sign = 2

abbrev pub sign_init : ℕ
sign_init = 0

abbrev pub sign_add : ℕ
sign_add = 1

abbrev pub sign_last : ℕ
sign_last = 2

pub record ApduCommand : Type 0 where
  pub cla : ℕ
  pub ins : ℕ
  pub p1 : ℕ
  pub p2 : ℕ
  pub payload : List ℕ

pub record ApduAnswer : Type 0 where
  pub payload : List ℕ
  pub retcode : ℕ

pub record SubstrateApp : Type 0 where
  pub cla : ℕ
  pub address : AddressBip44
  pub scheme : ℕ

-- `data.chunks(CHUNK_SIZE)`, on fuel
unfoldable pub chunks : ℕ → List ℕ → List (List ℕ)
chunks zero xs = []
chunks (suc fuel) [] = []
chunks (suc fuel) (x ∷ xs) = take chunk_size (x ∷ xs) ∷ chunks fuel (drop chunk_size (x ∷ xs))

unfoldable pub is_error : ApduAnswer → Result (List ℕ)
is_error a = if a.retcode == 0x9000 then ok a.payload else err device_error

-- `chunks.peek().is_some()`
abbrev pub p1_of : List (List ℕ) → ℕ
p1_of [] = sign_last
p1_of (_ ∷ _) = sign_add

module _ {S : Type 0} (exchange : S → ApduCommand → S × Result ApduAnswer) where
  abbrev pub answered : S × Result ApduAnswer → S × Result (List ℕ)
  answered (s, ok a) = (s, is_error a)
  answered (s, err e) = (s, err e)

  unfoldable pub send_cmd : SubstrateApp → ℕ → ℕ → List ℕ → S → S × Result (List ℕ)
  unfolding is_error
  send_cmd app p1 p2 d s =
      answered
        (exchange s (record { cla = app.cla; ins = ins_sign; p1 = p1; p2 = p2; payload = d }))

  abbrev pub after : S × Result (List ℕ) → (S → List ℕ → S × Result (List ℕ)) → S × Result (List ℕ)
  after (s, ok r) f = f s r
  after (s, err e) f = (s, err e)

  -- `while let Some(chunk) = chunks.next()`, with the last response
  unfoldable pub sign_chunks : SubstrateApp → List (List ℕ) → S → List ℕ → S × Result (List ℕ)
  unfolding send_cmd
  sign_chunks app [] s resp = (s, ok resp)
  sign_chunks app (c ∷ cs) s resp =
      after (send_cmd app (p1_of cs) app.scheme c s) (λ s' resp'. sign_chunks app cs s' resp')

  -- A chunk takes a byte at least, so the length is fuel enough.
  unfoldable pub sign : SubstrateApp → List ℕ → S → S × Result (List ℕ)
  unfolding send_cmd sign_chunks chunks
  sign app d s =
      after (send_cmd app sign_init app.scheme (encode app.address) s)
        (λ s' resp. sign_chunks app (chunks (length d) d) s' resp)

pub join : List (List ℕ) → List ℕ
join [] = []
join (c ∷ cs) = c ++ join cs

-- what the device has been sent, if it accepts everything
abbrev pub accepting : List ApduCommand → ApduCommand → List ApduCommand × Result ApduAnswer
accepting log c = (log ++ c ∷ [], ok (record { payload = []; retcode = 0x9000 }))

abbrev pub command : SubstrateApp → ℕ → List ℕ → ApduCommand
command app p1 d = record { cla = app.cla; ins = ins_sign; p1 = p1; p2 = app.scheme; payload = d }

-- every part but the last is marked as one more, the last as the last
abbrev pub commands : SubstrateApp → List (List ℕ) → List ApduCommand
commands app [] = []
commands app (c ∷ cs) = command app (p1_of cs) c ∷ commands app cs

abbrev pub AllSmall : List (List ℕ) → Type 0
AllSmall [] = Unit
AllSmall (c ∷ cs) = (0 < length c) × (length c ≤ chunk_size) × AllSmall cs
