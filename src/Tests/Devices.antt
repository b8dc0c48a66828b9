-- ===== src/Tests/Devices.antt =====
-- A message that is signed in two parts.
use sub_script.Prelude.{
  String, codes, lookup, Option, none, some, Result, ok, ◌++◌, refl, arith, ℕ, ◌≡◌, List, [], ◌∷◌,
  length, replicate,
}
use sub_script.Ledger.Bip44.{AddressBip44}
use sub_script.Ledger.Framing.{to_be_bytes, send_cmd, parse_frame, send_cmd-parse_frame}
use sub_script.Users.{User}
use sub_script.Users.Directory.{new, add_user, get_user, find_by_account, Wf, get_user-again}
use sub_script.Ledger.Signing.{ApduCommand, ApduAnswer, SubstrateApp}

abbrev address : AddressBip44
address = record { slip0044 = 354; account = 0; change = 0; address_index = 1 }

abbrev app : SubstrateApp
app = record { cla = 144; address = address; scheme = 0 }

abbrev message : List ℕ
message = replicate 300 1

abbrev ping : ApduCommand
ping = record { cla = 144; ins = 1; p1 = 0; p2 = 0; payload = 5 ∷ 6 ∷ [] }

abbrev raw_answer : List ℕ → Option ApduAnswer
raw_answer bs = some (record { payload = bs; retcode = 0x9000 })

send_cmd-parse_frame_example :
    (bs : List ℕ) × (send_cmd length raw_answer ping
        (record { sent = []; incoming = 0 ∷ 0 ∷ 0 ∷ 1 ∷ 8 ∷ 144 ∷ 0 ∷ 77 ∷ [] })
      ≡ (
        record { sent = [] ++ bs; incoming = 77 ∷ [] },
        ok (record { payload = 8 ∷ 144 ∷ 0 ∷ []; retcode = 0x9000 }),
      ))
    × (parse_frame bs ≡ some ping)
unfolding to_be_bytes
send_cmd-parse_frame_example =
    send_cmd-parse_frame length raw_answer ping
      (record { sent = []; incoming = 0 ∷ 0 ∷ 0 ∷ 1 ∷ 8 ∷ 144 ∷ 0 ∷ 77 ∷ [] }) 1 (8 ∷ 144 ∷ 0 ∷ [])
      (77 ∷ []) (record { payload = 8 ∷ 144 ∷ 0 ∷ []; retcode = 0x9000 }) (omega arith) (λ bs. refl)
      refl (omega arith) refl refl

-- the seed of a name gives its number of characters
abbrev seed_of : String → Result ℕ
seed_of name = ok (length (codes name))

abbrev nobody : User
nobody = record { nonce = 0; account = 0 }

none-some : (r : ℕ) → ◌≡◌ {A = Option ℕ} none (some r) → ⊥
none-some r h = cc

nobody-Wf : Wf seed_of (new nobody)
unfolding new lookup
nobody-Wf = record {
  bound = λ k r h. absurd (none-some r h);
  seeded = λ k r h. cc;
  held = λ a r h. absurd (none-some r h);
  found = λ k r h. absurd (none-some r h);
}

get_user-again_example :
    Wf seed_of (add_user "Alice" 5 (new nobody))
    × (seed_of "Alice" ≡ ok ((add_user "Alice" 5 (new nobody)).cells 0).account)
    × (get_user seed_of "Alice" (add_user "Alice" 5 (new nobody))
        ≡ (add_user "Alice" 5 (new nobody), ok 0))
    × ((q : ℕ) × (find_by_account
            (add_user "Alice" 5 (new nobody))
            ((add_user "Alice" 5 (new nobody)).cells 0).account
          ≡ some q)
        × (((add_user "Alice" 5 (new nobody)).cells q).account
            ≡ ((add_user "Alice" 5 (new nobody)).cells 0).account))
unfolding get_user new lookup
get_user-again_example =
    get_user-again seed_of "Alice" (new nobody) (add_user "Alice" 5 (new nobody)) 0 nobody-Wf refl
