-- ===== src/Ledger/Bip44.antt =====
-- src/plugins/ledger.rs, `AddressBip44`: a derivation path of five little-endian words.
use sub_script.Prelude.{ℕ, ◌+◌, ◌*◌, ◌/◌, ◌%◌, ◌^◌, List, [], ◌∷◌, ◌++◌}

pub record AddressBip44 : Type 0 where
  pub slip0044 : ℕ
  pub account : ℕ
  pub change : ℕ
  pub address_index : ℕ

-- `HIGH_BIT | x` on a u32
abbrev pub harden : ℕ → ℕ
harden x = 2 ^ 31 + x % 2 ^ 31

-- `u32::to_le_bytes`
unfoldable pub to_le_bytes : ℕ → List ℕ
to_le_bytes x = x % 256 ∷ (x / 256) % 256 ∷ (x / 65536) % 256 ∷ (x / 16777216) % 256 ∷ []

unfoldable pub encode : AddressBip44 → List ℕ
unfolding to_le_bytes
encode a =
    to_le_bytes (harden 44)
    ++ (to_le_bytes (harden a.slip0044)
        ++ (to_le_bytes (harden a.account)
            ++ (to_le_bytes (harden a.change) ++ to_le_bytes (harden a.address_index))))

-- Reading a path: the words, without the mark of a hardened index.
pub word : ℕ → ℕ → ℕ → ℕ → ℕ
word a b c d = a + 256 * b + 65536 * c + 16777216 * d

abbrev pub words : List ℕ → List ℕ
words (a ∷ b ∷ c ∷ d ∷ rest) = word a b c d ∷ words rest
words _ = []
