-- ===== src/Prelude/Int.antt =====
-- The integers of the program: `negsuc n` is -(n + 1), and the casts between machine widths.
use Prim.Native.Nat.{ℕ, ◌-◌, ◌%◌, ◌^◌, ◌<◌}
use sub_script.Prelude.Lists.{ltb, if◌then◌else◌}
use mathlib.Core.Bool.{Bool, true, false}

pub data ℤ : Type 0 where
  pos : ℕ → ℤ
  negsuc : ℕ → ℤ

-- Rust's `z as uN` of a signed value: the residue modulo 2 ^ bits.
abbrev pub as_unsigned : ℕ → ℤ → ℕ
as_unsigned bits (pos n) = n % 2 ^ bits
as_unsigned bits (negsuc n) = 2 ^ bits - 1 - n % 2 ^ bits

-- The two's complement reading of a residue.
abbrev pub to_signed : ℕ → ℕ → ℤ
to_signed bits u = if ltb u (2 ^ (bits - 1)) then pos u else negsuc (2 ^ bits - 1 - u)

-- Rust's `z as iN` or `z as uN`.
abbrev pub cast : ℕ → Bool → ℤ → ℤ
cast bits true z = to_signed bits (as_unsigned bits z)
cast bits false z = pos (as_unsigned bits z)

-- The values of the type iN or uN.
abbrev pub InRange : ℕ → Bool → ℤ → Type 0
InRange bits true (pos n) = n < 2 ^ (bits - 1)
InRange bits true (negsuc n) = n < 2 ^ (bits - 1)
InRange bits false (pos n) = n < 2 ^ bits
InRange bits false (negsuc n) = ⊥
