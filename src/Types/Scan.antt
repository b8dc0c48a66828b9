-- ===== src/Types/Scan.antt =====
-- The operations of Rust's `str` that src/types.rs calls to take type texts apart. A character is
-- tested by its code point.
pub mod Weight
use Prim.Native.Char.{Char, code}
use Prim.Native.String.{String, [], ◌∷◌, ◌++◌}
use mathlib.Core.List
use mathlib.Core.List.{List}
use sub_script.Prelude.{
  ℕ, zero, suc, ◌+◌, ◌-◌, ◌*◌, ◌^◌, Bool, true, false, ◌&&◌, ◌||◌, not, Option, none, some, leb,
  ltb, ◌==◌, if◌then◌else◌,
}

-- `char::is_whitespace`
unfoldable pub is_space : ℕ → Bool
is_space c =
    (leb 9 c && leb c 13)
    || c == 32
    || c == 133
    || c == 160
    || c == 5760
    || (leb 8192 c && leb c 8202)
    || c == 8232
    || c == 8233
    || c == 8239
    || c == 8287
    || c == 12288

-- Characters that pass the test are taken off the front, or off the end.
unfoldable pub trim_start : (ℕ → Bool) → String → String
trim_start p [] = []
trim_start p (c ∷ s) = let rest = trim_start p s in if p (code c) then rest else c ∷ s

abbrev pub cons_kept : (ℕ → Bool) → Char → String → String
cons_kept p c [] = if p (code c) then [] else c ∷ []
cons_kept p c (d ∷ s) = c ∷ d ∷ s

unfoldable pub trim_end : (ℕ → Bool) → String → String
trim_end p [] = []
trim_end p (c ∷ s) = cons_kept p c (trim_end p s)

-- `trim_matches`, and `trim`
unfoldable pub trim_matches : (ℕ → Bool) → String → String
unfolding trim_start trim_end
trim_matches p s = trim_end p (trim_start p s)

unfoldable pub trim : String → String
unfolding trim_matches is_space
trim = trim_matches is_space

-- `replace` of a character by nothing
unfoldable pub remove_char : ℕ → String → String
remove_char a [] = []
remove_char a (c ∷ s) = let rest = remove_char a s in if code c == a then rest else c ∷ rest

abbrev pub is_start : String → String → Bool
is_start [] s = true
is_start (a ∷ p) [] = false
is_start (a ∷ p) (b ∷ s) = if code a == code b then is_start p s else false

-- `replace` of a text by nothing: at each place where it begins, so many characters are left out.
unfoldable pub remove_from : String → ℕ → ℕ → String → String
remove_from p len skip [] = []
remove_from p len (suc skip) (c ∷ s) = remove_from p len skip s
remove_from p len zero (c ∷ s) =
    let rest = remove_from p len zero s in
    let past = remove_from p len (len - 1) s in if is_start p (c ∷ s) then past else c ∷ rest

unfoldable pub last_char : String → Option ℕ
last_char [] = none
last_char (c ∷ []) = some (code c)
last_char (c ∷ d ∷ s) = last_char (d ∷ s)

abbrev pub ends_in : ℕ → String → Bool
ends_in a s = elim (last_char s) [ none ↦ false | some c ↦ c == a ]

-- `strip_suffix` of the last character
unfoldable pub drop_last : String → String
drop_last [] = []
drop_last (c ∷ []) = []
drop_last (c ∷ d ∷ s) = c ∷ drop_last (d ∷ s)

abbrev pub before : Char → Option (String × String) → Option (String × String)
before c none = none
before c (some (a, b)) = some (c ∷ a, b)

unfoldable pub split_once : ℕ → String → Option (String × String)
split_once a [] = none
split_once a (c ∷ s) =
    let rest = split_once a s in if code c == a then some ([], s) else before c rest

abbrev pub onto_first : Char → List String → List String
onto_first c List.[] = List.◌∷◌ (c ∷ []) List.[]
onto_first c (List.◌∷◌ s ss) = List.◌∷◌ (c ∷ s) ss

-- `split_terminator`: an empty last piece is left out.
unfoldable pub split_terminator : ℕ → String → List String
split_terminator a [] = List.[]
split_terminator a (c ∷ s) =
    let rest = split_terminator a s in if code c == a then List.◌∷◌ [] rest else onto_first c rest

unfoldable pub count_char : ℕ → String → ℕ
count_char a [] = 0
count_char a (c ∷ s) = if code c == a then suc (count_char a s) else count_char a s

abbrev pub is_digit : ℕ → Bool
is_digit c = leb 48 c && leb c 57

-- the digits of a decimal number, behind the number so far
unfoldable pub digits : ℕ → String → Option ℕ
digits n [] = if ltb n (2 ^ 64) then some n else none
digits n (c ∷ s) =
    let rest = digits (n * 10 + (code c - 48)) s in if is_digit (code c) then rest else none

-- `parse::<usize>` on 64 bits
unfoldable pub parse_usize : String → Option ℕ
unfolding digits
parse_usize [] = none
parse_usize (c ∷ []) = if is_digit (code c) then some (code c - 48) else none
parse_usize (c ∷ d ∷ s) = if code c == b'+' then digits 0 (d ∷ s) else digits 0 (c ∷ d ∷ s)
