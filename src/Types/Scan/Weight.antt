-- ===== src/Types/Scan/Weight.antt =====
-- The number of characters of a text that are no white space, through the operations on texts.
use Prim.Native.Char.{Char, code}
use Prim.Native.String.{String, [], ◌∷◌, ◌++◌}
use text.Mathlib.TextLemmas.{nil-append, cons-append}
use mathlib.Core.List.{List}
use sub_script.Prelude.{
  ℕ, zero, suc, ◌+◌, ◌-◌, ◌≤◌, ◌<◌, ◌≡◌, ◌⊎◌, ap, Bool, true, false, Option, none, some, ◌==◌,
  ==_iff, if◌then◌else◌, arith, Bool-cases, inl, inr, Option-cases,
}
use sub_script.Types.Scan.{
  is_space, trim_start, cons_kept, trim_end, trim_matches, trim, remove_char, is_start, remove_from,
  last_char, drop_last, before, split_once, onto_first, split_terminator,
}

abbrev pub heft : Char → ℕ
heft c = if is_space (code c) then 0 else 1

unfoldable pub weight : String → ℕ
weight [] = 0
weight (c ∷ s) = heft c + weight s

pub weight-append : (s t : String) → weight (s ++ t) ≡ weight s + weight t
unfolding weight
weight-append [] t = omega (arith, ap weight (nil-append t))
weight-append (c ∷ s) t = omega (arith, ap weight (cons-append c s t), weight-append s t)

weight-trim_start : (p : ℕ → Bool) (s : String) → weight (trim_start p s) ≤ weight s
unfolding weight trim_start
weight-trim_start p [] = omega arith
weight-trim_start p (c ∷ s) = ground (arith, weight-trim_start p s)

weight-cons_kept :
    (p : ℕ → Bool) (c : Char) (s : String) → weight (cons_kept p c s) ≤ heft c + weight s
unfolding weight
weight-cons_kept p c [] = elim (Bool-cases (p (code c))) [
  | inl e ↦ rw e (omega arith)
  | inr e ↦ rw e (omega arith)
]
weight-cons_kept p c (d ∷ s) = omega arith

weight-trim_end : (p : ℕ → Bool) (s : String) → weight (trim_end p s) ≤ weight s
unfolding weight trim_end
weight-trim_end p [] = omega arith
weight-trim_end p (c ∷ s) = omega (arith, weight-cons_kept p c (trim_end p s), weight-trim_end p s)

pub weight-trim_matches : (p : ℕ → Bool) (s : String) → weight (trim_matches p s) ≤ weight s
unfolding trim_matches
weight-trim_matches p s = omega (arith, weight-trim_end p (trim_start p s), weight-trim_start p s)

pub weight-trim : (s : String) → weight (trim s) ≤ weight s
unfolding trim
weight-trim s = weight-trim_matches is_space s

pub weight-remove_char : (a : ℕ) (s : String) → weight (remove_char a s) ≤ weight s
unfolding weight remove_char
weight-remove_char a [] = omega arith
weight-remove_char a (c ∷ s) = ground (arith, weight-remove_char a s)

pub weight-remove_from :
    (p : String) (len skip : ℕ) (s : String) → weight (remove_from p len skip s) ≤ weight s
unfolding weight remove_from
weight-remove_from p len skip [] = omega arith
weight-remove_from p len (suc skip) (c ∷ s) = omega (arith, weight-remove_from p len skip s)
weight-remove_from p len zero (c ∷ s) = elim (Bool-cases (is_start p (c ∷ s))) [
  | inl e ↦ rw e (omega (arith, weight-remove_from p len (len - 1) s))
  | inr e ↦ rw e (omega (arith, weight-remove_from p len 0 s))
]

-- Dropping the last character takes its weight away.
pub weight-drop_last :
    (s : String) (a : ℕ)
    → last_char s ≡ some a
    → is_space a ≡ false
    → weight (drop_last s) + 1 ≡ weight s
unfolding weight last_char drop_last
weight-drop_last [] a h e = cc
weight-drop_last (c ∷ []) a h e = ground (arith, e)
weight-drop_last (c ∷ d ∷ s) a h e = omega (arith, weight-drop_last (d ∷ s) a h e)

abbrev pair_weight : Option (String × String) → ℕ
pair_weight none = 0
pair_weight (some (x, y)) = weight x + weight y + 1

weight-before :
    (c : Char) (o : Option (String × String)) (x y : String)
    → before c o ≡ some (x, y)
    → heft c + pair_weight o ≡ weight x + weight y + 1
unfolding weight
weight-before c none x y h = cc
weight-before c (some (a, b)) x y h = ground (arith, h)

-- The two parts around a character that is no white space.
pub weight-split_once :
    (a : ℕ) (s x y : String)
    → is_space a ≡ false
    → split_once a s ≡ some (x, y)
    → weight x + weight y + 1 ≡ weight s
unfolding weight split_once
weight-split_once a [] x y e h = cc
weight-split_once a (c ∷ s) x y e h = elim (Bool-cases (code c == a)) [
  | inl same ↦
      let here : code c ≡ a = (==_iff (code c) a).0 same in
      let heavy : is_space (code c) ≡ false = rw here e in
      let found : ◌≡◌ {A = Option (String × String)} (some ([], s)) (some (x, y)) = rw same at h in
      let left : ◌≡◌ {A = String} [] x = cc in
      let right : s ≡ y = cc in rw (← left) (rw (← right) (rw heavy (omega arith)))
  | inr other ↦
      let found : before c (split_once a s) ≡ some (x, y) = rw other at h in
      elim (Option-cases (split_once a s)) [
        | inl gone ↦
            let bad : ◌≡◌ {A = Option (String × String)} none (some (x, y)) = rw gone at found in cc
        | inr ((x', y'), rest) ↦ omega (
          arith,
          weight-before c (some (x', y')) x y (rw rest at found),
          weight-split_once a s x' y' e rest,
        )
      ]
]

-- A text that ends in a trimmed character loses weight.
weight-trim_end_last :
    (p : ℕ → Bool) (s : String) (a : ℕ)
    → last_char s ≡ some a
    → p a ≡ true
    → is_space a ≡ false
    → weight (trim_end p s) < weight s
unfolding weight last_char trim_end
weight-trim_end_last p [] a h t e = cc
weight-trim_end_last p (c ∷ []) a h t e =
    let same : code c ≡ a = cc in
    let trimmed : p (code c) ≡ true = rw same t in
    let heavy : is_space (code c) ≡ false = rw same e in rw trimmed (rw heavy (omega arith))
weight-trim_end_last p (c ∷ d ∷ s) a h t e =
    omega (arith, weight-cons_kept p c (trim_end p (d ∷ s)), weight-trim_end_last p (d ∷ s) a h t e)

-- What stands at the end still stands there behind what is trimmed off the front, or nothing is left.
last_char-trim_start :
    (p : ℕ → Bool) (s : String) (a : ℕ)
    → last_char s ≡ some a
    → (weight (trim_start p s) ≡ 0) ⊎ (last_char (trim_start p s) ≡ some a)
unfolding weight last_char trim_start
last_char-trim_start p [] a h = cc
last_char-trim_start p (c ∷ []) a h = elim (Bool-cases (p (code c))) [
  | inl e ↦ rw e (inl (omega arith))
  | inr e ↦ rw e (inr h)
]
last_char-trim_start p (c ∷ d ∷ s) a h = elim (Bool-cases (p (code c))) [
  | inl e ↦ rw e (last_char-trim_start p (d ∷ s) a h)
  | inr e ↦ rw e (inr h)
]

-- A text that ends in a trimmed character, which is no white space, loses weight.
pub weight-trim_matches_last :
    (p : ℕ → Bool) (s : String) (a : ℕ)
    → last_char s ≡ some a
    → p a ≡ true
    → is_space a ≡ false
    → weight (trim_matches p s) < weight s
unfolding trim_matches
weight-trim_matches_last p s a h t e = elim (last_char-trim_start p s a h) [
  | inl empty ↦ omega (arith, empty, weight-trim_end p (trim_start p s), weight-drop_last s a h e)
  | inr last ↦
      omega (arith, weight-trim_end_last p (trim_start p s) a last t e, weight-trim_start p s)
]

-- what the pieces of a text weigh with a separator behind each
abbrev pub total : List String → ℕ
total List.[] = 0
total (List.◌∷◌ s ss) = weight s + 1 + total ss

weight_onto :
    (c : Char) (ss : List String) (n : ℕ)
    → total ss ≤ n + 1
    → total (onto_first c ss) ≤ heft c + n + 1
unfolding weight
weight_onto c List.[] n h = omega arith
weight_onto c (List.◌∷◌ s ss) n h = omega arith

pub total-split_terminator :
    (a : ℕ) (s : String) → is_space a ≡ false → total (split_terminator a s) ≤ weight s + 1
unfolding weight split_terminator
total-split_terminator a [] e = omega arith
total-split_terminator a (c ∷ s) e = elim (Bool-cases (code c == a)) [
  | inl same ↦
      let here : code c ≡ a = (==_iff (code c) a).0 same in
      let heavy : is_space (code c) ≡ false = rw here e in
      rw same (rw heavy (omega (arith, total-split_terminator a s e)))
  | inr other ↦
      rw other (weight_onto c (split_terminator a s) (weight s) (total-split_terminator a s e))
]
