-- ===== src/Types/Registry/Results.antt =====
-- src/types.rs, `Types`: what the operations of the registry return.
use sub_script.Prelude.{◌≡◌, refl, Bool, true, false, if◌then◌else◌, Result, ok, err}
use mathlib.Core.Path.{subst}
use sub_script.Types.Registry.{Types, M, proceed, ◌>>=◌, pure}

-- Every result of the operation is right.
abbrev pub Returns : {A : Type 0} → M A → (A → Type 0) → Type 0
Returns {A} m Q = (t : Types) (a : A) → (m t).1 ≡ ok a → Q a

pub Returns-pure : {A : Type 0} (a : A) (Q : A → Type 0) → Q a → Returns (pure a) Q
unfolding pure
Returns-pure a Q q t a' e = let same : a ≡ a' = cc in subst Q same q

pub Returns-bind :
    {A B : Type 0} (m : M A) (f : A → M B) (Q : B → Type 0)
    → ((a : A) → Returns (f a) Q)
    → Returns (m >>= f) Q
unfolding proceed
Returns-bind {A} {B} m f Q h t b e = go (m t) e
  where
    go : (p : Types × Result A) → (proceed p f).1 ≡ ok b → Q b
    go (t', ok a) e' = h a t' b e'
    go (t', err x) e' = cc

pub Returns-if :
    {A : Type 0} (b : Bool) (m n : M A) (Q : A → Type 0)
    → Returns m Q
    → Returns n Q
    → Returns (if b then m else n) Q
Returns-if true m n Q f g = f
Returns-if false m n Q f g = g

-- What the first operation returns may be used.
pub Returns-then :
    {A B : Type 0} (m : M A) (f : A → M B) (P : A → Type 0) (Q : B → Type 0)
    → Returns m P
    → ((a : A) → P a → Returns (f a) Q)
    → Returns (m >>= f) Q
unfolding proceed
Returns-then {A} {B} m f P Q first h t b e = go (m t) (λ a x. first t a x) e
  where
    go : (p : Types × Result A) → ((a : A) → p.1 ≡ ok a → P a) → (proceed p f).1 ≡ ok b → Q b
    go (t', ok a) k e' = h a (k a refl) t' b e'
    go (t', err x) k e' = cc
