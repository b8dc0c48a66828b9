-- ===== src/Types/Registry/Quiet.antt =====
-- src/types.rs, `Types`: operations on a registry without locks, which come to an end.
use sub_script.Prelude.{ℕ, suc, ◌≡◌, ◌∙◌, String, false, Result, ok, err, arith, refl}
use sub_script.Types.Meta.{TypeMeta}
use sub_script.Types.Scan.Weight.{weight}
use sub_script.Types.Registry.{Types, M, proceed, ◌>>=◌, pure, is_unresolved, insert_meta}
use sub_script.Types.Registry.Keeps.{Wf, Keeps, Keeps-refl, Keeps-trans, Calm, Settled}
use sub_script.Types.Registry.Insert.{Calm-insert_meta}

abbrev pub IsUnlocked : Types → Type 0
IsUnlocked t = (r : ℕ) → t.locked r ≡ false

-- From a well-formed registry without locks, the operation settles and keeps.
abbrev pub Quiet : {A : Type 0} → M A → Type 0
Quiet m = (t : Types) → Wf t → IsUnlocked t → Keeps t (m t).0 × Settled (m t).1

pub IsUnlocked-Keeps : (t t' : Types) → Keeps t t' → IsUnlocked t → IsUnlocked t'
IsUnlocked-Keeps t t' k u r = k.locks r ∙ u r

pub Quiet-Calm : {A : Type 0} (w : ℕ) (m : M A) → Calm w m → Quiet m
Quiet-Calm w m c t v u = c t v (λ k r l h. let bad = u r in cc)

pub Quiet-pure : {A : Type 0} (a : A) → Quiet (pure a)
unfolding pure
Quiet-pure a t v u = (Keeps-refl t v, tt)

pub Quiet-bind :
    {A B : Type 0} (m : M A) (f : A → M B) → Quiet m → ((a : A) → Quiet (f a)) → Quiet (m >>= f)
unfolding proceed
Quiet-bind {A} {B} m f cm cf t v u = go (m t) (cm t v u)
  where
    go :
        (p : Types × Result A)
        → Keeps t p.0 × Settled p.1
        → Keeps t (proceed p f).0 × Settled (proceed p f).1
    go (t', ok a) (k, s) =
        let (k', s') = cf a t' k.wf (IsUnlocked-Keeps t t' k u) in
        (Keeps-trans t t' (f a t').0 k k', s')
    go (t', err e) (k, s) = (k, s)

-- The result of the first operation is known where it settles well.
pub Quiet-then :
    {A B : Type 0} (m : M A) (f : A → M B) (P : A → Type 0)
    → Quiet m
    → ((t : Types) (a : A) → (m t).1 ≡ ok a → P a)
    → ((a : A) → P a → Quiet (f a))
    → Quiet (m >>= f)
unfolding proceed
Quiet-then {A} {B} m f P cm known cf t v u = go (m t) (cm t v u) (λ a e. known t a e)
  where
    go :
        (p : Types × Result A)
        → Keeps t p.0 × Settled p.1
        → ((a : A) → p.1 ≡ ok a → P a)
        → Keeps t (proceed p f).0 × Settled (proceed p f).1
    go (t', ok a) (k, s) q =
        let (k', s') = cf a (q a refl) t' k.wf (IsUnlocked-Keeps t t' k u) in
        (Keeps-trans t t' (f a t').0 k k', s')
    go (t', err e) (k, s) q = (k, s)

pub Quiet-insert_meta :
    (name : String) (m : TypeMeta) → is_unresolved m ≡ false → Quiet (insert_meta name m)
Quiet-insert_meta name m d =
    Quiet-Calm (suc (weight name)) (insert_meta name m)
      (Calm-insert_meta (suc (weight name)) name m (omega arith) d)
