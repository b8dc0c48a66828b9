-- ===== src/Types/Registry/Keeps.antt =====
-- src/types.rs, `Types`: what the operations of the registry keep.
use sub_script.Prelude.{
  ℕ, ◌≤◌, ◌<◌, ◌≡◌, refl, sym, ◌∙◌, String, Bool, true, false, none, some, if◌then◌else◌,
  str_eq_iff, str_eq_refl, lookup, lookup-insert, Option-cases, inl, inr, Result, ok, err, Error,
  deadlock, out_of_fuel, arith,
}
use sub_script.Types.Meta.{unresolved_type}
use sub_script.Types.Scan.Weight.{weight}
use sub_script.Types.Registry.{
  Types, M, proceed, ◌>>=◌, pure, throw, alloc, add_name, resolve, is_unresolved,
}

-- The cells of names are there; an unresolved one waits for the definition of its only name; and no
-- cell is locked that is not there.
pub record Wf (t : Types) : Type 0 where
  pub bound : (k : String) (r : ℕ) → lookup k t.types ≡ some r → r < t.next
  pub own :
      (k : String) (r : ℕ) (d : String)
      → lookup k t.types ≡ some r
      → t.cells r ≡ unresolved_type d
      → d ≡ k
  pub free : (r : ℕ) → t.next ≤ r → t.locked r ≡ false

-- The names of locked cells weigh so much at least.
abbrev pub LockedAbove : Types → ℕ → Type 0
LockedAbove t w =
    (k : String) (r : ℕ) → lookup k t.types ≡ some r → t.locked r ≡ true → w ≤ weight k

-- From one state to a later one: names keep their cells, described cells and locked ones their
-- contents, the locks are as they were, and no name is new for a locked cell.
pub record Keeps (t t' : Types) : Type 0 where
  pub wf : Wf t'
  pub locks : (r : ℕ) → t'.locked r ≡ t.locked r
  pub old_names :
      (k : String) (r : ℕ)
      → lookup k t'.types ≡ some r
      → t'.locked r ≡ true
      → lookup k t.types ≡ some r
  pub held : (r : ℕ) → t.locked r ≡ true → t'.cells r ≡ t.cells r
  pub names : (k : String) (r : ℕ) → lookup k t.types ≡ some r → lookup k t'.types ≡ some r
  pub described : (r : ℕ) → r < t.next → is_unresolved (t.cells r) ≡ false → t'.cells r ≡ t.cells r
  pub grows : t.next ≤ t'.next

pub Keeps-refl : (t : Types) → Wf t → Keeps t t
Keeps-refl t v = record {
  wf = v;
  locks = λ r. refl;
  old_names = λ k r l h. l;
  held = λ r h. refl;
  names = λ k r h. h;
  described = λ r lt h. refl;
  grows = omega arith;
}

pub Keeps-trans : (s t u : Types) → Keeps s t → Keeps t u → Keeps s u
Keeps-trans s t u f g = record {
  wf = g.wf;
  locks = λ r. g.locks r ∙ f.locks r;
  old_names = λ k r l h. f.old_names k r (g.old_names k r l h) (sym (g.locks r) ∙ h);
  held = λ r h. g.held r (f.locks r ∙ h) ∙ f.held r h;
  names = λ k r h. g.names k r (f.names k r h);
  described = λ r lt h.
      g.described r (omega (arith, f.grows)) (rw (f.described r lt h) h) ∙ f.described r lt h;
  grows = omega (arith, f.grows, g.grows);
}

pub Keeps-LockedAbove : (t t' : Types) (w : ℕ) → Keeps t t' → LockedAbove t w → LockedAbove t' w
Keeps-LockedAbove t t' w f h k r l locked =
    h k r (f.old_names k r l locked) (sym (f.locks r) ∙ locked)

-- A result that is neither a deadlock nor for want of fuel.
abbrev pub IsReported : Error → Type 0
IsReported deadlock = ⊥
IsReported out_of_fuel = ⊥
IsReported _ = Unit

abbrev pub Settled {ℓ} : {A : Type ℓ} → Result A → Type 0
Settled (ok a) = Unit
Settled (err e) = IsReported e

-- From a state whose locked names weigh so much at least, the operation settles and keeps.
abbrev pub Calm : {A : Type 0} → ℕ → M A → Type 0
Calm w m = (t : Types) → Wf t → LockedAbove t w → Keeps t (m t).0 × Settled (m t).1

pub Calm-pure : {A : Type 0} (w : ℕ) (a : A) → Calm w (pure a)
unfolding pure
Calm-pure w a t v h = (Keeps-refl t v, tt)

pub Calm-throw : (A : Type 0) (w : ℕ) (e : Error) → IsReported e → Calm {A = A} w (throw e)
unfolding throw
Calm-throw A w e s t v h = (Keeps-refl t v, s)

pub Calm-bind :
    {A B : Type 0} (w : ℕ) (m : M A) (f : A → M B)
    → Calm w m
    → ((a : A) → Calm w (f a))
    → Calm w (m >>= f)
unfolding proceed
Calm-bind {A} {B} w m f cm cf t v h = go (m t) (cm t v h)
  where
    go :
        (p : Types × Result A)
        → Keeps t p.0 × Settled p.1
        → Keeps t (proceed p f).0 × Settled (proceed p f).1
    go (t', ok a) (k, s) =
        let (k', s') = cf a t' k.wf (Keeps-LockedAbove t t' w k h) in
        (Keeps-trans t t' (f a t').0 k k', s')
    go (t', err e) (k, s) = (k, s)

pub Calm-if :
    {A : Type 0} (w : ℕ) (b : Bool) (m n : M A)
    → (b ≡ true → Calm w m)
    → (b ≡ false → Calm w n)
    → Calm w (if b then m else n)
Calm-if w true m n f g = f refl
Calm-if w false m n f g = g refl

Keeps-named :
    (name : String) (t : Types)
    → Wf t
    → lookup name t.types ≡ none
    → Keeps t (add_name name t.next (alloc (unresolved_type name) t))
unfolding alloc add_name
Keeps-named name t v e = record {
  wf = record {
    bound = λ k r l. ground (arith, lookup-insert name k t.next t.types, v.bound k r);
    own = λ k r d l c. ground (
      arith,
      lookup-insert name k t.next t.types,
      str_eq_iff name k,
      v.bound k r,
      v.own k r d,
      l,
      c,
    );
    free = λ r le. v.free r (omega arith);
  };
  locks = λ r. refl;
  old_names =
      λ k r l locked. ground (arith, lookup-insert name k t.next t.types, v.free t.next, l, locked);
  held = λ r h. ground (arith, v.free t.next, h);
  names = λ k r l. ground (arith, lookup-insert name k t.next t.types, str_eq_iff name k, l, e);
  described = λ r lt h. ground (arith, lt);
  grows = omega arith;
}

pub Calm-resolve : (w : ℕ) (name : String) → Calm w (resolve name)
unfolding resolve
Calm-resolve w name t v h = elim (Option-cases (lookup name t.types)) [
  | inr (r, e) ↦ rw (e, resolve) (Keeps-refl t v, tt)
  | inl e ↦ rw (e, resolve) (Keeps-named name t v e, tt)
]

-- The name then stands for the cell that is given.
pub lookup-resolve :
    (name : String) (t : Types) (r : ℕ)
    → (resolve name t).1 ≡ ok r
    → lookup name (resolve name t).0.types ≡ some r
unfolding resolve alloc add_name
lookup-resolve name t r h = ground (arith, lookup-insert name name t.next t.types, str_eq_refl name)
