-- ===== src/Types/Parser/Ends.antt =====
-- src/types.rs, `Types::parse_type`: it comes to an end, without a deadlock, and what it does to the registry.
use sub_script.Prelude.{
  ℕ, zero, suc, ◌≤◌, ◌<◌, ◌≡◌, refl, ap, ◌∙◌, ==_iff, String, Bool, true, false, some, ◌==◌, Result,
  ok, err, arith, Bool-cases, Option-cases, inl, inr, lookup,
}
use sub_script.Types.Meta.{TypeMeta, unresolved_type}
use sub_script.Types.Scan.{trim, remove_char}
use sub_script.Types.Scan.Weight.{weight, weight-trim, weight-remove_char, weight-remove_from}
use sub_script.Types.Registry.{Types, M, proceed, set_cell, lock, unlock, resolve, is_unresolved}
use sub_script.Types.Registry.Keeps.{
  Wf, Keeps, Keeps-refl, Keeps-trans, Keeps-LockedAbove, LockedAbove, Calm, Settled, Calm-resolve,
  lookup-resolve,
}
use sub_script.Types.Parser.{clean, parse, definition, close_cell, parse_cell, parse_type}
use sub_script.Types.Parser.Safe.{Own, Calm-parse}
use sub_script.Types.Parser.Own.{Own-parse, definition_unresolved}

weight-clean : (name : String) → weight (clean name) ≤ weight name
unfolding clean
weight-clean name =
    let a = remove_char b'\r' (trim name) in
    let b = remove_char b'\n' a in
    omega (
      arith,
      weight-remove_from "T::" 3 0 b,
      weight-remove_char b'\n' a,
      weight-remove_char b'\r' (trim name),
      weight-trim name,
    )

-- The cell of the text, locked: its parts may be parsed.
module _ (t : Types) (v : Wf t) (w r : ℕ) (n : String) (above : LockedAbove t w)
    (small : weight n < w) (named : lookup n t.types ≡ some r) (open_cell : t.locked r ≡ false)
    (waits : t.cells r ≡ unresolved_type n) where
  Wf-lock : Wf (lock r t)
  unfolding lock
  Wf-lock = record {
    bound = v.bound;
    own = v.own;
    free = λ j le. ground (arith, v.bound n r named, v.free j le);
  }

  LockedAbove-lock : LockedAbove (lock r t) (weight n)
  unfolding lock
  LockedAbove-lock k j l h = elim (Bool-cases (r == j)) [
    | inl same ↦
        let at : r ≡ j = (==_iff r j).0 same in
        let key : n ≡ k = v.own k r n (rw at l) waits in omega (arith, ap weight key)
    | inr other ↦ omega (arith, above k j l (rw other at h))
  ]

  module _ (t2 : Types) (f : Keeps (lock r t) t2) where
    waits2 : t2.cells r ≡ unresolved_type n
    unfolding lock
    waits2 = f.held r (ground arith) ∙ waits

    -- The lock is given back, and the cell holds what was there or a description.
    Keeps-closed : (m : TypeMeta) → Own n m → Keeps t (unlock r (set_cell r m t2))
    unfolding lock unlock set_cell
    Keeps-closed m o = record {
      wf = record {
        bound = f.wf.bound;
        own = λ k j d l c. elim (Bool-cases (r == j)) [
          | inl same ↦
              let at : r ≡ j = (==_iff r j).0 same in
              o d (rw same at c) ∙ f.wf.own k r n (rw (← at) at l) waits2
          | inr other ↦ f.wf.own k j d l (rw other at c)
        ];
        free = λ j le. ground (arith, f.wf.free j le);
      };
      locks = λ j. ground (arith, f.locks j, open_cell);
      old_names = λ k j l h. elim (Bool-cases (r == j)) [
        | inl same ↦ let bad : ◌≡◌ {A = Bool} false true = rw same at h in cc
        | inr other ↦ f.old_names k j l (rw other at h)
      ];
      held = λ j h. elim (Bool-cases (r == j)) [
        | inl same ↦ ground (arith, open_cell, h)
        | inr other ↦ rw other (f.held j (rw other h))
      ];
      names = f.names;
      described = λ j lt h. elim (Bool-cases (r == j)) [
        | inl same ↦ ground (arith, ap is_unresolved waits, h)
        | inr other ↦ rw other (f.described j lt h)
      ];
      grows = f.grows;
    }

    -- After an error the cell waits as before.
    Keeps-abandoned : Keeps t (unlock r t2)
    unfolding lock unlock
    Keeps-abandoned = record {
      wf = record {
        bound = f.wf.bound;
        own = f.wf.own;
        free = λ j le. ground (arith, f.wf.free j le);
      };
      locks = λ j. ground (arith, f.locks j, open_cell);
      old_names = λ k j l h. elim (Bool-cases (r == j)) [
        | inl same ↦ let bad : ◌≡◌ {A = Bool} false true = rw same at h in cc
        | inr other ↦ f.old_names k j l (rw other at h)
      ];
      held = λ j h. elim (Bool-cases (r == j)) [
        | inl same ↦ ground (arith, open_cell, h)
        | inr other ↦ f.held j (rw other h)
      ];
      names = f.names;
      described = λ j lt h. f.described j lt h;
      grows = f.grows;
    }

  -- What is done about the cell keeps the registry, and gives the cell back.
  abbrev Closed : Types × Result ℕ → Type 0
  Closed p = Keeps t p.0 × Settled p.1 × ((j : ℕ) → p.1 ≡ ok j → r ≡ j)

  Closed-close_cell :
      (p : Types × Result TypeMeta)
      → Keeps (lock r t) p.0
      → Settled p.1
      → ((m : TypeMeta) → p.1 ≡ ok m → Own n m)
      → Closed (close_cell r p)
  unfolding close_cell
  Closed-close_cell (t2, ok m) f s o = (Keeps-closed t2 f m (o m refl), tt, λ j e. cc)
  Closed-close_cell (t2, err x) f s o = (Keeps-abandoned t2 f, s, λ j e. cc)

  Closed-parse :
      (rec : String → M ℕ)
      → ((s : String) → weight s < weight n → Calm (weight n) (rec s))
      → Closed (close_cell r (parse rec n (lock r t)))
  Closed-parse rec part =
      let (f, s) = Calm-parse rec n part (lock r t) Wf-lock LockedAbove-lock in
      Closed-close_cell (parse rec n (lock r t)) f s (λ m e. Own-parse rec n (lock r t) m e)

Closed-parse_cell :
    (rec : String → M ℕ) (t : Types) (w r : ℕ) (n : String)
    → Wf t
    → LockedAbove t w
    → weight n < w
    → lookup n t.types ≡ some r
    → ((s : String) → weight s < weight n → Calm (weight n) (rec s))
    → Keeps t (parse_cell rec r t).0
      × Settled (parse_cell rec r t).1
      × ((j : ℕ) → (parse_cell rec r t).1 ≡ ok j → r ≡ j)
unfolding parse_cell
Closed-parse_cell rec t w r n v above small named part = elim (Bool-cases (t.locked r)) [
  | inl held ↦ absurd (omega (arith, above n r named held))
  | inr free ↦ elim (Option-cases (definition (t.cells r))) [
    | inl done ↦ rw (free, parse_cell) (rw done (Keeps-refl t v, tt, λ j e. cc))
    | inr (def, e) ↦
        let text : def ≡ n = v.own n r def named (definition_unresolved (t.cells r) def e) in
        let waits : t.cells r ≡ unresolved_type n =
          definition_unresolved (t.cells r) def e ∙ ap unresolved_type text in
        rw (free, parse_cell)
          (rw e (rw text (Closed-parse t v w r n above small named free waits rec part)))
  ]
]

-- The text's cell is found or made, and parsed.
abbrev Parsed : String → Types → Types × Result ℕ → Type 0
Parsed name t p =
    Keeps t p.0 × Settled p.1 × ((r : ℕ) → p.1 ≡ ok r → lookup (clean name) p.0.types ≡ some r)

parse_type-Parsed :
    (fuel : ℕ) (name : String) (w : ℕ) (t : Types)
    → weight name < fuel
    → weight name < w
    → Wf t
    → LockedAbove t w
    → Parsed name t (parse_type fuel name t)
unfolding parse_type proceed
parse_type-Parsed zero name w t enough small v above = absurd (omega arith)
parse_type-Parsed (suc fuel) name w t enough small v above =
    let (f, s) = Calm-resolve w (clean name) t v above in
    go (resolve (clean name) t) f s (λ r e. lookup-resolve (clean name) t r e)
      (λ x lt t' v' above'.
        let (f', s', q) =
          parse_type-Parsed fuel x (weight (clean name)) t' (omega (arith, weight-clean name)) lt v'
            above' in
        (f', s'))
  where
    go :
        (p : Types × Result ℕ)
        → Keeps t p.0
        → Settled p.1
        → ((r : ℕ) → p.1 ≡ ok r → lookup (clean name) p.0.types ≡ some r)
        → ((x : String)
            → weight x < weight (clean name)
            → Calm (weight (clean name)) (parse_type fuel x))
        → Parsed name t (proceed p (parse_cell (parse_type fuel)))
    go (t', err x) f s q part = (f, s, λ r e. cc)
    go (t', ok r) f s q part =
        let here = q r refl in
        let (g, settled, same) =
          Closed-parse_cell (parse_type fuel) t' w r (clean name) f.wf
            (Keeps-LockedAbove t t' w f above) (omega (arith, weight-clean name)) here part in
        (
          Keeps-trans t t' (parse_cell (parse_type fuel) r t').0 f g,
          settled,
          λ j e. rw (← (same j e)) (g.names (clean name) r here),
        )

pub Calm-parse_type :
    (fuel : ℕ) (name : String) (w : ℕ)
    → weight name < fuel
    → weight name < w
    → Calm w (parse_type fuel name)
Calm-parse_type fuel name w enough small t v above =
    let (f, s, q) = parse_type-Parsed fuel name w t enough small v above in (f, s)

-- With more fuel than the text has characters that are no white space, on a well-formed registry
-- without locks: parsing a type ends with a cell or an error of its own, never for want of fuel, and
-- never in a deadlock on a cell whose text is being parsed.
pub parse_type-Settled :
    (fuel : ℕ) (name : String) (t : Types)
    → weight name < fuel
    → Wf t
    → ((r : ℕ) → t.locked r ≡ false)
    → Settled (parse_type fuel name t).1
parse_type-Settled fuel name t enough v unlocked =
    (parse_type-Parsed fuel name fuel t enough enough v (λ k r l h. let bad = unlocked r in cc)).1

-- Under the same conditions, whether or not it fails, parsing a type leaves the registry well-formed
-- and without locks; names keep their cells, and cells that were described keep their contents; and
-- a cell that is given stands under the cleaned text.
pub parse_type-Keeps :
    (fuel : ℕ) (name : String) (t : Types)
    → weight name < fuel
    → Wf t
    → ((r : ℕ) → t.locked r ≡ false)
    → Wf (parse_type fuel name t).0
      × ((r : ℕ) → (parse_type fuel name t).0.locked r ≡ false)
      × ((k : String) (r : ℕ)
          → lookup k t.types ≡ some r
          → lookup k (parse_type fuel name t).0.types ≡ some r)
      × ((r : ℕ)
          → r < t.next
          → is_unresolved (t.cells r) ≡ false
          → (parse_type fuel name t).0.cells r ≡ t.cells r)
      × ((r : ℕ)
          → (parse_type fuel name t).1 ≡ ok r
          → lookup (clean name) (parse_type fuel name t).0.types ≡ some r)
parse_type-Keeps fuel name t enough v unlocked =
    let (f, s, q) =
      parse_type-Parsed fuel name fuel t enough enough v (λ k r l h. let bad = unlocked r in cc) in
    (f.wf, (λ r. f.locks r ∙ unlocked r), f.names, f.described, q)
