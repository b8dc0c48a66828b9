-- ===== src/Types/Registry/Insert.antt =====
-- src/types.rs, `Types::insert` and `Types::insert_meta`: what a definition does to the registry.
use sub_script.Prelude.{
  ℕ, ◌+◌, ◌<◌, ◌≡◌, refl, ==_iff, ==_refl, String, str_eq_iff, str_eq_refl, true, false, none, some,
  ◌==◌, ok, arith, Bool-cases, Option-cases, inl, inr, lookup, lookup-insert,
}
use sub_script.Types.Meta.{TypeMeta, new_type, unresolved_type}
use sub_script.Types.Scan.Weight.{weight}
use sub_script.Types.Registry.{
  Types, set_cell, alloc, add_name, resolve, is_unresolved, define_old, insert_ref, insert_meta,
}
use sub_script.Types.Registry.Keeps.{Wf, Keeps, Keeps-trans, Calm, Settled}

pub is_unresolved_text :
    (m : TypeMeta) (d : String) → is_unresolved m ≡ false → m ≡ unresolved_type d → ⊥
is_unresolved_text m d h e = let bad : is_unresolved (unresolved_type d) ≡ false = rw e at h in cc

module _ (name : String) (m : TypeMeta) (t : Types) (v : Wf t)
    (described : is_unresolved m ≡ false) where
  Keeps-new_name : lookup name t.types ≡ none → Keeps t (add_name name t.next (alloc m t))
  unfolding alloc add_name
  Keeps-new_name e = record {
    wf = record {
      bound = λ k r l. ground (arith, lookup-insert name k t.next t.types, v.bound k r);
      own = λ k r d l c. ground (
        arith,
        lookup-insert name k t.next t.types,
        is_unresolved_text m d described,
        v.bound k r,
        v.own k r d,
        l,
        c,
      );
      free = λ r le. v.free r (omega arith);
    };
    locks = λ r. refl;
    old_names = λ k r l locked.
        ground (arith, lookup-insert name k t.next t.types, v.free t.next, l, locked);
    held = λ r h. ground (arith, v.free t.next, h);
    names = λ k r l. ground (arith, lookup-insert name k t.next t.types, str_eq_iff name k, l, e);
    described = λ r lt h. ground (arith, lt);
    grows = omega arith;
  }

  pub Keeps-alloc : Keeps t (alloc m t)
  unfolding alloc
  Keeps-alloc = record {
    wf = record {
      bound = λ k r l. omega (arith, v.bound k r l);
      own = λ k r d l c. ground (arith, v.bound k r l, v.own k r d l, c);
      free = λ r le. v.free r (omega arith);
    };
    locks = λ r. refl;
    old_names = λ k r l locked. l;
    held = λ r h. ground (arith, v.free t.next, h);
    names = λ k r l. l;
    described = λ r lt h. ground (arith, lt);
    grows = omega arith;
  }

pub Keeps-define :
    (name : String) (old r : ℕ) (t : Types)
    → Wf t
    → t.locked old ≡ false
    → is_unresolved (t.cells old) ≡ true
    → Keeps t (set_cell old (new_type name r) t)
unfolding set_cell
Keeps-define name old r t v open_cell waits = record {
  wf = record {
    bound = v.bound;
    own = λ k j d l c. elim (Bool-cases (old == j)) [
      | inl here ↦ let bad : new_type name r ≡ unresolved_type d = rw here at c in cc
      | inr there ↦ let same : t.cells j ≡ unresolved_type d = rw there at c in v.own k j d l same
    ];
    free = v.free;
  };
  locks = λ j. refl;
  old_names = λ k j l locked. l;
  held = λ j h. elim (Bool-cases (old == j)) [
    | inl here ↦ let same = (==_iff old j).0 here in let bad : t.locked old ≡ true = rw same h in cc
    | inr there ↦ rw there refl
  ];
  names = λ k j l. l;
  described = λ j lt h. elim (Bool-cases (old == j)) [
    | inl here ↦
        let same = (==_iff old j).0 here in
        let bad : is_unresolved (t.cells old) ≡ false = rw same h in cc
    | inr there ↦ rw there refl
  ];
  grows = omega arith;
}

pub Calm-insert_meta :
    (w : ℕ) (name : String) (m : TypeMeta)
    → weight name < w
    → is_unresolved m ≡ false
    → Calm w (insert_meta name m)
unfolding insert_meta insert_ref define_old alloc
Calm-insert_meta w name m small described t v above = elim (Option-cases (lookup name t.types)) [
  | inl e ↦ rw (e, insert_ref) (Keeps-new_name name m t v described e, tt)
  | inr (old, e) ↦
      let alone : Keeps t (alloc m t) = Keeps-alloc name m t v described in
      let known : lookup name (alloc m t).types ≡ some old = e in
      rw (e, insert_ref)
        (elim (Bool-cases (t.locked old)) [
          | inl held ↦ absurd (omega (arith, above name old e held))
          | inr open_cell ↦ rw open_cell (defined old e open_cell alone)
        ])
]
  where
    defined :
        (old : ℕ)
        → lookup name t.types ≡ some old
        → t.locked old ≡ false
        → Keeps t (alloc m t)
        → Keeps t (define_old name old t.next (alloc m t)).0
          × Settled (define_old name old t.next (alloc m t)).1
    defined old e open_cell alone = elim (Bool-cases (is_unresolved ((alloc m t).cells old))) [
      | inl waits ↦
          rw (waits, define_old)
            (
              Keeps-trans t (alloc m t) _ alone
                  (Keeps-define name old t.next (alloc m t) alone.wf open_cell waits),
              tt,
            )
      | inr done ↦ rw (done, define_old) (alone, tt)
    ]

insert_meta-forward :
    (name : String) (m : TypeMeta) (t : Types) (old : ℕ)
    → lookup name t.types ≡ some old
    → old < t.next
    → t.locked old ≡ false
    → t.cells old ≡ unresolved_type name
    → insert_meta name m t ≡ (set_cell old (new_type name t.next) (alloc m t), ok old)
unfolding insert_meta insert_ref define_old alloc
insert_meta-forward name m t old known there open_cell waits =
    let apart : (t.next == old) ≡ false = ground arith in
    let cell : (alloc m t).cells old ≡ unresolved_type name = rw apart waits in
    rw (known, insert_ref) (rw open_cell (rw (cell, define_old) refl))

-- A name that is used before its definition and then defined by a description, in a registry that
-- does not have it: both times the same cell is given, which ends up as an alias of the cell of
-- the description.
resolve-insert_meta :
    (name : String) (m : TypeMeta) (t : Types)
    → lookup name t.types ≡ none
    → t.locked t.next ≡ false
    → let used = resolve name t in
      let defined = insert_meta name m used.0 in
      (used.1 ≡ ok t.next)
      × (defined.1 ≡ ok t.next)
      × (defined.0.cells t.next ≡ new_type name (t.next + 1))
      × (defined.0.cells (t.next + 1) ≡ m)
unfolding resolve alloc add_name set_cell
resolve-insert_meta name m t fresh open_cell =
    let used : Types = add_name name t.next (alloc (unresolved_type name) t) in
    let first : resolve name t ≡ (used, ok t.next) = rw (fresh, resolve) refl in
    let here : (t.next == t.next) ≡ true = ==_refl t.next in
    let known : lookup name used.types ≡ some t.next =
      rw (lookup-insert name name t.next t.types) (rw (str_eq_refl name) refl) in
    let second =
      insert_meta-forward name m used t.next known (omega arith) open_cell (rw here refl) in
    let apart : (t.next == t.next + 1) ≡ false = ground arith in
    rw first (rw second (refl, refl, rw here refl, rw apart (rw (==_refl (t.next + 1)) refl)))
