-- ===== src/Metadata/Top/Ends.antt =====
-- src/metadata.rs, `Metadata::{from_v12_metadata, from_v13_metadata}`: what is done over the modules comes to
-- an end.
use sub_script.Prelude.{
  Each, ℕ, ◌<◌, ◌≡◌, refl, ==_refl, String, false, none, some, List, [], ◌∷◌, insert, lookup,
  lookup-insert, str_eq_iff, Result, ok, err, arith, Bool-cases, Option-cases, inl, inr,
}
use sub_script.Types.Meta
use sub_script.Types.Meta.{TypeMeta, new_type}
use sub_script.Types.Registry.{
  Types, M, proceed, alloc, add_name, set_cell, store, is_unresolved, define_old, insert_ref,
  insert_meta,
}
use sub_script.Types.Registry.Keeps.{Wf, Keeps, Keeps-refl, Keeps-trans, Settled}
use sub_script.Types.Registry.Insert.{Keeps-define, is_unresolved_text}
use sub_script.Types.Registry.Quiet.{
  Quiet, IsUnlocked, IsUnlocked-Keeps, Quiet-pure, Quiet-bind, Quiet-insert_meta,
}
use sub_script.Metadata.Legacy.Ends.{Quiet-insert_at}
use sub_script.Metadata.Modules.{ModuleMetadata}
use sub_script.Metadata.Top.{
  Metadata, TopTypes, each_module, insert_both, insert_events, insert_call,
}

-- A cell that is there and described.
abbrev pub IsDescribed : Types → ℕ → Type 0
IsDescribed t r = (r < t.next) × (is_unresolved (t.cells r) ≡ false)

module _ (name : String) (r : ℕ) (t : Types) (v : Wf t) (u : IsUnlocked t)
    (d : IsDescribed t r) where
  Keeps-add_name : lookup name t.types ≡ none → Keeps t (add_name name r t)
  unfolding add_name
  Keeps-add_name e = record {
    wf = record {
      bound = λ k j l. ground (arith, lookup-insert name k r t.types, v.bound k j, d.0);
      own = λ k j n l c. ground (
        arith,
        lookup-insert name k r t.types,
        is_unresolved_text (t.cells j) n,
        v.own k j n,
        d.1,
        l,
        c,
      );
      free = v.free;
    };
    locks = λ j. refl;
    old_names = λ k j l locked. let bad = u j in cc;
    held = λ j h. refl;
    names = λ k j l. ground (arith, lookup-insert name k r t.types, str_eq_iff name k, l, e);
    described = λ j lt h. refl;
    grows = omega arith;
  }

  insert_ref-Keeps : Keeps t (insert_ref name r t).0 × Settled (insert_ref name r t).1
  unfolding insert_ref define_old
  insert_ref-Keeps = elim (Option-cases (lookup name t.types)) [
    | inl e ↦ rw (e, insert_ref) (Keeps-add_name e, tt)
    | inr (old, e) ↦
        rw (e, insert_ref)
          (rw (u old) (elim (Bool-cases (is_unresolved (t.cells old))) [
            | inl waits ↦ rw (waits, define_old) (Keeps-define name old r t v (u old) waits, tt)
            | inr done ↦ rw (done, define_old) (Keeps-refl t v, tt)
          ]))
  ]

-- The cell that `insert_meta` gives is described, or was before.
insert_meta-IsDescribed :
    (name : String) (m : TypeMeta) (t : Types) (r : ℕ)
    → Wf t
    → IsUnlocked t
    → is_unresolved m ≡ false
    → (insert_meta name m t).1 ≡ ok r
    → IsDescribed (insert_meta name m t).0 r
unfolding insert_meta insert_ref define_old alloc add_name set_cell
insert_meta-IsDescribed name m t r v u d e = elim (Option-cases (lookup name t.types)) [
  | inl f ↦
      let same : ◌≡◌ {A = Result ℕ} (ok t.next) (ok r) = rw (f, insert_ref) at e in
      let at : t.next ≡ r = cc in rw (f, insert_ref) (omega (arith, at), rw (at, ==_refl r) d)
  | inr (old, f) ↦ elim (Bool-cases (is_unresolved ((alloc m t).cells old))) [
    | inl waits ↦
        let step : insert_meta name m t
            ≡ (set_cell old (new_type name t.next) (alloc m t), ok old) =
          rw (f, insert_ref) (rw (u old) (rw (waits, define_old) refl)) in
        let same : ◌≡◌ {A = Result ℕ} (ok old) (ok r) = rw step at e in
        let at : old ≡ r = cc in
        rw step (omega (arith, v.bound name old f, at), rw (at, ==_refl r) refl)
    | inr done ↦
        let step : insert_meta name m t ≡ (alloc m t, ok old) =
          rw (f, insert_ref) (rw (u old) (rw (done, define_old) refl)) in
        let same : ◌≡◌ {A = Result ℕ} (ok old) (ok r) = rw step at e in
        let at : old ≡ r = cc in rw step (omega (arith, v.bound name old f, at), rw (← at) done)
  ]
]

Quiet-insert_both :
    (name other : String) (m : TypeMeta)
    → is_unresolved m ≡ false
    → Quiet (insert_both name other m)
unfolding proceed insert_both
Quiet-insert_both name other m d t v u =
    go (insert_meta name m t) (Quiet-insert_meta name m d t v u)
      (λ r e. insert_meta-IsDescribed name m t r v u d e)
  where
    go :
        (p : Types × Result ℕ)
        → Keeps t p.0 × Settled p.1
        → ((r : ℕ) → p.1 ≡ ok r → IsDescribed p.0 r)
        → Keeps t (proceed p (insert_ref other)).0 × Settled (proceed p (insert_ref other)).1
    go (t', ok r) (k, s) q =
        let (k', s') = insert_ref-Keeps other r t' k.wf (IsUnlocked-Keeps t t' k u) (q r refl) in
        (Keeps-trans t t' (insert_ref other r t').0 k k', s')
    go (t', err e) (k, s) q = (k, s)

pub Quiet-insert_events : (top : TopTypes) → Quiet (insert_events top)
unfolding insert_events
Quiet-insert_events top =
    Quiet-bind (insert_both "RawEvent" "Event" (Meta.enum top.mod_events)) _
      (Quiet-insert_both "RawEvent" "Event" (Meta.enum top.mod_events) refl)
      (λ r. Quiet-insert_both "RawError" "DispatchErrorModule" (Meta.enum top.mod_errors) refl)

pub Quiet-insert_call : (top : TopTypes) → Quiet (insert_call top)
unfolding insert_call
Quiet-insert_call top = Quiet-insert_both "Call" "Call" (Meta.enum top.mod_calls) refl

module _ {D : Type 0} (read : D → M ModuleMetadata) (P : D → Type 0)
    (reads : (md : D) → P md → Quiet (read md)) where
  pub Quiet-each_module :
      (top : TopTypes) (api : Metadata) (mds : List D)
      → Each P mds
      → Quiet (each_module read top api mds)
  unfolding each_module
  Quiet-each_module top api [] h = Quiet-pure {A = TopTypes × Metadata} (top, api)
  Quiet-each_module top api (md ∷ mds) h = Quiet-bind (read md) _ (reads md h.0) λ m.
      Quiet-insert_at top.mod_events m.index m.name m.event_ref _ λ es.
        Quiet-insert_at top.mod_errors m.index m.name m.error_ref _ λ rs.
          Quiet-insert_at top.mod_calls m.index m.name m.call_ref _ λ cs.
            Quiet-each_module (record { mod_events = es; mod_errors = rs; mod_calls = cs })
              (record {
                modules = insert m.name m api.modules;
                idx_map = store m.index (some m.name) api.idx_map;
              })
              mds h.1
