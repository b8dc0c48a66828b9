-- ===== src/Types/Schema/Safe.antt =====
-- src/types.rs, `Types`: reading a schema, from the first definition to the last.
use sub_script.Prelude.{
  ℕ, ◌<◌, ◌≡◌, refl, ◌∙◌, String, str_eq, false, Option, none, some, List, [], Bool-cases,
  Option-cases, inl, inr, lookup, insert, parse_failed, panicked,
}
use mathlib.Core.Path.{subst}
use sub_script.Types.Variants.{EnumVariants, empty}
use sub_script.Types.Meta.{TypeMeta, struct, enum, new_type}
use sub_script.Types.Scan.Weight.{weight}
use sub_script.Types.Registry.{Types, M, is_unresolved, insert_meta}
use sub_script.Types.Registry.Keeps.{Wf, Calm, Calm-pure, Calm-throw, Calm-bind, Calm-if, Settled}
use sub_script.Types.Registry.Insert.{Calm-insert_meta}
use sub_script.Types.Parser.{parse_type}
use sub_script.Types.Parser.Ends.{Calm-parse_type}
use sub_script.Types.Schema.{
  Json, text, list, object, other, Elements, nil, cons, Members, end, member, get, skip_unit,
  add_variant, parse_names, parse_named_type, parse_variants, parse_enum, parse_fields,
  parse_struct, parse_object, parse_schema_type, parse_schema_types, types_of, load_schema,
}

-- The texts of a schema that are parsed weigh less.
abbrev mutual
  pub TextsBelow : ℕ → Json → Type 0
  TextsBelow w (text s) = weight s < w
  TextsBelow w (object ms) = MembersBelow w ms
  TextsBelow w _ = Unit

  pub MembersBelow : ℕ → Members → Type 0
  MembersBelow w end = Unit
  MembersBelow w (member name v ms) = (weight name < w) × TextsBelow w v × MembersBelow w ms

TextsBelow-get :
    (w : ℕ) (k : String) (ms : Members) (v : Json)
    → MembersBelow w ms
    → get k ms ≡ some v
    → TextsBelow w v
TextsBelow-get w k end v h e = cc
TextsBelow-get w k (member j u ms) v h e = elim (Bool-cases (str_eq j k)) [
  | inl here ↦
      let found : ◌≡◌ {A = Option Json} (some u) (some v) = rw here at e in
      let same : u ≡ v = cc in subst (TextsBelow w) same h.1
  | inr there ↦ TextsBelow-get w k ms v h.2 (rw there at e)
]

module _ (fuel : ℕ) where
  Calm-skip_unit : {A : Type 0} (w : ℕ) (m : M A) → Calm w m → Calm w (skip_unit m)
  unfolding skip_unit
  Calm-skip_unit w m c = Calm-bind w m _ c (λ a. Calm-pure w tt)

  Calm-insert :
      (name : String) (m : TypeMeta)
      → weight name < fuel
      → is_unresolved m ≡ false
      → Calm fuel (skip_unit (insert_meta name m))
  Calm-insert name m small d = Calm-skip_unit fuel _ (Calm-insert_meta fuel name m small d)

  Calm-parse_names : (vs : EnumVariants) (es : Elements) → Calm fuel (parse_names vs es)
  unfolding parse_names
  Calm-parse_names vs nil = Calm-pure fuel vs
  Calm-parse_names vs (cons (text name) es) = Calm-parse_names (add_variant vs name none) es
  Calm-parse_names vs (cons (list l) es) = Calm-throw EnumVariants _ parse_failed tt
  Calm-parse_names vs (cons (object l) es) = Calm-throw EnumVariants _ parse_failed tt
  Calm-parse_names vs (cons other es) = Calm-throw EnumVariants _ parse_failed tt

  Calm-parse_variants :
      (vs : EnumVariants) (ms : Members)
      → MembersBelow fuel ms
      → Calm fuel (parse_variants fuel vs ms)
  unfolding parse_variants
  Calm-parse_variants vs end h = Calm-pure fuel vs
  Calm-parse_variants vs (member name (text def) ms) h =
      Calm-if fuel (str_eq def "") _ _ (λ e. Calm-parse_variants (add_variant vs name none) ms h.2)
        (λ e.
          Calm-bind fuel (parse_type fuel def) _ (Calm-parse_type fuel def fuel h.1 h.1)
            (λ r. Calm-parse_variants (add_variant vs name (some r)) ms h.2))
  Calm-parse_variants vs (member name (list l) ms) h = Calm-throw EnumVariants _ parse_failed tt
  Calm-parse_variants vs (member name (object l) ms) h = Calm-throw EnumVariants _ parse_failed tt
  Calm-parse_variants vs (member name other ms) h = Calm-throw EnumVariants _ parse_failed tt

  Calm-parse_enum :
      (name : String) (v : Json)
      → weight name < fuel
      → TextsBelow fuel v
      → Calm fuel (parse_enum fuel name v)
  unfolding parse_enum
  Calm-parse_enum name (list es) small h =
      Calm-bind fuel (parse_names empty es) _ (Calm-parse_names empty es)
        (λ vs. Calm-insert name (enum vs) small refl)
  Calm-parse_enum name (object ms) small h =
      Calm-bind fuel (parse_variants fuel empty ms) _ (Calm-parse_variants empty ms h)
        (λ vs. Calm-insert name (enum vs) small refl)
  Calm-parse_enum name (text s) small h = Calm-throw Unit _ parse_failed tt
  Calm-parse_enum name other small h = Calm-throw Unit _ parse_failed tt

  Calm-parse_fields :
      (fs : List (String × ℕ)) (ms : Members)
      → MembersBelow fuel ms
      → Calm fuel (parse_fields fuel fs ms)
  unfolding parse_fields
  Calm-parse_fields fs end h = Calm-pure fuel fs
  Calm-parse_fields fs (member name (text def) ms) h =
      Calm-bind fuel (parse_type fuel def) _ (Calm-parse_type fuel def fuel h.1 h.1)
        (λ r. Calm-parse_fields (insert name r fs) ms h.2)
  Calm-parse_fields fs (member name (list l) ms) h =
      Calm-throw (List (String × ℕ)) _ parse_failed tt
  Calm-parse_fields fs (member name (object l) ms) h =
      Calm-throw (List (String × ℕ)) _ parse_failed tt
  Calm-parse_fields fs (member name other ms) h = Calm-throw (List (String × ℕ)) _ parse_failed tt

  Calm-parse_object :
      (name : String) (ms : Members)
      → weight name < fuel
      → MembersBelow fuel ms
      → Calm fuel (parse_object fuel name ms)
  unfolding parse_object parse_struct
  Calm-parse_object name ms small h = elim (Option-cases (get "_enum" ms)) [
    | inr (v, e) ↦
        rw (e, parse_object) (Calm-parse_enum name v small (TextsBelow-get fuel "_enum" ms v h e))
    | inl e ↦
        rw (e, parse_object)
          (Calm-bind fuel (parse_fields fuel [] ms) _ (Calm-parse_fields [] ms h)
            (λ fs. Calm-insert name (struct fs) small refl))
  ]

  Calm-parse_schema_type :
      (name : String) (v : Json)
      → weight name < fuel
      → TextsBelow fuel v
      → Calm fuel (parse_schema_type fuel name v)
  unfolding parse_schema_type parse_named_type
  Calm-parse_schema_type name (text def) small h = Calm-skip_unit fuel _ (
      Calm-bind fuel (parse_type fuel def) _ (Calm-parse_type fuel def fuel h h)
        (λ r. Calm-insert_meta fuel name (new_type name r) small refl))
  Calm-parse_schema_type name (object ms) small h = Calm-parse_object name ms small h
  Calm-parse_schema_type name (list l) small h = Calm-pure fuel tt
  Calm-parse_schema_type name other small h = Calm-pure fuel tt

  Calm-parse_schema_types :
      (ms : Members) → MembersBelow fuel ms → Calm fuel (parse_schema_types fuel ms)
  unfolding parse_schema_types
  Calm-parse_schema_types end h = Calm-pure fuel tt
  Calm-parse_schema_types (member name v ms) h =
      Calm-bind fuel (parse_schema_type fuel name v) _ (Calm-parse_schema_type name v h.0 h.1)
        (λ u. Calm-parse_schema_types ms h.2)

  MembersBelow-types_of :
      (o : Option Json) (ms : Members)
      → get "types" ms ≡ o
      → MembersBelow fuel ms
      → MembersBelow fuel (types_of o ms)
  MembersBelow-types_of (some (object types)) ms e h =
      TextsBelow-get fuel "types" ms (object types) h e
  MembersBelow-types_of (some (text s)) ms e h = h
  MembersBelow-types_of (some (list l)) ms e h = h
  MembersBelow-types_of (some other) ms e h = h
  MembersBelow-types_of none ms e h = h

  pub Calm-load_schema : (v : Json) → TextsBelow fuel v → Calm fuel (load_schema fuel v)
  unfolding load_schema
  Calm-load_schema (object ms) h =
      Calm-parse_schema_types _ (MembersBelow-types_of (get "types" ms) ms refl h)
  Calm-load_schema (text s) h = Calm-throw Unit _ panicked tt
  Calm-load_schema (list l) h = Calm-throw Unit _ panicked tt
  Calm-load_schema other h = Calm-throw Unit _ panicked tt

-- With more fuel than the weight of each key and each text of the schema, on a well-formed registry
-- without locks: loading the schema ends with success or an error of its own, never for want of
-- fuel and never in a deadlock; the registry is well-formed and without locks again, names keep
-- their cells, and cells that were described keep their contents.
pub load_schema-Keeps :
    (fuel : ℕ) (schema : Json) (t : Types)
    → TextsBelow fuel schema
    → Wf t
    → ((r : ℕ) → t.locked r ≡ false)
    → Settled (load_schema fuel schema t).1
      × Wf (load_schema fuel schema t).0
      × ((r : ℕ) → (load_schema fuel schema t).0.locked r ≡ false)
      × ((k : String) (r : ℕ)
          → lookup k t.types ≡ some r
          → lookup k (load_schema fuel schema t).0.types ≡ some r)
      × ((r : ℕ)
          → r < t.next
          → is_unresolved (t.cells r) ≡ false
          → (load_schema fuel schema t).0.cells r ≡ t.cells r)
load_schema-Keeps fuel schema t small v unlocked =
    let (f, s) = Calm-load_schema fuel schema small t v (λ k r l h. let bad = unlocked r in cc) in
    (s, f.wf, (λ r. f.locks r ∙ unlocked r), f.names, f.described)
