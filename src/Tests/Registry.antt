-- ===== src/Tests/Registry.antt =====
-- Type texts and schemas at concrete registries.
use sub_script.Prelude.{
  ◌⊎◌, Each, Error, decode_failed, err, zero, suc, Option, none, insert, ℕ, ◌<◌, ◌≡◌, refl, String,
  false, lookup, some, [], ◌∷◌, ok, arith, lookup,
}
use sub_script.Types.Meta.{struct}
use sub_script.Types.Scan.{
  is_space, last_char, remove_from, remove_char, trim, split_once, drop_last, trim_matches,
  split_terminator, count_char,
}
use sub_script.Types.Scan.Weight.{weight}
use sub_script.Types.Registry.{Types, proceed, new, is_unresolved, insert_meta}
use sub_script.Types.Registry.Keeps.{Wf, Settled}
use sub_script.Types.Parser.{clean, rejoin, parse_type}
use sub_script.Types.Parser.Ends.{parse_type-Settled, parse_type-Keeps}
use sub_script.Types.Portable
use sub_script.Types.Portable.{
  TypeDef, composite, sequence, primitive, PortableType, PortableRegistry, get_type_name,
}
use sub_script.Types.Import.{import_v14_types}
use sub_script.Types.Import.Resolved.{Imported}
use sub_script.Types.Portable.Named.{RanksBelow}
use sub_script.Types.Import.Sound.{IsSound}
use sub_script.Types.Import.Ends.{import_v14_types_lem}
use sub_script.Types.Registry.Keeps.{IsReported}
use mathlib.Core.Path.{subst}
use sub_script.Types.Schema.{Json, text, list, object, nil, cons, end, member, load_schema}
use sub_script.Types.Schema.Safe.{TextsBelow, load_schema-Keeps}
use sub_script.Types.Init.{Codecs, primitives, init_types}
use sub_script.Types.Init.Steady.{Has}
use sub_script.Types.Init.Ready.{init_types_lem}

new-Wf : Wf new
unfolding new lookup
new-Wf = record { bound = λ k r l. cc; own = λ k r d l c. cc; free = λ r le. refl }

new_unlocked : (r : ℕ) → new.locked r ≡ false
unfolding new
new_unlocked r = refl

abbrev schema : Json
schema = object (
    member "Balance" (text "u128") (
      member "Kind" (object (member "_enum" (list (cons (text "On") (cons (text "Off") nil))) end))
        (member "Pair"
          (object (member "left" (text "Vec<Balance>") (member "right" (text "Kind") end))) end)))

abbrev loaded : Types
loaded = (load_schema 20 schema new).0

schema-TextsBelow : TextsBelow 20 schema
unfolding weight is_space
schema-TextsBelow = (
  omega arith,
  omega arith,
  (
    omega arith,
    (omega arith, tt, tt),
    (omega arith, (omega arith, omega arith, (omega arith, omega arith, tt)), tt),
  ),
)

load_schema-Keeps_example :
    Settled (load_schema 20 schema new).1
    × Wf (load_schema 20 schema new).0
    × ((r : ℕ) → (load_schema 20 schema new).0.locked r ≡ false)
    × ((k : String) (r : ℕ)
        → lookup k new.types ≡ some r
        → lookup k (load_schema 20 schema new).0.types ≡ some r)
    × ((r : ℕ)
        → r < new.next
        → is_unresolved (new.cells r) ≡ false
        → (load_schema 20 schema new).0.cells r ≡ new.cells r)
unfolding weight is_space
load_schema-Keeps_example = load_schema-Keeps 20 schema new schema-TextsBelow new-Wf new_unlocked

loaded-Wf : Wf loaded
loaded-Wf = (load_schema-Keeps 20 schema new schema-TextsBelow new-Wf new_unlocked).1

loaded_unlocked : (r : ℕ) → loaded.locked r ≡ false
loaded_unlocked = (load_schema-Keeps 20 schema new schema-TextsBelow new-Wf new_unlocked).2

parse_type-Settled_example : Settled (parse_type 22 "Option<(Pair, [u8;4])>" loaded).1
unfolding weight is_space
parse_type-Settled_example =
    parse_type-Settled 22 "Option<(Pair, [u8;4])>" loaded (omega arith) loaded-Wf loaded_unlocked

parse_type-Keeps_example :
    Wf (parse_type 20 "Vec<Balance>" loaded).0
    × ((r : ℕ) → (parse_type 20 "Vec<Balance>" loaded).0.locked r ≡ false)
    × ((k : String) (r : ℕ)
        → lookup k loaded.types ≡ some r
        → lookup k (parse_type 20 "Vec<Balance>" loaded).0.types ≡ some r)
    × ((r : ℕ)
        → r < loaded.next
        → is_unresolved (loaded.cells r) ≡ false
        → (parse_type 20 "Vec<Balance>" loaded).0.cells r ≡ loaded.cells r)
    × ((r : ℕ)
        → (parse_type 20 "Vec<Balance>" loaded).1 ≡ ok r
        → lookup (clean "Vec<Balance>") (parse_type 20 "Vec<Balance>" loaded).0.types ≡ some r)
unfolding weight is_space
parse_type-Keeps_example =
    parse_type-Keeps 20 "Vec<Balance>" loaded (omega arith) loaded-Wf loaded_unlocked

abbrev codecs : Codecs
codecs = record {
  era = 30;
  shared_user = 31;
  account = 32;
  text = 33;
  signature = 34;
  era_bytes = λ v. 0 ∷ [];
  public = λ v. 7 ∷ [];
  account_bytes = λ v. 8 ∷ [];
  account_of_text = λ v. ok (9 ∷ []);
  signature_bytes = λ v. 1 ∷ [];
  decode_era = λ bytes. err decode_failed;
  decode_account = λ bytes. err decode_failed;
}

init_types_lem_example :
    IsSound (init_types 20 schema schema codecs new).0
    × Each (Has (init_types 20 schema schema codecs new).0) primitives
    × Settled (init_types 20 schema schema codecs new).1
init_types_lem_example =
    init_types_lem 20 schema schema codecs (omega arith) schema-TextsBelow schema-TextsBelow

-- the cells that the schema makes
pair_fields : loaded.cells 4 ≡ struct (("left", 3) ∷ ("right", 2) ∷ [])
unfolding load_schema new is_space proceed parse_type lookup last_char remove_from remove_char trim
    insert_meta insert split_once drop_last
pair_fields = refl

-- a tuple inside a tuple falls apart at its comma
nested_tuple :
    (parse_type 9 "(A,(B,C))" new).0.types ≡ ("(A,(B,C))", 0) ∷ ("A", 1) ∷ ("(B", 2) ∷ ("C", 3) ∷ []
unfolding load_schema new is_space proceed parse_type lookup last_char remove_from remove_char trim
    insert_meta insert split_once drop_last trim_matches split_terminator rejoin count_char
nested_tuple = refl

abbrev named : String → TypeDef → PortableType
named path d = record { path = path; ident = some path; type_params = []; type_def = d }

abbrev type_of : ℕ → Option PortableType
type_of zero = some (named "" (primitive Portable.u8))
type_of (suc zero) = some (named "" (sequence 0))
type_of (suc (suc zero)) =
    some (named "Seed" (composite (record { name = some "raw"; ty = 1; type_name = none } ∷ [])))
type_of _ = none

abbrev portable : PortableRegistry
portable = record {
  types =
      (0, named "" (primitive Portable.u8))
      ∷ (1, named "" (sequence 0))
      ∷ (2, named "Seed" (composite (record { name = some "raw"; ty = 1; type_name = none } ∷ [])))
      ∷ [];
  resolve = type_of;
}

abbrev rank : ℕ → ℕ
rank id = id

ranked : (id : ℕ) (ty : PortableType) → portable.resolve id ≡ some ty → RanksBelow rank (rank id) ty
ranked zero ty h =
    let same : named "" (primitive Portable.u8) ≡ ty = cc in subst (RanksBelow rank 0) same (tt, tt)
ranked (suc zero) ty h =
    let same : named "" (sequence 0) ≡ ty = cc in
    subst (RanksBelow rank 1) same ((omega arith, tt), tt)
ranked (suc (suc zero)) ty h =
    let same : named "Seed"
          (composite (record { name = some "raw"; ty = 1; type_name = none } ∷ []))
        ≡ ty =
      cc in
    subst (RanksBelow rank 2) same (tt, tt)
ranked (suc (suc (suc id))) ty h = cc

import_v14_types_lem_example :
    (((e : Error) × ((import_v14_types (λ n. "0") portable 4 new).1 ≡ err e) × IsReported e)
      ⊎ (((import_v14_types (λ n. "0") portable 4 new).1 ≡ ok tt)
          × Imported
              (λ n. "0")
              portable
              4
              portable.types
              (import_v14_types (λ n. "0") portable 4 new).0))
    × IsSound (import_v14_types (λ n. "0") portable 4 new).0
    × ((k : String) (r : ℕ)
        → lookup k new.types ≡ some r
        → lookup k (import_v14_types (λ n. "0") portable 4 new).0.types ≡ some r)
import_v14_types_lem_example =
    import_v14_types_lem (λ n. "0") portable 4 rank 3 new ranked
      ((tt, tt), (((omega arith, tt), tt), ((tt, tt), tt))) (omega arith)
      ((refl, (refl, tt)), ((refl, tt), (tt, tt))) (new-Wf, new_unlocked)
