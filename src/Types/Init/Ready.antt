-- ===== src/Types/Init/Ready.antt =====
-- src/types.rs, `init_engine`: the registry of an engine when they are done.
use sub_script.Prelude.{
  ℕ, ◌<◌, ◌≡◌, refl, String, List, [], ◌∷◌, Each, lookup, insert, Result, ok, err, arith,
}
use sub_script.Types.Meta.{TypeMeta}
use sub_script.Types.Scan.{is_space}
use sub_script.Types.Scan.Weight.{weight}
use sub_script.Types.Registry.{
  Types, M, proceed, ◌>>=◌, pure, new, insert_meta, insert_ref, alloc, add_name,
}
use sub_script.Types.Registry.Keeps.{Settled}
use sub_script.Types.Registry.Quiet.{
  IsUnlocked-Keeps, Quiet, Quiet-pure, Quiet-bind, Quiet-insert_meta,
}
use sub_script.Types.Import.Sound.{IsSound}
use sub_script.Types.Schema.{Json, load_schema}
use sub_script.Types.Schema.Safe.{TextsBelow}
use sub_script.Types.Init.{primitives, insert_all, Codecs, custom_codecs, set_codecs, init_types}
use sub_script.Types.Init.Steady.{
  Has, AllDescribed, primitives-Described, IsShortCodec, Steady-bind, Steady-set_codecs,
  Steady-load_schema,
}

Quiet-insert_all : (ps : List (String × TypeMeta)) → AllDescribed ps → Quiet (insert_all ps)
unfolding insert_all AllDescribed
Quiet-insert_all [] d = Quiet-pure tt
Quiet-insert_all ((name, m) ∷ ps) d =
    Quiet-bind (insert_meta name m) _ (Quiet-insert_meta name m d.0) (λ r. Quiet-insert_all ps d.1)

started : Types
started = (insert_all primitives new).0

started-ok : (insert_all primitives new).1 ≡ ok tt
unfolding insert_all proceed pure new insert_meta insert_ref alloc add_name lookup insert
started-ok = refl

started-Has : Each (Has started) primitives
unfolding started insert_all proceed pure new insert_meta insert_ref alloc add_name lookup insert
started-Has = (
  (0, refl, omega arith, refl),
  (
    (1, refl, omega arith, refl),
    (
      (2, refl, omega arith, refl),
      (
        (3, refl, omega arith, refl),
        (
          (4, refl, omega arith, refl),
          (
            (5, refl, omega arith, refl),
            (
              (6, refl, omega arith, refl),
              (
                (7, refl, omega arith, refl),
                (
                  (8, refl, omega arith, refl),
                  (
                    (9, refl, omega arith, refl),
                    (
                      (10, refl, omega arith, refl),
                      ((11, refl, omega arith, refl), ((12, refl, omega arith, refl), tt)),
                    ),
                  ),
                ),
              ),
            ),
          ),
        ),
      ),
    ),
  ),
)

new-IsSound : IsSound new
unfolding new lookup
new-IsSound =
    (record { bound = λ k r l. cc; own = λ k r d l c. cc; free = λ r le. refl }, (λ r. refl))

custom_codecs-IsShort :
    (fuel : ℕ) (c : Codecs) → 14 < fuel → Each (IsShortCodec fuel) (custom_codecs c)
unfolding custom_codecs weight is_space
custom_codecs-IsShort fuel c h = (
  omega arith,
  (
    omega arith,
    (omega arith, (omega arith, (omega arith, (omega arith, (omega arith, (omega arith, tt)))))),
  ),
)

-- With more fuel than the longest name of a codec and the texts of both schemas weigh, whether or not
-- the schemas are read without an error: the registry that an engine starts with is well-formed and
-- without locks, and each primitive type stands under its name for a cell that has its description,
-- whatever codecs are put on it; what fails is an error of its own, never a deadlock or want of fuel.
pub init_types_lem :
    (fuel : ℕ) (substrate_types custom_types : Json) (codecs : Codecs)
    → 14 < fuel
    → TextsBelow fuel substrate_types
    → TextsBelow fuel custom_types
    → IsSound (init_types fuel substrate_types custom_types codecs new).0
      × Each (Has (init_types fuel substrate_types custom_types codecs new).0) primitives
      × Settled (init_types fuel substrate_types custom_types codecs new).1
unfolding init_types proceed started insert_meta
init_types_lem fuel substrate_types custom_types codecs enough below1 below2 =
    let (v, u) = new-IsSound in
    let (k, s) = Quiet-insert_all primitives primitives-Described new v u in
    go (insert_all primitives new) started-ok (k.wf, IsUnlocked-Keeps new started k u) started-Has
  where
    more : Unit {0} → M (Unit {0})
    more x = load_schema fuel substrate_types >>= λ y.
        load_schema fuel custom_types >>= λ z. set_codecs fuel (custom_codecs codecs)

    go :
        (p : Types × Result (Unit {0}))
        → p.1 ≡ ok tt
        → IsSound p.0
        → Each (Has p.0) primitives
        → IsSound (proceed p more).0
          × Each (Has (proceed p more).0) primitives
          × Settled (proceed p more).1
    go (t, ok x) e sound h =
        Steady-bind (load_schema fuel substrate_types) _
          (Steady-load_schema fuel substrate_types below1)
          (λ y.
            Steady-bind (load_schema fuel custom_types) _
              (Steady-load_schema fuel custom_types below2)
              (λ z.
                Steady-set_codecs fuel (custom_codecs codecs)
                  (custom_codecs-IsShort fuel codecs enough)))
          t sound h
    go (t, err x) e sound h = cc
