-- ===== src/Types/Parser/Safe.antt =====
-- src/types.rs, `Types::parse`: the parts of a text weigh less than the text, and parsing them is safe.
use Prim.Native.String.{[] as empty, ◌++◌ as append}
use sub_script.Prelude.{
  ℕ, ◌+◌, ◌≤◌, ◌<◌, ◌≡◌, refl, ap, ◌∙◌, ==_iff, String, str_eq, str_eq_iff, Bool, true, false,
  Option, none, some, List, [], ◌∷◌, ◌==◌, arith, Bool-cases, Option-cases, inl, inr, parse_failed,
}
use sub_script.Types.Meta.{
  TypeMeta, unit_type, option, box, vector, compact, result, slice, tuple, new_type,
  unresolved_type,
}
use sub_script.Types.Scan.{
  trim, trim_matches, ends_in, last_char, drop_last, split_once, split_terminator, count_char,
  parse_usize, is_space,
}
use sub_script.Types.Scan.Weight.{
  weight, weight-append, weight-trim, weight-drop_last, weight-split_once, weight-trim_matches_last,
  total, total-split_terminator,
}
use sub_script.Types.Registry.{M, contains_key, resolve}
use sub_script.Types.Registry.Keeps.{Calm, Calm-pure, Calm-throw, Calm-bind, Calm-if, Calm-resolve}
use sub_script.Types.Parser.{
  is_paren, is_bracket, joined, rejoin, slice_parts, wrap_with, parse_result, parse_generic,
  parse_wrapped, parse_parts, parse_each, parse_slice, parse,
}

-- An unresolved description is that of the text itself.
abbrev pub Own : String → TypeMeta → Type 0
Own def m = (d : String) → m ≡ unresolved_type d → d ≡ def

abbrev AllBelow : ℕ → List String → Type 0
AllBelow w [] = Unit
AllBelow w (s ∷ ss) = (weight s < w) × AllBelow w ss

abbrev broken_weight : Option String → ℕ
broken_weight none = 0
broken_weight (some s) = weight s + 1

weight_comma : weight ", " ≡ 1
unfolding weight is_space
weight_comma = refl

weight-joined :
    (b : Option String) (s : String) → weight (trim (joined b s)) ≤ broken_weight b + weight s
weight-joined none s = omega (arith, weight-trim s)
weight-joined (some s1) s = omega (
  arith,
  weight-trim (append s1 (append ", " s)),
  weight-append s1 (append ", " s),
  weight-append ", " s,
  weight_comma,
)

AllBelow-rejoin :
    (w : ℕ) (b : Option String) (ss : List String)
    → broken_weight b + total ss ≤ w
    → AllBelow w (rejoin b ss)
unfolding rejoin
AllBelow-rejoin w b [] h = tt
AllBelow-rejoin w b (s ∷ ss) h =
    let small = weight-joined b s in
    elim (Bool-cases (count_char b'<' (trim (joined b s)) == count_char b'>' (trim (joined b s)))) [
      | inr uneven ↦
          rw uneven (AllBelow-rejoin w (some (trim (joined b s))) ss (omega (arith, small)))
      | inl even ↦ rw even (elim (Bool-cases (str_eq (trim (joined b s)) empty)) [
        | inl nothing ↦ rw nothing (AllBelow-rejoin w none ss (omega (arith, small)))
        | inr something ↦
            rw something (omega (arith, small), AllBelow-rejoin w none ss (omega (arith, small)))
      ])
    ]

weight_error : weight "Error" ≡ 5
unfolding weight is_space
weight_error = refl

weight_result : weight "Result" ≡ 6
unfolding weight is_space
weight_result = refl

comma : is_space b',' ≡ false
unfolding is_space
comma = refl

angle : is_space b'>' ≡ false
unfolding is_space
angle = refl

less : is_space b'<' ≡ false
unfolding is_space
less = refl

paren : is_space b')' ≡ false
unfolding is_space
paren = refl

bracket : is_space b']' ≡ false
unfolding is_space
bracket = refl

semicolon : is_space b';' ≡ false
unfolding is_space
semicolon = refl

module _ (rec : String → M ℕ) (def : String)
    (part : (s : String) → weight s < weight def → Calm (weight def) (rec s)) where
  Calm-wrap_with :
      (c : ℕ → TypeMeta) (ty : String)
      → weight ty < weight def
      → Calm (weight def) (wrap_with rec c ty)
  unfolding wrap_with
  Calm-wrap_with c ty h = Calm-bind _ (rec ty) _ (part ty h) (λ r. Calm-pure _ (c r))

  Calm-parse_result :
      (o : Option (String × String)) (ty : String)
      → weight ty < weight def
      → 5 < weight def
      → ((a b : String) → o ≡ some (a, b) → weight a + weight b + 1 ≡ weight ty)
      → Calm (weight def) (parse_result rec o ty)
  unfolding parse_result
  Calm-parse_result (some (a, b)) ty h five parts =
      Calm-bind _ (rec a) _ (part a (omega (arith, parts a b refl))) λ x.
        Calm-bind _ (rec b) _ (part b (omega (arith, parts a b refl))) λ y. Calm-pure _ (result x y)
  Calm-parse_result none ty h five parts = Calm-bind _ (rec ty) _ (part ty h) λ x.
      Calm-bind _ (rec "Error") _ (part "Error" (omega (arith, weight_error)))
        λ y. Calm-pure _ (result x y)

  Calm-parse_generic : (wrap : String) → Calm (weight def) (parse_generic rec def wrap)
  unfolding parse_generic
  Calm-parse_generic wrap t v h = elim (Bool-cases (contains_key wrap t)) [
    | inl there ↦ rw there (
        Calm-bind _ (resolve wrap) _ (Calm-resolve _ wrap) (λ r. Calm-pure _ (new_type wrap r)) t v
          h)
    | inr missing ↦ rw missing (Calm-pure _ (unresolved_type def) t v h)
  ]

  Calm-parse_wrapped :
      (wrap ty : String)
      → weight wrap + weight ty + 2 ≤ weight def
      → Calm (weight def) (parse_wrapped rec def wrap ty)
  unfolding parse_wrapped
  Calm-parse_wrapped wrap ty h =
      let small : weight ty < weight def = omega arith in
      Calm-if _ (str_eq wrap "Vec") _ _ (λ e. Calm-wrap_with vector ty small)
        λ e.
          Calm-if _ (str_eq wrap "Option") _ _ (λ e. Calm-wrap_with option ty small)
            λ e.
              Calm-if _ (str_eq wrap "Compact") _ _ (λ e. Calm-wrap_with compact ty small)
                λ e.
                  Calm-if _ (str_eq wrap "Box") _ _ (λ e. Calm-wrap_with box ty small)
                    λ e.
                      Calm-if _ (str_eq wrap "Result") _ _
                        (λ e.
                          let named : weight wrap ≡ 6 =
                            ap weight ((str_eq_iff wrap "Result").0 e) ∙ weight_result in
                          Calm-parse_result (split_once b',' ty) ty small (omega arith)
                            (λ a b q. weight-split_once b',' ty a b comma q))
                        λ e.
                          Calm-if _ _ _ _ (λ e. Calm-pure _ unit_type)
                            (λ e. Calm-parse_generic wrap)

  Calm-parse_parts :
      (o : Option (String × String))
      → ((a b : String) → o ≡ some (a, b) → weight a + weight b + 2 ≤ weight def)
      → Calm (weight def) (parse_parts rec def o)
  unfolding parse_parts
  Calm-parse_parts none h = Calm-throw TypeMeta _ parse_failed tt
  Calm-parse_parts (some (a, b)) h =
      Calm-parse_wrapped (trim a) (trim b) (omega (arith, h a b refl, weight-trim a, weight-trim b))

  Calm-parse_each :
      (ss : List String) → AllBelow (weight def) ss → Calm (weight def) (parse_each rec ss)
  unfolding parse_each
  Calm-parse_each [] h = Calm-pure {A = List ℕ} _ []
  Calm-parse_each (s ∷ ss) h =
      Calm-bind _ (rec s) _ (part s h.0)
        λ r. Calm-bind _ (parse_each rec ss) _ (Calm-parse_each ss h.1) λ rs. Calm-pure _ (r ∷ rs)

  Calm-parse_slice :
      (o : Option (String × ℕ))
      → ((ty : String) (n : ℕ) → o ≡ some (ty, n) → weight ty < weight def)
      → Calm (weight def) (parse_slice rec o)
  unfolding parse_slice
  Calm-parse_slice none h = Calm-throw TypeMeta _ parse_failed tt
  Calm-parse_slice (some (ty, n)) h = Calm-wrap_with (slice n) ty (h ty n refl)

  slice_small :
      (o : Option (String × String)) (w : ℕ)
      → ((a b : String) → o ≡ some (a, b) → weight a < w)
      → (ty : String) (n : ℕ) → slice_parts o ≡ some (ty, n)
      → weight ty < w
  unfolding slice_parts
  slice_small none w h ty n e = cc
  slice_small (some (a, b)) w h ty n e = elim (Option-cases (parse_usize (trim b))) [
    | inl bad ↦
        let no_len : ◌≡◌ {A = Option (String × ℕ)} none (some (ty, n)) =
          rw (bad, slice_parts) at e in
        cc
    | inr (k, len) ↦
        let parsed : ◌≡◌ {A = Option (String × ℕ)} (some (trim a, k)) (some (ty, n)) =
          rw (len, slice_parts) at e in
        let same : trim a ≡ ty = cc in omega (arith, ap weight same, weight-trim a, h a b refl)
  ]

  ends : (c : ℕ) → ends_in c def ≡ true → last_char def ≡ some c
  ends c e = elim (Option-cases (last_char def)) [
    | inl nothing ↦ let bad : ◌≡◌ {A = Bool} false true = rw (nothing, ends_in) at e in cc
    | inr (d, here) ↦
        let same : (d == c) ≡ true = rw (here, ends_in) at e in here ∙ ap some ((==_iff d c).0 same)
  ]

  -- Parsing a text is safe if parsing the lighter ones is.
  pub Calm-parse : Calm (weight def) (parse rec def)
  unfolding parse
  Calm-parse =
      Calm-if _ (ends_in b'>' def) _ _
        (λ e.
          let lighter = weight-drop_last def b'>' (ends b'>' e) angle in
          Calm-parse_parts (split_once b'<' (drop_last def))
            (λ a b q. omega (arith, lighter, weight-split_once b'<' (drop_last def) a b less q)))
        λ e.
          Calm-if _ (ends_in b')' def) _ _
            (λ e.
              let lighter = weight-trim_matches_last is_paren def b')' (ends b')' e) refl paren in
              Calm-bind _ (parse_each rec _) _
                (Calm-parse_each _ (
                  AllBelow-rejoin (weight def) none
                    (split_terminator b',' (trim_matches is_paren def))
                    (omega (
                      arith,
                      lighter,
                      total-split_terminator b',' (trim_matches is_paren def) comma,
                    ))))
                (λ rs. Calm-pure _ (tuple rs)))
            λ e.
              Calm-if _ (ends_in b']' def) _ _
                (λ e.
                  let lighter =
                    weight-trim_matches_last is_bracket def b']' (ends b']' e) refl bracket in
                  Calm-parse_slice (slice_parts (split_once b';' (trim_matches is_bracket def))) (
                    slice_small (split_once b';' (trim_matches is_bracket def)) (weight def)
                      (λ a b q. omega (
                        arith,
                        lighter,
                        weight-split_once b';' (trim_matches is_bracket def) a b semicolon q,
                      ))))
                (λ e. Calm-pure _ (unresolved_type def))
