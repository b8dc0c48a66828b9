-- ===== src/Types/Parser/Own.antt =====
-- src/types.rs, `Types::parse`: a text that stays unresolved keeps its own text.
use sub_script.Prelude.{ℕ, ◌≡◌, ap, String, str_eq, Option, none, some, Bool-cases, inl, inr}
use sub_script.Types.Meta.{
  TypeMeta, unit_type, option, box, vector, compact, result, slice, tuple, new_type,
  unresolved_type,
}
use sub_script.Types.Scan.{trim, split_once, ends_in}
use sub_script.Types.Registry.{M, pure, throw, resolve, contains_key}
use sub_script.Types.Parser.{
  wrap_with, parse_result, parse_generic, parse_wrapped, parse_parts, parse_each, parse_slice,
  parse, definition,
}
use sub_script.Types.Registry.Results.{Returns, Returns-pure, Returns-bind, Returns-if}
use sub_script.Types.Parser.Safe.{Own}

module _ (rec : String → M ℕ) (def : String) where
  Own-wrap_with :
      (c : ℕ → TypeMeta) (ty : String)
      → ((r : ℕ) → Own def (c r))
      → Returns (wrap_with rec c ty) (Own def)
  unfolding wrap_with
  Own-wrap_with c ty o = Returns-bind (rec ty) _ _ (λ r. Returns-pure (c r) _ (o r))

  Own-parse_result :
      (o : Option (String × String)) (ty : String) → Returns (parse_result rec o ty) (Own def)
  unfolding parse_result
  Own-parse_result (some (a, b)) ty =
      Returns-bind (rec a) _ _
        λ x. Returns-bind (rec b) _ _ λ y. Returns-pure (result x y) (Own def) (λ d e. cc)
  Own-parse_result none ty =
      Returns-bind (rec ty) _ _
        λ x. Returns-bind (rec "Error") _ _ λ y. Returns-pure (result x y) (Own def) (λ d e. cc)

  Own-parse_generic : (wrap : String) → Returns (parse_generic rec def wrap) (Own def)
  unfolding parse_generic pure
  Own-parse_generic wrap t m e = elim (Bool-cases (contains_key wrap t)) [
    | inl there ↦
        Returns-bind (resolve wrap) _ (Own def)
          (λ r. Returns-pure (new_type wrap r) (Own def) (λ d e. cc)) t m (rw there at e)
    | inr missing ↦ Returns-pure (unresolved_type def) (Own def) (λ d e. cc) t m (rw missing at e)
  ]

  Own-parse_parts : (o : Option (String × String)) → Returns (parse_parts rec def o) (Own def)
  unfolding parse_parts parse_wrapped throw
  Own-parse_parts none = λ t m e. cc
  Own-parse_parts (some (a, b)) =
      let ty = trim b in
      Returns-if (str_eq (trim a) "Vec") _ _ _ (Own-wrap_with vector ty (λ r d e. cc)) (
        Returns-if (str_eq (trim a) "Option") _ _ _ (Own-wrap_with option ty (λ r d e. cc)) (
          Returns-if (str_eq (trim a) "Compact") _ _ _ (Own-wrap_with compact ty (λ r d e. cc)) (
            Returns-if (str_eq (trim a) "Box") _ _ _ (Own-wrap_with box ty (λ r d e. cc)) (
              Returns-if (str_eq (trim a) "Result") _ _ _ (Own-parse_result (split_once b',' ty) ty)
                (Returns-if _ _ _ _ (Returns-pure unit_type (Own def) (λ d e. cc))
                  (Own-parse_generic (trim a)))))))

  Own-parse_slice : (o : Option (String × ℕ)) → Returns (parse_slice rec o) (Own def)
  unfolding parse_slice throw
  Own-parse_slice none = λ t m e. cc
  Own-parse_slice (some (ty, n)) = Own-wrap_with (slice n) ty (λ r d e. cc)

  pub Own-parse : Returns (parse rec def) (Own def)
  unfolding parse
  Own-parse = Returns-if (ends_in b'>' def) _ _ _ (Own-parse_parts _) (
      Returns-if (ends_in b')' def) _ _ _
        (Returns-bind (parse_each rec _) _ _ (λ rs. Returns-pure (tuple rs) (Own def) (λ d e. cc)))
        (Returns-if (ends_in b']' def) _ _ _ (Own-parse_slice _)
          (Returns-pure (unresolved_type def) (Own def) (λ d e. cc))))

pub definition_unresolved :
    (m : TypeMeta) (d : String) → definition m ≡ some d → m ≡ unresolved_type d
definition_unresolved (unresolved_type e) d h = let same : e ≡ d = cc in ap unresolved_type same
definition_unresolved unit_type d h = cc
definition_unresolved _ d h = cc
