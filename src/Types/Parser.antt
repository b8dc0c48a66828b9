-- ===== src/Types/Parser.antt =====
-- src/types.rs, `Types::{parse_type, parse}`: the description of a type from its text. The cell of the
-- text stays locked while its parts are parsed; the recursion on texts takes fuel.
pub mod Safe
pub mod Own
pub mod Ends
use Prim.Native.String.{[] as empty, ◌++◌ as append}
use sub_script.Prelude.{
  ℕ, zero, suc, ◌+◌, ◌*◌, String, str_eq, Bool, true, false, ◌||◌, Option, none, some, List, [],
  ◌∷◌, ◌==◌, if◌then◌else◌, Result, ok, err, Error, out_of_fuel, deadlock, parse_failed,
}
use sub_script.Types.Meta.{
  TypeMeta, unit_type, option, box, vector, compact, result, slice, tuple, new_type,
  unresolved_type,
}
use sub_script.Types.Scan.{
  trim, trim_matches, remove_char, remove_from, ends_in, drop_last, split_once, split_terminator,
  count_char, parse_usize,
}
use sub_script.Types.Registry.{
  Types, M, proceed, ◌>>=◌, pure, throw, set_cell, lock, unlock, contains_key, resolve,
}

-- the text under which a type is registered: trimmed, without line ends and `T::`
unfoldable pub clean : String → String
clean name = remove_from "T::" 3 0 (remove_char b'\n' (remove_char b'\r' (trim name)))

abbrev pub is_paren : ℕ → Bool
is_paren c = c == b'(' || c == b')'

abbrev pub is_bracket : ℕ → Bool
is_bracket c = c == b'[' || c == b']'

abbrev pub joined : Option String → String → String
joined none s = s
joined (some s1) s = append s1 (append ", " s)

-- The pieces of a tuple: one with unequal numbers of `<` and `>` is put together with the next,
-- and is lost where there is none.
unfoldable pub rejoin : Option String → List String → List String
rejoin broken [] = []
rejoin broken (s ∷ ss) =
    let s' = trim (joined broken s) in
    let put_off = rejoin (some s') ss in
    let skipped = rejoin none ss in
    let kept = s' ∷ rejoin none ss in
    if count_char b'<' s' == count_char b'>' s'
    then (if str_eq s' empty then skipped else kept)
    else put_off

unfoldable pub slice_parts : Option (String × String) → Option (String × ℕ)
slice_parts none = none
slice_parts (some (ty, len)) = elim (parse_usize (trim len)) [
  | none ↦ none
  | some n ↦ some (trim ty, n)
]

module _ (rec : String → M ℕ) where
  unfoldable pub wrap_with : (ℕ → TypeMeta) → String → M TypeMeta
  unfolding pure
  wrap_with c ty = do r ← rec ty; pure (c r)

  unfoldable pub parse_result : Option (String × String) → String → M TypeMeta
  unfolding pure
  parse_result (some (ok_ty, err_ty)) ty = do a ← rec ok_ty; b ← rec err_ty; pure (result a b)
  parse_result none ty = do a ← rec ty; b ← rec "Error"; pure (result a b)

  unfoldable pub parse_generic : String → String → M TypeMeta
  unfolding pure contains_key resolve
  parse_generic def wrap t =
      if contains_key wrap t
      then (do r ← resolve wrap; pure (new_type wrap r)) t
      else pure (unresolved_type def) t

  unfoldable pub parse_wrapped : String → String → String → M TypeMeta
  unfolding wrap_with parse_result parse_generic
  parse_wrapped def wrap ty =
      if str_eq wrap "Vec"
      then wrap_with vector ty
      else if str_eq wrap "Option"
      then wrap_with option ty
      else if str_eq wrap "Compact"
      then wrap_with compact ty
      else if str_eq wrap "Box"
      then wrap_with box ty
      else if str_eq wrap "Result"
      then parse_result (split_once b',' ty) ty
      else if str_eq wrap "PhantomData" || str_eq wrap "sp_std::marker::PhantomData"
      then pure unit_type
      else parse_generic def wrap

  unfoldable pub parse_parts : String → Option (String × String) → M TypeMeta
  unfolding parse_wrapped throw
  parse_parts def none = throw parse_failed
  parse_parts def (some (wrap, ty)) = parse_wrapped def (trim wrap) (trim ty)

  unfoldable pub parse_each : List String → M (List ℕ)
  unfolding pure
  parse_each [] = pure []
  parse_each (s ∷ ss) = do r ← rec s; rs ← parse_each ss; pure (r ∷ rs)

  unfoldable pub parse_slice : Option (String × ℕ) → M TypeMeta
  unfolding wrap_with throw
  parse_slice none = throw parse_failed
  parse_slice (some (ty, len)) = wrap_with (slice len) ty

  -- `parse`
  unfoldable pub parse : String → M TypeMeta
  unfolding parse_parts parse_each parse_slice rejoin slice_parts
  parse def =
      if ends_in b'>' def
      then parse_parts def (split_once b'<' (drop_last def))
      else if ends_in b')' def
      then (do
        rs ← parse_each (rejoin none (split_terminator b',' (trim_matches is_paren def)))
        pure (tuple rs))
      else if ends_in b']' def
      then parse_slice (slice_parts (split_once b';' (trim_matches is_bracket def)))
      else pure (unresolved_type def)

abbrev pub definition : TypeMeta → Option String
definition (unresolved_type def) = some def
definition _ = none

-- the write guard goes out of scope, also after an error
unfoldable pub close_cell : ℕ → Types × Result TypeMeta → Types × Result ℕ
unfolding set_cell unlock
close_cell r (t, ok m) = (unlock r (set_cell r m t), ok r)
close_cell r (t, err e) = (unlock r t, err e)

unfoldable pub parse_cell : (String → M ℕ) → ℕ → M ℕ
unfolding close_cell lock parse
parse_cell rec r t = if t.locked r then (t, err deadlock) else elim (definition (t.cells r)) [
  | none ↦ (t, ok r)
  | some def ↦ close_cell r (parse rec def (lock r t))
]

unfoldable pub parse_type : ℕ → String → M ℕ
unfolding parse_cell clean resolve
parse_type zero name = throw out_of_fuel
parse_type (suc fuel) name = do r ← resolve (clean name); parse_cell (parse_type fuel) r
