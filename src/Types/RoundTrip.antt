-- ===== src/Types/RoundTrip.antt =====
-- src/types.rs: what was encoded is decoded again.
pub mod Rules
pub mod Fitting
pub mod Atoms
pub mod Branches
use sub_script.Prelude.{
  ℕ, zero, suc, ◌+◌, ◌≤◌, Bool, true, false, List, ◌++◌, ◌≡◌, refl, ok, Result, arith, ◌>>=◌,
  append-nil, [],
}
use sub_script.Dynamic.{Dynamic, unit}
use sub_script.Libs.{Libs, Laws}
use sub_script.Types.Meta.{
  Enc, Reader, TypeMeta, unit_type, bool_type, option_bool, string_type, integer, option, box,
  vector, compact, result, slice, tuple, struct, enum, new_type, unresolved_type, custom, new_args,
}
use sub_script.Types.Encode.{encode_meta, encode_ref, encode}
use sub_script.Types.Decode.{decode_meta, decode_ref, decode}
use Rules.{args, Codes, Codes-done, Codes-in_compact}
use Fitting.{FitsMeta, FitsUnit, Fits}
use Atoms.{Codes-encode_bool, Codes-encode_string, Codes-encode_integer}
use Branches.{Codes-option, Codes-vector, Codes-slice, Codes-tuple, Codes-struct, Codes-enum}

module _ (l : Libs) (laws : Laws l) (deref : ℕ → TypeMeta) where
  Codes-meta :
      (e : ℕ → Dynamic → Enc) (d : ℕ → Bool → Reader Dynamic) (P : ℕ → Bool → Dynamic → Type 0)
      → ((r : ℕ) (c : Bool) (v : Dynamic) → P r c v → Codes (e r v) (d r c) c v)
      → (m : TypeMeta) (c : Bool) (v : Dynamic) → FitsMeta P l m c v
      → Codes (encode_meta l e deref m v) (decode_meta l d m c) c v
  unfolding encode_meta decode_meta
  Codes-meta e d P ih unit_type c unit h = Codes-done c _ unit (λ rest. refl)
  Codes-meta e d P ih unit_type c _ h = absurd h
  Codes-meta e d P ih bool_type c v h = Codes-encode_bool l laws c v h
  Codes-meta e d P ih string_type c v h = Codes-encode_string l laws c v h
  Codes-meta e d P ih (integer w s) c v h = Codes-encode_integer l laws w s c v h
  Codes-meta e d P ih (compact r) c v h = Codes-in_compact c _ _ v (ih r true v h)
  Codes-meta e d P ih (box r) c v h = ih r c v h
  Codes-meta e d P ih (new_type _ r) c v h = ih r c v h
  Codes-meta e d P ih (option r) false v h = Codes-option l laws e d P ih r v h
  Codes-meta e d P ih (vector r) false v h = Codes-vector l laws e d P ih r v h
  Codes-meta e d P ih (slice len r) false v h = Codes-slice l laws e d P ih deref len r v h
  Codes-meta e d P ih (tuple rs) false v h = Codes-tuple l laws e d P ih rs v h
  Codes-meta e d P ih (struct fs) false v h = Codes-struct l laws e d P ih fs v h
  Codes-meta e d P ih (enum vs) false v h = Codes-enum l laws e d P ih vs v h
  Codes-meta e d P ih (custom fns m) false v h =
      rw (h.0, encode_meta) (rw (h.1, decode_meta) (Codes-meta e d P ih m false v h.2))
  Codes-meta e d P ih _ c v h = absurd h

  -- A value that fits a described cell, within so many cells, is encoded with that much fuel or more:
  -- bytes are appended to any buffer without an error, and reading them at the same cell, whatever
  -- follows them, gives the value back and leaves exactly what follows. The codec libraries are
  -- assumed to read back what they write.
  pub decode_ref-encode_ref :
      (n fuel r : ℕ) (c : Bool) (v : Dynamic)
      → n ≤ fuel
      → Fits l deref n r c v
      → Codes (encode_ref l deref fuel r v) (decode_ref l deref fuel r c) c v
  unfolding encode_ref decode_ref
  decode_ref-encode_ref zero fuel r c v le h = absurd h
  decode_ref-encode_ref (suc n) zero r c v le h = absurd (omega arith)
  decode_ref-encode_ref (suc n) (suc fuel) r c v le h =
      Codes-meta (encode_ref l deref fuel) (decode_ref l deref fuel) (Fits l deref n)
        (λ r' c' v' h'. decode_ref-encode_ref n fuel r' c' v' (omega arith) h') (deref r) c v h

  -- So `TypeRef::decode` inverts `TypeRef::encode` at the values that fit.
  pub decode-encode :
      (n fuel r : ℕ) (v : Dynamic)
      → n ≤ fuel
      → Fits l deref n r false v
      → (bs : List ℕ) × (encode l deref fuel r v ≡ ok bs) × (decode l deref fuel r bs ≡ ok v)
  unfolding encode decode
  decode-encode n fuel r v le h =
      let p = decode_ref-encode_ref n fuel r false v le h in
      (
        p.written,
        rw (p.writes []),
        (let q : decode_ref l deref fuel r false p.written ≡ ok (v, []) =
              rw append-nil at (p.reads []) in
            rw q),
      )
