-- ===== src/Tests/Values.antt =====
-- Values, their encodings and their keys.
use sub_script.Prelude.{
  ℕ, zero, suc, ◌≡◌, refl, pos, String, str_eq, str_eq_iff, Bool-cases, inl, inr, false, none, some,
  List, [], ◌∷◌, str_lt, ◌++◌, ◌>>=◌, ◌==◌, if◌then◌else◌, lookup, ok, arith,
}
use sub_script.Dynamic.{Dynamic, int, array, object, Items, nil, cons, end, field, insert_field}
use sub_script.Types.Variants.{EnumVariants, insert_at, get_by_idx, get_by_name}
use sub_script.Types.Variants.Laws.{IsConsistent, get_by_idx-insert_at, get_by_name-insert_at}
use sub_script.Types.Meta.{TypeMeta, bool_type, integer, option, vector, struct, compact}
use sub_script.Types.Encode.{encode_ref, encode, encode_meta, encode_integer}
use sub_script.Types.Decode.{decode_ref}
use sub_script.Types.RoundTrip.{decode_ref-encode_ref}
use sub_script.Types.RoundTrip.Rules.{Codes}
use sub_script.Types.RoundTrip.Fitting.{Fits}
use sub_script.Types.Appends.Rules.{Appends}
use sub_script.Types.Appends.{CustomAppends, encode_ref-Appends}
use sub_script.Metadata.Hasher
use sub_script.Metadata.Hasher.{identity, blake2_128_concat, twox_64_concat}
use sub_script.Metadata.Storage.{
  StorageMetadata, get_prefix_key, raw_map_key, get_map_key, get_double_map_key,
  get_double_map_prefix, encode_map_key,
}
use sub_script.Metadata.Keys.{get_map_key-injective, get_map_key-eq-raw, get_double_map_key-prefix}
use sub_script.Tests.Codec.{toy, toy-Laws, toy_hashes, toy-HashLaws}

-- 0 is a u8, 1 a struct, 2 an optional vector of u8, 3 that vector, 4 a compact u128, 5 the u128
abbrev pub cells : ℕ → TypeMeta
cells zero = integer 1 false
cells (suc zero) = struct (("id", 0) ∷ ("opt", 2) ∷ ("amount", 4) ∷ [])
cells (suc (suc zero)) = option 3
cells (suc (suc (suc zero))) = vector 0
cells (suc (suc (suc (suc zero)))) = compact 5
cells (suc (suc (suc (suc (suc zero))))) = integer 16 false
cells (suc (suc (suc (suc (suc (suc r)))))) = bool_type

abbrev two_bytes : Items
two_bytes = cons (int (pos 1)) (cons (int (pos 255)) nil)

abbrev members : Items
members = cons (int (pos 7)) (cons (array two_bytes) (cons (int (pos 1000)) nil))

-- in the order of the names
abbrev sample : Dynamic
sample =
    object (
      field "amount" (int (pos 1000))
        (field "id" (int (pos 7)) (field "opt" (array two_bytes) end)))

abbrev pub balances : StorageMetadata
balances = record {
  prefix = 4 ∷ [];
  name = 2 ∷ [];
  key_hasher = some ((1, blake2_128_concat) ∷ []);
  value_ty = 0;
}

abbrev approvals : StorageMetadata
approvals = record {
  prefix = 4 ∷ [];
  name = 2 ∷ [];
  key_hasher = some ((0, identity) ∷ (0, twox_64_concat) ∷ []);
  value_ty = 0;
}

fits : Fits toy cells 4 1 false sample
unfolding insert_field str_lt
fits = (
  members,
  (
    ((λ e. cc), ((λ e. cc), tt)),
    (refl, omega arith, omega arith),
    (
      ((λ e. cc), tt),
      (omega arith, ((refl, omega arith, omega arith), ((refl, omega arith, omega arith), tt))),
      (tt, omega arith, tt),
    ),
  ),
  refl,
)

decode_ref-encode_ref_example :
    Codes (encode_ref toy cells 5 1 sample) (decode_ref toy cells 5 1 false) false sample
decode_ref-encode_ref_example =
    decode_ref-encode_ref toy toy-Laws cells 4 5 1 false sample (omega arith) fits

customs : (r : ℕ) → CustomAppends (cells r)
customs zero = tt
customs (suc zero) = tt
customs (suc (suc zero)) = tt
customs (suc (suc (suc zero))) = tt
customs (suc (suc (suc (suc zero)))) = tt
customs (suc (suc (suc (suc (suc zero))))) = tt
customs (suc (suc (suc (suc (suc (suc r)))))) = tt

encode_ref-Appends_example : Appends (encode_ref toy cells 5 1 sample)
encode_ref-Appends_example = encode_ref-Appends toy cells customs 5 1 sample

get_map_key-injective_example : sample ≡ sample
get_map_key-injective_example =
    get_map_key-injective toy toy-Laws toy_hashes toy-HashLaws cells 5 balances 4 1
      blake2_128_concat sample sample refl tt (omega arith) fits fits refl

get_map_key-eq-raw_example :
    get_map_key toy toy_hashes cells 5 balances sample
    ≡ (encode_map_key toy toy_hashes cells 5 balances sample >>= raw_map_key toy_hashes balances)
get_map_key-eq-raw_example = get_map_key-eq-raw toy toy_hashes cells 5 balances sample

-- the storage key of the entry of 7 and 3
abbrev key_bytes : List ℕ
key_bytes = 4 ∷ 2 ∷ 7 ∷ 9 ∷ 3 ∷ []

get_double_map_key_at :
    get_double_map_key toy toy_hashes cells 5 approvals (int (pos 7)) (int (pos 3)) ≡ ok key_bytes
unfolding get_double_map_key Hasher.get_double_map_key encode encode_meta encode_integer
    get_prefix_key Hasher.hash
get_double_map_key_at = refl

get_double_map_key-prefix_example :
    (p s : List ℕ) × (get_double_map_prefix toy toy_hashes cells 5 approvals (int (pos 7)) ≡ ok p)
    × (key_bytes ≡ p ++ s)
get_double_map_key-prefix_example =
    get_double_map_key-prefix toy toy_hashes cells 5 approvals (int (pos 7)) (int (pos 3)) key_bytes
      (λ e. cc) get_double_map_key_at

-- one variant at index 0, and one beyond a gap
abbrev one : EnumVariants
one = record {
  variants = some (record { idx = 0; name = "A"; type_ref = none }) ∷ [];
  name_map = ("A", 0) ∷ [];
}

abbrev with_gap : EnumVariants
with_gap = record {
  variants = none ∷ some (record { idx = 1; name = "B"; type_ref = some 0 }) ∷ [];
  name_map = ("B", 1) ∷ [];
}

get_by_idx-insert_at_example :
    (vs' : EnumVariants) × (insert_at with_gap 5 "C" none ≡ ok vs')
    × ((j : ℕ)
        → get_by_idx vs' j ≡ (
            if j == 5
            then some (record { idx = 5; name = "C"; type_ref = none })
            else get_by_idx with_gap j))
get_by_idx-insert_at_example = get_by_idx-insert_at with_gap 5 "C" none (omega arith)

one-IsConsistent : IsConsistent one
unfolding lookup get_by_idx
one-IsConsistent = record {
  named = λ n i e. elim (Bool-cases (str_eq "A" n)) [
    | inl same ↦
        let at : i ≡ 0 = ground arith in
        (
          record { idx = 0; name = "A"; type_ref = none },
          rw at,
          ground (arith, str_eq_iff "A" n),
          omega arith,
        )
    | inr other ↦ ground arith
  ];
}

get_by_name-insert_at_example :
    (vs' : EnumVariants) × (insert_at one 3 "C" none ≡ ok vs')
    × IsConsistent vs'
    × ((n : String)
        → get_by_name vs' n ≡ (
            if str_eq "C" n
            then some (record { idx = 3; name = "C"; type_ref = none })
            else get_by_name one n))
get_by_name-insert_at_example =
    get_by_name-insert_at one 3 "C" none one-IsConsistent (omega arith) (omega arith)

unknown : lookup "A" with_gap.name_map ≡ none
unfolding lookup
unknown = refl
