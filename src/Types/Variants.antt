-- ===== src/Types/Variants.antt =====
-- src/types.rs, `EnumVariants`: the variants of an enum, by index and by name.
pub mod Laws
use sub_script.Prelude.{
  ℕ, suc, ◌-◌, ◌%◌, ◌≤◌, ◌<◌, String, Bool, true, false, Option, none, some, List, [], ◌∷◌, ◌++◌,
  ◌≡◌, arith, length, get_elem?, set, replicate, ltb, ◌==◌, if◌then◌else◌, lookup, insert, Result,
  ok, err, panicked,
}

pub record EnumVariant : Type 0 where
  pub idx : ℕ
  pub name : String
  pub type_ref : Option ℕ

pub record EnumVariants : Type 0 where
  pub variants : List (Option EnumVariant)
  pub name_map : List (String × ℕ)

abbrev pub empty : EnumVariants
empty = record { variants = []; name_map = [] }

-- The index is a u8: it wraps at 256 variants.
unfoldable pub insert_variant : EnumVariants → String → Option ℕ → EnumVariants × ℕ
insert_variant vs name r =
    let idx = length vs.variants % 256 in
    (
      record {
        variants = vs.variants ++ some (record { idx = idx; name = name; type_ref = r }) ∷ [];
        name_map = insert name idx vs.name_map;
      },
      idx,
    )

-- `while len > self.variants.len() { self.variants.push(None) }`
unfoldable pub pad : ℕ → List (Option EnumVariant) → List (Option EnumVariant)
pad len xs = xs ++ replicate (len - length xs) none

unfoldable pub checked : ℕ → EnumVariants × ℕ → Result EnumVariants
checked idx (vs, at) = if at == idx then ok vs else err panicked

unfoldable pub insert_at : EnumVariants → ℕ → String → Option ℕ → Result EnumVariants
unfolding checked pad insert_variant
insert_at vs idx name r =
    if ltb idx (length vs.variants)
    then ok (record vs {
      variants = set vs.variants idx (some (record { idx = idx; name = name; type_ref = r }));
    })
    else checked idx (insert_variant (record vs { variants = pad idx vs.variants }) name r)

abbrev pub join {ℓ} : {A : Type ℓ} → Option (Option A) → Option A
join (some (some a)) = some a
join _ = none

unfoldable pub get_by_idx : EnumVariants → ℕ → Option EnumVariant
get_by_idx vs idx = join (get_elem? vs.variants idx)

unfoldable pub get_by_name : EnumVariants → String → Option EnumVariant
unfolding get_by_idx
get_by_name vs name = elim (lookup name vs.name_map) [ none ↦ none | some i ↦ get_by_idx vs i ]
