-- ===== src/Dynamic.antt =====
-- The values of scripts (rhai's `Dynamic`), as far as src/types.rs looks into them, and the objects
-- of scripts (rhai's `Map`, an ordered map from names to values).
-- `decimal` and `user` hold a value of a third-party type by a number that stands for it, and
-- `other t n` is a value of any further type, whose type is `t`.
use sub_script.Prelude.{
  ℕ, suc, ◌+◌, ℤ, String, Bool, Option, none, some, List, ◌≡◌, refl, arith, str_eq, str_eq_iff,
  str_lt, if◌then◌else◌,
}

mutual
  pub data Dynamic : Type 0 where
    unit : Dynamic
    int : ℤ → Dynamic
    decimal : ℕ → Dynamic
    boolean : Bool → Dynamic
    text : List ℕ → Dynamic
    bytes : List ℕ → Dynamic
    array : Items → Dynamic
    object : Fields → Dynamic
    user : ℕ → Dynamic
    other : ℕ → ℕ → Dynamic

  pub data Items : Type 0 where
    nil : Items
    cons : Dynamic → Items → Items

  pub data Fields : Type 0 where
    end : Fields
    field : String → Dynamic → Fields → Fields

abbrev pub count : Items → ℕ
count nil = 0
count (cons v vs) = suc (count vs)

-- A number for each type, as `TypeId` gives it.
abbrev pub type_id : Dynamic → ℕ
type_id unit = 0
type_id (int _) = 1
type_id (decimal _) = 2
type_id (boolean _) = 3
type_id (text _) = 4
type_id (bytes _) = 5
type_id (array _) = 6
type_id (object _) = 7
type_id (user _) = 8
type_id (other t _) = t + 9

unfoldable pub get_field : String → Fields → Option Dynamic
get_field k end = none
get_field k (field j v m) = if str_eq j k then some v else get_field k m

-- The entries stay in the order of their names; a name that is there gets the new value.
unfoldable pub insert_field : String → Dynamic → Fields → Fields
insert_field k v end = field k v end
insert_field k v (field j w m) =
    if str_eq j k
    then field k v m
    else if str_lt k j
    then field k v (field j w m)
    else field j w (insert_field k v m)

pub get_field-insert_field :
    (k j : String) (v : Dynamic) (m : Fields)
    → get_field j (insert_field k v m) ≡ (if str_eq k j then some v else get_field j m)
unfolding get_field insert_field
get_field-insert_field k j v end = refl
get_field-insert_field k j v (field i w m) =
    ground (arith, str_eq_iff k j, str_eq_iff i k, str_eq_iff i j, get_field-insert_field k j v m)
