-- ===== src/Types/Registry.antt =====
-- src/types.rs, `Types`: the names of types (an `IndexMap`, in the order of insertion), the store of
-- the cells that `TypeRef`s point to, and which cells are locked for writing. A cell is an
-- `RwLock`: to lock it once more is a deadlock.
pub mod Keeps
pub mod Insert
pub mod Results
pub mod Quiet
use sub_script.Prelude.{
  ℕ, ◌+◌, String, Bool, true, false, Option, none, some, List, [], ◌∷◌, ◌++◌, ◌==◌, if◌then◌else◌,
  lookup, insert, Result, ok, err, Error, deadlock,
}
use sub_script.Types.Meta.{TypeMeta, unresolved_type, new_type}

pub record Types : Type 0 where
  pub types : List (String × ℕ)
  pub cells : ℕ → TypeMeta
  -- the next address that no `TypeRef` has
  pub next : ℕ
  pub locked : ℕ → Bool

unfoldable pub new : Types
new = record { types = []; cells = λ r. unresolved_type ""; next = 0; locked = λ r. false }

-- An operation on the registry. What it did before an error stays done.
abbrev pub M : Type 0 → Type 0
M A = Types → Types × Result A

unfoldable pub proceed : {A B : Type 0} → Types × Result A → (A → M B) → Types × Result B
proceed (t, ok a) f = f a t
proceed (t, err e) f = (t, err e)

infixl 5 ◌>>=◌
abbrev pub ◌>>=◌ : {A B : Type 0} → M A → (A → M B) → M B
◌>>=◌ m f t = proceed (m t) f

unfoldable pub pure : {A : Type 0} → A → M A
pure a t = (t, ok a)

unfoldable pub throw : {A : Type 0} → Error → M A
throw e t = (t, err e)

abbrev pub store {ℓ} : {A : Type ℓ} → ℕ → A → (ℕ → A) → ℕ → A
store r a f j = if r == j then a else f j

unfoldable pub set_cell : ℕ → TypeMeta → Types → Types
set_cell r m t = record t { cells = store r m t.cells }

unfoldable pub lock : ℕ → Types → Types
lock r t = record t { locked = store r true t.locked }

unfoldable pub unlock : ℕ → Types → Types
unlock r t = record t { locked = store r false t.locked }

-- `TypeRef::from`: a cell of its own
unfoldable pub alloc : TypeMeta → Types → Types
alloc m t = record t { cells = store t.next m t.cells; next = t.next + 1 }

unfoldable pub add_name : String → ℕ → Types → Types
add_name name r t = record t { types = insert name r t.types }

unfoldable pub contains_key : String → Types → Bool
contains_key name t = elim (lookup name t.types) [ none ↦ false | some _ ↦ true ]

unfoldable pub resolve : String → M ℕ
unfolding alloc add_name
resolve name t = elim (lookup name t.types) [
  | some r ↦ (t, ok r)
  | none ↦ (add_name name t.next (alloc (unresolved_type name) t), ok t.next)
]

abbrev pub is_unresolved : TypeMeta → Bool
is_unresolved (unresolved_type _) = true
is_unresolved _ = false

-- A name that waits for its definition gets it, in the cell that others have; a second definition
-- is dropped.
unfoldable pub define_old : String → ℕ → ℕ → M ℕ
unfolding set_cell
define_old name old r t =
    if is_unresolved (t.cells old) then (set_cell old (new_type name r) t, ok old) else (t, ok old)

-- `insert`: a name that is new stands for the given cell itself.
unfoldable pub insert_ref : String → ℕ → M ℕ
unfolding define_old add_name
insert_ref name r t = elim (lookup name t.types) [
  | none ↦ (add_name name r t, ok r)
  | some old ↦ if t.locked old then (t, err deadlock) else define_old name old r t
]

unfoldable pub insert_meta : String → TypeMeta → M ℕ
unfolding insert_ref alloc
insert_meta name m t = insert_ref name t.next (alloc m t)
