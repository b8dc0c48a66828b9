-- ===== src/Prelude/Outcome.antt =====
-- What a fallible operation returns. The source's errors are texts; here each message has a name.
use Prim.Native.String.{String}
use mathlib.Core.Option.{Option, none, some}
use mathlib.Core.Path.{◌≡◌, refl}
use mathlib.Core.Logic.{◌⊎◌, inl, inr}

pub data Error : Type 0 where
  unsupported_integer integer_out_of_range expected_number expected_bool : Error
  expected_vector wrong_length unhandled_slice bad_hex expected_string : Error
  expected_tuple expected_struct expected_enum multiple_variants empty_enum : Error
  missing_field unknown_variant unresolved : String → Error
  unhandled_type invalid_variant decode_failed custom_failed : Error
  not_a_map not_a_double_map no_keys keys_expected wrong_parameters : Error
  not_found rpc_failed conn_closed unexpected_event request_failed malformed : Error
  parse_failed already_joined packet_too_large device_error : Error
  not_decoded invalid_prefix unsupported_version : Error
  -- a Rust panic: a failed assertion, an index out of bounds, an `expect`
  panicked : Error
  -- a lock is taken that the thread holds already: the call never returns
  deadlock : Error
  -- the model's own: the fuel of a recursion ran out
  out_of_fuel : Error

pub data Result {ℓ} (A : Type ℓ) : Type ℓ where
  ok : A → Result A
  err : Error → Result A

infixl 5 ◌>>=◌
abbrev pub ◌>>=◌ {ℓ κ} : {A : Type ℓ} {B : Type κ} → Result A → (A → Result B) → Result B
ok a >>= f = f a
err e >>= f = err e

abbrev pub or_fail {ℓ} : {A : Type ℓ} → Option A → Error → Result A
or_fail none e = err e
or_fail (some a) e = ok a

pub Result-cases {ℓ} :
    {A : Type ℓ} (r : Result A) → ((a : A) × (r ≡ ok a)) ⊎ ((e : Error) × (r ≡ err e))
Result-cases (ok a) = inl (a, refl)
Result-cases (err e) = inr (e, refl)
