-- ===== src/Control/Params.antt =====
-- What an action reads from its parameters (`string`, `integer`, `boolean`, `mapped`), its outcome, and
-- the plain calls (`call`, `mapped_call`) (rust/src/control.rs). The server has checked that the
-- parameters are an object.
use Prim.Native.String.{◌++◌, len}
use zte_u60_pro_mu5250_data.Common.{
  ℕ, ℤ, String, Bool, true, false, ◌&&◌, Option, none, some, List, [], ◌∷◌, leb, ◌==◌,
  if◌then◌else◌, Result, ok, err,
}
use zte_u60_pro_mu5250_data.Executor.Calls.{UbusError, no_data}
use zte_u60_pro_mu5250_data.Json.{
  Json, boolean, number, string, object, Fields, end, get, insert, has_no_fields, as_i64, as_u64,
  signed, empty_object,
}
use zte_u60_pro_mu5250_data.Control.Program.{Program, ret, call, ubus, ◌>>=◌, error_text}

-- `Outcome`; `done` is `Ok`.
pub data Outcome : Type 0 where
  not_handled : Outcome
  invalid failed : String → Outcome
  done : Json → Outcome

unfoldable string_value : String → Json → Result String (Option String)
string_value name (string s) =
    if leb (len s) 8192 then ok (some s) else err (name ++ " must be a string")
string_value name _ = err (name ++ " must be a string")

unfoldable missing : {A : Type 0} → String → Bool → Result String (Option A)
missing name true = err ("missing parameter: " ++ name)
missing name false = ok none

-- `string`
unfoldable pub string_param : Fields → String → Bool → Result String (Option String)
unfolding string_value missing
string_param params name required = elim (get params name) [
  | none ↦ missing name required
  | some v ↦ string_value name v
]

unfoldable integer_value : String → Option ℤ → Result String (Option ℤ)
integer_value name none = err (name ++ " must be an integer")
integer_value name (some n) = ok (some n)

-- `integer`
unfoldable pub integer_param : Fields → String → Bool → Result String (Option ℤ)
unfolding integer_value missing
integer_param params name required = elim (get params name) [
  | none ↦ missing name required
  | some v ↦ integer_value name (as_i64 v)
]

unfoldable zero_or_one : String → Option ℕ → Result String Bool
zero_or_one name none = err (name ++ " must be boolean")
zero_or_one name (some n) =
    if n == 0 then ok false else if n == 1 then ok true else err (name ++ " must be boolean")

unfoldable pub boolean_value : String → Json → Result String Bool
unfolding zero_or_one
boolean_value name (boolean b) = ok b
boolean_value name (number n) = zero_or_one name (as_u64 (number n))
boolean_value name _ = err (name ++ " must be boolean")

-- `boolean`
unfoldable pub boolean_param : Fields → String → Result String Bool
boolean_param params name = elim (get params name) [
  | none ↦ err (name ++ " must be boolean")
  | some v ↦ boolean_value name v
]

-- A field to pass on: its parameter, its name at the device, whether it is required, whether it is an
-- integer.
pub record Mapping : Type 0 where
  pub input : String
  pub output : String
  pub required : Bool
  pub is_int : Bool

abbrev pub text_field : String → String → Bool → Mapping
text_field i o required = record { input = i; output = o; required = required; is_int = false }

abbrev pub int_field : String → String → Bool → Mapping
int_field i o required = record { input = i; output = o; required = required; is_int = true }

unfoldable put_text : String → Fields → Result String (Option String) → Result String Fields
put_text o args (err e) = err e
put_text o args (ok none) = ok args
put_text o args (ok (some s)) = ok (insert o (string s) args)

unfoldable put_int : String → Fields → Result String (Option ℤ) → Result String Fields
put_int o args (err e) = err e
put_int o args (ok none) = ok args
put_int o args (ok (some n)) = ok (insert o (signed n) args)

-- One pass of the loop of `mapped`.
unfoldable map_field : Fields → Mapping → Fields → Result String Fields
unfolding put_text put_int
map_field params m args =
    if m.is_int
    then put_int m.output args (integer_param params m.input m.required)
    else put_text m.output args (string_param params m.input m.required)

unfoldable mapped_from : Fields → List Mapping → Fields → Result String Fields
mapped_from params [] args = ok args
mapped_from params (m ∷ more) args = elim (map_field params m args) [
  | ok args' ↦ mapped_from params more args'
  | err e ↦ err e
]

-- `mapped`
unfoldable pub mapped : Fields → List Mapping → Result String Fields
unfolding mapped_from map_field
mapped params specs = mapped_from params specs end

unfoldable write_reply : Result UbusError Json → Result UbusError Json
write_reply (err (no_data o detail)) = ok empty_object
write_reply r = r

unfoldable outcome_of : Result UbusError Json → Outcome
outcome_of (ok v) = done v
outcome_of (err e) = failed (error_text e)

-- `write_outcome`
unfoldable pub write_outcome : Result UbusError Json → Outcome
unfolding write_reply outcome_of
write_outcome r = outcome_of (write_reply r)

-- `call`
unfoldable pub write_call : String → String → Json → Program Outcome
write_call o m args = call o m args (λ r. ret (write_outcome r))

unfoldable pub mapped_call : Fields → String → String → List Mapping → Bool → Program Outcome
mapped_call params o m specs require_any = elim (mapped params specs) [
  | err e ↦ ret (invalid e)
  | ok args ↦
      if require_any && has_no_fields args
      then ret (invalid "no fields supplied")
      else write_call o m (object args)
]

-- `match state::ubus(...)`, where an error ends the action.
unfoldable pub failed_or : (Json → Program Outcome) → Result String Json → Program Outcome
failed_or f (ok v) = f v
failed_or f (err e) = ret (failed e)

unfoldable pub read_then : String → String → Json → (Json → Program Outcome) → Program Outcome
unfolding failed_or ubus ◌>>=◌
read_then o m args f = ubus o m args >>= failed_or f
