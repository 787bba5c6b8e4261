-- ===== src/Control/Program.antt =====
-- An action's run as a tree of what it asks of its surroundings: each node is one request, and goes on
-- with the answer. `call` is a call of the device by `executor::call`; `state::ubus` (rust/src/state.rs)
-- is the same call with its error as a text, which `fmt::Display` of `UbusError` writes
-- (rust/src/ubus/client.rs; `status::name` is in rust/src/ubus/blob.rs).
use Prim.Native.String.{◌++◌}
use zte_u60_pro_mu5250_data.Common.{
  ℕ, ℤ, pos, negsuc, String, Bool, List, Result, ok, err, ◌==◌, if◌then◌else◌,
}
use zte_u60_pro_mu5250_data.Common.Text.{signed_decimal}
use zte_u60_pro_mu5250_data.Json.{Json}
use zte_u60_pro_mu5250_data.Executor.Calls.{
  UbusError, invalid_argument, timeout, skipped, not_found, bad_status, no_data, io_error,
  protocol_error,
}

-- `Cmd` of rust/src/at.rs
pub data Cmd : Type 0 where
  cops_auto cfun_online : Cmd

-- What `power_save_apply` does to files.
pub data FileOp : Type 0 where
  create_dir_all : String → FileOp
  write_file : String → String → FileOp
  set_permissions : String → ℕ → FileOp
  rename_file : String → String → FileOp
  remove_file : String → FileOp

-- The two actions that rust/src/sms.rs answers.
pub data SmsAction : Type 0 where
  send_raw list_after : SmsAction

-- An error of these says whether the parameters were at fault.
abbrev pub SmsReply : Type 0
SmsReply = Result (Bool × String) Json

pub data Program (A : Type 0) : Type 0 where
  ret : A → Program A
  call : String → String → Json → (Result UbusError Json → Program A) → Program A
  at_command : Cmd → (Result String String → Program A) → Program A
  command : String → List String → ℕ → (Result String String → Program A) → Program A
  file : FileOp → (Result String (Unit {0}) → Program A) → Program A
  sms : SmsAction → Json → (SmsReply → Program A) → Program A
  sleep : ℕ → Program A → Program A

infixl 5 ◌>>=◌
unfoldable pub ◌>>=◌ : {A B : Type 0} → Program A → (A → Program B) → Program B
ret a >>= f = f a
call o m v k >>= f = call o m v (λ r. k r >>= f)
at_command c k >>= f = at_command c (λ r. k r >>= f)
command b l t k >>= f = command b l t (λ r. k r >>= f)
file op k >>= f = file op (λ r. k r >>= f)
sms a v k >>= f = sms a v (λ r. k r >>= f)
sleep t k >>= f = sleep t (k >>= f)

-- `status::name`
unfoldable status_name : ℤ → String
status_name (negsuc n) = "Unknown error"
status_name (pos n) =
    if n == 0
    then "Success"
    else if n == 1
    then "Invalid command"
    else if n == 2
    then "Invalid argument"
    else if n == 3
    then "Method not found"
    else if n == 4
    then "Not found"
    else if n == 5
    then "No response"
    else if n == 6
    then "Permission denied"
    else if n == 7
    then "Request timed out"
    else if n == 8
    then "Operation not supported"
    else if n == 10
    then "Connection failed"
    else if n == 11
    then "Out of memory"
    else if n == 12
    then "Parsing message data failed"
    else if n == 13
    then "System error"
    else "Unknown error"

unfoldable pub error_text : UbusError → String
unfolding status_name
error_text (invalid_argument m) = m
error_text (io_error m) = m
error_text (timeout o detail) = detail
error_text (no_data o detail) = detail
error_text (skipped o) = "ubus " ++ o ++ ": skipped after a recent timeout"
error_text (not_found o) = "ubus " ++ o ++ ": " ++ status_name (pos 4)
error_text (bad_status o m n) =
    "ubus " ++ o ++ " " ++ m ++ ": " ++ status_name n ++ " (" ++ signed_decimal n ++ ")"
error_text (protocol_error m) = "ubus protocol error: " ++ m

unfoldable pub as_text : Result UbusError Json → Result String Json
as_text (ok v) = ok v
as_text (err e) = err (error_text e)

-- `state::ubus`
unfoldable pub ubus : String → String → Json → Program (Result String Json)
unfolding as_text
ubus o m args = call o m args (λ r. ret (as_text r))
