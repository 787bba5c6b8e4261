-- ===== src/Control/Power.antt =====
-- Power and the USB-C port: `direct_supply` and `usb_attach_mode` with the readbacks that confirm them
-- (rust/src/control.rs).
use zte_u60_pro_mu5250_data.Common.{
  ℕ, zero, suc, ℤ, pos, String, str_eq, Bool, true, false, ◌||◌, not, Option, none, some, unwrap_or,
  is_some, [], ◌∷◌, eq_ℤ, if◌then◌else◌, Result, ok, err,
}
use zte_u60_pro_mu5250_data.Common.Text.{chars, trim, parse_i64}
use zte_u60_pro_mu5250_data.Executor.Calls.{UbusError, no_data}
use zte_u60_pro_mu5250_data.Json.{
  Json, boolean, string, object, Fields, get, get_in, as_str, as_str_of, as_i64, obj, empty_object,
}
use zte_u60_pro_mu5250_data.Control.Program.{Program, ret, call, sleep, ubus, error_text, ◌>>=◌}
use zte_u60_pro_mu5250_data.Control.Params.{
  Outcome, invalid, failed, done, boolean_param, read_then,
}

unfoldable direct_text : Fields → Option String → Result String Bool
direct_text params none = boolean_param params "enabled"
direct_text params (some v) =
    if str_eq v "1" || str_eq v "true"
    then ok true
    else if str_eq v "0" || str_eq v "false"
    then ok false
    else boolean_param params "enabled"

-- `direct_supply_enabled`
unfoldable pub direct_supply_enabled : Fields → Result String Bool
unfolding direct_text
direct_supply_enabled params = direct_text params (as_str_of (get params "enabled"))

-- `v.as_i64().or_else(|| v.as_str().and_then(|s| s.trim().parse().ok()))`
unfoldable pub int_or_text : Json → Option ℤ
int_or_text v = elim (as_i64 v) [
  | some n ↦ some n
  | none ↦ elim (as_str v) [ none ↦ none | some s ↦ parse_i64 (trim (chars s)) ]
]

unfoldable result_of : Option Json → ℤ
result_of none = pos 0
result_of (some v) = unwrap_or (int_or_text v) (pos 0)

-- `direct_supply_write_failed`
unfoldable pub write_failed : Result UbusError Json → Bool
unfolding result_of
write_failed (err (no_data o detail)) = false
write_failed (err _) = true
write_failed (ok (object body)) =
    is_some (get body "error") || not (eq_ℤ (result_of (get body "result")) (pos 0))
write_failed (ok _) = true

abbrev pub mode_name : Bool → String
mode_name wanted = if wanted then "enable" else "disable"

unfoldable pub mode_of : Json → Option String
mode_of v = as_str_of (get_in v "direct_power_supply_mode")

unfoldable pub shows_mode : Bool → Result String Json → Bool
shows_mode wanted (err e) = false
shows_mode wanted (ok v) = elim (mode_of v) [ none ↦ false | some m ↦ str_eq m (mode_name wanted) ]

-- What `sleep` does before each reading but the first.
abbrev wait_before : Bool → ℕ → Program Bool → Program Bool
wait_before first ms p = if first then p else sleep ms p

abbrev stop_or : Bool → Program Bool → Program Bool
stop_or found more = if found then ret true else more

-- `poll_until`, with the pause between two readings, and the loop of `direct_supply`.
unfoldable pub poll_until :
    Bool → ℕ → String → String → Json → ℕ → (Result String Json → Bool) → Program Bool
poll_until first ms o m args zero test = ret false
poll_until first ms o m args (suc tries) test =
    let rest = poll_until false ms o m args tries test in
    wait_before first ms (ubus o m args >>= λ r. stop_or (test r) rest)

unfoldable pub supply_reply : Bool → Bool → Json
supply_reply wanted changed = obj (
    ("supported", boolean true)
    ∷ ("enabled", boolean wanted)
    ∷ ("mode", string (mode_name wanted))
    ∷ ("changed", boolean changed)
    ∷ ("verified", boolean true)
    ∷ [])

unfoldable pub confirmed : Bool → Bool → Program Outcome
confirmed wanted verified =
    if verified
    then ret (done (supply_reply wanted true))
    else ret (failed "direct supply readback did not confirm the requested mode")

unfoldable refusal_text : Result UbusError Json → String
refusal_text (ok v) = "direct supply write failed"
refusal_text (err e) = error_text e

unfoldable pub confirm_supply : Bool → Result UbusError Json → Program Outcome
unfolding refusal_text
confirm_supply wanted r =
    if write_failed r
    then ret (failed (refusal_text r))
    else poll_until true 100 "zwrt_bsp.charger" "list" empty_object 5 (shows_mode wanted)
      >>= confirmed wanted

unfoldable pub switch_supply : Bool → String → Program Outcome
switch_supply wanted mode =
    if str_eq mode (mode_name wanted)
    then ret (done (supply_reply wanted false))
    else call "zwrt_bsp.charger" "set"
        (obj (("direct_power_supply_mode", string (mode_name wanted)) ∷ [])) (confirm_supply wanted)

unfoldable pub supply_mode : Bool → Option String → Program Outcome
supply_mode wanted none = ret (failed "direct supply is not supported or state is unknown")
supply_mode wanted (some mode) =
    if str_eq mode "enable" || str_eq mode "disable"
    then switch_supply wanted mode
    else ret (failed "direct supply is not supported or state is unknown")

-- `direct_supply`
unfoldable pub direct_supply : Fields → Program Outcome
unfolding confirmed refusal_text confirm_supply switch_supply supply_mode
direct_supply params = elim (direct_supply_enabled params) [
  | err e ↦ ret (invalid e)
  | ok wanted ↦
      read_then "zwrt_bsp.charger" "list" empty_object (λ v. supply_mode wanted (mode_of v))
]
