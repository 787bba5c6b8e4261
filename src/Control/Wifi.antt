-- ===== src/Control/Wifi.antt =====
-- Wi-Fi: `wifi_module`, `wifi_apply` with the radio sections of rust/src/wifi.rs and `uci_write` of
-- rust/src/state.rs, and `wifi_power_save` (rust/src/control.rs). What `serde_json` writes for a number
-- or a value is a parameter, and so are the paths from the environment and the radio sections that
-- earlier calls have found.
pub mod Apply
pub mod PowerSave
use Prim.Native.Char.{Char}
use Prim.Native.String.{◌++◌, len, slice}
use zte_u60_pro_mu5250_data.Common.{
  ℕ, zero, suc, ◌-◌, ℤ, pos, String, str_eq, is_empty, Bool, true, false, ◌&&◌, ◌||◌, not, Option,
  none, some, is_some, is_some_and, unwrap_or, List, [], ◌∷◌, ltb, leb, ◌==◌, if◌then◌else◌, Result,
  ok, err,
}
use zte_u60_pro_mu5250_data.Common.Text.{
  chars, text_of, trim, split_once, all_chars, has_char, is_alphanumeric, decimal,
}
use zte_u60_pro_mu5250_data.Engine.Sessions.{has}
use zte_u60_pro_mu5250_data.Json.{
  Number, Json, null, boolean, number, string, array, object, Items, nil, cons, Fields, end, field,
  get, get_in, as_str_of, as_bool, obj, empty_object,
}
use zte_u60_pro_mu5250_data.Control.Program.{Program, ret, command, ubus, ◌>>=◌}
use zte_u60_pro_mu5250_data.Control.Params.{
  Outcome, invalid, failed, done, integer_param, write_call,
}

-- What the actions take from outside: `number_text` and `json_text` are `to_string`.
pub record Env : Type 0 where
  pub number_text : Number → String
  pub json_text : Json → String
  pub uci_bin : String
  pub iw_bin : String
  pub sms_db : String
  pub sqlite_bin : String
  pub hotplug_dir : String
  pub radio_2g : Option String
  pub radio_5g : Option String

-- `wifi_module_args`
unfoldable lbd_field : Bool → Option String → List (String × Json)
lbd_field enabled none = []
lbd_field enabled (some l) =
    if enabled && (str_eq l "0" || str_eq l "1") then ("lbd", string l) ∷ [] else []

unfoldable wifi_module_args : Bool → Option String → Json
unfolding lbd_field
wifi_module_args enabled lbd =
    let switched : Json = string (if enabled then "1" else "0") in
    obj (("zte_mbb", obj (("wifi_onoff", switched) ∷ lbd_field enabled lbd)) ∷ [])

abbrev pub uci_query : String → String → Json
uci_query section option =
    obj
      (("config", string "wireless") ∷ ("section", string section) ∷ ("option", string option) ∷ [])

unfoldable lbd_of : Result String Json → Option String
lbd_of (err e) = none
lbd_of (ok v) = as_str_of (get_in v "value")

unfoldable pub switch_wifi : Bool → Program Outcome
unfolding wifi_module_args lbd_of
switch_wifi enabled =
    if enabled
    then (ubus "uci" "get" (uci_query "zte_mbb" "lbd") >>= λ r.
        write_call "zwrt_wlan" "set" (wifi_module_args true (lbd_of r)))
    else write_call "zwrt_wlan" "set" (wifi_module_args false none)

unfoldable pub module_switch : Option ℤ → Option Bool
module_switch (some (pos n)) = if n == 0 then some false else if n == 1 then some true else none
module_switch _ = none

unfoldable pub wifi_module_with : Result String (Option ℤ) → Program Outcome
wifi_module_with (err e) = ret (invalid e)
wifi_module_with (ok given) = elim (module_switch given) [
  | none ↦ ret (invalid "enabled must be 0 or 1")
  | some enabled ↦ switch_wifi enabled
]

-- `wifi_module`
unfoldable pub wifi_module : Fields → Program Outcome
unfolding lbd_of switch_wifi module_switch wifi_module_with
wifi_module params = wifi_module_with (integer_param params "enabled" true)

unfoldable is_section_char : ℕ → Bool
is_section_char c = is_alphanumeric c || c == b'_'

-- `radio_name`, of the option that ubus read.
unfoldable pub radio_name : Option String → Option String
unfolding is_section_char
radio_name none = none
radio_name (some s) =
    let name = text_of (trim (chars s)) in
    if not (is_empty name) && leb (len name) 32 && all_chars is_section_char (chars name)
    then some name
    else none

unfoldable pub radio_read : String → Result String Json → String
radio_read fallback (err e) = fallback
radio_read fallback (ok v) = unwrap_or (radio_name (as_str_of (get_in v "value"))) fallback

-- `radio_section`
unfoldable pub radio_section : Option String → String → String → Program String
unfolding radio_read radio_name
radio_section (some name) ap fallback = ret name
radio_section none ap fallback =
    ubus "uci" "get" (uci_query ap "device") >>= λ r. ret (radio_read fallback r)

-- `radio_sections`
unfoldable pub radio_sections : Env → Program (String × String)
unfolding radio_read radio_section
radio_sections env = radio_section env.radio_2g "main_2g" "wifi0" >>= λ a.
    radio_section env.radio_5g "main_5g" "wifi1" >>= λ b. ret (a, b)

abbrev pub ap_sections : List String
ap_sections = "main_2g" ∷ "main_5g" ∷ "guest_2g" ∷ "guest_5g" ∷ []

abbrev pub ap_options : List String
ap_options =
    "ssid" ∷ "key" ∷ "encryption" ∷ "hidden" ∷ "isolate" ∷ "disabled" ∷ "guest_active_time" ∷ []

abbrev pub radio_options : List String
radio_options = "country" ∷ "channel" ∷ "txpowerpercent" ∷ "htmode" ∷ "disabled" ∷ []

abbrev pub dead_keys : List String
dead_keys = "zte_mbb.wifi.wifi_onoff" ∷ "zte_mbb.wifi.wifi6_switch" ∷ []

unfoldable pub option_ok : String → String → String × String → Bool
option_ok sec opt (r0, r1) =
    (has ap_sections sec && has ap_options opt)
    || ((str_eq sec "wifi0" || str_eq sec "wifi1" || str_eq r0 sec || str_eq r1 sec)
        && has radio_options opt)

unfoldable pub rest_ok : List Char → Option (List Char) → String × String → Bool
rest_ok first none radios = false
rest_ok first (some rest) radios =
    let (sec, opt) = split_once b'.' rest in
    str_eq (text_of first) "wireless"
    && is_some_and opt (λ o. option_ok (text_of sec) (text_of o) radios)

-- `wifi_apply_key_ok`
unfoldable pub key_ok : String → String × String → Bool
unfolding option_ok rest_ok
key_ok path radios =
    has dead_keys path
    || (let (first, rest) = split_once b'.' (chars path) in rest_ok first rest radios)

unfoldable pub is_line_end : ℕ → Bool
is_line_end c = c == 0 || c == 13 || c == 10

unfoldable pub value_text : Env → Json → Option String
value_text env (string s) = some s
value_text env (number n) = some (env.number_text n)
value_text env (boolean b) = some (if b then "1" else "0")
value_text env _ = none

-- What one pass of the first loop of `wifi_apply` finds: a value to set, a key to skip, or an error.
unfoldable pub check_option : Env → String × String → String → Json → Result String (Option String)
unfolding is_line_end value_text
check_option env radios path v =
    if not (key_ok path radios)
    then err ("not a Wi-Fi option this action sets: " ++ path)
    else (elim (value_text env v) [
      | none ↦ err (path ++ ": value must be a string, number or boolean")
      | some value ↦
          if ltb 128 (len value) || has_char is_line_end (chars value)
          then err (path ++ ": invalid value")
          else if has dead_keys path
          then ok none
          else ok (some value)
    ])

abbrev pub Checked : Type 0
Checked = Result String (List (String × String) × List String)

unfoldable pub add_checked : String → Result String (Option String) → Checked → Checked
add_checked path (err e) rest = err e
add_checked path (ok v) (err e) = err e
add_checked path (ok none) (ok (updates, skipped)) = ok (updates, path ∷ skipped)
add_checked path (ok (some value)) (ok (updates, skipped)) = ok ((path, value) ∷ updates, skipped)

-- The first loop of `wifi_apply`.
unfoldable pub check_all : Env → String × String → Fields → Checked
unfolding add_checked
check_all env radios end = ok ([], [])
check_all env radios (field path v more) =
    add_checked path (check_option env radios path v) (check_all env radios more)

unfoldable is_path_char : ℕ → Bool
is_path_char c =
    is_alphanumeric c || c == b'.' || c == b'_' || c == b'-' || c == b'@' || c == b'[' || c == b']'

-- The operations of `uci_write` that this file uses.
pub data UciOp : Type 0 where
  set_to : String → UciOp
  commit revert : UciOp

unfoldable value_ok : String → Bool
value_ok v = leb (len v) 8192 && not (has_char is_line_end (chars v))

unfoldable path_ok : String → Bool
path_ok path = not (is_empty path) && leb (len path) 256 && all_chars is_path_char (chars path)

-- Its arguments of the `uci` command, if they are valid.
unfoldable pub uci_args : UciOp → String → Option (List String)
unfolding value_ok path_ok is_path_char is_line_end
uci_args (set_to v) path =
    if path_ok path && value_ok v then some ("set" ∷ (path ++ "=" ++ v) ∷ []) else none
uci_args commit path = if path_ok path then some ("commit" ∷ path ∷ []) else none
uci_args revert path = if path_ok path then some ("revert" ∷ path ∷ []) else none

unfoldable done_or : Result String String → Result String (Unit {0})
done_or (ok out) = ok tt
done_or (err e) = err e

-- `uci_write`
unfoldable pub uci_write : Env → UciOp → String → Program (Result String (Unit {0}))
unfolding done_or
uci_write env op path = elim (uci_args op path) [
  | none ↦ ret (err "invalid UCI mutation")
  | some args ↦ command env.uci_bin args 5000 (λ r. ret (done_or r))
]
