-- ===== src/Control/Usb.antt =====
-- `usb_attach_mode`: what the USB-C port is used for while something is plugged in
-- (rust/src/control.rs).
use zte_u60_pro_mu5250_data.Common.{
  ℤ, pos, String, str_eq, Bool, true, false, Option, none, some, [], ◌∷◌, eq_ℤ, if◌then◌else◌,
  Result, ok, err,
}
use zte_u60_pro_mu5250_data.Json.{
  Json, boolean, string, Fields, get, get_in, as_str_of, int, obj, empty_object,
}
use zte_u60_pro_mu5250_data.Control.Program.{Program, ret, ◌>>=◌}
use zte_u60_pro_mu5250_data.Control.Params.{
  Outcome, invalid, failed, done, string_param, boolean_param, write_call, read_then,
}
use zte_u60_pro_mu5250_data.Control.Power.{int_or_text, poll_until}

pub data UsbMode : Type 0 where
  share fast_charge accessory : UsbMode

abbrev usb_mode_name : UsbMode → String
usb_mode_name share = "share"
usb_mode_name fast_charge = "fast_charge"
usb_mode_name accessory = "accessory"

-- A member of `USB_MODES`.
unfoldable usb_mode : String → Option UsbMode
usb_mode s =
    if str_eq s "share"
    then some share
    else if str_eq s "fast_charge"
    then some fast_charge
    else if str_eq s "accessory"
    then some accessory
    else none

-- `int_field`
unfoldable field_int : Json → String → Option ℤ
field_int v name = elim (get_in v name) [ none ↦ none | some f ↦ int_or_text f ]

unfoldable field_is_one : Json → String → Bool
field_is_one v name = elim (field_int v name) [ none ↦ false | some n ↦ eq_ℤ n (pos 1) ]

unfoldable pub is_plugged : Json → Bool
unfolding field_int field_is_one
is_plugged v = field_is_one v "cc_attch_state"

unfoldable pub is_device : Json → Bool
is_device v = elim (as_str_of (get_in v "data_role")) [ none ↦ false | some r ↦ str_eq r "device" ]

unfoldable pub is_charging : Json → Bool
unfolding field_int field_is_one
is_charging v = field_is_one v "state"

unfoldable pub has_adapter : Json → Bool
unfolding field_int field_is_one
has_adapter v = field_is_one v "usb2rj45"

unfoldable pub answers : (Json → Bool) → Result String Json → Bool
answers test (ok v) = test v
answers test (err e) = false

-- `done`
unfoldable pub usb_done : UsbMode → Bool → Outcome
usb_done m changed = done (
    obj (
      ("mode", string (usb_mode_name m))
      ∷ ("changed", boolean changed)
      ∷ ("verified", boolean true)
      ∷ []))

abbrev pub state_query : Json
state_query = obj (("property", string "state") ∷ [])

unfoldable pub verified_as : UsbMode → String → Bool → Program Outcome
verified_as m message true = ret (usb_done m true)
verified_as m message false = ret (failed message)

-- `if let Outcome::Failed(e) = call(...)`
unfoldable pub unless_failed : Outcome → Program Outcome → Program Outcome
unless_failed (failed e) next = ret (failed e)
unless_failed _ next = next

unfoldable pub swap_role : Program Outcome
swap_role =
    write_call "zwrt_bsp.typec" "set"
      (obj (("source_module", string "zte_topsw_devui") ∷ ("DR_Swap", string "device") ∷ []))
    >>= λ r. unless_failed r (
        poll_until true 200 "zwrt_bsp.typec" "list" empty_object 15 (answers is_device)
        >>= verified_as share "USB role readback did not show data_role device")

unfoldable pub keep_host : Json → Program Outcome
keep_host usb =
    if has_adapter usb
    then ret (failed "a USB network adapter is attached; left in host mode")
    else swap_role

unfoldable pub share_port : Bool → Json → Program Outcome
share_port remembered typec =
    if is_device typec
    then ret (usb_done share false)
    else if remembered
    then read_then "zwrt_bsp.usb" "list" empty_object keep_host
    else swap_role

unfoldable pub start_charging : Json → Program Outcome
start_charging v =
    if is_charging v
    then ret (usb_done fast_charge false)
    else write_call "zwrt_bsp.powerbank" "set"
        (obj (("source_module", string "zte_topsw_devui") ∷ ("state", int 1) ∷ []))
      >>= λ r. unless_failed r (
          poll_until true 200 "zwrt_bsp.powerbank" "get" state_query 10 (answers is_charging)
          >>= verified_as fast_charge "power bank readback did not show state 1")

unfoldable pub by_mode : UsbMode → Bool → Json → Program Outcome
by_mode accessory remembered typec = ret (usb_done accessory false)
by_mode share remembered typec = share_port remembered typec
by_mode fast_charge remembered typec =
    read_then "zwrt_bsp.powerbank" "get" state_query start_charging

unfoldable pub if_plugged : UsbMode → Bool → Json → Program Outcome
if_plugged m remembered typec =
    if is_plugged typec
    then by_mode m remembered typec
    else ret (failed "nothing is plugged into the USB-C port")

unfoldable pub usb_attach : UsbMode → Result String Bool → Program Outcome
usb_attach m (err e) = ret (invalid e)
usb_attach m (ok remembered) =
    read_then "zwrt_bsp.typec" "list" empty_object (if_plugged m remembered)

unfoldable pub remembered_of : Fields → Result String Bool
remembered_of params = elim (get params "remembered") [
  | none ↦ ok false
  | some v ↦ boolean_param params "remembered"
]

unfoldable pub wanted_mode : Result String (Option String) → Result String UsbMode
unfolding usb_mode
wanted_mode (err e) = err e
wanted_mode (ok none) = err "mode must be share, fast_charge or accessory"
wanted_mode (ok (some s)) = elim (usb_mode s) [
  | none ↦ err "mode must be share, fast_charge or accessory"
  | some m ↦ ok m
]

-- `usb_attach_mode`
unfoldable pub usb_attach_mode : Fields → Program Outcome
unfolding verified_as unless_failed swap_role keep_host share_port start_charging by_mode if_plugged
    usb_attach remembered_of wanted_mode
usb_attach_mode params = elim (wanted_mode (string_param params "mode" true)) [
  | err e ↦ ret (invalid e)
  | ok m ↦ usb_attach m (remembered_of params)
]
