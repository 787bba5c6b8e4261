-- ===== src/Control/Wifi/PowerSave.antt =====
-- `wifi_power_save`: the setting goes into a hotplug script, then to the interfaces, and is read back
-- (rust/src/control.rs).
use Prim.Native.String.{◌++◌, len, slice}
use text.Mathlib.Text.{find?}
use zte_u60_pro_mu5250_data.Common.{
  ◌-◌, String, str_eq, is_empty, is_some, Bool, true, false, Option, none, some, List, [], ◌∷◌,
  if◌then◌else◌, Result, ok, err,
}
use zte_u60_pro_mu5250_data.Json.{Json, null, boolean, Fields, obj}
use zte_u60_pro_mu5250_data.Control.Program.{
  Program, ret, command, file, create_dir_all, write_file, set_permissions, rename_file,
  remove_file, ◌>>=◌,
}
use zte_u60_pro_mu5250_data.Control.Params.{Outcome, invalid, failed, done, boolean_param}
use zte_u60_pro_mu5250_data.Control.Wifi.{Env}

unfoldable pub on_off : Bool → String
on_off enabled = if enabled then "on" else "off"

-- `PSM_IFACES`
abbrev pub psm_ifaces : List String
psm_ifaces = "wlan0" ∷ "wlan1" ∷ "wlan2" ∷ "wlan3" ∷ []

unfoldable psm_lines : String → List String → String
psm_lines m [] = ""
psm_lines m (w ∷ more) =
    "  iw dev " ++ w ++ " set power_save " ++ m ++ " 2>/dev/null\n" ++ psm_lines m more

-- `psm_script`
unfoldable pub psm_script : Bool → String
unfolding on_off psm_lines
psm_script enabled =
    "#!/bin/sh\n# written by zwrt-datad (wifi.power_save)\n[ \"$ACTION\" = ifup ] && {\n"
    ++ psm_lines (on_off enabled) psm_ifaces
    ++ "}\n"

-- `Path::join` of a name
unfoldable pub join : String → String → String
join dir name =
    if is_empty dir
    then name
    else if str_eq (slice dir (len dir - 1) (len dir)) "/"
    then dir ++ name
    else dir ++ "/" ++ name

-- The rest of a chain of file operations, if the last went well.
unfoldable pub and_then :
    Result String (Unit {0})
    → Program (Result String (Unit {0}))
    → Program (Result String (Unit {0}))
and_then (ok u) next = next
and_then (err e) next = ret (err e)

unfoldable pub save_script : String → Bool → Program (Result String (Unit {0}))
unfolding and_then
save_script dir enabled =
    let script = join dir "99-disable-powersave" in
    let tmp = join dir ".99-disable-powersave.tmp" in
    file (create_dir_all dir) λ a. and_then a (
      file (write_file tmp (psm_script enabled)) λ b.
        and_then b (
          file (set_permissions tmp 493)
            λ c. and_then c (file (rename_file tmp script) λ d. ret d)))

-- The first loop of `power_save_apply` over the interfaces.
unfoldable pub set_ifaces : String → String → List String → Program Outcome → Program Outcome
set_ifaces iw m [] next = next
set_ifaces iw m (w ∷ more) next =
    command iw ("dev" ∷ w ∷ "set" ∷ "power_save" ∷ m ∷ []) 3000 λ ignored. set_ifaces iw m more next

-- What the output of `iw` says.
unfoldable pub live_state : Result String String → Option Bool
live_state (err e) = none
live_state (ok out) =
    if is_some (find? out "Power save: on")
    then some true
    else if is_some (find? out "Power save: off")
    then some false
    else none

-- The second loop.
unfoldable pub read_live : String → List String → Program (Option Bool)
read_live iw [] = ret none
read_live iw (w ∷ more) = command iw ("dev" ∷ w ∷ "get" ∷ "power_save" ∷ []) 3000 λ r.
    elim (live_state r) as (λ x. Program (Option Bool)) [
      | none ↦ read_live iw more
      | some b ↦ ret (some b)
    ]

unfoldable saved_reply : Bool → Json → Json
saved_reply enabled live =
    obj (("enabled", boolean enabled) ∷ ("saved", boolean true) ∷ ("live", live) ∷ [])

unfoldable pub power_save_outcome : Bool → Option Bool → Outcome
unfolding saved_reply
power_save_outcome enabled none = done (saved_reply enabled null)
power_save_outcome true (some true) = done (saved_reply true (boolean true))
power_save_outcome false (some false) = done (saved_reply false (boolean false))
power_save_outcome true (some false) = failed "Wi-Fi power save still off"
power_save_outcome false (some true) = failed "Wi-Fi power save still on"

unfoldable pub apply_saved : Env → Bool → Result String (Unit {0}) → Program Outcome
apply_saved env enabled (err e) =
    file (remove_file (join env.hotplug_dir ".99-disable-powersave.tmp"))
      λ ignored. ret (failed ("could not save Wi-Fi power save: " ++ e))
apply_saved env enabled (ok u) = file (remove_file (join env.hotplug_dir "psm")) λ ignored.
    set_ifaces env.iw_bin (on_off enabled) psm_ifaces (
      read_live env.iw_bin ("wlan0" ∷ "wlan2" ∷ []) >>= λ live.
      ret (power_save_outcome enabled live))

-- `wifi_power_save`
unfoldable pub wifi_power_save : Env → Fields → Program Outcome
unfolding apply_saved on_off
wifi_power_save env params = elim (boolean_param params "enabled") [
  | err e ↦ ret (invalid e)
  | ok enabled ↦ save_script env.hotplug_dir enabled >>= apply_saved env enabled
]
