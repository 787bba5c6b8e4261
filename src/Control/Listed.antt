-- ===== src/Control/Listed.antt =====
-- What the actions of `/control` may ask of the device, and a tally of a run: whether anything but a
-- reading was asked, how long the action slept, and which sections the device named (rust/src/control.rs).
use Prim.Native.Char.{Char}
use Prim.Native.String.{◌++◌}
use mathlib.Core.List.{◌++◌ as ◌++ᴸ◌}
use zte_u60_pro_mu5250_data.Common.Text.{chars, trim, text_of, split_once}
use zte_u60_pro_mu5250_data.Common.{
  ℕ, ◌+◌, ◌≤◌, String, str_eq, Bool, true, false, ◌||◌, ◌&&◌, not, Option, none, some, ◌⊎◌, List,
  [], ◌∷◌, Result, ok, err, ◌≡◌, refl, arith, if◌then◌else◌,
}
use zte_u60_pro_mu5250_data.Engine.Sessions.{has}
use zte_u60_pro_mu5250_data.Executor.Calls.{
  UbusError, invalid_argument, timeout, skipped, not_found, bad_status, no_data, io_error,
  protocol_error,
}
use zte_u60_pro_mu5250_data.Json.{Json, as_str_of, get_in}
use zte_u60_pro_mu5250_data.Control.Program.{
  Program, ret, FileOp, create_dir_all, write_file, set_permissions, rename_file, remove_file,
  as_text,
}
use zte_u60_pro_mu5250_data.Control.Params.{
  Outcome, not_handled, invalid, failed, done, write_call, write_outcome, read_then, failed_or,
}
use zte_u60_pro_mu5250_data.Control.Wifi.{Env, ap_sections, ap_options, radio_options}
use zte_u60_pro_mu5250_data.Control.Wifi.PowerSave.{psm_ifaces, join, psm_script}
use zte_u60_pro_mu5250_data.Control.Vendor.{
  has_pair, vendor_calls, doh_on, doh_off, all_ids, delete_sql,
}
use zte_u60_pro_mu5250_data.Control.Runs.{
  Event, called, sent_at, ran, filed, texted, slept, Watch, Keeps,
}

abbrev pub read_calls : List (String × String)
read_calls =
    ("zwrt_data", "get_wwaniface")
    ∷ ("zwrt_apn_object", "get_apn_at_cid")
    ∷ ("uci", "get")
    ∷ ("zwrt_bsp.charger", "list")
    ∷ ("zwrt_bsp.typec", "list")
    ∷ ("zwrt_bsp.usb", "list")
    ∷ ("zwrt_bsp.powerbank", "get")
    ∷ []

abbrev pub write_calls : List (String × String)
write_calls =
    ("zwrt_mc.device.manager", "device_reboot")
    ∷ ("zwrt_mc.device.manager", "device_poweroff")
    ∷ ("zwrt_data", "set_wwaniface")
    ∷ ("zte_nwinfo_api", "nwinfo_set_netselect")
    ∷ ("zte_nwinfo_api", "nwinfo_lock_lte_cell")
    ∷ ("zte_nwinfo_api", "nwinfo_lock_nr_cell")
    ∷ ("zte_nwinfo_api", "nwinfo_manual_scan")
    ∷ ("zte_nwinfo_api", "nwinfo_manual_register")
    ∷ ("zte_nwinfo_api", "nwinfo_set_lte_ext_band")
    ∷ ("zte_nwinfo_api", "nwinfo_set_nrbandlock")
    ∷ ("zte_nwinfo_api", "nwinfo_reset_band_cell_setting")
    ∷ ("zwrt_qcmap_cli", "set_qcliiface")
    ∷ ("zwrt_apn_object", "set_apn_at_cid")
    ∷ ("zwrt_apn_object", "set_apn_mode")
    ∷ ("zwrt_apn_object", "add_manu_apn")
    ∷ ("zwrt_apn_object", "modify_manu_apn")
    ∷ ("zwrt_apn_object", "delete_manu_apn")
    ∷ ("zwrt_apn_object", "enable_manu_apn_id")
    ∷ ("zwrt_wlan", "set")
    ∷ ("zwrt_wlan", "reload")
    ∷ ("zwrt_bsp.charger", "set")
    ∷ ("zwrt_bsp.typec", "set")
    ∷ ("zwrt_bsp.usb", "set")
    ∷ ("zwrt_nfc", "zwrt_nfc_wifi_set")
    ∷ ("zwrt_nfc", "zwrt_nfc_wifi_change")
    ∷ ("zwrt_wms", "zwrt_wms_delete_sms")
    ∷ ("zwrt_wms", "zwrt_wms_modify_tag")
    ∷ []

unfoldable pub may_call : String → String → Bool
unfolding has_pair
may_call o m = has_pair read_calls o m || has_pair write_calls o m || has_pair vendor_calls o m

-- The section that a reply to `uci get` names.
abbrev pub section_told : Event → List String
section_told (called o m v (ok x)) =
    if str_eq o "uci" && str_eq m "get"
    then (elim (as_str_of (get_in x "value")) [
      | none ↦ []
      | some s ↦ text_of (trim (chars s)) ∷ []
    ])
    else []
section_told _ = []

-- The name of a radio section is the one found earlier, or else the fallback or one that the device
-- has told.
abbrev pub Radio : Option String → String → List String → String → Type 0
Radio (some found) fallback told name = name ≡ found
Radio none fallback told name = has (fallback ∷ told) name ≡ true

abbrev pub Radios : Env → List String → String × String → Type 0
Radios env told (a, b) = Radio env.radio_2g "wifi0" told a × Radio env.radio_5g "wifi1" told b

abbrev pub IsRadio : String → String × String → Type 0
IsRadio sec (a, b) = (sec ≡ "wifi0") ⊎ (sec ≡ "wifi1") ⊎ (a ≡ sec) ⊎ (b ≡ sec)

-- An option of an access point in a section of one, or an option of a radio in a section of one.
abbrev pub IsOption : String → String → String × String → Type 0
IsOption sec opt radios =
    ((has ap_sections sec ≡ true) × (has ap_options opt ≡ true))
    ⊎ (IsRadio sec radios × (has radio_options opt ≡ true))

-- The path is `wireless`, the section and the option, with dots between them.
abbrev pub Sets : String → String × String → Type 0
Sets path radios =
    (first rest sec opt : List Char) × (split_once b'.' (chars path) ≡ (first, some rest))
    × (str_eq (text_of first) "wireless" ≡ true)
    × (split_once b'.' rest ≡ (sec, some opt))
    × IsOption (text_of sec) (text_of opt) radios

-- The commands that an action may run, `told` the sections that the device has named in this run.
pub data Command (env : Env) (told : List String) (bin : String) (args : List String) : Type 0 where
  doh :
      (on : Bool)
      → bin ≡ "sh"
      → args ≡ "-c" ∷ (if on then doh_on else doh_off) ∷ []
      → Command env told bin args
  delete_rows :
      (ids : List String)
      → all_ids ids ≡ true
      → bin ≡ env.sqlite_bin
      → args ≡ "-cmd" ∷ ".timeout 2000" ∷ env.sms_db ∷ delete_sql ids ∷ []
      → Command env told bin args
  set_option :
      (path value : String) (radios : String × String)
      → Radios env told radios
      → Sets path radios
      → bin ≡ env.uci_bin
      → args ≡ "set" ∷ (path ++ "=" ++ value) ∷ []
      → Command env told bin args
  commit_or_revert :
      (commits : Bool)
      → bin ≡ env.uci_bin
      → args ≡ (if commits then "commit" else "revert") ∷ "wireless" ∷ []
      → Command env told bin args
  set_power_save :
      (iface : String) (on : Bool)
      → has psm_ifaces iface ≡ true
      → bin ≡ env.iw_bin
      → args ≡ "dev" ∷ iface ∷ "set" ∷ "power_save" ∷ (if on then "on" else "off") ∷ []
      → Command env told bin args
  get_power_save :
      (iface : String)
      → has psm_ifaces iface ≡ true
      → bin ≡ env.iw_bin
      → args ≡ "dev" ∷ iface ∷ "get" ∷ "power_save" ∷ []
      → Command env told bin args

-- What it may do to files: those of the hotplug script in their directory.
abbrev MayFile : Env → FileOp → Type 0
MayFile env (create_dir_all dir) = dir ≡ env.hotplug_dir
MayFile env (write_file path text) =
    (path ≡ join env.hotplug_dir ".99-disable-powersave.tmp") × (on : Bool) × (text ≡ psm_script on)
MayFile env (set_permissions path mode) = path ≡ join env.hotplug_dir ".99-disable-powersave.tmp"
MayFile env (rename_file from to) =
    (from ≡ join env.hotplug_dir ".99-disable-powersave.tmp")
    × (to ≡ join env.hotplug_dir "99-disable-powersave")
MayFile env (remove_file path) =
    (name : String) × (has (".99-disable-powersave.tmp" ∷ "psm" ∷ []) name ≡ true)
    × (path ≡ join env.hotplug_dir name)

-- Calls, commands and files are listed. What becomes of an AT command or of a short-message action is
-- the business of rust/src/at.rs and rust/src/sms.rs, and any sleep may happen.
abbrev pub May : Env → List String → Event → Type 0
May env told (called o m v r) = may_call o m ≡ true
May env told (ran bin args r) = Command env told bin args
May env told (filed op r) = MayFile env op
May env told (sent_at c r) = Unit {0}
May env told (texted a v r) = Unit {0}
May env told (slept n) = Unit {0}

-- A request that is no reading of the device.
unfoldable pub changes : Event → Bool
unfolding has_pair
changes (called o m v r) = not (has_pair read_calls o m)
changes (sent_at c r) = true
changes (ran b l r) = true
changes (filed op r) = true
changes (texted x v r) = false
changes (slept n) = false

abbrev pub time_of : Event → ℕ
time_of (slept n) = n
time_of _ = 0

-- The longest that an action sleeps, in milliseconds.
abbrev pub sleep_limit : ℕ
sleep_limit = 2800

pub record Tally : Type 0 where
  pub changed : Bool
  pub time : ℕ
  pub told : List String

abbrev pub fresh_tally : Tally
fresh_tally = record { changed = false; time = 0; told = [] }

abbrev pub add_event : Tally → Event → Tally
add_event t e = record {
  changed = t.changed || changes e;
  time = t.time + time_of e;
  told = section_told e ++ᴸ t.told;
}

abbrev pub watch : Env → Watch Tally
watch env = record { may = λ t e. May env t.told e; step = add_event }

abbrev pub Fits : Tally → Outcome → Type 0
Fits t not_handled = ⊥
Fits t (invalid e) = (t.changed ≡ false) × (t.time ≤ sleep_limit)
Fits t (failed e) = t.time ≤ sleep_limit
Fits t (done v) = t.time ≤ sleep_limit

pub write_outcome-Fits :
    (t : Tally) (r : Result UbusError Json) → t.time ≤ sleep_limit → Fits t (write_outcome r)
unfolding write_outcome
write_outcome-Fits t (ok v) h = h
write_outcome-Fits t (err (no_data o d)) h = h
write_outcome-Fits t (err (invalid_argument m)) h = h
write_outcome-Fits t (err (timeout o d)) h = h
write_outcome-Fits t (err (skipped o)) h = h
write_outcome-Fits t (err (not_found o)) h = h
write_outcome-Fits t (err (bad_status o m c)) h = h
write_outcome-Fits t (err (io_error m)) h = h
write_outcome-Fits t (err (protocol_error m)) h = h

-- An action's program keeps what is watched.
abbrev pub Kept : Env → Tally → Program Outcome → Type 0
Kept env t p = Keeps (watch env) Fits t p

pub write_call-Kept :
    (env : Env) (t : Tally) (o m : String) (v : Json)
    → may_call o m ≡ true
    → t.time ≤ sleep_limit
    → Kept env t (write_call o m v)
unfolding write_call
write_call-Kept env t o m v p h =
    λ r. (p, write_outcome-Fits (add_event t (called o m v r)) r (omega arith))

pub read_then-Kept :
    (env : Env) (t : Tally) (o m : String) (v : Json) (f : Json → Program Outcome)
    → may_call o m ≡ true
    → t.time ≤ sleep_limit
    → ((x : Json) (r : Result UbusError Json) → Kept env (add_event t (called o m v r)) (f x))
    → Kept env t (read_then o m v f)
unfolding read_then
read_then-Kept env t o m v f p h g = λ r. (p, by_reply r)
  where
    by_reply :
        (r : Result UbusError Json)
        → Kept env (add_event t (called o m v r)) (failed_or f (as_text r))
    by_reply (ok x) = g x (ok x)
    by_reply (err e) = omega arith

pub if-Kept :
    (env : Env) (t : Tally) (p q : Program Outcome) (b : Bool)
    → (b ≡ true → Kept env t p)
    → (b ≡ false → Kept env t q)
    → Kept env t (if b then p else q)
if-Kept env t p q true f g = f refl
if-Kept env t p q false f g = g refl

-- After a check of the parameters, which ends the action if it fails.
pub checked-Kept :
    {A : Type 0} (env : Env) (r : Result String A) (f : A → Program Outcome)
    → ((a : A) → r ≡ ok a → Kept env fresh_tally (f a))
    → Kept env fresh_tally
        (elim r as (λ x. Program Outcome) [ err e ↦ ret (invalid e) | ok a ↦ f a ])
checked-Kept env (ok a) f g = g a refl
checked-Kept env (err e) f g = (refl, omega arith)
