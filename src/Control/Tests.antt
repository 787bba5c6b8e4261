-- ===== src/Control/Tests.antt =====
-- Runs of actions, and the theorems on actions at them.
use zte_u60_pro_mu5250_data.Common.{
  String, true, false, none, List, [], ◌∷◌, ◌++◌, Result, ok, err, ◌≡◌, ◌↔◌,
}
use zte_u60_pro_mu5250_data.Engine.Sessions.{has}
use zte_u60_pro_mu5250_data.Executor.Calls.{UbusError, timeout}
use zte_u60_pro_mu5250_data.Json.{
  as_object, as_str_of, get, get_in, Json, boolean, string, object, Fields, end, field, obj,
  empty_object,
}
use zte_u60_pro_mu5250_data.Control.Params.{
  Outcome, not_handled, invalid, done, boolean_param, boolean_value, read_then,
}
use zte_u60_pro_mu5250_data.Control.Power.{
  direct_supply, direct_supply_enabled, mode_of, write_failed, shows_mode, supply_reply, poll_until,
}
use zte_u60_pro_mu5250_data.Common.Text.{split_once, chars}
use zte_u60_pro_mu5250_data.Control.Program.{ubus, ◌>>=◌}
use zte_u60_pro_mu5250_data.Control.Wifi.{
  Env, uci_query, radio_sections, check_all, check_option, key_ok,
}
use zte_u60_pro_mu5250_data.Control.Wifi.Apply.{wifi_apply}
use zte_u60_pro_mu5250_data.Control.Execute.{execute, old_actions, e4_actions}
use zte_u60_pro_mu5250_data.Control.Runs.{Event, called, slept, Run, ends, calls, sleeps}
use zte_u60_pro_mu5250_data.Control.Permitted.{
  AllMay, execute-AllMay, any_change, invalid_unchanged, handled_iff,
}

abbrev env : Env
env = record {
  number_text = λ n. "0";
  json_text = λ v. "{}";
  uci_bin = "/sbin/uci";
  iw_bin = "/usr/sbin/iw";
  sms_db = "/sms.db";
  sqlite_bin = "/usr/bin/sqlite3";
  hotplug_dir = "/etc/hotplug.d/iface";
  radio_2g = none;
  radio_5g = none;
}

-- The port is switched to the supply, and the second reading shows it.
abbrev on : Fields
on = field "enabled" (boolean true) end

abbrev mode : String → Json
mode m = object (field "direct_power_supply_mode" (string m) end)

abbrev supply_events : List Event
supply_events =
    called "zwrt_bsp.charger" "list" empty_object (ok (mode "disable"))
    ∷ called "zwrt_bsp.charger" "set" (mode "enable") (ok empty_object)
    ∷ called "zwrt_bsp.charger" "list" empty_object (ok (mode "disable"))
    ∷ slept 100
    ∷ called "zwrt_bsp.charger" "list" empty_object (ok (mode "enable"))
    ∷ []

supply_run :
    Run (execute env "power.direct_supply.set" on) supply_events (done (supply_reply true true))
unfolding execute direct_supply direct_supply_enabled as_str_of get boolean_param boolean_value
    read_then mode_of get_in obj write_failed poll_until shows_mode
supply_run = calls (ok (mode "disable")) (
    calls (ok empty_object)
      (calls (ok (mode "disable")) (sleeps (calls (ok (mode "enable")) ends))))

execute-AllMay_example : AllMay env [] supply_events
execute-AllMay_example =
    execute-AllMay env "power.direct_supply.set" on supply_events (done (supply_reply true true))
      supply_run

-- An option that is not of the list, found after the radio sections were read.
abbrev bad_set : Fields
bad_set = field "set" (object (field "bad" (string "1") end)) end

abbrev no_answer : Result UbusError Json
no_answer = err (timeout "uci" "timed out")

abbrev apply_events : List Event
apply_events =
    called "uci" "get" (uci_query "main_2g" "device") no_answer
    ∷ called "uci" "get" (uci_query "main_5g" "device") no_answer
    ∷ []

apply_run :
    Run
      (execute env "wifi.apply" bad_set)
      apply_events
      (invalid "not a Wi-Fi option this action sets: bad")
unfolding execute wifi_apply get as_object ◌>>=◌ radio_sections ubus check_all check_option key_ok
    has split_once chars
apply_run = calls no_answer (calls no_answer ends)

invalid_unchanged_example : any_change apply_events ≡ false
invalid_unchanged_example =
    invalid_unchanged env "wifi.apply" bad_set apply_events
      "not a Wi-Fi option this action sets: bad" apply_run

unknown_run : Run (execute env "sms.read" end) [] not_handled
unfolding execute
unknown_run = ends

handled_iff_example :
    (◌≡◌ {A = Outcome} not_handled not_handled)
    ↔ (has (old_actions ++ e4_actions) "sms.read" ≡ false)
handled_iff_example = handled_iff env "sms.read" end [] not_handled unknown_run
