-- ===== src/Requests/Actions.antt =====
-- Which actions go through a transaction, which are safe, which touch the network (rust/src/ops/spec.rs),
-- the sources (rust/src/ops/txn.rs), the ids of changes (rust/src/ops/engine.rs), and the tests of
-- rust/src/server/write.rs on an action. `deadline` is what `deadline_ms` reads from the environment.
use Prim.Native.String.{len}
use zte_u60_pro_mu5250_data.Common.{
  ℕ, String, str_eq, is_empty, Bool, true, false, ◌&&◌, ◌||◌, not, Option, none, some, is_some,
  unwrap_or, List, [], ◌∷◌, leb, ◌==◌, if◌then◌else◌, Result, ok, err,
}
use zte_u60_pro_mu5250_data.Common.Text.{chars, all_chars, is_alphanumeric}
use zte_u60_pro_mu5250_data.Txn.Types.{
  Source, screen, web, legacy, guard, scenario, scheduler, automatic, by_registration,
}
use zte_u60_pro_mu5250_data.Engine.Submit.{Spec}
use zte_u60_pro_mu5250_data.Engine.Sessions.{has, session_blocks, session_optional}
use zte_u60_pro_mu5250_data.Json.{
  Json, Fields, end, field, get, has_no_fields, as_object, as_str_of,
}
use zte_u60_pro_mu5250_data.Control.Params.{string_param, boolean_param}
use zte_u60_pro_mu5250_data.Control.Vendor.{has_pair}
use zte_u60_pro_mu5250_data.Control.Execute.{old_actions, e4_actions}

-- `Source::parse`
unfoldable parse_source : String → Option Source
parse_source s =
    if str_eq s "screen"
    then some screen
    else if str_eq s "web"
    then some web
    else if str_eq s "legacy"
    then some legacy
    else if str_eq s "guard"
    then some guard
    else if str_eq s "scenario"
    then some scenario
    else if str_eq s "scheduler"
    then some scheduler
    else if str_eq s "auto"
    then some automatic
    else none

unfoldable op_id_char : ℕ → Bool
op_id_char c = is_alphanumeric c || c == b'.' || c == b'_' || c == b'-'

-- `valid_op_id`
unfoldable pub valid_op_id : String → Bool
unfolding op_id_char
valid_op_id s = not (is_empty s) && leb (len s) 64 && all_chars op_id_char (chars s)

-- `find` in `SPECS`
unfoldable pub find_spec : ℕ → String → Option Spec
find_spec deadline action =
    if str_eq action "network.set_mode"
    then some (record {
      action = "network.set_mode";
      item = "network.mode";
      deadline_ms = deadline;
      confirm = by_registration;
    })
    else none

unfoldable target_of : Result String (Option String) → Result String String
target_of (err e) = err e
target_of (ok v) = ok (unwrap_or v "")

-- `Spec::target`, of the one action of the table.
unfoldable pub target : Fields → Result String String
unfolding target_of
target params = target_of (string_param params "mode" true)

unfoldable is_off : Result String Bool → Bool
is_off (ok false) = true
is_off _ = false

unfoldable all_off : Fields → Fields → Bool
all_off params end = true
all_off params (field k v more) =
    (str_eq k "enabled" || str_eq k "roaming")
    && is_off (boolean_param params k)
    && all_off params more

-- `is_safety`
unfoldable pub is_safety : String → Fields → Bool
unfolding is_off all_off
is_safety action params =
    str_eq action "cellular.set" && not (has_no_fields params) && all_off params params

-- `NETWORK_VENDOR_CALLS`
abbrev network_vendor_calls : List (String × String)
network_vendor_calls =
    ("zte_nwinfo_api", "nwinfo_set_stc_white_list_par")
    ∷ ("zte_nwinfo_api", "nwinfo_stc_cell_lock_enable")
    ∷ ("zte_nwinfo_api", "nwinfo_stc_cell_lock_disable")
    ∷ ("zte_nwinfo_api", "nwinfo_stc_cell_lock_reset")
    ∷ ("zwrt_zte_mdm.api", "sim_verify_pin_puk")
    ∷ ("zwrt_zte_mdm.api", "sim_change_pin")
    ∷ ("zwrt_zte_mdm.api", "sim_change_pin_mode")
    ∷ ("zwrt_zte_mdm.api", "set_simlock_nck")
    ∷ []

unfoldable vendor_on_network : Option String → Option String → Bool
vendor_on_network (some o) (some m) = has_pair network_vendor_calls o m
vendor_on_network _ _ = false

-- `affects_network`
unfoldable pub affects_network : String → Fields → Bool
unfolding vendor_on_network find_spec
affects_network action params =
    not (is_some (find_spec 0 action))
    && (has session_blocks action
        || has session_optional action
        || (str_eq action "vendor.call"
            && vendor_on_network (as_str_of (get params "object"))
                (as_str_of (get params "method"))))

-- `read_only`
unfoldable pub read_only : String → Bool
read_only action = str_eq action "sms.list_after"

-- Whether the action changes the device, as `control_job` has it.
unfoldable pub writes : String → Bool
unfolding read_only
writes action = (has old_actions action || has e4_actions action) && not (read_only action)

unfoldable resets : Option String → Option String → Bool
resets (some o) (some m) =
    has_pair (("zwrt_mc.device.manager", "device_reset") ∷ ("system", "reboot") ∷ []) o m
resets _ _ = false

abbrev pub is_power_off : String → Bool
is_power_off action = str_eq action "device.reboot" || str_eq action "device.poweroff"

-- `ends_device`
unfoldable pub ends_device : String → Fields → Bool
unfolding resets
ends_device action params =
    is_power_off action
    || (str_eq action "vendor.call"
        && resets (as_str_of (get params "object")) (as_str_of (get params "method")))

-- `blocks_for_action`
unfoldable pub blocks_for_action : String → Option (List String)
blocks_for_action action =
    if str_eq action "power.direct_supply.set"
    then some ("charger" ∷ [])
    else if str_eq action "usb.attach_mode"
    then some ("typec" ∷ "powerbank" ∷ "charger" ∷ [])
    else if str_eq action "sms.list_after"
    then some []
    else none

unfoldable params_in : Option Json → Fields
params_in none = end
params_in (some v) = unwrap_or (as_object v) end

-- The parameters of a request; the server has checked that they are an object.
unfoldable pub params_of : Fields → Fields
unfolding params_in
params_of body = params_in (get body "params")

unfoldable source_named : Option String → Option Source
source_named none = none
source_named (some s) = parse_source s

-- The source that a request names, if it is one.
unfoldable pub source_of : Fields → Option Source
unfolding source_named parse_source
source_of body = source_named (as_str_of (get body "source"))

-- Where a request without a known source counts as an old one.
unfoldable pub source_or_legacy : Fields → Source
source_or_legacy body = unwrap_or (source_of body) legacy
