-- ===== src/Control/Vendor.antt =====
-- The other actions: `vendor_call` with the list of calls that it makes, `dns_doh`, `sms_db_delete`,
-- `nfc` (rust/src/control.rs).
use Prim.Native.Char.{Char}
use Prim.Native.String.{◌++◌, len}
use zte_u60_pro_mu5250_data.Common.{
  ℕ, String, str_eq, Bool, true, false, ◌&&◌, ◌||◌, not, Option, none, some, List, [], ◌∷◌, length,
  ltb, leb, ◌==◌, if◌then◌else◌, Result, ok, err,
}
use zte_u60_pro_mu5250_data.Common.Text.{chars, text_of, split, all_chars, is_digit}
use zte_u60_pro_mu5250_data.Json.{Json, null, boolean, object, Fields, get, int, obj, empty_object}
use zte_u60_pro_mu5250_data.Control.Program.{Program, ret, command, ubus, ◌>>=◌}
use zte_u60_pro_mu5250_data.Control.Params.{
  Outcome, invalid, failed, done, string_param, boolean_param, mapped, int_field, write_call,
}
use zte_u60_pro_mu5250_data.Control.Wifi.{Env}

-- `VENDOR_CALLS`
abbrev pub vendor_calls : List (String × String)
vendor_calls =
    ("zwrt_router.api", "router_set_lan_para")
    ∷ ("zwrt_router.api", "router_set_wan_dns")
    ∷ ("zwrt_router.api", "router_set_firewall_switch")
    ∷ ("zwrt_router.api", "router_set_firewall_level")
    ∷ ("zwrt_router.api", "router_set_nat_switch")
    ∷ ("zwrt_router.api", "router_set_dmz")
    ∷ ("zwrt_router.api", "router_set_upnp_switch")
    ∷ ("zwrt_router.api", "router_set_portforward")
    ∷ ("zwrt_router.api", "router_set_portforward_switch")
    ∷ ("zwrt_router.api", "router_set_alg_switch")
    ∷ ("zwrt_router.api", "router_set_qos_switch")
    ∷ ("zwrt_router.api", "router_set_domain_filter")
    ∷ ("zwrt_zte_mdm.api", "sim_verify_pin_puk")
    ∷ ("zwrt_zte_mdm.api", "sim_change_pin")
    ∷ ("zwrt_zte_mdm.api", "sim_change_pin_mode")
    ∷ ("zwrt_zte_mdm.api", "set_simlock_nck")
    ∷ ("zte_nwinfo_api", "nwinfo_set_stc_white_list_par")
    ∷ ("zte_nwinfo_api", "nwinfo_stc_cell_lock_enable")
    ∷ ("zte_nwinfo_api", "nwinfo_stc_cell_lock_disable")
    ∷ ("zte_nwinfo_api", "nwinfo_stc_cell_lock_reset")
    ∷ ("zte_nwinfo_api", "nwinfo_start_detect_signal_quality")
    ∷ ("zte_nwinfo_api", "nwinfo_end_detect_signal_quality")
    ∷ ("zwrt_mc.device.manager", "set_device_info")
    ∷ ("zwrt_mc.device.manager", "device_reset")
    ∷ ("system", "reboot")
    ∷ ("zwrt_bsp.powerbank", "set")
    ∷ ("zwrt_zte_sleep_faw.wakelock", "enableAutoSleep")
    ∷ ("zwrt_wms", "zte_libwms_send_sms")
    ∷ []

-- `contains` on a list of such pairs.
unfoldable pub has_pair : List (String × String) → String → String → Bool
has_pair [] o m = false
has_pair ((p, n) ∷ more) o m = (str_eq p o && str_eq n m) || has_pair more o m

abbrev pub Params2 : Type 0
Params2 = Result String (String × String)

unfoldable pub pair_of : Result String (Option String) → Result String (Option String) → Params2
pair_of (err e) m = err e
pair_of (ok o) (err e) = err e
pair_of (ok none) (ok m) = err "missing object or method"
pair_of (ok (some o)) (ok none) = err "missing object or method"
pair_of (ok (some o)) (ok (some m)) = ok (o, m)

unfoldable pub args_of : Env → Option Json → Result String Json
args_of env none = ok empty_object
args_of env (some null) = ok empty_object
args_of env (some (object fs)) =
    if leb (len (env.json_text (object fs))) 8192
    then ok (object fs)
    else err "args must be an object (at most 8 KB)"
args_of env (some v) = err "args must be an object (at most 8 KB)"

unfoldable pub vendor_pair : Env → Fields → Params2 → Program Outcome
vendor_pair env params (err e) = ret (invalid e)
vendor_pair env params (ok (o, m)) =
    if not (has_pair vendor_calls o m)
    then ret (invalid ("not a vendor call datad makes: " ++ o ++ " " ++ m))
    else (elim (args_of env (get params "args")) [
      | err e ↦ ret (invalid e)
      | ok args ↦ write_call o m args
    ])

-- `vendor_call`
unfoldable pub vendor_call : Env → Fields → Program Outcome
unfolding pair_of args_of vendor_pair
vendor_call env params =
    vendor_pair env params
      (pair_of (string_param params "object" true) (string_param params "method" true))

abbrev pub doh_on : String
doh_on =
    "printf 'server=127.0.0.1#5353\\nno-resolv\\n' > /tmp/dnsmasq.d/doh.conf; /etc/init.d/dnsmasq restart"

abbrev pub doh_off : String
doh_off =
    "rm -f /tmp/dnsmasq.d/doh.conf; uci delete dhcp.lan_dns.server 2>/dev/null; uci delete dhcp.lan_dns.noresolv 2>/dev/null; uci commit dhcp; /etc/init.d/dnsmasq restart"

unfoldable pub doh_outcome : Bool → Result String String → Outcome
doh_outcome enabled (ok out) = done (obj (("enabled", boolean enabled) ∷ []))
doh_outcome enabled (err e) = failed ("dnsmasq: " ++ e)

-- `dns_doh`
unfoldable pub dns_doh : Fields → Program Outcome
unfolding doh_outcome
dns_doh params = elim (boolean_param params "enabled") [
  | err e ↦ ret (invalid e)
  | ok enabled ↦
      command "sh" ("-c" ∷ (if enabled then doh_on else doh_off) ∷ []) 8000
        λ r. ret (doh_outcome enabled r)
]

-- The ids of a list: the parts between the semicolons that are not empty.
unfoldable pub parts_of : List (List Char) → List String
parts_of [] = []
parts_of ([] ∷ more) = parts_of more
parts_of ((c ∷ cs) ∷ more) = text_of (c ∷ cs) ∷ parts_of more

unfoldable is_id : String → Bool
is_id s = leb (len s) 12 && all_chars is_digit (chars s)

unfoldable pub all_ids : List String → Bool
unfolding is_id
all_ids [] = true
all_ids (s ∷ more) = is_id s && all_ids more

-- `list.join(",")`
unfoldable join_ids : List String → String
join_ids [] = ""
join_ids (s ∷ []) = s
join_ids (s ∷ t ∷ more) = s ++ "," ++ join_ids (t ∷ more)

unfoldable pub delete_sql : List String → String
unfolding join_ids
delete_sql ids = "DELETE FROM sms WHERE id IN (" ++ join_ids ids ++ ");"

unfoldable pub deleted : ℕ → Result String String → Outcome
deleted n (ok out) = done (obj (("deleted", int n) ∷ []))
deleted n (err e) = failed ("sqlite3: " ++ e)

unfoldable pub delete_ids : Env → List String → Program Outcome
delete_ids env ids =
    if length ids == 0 || ltb 500 (length ids) || not (all_ids ids)
    then ret (invalid "ids must be numbers separated by ';'")
    else command env.sqlite_bin ("-cmd" ∷ ".timeout 2000" ∷ env.sms_db ∷ delete_sql ids ∷ []) 5000
        (λ r. ret (deleted (length ids) r))

unfoldable pub db_delete_with : Env → Result String (Option String) → Program Outcome
db_delete_with env (err e) = ret (invalid e)
db_delete_with env (ok none) = ret (invalid "missing parameter: ids")
db_delete_with env (ok (some ids)) = delete_ids env (parts_of (split b';' (chars ids)))

-- `sms_db_delete`
unfoldable pub sms_db_delete : Env → Fields → Program Outcome
unfolding parts_of deleted delete_ids db_delete_with
sms_db_delete env params = db_delete_with env (string_param params "ids" true)

unfoldable pub nfc_changed : Result String Json → Program Outcome
nfc_changed (err e) = ret (failed e)
nfc_changed (ok v) = ubus "zwrt_nfc" "zwrt_nfc_wifi_change" empty_object >>= λ ignored. ret (done v)

-- `nfc`
unfoldable pub nfc : Fields → Program Outcome
unfolding nfc_changed
nfc params =
    elim (mapped params (int_field "enabled" "switch" true ∷ int_field "flag" "flag" false ∷ [])) [
      | err e ↦ ret (invalid e)
      | ok args ↦ ubus "zwrt_nfc" "zwrt_nfc_wifi_set" (object args) >>= nfc_changed
    ]
