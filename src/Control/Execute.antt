-- ===== src/Control/Execute.antt =====
-- `execute`, with the lists of the actions that it knows (rust/src/control.rs). The two actions of
-- rust/src/sms.rs are requests of the program here.
use zte_u60_pro_mu5250_data.Common.{
  String, str_eq, true, false, List, [], ◌∷◌, if◌then◌else◌, ok, err,
}
use zte_u60_pro_mu5250_data.Json.{Json, string, object, Fields, obj, empty_object}
use zte_u60_pro_mu5250_data.Control.Program.{
  Program, ret, sms, SmsAction, SmsReply, send_raw, list_after, cops_auto, cfun_online,
}
use zte_u60_pro_mu5250_data.Control.Params.{
  Outcome, not_handled, invalid, failed, done, mapped_call, text_field, int_field, write_call,
}
use zte_u60_pro_mu5250_data.Control.Network.{
  cellular_set, send_at, netselect_register, redial, apn_pdp_type, band, apn,
}
use zte_u60_pro_mu5250_data.Control.Power.{direct_supply}
use zte_u60_pro_mu5250_data.Control.Usb.{usb_attach_mode}
use zte_u60_pro_mu5250_data.Control.Wifi.{Env, wifi_module}
use zte_u60_pro_mu5250_data.Control.Wifi.Apply.{wifi_apply}
use zte_u60_pro_mu5250_data.Control.Wifi.PowerSave.{wifi_power_save}
use zte_u60_pro_mu5250_data.Control.Vendor.{vendor_call, dns_doh, sms_db_delete, nfc}

-- `ACTIONS`
abbrev pub old_actions : List String
old_actions =
    "device.reboot" ∷ "device.poweroff" ∷ "cellular.set" ∷ "network.set_mode" ∷ "band.set_lte"
    ∷ "band.set_nr_sa" ∷ "band.set_nr_nsa" ∷ "cell.lock_lte" ∷ "cell.lock_nr" ∷ "band.reset"
    ∷ "wifi.set_module" ∷ "lan.set" ∷ "power.direct_supply.set" ∷ "usb.set" ∷ "usb.attach_mode"
    ∷ "nfc.set" ∷ "apn.set_mode" ∷ "apn.add" ∷ "apn.modify" ∷ "apn.delete" ∷ "apn.enable"
    ∷ "sms.delete" ∷ "sms.mark_read" ∷ "sms.send_raw" ∷ "sms.list_after" ∷ []

-- `E4_ACTIONS`
abbrev pub e4_actions : List String
e4_actions =
    "netselect.scan" ∷ "netselect.register" ∷ "netselect.auto" ∷ "cellular.redial" ∷ "modem.online"
    ∷ "apn.set_pdp_type" ∷ "wifi.apply" ∷ "wifi.reload" ∷ "vendor.call" ∷ "dns.doh"
    ∷ "sms.db_delete" ∷ "wifi.power_save" ∷ []

unfoldable pub sms_outcome : SmsReply → Outcome
sms_outcome (ok v) = done v
sms_outcome (err (true, e)) = invalid e
sms_outcome (err (false, e)) = failed e

unfoldable pub run_sms : SmsAction → Fields → Program Outcome
unfolding sms_outcome
run_sms a params = sms a (object params) (λ r. ret (sms_outcome r))

abbrev web_module : Json
web_module = obj (("moduleName", string "web") ∷ [])

-- An arm of the `match` on the action.
abbrev pub Arm : Type 0
Arm = String × (Env → Fields → Program Outcome)

abbrev pub arms : List Arm
arms =
    ("device.reboot", λ env p. write_call "zwrt_mc.device.manager" "device_reboot" web_module)
    ∷ ("device.poweroff", λ env p. write_call "zwrt_mc.device.manager" "device_poweroff" web_module)
    ∷ ("cellular.set", λ env p. cellular_set p)
    ∷ (
      "network.set_mode",
      λ env p.
          mapped_call p "zte_nwinfo_api" "nwinfo_set_netselect"
            (text_field "mode" "net_select" true ∷ []) false,
    )
    ∷ ("band.set_lte", λ env p. band p true false)
    ∷ ("band.set_nr_sa", λ env p. band p false false)
    ∷ ("band.set_nr_nsa", λ env p. band p false true)
    ∷ (
      "cell.lock_lte",
      λ env p.
          mapped_call p "zte_nwinfo_api" "nwinfo_lock_lte_cell"
            (text_field "pci" "lock_lte_pci" true ∷ text_field "earfcn" "lock_lte_earfcn" true ∷ [])
            false,
    )
    ∷ (
      "cell.lock_nr",
      λ env p.
          mapped_call p "zte_nwinfo_api" "nwinfo_lock_nr_cell"
            (text_field "pci" "lock_nr_pci" true
              ∷ text_field "arfcn" "lock_nr_earfcn" true
              ∷ text_field "band" "lock_nr_cell_band" true
              ∷ [])
            false,
    )
    ∷ ("netselect.scan", λ env p. write_call "zte_nwinfo_api" "nwinfo_manual_scan" empty_object)
    ∷ ("netselect.register", λ env p. netselect_register p)
    ∷ ("netselect.auto", λ env p. send_at cops_auto)
    ∷ ("cellular.redial", λ env p. redial p)
    ∷ ("modem.online", λ env p. send_at cfun_online)
    ∷ ("apn.set_pdp_type", λ env p. apn_pdp_type p)
    ∷ ("wifi.apply", λ env p. wifi_apply env p)
    ∷ ("wifi.reload", λ env p. write_call "zwrt_wlan" "reload" empty_object)
    ∷ ("vendor.call", λ env p. vendor_call env p)
    ∷ ("dns.doh", λ env p. dns_doh p)
    ∷ ("sms.db_delete", λ env p. sms_db_delete env p)
    ∷ ("wifi.power_save", λ env p. wifi_power_save env p)
    ∷ (
      "band.reset",
      λ env p. write_call "zte_nwinfo_api" "nwinfo_reset_band_cell_setting" empty_object,
    )
    ∷ ("wifi.set_module", λ env p. wifi_module p)
    ∷ (
      "lan.set",
      λ env p.
          mapped_call p "zwrt_router.api" "router_set_lan_para"
            (text_field "ip" "ipaddr" false
              ∷ text_field "netmask" "netmask" false
              ∷ int_field "dhcp_disabled" "ignore" false
              ∷ text_field "dhcp_start" "zte_start" false
              ∷ text_field "dhcp_end" "zte_end" false
              ∷ text_field "lease_seconds" "leasetime" false
              ∷ [])
            true,
    )
    ∷ ("power.direct_supply.set", λ env p. direct_supply p)
    ∷ (
      "usb.set",
      λ env p.
          mapped_call p "zwrt_bsp.usb" "set"
            (text_field "mode" "mode" false
              ∷ text_field "port_switch" "usb_port_switch" false
              ∷ text_field "network_protocol" "usb_network_protocal" false
              ∷ [])
            true,
    )
    ∷ ("usb.attach_mode", λ env p. usb_attach_mode p)
    ∷ ("nfc.set", λ env p. nfc p)
    ∷ (
      "apn.set_mode",
      λ env p.
          mapped_call p "zwrt_apn_object" "set_apn_mode" (int_field "mode" "apn_mode" true ∷ [])
            false,
    )
    ∷ ("apn.add", λ env p. apn p "add_manu_apn" false)
    ∷ ("apn.modify", λ env p. apn p "modify_manu_apn" true)
    ∷ (
      "apn.delete",
      λ env p.
          mapped_call p "zwrt_apn_object" "delete_manu_apn"
            (text_field "profile_id" "profileId" true ∷ []) false,
    )
    ∷ (
      "apn.enable",
      λ env p.
          mapped_call p "zwrt_apn_object" "enable_manu_apn_id"
            (text_field "profile_id" "profileId" true ∷ []) false,
    )
    ∷ (
      "sms.delete",
      λ env p.
          mapped_call p "zwrt_wms" "zwrt_wms_delete_sms" (text_field "ids" "id" true ∷ []) false,
    )
    ∷ (
      "sms.mark_read",
      λ env p.
          mapped_call p "zwrt_wms" "zwrt_wms_modify_tag"
            (text_field "ids" "id" true ∷ int_field "tag" "tag" false ∷ []) false,
    )
    ∷ ("sms.send_raw", λ env p. run_sms send_raw p)
    ∷ ("sms.list_after", λ env p. run_sms list_after p)
    ∷ []

-- The `match`: the first arm of the action, or the last arm.
unfoldable pub choose : List Arm → String → Env → Fields → Program Outcome
choose [] action env params = ret not_handled
choose ((name, arm) ∷ more) action env params =
    if str_eq name action then arm env params else choose more action env params

-- `execute`
unfoldable pub execute : Env → String → Fields → Program Outcome
unfolding choose
execute env action params = choose arms action env params
