-- ===== src/Control/Permitted/Arms.antt =====
-- Every arm of `execute` asks for nothing that is not listed, and the arms are those of the two lists of
-- actions (rust/src/control.rs).
use zte_u60_pro_mu5250_data.Common.{
  String, str_eq, str_eq_iff, Bool, true, false, ◌&&◌, List, [], ◌∷◌, ◌++◌, ◌≡◌, refl, arith, inl,
  inr, Bool-cases, subst, sym,
}
use zte_u60_pro_mu5250_data.Engine.Sessions.{has}
use zte_u60_pro_mu5250_data.Json.{Json, Fields}
use zte_u60_pro_mu5250_data.Control.Program.{ret}
use zte_u60_pro_mu5250_data.Control.Params.{not_handled, write_call}
use zte_u60_pro_mu5250_data.Control.Wifi.{Env}
use zte_u60_pro_mu5250_data.Control.Execute.{Arm, arms, choose, old_actions, e4_actions}
use zte_u60_pro_mu5250_data.Control.Listed.{Kept, fresh_tally, may_call, write_call-Kept}
use zte_u60_pro_mu5250_data.Control.Permitted.Network.{
  mapped_call-Kept, apn-Kept, cellular_set-Kept, send_at-Kept, netselect_register-Kept, redial-Kept,
  apn_pdp_type-Kept, band-Kept,
}
use zte_u60_pro_mu5250_data.Control.Permitted.Power.{direct_supply-Kept, usb_attach_mode-Kept}
use zte_u60_pro_mu5250_data.Control.Permitted.Wifi.{wifi_module-Kept, wifi_apply-Kept}
use zte_u60_pro_mu5250_data.Control.Permitted.Files.{wifi_power_save-Kept}
use zte_u60_pro_mu5250_data.Control.Permitted.Vendor.{
  vendor_call-Kept, dns_doh-Kept, sms_db_delete-Kept, nfc-Kept, run_sms-Kept,
}

infixr 6 ◌also◌
abbrev ◌also◌ {ℓ κ} : {A : Type ℓ} {B : Type κ} → A → B → A × B
a also b = (a, b)

abbrev pub names : List Arm → List String
names [] = []
names ((name, arm) ∷ more) = name ∷ names more

abbrev subset : List String → List String → Bool
subset [] ys = true
subset (x ∷ xs) ys = has ys x && subset xs ys

has_of_subset :
    (xs ys : List String) (a : String) → subset xs ys ≡ true → has xs a ≡ true → has ys a ≡ true
unfolding has
has_of_subset [] ys a s h = cc
has_of_subset (x ∷ xs) ys a s h = elim (Bool-cases (str_eq x a)) [
  | inl e ↦ subst (λ z. has ys z ≡ true) ((str_eq_iff x a).0 e) (ground arith)
  | inr e ↦ has_of_subset xs ys a (ground arith) (ground arith)
]

within : subset (names arms) (old_actions ++ e4_actions) ≡ true
unfolding has
within = refl

covered : subset (old_actions ++ e4_actions) (names arms) ≡ true
unfolding has
covered = refl

-- The arms of the `match` are those of the two lists.
pub named : (action : String) → has (names arms) action ≡ has (old_actions ++ e4_actions) action
named action =
    same_of (has (names arms) action) (has (old_actions ++ e4_actions) action)
      (has_of_subset (names arms) (old_actions ++ e4_actions) action within)
      (has_of_subset (old_actions ++ e4_actions) (names arms) action covered)
  where
    same_of : (a b : Bool) → (a ≡ true → b ≡ true) → (b ≡ true → a ≡ true) → a ≡ b
    same_of true b f g = sym (f refl)
    same_of false true f g = g refl
    same_of false false f g = refl

module _ (env : Env) (params : Fields) where
  abbrev pub AllKept : List Arm → Type 0
  AllKept [] = Unit
  AllKept ((name, arm) ∷ more) = Kept env fresh_tally (arm env params) × AllKept more

  plain : (o m : String) (v : Json) → may_call o m ≡ true → Kept env fresh_tally (write_call o m v)
  plain o m v p = write_call-Kept env fresh_tally o m v p (omega arith)

  -- The arms one by one, in the order of the `match`.
  pub arms-AllKept : AllKept arms
  unfolding may_call
  arms-AllKept =
      plain "zwrt_mc.device.manager" "device_reboot" _ refl
      also plain "zwrt_mc.device.manager" "device_poweroff" _ refl
      also cellular_set-Kept env params
      also mapped_call-Kept env params "zte_nwinfo_api" "nwinfo_set_netselect" _ false refl
      also band-Kept env params true false
      also band-Kept env params false false
      also band-Kept env params false true
      also mapped_call-Kept env params "zte_nwinfo_api" "nwinfo_lock_lte_cell" _ false refl
      also mapped_call-Kept env params "zte_nwinfo_api" "nwinfo_lock_nr_cell" _ false refl
      also plain "zte_nwinfo_api" "nwinfo_manual_scan" _ refl
      also netselect_register-Kept env params
      also send_at-Kept env _
      also redial-Kept env params
      also send_at-Kept env _
      also apn_pdp_type-Kept env params
      also wifi_apply-Kept env params
      also plain "zwrt_wlan" "reload" _ refl
      also vendor_call-Kept env params
      also dns_doh-Kept env params
      also sms_db_delete-Kept env params
      also wifi_power_save-Kept env params
      also plain "zte_nwinfo_api" "nwinfo_reset_band_cell_setting" _ refl
      also wifi_module-Kept env params
      also mapped_call-Kept env params "zwrt_router.api" "router_set_lan_para" _ true refl
      also direct_supply-Kept env params
      also mapped_call-Kept env params "zwrt_bsp.usb" "set" _ true refl
      also usb_attach_mode-Kept env params
      also nfc-Kept env params
      also mapped_call-Kept env params "zwrt_apn_object" "set_apn_mode" _ false refl
      also apn-Kept env params "add_manu_apn" false refl
      also apn-Kept env params "modify_manu_apn" true refl
      also mapped_call-Kept env params "zwrt_apn_object" "delete_manu_apn" _ false refl
      also mapped_call-Kept env params "zwrt_apn_object" "enable_manu_apn_id" _ false refl
      also mapped_call-Kept env params "zwrt_wms" "zwrt_wms_delete_sms" _ false refl
      also mapped_call-Kept env params "zwrt_wms" "zwrt_wms_modify_tag" _ false refl
      also run_sms-Kept env _ params
      also run_sms-Kept env _ params
      also tt

  pub choose-Kept :
      (action : String) (list : List Arm)
      → AllKept list
      → has (names list) action ≡ true
      → Kept env fresh_tally (choose list action env params)
  unfolding choose has
  choose-Kept action [] all h = cc
  choose-Kept action ((name, arm) ∷ more) all h = elim (Bool-cases (str_eq name action)) [
    | inl e ↦ rw e all.0
    | inr e ↦ rw e (choose-Kept action more all.1 (ground arith))
  ]

  pub choose-none :
      (action : String) (list : List Arm)
      → has (names list) action ≡ false
      → choose list action env params ≡ ret not_handled
  unfolding choose has
  choose-none action [] h = refl
  choose-none action ((name, arm) ∷ more) h =
      let e : str_eq name action ≡ false = ground arith in
      rw e (choose-none action more (ground arith))
