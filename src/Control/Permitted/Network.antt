-- ===== src/Control/Permitted/Network.antt =====
-- The actions on the cellular connection ask for nothing that is not listed, and fail before they change
-- anything if their parameters are wrong (rust/src/control.rs).
use zte_u60_pro_mu5250_data.Common.{
  ℕ, ℤ, ◌&&◌, not, String, Bool, true, false, Option, none, some, unwrap_or, List, [], ◌∷◌, Result,
  ok, err, ◌≡◌, refl, ◌≤◌, arith,
}
use zte_u60_pro_mu5250_data.Common.Text.{chars, all_chars}
use zte_u60_pro_mu5250_data.Json.{
  Json, null, boolean, number, string, array, object, Fields, has_no_fields,
}
use zte_u60_pro_mu5250_data.Control.Program.{Cmd, ubus, as_text, ◌>>=◌}
use zte_u60_pro_mu5250_data.Control.Params.{
  Mapping, mapped, mapped_call, string_param, integer_param, boolean_param,
}
use zte_u60_pro_mu5250_data.Control.Network.{
  cellular_set, set_wwan, cellular_fields, wwan_query, send_at, at_outcome, netselect_register,
  register_plmn, register_rat, is_plmn, short_code, redial, redial_with, redial_types, dial_all,
  dial_args, apn_pdp_type, set_pdp, dial_v6, band, is_band_char, apn,
}
use zte_u60_pro_mu5250_data.Control.Wifi.{Env}
use zte_u60_pro_mu5250_data.Control.Listed.{
  Kept, Tally, fresh_tally, add_event, sleep_limit, may_call, write_call-Kept, read_then-Kept,
  if-Kept, checked-Kept, Fits,
}
use zte_u60_pro_mu5250_data.Control.Runs.{called, sent_at}

pub mapped_call-Kept :
    (env : Env) (params : Fields) (o m : String) (specs : List Mapping) (any : Bool)
    → may_call o m ≡ true
    → Kept env fresh_tally (mapped_call params o m specs any)
unfolding mapped_call
mapped_call-Kept env params o m specs any p = checked-Kept env (mapped params specs) _ λ args e.
    if-Kept env fresh_tally _ _ (any && has_no_fields args) (λ h. (refl, omega arith))
      (λ h. write_call-Kept env fresh_tally o m (object args) p (omega arith))

pub apn-Kept :
    (env : Env) (params : Fields) (method : String) (profile : Bool)
    → may_call "zwrt_apn_object" method ≡ true
    → Kept env fresh_tally (apn params method profile)
unfolding apn
apn-Kept env params method profile p =
    mapped_call-Kept env params "zwrt_apn_object" method _ false p

set_wwan-Kept :
    (env : Env) (overrides : Fields) (x : Json) (t : Tally)
    → t.time ≤ sleep_limit
    → Kept env t (set_wwan overrides x)
unfolding set_wwan may_call
set_wwan-Kept env overrides (object current) t h =
    write_call-Kept env t "zwrt_data" "set_wwaniface" _ refl h
set_wwan-Kept env overrides null t h = h
set_wwan-Kept env overrides (boolean b) t h = h
set_wwan-Kept env overrides (number n) t h = h
set_wwan-Kept env overrides (string s) t h = h
set_wwan-Kept env overrides (array xs) t h = h

pub cellular_set-Kept : (env : Env) (params : Fields) → Kept env fresh_tally (cellular_set params)
unfolding cellular_set may_call
cellular_set-Kept env params = checked-Kept env (mapped params cellular_fields) _ λ overrides e.
    if-Kept env fresh_tally _ _ (has_no_fields overrides) (λ h. (refl, omega arith))
      λ h.
        read_then-Kept env fresh_tally "zwrt_data" "get_wwaniface" wwan_query (set_wwan overrides)
          refl (omega arith) (λ x r. set_wwan-Kept env overrides x _ (omega arith))

pub send_at-Kept : (env : Env) (c : Cmd) → Kept env fresh_tally (send_at c)
unfolding send_at
send_at-Kept env c = λ r. (tt, by_answer r)
  where
    by_answer :
        (r : Result String String) → Fits (add_event fresh_tally (sent_at c r)) (at_outcome r)
    by_answer (ok a) = omega arith
    by_answer (err e) = omega arith

register_rat-Kept :
    (env : Env) (plmn : String) (r : Result String (Option String))
    → Kept env fresh_tally (register_rat plmn r)
unfolding register_rat may_call
register_rat-Kept env plmn (err e) = (refl, omega arith)
register_rat-Kept env plmn (ok given) =
    if-Kept env fresh_tally _ _ (short_code (unwrap_or given ""))
      (λ h.
        write_call-Kept env fresh_tally "zte_nwinfo_api" "nwinfo_manual_register" _ refl
          (omega arith))
      (λ h. (refl, omega arith))

register_plmn-Kept :
    (env : Env) (params : Fields) (r : Result String (Option String))
    → Kept env fresh_tally (register_plmn params r)
unfolding register_plmn
register_plmn-Kept env params (err e) = (refl, omega arith)
register_plmn-Kept env params (ok none) = (refl, omega arith)
register_plmn-Kept env params (ok (some plmn)) =
    if-Kept env fresh_tally _ _ (is_plmn plmn)
      (λ h. register_rat-Kept env plmn (string_param params "rat" false)) (λ h. (refl, omega arith))

pub netselect_register-Kept :
    (env : Env) (params : Fields) → Kept env fresh_tally (netselect_register params)
unfolding netselect_register
netselect_register-Kept env params =
    register_plmn-Kept env params (string_param params "mcc_mnc" true)

dial_all-Kept :
    (env : Env) (types : List ℕ) (last : Json) (t : Tally)
    → t.time ≤ sleep_limit
    → Kept env t (dial_all types last)
unfolding dial_all may_call
dial_all-Kept env [] last t h = h
dial_all-Kept env (n ∷ more) last t h =
    read_then-Kept env t "zwrt_qcmap_cli" "set_qcliiface" (dial_args n 1) (λ v. dial_all more v)
      refl h
      (λ x r.
        dial_all-Kept env more x
          (add_event t (called "zwrt_qcmap_cli" "set_qcliiface" (dial_args n 1) r)) (omega arith))

redial_with-Kept : (env : Env) (r : Result String (Option ℤ)) → Kept env fresh_tally (redial_with r)
unfolding redial_with
redial_with-Kept env (err e) = (refl, omega arith)
redial_with-Kept env (ok given) =
    checked-Kept env (redial_types given) _
      λ types e. dial_all-Kept env types null fresh_tally (omega arith)

pub redial-Kept : (env : Env) (params : Fields) → Kept env fresh_tally (redial params)
unfolding redial
redial-Kept env params = redial_with-Kept env (integer_param params "type" false)

-- A later call whose answer any continuation takes without sleeping.
dial_v6-Kept :
    (env : Env) (enabled : Bool) (r : Result String Json) (t : Tally)
    → t.time ≤ sleep_limit
    → Kept env t (dial_v6 enabled r)
unfolding dial_v6 ubus ◌>>=◌ may_call
dial_v6-Kept env enabled (err e) t h = h
dial_v6-Kept env enabled (ok v) t h = λ r. (refl, omega arith)

set_pdp-Kept :
    (env : Env) (enabled : Bool) (r : Result String Json) (t : Tally)
    → t.time ≤ sleep_limit
    → Kept env t (set_pdp enabled r)
unfolding set_pdp ubus ◌>>=◌ may_call
set_pdp-Kept env enabled (err e) t h = h
set_pdp-Kept env enabled (ok v) t h =
    λ r. (refl, dial_v6-Kept env enabled (as_text r) _ (omega arith))

pub apn_pdp_type-Kept : (env : Env) (params : Fields) → Kept env fresh_tally (apn_pdp_type params)
unfolding apn_pdp_type ubus ◌>>=◌ may_call
apn_pdp_type-Kept env params =
    checked-Kept env (boolean_param params "ipv6") _
      λ enabled e. λ r. (refl, set_pdp-Kept env enabled (as_text r) _ (omega arith))

pub band-Kept :
    (env : Env) (params : Fields) (lte nsa : Bool) → Kept env fresh_tally (band params lte nsa)
unfolding band may_call
band-Kept env params lte nsa = checked-Kept env (string_param params "bands" false) _ λ given e.
    if-Kept env fresh_tally _ _ (not (all_chars is_band_char (chars (unwrap_or given ""))))
      (λ h. (refl, omega arith))
      (λ h.
        if-Kept env fresh_tally _ _ lte
          (λ i.
            write_call-Kept env fresh_tally "zte_nwinfo_api" "nwinfo_set_lte_ext_band" _ refl
              (omega arith))
          (λ i.
            write_call-Kept env fresh_tally "zte_nwinfo_api" "nwinfo_set_nrbandlock" _ refl
              (omega arith)))
