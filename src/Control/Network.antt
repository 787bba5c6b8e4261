-- ===== src/Control/Network.antt =====
-- The actions on the cellular connection: `cellular_set`, `cellular_args`, `netselect_register`,
-- `redial`, `apn_pdp_type`, `band`, `apn`, `at_outcome` (rust/src/control.rs).
use Prim.Native.String.{◌++◌, len}
use zte_u60_pro_mu5250_data.Common.{
  ℕ, ℤ, pos, negsuc, String, Bool, true, false, ◌&&◌, ◌||◌, not, Option, none, some, unwrap_or,
  List, [], ◌∷◌, leb, ◌==◌, if◌then◌else◌, Result, ok, err,
}
use zte_u60_pro_mu5250_data.Common.Text.{chars, text_of, trim, all_chars, is_digit, is_alphanumeric}
use zte_u60_pro_mu5250_data.Json.{
  Json, null, boolean, string, object, Fields, insert, remove, extend, has_no_fields, get_in,
  as_str_of, as_i64, int, signed, obj,
}
use zte_u60_pro_mu5250_data.Control.Program.{Program, ret, at_command, Cmd, ubus, ◌>>=◌}
use zte_u60_pro_mu5250_data.Control.Params.{
  Outcome, invalid, failed, done, string_param, integer_param, boolean_param, mapped, mapped_call,
  text_field, int_field, write_call, read_then, Mapping,
}

-- `cellular_args`
unfoldable cellular_args : Fields → Fields → Json
cellular_args current overrides = object (
    insert "cid" (int 1)
      (insert "source_module" (string "WEBUI") (extend (remove "enable" current) overrides)))

abbrev pub cellular_fields : List Mapping
cellular_fields =
    int_field "enabled" "enable" false
    ∷ int_field "roaming" "roam_enable" false
    ∷ text_field "connect_mode" "connect_mode" false
    ∷ []

abbrev pub wwan_query : Json
wwan_query =
    obj (("source_module", string "web") ∷ ("cid", int 1) ∷ ("connect_status", string "") ∷ [])

unfoldable pub set_wwan : Fields → Json → Program Outcome
unfolding cellular_args
set_wwan overrides (object current) =
    write_call "zwrt_data" "set_wwaniface" (cellular_args current overrides)
set_wwan overrides _ = ret (failed "invalid get_wwaniface response")

-- `cellular_set`
unfoldable pub cellular_set : Fields → Program Outcome
unfolding set_wwan
cellular_set params = elim (mapped params cellular_fields) [
  | err e ↦ ret (invalid e)
  | ok overrides ↦
      if has_no_fields overrides
      then ret (invalid "no cellular fields supplied")
      else read_then "zwrt_data" "get_wwaniface" wwan_query (set_wwan overrides)
]

unfoldable pub at_outcome : Result String String → Outcome
at_outcome (ok a) = done (obj (("answer", string (text_of (trim (chars a)))) ∷ []))
at_outcome (err e) = failed e

unfoldable pub send_at : Cmd → Program Outcome
unfolding at_outcome
send_at c = at_command c (λ r. ret (at_outcome r))

unfoldable pub is_plmn : String → Bool
is_plmn s = leb 5 (len s) && leb (len s) 6 && all_chars is_digit (chars s)

unfoldable pub short_code : String → Bool
short_code s = leb (len s) 8 && all_chars is_alphanumeric (chars s)

unfoldable pub register_rat : String → Result String (Option String) → Program Outcome
register_rat plmn (err e) = ret (invalid e)
register_rat plmn (ok given) =
    let rat = unwrap_or given "" in
    if short_code rat
    then write_call "zte_nwinfo_api" "nwinfo_manual_register"
        (obj (("m_mcc_mnc", string plmn) ∷ ("m_rat", string rat) ∷ []))
    else ret (invalid "rat must be a short code")

unfoldable pub register_plmn : Fields → Result String (Option String) → Program Outcome
register_plmn params (err e) = ret (invalid e)
register_plmn params (ok none) = ret (invalid "mcc_mnc must be 5-6 digits")
register_plmn params (ok (some plmn)) =
    if is_plmn plmn
    then register_rat plmn (string_param params "rat" false)
    else ret (invalid "mcc_mnc must be 5-6 digits")

-- `netselect_register`
unfoldable pub netselect_register : Fields → Program Outcome
unfolding is_plmn short_code register_rat register_plmn
netselect_register params = register_plmn params (string_param params "mcc_mnc" true)

unfoldable pub dial_args : ℕ → ℕ → Json
dial_args leg enable = obj (
    ("source_module", string "zte_topsw_data")
    ∷ ("type", int leg)
    ∷ ("enable", int enable)
    ∷ ("sub_id", int 1)
    ∷ [])

-- The loop of `redial`.
unfoldable pub dial_all : List ℕ → Json → Program Outcome
unfolding dial_args
dial_all [] last = ret (done last)
dial_all (t ∷ more) last =
    read_then "zwrt_qcmap_cli" "set_qcliiface" (dial_args t 1) (λ v. dial_all more v)

unfoldable pub redial_types : Option ℤ → Result String (List ℕ)
redial_types none = ok (1 ∷ 2 ∷ [])
redial_types (some (negsuc n)) = err "type must be 1 or 2"
redial_types (some (pos n)) = if n == 1 || n == 2 then ok (n ∷ []) else err "type must be 1 or 2"

unfoldable pub redial_with : Result String (Option ℤ) → Program Outcome
redial_with (err e) = ret (invalid e)
redial_with (ok given) = elim (redial_types given) [
  | err e ↦ ret (invalid e)
  | ok types ↦ dial_all types null
]

-- `redial`
unfoldable pub redial : Fields → Program Outcome
unfolding redial_types redial_with
redial params = redial_with (integer_param params "type" false)

unfoldable pub text_at : Json → String → Json
text_at apn k = string (unwrap_or (as_str_of (get_in apn k)) "")

unfoldable int_at : Json → String → ℕ → Json
int_at apn k d = elim (get_in apn k) [
  | none ↦ int d
  | some v ↦ elim (as_i64 v) [ none ↦ int d | some n ↦ signed n ]
]

unfoldable pdp_request : Json → ℕ → Json
unfolding text_at int_at
pdp_request apn pdp = obj (
    ("profilename", text_at apn "profilename")
    ∷ ("wanapn", text_at apn "wanapn")
    ∷ ("username", text_at apn "username")
    ∷ ("password", text_at apn "password")
    ∷ ("pdpType", int pdp)
    ∷ ("pppAuthMode", int_at apn "pppAuthMode" 0)
    ∷ ("profileId", text_at apn "profileId")
    ∷ ("isEnable", boolean true)
    ∷ ("cid", int 1)
    ∷ ("isValid", int_at apn "isValid" 1)
    ∷ ("extraInt1", int_at apn "extraInt1" 0)
    ∷ ("roamingPdpType", int pdp)
    ∷ [])

abbrev pdp_of : Bool → ℕ
pdp_of enabled = if enabled then 3 else 1

unfoldable pub dial_v6 : Bool → Result String Json → Program Outcome
dial_v6 enabled (err e) = ret (failed ("set APN failed: " ++ e))
dial_v6 enabled (ok v) =
    ubus "zwrt_qcmap_cli" "set_qcliiface" (dial_args 2 (if enabled then 1 else 0)) >>= λ ignored.
    ret (done (obj (("ipv6_enabled", boolean enabled) ∷ ("pdp_type", int (pdp_of enabled)) ∷ [])))

unfoldable pub set_pdp : Bool → Result String Json → Program Outcome
unfolding pdp_request
set_pdp enabled (err e) = ret (failed ("read APN failed: " ++ e))
set_pdp enabled (ok apn) =
    ubus "zwrt_apn_object" "set_apn_at_cid" (pdp_request apn (pdp_of enabled)) >>= dial_v6 enabled

-- `apn_pdp_type`
unfoldable pub apn_pdp_type : Fields → Program Outcome
unfolding dial_args dial_v6 set_pdp
apn_pdp_type params = elim (boolean_param params "ipv6") [
  | err e ↦ ret (invalid e)
  | ok enabled ↦
      ubus "zwrt_apn_object" "get_apn_at_cid" (obj (("cid", int 1) ∷ [])) >>= set_pdp enabled
]

unfoldable pub is_band_char : ℕ → Bool
is_band_char c = is_digit c || c == b','

-- `band`
unfoldable pub band : Fields → Bool → Bool → Program Outcome
unfolding is_band_char
band params lte nsa = elim (string_param params "bands" false) [
  | err e ↦ ret (invalid e)
  | ok given ↦
      let bands = unwrap_or given "" in
      if not (all_chars is_band_char (chars bands))
      then ret (invalid "bands must contain only numbers and commas")
      else if lte
      then write_call "zte_nwinfo_api" "nwinfo_set_lte_ext_band"
          (obj (("lte_band", string bands) ∷ []))
      else write_call "zte_nwinfo_api" "nwinfo_set_nrbandlock" (
          obj (("nr5g_type", string (if nsa then "1" else "0")) ∷ ("nr5g_band", string bands) ∷ []))
]

-- `apn`
unfoldable pub apn : Fields → String → Bool → Program Outcome
apn params method profile_required =
    mapped_call params "zwrt_apn_object" method
      (text_field "profile_id" "profileId" profile_required
        ∷ text_field "name" "profilename" true
        ∷ text_field "apn" "wanapn" true
        ∷ text_field "username" "username" false
        ∷ text_field "password" "password" false
        ∷ int_field "auth_mode" "pppAuthMode" false
        ∷ int_field "pdp_type" "pdpType" false
        ∷ int_field "roaming_pdp_type" "roamingPdpType" false
        ∷ [])
      false
