-- ===== src/Control/Permitted/Vendor.antt =====
-- The other actions ask for nothing that is not listed: `vendor_call` makes only the calls of its list,
-- and no text of a client reaches a shell or the database but numbers (rust/src/control.rs).
use zte_u60_pro_mu5250_data.Common.{
  String, Bool, true, false, not, ◌||◌, ◌==◌, ltb, length, Option, none, some, List, [], ◌∷◌,
  Result, ok, err, ◌≡◌, refl, ◌≤◌, arith,
}
use zte_u60_pro_mu5250_data.Common.Text.{chars, split}
use zte_u60_pro_mu5250_data.Json.{Json, Fields, get}
use zte_u60_pro_mu5250_data.Control.Program.{ubus, as_text, ◌>>=◌, SmsAction, SmsReply}
use zte_u60_pro_mu5250_data.Control.Params.{string_param, boolean_param, mapped, int_field}
use zte_u60_pro_mu5250_data.Control.Wifi.{Env}
use zte_u60_pro_mu5250_data.Control.Vendor.{
  vendor_call, vendor_pair, pair_of, args_of, has_pair, vendor_calls, Params2, dns_doh, doh_outcome,
  sms_db_delete, db_delete_with, delete_ids, deleted, all_ids, parts_of, nfc, nfc_changed,
}
use zte_u60_pro_mu5250_data.Control.Execute.{run_sms, sms_outcome}
use zte_u60_pro_mu5250_data.Control.Listed.{
  changes, Kept, Tally, fresh_tally, sleep_limit, may_call, write_call-Kept, if-Kept, checked-Kept,
  Fits, doh, delete_rows, read_calls, write_calls,
}

third_of : (a b c : Bool) → not c ≡ false → a || b || c ≡ true
third_of a b c h = ground arith

listed_call : (o m : String) → not (has_pair vendor_calls o m) ≡ false → may_call o m ≡ true
unfolding may_call
listed_call o m h =
    third_of (has_pair read_calls o m) (has_pair write_calls o m) (has_pair vendor_calls o m) h

vendor_pair-Kept :
    (env : Env) (params : Fields) (r : Params2) → Kept env fresh_tally (vendor_pair env params r)
unfolding vendor_pair
vendor_pair-Kept env params (err e) = (refl, omega arith)
vendor_pair-Kept env params (ok (o, m)) =
    if-Kept env fresh_tally _ _ (not (has_pair vendor_calls o m)) (λ h. (refl, omega arith))
      λ h.
        checked-Kept env (args_of env (get params "args")) _
          λ args e. write_call-Kept env fresh_tally o m args (listed_call o m h) (omega arith)

pub vendor_call-Kept : (env : Env) (params : Fields) → Kept env fresh_tally (vendor_call env params)
unfolding vendor_call
vendor_call-Kept env params =
    vendor_pair-Kept env params
      (pair_of (string_param params "object" true) (string_param params "method" true))

doh_outcome-Fits :
    (enabled : Bool) (r : Result String String) (t : Tally)
    → t.time ≤ sleep_limit
    → Fits t (doh_outcome enabled r)
unfolding doh_outcome
doh_outcome-Fits enabled (ok out) t h = h
doh_outcome-Fits enabled (err e) t h = h

pub dns_doh-Kept : (env : Env) (params : Fields) → Kept env fresh_tally (dns_doh params)
unfolding dns_doh changes
dns_doh-Kept env params = checked-Kept env (boolean_param params "enabled") _ λ enabled e r. (
  doh enabled refl refl,
  doh_outcome-Fits enabled r (record fresh_tally { changed = true }) (omega arith),
)

deleted-Fits :
    (n : _) (r : Result String String) (t : Tally) → t.time ≤ sleep_limit → Fits t (deleted n r)
unfolding deleted
deleted-Fits n (ok out) t h = h
deleted-Fits n (err e) t h = h

ids_are_numbers : (a b c : Bool) → a || b || not c ≡ false → c ≡ true
ids_are_numbers a b c h = ground arith

delete_ids-Kept : (env : Env) (ids : List String) → Kept env fresh_tally (delete_ids env ids)
unfolding delete_ids changes
delete_ids-Kept env ids =
    if-Kept env fresh_tally _ _ (length ids == 0 || ltb 500 (length ids) || not (all_ids ids))
      (λ h. (refl, omega arith))
      λ h r. (
        delete_rows ids (ids_are_numbers (length ids == 0) (ltb 500 (length ids)) (all_ids ids) h)
            refl refl,
        deleted-Fits (length ids) r (record fresh_tally { changed = true }) (omega arith),
      )

db_delete_with-Kept :
    (env : Env) (r : Result String (Option String)) → Kept env fresh_tally (db_delete_with env r)
unfolding db_delete_with
db_delete_with-Kept env (err e) = (refl, omega arith)
db_delete_with-Kept env (ok none) = (refl, omega arith)
db_delete_with-Kept env (ok (some ids)) = delete_ids-Kept env (parts_of (split b';' (chars ids)))

pub sms_db_delete-Kept :
    (env : Env) (params : Fields) → Kept env fresh_tally (sms_db_delete env params)
unfolding sms_db_delete
sms_db_delete-Kept env params = db_delete_with-Kept env (string_param params "ids" true)

nfc_changed-Kept :
    (env : Env) (r : Result String Json) (t : Tally)
    → t.time ≤ sleep_limit
    → Kept env t (nfc_changed r)
unfolding nfc_changed ubus ◌>>=◌ may_call
nfc_changed-Kept env (err e) t h = h
nfc_changed-Kept env (ok v) t h = λ r. (refl, omega arith)

pub nfc-Kept : (env : Env) (params : Fields) → Kept env fresh_tally (nfc params)
unfolding nfc ubus ◌>>=◌ may_call
nfc-Kept env params =
    checked-Kept env
      (mapped params (int_field "enabled" "switch" true ∷ int_field "flag" "flag" false ∷ [])) _
      λ args e r. (refl, nfc_changed-Kept env (as_text r) _ (omega arith))

sms_outcome-Fits : (r : SmsReply) → Fits fresh_tally (sms_outcome r)
unfolding sms_outcome
sms_outcome-Fits (ok v) = omega arith
sms_outcome-Fits (err (true, e)) = (refl, omega arith)
sms_outcome-Fits (err (false, e)) = omega arith

pub run_sms-Kept :
    (env : Env) (a : SmsAction) (params : Fields) → Kept env fresh_tally (run_sms a params)
unfolding run_sms changes
run_sms-Kept env a params = λ r. (tt, sms_outcome-Fits r)
