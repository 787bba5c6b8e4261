-- ===== src/Control/Wifi/Apply.antt =====
-- `wifi_apply`: all options are checked before the first is set (rust/src/control.rs).
use Prim.Native.String.{◌++◌ as ◌+++◌}
use zte_u60_pro_mu5250_data.Common.{
  ℕ, String, Bool, true, false, ◌||◌, Option, none, some, unwrap_or, List, [], ◌∷◌, ◌++◌, suc, ◌==◌,
  ltb, if◌then◌else◌, Result, ok, err,
}
use zte_u60_pro_mu5250_data.Json.{
  Json, null, boolean, string, array, Items, nil, cons, Fields, end, field, get, as_bool, as_object,
  obj, empty_object,
}
use zte_u60_pro_mu5250_data.Control.Program.{Program, ret, ubus, ◌>>=◌}
use zte_u60_pro_mu5250_data.Control.Params.{Outcome, invalid, failed, done}
use zte_u60_pro_mu5250_data.Control.Wifi.{
  Env, radio_sections, Checked, check_all, set_to, commit, revert, uci_write,
}

unfoldable pub count_fields : Fields → ℕ
count_fields end = 0
count_fields (field k v more) = suc (count_fields more)

unfoldable pub texts : List String → Items
texts [] = nil
texts (s ∷ more) = cons (string s) (texts more)

unfoldable apply_reply : Bool → List String → Bool → Json → Json
apply_reply wrote skipped reloaded reload_error = obj (
    ("committed", array (texts (if wrote then "wireless" ∷ [] else [])))
    ∷ ("skipped", array (texts skipped))
    ∷ ("reloaded", boolean reloaded)
    ∷ ("reload_error", reload_error)
    ∷ [])

unfoldable pub after_reload : List String → Result String Json → Program Outcome
unfolding apply_reply
after_reload skipped (ok v) = ret (done (apply_reply true skipped true null))
after_reload skipped (err e) = ret (done (apply_reply true skipped false (string e)))

unfoldable pub after_commit : Bool → List String → Result String (Unit {0}) → Program Outcome
unfolding apply_reply
after_commit reload skipped (err e) = ret (failed ("commit wireless: " +++ e))
after_commit reload skipped (ok u) =
    if reload
    then ubus "zwrt_wlan" "reload" empty_object >>= after_reload skipped
    else ret (done (apply_reply true skipped false null))

-- The part of `wifi_apply` after the options are set; `wrote` says whether any is.
unfoldable pub finish_apply : Env → Bool → Bool → List String → Program Outcome
unfolding apply_reply
finish_apply env reload wrote skipped =
    if wrote
    then uci_write env commit "wireless" >>= after_commit reload skipped
    else ret (done (apply_reply false skipped false null))

unfoldable pub give_up : Env → String → String → Program Outcome
give_up env path e =
    uci_write env revert "wireless" >>= λ ignored. ret (failed (path +++ ": " +++ e))

-- The loop that sets the options.
unfoldable pub set_all :
    Env → Bool → Bool → List (String × String) → Bool → List String → Program Outcome
unfolding finish_apply give_up apply_reply texts after_reload after_commit
set_all env best_effort reload [] wrote skipped = finish_apply env reload wrote skipped
set_all env best_effort reload ((path, value) ∷ more) wrote skipped =
    let next = set_all env best_effort reload more true skipped in
    let left_out = set_all env best_effort reload more wrote (skipped ++ path ∷ []) in
    uci_write env (set_to value) path >>= λ r. elim r as (λ x. Program Outcome) [
      | ok u ↦ next
      | err e ↦ if best_effort then left_out else give_up env path e
    ]

unfoldable pub apply_checked : Env → Bool → Bool → Checked → Program Outcome
apply_checked env best_effort reload (err e) = ret (invalid e)
apply_checked env best_effort reload (ok (updates, skipped)) =
    set_all env best_effort reload updates false skipped

unfoldable pub reload_of : Option Json → Result String Bool
reload_of none = ok true
reload_of (some (boolean b)) = ok b
reload_of (some v) = err "reload must be boolean"

unfoldable pub best_effort_of : Option Json → Bool
best_effort_of none = false
best_effort_of (some v) = unwrap_or (as_bool v) false

unfoldable pub apply_fields : Env → Fields → Fields → Program Outcome
apply_fields env params updates =
    if count_fields updates == 0 || ltb 32 (count_fields updates)
    then ret (invalid "set must have 1-32 options")
    else (elim (reload_of (get params "reload")) [
      | err e ↦ ret (invalid e)
      | ok reload ↦ radio_sections env >>= λ radios.
          apply_checked env (best_effort_of (get params "best_effort")) reload
            (check_all env radios updates)
    ])

unfoldable pub options_of : Option Json → Option Fields
options_of none = none
options_of (some v) = as_object v

-- `wifi_apply`
unfoldable pub wifi_apply : Env → Fields → Program Outcome
unfolding count_fields texts apply_reply after_reload after_commit finish_apply give_up
    apply_checked reload_of best_effort_of apply_fields options_of
wifi_apply env params = elim (options_of (get params "set")) [
  | none ↦ ret (invalid "missing parameter: set")
  | some updates ↦ apply_fields env params updates
]
