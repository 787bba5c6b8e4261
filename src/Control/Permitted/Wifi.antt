-- ===== src/Control/Permitted/Wifi.antt =====
-- The Wi-Fi actions ask for nothing that is not listed; `wifi_apply` in particular sets only options of
-- its list (rust/src/control.rs).
use Prim.Native.String.{◌++◌}
use mathlib.Core.List.{◌++◌ as ◌++ᴸ◌}
use zte_u60_pro_mu5250_data.Common.{
  ◌==◌, ◌||◌, ltb, ℤ, String, Bool, true, false, Option, none, some, List, [], ◌∷◌, if◌then◌else◌,
  Result, ok, err, ◌≡◌, refl, ◌≤◌, arith, subst, sym,
}
use zte_u60_pro_mu5250_data.Executor.Calls.{UbusError}
use zte_u60_pro_mu5250_data.Json.{Json, Fields, get, empty_object}
use zte_u60_pro_mu5250_data.Control.Program.{Program, ret, ubus, as_text, ◌>>=◌}
use zte_u60_pro_mu5250_data.Control.Params.{Outcome, invalid, integer_param}
use zte_u60_pro_mu5250_data.Control.Wifi.{
  Env, wifi_module, wifi_module_with, module_switch, switch_wifi, radio_sections, Checked,
  check_all, UciOp, set_to, commit, revert, uci_write, uci_args,
}
use zte_u60_pro_mu5250_data.Control.Wifi.Apply.{
  wifi_apply, apply_fields, apply_checked, set_all, give_up, finish_apply, after_commit,
  after_reload, options_of, reload_of, best_effort_of, count_fields,
}
use zte_u60_pro_mu5250_data.Control.Runs.{Keeps, bind-Keeps, called}
use zte_u60_pro_mu5250_data.Control.Listed.{
  Radios, Kept, Tally, fresh_tally, add_event, sleep_limit, may_call, watch, write_call-Kept,
  if-Kept, checked-Kept, Fits, Command, set_option, commit_or_revert,
}
use zte_u60_pro_mu5250_data.Control.Permitted.Radios.{Found, radio_sections-Keeps}
use zte_u60_pro_mu5250_data.Control.Permitted.Options.{KeysOk, CheckedOk, check_all-CheckedOk}

switch_wifi-Kept : (env : Env) (enabled : Bool) → Kept env fresh_tally (switch_wifi enabled)
unfolding switch_wifi ubus ◌>>=◌ may_call
switch_wifi-Kept env true =
    λ r. (refl, write_call-Kept env _ "zwrt_wlan" "set" _ refl (omega arith))
switch_wifi-Kept env false = write_call-Kept env fresh_tally "zwrt_wlan" "set" _ refl (omega arith)

module_switch-Kept :
    (env : Env) (o : Option Bool)
    → Kept env fresh_tally (elim o as (λ x. Program Outcome) [
      | none ↦ ret (invalid "enabled must be 0 or 1")
      | some enabled ↦ switch_wifi enabled
    ])
module_switch-Kept env none = (refl, omega arith)
module_switch-Kept env (some enabled) = switch_wifi-Kept env enabled

wifi_module_with-Kept :
    (env : Env) (r : Result String (Option ℤ)) → Kept env fresh_tally (wifi_module_with r)
unfolding wifi_module_with
wifi_module_with-Kept env (err e) = (refl, omega arith)
wifi_module_with-Kept env (ok given) = module_switch-Kept env (module_switch given)

pub wifi_module-Kept : (env : Env) (params : Fields) → Kept env fresh_tally (wifi_module params)
unfolding wifi_module
wifi_module-Kept env params = wifi_module_with-Kept env (integer_param params "enabled" true)

-- In time, and the device has named no other section.
abbrev InTime : {A : Type 0} → Tally → Tally → A → Type 0
InTime t u a = (u.time ≤ sleep_limit) × (u.told ≡ t.told)

-- A command of `uci_write` that is let through is one of those listed.
uci_write-Keeps :
    (env : Env) (op : UciOp) (path : String) (t : Tally)
    → ((args : List String) → uci_args op path ≡ some args → Command env t.told env.uci_bin args)
    → t.time ≤ sleep_limit
    → Keeps (watch env) (InTime t) t (uci_write env op path)
unfolding uci_write
uci_write-Keeps env op path t p h = by_args (uci_args op path) refl
  where
    by_args :
        (o : Option (List String))
        → uci_args op path ≡ o
        → Keeps (watch env) (InTime t) t (uci_write env op path)
    by_args none e = rw (e, uci_write) (h, refl)
    by_args (some args) e = rw (e, uci_write) (λ r. (p args e, (omega arith, refl)))

set_args :
    (v path : String) (args : List String)
    → uci_args (set_to v) path ≡ some args
    → args ≡ "set" ∷ (path ++ "=" ++ v) ∷ []
unfolding uci_args
set_args v path args h = ground arith

commit_args :
    (path : String) (args : List String)
    → uci_args commit path ≡ some args
    → args ≡ "commit" ∷ path ∷ []
unfolding uci_args
commit_args path args h = ground arith

revert_args :
    (path : String) (args : List String)
    → uci_args revert path ≡ some args
    → args ≡ "revert" ∷ path ∷ []
unfolding uci_args
revert_args path args h = ground arith

commit-Keeps :
    (env : Env) (t : Tally)
    → t.time ≤ sleep_limit
    → Keeps (watch env) (InTime t) t (uci_write env commit "wireless")
commit-Keeps env t h =
    uci_write-Keeps env commit "wireless" t
      (λ args e. commit_or_revert true refl (commit_args "wireless" args e)) h

after_commit-Kept :
    (env : Env) (reload : Bool) (skipped : List String) (r : Result String (Unit {0})) (t : Tally)
    → t.time ≤ sleep_limit
    → Kept env t (after_commit reload skipped r)
unfolding after_commit after_reload ubus ◌>>=◌ may_call
after_commit-Kept env reload skipped (err e) t h = h
after_commit-Kept env true skipped (ok u) t h = λ r. (refl, by_reply r (as_text r))
  where
    by_reply :
        (r : Result UbusError Json) (x : Result String Json)
        → Kept env
            (add_event t (called "zwrt_wlan" "reload" empty_object r))
            (after_reload skipped x)
    by_reply r (ok v) = omega arith
    by_reply r (err e) = omega arith
after_commit-Kept env false skipped (ok u) t h = h

finish_apply-Kept :
    (env : Env) (reload wrote : Bool) (skipped : List String) (t : Tally)
    → t.time ≤ sleep_limit
    → Kept env t (finish_apply env reload wrote skipped)
unfolding finish_apply
finish_apply-Kept env reload true skipped t h =
    bind-Keeps (watch env) (InTime t) Fits (uci_write env commit "wireless")
      (after_commit reload skipped) t (commit-Keeps env t h)
      (λ u r k. after_commit-Kept env reload skipped r u k.0)
finish_apply-Kept env reload false skipped t h = h

give_up-Kept :
    (env : Env) (path e : String) (t : Tally)
    → t.time ≤ sleep_limit
    → Kept env t (give_up env path e)
unfolding give_up
give_up-Kept env path e t h =
    bind-Keeps (watch env) (InTime t) Fits (uci_write env revert "wireless") _ t
      (uci_write-Keeps env revert "wireless" t
        (λ args k. commit_or_revert false refl (revert_args "wireless" args k)) h)
      (λ u r k. k.0)

set_all-Kept :
    (env : Env) (radios : String × String) (best reload : Bool) (updates : List (String × String))
    (wrote : Bool) (skipped : List String) (t : Tally)
    → KeysOk radios updates
    → Radios env t.told radios
    → t.time ≤ sleep_limit
    → Kept env t (set_all env best reload updates wrote skipped)
unfolding set_all
set_all-Kept env radios best reload [] wrote skipped t p n h =
    finish_apply-Kept env reload wrote skipped t h
set_all-Kept env radios best reload ((path, value) ∷ more) wrote skipped t p n h =
    bind-Keeps (watch env) (InTime t) Fits (uci_write env (set_to value) path) _ t
      (uci_write-Keeps env (set_to value) path t
        (λ args e. set_option path value radios n p.0 refl (set_args value path args e)) h)
      (λ u r k.
        let m = subst (λ ns. Radios env ns radios) (sym k.1) n in
        by_result u r k.0 (set_all-Kept env radios best reload more true skipped u p.1 m k.0)
          (set_all-Kept env radios best reload more wrote (skipped ++ᴸ (path ∷ [])) u p.1 m k.0))
  where
    by_result :
        (u : Tally) (r : Result String (Unit {0}))
        → u.time ≤ sleep_limit
        → Kept env u (set_all env best reload more true skipped)
        → Kept env u (set_all env best reload more wrote (skipped ++ᴸ (path ∷ [])))
        → Kept env u (elim r as (λ x. Program Outcome) [
          | ok u' ↦ set_all env best reload more true skipped
          | err e ↦
              if best
              then set_all env best reload more wrote (skipped ++ᴸ (path ∷ []))
              else give_up env path e
        ])
    by_result u (ok u') k next left_out = next
    by_result u (err e) k next left_out =
        if-Kept env u _ _ best (λ b. left_out) (λ b. give_up-Kept env path e u k)

apply_checked-Kept :
    (env : Env) (radios : String × String) (best reload : Bool) (c : Checked) (t : Tally)
    → CheckedOk radios c
    → Found env t radios
    → Kept env t (apply_checked env best reload c)
unfolding apply_checked Found
apply_checked-Kept env radios best reload (err e) t p h = (h.0.0, ground arith)
apply_checked-Kept env radios best reload (ok (updates, skipped)) t p h =
    set_all-Kept env radios best reload updates false skipped t p h.1 (ground arith)

apply_fields-Kept :
    (env : Env) (params updates : Fields) → Kept env fresh_tally (apply_fields env params updates)
unfolding apply_fields
apply_fields-Kept env params updates =
    if-Kept env fresh_tally _ _ (count_fields updates == 0 || ltb 32 (count_fields updates))
      (λ e. (refl, omega arith))
      λ e. checked-Kept env (reload_of (get params "reload")) _ λ reload k.
        bind-Keeps (watch env) (Found env) Fits (radio_sections env) _ fresh_tally
          (radio_sections-Keeps env)
          λ t radios h.
            apply_checked-Kept env radios (best_effort_of (get params "best_effort")) reload
              (check_all env radios updates) t (check_all-CheckedOk env radios updates) h

pub wifi_apply-Kept : (env : Env) (params : Fields) → Kept env fresh_tally (wifi_apply env params)
unfolding wifi_apply
wifi_apply-Kept env params = by_options (options_of (get params "set"))
  where
    by_options :
        (o : Option Fields)
        → Kept env fresh_tally (elim o as (λ x. Program Outcome) [
          | none ↦ ret (invalid "missing parameter: set")
          | some updates ↦ apply_fields env params updates
        ])
    by_options none = (refl, omega arith)
    by_options (some updates) = apply_fields-Kept env params updates
