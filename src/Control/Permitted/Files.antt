-- ===== src/Control/Permitted/Files.antt =====
-- `wifi_power_save` touches only the files of the hotplug script and runs only `iw`
-- (rust/src/control.rs).
use zte_u60_pro_mu5250_data.Common.{
  String, Bool, true, false, Option, none, some, List, [], ◌∷◌, Result, ok, err, ◌≡◌, refl, ◌≤◌,
  arith,
}
use zte_u60_pro_mu5250_data.Engine.Sessions.{has}
use zte_u60_pro_mu5250_data.Json.{Fields}
use zte_u60_pro_mu5250_data.Control.Program.{Program, ret}
use zte_u60_pro_mu5250_data.Control.Params.{Outcome, boolean_param}
use zte_u60_pro_mu5250_data.Control.Wifi.{Env}
use zte_u60_pro_mu5250_data.Control.Wifi.PowerSave.{
  wifi_power_save, save_script, and_then, apply_saved, set_ifaces, read_live, live_state,
  power_save_outcome, psm_ifaces, on_off,
}
use zte_u60_pro_mu5250_data.Control.Runs.{Keeps, bind-Keeps, ran}
use zte_u60_pro_mu5250_data.Control.Listed.{
  Kept, Tally, fresh_tally, add_event, sleep_limit, watch, checked-Kept, Fits, set_power_save,
  get_power_save,
}

abbrev InTime : {A : Type 0} → Tally → A → Type 0
InTime t a = t.time ≤ sleep_limit

and_then-Keeps :
    (env : Env) (r : Result String (Unit {0})) (next : Program (Result String (Unit {0})))
    (t : Tally)
    → t.time ≤ sleep_limit
    → Keeps (watch env) InTime t next
    → Keeps (watch env) InTime t (and_then r next)
unfolding and_then
and_then-Keeps env (ok u) next t h k = k
and_then-Keeps env (err e) next t h k = h

save_script-Keeps :
    (env : Env) (enabled : Bool)
    → Keeps (watch env) InTime fresh_tally (save_script env.hotplug_dir enabled)
unfolding save_script
save_script-Keeps env enabled = λ a. (
  refl,
  and_then-Keeps env a _ _ (omega arith) λ b. (
    (refl, enabled, refl),
    and_then-Keeps env b _ _ (omega arith)
        λ c. (refl, and_then-Keeps env c _ _ (omega arith) λ d. ((refl, refl), omega arith)),
  ),
)

abbrev Ifaces : List String → Type 0
Ifaces [] = Unit
Ifaces (w ∷ more) = (has psm_ifaces w ≡ true) × Ifaces more

set_ifaces-Kept :
    (env : Env) (enabled : Bool) (ws : List String) (next : Program Outcome) (t : Tally)
    → Ifaces ws
    → t.time ≤ sleep_limit
    → ((u : Tally) → u.time ≤ sleep_limit → Kept env u next)
    → Kept env t (set_ifaces env.iw_bin (on_off enabled) ws next)
unfolding set_ifaces on_off
set_ifaces-Kept env enabled [] next t p h g = g t h
set_ifaces-Kept env enabled (w ∷ more) next t p h g = λ r. (
  set_power_save w enabled p.0 refl refl,
  set_ifaces-Kept env enabled more next
      (add_event t (ran env.iw_bin ("dev" ∷ w ∷ "set" ∷ "power_save" ∷ on_off enabled ∷ []) r)) p.1
      (omega arith) g,
)

read_live-Keeps :
    (env : Env) (ws : List String) (t : Tally)
    → Ifaces ws
    → t.time ≤ sleep_limit
    → Keeps (watch env) InTime t (read_live env.iw_bin ws)
unfolding read_live
read_live-Keeps env [] t p h = h
read_live-Keeps env (w ∷ more) t p h = λ r. (
  get_power_save w p.0 refl refl,
  by_state r (live_state r) (
      read_live-Keeps env more
        (add_event t (ran env.iw_bin ("dev" ∷ w ∷ "get" ∷ "power_save" ∷ []) r)) p.1 (omega arith)),
)
  where
    by_state :
        (r : Result String String) (o : Option Bool)
        → Keeps
            (watch env)
            InTime
            (add_event t (ran env.iw_bin ("dev" ∷ w ∷ "get" ∷ "power_save" ∷ []) r))
            (read_live env.iw_bin more)
        → Keeps
            (watch env)
            InTime
            (add_event t (ran env.iw_bin ("dev" ∷ w ∷ "get" ∷ "power_save" ∷ []) r))
            (elim o as (λ x. Program (Option Bool)) [
              | none ↦ read_live env.iw_bin more
              | some b ↦ ret (some b)
            ])
    by_state r none k = k
    by_state r (some b) k = omega arith

power_save_outcome-Fits :
    (enabled : Bool) (o : Option Bool) (t : Tally)
    → t.time ≤ sleep_limit
    → Fits t (power_save_outcome enabled o)
unfolding power_save_outcome
power_save_outcome-Fits enabled none t h = h
power_save_outcome-Fits true (some true) t h = h
power_save_outcome-Fits false (some false) t h = h
power_save_outcome-Fits true (some false) t h = h
power_save_outcome-Fits false (some true) t h = h

apply_saved-Kept :
    (env : Env) (enabled : Bool) (r : Result String (Unit {0})) (t : Tally)
    → t.time ≤ sleep_limit
    → Kept env t (apply_saved env enabled r)
unfolding apply_saved has
apply_saved-Kept env enabled (err e) t h =
    λ r. ((".99-disable-powersave.tmp", refl, refl), omega arith)
apply_saved-Kept env enabled (ok u) t h = λ r. (
  ("psm", refl, refl),
  set_ifaces-Kept env enabled psm_ifaces _ _ (refl, (refl, (refl, (refl, tt)))) (omega arith)
      λ v k.
        bind-Keeps (watch env) InTime Fits (read_live env.iw_bin ("wlan0" ∷ "wlan2" ∷ [])) _ v
          (read_live-Keeps env ("wlan0" ∷ "wlan2" ∷ []) v (refl, (refl, tt)) k)
          (λ x o i. power_save_outcome-Fits enabled o x i),
)

pub wifi_power_save-Kept :
    (env : Env) (params : Fields) → Kept env fresh_tally (wifi_power_save env params)
unfolding wifi_power_save
wifi_power_save-Kept env params = checked-Kept env (boolean_param params "enabled") _ λ enabled e.
    bind-Keeps (watch env) InTime Fits (save_script env.hotplug_dir enabled)
      (apply_saved env enabled) fresh_tally (save_script-Keeps env enabled)
      (λ t r h. apply_saved-Kept env enabled r t h)
