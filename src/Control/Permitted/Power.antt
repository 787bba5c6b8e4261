-- ===== src/Control/Permitted/Power.antt =====
-- The readings that confirm a change of the power supply or of the USB-C port come to an end: both
-- actions ask for nothing that is not listed, and how long they sleep themselves (rust/src/control.rs).
use zte_u60_pro_mu5250_data.Common.{
  ℕ, zero, suc, ◌+◌, ◌*◌, ◌≤◌, String, str_eq, Bool, true, false, ◌||◌, Option, none, some,
  if◌then◌else◌, Result, ok, err, ◌≡◌, refl, arith,
}
use zte_u60_pro_mu5250_data.Executor.Calls.{UbusError}
use zte_u60_pro_mu5250_data.Json.{Json, Fields, empty_object}
use zte_u60_pro_mu5250_data.Control.Program.{Program, ret, ubus, as_text, ◌>>=◌}
use zte_u60_pro_mu5250_data.Control.Params.{
  Outcome, failed, string_param, write_call, write_outcome,
}
use zte_u60_pro_mu5250_data.Control.Power.{
  direct_supply, direct_supply_enabled, mode_of, mode_name, supply_mode, switch_supply,
  confirm_supply, confirmed, write_failed, poll_until, shows_mode,
}
use zte_u60_pro_mu5250_data.Control.Usb.{
  UsbMode, share, fast_charge, accessory, usb_attach_mode, wanted_mode, usb_attach, remembered_of,
  if_plugged, is_plugged, by_mode, share_port, is_device, keep_host, has_adapter, swap_role,
  start_charging, is_charging, state_query, answers, verified_as, unless_failed, usb_done,
}
use zte_u60_pro_mu5250_data.Control.Params.{not_handled, invalid, done}
use zte_u60_pro_mu5250_data.Control.Wifi.{Env}
use zte_u60_pro_mu5250_data.Control.Runs.{Keeps, bind-Keeps, called, slept}
use zte_u60_pro_mu5250_data.Control.Listed.{
  Kept, Tally, fresh_tally, add_event, sleep_limit, may_call, watch, write_outcome-Fits,
  read_then-Kept, if-Kept, checked-Kept, Fits,
}

abbrev pub Within : ℕ → Tally → Bool → Type 0
Within bound t b = t.time ≤ bound

stop_or-Within :
    (env : Env) (bound : ℕ) (rest : Program Bool) (t : Tally) (b : Bool)
    → t.time ≤ bound
    → Keeps (watch env) (Within bound) t rest
    → Keeps (watch env) (Within bound) t (if b then ret true else rest)
stop_or-Within env bound rest t true h k = h
stop_or-Within env bound rest t false h k = k

one_less : (n ms time bound : ℕ) → time + suc n * ms ≤ bound → time + ms + 0 + n * ms ≤ bound
one_less n ms time bound h = grind arith

-- `tries` readings, each after a pause.
poll_again-Within :
    (env : Env) (bound ms : ℕ) (o m : String) (args : Json) (tries : ℕ)
    (test : Result String Json → Bool) (t : Tally)
    → may_call o m ≡ true
    → t.time + tries * ms ≤ bound
    → Keeps (watch env) (Within bound) t (poll_until false ms o m args tries test)
unfolding poll_until ubus ◌>>=◌
poll_again-Within env bound ms o m args zero test t p h = omega arith
poll_again-Within env bound ms o m args (suc n) test t p h =
    let h' = one_less n ms t.time bound h in
    (
      tt,
      λ r. (
        p,
        stop_or-Within env bound (poll_until false ms o m args n test)
            (add_event (add_event t (slept ms)) (called o m args r)) (test (as_text r))
            (omega arith)
            (poll_again-Within env bound ms o m args n test
              (add_event (add_event t (slept ms)) (called o m args r)) p h'),
      ),
    )

-- The first reading comes without a pause.
pub poll_until-Within :
    (env : Env) (bound ms : ℕ) (o m : String) (args : Json) (n : ℕ)
    (test : Result String Json → Bool) (t : Tally)
    → may_call o m ≡ true
    → t.time + n * ms ≤ bound
    → Keeps (watch env) (Within bound) t (poll_until true ms o m args (suc n) test)
unfolding poll_until ubus ◌>>=◌
poll_until-Within env bound ms o m args n test t p h = λ r. (
  p,
  stop_or-Within env bound (poll_until false ms o m args n test) (add_event t (called o m args r))
      (test (as_text r)) (omega arith)
      (poll_again-Within env bound ms o m args n test (add_event t (called o m args r)) p
        (omega arith)),
)

confirmed-Fits :
    (env : Env) (wanted : Bool) (t : Tally) (b : Bool)
    → t.time ≤ 400
    → Kept env t (confirmed wanted b)
unfolding confirmed
confirmed-Fits env wanted t true h = omega arith
confirmed-Fits env wanted t false h = omega arith

confirm_supply-Kept :
    (env : Env) (wanted : Bool) (r : Result UbusError Json) (t : Tally)
    → t.time ≤ 0
    → Kept env t (confirm_supply wanted r)
unfolding confirm_supply may_call
confirm_supply-Kept env wanted r t h =
    if-Kept env t _ _ (write_failed r) (λ e. omega arith)
      λ e.
        bind-Keeps (watch env) (Within 400) Fits
          (poll_until true 100 "zwrt_bsp.charger" "list" empty_object 5 (shows_mode wanted))
          (confirmed wanted) t
          (poll_until-Within env 400 100 "zwrt_bsp.charger" "list" empty_object 4
            (shows_mode wanted) t refl (omega arith))
          (λ u b k. confirmed-Fits env wanted u b k)

supply_mode-Kept :
    (env : Env) (wanted : Bool) (mode : Option String) (t : Tally)
    → t.time ≤ 0
    → Kept env t (supply_mode wanted mode)
unfolding supply_mode switch_supply may_call
supply_mode-Kept env wanted none t h = omega arith
supply_mode-Kept env wanted (some mode) t h =
    if-Kept env t _ _ (str_eq mode "enable" || str_eq mode "disable")
      (λ e.
        if-Kept env t _ _ (str_eq mode (mode_name wanted)) (λ k. omega arith)
          (λ k r. (refl, confirm_supply-Kept env wanted r _ (omega arith))))
      (λ e. omega arith)

pub direct_supply-Kept : (env : Env) (params : Fields) → Kept env fresh_tally (direct_supply params)
unfolding direct_supply may_call
direct_supply-Kept env params = checked-Kept env (direct_supply_enabled params) _ λ wanted e.
    read_then-Kept env fresh_tally "zwrt_bsp.charger" "list" empty_object
      (λ v. supply_mode wanted (mode_of v)) refl (omega arith)
      (λ x r. supply_mode-Kept env wanted (mode_of x) _ (omega arith))

verified_as-Fits :
    (env : Env) (u : UsbMode) (message : String) (t : Tally) (b : Bool)
    → t.time ≤ sleep_limit
    → Kept env t (verified_as u message b)
unfolding verified_as usb_done
verified_as-Fits env u message t true h = h
verified_as-Fits env u message t false h = h

-- A write, and a readback with at most `n` pauses of 200 ms.
written-Kept :
    (env : Env) (r : Result UbusError Json) (u : UsbMode) (message o m : String) (args : Json)
    (n : ℕ) (test : Json → Bool) (t : Tally)
    → may_call o m ≡ true
    → t.time + n * 200 ≤ sleep_limit
    → Kept env t (
        unless_failed
          (write_outcome r)
          (poll_until true 200 o m args (suc n) (answers test) >>= verified_as u message))
unfolding unless_failed
written-Kept env r u message o m args n test t p h =
    by_outcome (write_outcome r) (write_outcome-Fits t r (omega arith))
  where
    polled :
        Kept env t (poll_until true 200 o m args (suc n) (answers test) >>= verified_as u message)
    polled =
        bind-Keeps (watch env) (Within sleep_limit) Fits
          (poll_until true 200 o m args (suc n) (answers test)) (verified_as u message) t
          (poll_until-Within env sleep_limit 200 o m args n (answers test) t p h)
          (λ v b k. verified_as-Fits env u message v b k)

    by_outcome :
        (x : Outcome)
        → Fits t x
        → Kept env t (
            unless_failed x
              (poll_until true 200 o m args (suc n) (answers test) >>= verified_as u message))
    by_outcome not_handled f = polled
    by_outcome (invalid e) f = polled
    by_outcome (failed e) f = f
    by_outcome (done v) f = polled

swap_role-Kept : (env : Env) (t : Tally) → t.time ≤ 0 → Kept env t swap_role
unfolding swap_role write_call ◌>>=◌ may_call
swap_role-Kept env t h = λ r. (
  refl,
  written-Kept env r share _ "zwrt_bsp.typec" "list" empty_object 14 is_device _ refl (omega arith),
)

share_port-Kept :
    (env : Env) (remembered : Bool) (typec : Json) (t : Tally)
    → t.time ≤ 0
    → Kept env t (share_port remembered typec)
unfolding share_port keep_host may_call usb_done
share_port-Kept env remembered typec t h =
    if-Kept env t _ _ (is_device typec) (λ e. omega arith)
      λ e.
        if-Kept env t _ _ remembered
          (λ k.
            read_then-Kept env t "zwrt_bsp.usb" "list" empty_object keep_host refl (omega arith)
              λ x r.
                if-Kept env _ _ _ (has_adapter x) (λ i. omega arith)
                  (λ i. swap_role-Kept env _ (omega arith)))
          (λ k. swap_role-Kept env t h)

start_charging-Kept :
    (env : Env) (v : Json) (t : Tally) → t.time ≤ 0 → Kept env t (start_charging v)
unfolding start_charging write_call ◌>>=◌ may_call usb_done
start_charging-Kept env v t h =
    if-Kept env t _ _ (is_charging v) (λ e. omega arith)
      λ e r. (
        refl,
        written-Kept env r fast_charge _ "zwrt_bsp.powerbank" "get" state_query 9 is_charging _ refl
            (omega arith),
      )

by_mode-Kept :
    (env : Env) (u : UsbMode) (remembered : Bool) (typec : Json) (t : Tally)
    → t.time ≤ 0
    → Kept env t (by_mode u remembered typec)
unfolding by_mode may_call usb_done
by_mode-Kept env accessory remembered typec t h = omega arith
by_mode-Kept env share remembered typec t h = share_port-Kept env remembered typec t h
by_mode-Kept env fast_charge remembered typec t h =
    read_then-Kept env t "zwrt_bsp.powerbank" "get" state_query start_charging refl (omega arith)
      (λ x r. start_charging-Kept env x _ (omega arith))

usb_attach-Kept :
    (env : Env) (u : UsbMode) (r : Result String Bool) → Kept env fresh_tally (usb_attach u r)
unfolding usb_attach if_plugged may_call
usb_attach-Kept env u (err e) = (refl, omega arith)
usb_attach-Kept env u (ok remembered) =
    read_then-Kept env fresh_tally "zwrt_bsp.typec" "list" empty_object (if_plugged u remembered)
      refl (omega arith)
      λ x r.
        if-Kept env _ _ _ (is_plugged x) (λ e. by_mode-Kept env u remembered x _ (omega arith))
          (λ e. omega arith)

pub usb_attach_mode-Kept :
    (env : Env) (params : Fields) → Kept env fresh_tally (usb_attach_mode params)
unfolding usb_attach_mode
usb_attach_mode-Kept env params =
    checked-Kept env (wanted_mode (string_param params "mode" true)) _
      λ u e. usb_attach-Kept env u (remembered_of params)
