-- ===== src/Control/Permitted.antt =====
-- Whatever a client sends and the device answers, an action makes no call, runs no command and touches
-- no file that is not listed, and changes nothing if it calls its parameters invalid
-- (rust/src/control.rs).
pub mod Network
pub mod Power
mod Radios
mod Options
pub mod Wifi
pub mod Files
pub mod Vendor
pub mod Arms
use zte_u60_pro_mu5250_data.Common.{
  ℕ, ◌+◌, ◌≤◌, String, str_eq, str_eq_iff, Bool, true, false, ◌||◌, ◌&&◌, List, [], ◌∷◌, ◌++◌, ◌≡◌,
  refl, arith, inl, inr, Bool-cases, if◌then◌else◌, ◌↔◌, subst, sym, ◌∙◌,
}
use zte_u60_pro_mu5250_data.Engine.Sessions.{has}
use zte_u60_pro_mu5250_data.Json.{Json, Fields}
use zte_u60_pro_mu5250_data.Control.Program.{ret}
use zte_u60_pro_mu5250_data.Control.Params.{
  Outcome, not_handled, invalid, failed, done, mapped_call,
}
use zte_u60_pro_mu5250_data.Control.Wifi.{Env}
use zte_u60_pro_mu5250_data.Control.Execute.{Arm, arms, choose, execute, old_actions, e4_actions}
use zte_u60_pro_mu5250_data.Control.Runs.{Event, Run, ends, run_lem, Watched, after}
use zte_u60_pro_mu5250_data.Control.Listed.{
  May, section_told, changes, time_of, Kept, Tally, fresh_tally, add_event, sleep_limit, may_call,
  watch, write_call-Kept, Fits,
}
use zte_u60_pro_mu5250_data.Control.Permitted.Arms.{
  names, named, AllKept, arms-AllKept, choose-Kept, choose-none,
}

-- Each of the events may happen, the device having named the sections `told` before.
abbrev pub AllMay : Env → List String → List Event → Type 0
AllMay env told [] = Unit
AllMay env told (e ∷ es) = May env told e × AllMay env (section_told e ++ told) es

abbrev pub any_change : List Event → Bool
any_change [] = false
any_change (e ∷ es) = changes e || any_change es

abbrev pub total_time : List Event → ℕ
total_time [] = 0
total_time (e ∷ es) = time_of e + total_time es

Watched-AllMay :
    (env : Env) (t : Tally) (es : List Event) → Watched (watch env) t es → AllMay env t.told es
Watched-AllMay env t [] w = tt
Watched-AllMay env t (e ∷ es) w = (w.0, Watched-AllMay env (add_event t e) es w.1)

or_assoc : (a b c : Bool) → (a || b) || c ≡ a || (b || c)
or_assoc true b c = refl
or_assoc false b c = refl

tallied :
    (env : Env) (t : Tally) (es : List Event)
    → ((after (watch env) t es).changed ≡ t.changed || any_change es)
      × ((after (watch env) t es).time ≡ t.time + total_time es)
tallied env t [] = (ground arith, omega arith)
tallied env t (e ∷ es) =
    let (c, n) = tallied env (add_event t e) es in
    (c ∙ or_assoc t.changed (changes e) (any_change es), omega arith)

Fits-time : (t : Tally) (out : Outcome) → Fits t out → t.time ≤ sleep_limit
Fits-time t not_handled h = absurd h
Fits-time t (invalid e) h = h.1
Fits-time t (failed e) h = h
Fits-time t (done v) h = h

-- What an action of the lists leaves behind in any of its runs.
kept_run :
    (env : Env) (action : String) (params : Fields) (es : List Event) (out : Outcome)
    → has (old_actions ++ e4_actions) action ≡ true
    → Run (execute env action params) es out
    → Watched (watch env) fresh_tally es × Fits (after (watch env) fresh_tally es) out
unfolding execute
kept_run env action params es out h r =
    run_lem (watch env) Fits fresh_tally
      (choose-Kept env params action arms (arms-AllKept env params) (named action ∙ h)) r

at_once :
    {es : List Event} {out : Outcome}
    → Run (ret not_handled) es out
    → (es ≡ []) × (out ≡ not_handled)
at_once ends = (refl, refl)

-- An action of neither list does nothing.
unknown_run :
    (env : Env) (action : String) (params : Fields) (es : List Event) (out : Outcome)
    → has (old_actions ++ e4_actions) action ≡ false
    → Run (execute env action params) es out
    → (es ≡ []) × (out ≡ not_handled)
unfolding execute
unknown_run env action params es out h r =
    at_once (subst (λ p. Run p es out) (choose-none env params action arms (named action ∙ h)) r)

-- Whatever the action, its parameters and the answers, the calls of the device that an action itself
-- makes are among `read_calls`, `write_calls` and `vendor_calls`; the commands that it runs are the two
-- fixed scripts of `sh`, a deletion of rows by ids of digits, the setting by `uci` of one of
-- `ap_options` of an access point, or of one of `radio_options` in the section `wifi0` or `wifi1`, one
-- found earlier or one that a reply to `uci get` named before it in the run, `uci commit` and
-- `uci revert` of `wireless`, and `iw` on the four interfaces; and the files that it touches are those
-- of the hotplug script. AT commands, the two short-message actions and sleeps are not restricted.
pub execute-AllMay :
    (env : Env) (action : String) (params : Fields) (es : List Event) (out : Outcome)
    → Run (execute env action params) es out
    → AllMay env [] es
execute-AllMay env action params es out r =
    elim (Bool-cases (has (old_actions ++ e4_actions) action)) [
      | inl h ↦ Watched-AllMay env fresh_tally es (kept_run env action params es out h r).0
      | inr h ↦ subst (AllMay env []) (sym (unknown_run env action params es out h r).0) tt
    ]

-- An action that calls its parameters invalid has changed nothing: all that it asked before were
-- readings, or what it handed to the two actions for short messages.
pub invalid_unchanged :
    (env : Env) (action : String) (params : Fields) (es : List Event) (e : String)
    → Run (execute env action params) es (invalid e)
    → any_change es ≡ false
invalid_unchanged env action params es e r =
    elim (Bool-cases (has (old_actions ++ e4_actions) action)) [
      | inl h ↦
          sym (tallied env fresh_tally es).0 ∙ (kept_run env action params es (invalid e) h r).1.0
      | inr h ↦ let x = (unknown_run env action params es (invalid e) h r).1 in cc x
    ]

-- An action is answered as not handled exactly if it is in neither `ACTIONS` nor `E4_ACTIONS`, in every
-- one of its runs.
pub handled_iff :
    (env : Env) (action : String) (params : Fields) (es : List Event) (out : Outcome)
    → Run (execute env action params) es out
    → (out ≡ not_handled) ↔ (has (old_actions ++ e4_actions) action ≡ false)
handled_iff env action params es out r = (
  λ e. elim (Bool-cases (has (old_actions ++ e4_actions) action)) [
    | inl h ↦ absurd (
        subst (Fits (after (watch env) fresh_tally es)) e (kept_run env action params es out h r).1)
    | inr h ↦ h
  ],
  λ h. (unknown_run env action params es out h r).1,
)
