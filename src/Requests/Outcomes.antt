-- ===== src/Requests/Outcomes.antt =====
-- What a job leaves behind by its outcome, and what its answer says (rust/src/server/write.rs, with the
-- runs of rust/src/control.rs).
use zte_u60_pro_mu5250_data.Common.{
  ℕ, ◌≤◌, String, str_eq, Bool, true, false, not, ◌&&◌, Option, none, some, List, ◌∷◌, ◌++◌,
  if◌then◌else◌, ◌≡◌, ◌↔◌, ◌≢◌, refl, ◌∙◌, arith,
}
use zte_u60_pro_mu5250_data.Engine.Sessions.{has}
use zte_u60_pro_mu5250_data.Json.{Fields}
use zte_u60_pro_mu5250_data.Control.Params.{Outcome, not_handled, invalid, failed, done}
use zte_u60_pro_mu5250_data.Control.Wifi.{Env}
use zte_u60_pro_mu5250_data.Control.Execute.{execute, old_actions, e4_actions}
use zte_u60_pro_mu5250_data.Control.Runs.{Event, Run}
use zte_u60_pro_mu5250_data.Control.Permitted.{handled_iff}
use zte_u60_pro_mu5250_data.Requests.Actions.{params_of, read_only, blocks_for_action}
use zte_u60_pro_mu5250_data.Requests.Routes.{Reply, good, error, status}
use zte_u60_pro_mu5250_data.Requests.Handling.{
  Served, task_reply, set_interval, milliseconds, ended, marked, job_end,
}

abbrev is_good : Reply → Bool
is_good good = true
is_good (error code name) = false

ended_lem :
    (deadline : ℕ) (action : String) (body : Fields) (r : Reply) (s : Served)
    → let s' = ended deadline action body r s in
      (s'.engine ≡ s.engine) × (s'.interval_ms ≡ s.interval_ms) × (s'.marks ≡ s.marks)
unfolding ended
ended_lem deadline action body r s = ground arith

marked_lem :
    (action : String) (r : Reply) (s : Served)
    → let s' = marked action r s in
      (s'.engine ≡ s.engine)
      × (s'.interval_ms ≡ s.interval_ms)
      × (s'.marks ≡ (
          if is_good r && not (read_only action)
          then blocks_for_action action ∷ s.marks
          else s.marks))
unfolding marked
marked_lem action good s = ground arith
marked_lem action (error code name) s = ground arith

set_interval_lem :
    (o : Option ℕ) (s : Served)
    → 500 ≤ s.interval_ms
    → s.interval_ms ≤ 5000
    → let s' = (set_interval o s).0 in
      (500 ≤ s'.interval_ms)
      × (s'.interval_ms ≤ 5000)
      × (s'.engine ≡ s.engine)
      × (s'.marks ≡ s.marks)
unfolding set_interval
set_interval_lem none s h k = ground arith
set_interval_lem (some ms) s h k = ground arith

task_reply_lem :
    (action : String) (body : Fields) (out : Outcome) (s : Served)
    → 500 ≤ s.interval_ms
    → s.interval_ms ≤ 5000
    → let s' = (task_reply action body out s).0 in
      (500 ≤ s'.interval_ms)
      × (s'.interval_ms ≤ 5000)
      × (s'.engine ≡ s.engine)
      × (s'.marks ≡ s.marks)
unfolding task_reply
task_reply_lem action body (done v) s h k = ground arith
task_reply_lem action body (invalid e) s h k = ground arith
task_reply_lem action body (failed e) s h k = ground arith
task_reply_lem action body not_handled s h k =
    ground (arith, set_interval_lem (milliseconds (params_of body)) s h k)

-- Whatever an action came to, its job leaves the sampling interval within 500 and 5000 ms if it was so,
-- and asks for blocks to be read at once exactly if it answers 200 and the action changes something.
pub job_end-bounds :
    (deadline : ℕ) (action : String) (body : Fields) (out : Outcome) (s : Served)
    → 500 ≤ s.interval_ms
    → s.interval_ms ≤ 5000
    → let (s', r) = job_end deadline action body out s in
      (500 ≤ s'.interval_ms)
      × (s'.interval_ms ≤ 5000)
      × (s'.marks ≡ (
          if is_good r && not (read_only action)
          then blocks_for_action action ∷ s.marks
          else s.marks))
unfolding job_end
job_end-bounds deadline action body out s h k =
    let r = (task_reply action body out s).1 in
    let s1 = (task_reply action body out s).0 in
    ground (
      arith,
      task_reply_lem action body out s h k,
      ended_lem deadline action body r s1,
      marked_lem action r (ended deadline action body r s1),
    )

task_engine :
    (action : String) (body : Fields) (out : Outcome) (s : Served)
    → (task_reply action body out s).0.engine ≡ s.engine
unfolding task_reply set_interval
task_engine action body (done v) s = refl
task_engine action body (invalid e) s = refl
task_engine action body (failed e) s = refl
task_engine action body not_handled s =
    by_name (str_eq action "state.set_interval") (milliseconds (params_of body))
  where
    by_name :
        (b : Bool) (o : Option ℕ)
        → (if b then set_interval o s else (s, error 404 "unknown_action")).0.engine ≡ s.engine
    by_name false o = refl
    by_name true none = refl
    by_name true (some ms) = ground arith

pub job_end-engine :
    (deadline : ℕ) (action : String) (body : Fields) (out : Outcome) (s : Served)
    → (job_end deadline action body out s).0.engine ≡ s.engine
unfolding job_end
job_end-engine deadline action body out s =
    let r = (task_reply action body out s).1 in
    let s1 = (task_reply action body out s).0 in
    (marked_lem action r (ended deadline action body r s1)).0
    ∙ (ended_lem deadline action body r s1).0
    ∙ task_engine action body out s

set_interval_known : (o : Option ℕ) (s : Served) → status (set_interval o s).1 ≢ 404
unfolding set_interval
set_interval_known none s = omega arith
set_interval_known (some ms) s = ground arith

unknown_outcome :
    (deadline : ℕ) (action : String) (body : Fields) (out : Outcome) (s : Served)
    → (status (job_end deadline action body out s).1 ≡ 404)
      ↔ ((out ≡ not_handled) × (str_eq action "state.set_interval" ≡ false))
unfolding job_end task_reply
unknown_outcome deadline action body (done v) s = (λ e. absurd (omega arith), λ e. cc (e.0))
unknown_outcome deadline action body (invalid v) s = (λ e. absurd (omega arith), λ e. cc (e.0))
unknown_outcome deadline action body (failed v) s = (λ e. absurd (omega arith), λ e. cc (e.0))
unknown_outcome deadline action body not_handled s = by_name (str_eq action "state.set_interval")
  where
    by_name :
        (b : Bool)
        → (status
              (if b
                then set_interval (milliseconds (params_of body)) s
                else (s, error 404 "unknown_action")).1
            ≡ 404)
          ↔ ((not_handled ≡ not_handled) × (b ≡ false))
    by_name true =
        (λ e. absurd (set_interval_known (milliseconds (params_of body)) s e), λ e. cc (e.1))
    by_name false = (λ e. (refl, refl), λ e. refl)

-- A job answers 404 exactly if its action is in neither list and is not `state.set_interval`.
pub unknown_iff :
    (env : Env) (deadline : ℕ) (action : String) (body : Fields) (es : List Event) (out : Outcome)
    (s : Served)
    → Run (execute env action (params_of body)) es out
    → (status (job_end deadline action body out s).1 ≡ 404) ↔ (
        (has (old_actions ++ e4_actions) action ≡ false)
        × (str_eq action "state.set_interval" ≡ false))
unknown_iff env deadline action body es out s r =
    let u = unknown_outcome deadline action body out s in
    let h = handled_iff env action (params_of body) es out r in
    (λ e. (h.0 (u.0 e).0, (u.0 e).1), λ e. u.1 (h.1 e.0, e.1))
