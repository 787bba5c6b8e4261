-- ===== src/Requests/Handling.antt =====
-- `handle` and `control_job` (rust/src/server/write.rs), cut where they wait: what is decided at once,
-- what follows if the executor's queue is full, and the job before and after the action itself. The
-- start of datad, the answer of the executor and the outcome of the action are arguments.
use zte_u60_pro_mu5250_data.Common.{
  ℕ, String, str_eq, Bool, true, false, ◌&&◌, ◌||◌, not, Option, none, some, is_some, List, [], ◌∷◌,
  ◌++◌, leb, if◌then◌else◌, Result, ok, err,
}
use zte_u60_pro_mu5250_data.Txn.Types.{Source, Txn}
use zte_u60_pro_mu5250_data.Engine.State.{World}
use zte_u60_pro_mu5250_data.Engine.Active.{
  other_write, preempt, legacy_gate, LegacyGate, pass, queue_it,
}
use zte_u60_pro_mu5250_data.Engine.Legacy.{clear_legacy, enqueue_legacy}
use zte_u60_pro_mu5250_data.Engine.Submit.{Spec, Request}
use zte_u60_pro_mu5250_data.Json.{Fields, get, as_u64}
use zte_u60_pro_mu5250_data.Control.Params.{Outcome, not_handled, invalid, failed, done}
use zte_u60_pro_mu5250_data.Requests.Actions.{
  find_spec, target, is_safety, affects_network, read_only, writes, is_power_off, ends_device,
  blocks_for_action, params_of, source_or_legacy,
}
use zte_u60_pro_mu5250_data.Requests.Routes.{
  Reply, good, error, invalid_parameter, Route, answer, journal, submit, go_on, JournalCall,
  ops_route,
}

-- What `handle` comes to: an answer; a call of the journal; `submit`; or the action as a job of the
-- executor, with what it falls back on if the queue is full.
pub data Decision : Type 0 where
  reply : Reply → Decision
  journal_call : JournalCall → Decision
  submit_change : Request → Option String → Decision
  run_job : Bool → Option String → Decision

abbrev queue_full : Reply
queue_full = error 503 "busy"

unfoldable pub described : Option Spec → Result String String → Option String
described (some spec) (ok t) = some spec.item
described _ _ = none

-- The item of an old request of a described action with a valid target.
unfoldable pub legacy_item : ℕ → String → Fields → Option String
unfolding described
legacy_item deadline action body =
    if is_some (get body "source")
    then none
    else described (find_spec deadline action) (target (params_of body))

unfoldable pub before_job : String → World Fields → World Fields
before_job action w = if is_power_off action then clear_legacy action w else w

unfoldable pub after_gate :
    String → Fields → ℕ → Option String → Bool → World Fields × LegacyGate → World Fields × Decision
after_gate action params now item safety (w, pass) = (before_job action w, run_job safety item)
after_gate action params now (some item) safety (w, queue_it) =
    (enqueue_legacy item action params now w, reply good)
after_gate action params now none safety (w, queue_it) = (w, reply good)

unfoldable pub let_through : ℕ → String → Fields → ℕ → World Fields → World Fields × Decision
let_through deadline action body now w =
    let params = params_of body in
    let safety = is_safety action params in
    let item = legacy_item deadline action body in
    if is_some (get body "source")
    then (before_job action (if safety then preempt now w else w), run_job safety item)
    else after_gate action params now item safety (legacy_gate item safety now w)

unfoldable pub of_route :
    (World Fields → World Fields × Decision) → World Fields × Route → World Fields × Decision
of_route next (w, answer r) = (w, reply r)
of_route next (w, journal c) = (w, journal_call c)
of_route next (w, submit req id) = (w, submit_change req id)
of_route next (w, go_on) = next w

-- `handle` up to its wait for the executor.
unfoldable pub handle :
    ℕ → String → Bool → String → Fields → ℕ → World Fields → World Fields × Decision
unfolding before_job after_gate let_through of_route
handle deadline fresh ready action body now w =
    if not ready
    then (w, reply queue_full)
    else of_route (let_through deadline action body now)
        (ops_route deadline fresh action body now w)

-- What the executor's refusal comes to: the job after all, or an answer.
pub data Fallback : Type 0 where
  internal_task : Fallback
  refuse : Reply → Fallback

-- `Err(Busy)` in `handle`
unfoldable pub on_busy :
    Bool → Option String → String → Fields → ℕ → World Fields → World Fields × Fallback
on_busy true item action body now w = (w, internal_task)
on_busy false none action body now w = (w, refuse queue_full)
on_busy false (some item) action body now w =
    (enqueue_legacy item action (params_of body) now w, refuse good)

-- A line of the journal that a job writes, and the owner of an item.
pub data JobLine : Type 0 where
  requested : Source → JobLine
  went_well : Source → JobLine
  went_wrong : Source → ℕ → JobLine
  owned : String → Source → JobLine

-- The parts of the program that a job touches: the engine, the sampling interval, the blocks to read at
-- once (`none` for all), the journal.
pub record Served : Type 0 where
  pub engine : World Fields
  pub interval_ms : ℕ
  pub marks : List (Option (List String))
  pub lines : List JobLine

unfoldable pub gate_reply : World Fields × Result Txn (Unit {0}) → World Fields × Option Reply
gate_reply (w, ok u) = (w, none)
gate_reply (w, err t) = (w, some (error 409 "op_busy"))

-- `other_write_gate`
unfoldable pub other_write_gate : String → Fields → ℕ → World Fields → World Fields × Option Reply
unfolding gate_reply
other_write_gate action body now w =
    let params = params_of body in
    if is_safety action params || not (affects_network action params)
    then (w, none)
    else gate_reply (other_write (source_or_legacy body) now w)

-- `JournalWrite::new` on an action that writes.
unfoldable keeps_journal : String → Bool
keeps_journal action = writes action && not (str_eq action "sms.mark_read")

unfoldable pub add_line : Served → JobLine → Served
add_line s l = record s { lines = l ∷ s.lines }

unfoldable pub begun : String → Fields → Served → Served
unfolding keeps_journal
begun action body s =
    if keeps_journal action && ends_device action (params_of body)
    then add_line s (requested (source_or_legacy body))
    else s

unfoldable pub let_begin :
    String → Fields → Served → World Fields × Option Reply → Served × Option Reply
let_begin action body s (w, some r) = (record s { engine = w }, some r)
let_begin action body s (w, none) = (begun action body (record s { engine = w }), none)

-- `control_job` up to the action: an answer, or the action is run.
unfoldable pub job_begin : String → Fields → ℕ → Served → Served × Option Reply
unfolding add_line begun let_begin
job_begin action body now s =
    if writes action
    then let_begin action body s (other_write_gate action body now s.engine)
    else (s, none)

unfoldable pub set_interval : Option ℕ → Served → Served × Reply
set_interval none s = (s, invalid_parameter)
set_interval (some ms) s =
    if leb 500 ms && leb ms 5000
    then (record s { interval_ms = ms }, good)
    else (s, invalid_parameter)

unfoldable pub milliseconds : Fields → Option ℕ
milliseconds params = elim (get params "milliseconds") [ none ↦ none | some v ↦ as_u64 v ]

-- `control_task`, given what the action came to.
unfoldable pub task_reply : String → Fields → Outcome → Served → Served × Reply
unfolding set_interval milliseconds
task_reply action body (done v) s = (s, good)
task_reply action body (invalid e) s = (s, invalid_parameter)
task_reply action body (failed e) s = (s, error 502 "device_call_failed")
task_reply action body not_handled s =
    if str_eq action "state.set_interval"
    then set_interval (milliseconds (params_of body)) s
    else (s, error 404 "unknown_action")

-- The owner of the item of a described action.
unfoldable owner_lines : ℕ → String → Fields → List JobLine
owner_lines deadline action body =
    elim (described (find_spec deadline action) (target (params_of body))) [
      | none ↦ []
      | some item ↦ owned item (source_or_legacy body) ∷ []
    ]

unfoldable write_lines : ℕ → String → Fields → Reply → List JobLine
write_lines deadline action body good = elim (owner_lines deadline action body) [
  | [] ↦ went_well (source_or_legacy body) ∷ []
  | l ∷ more ↦ l ∷ went_well (source_or_legacy body) ∷ []
]
write_lines deadline action body (error code name) = went_wrong (source_or_legacy body) code ∷ []

unfoldable pub ended : ℕ → String → Fields → Reply → Served → Served
unfolding keeps_journal write_lines owner_lines
ended deadline action body r s =
    if keeps_journal action && not (ends_device action (params_of body))
    then record s { lines = write_lines deadline action body r ++ s.lines }
    else s

unfoldable pub marked : String → Reply → Served → Served
marked action (error code name) s = s
marked action good s =
    if read_only action then s else record s { marks = blocks_for_action action ∷ s.marks }

-- `control_job` after the action, with its answer.
unfoldable pub job_end : ℕ → String → Fields → Outcome → Served → Served × Reply
unfolding owner_lines write_lines ended marked described
job_end deadline action body out s =
    let (s', r) = task_reply action body out s in
    (marked action r (ended deadline action body r s'), r)
