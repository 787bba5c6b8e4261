-- ===== src/Requests/Routes.antt =====
-- `ops_route` (rust/src/server/write.rs): the requests about changes, the journal and sessions, and the
-- writes with a source that go through a transaction. An answer is its status with the code of its
-- error; the texts and the views for clients are left out. The two steps of `submit` come after it.
use text.Mathlib.Text.{starts_with}
use zte_u60_pro_mu5250_data.Common.{
  ℕ, String, str_eq, is_empty, Bool, true, false, ◌||◌, Option, none, some, is_some, unwrap_or, max,
  min, if◌then◌else◌, Result, ok, err,
}
use zte_u60_pro_mu5250_data.Txn.Types.{Source, screen, web}
use zte_u60_pro_mu5250_data.Engine.State.{World}
use zte_u60_pro_mu5250_data.Engine.Active.{
  ack, notice_ack, interrupt, revert_active, keep_active, Refused,
}
use zte_u60_pro_mu5250_data.Engine.Submit.{
  Spec, Request, Submit, existing, busy_session, busy, no_capture,
}
use zte_u60_pro_mu5250_data.Engine.Sessions.{
  SessionError, session_busy, txn_busy, gone, session_open, session_renew, session_close,
  session_gate, has, session_optional,
}
use zte_u60_pro_mu5250_data.Json.{Json, Fields, get, as_str, as_bool, as_str_of, as_u64}
use zte_u60_pro_mu5250_data.Requests.Actions.{
  valid_op_id, find_spec, target, is_safety, params_of, source_of,
}

-- `good` is a 200; an error has its status and its code.
pub data Reply : Type 0 where
  good : Reply
  error : ℕ → String → Reply

abbrev pub status : Reply → ℕ
status good = 200
status (error code name) = code

abbrev pub invalid_parameter : Reply
invalid_parameter = error 400 "invalid_parameter"

abbrev invalid_request : Reply
invalid_request = error 400 "invalid_request"

abbrev invalid_state : Reply
invalid_state = error 409 "invalid_state"

-- What the request asks of the journal.
pub data JournalCall : Type 0 where
  skip_call : Source → String → String → JournalCall
  append_call : Source → String → Fields → JournalCall
  list_call : ℕ → JournalCall

pub data Route : Type 0 where
  answer : Reply → Route
  journal : JournalCall → Route
  submit : Request → Option String → Route
  go_on : Route

abbrev pub Routed : Type 0
Routed = World Fields × Route

unfoldable non_empty : Option String → Option String
non_empty none = none
non_empty (some s) = if is_empty s then none else some s

unfoldable pub text_at : Fields → String → Option String
text_at params k = as_str_of (get params k)

-- A source that only a person at the screen or the web page has.
unfoldable from_person : Option Source → Option Source
from_person (some screen) = some screen
from_person (some web) = some web
from_person _ = none

unfoldable what_of : Fields → Option String
what_of params = elim (get params "item") [
  | some v ↦ non_empty (as_str v)
  | none ↦ non_empty (text_at params "action")
]

unfoldable append_result : Fields → Source → String → String → JournalCall
append_result params source result what =
    if str_eq result "skipped"
    then skip_call source what (unwrap_or (text_at params "reason") "")
    else append_call source what params

unfoldable append_parts : Fields → Option Source → Option String → Option String → Route
append_parts params (some source) (some result) (some what) =
    journal (append_result params source result what)
append_parts params _ _ _ = answer invalid_parameter

-- `journal_append`
unfoldable journal_append : Fields → Fields → Route
unfolding non_empty text_at what_of append_result append_parts
journal_append body params =
    append_parts params (source_of body) (non_empty (text_at params "result")) (what_of params)

unfoldable limit_of : Option Json → ℕ
limit_of none = 50
limit_of (some v) = unwrap_or (as_u64 v) 50

-- The limit of `journal.list`.
unfoldable list_limit : Fields → ℕ
unfolding limit_of
list_limit params = min 500 (max 1 (limit_of (get params "limit")))

unfoldable pub of_ack : World Fields × Bool → Routed
of_ack (w, true) = (w, answer good)
of_ack (w, false) = (w, answer invalid_state)

unfoldable pub route_ack : Option String → Option Source → ℕ → World Fields → Routed
route_ack none source now w = (w, answer invalid_parameter)
route_ack (some id) none now w = (w, answer invalid_parameter)
route_ack (some id) (some source) now w = of_ack (ack id source now w)

unfoldable pub route_interrupt : Option String → Option Source → ℕ → World Fields → Routed
route_interrupt (some what) (some source) now w = ((interrupt source what now w).0, answer good)
route_interrupt _ _ now w = (w, answer invalid_parameter)

unfoldable pub route_notice : Option Source → ℕ → World Fields → Routed
route_notice none now w = (w, answer invalid_parameter)
route_notice (some source) now w = (notice_ack source now w, answer good)

unfoldable pub of_result : {E A : Type 0} → (E → Reply) → World Fields × Result E A → Routed
of_result f (w, ok a) = (w, answer good)
of_result f (w, err e) = (w, answer (f e))

unfoldable pub route_revert : Option String → ℕ → World Fields → Routed
route_revert none now w = (w, answer invalid_parameter)
route_revert (some id) now w = of_result (λ (e : Refused). invalid_state) (revert_active id now w)

unfoldable pub route_keep : Option String → ℕ → World Fields → Routed
route_keep none now w = (w, answer invalid_parameter)
route_keep (some id) now w = of_result (λ (e : Refused). invalid_state) (keep_active id now w)

-- The first `match` of `ops_route`, with what comes after it.
unfoldable pub op_route : String → Fields → ℕ → World Fields → (World Fields → Routed) → Routed
unfolding text_at from_person of_ack route_ack route_interrupt route_notice of_result route_revert
    journal_append list_limit route_keep non_empty
op_route action body now w rest =
    let params = params_of body in
    let id = text_at params "op_id" in
    let person = from_person (source_of body) in
    if str_eq action "op.status"
    then (w, answer good)
    else if str_eq action "journal.append"
    then (w, journal_append body params)
    else if str_eq action "journal.list"
    then (w, journal (list_call (list_limit params)))
    else if str_eq action "op.ack"
    then route_ack id person now w
    else if str_eq action "op.interrupt"
    then route_interrupt (non_empty (text_at params "what")) person now w
    else if str_eq action "op.notice_ack"
    then route_notice person now w
    else if str_eq action "op.revert"
    then route_revert id now w
    else if str_eq action "op.keep"
    then route_keep id now w
    else rest w

-- `session_err`
unfoldable pub session_err : SessionError → Reply
session_err (session_busy s) = error 409 "busy"
session_err (txn_busy t) = error 409 "busy"
session_err gone = invalid_state

unfoldable pub route_renew : Option String → ℕ → World Fields → Routed
route_renew none now w = (w, answer invalid_parameter)
route_renew (some id) now w = of_result session_err (session_renew id now w)

unfoldable pub route_close : Option String → Option String → ℕ → World Fields → Routed
route_close none result now w = (w, answer invalid_parameter)
route_close (some id) result now w = of_result session_err (session_close id result now w)

unfoldable op_id_of : Option Json → Result (Unit {0}) (Option String)
op_id_of none = ok none
op_id_of (some v) = elim (as_str v) [
  | none ↦ err tt
  | some s ↦ if valid_op_id s then ok (some s) else err tt
]

unfoldable undo_of : Option Json → Bool
undo_of none = false
undo_of (some v) = unwrap_or (as_bool v) false

unfoldable submit_route :
    Source → Bool → Spec → Result String String → Result (Unit {0}) (Option String) → Route
submit_route source undo spec (err e) id = answer invalid_parameter
submit_route source undo spec (ok t) (err e) = answer invalid_request
submit_route source undo spec (ok t) (ok id) =
    submit (record { spec = spec; target = t; source = source; undo = undo }) id

-- A write with a source, once the session has let it through.
unfoldable pub spec_route : ℕ → String → Fields → Source → Route
unfolding op_id_of undo_of submit_route
spec_route deadline action body source = elim (find_spec deadline action) [
  | none ↦ go_on
  | some spec ↦
      submit_route source (undo_of (get body "undo")) spec (target (params_of body))
        (op_id_of (get body "op_id"))
]

unfoldable pub gated : Route → World Fields × Result SessionError (Unit {0}) → Routed
gated next (w, ok u) = (w, next)
gated next (w, err e) = (w, answer (session_err e))

-- The part of `ops_route` for a request with a source; `fresh` is the id drawn for a session.
unfoldable pub sourced_route : ℕ → String → String → Fields → Source → ℕ → World Fields → Routed
unfolding text_at of_result route_renew route_close gated
sourced_route deadline fresh action body source now w =
    let params = params_of body in
    if str_eq action "netselect.session.open"
    then of_result session_err (session_open fresh source now w)
    else if str_eq action "netselect.session.renew"
    then route_renew (text_at params "session") now w
    else if str_eq action "netselect.session.close"
    then route_close (text_at params "session") (text_at params "result") now w
    else if is_safety action params
    then (w, spec_route deadline action body source)
    else gated (spec_route deadline action body source)
        (session_gate action (text_at body "session") now w)

unfoldable pub is_session_action : String → Bool
is_session_action action = starts_with action "netselect." || has session_optional action

unfoldable pub given_source :
    ℕ → String → String → Fields → Option Source → ℕ → World Fields → Routed
given_source deadline fresh action body none now w = (w, answer invalid_request)
given_source deadline fresh action body (some source) now w =
    sourced_route deadline fresh action body source now w

unfoldable pub source_route : ℕ → String → String → Fields → ℕ → World Fields → Routed
source_route deadline fresh action body now w =
    if is_some (get body "source")
    then given_source deadline fresh action body (source_of body) now w
    else if is_session_action action
    then (w, answer invalid_request)
    else (w, go_on)

-- `ops_route`
unfoldable pub ops_route : ℕ → String → String → Fields → ℕ → World Fields → Routed
unfolding given_source source_route
ops_route deadline fresh action body now w =
    op_route action body now w (λ v. source_route deadline fresh action body now v)

-- The answer to a write that `submit` does not make.
unfoldable submit_reply : Submit → Reply
submit_reply (existing t) = good
submit_reply (busy_session s) = error 409 "busy"
submit_reply (busy t) = error 409 "busy"
submit_reply no_capture = error 502 "device_call_failed"
