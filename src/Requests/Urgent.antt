-- ===== src/Requests/Urgent.antt =====
-- Switching the data connection off goes on at once, and an old request of a described action is never
-- turned away as busy (rust/src/server/write.rs).
use zte_u60_pro_mu5250_data.Common.{
  ℕ, String, str_eq, str_eq_iff, str_eq_refl, true, false, Option, none, some, is_some, List, [],
  ◌∷◌, ◌++◌, ◌≡◌, refl, sym, ◌∙◌, subst, arith, ◌⊎◌, inl, inr, Bool-cases,
}
use zte_u60_pro_mu5250_data.Txn.Types.{Source, Txn, preempted}
use zte_u60_pro_mu5250_data.Engine.State.{World, LegacyReq}
use zte_u60_pro_mu5250_data.Engine.Active.{
  cancel_active, preempt, legacy_gate, LegacyGate, pass, queue_it,
}
use zte_u60_pro_mu5250_data.Engine.Legacy.{drop_legacy, log_dropped, enqueue_legacy, has_item}
use zte_u60_pro_mu5250_data.Engine.Sessions.{has}
use zte_u60_pro_mu5250_data.Json.{Fields, get}
use zte_u60_pro_mu5250_data.Requests.Actions.{params_of, source_of, is_safety, find_spec, writes}
use zte_u60_pro_mu5250_data.Requests.Routes.{
  good, go_on, ops_route, op_route, source_route, given_source, sourced_route, spec_route,
  is_session_action,
}
use zte_u60_pro_mu5250_data.Requests.Handling.{
  Served, Decision, reply, run_job, internal_task, refuse, handle, let_through, of_route,
  before_job, after_gate, legacy_item, described, on_busy, other_write_gate, let_begin, job_begin,
}
use zte_u60_pro_mu5250_data.Requests.Refusing.{cancelled}

log_dropped-active :
    (q : List (LegacyReq Fields)) (why : String) (w : World Fields)
    → (log_dropped q why w).st.active ≡ w.st.active
unfolding log_dropped
log_dropped-active [] why w = refl
log_dropped-active (r ∷ more) why w = log_dropped-active more why _

preempt_lem :
    (now : ℕ) (w : World Fields)
    → ((preempt now w).st.active ≡ none) × ((preempt now w).st.queue ≡ [])
unfolding preempt drop_legacy
preempt_lem now w = (log_dropped-active _ "a safety write" _ ∙ by_active w.st.active refl, refl)
  where
    by_active :
        (a : Option Txn)
        → w.st.active ≡ a
        → (elim a as (λ x. World Fields) [
          | none ↦ w
          | some t ↦ cancel_active t preempted now w
        ]).st.active
          ≡ none
    by_active none e = e
    by_active (some t) e = cancelled t preempted now w

-- The request names no source, or one that is known.
abbrev pub SourceKnown : Fields → Type 0
SourceKnown body =
    (is_some (get body "source") ≡ false) ⊎ ((source : Source) × (source_of body ≡ some source))

is_cellular : (action : String) (ps : Fields) → is_safety action ps ≡ true → action ≡ "cellular.set"
unfolding is_safety
is_cellular action ps h = (str_eq_iff action "cellular.set").0 (ground arith)

by_given :
    (deadline : ℕ) (fresh : String) (body : Fields) (now : ℕ) (w : World Fields)
    → is_safety "cellular.set" (params_of body) ≡ true
    → SourceKnown body
    → source_route deadline fresh "cellular.set" body now w ≡ (w, go_on)
unfolding source_route given_source sourced_route spec_route find_spec is_session_action has
by_given deadline fresh body now w h (inl e) = rw e refl
by_given deadline fresh body now w h (inr (source, e)) =
    elim (Bool-cases (is_some (get body "source"))) [
      | inl s ↦ rw (s, e, h) refl
      | inr s ↦ rw s refl
    ]

let_safely :
    (deadline : ℕ) (body : Fields) (now : ℕ) (w : World Fields)
    → is_safety "cellular.set" (params_of body) ≡ true
    → let_through deadline "cellular.set" body now w ≡ (preempt now w, run_job true none)
unfolding let_through legacy_item described find_spec legacy_gate after_gate before_job
let_safely deadline body now w h = elim (Bool-cases (is_some (get body "source"))) [
  | inl s ↦ rw (h, s) refl
  | inr s ↦ rw (h, s) refl
]

handled_safely :
    (deadline : ℕ) (fresh : String) (body : Fields) (now : ℕ) (w : World Fields)
    → is_safety "cellular.set" (params_of body) ≡ true
    → SourceKnown body
    → handle deadline fresh true "cellular.set" body now w ≡ (preempt now w, run_job true none)
unfolding handle ops_route op_route of_route
handled_safely deadline fresh body now w h k =
    rw (by_given deadline fresh body now w h k) (let_safely deadline body now w h)

begins_safely :
    (body : Fields) (now : ℕ) (s : Served)
    → is_safety "cellular.set" (params_of body) ≡ true
    → (job_begin "cellular.set" body now s).1 ≡ none
unfolding job_begin writes has other_write_gate let_begin
begins_safely body now s h = rw h refl

-- Once datad has started, a request to switch data or roaming off that names no source or a known one
-- goes on: it cancels the change in progress, empties the queue of old requests, is made even if the
-- executor's queue is full, and is not gated when its turn comes.
pub safety_goes_on :
    (deadline : ℕ) (fresh action : String) (body : Fields) (now later : ℕ) (w v : World Fields)
    (s : Served)
    → is_safety action (params_of body) ≡ true
    → SourceKnown body
    → (handle deadline fresh true action body now w ≡ (preempt now w, run_job true none))
      × ((preempt now w).st.active ≡ none)
      × ((preempt now w).st.queue ≡ [])
      × ((on_busy true none action body later v).1 ≡ internal_task)
      × ((job_begin action body later s).1 ≡ none)
unfolding on_busy
safety_goes_on deadline fresh action body now later w v s h k =
    let e = is_cellular action (params_of body) h in
    let h' : is_safety "cellular.set" (params_of body) ≡ true =
      subst (λ a. is_safety a (params_of body) ≡ true) e h in
    (
      subst (λ a. handle deadline fresh true a body now w ≡ (preempt now w, run_job true none))
          (sym e) (handled_safely deadline fresh body now w h' k),
      (preempt_lem now w).0,
      (preempt_lem now w).1,
      refl,
      subst (λ a. (job_begin a body later s).1 ≡ none) (sym e) (begins_safely body later s h'),
    )

has_item-last :
    (item : String) (q : List (LegacyReq Fields)) (r : LegacyReq Fields)
    → str_eq r.item item ≡ true
    → has_item item (q ++ r ∷ []) ≡ true
unfolding has_item
has_item-last item [] r h = ground arith
has_item-last item (x ∷ more) r h = ground (arith, has_item-last item more r h)

enqueue-has_item :
    (item action : String) (params : Fields) (now : ℕ) (w : World Fields)
    → has_item item (enqueue_legacy item action params now w).st.queue ≡ true
unfolding enqueue_legacy
enqueue-has_item item action params now w =
    has_item-last item _ (record { item = item; action = action; params = params; at_ms = now })
      (str_eq_refl item)

-- What becomes of an old request of the item: it is queued and answered as a success, or it becomes a
-- job.
abbrev pub QueuedOrRun : String → World Fields × Decision → Type 0
QueuedOrRun item (w, reply good) = has_item item w.st.queue ≡ true
QueuedOrRun item (w, run_job safety i) = (safety ≡ false) × (i ≡ some item)
QueuedOrRun item _ = ⊥

after_gate-QueuedOrRun :
    (item : String) (params : Fields) (now : ℕ) (r : World Fields × LegacyGate)
    → QueuedOrRun item (after_gate "network.set_mode" params now (some item) false r)
unfolding after_gate before_job
after_gate-QueuedOrRun item params now (w, pass) = (refl, refl)
after_gate-QueuedOrRun item params now (w, queue_it) =
    enqueue-has_item item "network.set_mode" params now w

undescribed :
    (deadline : ℕ) (action : String) (body : Fields)
    → str_eq action "network.set_mode" ≡ false
    → legacy_item deadline action body ≡ none
unfolding legacy_item find_spec described
undescribed deadline action body e = elim (Bool-cases (is_some (get body "source"))) [
  | inl s ↦ rw s refl
  | inr s ↦ rw (s, e) refl
]

sourced :
    (deadline : ℕ) (action : String) (body : Fields)
    → is_some (get body "source") ≡ true
    → legacy_item deadline action body ≡ none
unfolding legacy_item
sourced deadline action body s = rw s refl

is_described :
    (deadline : ℕ) (action item : String) (body : Fields)
    → legacy_item deadline action body ≡ some item
    → (action ≡ "network.set_mode") × (is_some (get body "source") ≡ false)
is_described deadline action item body h = (by_name, by_source)
  where
    by_name : action ≡ "network.set_mode"
    by_name = elim (Bool-cases (str_eq action "network.set_mode")) [
      | inl e ↦ (str_eq_iff action "network.set_mode").0 e
      | inr e ↦ let n = undescribed deadline action body e in cc
    ]

    by_source : is_some (get body "source") ≡ false
    by_source = elim (Bool-cases (is_some (get body "source"))) [
      | inl e ↦ let n = sourced deadline action body e in cc
      | inr e ↦ e
    ]

routed_on :
    (deadline : ℕ) (fresh : String) (body : Fields) (now : ℕ) (w : World Fields)
    → is_some (get body "source") ≡ false
    → ops_route deadline fresh "network.set_mode" body now w ≡ (w, go_on)
unfolding ops_route op_route source_route is_session_action has
routed_on deadline fresh body now w s = rw s refl

through :
    (deadline : ℕ) (item : String) (body : Fields) (now : ℕ) (w : World Fields)
    → legacy_item deadline "network.set_mode" body ≡ some item
    → is_some (get body "source") ≡ false
    → let_through deadline "network.set_mode" body now w
      ≡ after_gate "network.set_mode"
          (params_of body)
          now
          (some item)
          false
          (legacy_gate (some item) false now w)
unfolding let_through is_safety
through deadline item body now w h s = rw (s, h) refl

handled_QueuedOrRun :
    (deadline : ℕ) (fresh item : String) (body : Fields) (now : ℕ) (w : World Fields)
    → legacy_item deadline "network.set_mode" body ≡ some item
    → is_some (get body "source") ≡ false
    → QueuedOrRun item (handle deadline fresh true "network.set_mode" body now w)
unfolding handle of_route
handled_QueuedOrRun deadline fresh item body now w h s =
    rw (routed_on deadline fresh body now w s, through deadline item body now w h s)
      (after_gate-QueuedOrRun item (params_of body) now (legacy_gate (some item) false now w))

-- An old request of a described action with a valid target, once datad has started, is queued and
-- answered as a success or becomes a job; and if the executor's queue is full it is queued and answered
-- as a success.
pub described_never_busy :
    (deadline : ℕ) (fresh action item : String) (body : Fields) (now later : ℕ) (w v : World Fields)
    → legacy_item deadline action body ≡ some item
    → QueuedOrRun item (handle deadline fresh true action body now w)
      × ((on_busy false (some item) action body later v).1 ≡ refuse good)
      × (has_item item (on_busy false (some item) action body later v).0.st.queue ≡ true)
unfolding on_busy
described_never_busy deadline fresh action item body now later w v h =
    let (e, u) = is_described deadline action item body h in
    let h' : legacy_item deadline "network.set_mode" body ≡ some item =
      subst (λ a. legacy_item deadline a body ≡ some item) e h in
    (
      subst (λ a. QueuedOrRun item (handle deadline fresh true a body now w)) (sym e)
          (handled_QueuedOrRun deadline fresh item body now w h' u),
      refl,
      enqueue-has_item item action (params_of body) later v,
    )
