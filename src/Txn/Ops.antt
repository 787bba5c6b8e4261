-- ===== src/Txn/Ops.antt =====
-- The operations of a transaction that do not look at a reading (rust/src/ops/txn.rs).
-- A method on `&mut self` returns the new transaction, with its result where it has one.
use zte_u60_pro_mu5250_data.Common.{
  ℕ, ◌-◌, String, Bool, true, false, ◌&&◌, not, Option, none, some, ltb, max, add_u64, is_some,
  if◌then◌else◌, Result, ok, err,
}
use zte_u60_pro_mu5250_data.Txn.Types.{
  Txn, NewTxn, Phase, accepted, applying, verifying, rolling_back, confirmed, unverified,
  not_applied, rollback_failed, cancelled, is_final, Reason, user_keep, no_rollback, timeout,
  user_revert, ignored, rollback_timeout, to_apply, to_roll_back, Applied, is_failed, Next, wait,
  finished, rollback,
}

unfoldable pub new : NewTxn → ℕ → Txn
new n now = record {
  op_id = n.op_id;
  action = n.action;
  item = n.item;
  source = n.source;
  undo = n.undo;
  target = n.target;
  old = n.old;
  rollback_to = n.rollback_to;
  phase = accepted;
  reason = none;
  rollback_reason = none;
  ever_matched = false;
  read_ok = false;
  readback = none;
  apply_failed = false;
  intent = none;
  sim = n.sim;
  confirm = n.confirm;
  ref_conn = n.conn;
  ref_ms = now;
  last_conn = n.conn;
  probe_conn = none;
  probe_fails = 0;
  probe_last_ms = none;
  data_ok = false;
  registered = false;
  rollback_enabled = n.rollback_enabled;
  deadline_ms = n.deadline_ms;
  boot_id = n.boot_id;
  boots = 0;
  elapsed_prev_ms = 0;
  wait_start_ms = now;
  seen_ms = now;
  created_ms = now;
  took_ms = none;
  generation = 0;
}

unfoldable pub step : Txn → Phase → Txn
step t p = record t { phase = p; generation = add_u64 t.generation 1 }

unfoldable pub finish : Txn → Phase → Reason → Txn × Next
unfolding step
finish t p why = (record (step t p) { reason = some why; intent = none }, finished)

abbrev pub waiting : Phase → Bool
waiting verifying = true
waiting rolling_back = true
waiting _ = false

abbrev pub is_rolling_back : Phase → Bool
is_rolling_back rolling_back = true
is_rolling_back _ = false

abbrev pub is_verifying : Phase → Bool
is_verifying verifying = true
is_verifying _ = false

-- Waiting, with no write under way.
unfoldable pub counting : Txn → Bool
counting t = waiting t.phase && not (is_some t.intent)

unfoldable pub begin_apply : Txn → Txn
unfolding step
begin_apply t = record (step t applying) { intent = some to_apply }

abbrev is_applying : Phase → Bool
is_applying applying = true
is_applying _ = false

unfoldable pub applied : Txn → Applied → ℕ → Txn
unfolding step
applied t outcome now =
    if is_applying t.phase
    then step
        (record t {
          intent = none;
          apply_failed = is_failed outcome;
          wait_start_ms = now;
          seen_ms = now;
        })
        verifying
    else t

unfoldable pub start_rollback : Txn → Reason → Txn × Next
unfolding step
start_rollback t why = (
  record (step t rolling_back) { rollback_reason = some why; intent = some to_roll_back },
  rollback t.rollback_to,
)

unfoldable pub reset_probe : Txn → Txn
reset_probe t = record t {
  probe_conn = none;
  probe_fails = 0;
  probe_last_ms = none;
  data_ok = false;
}

unfoldable pub rollback_sent : Txn → ℕ → Txn
unfolding reset_probe
rollback_sent t now =
    if is_rolling_back t.phase
    then (let sent = record t {
      intent = none;
      wait_start_ms = now;
      seen_ms = now;
      ref_conn = t.last_conn;
      ref_ms = now;
    } in
        let reset = reset_probe sent in record reset { generation = add_u64 t.generation 1 })
    else t

-- The value that this wait looks for.
unfoldable pub goal : Txn → String
goal t = if is_rolling_back t.phase then t.rollback_to else t.target

unfoldable pub expire : Txn → Reason → Txn × Next
expire t why = if t.rollback_enabled then start_rollback t why else finish t unverified no_rollback

-- The rest of `on_tick` once the deadline has passed.
abbrev past_deadline : Txn → Txn × Next
past_deadline t =
    if is_rolling_back t.phase
    then finish t rollback_failed rollback_timeout
    else if t.read_ok && not t.ever_matched
    then finish t not_applied ignored
    else expire t timeout

unfoldable pub on_tick : Txn → ℕ → Txn × Next
unfolding counting
on_tick t now =
    if is_final t.phase
    then (t, finished)
    else if not (counting t)
    then (t, wait)
    else let seen = record t { seen_ms = max t.seen_ms now } in
      if ltb (now - t.wait_start_ms) t.deadline_ms then (seen, wait) else past_deadline seen

-- What `revert` and `keep` refuse with.
pub data Refusal : Type 0 where
  already_rolling_back already_finished still_applying : Refusal

abbrev refusal : Phase → Refusal
refusal rolling_back = already_rolling_back
refusal p = if is_final p then already_finished else still_applying

unfoldable pub revert : Txn → Txn × Result Refusal Next
revert t =
    if is_verifying t.phase && not (is_some t.intent)
    then (let (t', n) = start_rollback t user_revert in (t', ok n))
    else (t, err (refusal t.phase))

unfoldable pub keep : Txn → Txn × Result Refusal (Unit {0})
keep t =
    if is_verifying t.phase && not (is_some t.intent)
    then ((finish t confirmed user_keep).0, ok tt)
    else (t, err (refusal t.phase))

unfoldable pub cancel : Txn → Reason → Txn
cancel t why = if is_final t.phase then t else (finish t cancelled why).0

unfoldable pub remaining_ms : Txn → ℕ → Option ℕ
remaining_ms t now =
    if waiting t.phase then some (t.deadline_ms - (now - t.wait_start_ms)) else none
