-- ===== src/Txn/Machine.antt =====
-- What can happen to a live transaction, as the engine drives it (rust/src/ops/engine.rs over
-- rust/src/ops/txn.rs), and the runs over such events.
use zte_u60_pro_mu5250_data.Common.{ℕ, suc, String, Result, ok, err, List, [], ◌∷◌}
use zte_u60_pro_mu5250_data.Txn.Types.{
  Txn, NewTxn, Reason, other_change, takeover, superseded, sim_changed, preempted, Applied, Reading,
  Next, wait, rollback,
}
use zte_u60_pro_mu5250_data.Txn.Ops.{
  Refusal, new, begin_apply, applied, rollback_sent, on_tick, revert, keep, cancel,
}
use zte_u60_pro_mu5250_data.Txn.Resume.{resume}
use zte_u60_pro_mu5250_data.Txn.Verdict.{on_reading}

-- Why the engine calls `cancel`.
pub data Interrupt : Type 0 where
  by_other_write by_takeover by_override by_sim by_safety : Interrupt

abbrev pub cancel_reason : Interrupt → Reason
cancel_reason by_other_write = other_change
cancel_reason by_takeover = takeover
cancel_reason by_override = superseded
cancel_reason by_sim = sim_changed
cancel_reason by_safety = preempted

pub data Event : Type 0 where
  write_returned : Applied → ℕ → Event
  rollback_returned : ℕ → Event
  read_came : Reading → ℕ → Event
  read_failed : ℕ → Event
  user_reverts user_keeps : Event
  interrupted : Interrupt → Event
  restarted : String → ℕ → Event

-- A refused request orders nothing.
abbrev ordered : Result Refusal Next → Next
ordered (ok n) = n
ordered (err e) = wait

unfoldable pub handle : Txn → Event → Txn × Next
handle t (write_returned a now) = (applied t a now, wait)
handle t (rollback_returned now) = (rollback_sent t now, wait)
handle t (read_came r now) = on_reading t r now
handle t (read_failed now) = on_tick t now
handle t user_reverts = ((revert t).0, ordered (revert t).1)
handle t user_keeps = ((keep t).0, wait)
handle t (interrupted i) = (cancel t (cancel_reason i), wait)
handle t (restarted id now) = resume t id now

-- `Engine::submit` makes the transaction and records the intent in one step.
unfoldable pub submitted : NewTxn → ℕ → Txn
submitted n now = begin_apply (new n now)

abbrev pub count_rollback : Next → ℕ → ℕ
count_rollback (rollback v) n = suc n
count_rollback _ n = n

-- The transaction after a history, and how often a rollback was ordered.
unfoldable pub run : Txn → List Event → Txn × ℕ
run t [] = (t, 0)
run t (e ∷ es) = let (t', next) = handle t e in let (u, n) = run t' es in (u, count_rollback next n)
