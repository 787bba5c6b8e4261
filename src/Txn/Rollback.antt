-- ===== src/Txn/Rollback.antt =====
-- When a rollback is ordered, and how often (rust/src/ops/txn.rs).
pub mod Switch
use zte_u60_pro_mu5250_data.Common.{
  ℕ, ◌+◌, ◌≤◌, String, Bool, true, false, Option, none, some, List, [], ◌∷◌, ◌≡◌, refl, arith, ◌&&◌,
  not, ◌≢◌, ◌∙◌, Bool-cases, inl, inr,
}
use zte_u60_pro_mu5250_data.Txn.Types.{
  Txn, NewTxn, Phase, Reason, accepted, applying, verifying, rolling_back, user_revert, not_applied,
  ignored, reboot_loop, Reading, Next, is_final, wait, finished, rollback, Intent, to_roll_back,
}
use zte_u60_pro_mu5250_data.Txn.Ops.{
  finish, start_rollback, expire, counting, new, begin_apply, applied, rollback_sent, on_tick,
  revert, keep, cancel,
}
use zte_u60_pro_mu5250_data.Txn.Verdict.{on_reading}
use zte_u60_pro_mu5250_data.Txn.Resume.{resume}
use zte_u60_pro_mu5250_data.Txn.Shape.{Noted, Ends, Shape, on_reading-Shape}
use zte_u60_pro_mu5250_data.Txn.Shape.Restart.{Restarted, resume-Resumes}
use zte_u60_pro_mu5250_data.Txn.Machine.{
  Event, write_returned, rollback_returned, read_came, read_failed, user_reverts, user_keeps,
  interrupted, restarted, handle, submitted, count_rollback, run,
}

-- How many rollbacks a transaction may still order.
abbrev budget : Phase → ℕ
budget accepted = 1
budget applying = 1
budget verifying = 1
budget _ = 0

-- An order is for the recorded value, with the intent to send it on record.
abbrev pub Orders : Next → Txn → Txn → Type 0
Orders (rollback v) t u =
    (v ≡ t.rollback_to) × (u.phase ≡ rolling_back) × (u.intent ≡ some to_roll_back)
Orders _ t u = Unit

-- What one operation makes of `t`: it spends from the budget, keeps what the rollback is about, and
-- orders as it should.
record Spends (t : Txn) (res : Txn × Next) : Type 0 where
  spent : count_rollback res.1 (budget res.0.phase) ≤ budget t.phase
  to_same : res.0.rollback_to ≡ t.rollback_to
  switch_same : res.0.rollback_enabled ≡ t.rollback_enabled
  orders : Orders res.1 t res.0

on_tick-Spends : (t : Txn) (now : ℕ) → Spends t (on_tick t now)
unfolding on_tick expire start_rollback finish
on_tick-Spends t now = ground arith

Noted-Spends : (t u : Txn) (res : Txn × Next) → Noted t u → Spends u res → Spends t res
Noted-Spends t u (w, wait) h s = ground arith
Noted-Spends t u (w, finished) h s = ground arith
Noted-Spends t u (w, rollback v) h s = ground arith

ending-Spends :
    (t u : Txn) (p : Phase) (why : Reason) → Noted t u → Ends t p why → Spends t (finish u p why)
unfolding finish
ending-Spends t u p why h end = ground arith

idle-Spends : (t : Txn) (r : Reading) (now : ℕ) → counting t ≡ false → Spends t (on_reading t r now)
unfolding on_reading
idle-Spends t r now idle = ground arith

on_reading-Spends : (t : Txn) (r : Reading) (now : ℕ) → Spends t (on_reading t r now)
on_reading-Spends t r now = elim (Bool-cases (counting t)) [
  | inl live ↦ elim (on_reading-Shape t r now live) [
    | inl (u, h, e) ↦ rw e (Noted-Spends t u _ h (on_tick-Spends u now))
    | inr (u, p, why, h, end, e) ↦ rw e (ending-Spends t u p why h end)
  ]
  | inr idle ↦ idle-Spends t r now idle
]

begun-Spends :
    (t u : Txn) → Noted t u → t.phase ≡ accepted → Spends t (finish u not_applied ignored)
unfolding finish
begun-Spends t u h a = ground arith

expired-Spends : (t u : Txn) → Restarted t u → u.phase ≡ verifying → Spends t (expire u reboot_loop)
unfolding expire start_rollback finish
expired-Spends t u h v = ground arith

waited-Spends : (t u : Txn) → Restarted t u → Spends t (u, wait)
waited-Spends t u h = ground arith

over-Spends :
    (t : Txn) (id : String) (now : ℕ) → is_final t.phase ≡ true → Spends t (resume t id now)
unfolding resume
over-Spends t id now over = rw over (ground arith)

resume-Spends : (t : Txn) (id : String) (now : ℕ) → Spends t (resume t id now)
resume-Spends t id now = elim (Bool-cases (is_final t.phase)) [
  | inl over ↦ over-Spends t id now over
  | inr live ↦ elim (resume-Resumes t id now live) [
    | inl (u, h, a, e) ↦ rw e (begun-Spends t u h a)
    | inr (inl (u, h, p, e)) ↦ rw e (expired-Spends t u h p)
    | inr (inr (u, h, e)) ↦ rw e (waited-Spends t u h)
  ]
]

handle-Spends : (t : Txn) (e : Event) → Spends t (handle t e)
unfolding handle applied rollback_sent revert keep cancel start_rollback finish
handle-Spends t (write_returned a now) = ground arith
handle-Spends t (rollback_returned now) = ground arith
handle-Spends t (read_came r now) = on_reading-Spends t r now
handle-Spends t (read_failed now) = on_tick-Spends t now
handle-Spends t user_reverts = ground arith
handle-Spends t user_keeps = ground arith
handle-Spends t (interrupted i) = ground arith
handle-Spends t (restarted id now) = resume-Spends t id now

-- Whatever event orders a rollback, from whatever state, the order is for the value recorded when
-- the write was made, and the intent to send it is on record.
pub handle-Orders : (t : Txn) (e : Event) → Orders (handle t e).1 t (handle t e).0
handle-Orders t e = (handle-Spends t e).orders

run-budget : (t : Txn) (es : List Event) → (run t es).1 + budget (run t es).0.phase ≤ budget t.phase
unfolding run
run-budget t [] = omega arith
run-budget t (e ∷ es) = ground (arith, (handle-Spends t e).spent, run-budget (handle t e).0 es)

-- At most one rollback is ordered in the whole life of a submitted write, whatever happens to it.
pub rollback_once : (n : NewTxn) (now : ℕ) (es : List Event) → (run (submitted n now) es).1 ≤ 1
unfolding submitted begin_apply new
rollback_once n now es = omega (arith, run-budget (submitted n now) es)

run-keeps :
    (t : Txn) (es : List Event)
    → ((run t es).0.rollback_to ≡ t.rollback_to)
      × ((run t es).0.rollback_enabled ≡ t.rollback_enabled)
unfolding run
run-keeps t [] = (refl, refl)
run-keeps t (e ∷ es) =
    let s = handle-Spends t e in
    let (to, switch) = run-keeps (handle t e).0 es in (to ∙ s.to_same, switch ∙ s.switch_same)
