-- ===== src/Txn/Table/Readings.antt =====
-- Readings, restarts and whole histories keep to the table of outcomes.
use zte_u60_pro_mu5250_data.Common.{
  ℕ, String, List, [], ◌∷◌, ◌≡◌, refl, arith, Bool-cases, inl, inr,
}
use zte_u60_pro_mu5250_data.Txn.Types.{
  Txn, NewTxn, Phase, Reason, Reading, is_final, accepted, not_applied, ignored, reboot_loop,
}
use zte_u60_pro_mu5250_data.Txn.Ops.{finish, counting}
use zte_u60_pro_mu5250_data.Txn.Resume.{resume}
use zte_u60_pro_mu5250_data.Txn.Shape.Restart.{Restarted, resume-Resumes, resume_final}
use zte_u60_pro_mu5250_data.Txn.Verdict.{on_reading}
use zte_u60_pro_mu5250_data.Txn.Shape.{Noted, Ends, on_reading-Shape, on_reading_idle}
use zte_u60_pro_mu5250_data.Txn.Machine.{
  Event, write_returned, rollback_returned, read_came, read_failed, user_reverts, user_keeps,
  interrupted, restarted, handle, submitted, run,
}
use zte_u60_pro_mu5250_data.Txn.Table.{
  IsListed, expire-IsListed, on_tick-IsListed, applied-IsListed, rollback_sent-IsListed,
  revert-IsListed, keep-IsListed, cancel-IsListed, submitted-IsListed,
}

Noted-IsListed : (t u : Txn) → Noted t u → IsListed t → IsListed u
Noted-IsListed t u h v = ground arith

ending-IsListed :
    (t u : Txn) (p : Phase) (why : Reason)
    → Noted t u
    → Ends t p why
    → IsListed t
    → IsListed (finish u p why).0
unfolding finish
ending-IsListed t u p why h end v = ground arith

on_reading-IsListed :
    (t : Txn) (r : Reading) (now : ℕ) → IsListed t → IsListed (on_reading t r now).0
on_reading-IsListed t r now v = elim (Bool-cases (counting t)) [
  | inl live ↦ elim (on_reading-Shape t r now live) [
    | inl (u, h, e) ↦ rw e (on_tick-IsListed u now (Noted-IsListed t u h v))
    | inr (u, p, why, h, end, e) ↦ rw e (ending-IsListed t u p why h end v)
  ]
  | inr idle ↦ rw (on_reading_idle t r now idle) v
]

Restarted-IsListed : (t u : Txn) → Restarted t u → IsListed t → IsListed u
Restarted-IsListed t u h v = ground arith

restart_end-IsListed :
    (t u : Txn)
    → Noted t u
    → t.phase ≡ accepted
    → IsListed t
    → IsListed (finish u not_applied ignored).0
unfolding finish
restart_end-IsListed t u h a v = ground arith

resume-IsListed : (t : Txn) (id : String) (now : ℕ) → IsListed t → IsListed (resume t id now).0
resume-IsListed t id now v = elim (Bool-cases (is_final t.phase)) [
  | inl over ↦ rw (resume_final t id now over) v
  | inr live ↦ elim (resume-Resumes t id now live) [
    | inl (u, h, a, e) ↦ rw e (restart_end-IsListed t u h a v)
    | inr (inl (u, h, p, e)) ↦
        let w : IsListed u = Restarted-IsListed t u h v in
        rw e (expire-IsListed u reboot_loop (ground arith) refl)
    | inr (inr (u, h, e)) ↦ rw e (Restarted-IsListed t u h v)
  ]
]

-- Every event keeps the phase, the reason, the intent and the cause of a rollback within the table.
pub handle-IsListed : (t : Txn) (e : Event) → IsListed t → IsListed (handle t e).0
unfolding handle
handle-IsListed t (write_returned a now) v = applied-IsListed t a now v
handle-IsListed t (rollback_returned now) v = rollback_sent-IsListed t now v
handle-IsListed t (read_came r now) v = on_reading-IsListed t r now v
handle-IsListed t (read_failed now) v = on_tick-IsListed t now v
handle-IsListed t user_reverts v = revert-IsListed t v
handle-IsListed t user_keeps v = keep-IsListed t v
handle-IsListed t (interrupted i) v = cancel-IsListed t i v
handle-IsListed t (restarted id now) v = resume-IsListed t id now v

run-IsListed : (t : Txn) (es : List Event) → IsListed t → IsListed (run t es).0
unfolding run
run-IsListed t [] v = v
run-IsListed t (e ∷ es) v = run-IsListed (handle t e).0 es (handle-IsListed t e v)

-- After any history of a submitted write, phase and reason are a line of the table at the top of
-- txn.rs, the intent belongs to the phase, and a rollback under way has one of the three causes.
pub run-submitted-IsListed :
    (n : NewTxn) (now : ℕ) (es : List Event) → IsListed (run (submitted n now) es).0
unfolding submitted
run-submitted-IsListed n now es = run-IsListed _ es (submitted-IsListed n now)
