-- ===== src/Txn/Final.antt =====
-- Outcomes are for good (rust/src/ops/txn.rs).
use zte_u60_pro_mu5250_data.Common.{true, List, [], ◌∷◌, ◌≡◌, refl, arith}
use zte_u60_pro_mu5250_data.Txn.Types.{Txn, is_final}
use zte_u60_pro_mu5250_data.Txn.Ops.{applied, rollback_sent, on_tick, revert, keep, cancel}
use zte_u60_pro_mu5250_data.Txn.Verdict.{on_reading}
use zte_u60_pro_mu5250_data.Txn.Shape.Restart.{resume_final}
use zte_u60_pro_mu5250_data.Txn.Machine.{
  Event, write_returned, rollback_returned, read_came, read_failed, user_reverts, user_keeps,
  interrupted, restarted, handle, run,
}

final-handle : (t : Txn) (e : Event) → is_final t.phase ≡ true → (handle t e).0 ≡ t
unfolding handle applied rollback_sent on_reading on_tick revert keep cancel
final-handle t (write_returned a now) h = ground arith
final-handle t (rollback_returned now) h = ground arith
final-handle t (read_came r now) h = rw h refl
final-handle t (read_failed now) h = rw h refl
final-handle t user_reverts h = ground arith
final-handle t user_keeps h = ground arith
final-handle t (interrupted i) h = rw h refl
final-handle t (restarted id now) h = resume_final t id now h

-- A transaction that has reached an outcome is left as it is by every later event.
pub final-run : (t : Txn) (es : List Event) → is_final t.phase ≡ true → (run t es).0 ≡ t
unfolding run
final-run t [] h = refl
final-run t (e ∷ es) h = rw (final-handle t e h) (final-run t es h)
