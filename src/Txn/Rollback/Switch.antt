-- ===== src/Txn/Rollback/Switch.antt =====
-- With automatic rollback switched off only the user orders one (D30 in rust/src/ops/txn.rs).
use zte_u60_pro_mu5250_data.Common.{
  ℕ, String, Bool, true, false, ◌≡◌, refl, arith, ◌∙◌, Bool-cases, inl, inr,
}
use zte_u60_pro_mu5250_data.Txn.Types.{
  Txn, Phase, Reason, Reading, Next, rollback, reboot_loop, not_applied, ignored, is_final,
}
use zte_u60_pro_mu5250_data.Txn.Ops.{finish, expire, on_tick, counting, start_rollback}
use zte_u60_pro_mu5250_data.Txn.Resume.{resume}
use zte_u60_pro_mu5250_data.Txn.Verdict.{on_reading}
use zte_u60_pro_mu5250_data.Txn.Shape.{on_reading-Shape}
use zte_u60_pro_mu5250_data.Txn.Shape.Restart.{resume-Resumes}
use zte_u60_pro_mu5250_data.Txn.Machine.{
  Event, write_returned, rollback_returned, read_came, read_failed, user_reverts, user_keeps,
  interrupted, restarted, handle,
}

abbrev is_order : Next → Bool
is_order (rollback v) = true
is_order _ = false

on_tick-quiet :
    (t : Txn) (now : ℕ) → t.rollback_enabled ≡ false → is_order (on_tick t now).1 ≡ false
unfolding on_tick expire start_rollback finish
on_tick-quiet t now off = ground arith

finish-quiet : (t : Txn) (p : Phase) (why : Reason) → is_order (finish t p why).1 ≡ false
unfolding finish
finish-quiet t p why = refl

expire-quiet :
    (t : Txn) (why : Reason) → t.rollback_enabled ≡ false → is_order (expire t why).1 ≡ false
unfolding expire finish
expire-quiet t why off = ground arith

idle-quiet :
    (t : Txn) (r : Reading) (now : ℕ) → counting t ≡ false → is_order (on_reading t r now).1 ≡ false
unfolding on_reading
idle-quiet t r now idle = ground arith

over-quiet :
    (t : Txn) (id : String) (now : ℕ)
    → is_final t.phase ≡ true
    → is_order (resume t id now).1 ≡ false
unfolding resume
over-quiet t id now over = rw over refl

on_reading-quiet :
    (t : Txn) (r : Reading) (now : ℕ)
    → t.rollback_enabled ≡ false
    → is_order (on_reading t r now).1 ≡ false
on_reading-quiet t r now off = elim (Bool-cases (counting t)) [
  | inl live ↦ elim (on_reading-Shape t r now live) [
    | inl (u, h, e) ↦ rw e (on_tick-quiet u now (h.rollback_enabled ∙ off))
    | inr (u, p, why, h, end, e) ↦ rw e (finish-quiet u p why)
  ]
  | inr idle ↦ idle-quiet t r now idle
]

resume-quiet :
    (t : Txn) (id : String) (now : ℕ)
    → t.rollback_enabled ≡ false
    → is_order (resume t id now).1 ≡ false
resume-quiet t id now off = elim (Bool-cases (is_final t.phase)) [
  | inl over ↦ over-quiet t id now over
  | inr live ↦ elim (resume-Resumes t id now live) [
    | inl (u, h, a, e) ↦ rw e (finish-quiet u not_applied ignored)
    | inr (inl (u, h, p, e)) ↦ rw e (expire-quiet u reboot_loop (h.rollback_enabled ∙ off))
    | inr (inr (u, h, e)) ↦ rw e refl
  ]
]

-- Where automatic rollback is off, the only event that orders a rollback is the user's request.
pub only_user_rolls_back :
    (t : Txn) (e : Event) (v : String)
    → t.rollback_enabled ≡ false
    → (handle t e).1 ≡ rollback v
    → e ≡ user_reverts
unfolding handle
only_user_rolls_back t (write_returned a now) v off h = cc
only_user_rolls_back t (rollback_returned now) v off h = cc
only_user_rolls_back t (read_came r now) v off h = ground (arith, on_reading-quiet t r now off)
only_user_rolls_back t (read_failed now) v off h = ground (arith, on_tick-quiet t now off)
only_user_rolls_back t user_reverts v off h = refl
only_user_rolls_back t user_keeps v off h = cc
only_user_rolls_back t (interrupted i) v off h = cc
only_user_rolls_back t (restarted id now) v off h = ground (arith, resume-quiet t id now off)
