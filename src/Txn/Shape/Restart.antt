-- ===== src/Txn/Shape/Restart.antt =====
-- What `resume` can come to (rust/src/ops/txn.rs).
use zte_u60_pro_mu5250_data.Common.{
  ℕ, String, str_eq, Bool, true, false, ◌&&◌, not, none, ◌≡◌, refl, arith, Bool-cases, ◌⊎◌, inl,
  inr, if◌then◌else◌, leb, ◌||◌,
}
use zte_u60_pro_mu5250_data.Txn.Types.{
  Txn, accepted, applying, verifying, rolling_back, not_applied, ignored, reboot_loop, Next, wait,
  is_final,
}
use zte_u60_pro_mu5250_data.Txn.Ops.{finish, waiting, expire, is_verifying}
use zte_u60_pro_mu5250_data.Txn.Resume.{resume, note_reboot, go_on, settle, is_accepted}
use zte_u60_pro_mu5250_data.Txn.Shape.{Noted}

pub note_reboot-Noted : (t : Txn) (id : String) → Noted t (note_reboot t id)
unfolding note_reboot
note_reboot-Noted t id = ground arith

-- `u` is `t` after a restart: the write that was under way counts as done.
pub record Restarted (t u : Txn) : Type 0 where
  pub op_id : u.op_id ≡ t.op_id
  pub item : u.item ≡ t.item
  pub target : u.target ≡ t.target
  pub rollback_to : u.rollback_to ≡ t.rollback_to
  pub phase :
      (u.phase ≡ t.phase) ⊎ ((t.phase ≡ applying) × (u.phase ≡ verifying) × (u.intent ≡ none))
  pub alive : is_final t.phase ≡ false
  pub rolling : t.phase ≡ rolling_back → u.phase ≡ rolling_back
  pub reason : u.reason ≡ t.reason
  pub rollback_reason : u.rollback_reason ≡ t.rollback_reason
  pub intent : (u.intent ≡ none) ⊎ (u.intent ≡ t.intent)
  pub live : waiting u.phase ≡ true
  pub sim : u.sim ≡ t.sim
  pub rollback_enabled : u.rollback_enabled ≡ t.rollback_enabled
  pub deadline_ms : u.deadline_ms ≡ t.deadline_ms

settle-Restarted :
    (t u : Txn) (b : Bool) (now : ℕ)
    → Noted t u
    → is_final t.phase ≡ false
    → is_accepted u.phase ≡ false
    → Restarted t (settle u.phase u.intent b u now)
unfolding settle
settle-Restarted t u b now h live a = ground arith

-- A restart ends a write that was not begun, gives up after too many reboots, or waits on.
abbrev pub Resumes : Txn → Txn × Next → Type 0
Resumes t res =
    ((u : Txn) × Noted t u × (t.phase ≡ accepted) × (res ≡ finish u not_applied ignored))
    ⊎ ((u : Txn) × Restarted t u × (u.phase ≡ verifying) × (res ≡ expire u reboot_loop))
    ⊎ ((u : Txn) × Restarted t u × (res ≡ (u, wait)))

go_on-Resumes : (t u : Txn) (b : Bool) (now : ℕ) → Restarted t u → Resumes t (go_on u b now)
unfolding go_on
go_on-Resumes t u b now h =
    elim (Bool-cases
      (b && is_verifying u.phase && (leb 2 u.boots || leb u.deadline_ms u.elapsed_prev_ms))) [
        | inl e ↦ rw e (inr (inl (_, ground arith, ground arith, refl)))
        | inr e ↦ rw e (inr (inr (_, ground arith, refl)))
      ]

pub resume-Resumes :
    (t : Txn) (id : String) (now : ℕ) → is_final t.phase ≡ false → Resumes t (resume t id now)
unfolding resume
resume-Resumes t id now live = rw live (by_reboot (not (str_eq id t.boot_id)))
  where
    from :
        (u : Txn) (b : Bool)
        → Noted t u
        → Resumes t (
            if is_accepted u.phase
            then finish u not_applied ignored
            else go_on (settle u.phase u.intent b u now) b now)
    from u b h = elim (Bool-cases (is_accepted u.phase)) [
      | inl e ↦ rw e (inl (u, h, ground arith, refl))
      | inr e ↦ rw e (go_on-Resumes t _ b now (settle-Restarted t u b now h live e))
    ]

    by_reboot :
        (b : Bool)
        → Resumes t (
            let t' = if b then note_reboot t id else t in
            if is_accepted t'.phase
            then finish t' not_applied ignored
            else go_on (settle t'.phase t'.intent b t' now) b now)
    by_reboot true = from (note_reboot t id) true (note_reboot-Noted t id)
    by_reboot false = from t false (ground arith)

pub resume_final :
    (t : Txn) (id : String) (now : ℕ) → is_final t.phase ≡ true → (resume t id now).0 ≡ t
unfolding resume
resume_final t id now h = rw h refl
