-- ===== src/Txn/Restarts.antt =====
-- Restarts of datad and of the device (D13, D31 and D32 in rust/src/ops/txn.rs).
use zte_u60_pro_mu5250_data.Common.{
  ℕ, ◌-◌, ◌<◌, String, str_eq_iff, none, ◌≡◌, arith, ◌⊎◌, ◌↔◌, add_u32, add_u64,
}
use zte_u60_pro_mu5250_data.Txn.Types.{Txn, applying, verifying, rolling_back, wait}
use zte_u60_pro_mu5250_data.Txn.Ops.{finish, start_rollback, expire}
use zte_u60_pro_mu5250_data.Txn.Resume.{resume, settle, go_on, note_reboot}

-- A restart never orders a rollback a second time: one that had started only waits on, with the
-- intent taken as carried out.
pub restart_no_second_order :
    (t : Txn) (id : String) (now : ℕ)
    → t.phase ≡ rolling_back
    → ((resume t id now).1 ≡ wait)
      × ((resume t id now).0.phase ≡ rolling_back)
      × ((resume t id now).0.intent ≡ none)
unfolding resume go_on settle note_reboot
restart_no_second_order t id now p = ground arith

-- A restart amid the write call does not write again: the write counts as made.
pub restart_amid_write :
    (t : Txn) (now : ℕ)
    → t.phase ≡ applying
    → ((resume t t.boot_id now).1 ≡ wait)
      × ((resume t t.boot_id now).0.phase ≡ verifying)
      × ((resume t t.boot_id now).0.intent ≡ none)
      × ((resume t t.boot_id now).0.wait_start_ms ≡ now)
unfolding resume go_on settle
restart_amid_write t now p = ground (arith, str_eq_iff t.boot_id t.boot_id)

-- The boots and the waiting time on record after a reboot.
abbrev pub boots_after : Txn → ℕ
boots_after t = add_u32 t.boots 1

abbrev pub waited_after : Txn → ℕ
waited_after t = add_u64 t.elapsed_prev_ms (t.seen_ms - t.wait_start_ms)

-- A write that is being confirmed goes on being confirmed after a restart exactly if the device was
-- not rebooted, or this is the first boot since and the waits so far are below the deadline.
pub reboot_limit :
    (t : Txn) (id : String) (now : ℕ)
    → t.phase ≡ verifying
    → t.intent ≡ none
    → ((resume t id now).0.phase ≡ verifying)
      ↔ ((id ≡ t.boot_id) ⊎ ((boots_after t < 2) × (waited_after t < t.deadline_ms)))
unfolding resume go_on settle note_reboot expire start_rollback finish
reboot_limit t id now p i =
    (λ h. ground (arith, str_eq_iff id t.boot_id), λ h. ground (arith, str_eq_iff id t.boot_id))
