-- ===== src/Txn/Table.antt =====
-- The table of outcomes at the top of rust/src/ops/txn.rs, and that every history keeps to it.
pub mod Readings
use zte_u60_pro_mu5250_data.Common.{
  ℕ, String, Bool, true, false, ◌&&◌, ◌||◌, not, Option, none, some, List, [], ◌∷◌, ◌≡◌, refl,
  arith, Result, ok, err, Bool-cases, Option-cases, inl, inr, is_some,
}
use zte_u60_pro_mu5250_data.Txn.Types.{
  Txn, NewTxn, Phase, accepted, applying, verifying, rolling_back, confirmed, unverified,
  rolled_back, not_applied, rollback_failed, cancelled, is_final, Reason, verified, user_keep,
  no_rollback, apn_no_data, timeout, user_revert, reboot_loop, ignored, rollback_timeout,
  superseded, preempted, manual_change, takeover, sim_changed, other_change, Intent, to_apply,
  to_roll_back, Applied, Reading, Next, wait, finished,
}
use zte_u60_pro_mu5250_data.Txn.Machine.{Interrupt, cancel_reason}
use zte_u60_pro_mu5250_data.Txn.Ops.{
  new, step, finish, counting, begin_apply, applied, start_rollback, rollback_sent, expire, on_tick,
  revert, keep, cancel,
}

-- The reasons that the table gives for each outcome; a phase that is under way has none.
abbrev pub listed : Phase → Option Reason → Bool
listed confirmed (some verified) = true
listed confirmed (some user_keep) = true
listed unverified (some no_rollback) = true
listed unverified (some apn_no_data) = true
listed rolled_back (some timeout) = true
listed rolled_back (some user_revert) = true
listed rolled_back (some reboot_loop) = true
listed not_applied (some ignored) = true
listed rollback_failed (some rollback_timeout) = true
listed cancelled (some superseded) = true
listed cancelled (some preempted) = true
listed cancelled (some manual_change) = true
listed cancelled (some takeover) = true
listed cancelled (some sim_changed) = true
listed cancelled (some other_change) = true
listed p none = not (is_final p)
listed _ _ = false

-- The reasons for which a rollback starts.
abbrev pub starts : Option Reason → Bool
starts (some timeout) = true
starts (some user_revert) = true
starts (some reboot_loop) = true
starts _ = false

-- The intents that a phase may hold.
abbrev pub holds : Phase → Option Intent → Bool
holds applying (some to_apply) = true
holds rolling_back (some to_roll_back) = true
holds rolling_back none = true
holds applying none = false
holds _ (some i) = false
holds _ none = true

abbrev starts_if : Phase → Option Reason → Bool
starts_if rolling_back why = starts why
starts_if _ why = true

-- Phase, reason, intent and the cause of a rollback fit together.
pub record IsListed (t : Txn) : Type 0 where
  pub outcome : listed t.phase t.reason ≡ true
  pub intended : holds t.phase t.intent ≡ true
  pub caused : starts_if t.phase t.rollback_reason ≡ true

pub submitted-IsListed : (n : NewTxn) (now : ℕ) → IsListed (begin_apply (new n now))
unfolding begin_apply new
submitted-IsListed n now = ground arith

pub finish-IsListed :
    (t : Txn) (p : Phase) (why : Reason)
    → is_final p ≡ true
    → listed p (some why) ≡ true
    → IsListed (finish t p why).0
unfolding finish
finish-IsListed t p why f l = ground arith

pub expire-IsListed :
    (t : Txn) (why : Reason)
    → t.reason ≡ none
    → starts (some why) ≡ true
    → IsListed (expire t why).0
unfolding expire start_rollback finish
expire-IsListed t why u s = ground arith

pub on_tick-IsListed : (t : Txn) (now : ℕ) → IsListed t → IsListed (on_tick t now).0
unfolding on_tick expire start_rollback finish
on_tick-IsListed t now v = ground arith

-- The operations that do not look at a reading.
pub applied-IsListed : (t : Txn) (a : Applied) (now : ℕ) → IsListed t → IsListed (applied t a now)
unfolding applied step
applied-IsListed t a now v = ground arith

pub rollback_sent-IsListed : (t : Txn) (now : ℕ) → IsListed t → IsListed (rollback_sent t now)
unfolding rollback_sent
rollback_sent-IsListed t now v = ground arith

pub revert-IsListed : (t : Txn) → IsListed t → IsListed (revert t).0
unfolding revert start_rollback
revert-IsListed t v = ground arith

pub keep-IsListed : (t : Txn) → IsListed t → IsListed (keep t).0
unfolding keep finish
keep-IsListed t v = ground arith

pub cancel-IsListed : (t : Txn) (i : Interrupt) → IsListed t → IsListed (cancel t (cancel_reason i))
unfolding cancel finish
cancel-IsListed t i v = ground arith
