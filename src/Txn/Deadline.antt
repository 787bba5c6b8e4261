-- ===== src/Txn/Deadline.antt =====
-- The deadline of a wait and what it ends in (rust/src/ops/txn.rs).
use zte_u60_pro_mu5250_data.Common.{
  ℕ, ◌+◌, ◌-◌, ◌≤◌, ◌<◌, max, true, false, some, List, [], ◌∷◌, ◌≡◌, arith, ◌⊎◌, ◌↔◌, ◌≢◌,
}
use zte_u60_pro_mu5250_data.Txn.Types.{
  Txn, Next, wait, finished, rollback, verifying, rolling_back, unverified, no_rollback,
  not_applied, ignored, rollback_failed, rollback_timeout, timeout, is_final, to_roll_back,
}
use zte_u60_pro_mu5250_data.Txn.Ops.{
  finish, start_rollback, expire, counting, on_tick, rollback_sent, remaining_ms,
}
use zte_u60_pro_mu5250_data.Txn.Machine.{Event, read_came, read_failed}

-- Before the deadline a tick without a reading only advances the clock.
pub on_tick_before :
    (t : Txn) (now : ℕ)
    → counting t ≡ true
    → now < t.wait_start_ms + t.deadline_ms
    → 0 < t.deadline_ms
    → on_tick t now ≡ (record t { seen_ms = max t.seen_ms now }, wait)
unfolding on_tick counting
on_tick_before t now c h d = ground arith

-- What a wait that has run out ends in.
abbrev pub RunsOut : Txn → Txn × Next → Type 0
RunsOut t res =
    ((t.phase ≡ rolling_back)
      × (res.0.phase ≡ rollback_failed)
      × (res.0.reason ≡ some rollback_timeout)
      × (res.1 ≡ finished))
    ⊎ ((t.phase ≡ verifying)
        × (t.read_ok ≡ true)
        × (t.ever_matched ≡ false)
        × (res.0.phase ≡ not_applied)
        × (res.0.reason ≡ some ignored)
        × (res.1 ≡ finished))
    ⊎ ((t.phase ≡ verifying)
        × ((t.read_ok ≡ false) ⊎ (t.ever_matched ≡ true))
        × (t.rollback_enabled ≡ true)
        × (res.0.phase ≡ rolling_back)
        × (res.0.rollback_reason ≡ some timeout)
        × (res.1 ≡ rollback t.rollback_to))
    ⊎ ((t.phase ≡ verifying)
        × ((t.read_ok ≡ false) ⊎ (t.ever_matched ≡ true))
        × (t.rollback_enabled ≡ false)
        × (res.0.phase ≡ unverified)
        × (res.0.reason ≡ some no_rollback)
        × (res.1 ≡ finished))

-- At the deadline a rollback has failed; a write that was read but never matched was not applied;
-- any other is rolled back if that is enabled, and left unverified if it is not.
pub on_tick-RunsOut :
    (t : Txn) (now : ℕ)
    → counting t ≡ true
    → t.wait_start_ms + t.deadline_ms ≤ now
    → RunsOut t (on_tick t now)
unfolding on_tick counting expire start_rollback finish
on_tick-RunsOut t now c h = ground arith

-- Two deadlines end a write that counts: the tick after the first ends it or orders the rollback to
-- the recorded value, with the intent on record; and once that rollback was sent, the tick after the
-- second ends it.
pub ends_in_two_deadlines :
    (t : Txn) (first sent second : ℕ)
    → counting t ≡ true
    → t.wait_start_ms + t.deadline_ms ≤ first
    → sent + t.deadline_ms ≤ second
    → let u = (on_tick t first).0 in
      ((is_final u.phase ≡ true) × ((on_tick t first).1 ≡ finished))
      ⊎ ((u.phase ≡ rolling_back)
          × (u.intent ≡ some to_roll_back)
          × ((on_tick t first).1 ≡ rollback t.rollback_to)
          × (is_final (on_tick (rollback_sent u sent) second).0.phase ≡ true)
          × ((on_tick (rollback_sent u sent) second).1 ≡ finished))
unfolding on_tick counting expire start_rollback finish rollback_sent
ends_in_two_deadlines t first sent second c h k = ground arith

-- The time left that clients are shown never exceeds the deadline, and is 0 exactly when a tick
-- would end the wait.
pub remaining_zero_iff :
    (t : Txn) (now : ℕ)
    → counting t ≡ true
    → (left : ℕ) × (remaining_ms t now ≡ some left)
      × (left ≤ t.deadline_ms)
      × ((left ≡ 0) ↔ ((on_tick t now).1 ≢ wait))
unfolding on_tick counting expire start_rollback finish remaining_ms
remaining_zero_iff t now c = (
  t.deadline_ms - (now - t.wait_start_ms),
  ground arith,
  omega arith,
  ((λ z. ground arith), (λ z. ground arith)),
)

-- The events of a wait: readings, and ticks without one.
abbrev pub IsWait : Event → Type 0
IsWait (read_came r now) = Unit {0}
IsWait (read_failed now) = Unit {0}
IsWait _ = ⊥

abbrev pub AllWaits : List Event → Type 0
AllWaits [] = Unit {0}
AllWaits (e ∷ es) = IsWait e × AllWaits es
