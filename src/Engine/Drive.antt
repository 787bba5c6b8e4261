-- ===== src/Engine/Drive.antt =====
-- The driver of a transaction: `drive`, `send_rollback`, `rollback_sent` (rust/src/ops/engine.rs), cut
-- at their waits. Logging of failed probes is left out.
use zte_u60_pro_mu5250_data.Common.{
  ℕ, String, Bool, true, false, ◌&&◌, not, Option, none, some, ◌==◌, if◌then◌else◌, Result, ok, err,
}
use zte_u60_pro_mu5250_data.Txn.Types.{
  Txn, Reading, SimCheck, unchanged, changed, unknown, sim_check, sim_changed, ProbeTarget, Intent,
  to_roll_back,
}
use zte_u60_pro_mu5250_data.Txn.Ops.{is_rolling_back, on_tick, rollback_sent}
use zte_u60_pro_mu5250_data.Txn.Judge.{wants_probe}
use zte_u60_pro_mu5250_data.Txn.Verdict.{on_reading}
use zte_u60_pro_mu5250_data.Engine.State.{World, persist, finish_active, put, live}
use zte_u60_pro_mu5250_data.Engine.Active.{cancel_active}

is_to_roll_back : Option Intent → Bool
is_to_roll_back (some to_roll_back) = true
is_to_roll_back _ = false

unfoldable pub feed : Txn → Option Reading → ℕ → Txn
feed t none now = (on_tick t now).0
feed t (some r) now = (on_reading t r now).0

pub data Go : Type 0 where
  write_it drop_it try_later : Go

unfoldable pub checked : Txn → Result String Reading → SimCheck
checked t (ok r) = sim_check t.sim r.sim
checked t (err e) = unknown

module _ {V : Type 0} where
  -- The top of the loop: the generation, and the value to roll back to if that is to be sent; `none`
  -- ends the driver.
  unfoldable pub drive_look : String → World V → Option (ℕ × Option String)
  unfolding is_to_roll_back
  drive_look id w = elim (live w.st id) [
    | none ↦ none
    | some t ↦ some (
      t.generation,
      if is_rolling_back t.phase && is_to_roll_back t.intent then some t.rollback_to else none,
    )
  ]

  -- Whether the reading asks for a probe.
  unfoldable pub drive_probe : String → Reading → ℕ → World V → Option (Option ProbeTarget)
  drive_probe id r now w = elim (live w.st id) [ none ↦ none | some t ↦ some (wants_probe t r now) ]

  -- The end of the loop: the reading, `none` if there is none, of the time when the generation was
  -- `generation`.
  unfoldable pub drive_reading : String → ℕ → Option Reading → ℕ → World V → World V
  unfolding feed
  drive_reading id generation r now w = elim (live w.st id) [
    | none ↦ w
    | some t ↦
        if not (t.generation == generation)
        then w
        else (let t' = feed t r now in
            finish_active (persist (put w t') (not (t'.generation == generation)) now) now)
  ]

  -- `send_rollback` up to its reading; the answer is whether it goes on.
  unfoldable pub rollback_begin : String → ℕ → World V → World V × Bool
  rollback_begin id now w = elim (live w.st id) [
    | none ↦ (w, false)
    | some t ↦ (persist w true now, true)
  ]

  -- `send_rollback` between its reading and its write.
  unfoldable pub rollback_check : String → Result String Reading → ℕ → World V → World V × Go
  unfolding checked
  rollback_check id reading now w = elim (live w.st id) [
    | none ↦ (w, drop_it)
    | some t ↦ elim (checked t reading) [
      | unchanged ↦ (w, write_it)
      | changed ↦ (cancel_active t sim_changed now w, drop_it)
      | unknown ↦ (w, try_later)
    ]
  ]

  -- After the write of the rollback.
  unfoldable pub rollback_done : String → ℕ → World V → World V
  rollback_done id now w = elim (live w.st id) [
    | none ↦ w
    | some t ↦ persist (put w (rollback_sent t now)) true now
  ]
