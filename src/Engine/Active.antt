-- ===== src/Engine/Active.antt =====
-- What ends the transaction in progress or asks it to change: `ack`, `notice_ack`, `other_write`,
-- `interrupt`, `start`, `revert`, `keep`, `preempt`, `legacy_gate` (rust/src/ops/engine.rs). Waking the
-- driver and the drain task is left out: a wake-up only lets another step come sooner.
use zte_u60_pro_mu5250_data.Common.{
  ℕ, String, str_eq, Bool, true, false, ◌&&◌, ◌||◌, not, Option, none, some, is_some, if◌then◌else◌,
  Result, ok, err,
}
use zte_u60_pro_mu5250_data.Txn.Types.{
  Source, is_user, Txn, Reason, superseded, preempted, takeover, other_change,
}
use zte_u60_pro_mu5250_data.Txn.Ops.{cancel, revert, keep, waiting, Refusal}
use zte_u60_pro_mu5250_data.Txn.Resume.{resume}
use zte_u60_pro_mu5250_data.Engine.State.{
  Last, ack_line, notice_line, interrupt_line, World, log, publish_block, persist, finish_active,
  put, live, find,
}
use zte_u60_pro_mu5250_data.Engine.Legacy.{drop_legacy}

pub data Refused : Type 0 where
  no_such_change : Refused
  refused : Refusal → Refused

pub data LegacyGate : Type 0 where
  pass queue_it : LegacyGate

-- Waits for its outcome, with no write under way.
abbrev pub replaceable : Txn → Bool
replaceable t = waiting t.phase && not (is_some t.intent)

module _ {V : Type 0} where
  -- `t.cancel(why)` on the transaction in progress, then `finish`.
  abbrev pub cancel_active : Txn → Reason → ℕ → World V → World V
  cancel_active t why now w = finish_active (put w (cancel t why)) now

  ack_last : Last → String → Source → World V → ℕ → World V
  ack_last l id source w now =
      if l.acked
      then publish_block w now
      else (let l' = record l { acked = true } in
          let w' = record w {
            stored_last = if w.disk then some l' else w.stored_last;
            lost = w.lost || not w.disk;
            st = record w.st { last = some l' };
          } in
          publish_block (log w' (ack_line source id l.txn.item)) now)

  -- Whether the id is that of the last change that ended.
  unfoldable pub ack : String → Source → ℕ → World V → World V × Bool
  unfolding ack_last
  ack id source now w = elim w.st.last [
    | none ↦ (w, false)
    | some l ↦ if str_eq l.txn.op_id id then (ack_last l id source w now, true) else (w, false)
  ]

  unfoldable pub notice_ack : Source → ℕ → World V → World V
  notice_ack source now w =
      if w.st.notice_acked
      then publish_block w now
      else (let w' = record w {
        stored_notice = w.disk || w.stored_notice;
        lost = w.lost || not w.disk;
        st = record w.st { notice_acked = true };
      } in
          publish_block (log w' (notice_line source)) now)

  -- An error holds the transaction that is in the way.
  unfoldable pub other_write : Source → ℕ → World V → World V × Result Txn (Unit {0})
  other_write source now w = elim w.st.active [
    | none ↦ (w, ok tt)
    | some t ↦
        if not (is_user source) then (w, err t) else (cancel_active t other_change now w, ok tt)
  ]

  -- The id of the transaction that was cancelled.
  unfoldable pub interrupt : Source → String → ℕ → World V → World V × Option String
  interrupt source what now w = elim w.st.active [
    | none ↦ (w, none)
    | some t ↦ (
      log (cancel_active t other_change now w) (interrupt_line source t.op_id t.item what),
      some t.op_id,
    )
  ]

  -- `start`, with whether there was a takeover marker and the id of this boot.
  unfoldable pub start : Bool → String → ℕ → World V → World V
  start taken boot_id now w = elim w.pending [
    | none ↦ w
    | some t ↦
        let t' = if taken then cancel t takeover else (resume t boot_id now).0 in
        finish_active (persist (put w t') true now) now
  ]

  -- `revert`: the intent is on disk before the driver is woken.
  unfoldable pub revert_active : String → ℕ → World V → World V × Result Refused (Unit {0})
  revert_active id now w = elim (live w.st id) [
    | none ↦ (w, err no_such_change)
    | some t ↦ elim (revert t).1 [
      | ok n ↦ (persist (put w (revert t).0) true now, ok tt)
      | err e ↦ (w, err (refused e))
    ]
  ]

  unfoldable pub keep_active : String → ℕ → World V → World V × Result Refused (Option Txn)
  keep_active id now w = elim (live w.st id) [
    | none ↦ (w, err no_such_change)
    | some t ↦ elim (keep t).1 [
      | ok n ↦ let w' = finish_active (put w (keep t).0) now in (w', ok (find w'.st id))
      | err e ↦ (w, err (refused e))
    ]
  ]

  unfoldable pub preempt : ℕ → World V → World V
  preempt now w =
      let w' : World V = elim w.st.active [ none ↦ w | some t ↦ cancel_active t preempted now w ] in
      drop_legacy "a safety write" w'

  unfoldable pub gate_item : String → ℕ → World V → World V × LegacyGate
  gate_item item now w = if is_some w.st.session then (w, queue_it) else (elim w.st.active [
    | none ↦ (w, pass)
    | some t ↦
        if str_eq t.item item && replaceable t
        then (cancel_active t superseded now w, pass)
        else (w, queue_it)
  ])

  unfoldable pub legacy_gate : Option String → Bool → ℕ → World V → World V × LegacyGate
  legacy_gate item safety now w =
      if safety
      then (preempt now w, pass)
      else (elim item [ none ↦ (w, pass) | some i ↦ gate_item i now w ])
