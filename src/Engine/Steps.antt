-- ===== src/Engine/Steps.antt =====
-- Everything that can happen to the engine, in any order: each call is a part of a request or a task
-- that runs in the lock, without a wait (rust/src/ops/engine.rs). `disk_call` is the store, which
-- may stop being written and be written again at any time between them.
use zte_u60_pro_mu5250_data.Common.{ℕ, String, Bool, Option, List, [], ◌∷◌, Result}
use zte_u60_pro_mu5250_data.Txn.Types.{Source, Txn, Reading, Applied}
use zte_u60_pro_mu5250_data.Engine.State.{Config, LegacyReq, Last, World, new_engine}
use zte_u60_pro_mu5250_data.Engine.Active.{
  ack, notice_ack, other_write, interrupt, start, revert_active, keep_active, preempt, legacy_gate,
}
use zte_u60_pro_mu5250_data.Engine.Submit.{Request, submit_begin, submit_end}
use zte_u60_pro_mu5250_data.Engine.Drive.{
  drive_reading, rollback_begin, rollback_check, rollback_done,
}
use zte_u60_pro_mu5250_data.Engine.Legacy.{
  clear_legacy, enqueue_legacy, kick_legacy, drain_take, drain_stop, drain_again, put_back,
}
use zte_u60_pro_mu5250_data.Engine.Sessions.{
  reap_session, session_open, session_renew, session_close, session_gate,
}

pub data Call (V : Type 0) : Type 0 where
  ack_call : String → Source → ℕ → Call V
  notice_call : Source → ℕ → Call V
  other_call : Source → ℕ → Call V
  interrupt_call : Source → String → ℕ → Call V
  begin_call : Request → String → Result String Reading → String → ℕ → Call V
  end_call : Request → String → Applied → ℕ → Call V
  reading_call : String → ℕ → Option Reading → ℕ → Call V
  rollback_begin_call rollback_done_call : String → ℕ → Call V
  rollback_check_call : String → Result String Reading → ℕ → Call V
  revert_call keep_call : String → ℕ → Call V
  preempt_call : ℕ → Call V
  clear_call : String → Call V
  gate_call : Option String → Bool → ℕ → Call V
  enqueue_call : String → String → V → ℕ → Call V
  kick_call : Bool → Call V
  take_call reap_call : ℕ → Call V
  stop_call again_call : Call V
  put_back_call : LegacyReq V → Call V
  open_call : String → Source → ℕ → Call V
  renew_call : String → ℕ → Call V
  close_call : String → Option String → ℕ → Call V
  disk_call : Bool → Call V
  session_gate_call : String → Option String → ℕ → Call V

module _ {V : Type 0} where
  unfoldable pub perform : Config → World V → Call V → World V
  perform cfg w (ack_call id source now) = (ack id source now w).0
  perform cfg w (notice_call source now) = notice_ack source now w
  perform cfg w (other_call source now) = (other_write source now w).0
  perform cfg w (interrupt_call source what now) = (interrupt source what now w).0
  perform cfg w (begin_call req id r boot_id now) = (submit_begin cfg req id r boot_id now w).0
  perform cfg w (end_call req id outcome now) = (submit_end req id outcome now w).0
  perform cfg w (reading_call id generation r now) = drive_reading id generation r now w
  perform cfg w (rollback_begin_call id now) = (rollback_begin id now w).0
  perform cfg w (rollback_done_call id now) = rollback_done id now w
  perform cfg w (rollback_check_call id r now) = (rollback_check id r now w).0
  perform cfg w (revert_call id now) = (revert_active id now w).0
  perform cfg w (keep_call id now) = (keep_active id now w).0
  perform cfg w (preempt_call now) = preempt now w
  perform cfg w (clear_call why) = clear_legacy why w
  perform cfg w (gate_call item safety now) = (legacy_gate item safety now w).0
  perform cfg w (enqueue_call item action params now) = enqueue_legacy item action params now w
  perform cfg w (kick_call runner) = (kick_legacy runner w).0
  perform cfg w (take_call now) = (drain_take cfg now w).0
  perform cfg w (reap_call now) = reap_session now w
  perform cfg w stop_call = drain_stop w
  perform cfg w again_call = (drain_again w).0
  perform cfg w (put_back_call req) = put_back req w
  perform cfg w (open_call id source now) = (session_open id source now w).0
  perform cfg w (renew_call id now) = (session_renew id now w).0
  perform cfg w (close_call id result now) = (session_close id result now w).0
  perform cfg w (disk_call works) = record w { disk = works }
  perform cfg w (session_gate_call action session now) = (session_gate action session now w).0

  unfoldable pub perform_all : Config → World V → List (Call V) → World V
  perform_all cfg w [] = w
  perform_all cfg w (c ∷ more) = perform_all cfg (perform cfg w c) more

  -- datad has started, with what the store held: writes are let in only after `start`.
  unfoldable pub boot : Bool → Option Txn → Option Last → Bool → Bool → String → ℕ → World V
  boot disk pending last acked taken boot_id now =
      start taken boot_id now (new_engine disk pending last acked)
