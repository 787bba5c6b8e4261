-- ===== src/Engine/Life.antt =====
-- The engine from the start of datad on, whatever happens in whatever order, and over a crash
-- (rust/src/ops/engine.rs).
use zte_u60_pro_mu5250_data.Common.{
  ℕ, ◌≤◌, String, Bool, true, false, Option, none, some, List, [], ◌∷◌, if◌then◌else◌, ◌≡◌, refl,
  arith, inl, inr, Bool-cases, length,
}
use zte_u60_pro_mu5250_data.Txn.Types.{Txn, is_final, takeover}
use zte_u60_pro_mu5250_data.Txn.Ops.{cancel}
use zte_u60_pro_mu5250_data.Txn.Resume.{resume}
use zte_u60_pro_mu5250_data.Engine.State.{
  Config, Last, World, persist, finish_active, put, retire, new_engine, recent_limit,
}
use zte_u60_pro_mu5250_data.Engine.Active.{start, legacy_gate}
use zte_u60_pro_mu5250_data.Engine.Legacy.{clear_legacy, drain_stop}
use zte_u60_pro_mu5250_data.Engine.Stored.{SameStage-self}
use zte_u60_pro_mu5250_data.Engine.Invariant.{
  Inv, length-remember, ack-Inv, notice_ack-Inv, other_write-Inv,
}
use zte_u60_pro_mu5250_data.Engine.Calls.{
  drop_legacy-Inv, enqueue-Inv, take-Inv, put_back-Inv, kick-Inv, again-Inv, reap-Inv, open-Inv,
  renew-Inv, close-Inv, session_gate-Inv, interrupt-Inv, gate-Inv, preempt-Inv,
}
use zte_u60_pro_mu5250_data.Engine.Changes.{
  revert-Inv, keep-Inv, reading-Inv, rollback_begin-Inv, rollback_check-Inv, rollback_done-Inv,
}
use zte_u60_pro_mu5250_data.Engine.Submitting.{begin-Inv, end-Inv}
use zte_u60_pro_mu5250_data.Engine.Steps.{
  Call, ack_call, notice_call, other_call, interrupt_call, begin_call, end_call, reading_call,
  rollback_begin_call, rollback_done_call, rollback_check_call, revert_call, keep_call,
  preempt_call, clear_call, gate_call, enqueue_call, kick_call, take_call, reap_call, stop_call,
  again_call, put_back_call, open_call, renew_call, close_call, disk_call, session_gate_call,
  perform, perform_all, boot,
}

module _ {V : Type 0} where
  pub legacy_gate-Inv :
      (item : Option String) (safety : Bool) (now : ℕ) (w : World V)
      → Inv w
      → Inv (legacy_gate item safety now w).0
  unfolding legacy_gate
  legacy_gate-Inv item true now w h = preempt-Inv now w h
  legacy_gate-Inv none false now w h = h
  legacy_gate-Inv (some i) false now w h = gate-Inv i now w h

  pub perform-Inv : (cfg : Config) (w : World V) (c : Call V) → Inv w → Inv (perform cfg w c)
  unfolding perform clear_legacy drain_stop
  perform-Inv cfg w (ack_call id source now) h = ack-Inv id source now w h
  perform-Inv cfg w (notice_call source now) h = notice_ack-Inv source now w h
  perform-Inv cfg w (other_call source now) h = other_write-Inv source now w h
  perform-Inv cfg w (interrupt_call source what now) h = interrupt-Inv source what now w h
  perform-Inv cfg w (begin_call req id r boot_id now) h = begin-Inv cfg req id r boot_id now w h
  perform-Inv cfg w (end_call req id outcome now) h = end-Inv req id outcome now w h
  perform-Inv cfg w (reading_call id generation r now) h = reading-Inv id generation r now w h
  perform-Inv cfg w (rollback_begin_call id now) h = rollback_begin-Inv id now w h
  perform-Inv cfg w (rollback_done_call id now) h = rollback_done-Inv id now w h
  perform-Inv cfg w (rollback_check_call id r now) h = rollback_check-Inv id r now w h
  perform-Inv cfg w (revert_call id now) h = revert-Inv id now w h
  perform-Inv cfg w (keep_call id now) h = keep-Inv id now w h
  perform-Inv cfg w (preempt_call now) h = preempt-Inv now w h
  perform-Inv cfg w (clear_call why) h = drop_legacy-Inv why w h
  perform-Inv cfg w (gate_call item safety now) h = legacy_gate-Inv item safety now w h
  perform-Inv cfg w (enqueue_call item action params now) h = enqueue-Inv item action params now w h
  perform-Inv cfg w (kick_call runner) h = kick-Inv runner w h
  perform-Inv cfg w (take_call now) h = take-Inv cfg now w h
  perform-Inv cfg w (reap_call now) h = reap-Inv now w h
  perform-Inv cfg w stop_call h = ground arith
  perform-Inv cfg w again_call h = again-Inv w h
  perform-Inv cfg w (put_back_call req) h = put_back-Inv req w h
  perform-Inv cfg w (open_call id source now) h = open-Inv id source now w h
  perform-Inv cfg w (renew_call id now) h = renew-Inv id now w h
  perform-Inv cfg w (close_call id result now) h = close-Inv id result now w h
  perform-Inv cfg w (disk_call works) h = ground arith
  perform-Inv cfg w (session_gate_call action session now) h =
      session_gate-Inv action session now w h

  -- A transaction put in place from the store, saved, and finished if it has ended.
  pub record Loaded (t : Txn) (w w' : World V) : Type 0 where
    pub active : w'.st.active ≡ (if is_final t.phase then none else some t)
    pub pending : w'.lost ≡ false → w'.pending ≡ (if is_final t.phase then none else some t)
    pub session : w'.st.session ≡ w.st.session
    pub kept : w.disk ≡ true → w.lost ≡ false → w'.lost ≡ false
    pub last : is_final t.phase ≡ true → w'.st.last ≡ some (record { txn = t; acked = false })
    pub stored :
        w'.lost ≡ false
        → is_final t.phase ≡ true
        → w'.stored_last ≡ some (record { txn = t; acked = false })

  pub load_one :
      (t : Txn) (now : ℕ) (w : World V)
      → Loaded t w (finish_active (persist (put w t) true now) now)
  unfolding persist finish_active retire
  load_one t now w = elim (Bool-cases (is_final t.phase)) [
    | inl e ↦ ground arith
    | inr e ↦ ground arith
  ]

  load_recent :
      (t : Txn) (now : ℕ) (w : World V)
      → length w.st.recent ≤ recent_limit
      → length (finish_active (persist (put w t) true now) now).st.recent ≤ recent_limit
  unfolding persist finish_active retire
  load_recent t now w h = elim (Bool-cases (is_final t.phase)) [
    | inl e ↦ ground (arith, length-remember w.st.recent t)
    | inr e ↦ ground arith
  ]

  load-Inv :
      (t : Txn) (now : ℕ) (w : World V)
      → w.st.session ≡ none
      → length w.st.recent ≤ recent_limit
      → Inv (finish_active (persist (put w t) true now) now)
  load-Inv t now w n b = elim (Bool-cases (is_final t.phase)) [
    | inl e ↦ ground (arith, load_one t now w, load_recent t now w b)
    | inr e ↦ ground (arith, load_one t now w, load_recent t now w b, SameStage-self t)
  ]

  boot-Inv :
      (disk : Bool) (p : Option Txn) (l : Option Last) (acked taken : Bool) (boot_id : String)
      (now : ℕ)
      → Inv (boot {V = V} disk p l acked taken boot_id now)
  unfolding boot start new_engine
  boot-Inv disk none l acked taken boot_id now = ground arith
  boot-Inv disk (some t) l acked taken boot_id now =
      load-Inv (if taken then cancel t takeover else (resume t boot_id now).0) now
        (new_engine disk (some t) l acked) refl (ground arith)

  perform_all-Inv :
      (cfg : Config) (calls : List (Call V)) (w : World V) → Inv w → Inv (perform_all cfg w calls)
  unfolding perform_all
  perform_all-Inv cfg [] w h = h
  perform_all-Inv cfg (c ∷ more) w h =
      perform_all-Inv cfg more (perform cfg w c) (perform-Inv cfg w c h)

  -- From the start of datad, with anything in the store, and after any calls in any order, the store
  -- failing and recovering between them: a transaction in progress has no outcome yet; as long as no
  -- write to the store was lost, the pending file is there exactly while a transaction is in progress,
  -- and then it has its id, item, target, phase, intent and rollback target; there is never a session
  -- beside a transaction; and no more than 16 transactions are remembered.
  pub any_order-Inv :
      (cfg : Config) (calls : List (Call V)) (disk : Bool) (p : Option Txn) (l : Option Last)
      (acked taken : Bool) (boot_id : String) (now : ℕ)
      → Inv (perform_all cfg (boot disk p l acked taken boot_id now) calls)
  any_order-Inv cfg calls disk p l acked taken boot_id now =
      perform_all-Inv cfg calls (boot disk p l acked taken boot_id now)
        (boot-Inv disk p l acked taken boot_id now)
