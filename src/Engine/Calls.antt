-- ===== src/Engine/Calls.antt =====
-- The queue, sessions and interruptions keep the engine's invariant (rust/src/ops/engine.rs).
use zte_u60_pro_mu5250_data.Common.{
  ℕ, ◌-◌, String, str_eq, Bool, Option, none, some, List, [], ◌∷◌, ltb, if◌then◌else◌, ◌≡◌, refl,
  arith,
}
use zte_u60_pro_mu5250_data.Txn.Types.{Source, Txn, superseded, preempted, other_change}
use zte_u60_pro_mu5250_data.Engine.State.{Config, LegacyReq, World, legacy_line, log}
use zte_u60_pro_mu5250_data.Engine.Active.{interrupt, preempt, gate_item, cancel_active}
use zte_u60_pro_mu5250_data.Engine.Legacy.{
  drop_legacy, log_dropped, log_replaced, log_expired, enqueue_legacy, kick_legacy, drain_take,
  drain_again, put_back,
}
use zte_u60_pro_mu5250_data.Engine.Sessions.{
  reap_session, session_open, session_renew, session_close, session_gate,
}
use zte_u60_pro_mu5250_data.Engine.Invariant.{Inv, cancel_active-Inv}

module _ {V : Type 0} where
  -- The invariant reads nothing but these.
  abbrev pub SameCore : World V → World V → Type 0
  SameCore w w' =
      (w'.st.active ≡ w.st.active)
      × (w'.st.session ≡ w.st.session)
      × (w'.st.recent ≡ w.st.recent)
      × (w'.pending ≡ w.pending)
      × (w'.lost ≡ w.lost)

  pub SameCore-Inv : (w w' : World V) → SameCore w w' → Inv w → Inv w'
  SameCore-Inv w w' s h = ground arith

  log_dropped-Same :
      (q : List (LegacyReq V)) (why : String) (w : World V) → SameCore w (log_dropped q why w)
  unfolding log_dropped
  log_dropped-Same [] why w = ground arith
  log_dropped-Same (r ∷ more) why w =
      log_dropped-Same more why (log w (legacy_line r "dropped" (some why)))

  pub drop_legacy-Inv : (why : String) (w : World V) → Inv w → Inv (drop_legacy why w)
  unfolding drop_legacy
  drop_legacy-Inv why w h =
      SameCore-Inv w (drop_legacy why w) (ground (arith, log_dropped-Same w.st.queue why w)) h

  log_replaced-Same :
      (item : String) (q : List (LegacyReq V)) (w : World V) → SameCore w (log_replaced item q w)
  unfolding log_replaced
  log_replaced-Same item [] w = ground arith
  log_replaced-Same item (r ∷ more) w = ground (
    arith,
    log_replaced-Same item more
        (if str_eq r.item item then log w (legacy_line r "replaced" none) else w),
  )

  log_expired-Same :
      (ttl now : ℕ) (q : List (LegacyReq V)) (w : World V) → SameCore w (log_expired ttl now q w)
  unfolding log_expired
  log_expired-Same ttl now [] w = ground arith
  log_expired-Same ttl now (r ∷ more) w = ground (
    arith,
    log_expired-Same ttl now more
        (if ltb (now - r.at_ms) ttl then w else log w (legacy_line r "dropped" (some "expired"))),
  )

  pub enqueue-Inv :
      (item action : String) (params : V) (now : ℕ) (w : World V)
      → Inv w
      → Inv (enqueue_legacy item action params now w)
  unfolding enqueue_legacy
  enqueue-Inv item action params now w h =
      SameCore-Inv w (enqueue_legacy item action params now w)
        (ground (arith, log_replaced-Same item w.st.queue w)) h

  pub take-Inv : (cfg : Config) (now : ℕ) (w : World V) → Inv w → Inv (drain_take cfg now w).0
  unfolding drain_take
  take-Inv cfg now w h =
      SameCore-Inv w (drain_take cfg now w).0
        (ground (arith, log_expired-Same cfg.legacy_ttl_ms now w.st.queue w)) h

  pub put_back-Inv : (req : LegacyReq V) (w : World V) → Inv w → Inv (put_back req w)
  unfolding put_back
  put_back-Inv req w h = ground arith

  pub kick-Inv : (b : Bool) (w : World V) → Inv w → Inv (kick_legacy b w).0
  unfolding kick_legacy
  kick-Inv b w h = ground arith

  pub again-Inv : (w : World V) → Inv w → Inv (drain_again w).0
  unfolding drain_again
  again-Inv w h = ground arith

  pub reap-Inv : (now : ℕ) (w : World V) → Inv w → Inv (reap_session now w)
  unfolding reap_session
  reap-Inv now w h = ground arith

  pub open-Inv :
      (id : String) (s : Source) (now : ℕ) (w : World V) → Inv w → Inv (session_open id s now w).0
  unfolding session_open
  open-Inv id s now w h = ground (arith, reap-Inv now w h)

  pub renew-Inv : (id : String) (now : ℕ) (w : World V) → Inv w → Inv (session_renew id now w).0
  unfolding session_renew
  renew-Inv id now w h = ground (arith, reap-Inv now w h)

  pub close-Inv :
      (id : String) (r : Option String) (now : ℕ) (w : World V)
      → Inv w
      → Inv (session_close id r now w).0
  unfolding session_close
  close-Inv id r now w h = ground (arith, reap-Inv now w h)

  pub session_gate-Inv :
      (a : String) (x : Option String) (now : ℕ) (w : World V)
      → Inv w
      → Inv (session_gate a x now w).0
  unfolding session_gate
  session_gate-Inv a x now w h = ground (arith, reap-Inv now w h)

  pub interrupt-Inv :
      (source : Source) (what : String) (now : ℕ) (w : World V)
      → Inv w
      → Inv (interrupt source what now w).0
  unfolding interrupt
  interrupt-Inv source what now w h = by_active w.st.active refl
    where
      by_active : (a : Option Txn) → w.st.active ≡ a → Inv (interrupt source what now w).0
      by_active none e = rw (e, interrupt) h
      by_active (some t) e =
          rw (e, interrupt) (ground (arith, cancel_active-Inv t other_change now w h))

  pub gate-Inv : (item : String) (now : ℕ) (w : World V) → Inv w → Inv (gate_item item now w).0
  unfolding gate_item
  gate-Inv item now w h = by_active w.st.active refl
    where
      by_active : (a : Option Txn) → w.st.active ≡ a → Inv (gate_item item now w).0
      by_active none e = rw (e, gate_item) (ground arith)
      by_active (some t) e =
          rw (e, gate_item) (ground (arith, cancel_active-Inv t superseded now w h))

  pub preempt-Inv : (now : ℕ) (w : World V) → Inv w → Inv (preempt now w)
  unfolding preempt
  preempt-Inv now w h = drop_legacy-Inv "a safety write" _ (by_active w.st.active refl)
    where
      by_active :
          (a : Option Txn)
          → w.st.active ≡ a
          → Inv (elim w.st.active as (λ x. World V) [
            | none ↦ w
            | some t ↦ cancel_active t preempted now w
          ])
      by_active none e = rw e h
      by_active (some t) e = rw e (cancel_active-Inv t preempted now w h)
