-- ===== src/Engine/Rollbacks.antt =====
-- When the engine lets the write of a rollback go out (rust/src/ops/engine.rs).
use zte_u60_pro_mu5250_data.Common.{
  ℕ, String, false, Option, none, some, Result, ok, ◌≡◌, refl, arith,
}
use zte_u60_pro_mu5250_data.Txn.Types.{
  Txn, Reading, SimCheck, unchanged, changed, unknown, sim_check, sim_changed,
}
use zte_u60_pro_mu5250_data.Engine.State.{World, live}
use zte_u60_pro_mu5250_data.Engine.Active.{cancel_active}
use zte_u60_pro_mu5250_data.Engine.Drive.{rollback_check, Go, write_it, drop_it, try_later, checked}
use zte_u60_pro_mu5250_data.Engine.Stored.{SameStage}
use zte_u60_pro_mu5250_data.Engine.Invariant.{Inv, in_progress}
use zte_u60_pro_mu5250_data.Engine.Changes.{live_active, live-op_id}
use zte_u60_pro_mu5250_data.Engine.Writes.{checked_unchanged}

module _ {V : Type 0} where
  -- Nothing has changed, and the transaction in progress has the id, is on disk if no write was lost,
  -- and began with the SIM that is read.
  abbrev pub Unchanged : String → Result String Reading → World V → World V → Type 0
  Unchanged id reading w w' =
      (w' ≡ w)
      × ((t d : Txn) × (r : Reading) × (w.st.active ≡ some t)
          × (t.op_id ≡ id)
          × (w.lost ≡ false → w.pending ≡ some d)
          × SameStage t d
          × (reading ≡ ok r)
          × (sim_check t.sim r.sim ≡ unchanged))

  -- The value of a rollback is written only while the transaction of its id is the one in progress and
  -- the device has been read with the SIM that the transaction began with; as long as no write to the
  -- store was lost the transaction's stage is on disk; and the check before the write changes nothing.
  pub rollback_written :
      (id : String) (reading : Result String Reading) (now : ℕ) (w : World V)
      → Inv w
      → (rollback_check id reading now w).1 ≡ write_it
      → Unchanged id reading w (rollback_check id reading now w).0
  unfolding rollback_check
  rollback_written id reading now w h = by_live (live w.st id) refl
    where
      by_check :
          (t : Txn) (c : SimCheck)
          → w.st.active ≡ some t
          → t.op_id ≡ id
          → checked t reading ≡ c
          → let res = elim c as (λ x. World V × Go) [
            | unchanged ↦ (w, write_it)
            | changed ↦ (cancel_active t sim_changed now w, drop_it)
            | unknown ↦ (w, try_later)
          ] in
            res.1 ≡ write_it → Unchanged id reading w res.0
      by_check t unchanged a i e g =
          let (n, f, (d, p, s)) = in_progress t w h a in
          let (r, q, c) = checked_unchanged t reading e in (refl, (t, d, r, a, i, p, s, q, c))
      by_check t changed a i e g = ground arith
      by_check t unknown a i e g = ground arith

      by_live :
          (o : Option Txn)
          → live w.st id ≡ o
          → let res = elim o as (λ x. World V × Go) [
            | none ↦ (w, drop_it)
            | some t ↦ elim (checked t reading) as (λ x. World V × Go) [
              | unchanged ↦ (w, write_it)
              | changed ↦ (cancel_active t sim_changed now w, drop_it)
              | unknown ↦ (w, try_later)
            ]
          ] in
            res.1 ≡ write_it → Unchanged id reading w res.0
      by_live none e g = ground arith
      by_live (some t) e g =
          by_check t (checked t reading) (live_active w.st id t e) (live-op_id w.st id t e) refl g
