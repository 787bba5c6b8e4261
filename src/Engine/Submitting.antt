-- ===== src/Engine/Submitting.antt =====
-- The parts of `submit` keep the engine's invariant (rust/src/ops/engine.rs).
use zte_u60_pro_mu5250_data.Common.{
  ℕ, ◌≤◌, String, Bool, true, false, Option, none, some, length, if◌then◌else◌, Result, ◌≡◌, refl,
  arith,
}
use zte_u60_pro_mu5250_data.Txn.Types.{Txn, Reading, Applied, is_final, superseded}
use zte_u60_pro_mu5250_data.Txn.Ops.{cancel, applied}
use zte_u60_pro_mu5250_data.Engine.State.{
  Config, St, World, emit, owner, recent_limit, retire, persist, put, live,
}
use zte_u60_pro_mu5250_data.Engine.Submit.{
  Request, submit_begin, submit_end, note_applied, Submit, no_capture, give_way, stops, capture,
  new_txn, Captured, is_failed_write,
}
use zte_u60_pro_mu5250_data.Engine.Stored.{SameStage-self, Kept, persist-Kept}
use zte_u60_pro_mu5250_data.Engine.Invariant.{Inv, in_progress, length-remember}
use zte_u60_pro_mu5250_data.Engine.Calls.{SameCore-Inv}
use zte_u60_pro_mu5250_data.Engine.Changes.{
  applied_not_final, new_not_final, live_active, goes_on-Inv, saved_again-Inv,
}

module _ {V : Type 0} where
  persist-Inv : (now : ℕ) (w : World V) → Inv w → Inv (persist w true now)
  unfolding persist
  persist-Inv now w h = by_active w.st.active refl
    where
      by_active : (a : Option Txn) → w.st.active ≡ a → Inv (persist w true now)
      by_active none e = rw (e, persist) (ground arith)
      by_active (some t) e = saved_again-Inv t now w h e

  note_applied-Inv :
      (id : String) (outcome : Applied) (now : ℕ) (w : World V)
      → Inv w
      → Inv (note_applied id outcome now w).0
  unfolding note_applied
  note_applied-Inv id outcome now w h = by_live (live w.st id) refl
    where
      by_live : (o : Option Txn) → live w.st id ≡ o → Inv (note_applied id outcome now w).0
      by_live none e = rw (e, note_applied) (persist-Inv now w h)
      by_live (some t) e =
          let a = live_active w.st id t e in
          rw (e, note_applied)
            (goes_on-Inv t (applied t outcome now) now w h a
              (applied_not_final t outcome now (in_progress t w h a).1))

  pub end-Inv :
      (req : Request) (id : String) (outcome : Applied) (now : ℕ) (w : World V)
      → Inv w
      → Inv (submit_end req id outcome now w).0
  unfolding submit_end
  end-Inv req id outcome now w h = by_reached (is_failed_write outcome)
    where
      by_reached :
          (b : Bool)
          → Inv
              (note_applied id outcome now (
                if b
                then w
                else emit w (owner req.spec.item req.source req.undo req.target (some id)))).0
      by_reached true = note_applied-Inv id outcome now w h
      by_reached false =
          note_applied-Inv id outcome now
            (emit w (owner req.spec.item req.source req.undo req.target (some id)))
            (SameCore-Inv w _ (refl, refl, refl, refl, refl) h)

  -- A write may go out only without a session.
  pub stops-none :
      (req : Request) (id : String) (s : St V) → stops req id s ≡ none → s.session ≡ none
  unfolding stops
  stops-none req id s h = ground arith

  -- What `give_way` leaves.
  pub give_way_leaves :
      (w : World V)
      → Inv w
      → ((give_way w).0.st.session ≡ w.st.session)
        × (length (give_way w).0.st.recent ≤ recent_limit)
  unfolding give_way retire
  give_way_leaves w h = by_active w.st.active refl
    where
      by_active :
          (a : Option Txn)
          → w.st.active ≡ a
          → ((give_way w).0.st.session ≡ w.st.session)
            × (length (give_way w).0.st.recent ≤ recent_limit)
      by_active none e = rw (e, give_way) (refl, h.bounded)
      by_active (some t) e =
          rw (e, give_way) (refl, length-remember w.st.recent (cancel t superseded) h.bounded)

  begun-Inv :
      (t : Txn) (w w' : World V)
      → Kept t t w w'
      → is_final t.phase ≡ false
      → w.st.session ≡ none
      → length w.st.recent ≤ recent_limit
      → Inv w'
  begun-Inv t w w' k f n b = ground (arith, SameStage-self t)

  pub begin-Inv :
      (cfg : Config) (req : Request) (id : String) (r : Result String Reading) (boot_id : String)
      (now : ℕ) (w : World V)
      → Inv w
      → Inv (submit_begin cfg req id r boot_id now w).0
  unfolding submit_begin
  begin-Inv cfg req id r boot_id now w h = by_capture (capture r)
    where
      begun :
          (c : Captured)
          → w.st.session ≡ none
          → Inv (
              persist
                (put (give_way w).0 (new_txn cfg req id c (give_way w).1 boot_id now))
                true
                now)
      begun c e =
          let x = give_way w in
          let t = new_txn cfg req id c x.1 boot_id now in
          let live' = new_not_final cfg req id c x.1 boot_id now in
          begun-Inv t x.0 (persist (put x.0 t) true now) (persist-Kept t now x.0 live') live'
            (ground (arith, give_way_leaves w h)) (give_way_leaves w h).1

      by_stops :
          (c : Captured) (s : Option Submit)
          → stops req id w.st ≡ s
          → Inv
              (elim s as (λ x. World V × Option Submit) [
                | some answer ↦ (w, some answer)
                | none ↦
                    let (w', inherit) = give_way w in
                    (persist (put w' (new_txn cfg req id c inherit boot_id now)) true now, none)
              ]).0
      by_stops c (some a) e = h
      by_stops c none e = begun c (stops-none req id w.st e)

      by_capture :
          (o : Option Captured)
          → Inv
              (elim o as (λ x. World V × Option Submit) [
                | none ↦ (w, some no_capture)
                | some c ↦ elim (stops req id w.st) as (λ x. World V × Option Submit) [
                  | some answer ↦ (w, some answer)
                  | none ↦
                      let (w', inherit) = give_way w in
                      (persist (put w' (new_txn cfg req id c inherit boot_id now)) true now, none)
                ]
              ]).0
      by_capture none = h
      by_capture (some c) = by_stops c (stops req id w.st) refl
