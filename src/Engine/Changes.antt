-- ===== src/Engine/Changes.antt =====
-- Requests and the driver keep the engine's invariant (rust/src/ops/engine.rs).
use zte_u60_pro_mu5250_data.Common.{
  ℕ, String, str_eq, str_eq_iff, true, false, not, Option, none, some, ◌==◌, if◌then◌else◌, Result,
  ok, err, ◌≡◌, refl, subst, arith, inl, inr, Bool-cases,
}
use zte_u60_pro_mu5250_data.Txn.Types.{
  Txn, Reading, Applied, is_final, sim_changed, Next, SimCheck, changed, unchanged, unknown,
}
use zte_u60_pro_mu5250_data.Txn.Ops.{
  revert, keep, applied, rollback_sent, begin_apply, start_rollback, finish, step, Refusal,
}
use zte_u60_pro_mu5250_data.Engine.State.{
  Config, St, World, persist, finish_active, put, live, find,
}
use zte_u60_pro_mu5250_data.Engine.Active.{
  revert_active, keep_active, cancel_active, Refused, refused,
}
use zte_u60_pro_mu5250_data.Engine.Submit.{Request, new_txn, Captured}
use zte_u60_pro_mu5250_data.Engine.Drive.{
  drive_reading, rollback_begin, rollback_check, rollback_done, feed, checked, Go, write_it,
  drop_it, try_later,
}
use zte_u60_pro_mu5250_data.Engine.Stored.{
  feed-Follows, finish_active-Released, persist-Kept, save_and_finish,
}
use zte_u60_pro_mu5250_data.Engine.Invariant.{
  Inv, Released-Inv, Kept-Inv, in_progress, cancel_active-Inv,
}

reverted : (t : Txn) (n : Next) → (revert t).1 ≡ ok n → is_final (revert t).0.phase ≡ false
unfolding revert start_rollback step
reverted t n h = ground arith

kept : (t : Txn) (n : Unit {0}) → (keep t).1 ≡ ok n → is_final (keep t).0.phase ≡ true
unfolding keep finish
kept t n h = ground arith

sent_not_final :
    (t : Txn) (now : ℕ) → is_final t.phase ≡ false → is_final (rollback_sent t now).phase ≡ false
unfolding rollback_sent
sent_not_final t now h = ground arith

pub applied_not_final :
    (t : Txn) (o : Applied) (now : ℕ)
    → is_final t.phase ≡ false
    → is_final (applied t o now).phase ≡ false
unfolding applied step
applied_not_final t o now h = ground arith

pub new_not_final :
    (cfg : Config) (req : Request) (id : String) (c : Captured) (inherit : Option String)
    (boot_id : String) (now : ℕ)
    → is_final (new_txn cfg req id c inherit boot_id now).phase ≡ false
unfolding new_txn begin_apply step
new_not_final cfg req id c inherit boot_id now = refl

module _ {V : Type 0} where
  pub live_active : (s : St V) (id : String) (t : Txn) → live s id ≡ some t → s.active ≡ some t
  unfolding live
  live_active s id t h = ground arith

  pub live-op_id : (s : St V) (id : String) (t : Txn) → live s id ≡ some t → t.op_id ≡ id
  unfolding live
  live-op_id s id t h = by_active s.active h
    where
      by_active :
          (a : Option Txn)
          → (elim a as (λ x. Option Txn) [
            | none ↦ none
            | some u ↦ if str_eq u.op_id id then some u else none
          ])
            ≡ some t
          → t.op_id ≡ id
      by_active none e = cc e
      by_active (some u) e = ground (arith, str_eq_iff u.op_id id)

  -- A transaction in progress goes on as `u`, saved at once.
  pub goes_on-Inv :
      (t u : Txn) (now : ℕ) (w : World V)
      → Inv w
      → w.st.active ≡ some t
      → is_final u.phase ≡ false
      → Inv (persist (put w u) true now)
  goes_on-Inv t u now w h a e =
      Kept-Inv u u w (persist (put w u) true now) (persist-Kept u now w e) (ground arith) e
        (in_progress t w h a).0 h

  pub revert-Inv : (id : String) (now : ℕ) (w : World V) → Inv w → Inv (revert_active id now w).0
  unfolding revert_active
  revert-Inv id now w h = by_live (live w.st id) refl
    where
      by_result :
          (t : Txn) (r : Result Refusal Next)
          → w.st.active ≡ some t
          → (revert t).1 ≡ r
          → Inv
              (elim r as (λ x. World V × Result Refused (Unit {0})) [
                | ok n ↦ (persist (put w (revert t).0) true now, ok tt)
                | err e ↦ (w, err (refused e))
              ]).0
      by_result t (err x) a e = h
      by_result t (ok n) a e = goes_on-Inv t (revert t).0 now w h a (reverted t n e)

      by_live : (o : Option Txn) → live w.st id ≡ o → Inv (revert_active id now w).0
      by_live none e = rw (e, revert_active) h
      by_live (some t) e =
          rw (e, revert_active) (by_result t (revert t).1 (live_active w.st id t e) refl)

  pub keep-Inv : (id : String) (now : ℕ) (w : World V) → Inv w → Inv (keep_active id now w).0
  unfolding keep_active
  keep-Inv id now w h = by_live (live w.st id) refl
    where
      by_result :
          (t : Txn) (r : Result Refusal (Unit {0}))
          → (keep t).1 ≡ r
          → Inv
              (elim r as (λ x. World V × Result Refused (Option Txn)) [
                | ok n ↦ let w' = finish_active (put w (keep t).0) now in (w', ok (find w'.st id))
                | err e ↦ (w, err (refused e))
              ]).0
      by_result t (err x) e = h
      by_result t (ok n) e =
          Released-Inv (keep t).0 w (finish_active (put w (keep t).0) now)
            (finish_active-Released (keep t).0 now w (kept t n e)) h

      by_live : (o : Option Txn) → live w.st id ≡ o → Inv (keep_active id now w).0
      by_live none e = rw (e, keep_active) h
      by_live (some t) e = rw (e, keep_active) (by_result t (keep t).1 refl)

  pub reading-Inv :
      (id : String) (generation : ℕ) (r : Option Reading) (now : ℕ) (w : World V)
      → Inv w
      → Inv (drive_reading id generation r now w)
  unfolding drive_reading
  reading-Inv id generation r now w h = by_live (live w.st id) refl
    where
      fed :
          (t : Txn)
          → w.st.active ≡ some t
          → Inv (
              finish_active
                (persist
                  (put w (feed t r now))
                  (not ((feed t r now).generation == t.generation))
                  now)
                now)
      fed t a =
          let (n, live', (d, p, s)) = in_progress t w h a in
          elim (save_and_finish t (feed t r now) d now w (feed-Follows t r now) s p) [
            | inl x ↦ Released-Inv (feed t r now) w _ x h
            | inr (e, s', f, k) ↦ Kept-Inv (feed t r now) e w _ k s' f n h
          ]

      by_generation :
          (t : Txn)
          → w.st.active ≡ some t
          → Inv (
              if not (t.generation == generation)
              then w
              else finish_active
                  (persist
                    (put w (feed t r now))
                    (not ((feed t r now).generation == generation))
                    now)
                  now)
      by_generation t a = elim (Bool-cases (t.generation == generation)) [
        | inr other ↦ rw other h
        | inl same ↦
            let e : t.generation ≡ generation = ground arith in
            rw same (
              subst
                (λ (g : ℕ). Inv (
                  finish_active
                    (persist (put w (feed t r now)) (not ((feed t r now).generation == g)) now)
                    now))
                e (fed t a))
      ]

      by_live : (o : Option Txn) → live w.st id ≡ o → Inv (drive_reading id generation r now w)
      by_live none e = rw (e, drive_reading) h
      by_live (some t) e = rw (e, drive_reading) (by_generation t (live_active w.st id t e))

  -- Saving the transaction in progress once more.
  pub saved_again-Inv :
      (t : Txn) (now : ℕ) (w : World V) → Inv w → w.st.active ≡ some t → Inv (persist w true now)
  unfolding persist
  saved_again-Inv t now w h a = rw (a, persist) (ground (arith, in_progress t w h a))

  pub rollback_begin-Inv :
      (id : String) (now : ℕ) (w : World V) → Inv w → Inv (rollback_begin id now w).0
  unfolding rollback_begin
  rollback_begin-Inv id now w h = by_live (live w.st id) refl
    where
      by_live : (o : Option Txn) → live w.st id ≡ o → Inv (rollback_begin id now w).0
      by_live none e = rw (e, rollback_begin) h
      by_live (some t) e =
          let a = live_active w.st id t e in rw (e, rollback_begin) (saved_again-Inv t now w h a)

  pub rollback_check-Inv :
      (id : String) (r : Result String Reading) (now : ℕ) (w : World V)
      → Inv w
      → Inv (rollback_check id r now w).0
  unfolding rollback_check
  rollback_check-Inv id r now w h = by_live (live w.st id) refl
    where
      by_check :
          (t : Txn) (c : SimCheck)
          → Inv
              (elim c as (λ x. World V × Go) [
                | unchanged ↦ (w, write_it)
                | changed ↦ (cancel_active t sim_changed now w, drop_it)
                | unknown ↦ (w, try_later)
              ]).0
      by_check t unchanged = h
      by_check t changed = cancel_active-Inv t sim_changed now w h
      by_check t unknown = h

      by_live : (o : Option Txn) → live w.st id ≡ o → Inv (rollback_check id r now w).0
      by_live none e = rw (e, rollback_check) h
      by_live (some t) e = rw (e, rollback_check) (by_check t (checked t r))

  pub rollback_done-Inv :
      (id : String) (now : ℕ) (w : World V) → Inv w → Inv (rollback_done id now w)
  unfolding rollback_done
  rollback_done-Inv id now w h = by_live (live w.st id) refl
    where
      by_live : (o : Option Txn) → live w.st id ≡ o → Inv (rollback_done id now w)
      by_live none e = rw (e, rollback_done) h
      by_live (some t) e =
          let a = live_active w.st id t e in
          rw (e, rollback_done)
            (goes_on-Inv t (rollback_sent t now) now w h a
              (sent_not_final t now (in_progress t w h a).1))
