-- ===== src/Engine/Refusals.antt =====
-- When the engine refuses a write, and that a refusal changes nothing (rust/src/ops/engine.rs).
use zte_u60_pro_mu5250_data.Common.{
  ℕ, String, true, false, Option, none, some, Result, ◌≡◌, refl, ◌∙◌, arith,
}
use zte_u60_pro_mu5250_data.Txn.Types.{Reading}
use zte_u60_pro_mu5250_data.Engine.State.{Config, World, find, persist, put}
use zte_u60_pro_mu5250_data.Engine.Submit.{
  Request, Submit, existing, busy_session, busy, no_capture, submit_begin, capture, Captured, stops,
  give_way, new_txn, overridable,
}

module _ {V : Type 0} where
  -- The reason for an answer without a write.
  abbrev pub Why : Request → String → Result String Reading → World V → Submit → Type 0
  Why req id reading w (existing t) = find w.st id ≡ some t
  Why req id reading w (busy_session s) = (find w.st id ≡ none) × (w.st.session ≡ some s)
  Why req id reading w (busy t) =
      (find w.st id ≡ none)
      × (w.st.session ≡ none)
      × (w.st.active ≡ some t)
      × (overridable t req ≡ false)
  Why req id reading w no_capture = capture reading ≡ none

  stops-Why :
      (req : Request) (id : String) (reading : Result String Reading) (w : World V)
      (answer : Submit)
      → stops req id w.st ≡ some answer
      → Why req id reading w answer
  unfolding stops
  stops-Why req id reading w (existing t) h = ground arith
  stops-Why req id reading w (busy_session x) h = ground arith
  stops-Why req id reading w (busy t) h = ground arith
  stops-Why req id reading w no_capture h = ground arith

  no_capture-Why :
      (req : Request) (id : String) (reading : Result String Reading) (w : World V)
      (answer : Submit)
      → capture reading ≡ none
      → some no_capture ≡ some answer
      → Why req id reading w answer
  no_capture-Why req id reading w (existing t) e h = ground arith
  no_capture-Why req id reading w (busy_session x) e h = ground arith
  no_capture-Why req id reading w (busy t) e h = ground arith
  no_capture-Why req id reading w no_capture e h = e

  -- An answer without a write changes nothing, and it is the right one: the transaction that the id
  -- already has; or else the session in progress; or else the transaction in progress, which the
  -- request may not override; or the device could not be read with a value.
  pub refused_unchanged :
      (cfg : Config) (req : Request) (id : String) (reading : Result String Reading)
      (boot_id : String) (now : ℕ) (w : World V) (answer : Submit)
      → (submit_begin cfg req id reading boot_id now w).1 ≡ some answer
      → ((submit_begin cfg req id reading boot_id now w).0 ≡ w) × Why req id reading w answer
  unfolding submit_begin
  refused_unchanged cfg req id reading boot_id now w answer = by_capture (capture reading) refl
    where
      by_stops :
          (c : Captured) (s : Option Submit)
          → stops req id w.st ≡ s
          → let res = elim s as (λ x. World V × Option Submit) [
            | some a ↦ (w, some a)
            | none ↦
                let (w', inherit) = give_way w in
                (persist (put w' (new_txn cfg req id c inherit boot_id now)) true now, none)
          ] in
            res.1 ≡ some answer → (res.0 ≡ w) × Why req id reading w answer
      by_stops c (some a) f g = (refl, stops-Why req id reading w answer (f ∙ g))
      by_stops c none f g = ground arith

      by_capture :
          (o : Option Captured)
          → capture reading ≡ o
          → let res = elim o as (λ x. World V × Option Submit) [
            | none ↦ (w, some no_capture)
            | some c ↦ elim (stops req id w.st) as (λ x. World V × Option Submit) [
              | some a ↦ (w, some a)
              | none ↦
                  let (w', inherit) = give_way w in
                  (persist (put w' (new_txn cfg req id c inherit boot_id now)) true now, none)
            ]
          ] in
            res.1 ≡ some answer → (res.0 ≡ w) × Why req id reading w answer
      by_capture none e g = (refl, no_capture-Why req id reading w answer e g)
      by_capture (some c) e g = by_stops c (stops req id w.st) refl g
