-- ===== src/Engine/Writes.antt =====
-- When the engine lets a write go out to the device (rust/src/ops/engine.rs).
use zte_u60_pro_mu5250_data.Common.{
  ℕ, String, str_eq_iff, true, false, Option, none, some, Result, ok, err, ◌≡◌, refl, ◌∙◌, arith,
}
use zte_u60_pro_mu5250_data.Txn.Types.{
  Txn, Reading, to_apply, applying, unchanged, sim_check, superseded, may_override, is_final,
}
use zte_u60_pro_mu5250_data.Txn.Ops.{cancel, new, begin_apply, step, waiting}
use zte_u60_pro_mu5250_data.Engine.State.{Config, World, St, persist, put, retire, remember}
use zte_u60_pro_mu5250_data.Engine.Submit.{
  Request, Submit, no_capture, submit_begin, capture, Captured, stops, give_way, new_txn,
  overridable,
}
use zte_u60_pro_mu5250_data.Engine.Drive.{checked}
use zte_u60_pro_mu5250_data.Engine.Stored.{persist-Kept}
use zte_u60_pro_mu5250_data.Engine.Invariant.{Inv}
use zte_u60_pro_mu5250_data.Engine.Changes.{new_not_final}
use zte_u60_pro_mu5250_data.Engine.Submitting.{give_way_leaves, stops-none}

new_txn_fields :
    (cfg : Config) (req : Request) (id : String) (c : Captured) (inherit : Option String)
    (boot_id : String) (now : ℕ)
    → let t = new_txn cfg req id c inherit boot_id now in
      (t.op_id ≡ id)
      × (t.item ≡ req.spec.item)
      × (t.target ≡ req.target)
      × (t.phase ≡ applying)
      × (t.intent ≡ some to_apply)
unfolding new_txn new begin_apply step
new_txn_fields cfg req id c inherit boot_id now = ground arith

inherited :
    (cfg : Config) (req : Request) (id : String) (c : Captured) (i : Option String) (v : String)
    (boot_id : String) (now : ℕ)
    → i ≡ some v
    → (new_txn cfg req id c i boot_id now).rollback_to ≡ v
unfolding new_txn new begin_apply step
inherited cfg req id c i v boot_id now e = rw e refl

overridable_parts :
    (t : Txn) (req : Request)
    → overridable t req ≡ true
    → (t.item ≡ req.spec.item)
      × (may_override req.source ≡ true)
      × (waiting t.phase ≡ true)
      × (t.intent ≡ none)
unfolding overridable
overridable_parts t req h = ground (arith, str_eq_iff t.item req.spec.item)

pub checked_unchanged :
    (t : Txn) (reading : Result String Reading)
    → checked t reading ≡ unchanged
    → (r : Reading) × (reading ≡ ok r) × (sim_check t.sim r.sim ≡ unchanged)
unfolding checked
checked_unchanged t (ok r) h = (r, refl, h)
checked_unchanged t (err x) h = ground arith

module _ {V : Type 0} where
  -- The transaction that a request starts, and the world that it is put in.
  record Begun (cfg : Config) (req : Request) (id : String) (reading : Result String Reading)
      (boot_id : String) (now : ℕ) (w w' : World V) : Type 0 where
    c : Captured
    read : capture reading ≡ some c
    free : stops req id w.st ≡ none
    res :
        w' ≡ persist (put (give_way w).0 (new_txn cfg req id c (give_way w).1 boot_id now)) true now

  begun :
      (cfg : Config) (req : Request) (id : String) (reading : Result String Reading)
      (boot_id : String) (now : ℕ) (w : World V)
      → (submit_begin cfg req id reading boot_id now w).1 ≡ none
      → Begun cfg req id reading boot_id now w (submit_begin cfg req id reading boot_id now w).0
  unfolding submit_begin
  begun cfg req id reading boot_id now w = by_capture (capture reading) refl
    where
      by_stops :
          (c : Captured) (s : Option Submit)
          → capture reading ≡ some c
          → stops req id w.st ≡ s
          → let res = elim s as (λ x. World V × Option Submit) [
            | some answer ↦ (w, some answer)
            | none ↦
                let (w', inherit) = give_way w in
                (persist (put w' (new_txn cfg req id c inherit boot_id now)) true now, none)
          ] in
            res.1 ≡ none → Begun cfg req id reading boot_id now w res.0
      by_stops c (some a) e f g = ground arith
      by_stops c none e f g = record { c = c; read = e; free = f; res = refl }

      by_capture :
          (o : Option Captured)
          → capture reading ≡ o
          → let res = elim o as (λ x. World V × Option Submit) [
            | none ↦ (w, some no_capture)
            | some c ↦ elim (stops req id w.st) as (λ x. World V × Option Submit) [
              | some answer ↦ (w, some answer)
              | none ↦
                  let (w', inherit) = give_way w in
                  (persist (put w' (new_txn cfg req id c inherit boot_id now)) true now, none)
            ]
          ] in
            res.1 ≡ none → Begun cfg req id reading boot_id now w res.0
      by_capture none e g = ground arith
      by_capture (some c) e g = by_stops c (stops req id w.st) e refl g

  free_overridable :
      (req : Request) (id : String) (s : St V) (t : Txn)
      → s.active ≡ some t
      → stops req id s ≡ none
      → overridable t req ≡ true
  unfolding stops
  free_overridable req id s t a h = ground arith

  -- What the transaction that gives way leaves.
  superseded_by :
      (w : World V) (t : Txn)
      → w.st.active ≡ some t
      → (w.disk ≡ true
          → (give_way w).0.stored_last ≡ some (record { txn = cancel t superseded; acked = false }))
        × ((give_way w).0.st.last ≡ some (record { txn = cancel t superseded; acked = false }))
        × ((give_way w).0.st.recent ≡ remember w.st.recent (cancel t superseded))
        × ((give_way w).1 ≡ some t.rollback_to)
  unfolding give_way retire
  superseded_by w t a = rw a ((λ d. rw d refl), refl, refl, refl)

  -- It leaves the pending file alone.
  give_way_files :
      (w : World V) → ((give_way w).0.disk ≡ w.disk) × ((give_way w).0.pending ≡ w.pending)
  unfolding give_way retire
  give_way_files w = by_active w.st.active refl
    where
      by_active :
          (a : Option Txn)
          → w.st.active ≡ a
          → ((give_way w).0.disk ≡ w.disk) × ((give_way w).0.pending ≡ w.pending)
      by_active none e = rw (e, give_way) (refl, refl)
      by_active (some t) e = rw (e, give_way) (refl, refl)

  -- What a forced save leaves on disk.
  persisted :
      (t : Txn) (now : ℕ) (w : World V)
      → is_final t.phase ≡ false
      → let w' = persist (put w t) true now in
        (w.disk ≡ true → w'.pending ≡ some t)
        × (w.disk ≡ false → (w'.pending ≡ w.pending) × (w'.lost ≡ true))
  unfolding persist
  persisted t now w h = ((λ d. ground arith), (λ d. ground arith))

  persist_last :
      (w : World V) (now : ℕ)
      → ((persist w true now).stored_last ≡ w.stored_last)
        × ((persist w true now).st.last ≡ w.st.last)
  unfolding persist
  persist_last w now = ground arith

  -- A write goes out only when its intent has been handed to the store: when `submit` lets the write
  -- of a request go out, the transaction in progress is of the request's id, item and target, applying
  -- with the intent to apply, and there is no session. If the store can be written, the pending file is
  -- that transaction; if it cannot, the write goes out all the same, the file is as it was, and the loss
  -- is noted.
  pub write_on_disk :
      (cfg : Config) (req : Request) (id : String) (reading : Result String Reading)
      (boot_id : String) (now : ℕ) (w : World V)
      → Inv w
      → (submit_begin cfg req id reading boot_id now w).1 ≡ none
      → let w' = (submit_begin cfg req id reading boot_id now w).0 in
        (t : Txn) × (w'.st.active ≡ some t)
        × (w.disk ≡ true → w'.pending ≡ some t)
        × (w.disk ≡ false → (w'.pending ≡ w.pending) × (w'.lost ≡ true))
        × (t.op_id ≡ id)
        × (t.item ≡ req.spec.item)
        × (t.target ≡ req.target)
        × (t.phase ≡ applying)
        × (t.intent ≡ some to_apply)
        × (w'.st.session ≡ none)
  write_on_disk cfg req id reading boot_id now w h e =
      let b = begun cfg req id reading boot_id now w e in
      let x = give_way w in
      let t = new_txn cfg req id b.c x.1 boot_id now in
      let k = persist-Kept t now x.0 (new_not_final cfg req id b.c x.1 boot_id now) in
      let saved = persisted t now x.0 (new_not_final cfg req id b.c x.1 boot_id now) in
      let files = give_way_files w in
      let (i, m, g, p, n) = new_txn_fields cfg req id b.c x.1 boot_id now in
      rw b.res (
        t,
        k.active,
        (λ d. saved.0 (files.0 ∙ d)),
        (λ d. let (same, gone) = saved.1 (files.0 ∙ d) in (same ∙ files.1, gone)),
        i,
        m,
        g,
        p,
        n,
        k.session ∙ (give_way_leaves w h).0 ∙ stops-none req id w.st b.free,
      )

  -- A request that overrides: the transaction in progress waits for its outcome on the same item, with
  -- no write under way, and the source may override. Its rollback target passes to the new transaction,
  -- and it is remembered as cancelled because it was superseded, as the last change too, on disk if the
  -- store can be written.
  pub override_inherits :
      (cfg : Config) (req : Request) (id : String) (reading : Result String Reading)
      (boot_id : String) (now : ℕ) (w : World V) (old : Txn)
      → Inv w
      → w.st.active ≡ some old
      → (submit_begin cfg req id reading boot_id now w).1 ≡ none
      → let w' = (submit_begin cfg req id reading boot_id now w).0 in
        (old.item ≡ req.spec.item)
        × (may_override req.source ≡ true)
        × (waiting old.phase ≡ true)
        × (old.intent ≡ none)
        × ((t : Txn) × (w'.st.active ≡ some t) × (t.op_id ≡ id) × (t.rollback_to ≡ old.rollback_to))
        × (w'.st.recent ≡ remember w.st.recent (cancel old superseded))
        × (w'.st.last ≡ some (record { txn = cancel old superseded; acked = false }))
        × (w.disk ≡ true
            → w'.stored_last ≡ some (record { txn = cancel old superseded; acked = false }))
  override_inherits cfg req id reading boot_id now w old h a e =
      let b = begun cfg req id reading boot_id now w e in
      let x = give_way w in
      let t = new_txn cfg req id b.c x.1 boot_id now in
      let k = persist-Kept t now x.0 (new_not_final cfg req id b.c x.1 boot_id now) in
      let (i, m, wa, n) = overridable_parts old req (free_overridable req id w.st old a b.free) in
      let (l, m2, rc, rt) = superseded_by w old a in
      rw b.res (
        i,
        m,
        wa,
        n,
        (
          t,
          k.active,
          (new_txn_fields cfg req id b.c x.1 boot_id now).0,
          inherited cfg req id b.c x.1 old.rollback_to boot_id now rt,
        ),
        k.recent ∙ rc,
        (persist_last (put x.0 t) now).1 ∙ m2,
        (λ d. (persist_last (put x.0 t) now).0 ∙ l d),
      )
