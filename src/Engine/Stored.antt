-- ===== src/Engine/Stored.antt =====
-- What is on disk is the stage of the transaction in progress (rust/src/ops/engine.rs).
use zte_u60_pro_mu5250_data.Common.{
  ℕ, ◌-◌, true, false, not, Option, none, some, ◌==◌, leb, ◌≡◌, ◌≢◌, arith, ◌⊎◌, inl, inr, add_u64,
  Bool-cases,
}
use zte_u60_pro_mu5250_data.Txn.Types.{Txn, Phase, Reason, Reading, is_final}
use zte_u60_pro_mu5250_data.Txn.Ops.{cancel, on_tick, finish, expire, start_rollback, counting}
use zte_u60_pro_mu5250_data.Txn.Verdict.{on_reading}
use zte_u60_pro_mu5250_data.Txn.Shape.{Noted, Shape, on_reading-Shape, on_reading_idle}
use zte_u60_pro_mu5250_data.Engine.State.{
  World, persist, finish_active, put, retire, remember, seen_save_ms,
}
use zte_u60_pro_mu5250_data.Engine.Drive.{feed}

-- The stage of a transaction, which decides what a restart does.
pub record SameStage (t d : Txn) : Type 0 where
  pub op_id : d.op_id ≡ t.op_id
  pub item : d.item ≡ t.item
  pub target : d.target ≡ t.target
  pub phase : d.phase ≡ t.phase
  pub intent : d.intent ≡ t.intent
  pub rollback_to : d.rollback_to ≡ t.rollback_to

-- The file is there exactly while a transaction is in progress, and has its stage.
abbrev pub Stored : Option Txn → Option Txn → Type 0
Stored none none = Unit {0}
Stored none (some d) = ⊥
Stored (some t) none = ⊥
Stored (some t) (some d) = SameStage t d

-- A transaction in progress has no outcome yet.
abbrev pub Live : Option Txn → Type 0
Live none = Unit {0}
Live (some t) = is_final t.phase ≡ false

pub cancel_final : (t : Txn) (why : Reason) → is_final (cancel t why).phase ≡ true
unfolding cancel finish
cancel_final t why = ground arith

-- `u` comes from `t` by an operation that moves the generation on whenever it changes the stage.
pub record Follows (t u : Txn) : Type 0 where
  pub op_id : u.op_id ≡ t.op_id
  pub item : u.item ≡ t.item
  pub target : u.target ≡ t.target
  pub rollback_to : u.rollback_to ≡ t.rollback_to
  pub stage : u.generation ≡ t.generation → (u.phase ≡ t.phase) × (u.intent ≡ t.intent)

next_generation : (g : ℕ) → add_u64 g 1 ≢ g
next_generation g h = omega arith

finish-Follows : (t u : Txn) (p : Phase) (why : Reason) → Noted t u → Follows t (finish u p why).0
unfolding finish
finish-Follows t u p why h = record {
  op_id = ground arith;
  item = ground arith;
  target = ground arith;
  rollback_to = ground arith;
  stage = λ e. absurd (next_generation t.generation (ground arith));
}

pub on_tick-Follows : (t u : Txn) (now : ℕ) → Noted t u → Follows t (on_tick u now).0
unfolding on_tick finish expire start_rollback
on_tick-Follows t u now h = record {
  op_id = ground arith;
  item = ground arith;
  target = ground arith;
  rollback_to = ground arith;
  stage = λ e. ground (arith, next_generation t.generation);
}

on_reading-Follows : (t : Txn) (r : Reading) (now : ℕ) → Follows t (on_reading t r now).0
on_reading-Follows t r now = elim (Bool-cases (counting t)) [
  | inr idle ↦ ground (arith, on_reading_idle t r now idle)
  | inl waits ↦ by_shape (on_reading-Shape t r now waits)
]
  where
    by_shape : Shape t now (on_reading t r now) → Follows t (on_reading t r now).0
    by_shape (inl (u, h, e)) = rw e (on_tick-Follows t u now h)
    by_shape (inr (u, p, why, h, end, e)) = rw e (finish-Follows t u p why h)

Noted-self : (t : Txn) → Noted t t
Noted-self t = ground arith

pub feed-Follows : (t : Txn) (r : Option Reading) (now : ℕ) → Follows t (feed t r now)
unfolding feed
feed-Follows t none now = on_tick-Follows t t now (Noted-self t)
feed-Follows t (some r) now = on_reading-Follows t r now

pub SameStage-self : (t : Txn) → SameStage t t
SameStage-self t = ground arith

module _ {V : Type 0} where
  -- What a step may change of the world when it ends the transaction in progress.
  pub record Released (t : Txn) (w w' : World V) : Type 0 where
    pub active : w'.st.active ≡ none
    pub pending : w'.lost ≡ false → w'.pending ≡ none
    pub session : w'.st.session ≡ w.st.session
    pub queue : w'.st.queue ≡ w.st.queue
    pub recent : w'.st.recent ≡ remember w.st.recent t

  -- And when the transaction goes on, saved as `d`.
  pub record Kept (t d : Txn) (w w' : World V) : Type 0 where
    pub active : w'.st.active ≡ some t
    pub pending : w'.lost ≡ false → w'.pending ≡ some d
    pub session : w'.st.session ≡ w.st.session
    pub queue : w'.st.queue ≡ w.st.queue
    pub recent : w'.st.recent ≡ w.st.recent

  pub finish_active-Released :
      (t : Txn) (now : ℕ) (w : World V)
      → is_final t.phase ≡ true
      → Released t w (finish_active (put w t) now)
  unfolding finish_active retire
  finish_active-Released t now w h = ground arith

  pub persist-Kept :
      (t : Txn) (now : ℕ) (w : World V)
      → is_final t.phase ≡ false
      → Kept t t w (persist (put w t) true now)
  unfolding persist
  persist-Kept t now w h = ground arith

  -- The end of a pass of the driver.
  pub save_and_finish :
      (t t' d : Txn) (now : ℕ) (w : World V)
      → Follows t t'
      → SameStage t d
      → (w.lost ≡ false → w.pending ≡ some d)
      → let w' = finish_active (persist (put w t') (not (t'.generation == t.generation)) now) now in
        Released t' w w'
        ⊎ ((e : Txn) × SameStage t' e × (is_final t'.phase ≡ false) × Kept t' e w w')
  unfolding persist finish_active retire
  save_and_finish t t' d now w f s p = elim (Bool-cases (is_final t'.phase)) [
    | inl e ↦ inl (ground arith)
    | inr e ↦ elim (Bool-cases (t'.generation == t.generation)) [
      | inr moved ↦ inr (t', SameStage-self t', e, ground arith)
      | inl same ↦
          let g : t'.generation ≡ t.generation = ground arith in
          let (ph, it) = f.stage g in
          elim (Bool-cases (leb seen_save_ms (t'.seen_ms - w.st.saved_seen_ms))) [
            | inl due ↦ inr (t', SameStage-self t', e, ground arith)
            | inr early ↦ inr (d, ground arith, e, ground arith)
          ]
    ]
  ]
