-- ===== src/Engine/Crash.antt =====
-- datad ends at any time and starts again, with what the store held (rust/src/ops/engine.rs).
use zte_u60_pro_mu5250_data.Common.{
  ℕ, String, Bool, true, false, none, some, ◌≡◌, refl, ◌∙◌, arith, ◌⊎◌, inl, inr, Bool-cases,
  if◌then◌else◌,
}
use zte_u60_pro_mu5250_data.Txn.Types.{Txn, is_final, takeover, reboot_loop, not_applied, ignored}
use zte_u60_pro_mu5250_data.Txn.Ops.{cancel, finish, expire, start_rollback, step}
use zte_u60_pro_mu5250_data.Txn.Resume.{resume}
use zte_u60_pro_mu5250_data.Txn.Shape.{Noted}
use zte_u60_pro_mu5250_data.Txn.Shape.Restart.{Restarted, Resumes, resume-Resumes}
use zte_u60_pro_mu5250_data.Engine.State.{World, new_engine}
use zte_u60_pro_mu5250_data.Engine.Active.{start}
use zte_u60_pro_mu5250_data.Engine.Steps.{boot}
use zte_u60_pro_mu5250_data.Engine.Invariant.{Inv, in_progress}
use zte_u60_pro_mu5250_data.Engine.Life.{Loaded, load_one}

-- The saved transaction `t` becomes `u`.
record Same (t u : Txn) : Type 0 where
  op_id : u.op_id ≡ t.op_id
  item : u.item ≡ t.item
  target : u.target ≡ t.target
  rollback_to : u.rollback_to ≡ t.rollback_to

expire-Same : (t u : Txn) → Restarted t u → Same t (expire u reboot_loop).0
unfolding expire start_rollback finish step
expire-Same t u h = ground arith

finish-Same : (t u : Txn) → Noted t u → Same t (finish u not_applied ignored).0
unfolding finish
finish-Same t u h = ground arith

resume-Same :
    (t : Txn) (id : String) (now : ℕ) → is_final t.phase ≡ false → Same t (resume t id now).0
resume-Same t id now live = by_case (resume-Resumes t id now live)
  where
    by_case : Resumes t (resume t id now) → Same t (resume t id now).0
    by_case (inl (u, h, p, e)) = rw e (finish-Same t u h)
    by_case (inr (inl (u, h, p, e))) = rw e (expire-Same t u h)
    by_case (inr (inr (u, h, e))) = rw e (ground arith)

loaded-Same :
    (t : Txn) (taken : Bool) (id : String) (now : ℕ)
    → is_final t.phase ≡ false
    → Same t (if taken then cancel t takeover else (resume t id now).0)
unfolding cancel finish
loaded-Same t true id now live = ground arith
loaded-Same t false id now live = resume-Same t id now live

module _ {V : Type 0} where
  -- `u` is what has become of the transaction: in progress, or ended and noted as the last; on disk
  -- too if the store can be written.
  abbrev pub Found : Bool → Txn → World V → Type 0
  Found disk u w =
      ((is_final u.phase ≡ false) × (w.st.active ≡ some u) × (disk ≡ true → w.pending ≡ some u))
      ⊎ ((is_final u.phase ≡ true)
          × (w.st.active ≡ none)
          × (disk ≡ true → w.pending ≡ none)
          × (w.st.last ≡ some (record { txn = u; acked = false }))
          × (disk ≡ true → w.stored_last ≡ some (record { txn = u; acked = false })))

  found : (t : Txn) (w w' : World V) → w.lost ≡ false → Loaded t w w' → Found w.disk t w'
  found t w w' k h = elim (Bool-cases (is_final t.phase)) [
    | inl e ↦ inr (ground arith)
    | inr e ↦ inl (ground arith)
  ]

  -- datad ends at a time when the invariant of the engine holds, no write to the store was lost and a
  -- transaction is in progress, and starts again with what is on disk, on the same boot or another,
  -- taken over or not. Then a transaction of the same id, item, target and rollback target is in
  -- progress again, or it has ended and is the last one, not yet acknowledged; and if the store can be
  -- written after the start, that is on disk too.
  pub crash_keeps :
      (w : World V) (t : Txn) (disk taken : Bool) (boot_id : String) (now : ℕ)
      → Inv w
      → w.lost ≡ false
      → w.st.active ≡ some t
      → let w' : World V = boot disk w.pending w.stored_last w.stored_notice taken boot_id now in
        (u : Txn) × Found disk u w'
        × (u.op_id ≡ t.op_id)
        × (u.item ≡ t.item)
        × (u.target ≡ t.target)
        × (u.rollback_to ≡ t.rollback_to)
  unfolding boot start new_engine
  crash_keeps w t disk taken boot_id now h k a =
      let (n, live, (d, p, s)) = in_progress t w h a in
      let u = if taken then cancel d takeover else (resume d boot_id now).0 in
      let g = loaded-Same d taken boot_id now (ground arith) in
      rw (p k) (
        u,
        found u (new_engine disk (some d) w.stored_last w.stored_notice) _ refl (load_one u now _),
        g.op_id ∙ s.op_id,
        g.item ∙ s.item,
        g.target ∙ s.target,
        g.rollback_to ∙ s.rollback_to,
      )
