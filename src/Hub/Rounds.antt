-- ===== src/Hub/Rounds.antt =====
-- `expire`, `round_end`, heartbeats, `snapshot_with` and `legacy` (rust/src/block.rs).
use zte_u60_pro_mu5250_data.Common.{
  ℕ, ◌-◌, String, true, false, ◌&&◌, not, none, some, List, [], ◌∷◌, ◌++◌, map, str_eq, ltb,
  is_some_and, add_u64, if◌then◌else◌, Result, ok, err,
}
use zte_u60_pro_mu5250_data.Hub.Blocks.{
  Json, never, if_changed, Block, BlockView, view, max_age, Event, heartbeat, Inner,
}
use zte_u60_pro_mu5250_data.Hub.Publishing.{publish}
use zte_u60_pro_mu5250_data.Hub.Reads.{Step, Steps, sweep, since_publish}

module _ (j : Json) where
  open j use {Value}

  -- One pass of the loop of `expire_locked`.
  unfoldable pub expire_block : ℕ → ℕ → ℕ → ℕ → Block j → Step j
  expire_block now sample_interval k seq b =
      if not b.stale
        && is_some_and b.last_success (λ t. ltb (max_age j b sample_interval) (now - t))
      then publish j seq (record b { stale = true }) never true now
      else (seq, b, [])

  unfoldable pub expire_locked : ℕ → ℕ → ℕ → List (Block j) → Steps j
  expire_locked now sample_interval = sweep j (expire_block now sample_interval) 0

  -- One pass of the loop of `round_end`.
  unfoldable pub end_block : ℕ → ℕ → ℕ → Block j → Step j
  end_block now k seq b =
      if b.stale
      then (seq, b, [])
      else (elim (b.spec.policy.on_round_end b.published b.current (since_publish j b now)) [
        | never ↦ (seq, b, [])
        | if_changed ↦ publish j seq b if_changed false now
      ])

  unfoldable pub emit_heartbeat : Inner j → ℕ → ℕ → Inner j × Event j
  emit_heartbeat g now exec_age_ms = (
    record g { seq = add_u64 g.seq 1; last_heartbeat = some now },
    heartbeat (add_u64 g.seq 1) (map (λ (b : Block j). (b.spec.name, b.observed_at)) g.blocks)
        exec_age_ms,
  )

  unfoldable pub round_end : ℕ → ℕ → Inner j → Inner j × List (Event j)
  round_end now sample_interval g =
      let (seq1, blocks1, es1) = expire_locked now sample_interval g.seq g.blocks in
      let (seq2, blocks2, es2) = sweep j (end_block now) 0 seq1 blocks1 in
      let (g', beat) = emit_heartbeat (record g { seq = seq2; blocks = blocks2 }) now 0 in
      (g', es1 ++ (es2 ++ (beat ∷ [])))

  unfoldable pub heartbeat_if_quiet : ℕ → ℕ → ℕ → Inner j → Inner j × List (Event j)
  heartbeat_if_quiet now exec_age_ms quiet g =
      if is_some_and g.last_heartbeat (λ t. ltb (now - t) quiet)
      then (g, [])
      else (let (g', beat) = emit_heartbeat g now exec_age_ms in (g', beat ∷ []))

  unfoldable pub snapshot_with : Inner j → ℕ × List (BlockView j)
  snapshot_with g = (g.seq, map (view j) g.blocks)

  pub data NoData : Type 0 where
    no_data : NoData
    is_stale no_block : String → NoData

  unfoldable pub legacy : String → List (Block j) → Result NoData Value
  legacy name [] = err (no_block name)
  legacy name (b ∷ more) =
      if str_eq b.spec.name name
      then (if not b.stale
          then (elim b.raw [ none ↦ err no_data | some v ↦ ok v ])
          else err (is_stale name))
      else legacy name more
