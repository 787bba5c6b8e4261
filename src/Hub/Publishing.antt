-- ===== src/Hub/Publishing.antt =====
-- `Hub::publish`: what goes out, and under which number (rust/src/block.rs). The sink is modelled by
-- the list of the events that an operation emits, in their order.
use zte_u60_pro_mu5250_data.Common.{
  ℕ, Bool, ◌&&◌, not, Option, some, List, [], ◌∷◌, ◌++◌, add_u64, if◌then◌else◌, ◌≡◌, sym, subst,
  arith, ◌⊎◌,
}
use zte_u60_pro_mu5250_data.Hub.Blocks.{
  Json, Publish, never, if_changed, Block, Event, block_event, heartbeat, view, same_value,
}

module _ (j : Json) where
  goes_out : Publish → Bool → Bool → Bool → Bool
  goes_out if_changed flipped stale data_changed = data_changed
  goes_out never flipped stale data_changed = flipped && not stale && data_changed

  -- The new sequence number and block, and the event if there is one.
  unfoldable pub publish : ℕ → Block j → Publish → Bool → ℕ → ℕ × Block j × List (Event j)
  unfolding goes_out
  publish seq b decision flipped now =
      let out = goes_out decision flipped b.stale (not (same_value j b.published b.current)) in
      let b' = record b {
        published = if out then b.current else b.published;
        published_at = some now;
        revision = add_u64 b.revision 1;
      } in
      if not flipped && not out
      then (seq, b, [])
      else (add_u64 seq 1, b', block_event (add_u64 seq 1) (view j b') ∷ [])

  -- The events that follow number `seq` carry the next numbers one by one, and end at `last`.
  abbrev pub Counts : ℕ → List (Event j) → ℕ → Type 0
  Counts seq [] last = seq ≡ last
  Counts seq (block_event n v ∷ more) last = (n ≡ add_u64 seq 1) × Counts n more last
  Counts seq (heartbeat n blocks age ∷ more) last = (n ≡ add_u64 seq 1) × Counts n more last

  pub Counts-append :
      (a b c : ℕ) (xs ys : List (Event j)) → Counts a xs b → Counts b ys c → Counts a (xs ++ ys) c
  Counts-append a b c [] ys h k = subst (λ (n : ℕ). Counts n ys c) (sym h) k
  Counts-append a b c (block_event n v ∷ more) ys (e, h) k = (e, Counts-append n b c more ys h k)
  Counts-append a b c (heartbeat n s g ∷ more) ys (e, h) k = (e, Counts-append n b c more ys h k)

  -- What subscribers are shown of a block.
  abbrev pub Shown : Type 0
  Shown = ℕ × Bool × Option j.Value

  abbrev pub shown : Block j → Shown
  shown b = (b.revision, b.stale, b.published)

  -- Between `b` and `b'` nothing that subscribers see changed and nothing was sent, or the new state
  -- of the block was sent as one event, with the next revision.
  abbrev pub Reports : Block j → ℕ × Block j × List (Event j) → Type 0
  Reports b (seq, b', events) =
      ((events ≡ []) × (shown b' ≡ shown b))
      ⊎ ((events ≡ block_event seq (view j b') ∷ []) × (b'.revision ≡ add_u64 b.revision 1))

  pub publish-Counts :
      (seq : ℕ) (b : Block j) (d : Publish) (flipped : Bool) (now : ℕ)
      → let (seq', b', events) = publish seq b d flipped now in Counts seq events seq'
  unfolding publish
  publish-Counts seq b d flipped now = ground arith

  pub publish-Reports :
      (seq : ℕ) (b : Block j) (d : Publish) (flipped : Bool) (now : ℕ)
      → Reports b (publish seq b d flipped now)
  unfolding publish
  publish-Reports seq b d flipped now = ground arith
