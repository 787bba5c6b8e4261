-- ===== src/Hub/Mirror.antt =====
-- `record_read` and `round_end` keep a subscriber's copy of the blocks right (rust/src/block.rs).
use zte_u60_pro_mu5250_data.Common.{
  add_u64, if◌then◌else◌, ℕ, zero, suc, String, not, Bool, true, false, Option, none, some, List,
  [], ◌∷◌, ◌++◌, map, get_elem?, set, ◌≡◌, refl, sym, ap, ◌∙◌, arith, Result, ok, err,
}
use zte_u60_pro_mu5250_data.Hub.Blocks.{
  Json, Publish, Block, BlockView, view, Event, Inner, same_value,
}
use zte_u60_pro_mu5250_data.Hub.Publishing.{Counts, publish}
use zte_u60_pro_mu5250_data.Hub.Reads.{
  Step, Steps, sweep, read_ok, read_failed, read_good, read_bad, read_result, shape, reshape_block,
  reshape_dependents, record_read, position, record_named,
}
use zte_u60_pro_mu5250_data.Hub.Rounds.{
  expire_block, expire_locked, end_block, emit_heartbeat, round_end,
}
use zte_u60_pro_mu5250_data.Hub.Replay.{known, known_view, replay, Apart, Distinct, Tells}
use zte_u60_pro_mu5250_data.Hub.Copies.{receive, receive-append, receive-known, beats_lem}
use zte_u60_pro_mu5250_data.Hub.Observed.{
  times, times_after, read_result-times, position-none, position-times,
}
use zte_u60_pro_mu5250_data.Hub.Sweeps.{
  Informs, SameNames-refl, sweep-Informs, set-Informs, Distinct-same, Informs-append,
}

if_both {ℓ κ} :
    {A : Type ℓ} (P : A → Type κ) (c : Bool) {x y : A} → P x → P y → P (if c then x else y)
if_both P true h k = h
if_both P false h k = k

module _ (j : Json) where
  publish-Tells :
      (seq : ℕ) (b : Block j) (d : Publish) (flipped : Bool) (now : ℕ)
      → Tells j seq b (publish j seq b d flipped now)
  unfolding publish known
  publish-Tells seq b d flipped now = ground arith

  expire_block-Tells :
      (now interval k seq : ℕ) (b : Block j) → Tells j seq b (expire_block j now interval k seq b)
  unfolding expire_block publish known
  expire_block-Tells now interval k seq b = ground arith

  end_block-Tells : (now k seq : ℕ) (b : Block j) → Tells j seq b (end_block j now k seq b)
  unfolding end_block publish known
  end_block-Tells now k seq b = ground arith

  reshape_block-Tells :
      (blocks : List (Block j)) (i : ℕ) (name : String) (now k seq : ℕ) (b : Block j)
      → Tells j seq b (reshape_block j blocks i name now k seq b)
  unfolding reshape_block publish known
  reshape_block-Tells blocks i name now k seq b = ground arith

  read_ok-Tells :
      (seq wall : ℕ) (b : Block j) (v shaped : j.Value) (now : ℕ)
      → Tells j seq b (read_ok j seq wall b v shaped now)
  unfolding read_ok publish known
  read_ok-Tells seq wall b v shaped now = ground arith

  read_failed-Tells : (seq : ℕ) (b : Block j) (now : ℕ) → Tells j seq b (read_failed j seq b now)
  unfolding read_failed publish known
  read_failed-Tells seq b now = ground arith

  reshape-Informs :
      (blocks : List (Block j)) (i : ℕ) (name : String) (seq now : ℕ)
      → Distinct j blocks
      → Informs j seq blocks (reshape_dependents j blocks i name seq now)
  unfolding reshape_dependents
  reshape-Informs blocks i name seq now =
      sweep-Informs j (reshape_block j blocks i name now) (reshape_block-Tells blocks i name now) 0
        seq blocks

  pub expire-Informs :
      (now interval seq : ℕ) (bs : List (Block j))
      → Distinct j bs
      → Informs j seq bs (expire_locked j now interval seq bs)
  unfolding expire_locked
  expire-Informs now interval seq bs =
      sweep-Informs j (expire_block j now interval) (expire_block-Tells now interval) 0 seq bs

  read_bad-Informs :
      (seq i : ℕ) (blocks : List (Block j)) (now : ℕ) (b : Block j)
      → get_elem? blocks i ≡ some b
      → Distinct j blocks
      → Informs j seq blocks (read_bad j seq i blocks now b)
  unfolding read_bad
  read_bad-Informs seq i blocks now b g d =
      set-Informs j seq i b blocks (read_failed j seq b now) g (read_failed-Tells seq b now) d

  read_good-Informs :
      (seq i : ℕ) (blocks : List (Block j)) (now wall : ℕ) (b : Block j) (v : j.Value)
      → get_elem? blocks i ≡ some b
      → Distinct j blocks
      → Informs j seq blocks (read_good j seq i blocks now wall b v)
  unfolding read_good
  read_good-Informs seq i blocks now wall b v g d =
      if_both (Informs j seq blocks) (not (same_value j b.raw (some v)))
        (Informs-append j seq blocks (own.0, set blocks i own.1, own.2)
          (reshape_dependents j (set blocks i own.1) i b.spec.name own.0 now) written
          (reshape-Informs (set blocks i own.1) i b.spec.name own.0 now
            (Distinct-same j blocks (set blocks i own.1) written.same_names d)))
        written
    where
      own : Step j
      own = read_ok j seq wall b v (shape j blocks b v) now

      written : Informs j seq blocks (own.0, set blocks i own.1, own.2)
      written =
          set-Informs j seq i b blocks own g (read_ok-Tells seq wall b v (shape j blocks b v) now) d

  pub read_result-Informs :
      (seq i : ℕ) (result : Result String j.Value) (now : ℕ) (blocks : List (Block j)) (wall : ℕ)
      (b : Block j)
      → get_elem? blocks i ≡ some b
      → Distinct j blocks
      → Informs j seq blocks (read_result j seq i result now blocks wall b)
  unfolding read_result
  read_result-Informs seq i (err e) now blocks wall b g d = read_bad-Informs seq i blocks now b g d
  read_result-Informs seq i (ok v) now blocks wall b g d =
      if_both (Informs j seq blocks) (j.is_object v)
        (read_good-Informs seq i blocks now wall b v g d) (read_bad-Informs seq i blocks now b g d)

  Apart-nil : (bs : List (Block j)) → Apart j [] bs
  Apart-nil [] = tt
  Apart-nil (b ∷ more) = (tt, Apart-nil more)

  -- The names, revisions, staleness and data after the operation are those that a subscriber computes
  -- from the events, whose numbers follow the snapshot's.
  abbrev pub Follows : ℕ → List (Block j) → Steps j → Type 0
  Follows seq bs (seq', bs', es) =
      Counts j seq es seq' × (replay j es (map (known j) bs) ≡ map (known j) bs')

  Informs-Follows :
      (seq : ℕ) (bs : List (Block j)) (r : Steps j) → Informs j seq bs r → Follows seq bs r
  Informs-Follows seq bs r i = (i.counted, i.informed [] (Apart-nil bs))

  -- Reading a block that exists returns, and its events are followed.
  pub record_read-Follows :
      (seq i : ℕ) (result : Result String j.Value) (now : ℕ) (blocks : List (Block j)) (wall : ℕ)
      (b : Block j)
      → get_elem? blocks i ≡ some b
      → Distinct j blocks
      → (record_read j seq i result now blocks wall
          ≡ some (read_result j seq i result now blocks wall b))
        × Follows seq blocks (read_result j seq i result now blocks wall b)
  unfolding record_read
  record_read-Follows seq i result now blocks wall b g d = (
    rw (g, record_read) refl,
    Informs-Follows seq blocks (read_result j seq i result now blocks wall b)
        (read_result-Informs seq i result now blocks wall b g d),
  )

  -- Whether the list has a block at the index that `position` finds.
  position-found :
      (bs : List (Block j)) (n : String) (i : ℕ)
      → position j bs n ≡ some i
      → (b : Block j) × (get_elem? bs i ≡ some b)
  unfolding position
  position-found [] n i h = ground arith
  position-found (b ∷ more) n zero h = (b, refl)
  position-found (b ∷ more) n (suc i) h = position-found more n i (ground arith)

  -- Recording by name never panics. With distinct names the events it emits carry the next numbers one
  -- by one and turn a subscriber's copy of the names, revisions, staleness and data of the blocks into
  -- those of the new blocks, and the time of observation of the block of the name becomes `wall` if the
  -- reply is an object, while no other is changed.
  pub record_named-Follows :
      (seq : ℕ) (n : String) (result : Result String j.Value) (now : ℕ) (blocks : List (Block j))
      (wall : ℕ)
      → Distinct j blocks
      → (r : Steps j) × (record_named j seq n result now blocks wall ≡ some r)
        × Follows seq blocks r
        × (times j r.1 ≡ times_after j n result wall blocks)
  unfolding record_named
  record_named-Follows seq n result now blocks wall d = by_position (position j blocks n) refl
    where
      by_position :
          (p : Option ℕ)
          → position j blocks n ≡ p
          → (r : Steps j) × (record_named j seq n result now blocks wall ≡ some r)
            × Follows seq blocks r
            × (times j r.1 ≡ times_after j n result wall blocks)
      by_position none e = (
        (seq, blocks, []),
        rw (e, record_named) refl,
        (refl, refl),
        sym (position-none j blocks n result wall e),
      )
      by_position (some i) e =
          let (b, g) = position-found blocks n i e in
          let (q, f) = record_read-Follows seq i result now blocks wall b g d in
          (
            read_result j seq i result now blocks wall b,
            rw (e, record_named) q,
            f,
            read_result-times j seq i result now blocks wall b
                ∙ position-times j blocks n i b result wall e g,
          )

  -- The end of a round, with distinct names, emits events that carry the next numbers one by one. A
  -- subscriber's copy with the right names, revisions, staleness and data, whatever its times of
  -- observation, becomes by these events the whole view of the new blocks, the times included.
  pub round_end-Follows :
      (now interval : ℕ) (g : Inner j) (vs : List (BlockView j))
      → Distinct j g.blocks
      → map (known_view j) vs ≡ map (known j) g.blocks
      → let (g', es) = round_end j now interval g in
        Counts j g.seq es g'.seq × (receive j es vs ≡ map (view j) g'.blocks)
  unfolding round_end emit_heartbeat
  round_end-Follows now interval g vs d e =
      let told =
        Informs-append j g.seq g.blocks r (add_u64 s.0 1, s.1, s.2 ++ (beat_of s ∷ [])) expired
          (Informs-append j r.0 r.1 s (add_u64 s.0 1, s.1, beat_of s ∷ []) ended
            (beat-Informs s.0 s.1)) in
      (
        told.counted,
        receive-append j r.2 (s.2 ++ (beat_of s ∷ [])) vs
            ∙ receive-append j s.2 (beat_of s ∷ []) (receive j r.2 vs)
            ∙ beats_lem j s.1 (receive j s.2 (receive j r.2 vs))
                (Distinct-same j r.1 s.1 ended.same_names
                  (Distinct-same j g.blocks r.1 expired.same_names d))
                copied,
      )
    where
      r : Steps j
      r = expire_locked j now interval g.seq g.blocks

      s : Steps j
      s = sweep j (end_block j now) 0 r.0 r.1

      beat_of : Steps j → Event j
      beat_of t = (emit_heartbeat j (record g { seq = t.0; blocks = t.1 }) now 0).1

      expired : Informs j g.seq g.blocks r
      expired = expire-Informs now interval g.seq g.blocks d

      ended : Informs j r.0 r.1 s
      ended =
          sweep-Informs j (end_block j now) (end_block-Tells now) 0 r.0 r.1
            (Distinct-same j g.blocks r.1 expired.same_names d)

      copied : map (known_view j) (receive j s.2 (receive j r.2 vs)) ≡ map (known j) s.1
      copied =
          receive-known j s.2 (receive j r.2 vs)
          ∙ ap (replay j s.2) (
              receive-known j r.2 vs
              ∙ ap (replay j r.2) e
              ∙ expired.informed [] (Apart-nil g.blocks))
          ∙ ended.informed [] (Apart-nil r.1)

      beat-Informs :
          (seq : ℕ) (bs : List (Block j))
          → Informs j seq bs (add_u64 seq 1, bs, beat_of (seq, bs, []) ∷ [])
      beat-Informs seq bs = record {
        same_names = SameNames-refl j bs;
        counted = (refl, refl);
        informed = λ pre h. refl;
      }
