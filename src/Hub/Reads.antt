-- ===== src/Hub/Reads.antt =====
-- `due`, `mark_immediate`, `record_read` with `shape` and `reshape_dependents`, and `record`
-- (rust/src/block.rs). Indexing past the end panics: `none`. A loop over the blocks that may publish
-- each of them is a `sweep`.
use zte_u60_pro_mu5250_data.Common.{
  ℕ, suc, ◌-◌, String, Bool, true, false, ◌||◌, not, Option, none, some, List, [], ◌∷◌, ◌++◌, map,
  str_eq, leb, ◌==◌, min, get_elem?, set, if◌then◌else◌, Result, ok, err,
}
use zte_u60_pro_mu5250_data.Hub.Blocks.{
  Json, never, Block, Event, Inner, Schedule, same_value, failure_retry,
}
use zte_u60_pro_mu5250_data.Hub.Publishing.{publish}

module _ (j : Json) where
  open j use {Value}

  -- The new sequence number, block and the events it led to; and of all blocks.
  abbrev pub Step : Type 0
  Step = ℕ × Block j × List (Event j)

  abbrev pub Steps : Type 0
  Steps = ℕ × List (Block j) × List (Event j)

  -- A loop over the blocks in order: each step gets its index and the number so far.
  unfoldable pub sweep : (ℕ → ℕ → Block j → Step) → ℕ → ℕ → List (Block j) → Steps
  sweep f k seq [] = (seq, [], [])
  sweep f k seq (b ∷ more) =
      let (seq1, b', es) = f k seq b in
      let (seq2, more', es') = sweep f (suc k) seq1 more in (seq2, b' ∷ more', es ++ es')

  due_block : Block j → ℕ → Schedule → Bool
  due_block b now sched = if b.spec.derived then false else (elim b.last_attempt [
    | none ↦ true
    | some last ↦
        if b.immediate || not sched.cache || b.spec.interval == 0
        then true
        else if b.last_failed
        then leb (min (failure_retry - sched.sample_interval) b.spec.interval) (now - last)
        else leb b.spec.interval (now - last)
  ])

  unfoldable pub due : Inner j → ℕ → ℕ → Schedule → Option Bool
  unfolding due_block
  due g i now sched = elim (get_elem? g.blocks i) [
    | none ↦ none
    | some b ↦ some (due_block b now sched)
  ]

  contains : List String → String → Bool
  contains [] n = false
  contains (m ∷ ms) n = str_eq m n || contains ms n

  named : Option (List String) → Block j → Bool
  named none b = true
  named (some ns) b = contains ns b.spec.name

  unfoldable pub mark_immediate : Option (List String) → Inner j → Inner j
  unfolding contains named
  mark_immediate names g = record g {
    blocks =
        map (λ (b : Block j). if named names b then record b { immediate = true } else b) g.blocks;
  }

  -- `published_at.map(|t| now.saturating_duration_since(t))`
  abbrev pub since_publish : Block j → ℕ → Option ℕ
  since_publish b now = elim b.published_at [ none ↦ none | some t ↦ some (now - t) ]

  -- The raw reply of the first block with the name.
  raw_of : List (Block j) → String → Option Value
  raw_of [] n = none
  raw_of (b ∷ more) n = if str_eq b.spec.name n then b.raw else raw_of more n

  unfoldable pub shape : List (Block j) → Block j → Value → Value
  unfolding raw_of
  shape blocks b raw = elim b.spec.shape [ none ↦ raw | some f ↦ f raw (raw_of blocks) ]

  -- The part of `record_read` for a good reply, up to `reshape_dependents`.
  unfoldable pub read_ok : ℕ → ℕ → Block j → Value → Value → ℕ → Step
  read_ok seq wall b v shaped now =
      let b' = record b {
        last_attempt = some now;
        immediate = false;
        last_failed = false;
        last_success = some now;
        observed_at = wall;
        raw = some v;
        current = some shaped;
        stale = false;
      } in
      publish j seq b' (b.spec.policy.on_read b.published (some shaped) (since_publish b now))
        b.stale now

  -- The part for a failed read.
  unfoldable pub read_failed : ℕ → Block j → ℕ → Step
  read_failed seq b now =
      let b' = record b { last_attempt = some now; immediate = false; last_failed = true } in
      if not b.stale
      then publish j seq (record b' { stale = true }) never true now
      else (seq, b', [])

  -- One pass of the loop of `reshape_dependents`. It writes no raw reply, so `blocks` are the blocks
  -- before the loop.
  unfoldable pub reshape_block : List (Block j) → ℕ → String → ℕ → ℕ → ℕ → Block j → Step
  unfolding contains
  reshape_block blocks i name now k seq b =
      if (k == i) || b.stale || not (contains b.spec.deps name) then (seq, b, []) else (elim b.raw [
        | none ↦ (seq, b, [])
        | some raw ↦
            let shaped = shape blocks b raw in
            if same_value j b.current (some shaped)
            then (seq, b, [])
            else publish j seq (record b { current = some shaped })
                (b.spec.policy.on_read b.published (some shaped) (since_publish b now)) false now
      ])

  unfoldable pub reshape_dependents : List (Block j) → ℕ → String → ℕ → ℕ → Steps
  reshape_dependents blocks i name seq now = sweep (reshape_block blocks i name now) 0 seq blocks

  -- The branches of `record_read` on the `i`-th block `b`, `wall` the time of day in seconds.
  unfoldable pub read_good : ℕ → ℕ → List (Block j) → ℕ → ℕ → Block j → Value → Steps
  read_good seq i blocks now wall b v =
      let (seq1, b', es) = read_ok seq wall b v (shape blocks b v) now in
      if not (same_value j b.raw (some v))
      then (let (seq2, blocks', es') =
            reshape_dependents (set blocks i b') i b.spec.name seq1 now in
          (seq2, blocks', es ++ es'))
      else (seq1, set blocks i b', es)

  unfoldable pub read_bad : ℕ → ℕ → List (Block j) → ℕ → Block j → Steps
  read_bad seq i blocks now b =
      let (seq1, b', es) = read_failed seq b now in (seq1, set blocks i b', es)

  unfoldable pub read_result :
      ℕ → ℕ → Result String Value → ℕ → List (Block j) → ℕ → Block j → Steps
  read_result seq i (ok v) now blocks wall b =
      if j.is_object v then read_good seq i blocks now wall b v else read_bad seq i blocks now b
  read_result seq i (err e) now blocks wall b = read_bad seq i blocks now b

  unfoldable pub record_read : ℕ → ℕ → Result String Value → ℕ → List (Block j) → ℕ → Option Steps
  record_read seq i result now blocks wall = elim (get_elem? blocks i) [
    | none ↦ none
    | some b ↦ some (read_result seq i result now blocks wall b)
  ]

  -- The index of the first block of the name, and `record`; nothing happens without one.
  unfoldable pub position : List (Block j) → String → Option ℕ
  position [] n = none
  position (b ∷ more) n =
      let later = position more n in
      if str_eq b.spec.name n then some 0 else elim later [ none ↦ none | some i ↦ some (suc i) ]

  unfoldable pub record_named :
      ℕ → String → Result String Value → ℕ → List (Block j) → ℕ → Option Steps
  unfolding position
  record_named seq n result now blocks wall = elim (position blocks n) [
    | none ↦ some (seq, blocks, [])
    | some i ↦ record_read seq i result now blocks wall
  ]
