-- ===== src/Hub/Copies.antt =====
-- A subscriber's whole copy of the blocks, with the times of observation that heartbeats carry
-- (rust/src/block.rs).
use zte_u60_pro_mu5250_data.Common.{
  ℕ, String, true, false, List, [], ◌∷◌, ◌++◌, map, str_eq, str_eq_refl, str_eq_iff, if◌then◌else◌,
  ◌≡◌, refl, sym, ap, ◌∙◌, subst, arith, inl, inr, Bool-cases,
}
use zte_u60_pro_mu5250_data.Hub.Blocks.{Json, Block, BlockView, Event, block_event, heartbeat, view}
use zte_u60_pro_mu5250_data.Hub.Replay.{
  Known, known_view, known, replace, replay, IsFresh, Distinct,
}

module _ (j : Json) where
  -- The block of an event replaces the one of its name.
  abbrev put : BlockView j → List (BlockView j) → List (BlockView j)
  put w [] = []
  put w (v ∷ vs) = if str_eq w.name v.name then w ∷ vs else v ∷ put w vs

  -- The time that a heartbeat tells for the name, or the one known before.
  abbrev time_for : String → ℕ → List (String × ℕ) → ℕ
  time_for n old [] = old
  time_for n old ((m, t) ∷ more) = if str_eq m n then t else time_for n old more

  abbrev refresh : List (String × ℕ) → List (BlockView j) → List (BlockView j)
  refresh s [] = []
  refresh s (v ∷ vs) = record v { observed_at = time_for v.name v.observed_at s } ∷ refresh s vs

  -- The copy after the events.
  abbrev pub receive : List (Event j) → List (BlockView j) → List (BlockView j)
  receive [] vs = vs
  receive (block_event n v ∷ more) vs = receive more (put v vs)
  receive (heartbeat n s g ∷ more) vs = receive more (refresh s vs)

  put-known :
      (w : BlockView j) (vs : List (BlockView j))
      → map (known_view j) (put w vs) ≡ replace j (known_view j w) (map (known_view j) vs)
  put-known w [] = refl
  put-known w (v ∷ vs) = elim (Bool-cases (str_eq w.name v.name)) [
    | inl e ↦ rw e refl
    | inr e ↦ rw e (ap (λ r. known_view j v ∷ r) (put-known w vs))
  ]

  refresh-known :
      (s : List (String × ℕ)) (vs : List (BlockView j))
      → map (known_view j) (refresh s vs) ≡ map (known_view j) vs
  refresh-known s [] = refl
  refresh-known s (v ∷ vs) = ap (λ r. known_view j v ∷ r) (refresh-known s vs)

  -- But for the times of observation, the whole copy changes as the replayed one does.
  pub receive-known :
      (es : List (Event j)) (vs : List (BlockView j))
      → map (known_view j) (receive es vs) ≡ replay j es (map (known_view j) vs)
  receive-known [] vs = refl
  receive-known (block_event n v ∷ more) vs =
      receive-known more (put v vs) ∙ ap (replay j more) (put-known v vs)
  receive-known (heartbeat n s g ∷ more) vs =
      receive-known more (refresh s vs) ∙ ap (replay j more) (refresh-known s vs)

  pub receive-append :
      (xs ys : List (Event j)) (vs : List (BlockView j))
      → receive (xs ++ ys) vs ≡ receive ys (receive xs vs)
  receive-append [] ys vs = refl
  receive-append (block_event n v ∷ more) ys vs = receive-append more ys (put v vs)
  receive-append (heartbeat n s g ∷ more) ys vs = receive-append more ys (refresh s vs)

  abbrev pub beats : List (Block j) → List (String × ℕ)
  beats bs = map (λ (b : Block j). (b.spec.name, b.observed_at)) bs

  -- The list tells the time of every block.
  abbrev Timed : List (String × ℕ) → List (Block j) → Type 0
  Timed s [] = Unit {0}
  Timed s (b ∷ more) = ((old : ℕ) → time_for b.spec.name old s ≡ b.observed_at) × Timed s more

  Timed-fresh :
      (n : String) (t : ℕ) (s : List (String × ℕ)) (bs : List (Block j))
      → IsFresh j n bs
      → Timed s bs
      → Timed ((n, t) ∷ s) bs
  Timed-fresh n t s [] f h = tt
  Timed-fresh n t s (b ∷ more) (e, f) (p, h) =
      (λ old. rw (other b e) (p old), Timed-fresh n t s more f h)
    where
      other : (b : Block j) → str_eq b.spec.name n ≡ false → str_eq n b.spec.name ≡ false
      other b e = elim (Bool-cases (str_eq n b.spec.name)) [
        | inl same ↦
            let q : n ≡ b.spec.name = (str_eq_iff n b.spec.name).0 same in
            let r : str_eq b.spec.name n ≡ true = (str_eq_iff b.spec.name n).1 (sym q) in cc
        | inr differs ↦ differs
      ]

  beats-Timed : (bs : List (Block j)) → Distinct j bs → Timed (beats bs) bs
  beats-Timed [] d = tt
  beats-Timed (b ∷ more) (f, d) = (
    λ old. rw (str_eq_refl b.spec.name) refl,
    Timed-fresh b.spec.name b.observed_at (beats more) more f (beats-Timed more d),
  )

  refreshed :
      (s : List (String × ℕ)) (bs : List (Block j)) (vs : List (BlockView j))
      → Timed s bs
      → map (known_view j) vs ≡ map (known j) bs
      → refresh s vs ≡ map (view j) bs
  unfolding known view
  refreshed s [] [] t e = refl
  refreshed s [] (v ∷ vs) t e = ground arith
  refreshed s (b ∷ bs) [] t e = ground arith
  refreshed s (b ∷ bs) (v ∷ vs) (p, t) e =
      let h : known_view j v ≡ known j b =
        ap (λ l. elim l as (λ x. Known j) [ [] ↦ known j b | k ∷ ks ↦ k ]) e in
      let more : map (known_view j) vs ≡ map (known j) bs =
        ap (λ l. elim l as (λ x. List (Known j)) [ [] ↦ [] | k ∷ ks ↦ ks ]) e in
      let r : time_for v.name v.observed_at s ≡ b.observed_at =
        subst (λ (n : String). time_for n v.observed_at s ≡ b.observed_at)
          (sym (ap (λ (k : Known j). k.0) h)) (p v.observed_at) in
      ap (λ (k : Known j). seen k (time_for v.name v.observed_at s) ∷ refresh s vs) h
      ∙ ap (λ (o : ℕ). seen (known j b) o ∷ refresh s vs) r
      ∙ ap (λ ws. view j b ∷ ws) (refreshed s bs vs t more)
    where
      seen : Known j → ℕ → BlockView j
      seen k o = record { name = k.0; revision = k.1; observed_at = o; stale = k.2; shown = k.3 }

  -- A heartbeat that names every block makes a copy whole.
  pub beats_lem :
      (bs : List (Block j)) (vs : List (BlockView j))
      → Distinct j bs
      → map (known_view j) vs ≡ map (known j) bs
      → refresh (beats bs) vs ≡ map (view j) bs
  beats_lem bs vs d = refreshed (beats bs) bs vs (beats-Timed bs d)
