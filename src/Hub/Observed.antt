-- ===== src/Hub/Observed.antt =====
-- Which blocks an operation stamps with the time of observation (rust/src/block.rs).
use zte_u60_pro_mu5250_data.Common.{
  ℕ, zero, suc, String, Bool, true, false, Option, none, some, List, [], ◌∷◌, map, str_eq,
  get_elem?, set, if◌then◌else◌, Result, ok, err, ◌≡◌, refl, sym, ap, ◌∙◌, arith, inl, inr,
  Bool-cases, unwrap_or,
}
use zte_u60_pro_mu5250_data.Hub.Blocks.{Json, Publish, Block, same_value}
use zte_u60_pro_mu5250_data.Hub.Publishing.{publish}
use zte_u60_pro_mu5250_data.Hub.Reads.{
  Step, sweep, read_ok, read_failed, read_good, read_bad, read_result, shape, reshape_block,
  reshape_dependents, position,
}

module _ (j : Json) where
  abbrev pub times : List (Block j) → List ℕ
  times bs = map (λ (b : Block j). b.observed_at) bs

  -- The times after a reply to the read of the name: that of the first block of the name is `wall` if
  -- the reply is an object, and all others are as before.
  abbrev pub times_after : String → Result String j.Value → ℕ → List (Block j) → List ℕ
  times_after n result wall [] = []
  times_after n result wall (b ∷ more) =
      if str_eq b.spec.name n
      then (elim result [
        | ok v ↦ if j.is_object v then wall else b.observed_at
        | err e ↦ b.observed_at
      ])
        ∷ times more
      else b.observed_at ∷ times_after n result wall more

  publish-observed :
      (seq : ℕ) (b : Block j) (d : Publish) (flipped : Bool) (now : ℕ)
      → (publish j seq b d flipped now).1.observed_at ≡ b.observed_at
  unfolding publish
  publish-observed seq b d flipped now = ground arith

  reshape_block-observed :
      (blocks : List (Block j)) (i : ℕ) (name : String) (now k seq : ℕ) (b : Block j)
      → (reshape_block j blocks i name now k seq b).1.observed_at ≡ b.observed_at
  unfolding reshape_block publish
  reshape_block-observed blocks i name now k seq b = ground arith

  read_ok-observed :
      (seq wall : ℕ) (b : Block j) (v shaped : j.Value) (now : ℕ)
      → (read_ok j seq wall b v shaped now).1.observed_at ≡ wall
  unfolding read_ok publish
  read_ok-observed seq wall b v shaped now = ground arith

  read_failed-observed :
      (seq : ℕ) (b : Block j) (now : ℕ) → (read_failed j seq b now).1.observed_at ≡ b.observed_at
  unfolding read_failed publish
  read_failed-observed seq b now = ground arith

  sweep-times :
      (f : ℕ → ℕ → Block j → Step j)
      → ((k seq : ℕ) (b : Block j) → (f k seq b).1.observed_at ≡ b.observed_at)
      → (k seq : ℕ) (bs : List (Block j)) → times (sweep j f k seq bs).1 ≡ times bs
  unfolding sweep
  sweep-times f law k seq [] = refl
  sweep-times f law k seq (b ∷ more) =
      ap (λ t. t ∷ times (sweep j f (suc k) (f k seq b).0 more).1) (law k seq b)
      ∙ ap (λ ts. b.observed_at ∷ ts) (sweep-times f law (suc k) (f k seq b).0 more)

  set-times :
      (i : ℕ) (b : Block j) (bs : List (Block j))
      → times (set bs i b) ≡ set (times bs) i b.observed_at
  set-times i b [] = refl
  set-times zero b (c ∷ more) = refl
  set-times (suc i) b (c ∷ more) = ap (λ ts. c.observed_at ∷ ts) (set-times i b more)

  abbrev stamp : Result String j.Value → ℕ → Block j → ℕ
  stamp result wall b = elim result [
    | ok v ↦ if j.is_object v then wall else b.observed_at
    | err e ↦ b.observed_at
  ]

  read_bad-times :
      (seq i : ℕ) (blocks : List (Block j)) (now : ℕ) (b : Block j)
      → times (read_bad j seq i blocks now b).1 ≡ set (times blocks) i b.observed_at
  unfolding read_bad
  read_bad-times seq i blocks now b =
      set-times i (read_failed j seq b now).1 blocks
      ∙ ap (λ t. set (times blocks) i t) (read_failed-observed seq b now)

  read_good-times :
      (seq i : ℕ) (blocks : List (Block j)) (now wall : ℕ) (b : Block j) (v : j.Value)
      → times (read_good j seq i blocks now wall b v).1 ≡ set (times blocks) i wall
  unfolding read_good reshape_dependents
  read_good-times seq i blocks now wall b v = elim (Bool-cases (same_value j b.raw (some v))) [
    | inl e ↦ rw e written
    | inr e ↦ rw e (
        sweep-times (reshape_block j (set blocks i own.1) i b.spec.name now)
          (reshape_block-observed (set blocks i own.1) i b.spec.name now) 0 own.0
          (set blocks i own.1)
        ∙ written)
  ]
    where
      own : Step j
      own = read_ok j seq wall b v (shape j blocks b v) now

      written : times (set blocks i own.1) ≡ set (times blocks) i wall
      written =
          set-times i own.1 blocks
          ∙ ap (λ t. set (times blocks) i t)
              (read_ok-observed seq wall b v (shape j blocks b v) now)

  pub read_result-times :
      (seq i : ℕ) (result : Result String j.Value) (now : ℕ) (blocks : List (Block j)) (wall : ℕ)
      (b : Block j)
      → times (read_result j seq i result now blocks wall b).1
        ≡ set (times blocks) i (stamp result wall b)
  unfolding read_result
  read_result-times seq i (err e) now blocks wall b = read_bad-times seq i blocks now b
  read_result-times seq i (ok v) now blocks wall b = elim (Bool-cases (j.is_object v)) [
    | inl e ↦ rw e (read_good-times seq i blocks now wall b v)
    | inr e ↦ rw e (read_bad-times seq i blocks now b)
  ]

  pub position-none :
      (bs : List (Block j)) (n : String) (result : Result String j.Value) (wall : ℕ)
      → position j bs n ≡ none
      → times_after n result wall bs ≡ times bs
  unfolding position
  position-none [] n result wall h = refl
  position-none (b ∷ more) n result wall h = ground (arith, position-none more n result wall)

  pub position-times :
      (bs : List (Block j)) (n : String) (i : ℕ) (b : Block j) (result : Result String j.Value)
      (wall : ℕ)
      → position j bs n ≡ some i
      → get_elem? bs i ≡ some b
      → set (times bs) i (stamp result wall b) ≡ times_after n result wall bs
  unfolding position
  position-times [] n i b result wall h g = ground arith
  position-times (c ∷ more) n zero b result wall h g =
      rw (at_first) (ap (λ (x : Block j). stamp result wall x ∷ times more) (sym same))
    where
      same : c ≡ b
      same = ap (λ o. unwrap_or o c) g

      at_first : str_eq c.spec.name n ≡ true
      at_first = elim (Bool-cases (str_eq c.spec.name n)) [
        | inl e ↦ e
        | inr e ↦ by_later (position j more n) refl e
      ]
        where
          by_later :
              (o : Option ℕ)
              → position j more n ≡ o
              → str_eq c.spec.name n ≡ false
              → str_eq c.spec.name n ≡ true
          by_later none q e = ground arith
          by_later (some k) q e = ground arith
  position-times (c ∷ more) n (suc i) b result wall h g = elim (Bool-cases (str_eq c.spec.name n)) [
    | inl e ↦ ground arith
    | inr e ↦
        rw e
          (ap (λ ts. c.observed_at ∷ ts) (position-times more n i b result wall (ground arith) g))
  ]
