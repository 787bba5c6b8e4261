-- ===== src/Hub/Recent.antt =====
-- After `expire` every block that is not stale was read within its `max_age`, so that `legacy` hands
-- out no older data (rust/src/block.rs).
use zte_u60_pro_mu5250_data.Common.{
  ℕ, suc, ◌-◌, ltb, true, false, String, str_eq, some, List, [], ◌∷◌, ◌≡◌, arith, ◌⊎◌, ok,
  is_some_and,
}
use zte_u60_pro_mu5250_data.Hub.Blocks.{Json, Block, max_age}
use zte_u60_pro_mu5250_data.Hub.Publishing.{publish}
use zte_u60_pro_mu5250_data.Hub.Reads.{sweep}
use zte_u60_pro_mu5250_data.Hub.Rounds.{expire_block, expire_locked, legacy}

module _ (j : Json) where
  -- The last good read, if any, is at most the maximal age old.
  abbrev pub Recent : ℕ → ℕ → Block j → Type 0
  Recent now interval b =
      is_some_and b.last_success (λ t. ltb (max_age j b interval) (now - t)) ≡ false

  abbrev pub Sound : ℕ → ℕ → Block j → Type 0
  Sound now interval b = (b.stale ≡ true) ⊎ Recent now interval b

  abbrev pub AllSound : ℕ → ℕ → List (Block j) → Type 0
  AllSound now interval [] = Unit {0}
  AllSound now interval (b ∷ more) = Sound now interval b × AllSound now interval more

  expire_block-Sound :
      (now interval k seq : ℕ) (b : Block j)
      → Sound now interval (expire_block j now interval k seq b).1
  unfolding expire_block publish
  expire_block-Sound now interval k seq b = ground arith

  pub expire_locked-AllSound :
      (now interval seq : ℕ) (bs : List (Block j))
      → AllSound now interval (expire_locked j now interval seq bs).1
  unfolding expire_locked sweep
  expire_locked-AllSound now interval seq bs = swept 0 seq bs
    where
      swept :
          (k seq : ℕ) (bs : List (Block j))
          → AllSound now interval (sweep j (expire_block j now interval) k seq bs).1
      swept k seq [] = tt
      swept k seq (b ∷ more) = (
        expire_block-Sound now interval k seq b,
        swept (suc k) (expire_block j now interval k seq b).0 more,
      )

  -- The list has a block of the name that is not stale, was read recently and has the raw reply.
  abbrev pub HasRecent : ℕ → ℕ → String → j.Value → List (Block j) → Type 0
  HasRecent now interval name v [] = ⊥
  HasRecent now interval name v (b ∷ more) =
      ((str_eq b.spec.name name ≡ true)
        × (b.stale ≡ false)
        × (b.raw ≡ some v)
        × Recent now interval b)
      ⊎ HasRecent now interval name v more

  legacy-HasRecent :
      (now interval : ℕ) (name : String) (v : j.Value) (bs : List (Block j))
      → AllSound now interval bs
      → legacy j name bs ≡ ok v
      → HasRecent now interval name v bs
  unfolding legacy
  legacy-HasRecent now interval name v [] s h = ground arith
  legacy-HasRecent now interval name v (b ∷ more) (s, ss) h =
      ground (arith, legacy-HasRecent now interval name v more ss)

  -- After `expire`, what `legacy` returns is the raw reply of a block of that name that is not stale
  -- and whose last good read is at most its maximal age old.
  pub legacy_after_expire :
      (now interval seq : ℕ) (name : String) (v : j.Value) (bs : List (Block j))
      → legacy j name (expire_locked j now interval seq bs).1 ≡ ok v
      → HasRecent now interval name v (expire_locked j now interval seq bs).1
  legacy_after_expire now interval seq name v bs h =
      legacy-HasRecent now interval name v (expire_locked j now interval seq bs).1
        (expire_locked-AllSound now interval seq bs) h
