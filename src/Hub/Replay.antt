-- ===== src/Hub/Replay.antt =====
-- What a subscriber knows: it takes a snapshot and replays the events after it
-- (rust/src/block.rs, `snapshot_with` and `Hub::publish`).
use zte_u60_pro_mu5250_data.Common.{
  ℕ, String, Bool, false, List, [], ◌∷◌, ◌++◌, str_eq, str_eq_iff, if◌then◌else◌, ◌≡◌, refl, arith,
  ◌⊎◌,
}
use zte_u60_pro_mu5250_data.Hub.Blocks.{Json, Block, BlockView, Event, block_event, heartbeat, view}
use zte_u60_pro_mu5250_data.Hub.Publishing.{Counts}
use zte_u60_pro_mu5250_data.Hub.Reads.{Step}

module _ (j : Json) where
  open j use {Value}

  -- What is shown of a block but the time of observation, which a read may change without an event:
  -- heartbeats carry it, and Hub/Copies follows them.
  abbrev pub Known : Type 0
  Known = String × ℕ × Bool × Value

  abbrev pub known_view : BlockView j → Known
  known_view v = (v.name, v.revision, v.stale, v.shown)

  unfoldable pub known : Block j → Known
  unfolding view
  known b = known_view (view j b)

  -- The event's block replaces the one of its name.
  abbrev pub replace : Known → List Known → List Known
  replace w [] = []
  replace w (v ∷ vs) = if str_eq w.0 v.0 then w ∷ vs else v ∷ replace w vs

  abbrev pub replay : List (Event j) → List Known → List Known
  replay [] vs = vs
  replay (block_event n v ∷ more) vs = replay more (replace (known_view v) vs)
  replay (heartbeat n s g ∷ more) vs = replay more vs

  -- No block of the list has the name.
  abbrev pub IsFresh : String → List (Block j) → Type 0
  IsFresh n [] = Unit {0}
  IsFresh n (b ∷ more) = (str_eq b.spec.name n ≡ false) × IsFresh n more

  -- The blocks have different names.
  abbrev pub Distinct : List (Block j) → Type 0
  Distinct [] = Unit {0}
  Distinct (b ∷ more) = IsFresh b.spec.name more × Distinct more

  -- No entry of the list has the name; no block has the name of an entry.
  abbrev pub Absent : String → List Known → Type 0
  Absent n [] = Unit {0}
  Absent n (v ∷ vs) = (str_eq n v.0 ≡ false) × Absent n vs

  abbrev pub Apart : List Known → List (Block j) → Type 0
  Apart pre [] = Unit {0}
  Apart pre (b ∷ more) = Absent b.spec.name pre × Apart pre more

  Absent-append :
      (n : String) (w : Known) (pre : List Known)
      → Absent n pre
      → str_eq n w.0 ≡ false
      → Absent n (pre ++ w ∷ [])
  Absent-append n w [] h e = (e, tt)
  Absent-append n w (v ∷ vs) (d, h) e = (d, Absent-append n w vs h e)

  pub Apart-append :
      (w : Known) (pre : List Known) (bs : List (Block j))
      → Apart pre bs
      → IsFresh w.0 bs
      → Apart (pre ++ w ∷ []) bs
  Apart-append w pre [] h f = tt
  Apart-append w pre (b ∷ more) (a, h) (e, f) =
      (Absent-append b.spec.name w pre a e, Apart-append w pre more h f)

  pub replace-append :
      (w v : Known) (pre vs : List Known)
      → Absent w.0 pre
      → w.0 ≡ v.0
      → replace w (pre ++ v ∷ vs) ≡ pre ++ w ∷ vs
  replace-append w v [] vs h e = ground (arith, (str_eq_iff w.0 v.0).1 e)
  replace-append w v (u ∷ us) vs (d, h) e = ground (arith, replace-append w v us vs h e)

  pub replay-append :
      (xs ys : List (Event j)) (vs : List Known) → replay (xs ++ ys) vs ≡ replay ys (replay xs vs)
  replay-append [] ys vs = refl
  replay-append (block_event n v ∷ more) ys vs = replay-append more ys (replace (known_view v) vs)
  replay-append (heartbeat n s g ∷ more) ys vs = replay-append more ys vs

  -- The step keeps the block's name, numbers its events, and either sent nothing and left what is
  -- shown as it was, or sent the block as it now is.
  pub record Tells (seq : ℕ) (b : Block j) (r : Step j) : Type 0 where
    pub same_name : r.1.spec.name ≡ b.spec.name
    pub counted : Counts j seq r.2 r.0
    pub told : ((r.2 ≡ []) × (known r.1 ≡ known b)) ⊎ (r.2 ≡ block_event r.0 (view j r.1) ∷ [])
