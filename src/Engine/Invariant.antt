-- ===== src/Engine/Invariant.antt =====
-- The invariant of the engine, and that every call keeps it (rust/src/ops/engine.rs).
use zte_u60_pro_mu5250_data.Common.{
  ℕ, ◌≤◌, String, Bool, true, false, Option, none, some, List, [], ◌∷◌, length, length-append,
  length-drop, drop, ◌≡◌, refl, ap, subst, arith,
}
use zte_u60_pro_mu5250_data.Txn.Types.{Source, Txn, is_final, Reason, other_change}
use zte_u60_pro_mu5250_data.Txn.Ops.{cancel}
use zte_u60_pro_mu5250_data.Engine.State.{Session, World, remember, recent_limit}
use zte_u60_pro_mu5250_data.Engine.Active.{ack, notice_ack, other_write, cancel_active}
use zte_u60_pro_mu5250_data.Engine.Stored.{
  SameStage, SameStage-self, Stored, Live, cancel_final, Released, Kept, finish_active-Released,
}

-- A transaction and a session are never in progress together.
abbrev pub Apart : Option Txn → Option Session → Type 0
Apart (some t) (some s) = ⊥
Apart _ _ = Unit {0}

pub length-remember :
    (recent : List Txn) (t : Txn)
    → length recent ≤ recent_limit
    → length (remember recent t) ≤ recent_limit
unfolding remember
length-remember recent t h = ground (
  arith,
  length-append (drop 1 recent) (t ∷ []),
  length-append recent (t ∷ []),
  length-drop 1 recent,
)

saved_stage :
    (t : Txn) (p : Option Txn) → Stored (some t) p → (d : Txn) × (p ≡ some d) × SameStage t d
saved_stage t none s = elim s [ ]
saved_stage t (some d) s = (d, refl, s)

-- The saved transaction, if no write to the store was lost.
saved_part :
    (t : Txn) (lost : Bool) (p : Option Txn)
    → (lost ≡ false → Stored (some t) p)
    → (d : Txn) × (lost ≡ false → p ≡ some d) × SameStage t d
saved_part t true p s = (t, (λ e. cc e), SameStage-self t)
saved_part t false p s = let (d, e, k) = saved_stage t p (s refl) in (d, (λ x. e), k)

in_progress_parts :
    (t : Txn) (a p : Option Txn) (s : Option Session) (lost : Bool)
    → (lost ≡ false → Stored a p)
    → Live a
    → Apart a s
    → a ≡ some t
    → (s ≡ none)
      × (is_final t.phase ≡ false)
      × ((d : Txn) × (lost ≡ false → p ≡ some d) × SameStage t d)
in_progress_parts t none p s lost st l ap e = cc
in_progress_parts t (some u) p (some x) lost st l ap e = elim ap [ ]
in_progress_parts t (some u) p none lost st l ap e =
    let same : u ≡ t = cc e in
    (
      refl,
      subst (λ x. is_final x.phase ≡ false) same l,
      saved_part t lost p (λ n. subst (λ x. Stored (some x) p) same (st n)),
    )

module _ {V : Type 0} where
  pub record Inv (w : World V) : Type 0 where
    pub stored : w.lost ≡ false → Stored w.st.active w.pending
    pub live : Live w.st.active
    pub exclusive : Apart w.st.active w.st.session
    pub bounded : length w.st.recent ≤ recent_limit

  pub Released-Inv : (t : Txn) (w w' : World V) → Released t w w' → Inv w → Inv w'
  Released-Inv t w w' r h = ground (arith, length-remember w.st.recent t)

  -- The transaction in progress goes on as `t`, saved as `d`.
  pub Kept-Inv :
      (t d : Txn) (w w' : World V)
      → Kept t d w w'
      → SameStage t d
      → is_final t.phase ≡ false
      → w.st.session ≡ none
      → Inv w
      → Inv w'
  Kept-Inv t d w w' k s e n h = ground arith

  -- With a transaction in progress there is no session, and its stage is on disk, as long as no write
  -- to the store was lost.
  pub in_progress :
      (t : Txn) (w : World V)
      → Inv w
      → w.st.active ≡ some t
      → (w.st.session ≡ none)
        × (is_final t.phase ≡ false)
        × ((d : Txn) × (w.lost ≡ false → w.pending ≡ some d) × SameStage t d)
  in_progress t w h a =
      in_progress_parts t w.st.active w.pending w.st.session w.lost h.stored h.live h.exclusive a

  pub cancel_active-Inv :
      (t : Txn) (why : Reason) (now : ℕ) (w : World V) → Inv w → Inv (cancel_active t why now w)
  cancel_active-Inv t why now w =
      Released-Inv (cancel t why) w (cancel_active t why now w)
        (finish_active-Released (cancel t why) now w (cancel_final t why))

  pub other_write-Inv :
      (source : Source) (now : ℕ) (w : World V) → Inv w → Inv (other_write source now w).0
  unfolding other_write
  other_write-Inv source now w h = by_active w.st.active refl
    where
      by_active : (a : Option Txn) → w.st.active ≡ a → Inv (other_write source now w).0
      by_active none e = rw (e, other_write) h
      by_active (some t) e =
          rw (e, other_write) (ground (arith, cancel_active-Inv t other_change now w h))

  pub ack-Inv :
      (id : String) (source : Source) (now : ℕ) (w : World V) → Inv w → Inv (ack id source now w).0
  unfolding ack
  ack-Inv id source now w h = ground arith

  pub notice_ack-Inv :
      (source : Source) (now : ℕ) (w : World V) → Inv w → Inv (notice_ack source now w)
  unfolding notice_ack
  notice_ack-Inv source now w h = ground arith
