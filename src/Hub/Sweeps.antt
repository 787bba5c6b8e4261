-- ===== src/Hub/Sweeps.antt =====
-- Loops over the blocks that publish (rust/src/block.rs).
use zte_u60_pro_mu5250_data.Common.{
  ℕ, zero, suc, String, false, some, List, [], ◌∷◌, ◌++◌, map, str_eq, get_elem?, set, ◌≡◌, refl,
  sym, ap, ◌∙◌, subst, arith, ◌⊎◌, inl, inr, append_assoc, unwrap_or,
}
use zte_u60_pro_mu5250_data.Hub.Blocks.{Json, Block, block_event, view}
use zte_u60_pro_mu5250_data.Hub.Publishing.{Counts, Counts-append}
use zte_u60_pro_mu5250_data.Hub.Reads.{Step, Steps, sweep}
use zte_u60_pro_mu5250_data.Hub.Replay.{
  Known, known, replay, replace-append, replay-append, Absent, Apart, Apart-append, IsFresh,
  Distinct, Tells,
}

module _ (j : Json) where
  -- The same names in the same order.
  abbrev pub SameNames : List (Block j) → List (Block j) → Type 0
  SameNames [] [] = Unit {0}
  SameNames (a ∷ as') (b ∷ bs) = (a.spec.name ≡ b.spec.name) × SameNames as' bs
  SameNames _ _ = ⊥

  -- What a loop over `bs` owes to a subscriber that knows `pre` and then the blocks.
  pub record Informs (seq : ℕ) (bs : List (Block j)) (r : Steps j) : Type 0 where
    pub same_names : SameNames r.1 bs
    pub counted : Counts j seq r.2 r.0
    pub informed :
        (pre : List (Known j))
        → Apart j pre bs
        → replay j r.2 (pre ++ map (known j) bs) ≡ pre ++ map (known j) r.1

  -- One step tells its change to the subscriber.
  step_known :
      (seq : ℕ) (b : Block j) (r : Step j) (pre more : List (Known j))
      → Tells j seq b r
      → Absent j b.spec.name pre
      → replay j r.2 (pre ++ known j b ∷ more) ≡ pre ++ known j r.1 ∷ more
  unfolding known
  step_known seq b r pre more t a = by_told t.told
    where
      by_told :
          ((r.2 ≡ []) × (known j r.1 ≡ known j b)) ⊎ (r.2 ≡ block_event r.0 (view j r.1) ∷ [])
          → replay j r.2 (pre ++ known j b ∷ more) ≡ pre ++ known j r.1 ∷ more
      by_told (inl (e, k)) =
          ap (λ es. replay j es (pre ++ known j b ∷ more)) e ∙ ap (λ w. pre ++ w ∷ more) (sym k)
      by_told (inr e) =
          ap (λ es. replay j es (pre ++ known j b ∷ more)) e
          ∙ replace-append j (known j r.1) (known j b) pre more
              (subst (λ (n : String). Absent j n pre) (sym t.same_name) a) t.same_name

  Informs-cons :
      (seq : ℕ) (b : Block j) (more : List (Block j)) (r : Step j) (s : Steps j)
      → Tells j seq b r
      → Distinct j (b ∷ more)
      → Informs r.0 more s
      → Informs seq (b ∷ more) (s.0, r.1 ∷ s.1, r.2 ++ s.2)
  unfolding known
  Informs-cons seq b more r s t (f, d) i = record {
    same_names = (t.same_name, i.same_names);
    counted = Counts-append j seq r.0 s.0 r.2 s.2 t.counted i.counted;
    informed = λ pre (a, ap').
        (replay-append j r.2 s.2 (pre ++ map (known j) (b ∷ more))
          ∙ ap (replay j s.2) (step_known seq b r pre (map (known j) more) t a)
          ∙ rest pre ap');
  }
    where
      w : Known j
      w = known j r.1

      rest :
          (pre : List (Known j))
          → Apart j pre more
          → replay j s.2 (pre ++ w ∷ map (known j) more) ≡ pre ++ w ∷ map (known j) s.1
      rest pre h =
          sym (ap (replay j s.2) (append_assoc pre (w ∷ []) (map (known j) more)))
          ∙ i.informed (pre ++ w ∷ []) (
              Apart-append j w pre more h
                (subst (λ (n : String). IsFresh j n more) (sym t.same_name) f))
          ∙ append_assoc pre (w ∷ []) (map (known j) s.1)

  pub sweep-Informs :
      (f : ℕ → ℕ → Block j → Step j)
      → ((k seq : ℕ) (b : Block j) → Tells j seq b (f k seq b))
      → (k seq : ℕ) (bs : List (Block j)) → Distinct j bs
      → Informs seq bs (sweep j f k seq bs)
  unfolding sweep
  sweep-Informs f law k seq [] d = record {
    same_names = tt;
    counted = refl;
    informed = λ pre h. refl;
  }
  sweep-Informs f law k seq (b ∷ more) (e, d) =
      Informs-cons seq b more (f k seq b) (sweep j f (suc k) (f k seq b).0 more) (law k seq b)
        (e, d) (sweep-Informs f law (suc k) (f k seq b).0 more d)

  pub SameNames-refl : (bs : List (Block j)) → SameNames bs bs
  SameNames-refl [] = tt
  SameNames-refl (b ∷ more) = (refl, SameNames-refl more)

  pub silent : (seq : ℕ) (bs : List (Block j)) → Informs seq bs (seq, bs, [])
  silent seq bs = record {
    same_names = SameNames-refl bs;
    counted = refl;
    informed = λ pre h. refl;
  }

  -- A step on the block at one place.
  pub set-Informs :
      (seq : ℕ) (i : ℕ) (b : Block j) (bs : List (Block j)) (r : Step j)
      → get_elem? bs i ≡ some b
      → Tells j seq b r
      → Distinct j bs
      → Informs seq bs (r.0, set bs i r.1, r.2)
  unfolding known
  set-Informs seq i b [] r g t d = ground arith
  set-Informs seq zero b (c ∷ more) r g t (e, d) =
      subst (λ (x : Block j). Informs seq (x ∷ more) (r.0, r.1 ∷ more, r.2))
        (sym (ap (λ o. unwrap_or o b) g)) at_head
    where
      at_head : Informs seq (b ∷ more) (r.0, r.1 ∷ more, r.2)
      at_head = record {
        same_names = (t.same_name, SameNames-refl more);
        counted = t.counted;
        informed = λ pre (a, h). step_known seq b r pre (map (known j) more) t a;
      }
  set-Informs seq (suc i) b (c ∷ more) r g t (e, d) =
      Informs-cons seq c more (seq, c, []) (r.0, set more i r.1, r.2)
        (record { same_name = refl; counted = refl; told = inl (refl, refl) }) (e, d)
        (set-Informs seq i b more r g t d)

  IsFresh-same :
      (n : String) (bs cs : List (Block j)) → SameNames cs bs → IsFresh j n bs → IsFresh j n cs
  IsFresh-same n [] [] s f = tt
  IsFresh-same n [] (c ∷ cs) s f = elim s [ ]
  IsFresh-same n (b ∷ bs) [] s f = elim s [ ]
  IsFresh-same n (b ∷ bs) (c ∷ cs) (e, s) (f, h) =
      (subst (λ (m : String). str_eq m n ≡ false) (sym e) f, IsFresh-same n bs cs s h)

  Apart-same :
      (pre : List (Known j)) (bs cs : List (Block j))
      → SameNames cs bs
      → Apart j pre bs
      → Apart j pre cs
  Apart-same pre [] [] s f = tt
  Apart-same pre [] (c ∷ cs) s f = elim s [ ]
  Apart-same pre (b ∷ bs) [] s f = elim s [ ]
  Apart-same pre (b ∷ bs) (c ∷ cs) (e, s) (a, h) =
      (subst (λ (m : String). Absent j m pre) (sym e) a, Apart-same pre bs cs s h)

  SameNames-trans :
      (as' bs cs : List (Block j)) → SameNames as' bs → SameNames bs cs → SameNames as' cs
  SameNames-trans [] [] [] s t = tt
  SameNames-trans [] [] (c ∷ cs) s t = elim t [ ]
  SameNames-trans [] (b ∷ bs) cs s t = elim s [ ]
  SameNames-trans (a ∷ as') [] cs s t = elim s [ ]
  SameNames-trans (a ∷ as') (b ∷ bs) [] s t = elim t [ ]
  SameNames-trans (a ∷ as') (b ∷ bs) (c ∷ cs) (e, s) (f, t) = (e ∙ f, SameNames-trans as' bs cs s t)

  pub Distinct-same : (bs cs : List (Block j)) → SameNames cs bs → Distinct j bs → Distinct j cs
  Distinct-same [] [] s d = tt
  Distinct-same [] (c ∷ cs) s d = elim s [ ]
  Distinct-same (b ∷ bs) [] s d = elim s [ ]
  Distinct-same (b ∷ bs) (c ∷ cs) (e, s) (f, d) = (
    IsFresh-same c.spec.name bs cs s (subst (λ (n : String). IsFresh j n bs) (sym e) f),
    Distinct-same bs cs s d,
  )

  pub Informs-append :
      (seq : ℕ) (bs : List (Block j)) (r s : Steps j)
      → Informs seq bs r
      → Informs r.0 r.1 s
      → Informs seq bs (s.0, s.1, r.2 ++ s.2)
  Informs-append seq bs r s h i = record {
    same_names = SameNames-trans s.1 r.1 bs i.same_names h.same_names;
    counted = Counts-append j seq r.0 s.0 r.2 s.2 h.counted i.counted;
    informed = λ pre a.
        (replay-append j r.2 s.2 (pre ++ map (known j) bs)
          ∙ ap (replay j s.2) (h.informed pre a)
          ∙ i.informed pre (Apart-same pre bs r.1 h.same_names a));
  }
