-- ===== src/Sms/Complete.antt =====
-- Nothing above the id is left out of what `list_after_with` finds (rust/src/sms.rs).
use zte_u60_pro_mu5250_data.Common.{
  ℕ, zero, suc, ◌+◌, ◌≤◌, ◌<◌, String, Bool, true, false, ◌&&◌, ◌||◌, not, Option, none, some, List,
  [], ◌∷◌, ltb, length, take, drop, Result, ok, err, ◌>>=◌, ◌≡◌, refl, ◌∙◌, arith, ◌⊎◌, inl, inr,
  Bool-cases,
}
use zte_u60_pro_mu5250_data.Sms.Listing.{
  list_page, Message, ListError, Seen, has_id, see_page, is_repeat, page_ends, ids_of, read_pages,
  list_after_with, list_max_pages, first_found,
}
use zte_u60_pro_mu5250_data.Sms.Found.{
  messages, Serves, AllBelow, Descends, on_page, NoneFound, Ascends,
}
use zte_u60_pro_mu5250_data.Sms.Bodies.{AllOf, AllRead, In, all_of, read_pages-AllRead}
use zte_u60_pro_mu5250_data.Sms.Seeing.{
  see_page_found, see_page-Ascends, see_page_reached, first_stale,
}

module _ {V : Type 0} where
  below_first : (i k : ℕ) (more : List (ℕ × V)) → AllBelow i more → on_page k more ≡ true → k < i
  below_first i k [] h o = ground arith
  below_first i k ((j, v) ∷ more) h o = ground (arith, below_first i k more)

  on_page-split :
      (k n : ℕ) (rest : List (ℕ × V))
      → on_page k rest ≡ (on_page k (take n rest) || on_page k (drop n rest))
  on_page-split k zero rest = refl
  on_page-split k (suc n) [] = refl
  on_page-split k (suc n) ((i, v) ∷ more) = ground (arith, on_page-split k n more)

  -- What stands behind a page is below all of it.
  behind_page :
      (i k n : ℕ) (rest : List (ℕ × V))
      → Descends rest
      → on_page i (take n rest) ≡ true
      → on_page k (drop n rest) ≡ true
      → k < i
  behind_page i k zero rest d o p = ground arith
  behind_page i k (suc n) [] d o p = ground arith
  behind_page i k (suc n) ((j, v) ∷ more) d o p =
      let there : on_page k more ≡ true = ground (arith, on_page-split k n more) in
      ground (
        arith,
        below_first j k more d.0 there,
        λ (q : on_page i (take n more) ≡ true). behind_page i k n more d.1 q p,
      )

  Descends-drop : (n : ℕ) (rest : List (ℕ × V)) → Descends rest → Descends (drop n rest)
  Descends-drop zero rest d = d
  Descends-drop (suc n) [] d = d
  Descends-drop (suc n) ((i, v) ∷ more) d = Descends-drop n more d.1

  short_page :
      (k n : ℕ) (rest : List (ℕ × V))
      → length (messages (take n rest)) < n
      → on_page k (drop n rest) ≡ false
  short_page k zero rest h = absurd (omega (arith, h))
  short_page k (suc n) [] h = refl
  short_page k (suc n) ((i, v) ∷ more) h = short_page k n more (omega (arith, h))

  abbrev empty_seen : List (ℕ × V) → Seen V
  empty_seen found = record { found = found; reached = false; fresh = false }

  stale_page :
      (after k n : ℕ) (rest found : List (ℕ × V))
      → Descends rest
      → NoneFound rest found
      → 1 ≤ n
      → (see_page after (messages (take n rest)) (empty_seen found)).fresh ≡ false
      → on_page k (drop n rest) ≡ true
      → k ≤ after
  stale_page after k zero rest found d f l h o = absurd (omega (arith, l))
  stale_page after k (suc n) [] found d f l h o = ground arith
  stale_page after k (suc n) ((i, v) ∷ more) found d f l h o =
      let there : on_page k more ≡ true = ground (arith, on_page-split k n more) in
      ground (
        arith,
        below_first i k more d.0 there,
        first_stale after i v (take n more) (empty_seen found) h,
        f i,
      )

  reached_page :
      (after k n : ℕ) (rest found : List (ℕ × V))
      → Descends rest
      → (see_page after (messages (take n rest)) (empty_seen found)).reached ≡ true
      → on_page k (drop n rest) ≡ true
      → k ≤ after
  reached_page after k n rest found d h o =
      by_id (see_page_reached after (take n rest) (empty_seen found) h)
    where
      by_id :
          ((empty_seen found).reached ≡ true)
            ⊎ ((i : ℕ) × (on_page i (take n rest) ≡ true) × (i ≤ after))
          → k ≤ after
      by_id (inl e) = ground arith
      by_id (inr (i, p, l)) = omega (arith, l, behind_page i k n rest d p o)

  -- Where a page ends the reading of its store, nothing above the id stands behind it.
  ends-page :
      (after k n : ℕ) (rest found : List (ℕ × V))
      → Descends rest
      → NoneFound rest found
      → 1 ≤ n
      → let s = see_page after (messages (take n rest)) (empty_seen found) in
        (s.reached || not s.fresh || ltb (length (messages (take n rest))) n) ≡ true
        → (ltb after k && on_page k (drop n rest)) ≡ false
  ends-page after k n rest found d f l h =
      let s = see_page after (messages (take n rest)) (empty_seen found) in
      ground (
        arith,
        λ (r : s.reached ≡ true) (o : on_page k (drop n rest) ≡ true).
            reached_page after k n rest found d r o,
        λ (r : s.fresh ≡ false) (o : on_page k (drop n rest) ≡ true).
            stale_page after k n rest found d f l r o,
        λ (r : length (messages (take n rest)) < n). short_page k n rest r,
      )

  NoneFound-drop :
      (after n : ℕ) (rest found : List (ℕ × V))
      → Descends rest
      → NoneFound rest found
      → NoneFound (drop n rest) (see_page after (messages (take n rest)) (empty_seen found)).found
  NoneFound-drop after n rest found d f k o =
      let there : on_page k rest ≡ true = ground (arith, on_page-split k n rest) in
      ground (
        arith,
        see_page_found after k (take n rest) (empty_seen found),
        f k there,
        λ (p : on_page k (take n rest) ≡ true). behind_page k k n rest d p o,
      )

-- The answer of what has been found.
abbrev listed : {V : Type 0} → ℕ → List (ℕ × V) → Result ListError (List (ℕ × V) × Bool)
listed limit found = ok (first_found limit found)

module _ {V : Type 0} (fetch : ℕ → ℕ → Result String (List (Message V))) where
  -- What reading a store finds.
  abbrev Finds : ℕ → List (ℕ × V) → List (ℕ × V) → Result ListError (List (ℕ × V)) → Type 0
  Finds after rest found (err e) = Unit {0}
  Finds after rest found (ok found') =
      Ascends found'
      × ((k : ℕ) → has_id k found' ≡ (has_id k found || ltb after k && on_page k rest))

  Finds-behind :
      (after n : ℕ) (rest found : List (ℕ × V)) (res : Result ListError (List (ℕ × V)))
      → Finds after
          (drop n rest)
          (see_page after (messages (take n rest)) (empty_seen found)).found
          res
      → Finds after rest found res
  Finds-behind after n rest found (err e) h = tt
  Finds-behind after n rest found (ok found') h = (
    h.0,
    λ k.
        h.1 k
        ∙ ground (
          arith,
          see_page_found after k (take n rest) (empty_seen found),
          on_page-split k n rest,
        ),
  )

  -- The last page of a store.
  last_page :
      (after k n : ℕ) (rest found : List (ℕ × V))
      → (ltb after k && on_page k (drop n rest)) ≡ false
      → has_id k (see_page after (messages (take n rest)) (empty_seen found)).found
        ≡ (has_id k found || ltb after k && on_page k rest)
  last_page after k n rest found h =
      ground
        (arith, see_page_found after k (take n rest) (empty_seen found), on_page-split k n rest)

  read_pages-Finds :
      (after store left page : ℕ) (prev : Option (List ℕ)) (rest found : List (ℕ × V))
      → Serves fetch store page rest left
      → Descends rest
      → NoneFound rest found
      → Ascends found
      → Finds after rest found (read_pages fetch after store left page prev found)
  unfolding read_pages
  read_pages-Finds after store zero page prev rest found v d f u = tt
  read_pages-Finds after store (suc left) page prev rest found v d f u =
      let items = messages (take list_page rest) in
      let s = see_page after items (empty_seen found) in
      rw (read_pages, v.0)
        (elim (Bool-cases (is_repeat prev items)) [
          | inl e ↦ rw e tt
          | inr e ↦ rw e (elim (Bool-cases (page_ends items s)) [
            | inl x ↦ rw x (
              see_page-Ascends after (take list_page rest) (empty_seen found) u,
              λ k.
                  last_page after k list_page rest found
                    (ends-page after k list_page rest found d f (omega arith) x),
            )
            | inr x ↦ rw x (
                Finds-behind after list_page rest found
                  (read_pages fetch after store left (page + 1) (some (ids_of items)) s.found)
                  (read_pages-Finds after store left (page + 1) (some (ids_of items))
                    (drop list_page rest) s.found v.1 (Descends-drop list_page rest d)
                    (NoneFound-drop after list_page rest found d f)
                    (see_page-Ascends after (take list_page rest) (empty_seen found) u)))
          ])
        ])

  -- The message is in one of the stores, with these contents.
  abbrev pub Stands : List (ℕ × V) → List (ℕ × V) → ℕ → V → Type 0
  Stands nv sim i v = In i v nv ⊎ In i v sim

  -- What is listed: the first `limit` of what is found, which goes up, is every message of the two
  -- stores above the id, and has their contents.
  pub record Lists (after limit : ℕ) (nv sim items : List (ℕ × V)) (has_more : Bool) : Type 0 where
    pub found : List (ℕ × V)
    pub all : (k : ℕ) → has_id k found ≡ (ltb after k && (on_page k nv || on_page k sim))
    pub first : items ≡ take limit found
    pub more : has_more ≡ ltb limit (length found)
    pub ascends : Ascends found
    pub contents : AllOf (Stands nv sim) found

  -- Where the pages of two stores hold messages with descending ids, up to twenty pages of each, and no
  -- id is in both, an answer lists the first `limit` of all messages of the stores above the id, in
  -- ascending order of the ids and each with the contents that it has in its store, and says whether
  -- there are more.
  pub list_after-Lists :
      (after limit : ℕ) (nv sim items : List (ℕ × V)) (has_more : Bool)
      → Serves fetch 1 0 nv list_max_pages
      → Serves fetch 0 0 sim list_max_pages
      → Descends nv
      → Descends sim
      → ((k : ℕ) → on_page k sim ≡ true → on_page k nv ≡ false)
      → list_after_with fetch after limit ≡ ok (items, has_more)
      → Lists after limit nv sim items has_more
  unfolding list_after_with
  list_after-Lists after limit nv sim items has_more a b d e apart =
      by_nv (read_pages fetch after 1 list_max_pages 0 none [])
        (read_pages-Finds after 1 list_max_pages 0 none nv [] a d (λ k o. refl) tt)
        (read_pages-AllRead (Stands nv sim) fetch after 1 list_max_pages 0 none nv [] a
          (all_of (Stands nv sim) nv (λ i v x. inl x)) tt)
    where
      by_sim :
          (found : List (ℕ × V)) (res : Result ListError (List (ℕ × V)))
          → Finds after nv [] (ok found)
          → Finds after sim found res
          → AllRead (Stands nv sim) res
          → (res >>= λ all. listed limit all) ≡ ok (items, has_more)
          → Lists after limit nv sim items has_more
      by_sim found (err x) h g b q = ground arith
      by_sim found (ok all) h g b q = record {
        found = all;
        all = λ k. g.1 k ∙ ground (arith, h.1 k);
        first = ground arith;
        more = ground arith;
        ascends = g.0;
        contents = b;
      }

      by_nv :
          (res : Result ListError (List (ℕ × V)))
          → Finds after nv [] res
          → AllRead (Stands nv sim) res
          → (res >>= λ found.
              (read_pages fetch after 0 list_max_pages 0 none found >>= λ all. listed limit all))
            ≡ ok (items, has_more)
          → Lists after limit nv sim items has_more
      by_nv (err x) h c q = ground arith
      by_nv (ok found) h c q =
          by_sim found (read_pages fetch after 0 list_max_pages 0 none found) h
            (read_pages-Finds after 0 list_max_pages 0 none sim found b e
              (λ k o. ground (arith, h.1 k, apart k o)) h.0)
            (read_pages-AllRead (Stands nv sim) fetch after 0 list_max_pages 0 none sim found b
              (all_of (Stands nv sim) sim (λ i v x. inr x)) c)
            q
