-- ===== src/Sms/Found.antt =====
-- What has been found so far, in ascending order of its ids (rust/src/sms.rs).
use zte_u60_pro_mu5250_data.Common.{
  ℕ, zero, suc, ◌+◌, String, take, drop, Result, ok, ◌<◌, Bool, true, false, ◌||◌, some, List, [],
  ◌∷◌, ◌==◌, ltb, ◌≡◌, refl, arith, inl, inr, Bool-cases,
}
use zte_u60_pro_mu5250_data.Sms.Listing.{list_page, Message, has_id, put_new}

module _ {V : Type 0} where
  -- The messages of a store, as the pages hold them.
  abbrev pub messages : List (ℕ × V) → List (Message V)
  messages [] = []
  messages ((i, v) ∷ more) = record { id = some i; body = v } ∷ messages more

  abbrev pub AllBelow : ℕ → List (ℕ × V) → Type 0
  AllBelow i [] = Unit {0}
  AllBelow i ((k, v) ∷ more) = (k < i) × AllBelow i more

  -- The ids go down.
  abbrev pub Descends : List (ℕ × V) → Type 0
  Descends [] = Unit {0}
  Descends ((i, v) ∷ more) = AllBelow i more × Descends more

  -- Whether an id is among the messages.
  abbrev pub on_page : ℕ → List (ℕ × V) → Bool
  on_page k [] = false
  on_page k ((i, v) ∷ more) = k == i || on_page k more

  -- No message of the store has been found yet.
  abbrev pub NoneFound : List (ℕ × V) → List (ℕ × V) → Type 0
  NoneFound rest found = (k : ℕ) → on_page k rest ≡ true → has_id k found ≡ false

  abbrev pub AllAbove : ℕ → List (ℕ × V) → Type 0
  AllAbove i [] = Unit {0}
  AllAbove i ((k, v) ∷ more) = (i < k) × AllAbove i more

  -- The ids go up.
  abbrev pub Ascends : List (ℕ × V) → Type 0
  Ascends [] = Unit {0}
  Ascends ((i, v) ∷ more) = AllAbove i more × Ascends more

  above_all : (i k : ℕ) (found : List (ℕ × V)) → i < k → AllAbove k found → AllAbove i found
  above_all i k [] l h = tt
  above_all i k ((j, v) ∷ more) l h = (omega (arith, l, h.0), above_all i k more l h.1)

  put_new-AllAbove :
      (j i : ℕ) (v : V) (found : List (ℕ × V))
      → j < i
      → AllAbove j found
      → AllAbove j (put_new i v found)
  unfolding put_new
  put_new-AllAbove j i v [] l h = (l, tt)
  put_new-AllAbove j i v ((k, w) ∷ more) l h = elim (Bool-cases (ltb i k)) [
    | inl e ↦ rw e (l, h)
    | inr e ↦ rw e (h.0, put_new-AllAbove j i v more l h.1)
  ]

  pub put_new-Ascends :
      (i : ℕ) (v : V) (found : List (ℕ × V))
      → has_id i found ≡ false
      → Ascends found
      → Ascends (put_new i v found)
  unfolding put_new has_id
  put_new-Ascends i v [] n h = (tt, tt)
  put_new-Ascends i v ((k, w) ∷ more) n h = elim (Bool-cases (ltb i k)) [
    | inl e ↦ rw e ((ground arith, above_all i k more (ground arith) h.0), h)
    | inr e ↦ rw e (
      put_new-AllAbove k i v more (ground arith) h.0,
      put_new-Ascends i v more (ground arith) h.1,
    )
  ]

  pub has_id-put_new :
      (k i : ℕ) (v : V) (found : List (ℕ × V))
      → has_id k (put_new i v found) ≡ (k == i || has_id k found)
  unfolding has_id put_new
  has_id-put_new k i v [] = refl
  has_id-put_new k i v ((j, w) ∷ more) = ground (arith, has_id-put_new k i v more)

module _ {V : Type 0} (fetch : ℕ → ℕ → Result String (List (Message V))) where
  -- The pages of a store, from `page` on, hold `rest`, as far as `left` pages go.
  abbrev pub Serves : ℕ → ℕ → List (ℕ × V) → ℕ → Type 0
  Serves store page rest zero = Unit {0}
  Serves store page rest (suc left) =
      (fetch store page ≡ ok (messages (take list_page rest)))
      × Serves store (page + 1) (drop list_page rest) left
