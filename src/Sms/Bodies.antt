-- ===== src/Sms/Bodies.antt =====
-- What `list_after_with` finds is messages of the stores, with their contents (rust/src/sms.rs).
use zte_u60_pro_mu5250_data.Common.{
  ℕ, zero, suc, ◌+◌, String, false, Option, some, List, [], ◌∷◌, ltb, leb, take, drop, Result, ok,
  err, ◌≡◌, refl, ◌⊎◌, Bool-cases, inl, inr,
}
use zte_u60_pro_mu5250_data.Sms.Listing.{
  list_page, Message, ListError, Seen, has_id, put_new, see_message, see_page, is_repeat, page_ends,
  ids_of, read_pages,
}
use zte_u60_pro_mu5250_data.Sms.Found.{messages, Serves}

module _ {V : Type 0} (P : ℕ → V → Type 0) where
  -- Every entry is as `P` says.
  abbrev pub AllOf : List (ℕ × V) → Type 0
  AllOf [] = Unit {0}
  AllOf ((i, v) ∷ more) = P i v × AllOf more

  put_new-AllOf :
      (i : ℕ) (v : V) (found : List (ℕ × V)) → P i v → AllOf found → AllOf (put_new i v found)
  unfolding put_new
  put_new-AllOf i v [] p h = (p, tt)
  put_new-AllOf i v ((k, w) ∷ more) p h = elim (Bool-cases (ltb i k)) [
    | inl e ↦ rw e (p, h)
    | inr e ↦ rw e (h.0, put_new-AllOf i v more p h.1)
  ]

  see_message-AllOf :
      (after i : ℕ) (v : V) (s : Seen V)
      → P i v
      → AllOf s.found
      → AllOf (see_message after (record { id = some i; body = v }) s).found
  unfolding see_message
  see_message-AllOf after i v s p h = elim (Bool-cases (leb i after)) [
    | inl e ↦ rw e h
    | inr e ↦ rw e (elim (Bool-cases (has_id i s.found)) [
      | inl f ↦ rw f h
      | inr f ↦ rw f (put_new-AllOf i v s.found p h)
    ])
  ]

  see_page-AllOf :
      (after : ℕ) (page : List (ℕ × V)) (s : Seen V)
      → AllOf page
      → AllOf s.found
      → AllOf (see_page after (messages page) s).found
  unfolding see_page
  see_page-AllOf after [] s p h = h
  see_page-AllOf after ((i, v) ∷ more) s p h =
      see_page-AllOf after more (see_message after (record { id = some i; body = v }) s) p.1
        (see_message-AllOf after i v s p.0 h)

  AllOf-take : (n : ℕ) (xs : List (ℕ × V)) → AllOf xs → AllOf (take n xs)
  AllOf-take zero xs h = tt
  AllOf-take (suc n) [] h = tt
  AllOf-take (suc n) ((i, v) ∷ more) h = (h.0, AllOf-take n more h.1)

  AllOf-drop : (n : ℕ) (xs : List (ℕ × V)) → AllOf xs → AllOf (drop n xs)
  AllOf-drop zero xs h = h
  AllOf-drop (suc n) [] h = tt
  AllOf-drop (suc n) ((i, v) ∷ more) h = AllOf-drop n more h.1

  abbrev pub AllRead : Result ListError (List (ℕ × V)) → Type 0
  AllRead (err e) = Unit {0}
  AllRead (ok found) = AllOf found

  pub read_pages-AllRead :
      (fetch : ℕ → ℕ → Result String (List (Message V))) (after store left page : ℕ)
      (prev : Option (List ℕ)) (rest found : List (ℕ × V))
      → Serves fetch store page rest left
      → AllOf rest
      → AllOf found
      → AllRead (read_pages fetch after store left page prev found)
  unfolding read_pages
  read_pages-AllRead fetch after store zero page prev rest found v r h = tt
  read_pages-AllRead fetch after store (suc left) page prev rest found v r h =
      let items = messages (take list_page rest) in
      let s = see_page after items (record { found = found; reached = false; fresh = false }) in
      let seen =
        see_page-AllOf after (take list_page rest)
          (record { found = found; reached = false; fresh = false }) (AllOf-take list_page rest r)
          h in
      rw (read_pages, v.0)
        (elim (Bool-cases (is_repeat prev items)) [
          | inl e ↦ rw e tt
          | inr e ↦ rw e (elim (Bool-cases (page_ends items s)) [
            | inl x ↦ rw x seen
            | inr x ↦ rw x (
                read_pages-AllRead fetch after store left (page + 1) (some (ids_of items))
                  (drop list_page rest) s.found v.1 (AllOf-drop list_page rest r) seen)
          ])
        ])

-- The message is in the store, with these contents.
abbrev pub In : {V : Type 0} → ℕ → V → List (ℕ × V) → Type 0
In i v [] = ⊥
In i v ((k, w) ∷ more) = ((k ≡ i) × (w ≡ v)) ⊎ In i v more

module _ {V : Type 0} (Q : ℕ → V → Type 0) where
  -- A store has all that is in it.
  pub all_of : (xs : List (ℕ × V)) → ((i : ℕ) (v : V) → In i v xs → Q i v) → AllOf Q xs
  all_of [] h = tt
  all_of ((i, v) ∷ more) h = (h i v (inl (refl, refl)), all_of more (λ k w x. h k w (inr x)))
