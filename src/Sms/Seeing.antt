-- ===== src/Sms/Seeing.antt =====
-- What seeing a page does to what has been found (rust/src/sms.rs).
use zte_u60_pro_mu5250_data.Common.{
  ℕ, ◌≤◌, ◌<◌, true, false, ◌&&◌, ◌||◌, some, List, [], ◌∷◌, ◌==◌, ltb, leb, ◌≡◌, refl, sym, ap,
  ◌∙◌, arith, ◌⊎◌, inl, inr, Bool-cases,
}
use zte_u60_pro_mu5250_data.Sms.Listing.{Seen, has_id, put_new, see_message, see_page}
use zte_u60_pro_mu5250_data.Sms.Found.{messages, on_page, Ascends, put_new-Ascends, has_id-put_new}

module _ {V : Type 0} where
  -- The three cases of a message.
  abbrev pub Step : ℕ → ℕ → V → Seen V → Seen V → Type 0
  Step after i v s s' =
      ((i ≤ after) × (s' ≡ record s { reached = true }))
      ⊎ ((after < i) × (has_id i s.found ≡ true) × (s' ≡ s))
      ⊎ ((after < i)
          × (has_id i s.found ≡ false)
          × (s' ≡ record s { found = put_new i v s.found; fresh = true }))

  see_message-Step :
      (after i : ℕ) (v : V) (s : Seen V)
      → Step after i v s (see_message after (record { id = some i; body = v }) s)
  unfolding see_message
  see_message-Step after i v s = elim (Bool-cases (leb i after)) [
    | inl e ↦ inl (ground arith, rw (see_message, e) refl)
    | inr e ↦ elim (Bool-cases (has_id i s.found)) [
      | inl h ↦ inr (inl (ground arith, h, rw (see_message, e, h) refl))
      | inr h ↦ inr (inr (ground arith, h, rw (see_message, e, h) refl))
    ]
  ]

  same_id : (k i : ℕ) (found : List (ℕ × V)) → (k == i) ≡ true → has_id k found ≡ has_id i found
  same_id k i found h = let e : k ≡ i = ground arith in rw e refl

  step_found :
      (after i k : ℕ) (v : V) (s s' : Seen V)
      → Step after i v s s'
      → has_id k s'.found ≡ (has_id k s.found || ltb after k && k == i)
  step_found after i k v s s' (inl (l, e)) = rw e (ground arith)
  step_found after i k v s s' (inr (inl (l, h, e))) = rw e (ground (arith, same_id k i s.found))
  step_found after i k v s s' (inr (inr (l, h, e))) =
      rw e (has_id-put_new k i v s.found ∙ ground arith)

  pub see_page_found :
      (after k : ℕ) (items : List (ℕ × V)) (s : Seen V)
      → has_id k (see_page after (messages items) s).found
        ≡ (has_id k s.found || ltb after k && on_page k items)
  unfolding see_page
  see_page_found after k [] s = ground arith
  see_page_found after k ((i, v) ∷ more) s =
      let s' = see_message after (record { id = some i; body = v }) s in
      see_page_found after k more s'
      ∙ ground (arith, step_found after i k v s s' (see_message-Step after i v s))

  pub see_page-Ascends :
      (after : ℕ) (items : List (ℕ × V)) (s : Seen V)
      → Ascends s.found
      → Ascends (see_page after (messages items) s).found
  unfolding see_page
  see_page-Ascends after [] s h = h
  see_page-Ascends after ((i, v) ∷ more) s h =
      let s' = see_message after (record { id = some i; body = v }) s in
      see_page-Ascends after more s' (by_step s' (see_message-Step after i v s))
    where
      by_step : (s' : Seen V) → Step after i v s s' → Ascends s'.found
      by_step s' (inl (l, e)) = rw e h
      by_step s' (inr (inl (l, x, e))) = rw e h
      by_step s' (inr (inr (l, x, e))) = rw e (put_new-Ascends i v s.found x h)

  step_reached :
      (after i : ℕ) (v : V) (s s' : Seen V)
      → Step after i v s s'
      → s'.reached ≡ true
      → (s.reached ≡ true) ⊎ (i ≤ after)
  step_reached after i v s s' (inl (l, e)) h = inr l
  step_reached after i v s s' (inr (inl (l, x, e))) h =
      inl (ap (λ (u : Seen V). u.reached) (sym e) ∙ h)
  step_reached after i v s s' (inr (inr (l, x, e))) h =
      inl (ap (λ (u : Seen V). u.reached) (sym e) ∙ h)

  pub see_page_reached :
      (after : ℕ) (items : List (ℕ × V)) (s : Seen V)
      → (see_page after (messages items) s).reached ≡ true
      → (s.reached ≡ true) ⊎ ((i : ℕ) × (on_page i items ≡ true) × (i ≤ after))
  unfolding see_page
  see_page_reached after [] s h = inl h
  see_page_reached after ((i, v) ∷ more) s h =
      let s' = see_message after (record { id = some i; body = v }) s in
      by_more (see_page_reached after more s' h)
    where
      by_more :
          ((see_message after (record { id = some i; body = v }) s).reached ≡ true)
            ⊎ ((k : ℕ) × (on_page k more ≡ true) × (k ≤ after))
          → (s.reached ≡ true) ⊎ ((k : ℕ) × (on_page k ((i, v) ∷ more) ≡ true) × (k ≤ after))
      by_more (inr (k, o, l)) = inr (k, ground arith, l)
      by_more (inl r) = by_first (
          step_reached after i v s (see_message after (record { id = some i; body = v }) s)
            (see_message-Step after i v s) r)
        where
          by_first :
              (s.reached ≡ true) ⊎ (i ≤ after)
              → (s.reached ≡ true) ⊎ ((k : ℕ) × (on_page k ((i, v) ∷ more) ≡ true) × (k ≤ after))
          by_first (inl e) = inl e
          by_first (inr l) = inr (i, ground arith, l)

  -- A page that adds nothing has nothing new above the id.
  step_stale :
      (after i : ℕ) (v : V) (s s' : Seen V)
      → Step after i v s s'
      → s'.fresh ≡ false
      → (s.fresh ≡ false) × (s'.found ≡ s.found) × ((leb i after || has_id i s.found) ≡ true)
  step_stale after i v s s' (inl (l, e)) h =
      (ap (λ (u : Seen V). u.fresh) (sym e) ∙ h, ap (λ (u : Seen V). u.found) e, ground arith)
  step_stale after i v s s' (inr (inl (l, x, e))) h =
      (ap (λ (u : Seen V). u.fresh) (sym e) ∙ h, ap (λ (u : Seen V). u.found) e, ground arith)
  step_stale after i v s s' (inr (inr (l, x, e))) h = ground arith

  fresh_stays :
      (after : ℕ) (items : List (ℕ × V)) (s : Seen V)
      → (see_page after (messages items) s).fresh ≡ false
      → s.fresh ≡ false
  unfolding see_page
  fresh_stays after [] s h = h
  fresh_stays after ((i, v) ∷ more) s h =
      let s' = see_message after (record { id = some i; body = v }) s in
      (step_stale after i v s s' (see_message-Step after i v s) (fresh_stays after more s' h)).0

  -- So the first message of a page that adds nothing is not new.
  pub first_stale :
      (after i : ℕ) (v : V) (more : List (ℕ × V)) (s : Seen V)
      → (see_page after (messages ((i, v) ∷ more)) s).fresh ≡ false
      → (leb i after || has_id i s.found) ≡ true
  unfolding see_page
  first_stale after i v more s h =
      let s' = see_message after (record { id = some i; body = v }) s in
      (step_stale after i v s s' (see_message-Step after i v s) (fresh_stays after more s' h)).2
