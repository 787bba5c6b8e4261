-- ===== src/Record/Merging.antt =====
-- Skips of one source, one item and one reason in a row become a first and a last line
-- (rust/src/ops/record.rs).
use zte_u60_pro_mu5250_data.Common.{
  ℕ, zero, suc, ◌+◌, ◌-◌, ◌≤◌, String, str_eq_refl, true, none, some, List, [], ◌∷◌, ◌≡◌, refl,
  arith, inl, inr, Bool-cases, ap, ◌∙◌,
}
use zte_u60_pro_mu5250_data.Record.Skips.{
  Key, start, stop, Msg, line, skip_line, Journal, same_key, find_skip, remove_skip, try_send,
  send_or_count, report_dropped, emit_msg, end_skip, append, start_skip, skip,
}

remove_none :
    (skips : List (Key × String × ℕ)) (k : Key)
    → find_skip skips k ≡ none
    → remove_skip skips k ≡ skips
unfolding find_skip remove_skip
remove_none [] k h = refl
remove_none ((j, r, n) ∷ more) k h = elim (Bool-cases (same_key j k)) [
  | inl e ↦ ground arith
  | inr e ↦ ground (arith, remove_none more k)
]

same_key_refl : (k : Key) → same_key k k ≡ true
unfolding same_key
same_key_refl (s, i) = rw (str_eq_refl s, str_eq_refl i)

find_self :
    (k : Key) (reason : String) (n : ℕ) (rest : List (Key × String × ℕ))
    → find_skip ((k, reason, n) ∷ rest) k ≡ some (reason, n)
unfolding find_skip
find_self k reason n rest = rw (same_key_refl k) refl

remove_self :
    (k : Key) (reason : String) (n : ℕ) (rest : List (Key × String × ℕ))
    → find_skip rest k ≡ none
    → remove_skip ((k, reason, n) ∷ rest) k ≡ rest
unfolding remove_skip
remove_self k reason n rest h = rw (same_key_refl k) (remove_none rest k h)

module _ {L : Type 0} where
  pub repeat_skip : ℕ → Journal L → Key → String → Journal L
  repeat_skip zero j k reason = j
  repeat_skip (suc n) j k reason = skip (repeat_skip n j k reason) k reason

  -- The journal while `n` skips of the key are counted, with the start line sent.
  abbrev pub counting : ℕ → Journal L → Key → String → Journal L
  counting n j k reason = record j {
    skips = (k, reason, n) ∷ j.skips;
    room = j.room - 1;
    sent = skip_line k reason start 1 ∷ j.sent;
  }

  -- A line goes out if nothing was lost before and the channel has room.
  emit_room :
      (j : Journal L) (m : Msg L)
      → j.dropped ≡ 0
      → 1 ≤ j.room
      → emit_msg j m ≡ record j { room = j.room - 1; sent = m ∷ j.sent }
  unfolding emit_msg send_or_count report_dropped try_send
  emit_room j m d r = ground arith

  first_skip :
      (j : Journal L) (k : Key) (reason : String)
      → find_skip j.skips k ≡ none
      → j.dropped ≡ 0
      → 1 ≤ j.room
      → skip j k reason ≡ counting 1 j k reason
  unfolding skip start_skip emit_msg send_or_count report_dropped try_send
  first_skip j k reason h d r = rw (h, skip) (ground arith)

  next_skip :
      (n : ℕ) (j : Journal L) (k : Key) (reason : String)
      → find_skip j.skips k ≡ none
      → skip (counting n j k reason) k reason ≡ counting (n + 1) j k reason
  unfolding skip
  next_skip n j k reason h =
      rw (find_self k reason n j.skips, skip)
        (rw (str_eq_refl reason) (rw (remove_self k reason n j.skips h) refl))

  skipped_so_far :
      (n : ℕ) (j : Journal L) (k : Key) (reason : String)
      → find_skip j.skips k ≡ none
      → j.dropped ≡ 0
      → 1 ≤ j.room
      → repeat_skip (suc n) j k reason ≡ counting (n + 1) j k reason
  unfolding repeat_skip
  skipped_so_far zero j k reason h d r = first_skip j k reason h d r
  skipped_so_far (suc n) j k reason h d r =
      ap (λ x. skip x k reason) (skipped_so_far n j k reason h d r)
      ∙ next_skip (n + 1) j k reason h
      ∙ ap (λ x. counting x j k reason) (omega arith)

  ended :
      (n : ℕ) (j : Journal L) (k : Key) (reason : String) (l : L)
      → find_skip j.skips k ≡ none
      → j.dropped ≡ 0
      → 3 ≤ j.room
      → let j' = append (counting n j k reason) (some k) l in
        (j'.sent ≡ line l ∷ skip_line k reason stop n ∷ skip_line k reason start 1 ∷ j.sent)
        × (j'.skips ≡ j.skips)
        × (j'.dropped ≡ 0)
  unfolding append end_skip
  ended n j k reason l h d r =
      let closed = record j { room = j.room - 1; sent = skip_line k reason start 1 ∷ j.sent } in
      let ended = record closed {
        room = closed.room - 1;
        sent = skip_line k reason stop n ∷ closed.sent;
      } in
      rw (find_self k reason n j.skips, append)
        (rw (remove_self k reason n j.skips h) (
          rw (emit_room closed (skip_line k reason stop n) d (omega arith))
            (rw (emit_room ended (line l) d (omega arith)) (refl, refl, d))))

  -- However many skips of one key and reason come in a row, they and the line after them leave three
  -- lines: the start, the end with their number, and that line; if the channel has room, none is lost
  -- before and no skip of the key was under way.
  pub skips_merge :
      (n : ℕ) (j : Journal L) (k : Key) (reason : String) (l : L)
      → find_skip j.skips k ≡ none
      → j.dropped ≡ 0
      → 3 ≤ j.room
      → let j' = append (repeat_skip (suc n) j k reason) (some k) l in
        (j'.sent ≡ line l ∷ skip_line k reason stop (n + 1) ∷ skip_line k reason start 1 ∷ j.sent)
        × (j'.skips ≡ j.skips)
        × (j'.dropped ≡ 0)
  skips_merge n j k reason l h d r =
      rw (skipped_so_far n j k reason h d (omega arith)) (ended (n + 1) j k reason l h d r)
