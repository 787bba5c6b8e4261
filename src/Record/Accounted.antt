-- ===== src/Record/Accounted.antt =====
-- No line of the journal is lost unseen, and skips in a row become one pair of lines
-- (rust/src/ops/record.rs).
use zte_u60_pro_mu5250_data.Common.{
  ℕ, ◌+◌, String, str_eq, Bool, true, false, Option, none, some, List, [], ◌∷◌, if◌then◌else◌, ◌≡◌,
  refl, arith,
}
use zte_u60_pro_mu5250_data.Record.Skips.{
  Key, start, stop, Msg, line, skip_line, dropped_line, owners, Journal, find_skip, remove_skip,
  send_or_count, report_dropped, emit_msg, end_skip, append, start_skip, skip, send_owners,
  make_room, Act, append_act, skip_act, owner_act, room_act, act, act_all,
}

-- How many lines an act makes: itself, and the end of the skips that it closes.
abbrev made_append : Option (String × ℕ) → ℕ
made_append none = 1
made_append (some r) = 2

abbrev made_skip : String → Option (String × ℕ) → ℕ
made_skip reason none = 1
made_skip reason (some (r, n)) = if str_eq r reason then 0 else 2

module _ {L : Type 0} where
  -- What a message accounts for: itself, or the lost ones that it reports.
  abbrev weight : Msg L → ℕ
  weight (dropped_line n) = n
  weight _ = 1

  abbrev pub total : List (Msg L) → ℕ
  total [] = 0
  total (m ∷ more) = weight m + total more

  -- What is accounted for: by what was sent, and by the count of what is lost and not yet reported.
  abbrev accounted : Journal L → ℕ
  accounted j = total j.sent + j.dropped

  send_counts :
      (j : Journal L) (m : Msg L) → weight m ≡ 1 → accounted (send_or_count j m) ≡ accounted j + 1
  unfolding send_or_count
  send_counts j m h = ground arith

  report_counts : (j : Journal L) → accounted (report_dropped j) ≡ accounted j
  unfolding report_dropped
  report_counts j = ground arith

  emit_counts :
      (j : Journal L) (m : Msg L) → weight m ≡ 1 → accounted (emit_msg j m) ≡ accounted j + 1
  unfolding emit_msg
  emit_counts j m h = omega (arith, send_counts (report_dropped j) m h, report_counts j)

  end_counts :
      (j : Journal L) (k : Key) (r : String × ℕ) → accounted (end_skip j k r) ≡ accounted j + 1
  unfolding end_skip
  end_counts j k (reason, n) =
      emit_counts (record j { skips = remove_skip j.skips k }) (skip_line k reason stop n) refl

  start_counts :
      (j : Journal L) (k : Key) (reason : String)
      → accounted (start_skip j k reason) ≡ accounted j + 1
  unfolding start_skip
  start_counts j k reason =
      emit_counts (record j { skips = (k, reason, 1) ∷ j.skips }) (skip_line k reason start 1) refl

  abbrev made : Journal L → Act L → ℕ
  made j (append_act none l) = 1
  made j (append_act (some k) l) = made_append (find_skip j.skips k)
  made j (skip_act k reason) = made_skip reason (find_skip j.skips k)
  made j owner_act = 1
  made j (room_act n) = 0

  append_counts :
      (j : Journal L) (k : Key) (l : L)
      → accounted (append j (some k) l) ≡ accounted j + made_append (find_skip j.skips k)
  unfolding append
  append_counts j k l = by_skip (find_skip j.skips k)
    where
      by_skip :
          (o : Option (String × ℕ))
          → accounted (elim o as (λ x. Journal L) [
            | none ↦ emit_msg j (line l)
            | some r ↦ emit_msg (end_skip j k r) (line l)
          ])
            ≡ accounted j + made_append o
      by_skip none = emit_counts j (line l) refl
      by_skip (some r) = omega (arith, emit_counts (end_skip j k r) (line l) refl, end_counts j k r)

  skip_counts :
      (j : Journal L) (k : Key) (reason : String)
      → accounted (skip j k reason) ≡ accounted j + made_skip reason (find_skip j.skips k)
  unfolding skip
  skip_counts j k reason = by_skip (find_skip j.skips k)
    where
      by_reason :
          (r : String) (n : ℕ) (b : Bool)
          → accounted (
              if b
              then record j { skips = (k, r, n + 1) ∷ remove_skip j.skips k }
              else start_skip (end_skip j k (r, n)) k reason)
            ≡ accounted j + (if b then 0 else 2)
      by_reason r n true = omega arith
      by_reason r n false =
          omega (arith, start_counts (end_skip j k (r, n)) k reason, end_counts j k (r, n))

      by_skip :
          (o : Option (String × ℕ))
          → accounted (elim o as (λ x. Journal L) [
            | none ↦ start_skip j k reason
            | some (r, n) ↦
                if str_eq r reason
                then record j { skips = (k, r, n + 1) ∷ remove_skip j.skips k }
                else start_skip (end_skip j k (r, n)) k reason
          ])
            ≡ accounted j + made_skip reason o
      by_skip none = start_counts j k reason
      by_skip (some (r, n)) = by_reason r n (str_eq r reason)

  act_counts : (j : Journal L) (a : Act L) → accounted (act j a) ≡ accounted j + made j a
  unfolding act append send_owners make_room
  act_counts j (append_act none l) = emit_counts j (line l) refl
  act_counts j (append_act (some k) l) = append_counts j k l
  act_counts j (skip_act k reason) = skip_counts j k reason
  act_counts j owner_act = send_counts j owners refl
  act_counts j (room_act n) = omega arith

  abbrev pub made_all : Journal L → List (Act L) → ℕ
  made_all j [] = 0
  made_all j (a ∷ more) = made j a + made_all (act j a) more

  -- Whatever is recorded in whatever order, and however slow the writer is, every line that was made is
  -- in the channel, or in the count of a `dropped` line in it, or still counted to be reported.
  pub act_all-accounted :
      (j : Journal L) (acts : List (Act L))
      → total (act_all j acts).sent + (act_all j acts).dropped
        ≡ total j.sent + j.dropped + made_all j acts
  unfolding act_all
  act_all-accounted j [] = omega arith
  act_all-accounted j (a ∷ more) = omega (arith, act_all-accounted (act j a) more, act_counts j a)
