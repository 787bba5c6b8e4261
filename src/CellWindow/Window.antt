-- ===== src/CellWindow/Window.antt =====
-- What the ring keeps and what a window says (rust/src/cell_window.rs).
use zte_u60_pro_mu5250_data.Common.{
  ℕ, ◌+◌, ◌-◌, ◌≤◌, ◌<◌, false, Option, none, some, List, [], ◌∷◌, ◌++◌, ltb, leb, sub_u64, u64_mod,
  is_some_and, ◌≡◌, refl, sym, ◌∙◌, arith, Bool-cases, inl, inr,
}
use zte_u60_pro_mu5250_data.CellWindow.Ring.{
  span_ms, gap_ms, Sample, CellWindow, Ring, back, drop_old, went_back, push, lose, has_gap,
  ends_window, window, sample,
}

-- The counters and the clock of `b` are not behind those of `a`.
abbrev pub Follows : Sample → Sample → Type 0
Follows a b = (a.rx ≤ b.rx) × (a.tx ≤ b.tx) × (a.at_ms ≤ b.at_ms)

-- From the oldest to the newest nothing goes back.
abbrev pub Rising : Ring → Type 0
Rising [] = Unit {0}
Rising (a ∷ []) = Unit {0}
Rising (a ∷ b ∷ more) = Follows a b × Rising (b ∷ more)

-- Every sample but the oldest is younger than the cut.
abbrev pub Younger : ℕ → Ring → Type 0
Younger cut [] = Unit {0}
Younger cut (a ∷ more) = (cut < a.at_ms) × Younger cut more

abbrev pub OneBaseline : ℕ → Ring → Type 0
OneBaseline cut [] = Unit {0}
OneBaseline cut (a ∷ more) = Younger cut more

drop_old-Rising : (cut : ℕ) (r : Ring) → Rising r → Rising (drop_old cut r)
unfolding drop_old
drop_old-Rising cut [] h = tt
drop_old-Rising cut (a ∷ []) h = tt
drop_old-Rising cut (a ∷ b ∷ more) h = ground (arith, drop_old-Rising cut (b ∷ more) h.1)

-- Later samples are not older, so one that is young enough makes the rest so.
Younger-rest :
    (cut : ℕ) (a : Sample) (more : Ring) → cut < a.at_ms → Rising (a ∷ more) → Younger cut more
Younger-rest cut a [] h r = tt
Younger-rest cut a (b ∷ more) h r = (omega arith, Younger-rest cut b more (omega arith) r.1)

drop_old-OneBaseline : (cut : ℕ) (r : Ring) → Rising r → OneBaseline cut (drop_old cut r)
unfolding drop_old
drop_old-OneBaseline cut [] h = tt
drop_old-OneBaseline cut (a ∷ []) h = tt
drop_old-OneBaseline cut (a ∷ b ∷ more) h = elim (Bool-cases (leb b.at_ms cut)) [
  | inl old ↦ rw old (drop_old-OneBaseline cut (b ∷ more) h.1)
  | inr young ↦
      let late : cut < b.at_ms = ground arith in rw young (late, Younger-rest cut b more late h.1)
]

append-Rising :
    (r : Ring) (s : Sample)
    → Rising r
    → is_some_and (back r) (went_back s) ≡ false
    → Rising (r ++ s ∷ [])
unfolding went_back
append-Rising [] s h k = tt
append-Rising (a ∷ []) s h k = ground arith
append-Rising (a ∷ b ∷ more) s h k = (h.0, append-Rising (b ∷ more) s h.1 k)

-- Whatever the rising ring held, `push` leaves it rising and with one sample at most that is half a
-- minute older than the new one or more.
pub push-Rising :
    (r : Ring) (s : Sample)
    → Rising r
    → Rising (push r s) × OneBaseline (s.at_ms - span_ms) (push r s)
unfolding push drop_old
push-Rising r s h = elim (Bool-cases (is_some_and (back r) (went_back s))) [
  | inl b ↦ rw b (tt, tt)
  | inr f ↦
      let joined = append-Rising r s h f in
      rw f (
        drop_old-Rising (s.at_ms - span_ms) (r ++ s ∷ []) joined,
        drop_old-OneBaseline (s.at_ms - span_ms) (r ++ s ∷ []) joined,
      )
]

-- The fields are `u64`.
abbrev pub InRange : Sample → Type 0
InRange s = (s.rx < u64_mod) × (s.tx < u64_mod) × (s.at_ms < u64_mod)

abbrev pub AllInRange : Ring → Type 0
AllInRange [] = Unit {0}
AllInRange (a ∷ more) = InRange a × AllInRange more

-- No two neighbours are further apart than the gap.
abbrev pub Close : Ring → Type 0
Close [] = Unit {0}
Close (a ∷ []) = Unit {0}
Close (a ∷ b ∷ more) = (b.at_ms ≤ a.at_ms + gap_ms) × Close (b ∷ more)

back-Follows :
    (a last : Sample) (more : Ring)
    → Rising (a ∷ more)
    → AllInRange (a ∷ more)
    → back (a ∷ more) ≡ some last
    → Follows a last × InRange last
back-Follows a last [] h k e = ground arith
back-Follows a last (b ∷ more) h k e = ground (arith, back-Follows b last more h.1 k.1 e)

has_gap-Close :
    (r : Ring)
    → Rising r
    → AllInRange r
    → (has_gap r ≡ false → Close r) × (Close r → has_gap r ≡ false)
unfolding has_gap
has_gap-Close [] h k = (λ _. tt, λ _. refl)
has_gap-Close (a ∷ []) h k = (λ _. tt, λ _. refl)
has_gap-Close (a ∷ b ∷ more) h k =
    let (from, to) = has_gap-Close (b ∷ more) h.1 k.1 in
    (λ g. (ground arith, from (ground arith)), λ c. ground (arith, to c.1))

-- What a window says: the packets and the time from the oldest sample to the newest one, over half a
-- minute or more of readings without a gap.
pub record Says (a last : Sample) (r : Ring) (w : CellWindow) : Type 0 where
  pub sent : w.tx_packets + a.tx ≡ last.tx
  pub received : w.rx_packets + a.rx ≡ last.rx
  pub over : w.over_ms + a.at_ms ≡ last.at_ms
  pub long : span_ms ≤ w.over_ms
  pub whole : Close r

window-ends :
    (a last : Sample) (more : Ring)
    → back (a ∷ more) ≡ some last
    → window (a ∷ more) ≡ ends_window (a ∷ more) a last
unfolding window
window-ends a last more e = rw (e, window) refl

ends_window-Says :
    (a last : Sample) (r : Ring) (w : CellWindow)
    → Follows a last
    → InRange last
    → (has_gap r ≡ false → Close r)
    → ends_window r a last ≡ some w
    → Says a last r w
unfolding ends_window
ends_window-Says a last r w f i from v = record {
  sent = ground arith;
  received = ground arith;
  over = ground arith;
  long = ground arith;
  whole = from (ground arith);
}

ends_window_answers :
    (a last : Sample) (r : Ring)
    → Follows a last
    → InRange last
    → a.at_ms + span_ms ≤ last.at_ms
    → has_gap r ≡ false
    → (w : CellWindow) × (ends_window r a last ≡ some w)
unfolding ends_window
ends_window_answers a last r f i long whole =
    let far : ltb (sub_u64 last.at_ms a.at_ms) span_ms ≡ false = ground arith in
    (
      record {
        tx_packets = sub_u64 last.tx a.tx;
        rx_packets = sub_u64 last.rx a.rx;
        over_ms = sub_u64 last.at_ms a.at_ms;
      },
      rw (far, whole) refl,
    )

-- On a rising ring of `u64` readings no subtraction of `window` wraps: where it answers, the counts
-- and the time are those from the oldest sample to the newest, over at least half a minute in which
-- no two neighbours are more than a minute apart.
pub window-Says :
    (a last : Sample) (more : Ring) (w : CellWindow)
    → Rising (a ∷ more)
    → AllInRange (a ∷ more)
    → back (a ∷ more) ≡ some last
    → window (a ∷ more) ≡ some w
    → Says a last (a ∷ more) w
window-Says a last more w h k e v =
    let (f, i) = back-Follows a last more h k e in
    let from = (has_gap-Close (a ∷ more) h k).0 in
    ends_window-Says a last (a ∷ more) w f i from (sym (window-ends a last more e) ∙ v)

-- On a rising ring of `u64` readings, `window` answers where they go back far enough and have no gap.
pub window_answers :
    (a last : Sample) (more : Ring)
    → Rising (a ∷ more)
    → AllInRange (a ∷ more)
    → back (a ∷ more) ≡ some last
    → a.at_ms + span_ms ≤ last.at_ms
    → Close (a ∷ more)
    → (w : CellWindow) × (window (a ∷ more) ≡ some w)
window_answers a last more h k e long c =
    let (f, i) = back-Follows a last more h k e in
    let whole = (has_gap-Close (a ∷ more) h k).1 c in
    let (w, v) = ends_window_answers a last (a ∷ more) f i long whole in
    (w, window-ends a last more e ∙ v)

-- The ring after a history of sampling rounds.
unfoldable pub run : Ring → List (ℕ × Option (ℕ × ℕ)) → Ring
run r [] = r
run r ((now, counts) ∷ rounds) = run (sample r now counts) rounds

sample-Rising :
    (r : Ring) (now : ℕ) (counts : Option (ℕ × ℕ)) → Rising r → Rising (sample r now counts)
unfolding sample lose
sample-Rising r now none h = tt
sample-Rising r now (some (rx, tx)) h = (push-Rising r _ h).0

-- From a rising ring, after any history of rounds, failed ones included, nothing in the ring goes
-- back.
pub run-Rising : (r : Ring) (rounds : List (ℕ × Option (ℕ × ℕ))) → Rising r → Rising (run r rounds)
unfolding run
run-Rising r [] h = h
run-Rising r ((now, counts) ∷ rounds) h =
    run-Rising (sample r now counts) rounds (sample-Rising r now counts h)
