-- ===== src/CellWindow/Ring.antt =====
-- The ring of samples: `push`, `lose`, `window` (rust/src/cell_window.rs).
use zte_u60_pro_mu5250_data.Common.{
  ℕ, ◌-◌, Bool, false, ◌||◌, Option, none, some, List, [], ◌∷◌, ◌++◌, ltb, leb, sub_u64,
  is_some_and, if◌then◌else◌,
}

abbrev pub span_ms : ℕ
span_ms = 30000

abbrev pub gap_ms : ℕ
gap_ms = 60000

pub record Sample : Type 0 where
  pub rx : ℕ
  pub tx : ℕ
  pub at_ms : ℕ

pub record CellWindow : Type 0 where
  pub tx_packets : ℕ
  pub rx_packets : ℕ
  pub over_ms : ℕ

abbrev pub Ring : Type 0
Ring = List Sample

-- `VecDeque::back`
abbrev pub back : Ring → Option Sample
back [] = none
back (s ∷ []) = some s
back (s ∷ t ∷ more) = back (t ∷ more)

-- The `while` loop of `push`.
unfoldable pub drop_old : ℕ → Ring → Ring
drop_old cut [] = []
drop_old cut (a ∷ []) = a ∷ []
drop_old cut (a ∷ b ∷ more) = if leb b.at_ms cut then drop_old cut (b ∷ more) else a ∷ b ∷ more

-- A counter or the clock went back.
unfoldable pub went_back : Sample → Sample → Bool
went_back s last = ltb s.rx last.rx || ltb s.tx last.tx || ltb s.at_ms last.at_ms

unfoldable pub push : Ring → Sample → Ring
push r s =
    let kept = if is_some_and (back r) (went_back s) then [] else r in
    drop_old (s.at_ms - span_ms) (kept ++ s ∷ [])

unfoldable pub lose : Ring → Ring
lose r = []

-- Two neighbours are further apart than the gap.
unfoldable pub has_gap : Ring → Bool
has_gap [] = false
has_gap (a ∷ []) = false
has_gap (a ∷ b ∷ more) = ltb gap_ms (sub_u64 b.at_ms a.at_ms) || has_gap (b ∷ more)

unfoldable pub ends_window : Ring → Sample → Sample → Option CellWindow
ends_window r first last =
    let span = sub_u64 last.at_ms first.at_ms in
    if ltb span span_ms
    then none
    else if has_gap r
    then none
    else some (record {
      tx_packets = sub_u64 last.tx first.tx;
      rx_packets = sub_u64 last.rx first.rx;
      over_ms = span;
    })

unfoldable pub window : Ring → Option CellWindow
unfolding ends_window
window [] = none
window (a ∷ more) = elim (back (a ∷ more)) [
  | none ↦ none
  | some last ↦ ends_window (a ∷ more) a last
]

-- `sample`: what one round of sampling does to the ring; `none` is a reading that failed.
unfoldable pub sample : Ring → ℕ → Option (ℕ × ℕ) → Ring
sample r now none = lose r
sample r now (some (rx, tx)) = push r (record { rx = rx; tx = tx; at_ms = now })
