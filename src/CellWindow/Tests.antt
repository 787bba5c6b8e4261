-- ===== src/CellWindow/Tests.antt =====
-- Rings of concrete samples, and the theorems at them.
use zte_u60_pro_mu5250_data.Common.{ℕ, Option, some, List, [], ◌∷◌, ◌≡◌, refl, arith}
use zte_u60_pro_mu5250_data.CellWindow.Ring.{
  Sample, CellWindow, Ring, drop_old, went_back, push, has_gap, window, sample,
}
use zte_u60_pro_mu5250_data.CellWindow.Window.{Says, window-Says, run}

abbrev at_time : ℕ → ℕ → Sample
at_time at tx = record { rx = 0; tx = tx; at_ms = at }

abbrev rounds : List (ℕ × Option (ℕ × ℕ))
rounds = (0, some (0, 0)) ∷ (5000, some (0, 5)) ∷ (25000, some (0, 25)) ∷ (30000, some (0, 30)) ∷ []

abbrev half_minute : Ring
half_minute = at_time 0 0 ∷ at_time 5000 5 ∷ at_time 25000 25 ∷ at_time 30000 30 ∷ []

abbrev thirty : CellWindow
thirty = record { tx_packets = 30; rx_packets = 0; over_ms = 30000 }

keeps_all : run [] rounds ≡ half_minute
unfolding run sample push drop_old went_back
keeps_all = refl

says_thirty : window half_minute ≡ some thirty
unfolding window has_gap
says_thirty = refl

window-Says_example : Says (at_time 0 0) (at_time 30000 30) half_minute thirty
unfolding window has_gap
window-Says_example =
    window-Says (at_time 0 0) (at_time 30000 30)
      (at_time 5000 5 ∷ at_time 25000 25 ∷ at_time 30000 30 ∷ []) thirty (omega arith) (omega arith)
      refl refl
