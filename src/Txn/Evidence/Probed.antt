-- ===== src/Txn/Evidence/Probed.antt =====
-- A probe is asked for exactly where its answer decides (D25 in rust/src/ops/txn.rs).
use zte_u60_pro_mu5250_data.Common.{
  ℕ, String, str_eq, str_eq_iff, true, none, some, ◌≡◌, refl, ◌∙◌, ap, arith,
}
use zte_u60_pro_mu5250_data.Txn.Types.{
  Txn, verifying, Reading, ProbeTarget, sim_check, unchanged, data_pass,
}
use zte_u60_pro_mu5250_data.Txn.Ops.{counting, goal}
use zte_u60_pro_mu5250_data.Txn.Judge.{open_question, data_gate, wants_probe, resolve}
use zte_u60_pro_mu5250_data.Txn.Verdict.{on_reading}
use zte_u60_pro_mu5250_data.Txn.Evidence.{IsConfirmed, judge_iff}
use zte_u60_pro_mu5250_data.Txn.Evidence.Readings.{IsConfirmed-Evidence}

abbrev pub answered : Reading → Reading
answered r = record r { probe = some true }

data_gate-answered : (t : Txn) (r : Reading) → data_gate t (answered r) ≡ data_gate t r
unfolding data_gate
data_gate-answered t r = refl

-- What `wants_probe` has seen when it asks.
wanted :
    (t : Txn) (r : Reading) (now : ℕ) (target : ProbeTarget)
    → wants_probe t r now ≡ some target
    → (counting t ≡ true)
      × (r.registered ≡ true)
      × (sim_check t.sim r.sim ≡ unchanged)
      × (data_gate t r ≡ open_question (some target))
      × ((v : String) × (r.value ≡ some v) × (str_eq v (goal t) ≡ true))
unfolding wants_probe
wanted t r now target w = ground arith

-- When a write that is being confirmed asks for a probe, the probe is all that is missing: the same
-- reading with a good answer confirms it.
pub probe_decides :
    (t : Txn) (r : Reading) (now later : ℕ) (target : ProbeTarget)
    → t.phase ≡ verifying
    → wants_probe t r now ≡ some target
    → IsConfirmed (on_reading t (answered r) later)
unfolding goal counting
probe_decides t r now later target p w =
    let (c, reg, card, gate, (v, e, eq)) = wanted t r now target w in
    let aim : v ≡ t.target = ground (arith, str_eq_iff v t.target, str_eq_iff v (goal t)) in
    let idle : t.intent ≡ none = ground arith in
    let judged : resolve (data_gate t (answered r)) (some true) ≡ data_pass =
      ground (arith, data_gate-answered t r) in
    IsConfirmed-Evidence t (answered r) later p idle (record {
      same_card = card;
      reads_target = e ∙ ap some aim;
      is_registered = reg;
      path_counts = (judge_iff t (answered r) p).0 judged;
    })
