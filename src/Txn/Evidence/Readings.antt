-- ===== src/Txn/Evidence/Readings.antt =====
-- `on_reading` confirms exactly on the evidence (rust/src/ops/txn.rs).
use zte_u60_pro_mu5250_data.Common.{ℕ, none, ◌≡◌, refl, ◌∙◌, arith, ◌↔◌}
use zte_u60_pro_mu5250_data.Txn.Types.{
  Txn, verifying, confirmed, Reading, SimCheck, sim_check, unchanged, changed, unknown, cancelled,
  sim_changed,
}
use zte_u60_pro_mu5250_data.Txn.Ops.{finish, counting, on_tick}
use zte_u60_pro_mu5250_data.Txn.Verdict.{on_value, see, on_reading}
use zte_u60_pro_mu5250_data.Txn.Evidence.{
  Evidence, IsConfirmed, Asked, Evidence-iff, data_gate-same, see-same, see-target, on_tick-phase,
  on_value_only, on_value_if,
}

see-Asked : (t : Txn) (r : Reading) (now : ℕ) → Asked (see t r now) r ↔ Asked t r
see-Asked t r now =
    let gate = data_gate-same t (see t r now) r (see-same t r now) in
    let aim = (see-target t r now).0 in
    (λ (v, e, j). (v, e, ground arith), λ (v, e, j). (v, e, ground arith))

on_reading_only :
    (t : Txn) (r : Reading) (now : ℕ)
    → t.phase ≡ verifying
    → t.intent ≡ none
    → (on_reading t r now).0.phase ≡ confirmed
    → (sim_check t.sim r.sim ≡ unchanged) × Asked t r
unfolding on_reading counting
on_reading_only t r now p i h = by_card (sim_check (see t r now).sim r.sim) refl
  where
    live : (see t r now).phase ≡ verifying
    live = (see-same t r now).phase ∙ p

    card : (see t r now).sim ≡ t.sim
    card = (see-target t r now).1

    by_card :
        (c : SimCheck)
        → sim_check (see t r now).sim r.sim ≡ c
        → (sim_check t.sim r.sim ≡ unchanged) × Asked t r
    by_card unchanged e =
        let k : (on_value (see t r now) r now).0.phase ≡ confirmed = ground arith in
        (ground (arith, card), (see-Asked t r now).0 (on_value_only (see t r now) r now live k))
    by_card changed e =
        let k : (finish (see t r now) cancelled sim_changed).0.phase ≡ confirmed = ground arith in
        absurd (let no : ⊥ = unfold finish in ground arith in no)
    by_card unknown e =
        let k : (on_tick (see t r now) now).0.phase ≡ confirmed = ground arith in
        absurd (let no : ⊥ = ground (arith, live, on_tick-phase (see t r now) now k) in no)

on_reading_if :
    (t : Txn) (r : Reading) (now : ℕ)
    → t.phase ≡ verifying
    → t.intent ≡ none
    → (sim_check t.sim r.sim ≡ unchanged) × Asked t r
    → IsConfirmed (on_reading t r now)
unfolding on_reading counting
on_reading_if t r now p i (c, a) =
    let k =
      on_value_if (see t r now) r now ((see-same t r now).phase ∙ p) ((see-Asked t r now).1 a) in
    let card = (see-target t r now).1 in ground arith

-- Evidence confirms, and the transaction then ends as verified.
pub IsConfirmed-Evidence :
    (t : Txn) (r : Reading) (now : ℕ)
    → t.phase ≡ verifying
    → t.intent ≡ none
    → Evidence t r
    → IsConfirmed (on_reading t r now)
IsConfirmed-Evidence t r now p i e = on_reading_if t r now p i ((Evidence-iff t r p).0 e)

-- A reading confirms a written value exactly when it is of the same SIM card, reads back the target
-- on a registered device, and its data path counts.
pub confirmed_iff_Evidence :
    (t : Txn) (r : Reading) (now : ℕ)
    → t.phase ≡ verifying
    → t.intent ≡ none
    → ((on_reading t r now).0.phase ≡ confirmed) ↔ Evidence t r
confirmed_iff_Evidence t r now p i = (
  λ h. (Evidence-iff t r p).1 (on_reading_only t r now p i h),
  λ e. (IsConfirmed-Evidence t r now p i e).0,
)
