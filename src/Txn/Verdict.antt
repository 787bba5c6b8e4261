-- ===== src/Txn/Verdict.antt =====
-- `Txn::on_reading`: the verdict on a transaction from one fresh reading (rust/src/ops/txn.rs).
use zte_u60_pro_mu5250_data.Common.{
  ℕ, ◌-◌, String, str_eq, true, ◌&&◌, not, none, some, add_u64, unwrap_or, is_empty, if◌then◌else◌,
}
use zte_u60_pro_mu5250_data.Txn.Types.{
  Txn, confirmed, unverified, rolled_back, not_applied, cancelled, is_final, verified, timeout,
  ignored, manual_change, sim_changed, apn_no_data, addr, unchanged, changed, unknown, sim_check,
  Reading, DataJudge, data_pass, apn_without_data, not_yet, Next, wait, finished,
}
use zte_u60_pro_mu5250_data.Txn.Ops.{finish, counting, on_tick, is_verifying}
use zte_u60_pro_mu5250_data.Txn.Judge.{data_judge, is_not_yet, note_probe}

-- The three judgements of the data path while the written value is being confirmed.
unfoldable pub conclude : Txn → DataJudge → ℕ → Txn × Next
conclude t data_pass now =
    finish (record t { took_ms = some (add_u64 t.elapsed_prev_ms (now - t.wait_start_ms)) })
      confirmed verified
conclude t apn_without_data now = finish t unverified apn_no_data
conclude t not_yet now = on_tick t now

-- The value reads as the target.
unfoldable pub on_target : Txn → Reading → ℕ → Txn × Next
unfolding conclude
on_target t r now =
    let t' = record t { ever_matched = true } in
    if r.registered then (let (t'', j) = data_judge t' r in conclude t'' j now) else on_tick t' now

-- The value reads as it was before the write.
unfoldable pub on_old : Txn → ℕ → Txn × Next
on_old t now =
    if t.ever_matched
    then finish t cancelled manual_change
    else if t.apply_failed
    then finish t not_applied ignored
    else on_tick t now

unfoldable pub verify_value : Txn → String → Reading → ℕ → Txn × Next
unfolding on_target on_old
verify_value t v r now =
    if str_eq v t.target
    then on_target t r now
    else if str_eq v t.old
    then on_old t now
    else if not (is_empty v)
    then finish t cancelled manual_change
    else on_tick t now

-- The value reads as the one rolled back to.
unfoldable pub on_rolled_back : Txn → Reading → ℕ → Txn × Next
on_rolled_back t r now =
    let (t', j) = data_judge t r in
    if r.registered
    then (if is_not_yet j
        then on_tick t' now
        else finish t' rolled_back (unwrap_or t'.rollback_reason timeout))
    else on_tick t now

unfoldable pub rollback_value : Txn → String → Reading → ℕ → Txn × Next
unfolding on_rolled_back
rollback_value t v r now =
    if str_eq v t.rollback_to
    then on_rolled_back t r now
    else if not (str_eq v t.target) && not (is_empty v)
    then finish t cancelled manual_change
    else on_tick t now

-- The SIM is the one written to.
unfoldable pub on_value : Txn → Reading → ℕ → Txn × Next
on_value t r now =
    let t' = note_probe (record t { registered = r.registered }) r now in
    elim r.value [
      | none ↦ on_tick t' now
      | some v ↦
          let u = record t' { read_ok = true; readback = some v } in
          if is_verifying u.phase then verify_value u v r now else rollback_value u v r now
    ]

-- Takes in the clock and the connection of a reading.
unfoldable pub see : Txn → Reading → ℕ → Txn
see t r now =
    let t' = record t { seen_ms = now } in
    elim r.data_path [
      | none ↦ t'
      | some d ↦ if is_empty (addr d.conn) then t' else record t' { last_conn = some d.conn }
    ]

unfoldable pub on_reading : Txn → Reading → ℕ → Txn × Next
on_reading t r now =
    if is_final t.phase
    then (t, finished)
    else if not (counting t)
    then (t, wait)
    else let t' = see t r now in
      elim (sim_check t'.sim r.sim) [
        | changed ↦ finish t' cancelled sim_changed
        | unknown ↦ on_tick t' now
        | unchanged ↦ on_value t' r now
      ]
