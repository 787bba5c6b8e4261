-- ===== src/Txn/Resume.antt =====
-- `Txn::resume`: a saved transaction goes on after datad starts again (rust/src/ops/txn.rs).
use zte_u60_pro_mu5250_data.Common.{
  ℕ, ◌-◌, String, str_eq, Bool, true, false, ◌&&◌, ◌||◌, not, Option, none, some, leb, add_u64,
  add_u32, if◌then◌else◌,
}
use zte_u60_pro_mu5250_data.Txn.Types.{
  Txn, Phase, accepted, applying, verifying, rolling_back, not_applied, is_final, ignored,
  reboot_loop, Intent, to_apply, Next, wait, finished,
}
use zte_u60_pro_mu5250_data.Txn.Ops.{finish, counting, reset_probe, expire, is_verifying}

-- The `if rebooted` block.
unfoldable pub note_reboot : Txn → String → Txn
unfolding reset_probe counting
note_reboot t id =
    let waited =
      if counting t
      then add_u64 t.elapsed_prev_ms (t.seen_ms - t.wait_start_ms)
      else t.elapsed_prev_ms in
    reset_probe
      (record t { elapsed_prev_ms = waited; boots = add_u32 t.boots 1; boot_id = id; ref_ms = 0 })

-- The arms of the `match` on phase and intent that go on; `accepted` returns before.
unfoldable pub settle : Phase → Option Intent → Bool → Txn → ℕ → Txn
settle applying i rebooted t now = record t {
  intent = none;
  phase = verifying;
  wait_start_ms = now;
}
settle verifying (some to_apply) rebooted t now = record t {
  intent = none;
  phase = verifying;
  wait_start_ms = now;
}
settle rolling_back (some i) rebooted t now = record t { intent = none; wait_start_ms = now }
settle _ _ rebooted t now = if rebooted then record t { wait_start_ms = now } else t

-- Stamps the transaction and looks at the limit on reboots.
unfoldable pub go_on : Txn → Bool → ℕ → Txn × Next
go_on t rebooted now =
    let u = record t { seen_ms = now; generation = add_u64 t.generation 1 } in
    if rebooted && is_verifying u.phase && (leb 2 u.boots || leb u.deadline_ms u.elapsed_prev_ms)
    then expire u reboot_loop
    else (u, wait)

abbrev pub is_accepted : Phase → Bool
is_accepted accepted = true
is_accepted _ = false

unfoldable pub resume : Txn → String → ℕ → Txn × Next
unfolding settle
resume t id now =
    if is_final t.phase
    then (t, finished)
    else let rebooted = not (str_eq id t.boot_id) in
      let t' = if rebooted then note_reboot t id else t in
      if is_accepted t'.phase
      then finish t' not_applied ignored
      else go_on (settle t'.phase t'.intent rebooted t' now) rebooted now
