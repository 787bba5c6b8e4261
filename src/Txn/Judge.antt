-- ===== src/Txn/Judge.antt =====
-- What a reading says: the goal, the data path, the probes, and the verdict on the transaction
-- (rust/src/ops/txn.rs).
use zte_u60_pro_mu5250_data.Common.{
  ℕ, ◌-◌, str_eq, Bool, true, false, ◌&&◌, ◌||◌, not, Option, none, some, ltb, leb, ◌==◌, add_u32,
  is_some_and, is_empty, if◌then◌else◌,
}
use zte_u60_pro_mu5250_data.Txn.Types.{
  Txn, is_apn, Conn, addr, v6_only, same, DataPath, ProbeTarget, probe_tries, probe_gap_ms,
  probe_round_gap_ms, SimCheck, unchanged, sim_check, Reading, DataJudge, data_pass,
  apn_without_data, not_yet,
}
use zte_u60_pro_mu5250_data.Txn.Ops.{counting, goal, is_verifying}

unfoldable pub new_conn : Txn → Conn → Bool
new_conn t c =
    t.ref_ms == 0
    || is_some_and t.ref_conn (λ r. not (str_eq (addr r) (addr c)))
    || is_some_and c.up_since_ms (λ at. ltb t.ref_ms at)

-- `Result<DataJudge, Option<ProbeTarget>>`
pub data Gate : Type 0 where
  judged : DataJudge → Gate
  open_question : Option ProbeTarget → Gate

-- The checks of `data_gate` after it has seen that data is expected.
unfoldable pub connected_gate : Txn → DataPath → Gate
connected_gate t d =
    if not d.connected || is_empty (addr d.conn)
    then open_question none
    else if is_apn t.confirm && not (new_conn t d.conn)
    then open_question none
    else open_question (some (record { iface = d.iface; dns = d.dns; v6 = v6_only d.conn }))

unfoldable pub path_gate : Txn → DataPath → Gate
unfolding connected_gate
path_gate t d = elim d.expected [
  | none ↦ open_question none
  | some false ↦
      judged (if is_apn t.confirm && is_verifying t.phase then apn_without_data else data_pass)
  | some true ↦ connected_gate t d
]

unfoldable pub data_gate : Txn → Reading → Gate
unfolding path_gate
data_gate t r = elim r.data_path [ none ↦ open_question none | some d ↦ path_gate t d ]

-- The time that must pass before the next probe on this connection.
unfoldable pub probe_gap : Txn → Conn → ℕ
probe_gap t c =
    if is_some_and t.probe_conn (λ p. same p c) && leb probe_tries t.probe_fails
    then probe_round_gap_ms
    else probe_gap_ms

unfoldable pub too_soon : Txn → Conn → ℕ → Bool
unfolding probe_gap
too_soon t c now = is_some_and t.probe_last_ms (λ last. ltb (now - last) (probe_gap t c))

abbrev pub reads_goal : Txn → Reading → Bool
reads_goal t r = is_some_and r.value (λ v. str_eq v (goal t))

abbrev pub same_sim : SimCheck → Bool
same_sim unchanged = true
same_sim _ = false

unfoldable pub paced : Txn → Reading → ℕ → Gate → Option ProbeTarget
unfolding too_soon
paced t r now (open_question (some target)) = elim r.data_path [
  | none ↦ none
  | some d ↦ if too_soon t d.conn now then none else some target
]
paced t r now _ = none

unfoldable pub wants_probe : Txn → Reading → ℕ → Option ProbeTarget
unfolding counting paced
wants_probe t r now =
    if not (counting t) || not r.registered
    then none
    else if not (reads_goal t r)
    then none
    else if not (same_sim (sim_check t.sim r.sim))
    then none
    else paced t r now (data_gate t r)

-- `note_probe` with its two parts read.
record_probe : Txn → Bool → Conn → ℕ → Txn
record_probe t ok c now =
    let fresh = not (is_some_and t.probe_conn (λ p. same p c)) || leb probe_tries t.probe_fails in
    let t' = if fresh then record t { probe_conn = some c; probe_fails = 0 } else t in
    record t' {
      probe_last_ms = some now;
      probe_fails = if ok then t'.probe_fails else add_u32 t'.probe_fails 1;
    }

unfoldable pub note_probe : Txn → Reading → ℕ → Txn
unfolding record_probe
note_probe t r now = elim r.probe [
  | none ↦ t
  | some ok ↦ elim r.data_path [ none ↦ t | some d ↦ record_probe t ok d.conn now ]
]

abbrev pub is_not_yet : DataJudge → Bool
is_not_yet not_yet = true
is_not_yet _ = false

abbrev pub resolve : Gate → Option Bool → DataJudge
resolve (judged j) probe = j
resolve (open_question (some target)) (some true) = data_pass
resolve _ _ = not_yet

unfoldable pub data_judge : Txn → Reading → Txn × DataJudge
data_judge t r =
    let j = resolve (data_gate t r) r.probe in (record t { data_ok = not (is_not_yet j) }, j)
