-- ===== src/Txn/Evidence.antt =====
-- What a confirmation rests on (D25, D33 and D34 in rust/src/ops/txn.rs).
pub mod Readings
pub mod Probed
use zte_u60_pro_mu5250_data.Common.{
  ℕ, String, str_eq, str_eq_iff, Bool, true, false, Option, none, some, ◌≡◌, refl, sym, ◌∙◌, ap,
  arith, ◌&&◌, ◌||◌, not, Option-cases, Bool-cases, ◌⊎◌, inl, inr, ◌↔◌, is_empty, if◌then◌else◌,
  ◌≢◌,
}
use zte_u60_pro_mu5250_data.Txn.Types.{
  Txn, Phase, verifying, confirmed, verified, finished, is_final, is_apn, Conn, addr, DataPath,
  Reading, Confirm, SimCheck, sim_check, unchanged, changed, unknown, DataJudge, data_pass, not_yet,
  apn_without_data, cancelled, sim_changed, Next,
}
use zte_u60_pro_mu5250_data.Txn.Ops.{
  finish, counting, start_rollback, expire, on_tick, is_verifying,
}
use zte_u60_pro_mu5250_data.Txn.Judge.{
  Gate, judged, open_question, new_conn, connected_gate, path_gate, data_gate, data_judge, resolve,
  note_probe,
}
use zte_u60_pro_mu5250_data.Txn.Verdict.{
  conclude, on_target, on_old, verify_value, on_value, see, on_reading,
}

-- The data path of a reading counts: no data is expected of a write that is not an APN, or data is
-- expected and the connection is up, has an address, is new if the write is an APN, and answers.
abbrev pub PathCounts : Txn → Reading → DataPath → Type 0
PathCounts t r d =
    ((d.expected ≡ some false) × (is_apn t.confirm ≡ false))
    ⊎ ((d.expected ≡ some true)
        × (d.connected ≡ true)
        × (is_empty (addr d.conn) ≡ false)
        × ((is_apn t.confirm ≡ false) ⊎ (new_conn t d.conn ≡ true))
        × (r.probe ≡ some true))

pub record Evidence (t : Txn) (r : Reading) : Type 0 where
  pub same_card : sim_check t.sim r.sim ≡ unchanged
  pub reads_target : r.value ≡ some t.target
  pub is_registered : r.registered ≡ true
  pub path_counts : (d : DataPath) × (r.data_path ≡ some d) × PathCounts t r d

-- The two transactions ask the same of a data path.
record SameAsk (t u : Txn) : Type 0 where
  confirm : u.confirm ≡ t.confirm
  phase : u.phase ≡ t.phase
  ref_ms : u.ref_ms ≡ t.ref_ms
  ref_conn : u.ref_conn ≡ t.ref_conn

data_gate-same : (t u : Txn) (r : Reading) → SameAsk t u → data_gate u r ≡ data_gate t r
unfolding data_gate path_gate connected_gate new_conn
data_gate-same t u r s = ground arith

-- The judgement, for a write that is being confirmed.
judge_iff :
    (t : Txn) (r : Reading)
    → t.phase ≡ verifying
    → (resolve (data_gate t r) r.probe ≡ data_pass)
      ↔ ((d : DataPath) × (r.data_path ≡ some d) × PathCounts t r d)
unfolding data_gate path_gate connected_gate
judge_iff t r v = (λ h. ground arith, λ h. ground arith)

on_tick-phase : (t : Txn) (now : ℕ) → (on_tick t now).0.phase ≡ confirmed → t.phase ≡ confirmed
unfolding on_tick expire start_rollback finish
on_tick-phase t now h = ground arith

-- The judgement that `verify_value` makes, as a condition on the transaction it is given.
abbrev Judged : Txn → String → Reading → Type 0
Judged t v r =
    (str_eq v t.target ≡ true)
    × (r.registered ≡ true)
    × (resolve (data_gate t r) r.probe ≡ data_pass)

verify_value_only :
    (t : Txn) (v : String) (r : Reading) (now : ℕ)
    → t.phase ≡ verifying
    → (verify_value t v r now).0.phase ≡ confirmed
    → Judged t v r
unfolding verify_value on_target on_old conclude data_judge finish
verify_value_only t v r now p h = ground (
  arith,
  on_tick-phase t now,
  on_tick-phase (record t { ever_matched = true }) now,
  on_tick-phase (data_judge (record t { ever_matched = true }) r).0 now,
  data_gate-same t (record t { ever_matched = true }) r,
)

abbrev pub IsConfirmed : Txn × Next → Type 0
IsConfirmed res = (res.0.phase ≡ confirmed) × (res.0.reason ≡ some verified) × (res.1 ≡ finished)

verify_value_if :
    (t : Txn) (v : String) (r : Reading) (now : ℕ)
    → Judged t v r
    → IsConfirmed (verify_value t v r now)
unfolding verify_value on_target conclude data_judge finish
verify_value_if t v r now h = ground (arith, data_gate-same t (record t { ever_matched = true }) r)

note_probe-same : (t : Txn) (r : Reading) (now : ℕ) → SameAsk t (note_probe t r now)
unfolding note_probe
note_probe-same t r now = ground arith

note_probe-target : (t : Txn) (r : Reading) (now : ℕ) → (note_probe t r now).target ≡ t.target
unfolding note_probe
note_probe-target t r now = ground arith

see-same : (t : Txn) (r : Reading) (now : ℕ) → SameAsk t (see t r now)
unfolding see
see-same t r now = ground arith

see-target :
    (t : Txn) (r : Reading) (now : ℕ)
    → ((see t r now).target ≡ t.target) × ((see t r now).sim ≡ t.sim)
unfolding see
see-target t r now = ground arith

-- What `on_value` hands to `verify_value`.
abbrev Asked : Txn → Reading → Type 0
Asked t r = (v : String) × (r.value ≡ some v) × Judged t v r

-- The transaction as `on_value` has it before it looks at the value.
abbrev noted : Txn → Reading → ℕ → Txn
noted t r now = note_probe (record t { registered = r.registered }) r now

abbrev read : Txn → String → Reading → ℕ → Txn
read t v r now = record (noted t r now) { read_ok = true; readback = some v }

read-same : (t : Txn) (v : String) (r : Reading) (now : ℕ) → SameAsk t (read t v r now)
read-same t v r now = ground (arith, note_probe-same (record t { registered = r.registered }) r now)

read-Judged :
    (t : Txn) (v : String) (r : Reading) (now : ℕ) → Judged (read t v r now) v r ↔ Judged t v r
read-Judged t v r now =
    let same_gate = data_gate-same t (read t v r now) r (read-same t v r now) in
    let aim = note_probe-target (record t { registered = r.registered }) r now in
    (λ h. ground arith, λ h. ground arith)

on_value_only :
    (t : Txn) (r : Reading) (now : ℕ)
    → t.phase ≡ verifying
    → (on_value t r now).0.phase ≡ confirmed
    → Asked t r
unfolding on_value
on_value_only t r now p h = by_value r.value refl
  where
    live : (noted t r now).phase ≡ verifying
    live = (note_probe-same (record t { registered = r.registered }) r now).phase ∙ p

    by_value : (o : Option String) → r.value ≡ o → Asked t r
    by_value none e =
        absurd (let no : ⊥ = ground (arith, live, on_tick-phase (noted t r now) now) in no)
    by_value (some v) e =
        let k : Judged (read t v r now) v r =
          ground (arith, live, verify_value_only (read t v r now) v r now) in
        (v, e, (read-Judged t v r now).0 k)

on_value_if :
    (t : Txn) (r : Reading) (now : ℕ)
    → t.phase ≡ verifying
    → Asked t r
    → IsConfirmed (on_value t r now)
unfolding on_value
on_value_if t r now p (v, e, j) =
    let live = (note_probe-same (record t { registered = r.registered }) r now).phase ∙ p in
    let k = verify_value_if (read t v r now) v r now ((read-Judged t v r now).1 j) in ground arith

-- Evidence is what `on_value` asks, of the same card.
Evidence-iff :
    (t : Txn) (r : Reading)
    → t.phase ≡ verifying
    → Evidence t r ↔ ((sim_check t.sim r.sim ≡ unchanged) × Asked t r)
Evidence-iff t r p = (forth, back)
  where
    forth : Evidence t r → (sim_check t.sim r.sim ≡ unchanged) × Asked t r
    forth e = (
      e.same_card,
      (
        t.target,
        e.reads_target,
        ((str_eq_iff t.target t.target).1 refl, e.is_registered, (judge_iff t r p).1 e.path_counts),
      ),
    )

    back : (sim_check t.sim r.sim ≡ unchanged) × Asked t r → Evidence t r
    back (c, (v, e, (same_text, reg, j))) = record {
      same_card = c;
      reads_target = e ∙ ap some ((str_eq_iff v t.target).0 same_text);
      is_registered = reg;
      path_counts = (judge_iff t r p).0 j;
    }
