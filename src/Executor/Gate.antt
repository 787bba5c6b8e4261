-- ===== src/Executor/Gate.antt =====
-- The gate on writes, and how much a round spends on objects that do not answer
-- (rust/src/executor.rs).
use zte_u60_pro_mu5250_data.Common.{
  ℕ, zero, suc, ◌+◌, ◌≤◌, ◌<◌, String, str_eq_refl, Bool, true, false, Option, none, some, List, [],
  ◌∷◌, if◌then◌else◌, err, ◌≡◌, refl, arith,
}
use zte_u60_pro_mu5250_data.Executor.Calls.{
  Backend, timeout, skipped, contains, record_error, Shared, left_out, is_timed_out, note_failure,
  after_call, raw_call, probe_for, probe_loop, reopen_gate, call_here, gate_probes,
}

module _ (be : Backend) where
  open be use {World, Value}

  -- Outside a round every call is sent, and the gate stays as it is.
  raw_call-sends :
      (cool : Bool) (o m : String) (a : Value) (s : Shared be)
      → let s' = (raw_call be false cool o m a s).0 in (s'.sent ≡ s.sent + 1) × (s'.gate ≡ s.gate)
  unfolding raw_call left_out after_call
  raw_call-sends cool o m a s = ground arith

  probe_loop-opens :
      (n : ℕ) (q : String × String × Value) (s : Shared be)
      → let s' = probe_loop be n q s in (s'.gate ≡ none) × (s'.sent ≤ s.sent + n)
  unfolding probe_loop
  probe_loop-opens zero (o, m, a) s = (refl, omega arith)
  probe_loop-opens (suc n) (o, m, a) s = ground (
    arith,
    raw_call-sends false o m a s,
    probe_loop-opens n (o, m, a) (raw_call be false false o m a s).0,
  )

  -- The gate is opened with four probes at most.
  reopen_gate-opens :
      (s : Shared be)
      → ((reopen_gate be s).gate ≡ none) × ((reopen_gate be s).sent ≤ s.sent + gate_probes)
  unfolding reopen_gate
  reopen_gate-opens s = by_gate s.gate refl
    where
      by_gate :
          (g : Option String)
          → s.gate ≡ g
          → ((reopen_gate be s).gate ≡ none) × ((reopen_gate be s).sent ≤ s.sent + gate_probes)
      by_gate none e = ground arith
      by_gate (some o) e = ground (arith, probe_loop-opens gate_probes (probe_for be s o) s)

  -- A call amid a write is sent, with the gate open and after four probes at most, and leaves the
  -- gate closed on its object exactly when it timed out.
  pub call_amid_write :
      (cool : Bool) (o m : String) (a : Value) (s : Shared be)
      → s.writing ≡ true
      → let (s', r) = call_here be false cool o m a s in
        (s'.gate ≡ (if is_timed_out be r then some o else none))
        × ((reopen_gate be s).sent < s'.sent)
        × (s'.sent ≤ s.sent + 5)
  unfolding call_here
  call_amid_write cool o m a s w =
      ground (arith, reopen_gate-opens s, raw_call-sends cool o m a (reopen_gate be s))

  -- A call of a round that timed out is the last of its object in the round: the next is left out
  -- and not sent.
  pub timed_out_once :
      (cool cool' : Bool) (o m m' detail : String) (a a' : Value) (s : Shared be)
      → (raw_call be true cool o m a s).1 ≡ err (timeout o detail)
      → let s' = (raw_call be true cool o m a s).0 in
        raw_call be true cool' o m' a' s' ≡ (s', err (skipped o))
  unfolding raw_call left_out after_call note_failure record_error contains
  timed_out_once cool cool' o m m' detail a a' s h = ground (arith, str_eq_refl o)

  abbrev pub legacy_reads : List (String × String × Value) → Shared be → Shared be
  legacy_reads [] s = s
  legacy_reads ((o, m, a) ∷ more) s = legacy_reads more (raw_call be true true o m a s).0
