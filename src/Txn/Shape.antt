-- ===== src/Txn/Shape.antt =====
-- What `on_reading` can come to (rust/src/ops/txn.rs): it takes notes, and then either leaves the
-- rest to `on_tick` or finishes the transaction.
pub mod Restart
use zte_u60_pro_mu5250_data.Common.{
  ℕ, ◌+◌, ◌-◌, String, str_eq, Bool, true, false, ◌&&◌, ◌||◌, not, Option, none, some, ◌≡◌, refl,
  ◌∙◌, sym, arith, Bool-cases, Option-cases, ◌⊎◌, inl, inr, is_some, if◌then◌else◌, is_empty,
  unwrap_or,
}
use zte_u60_pro_mu5250_data.Txn.Types.{
  Txn, Phase, verifying, rolling_back, confirmed, unverified, rolled_back, not_applied, cancelled,
  Reason, verified, apn_no_data, ignored, manual_change, sim_changed, timeout, Reading, DataJudge,
  data_pass, apn_without_data, not_yet, Next, wait, finished, SimCheck, sim_check, unchanged,
  changed, unknown, Intent, SimId, Confirm, is_final, Conn,
}
use zte_u60_pro_mu5250_data.Txn.Ops.{finish, counting, waiting, on_tick, is_verifying}
use zte_u60_pro_mu5250_data.Txn.Judge.{data_judge, note_probe}
use zte_u60_pro_mu5250_data.Txn.Verdict.{
  conclude, on_target, on_old, on_rolled_back, see, verify_value, rollback_value, on_value,
  on_reading,
}

-- `u` is `t` with other notes about what was read.
pub record Noted (t u : Txn) : Type 0 where
  pub op_id : u.op_id ≡ t.op_id
  pub item : u.item ≡ t.item
  pub target : u.target ≡ t.target
  pub old : u.old ≡ t.old
  pub rollback_to : u.rollback_to ≡ t.rollback_to
  pub phase : u.phase ≡ t.phase
  pub reason : u.reason ≡ t.reason
  pub rollback_reason : u.rollback_reason ≡ t.rollback_reason
  pub intent : u.intent ≡ t.intent
  pub sim : u.sim ≡ t.sim
  pub rollback_enabled : u.rollback_enabled ≡ t.rollback_enabled
  pub deadline_ms : u.deadline_ms ≡ t.deadline_ms
  pub wait_start_ms : u.wait_start_ms ≡ t.wait_start_ms
  pub generation : u.generation ≡ t.generation

pub Noted-trans : {t u w : Txn} → Noted t u → Noted u w → Noted t w
Noted-trans h k = ground arith

-- The ends that a reading gives while the write is being confirmed.
abbrev pub verify_end : Phase → Reason → Bool
verify_end confirmed verified = true
verify_end unverified apn_no_data = true
verify_end not_applied ignored = true
verify_end _ _ = false

abbrev pub cancel_end : Reason → Bool
cancel_end manual_change = true
cancel_end sim_changed = true
cancel_end _ = false

-- The ends that a reading can give.
abbrev pub Ends : Txn → Phase → Reason → Type 0
Ends t p why =
    ((t.phase ≡ verifying) × (verify_end p why ≡ true))
    ⊎ ((t.phase ≡ rolling_back) × (p ≡ rolled_back) × (why ≡ unwrap_or t.rollback_reason timeout))
    ⊎ ((p ≡ cancelled) × (cancel_end why ≡ true))

abbrev pub Ticks : Txn → ℕ → Txn × Next → Type 0
Ticks t now res = (u : Txn) × Noted t u × (res ≡ on_tick u now)

abbrev pub Finishes : Txn → Txn × Next → Type 0
Finishes t res =
    (u : Txn) × (p : Phase) × (why : Reason) × Noted t u × Ends t p why × (res ≡ finish u p why)

abbrev pub Shape : Txn → ℕ → Txn × Next → Type 0
Shape t now res = Ticks t now res ⊎ Finishes t res

Noted-refl : (t : Txn) → Noted t t
Noted-refl t = ground arith

if-Shape :
    (t : Txn) (now : ℕ) (b : Bool) (x y : Txn × Next)
    → Shape t now x
    → Shape t now y
    → Shape t now (if b then x else y)
if-Shape t now true x y hx hy = hx
if-Shape t now false x y hx hy = hy

weaken-Shape :
    (t u : Txn) (now : ℕ) (res : Txn × Next) → Noted t u → Shape u now res → Shape t now res
weaken-Shape t u now res h (inl (w, k, e)) = inl (w, Noted-trans h k, e)
weaken-Shape t u now res h (inr (w, p, why, k, end, e)) =
    inr (w, p, why, Noted-trans h k, ground arith, e)

-- The leaves: `u` is what the transaction has become.
tick-Shape : (t u : Txn) (now : ℕ) → Noted t u → Shape t now (on_tick u now)
tick-Shape t u now h = inl (u, h, refl)

finish-Shape :
    (t u : Txn) (now : ℕ) (p : Phase) (why : Reason)
    → Noted t u
    → Ends t p why
    → Shape t now (finish u p why)
finish-Shape t u now p why h end = inr (u, p, why, h, end, refl)

conclude-Shape :
    (t : Txn) (j : DataJudge) (now : ℕ) → t.phase ≡ verifying → Shape t now (conclude t j now)
unfolding conclude
conclude-Shape t data_pass now v = finish-Shape t _ now _ _ (ground arith) (inl (v, refl))
conclude-Shape t apn_without_data now v = finish-Shape t t now _ _ (Noted-refl t) (inl (v, refl))
conclude-Shape t not_yet now v = tick-Shape t t now (Noted-refl t)

data_judge-Noted : (t : Txn) (r : Reading) → Noted t (data_judge t r).0
unfolding data_judge
data_judge-Noted t r = ground arith

on_target-Shape :
    (t : Txn) (r : Reading) (now : ℕ) → t.phase ≡ verifying → Shape t now (on_target t r now)
unfolding on_target data_judge
on_target-Shape t r now v =
    if-Shape t now r.registered _ _
      (weaken-Shape t _ now _ (ground arith) (conclude-Shape _ _ now v))
      (tick-Shape t _ now (ground arith))

on_old-Shape : (t : Txn) (now : ℕ) → t.phase ≡ verifying → Shape t now (on_old t now)
unfolding on_old
on_old-Shape t now v =
    if-Shape t now t.ever_matched _ _
      (finish-Shape t t now _ _ (Noted-refl t) (inr (inr (refl, refl))))
      (if-Shape t now t.apply_failed _ _ (finish-Shape t t now _ _ (Noted-refl t) (inl (v, refl)))
        (tick-Shape t t now (Noted-refl t)))

verify_value-Shape :
    (t : Txn) (v : String) (r : Reading) (now : ℕ)
    → t.phase ≡ verifying
    → Shape t now (verify_value t v r now)
unfolding verify_value
verify_value-Shape t v r now p =
    if-Shape t now (str_eq v t.target) _ _ (on_target-Shape t r now p) (
      if-Shape t now (str_eq v t.old) _ _ (on_old-Shape t now p) (
        if-Shape t now (not (is_empty v)) _ _
          (finish-Shape t t now _ _ (Noted-refl t) (inr (inr (refl, refl))))
          (tick-Shape t t now (Noted-refl t))))

rollback_value-Shape :
    (t : Txn) (v : String) (r : Reading) (now : ℕ)
    → t.phase ≡ rolling_back
    → Shape t now (rollback_value t v r now)
unfolding rollback_value on_rolled_back data_judge
rollback_value-Shape t v r now p =
    if-Shape t now (str_eq v t.rollback_to) _ _
      (if-Shape t now r.registered _ _
        (if-Shape t now _ _ _ (tick-Shape t _ now (ground arith))
          (finish-Shape t _ now _ _ (ground arith) (inr (inl (p, refl, refl)))))
        (tick-Shape t t now (Noted-refl t)))
      (if-Shape t now _ _ _ (finish-Shape t t now _ _ (Noted-refl t) (inr (inr (refl, refl))))
        (tick-Shape t t now (Noted-refl t)))

-- A transaction that counts down is being confirmed or rolled back.
pub counting_phase :
    (t : Txn)
    → counting t ≡ true
    → ((t.phase ≡ verifying) ⊎ (t.phase ≡ rolling_back)) × (t.intent ≡ none)
unfolding counting
counting_phase t h = ground arith

value-Shape :
    (t : Txn) (v : String) (r : Reading) (now : ℕ)
    → (t.phase ≡ verifying) ⊎ (t.phase ≡ rolling_back)
    → Shape t now
        (if is_verifying t.phase then verify_value t v r now else rollback_value t v r now)
value-Shape t v r now (inl p) =
    let e : is_verifying t.phase ≡ true = cc in rw e (verify_value-Shape t v r now p)
value-Shape t v r now (inr p) =
    let e : is_verifying t.phase ≡ false = ground arith in rw e (rollback_value-Shape t v r now p)

note_probe-Noted : (t : Txn) (r : Reading) (now : ℕ) → Noted t (note_probe t r now)
unfolding note_probe
note_probe-Noted t r now = ground arith

read-Shape :
    (t : Txn) (r : Reading) (now : ℕ)
    → (t.phase ≡ verifying) ⊎ (t.phase ≡ rolling_back)
    → (o : Option String)
    → Shape t now (elim o [
      | none ↦ on_tick t now
      | some v ↦
          let u = record t { read_ok = true; readback = some v } in
          if is_verifying u.phase then verify_value u v r now else rollback_value u v r now
    ])
read-Shape t r now p none = tick-Shape t t now (Noted-refl t)
read-Shape t r now p (some v) = weaken-Shape t _ now _ (ground arith) (value-Shape _ v r now p)

on_value-Shape :
    (t : Txn) (r : Reading) (now : ℕ)
    → (t.phase ≡ verifying) ⊎ (t.phase ≡ rolling_back)
    → Shape t now (on_value t r now)
unfolding on_value
on_value-Shape t r now p =
    let noted = note_probe-Noted (record t { registered = r.registered }) r now in
    weaken-Shape t _ now _ (ground (arith, noted))
      (read-Shape _ r now (ground (arith, noted)) r.value)

see-Noted : (t : Txn) (r : Reading) (now : ℕ) → Noted t (see t r now)
unfolding see
see-Noted t r now = ground arith

sim-Shape :
    (t : Txn) (r : Reading) (now : ℕ)
    → (t.phase ≡ verifying) ⊎ (t.phase ≡ rolling_back)
    → (c : SimCheck)
    → Shape t now (elim c [
      | changed ↦ finish t cancelled sim_changed
      | unknown ↦ on_tick t now
      | unchanged ↦ on_value t r now
    ])
sim-Shape t r now p unchanged = on_value-Shape t r now p
sim-Shape t r now p changed = finish-Shape t t now _ _ (Noted-refl t) (inr (inr (refl, refl)))
sim-Shape t r now p unknown = tick-Shape t t now (Noted-refl t)

-- A reading of a transaction that counts down.
pub on_reading-Shape :
    (t : Txn) (r : Reading) (now : ℕ) → counting t ≡ true → Shape t now (on_reading t r now)
unfolding on_reading
on_reading-Shape t r now h =
    let live : is_final t.phase ≡ false = ground (arith, counting_phase t h) in
    rw (live, h)
      (weaken-Shape t _ now _ (see-Noted t r now)
        (sim-Shape _ r now (ground (arith, counting_phase t h, see-Noted t r now)) _))

-- A reading of any other transaction changes nothing.
pub on_reading_idle :
    (t : Txn) (r : Reading) (now : ℕ) → counting t ≡ false → (on_reading t r now).0 ≡ t
unfolding on_reading
on_reading_idle t r now h = ground arith
