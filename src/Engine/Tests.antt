-- ===== src/Engine/Tests.antt =====
-- Runs of the engine on concrete requests, and the theorems at them.
use zte_u60_pro_mu5250_data.Common.{
  String, Bool, true, false, none, some, List, [], ◌∷◌, Result, ok, ◌≡◌, refl, pos,
}
use zte_u60_pro_mu5250_data.Txn.Types.{
  Txn, SimId, Reading, screen, by_registration, done, superseded, sim_check, may_override, applying,
  to_apply, blank, addr, is_user,
}
use zte_u60_pro_mu5250_data.Txn.Ops.{
  new, begin_apply, applied, cancel, waiting, start_rollback, revert, step,
}
use zte_u60_pro_mu5250_data.Engine.State.{
  Config, World, new_engine, persist, live, retire, remember, find,
}
use zte_u60_pro_mu5250_data.Engine.Active.{start, revert_active}
use zte_u60_pro_mu5250_data.Engine.Submit.{
  Request, Spec, busy, submit_begin, submit_end, capture, Captured, stops, give_way, new_txn,
  overridable, note_applied, is_failed_write,
}
use zte_u60_pro_mu5250_data.Engine.Drive.{rollback_check, checked}
use zte_u60_pro_mu5250_data.Engine.Steps.{
  Call, begin_call, end_call, revert_call, perform, perform_all, boot,
}
use zte_u60_pro_mu5250_data.Engine.Invariant.{Inv}
use zte_u60_pro_mu5250_data.Engine.Life.{any_order-Inv}
use zte_u60_pro_mu5250_data.Engine.Writes.{write_on_disk, override_inherits}
use zte_u60_pro_mu5250_data.Engine.Rollbacks.{rollback_written, Unchanged}
use zte_u60_pro_mu5250_data.Engine.Refusals.{refused_unchanged, Why}
use zte_u60_pro_mu5250_data.Engine.Crash.{crash_keeps, Found}

abbrev card : SimId
card = record { iccid = "8986"; slot = pos 1 }

abbrev setup : Config
setup = record { rollback = true; legacy_ttl_ms = 60000 }

abbrev mode_spec : Spec
mode_spec = record {
  action = "network.set_mode";
  item = "network.mode";
  deadline_ms = 120000;
  confirm = by_registration;
}

abbrev apn_spec : Spec
apn_spec = record mode_spec { action = "apn.set_mode"; item = "apn.mode" }

abbrev to_sa : Request
to_sa = record { spec = mode_spec; target = "sa"; source = screen; undo = false }

abbrev to_lte : Request
to_lte = record to_sa { target = "lte" }

abbrev to_manual : Request
to_manual = record { spec = apn_spec; target = "manual"; source = screen; undo = false }

abbrev seen : String → Result String Reading
seen v =
    ok (record { value = some v; registered = true; sim = card; data_path = none; probe = none })

-- Written, and waiting for its outcome.
abbrev written : List (Call String)
written = begin_call to_sa "op1" (seen "nsa") "b1" 1000 ∷ end_call to_sa "op1" done 2000 ∷ []

-- And then the user asks to go back.
abbrev asked_back : List (Call String)
asked_back =
    begin_call to_sa "op1" (seen "nsa") "b1" 1000
    ∷ end_call to_sa "op1" done 2000
    ∷ revert_call "op1" 3000
    ∷ []

abbrev after : List (Call String) → World String
unfolding perform_all perform boot start new_engine
after calls = perform_all setup (boot true none none false false "b1" 500) calls

abbrev captured : Captured
captured = record { old = "nsa"; sim = card; conn = none }

abbrev op1 : Txn
unfolding new_txn applied
op1 = applied (new_txn setup to_sa "op1" captured none "b1" 1000) done 2000

any_order-Inv_example : Inv (after written)
unfolding after
any_order-Inv_example = any_order-Inv setup written true none none false false "b1" 500

in_progress_now : (after written).st.active ≡ some op1
unfolding after op1 new_txn applied perform_all perform boot start new_engine submit_begin
    submit_end capture stops give_way persist live find retire note_applied is_failed_write new
    begin_apply step addr
in_progress_now = refl

write_on_disk_example :
    let w' = (submit_begin setup to_sa "op1" (seen "nsa") "b1" 1000 (after [])).0 in
    (t : Txn) × (w'.st.active ≡ some t)
    × (true ≡ true → w'.pending ≡ some t)
    × (◌≡◌ {A = Bool} true false → (w'.pending ≡ none) × (w'.lost ≡ true))
    × (t.op_id ≡ "op1")
    × (t.item ≡ "network.mode")
    × (t.target ≡ "sa")
    × (t.phase ≡ applying)
    × (t.intent ≡ some to_apply)
    × (w'.st.session ≡ none)
unfolding after perform_all perform boot start new_engine submit_begin capture stops give_way live
    find retire
write_on_disk_example =
    write_on_disk setup to_sa "op1" (seen "nsa") "b1" 1000 (after [])
      (any_order-Inv setup [] true none none false false "b1" 500) refl

override_inherits_example :
    let w = after written in
    let w' = (submit_begin setup to_lte "op2" (seen "sa") "b1" 5000 w).0 in
    (op1.item ≡ "network.mode")
    × (may_override screen ≡ true)
    × (waiting op1.phase ≡ true)
    × (op1.intent ≡ none)
    × ((t : Txn) × (w'.st.active ≡ some t) × (t.op_id ≡ "op2") × (t.rollback_to ≡ op1.rollback_to))
    × (w'.st.recent ≡ remember w.st.recent (cancel op1 superseded))
    × (w'.st.last ≡ some (record { txn = cancel op1 superseded; acked = false }))
    × (true ≡ true → w'.stored_last ≡ some (record { txn = cancel op1 superseded; acked = false }))
unfolding after op1 new_txn applied perform_all perform boot start new_engine submit_begin
    submit_end capture stops give_way persist live find retire note_applied is_failed_write new
    begin_apply step addr overridable may_override is_user
override_inherits_example =
    override_inherits setup to_lte "op2" (seen "sa") "b1" 5000 (after written) op1
      (any_order-Inv setup written true none none false false "b1" 500) refl refl

refused_unchanged_example :
    let w = after written in
    ((submit_begin setup to_manual "op2" (seen "auto") "b1" 5000 w).0 ≡ w)
    × Why to_manual "op2" (seen "auto") w (busy op1)
unfolding after op1 new_txn applied perform_all perform boot start new_engine submit_begin
    submit_end capture stops give_way persist live find retire note_applied is_failed_write new
    begin_apply step addr overridable
refused_unchanged_example =
    refused_unchanged setup to_manual "op2" (seen "auto") "b1" 5000 (after written) (busy op1) refl

rollback_written_example :
    Unchanged "op1"
      (seen "sa")
      (after asked_back)
      (rollback_check "op1" (seen "sa") 3500 (after asked_back)).0
unfolding after new_txn applied perform_all perform boot start new_engine submit_begin submit_end
    capture stops give_way persist live find retire note_applied is_failed_write new begin_apply
    step addr revert_active revert start_rollback rollback_check checked sim_check blank
rollback_written_example =
    rollback_written "op1" (seen "sa") 3500 (after asked_back)
      (any_order-Inv setup asked_back true none none false false "b1" 500) refl

crash_keeps_example :
    let w = after written in
    let w' : World String = boot true w.pending w.stored_last w.stored_notice false "b2" 100 in
    (u : Txn) × Found true u w'
    × (u.op_id ≡ op1.op_id)
    × (u.item ≡ op1.item)
    × (u.target ≡ op1.target)
    × (u.rollback_to ≡ op1.rollback_to)
unfolding after op1 new_txn applied perform_all perform boot start new_engine submit_begin
    submit_end capture stops give_way persist live find retire note_applied is_failed_write new
    begin_apply step addr
crash_keeps_example =
    crash_keeps (after written) op1 true false "b2" 100
      (any_order-Inv setup written true none none false false "b1" 500) refl refl
