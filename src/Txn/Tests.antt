-- ===== src/Txn/Tests.antt =====
-- Runs of the transaction state machine on concrete writes, and the theorems at them.
use zte_u60_pro_mu5250_data.Common.{
  ◌≤◌, true, false, none, some, List, [], ◌∷◌, ◌≡◌, refl, arith, pos, ◌⊎◌, ◌↔◌,
}
use zte_u60_pro_mu5250_data.Txn.Types.{
  Txn, NewTxn, SimId, Conn, DataPath, Reading, sim_check, screen, by_registration, done, confirmed,
  finished, rolling_back, is_final, rollback_failed, verified, user_revert, same, addr, blank,
  to_roll_back, rollback,
}
use zte_u60_pro_mu5250_data.Txn.Ops.{
  new, begin_apply, applied, counting, on_tick, revert, rollback_sent, expire, start_rollback,
  finish,
}
use zte_u60_pro_mu5250_data.Txn.Judge.{data_gate, data_judge, note_probe}
use zte_u60_pro_mu5250_data.Txn.Verdict.{on_reading, on_value, see, verify_value}
use zte_u60_pro_mu5250_data.Txn.Evidence.{Evidence}
use zte_u60_pro_mu5250_data.Txn.Evidence.Readings.{confirmed_iff_Evidence}
use zte_u60_pro_mu5250_data.Txn.Rollback.{Orders, handle-Orders, rollback_once}
use zte_u60_pro_mu5250_data.Txn.Rollback.Switch.{only_user_rolls_back}
use zte_u60_pro_mu5250_data.Txn.Table.{IsListed}
use zte_u60_pro_mu5250_data.Txn.Table.Readings.{run-submitted-IsListed}
use zte_u60_pro_mu5250_data.Txn.Deadline.{ends_in_two_deadlines}
use zte_u60_pro_mu5250_data.Txn.Machine.{
  submitted, handle, run, Event, write_returned, rollback_returned, read_came, read_failed,
  user_reverts,
}

abbrev card : SimId
card = record { iccid = "8986"; slot = pos 1 }

abbrev link : Conn
link = record { ipv4 = "10.0.0.2"; ipv6 = ""; up_since_ms = some 20000 }

abbrev path : DataPath
path = record {
  expected = some true;
  connected = true;
  conn = link;
  iface = "rmnet_data0";
  dns = "10.0.0.1" ∷ [];
}

abbrev write : NewTxn
write = record {
  op_id = "op1";
  action = "network.set_mode";
  item = "network.mode";
  source = screen;
  undo = false;
  target = "sa";
  old = "nsa";
  rollback_to = "nsa";
  sim = card;
  conn = none;
  confirm = by_registration;
  rollback_enabled = true;
  deadline_ms = 120000;
  boot_id = "b1";
}

-- What is read once the write has taken effect; `unprobed` is the same without the probe.
abbrev good : Reading
good = record {
  value = some "sa";
  registered = true;
  sim = card;
  data_path = some path;
  probe = some true;
}

abbrev unprobed : Reading
unprobed = record good { probe = none }

-- The write was ordered at 1000 and returned at 2000.
abbrev waiting_txn : Txn
unfolding submitted begin_apply new applied
waiting_txn = applied (submitted write 1000) done 2000

confirms : ((on_reading waiting_txn good 9000).0.phase ≡ confirmed)
unfolding waiting_txn on_reading on_value see verify_value data_judge data_gate note_probe finish
    sim_check blank same addr counting
confirms = refl

abbrev history : List Event
history =
    write_returned done 2000
    ∷ read_came unprobed 4000
    ∷ read_failed 130000
    ∷ rollback_returned 131000
    ∷ read_failed 300000
    ∷ []

rolls_back_once : (run (submitted write 1000) history).1 ≡ 1
unfolding run handle submitted begin_apply new applied on_reading on_value see verify_value
    data_judge data_gate note_probe finish sim_check blank same addr counting on_tick expire
    start_rollback rollback_sent
rolls_back_once = refl

fails_to_roll_back : (run (submitted write 1000) history).0.phase ≡ rollback_failed
unfolding run handle submitted begin_apply new applied on_reading on_value see verify_value
    data_judge data_gate note_probe finish sim_check blank same addr counting on_tick expire
    start_rollback rollback_sent
fails_to_roll_back = refl

confirmed_iff_Evidence_example :
    ((on_reading waiting_txn good 9000).0.phase ≡ confirmed) ↔ Evidence waiting_txn good
unfolding waiting_txn
confirmed_iff_Evidence_example = confirmed_iff_Evidence waiting_txn good 9000 refl refl

rollback_once_example : (run (submitted write 1000) history).1 ≤ 1
rollback_once_example = rollback_once write 1000 history

run-submitted-IsListed_example : IsListed (run (submitted write 1000) history).0
run-submitted-IsListed_example = run-submitted-IsListed write 1000 history

handle-Orders_example :
    Orders (handle waiting_txn user_reverts).1 waiting_txn (handle waiting_txn user_reverts).0
handle-Orders_example = handle-Orders waiting_txn user_reverts

abbrev unswitched : Txn
unfolding waiting_txn
unswitched = record waiting_txn { rollback_enabled = false }

only_user_rolls_back_example : ◌≡◌ {A = Event} user_reverts user_reverts
unfolding unswitched handle revert start_rollback
only_user_rolls_back_example = only_user_rolls_back unswitched user_reverts "nsa" refl refl

-- The write after it was confirmed.
abbrev settled : Txn
unfolding waiting_txn
settled = record waiting_txn { phase = confirmed; reason = some verified }

ends_in_two_deadlines_example :
    let u = (on_tick waiting_txn 130000).0 in
    ((is_final u.phase ≡ true) × ((on_tick waiting_txn 130000).1 ≡ finished))
    ⊎ ((u.phase ≡ rolling_back)
        × (u.intent ≡ some to_roll_back)
        × ((on_tick waiting_txn 130000).1 ≡ rollback waiting_txn.rollback_to)
        × (is_final (on_tick (rollback_sent u 131000) 251000).0.phase ≡ true)
        × ((on_tick (rollback_sent u 131000) 251000).1 ≡ finished))
unfolding waiting_txn counting
ends_in_two_deadlines_example =
    ends_in_two_deadlines waiting_txn 130000 131000 251000 refl (omega arith) (omega arith)

-- The write with its rollback ordered and not sent.
abbrev ordered : Txn
unfolding waiting_txn
ordered = record waiting_txn {
  phase = rolling_back;
  rollback_reason = some user_revert;
  intent = some to_roll_back;
}

-- A reading whose probe failed, and the next reading six seconds later.
abbrev unanswered : Reading
unanswered = record good { probe = some false }

abbrev other_card : Reading
other_card = record good { sim = record { iccid = "8944"; slot = pos 1 } }
