-- ===== src/Executor/Tests.antt =====
-- The theorems about the executor on a concrete queue and clock.
use zte_u60_pro_mu5250_data.Common.{
  ℕ, none, some, ok, err, if◌then◌else◌, str_eq, ◌+◌, ◌≤◌, ◌<◌, true, false, List, [], ◌∷◌, ◌≡◌,
  refl, arith,
}
use zte_u60_pro_mu5250_data.Executor.Queue.{Job, Queue, control_queue, drain}
use zte_u60_pro_mu5250_data.Executor.Draining.{drain_snapshot}
use zte_u60_pro_mu5250_data.Executor.Liveness.{started, beat, new_liveness, stalled, not_stalled}
use zte_u60_pro_mu5250_data.Executor.Calls.{
  Backend, timeout, Shared, reopen_gate, call_here, is_timed_out,
}
use zte_u60_pro_mu5250_data.Executor.Gate.{call_amid_write}

abbrev waiting_queue : Queue
waiting_queue = record {
  jobs = record { control = true; number = 1 } ∷ record { control = false; number = 2 } ∷ [];
  controls = 1;
}

-- Each job pushes a control job.
abbrev follow_up : Job → List Job
follow_up job = record { control = true; number = job.number + 10 } ∷ []

drain_snapshot_example : (drain control_queue follow_up waiting_queue).0 ≡ waiting_queue.jobs
drain_snapshot_example = drain_snapshot control_queue follow_up waiting_queue

not_stalled_example : stalled (beat new_liveness (started 50000)) 55000 1000 ≡ false
not_stalled_example = not_stalled new_liveness (started 50000) 55000 1000 (omega arith)

-- One object never answers; the others take ten milliseconds.
abbrev device : Backend
device = record {
  World = ℕ;
  Value = ℕ;
  empty_object = 0;
  data_query = 1;
  clock = λ w. w;
  send = λ w round o m a.
      if str_eq o "zwrt_nfc" then (w + 2000, err (timeout o "no reply")) else (w + 10, ok 7);
}

abbrev amid_write : Shared device
amid_write = record {
  world = 100000;
  skips = [];
  used = 0;
  cut_logged = false;
  gate = some "zwrt_nfc";
  writing = true;
  cooldown = [];
  sent = 0;
  live = new_liveness;
  cooldown_ms = 10000;
  requests = [];
}

call_amid_write_example :
    let (s', r) = call_here device false false "zwrt_nfc" "set" 3 amid_write in
    (s'.gate ≡ (if is_timed_out device r then some "zwrt_nfc" else none))
    × ((reopen_gate device amid_write).sent < s'.sent)
    × (s'.sent ≤ amid_write.sent + 5)
call_amid_write_example = call_amid_write device false "zwrt_nfc" "set" 3 amid_write refl
