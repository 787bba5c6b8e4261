-- ===== src/Engine/Submit.antt =====
-- `submit` (rust/src/ops/engine.rs), cut at its waits: the first look, the part between the reading of
-- the device and the write, and the part after the write.
use zte_u60_pro_mu5250_data.Common.{
  ℕ, String, str_eq, Bool, true, false, ◌&&◌, not, Option, none, some, is_empty, unwrap_or,
  if◌then◌else◌, Result, ok, err,
}
use zte_u60_pro_mu5250_data.Txn.Types.{
  Source, legacy, may_override, Txn, Reading, SimId, Conn, addr, Confirm, superseded, Applied,
  failed,
}
use zte_u60_pro_mu5250_data.Txn.Ops.{new, begin_apply, applied, cancel}
use zte_u60_pro_mu5250_data.Engine.State.{
  Config, Session, St, owner, World, emit, retire, persist, put, live, find,
}
use zte_u60_pro_mu5250_data.Engine.Active.{replaceable}

-- `Spec` (rust/src/ops/spec.rs), with the deadline that `deadline_ms` returns.
pub record Spec : Type 0 where
  pub action : String
  pub item : String
  pub deadline_ms : ℕ
  pub confirm : Confirm

pub record Request : Type 0 where
  pub spec : Spec
  pub target : String
  pub source : Source
  pub undo : Bool

unfoldable pub overridable : Txn → Request → Bool
overridable t req = str_eq t.item req.spec.item && may_override req.source && replaceable t

pub data Submit : Type 0 where
  existing : Txn → Submit
  busy_session : Session → Submit
  busy : Txn → Submit
  no_capture : Submit

-- The value, the SIM and the connection before the write.
pub record Captured : Type 0 where
  pub old : String
  pub sim : SimId
  pub conn : Option Conn

conn_of : Reading → Option Conn
conn_of r = elim r.data_path [
  | none ↦ none
  | some d ↦ if is_empty (addr d.conn) then none else some d.conn
]

unfoldable pub capture : Result String Reading → Option Captured
unfolding conn_of
capture (err e) = none
capture (ok r) = elim r.value [
  | none ↦ none
  | some v ↦ some (record { old = v; sim = r.sim; conn = conn_of r })
]

is_legacy : Source → Bool
is_legacy legacy = true
is_legacy _ = false

unfoldable pub new_txn : Config → Request → String → Captured → Option String → String → ℕ → Txn
unfolding is_legacy
new_txn cfg req id c inherit boot_id now = begin_apply (
    new
      (record {
        op_id = id;
        action = req.spec.action;
        item = req.spec.item;
        source = req.source;
        undo = req.undo;
        target = req.target;
        old = c.old;
        rollback_to = unwrap_or inherit c.old;
        sim = c.sim;
        conn = c.conn;
        confirm = req.spec.confirm;
        rollback_enabled = cfg.rollback && not (is_legacy req.source);
        deadline_ms = req.spec.deadline_ms;
        boot_id = boot_id;
      })
      now)

unfoldable pub is_failed_write : Applied → Bool
is_failed_write failed = true
is_failed_write _ = false

module _ {V : Type 0} where
  -- What the first look, or the look in the lock, stops at.
  unfoldable pub stops : Request → String → St V → Option Submit
  stops req id s = elim (find s id) [
    | some t ↦ some (existing t)
    | none ↦ elim s.session [
      | some x ↦ some (busy_session x)
      | none ↦ elim s.active [
        | none ↦ none
        | some t ↦ if overridable t req then none else some (busy t)
      ]
    ]
  ]

  -- The override of the transaction in progress, and the value to roll back to that it leaves.
  unfoldable pub give_way : World V → World V × Option String
  give_way w = elim w.st.active [
    | none ↦ (w, none)
    | some t ↦ (retire (put w (cancel t superseded)), some t.rollback_to)
  ]

  -- The part in the lock, before the write: an answer, or the write may go out.
  unfoldable pub submit_begin :
      Config
      → Request
      → String
      → Result String Reading
      → String
      → ℕ
      → World V
      → World V × Option Submit
  submit_begin cfg req id reading boot_id now w = elim (capture reading) [
    | none ↦ (w, some no_capture)
    | some c ↦ elim (stops req id w.st) [
      | some answer ↦ (w, some answer)
      | none ↦
          let (w', inherit) = give_way w in
          (persist (put w' (new_txn cfg req id c inherit boot_id now)) true now, none)
    ]
  ]

  -- The outcome of the write, if its transaction is still in progress.
  unfoldable pub note_applied : String → Applied → ℕ → World V → World V × Bool
  note_applied id outcome now w = elim (live w.st id) [
    | none ↦ (persist w true now, false)
    | some t ↦ (persist (put w (applied t outcome now)) true now, true)
  ]

  -- The part after the write, with how it ended; the answer is whether a driver starts.
  unfoldable pub submit_end : Request → String → Applied → ℕ → World V → World V × Bool
  unfolding is_failed_write
  submit_end req id outcome now w =
      let w1 =
        if is_failed_write outcome
        then w
        else emit w (owner req.spec.item req.source req.undo req.target (some id)) in
      note_applied id outcome now w1
