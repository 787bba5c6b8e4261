-- ===== src/Engine/State.antt =====
-- The engine's state with what it has on disk and has sent out, and the methods that write to disk:
-- `remember`, `retire`, `persist`, `finish`, `publish` (rust/src/ops/engine.rs; `Last` and `Store` are
-- in rust/src/ops/pending.rs). The files of the store are values here. The parameters of an old
-- request are JSON, of any type `V`. The JSON views for clients are left out: where the source returns
-- the view of a transaction, the model returns the transaction.
use zte_u60_pro_mu5250_data.Common.{
  ℕ, ◌-◌, String, str_eq, Bool, false, ◌||◌, not, Option, none, some, List, [], ◌∷◌, ◌++◌, length,
  drop, leb, if◌then◌else◌,
}
use zte_u60_pro_mu5250_data.Txn.Types.{Source, Txn, is_final}

pub record Config : Type 0 where
  pub rollback : Bool
  pub legacy_ttl_ms : ℕ

abbrev pub recent_limit : ℕ
recent_limit = 16

abbrev pub seen_save_ms : ℕ
seen_save_ms = 10000

pub record Session : Type 0 where
  pub id : String
  pub source : Source
  pub opened_ms : ℕ
  pub renewed_ms : ℕ

pub record LegacyReq (V : Type 0) : Type 0 where
  pub item : String
  pub action : String
  pub params : V
  pub at_ms : ℕ

pub record Last : Type 0 where
  pub txn : Txn
  pub acked : Bool

pub record St (V : Type 0) : Type 0 where
  pub active : Option Txn
  pub session : Option Session
  pub recent : List Txn
  pub queue : List (LegacyReq V)
  pub saved_seen_ms : ℕ
  pub last : Option Last
  pub notice_acked : Bool

-- A line of the journal.
pub data Line (V : Type 0) : Type 0 where
  txn_line : Txn → Line V
  legacy_line : LegacyReq V → String → Option String → Line V
  ack_line : Source → String → String → Line V
  notice_line : Source → Line V
  interrupt_line : Source → String → String → String → Line V
  session_line : Session → String → Option String → ℕ → Line V

-- What the engine sends out: a line of the journal, the owner of an item (source, undo, value, id of
-- the change), the `op` block as of a time.
pub data Out (V : Type 0) : Type 0 where
  journal : Line V → Out V
  owner : String → Source → Bool → String → Option String → Out V
  op_block : St V → ℕ → Out V

-- `pending` is pending.json, `stored_last` is last.json, `stored_notice` is notice.json. `disk` says
-- whether the store can be written now: it has a directory, and its writes succeed. A write that does
-- not reach the disk leaves the file as it was, and datad goes on; `lost` says that there has been one.
-- `draining` is the flag of the task that empties the queue; `out` has the newest first.
pub record World (V : Type 0) : Type 0 where
  pub st : St V
  pub pending : Option Txn
  pub stored_last : Option Last
  pub stored_notice : Bool
  pub disk : Bool
  pub lost : Bool
  pub draining : Bool
  pub out : List (Out V)

unfoldable pub remember : List Txn → Txn → List Txn
remember recent t = (if leb recent_limit (length recent) then drop 1 recent else recent) ++ t ∷ []

newest : List Txn → String → Option Txn
newest [] id = none
newest (t ∷ more) id =
    let later = newest more id in
    elim later [ none ↦ if str_eq t.op_id id then some t else none | some u ↦ some u ]

module _ {V : Type 0} where
  abbrev pub emit : World V → Out V → World V
  emit w o = record w { out = o ∷ w.out }

  abbrev pub log : World V → Line V → World V
  log w l = emit w (journal l)

  -- `publish`, at the time `now`.
  abbrev pub publish_block : World V → ℕ → World V
  publish_block w now = emit w (op_block w.st now)

  unfoldable pub retire : World V → World V
  unfolding remember
  retire w = elim w.st.active [
    | none ↦ w
    | some t ↦
        let l : Last = record { txn = t; acked = false } in
        record (log w (txn_line t)) {
          stored_last = if w.disk then some l else w.stored_last;
          lost = w.lost || not w.disk;
          st = record w.st { active = none; last = some l; recent = remember w.st.recent t };
        }
  ]

  -- `store.save(t)`, and `saved_seen_ms`, which is set whatever came of it.
  abbrev pub save : World V → Txn → World V
  save w t = record w {
    pending = if w.disk then some t else w.pending;
    lost = w.lost || not w.disk;
    st = record w.st { saved_seen_ms = t.seen_ms };
  }

  -- `store.clear()`
  abbrev pub clear : World V → World V
  clear w = record w { pending = if w.disk then none else w.pending; lost = w.lost || not w.disk }

  unfoldable pub persist : World V → Bool → ℕ → World V
  persist w force now = elim w.st.active [
    | none ↦ publish_block w now
    | some t ↦
        if is_final t.phase
        then clear w
        else (let shown = publish_block w now in
            if force || leb seen_save_ms (t.seen_ms - w.st.saved_seen_ms)
            then save shown t
            else shown)
  ]

  -- `finish`: gives the lock back when the transaction has reached an outcome.
  unfoldable pub finish_active : World V → ℕ → World V
  finish_active w now = elim w.st.active [
    | none ↦ w
    | some t ↦ if is_final t.phase then publish_block (clear (retire w)) now else w
  ]

  abbrev pub put : World V → Txn → World V
  put w t = record w { st = record w.st { active = some t } }

  -- `live`: the transaction in progress, if it has the id.
  unfoldable pub live : St V → String → Option Txn
  live s id = elim s.active [ none ↦ none | some t ↦ if str_eq t.op_id id then some t else none ]

  -- `find`: the transaction of the id, in progress or of the last ones.
  unfoldable pub find : St V → String → Option Txn
  unfolding live newest
  find s id = elim (live s id) [ none ↦ newest s.recent id | some t ↦ some t ]

  unfoldable pub new_engine : Bool → Option Txn → Option Last → Bool → World V
  new_engine disk pending last acked = record {
    st = record {
      active = none;
      session = none;
      recent = [];
      queue = [];
      saved_seen_ms = 0;
      last = last;
      notice_acked = acked;
    };
    pending = pending;
    stored_last = last;
    stored_notice = acked;
    disk = disk;
    lost = false;
    draining = false;
    out = [];
  }
