-- ===== src/Txn/Types.antt =====
-- The data of a write transaction and the checks on connections, SIM cards and the data path
-- (rust/src/ops/txn.rs). Times are milliseconds of the boot clock, `u64`.
use zte_u60_pro_mu5250_data.Common.{
  ℕ, ℤ, pos, String, str_eq, Bool, true, false, ◌&&◌, ◌||◌, not, Option, some, List, leb, abs_diff,
  is_empty, eq_ℤ, if◌then◌else◌,
}

pub data Source : Type 0 where
  screen web legacy guard scenario scheduler automatic : Source

unfoldable pub is_user : Source → Bool
is_user screen = true
is_user web = true
is_user legacy = true
is_user _ = false

abbrev is_guard : Source → Bool
is_guard guard = true
is_guard _ = false

unfoldable pub may_override : Source → Bool
unfolding is_user
may_override s = is_user s || is_guard s

pub data Phase : Type 0 where
  accepted applying verifying rolling_back confirmed unverified rolled_back : Phase
  not_applied rollback_failed cancelled : Phase

abbrev pub is_final : Phase → Bool
is_final accepted = false
is_final applying = false
is_final verifying = false
is_final rolling_back = false
is_final _ = true

pub data Reason : Type 0 where
  verified user_keep no_rollback timeout user_revert reboot_loop ignored : Reason
  rollback_timeout superseded preempted manual_change takeover sim_changed : Reason
  apn_no_data other_change no_verify : Reason

pub data Confirm : Type 0 where
  by_registration by_apn : Confirm

abbrev pub is_apn : Confirm → Bool
is_apn by_registration = false
is_apn by_apn = true

pub record Conn : Type 0 where
  pub ipv4 : String
  pub ipv6 : String
  pub up_since_ms : Option ℕ

abbrev pub conn_jitter_ms : ℕ
conn_jitter_ms = 2000

unfoldable pub addr : Conn → String
addr c = if is_empty c.ipv4 then c.ipv6 else c.ipv4

unfoldable pub v6_only : Conn → Bool
v6_only c = is_empty c.ipv4 && not (is_empty c.ipv6)

abbrev same_start : Option ℕ → Option ℕ → Bool
same_start (some a) (some b) = leb (abs_diff a b) conn_jitter_ms
same_start _ _ = true

unfoldable pub same : Conn → Conn → Bool
unfolding addr
same c d = str_eq (addr c) (addr d) && same_start c.up_since_ms d.up_since_ms

pub record DataPath : Type 0 where
  pub expected : Option Bool
  pub connected : Bool
  pub conn : Conn
  pub iface : String
  pub dns : List String

pub record ProbeTarget : Type 0 where
  pub iface : String
  pub dns : List String
  pub v6 : Bool

abbrev pub probe_tries : ℕ
probe_tries = 3

abbrev pub probe_gap_ms : ℕ
probe_gap_ms = 5000

abbrev pub probe_round_gap_ms : ℕ
probe_round_gap_ms = 30000

pub record SimId : Type 0 where
  pub iccid : String
  pub slot : ℤ

unfoldable pub blank : SimId → Bool
blank s = is_empty s.iccid || eq_ℤ s.slot (pos 0)

pub data SimCheck : Type 0 where
  unchanged changed unknown : SimCheck

abbrev sim_eq : SimId → SimId → Bool
sim_eq a b = str_eq a.iccid b.iccid && eq_ℤ a.slot b.slot

-- The `match` of `sim_check` on the pair of blanks.
sim_compare : Bool → Bool → SimId → SimId → SimCheck
sim_compare true true captured now = unchanged
sim_compare false true captured now = unknown
sim_compare _ _ captured now = if sim_eq captured now then unchanged else changed

unfoldable pub sim_check : SimId → SimId → SimCheck
unfolding sim_compare blank
sim_check captured now = sim_compare (blank captured) (blank now) captured now

pub record Reading : Type 0 where
  pub value : Option String
  pub registered : Bool
  pub sim : SimId
  pub data_path : Option DataPath
  pub probe : Option Bool

pub data DataJudge : Type 0 where
  data_pass apn_without_data not_yet : DataJudge

pub data Intent : Type 0 where
  to_apply to_roll_back : Intent

pub data Applied : Type 0 where
  done failed unclear : Applied

abbrev pub is_failed : Applied → Bool
is_failed failed = true
is_failed _ = false

-- What the driver does next; `finished` is `Next::Done`.
pub data Next : Type 0 where
  wait finished : Next
  rollback : String → Next

pub record Txn : Type 0 where
  pub op_id : String
  pub action : String
  pub item : String
  pub source : Source
  pub undo : Bool
  pub target : String
  pub old : String
  pub rollback_to : String
  pub phase : Phase
  pub reason : Option Reason
  pub rollback_reason : Option Reason
  pub ever_matched : Bool
  pub read_ok : Bool
  pub readback : Option String
  pub apply_failed : Bool
  pub intent : Option Intent
  pub sim : SimId
  pub confirm : Confirm
  pub ref_conn : Option Conn
  pub ref_ms : ℕ
  pub last_conn : Option Conn
  pub probe_conn : Option Conn
  pub probe_fails : ℕ
  pub probe_last_ms : Option ℕ
  pub data_ok : Bool
  pub registered : Bool
  pub rollback_enabled : Bool
  pub deadline_ms : ℕ
  pub boot_id : String
  pub boots : ℕ
  pub elapsed_prev_ms : ℕ
  pub wait_start_ms : ℕ
  pub seen_ms : ℕ
  pub created_ms : ℕ
  pub took_ms : Option ℕ
  pub generation : ℕ

pub record NewTxn : Type 0 where
  pub op_id : String
  pub action : String
  pub item : String
  pub source : Source
  pub undo : Bool
  pub target : String
  pub old : String
  pub rollback_to : String
  pub sim : SimId
  pub conn : Option Conn
  pub confirm : Confirm
  pub rollback_enabled : Bool
  pub deadline_ms : ℕ
  pub boot_id : String
