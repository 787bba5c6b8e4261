-- ===== src/Hub/Blocks.antt =====
-- Blocks, publishing policies and events (rust/src/block.rs). JSON values are serde_json's, so they
-- are a parameter. An `Instant` is a number of milliseconds, and so is a `Duration`.
use zte_u60_pro_mu5250_data.Common.{
  ℕ, ◌*◌, String, Bool, true, false, ◌||◌, not, Option, none, some, List, leb, max, ◌==◌,
  is_some_and, unwrap_or, if◌then◌else◌,
}

pub record Json : Type 1 where
  pub Value : Type 0
  pub null : Value
  pub eq : Value → Value → Bool
  pub is_object : Value → Bool

abbrev pub min_max_age : ℕ
min_max_age = 15000

abbrev pub failure_retry : ℕ
failure_retry = 5000

abbrev pub signal_force : ℕ
signal_force = 30000

pub data Publish : Type 0 where
  never if_changed : Publish

pub record Schedule : Type 0 where
  pub cache : Bool
  pub sample_interval : ℕ

module _ (j : Json) where
  open j use {Value, null, eq}

  -- The trait `PublishPolicy`; its arguments are the fields of `PolicyInput`.
  pub record PublishPolicy : Type 0 where
    pub on_read : Option Value → Option Value → Option ℕ → Publish
    pub on_round_end : Option Value → Option Value → Option ℕ → Publish

  abbrev pub on_change : PublishPolicy
  on_change = record { on_read = λ p c d. if_changed; on_round_end = λ p c d. never }

  abbrev pub live_policy : PublishPolicy
  live_policy = record { on_read = λ p c d. never; on_round_end = λ p c d. if_changed }

  signal_on_read : (Value → Value → Bool) → Option Value → Option Value → Option ℕ → Publish
  signal_on_read crosses (some p) (some c) since =
      if crosses p c || not (is_some_and since (λ d. not (leb signal_force d)))
      then if_changed
      else never
  signal_on_read crosses _ _ since = if_changed

  -- `SignalPolicy`, over the test `signal_crosses`.
  unfoldable pub signal_policy : (Value → Value → Bool) → PublishPolicy
  unfolding signal_on_read
  signal_policy crosses = record { on_read = signal_on_read crosses; on_round_end = λ p c d. never }

  abbrev pub ShapeFn : Type 0
  ShapeFn = Value → (String → Option Value) → Value

  pub record BlockSpec : Type 0 where
    pub name : String
    pub object : String
    pub method : String
    pub args : Value
    pub interval : ℕ
    pub policy : PublishPolicy
    pub derived : Bool
    pub shape : Option ShapeFn
    pub deps : List String

  pub record Block : Type 0 where
    pub spec : BlockSpec
    pub revision : ℕ
    pub observed_at : ℕ
    pub stale : Bool
    pub raw : Option Value
    pub current : Option Value
    pub published : Option Value
    pub published_at : Option ℕ
    pub last_attempt : Option ℕ
    pub last_success : Option ℕ
    pub last_failed : Bool
    pub immediate : Bool

  unfoldable pub new_block : BlockSpec → Block
  new_block spec = record {
    spec = spec;
    revision = 0;
    observed_at = 0;
    stale = true;
    raw = none;
    current = none;
    published = none;
    published_at = none;
    last_attempt = none;
    last_success = none;
    last_failed = false;
    immediate = false;
  }

  pub record BlockView : Type 0 where
    pub name : String
    pub revision : ℕ
    pub observed_at : ℕ
    pub stale : Bool
    pub shown : Value

  unfoldable pub view : Block → BlockView
  view b = record {
    name = b.spec.name;
    revision = b.revision;
    observed_at = b.observed_at;
    stale = b.stale;
    shown = unwrap_or b.published null;
  }

  unfoldable pub max_age : Block → ℕ → ℕ
  max_age b sample_interval =
      max ((if b.spec.interval == 0 then sample_interval else b.spec.interval) * 3) min_max_age

  pub data Event : Type 0 where
    block_event : ℕ → BlockView → Event
    heartbeat : ℕ → List (String × ℕ) → ℕ → Event

  pub record Inner : Type 0 where
    pub seq : ℕ
    pub blocks : List Block
    pub last_heartbeat : Option ℕ

  -- `==` on `Option<Value>`
  unfoldable pub same_value : Option Value → Option Value → Bool
  same_value none none = true
  same_value (some a) (some b) = eq a b
  same_value _ _ = false
