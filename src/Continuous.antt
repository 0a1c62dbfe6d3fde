-- ===== src/Continuous.antt =====
-- ContinuousSession: the configuration, the state, and the interface of the session below it
-- (rulesforge/include/engine/continuous_session.hpp). Counters and sizes do not wrap.
pub mod Defs
pub mod Steps
pub mod Execute
pub mod Recovery
pub mod Atomic
pub mod CoreBounds
pub mod Bounds
pub mod Admission
pub mod Watermark
pub mod Runs
mod Tests
use rules_forge.Prelude.{ℕ, String, Bool, not, Option, List, ◌==◌, ◌||◌}
use rules_forge.Prelude.Int.{ℤ, pos, ltb_ℤ, leb_ℤ}

pub record Config : Type 0 where
  pub max_active_events : ℕ
  pub max_dedup_entries : ℕ
  pub max_pending_result_batches : ℕ
  pub max_pending_results : ℕ
  pub max_input_batch_size : ℕ
  pub max_replay_steps : ℕ
  pub max_rules_per_step : ℤ
  pub allowed_lateness_ms : ℤ
  pub event_retention_ms : ℤ
  pub dedup_retention_ms : ℤ
  pub max_event_time_lead_ms : ℤ
  pub output_fact_types : List String

-- ContinuousSession::validate_config: true where the constructor goes on.
unfoldable pub validate_config : Config → Bool
validate_config c = not (
    c.max_active_events == 0
    || c.max_dedup_entries == 0
    || c.max_pending_result_batches == 0
    || c.max_pending_results == 0
    || c.max_input_batch_size == 0
    || c.max_replay_steps == 0
    || leb_ℤ c.max_rules_per_step (pos 0)
    || ltb_ℤ c.allowed_lateness_ms (pos 0)
    || leb_ℤ c.event_retention_ms (pos 0)
    || leb_ℤ c.dedup_retention_ms (pos 0)
    || ltb_ℤ c.max_event_time_lead_ms (pos 0))

-- A fact by value; the type of its fields is left open.
pub record Fact (Fields : Type 0) : Type 0 where
  pub id : ℕ
  pub type : String
  pub fields : Fields

-- The calls that a continuous session makes of its StatefulSession. A call that may throw returns
-- the session it leaves, and none where it threw. `Handle` is the pointer of an inserted fact.
pub record SessionOps : Type 1 where
  pub Session : Type 0
  pub Fields : Type 0
  pub Handle : Type 0
  -- KnowledgeBase::create_session, none where it throws.
  pub create_session : Option Session
  pub enable_event_time_mode : Session → Session
  pub is_consistent : Session → Bool
  pub validate_entry_point_route : String → String → Session → Bool
  pub insert_event_into : String → Fact Fields → ℤ → Session → Session × Option Handle
  pub retract_from : String → Handle → Session → Session × Bool
  pub advance_event_time : ℤ → Session → Session × Option ℕ
  pub fire_all_rules_fail_fast : ℤ → Session → Session × Option ℕ
  pub next_fact_id : Session → ℕ
  pub pending_activation_count : Session → ℕ
  pub facts_snapshot : Session → List (Fact Fields)

-- The exceptions that the methods throw; `engine` is one out of the session below.
pub data Error : Type 0 where
  inconsistent batch_size active_limit dedup_limit replay_limit : Error
  missing_part duplicate late beyond_lead no_route : Error
  watermark_backwards pending_limit ack_order engine : Error

pub data Result {ℓ} (A : Type ℓ) : Type ℓ where
  ok : A → Result A
  err : Error → Result A

pub data StepStatus : Type 0 where
  committed drain_required : StepStatus

pub record PendingBatch : Type 0 where
  pub id : ℕ
  pub output_count : ℕ

pub record Metrics : Type 0 where
  pub accepted_events : ℕ
  pub expired_events : ℕ
  pub rejected_duplicates : ℕ
  pub rejected_late_events : ℕ
  pub rejected_resource_limits : ℕ
  pub replay_recoveries : ℕ
  pub pending_results : ℕ

abbrev pub no_metrics : Metrics
no_metrics = record {
  accepted_events = 0;
  expired_events = 0;
  rejected_duplicates = 0;
  rejected_late_events = 0;
  rejected_resource_limits = 0;
  replay_recoveries = 0;
  pending_results = 0;
}

-- What follows a call that returns or throws, over the state that it leaves.
abbrev pub on_outcome {ℓ κ μ} :
    {A : Type ℓ} {S : Type κ} {B : Type μ} → Result A × S → (A → S → B) → (Error → S → B) → B
on_outcome (ok a, s) returned thrown = returned a s
on_outcome (err x, s) returned thrown = thrown x s
