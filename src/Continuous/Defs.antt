-- ===== src/Continuous/Defs.antt =====
-- The methods of rulesforge/src/engine/continuous_session.cpp. A method that may throw returns the
-- state that it leaves, also where it throws. A fact is passed by value: what is cloned in the
-- source is a copy here.
use rules_forge.Prelude.{ℕ, String, Bool, Option, none, some, List, if◌then◌else◌}
use rules_forge.Prelude.Int.{ℤ, negsuc, pos, ◌+ℤ◌, ◌-ℤ◌, ltb_ℤ}
use rules_forge.Prelude.Eq.{string_eq}
use rules_forge.Prelude.Map.{Map}
use rules_forge.Continuous.{Config, Fact, SessionOps, StepStatus, PendingBatch, Metrics}

abbrev pub int64_min : ℤ
int64_min = negsuc 9223372036854775807

abbrev pub int64_max : ℤ
int64_max = pos 9223372036854775807

-- checked_subtract: none where it returns false.
unfoldable pub checked_subtract : ℤ → ℤ → Option ℤ
checked_subtract value delta =
    if ltb_ℤ delta (pos 0)
    then none
    else if ltb_ℤ value (int64_min +ℤ delta)
    then some int64_min
    else some (value -ℤ delta)

-- The boundary as its callers leave it: unchanged where checked_subtract returns false.
unfoldable pub boundary : ℤ → ℤ → ℤ → ℤ
unfolding checked_subtract
boundary initial value delta = elim (checked_subtract value delta) [ none ↦ initial | some b ↦ b ]

module _ (E : SessionOps) where
  open E use {Session, Fields, Handle}

  pub record EventEnvelope : Type 0 where
    pub event_id : String
    pub entry_point : String
    pub event_time_ms : ℤ
    pub fact : Option (Fact Fields)

  pub data Operation : Type 0 where
    events : List EventEnvelope → Operation
    watermark : ℤ → Operation
    drain : Operation

  pub record ActiveEvent : Type 0 where
    pub event_id : String
    pub entry_point : String
    pub event_time_ms : ℤ
    pub fact : Handle

  -- What a replay rebuilds.
  pub record Core : Type 0 where
    pub session : Session
    pub watermark_ms : Option ℤ
    pub active_events : List ActiveEvent
    pub dedup_event_times : Map String ℤ

  pub record Continuous : Type 0 where
    pub config : Config
    pub core : Core
    pub committed_operations : List Operation
    pub pending_batches : List PendingBatch
    pub metrics : Metrics
    pub next_batch_id : ℕ
    pub consistent : Bool
    pub replaying : Bool

  pub record StepResult : Type 0 where
    pub status : StepStatus
    pub batch_id : ℕ
    pub watermark_ms : Option ℤ
    pub rules_fired : ℕ
    pub events_expired : ℕ
    pub outputs : List (Fact Fields)
