-- ===== src/Continuous/Steps.antt =====
-- The parts of a step in rulesforge/src/engine/continuous_session.cpp: validation, the effect on the
-- core, and the publication of the outputs.
use rules_forge.Prelude.{
  ℕ, ◌+◌, ◌-◌, String, Bool, true, false, not, ◌||◌, Option, none, some, List, [], ◌∷◌, ◌++◌, ltb,
  leb, ◌==◌, if◌then◌else◌, length, ◌&&◌, is_some,
}
use rules_forge.Prelude.Int.{ℤ, pos, ◌+ℤ◌, ◌-ℤ◌, ltb_ℤ, leb_ℤ}
use mathlib.Core.Option
use rules_forge.Prelude.Eq.{string_eq}
use rules_forge.Prelude.Map.{Map}
use rules_forge.Prelude.Map
use rules_forge.Prelude.Set
use rules_forge.Continuous.{
  Config, Fact, SessionOps, Error, Result, ok, err, inconsistent, batch_size, active_limit,
  dedup_limit, replay_limit, missing_part, duplicate, late, beyond_lead, no_route, pending_limit,
  engine, StepStatus, committed, drain_required, on_outcome,
}
use rules_forge.Continuous.Defs.{
  int64_min, int64_max, boundary, EventEnvelope, ActiveEvent, Core, Continuous, StepResult,
}

-- `if (it->second <= boundary) erase` over the table.
unfoldable pub expire_entries : ℤ → Map String ℤ → Map String ℤ
expire_entries limit [] = []
expire_entries limit ((id, time) ∷ m) =
    let rest = expire_entries limit m in if leb_ℤ time limit then rest else (id, time) ∷ rest

-- late_boundary of validate_events, and whether an event lies before it.
unfoldable pub is_late : Config → Option ℤ → ℤ → Bool
is_late config none time = false
is_late config (some watermark) time =
    ltb_ℤ time (boundary int64_min watermark config.allowed_lateness_ms)

-- beyond_lead of validate_events; the first test keeps the sum inside int64_t.
unfoldable pub is_beyond_lead : Config → Option ℤ → ℤ → Bool
is_beyond_lead config none time = false
is_beyond_lead config (some watermark) time =
    if ltb_ℤ (int64_max -ℤ config.max_event_time_lead_ms) watermark
    then false
    else ltb_ℤ (watermark +ℤ config.max_event_time_lead_ms) time

module _ (E : SessionOps) where
  open E use {Session, Fields, Handle}

  unfoldable pub is_consistent : Continuous E → Bool
  is_consistent c = c.consistent && E.is_consistent c.core.session

  abbrev pub count_limit : Continuous E → Continuous E
  count_limit c = record c {
    metrics = record (c.metrics) {
      rejected_resource_limits = c.metrics.rejected_resource_limits + 1;
    };
  }

  -- The rejection counter that goes with an exception out of validate_events.
  unfoldable pub count_rejection : Error → Continuous E → Continuous E
  count_rejection duplicate c = record c {
    metrics = record (c.metrics) { rejected_duplicates = c.metrics.rejected_duplicates + 1 };
  }
  count_rejection late c = record c {
    metrics = record (c.metrics) { rejected_late_events = c.metrics.rejected_late_events + 1 };
  }
  count_rejection batch_size c = count_limit c
  count_rejection active_limit c = count_limit c
  count_rejection dedup_limit c = count_limit c
  count_rejection replay_limit c = count_limit c
  count_rejection x c = c

  unfoldable pub type_of : Option (Fact Fields) → String
  type_of none = ""
  type_of (some fact) = fact.type

  unfoldable pub is_missing : EventEnvelope E → Bool
  is_missing e =
      string_eq.beq e.event_id ""
      || string_eq.beq e.entry_point ""
      || elim e.fact [ none ↦ true | some fact ↦ false ]

  -- The checks of one event in validate_events; `batch_ids` are the ids before it.
  unfoldable pub check_event : Continuous E → List String → EventEnvelope E → Option Error
  check_event c batch_ids e =
      if is_missing e
      then some missing_part
      else if is_some (Map.find e.event_id c.core.dedup_event_times)
          || Set.contains e.event_id batch_ids
      then some duplicate
      else if is_late c.config c.core.watermark_ms e.event_time_ms
      then some late
      else if is_beyond_lead c.config c.core.watermark_ms e.event_time_ms
      then some beyond_lead
      else if not (E.validate_entry_point_route e.entry_point (type_of e.fact) c.core.session)
      then some no_route
      else none

  -- The loop of validate_events.
  unfoldable pub validate_loop :
      Continuous E → List String → List (EventEnvelope E) → Result (Unit {0}) × Continuous E
  validate_loop c batch_ids [] = (ok tt, c)
  validate_loop c batch_ids (e ∷ es) = elim (check_event c batch_ids e) [
    | some x ↦ (err x, count_rejection x c)
    | none ↦ validate_loop c (e.event_id ∷ batch_ids) es
  ]

  -- The checks of validate_events before its loop.
  unfoldable pub check_batch : List (EventEnvelope E) → Continuous E → Option Error
  check_batch events c =
      if not (is_consistent c)
      then some inconsistent
      else if length events == 0 || ltb c.config.max_input_batch_size (length events)
      then some batch_size
      else if ltb c.config.max_active_events (length events)
          || ltb (c.config.max_active_events - length events) (length c.core.active_events)
      then some active_limit
      else if ltb c.config.max_dedup_entries (length events)
          || ltb (c.config.max_dedup_entries - length events) (length c.core.dedup_event_times)
      then some dedup_limit
      else if leb c.config.max_replay_steps (length c.committed_operations)
      then some replay_limit
      else none

  unfoldable pub validate_events :
      List (EventEnvelope E) → Continuous E → Result (Unit {0}) × Continuous E
  validate_events events c = elim (check_batch events c) [
    | some x ↦ (err x, count_rejection x c)
    | none ↦ validate_loop c [] events
  ]

  -- clone_envelope: the fact's copy has id 0.
  unfoldable pub clone_envelope : EventEnvelope E → EventEnvelope E
  clone_envelope e = record e {
    fact = Option.map (λ (fact : Fact Fields). record fact { id = 0 }) e.fact;
  }

  -- A step that throws leaves the core in between.
  abbrev pub StepM : Type 0 → Type 0
  StepM A = Core E → Result A × Core E

  unfoldable pub insert_one : EventEnvelope E → Fact Fields → StepM (Unit {0})
  insert_one e fact core =
      let (s, inserted) =
        E.insert_event_into e.entry_point (record fact { id = 0 }) e.event_time_ms core.session in
      elim inserted [
        | none ↦ (err engine, record core { session = s })
        | some handle ↦ (
          ok tt,
          record core {
            session = s;
            active_events =
                core.active_events
                ++ record {
                  event_id = e.event_id;
                  entry_point = e.entry_point;
                  event_time_ms = e.event_time_ms;
                  fact = handle;
                }
                  ∷ [];
            dedup_event_times = Map.insert e.event_id e.event_time_ms core.dedup_event_times;
          },
        )
      ]

  -- apply_events. A validated event has a fact; without one the source would read through null.
  unfoldable pub apply_events : List (EventEnvelope E) → StepM (Unit {0})
  unfolding insert_one
  apply_events [] core = (ok tt, core)
  apply_events (e ∷ es) core = elim e.fact [
    | none ↦ (err engine, core)
    | some fact ↦
        on_outcome (insert_one e fact core) (λ u core'. apply_events es core')
          (λ x core'. (err x, core'))
  ]

  -- The loop of apply_watermark over the active events: those that stay, and how many go. Where
  -- retract_from throws, the result is none.
  unfoldable pub retain_loop :
      ℤ → List (ActiveEvent E) → Session → Session × Option (List (ActiveEvent E) × ℕ)
  retain_loop limit [] s = (s, some ([], 0))
  retain_loop limit (e ∷ es) s = elim (leb_ℤ e.event_time_ms limit) [
    | true ↦
        let (s', retracted) = E.retract_from e.entry_point e.fact s in
        elim retracted [
          | false ↦ (s', none)
          | true ↦
              let (s'', r) = retain_loop limit es s' in
              (s'', Option.map (λ (k : List (ActiveEvent E) × ℕ). (k.0, k.1 + 1)) r)
        ]
    | false ↦
        let (s', r) = retain_loop limit es s in
        (s', Option.map (λ (k : List (ActiveEvent E) × ℕ). (e ∷ k.0, k.1)) r)
  ]

  -- apply_watermark, with expire_dedup_entries at its end. Where retract_from throws, the source
  -- leaves the active events half moved; they stay whole here.
  unfoldable pub apply_watermark : Config → ℤ → StepM ℕ
  apply_watermark config watermark core =
      let (s, advanced) = E.advance_event_time watermark core.session in
      elim advanced [
        | none ↦ (err engine, record core { session = s })
        | some expired ↦
            let limit = boundary (pos 0) watermark config.event_retention_ms in
            let (s', retained) = retain_loop limit core.active_events s in
            elim retained [
              | none ↦ (err engine, record core { session = s'; watermark_ms = some watermark })
              | some (kept, gone) ↦ (
                ok (expired + gone),
                record core {
                  session = s';
                  watermark_ms = some watermark;
                  active_events = kept;
                  dedup_event_times =
                      expire_entries (boundary (pos 0) watermark config.dedup_retention_ms)
                        core.dedup_event_times;
                },
              )
            ]
      ]

  -- The fact of `lists` that the publication copies: new ones of an output type.
  is_output : Config → ℕ → Fact Fields → Bool
  is_output config first_new fact =
      not (ltb fact.id first_new) && Set.contains fact.type config.output_fact_types

  insert_by_id : Fact Fields → List (Fact Fields) → List (Fact Fields)
  insert_by_id x [] = x ∷ []
  insert_by_id x (y ∷ ys) = if ltb y.id x.id then y ∷ insert_by_id x ys else x ∷ y ∷ ys

  collect_loop : Config → ℕ → List (Fact Fields) → List (Fact Fields)
  unfolding is_output insert_by_id
  collect_loop config first_new [] = []
  collect_loop config first_new (x ∷ xs) =
      let rest = collect_loop config first_new xs in
      if is_output config first_new x then insert_by_id x rest else rest

  -- collect_outputs: sorted by id.
  unfoldable pub collect_outputs : Config → ℕ → Session → List (Fact Fields)
  unfolding collect_loop
  collect_outputs config first_new s = collect_loop config first_new (E.facts_snapshot s)

  unfoldable pub status_of : Session → StepStatus
  status_of s = if E.pending_activation_count s == 0 then committed else drain_required

  -- publish_result.
  unfoldable pub publish_result : ℕ → ℕ → ℕ → Continuous E → Result (StepResult E) × Continuous E
  unfolding status_of
  publish_result rules_fired expired first_new c =
      let outputs = collect_outputs c.config first_new c.core.session in
      let count = length outputs in
      if leb c.config.max_pending_result_batches (length c.pending_batches)
        || ltb c.config.max_pending_results count
        || ltb (c.config.max_pending_results - count) c.metrics.pending_results
      then (err pending_limit, count_limit c)
      else (
        ok (record {
          status = status_of c.core.session;
          batch_id = c.next_batch_id;
          watermark_ms = c.core.watermark_ms;
          rules_fired = rules_fired;
          events_expired = expired;
          outputs = outputs;
        }),
        record c {
          pending_batches =
              c.pending_batches ++ record { id = c.next_batch_id; output_count = count } ∷ [];
          next_batch_id = c.next_batch_id + 1;
          metrics = record (c.metrics) { pending_results = c.metrics.pending_results + count };
        },
      )
