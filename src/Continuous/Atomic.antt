-- ===== src/Continuous/Atomic.antt =====
-- About requests that throw (rulesforge/src/engine/continuous_session.cpp), and the log of operations.
use rules_forge.Prelude.{
  ℕ, ◌<◌, ◌≤◌, ◌+◌, ◌≡◌, refl, ◌∙◌, inl, inr, false, Option, none, some, List, [], ◌∷◌, ◌++◌, leb,
  ◌==◌, length, map, arith, String, Bool-cases, Option-cases,
}
use rules_forge.Prelude.Int.{ℤ}
use rules_forge.Continuous.{
  duplicate, Config, SessionOps, Error, Result, ok, err, PendingBatch, on_outcome,
}
use rules_forge.Continuous.Defs.{
  EventEnvelope, Operation, events, watermark, drain, Continuous, StepResult,
}
use rules_forge.Continuous.Steps.{
  is_consistent, count_limit, count_rejection, check_event, check_batch, validate_events,
  validate_loop, publish_result, collect_outputs, clone_envelope,
}
use rules_forge.Continuous.Execute.{
  run_core, record_step, attempt, fresh_core, execute_operation, push_batch, advance_watermark,
  drain_step, acknowledge, create, create_from, is_backwards, acknowledge_front, of_step, of_unit,
  Request, pushes, advances, drains, acknowledges, request,
}
use rules_forge.Continuous.Recovery.{
  Outcome-cases, replay_core, replay_core-append, IsReplayable, Untouched, Thrown, attempt-Thrown,
  execute_failed, recovered,
}

module _ (E : SessionOps) where
  open E use {Session}

  -- What a step that succeeds has done.
  pub record Done (op : Operation E) (c c' : Continuous E) : Type 0 where
    pub counts : ℕ × ℕ
    pub output_count : ℕ
    pub ran : run_core E c.config op c.core ≡ (ok counts, c'.core)
    pub logged : c'.committed_operations ≡ c.committed_operations ++ op ∷ []
    pub same_config : c'.config ≡ c.config
    pub same_mode : c'.replaying ≡ c.replaying
    pub queued :
        c'.pending_batches
        ≡ c.pending_batches ++ record { id = c.next_batch_id; output_count = output_count } ∷ []
    pub next_id : c'.next_batch_id ≡ c.next_batch_id + 1
    pub room : length c.pending_batches < c.config.max_pending_result_batches
    pub counted_results : c'.metrics.pending_results ≡ c.metrics.pending_results + output_count
    pub results_room : c'.metrics.pending_results ≤ c.config.max_pending_results

  pub attempt-Done :
      (op : Operation E) (c c' : Continuous E) (r : StepResult E)
      → attempt E op c ≡ (ok r, c')
      → Done op c c'
  unfolding attempt publish_result record_step
  attempt-Done op c c' r h = elim (Outcome-cases (run_core E c.config op c.core)) [
    | inl (n, mid, e) ↦ record {
      counts = n;
      output_count =
          length (collect_outputs E c.config (E.next_fact_id c.core.session) mid.session);
      ran = ground arith;
      queued = ground arith;
      next_id = ground arith;
      room = ground arith;
      counted_results = ground arith;
      results_room = ground arith;
      logged = ground arith;
      same_config = ground arith;
      same_mode = ground arith;
    }
    | inr (y, mid, e) ↦ ground arith
  ]

  Done-IsReplayable :
      (op : Operation E) (c c' : Continuous E) → IsReplayable E c → Done op c c' → IsReplayable E c'
  Done-IsReplayable op c c' v d = record {
    base = v.base;
    created = v.created;
    replays =
        rw (d.same_config, d.logged)
          (replay_core-append E c.config c.committed_operations op (fresh_core E v.base) c.core
            c'.core d.counts v.replays d.ran);
    settled = d.same_mode ∙ v.settled;
  }

  -- The rejection counters and the count of recoveries do not matter.
  Untouched-IsReplayable :
      (c c' : Continuous E)
      → IsReplayable E c
      → Untouched E c c'
      → c'.replaying ≡ false
      → IsReplayable E c'
  Untouched-IsReplayable c c' v u s = record {
    base = v.base;
    created = v.created;
    replays = rw (u.7, u.1, u.0) v.replays;
    settled = s;
  }

  -- The outcome of a method from a replayable state.
  abbrev Safe : {A : Type 0} → Continuous E → Result A × Continuous E → Type 0
  Safe c (ok a, c') = IsReplayable E c'
  Safe c (err x, c') = Untouched E c c' × IsReplayable E c'

  unchanged : (c : Continuous E) → Untouched E c c
  unchanged c = (refl, refl, refl, refl, refl, refl, refl, refl)

  Untouched-recovered :
      (c c' : Continuous E) → Thrown E c c' → Untouched E c (recovered E c' c.core)
  Untouched-recovered c c' t = (refl, t.1, t.2, t.3, t.4, t.5, t.6, t.0)

  execute-Safe :
      (op : Operation E) (c : Continuous E) → IsReplayable E c → Safe c (execute_operation E op c)
  unfolding execute_operation
  execute-Safe op c v = elim (Outcome-cases (attempt E op c)) [
    | inl (r, c', e) ↦
        rw (e, execute_operation) (Done-IsReplayable op c c' v (attempt-Done op c c' r e))
    | inr (x, c', e) ↦
        let u = Untouched-recovered c c' (attempt-Thrown E op c c' x e) in
        rw (execute_failed E op c c' x v e) (u, Untouched-IsReplayable c _ v u refl)
  ]

  -- Validation changes the rejection counters alone.
  abbrev pub OnlyCounts : Continuous E → Continuous E → Type 0
  OnlyCounts c c' = Untouched E c c' × (c'.replaying ≡ c.replaying)

  pub count_rejection-OnlyCounts :
      (x : Error) (c : Continuous E) → OnlyCounts c (count_rejection E x c)
  unfolding count_rejection
  count_rejection-OnlyCounts duplicate c = (unchanged c, refl)
  count_rejection-OnlyCounts _ c = ((refl, refl, refl, refl, refl, refl, refl, refl), refl)

  validate_loop-OnlyCounts :
      (es : List (EventEnvelope E)) (ids : List String) (c : Continuous E)
      → OnlyCounts c (validate_loop E c ids es).1
  unfolding validate_loop
  validate_loop-OnlyCounts [] ids c = (unchanged c, refl)
  validate_loop-OnlyCounts (e ∷ es) ids c = elim (Option-cases (check_event E c ids e)) [
    | inl p ↦ rw (p, validate_loop) (validate_loop-OnlyCounts es (e.event_id ∷ ids) c)
    | inr (x, p) ↦ rw (p, validate_loop) (count_rejection-OnlyCounts x c)
  ]

  pub validate_events-OnlyCounts :
      (es : List (EventEnvelope E)) (c : Continuous E) → OnlyCounts c (validate_events E es c).1
  unfolding validate_events
  validate_events-OnlyCounts es c = elim (Option-cases (check_batch E es c)) [
    | inl p ↦ rw (p, validate_events) (validate_loop-OnlyCounts es [] c)
    | inr (x, p) ↦ rw (p, validate_events) (count_rejection-OnlyCounts x c)
  ]

  Untouched-trans : (a b c : Continuous E) → Untouched E a b → Untouched E b c → Untouched E a c
  Untouched-trans a b c u v =
      (v.0 ∙ u.0, v.1 ∙ u.1, v.2 ∙ u.2, v.3 ∙ u.3, v.4 ∙ u.4, v.5 ∙ u.5, v.6 ∙ u.6, v.7 ∙ u.7)

  Safe-after :
      {A : Type 0} (c c' : Continuous E) (r : Result A × Continuous E)
      → Untouched E c c'
      → Safe c' r
      → Safe c r
  Safe-after c c' (ok a, d) u s = s
  Safe-after c c' (err x, d) u s = (Untouched-trans c c' d u s.0, s.1)

  push_batch-Safe :
      (es : List (EventEnvelope E)) (c : Continuous E)
      → IsReplayable E c
      → Safe c (push_batch E es c)
  unfolding push_batch
  push_batch-Safe es c v = split (validate_events E es c) (validate_events-OnlyCounts es c)
    where
      split :
          (r : Result (Unit {0}) × Continuous E)
          → OnlyCounts c r.1
          → Safe c (
              on_outcome r
                (λ u c'. execute_operation E (events (map (clone_envelope E) es)) c')
                (λ x c'. (err x, c')))
      split (ok u, c') (o, m) =
          Safe-after c c' _ o (execute-Safe _ c' (Untouched-IsReplayable c c' v o (m ∙ v.settled)))
      split (err x, c') (o, m) = (o, Untouched-IsReplayable c c' v o (m ∙ v.settled))

  refused-Safe :
      (c : Continuous E)
      → IsReplayable E c
      → Untouched E c (count_limit E c) × IsReplayable E (count_limit E c)
  refused-Safe c v =
      let u : Untouched E c (count_limit E c) = (refl, refl, refl, refl, refl, refl, refl, refl) in
      (u, Untouched-IsReplayable c (count_limit E c) v u v.settled)

  advance_watermark-Safe :
      (w : ℤ) (c : Continuous E) → IsReplayable E c → Safe c (advance_watermark E w c)
  unfolding advance_watermark
  advance_watermark-Safe w c v = elim (Bool-cases (is_consistent E c)) [
    | inr f ↦ rw f (unchanged c, v)
    | inl t ↦ rw t (elim (Bool-cases (is_backwards E c.core.watermark_ms w)) [
      | inl back ↦ rw back (unchanged c, v)
      | inr on ↦
          rw on (elim (Bool-cases (leb c.config.max_replay_steps (length c.committed_operations))) [
            | inl full ↦ rw full (refused-Safe c v)
            | inr room ↦ rw room (execute-Safe (watermark w) c v)
          ])
    ])
  ]

  drain_step-Safe : (c : Continuous E) → IsReplayable E c → Safe c (drain_step E c)
  unfolding drain_step
  drain_step-Safe c v = elim (Bool-cases (is_consistent E c)) [
    | inr f ↦ rw f (unchanged c, v)
    | inl t ↦
        rw t (elim (Bool-cases (leb c.config.max_replay_steps (length c.committed_operations))) [
          | inl full ↦ rw full (refused-Safe c v)
          | inr room ↦ rw room (execute-Safe drain c v)
        ])
  ]

  acknowledge_front-Safe :
      (id : ℕ) (bs : List PendingBatch) (c : Continuous E)
      → IsReplayable E c
      → Safe c (acknowledge_front E id bs c)
  unfolding acknowledge_front
  acknowledge_front-Safe id [] c v = (unchanged c, v)
  acknowledge_front-Safe id (b ∷ bs) c v = elim (Bool-cases (b.id == id)) [
    | inl t ↦
        rw t
          (record { base = v.base; created = v.created; replays = v.replays; settled = v.settled })
    | inr f ↦ rw f (unchanged c, v)
  ]

  abbrev pub AfterRequest : Continuous E → Option Error × Continuous E → Type 0
  AfterRequest c (none, c') = IsReplayable E c'
  AfterRequest c (some x, c') = Untouched E c c' × IsReplayable E c'

  of_step-AfterRequest :
      (c : Continuous E) (r : Result (StepResult E) × Continuous E)
      → Safe c r
      → AfterRequest c (of_step E r)
  of_step-AfterRequest c (ok a, c') s = s
  of_step-AfterRequest c (err x, c') s = s

  of_unit-AfterRequest :
      (c : Continuous E) (r : Result (Unit {0}) × Continuous E)
      → Safe c r
      → AfterRequest c (of_unit E r)
  of_unit-AfterRequest c (ok a, c') s = s
  of_unit-AfterRequest c (err x, c') s = s

  -- From a state that its log explains, a request of any kind leaves such a state; and if it
  -- throws, the core (session, watermark, active events, dedup table), the log, the pending
  -- batches, the next batch id, and the counts of accepted, expired and pending are as before.
  pub request_atomic :
      (r : Request E) (c : Continuous E) → IsReplayable E c → AfterRequest c (request E r c)
  unfolding request acknowledge
  request_atomic (pushes es) c v = of_step-AfterRequest c _ (push_batch-Safe es c v)
  request_atomic (advances w) c v = of_step-AfterRequest c _ (advance_watermark-Safe w c v)
  request_atomic drains c v = of_step-AfterRequest c _ (drain_step-Safe c v)
  request_atomic (acknowledges id) c v =
      of_unit-AfterRequest c _ (acknowledge_front-Safe id c.pending_batches c v)

  create_from-IsReplayable :
      (config : Config) (c : Continuous E) (o : Option Session)
      → E.create_session ≡ o
      → create_from E config o ≡ some c
      → IsReplayable E c
  unfolding create_from replay_core
  create_from-IsReplayable config c none e h = cc
  create_from-IsReplayable config c (some s) e h = record {
    base = s;
    created = e;
    replays = ground arith;
    settled = ground arith;
  }

  -- A new session's state is explained by its empty log.
  pub create-IsReplayable :
      (config : Config) (c : Continuous E) → create E config ≡ some c → IsReplayable E c
  unfolding create
  create-IsReplayable config c h =
      ground (arith, create_from-IsReplayable config c E.create_session refl)
