-- ===== src/Continuous/Admission.antt =====
-- About the events that validate_events of rulesforge/src/engine/continuous_session.cpp
-- accepts: their times against the watermark, and their ids.
use rules_forge.Prelude.{
  ℕ, ◌≡◌, ◌≢◌, inl, inr, true, none, List, [], ◌∷◌, arith, Option-cases, String, map, All, All-map,
  is_some, ap,
}
use rules_forge.Prelude.Eq.{string_eq}
use rules_forge.Prelude.Map.{find-insert}
use rules_forge.Prelude.Map
use rules_forge.Continuous.{Config, SessionOps, ok, Fact}
use rules_forge.Continuous.Defs.{EventEnvelope, events, Core, Continuous, StepResult}
use rules_forge.Continuous.Steps.{
  check_event, validate_loop, validate_events, clone_envelope, insert_one, apply_events,
}
use rules_forge.Continuous.Execute.{
  run_core, apply, fire_step, attempt, execute_operation, push_batch,
}
use rules_forge.Continuous.Recovery.{Outcome-cases, IsReplayable, execute_failed}
use rules_forge.Continuous.Atomic.{attempt-Done}
use rules_forge.Continuous.Bounds.{validate_events-ok}

module _ (E : SessionOps) where
  open E use {Session}

  -- The id of an event is not among those that the table remembers.
  abbrev IsNew : Continuous E → EventEnvelope E → Type 0
  IsNew c e = Map.find e.event_id c.core.dedup_event_times ≡ none

  validate_loop-IsNew :
      (es : List (EventEnvelope E)) (ids : List String) (c c' : Continuous E) (u : Unit {0})
      → validate_loop E c ids es ≡ (ok u, c')
      → All (IsNew c) es
  unfolding validate_loop check_event
  validate_loop-IsNew [] ids c c' u h = tt
  validate_loop-IsNew (e ∷ es) ids c c' u h = elim (Option-cases (check_event E c ids e)) [
    | inl p ↦ (
      ground arith,
      validate_loop-IsNew es (e.event_id ∷ ids) c c' u (rw (p, validate_loop) at h),
    )
    | inr (x, p) ↦ absurd (ground arith)
  ]

  -- An id that the table of a core remembers.
  abbrev Remembers : Core E → String → Type 0
  Remembers core id = is_some (Map.find id core.dedup_event_times) ≡ true

  insert_one-Remembers :
      (e : EventEnvelope E) (fact : Fact E.Fields) (core core' : Core E) (u : Unit {0})
      → insert_one E e fact core ≡ (ok u, core')
      → Remembers core' e.event_id × ((id : String) → Remembers core id → Remembers core' id)
  unfolding insert_one
  insert_one-Remembers e fact core core' u h = (
    ground (
      arith,
      find-insert e.event_id e.event_id e.event_time_ms core.dedup_event_times,
      string_eq.beq_iff e.event_id e.event_id,
    ),
    λ id r. ground (arith, find-insert e.event_id id e.event_time_ms core.dedup_event_times),
  )

  apply_events-Remembers :
      (es : List (EventEnvelope E)) (core core' : Core E) (u : Unit {0})
      → apply_events E es core ≡ (ok u, core')
      → All (λ e. Remembers core' e.event_id) es
        × ((id : String) → Remembers core id → Remembers core' id)
  unfolding apply_events
  apply_events-Remembers [] core core' u h = (tt, λ id r. ground arith)
  apply_events-Remembers (e ∷ es) core core' u h = elim (Option-cases e.fact) [
    | inl n ↦ absurd (ground arith)
    | inr (fact, n) ↦ elim (Outcome-cases (insert_one E e fact core)) [
      | inr (x, mid, i) ↦ absurd (ground arith)
      | inl (v, mid, i) ↦
          let one = insert_one-Remembers e fact core mid v i in
          let rest = apply_events-Remembers es mid core' u (ground arith) in
          ((rest.1 e.event_id one.0, rest.0), λ id r. rest.1 id (one.1 id r))
    ]
  ]

  -- Firing rules leaves the table alone.
  run_core-Remembers :
      (config : Config) (es : List (EventEnvelope E)) (core core' : Core E) (counts : ℕ × ℕ)
      → run_core E config (events es) core ≡ (ok counts, core')
      → All (λ e. Remembers core' e.event_id) es
  unfolding run_core apply fire_step
  run_core-Remembers config es core core' counts h = elim (Outcome-cases (apply_events E es core)) [
    | inr (x, mid, a) ↦ absurd (ground arith)
    | inl (u, mid, a) ↦
        let r = (apply_events-Remembers es core mid u a).0 in
        let same : core'.dedup_event_times ≡ mid.dedup_event_times = ground arith in
        All-map _ _ (λ e k. rw same k) es r
  ]

  All-clones :
      (P : String → Type 0) (es : List (EventEnvelope E))
      → All (λ e. P e.event_id) (map (clone_envelope E) es)
      → All (λ e. P e.event_id) es
  unfolding clone_envelope
  All-clones P [] a = tt
  All-clones P (e ∷ es) a = (a.0, All-clones P es a.1)

  -- An accepted push remembers the ids of all its events.
  push_batch-Remembers :
      (es : List (EventEnvelope E)) (c c' : Continuous E) (r : StepResult E)
      → IsReplayable E c
      → push_batch E es c ≡ (ok r, c')
      → All (λ e. Remembers c'.core e.event_id) es
  unfolding push_batch execute_operation
  push_batch-Remembers es c c' r v h = elim (Outcome-cases (validate_events E es c)) [
    | inr (x, mid, e) ↦ absurd (ground arith)
    | inl (u, mid, e) ↦
        let same = (validate_events-ok E es c mid u e).0 in
        elim (Outcome-cases (attempt E (events (map (clone_envelope E) es)) c)) [
          | inl (s, after, a) ↦
              let d = attempt-Done E _ c after s a in
              let end : c' ≡ after = ground arith in
              rw end (
                All-clones (Remembers after.core) es
                  (run_core-Remembers c.config _ c.core after.core d.counts d.ran))
          | inr (x, after, a) ↦ let f = execute_failed E _ c after x v a in absurd (ground arith)
        ]
  ]

  push_batch-IsNew :
      (es : List (EventEnvelope E)) (c c' : Continuous E) (r : StepResult E)
      → push_batch E es c ≡ (ok r, c')
      → All (IsNew c) es
  unfolding push_batch
  push_batch-IsNew es c c' r h = elim (Outcome-cases (validate_events E es c)) [
    | inr (x, mid, e) ↦ absurd (ground arith)
    | inl (u, mid, e) ↦ validate_loop-IsNew es [] c mid u (validate_events-ok E es c mid u e).2
  ]

  differ :
      (c : Continuous E) (id : String) (es : List (EventEnvelope E))
      → Remembers c.core id
      → All (IsNew c) es
      → All (λ e. id ≢ e.event_id) es
  differ c id [] r n = tt
  differ c id (e ∷ es) r n = (
    λ q. cc (ap (λ k. is_some (Map.find k c.core.dedup_event_times)) q, n.0),
    differ c id es r n.1,
  )

  -- Of two pushes in a row that are both accepted, no event of the second carries an id of the
  -- first: an event id is accepted at most once.
  pub push_batch_once :
      (es later : List (EventEnvelope E)) (c c₁ c₂ : Continuous E) (r₁ r₂ : StepResult E)
      → IsReplayable E c
      → push_batch E es c ≡ (ok r₁, c₁)
      → push_batch E later c₁ ≡ (ok r₂, c₂)
      → All
          (λ (e : EventEnvelope E). All (λ (e' : EventEnvelope E). e.event_id ≢ e'.event_id) later)
          es
  push_batch_once es later c c₁ c₂ r₁ r₂ v h k =
      All-map _ _ (λ e r. differ c₁ e.event_id later r (push_batch-IsNew later c₁ c₂ r₂ k)) es
        (push_batch-Remembers es c c₁ r₁ v h)
