-- ===== src/Continuous/Watermark.antt =====
-- About advance_watermark and apply_watermark of rulesforge/src/engine/continuous_session.cpp.
use mathlib.Core.Path.{subst}
use rules_forge.Prelude.{
  ℕ, ◌≡◌, ◌∙◌, sym, refl, inl, inr, false, Option, none, some, List, [], ◌∷◌, arith, Bool-cases,
  Option-cases, String, map, All, ap,
}
use rules_forge.Prelude.Int.{ℤ, pos, ◌≤ℤ◌, leb_ℤ}
use rules_forge.Prelude.Map.{Map}
use rules_forge.Continuous.{Config, SessionOps, Result, ok, err, PendingBatch}
use rules_forge.Continuous.Defs.{
  boundary, EventEnvelope, Operation, events, watermark, drain, ActiveEvent, Core, Continuous,
  StepResult,
}
use rules_forge.Continuous.Steps.{
  validate_events, clone_envelope, insert_one, apply_events, apply_watermark, retain_loop,
  expire_entries,
}
use rules_forge.Continuous.Execute.{
  run_core, apply, fire_step, attempt, execute_operation, push_batch, advance_watermark, drain_step,
  is_backwards, acknowledge, acknowledge_front, Request, pushes, advances, drains, acknowledges,
  request, of_step, of_unit,
}
use rules_forge.Continuous.Recovery.{Outcome-cases, IsReplayable, execute_failed}
use rules_forge.Continuous.Atomic.{Done, attempt-Done, AfterRequest, request_atomic}
use rules_forge.Continuous.Bounds.{validate_events-ok}

-- The first watermark may be anything, a later one is at least the one before.
abbrev pub NotBack : Option ℤ → Option ℤ → Type 0
NotBack none after = Unit {0}
NotBack (some w) none = ⊥
NotBack (some w) (some w') = w ≤ℤ w'

pub NotBack-refl : (o : Option ℤ) → NotBack o o
NotBack-refl none = tt
NotBack-refl (some w) = omega arith

NotBack-advance :
    (E : SessionOps) (o : Option ℤ) (w : ℤ) → is_backwards E o w ≡ false → NotBack o (some w)
unfolding is_backwards
NotBack-advance E none w h = tt
NotBack-advance E (some v) w h = ground arith

-- Every item of a table is after the limit.
abbrev pub After : ℤ → ℤ → Type 0
After limit time = leb_ℤ time limit ≡ false

expire_entries-After :
    (limit : ℤ) (m : Map String ℤ)
    → All (λ (kv : String × ℤ). After limit kv.1) (expire_entries limit m)
unfolding expire_entries
expire_entries-After limit [] = tt
expire_entries-After limit ((id, time) ∷ m) = elim (Bool-cases (leb_ℤ time limit)) [
  | inl t ↦ rw t (expire_entries-After limit m)
  | inr t ↦ rw t (t, expire_entries-After limit m)
]

module _ (E : SessionOps) where
  open E use {Session}

  apply_events-watermark :
      (es : List (EventEnvelope E)) (core core' : Core E) (u : Unit {0})
      → apply_events E es core ≡ (ok u, core')
      → core'.watermark_ms ≡ core.watermark_ms
  unfolding apply_events insert_one
  apply_events-watermark [] core core' u h = ground arith
  apply_events-watermark (e ∷ es) core core' u h = elim (Option-cases e.fact) [
    | inl n ↦ absurd (ground arith)
    | inr (fact, n) ↦ elim (Outcome-cases (insert_one E e fact core)) [
      | inl (v, mid, i) ↦
          let rest = apply_events-watermark es mid core' u (ground arith) in
          let one : mid.watermark_ms ≡ core.watermark_ms = ground arith in rest ∙ one
      | inr (x, mid, i) ↦ absurd (ground arith)
    ]
  ]

  retain_loop-After :
      (limit : ℤ) (es : List (ActiveEvent E)) (s : Session) (r : List (ActiveEvent E) × ℕ)
      → (retain_loop E limit es s).1 ≡ some r
      → All (λ (e : ActiveEvent E). After limit e.event_time_ms) r.0
  unfolding retain_loop
  retain_loop-After limit [] s r h = let e : r.0 ≡ [] = ground arith in rw e tt
  retain_loop-After limit (e ∷ es) s r h = elim (Bool-cases (leb_ℤ e.event_time_ms limit)) [
    | inl t ↦ elim (Bool-cases (E.retract_from e.entry_point e.fact s).1) [
      | inr f ↦ absurd (ground arith)
      | inl g ↦
          elim (Option-cases (retain_loop E limit es (E.retract_from e.entry_point e.fact s).0).1) [
            | inl n ↦ absurd (ground arith)
            | inr (k, n) ↦
                let same : r.0 ≡ k.0 = ground arith in
                rw same (retain_loop-After limit es (E.retract_from e.entry_point e.fact s).0 k n)
          ]
    ]
    | inr t ↦ elim (Option-cases (retain_loop E limit es s).1) [
      | inl n ↦ absurd (ground arith)
      | inr (k, n) ↦
          let same : r.0 ≡ e ∷ k.0 = ground arith in rw same (t, retain_loop-After limit es s k n)
    ]
  ]

  -- What an applied watermark leaves in the core.
  pub record Advanced (config : Config) (w : ℤ) (core : Core E) : Type 0 where
    pub now : core.watermark_ms ≡ some w
    pub retained :
        All
          (λ (e : ActiveEvent E).
            After (boundary (pos 0) w config.event_retention_ms) e.event_time_ms)
          core.active_events
    pub remembered :
        All
          (λ (kv : String × ℤ). After (boundary (pos 0) w config.dedup_retention_ms) kv.1)
          core.dedup_event_times

  apply_watermark-Advanced :
      (config : Config) (w : ℤ) (core core' : Core E) (n : ℕ)
      → apply_watermark E config w core ≡ (ok n, core')
      → Advanced config w core'
  unfolding apply_watermark
  apply_watermark-Advanced config w core core' n h =
      elim (Option-cases (E.advance_event_time w core.session).1) [
        | inl a ↦ absurd (ground arith)
        | inr (expired, a) ↦
            elim (Option-cases
              (retain_loop E (boundary (pos 0) w config.event_retention_ms) core.active_events
                (E.advance_event_time w core.session).0).1) [
                  | inl b ↦ absurd (ground arith)
                  | inr (r, b) ↦
                      let kept : core'.active_events ≡ r.0 = ground arith in
                      let rest : core'.dedup_event_times
                          ≡ expire_entries (boundary (pos 0) w config.dedup_retention_ms)
                              core.dedup_event_times =
                        ground arith in
                      record {
                        now = ground arith;
                        retained = rw kept (retain_loop-After _ core.active_events _ r b);
                        remembered = rw rest (expire_entries-After _ core.dedup_event_times);
                      }
                ]
      ]

  run_core-watermark :
      (config : Config) (op : Operation E) (core core' : Core E) (counts : ℕ × ℕ)
      → run_core E config op core ≡ (ok counts, core')
      → (n : ℕ) × (mid : Core E) × (apply E config op core ≡ (ok n, mid))
        × (core'.watermark_ms ≡ mid.watermark_ms)
        × (core'.active_events ≡ mid.active_events)
        × (core'.dedup_event_times ≡ mid.dedup_event_times)
  unfolding run_core fire_step
  run_core-watermark config op core core' counts h = elim (Outcome-cases (apply E config op core)) [
    | inr (x, mid, a) ↦ absurd (ground arith)
    | inl (n, mid, a) ↦ (n, mid, a, ground arith, ground arith, ground arith)
  ]

  execute_ok :
      (op : Operation E) (c c' : Continuous E) (r : StepResult E)
      → IsReplayable E c
      → execute_operation E op c ≡ (ok r, c')
      → Done E op c c'
  unfolding execute_operation
  execute_ok op c c' r v h = elim (Outcome-cases (attempt E op c)) [
    | inl (s, after, a) ↦ attempt-Done E op c c' s (ground arith)
    | inr (x, after, a) ↦ let f = execute_failed E op c after x v a in absurd (ground arith)
  ]

  push_batch-watermark :
      (es : List (EventEnvelope E)) (c c' : Continuous E) (r : StepResult E)
      → IsReplayable E c
      → push_batch E es c ≡ (ok r, c')
      → c'.core.watermark_ms ≡ c.core.watermark_ms
  unfolding push_batch apply
  push_batch-watermark es c c' r v h = elim (Outcome-cases (validate_events E es c)) [
    | inr (x, mid, e) ↦ absurd (ground arith)
    | inl (u, mid, e) ↦
        let same = (validate_events-ok E es c mid u e).0 in
        let d = execute_ok (events (map (clone_envelope E) es)) c c' r v (ground arith) in
        let (n, next, a, w, y, z) = run_core-watermark c.config _ c.core c'.core d.counts d.ran in
        elim (Outcome-cases (apply_events E (map (clone_envelope E) es) c.core)) [
          | inl (v', k, b) ↦ let k' = apply_events-watermark _ c.core k v' b in ground arith
          | inr (x, k, b) ↦ absurd (ground arith)
        ]
  ]

  advance_ok :
      (w : ℤ) (c c' : Continuous E) (r : StepResult E)
      → IsReplayable E c
      → advance_watermark E w c ≡ (ok r, c')
      → (is_backwards E c.core.watermark_ms w ≡ false) × Advanced c.config w c'.core
  unfolding advance_watermark apply
  advance_ok w c c' r v h = elim (Bool-cases (is_backwards E c.core.watermark_ms w)) [
    | inl back ↦ absurd (ground arith)
    | inr on ↦
        let d = execute_ok (watermark w) c c' r v (ground arith) in
        let (n, next, a, x, y, z) = run_core-watermark c.config _ c.core c'.core d.counts d.ran in
        let s = apply_watermark-Advanced c.config w c.core next n a in
        (on, record { now = x ∙ s.now; retained = rw y s.retained; remembered = rw z s.remembered })
  ]

  -- An advance that is accepted does not go back; then the watermark is the given one, and every
  -- active event and every remembered id is past its retention boundary.
  pub advance_watermark_lem :
      (w : ℤ) (c c' : Continuous E) (r : StepResult E)
      → IsReplayable E c
      → advance_watermark E w c ≡ (ok r, c')
      → NotBack c.core.watermark_ms (some w) × Advanced c.config w c'.core
  advance_watermark_lem w c c' r v h =
      let a = advance_ok w c c' r v h in (NotBack-advance E c.core.watermark_ms w a.0, a.1)

  drain_ok :
      (c c' : Continuous E) (r : StepResult E)
      → IsReplayable E c
      → drain_step E c ≡ (ok r, c')
      → c'.core.watermark_ms ≡ c.core.watermark_ms
  unfolding drain_step apply
  drain_ok c c' r v h =
      let d = execute_ok drain c c' r v (ground arith) in
      let (n, next, a, x, y, z) = run_core-watermark c.config _ c.core c'.core d.counts d.ran in
      ground arith

  of_step-NotBack :
      (c : Continuous E) (res : Result (StepResult E) × Continuous E)
      → AfterRequest E c (of_step E res)
      → ((r : StepResult E) (c' : Continuous E)
          → res ≡ (ok r, c')
          → NotBack c.core.watermark_ms c'.core.watermark_ms)
      → NotBack c.core.watermark_ms (of_step E res).1.core.watermark_ms
  of_step-NotBack c (ok r, c') s f = f r c' refl
  of_step-NotBack c (err x, c') s f =
      rw (ap (λ (k : Core E). k.watermark_ms) s.0.0) (NotBack-refl c.core.watermark_ms)

  acknowledge-watermark :
      (id : ℕ) (bs : List PendingBatch) (c : Continuous E)
      → (of_unit E (acknowledge_front E id bs c)).1.core.watermark_ms ≡ c.core.watermark_ms
  unfolding acknowledge_front
  acknowledge-watermark id [] c = refl
  acknowledge-watermark id (b ∷ bs) c = ground arith

  -- No request moves the watermark back, whether it returns or throws.
  pub request-NotBack :
      (r : Request E) (c : Continuous E)
      → IsReplayable E c
      → NotBack c.core.watermark_ms (request E r c).1.core.watermark_ms
  unfolding request acknowledge
  request-NotBack (pushes es) c v =
      of_step-NotBack c _ (request_atomic E (pushes es) c v)
        (λ r c' e. rw (push_batch-watermark es c c' r v e) (NotBack-refl c.core.watermark_ms))
  request-NotBack (advances w) c v =
      of_step-NotBack c _ (request_atomic E (advances w) c v) (λ r c' e.
        let a = advance_watermark_lem w c c' r v e in
        subst (λ o. NotBack c.core.watermark_ms o) (sym a.1.now) a.0)
  request-NotBack drains c v =
      of_step-NotBack c _ (request_atomic E drains c v)
        (λ r c' e. rw (drain_ok c c' r v e) (NotBack-refl c.core.watermark_ms))
  request-NotBack (acknowledges id) c v =
      rw (acknowledge-watermark id c.pending_batches c) (NotBack-refl c.core.watermark_ms)
