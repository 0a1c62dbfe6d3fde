-- ===== src/Continuous/Runs.antt =====
-- Sequences of requests to a ContinuousSession from its construction on
-- (rulesforge/src/engine/continuous_session.cpp).
use rules_forge.Prelude.{Option, none, some, List, [], ◌∷◌}
use rules_forge.Continuous.{SessionOps, Error}
use rules_forge.Continuous.Defs.{Continuous}
use rules_forge.Continuous.Execute.{Request, request}
use rules_forge.Continuous.Recovery.{IsReplayable}
use rules_forge.Continuous.Atomic.{AfterRequest, request_atomic}

module _ (E : SessionOps) where
  open E use {Session}

  -- The state after requests, whether they throw or not.
  unfoldable pub run : List (Request E) → Continuous E → Continuous E
  run [] c = c
  run (r ∷ rs) c = run rs (request E r c).1

  after-IsReplayable :
      (c : Continuous E) (o : Option Error × Continuous E) → AfterRequest E c o → IsReplayable E o.1
  after-IsReplayable c (none, c') a = a
  after-IsReplayable c (some x, c') a = a.1

  pub request-IsReplayable :
      (r : Request E) (c : Continuous E) → IsReplayable E c → IsReplayable E (request E r c).1
  request-IsReplayable r c v = after-IsReplayable c (request E r c) (request_atomic E r c v)
