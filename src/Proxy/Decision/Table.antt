-- ===== src/Proxy/Decision/Table.antt =====
-- The laws of the decision table of decision.go, and of classifyAttempt of attempt.go.
use squall.Common.{ℕ, ◌≡◌, ◌≢◌, ◌↔◌, ◌⊎◌, Bool, true, false, Option, some, String, arith}
use squall.Api.{ModelPhase, unset, ready, draining}
use squall.Proxy.Decision.{
  Action, decide, classify_attempt, attempt_retry, attempt_commit, no_state,
  is_dstack_service_not_found,
}

-- The action's three ways to answer a request.
abbrev pub Forwards : Action → Type 0
Forwards a = (a.forward ≡ true) × (a.block ≡ false) × (a.immediate_status ≡ 0)

abbrev pub HoldsOpen : Action → Type 0
HoldsOpen a =
    (a.forward ≡ false)
    × (a.block ≡ true)
    × (a.immediate_status ≡ 0)
    × (a.deadline_status ≡ 503)
    × (a.deadline_state ≢ no_state)

abbrev pub AnswersNow : Action → Type 0
AnswersNow a = (a.forward ≡ false) × (a.block ≡ false) × (a.immediate_status ≢ 0)

-- Exactly one of forwarding, holding and answering at once applies in every row; only a held request
-- patches demand, holding always says with which state it ends, and only a Ready Model is forwarded to.
pub decide_answers :
    (phase : ModelPhase) (has_cr : Bool) (code : ℕ)
    → let a = decide phase has_cr code in
      ((Forwards a × (phase ≡ ready) × (has_cr ≡ true)) ⊎ HoldsOpen a ⊎ AnswersNow a)
      × (a.demand_patch ≡ a.block)
unfolding decide
decide_answers phase has_cr code = ground arith

-- Retry and hold stay in lockstep: with a Model that exists, a 404 which is not dstack's own is
-- retried exactly in the phases in which Decide holds a request.
pub classify-decide_lockstep :
    (phase : ModelPhase) (code : ℕ) (detail : Option String)
    → is_dstack_service_not_found detail ≡ false
    → (classify_attempt (some 404) phase detail ≡ attempt_retry)
      ↔ ((decide phase true code).block ≡ true)
unfolding decide classify_attempt
classify-decide_lockstep phase code detail h = ground arith

-- A committed attempt is an answer of the engine: never a transport error, a 502 or a 503, nor
-- dstack's own 404, and a 404 at all only in a phase that is not coming up.
pub classify_commit :
    (status : ℕ) (phase : ModelPhase) (detail : Option String)
    → classify_attempt (some status) phase detail ≡ attempt_commit
    → (status ≢ 502)
      × (status ≢ 503)
      × (status ≡ 404
          → (is_dstack_service_not_found detail ≡ false)
            × ((phase ≡ ready) ⊎ (phase ≡ draining) ⊎ (phase ≡ unset)))
unfolding classify_attempt
classify_commit status phase detail h = ground arith
