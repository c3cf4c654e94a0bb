-- ===== src/Proxy/Decision.antt =====
-- The decision table of internal/proxy/decision.go and the classification of one forwarding attempt
-- in internal/proxy/attempt.go. A request for a Model that the cache does not know has no phase.
-- The JSON decoding of a 404's body is the caller's: `detail` is its string-typed "detail" field.
pub mod Table
use squall.Common.{
  ℕ, Bool, true, false, ◌&&◌, ◌||◌, not, Option, none, some, String, ◌==◌, if◌then◌else◌, is_none,
  starts_with, ends_with,
}
use squall.Api.{ModelPhase, unset, asleep, waking, ready, draining, recreating, dead}

pub data WaitState : Type 0 where
  no_state wait_asleep wait_waking wait_recreating : WaitState

pub record Action : Type 0 where
  pub forward : Bool
  pub block : Bool
  pub demand_patch : Bool
  pub immediate_status : ℕ
  pub deadline_status : ℕ
  pub deadline_state : WaitState
  pub alarm : Bool

-- Action{}.
abbrev no_action : Action
no_action = record {
  forward = false;
  block = false;
  demand_patch = false;
  immediate_status = 0;
  deadline_status = 0;
  deadline_state = no_state;
  alarm = false;
}

abbrev hold_for : WaitState → Action
hold_for s = record no_action {
  demand_patch = true;
  block = true;
  deadline_status = 503;
  deadline_state = s;
}

abbrev decide_phase : ModelPhase → ℕ → Action
decide_phase ready gateway_code =
    if gateway_code == 403
    then record no_action { alarm = true; immediate_status = 502 }
    else record no_action { forward = true }
decide_phase asleep gateway_code = hold_for wait_asleep
decide_phase waking gateway_code = hold_for wait_waking
decide_phase recreating gateway_code = hold_for wait_recreating
decide_phase dead gateway_code = hold_for wait_recreating
decide_phase draining gateway_code = record no_action { immediate_status = 404 }
decide_phase unset gateway_code = record no_action { immediate_status = 404 }

-- Decide.
unfoldable pub decide : ModelPhase → Bool → ℕ → Action
decide phase has_cr gateway_code =
    if not has_cr
    then record no_action { immediate_status = 404 }
    else decide_phase phase gateway_code

pub data AttemptResult : Type 0 where
  attempt_retry attempt_commit : AttemptResult

-- isDstackServiceNotFound, over the decoded "detail"; `none` is a body that does not decode.
unfoldable pub is_dstack_service_not_found : Option String → Bool
is_dstack_service_not_found none = false
is_dstack_service_not_found (some detail) =
    starts_with detail "Service " && ends_with detail " not found"

abbrev pub retry_phase : ModelPhase → AttemptResult
retry_phase asleep = attempt_retry
retry_phase waking = attempt_retry
retry_phase recreating = attempt_retry
retry_phase dead = attempt_retry
retry_phase _ = attempt_commit

-- classifyAttempt; `none` is a transport error.
unfoldable pub classify_attempt : Option ℕ → ModelPhase → Option String → AttemptResult
unfolding is_dstack_service_not_found
classify_attempt none phase detail = attempt_retry
classify_attempt (some status) phase detail =
    if status == 502 || status == 503
    then attempt_retry
    else if status == 404
    then (if is_dstack_service_not_found detail then attempt_retry else retry_phase phase)
    else attempt_commit
