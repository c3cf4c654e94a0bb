-- ===== src/Controller/Failure.antt =====
-- The Provisioning condition: reportProvisioningCondition of
-- internal/controller/squall/model_controller.go. Of strings.ToLower there is what can give an ASCII
-- letter, since all texts that are looked for are ASCII.
pub mod Pace
use Prim.Native.Char.{code}
use Prim.Native.String.{String, ◌++◌ as ◌++ₛ◌}
use squall.Common.{
  lower, text_contains, trim_space, ℕ, ◌+◌, ◌≤◌, Bool, true, false, not, ◌&&◌, ◌||◌, Option, none,
  some, List, [], ◌∷◌, ◌==◌, leb, str_eq, if◌then◌else◌, Text, codes, map,
}
use squall.Api.{
  ModelStatus, ModelPhase, ready, Condition, Reason, provisioning, is_true, is_false, provisioned,
  provisioning_failed, hard_stop_fired, insufficient_credit, backend_rate_limited, no_capacity,
}
use squall.Api.Conditions.{ConditionOps, same_status}
use squall.Dstack.{ProvisioningFailure}

abbrev detail_of : ProvisioningFailure → String
unfolding trim_space
detail_of f = if str_eq (trim_space f.message) "" then f.reason else trim_space f.message

-- The reason that the text of a failure is read as.
unfoldable pub reason_of : ProvisioningFailure → Reason
unfolding text_contains lower detail_of
reason_of f =
    let text = map lower (codes (f.reason ++ₛ (" " ++ₛ detail_of f))) in
    if text_contains text (codes "max_duration")
    then hard_stop_fired
    else if text_contains text (codes "insufficient_credit")
        || text_contains text (codes "insufficient credit")
    then insufficient_credit
    else if text_contains text (codes "429")
        || text_contains text (codes "too many requests")
        || text_contains text (codes "rate limit")
    then backend_rate_limited
    else if text_contains text (codes "no_capacity") || text_contains text (codes "no capacity")
    then no_capacity
    else provisioning_failed

unfoldable pub message_of : ProvisioningFailure → String
unfolding detail_of
message_of f = "dstack run " ++ₛ (f.run_id ++ₛ (": " ++ₛ detail_of f))

-- A different failure than the one on record.
abbrev pub is_news : Option Condition → String → Bool
is_news none message = false
is_news (some c) message = same_status c.status is_false && not (str_eq c.message message)

abbrev is_ready : ModelPhase → Bool
is_ready ready = true
is_ready _ = false

abbrev pub failure_condition : ProvisioningFailure → ℕ → Condition
unfolding reason_of message_of
failure_condition f now = record {
  type = provisioning;
  status = is_false;
  reason = reason_of f;
  message = message_of f;
  last_transition_time = now;
}

abbrev provisioned_condition : Condition
provisioned_condition = record {
  type = provisioning;
  status = is_true;
  reason = provisioned;
  message = "";
  last_transition_time = 0;
}

report_failure : ConditionOps → ℕ → ModelStatus → ProvisioningFailure → ℕ → ModelStatus
unfolding reason_of message_of failure_condition
report_failure meta wall status f now =
    let kept =
      if is_news (meta.find status.conditions provisioning) (message_of f)
      then meta.remove status.conditions provisioning
      else status.conditions in
    record status { conditions = meta.set wall kept (failure_condition f now) }

-- `wall` is the clock that SetStatusCondition reads.
unfoldable pub report_provisioning_condition :
    ConditionOps → ℕ → ModelStatus → Option ProvisioningFailure → ModelPhase → ℕ → ModelStatus
unfolding report_failure
report_provisioning_condition meta wall status none phase now =
    if is_ready phase
    then record status { conditions = meta.set wall status.conditions provisioned_condition }
    else status
report_provisioning_condition meta wall status (some f) phase now =
    report_failure meta wall status f now
