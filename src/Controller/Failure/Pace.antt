-- ===== src/Controller/Failure/Pace.antt =====
-- How a failure that is put on record paces the next wake.
use squall.Common.{
  true, ◌+◌, String, ℕ, ◌≡◌, ◌≢◌, inl, inr, ap, ◌∙◌, false, Option, none, some, arith, Bool-cases,
  eq_iff,
}
use squall.Api.{ModelStatus, ModelPhase, Condition, provisioning, is_false}
use squall.Api.Conditions.{ConditionOps, stamped}
use squall.Dstack.{ProvisioningFailure}
use squall.Controller.Phase.{backoff_of, backoff_reasons, provisioning_retry_backoff}
use squall.Controller.Failure.{
  reason_of, message_of, is_news, failure_condition, report_failure, report_provisioning_condition,
}

-- The condition on record is already about this failure.
abbrev pub IsKnown : Option Condition → String → Type 0
IsKnown none message = ⊥
IsKnown (some c) message = (c.status ≡ is_false) × (c.message ≡ message)

stamped-none :
    (wall now : ℕ) (f : ProvisioningFailure)
    → now ≢ 0
    → stamped wall none (failure_condition f now) ≡ failure_condition f now
unfolding failure_condition
stamped-none wall now f n = ground (arith, n)

stamped-now :
    (o : Option Condition) (wall now : ℕ) (f : ProvisioningFailure)
    → now ≢ 0
    → ¬ IsKnown o (message_of f)
    → is_news o (message_of f) ≡ false
    → stamped wall o (failure_condition f now) ≡ failure_condition f now
unfolding failure_condition
stamped-now none wall now f n k h = ground (arith, n)
stamped-now (some c) wall now f n k h = ground (arith, n, k, h, eq_iff c.message (message_of f))

-- A failure that is news leaves a condition that carries its own reason and this pass's instant,
-- also where another failure was on record.
pub find-report_failure :
    (meta : ConditionOps) (wall : ℕ) (status : ModelStatus) (f : ProvisioningFailure)
    (phase : ModelPhase) (now : ℕ)
    → now ≢ 0
    → ¬ IsKnown (meta.find status.conditions provisioning) (message_of f)
    → meta.find
        (report_provisioning_condition meta wall status (some f) phase now).conditions
        provisioning
      ≡ some (failure_condition f now)
unfolding report_provisioning_condition report_failure failure_condition
find-report_failure meta wall status f phase now n k =
    elim (Bool-cases (is_news (meta.find status.conditions provisioning) (message_of f))) [
      | inl e ↦ rw e (
          meta.find-set wall (meta.remove status.conditions provisioning) (failure_condition f now)
            provisioning
          ∙ ap (λ o. some (stamped wall o (failure_condition f now)))
              (meta.find-remove status.conditions provisioning provisioning)
          ∙ ap some (stamped-none wall now f n))
      | inr e ↦ rw e (
          meta.find-set wall status.conditions (failure_condition f now) provisioning
          ∙ ap some (stamped-now (meta.find status.conditions provisioning) wall now f n k e))
    ]

-- A failure of this instant paces by itself.
pub backoff_of-failure :
    (f : ProvisioningFailure) (now : ℕ)
    → now ≢ 0
    → backoff_reasons (reason_of f) ≡ true
    → backoff_of (some (failure_condition f now)) now ≡ some (now + provisioning_retry_backoff)
unfolding failure_condition
backoff_of-failure f now n b = ground (arith, n, b)
