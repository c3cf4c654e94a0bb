-- ===== src/Controller/Schedulable.antt =====
-- The checks before a wake is applied: checkSchedulable of
-- internal/controller/squall/model_controller.go, with Price.Validate of api/squall/v1alpha1/price.go.
-- What strconv.ParseFloat answers is an argument, as is what dstack answers the preflight. Messages
-- are left out.
pub mod Veto
pub mod Names
use squall.Common.{ℕ, Bool, true, false, Option, none, some, String, List, [], ◌∷◌}
use squall.Api.{
  ModelSpec, ModelStatus, ModelPhase, FleetStatus, Condition, ConditionStatus, Reason, schedulable,
  is_true, is_false, schedulable_reason, invalid_price, invalid_spec,
}
use squall.Api.Conditions.{ConditionOps}
use squall.Controller.Phase.{Action}
use squall.Controller.Validation.{Validated, accepted, refused, validate_with_warnings}
use squall.Controller.Preflight.{BackendAnswers, Verdict, preflight}

-- The value of a decimal that ParseFloat accepts: not a number, infinite, or finite and positive or
-- not.
pub data Parsed : Type 0 where
  unparsed nan infinite not_positive positive : Parsed

pub data PriceError : Type 0 where
  not_decimal not_finite price_not_positive : PriceError

-- Price.Validate.
unfoldable pub validate_price : (String → Parsed) → String → Option PriceError
validate_price parse p = elim (parse p) [
  | unparsed ↦ some not_decimal
  | nan ↦ some not_finite
  | infinite ↦ some not_finite
  | not_positive ↦ some price_not_positive
  | positive ↦ none
]

abbrev price_error : (String → Parsed) → Option String → Option PriceError
unfolding validate_price
price_error parse none = none
price_error parse (some p) = validate_price parse p

abbrev schedulable_condition : ConditionStatus → Reason → Condition
schedulable_condition s r = record {
  type = schedulable;
  status = s;
  reason = r;
  message = "";
  last_transition_time = 0;
}

pub record Checked : Type 0 where
  pub status : ModelStatus
  pub phase : ModelPhase
  pub action : Action

-- The wake is refused: nothing is applied, and the phase on record stays.
vetoed : ConditionOps → ℕ → ModelStatus → Action → Reason → Checked
vetoed meta wall status action r = record {
  status = record status {
    conditions = meta.set wall status.conditions (schedulable_condition is_false r);
  };
  phase = status.phase;
  action = record action { apply = false };
}

abbrev with_fleets : List FleetStatus → ModelStatus → ModelStatus
with_fleets [] status = status
with_fleets (f ∷ fs) status = record status { fleet = f ∷ fs }

abbrev verdict_condition : Option Reason → Condition
verdict_condition none = schedulable_condition is_true schedulable_reason
verdict_condition (some r) = schedulable_condition is_false r

diagnosed : ConditionOps → ℕ → ModelStatus → ModelPhase → Action → Verdict → Checked
diagnosed meta wall status phase action v = record {
  status = record (with_fleets v.fleets status) {
    conditions = meta.set wall status.conditions (verdict_condition v.reason);
  };
  phase = phase;
  action = action;
}

abbrev check_spec :
    ConditionOps → ℕ → ModelStatus → ModelPhase → Action → List BackendAnswers → Validated → Checked
unfolding vetoed diagnosed
check_spec meta wall status phase action backends (refused e) =
    vetoed meta wall status action invalid_spec
check_spec meta wall status phase action backends (accepted warnings) =
    diagnosed meta wall status phase action (preflight backends)

abbrev check_price :
    ConditionOps
    → ℕ
    → ModelSpec
    → ModelStatus
    → ModelPhase
    → Action
    → List BackendAnswers
    → Option PriceError
    → Checked
unfolding vetoed check_spec
check_price meta wall spec status phase action backends (some e) =
    vetoed meta wall status action invalid_price
check_price meta wall spec status phase action backends none =
    check_spec meta wall status phase action backends (validate_with_warnings spec)

unfoldable pub check_schedulable :
    ConditionOps
    → ℕ
    → (String → Parsed)
    → ModelSpec
    → ModelStatus
    → ModelPhase
    → Action
    → List BackendAnswers
    → Checked
unfolding check_price price_error vetoed diagnosed check_spec
check_schedulable meta wall parse spec status phase action backends =
    check_price meta wall spec status phase action backends
      (price_error parse spec.placement.max_price_per_hour)
