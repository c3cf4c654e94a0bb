-- ===== src/Controller/Schedulable/Veto.antt =====
-- What checkSchedulable refuses.
use squall.Common.{refl, ℕ, ◌≡◌, ◌↔◌, true, Option, none, some, String, List, arith}
use squall.Api.{ModelSpec, ModelStatus, ModelPhase}
use squall.Api.Conditions.{ConditionOps}
use squall.Controller.Phase.{Action}
use squall.Controller.Preflight.{BackendAnswers}
use squall.Controller.Validation.{validate, validate_with_warnings, Validated, accepted, refused}
use squall.Controller.Validation.Rules.{IsValidSpec, validate_iff}
use squall.Controller.Schedulable.{
  PriceError, Parsed, positive, validate_price, price_error, check_schedulable, check_price,
  check_spec, vetoed, diagnosed,
}

-- A ceiling that is a positive, finite decimal, or none at all.
abbrev pub IsPayable : (String → Parsed) → Option String → Type 0
IsPayable parse none = Unit
IsPayable parse (some p) = parse p ≡ positive

abbrev IsAccepted : Validated → Type 0
IsAccepted (accepted w) = Unit
IsAccepted (refused e) = ⊥

price_error_iff :
    (parse : String → Parsed) (p : Option String) → (price_error parse p ≡ none) ↔ IsPayable parse p
unfolding price_error validate_price
price_error_iff parse none = ground arith
price_error_iff parse (some p) = ground arith

-- Neither the price nor the spec is refused.
check_spec-apply :
    (meta : ConditionOps) (wall : ℕ) (status : ModelStatus) (phase : ModelPhase) (action : Action)
    (backends : List BackendAnswers) (v : Validated)
    → ((check_spec meta wall status phase action backends v).action.apply ≡ true)
      ↔ ((action.apply ≡ true) × IsAccepted v)
unfolding check_spec vetoed diagnosed
check_spec-apply meta wall status phase action backends (accepted w) = ground arith
check_spec-apply meta wall status phase action backends (refused e) = ground arith

check_price-apply :
    (meta : ConditionOps) (wall : ℕ) (spec : ModelSpec) (status : ModelStatus) (phase : ModelPhase)
    (action : Action) (backends : List BackendAnswers) (e : Option PriceError)
    → ((check_price meta wall spec status phase action backends e).action.apply ≡ true)
      ↔ ((action.apply ≡ true) × (e ≡ none) × IsAccepted (validate_with_warnings spec))
unfolding check_price vetoed
check_price-apply meta wall spec status phase action backends (some e) = ground arith
check_price-apply meta wall spec status phase action backends none =
    ground
      (arith, check_spec-apply meta wall status phase action backends (validate_with_warnings spec))

IsAccepted-iff :
    (spec : ModelSpec) → IsAccepted (validate_with_warnings spec) ↔ (validate spec ≡ none)
unfolding validate
IsAccepted-iff spec = elim (validate_with_warnings spec) [
  | accepted w ↦ ground arith
  | refused e ↦ ground arith
]

-- The Apply of a wake goes ahead exactly if Decide asked for one, the price ceiling, if there is one,
-- is a positive finite decimal, and the spec is valid: whatever dstack answers the preflight.
pub check_schedulable-apply :
    (meta : ConditionOps) (wall : ℕ) (parse : String → Parsed) (spec : ModelSpec)
    (status : ModelStatus) (phase : ModelPhase) (action : Action) (backends : List BackendAnswers)
    → ((check_schedulable meta wall parse spec status phase action backends).action.apply ≡ true)
      ↔ ((action.apply ≡ true)
          × IsPayable parse spec.placement.max_price_per_hour
          × IsValidSpec spec)
unfolding check_schedulable
check_schedulable-apply meta wall parse spec status phase action backends = ground (
  arith,
  check_price-apply meta wall spec status phase action backends
      (price_error parse spec.placement.max_price_per_hour),
  price_error_iff parse spec.placement.max_price_per_hour,
  IsAccepted-iff spec,
  validate_iff spec,
)

-- What it leaves of the action: all but whether anything is applied.
abbrev pub KeepsTarget : Action → Action → Type 0
KeepsTarget after before = (after.current ≡ before.current) × (after.replicas ≡ before.replicas)

check_spec-KeepsTarget :
    (meta : ConditionOps) (wall : ℕ) (status : ModelStatus) (phase : ModelPhase) (action : Action)
    (backends : List BackendAnswers) (v : Validated)
    → KeepsTarget (check_spec meta wall status phase action backends v).action action
unfolding check_spec vetoed diagnosed
check_spec-KeepsTarget meta wall status phase action backends (accepted w) = (refl, refl)
check_spec-KeepsTarget meta wall status phase action backends (refused e) = (refl, refl)

check_price-KeepsTarget :
    (meta : ConditionOps) (wall : ℕ) (spec : ModelSpec) (status : ModelStatus) (phase : ModelPhase)
    (action : Action) (backends : List BackendAnswers) (e : Option PriceError)
    → KeepsTarget (check_price meta wall spec status phase action backends e).action action
unfolding check_price vetoed
check_price-KeepsTarget meta wall spec status phase action backends (some e) = (refl, refl)
check_price-KeepsTarget meta wall spec status phase action backends none =
    check_spec-KeepsTarget meta wall status phase action backends (validate_with_warnings spec)

pub check_schedulable-KeepsTarget :
    (meta : ConditionOps) (wall : ℕ) (parse : String → Parsed) (spec : ModelSpec)
    (status : ModelStatus) (phase : ModelPhase) (action : Action) (backends : List BackendAnswers)
    → KeepsTarget
        (check_schedulable meta wall parse spec status phase action backends).action
        action
unfolding check_schedulable
check_schedulable-KeepsTarget meta wall parse spec status phase action backends =
    check_price-KeepsTarget meta wall spec status phase action backends
      (price_error parse spec.placement.max_price_per_hour)
