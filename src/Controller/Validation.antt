-- ===== src/Controller/Validation.antt =====
-- The cross-field rules of internal/controller/squall/model_validation.go, in the order in which the
-- code asks them. A message is named, not spelled out.
pub mod Rules
use squall.Common.{
  ℕ, ℤ, pos, Bool, true, false, ◌&&◌, Option, none, some, List, [], ◌∷◌, ◌++◌, lt_dur, le_dur,
  mul_add, ◌==◌, is_zero, if◌then◌else◌,
}
use squall.Api.{ModelSpec}
use squall.Controller.Phase.{
  uncontrolled_timeout_for, max_explicit_uncontrolled_timeout, min_hard_stop, min_idle_timeout,
}

pub data SpecError : Type 0 where
  no_backends uncontrolled_not_positive uncontrolled_too_long hard_stop_too_short : SpecError
  hard_stop_below_uncontrolled hold_exceeds_provisioning idle_too_short : SpecError
  provisioning_not_positive : SpecError

pub data SpecWarning : Type 0 where
  hold_below_half no_hard_stop : SpecWarning

pub data Validated : Type 0 where
  accepted : List SpecWarning → Validated
  refused : SpecError → Validated

abbrev no_items {ℓ} : {A : Type ℓ} → List A → Bool
no_items [] = true
no_items (x ∷ xs) = false

check_uncontrolled : Option ℤ → Option SpecError
check_uncontrolled none = none
check_uncontrolled (some u) =
    if le_dur u (pos 0)
    then some uncontrolled_not_positive
    else if lt_dur (pos max_explicit_uncontrolled_timeout) u
    then some uncontrolled_too_long
    else none

check_hard_stop : ModelSpec → Option SpecError
check_hard_stop spec =
    if lt_dur (pos 0) spec.hard_stop
    then (if lt_dur spec.hard_stop (pos min_hard_stop)
        then some hard_stop_too_short
        else if lt_dur spec.hard_stop (uncontrolled_timeout_for spec)
        then some hard_stop_below_uncontrolled
        else none)
    else none

-- `holdTimeout*2` wraps as an int64.
warnings : ModelSpec → List SpecWarning
warnings spec =
    (if lt_dur (pos 0) spec.hold_timeout
        && lt_dur (mul_add 2 spec.hold_timeout 0) spec.provisioning_timeout
      then hold_below_half ∷ []
      else [])
    ++ (if is_zero spec.hard_stop && spec.min_replicas == 0 then no_hard_stop ∷ [] else [])

check_timeouts : ModelSpec → Validated
unfolding warnings
check_timeouts spec =
    if lt_dur spec.provisioning_timeout spec.hold_timeout
    then refused hold_exceeds_provisioning
    else if lt_dur spec.idle_timeout (pos min_idle_timeout)
    then refused idle_too_short
    else if le_dur spec.provisioning_timeout (pos 0)
    then refused provisioning_not_positive
    else accepted (warnings spec)

abbrev or_else : Option SpecError → Validated → Validated
or_else none v = v
or_else (some e) v = refused e

unfoldable pub validate_with_warnings : ModelSpec → Validated
unfolding check_uncontrolled check_hard_stop check_timeouts
validate_with_warnings spec =
    if no_items spec.placement.backends
    then refused no_backends
    else or_else (check_uncontrolled spec.uncontrolled_timeout)
        (or_else (check_hard_stop spec) (check_timeouts spec))

-- Validate.
unfoldable pub validate : ModelSpec → Option SpecError
unfolding validate_with_warnings
validate spec = elim (validate_with_warnings spec) [ accepted w ↦ none | refused e ↦ some e ]
