-- ===== src/Controller/Validation/Rules.antt =====
-- What ValidateWithWarnings of model_validation.go accepts.
use squall.Common.{
  ℤ, pos, ◌≡◌, ◌≢◌, ◌↔◌, ◌⊎◌, refl, false, Option, none, some, List, [], ◌∷◌, arith, ◌≤ℤ◌, ◌<ℤ◌,
  Holds,
}
use squall.Api.{ModelSpec}
use squall.Controller.Phase.{
  uncontrolled_timeout_for, max_explicit_uncontrolled_timeout, min_hard_stop, min_idle_timeout,
}
use squall.Controller.Validation.{validate, check_uncontrolled, no_items}

-- The rules, independently of their order: the allowlist is not empty, an explicit uncontrolled
-- timeout lies in (0, 24h], a hard stop is off or at least an hour and no shorter than the
-- uncontrolled deadline, a hold cannot outlive provisioning, and the windows have their floors.
pub record IsValidSpec (spec : ModelSpec) : Type 0 where
  pub has_backends : spec.placement.backends ≢ []
  pub uncontrolled :
      (spec.uncontrolled_timeout ≡ none)
      ⊎ Holds
          (λ u. (pos 0 <ℤ u) × (u ≤ℤ pos max_explicit_uncontrolled_timeout))
          spec.uncontrolled_timeout
  pub hard_stop_rule :
      (spec.hard_stop ≤ℤ pos 0)
      ⊎ ((pos min_hard_stop ≤ℤ spec.hard_stop) × (uncontrolled_timeout_for spec ≤ℤ spec.hard_stop))
  pub hold_rule : spec.hold_timeout ≤ℤ spec.provisioning_timeout
  pub idle_rule : pos min_idle_timeout ≤ℤ spec.idle_timeout
  pub provisioning_rule : pos 0 <ℤ spec.provisioning_timeout

no_items_iff {ℓ} : {A : Type ℓ} (xs : List A) → (no_items xs ≡ false) ↔ (xs ≢ [])
no_items_iff [] = (λ e. cc, λ h. absurd (h refl))
no_items_iff (x ∷ xs) = (λ e. λ n. cc, λ h. refl)

check_uncontrolled_iff :
    (u : Option ℤ)
    → (check_uncontrolled u ≡ none)
      ↔ ((u ≡ none) ⊎ Holds (λ d. (pos 0 <ℤ d) × (d ≤ℤ pos max_explicit_uncontrolled_timeout)) u)
unfolding check_uncontrolled
check_uncontrolled_iff none = ground arith
check_uncontrolled_iff (some d) = ground arith

-- A spec is accepted exactly if it meets all the rules.
pub validate_iff : (spec : ModelSpec) → (validate spec ≡ none) ↔ IsValidSpec spec
unfolding validate
validate_iff spec =
    ground (
      arith,
      no_items_iff spec.placement.backends,
      check_uncontrolled_iff spec.uncontrolled_timeout,
    )
