-- ===== src/Controller/Schedulable/Names.antt =====
-- The name of the run in the status that checkSchedulable leaves.
use squall.Common.{ℕ, ◌≡◌, refl, Option, none, some, String, List, [], ◌∷◌}
use squall.Api.{ModelSpec, ModelStatus, ModelPhase, FleetStatus}
use squall.Api.Conditions.{ConditionOps}
use squall.Controller.Phase.{Action}
use squall.Controller.Preflight.{BackendAnswers, preflight}
use squall.Controller.Validation.{Validated, accepted, refused, validate_with_warnings}
use squall.Controller.Schedulable.{
  Parsed, PriceError, price_error, check_schedulable, check_price, check_spec, vetoed, diagnosed,
  with_fleets,
}

run_name-with_fleets :
    (fs : List FleetStatus) (status : ModelStatus)
    → (with_fleets fs status).run_name ≡ status.run_name
run_name-with_fleets [] status = refl
run_name-with_fleets (f ∷ fs) status = refl

run_name-check_spec :
    (meta : ConditionOps) (wall : ℕ) (status : ModelStatus) (phase : ModelPhase) (action : Action)
    (backends : List BackendAnswers) (v : Validated)
    → (check_spec meta wall status phase action backends v).status.run_name ≡ status.run_name
unfolding check_spec vetoed diagnosed
run_name-check_spec meta wall status phase action backends (refused e) = refl
run_name-check_spec meta wall status phase action backends (accepted w) =
    run_name-with_fleets (preflight backends).fleets status

run_name-check_price :
    (meta : ConditionOps) (wall : ℕ) (spec : ModelSpec) (status : ModelStatus) (phase : ModelPhase)
    (action : Action) (backends : List BackendAnswers) (e : Option PriceError)
    → (check_price meta wall spec status phase action backends e).status.run_name ≡ status.run_name
unfolding check_price vetoed
run_name-check_price meta wall spec status phase action backends (some e) = refl
run_name-check_price meta wall spec status phase action backends none =
    run_name-check_spec meta wall status phase action backends (validate_with_warnings spec)

pub run_name-check_schedulable :
    (meta : ConditionOps) (wall : ℕ) (parse : String → Parsed) (spec : ModelSpec)
    (status : ModelStatus) (phase : ModelPhase) (action : Action) (backends : List BackendAnswers)
    → (check_schedulable meta wall parse spec status phase action backends).status.run_name
      ≡ status.run_name
unfolding check_schedulable
run_name-check_schedulable meta wall parse spec status phase action backends =
    run_name-check_price meta wall spec status phase action backends
      (price_error parse spec.placement.max_price_per_hour)
