-- ===== src/Dstack/Http/Fleets.antt =====
-- The client's operations on backends and fleets, in internal/dstack/http.go.
pub mod Created
use squall.Common.{
  ℕ, ℤ, Bool, true, false, not, Option, none, some, String, List, [], ◌∷◌, ◌==◌, if◌then◌else◌,
  str_eq,
}
use squall.Dstack.Wire.{dstack_seconds}
use squall.Dstack.Http.{
  Call, get_plan, apply_plan, get_run, stop_runs, delete_runs, list_runs, config_info, list_fleets,
  get_fleet, get_fleet_plan, apply_fleet_plan, FleetSpec, FleetWire, ClientError, status_error,
  Result, ok, err, Action, ask, done, continue, ◌>>=◌, Codec, decoded, is_not_found, outcome_of,
  post,
}

abbrev pub configured_as : {Raw : Type 0} → Result Raw → Result Bool
configured_as (ok body) = ok true
configured_as (err (status_error status k)) =
    if status == 400 then ok false else err (status_error status k)
configured_as (err e) = err e

abbrev pub names : String → List String → Bool
names backend [] = false
names backend (b ∷ backends) =
    let rest = names backend backends in if str_eq b backend then true else rest

-- A fleet with no backends accepts any.
abbrev pub admits : String → List String → Bool
admits backend [] = true
admits backend (b ∷ backends) = names backend (b ∷ backends)

unfoldable pub some_admits : String → List FleetWire → Bool
some_admits backend [] = false
some_admits backend (f ∷ fleets) =
    let rest = some_admits backend fleets in
    if not (str_eq f.status "active")
    then rest
    else if admits backend f.backends
    then true
    else rest

-- FleetPlan.get_effective_spec.
abbrev pub effective : {Raw : Type 0} → Raw × Option Raw → Raw
effective (spec, none) = spec
effective (spec, some e) = e

module _ {Raw : Type 0} (codec : Codec Raw) where
  -- BackendConfigured.
  unfoldable pub backend_configured : String → Action Raw Bool
  unfolding outcome_of
  backend_configured backend =
      ask (config_info backend) (λ r. done (configured_as (outcome_of codec r)))

  -- What HasFleetFor reads in the body.
  abbrev pub fleets_said : String → Raw → Action Raw Bool
  unfolding some_admits
  fleets_said backend body = do
    fleets ← decoded (codec.fleets body)
    done (ok (some_admits backend fleets))

  -- HasFleetFor.
  unfoldable pub has_fleet_for : String → Action Raw Bool
  unfolding fleets_said post
  has_fleet_for backend = do body ← post codec list_fleets; fleets_said backend body

  -- createFleet.
  unfoldable pub create_fleet : FleetSpec → Action Raw (Unit {0})
  unfolding post
  create_fleet spec = do
    plan ← post codec (
        get_fleet_plan (record {
          name = spec.name;
          backends = spec.backends;
          idle_duration = dstack_seconds spec.idle_duration;
        }))
    planned ← decoded (codec.fleet_plan plan)
    body ← post codec (apply_fleet_plan (effective planned) false)
    done (ok tt)

  abbrev pub create_if_missing : FleetSpec → Result Raw → Action Raw (Unit {0})
  unfolding create_fleet
  create_if_missing spec (ok body) = done (ok tt)
  create_if_missing spec (err e) = if is_not_found e then create_fleet spec else done (err e)

  -- EnsureFleet.
  unfoldable pub ensure_fleet : FleetSpec → Action Raw (Unit {0})
  unfolding outcome_of create_if_missing
  ensure_fleet spec = ask (get_fleet spec.name) (λ r. create_if_missing spec (outcome_of codec r))
