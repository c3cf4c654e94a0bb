-- ===== src/Controller/Preflight.antt =====
-- The check before a wake: preflight of internal/controller/squall/preflight.go. dstack's answers
-- about each backend of the allowlist are arguments; the messages are left out.
pub mod Remedy
use squall.Common.{
  ℕ, suc, ◌+◌, ◌==◌, Bool, true, false, not, Option, none, some, String, List, [], ◌∷◌,
  if◌then◌else◌, length,
}
use squall.Api.{
  FleetStatus, FleetState, admitting, created, unfleeted, unconfigured, Reason, backend_unavailable,
  no_fleet,
}
use squall.Dstack.{fleet_name}

-- The answer of BackendConfigured or HasFleetFor; `no_answer` is an error.
pub data Answer : Type 0 where
  yes no no_answer : Answer

-- What dstack says of a backend; `ensured` is whether EnsureFleet succeeds.
pub record BackendAnswers : Type 0 where
  pub name : String
  pub configured : Answer
  pub has_fleet : Answer
  pub ensured : Bool

abbrev fleet : String → String → FleetState → FleetStatus
fleet backend name state = record { backend = backend; name = name; state = state }

abbrev fleet_step : Answer → BackendAnswers → Option FleetStatus
fleet_step no_answer b = none
fleet_step yes b = some (fleet b.name "" admitting)
fleet_step no b = some (fleet b.name (fleet_name b.name) (if b.ensured then created else unfleeted))

abbrev backend_step : Answer → BackendAnswers → Option FleetStatus
backend_step no_answer b = none
backend_step no b = some (fleet b.name "" unconfigured)
backend_step yes b = fleet_step b.has_fleet b

abbrev add_fleet : Option FleetStatus → Option (List FleetStatus) → Option (List FleetStatus)
add_fleet none rest = none
add_fleet (some f) none = none
add_fleet (some f) (some fs) = some (f ∷ fs)

-- The loop; `none` is its early return.
unfoldable pub survey : List BackendAnswers → Option (List FleetStatus)
survey [] = some []
survey (b ∷ bs) = add_fleet (backend_step b.configured b) (survey bs)

abbrev pub is_unconfigured : FleetState → Bool
is_unconfigured unconfigured = true
is_unconfigured _ = false

abbrev pub is_unfleeted : FleetState → Bool
is_unfleeted unfleeted = true
is_unfleeted _ = false

-- len(unconfigured) and len(unfleeted).
count_state : (FleetState → Bool) → List FleetStatus → ℕ
count_state p [] = 0
count_state p (f ∷ fs) = let n = count_state p fs in if p f.state then suc n else n

pub record Verdict : Type 0 where
  pub reason : Option Reason
  pub fleets : List FleetStatus

abbrev judge : List BackendAnswers → Option (List FleetStatus) → Verdict
unfolding count_state
judge backends none = record { reason = none; fleets = [] }
judge backends (some fs) = record {
  reason =
      if count_state is_unconfigured fs == length backends
      then some backend_unavailable
      else if count_state is_unfleeted fs + count_state is_unconfigured fs == length backends
      then some no_fleet
      else none;
  fleets = fs;
}

unfoldable pub preflight : List BackendAnswers → Verdict
unfolding survey count_state judge
preflight [] = record { reason = none; fleets = [] }
preflight (b ∷ bs) = judge (b ∷ bs) (survey (b ∷ bs))
