-- ===== src/Dstack/Http.antt =====
-- The dstack client's operations: internal/dstack/http.go, with the requests of wire.go and the errors
-- of errors.go. An operation is a program that asks dstack one thing after another and goes on with
-- each answer; the server is not part of the program. `Raw` is a JSON body that is passed on as it is,
-- and a `Codec` is what encoding/json reads from one. A request that cannot be built or sent, and an
-- answer that cannot be read, are one case, `unsent`.
pub mod Runs
pub mod Fleets
use Prim.Native.String.{◌++◌ as ◌++ₛ◌}
use squall.Common.{
  ◌⊎◌, inl, inr, refl, ℕ, ℤ, ◌≡◌, Bool, true, false, not, Option, none, some, String, List, [], ◌∷◌,
  ◌==◌, if◌then◌else◌, str_eq,
}
use squall.Dstack.{Run, ApplyRequest}
use squall.Dstack.Errors.{Detail, Sentinel, error_not_found, classify_error}
use squall.Dstack.Wire.{RunSpecWire, RunWire, run_spec, run_of_wire, dstack_seconds}

-- FleetSpec.
pub record FleetSpec : Type 0 where
  pub name : String
  pub backends : List String
  pub idle_duration : ℤ

-- The configuration of a fleet but for its constants.
pub record FleetConfigurationWire : Type 0 where
  pub name : String
  pub backends : List String
  pub idle_duration : ℤ

-- What fleets/list tells of a fleet.
pub record FleetWire : Type 0 where
  pub status : String
  pub backends : List String

-- The requests; the flag of the two applies is Force, that of stop_runs is Abort.
pub data Call (Raw : Type 0) : Type 0 where
  get_plan : RunSpecWire → Call Raw
  apply_plan : Raw → Option Raw → Bool → Call Raw
  get_run : String → Call Raw
  stop_runs : List String → Bool → Call Raw
  delete_runs : List String → Call Raw
  list_runs : Call Raw
  config_info : String → Call Raw
  list_fleets : Call Raw
  get_fleet : String → Call Raw
  get_fleet_plan : FleetConfigurationWire → Call Raw
  apply_fleet_plan : Raw → Bool → Call Raw

-- runsPath and projectPath.
unfoldable pub path_of : {Raw : Type 0} → String → Call Raw → String
path_of project (get_plan s) = "/api/project/" ++ₛ project ++ₛ "/runs/get_plan"
path_of project (apply_plan s c f) = "/api/project/" ++ₛ project ++ₛ "/runs/apply"
path_of project (get_run n) = "/api/project/" ++ₛ project ++ₛ "/runs/get"
path_of project (stop_runs ns a) = "/api/project/" ++ₛ project ++ₛ "/runs/stop"
path_of project (delete_runs ns) = "/api/project/" ++ₛ project ++ₛ "/runs/delete"
path_of project list_runs = "/api/runs/list"
path_of project (config_info b) =
    "/api/project/" ++ₛ project ++ₛ "/backends/" ++ₛ b ++ₛ "/config_info"
path_of project list_fleets = "/api/project/" ++ₛ project ++ₛ "/fleets/list"
path_of project (get_fleet n) = "/api/project/" ++ₛ project ++ₛ "/fleets/get"
path_of project (get_fleet_plan f) = "/api/project/" ++ₛ project ++ₛ "/fleets/get_plan"
path_of project (apply_fleet_plan s f) = "/api/project/" ++ₛ project ++ₛ "/fleets/apply"

pub data Reply (Raw : Type 0) : Type 0 where
  unsent : Reply Raw
  answered : ℕ → Raw → Reply Raw

-- `status_error` is an HTTPError.
pub data ClientError : Type 0 where
  transport_error decode_error : ClientError
  status_error : ℕ → Sentinel → ClientError

pub data Result (A : Type 0) : Type 0 where
  ok : A → Result A
  err : ClientError → Result A

pub Result-cases :
    {A : Type 0} (r : Result A) → ((a : A) × (r ≡ ok a)) ⊎ ((e : ClientError) × (r ≡ err e))
Result-cases (ok a) = inl (a, refl)
Result-cases (err e) = inr (e, refl)

pub data Program (Raw A : Type 0) : Type 0 where
  done : A → Program Raw A
  ask : Call Raw → (Reply Raw → Program Raw A) → Program Raw A

abbrev pub Action : Type 0 → Type 0 → Type 0
Action Raw A = Program Raw (Result A)

abbrev pub continue : {Raw A B : Type 0} → Result A → (A → Action Raw B) → Action Raw B
continue (ok a) f = f a
continue (err e) f = done (err e)

infixl 5 ◌>>=◌
abbrev pub ◌>>=◌ : {Raw A B : Type 0} → Action Raw A → (A → Action Raw B) → Action Raw B
done r >>= f = continue r f
ask c k >>= f = ask c (λ r. k r >>= f)

-- An operation against a server, with the requests that it makes.
unfoldable pub run_with :
    {Raw A S : Type 0}
    → (S → Call Raw → S × Reply Raw)
    → Program Raw A
    → S
    → S × List (Call Raw) × A
run_with serve (done a) s = (s, [], a)
run_with serve (ask c k) s =
    let (s', r) = serve s c in let (s'', calls, a) = run_with serve (k r) s' in (s'', c ∷ calls, a)

-- `run_plan` is the run_spec of a plan; `fleet_plan` its spec, and its effective spec if that is there
-- and not null.
pub record Codec (Raw : Type 0) : Type 0 where
  pub detail : Raw → Detail
  pub run_plan : Raw → Option Raw
  pub run : Raw → Option RunWire
  pub raw_list : Raw → Option (List Raw)
  pub fleets : Raw → Option (List FleetWire)
  pub fleet_plan : Raw → Option (Raw × Option Raw)

abbrev pub decoded : {Raw A : Type 0} → Option A → Action Raw A
decoded none = done (err decode_error)
decoded (some a) = done (ok a)

-- errors.Is(err, ErrNotFound).
abbrev pub is_not_found : ClientError → Bool
is_not_found (status_error status error_not_found) = true
is_not_found _ = false

abbrev checked : {Raw : Type 0} → ℕ → Raw → Option Sentinel → Result Raw
checked status body none = ok body
checked status body (some k) = err (status_error status k)

module _ {Raw : Type 0} (codec : Codec Raw) where
  -- What post makes of the answer.
  unfoldable pub outcome_of : Reply Raw → Result Raw
  unfolding classify_error
  outcome_of unsent = err transport_error
  outcome_of (answered status body) =
      checked status body (classify_error status (codec.detail body))

  -- post.
  abbrev pub post : Call Raw → Action Raw Raw
  unfolding outcome_of
  post c = ask c (λ r. done (outcome_of r))
