-- ===== src/Dstack/Mock.antt =====
-- The fake dstack server of internal/dstack/mock/mock.go: its services and fleets as association lists,
-- and its run-management operations, each under the server's lock and hence one step. The clock's
-- instant is an argument. A run's id is the name and the number that its text is made of; a nil
-- IdleDuration is `none`. The HTTP surface is left out.
pub mod Refines
pub mod Once
pub mod Machines
pub mod Http
use squall.Common.{
  ℕ, suc, ◌+◌, ℤ, pos, Bool, true, false, not, ◌&&◌, ◌||◌, Option, none, some, String, List, [],
  ◌∷◌, ◌==◌, ltb, leb, if◌then◌else◌, str_eq, lookup, insert, is_none, sub_time, le_dur,
}

pub record RunId : Type 0 where
  pub name : String
  pub number : ℕ

pub record Service : Type 0 where
  pub run_id : RunId
  pub deployment_num : ℕ
  pub replicas : ℕ
  pub submitted_at : ℕ
  pub replicas_up_at : ℕ
  pub terminal : Bool
  pub instance_up : Bool
  pub idle_since : ℕ
  pub fleet_idle_duration : ℕ
  pub apply_count : ℕ
  pub idle_duration : Option ℕ

-- `seq` is the last number that newRunID gave.
pub record Server : Type 0 where
  pub services : List (String × Service)
  pub fleets : List (String × List String)
  pub seq : ℕ
  pub probe_delay : ℕ

pub record Anchor : Type 0 where
  pub run_id : RunId
  pub deployment_num : ℕ

-- A duration of the fleet that is not positive is 0.
pub record ApplyRequest : Type 0 where
  pub name : String
  pub replicas : ℕ
  pub current : Option Anchor
  pub force : Bool
  pub fleet_idle_duration : ℕ
  pub idle_duration : Option ℕ

pub data Error : Type 0 where
  force_forbidden resource_changed cannot_override not_found delete_active_run : Error

pub data RunStatus : Type 0 where
  status_terminated status_pending status_running : RunStatus

pub record Run : Type 0 where
  pub name : String
  pub run_id : RunId
  pub deployment_num : ℕ
  pub replicas : ℕ
  pub probes_ready : Bool
  pub status : RunStatus
  pub submitted_at : ℕ
  pub idle_duration : Option ℕ

abbrev pub same_id : RunId → RunId → Bool
same_id a b = str_eq a.name b.name && a.number == b.number

-- sameSeconds.
abbrev pub same_seconds : Option ℕ → Option ℕ → Bool
same_seconds none none = true
same_seconds (some a) (some b) = a == b
same_seconds _ _ = false

-- EnsureFleet.
unfoldable pub ensure_fleet : String → List String → Server → Server
ensure_fleet name backends s =
    if is_none (lookup name s.fleets)
    then record s { fleets = insert name backends s.fleets }
    else s

-- probesReady.
unfoldable pub probes_ready : Server → Service → ℕ → Bool
probes_ready s svc now =
    if svc.replicas == 0 || svc.replicas_up_at == 0
    then false
    else leb (svc.replicas_up_at + s.probe_delay) now

-- statusFor.
unfoldable pub status_for : Service → RunStatus
status_for svc =
    if svc.terminal
    then status_terminated
    else if svc.replicas == 0
    then status_pending
    else status_running

-- runFor.
unfoldable pub run_for : Server → String → Service → ℕ → Run
unfolding probes_ready status_for
run_for s name svc now = record {
  name = name;
  run_id = svc.run_id;
  deployment_num = svc.deployment_num;
  replicas = svc.replicas;
  probes_ready = probes_ready s svc now;
  status = status_for svc;
  submitted_at = svc.submitted_at;
  idle_duration = svc.idle_duration;
}

-- A fresh run's service, before the Apply that mints it.
abbrev pub minted : String → ℕ → ℕ → Service
minted name number now = record {
  run_id = record { name = name; number = number };
  deployment_num = 0;
  replicas = 0;
  submitted_at = now;
  replicas_up_at = 0;
  terminal = false;
  instance_up = false;
  idle_since = 0;
  fleet_idle_duration = 0;
  apply_count = 0;
  idle_duration = none;
}

-- The anchor names the run as it stands.
abbrev pub is_current : Option Anchor → Service → Bool
is_current none svc = false
is_current (some a) svc = same_id a.run_id svc.run_id && a.deployment_num == svc.deployment_num

-- The second half of Apply.
unfoldable pub applied : ApplyRequest → Service → ℕ → Service
applied req svc now = record svc {
  deployment_num = suc svc.deployment_num;
  replicas = req.replicas;
  apply_count = suc svc.apply_count;
  instance_up = true;
  idle_duration = req.idle_duration;
  fleet_idle_duration =
      if ltb 0 req.fleet_idle_duration then req.fleet_idle_duration else svc.fleet_idle_duration;
  replicas_up_at =
      if req.replicas == 0 then 0 else if ltb 0 svc.replicas then svc.replicas_up_at else now;
  idle_since =
      if req.replicas == 0 then (if ltb 0 svc.replicas then now else svc.idle_since) else 0;
}

pub data Answer : Type 0 where
  granted : Run → Answer
  refused : Error → Answer

abbrev pub grant : ApplyRequest → Server → Service → ℕ → Server × Answer
unfolding applied run_for
grant req s svc now =
    let next = applied req svc now in
    (record s { services = insert req.name next s.services }, granted (run_for s req.name next now))

abbrev pub mint : ApplyRequest → Server → ℕ → Server × Answer
unfolding grant
mint req s now = grant req (record s { seq = suc s.seq }) (minted req.name (suc s.seq) now) now

abbrev pub apply_to : ApplyRequest → Server → ℕ → Option Service → Server × Answer
unfolding mint grant
apply_to req s now none = mint req s now
apply_to req s now (some svc) =
    if svc.terminal
    then mint req s now
    else if not (is_current req.current svc)
    then (s, refused resource_changed)
    else if ltb 0 svc.replicas && not (same_seconds svc.idle_duration req.idle_duration)
    then (s, refused cannot_override)
    else grant req s svc now

-- Apply.
unfoldable pub apply : ApplyRequest → Server → ℕ → Server × Answer
unfolding apply_to
apply req s now =
    if req.force
    then (s, refused force_forbidden)
    else apply_to req s now (lookup req.name s.services)

-- One round of the loop of Tick.
abbrev released : ℕ → Service → Service
released now svc =
    if svc.instance_up
      && svc.replicas == 0
      && not (svc.idle_since == 0)
      && ltb 0 svc.fleet_idle_duration
      && le_dur (pos svc.fleet_idle_duration) (sub_time now svc.idle_since)
    then record svc { instance_up = false }
    else svc

abbrev pub over_services : (Service → Service) → List (String × Service) → List (String × Service)
over_services f [] = []
over_services f ((n, svc) ∷ services) = (n, f svc) ∷ over_services f services

-- Tick.
unfoldable pub tick : ℕ → Server → Server
tick now s = record s { services = over_services (released now) s.services }

abbrev count_up : Option Service → ℕ
count_up none = 0
count_up (some svc) = if svc.instance_up then 1 else 0

-- InstanceCount.
unfoldable pub instance_count : String → Server → ℕ
instance_count name s = count_up (lookup name s.services)

abbrev applies_of : Option Service → ℕ
applies_of none = 0
applies_of (some svc) = svc.apply_count

-- ApplyCount.
unfoldable pub apply_count : String → Server → ℕ
apply_count name s = applies_of (lookup name s.services)

abbrev gateway_status : Option Service → ℕ
gateway_status none = 404
gateway_status (some svc) = if svc.terminal then 404 else if svc.replicas == 0 then 503 else 200

-- GatewayGet, on a token that is valid or not.
unfoldable pub gateway_get : String → Bool → Server → ℕ
gateway_get name valid s = if valid then gateway_status (lookup name s.services) else 403

abbrev run_or_none : Server → String → ℕ → Option Service → Option Run
unfolding run_for
run_or_none s name now none = none
run_or_none s name now (some svc) = some (run_for s name svc now)

-- Get; `none` is ErrNotFound.
unfoldable pub get : String → Server → ℕ → Option Run
unfolding run_or_none
get name s now = run_or_none s name now (lookup name s.services)

abbrev pub erase : String → List (String × Service) → List (String × Service)
erase k [] = []
erase k ((n, svc) ∷ services) =
    let rest = erase k services in if str_eq n k then rest else (n, svc) ∷ rest

abbrev delete_from : String → Server → Option Service → Server × Option Error
delete_from name s none = (s, some not_found)
delete_from name s (some svc) =
    if svc.terminal
    then (record s { services = erase name s.services }, none)
    else (s, some delete_active_run)

-- Delete.
unfoldable pub delete : String → Server → Server × Option Error
delete name s = delete_from name s (lookup name s.services)

abbrev stop_in : String → Server → Option Service → Server × Option Error
stop_in name s none = (s, some not_found)
stop_in name s (some svc) = (
  record s {
    services =
        insert name (record svc { terminal = true; instance_up = false; replicas = 0 }) s.services;
  },
  none,
)

-- Stop.
unfoldable pub stop : String → Server → Server × Option Error
stop name s = stop_in name s (lookup name s.services)

abbrev terminate_in : String → Server → Option Service → Server
terminate_in name s none = s
terminate_in name s (some svc) = record s {
  services = insert name (record svc { terminal = true; instance_up = false }) s.services;
}

-- Terminate.
unfoldable pub terminate : String → Server → Server
terminate name s = terminate_in name s (lookup name s.services)
