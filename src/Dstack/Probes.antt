-- ===== src/Dstack/Probes.antt =====
-- The readiness and the endpoint of a run's replica, from the jobs that dstack lists
-- (internal/dstack/probes.go). `ssh_proxy` is whether the raw field is present and not "null".
-- Prices, which are only exported as metrics, are left out.
pub mod Current
use squall.Common.{
  ℕ, ℤ, pos, suc, Bool, true, false, not, ◌&&◌, ◌||◌, Option, none, some, String, List, [], ◌∷◌,
  ltb, ◌==◌, str_eq, lt_dur, le_dur, if◌then◌else◌,
}
use squall.Dstack.{RunEndpoint}

pub record JobProvisioningData : Type 0 where
  pub hostname : String
  pub ssh_port : ℤ
  pub username : String
  pub ssh_proxy : Bool
  pub dockerized : Bool

-- `probes` has the success streak of each probe.
pub record JobSubmission : Type 0 where
  pub deployment_num : ℕ
  pub status : String
  pub probes : List ℤ
  pub job_provisioning_data : Option JobProvisioningData

pub record Job : Type 0 where
  pub job_submissions : List JobSubmission
  pub service_port : Option ℤ

abbrev pub finished_job_statuses : String → Bool
finished_job_statuses s =
    str_eq s "terminated" || str_eq s "failed" || str_eq s "done" || str_eq s "aborted"

-- A submission of the current deployment that is not finished.
abbrev pub is_live : ℕ → JobSubmission → Bool
is_live num s = s.deployment_num == num && not (finished_job_statuses s.status)

short_streak : ℤ → List ℤ → Bool
short_streak ready_after [] = false
short_streak ready_after (p ∷ ps) = lt_dur p ready_after || short_streak ready_after ps

abbrev lacks_probes : ℤ → List ℤ → Bool
unfolding short_streak
lacks_probes ready_after [] = true
lacks_probes ready_after (p ∷ ps) = short_streak ready_after (p ∷ ps)

-- The inner loop: the number of live submissions, or the early return of false.
count_live : ℕ → ℤ → ℕ → List JobSubmission → Option ℕ
count_live num ready_after live [] = some live
count_live num ready_after live (s ∷ ss) =
    let rest = count_live num ready_after live ss in
    let more = count_live num ready_after (suc live) ss in
    if not (is_live num s) then rest else if lacks_probes ready_after s.probes then none else more

count_jobs : ℕ → ℤ → ℕ → List Job → Option ℕ
count_jobs num ready_after live [] = some live
count_jobs num ready_after live (j ∷ jobs) =
    elim (count_live num ready_after live j.job_submissions) [
      | none ↦ none
      | some n ↦ count_jobs num ready_after n jobs
    ]

abbrev any_live : Option ℕ → Bool
any_live none = false
any_live (some n) = ltb 0 n

unfoldable pub probes_ready : List Job → ℕ → ℤ → Bool
unfolding count_live count_jobs short_streak
probes_ready jobs num ready_after =
    if lt_dur ready_after (pos 1) then false else any_live (count_jobs num ready_after 0 jobs)

abbrev endpoint_of : ℤ → Option JobProvisioningData → Option RunEndpoint
endpoint_of port none = none
endpoint_of port (some p) =
    if str_eq p.hostname "" || le_dur p.ssh_port (pos 0) || str_eq p.username ""
    then none
    else if p.dockerized || p.ssh_proxy
    then none
    else some (record {
      host = p.hostname;
      ssh_port = p.ssh_port;
      user = p.username;
      service_port = port;
    })

abbrev or_later : Option RunEndpoint → Option RunEndpoint → Option RunEndpoint
or_later none later = later
or_later (some e) later = some e

first_endpoint : ℕ → ℤ → List JobSubmission → Option RunEndpoint
first_endpoint num port [] = none
first_endpoint num port (s ∷ ss) =
    let rest = first_endpoint num port ss in
    if not (is_live num s) then rest else or_later (endpoint_of port s.job_provisioning_data) rest

abbrev job_endpoint : ℕ → Option ℤ → List JobSubmission → Option RunEndpoint
unfolding first_endpoint
job_endpoint num none ss = none
job_endpoint num (some port) ss = if le_dur port (pos 0) then none else first_endpoint num port ss

unfoldable pub replica_endpoint : List Job → ℕ → Option RunEndpoint
unfolding first_endpoint
replica_endpoint [] num = none
replica_endpoint (j ∷ jobs) num =
    or_later (job_endpoint num j.service_port j.job_submissions) (replica_endpoint jobs num)
