-- ===== src/Dstack/Mock/Http/Read.antt =====
-- What the client reads of a run of the fake server.
use squall.Common.{
  ℕ, ◌≡◌, refl, ◌∙◌, arith, pos, Bool, true, false, ltb, ◌==◌, ◌&&◌, String, [], Bool-cases, inl,
  inr,
}
use squall.Dstack.{is_terminal}
use squall.Dstack.Probes.{probes_ready as streaks_ready}
use squall.Dstack.Wire.{run_of_wire, echoed_ready_after}
use squall.Dstack.Mock.{Service, Server, Run, run_for, probes_ready, status_for}
use squall.Dstack.Mock.Http.{run_to_wire, one_job, jobs_of}

one_job-ready : (n : ℕ) (ready : Bool) → streaks_ready (one_job n ready) n (pos 2) ≡ ready
unfolding streaks_ready
one_job-ready n true = ground arith
one_job-ready n false = ground arith

no_job-ready : (n : ℕ) → streaks_ready [] n (pos 2) ≡ false
unfolding streaks_ready
no_job-ready n = refl

-- The jobs that the fake writes show the readiness of a run that has replicas, and none of others.
jobs_of-ready :
    (run : Run)
    → streaks_ready (jobs_of run) run.deployment_num (pos 2)
      ≡ (ltb 0 run.replicas && run.probes_ready)
jobs_of-ready run = elim (Bool-cases (ltb 0 run.replicas)) [
  | inr e ↦ rw e (no_job-ready run.deployment_num)
  | inl e ↦ rw e (one_job-ready run.deployment_num run.probes_ready)
]

ready-positive :
    (s : Server) (svc : Service) (now : ℕ)
    → (ltb 0 svc.replicas && probes_ready s svc now) ≡ probes_ready s svc now
unfolding probes_ready
ready-positive s svc now = ground arith

terminal-status :
    (decimal : ℕ → String) (s : Server) (name : String) (svc : Service) (now : ℕ)
    → is_terminal (run_of_wire (run_to_wire decimal (run_for s name svc now))) ≡ svc.terminal
unfolding is_terminal run_of_wire run_to_wire run_for status_for
terminal-status decimal s name svc now = elim (Bool-cases svc.terminal) [
  | inl t ↦ rw t refl
  | inr t ↦ elim (Bool-cases (svc.replicas == 0)) [
    | inl z ↦ rw (t, z) refl
    | inr z ↦ rw (t, z) refl
  ]
]

-- Of a run of the fake server, the client reads over the wire its name, deployment and replicas, that
-- it is ready exactly if the fake server has it ready, and that it is terminal exactly if it has died.
pub run_of_wire-run_to_wire :
    (decimal : ℕ → String) (s : Server) (name : String) (svc : Service) (now : ℕ)
    → let read = run_of_wire (run_to_wire decimal (run_for s name svc now)) in
      (read.name ≡ name)
      × (read.deployment_num ≡ svc.deployment_num)
      × (read.replicas ≡ svc.replicas)
      × (read.probes_ready ≡ probes_ready s svc now)
      × (is_terminal read ≡ svc.terminal)
unfolding run_of_wire run_to_wire run_for echoed_ready_after
run_of_wire-run_to_wire decimal s name svc now = (
  refl,
  refl,
  refl,
  jobs_of-ready (run_for s name svc now) ∙ ready-positive s svc now,
  terminal-status decimal s name svc now,
)
