-- ===== src/Controller/Phase/FailSafe.antt =====
-- When, and on what evidence, Decide of phase.go flips a run to 0 replicas.
use squall.Common.{
  ℕ, pos, ◌+◌, ◌<◌, ◌≡◌, ◌≢◌, ◌↔◌, ◌⊎◌, inl, inr, refl, Bool, true, false, Option, none, some,
  arith, max_duration, Holds, Bool-cases, ◌==◌,
}
use squall.Api.{ModelStatus, ModelSpec}
use squall.Api.Conditions.{ConditionOps}
use squall.Dstack.{Run}
use squall.Controller.Phase.{
  Observed, Action, decide, decide_up, decide_no_run, decide_asleep, sleep_due, provisioning_due,
  unhealthy_due, uncontrolled_due, uncontrolled_timeout_for,
}
use squall.Controller.Phase.Deadlines.{
  IsIdleLongEnough, IsFailing, sleep_due_iff, provisioning_due_iff, unhealthy_due_iff,
}
use squall.Controller.Phase.Uncontrolled.{uncontrolled_due_iff}

-- An action that flips the run to 0 replicas.
abbrev pub StopsRun : Action → Type 0
StopsRun a = (a.apply ≡ true) × (a.replicas ≡ 0)

-- The verdicts, by the tests that Decide asks in order.
abbrev Verdict : Observed → ModelStatus → ModelSpec → Bool → ℕ → Type 0
Verdict observed prior spec has_demand now =
    (provisioning_due prior.wake_started_at observed.ready spec.provisioning_timeout now ≡ true)
    ⊎ ((spec.min_replicas ≡ 0)
        × ((sleep_due observed.activity prior.last_request_at spec.idle_timeout now ≡ true)
            ⊎ (unhealthy_due observed.activity observed.ready prior.wake_started_at
                  spec.health.unhealthy_after spec.health.failure_threshold spec.idle_timeout now
                ≡ true)
            ⊎ (uncontrolled_due prior.uncontrolled_since (uncontrolled_timeout_for spec) has_demand
                  now
                ≡ true)))

decide_up_stops :
    (observed : Observed) (run : Run) (prior : ModelStatus) (spec : ModelSpec) (has_demand : Bool)
    (now : ℕ)
    → StopsRun (decide_up observed run prior spec has_demand now).1
      ↔ Verdict observed prior spec has_demand now
unfolding decide_up
decide_up_stops observed run prior spec has_demand now = ground arith

-- The spec's durations as numbers of nanoseconds within an int64, and the uncontrolled deadline.
pub record Durations (spec : ModelSpec) : Type 0 where
  pub idle : ℕ
  pub provision : ℕ
  pub after : ℕ
  pub threshold : ℕ
  pub uncontrolled : ℕ
  pub idle_eq : spec.idle_timeout ≡ pos idle
  pub provision_eq : spec.provisioning_timeout ≡ pos provision
  pub after_eq : spec.health.unhealthy_after ≡ pos after
  pub threshold_eq : spec.health.failure_threshold ≡ pos threshold
  pub uncontrolled_eq : uncontrolled_timeout_for spec ≡ pos uncontrolled
  pub idle_fits : idle < max_duration
  pub provision_fits : provision < max_duration
  pub after_fits : after < max_duration
  pub uncontrolled_fits : uncontrolled < max_duration

-- The grounds on which a run that is up may be stopped, in terms of the evidence.
abbrev pub Justified :
    {spec : ModelSpec} → Durations spec → Observed → ModelStatus → Bool → ℕ → Type 0
Justified {spec} ds observed prior has_demand now =
    ((observed.ready ≡ false)
      × (0 < ds.provision)
      × Holds (λ w. (w ≢ 0) × (w + ds.provision < now)) prior.wake_started_at)
    ⊎ ((spec.min_replicas ≡ 0)
        × (Holds (IsIdleLongEnough prior.last_request_at ds.idle now) observed.activity
            ⊎ ((observed.ready ≡ true)
                × (0 < ds.after)
                × Holds (IsFailing prior.wake_started_at ds.after ds.threshold ds.idle now)
                    observed.activity)
            ⊎ ((has_demand ≡ false)
                × (0 < ds.uncontrolled)
                × Holds (λ t. (t ≢ 0) × (t + ds.uncontrolled < now)) prior.uncontrolled_since)))

Verdict-Justified :
    {spec : ModelSpec} (ds : Durations spec) (observed : Observed) (prior : ModelStatus)
    (has_demand : Bool) (now : ℕ)
    → Verdict observed prior spec has_demand now ↔ Justified ds observed prior has_demand now
Verdict-Justified {spec} ds observed prior has_demand now =
    rw (ds.uncontrolled_eq, ds.idle_eq, ds.provision_eq, ds.after_eq, ds.threshold_eq)
      (ground (
        arith,
        provisioning_due_iff prior.wake_started_at observed.ready ds.provision now
            ds.provision_fits,
        sleep_due_iff observed.activity prior.last_request_at ds.idle now ds.idle_fits,
        unhealthy_due_iff observed.activity observed.ready prior.wake_started_at ds.after
            ds.threshold ds.idle now ds.after_fits ds.idle_fits,
        uncontrolled_due_iff prior.uncontrolled_since ds.uncontrolled has_demand now
            ds.uncontrolled_fits,
      ))

module _ (meta : ConditionOps) {spec : ModelSpec} (ds : Durations spec) where
  decide-StopsRun :
      (r : Option Run) (observed : Observed) (prior : ModelStatus) (has_demand : Bool) (now : ℕ)
      → observed.run ≡ r
      → StopsRun (decide meta observed prior spec has_demand now).1
        ↔ (Holds (λ run. run.replicas ≢ 0) r × Justified ds observed prior has_demand now)
  unfolding decide decide_no_run decide_asleep
  decide-StopsRun none observed prior has_demand now e = rw (e, decide) (ground arith)
  decide-StopsRun (some run) observed prior has_demand now e =
      rw (e, decide)
        (ground (
          arith,
          decide_up_stops observed run prior spec has_demand now,
          Verdict-Justified ds observed prior has_demand now,
        ))

  -- Decide flips a run to 0 replicas exactly if the run is up and either its provisioning deadline
  -- passed without readiness, or the Model is not pinned and there is complete all-idle evidence
  -- older than the idle timeout, or complete evidence of a failing replica, or unmeasurable time
  -- without demand beyond the uncontrolled deadline.
  pub decide_stops_iff :
      (observed : Observed) (prior : ModelStatus) (has_demand : Bool) (now : ℕ)
      → StopsRun (decide meta observed prior spec has_demand now).1 ↔ (
          Holds (λ run. run.replicas ≢ 0) observed.run × Justified ds observed prior has_demand now)
  decide_stops_iff observed prior has_demand now =
      decide-StopsRun observed.run observed prior has_demand now refl

-- A flip that is neither the unhealthy, the uncontrolled nor the provisioning verdict.
abbrev pub SleepsRun : Action → Type 0
SleepsRun a =
    StopsRun a
    × (a.unhealthy ≡ false)
    × (a.uncontrolled ≡ false)
    × (a.provisioning_timed_out ≡ false)

decide_up_sleeps :
    (observed : Observed) (run : Run) (prior : ModelStatus) (spec : ModelSpec) (has_demand : Bool)
    (now : ℕ)
    → SleepsRun (decide_up observed run prior spec has_demand now).1
    → (spec.min_replicas ≡ 0)
      × (sleep_due observed.activity prior.last_request_at spec.idle_timeout now ≡ true)
unfolding decide_up
decide_up_sleeps observed run prior spec has_demand now h = ground arith

module _ (meta : ConditionOps) {spec : ModelSpec} (ds : Durations spec) where
  decide-SleepsRun :
      (r : Option Run) (observed : Observed) (prior : ModelStatus) (has_demand : Bool) (now : ℕ)
      → observed.run ≡ r
      → SleepsRun (decide meta observed prior spec has_demand now).1
      → (spec.min_replicas ≡ 0)
        × Holds (IsIdleLongEnough prior.last_request_at ds.idle now) observed.activity
  unfolding decide decide_no_run decide_asleep
  decide-SleepsRun none observed prior has_demand now e h =
      let h' = rw (e, decide) at h in ground (arith, h')
  decide-SleepsRun (some run) observed prior has_demand now e h =
      let h' = rw (e, decide) at h in
      elim (Bool-cases (run.replicas == 0)) [
        | inl z ↦ let g = rw z at h' in unfold decide_asleep in ground (arith, g)
        | inr z ↦
            let g = rw z at h' in
            let s =
              decide_up_sleeps (record observed { run = some run }) run prior spec has_demand now
                g in
            (
              s.0,
              (sleep_due_iff observed.activity prior.last_request_at ds.idle now ds.idle_fits).0
                  (rw ds.idle_eq at (s.1)),
            )
      ]

  -- A plain sleep is only ever of a Model that is not pinned, on complete all-idle evidence older
  -- than the idle timeout.
  pub decide_sleeps :
      (observed : Observed) (prior : ModelStatus) (has_demand : Bool) (now : ℕ)
      → SleepsRun (decide meta observed prior spec has_demand now).1
      → (spec.min_replicas ≡ 0)
        × Holds (IsIdleLongEnough prior.last_request_at ds.idle now) observed.activity
  decide_sleeps observed prior has_demand now h =
      decide-SleepsRun observed.run observed prior has_demand now refl h
