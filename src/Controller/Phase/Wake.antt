-- ===== src/Controller/Phase/Wake.antt =====
-- When Decide of phase.go wakes a Model, what paces it, and what its actions have in common.
use squall.Common.{
  ℕ, ◌+◌, ◌≤◌, ◌<◌, ◌≡◌, ◌≢◌, ◌↔◌, ◌⊎◌, inl, inr, refl, Bool, true, false, Option, none, some,
  arith, Holds, Option-cases, Bool-cases, ◌==◌, if◌then◌else◌,
}
use squall.Api.{
  ModelPhase, ModelStatus, ModelSpec, Condition, asleep, dead, waking, recreating, ready,
  provisioning, is_false, no_capacity, insufficient_credit, backend_rate_limited,
}
use squall.Api.Conditions.{ConditionOps}
use squall.Dstack.{Run}
use squall.Controller.Phase.{
  Observed, Action, decide, decide_up, decide_no_run, decide_asleep, want_awake,
  provisioning_backoff, provisioning_retry_backoff, backoff_of, flip, idle_action,
}

abbrev pub WakesRun : Action → Type 0
WakesRun a = (a.apply ≡ true) × (a.replicas ≡ 1)

-- A failure that the backend diagnosed and that was recorded less than a minute ago.
pub record IsRecentFailure (now until : ℕ) (c : Condition) : Type 0 where
  pub is_failure : c.status ≡ is_false
  pub is_backend :
      (c.reason ≡ no_capacity)
      ⊎ (c.reason ≡ insufficient_credit)
      ⊎ (c.reason ≡ backend_rate_limited)
  pub recorded : c.last_transition_time ≢ 0
  pub until_eq : until ≡ c.last_transition_time + provisioning_retry_backoff
  pub early : now < until

backoff_of_iff :
    (o : Option Condition) (now until : ℕ)
    → (backoff_of o now ≡ some until) ↔ Holds (IsRecentFailure now until) o
backoff_of_iff none now until = ground arith
backoff_of_iff (some c) now until = ground arith

-- The wake is held back until an instant, because of a recent failure.
abbrev pub IsPaced : ConditionOps → ModelStatus → ℕ → Action → Type 0
IsPaced meta prior now a =
    (a.apply ≡ false)
    × (a.throttled ≡ true)
    × Holds (IsRecentFailure now a.throttled_until) (meta.find prior.conditions provisioning)

no_run_wakes :
    (meta : ConditionOps) (prior : ModelStatus) (now : ℕ)
    → let a = (decide_no_run meta prior true now).1 in
      (WakesRun a × (a.throttled ≡ false)) ⊎ IsPaced meta prior now a
unfolding decide_no_run provisioning_backoff
no_run_wakes meta prior now =
    elim (Option-cases (backoff_of (meta.find prior.conditions provisioning) now)) [
      | inl e ↦ rw (e, decide_no_run) (inl (ground arith))
      | inr (u, e) ↦
          rw (e, decide_no_run)
            (inr (refl, refl, (backoff_of_iff (meta.find prior.conditions provisioning) now u).0 e))
    ]

-- No run is up: there is none, or it has 0 replicas.
abbrev pub IsDown : Option Run → Type 0
IsDown none = Unit
IsDown (some run) = run.replicas ≡ 0

module _ (meta : ConditionOps) (prior : ModelStatus) (spec : ModelSpec) (has_demand : Bool) where
  decide_wakes :
      (r : Option Run) (observed : Observed) (now : ℕ)
      → observed.run ≡ r
      → IsDown r
      → want_awake spec has_demand ≡ true
      → let a = (decide meta observed prior spec has_demand now).1 in
        (WakesRun a × (a.current ≡ r) × (a.throttled ≡ false))
        ⊎ ((r ≡ none) × IsPaced meta prior now a)
  unfolding decide
  decide_wakes none observed now e down want =
      rw (e, decide, want) (ground (arith, no_run_wakes meta prior now))
  decide_wakes (some run) observed now e down want =
      rw (e, decide, want) (unfold decide_asleep in ground arith)

  -- For a Model that is wanted (pinned, or with demand) and has no run, or a run at 0 replicas, Decide
  -- asks at once for a wake against that run; only with no run may it pace the wake, and then because
  -- the backend failed it less than a minute ago.
  pub decide_fails_open :
      (observed : Observed) (now : ℕ)
      → IsDown observed.run
      → want_awake spec has_demand ≡ true
      → let a = (decide meta observed prior spec has_demand now).1 in
        (WakesRun a × (a.current ≡ observed.run) × (a.throttled ≡ false))
        ⊎ ((observed.run ≡ none) × IsPaced meta prior now a)
  decide_fails_open observed now down want = decide_wakes observed.run observed now refl down want

until_unique :
    (o : Option Condition) (now later u v : ℕ)
    → Holds (IsRecentFailure now u) o
    → Holds (IsRecentFailure later v) o
    → (u ≡ v) × (later < v)
until_unique none now later u v h k = absurd h
until_unique (some c) now later u v h k = omega arith

-- The pacing ends: a wake that was held back is made in any pass from `throttled_until` on, if the
-- status still has the same conditions.
pub throttle_ends :
    (meta : ConditionOps) (prior : ModelStatus) (spec : ModelSpec) (has_demand : Bool)
    (observed : Observed) (now later : ℕ)
    → observed.run ≡ none
    → want_awake spec has_demand ≡ true
    → (decide meta observed prior spec has_demand now).1.throttled ≡ true
    → (decide meta observed prior spec has_demand now).1.throttled_until ≤ later
    → WakesRun (decide meta observed prior spec has_demand later).1
throttle_ends meta prior spec has_demand observed now later e want t h =
    let down : IsDown observed.run = rw e tt in
    let before = decide_fails_open meta prior spec has_demand observed now down want in
    let after = decide_fails_open meta prior spec has_demand observed later down want in
    ground (
      arith,
      before,
      after,
      until_unique (meta.find prior.conditions provisioning) now later
          (decide meta observed prior spec has_demand now).1.throttled_until
          (decide meta observed prior spec has_demand later).1.throttled_until,
    )

-- What every action of Decide has in common.
pub record IsCoherent (r : Option Run) (probed wanted : Bool) (phase : ModelPhase) (a : Action)
    : Type 0 where
  -- The CAS anchor of an Apply is the run that was observed, or nothing.
  pub anchored : a.apply ≡ true → a.current ≡ r
  pub one : a.replicas ≤ 1
  -- A wake is wanted, and nothing is running yet.
  pub wanted_wake :
      WakesRun a → (wanted ≡ true) × ((phase ≡ waking) ⊎ (phase ≡ recreating)) × IsDown r
  pub stopped : a.apply ≡ true → a.replicas ≡ 0 → (phase ≡ asleep) ⊎ (phase ≡ dead)
  pub timed_out : a.provisioning_timed_out ≡ true → (phase ≡ dead) × (a.alarm ≡ true)
  -- Ready is reported of a run that is up and has shown readiness, and nothing is applied to it.
  pub is_ready :
      phase ≡ ready → (probed ≡ true) × (a.apply ≡ false) × Holds (λ run. run.replicas ≢ 0) r
  -- A flip has one diagnosis at most.
  pub one_diagnosis :
      ((a.unhealthy ≡ false) ⊎ (a.uncontrolled ≡ false))
      × ((a.provisioning_timed_out ≡ false) ⊎ ((a.unhealthy ≡ false) × (a.uncontrolled ≡ false)))
  pub throttled_idle : a.throttled ≡ true → (a.apply ≡ false) × (wanted ≡ true) × (r ≡ none)

decide_no_run-IsCoherent :
    (meta : ConditionOps) (prior : ModelStatus) (probed wanted : Bool) (now : ℕ)
    → let (phase, a) = decide_no_run meta prior wanted now in IsCoherent none probed wanted phase a
unfolding decide_no_run
decide_no_run-IsCoherent meta prior probed wanted now = ground arith

decide_asleep-IsCoherent :
    (run : Run) (probed wanted : Bool) (now : ℕ)
    → run.replicas ≡ 0
    → let (phase, a) = decide_asleep run wanted now in IsCoherent (some run) probed wanted phase a
unfolding decide_asleep
decide_asleep-IsCoherent run probed wanted now h = ground arith

-- The ladder of decide_up, over the values of its tests.
abbrev ladder : Run → ℕ → Bool → Bool → Bool → Bool → Bool → Bool → ModelPhase × Action
ladder run now expired idle failing lost probed again =
    if expired
    then (dead, record (flip run now) { alarm = true; provisioning_timed_out = true })
    else if idle
    then (asleep, flip run now)
    else if failing
    then (asleep, record (flip run now) { unhealthy = true })
    else if lost
    then (asleep, record (flip run now) { uncontrolled = true })
    else if probed
    then (ready, record (idle_action now) { replicas = 1 })
    else if again
    then (recreating, record (idle_action now) { replicas = 1 })
    else (waking, record (idle_action now) { replicas = 1 })

ladder-IsCoherent :
    (run : Run) (now : ℕ) (expired idle failing lost probed again wanted : Bool)
    → run.replicas ≢ 0
    → let (phase, a) = ladder run now expired idle failing lost probed again in
      IsCoherent (some run) probed wanted phase a
ladder-IsCoherent run now true idle failing lost probed again wanted h = ground arith
ladder-IsCoherent run now false true failing lost probed again wanted h = ground arith
ladder-IsCoherent run now false false true lost probed again wanted h = ground arith
ladder-IsCoherent run now false false false true probed again wanted h = ground arith
ladder-IsCoherent run now false false false false true again wanted h = ground arith
ladder-IsCoherent run now false false false false false true wanted h = ground arith
ladder-IsCoherent run now false false false false false false wanted h = ground arith

decide_up-IsCoherent :
    (observed : Observed) (run : Run) (prior : ModelStatus) (spec : ModelSpec) (has_demand : Bool)
    (now : ℕ)
    → run.replicas ≢ 0
    → let (phase, a) = decide_up observed run prior spec has_demand now in
      IsCoherent (some run) observed.ready (want_awake spec has_demand) phase a
unfolding decide_up
decide_up-IsCoherent observed run prior spec has_demand now h =
    ladder-IsCoherent run now _ _ _ _ _ _ _ h

module _ (meta : ConditionOps) (prior : ModelStatus) (spec : ModelSpec) (has_demand : Bool) where
  decide-IsCoherent' :
      (r : Option Run) (observed : Observed) (now : ℕ)
      → observed.run ≡ r
      → let (phase, a) = decide meta observed prior spec has_demand now in
        IsCoherent r observed.ready (want_awake spec has_demand) phase a
  unfolding decide
  decide-IsCoherent' none observed now e =
      rw (e, decide)
        (decide_no_run-IsCoherent meta prior observed.ready (want_awake spec has_demand) now)
  decide-IsCoherent' (some run) observed now e = elim (Bool-cases (run.replicas == 0)) [
    | inl z ↦
        rw (e, decide)
          (rw z (
            decide_asleep-IsCoherent run observed.ready (want_awake spec has_demand) now
              (ground arith)))
    | inr z ↦
        rw (e, decide)
          (rw z (decide_up-IsCoherent observed run prior spec has_demand now (ground arith)))
  ]

  -- Every decision is coherent: an Apply is anchored to the observed run, asks for 0 or 1 replicas,
  -- wakes only what is wanted and not running, reports a stop as Asleep or Dead, and Ready only of a
  -- run that is up and shown ready.
  pub decide-IsCoherent :
      (observed : Observed) (now : ℕ)
      → let (phase, a) = decide meta observed prior spec has_demand now in
        IsCoherent observed.run observed.ready (want_awake spec has_demand) phase a
  decide-IsCoherent observed now = decide-IsCoherent' observed.run observed now refl

paced_wake :
    (meta : ConditionOps) (prior : ModelStatus) (wanted : Bool) (now until : ℕ)
    → backoff_of (meta.find prior.conditions provisioning) now ≡ some until
    → let a = (decide_no_run meta prior wanted now).1 in
      (a.apply ≡ false) × (wanted ≡ true → (a.throttled ≡ true) × (a.throttled_until ≡ until))
unfolding decide_no_run provisioning_backoff
paced_wake meta prior true now until e = rw (e, decide_no_run) (ground arith)
paced_wake meta prior false now until e = ground arith

-- While a backend's failure is recent, a Model without a run is not woken.
pub decide_paces :
    (meta : ConditionOps) (prior : ModelStatus) (spec : ModelSpec) (has_demand : Bool)
    (observed : Observed) (now until : ℕ)
    → observed.run ≡ none
    → backoff_of (meta.find prior.conditions provisioning) now ≡ some until
    → let a = (decide meta observed prior spec has_demand now).1 in
      (a.apply ≡ false)
      × (want_awake spec has_demand ≡ true → (a.throttled ≡ true) × (a.throttled_until ≡ until))
unfolding decide
decide_paces meta prior spec has_demand observed now until r e =
    rw (r, decide) (paced_wake meta prior (want_awake spec has_demand) now until e)
