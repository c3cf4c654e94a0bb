-- ===== src/Controller/Phase.antt =====
-- The phase state machine of internal/controller/squall/phase.go: what the reconciler observed, the
-- four deadline tests, the provisioning backoff and Decide.
pub mod Deadlines
pub mod Uncontrolled
pub mod FailSafe
pub mod Wake
use squall.Common.{
  ℕ, ℤ, pos, suc, ◌+◌, ◌≡◌, Bool, true, false, not, ◌&&◌, ◌||◌, Option, none, some, String, ltb,
  ◌==◌, str_eq, lt_dur, le_dur, sub_time, mul_add, int64, second, minute, hour, if◌then◌else◌,
  is_none,
}
use squall.Api.{
  ModelPhase, ModelStatus, ModelSpec, Condition, Reason, provisioning, is_false, no_capacity,
  insufficient_credit, backend_rate_limited, waking, ready, recreating, dead, asleep,
}
use squall.Api.Conditions.{ConditionOps, same_status}
use squall.Dstack.{Run, ProvisioningFailure}

pub record ActivityEvidence : Type 0 where
  pub complete : Bool
  pub all_idle : Bool
  pub any_data : Bool
  pub newest_last_request_at : ℕ
  pub newest_last_success_at : ℕ
  pub failures_since_success : ℤ

pub record Observed : Type 0 where
  pub run : Option Run
  pub provisioning_failure : Option ProvisioningFailure
  pub ready : Bool
  pub activity : Option ActivityEvidence

pub record Action : Type 0 where
  pub apply : Bool
  pub current : Option Run
  pub replicas : ℕ
  pub alarm : Bool
  pub unhealthy : Bool
  pub uncontrolled : Bool
  pub provisioning_timed_out : Bool
  pub at : ℕ
  pub throttled : Bool
  pub throttled_until : ℕ

-- Action{At: now}.
abbrev pub idle_action : ℕ → Action
idle_action now = record {
  apply = false;
  current = none;
  replicas = 0;
  alarm = false;
  unhealthy = false;
  uncontrolled = false;
  provisioning_timed_out = false;
  at = now;
  throttled = false;
  throttled_until = 0;
}

abbrev pub default_uncontrolled_grace : ℕ
default_uncontrolled_grace = 900000000000

abbrev pub max_uncontrolled_timeout : ℕ
max_uncontrolled_timeout = 7200000000000

abbrev pub max_explicit_uncontrolled_timeout : ℕ
max_explicit_uncontrolled_timeout = 86400000000000

abbrev pub min_hard_stop : ℕ
min_hard_stop = hour

abbrev pub min_idle_timeout : ℕ
min_idle_timeout = minute

abbrev pub provisioning_retry_backoff : ℕ
provisioning_retry_backoff = minute

abbrev pub backoff_reasons : Reason → Bool
backoff_reasons no_capacity = true
backoff_reasons insufficient_credit = true
backoff_reasons backend_rate_limited = true
backoff_reasons _ = false

-- (time, true) is `some time`.
abbrev pub backoff_of : Option Condition → ℕ → Option ℕ
backoff_of none now = none
backoff_of (some cond) now =
    if not (same_status cond.status is_false)
    then none
    else if not (backoff_reasons cond.reason)
    then none
    else if cond.last_transition_time == 0
    then none
    else if ltb now (cond.last_transition_time + provisioning_retry_backoff)
    then some (cond.last_transition_time + provisioning_retry_backoff)
    else none

unfoldable pub provisioning_backoff : ConditionOps → ModelStatus → ℕ → Option ℕ
provisioning_backoff meta prior now = backoff_of (meta.find prior.conditions provisioning) now

abbrev cap_at : ℤ → ℕ → ℤ
cap_at d m = if lt_dur (pos m) d then pos m else d

-- `4*idle + grace` wraps as Go's int64 does.
abbrev default_uncontrolled : ℤ → ℤ
default_uncontrolled idle =
    cap_at (mul_add 4 idle default_uncontrolled_grace) max_uncontrolled_timeout

abbrev uncontrolled_of : Option ℤ → ℤ → ℤ
uncontrolled_of none idle = default_uncontrolled idle
uncontrolled_of (some d) idle =
    if lt_dur (pos 0) d
    then cap_at d max_explicit_uncontrolled_timeout
    else default_uncontrolled idle

unfoldable pub uncontrolled_timeout_for : ModelSpec → ℤ
uncontrolled_timeout_for spec = uncontrolled_of spec.uncontrolled_timeout spec.idle_timeout

-- The nil-safe IsZero of a *metav1.Time.
abbrev pub unset_time : Option ℕ → Bool
unset_time none = true
unset_time (some t) = t == 0

-- The instant of a *metav1.Time that was tested not to be nil.
abbrev pub instant : Option ℕ → ℕ
instant none = 0
instant (some t) = t

unfoldable pub uncontrolled_due : Option ℕ → ℤ → Bool → ℕ → Bool
uncontrolled_due since timeout has_demand now =
    not has_demand
    && lt_dur (pos 0) timeout
    && not (unset_time since)
    && lt_dur timeout (sub_time now (instant since))

unfoldable pub provisioning_due : Option ℕ → Bool → ℤ → ℕ → Bool
provisioning_due wake_started_at probed timeout now =
    if probed || le_dur timeout (pos 0) || unset_time wake_started_at
    then false
    else lt_dur timeout (sub_time now (instant wake_started_at))

abbrev sleep_due_on : ActivityEvidence → Option ℕ → ℤ → ℕ → Bool
sleep_due_on ev durable idle_timeout now =
    if not ev.complete || not ev.all_idle
    then false
    else if not ev.any_data && ev.newest_last_request_at == 0
    then (if unset_time durable
        then false
        else lt_dur idle_timeout (sub_time now (instant durable)))
    else lt_dur idle_timeout (sub_time now ev.newest_last_request_at)

unfoldable pub sleep_due : Option ActivityEvidence → Option ℕ → ℤ → ℕ → Bool
sleep_due none durable idle_timeout now = false
sleep_due (some ev) durable idle_timeout now = sleep_due_on ev durable idle_timeout now

abbrev pub default_unhealthy_failure_threshold : ℤ
default_unhealthy_failure_threshold = pos 3

abbrev pub threshold_or_default : ℤ → ℤ
threshold_or_default t = if le_dur t (pos 0) then default_unhealthy_failure_threshold else t

-- The later of the newest success and the wake.
abbrev pub health_anchor : ActivityEvidence → Option ℕ → ℕ
health_anchor ev none = ev.newest_last_success_at
health_anchor ev (some w) = if ltb ev.newest_last_success_at w then w else ev.newest_last_success_at

abbrev unhealthy_due_on : ActivityEvidence → Option ℕ → ℤ → ℤ → ℤ → ℕ → Bool
unhealthy_due_on ev wake_started_at unhealthy_after threshold idle_timeout now =
    if not ev.complete
    then false
    else if lt_dur idle_timeout (sub_time now ev.newest_last_request_at)
    then false
    else if lt_dur ev.failures_since_success (threshold_or_default threshold)
    then false
    else if health_anchor ev wake_started_at == 0
    then false
    else lt_dur unhealthy_after (sub_time now (health_anchor ev wake_started_at))

unfoldable pub unhealthy_due : Option ActivityEvidence → Bool → Option ℕ → ℤ → ℤ → ℤ → ℕ → Bool
unhealthy_due none probed wake_started_at unhealthy_after threshold idle_timeout now = false
unhealthy_due (some ev) probed wake_started_at unhealthy_after threshold idle_timeout now =
    if not probed || le_dur unhealthy_after (pos 0)
    then false
    else unhealthy_due_on ev wake_started_at unhealthy_after threshold idle_timeout now

-- The branch of Decide with no live run.
decide_no_run : ConditionOps → ModelStatus → Bool → ℕ → ModelPhase × Action
unfolding provisioning_backoff
decide_no_run meta prior want_awake now =
    let died = not (str_eq prior.run_id "") in
    let phase = if died then recreating else waking in
    if not want_awake
    then (if died
        then (dead, record (idle_action now) { alarm = true })
        else (asleep, idle_action now))
    else elim (provisioning_backoff meta prior now) [
      | some until ↦ (phase, record (idle_action now) { throttled = true; throttled_until = until })
      | none ↦ (phase, record (idle_action now) { apply = true; replicas = 1; alarm = died })
    ]

-- The branch with a run at 0 replicas.
decide_asleep : Run → Bool → ℕ → ModelPhase × Action
decide_asleep run want_awake now =
    if not want_awake
    then (asleep, idle_action now)
    else (waking, record (idle_action now) { apply = true; replicas = 1; current = some run })

abbrev is_recreating : ModelPhase → Bool
is_recreating recreating = true
is_recreating _ = false

-- A flip of the run to 0 replicas.
abbrev pub flip : Run → ℕ → Action
flip run now = record (idle_action now) { apply = true; current = some run }

-- The branch with a run that is up.
decide_up : Observed → Run → ModelStatus → ModelSpec → Bool → ℕ → ModelPhase × Action
unfolding provisioning_due sleep_due unhealthy_due uncontrolled_due uncontrolled_timeout_for
decide_up observed run prior spec has_demand now =
    if provisioning_due prior.wake_started_at observed.ready spec.provisioning_timeout now
    then (dead, record (flip run now) { alarm = true; provisioning_timed_out = true })
    else if spec.min_replicas == 0
        && sleep_due observed.activity prior.last_request_at spec.idle_timeout now
    then (asleep, flip run now)
    else if spec.min_replicas == 0
        && unhealthy_due observed.activity observed.ready prior.wake_started_at
            spec.health.unhealthy_after spec.health.failure_threshold spec.idle_timeout now
    then (asleep, record (flip run now) { unhealthy = true })
    else if spec.min_replicas == 0
        && uncontrolled_due prior.uncontrolled_since (uncontrolled_timeout_for spec) has_demand now
    then (asleep, record (flip run now) { uncontrolled = true })
    else if observed.ready
    then (ready, record (idle_action now) { replicas = 1 })
    else if is_recreating prior.phase
    then (recreating, record (idle_action now) { replicas = 1 })
    else (waking, record (idle_action now) { replicas = 1 })

abbrev pub want_awake : ModelSpec → Bool → Bool
want_awake spec has_demand = spec.min_replicas == 1 || has_demand

abbrev decide_on :
    ConditionOps → Option Run → Observed → ModelStatus → ModelSpec → Bool → ℕ → ModelPhase × Action
unfolding decide_no_run decide_asleep decide_up
decide_on meta none observed prior spec has_demand now =
    decide_no_run meta prior (want_awake spec has_demand) now
decide_on meta (some run) observed prior spec has_demand now =
    if run.replicas == 0
    then decide_asleep run (want_awake spec has_demand) now
    else decide_up observed run prior spec has_demand now

unfoldable pub decide :
    ConditionOps → Observed → ModelStatus → ModelSpec → Bool → ℕ → ModelPhase × Action
unfolding decide_on
decide meta observed prior spec has_demand now =
    decide_on meta observed.run observed prior spec has_demand now
