-- ===== src/Controller/Sleep.antt =====
-- The sleep flip from end to end: what Decide (phase.go) does on the evidence that
-- aggregateActivity (activity.go) made of the proxy replicas' answers.
use squall.Common.{
  ℕ, ◌+◌, ◌<◌, ◌≡◌, ◌≢◌, ◌⊎◌, inl, inr, Bool, true, Option, none, some, String, List, [], ◌∷◌,
  arith, Option-cases,
}
use squall.Api.{ModelStatus, ModelSpec}
use squall.Api.Conditions.{ConditionOps}
use squall.Controller.Phase.{Observed, decide, ActivityEvidence}
use squall.Controller.Phase.Deadlines.{IsIdleLongEnough}
use squall.Controller.Phase.FailSafe.{SleepsRun, Durations, decide_sleeps}
use squall.Controller.Activity.{ActivityQuery, aggregate_activity}
use squall.Controller.Activity.Answers.{EachAnswer, last_answer}
use squall.Controller.Activity.Loop.{IsIdleAnswer}
use squall.Controller.Activity.Evidence.{
  IsBounded, aggregate_idle_iff, aggregate_newest, aggregate_unseen,
}

-- A proxy replica that had nothing in flight for the Model, and whose last request, if it saw any,
-- ended longer ago than d.
pub record IsIdleSince (now d : ℕ) (q : ActivityQuery) : Type 0 where
  pub idle : IsIdleAnswer now q
  pub aged : (q.no_data ≡ true) ⊎ (q.last_request_at + d < now)

idle-since :
    (now d newest : ℕ) (addrs : List String) (qs : List ActivityQuery)
    → (newest + d < now)
    → EachAnswer (IsIdleAnswer now) addrs qs
    → EachAnswer (IsBounded now newest) addrs qs
    → EachAnswer (IsIdleSince now d) addrs qs
idle-since now d newest [] qs h i b = tt
idle-since now d newest (a ∷ addrs) qs h i b =
    let rest = idle-since now d newest addrs qs h i.1 b.1 in
    elim (Option-cases (last_answer a qs none)) [
      | inl e ↦ let i' = rw e at (i.0) in absurd i'
      | inr (q, e) ↦
          let i' = rw e at (i.0) in
          let b' = rw e at (b.0) in
          (rw e (record { idle = i'; aged = ground (arith, b'.before) }), rest)
    ]

-- Evidence that is old enough has its newest request further back than the idle timeout.
newest-aged :
    (ev : ActivityEvidence) (durable : Option ℕ) (d now : ℕ)
    → ((ev.any_data ≡ true) ⊎ (ev.newest_last_request_at ≡ 0))
    → IsIdleLongEnough durable d now ev
    → ev.newest_last_request_at + d < now
newest-aged ev none d now u i = ground (arith, i.aged)
newest-aged ev (some t) d now u i = ground (arith, i.aged)

-- When Decide puts a Model to sleep on the evidence of a sweep, every proxy replica that was expected
-- has answered, has nothing in flight for the Model, and saw no request within the idle timeout; and
-- the Model is not pinned.
pub sleep_is_quiet :
    (meta : ConditionOps) {spec : ModelSpec} (ds : Durations spec) (addrs : List String)
    (qs : List ActivityQuery) (observed : Observed) (prior : ModelStatus) (has_demand : Bool)
    (now : ℕ)
    → observed.activity ≡ some (aggregate_activity addrs qs now)
    → SleepsRun (decide meta observed prior spec has_demand now).1
    → (spec.min_replicas ≡ 0) × (addrs ≢ []) × EachAnswer (IsIdleSince now ds.idle) addrs qs
sleep_is_quiet meta ds addrs qs observed prior has_demand now e h =
    let ev = aggregate_activity addrs qs now in
    let slept = decide_sleeps meta ds observed prior has_demand now h in
    let idle : IsIdleLongEnough prior.last_request_at ds.idle now ev = rw e at (slept.1) in
    let quiet = (aggregate_idle_iff addrs qs now).0 (idle.is_complete, idle.is_idle) in
    let aged =
      newest-aged ev prior.last_request_at ds.idle now (aggregate_unseen addrs qs now) idle in
    (
      slept.0,
      quiet.0,
      idle-since now ds.idle ev.newest_last_request_at addrs qs aged quiet.1
          (aggregate_newest addrs qs now idle.is_complete),
    )
