-- ===== src/Controller/Journal/Anchor.antt =====
-- What updateActivityStatus leaves for the deadlines of the next decisions.
use squall.Common.{
  ℕ, ◌+◌, ◌≤◌, ◌<◌, ◌≡◌, ◌↔◌, ◌⊎◌, inl, refl, Bool, false, Option, none, some, arith, Holds, subst,
}
use squall.Api.{ModelSpec, ModelStatus}
use squall.Api.Conditions.{ConditionOps}
use squall.Controller.Phase.{Observed, ActivityEvidence, decide}
use squall.Controller.Phase.Deadlines.{IsIdleLongEnough}
use squall.Controller.Phase.FailSafe.{Durations, SleepsRun, decide_sleeps}
use squall.Controller.Journal.{
  update_activity_status, with_activity, with_wake, is_down, is_measurable,
}

-- The second instant is set and no earlier than the first, if that is set.
abbrev pub IsNoEarlier : Option ℕ → Option ℕ → Type 0
IsNoEarlier none last = Unit
IsNoEarlier (some t) last = Holds (λ l. t ≤ l) last

with_activity-IsNoEarlier :
    (last : Option ℕ) (activity : Option ActivityEvidence)
    → IsNoEarlier last (with_activity last activity)
with_activity-IsNoEarlier none activity = tt
with_activity-IsNoEarlier (some t) none = ground arith
with_activity-IsNoEarlier (some t) (some ev) = ground arith

with_wake-IsNoEarlier :
    (first last wake : Option ℕ)
    → IsNoEarlier first last
    → IsNoEarlier first (with_wake last wake) × IsNoEarlier wake (with_wake last wake)
with_wake-IsNoEarlier none none none h = ground arith
with_wake-IsNoEarlier none (some l) none h = ground arith
with_wake-IsNoEarlier none none (some w) h = ground arith
with_wake-IsNoEarlier none (some l) (some w) h = ground arith
with_wake-IsNoEarlier (some t) none wake h = absurd h
with_wake-IsNoEarlier (some t) (some l) none h = ground (arith, h)
with_wake-IsNoEarlier (some t) (some l) (some w) h = ground (arith, h)

last_request_at-update :
    (status : ModelStatus) (observed : Observed) (has_demand : Bool) (now : ℕ)
    → (update_activity_status status observed has_demand now).0.last_request_at
      ≡ with_wake (with_activity status.last_request_at observed.activity) status.wake_started_at
unfolding update_activity_status
last_request_at-update status observed has_demand now = ground arith

-- The remembered request never moves back, and never lies before the wake.
pub update_activity_status-IsNoEarlier :
    (status : ModelStatus) (observed : Observed) (has_demand : Bool) (now : ℕ)
    → let last = (update_activity_status status observed has_demand now).0.last_request_at in
      IsNoEarlier status.last_request_at last × IsNoEarlier status.wake_started_at last
update_activity_status-IsNoEarlier status observed has_demand now =
    rw (last_request_at-update status observed has_demand now) (
      with_wake-IsNoEarlier status.last_request_at
        (with_activity status.last_request_at observed.activity) status.wake_started_at
        (with_activity-IsNoEarlier status.last_request_at observed.activity))

-- The uncontrolled clock runs exactly while a run is up whose idleness cannot be judged and that
-- nobody demands; it keeps its first instant.
pub uncontrolled_since_iff :
    (status : ModelStatus) (observed : Observed) (has_demand : Bool) (now t : ℕ)
    → ((update_activity_status status observed has_demand now).0.uncontrolled_since ≡ some t) ↔ (
        (is_down observed.run ≡ false)
        × (is_measurable observed.activity ≡ false)
        × (has_demand ≡ false)
        × ((status.uncontrolled_since ≡ some t) ⊎ ((status.uncontrolled_since ≡ none) × (t ≡ now))))
unfolding update_activity_status
uncontrolled_since_iff status observed has_demand now t = ground arith

aged_after :
    (ev : ActivityEvidence) (last wake : Option ℕ) (d now : ℕ)
    → ev.any_data ≡ false
    → ev.newest_last_request_at ≡ 0
    → IsNoEarlier wake last
    → IsIdleLongEnough last d now ev
    → (wake ≡ none) ⊎ Holds (λ w. w + d < now) wake
aged_after ev last none d now a n k i = inl refl
aged_after ev none (some w) d now a n k i = absurd k
aged_after ev (some l) (some w) d now a n k i = ground (arith, i.aged)

-- While no proxy has data for a Model, Decide makes an idle flip of it, one that is neither for failures,
-- nor uncontrolled, nor for the time that provisioning takes, on the status as journalled just before
-- only if no wake is on record or the idle timeout has passed since it.
pub update-decide_wake :
    (meta : ConditionOps) {spec : ModelSpec} (ds : Durations spec) (observed : Observed)
    (ev : ActivityEvidence) (prior : ModelStatus) (has_demand : Bool) (now : ℕ)
    → observed.activity ≡ some ev
    → ev.any_data ≡ false
    → ev.newest_last_request_at ≡ 0
    → (let status = (update_activity_status prior observed has_demand now).0 in
        SleepsRun (decide meta observed status spec has_demand now).1)
    → (prior.wake_started_at ≡ none) ⊎ Holds (λ w. w + ds.idle < now) prior.wake_started_at
update-decide_wake meta ds observed ev prior has_demand now e a n h =
    let status = (update_activity_status prior observed has_demand now).0 in
    let slept = decide_sleeps meta ds observed status has_demand now h in
    let idle : IsIdleLongEnough status.last_request_at ds.idle now ev =
      subst (Holds (IsIdleLongEnough status.last_request_at ds.idle now)) e slept.1 in
    aged_after ev status.last_request_at prior.wake_started_at ds.idle now a n
      (update_activity_status-IsNoEarlier prior observed has_demand now).1 idle
