-- ===== src/Controller/Journal.antt =====
-- The journal of activity in a Model's status: updateActivityStatus of
-- internal/controller/squall/model_controller.go.
pub mod Anchor
use squall.Common.{
  ℕ, Bool, true, false, not, ◌&&◌, ◌||◌, Option, none, some, ltb, ◌==◌, if◌then◌else◌,
}
use squall.Api.{ModelStatus}
use squall.Dstack.{Run}
use squall.Controller.Phase.{Observed, ActivityEvidence}

-- The instant moved forward to t.
abbrev pub advanced : Option ℕ → ℕ → Option ℕ
advanced none t = some t
advanced (some last) t = if ltb last t then some t else some last

abbrev pub with_activity : Option ℕ → Option ActivityEvidence → Option ℕ
with_activity last none = last
with_activity last (some ev) =
    if ev.any_data && not (ev.newest_last_request_at == 0)
    then advanced last ev.newest_last_request_at
    else last

abbrev pub with_wake : Option ℕ → Option ℕ → Option ℕ
with_wake last none = last
with_wake last (some w) = advanced last w

-- The evidence is complete, so that idleness can be judged.
abbrev pub is_measurable : Option ActivityEvidence → Bool
is_measurable none = false
is_measurable (some ev) = ev.complete

abbrev pub is_down : Option Run → Bool
is_down none = true
is_down (some run) = run.replicas == 0

abbrev pub since_or : Option ℕ → ℕ → Option ℕ
since_or none now = some now
since_or (some t) now = some t

-- The status that it leaves, and the instant for the metrics.
unfoldable pub update_activity_status : ModelStatus → Observed → Bool → ℕ → ModelStatus × Option ℕ
update_activity_status status observed has_demand now =
    let last =
      with_wake (with_activity status.last_request_at observed.activity) status.wake_started_at in
    let kept = record status { last_request_at = last } in
    if is_down observed.run || is_measurable observed.activity
    then (record kept { uncontrolled_since = none }, none)
    else if has_demand
    then (record kept { uncontrolled_since = none }, since_or status.uncontrolled_since now)
    else (
      record kept { uncontrolled_since = since_or status.uncontrolled_since now },
      since_or status.uncontrolled_since now,
    )
